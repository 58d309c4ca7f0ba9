-- ===== src/Continuity/Observed.antt =====
-- src/continuity/observer.rs: what a drain hands over.
use toche.Prelude.{
  List, [], ◌∷◌, ◌++◌, Bool, true, false, not, ◌&&◌, ◌||◌, Text, text_eq, text_eq_iff, ◌≡◌, refl,
  any, arith, Bool-cases, inl, inr, ◌∙◌, ap,
}
use toche.Json.{Json}
use toche.SafeCache.Db.{contains}
use toche.SafeCache.Inspect.{is_empty}
use toche.Continuity.Observer.{
  drain_facts, no_facts, SessionFacts, is_empty_facts, push_new, push_all, extract_facts,
  observe_response,
}

pub data Fact : Type 0 where
  reads : Fact
  writes : Fact
  commands : Fact
  models : Fact

abbrev pub facts_of : Fact → SessionFacts → List Text
facts_of reads s = s.files_read
facts_of writes s = s.files_written
facts_of commands s = s.commands_run
facts_of models s = s.models_used

abbrev pub is_unique : List Text → Bool
is_unique [] = true
is_unique (x ∷ xs) = not (contains x xs) && is_unique xs

pub contains-append :
    (x f : Text) (xs : List Text) → contains x (xs ++ (f ∷ [])) ≡ contains x xs || text_eq f x
contains-append x f [] = ground arith
contains-append x f (y ∷ xs) = ground (arith, contains-append x f xs)

contains-eq : (x f : Text) (xs : List Text) → text_eq f x ≡ true → contains x xs ≡ contains f xs
contains-eq x f xs e = ap (λ y. contains y xs) (ground (arith, text_eq_iff f x))

contains-push_new :
    (x f : Text) (xs : List Text) → contains x (push_new f xs) ≡ contains x xs || text_eq f x
contains-push_new x f xs = elim (Bool-cases (text_eq f x)) [
  | inl same ↦ ground (arith, contains-append x f xs, contains-eq x f xs same)
  | inr other ↦ ground (arith, contains-append x f xs)
]

contains-push_all :
    (x : Text) (fs xs : List Text) → contains x (push_all fs xs) ≡ contains x xs || contains x fs
contains-push_all x [] xs = ground arith
contains-push_all x (f ∷ fs) xs =
    ground (arith, contains-push_all x fs (push_new f xs), contains-push_new x f xs)

is_unique-append :
    (f : Text) (xs : List Text)
    → contains f xs ≡ false
    → is_unique xs ≡ true
    → is_unique (xs ++ (f ∷ [])) ≡ true
is_unique-append f [] h u = refl
is_unique-append f (y ∷ xs) h u =
    ground (arith, is_unique-append f xs, contains-append y f xs, text_eq_iff f y, text_eq_iff y f)

is_unique-push_new :
    (f : Text) (xs : List Text) → is_unique xs ≡ true → is_unique (push_new f xs) ≡ true
is_unique-push_new f xs u = elim (Bool-cases (contains f xs)) [
  | inl known ↦ rw known u
  | inr new ↦ rw new (is_unique-append f xs new u)
]

is_unique-push_all : (fs xs : List Text) → is_unique xs ≡ true → is_unique (push_all fs xs) ≡ true
is_unique-push_all [] xs u = u
is_unique-push_all (f ∷ fs) xs u = is_unique-push_all fs (push_new f xs) (is_unique-push_new f xs u)

push_all_nothing : (fs xs : List Text) → is_empty fs ≡ true → xs ≡ push_all fs xs
push_all_nothing [] xs e = refl
push_all_nothing (f ∷ fs) xs e = cc

is_empty-facts_of :
    (k : Fact) (facts : SessionFacts)
    → is_empty_facts facts ≡ true
    → is_empty (facts_of k facts) ≡ true
is_empty-facts_of reads facts e = ground arith
is_empty-facts_of writes facts e = ground arith
is_empty-facts_of commands facts e = ground arith
is_empty-facts_of models facts e = ground arith

module _ (json : Json) where
  -- Each kind of facts grows by those of the response, also where it has none.
  facts_of-observe_response :
      (k : Fact) (body : Text) (guard : SessionFacts)
      → facts_of k (observe_response json body guard)
        ≡ push_all (facts_of k (extract_facts json body)) (facts_of k guard)
  unfolding observe_response
  facts_of-observe_response k body guard =
      elim (Bool-cases (is_empty_facts (extract_facts json body))) [
        | inl empty_ ↦ rw empty_ (
            push_all_nothing (facts_of k (extract_facts json body)) (facts_of k guard)
              (is_empty-facts_of k (extract_facts json body) empty_))
        | inr some_ ↦ rw some_ (grown k)
      ]
    where
      grown :
          (j : Fact)
          → facts_of j (record {
            files_read = push_all (extract_facts json body).files_read guard.files_read;
            files_written = push_all (extract_facts json body).files_written guard.files_written;
            commands_run = push_all (extract_facts json body).commands_run guard.commands_run;
            models_used = push_all (extract_facts json body).models_used guard.models_used;
          })
            ≡ push_all (facts_of j (extract_facts json body)) (facts_of j guard)
      grown reads = refl
      grown writes = refl
      grown commands = refl
      grown models = refl

  unfoldable pub observe_all : List Text → SessionFacts → SessionFacts
  unfolding observe_response
  observe_all [] guard = guard
  observe_all (body ∷ bodies) guard = observe_all bodies (observe_response json body guard)

  contains-observe_all :
      (k : Fact) (x : Text) (bodies : List Text) (guard : SessionFacts)
      → contains x (facts_of k (observe_all bodies guard))
        ≡ contains x (facts_of k guard)
          || any (λ body. contains x (facts_of k (extract_facts json body))) bodies
  unfolding observe_all
  contains-observe_all k x [] guard = ground arith
  contains-observe_all k x (body ∷ bodies) guard = ground (
    arith,
    contains-observe_all k x bodies (observe_response json body guard),
    ap (contains x) (facts_of-observe_response k body guard),
    contains-push_all x (facts_of k (extract_facts json body)) (facts_of k guard),
  )

  is_unique-observe_all :
      (k : Fact) (bodies : List Text) (guard : SessionFacts)
      → is_unique (facts_of k guard) ≡ true
      → is_unique (facts_of k (observe_all bodies guard)) ≡ true
  unfolding observe_all
  is_unique-observe_all k [] guard u = u
  is_unique-observe_all k (body ∷ bodies) guard u =
      is_unique-observe_all k bodies (observe_response json body guard) (
        ap is_unique (facts_of-observe_response k body guard)
        ∙ is_unique-push_all (facts_of k (extract_facts json body)) (facts_of k guard) u)

  facts_of-no_facts : (k : Fact) → facts_of k no_facts ≡ []
  facts_of-no_facts reads = refl
  facts_of-no_facts writes = refl
  facts_of-no_facts commands = refl
  facts_of-no_facts models = refl

  -- What is drained after any sequence of responses is, for files read, files written, commands and
  -- models alike, what the responses hold one by one, each once, and the observer is empty
  -- afterwards.
  pub drain_facts-observe_all :
      (k : Fact) (x : Text) (bodies : List Text)
      → let drained = drain_facts (observe_all bodies no_facts) in
        (contains x (facts_of k drained.0)
          ≡ any (λ body. contains x (facts_of k (extract_facts json body))) bodies)
        × (is_unique (facts_of k drained.0) ≡ true)
        × (drained.1 ≡ no_facts)
  unfolding drain_facts
  drain_facts-observe_all k x bodies = (
    contains-observe_all k x bodies no_facts
        ∙ ap
            (λ xs.
              contains x xs || any (λ b. contains x (facts_of k (extract_facts json b))) bodies)
            (facts_of-no_facts k),
    is_unique-observe_all k bodies no_facts (ap is_unique (facts_of-no_facts k)),
    refl,
  )
