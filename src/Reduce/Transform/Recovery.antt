-- ===== src/Reduce/Transform/Recovery.antt =====
-- src/reduce/transform.rs: what a reduction has taken out can be had back.
use toche.Prelude.{
  subst, ℕ, List, ◌∷◌, some, Bool, true, Text, ◌≡◌, inl, inr, ap, sym, ok, codes, ◌∙◌, refl,
}
use mathlib.Core.List.{Memᴰ}
use mathlib.Core.List.Memᴰ
use toche.Prelude.Texts.{utf8}
use toche.Config.Types.{ReduceConfig}
use toche.Reduce.Storage.{IsLawful, is_valid_hash, blob_path, store_at, retrieve_at}
use toche.Reduce.Storage.Integrity.{
  IsContentAddressed, store_at-retrieve_at, store_at_either, retrieve_some, retrieved,
}
use toche.Json.Arrays.{array_field}
use toche.Reduce.Commands.Uses.{Use, uses_in}
use toche.Reduce.Contents.{has_kind, extract_text_content}
use toche.Reduce.Transform.{
  Env, ReductionResult, count_passed, count_reduced, start, reduce_body_at,
}
use toche.Reduce.Transform.Steps.{
  Step, skip, pass, change, Steps, none_left, one_more, Run, finished, plain, blocks,
}
use toche.Reduce.Transform.Runs.{reduce_body_at-Run, target}

module _ (env : Env) (laws : IsLawful env.fs)
    (hex : (t : Text) → is_valid_hash (env.digest t) ≡ true) where
  open env use {json, fs, digest}
  open json use {Value}
  open fs use {Files, read}

  -- A tool result in the messages.
  abbrev pub IsResultOf : List Value → Value → Type 0
  IsResultOf ms b =
      (m : Value) × (bs : List Value) × Memᴰ m ms
      × (array_field json (codes "content") m ≡ some bs)
      × Memᴰ b bs
      × (has_kind json (codes "tool_result") b ≡ true)

  later_result : (m b : Value) (ms : List Value) → IsResultOf ms b → IsResultOf (m ∷ ms) b
  later_result m b ms r =
      let (n, bs, is_in, content, here, kind) = r in (n, bs, Memᴰ.tail is_in, content, here, kind)

  -- The text of a tool result, as it is stored.
  abbrev pub raw_of : Value → Text
  raw_of b = utf8 (extract_text_content json b)

  module _ (IsSource : Value → Type 0) where
    -- Each listed hash is valid, and names a blob with the text of one of the sources.
    record IsKept (x : ReductionResult × Files) : Type 0 where
      pub addressed : IsContentAddressed fs laws digest x.1
      pub valid : (h : Text) → Memᴰ h x.0.hashes → is_valid_hash h ≡ true
      pub there :
          (h : Text)
          → Memᴰ h x.0.hashes
          → (b : Value) × IsSource b × (read (blob_path h) x.1 ≡ some (raw_of b))

    stored-IsKept :
        (b : Value) (r : ReductionResult) (s s' : Files) (hash : Text) (raw small : ℕ)
        → IsSource b
        → store_at fs digest (raw_of b) s ≡ (ok hash, s')
        → IsKept (r, s)
        → IsKept (count_reduced raw small hash r, s')
    unfolding count_reduced
    stored-IsKept b r s s' hash raw small source stored kept =
        let (named, back, addressed) =
          store_at-retrieve_at fs laws digest (raw_of b) hash s s' (hex (raw_of b)) kept.addressed
            stored in
        record {
          addressed = addressed;
          valid = λ h m. elim (Memᴰ.append_cases r.hashes m) [
            | inl old ↦ kept.valid h old
            | inr new ↦ elim (Memᴰ.cases_cons new) [
              | inl same ↦ rw (same, sym named) (hex (raw_of b))
              | inr none_more ↦ absurd (Memᴰ.not-nil none_more)
            ]
          ];
          there = λ h m. elim (Memᴰ.append_cases r.hashes m) [
            | inl old ↦
                let (a, is_source, before) = kept.there h old in
                elim (store_at_either fs laws digest (raw_of b) hash (blob_path h) (raw_of a) s s'
                  stored before) [
                    | inl kept_text ↦ (a, is_source, kept_text)
                    | inr new_text ↦ (b, source, new_text)
                  ]
            | inr new ↦ elim (Memᴰ.cases_cons new) [
              | inl same ↦ (
                b,
                source,
                rw (ap blob_path same) (retrieved fs laws digest hash (raw_of b) s' back),
              )
              | inr none_more ↦ absurd (Memᴰ.not-nil none_more)
            ]
          ];
        }

    Step-IsKept :
        (config : ReduceConfig) (uses : List (Use json)) {b b' : Value}
        → {x y : ReductionResult × Files}
        → (has_kind json (codes "tool_result") b ≡ true → IsSource b)
        → Step env config uses b x b' y
        → IsKept x
        → IsKept y
    unfolding count_passed
    Step-IsKept config uses source (skip b x k) kept = kept
    Step-IsKept config uses source (pass b r s k why) kept = record {
      addressed = kept.addressed;
      valid = kept.valid;
      there = kept.there;
    }
    Step-IsKept config uses source (change b b' r s s' f c t hash raw small k n x m stored q u v)
          kept =
        stored-IsKept b r s s' hash raw small (source k)
          (ap (λ z. store_at fs digest (utf8 z) s) x ∙ stored) kept

    Steps-IsKept :
        (config : ReduceConfig) (uses : List (Use json)) {bs bs' : List Value}
        → {x y : ReductionResult × Files}
        → ((b : Value) → Memᴰ b bs → has_kind json (codes "tool_result") b ≡ true → IsSource b)
        → Steps env config uses bs x bs' y
        → IsKept x
        → IsKept y
    Steps-IsKept config uses source (none_left x) kept = kept
    Steps-IsKept config uses source (one_more b b' bs bs' x y z now later) kept =
        Steps-IsKept config uses (λ a m. source a (Memᴰ.tail m)) later
          (Step-IsKept config uses (source b (Memᴰ.head refl)) now kept)

    run-IsKept :
        (config : ReduceConfig) (uses : List (Use json)) {ms ms' : List Value}
        → {x y : ReductionResult × Files} → ((b : Value) → IsResultOf ms b → IsSource b)
        → Run env config uses ms x ms' y
        → IsKept x
        → IsKept y
    run-IsKept config uses source (finished x) kept = kept
    run-IsKept config uses source (plain m ms ms' x y k later) kept =
        run-IsKept config uses (λ b r. source b (later_result m b ms r)) later kept
    run-IsKept config uses source (blocks m ms ms' bs bs' x y z k now later) kept =
        run-IsKept config uses (λ b r. source b (later_result m b ms r)) later
          (Steps-IsKept config uses
            (λ b is_in kind. source b (m, bs, Memᴰ.head refl, k, is_in, kind)) now kept)

    start-IsKept :
        (body : Text) (s : Files) → IsContentAddressed fs laws digest s → IsKept (start body, s)
    unfolding start
    start-IsKept body s addressed = record {
      addressed = addressed;
      valid = λ h m. absurd (Memᴰ.not-nil m);
      there = λ h m. absurd (Memᴰ.not-nil m);
    }

  -- Where the digests are valid hashes and each stored blob has the digest that names it, a
  -- reduction that succeeds loses no text that it lists: what can be retrieved at the end by a
  -- listed hash is the whole text of a tool result of the request, and the hash is its digest. Each
  -- blob then still has the digest that names it.
  pub reduce_body_at-retrieve_at :
      (body : Text) (config : ReduceConfig) (bypass_header : Bool) (s s' : Files)
      → (r : ReductionResult) (h : Text) → IsContentAddressed fs laws digest s
      → reduce_body_at env body config bypass_header s ≡ (ok r, s')
      → Memᴰ h r.hashes
      → ((root : Value) × (ms : List Value) × (b : Value) × (target env body config bypass_header
            ≡ some (root, ms))
          × IsResultOf ms b
          × (retrieve_at fs digest h s' ≡ ok (raw_of b))
          × (digest (raw_of b) ≡ h))
        × IsContentAddressed fs laws digest s'
  unfolding start
  reduce_body_at-retrieve_at body config bypass_header s s' r h addressed e m =
      elim (reduce_body_at-Run env body config bypass_header s s' r e) [
        | inl (bare, same, files) ↦
            absurd
              (Memᴰ.not-nil (subst (λ l. Memᴰ h l) (ap (λ (x : ReductionResult). x.hashes) same) m))
        | inr (root, ms, ms', q, found, walked, printed, same) ↦
            let kept =
              run-IsKept (IsResultOf ms) config (uses_in json root) (λ b is_in. is_in) walked
                (start-IsKept (IsResultOf ms) body s addressed) in
            let listed =
              subst (λ l. Memᴰ h l) (sym (ap (λ (x : ReductionResult). x.hashes) same)) m in
            let (b, is_in, is_there) = kept.there h listed in
            let valid = kept.valid h listed in
            (
              (
                root,
                ms,
                b,
                found,
                is_in,
                retrieve_some fs laws digest h (raw_of b) s' valid is_there,
                kept.addressed.named h (raw_of b) valid is_there,
              ),
              kept.addressed,
            )
      ]
