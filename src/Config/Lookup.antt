-- ===== src/Config/Lookup.antt =====
-- Lookup of what a migrated profile became, in the lists of src/config/toche_config.rs.
use toche.Prelude.{
  List, [], ◌∷◌, ◌++◌, none, some, Bool, true, false, ◌&&◌, not, Text, text_eq, text_eq_refl, find,
  map, all, ◌≡◌, refl, ap, arith, Bool-cases, inl, inr,
}
use mathlib.Core.Option

-- Whether no text stands twice in a list.
abbrev pub distinct : List Text → Bool
distinct [] = true
distinct (k ∷ ks) = all (λ j. not (text_eq k j)) ks && distinct ks

module _ {A : Type 0} (key : A → Text) where
  all-middle :
      (f : Text → Bool) (pre post : List A) (p : A)
      → all f (map key (pre ++ p ∷ post)) ≡ true
      → f (key p) ≡ true
  all-middle f [] post p h = ground arith
  all-middle f (q ∷ pre) post p h = all-middle f pre post p (ground arith)

  -- The entry made of an element is found under the key of that element.
  pub find-middle :
      {X : Type 0} (mk : A → X) (id : X → Text)
      → ((p : A) → id (mk p) ≡ key p)
      → (pre post : List A) (p : A) → distinct (map key (pre ++ p ∷ post)) ≡ true
      → find (λ x. text_eq (id x) (key p)) (map mk (pre ++ p ∷ post)) ≡ some (mk p)
  find-middle mk id agree [] post p h = rw (agree p, text_eq_refl (key p)) refl
  find-middle mk id agree (q ∷ pre) post p h =
      let apart : text_eq (key q) (key p) ≡ false =
        ground (arith, all-middle (λ j. not (text_eq (key q) j)) pre post p) in
      rw (agree q, apart) (find-middle mk id agree pre post p (ground arith))

-- An element that is found splits the list.
pub find-split :
    {A : Type 0} (f : A → Bool) (xs : List A) (x : A)
    → find f xs ≡ some x
    → (pre : List A) × (post : List A) × (xs ≡ pre ++ x ∷ post)
find-split f [] x h = absurd cc
find-split f (y ∷ xs) x h = elim (Bool-cases (f y)) [
  | inl e ↦ ([], xs, ap (λ o. elim o [ some z ↦ z ∷ xs | none ↦ [] ]) (rw e at h))
  | inr e ↦
      let (pre, post, split) = find-split f xs x (rw e at h) in
      (y ∷ pre, post, ap (λ t. y ∷ t) split)
]

pub find-map :
    {A B : Type 0} (f : B → Bool) (g : A → B) (xs : List A)
    → find f (map g xs) ≡ Option.map g (find (λ x. f (g x)) xs)
find-map f g [] = refl
find-map f g (x ∷ xs) = elim (Bool-cases (f (g x))) [
  | inl e ↦ rw e refl
  | inr e ↦ rw e (find-map f g xs)
]
