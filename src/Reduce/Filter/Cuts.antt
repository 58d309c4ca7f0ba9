-- ===== src/Reduce/Filter/Cuts.antt =====
-- How the stages that cut lines change a list.
use toche.Prelude.{
  is_whitespace, ◌⊎◌, ℕ, ◌+◌, ◌-◌, ◌≤◌, List, [], ◌∷◌, ◌++◌, Option, none, some, Bool, true, false,
  ◌&&◌, inl, Text, text_eq_iff, String, ◌≡◌, refl, arith, length, length-append, length-take, take,
  drop, all,
}
use toche.Reduce.Lines.{truncate, is_blank, truncate_visible}
use toche.Reduce.Filter.{omission, cut, cap_lines, truncate_lines}

-- An omission line is never blank.
pub omission_visible : (what : String) (n : ℕ) → is_blank (omission what n) ≡ false
unfolding omission is_blank is_whitespace
omission_visible what n = refl

pub all-append {ℓ} :
    {A : Type ℓ} (p : A → Bool) (xs ys : List A) → all p (xs ++ ys) ≡ (all p xs && all p ys)
all-append p [] ys = refl
all-append p (x ∷ xs) ys = ground (arith, all-append p xs ys)

-- Lines among which one is an omission line do not pass for empty output.
pub marked_visible :
    (xs ys : List Text) (what : String) (n : ℕ) → all is_blank (xs ++ omission what n ∷ ys) ≡ false
marked_visible xs ys what n =
    ground (arith, all-append is_blank xs (omission what n ∷ ys), omission_visible what n)

-- Truncation that loses nothing changes nothing.
pub truncate_lines-intact :
    (limit : Option ℕ) (ls : List Text)
    → (truncate_lines limit ls).1 ≡ false
    → (truncate_lines limit ls).0 ≡ ls
unfolding truncate_lines
truncate_lines-intact none ls h = refl
truncate_lines-intact (some n) [] h = refl
truncate_lines-intact (some n) (l ∷ ls) h =
    ground (arith, text_eq_iff (truncate l n) l, truncate_lines-intact (some n) ls)

-- Truncation that loses something leaves something to be seen.
pub truncate_lines_visible :
    (limit : Option ℕ) (ls : List Text)
    → (truncate_lines limit ls).1 ≡ true
    → all is_blank (truncate_lines limit ls).0 ≡ false
unfolding truncate_lines
truncate_lines_visible none ls h = cc
truncate_lines_visible (some n) [] h = cc
truncate_lines_visible (some n) (l ∷ ls) h =
    ground (arith, truncate_visible l n, truncate_lines_visible (some n) ls)

-- Stage 6 leaves the lines as they are, or leaves an omission line among them.
pub cut-cases :
    (head last : Option ℕ) (ls : List Text)
    → (((cut head last ls).kept ≡ ls)
        × ((cut head last ls).noncontiguous_drop ≡ false)
        × ((cut head last ls).head_cut ≡ none))
      ⊎ (all is_blank (cut head last ls).kept ≡ false)
unfolding cut
cut-cases (some head) (some last) ls = ground (
  arith,
  marked_visible (take head ls) (drop (length ls - last) ls) " lines omitted)"
      (length ls - head - last),
)
cut-cases (some head) none ls =
    ground (arith, marked_visible (take head ls) [] " lines omitted)" (length ls - head))
cut-cases none (some last) ls =
    ground
      (arith, marked_visible [] (drop (length ls - last) ls) " lines omitted)" (length ls - last))
cut-cases none none ls = inl (refl, refl, refl)

-- So does stage 7.
pub cap_lines-cases :
    (max : Option ℕ) (ls : List Text)
    → (((cap_lines max ls).0 ≡ ls) × ((cap_lines max ls).1 ≡ none))
      ⊎ (all is_blank (cap_lines max ls).0 ≡ false)
unfolding cap_lines
cap_lines-cases none ls = inl (refl, refl)
cap_lines-cases (some max) ls =
    ground (arith, marked_visible (take max ls) [] " lines truncated)" (length ls - max))

-- After stage 7 there are at most `max_lines` lines and one that counts the rest.
pub length-cap_lines : (max : ℕ) (ls : List Text) → length (cap_lines (some max) ls).0 ≤ max + 1
unfolding cap_lines
length-cap_lines max ls = ground (
  arith,
  length-append (take max ls) (omission " lines truncated)" (length ls - max) ∷ []),
  length-take max ls,
)
