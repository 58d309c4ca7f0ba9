-- ===== src/Reduce/Filter/Newlines.antt =====
-- How many line feeds the stages that cut lines leave.
use toche.Prelude.{
  ℕ, zero, suc, ◌+◌, ◌-◌, ◌≤◌, List, [], ◌∷◌, ◌++◌, Option, none, some, Bool, true, false, Text,
  codes, String, ◌≡◌, refl, arith, length, take, drop, all, any, if◌then◌else◌, ◌==◌,
}
use toche.Reduce.Lines.{newline, join, truncate, decimal, decimal_lacks}
use toche.Reduce.Filter.{omission, cut, cap_lines, truncate_lines, Limits}
use toche.Reduce.Filter.Cuts.{all-append}
use toche.Reduce.Filter.Recovery.{output_lines}

abbrev pub newlines : Text → ℕ
newlines [] = 0
newlines (c ∷ t) = (if c == newline then 1 else 0) + newlines t

newlines-append : (s t : Text) → newlines (s ++ t) ≡ newlines s + newlines t
newlines-append [] t = omega arith
newlines-append (c ∷ s) t = omega (arith, newlines-append s t)

newlines-take : (n : ℕ) (t : Text) → newlines (take n t) ≤ newlines t
newlines-take zero t = omega arith
newlines-take (suc n) [] = omega arith
newlines-take (suc n) (c ∷ t) = omega (arith, newlines-take n t)

-- A text of one line.
abbrev pub is_one_line : Text → Bool
is_one_line t = newlines t == 0

newlines-join : (ls : List Text) → all is_one_line ls ≡ true → newlines (join ls) ≤ length ls - 1
unfolding join
newlines-join [] h = omega arith
newlines-join (l ∷ []) h = ground arith
newlines-join (l ∷ (m ∷ ls)) h =
    ground (arith, newlines-append l (newline ∷ join (m ∷ ls)), newlines-join (m ∷ ls))

all-take {ℓ} :
    {A : Type ℓ} (p : A → Bool) (n : ℕ) (xs : List A) → all p xs ≡ true → all p (take n xs) ≡ true
all-take p zero xs h = refl
all-take p (suc n) [] h = refl
all-take p (suc n) (x ∷ xs) h = ground (arith, all-take p n xs)

all-drop {ℓ} :
    {A : Type ℓ} (p : A → Bool) (n : ℕ) (xs : List A) → all p xs ≡ true → all p (drop n xs) ≡ true
all-drop p zero xs h = h
all-drop p (suc n) [] h = refl
all-drop p (suc n) (x ∷ xs) h = ground (arith, all-drop p n xs)

truncate_one_line : (l : Text) (n : ℕ) → is_one_line l ≡ true → is_one_line (truncate l n) ≡ true
unfolding truncate
truncate_one_line l n h =
    ground (arith, newlines-append (take (n - 3) l) (codes "..."), newlines-take (n - 3) l)

truncate_lines_one_line :
    (limit : Option ℕ) (ls : List Text)
    → all is_one_line ls ≡ true
    → all is_one_line (truncate_lines limit ls).0 ≡ true
unfolding truncate_lines
truncate_lines_one_line none ls h = h
truncate_lines_one_line (some n) [] h = refl
truncate_lines_one_line (some n) (l ∷ ls) h =
    ground (arith, truncate_one_line l n, truncate_lines_one_line (some n) ls)

newlines-lacks : (t : Text) → any (λ d. d == newline) t ≡ false → newlines t ≡ 0
newlines-lacks [] h = refl
newlines-lacks (c ∷ t) h = ground (arith, newlines-lacks t)

-- The texts after the number in an omission line.
data Ending : String → Type 0 where
  omitted : Ending " lines omitted)"
  truncated : Ending " lines truncated)"

omission_one_line : (what : String) (n : ℕ) → Ending what → is_one_line (omission what n) ≡ true
unfolding omission
omission_one_line what n omitted =
    rw
      (
        newlines-append (codes "... (") (decimal n ++ codes " lines omitted)"),
        newlines-append (decimal n) (codes " lines omitted)"),
        newlines-lacks (decimal n) (decimal_lacks newline n refl),
      )
      refl
omission_one_line what n truncated =
    rw
      (
        newlines-append (codes "... (") (decimal n ++ codes " lines truncated)"),
        newlines-append (decimal n) (codes " lines truncated)"),
        newlines-lacks (decimal n) (decimal_lacks newline n refl),
      )
      refl

-- Lines of one line each, with an omission line among them.
marked_one_line :
    (xs ys : List Text) (what : String) (n : ℕ)
    → Ending what
    → all is_one_line xs ≡ true
    → all is_one_line ys ≡ true
    → all is_one_line (xs ++ omission what n ∷ ys) ≡ true
marked_one_line xs ys what n ending hx hy =
    ground
      (arith, all-append is_one_line xs (omission what n ∷ ys), omission_one_line what n ending)

cut_one_line :
    (head last : Option ℕ) (ls : List Text)
    → all is_one_line ls ≡ true
    → all is_one_line (cut head last ls).kept ≡ true
unfolding cut
cut_one_line (some head) (some last) ls h = ground (
  arith,
  marked_one_line (take head ls) (drop (length ls - last) ls) " lines omitted)"
      (length ls - head - last) omitted (all-take is_one_line head ls h)
      (all-drop is_one_line (length ls - last) ls h),
)
cut_one_line (some head) none ls h = ground (
  arith,
  marked_one_line (take head ls) [] " lines omitted)" (length ls - head) omitted
      (all-take is_one_line head ls h) refl,
)
cut_one_line none (some last) ls h = ground (
  arith,
  marked_one_line [] (drop (length ls - last) ls) " lines omitted)" (length ls - last) omitted refl
      (all-drop is_one_line (length ls - last) ls h),
)
cut_one_line none none ls h = h

cap_lines_one_line :
    (max : Option ℕ) (ls : List Text)
    → all is_one_line ls ≡ true
    → all is_one_line (cap_lines max ls).0 ≡ true
unfolding cap_lines
cap_lines_one_line none ls h = h
cap_lines_one_line (some max) ls h = ground (
  arith,
  marked_one_line (take max ls) [] " lines truncated)" (length ls - max) truncated
      (all-take is_one_line max ls h) refl,
)

-- The lines that come out of stage 7, joined, have fewer line feeds than there are lines.
pub newlines-output_lines :
    (f : Limits) (selected : List Text)
    → all is_one_line selected ≡ true
    → newlines (join (output_lines f selected)) ≤ length (output_lines f selected) - 1
newlines-output_lines f selected h = newlines-join (output_lines f selected) (
    cap_lines_one_line f.max_lines _ (
      cut_one_line f.head_lines f.tail_lines _
        (truncate_lines_one_line f.truncate_lines_at selected h)))
