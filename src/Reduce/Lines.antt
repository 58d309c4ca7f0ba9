-- ===== src/Reduce/Lines.antt =====
-- src/reduce/rtk/utils.rs, and the operations of Rust's `str` that the filters use.
use toche.Prelude.{
  is_whitespace, text_eq_refl, ◌⊎◌, ℕ, zero, suc, ◌+◌, ◌-◌, ◌/◌, ◌%◌, ◌≤◌, List, [], ◌∷◌, ◌++◌,
  Bool, true, false, ◌&&◌, Text, text_eq, codes, ◌≡◌, refl, ap, arith, ◌==◌, ltb, leb,
  if◌then◌else◌, length, length-append, length-take, take, all, any, reverse,
}

abbrev pub newline : ℕ
newline = 10

-- The carriage return before a line feed goes with it. The line is read backwards.
strip_cr : Text → Text
strip_cr [] = []
strip_cr (c ∷ line) = if c == 13 then line else c ∷ line

lines_from : Text → Text → List Text
unfolding strip_cr
lines_from [] [] = []
lines_from (c ∷ line) [] = reverse (c ∷ line) ∷ []
lines_from line (c ∷ rest) = elim (c == newline) [
  | true ↦ reverse (strip_cr line) ∷ lines_from [] rest
  | false ↦ lines_from (c ∷ line) rest
]

-- `str::lines`
unfoldable pub lines : Text → List Text
unfolding lines_from
lines text = lines_from [] text

-- `join("\n")`
unfoldable pub join : List Text → Text
join [] = []
join (l ∷ []) = l
join (l ∷ (m ∷ ls)) = l ++ (newline ∷ join (m ∷ ls))

-- `text.trim().is_empty()`
unfoldable pub is_blank : Text → Bool
is_blank = all is_whitespace

decimal_from : ℕ → ℕ → Text → Text
decimal_from zero n digits = digits
decimal_from (suc fuel) n digits =
    let rest = decimal_from fuel (n / 10) ((48 + n % 10) ∷ digits) in
    if ltb n 10 then (48 + n) ∷ digits else rest

-- A number as `format!` prints it. A number has no more digits than its value plus one.
unfoldable pub decimal : ℕ → Text
unfolding decimal_from
decimal n = decimal_from (suc n) n []

decimal_from-lacks :
    (c fuel n : ℕ) (digits : Text)
    → ltb c 48 ≡ true
    → any (λ d. d == c) digits ≡ false
    → any (λ d. d == c) (decimal_from fuel n digits) ≡ false
unfolding decimal_from
decimal_from-lacks c zero n digits l h = h
decimal_from-lacks c (suc fuel) n digits l h =
    ground (arith, decimal_from-lacks c fuel (n / 10) ((48 + n % 10) ∷ digits) l)

-- A printed number has no character below the digits.
pub decimal_lacks : (c n : ℕ) → ltb c 48 ≡ true → any (λ d. d == c) (decimal n) ≡ false
unfolding decimal
decimal_lacks c n l = decimal_from-lacks c (suc n) n [] l refl

-- Truncates a text to `max_len` characters.
unfoldable pub truncate : Text → ℕ → Text
truncate s max_len =
    if leb (length s) max_len
    then s
    else if ltb max_len 3
    then codes "..."
    else take (max_len - 3) s ++ codes "..."

is_blank-append : (a b : Text) → is_blank (a ++ b) ≡ (is_blank a && is_blank b)
unfolding is_blank
is_blank-append [] b = refl
is_blank-append (c ∷ a) b = ground (arith, is_blank-append a b)

is_blank-newline : (t : Text) → is_blank (newline ∷ t) ≡ is_blank t
unfolding is_blank is_whitespace
is_blank-newline t = refl

-- A joined text is blank exactly when each of its lines is.
pub is_blank-join : (ls : List Text) → is_blank (join ls) ≡ all is_blank ls
unfolding join
is_blank-join [] = unfold is_blank in refl
is_blank-join (l ∷ []) = ground arith
is_blank-join (l ∷ (m ∷ ls)) =
    rw (is_blank-append l (newline ∷ join (m ∷ ls)), is_blank-newline (join (m ∷ ls)))
      (ap (λ b. is_blank l && b) (is_blank-join (m ∷ ls)))

-- No line comes out longer than the limit, or than the three dots.
pub length-truncate :
    (s : Text) (max_len : ℕ)
    → (length (truncate s max_len) ≤ max_len) ⊎ (length (truncate s max_len) ≤ 3)
unfolding truncate
length-truncate s max_len =
    ground (arith, length-append (take (max_len - 3) s) (codes "..."), length-take (max_len - 3) s)

-- A line that truncation changes is not blank afterwards.
pub truncate_visible :
    (s : Text) (max_len : ℕ)
    → text_eq (truncate s max_len) s ≡ false
    → is_blank (truncate s max_len) ≡ false
unfolding truncate is_blank is_whitespace
truncate_visible s max_len h =
    ground (arith, is_blank-append (take (max_len - 3) s) (codes "..."), text_eq_refl s)
