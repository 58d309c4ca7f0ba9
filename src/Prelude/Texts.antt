-- ===== src/Prelude/Texts.antt =====
-- A Rust `str` as the list of its code points, with the `std` operations that the program uses.
use Prim.Native.Nat.{◌+◌, ◌/◌, ◌%◌, ℕ}
use Prim.Native.Char.{code}
use Prim.Native.String.{String}
use mathlib.Core.Path.{◌≡◌, refl, sym, ◌∙◌}
use mathlib.Core.Logic.{◌↔◌, ◌≢◌}
use mathlib.Core.Bool.{false≢true, Bool, true, false, ◌&&◌, ◌||◌}
use mathlib.Core.List.{reverse, List, [], ◌∷◌}
use native.Mathlib.Omega.{arith}
use toche.Prelude.Tests.{leb, ltb, if◌then◌else◌, ◌==◌}

abbrev pub Text : Type 0
Text = List ℕ

abbrev pub codes : String → Text
codes String.[] = []
codes (String.◌∷◌ c s) = code c ∷ codes s

unfoldable pub text_eq : Text → Text → Bool
text_eq [] [] = true
text_eq [] (y ∷ ys) = false
text_eq (x ∷ xs) [] = false
text_eq (x ∷ xs) (y ∷ ys) = (x == y) && text_eq xs ys

pub text_eq_refl : (a : Text) → text_eq a a ≡ true
unfolding text_eq
text_eq_refl [] = refl
text_eq_refl (x ∷ xs) = ground (arith, text_eq_refl xs)

text_eq-eq : (a b : Text) → text_eq a b ≡ true → a ≡ b
unfolding text_eq
text_eq-eq [] [] h = refl
text_eq-eq [] (y ∷ ys) h = cc
text_eq-eq (x ∷ xs) [] h = cc
text_eq-eq (x ∷ xs) (y ∷ ys) h = ground (arith, text_eq-eq xs ys)

pub text_eq_iff : (a b : Text) → (text_eq a b ≡ true) ↔ (a ≡ b)
text_eq_iff a b = (text_eq-eq a b, λ e. rw e (text_eq_refl b))

pub text_ne : (a b : Text) → text_eq a b ≡ false → a ≢ b
text_ne a b h e = false≢true (sym h ∙ rw e (text_eq_refl b))

-- `char::is_whitespace`: the code points with the property White_Space.
unfoldable pub is_whitespace : ℕ → Bool
is_whitespace c =
    (leb 9 c && leb c 13)
    || c == 32
    || c == 133
    || c == 160
    || c == 5760
    || (leb 8192 c && leb c 8202)
    || c == 8232
    || c == 8233
    || c == 8239
    || c == 8287
    || c == 12288

-- `str::trim_start` and `str::trim`
unfoldable pub trim_start : Text → Text
trim_start [] = []
trim_start (c ∷ t) = if is_whitespace c then trim_start t else c ∷ t

unfoldable pub trim : Text → Text
unfolding trim_start is_whitespace
trim t = reverse (trim_start (reverse (trim_start t)))

abbrev ascii_lower : ℕ → ℕ
ascii_lower c = if leb b'A' c && leb c b'Z' then c + 32 else c

-- `str::eq_ignore_ascii_case`
unfoldable pub eq_ignore_ascii_case : Text → Text → Bool
eq_ignore_ascii_case [] [] = true
eq_ignore_ascii_case [] (y ∷ ys) = false
eq_ignore_ascii_case (x ∷ xs) [] = false
eq_ignore_ascii_case (x ∷ xs) (y ∷ ys) =
    (ascii_lower x == ascii_lower y) && eq_ignore_ascii_case xs ys

-- The bytes of a text in UTF-8: `str::as_bytes`.
unfoldable pub utf8 : Text → List ℕ
utf8 [] = []
utf8 (c ∷ t) =
    let rest = utf8 t in
    if ltb c 128
    then c ∷ rest
    else (if ltb c 2048
        then (192 + c / 64) ∷ ((128 + c % 64) ∷ rest)
        else (if ltb c 65536
            then (224 + c / 4096) ∷ ((128 + (c / 64) % 64) ∷ ((128 + c % 64) ∷ rest))
            else (240 + c / 262144)
              ∷ ((128 + (c / 4096) % 64) ∷ ((128 + (c / 64) % 64) ∷ ((128 + c % 64) ∷ rest)))))
