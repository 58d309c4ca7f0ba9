-- ===== src/Prelude/Results.antt =====
-- A Rust `Result` whose error is the text that it displays.
use toche.Prelude.Texts.{Text}
use mathlib.Core.Path.{◌≡◌, refl}
use mathlib.Core.Logic.{◌⊎◌, inl, inr}
use mathlib.Core.List.{◌++◌}

pub data Result {ℓ} (A : Type ℓ) : Type ℓ where
  ok : A → Result A
  err : Text → Result A

infixl 5 ◌>>=◌
abbrev pub ◌>>=◌ {ℓ κ} : {A : Type ℓ} {B : Type κ} → Result A → (A → Result B) → Result B
ok a >>= f = f a
err e >>= f = err e

-- `map_err` with a format string that puts a prefix before the error.
abbrev pub map_err {ℓ} : {A : Type ℓ} → Text → Result A → Result A
map_err prefix (ok a) = ok a
map_err prefix (err e) = err (prefix ++ e)

pub Result-cases {ℓ} :
    {A : Type ℓ} (r : Result A) → ((a : A) × (r ≡ ok a)) ⊎ ((e : Text) × (r ≡ err e))
Result-cases (ok a) = inl (a, refl)
Result-cases (err e) = inr (e, refl)
