-- ===== src/Meter/Pricing.antt =====
-- src/meter/pricing.rs, and the cost of a request in src/meter/recorder.rs. A price is in
-- hundredths of a dollar for a million tokens, exact where the program rounds to f64.
use toche.Prelude.{
  ℕ, ◌+◌, ◌-◌, ◌*◌, ◌/◌, ◌<◌, [], ◌∷◌, ◌++◌, Option, none, some, Bool, true, false, ◌&&◌,
  if◌then◌else◌, ltb, leb, ◌==◌, length, take, drop, all, Text, codes, text_eq, length-append, ◌≡◌,
  refl, arith, ap,
}
use mathlib.Core.Option
use toche.Prelude.Maps.{Map, get, insert}

pub record Pricing : Type 0 where
  pub input : ℕ
  pub output : ℕ
  pub cache_read : ℕ
  pub cache_create : ℕ

abbrev price : ℕ → ℕ → ℕ → ℕ → Pricing
price i o r c = record { input = i; output = o; cache_read = r; cache_create = c }

unfoldable pub builtin_pricing : Map Pricing
unfolding insert
builtin_pricing = insert (codes "glm-5.2") (price 50 200 0 0) (
    insert (codes "cx/gpt-5.6-luna") (price 75 300 0 0) (
      insert (codes "cx/gpt-5.6-sol") (price 110 440 0 0) (
        insert (codes "claude-fable-5") (price 300 1500 30 375) (
          insert (codes "claude-haiku-4.5") (price 100 500 10 125) (
            insert (codes "claude-opus-4.8") (price 1500 7500 150 1875) (
              insert (codes "claude-sonnet-4.7") (price 300 1500 30 375)
                (insert (codes "claude-sonnet-5") (price 300 1500 30 375) [])))))))

abbrev pub is_digit : ℕ → Bool
is_digit c = leb b'0' c && leb c b'9'

abbrev pub is_date_suffix : Text → Bool
is_date_suffix [] = false
is_date_suffix (c ∷ digits) = c == b'-' && all is_digit digits

-- The suffix and its test are the same on bytes and on code points, since a suffix that passes is
-- ASCII.
unfoldable pub strip_date_suffix : Text → Text
strip_date_suffix model =
    let prefix_len = length model - 8 - 1 in
    if ltb (8 + 1) (length model) && is_date_suffix (drop prefix_len model)
    then take prefix_len model
    else model

unfoldable pub find_price : Map Pricing → Text → Option Pricing
unfolding strip_date_suffix
find_price entries model =
    let stripped = strip_date_suffix model in
    elim (get model entries) [
      | some p ↦ some p
      | none ↦ if text_eq stripped model then none else get stripped entries
    ]

pub record TokenCounts : Type 0 where
  pub input_tokens : ℕ
  pub output_tokens : ℕ
  pub cache_read_input_tokens : ℕ
  pub cache_creation_input_tokens : ℕ

-- The cost in units of 10 ^ -7 dollars, rounded half away from zero; nothing for an unknown model.
unfoldable pub cost_of : Map Pricing → Text → TokenCounts → Option ℕ
unfolding find_price
cost_of entries model t =
    Option.map
      (λ (p : Pricing).
        (t.input_tokens * p.input
          + t.output_tokens * p.output
          + t.cache_read_input_tokens * p.cache_read
          + t.cache_creation_input_tokens * p.cache_create
          + 5)
        / 10)
      (find_price entries model)

drop-append : (m d : Text) → drop (length m) (m ++ d) ≡ d
drop-append [] d = refl
drop-append (x ∷ m) d = drop-append m d

take-append : (m d : Text) → take (length m) (m ++ d) ≡ m
take-append [] d = refl
take-append (x ∷ m) d = ap (λ t. x ∷ t) (take-append m d)

-- A date of eight digits behind a dash is stripped from a name that is not empty.
strip_dated :
    (model date : Text)
    → 0 < length model
    → length date ≡ 8
    → all is_digit date ≡ true
    → strip_date_suffix (model ++ b'-' ∷ date) ≡ model
unfolding strip_date_suffix
strip_dated model date named eight digits =
    let whole : length (model ++ b'-' ∷ date) ≡ length model + 9 =
      ground (arith, length-append model (b'-' ∷ date), eight) in
    let at : length (model ++ b'-' ∷ date) - 8 - 1 ≡ length model = omega (arith, whole) in
    let long : ltb (8 + 1) (length (model ++ b'-' ∷ date)) ≡ true = ground (arith, whole, named) in
    rw (at, drop-append model (b'-' ∷ date), take-append model (b'-' ∷ date), long, digits) refl

longer : (model rest : Text) → text_eq model (model ++ b'-' ∷ rest) ≡ false
unfolding text_eq
longer [] rest = refl
longer (x ∷ model) rest = ground (arith, longer model rest)

-- A model whose name, not empty, is followed by a dash and a date of eight digits costs what the
-- entry of the whole says, and without one what the entry of the name before the date says.
find_price-dated :
    (entries : Map Pricing) (model date : Text)
    → 0 < length model
    → length date ≡ 8
    → all is_digit date ≡ true
    → find_price entries (model ++ b'-' ∷ date)
      ≡ elim (get (model ++ b'-' ∷ date) entries) [ some p ↦ some p | none ↦ get model entries ]
unfolding find_price
find_price-dated entries model date named eight digits =
    ground (arith, strip_dated model date named eight digits, longer model date)
