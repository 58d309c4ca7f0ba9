-- ===== src/Reduce/Commands/Wrappers.antt =====
-- src/reduce/transform.rs: the command in a call of `Bash`, however it is wrapped.
use toche.Prelude.{
  ℕ, zero, suc, ◌≤◌, [], ◌∷◌, ◌++◌, none, some, true, Text, codes, length, length-append, all,
  is_whitespace, ◌≡◌, arith, refl, ◌∙◌, ap, and_then, text_eq,
}
use toche.Prelude.Texts.{trim_start}
use toche.Json.{Json}
use toche.Json.Arrays.{str_field}
use toche.Reduce.Commands.{
  strip_prefix, trim_rounds, trim_start_matches, unwrapped, resolve_command, non_empty,
}

-- A word so many times before a text.
abbrev pub wrapped : ℕ → Text → Text → Text
wrapped zero p t = t
wrapped (suc k) p t = p ++ wrapped k p t

strip_prefix-append : (p t : Text) → strip_prefix p (p ++ t) ≡ some t
unfolding strip_prefix
strip_prefix-append [] t = refl
strip_prefix-append (c ∷ p) t = ground (arith, strip_prefix-append p t)

trim_rounds-wrapped :
    (k n c : ℕ) (p t : Text)
    → length (wrapped k (c ∷ p) t) ≤ n
    → strip_prefix (c ∷ p) t ≡ none
    → trim_rounds n (c ∷ p) (wrapped k (c ∷ p) t) ≡ t
unfolding trim_rounds
trim_rounds-wrapped zero zero c p t h off = refl
trim_rounds-wrapped zero (suc n) c p t h off = rw (off, trim_rounds) refl
trim_rounds-wrapped (suc k) zero c p t h off = absurd (omega arith)
trim_rounds-wrapped (suc k) (suc n) c p t h off =
    rw (strip_prefix-append (c ∷ p) (wrapped k (c ∷ p) t), trim_rounds)
      (trim_rounds-wrapped k n c p t (omega (arith, length-append p (wrapped k (c ∷ p) t))) off)

trim_start-append :
    (space t : Text)
    → all is_whitespace space ≡ true
    → trim_start t ≡ t
    → trim_start (space ++ t) ≡ t
unfolding trim_start
trim_start-append [] t h k = k
trim_start-append (c ∷ space) t h k = ground (arith, trim_start-append space t)

trim_start-wrapped :
    (j k : ℕ) (t : Text)
    → trim_start t ≡ t
    → trim_start (wrapped j (codes "sudo ") (wrapped k (codes "rtk ") t))
      ≡ wrapped j (codes "sudo ") (wrapped k (codes "rtk ") t)
unfolding trim_start is_whitespace
trim_start-wrapped zero zero t h = h
trim_start-wrapped zero (suc k) t h = refl
trim_start-wrapped (suc j) k t h = refl

no_sudo :
    (k : ℕ) (t : Text)
    → strip_prefix (codes "sudo ") t ≡ none
    → strip_prefix (codes "sudo ") (wrapped k (codes "rtk ") t) ≡ none
unfolding strip_prefix
no_sudo zero t h = h
no_sudo (suc k) t h = refl

unwrapped-wrapped :
    (space t : Text) (j k : ℕ)
    → all is_whitespace space ≡ true
    → trim_start t ≡ t
    → strip_prefix (codes "sudo ") t ≡ none
    → strip_prefix (codes "rtk ") t ≡ none
    → unwrapped (space ++ wrapped j (codes "sudo ") (wrapped k (codes "rtk ") t)) ≡ t
unfolding unwrapped trim_start_matches
unwrapped-wrapped space t j k blank bare sudo rtk =
    let inner = wrapped k (codes "rtk ") t in
    let line = wrapped j (codes "sudo ") inner in
    let begun : trim_start (space ++ line) ≡ line =
      trim_start-append space line blank (trim_start-wrapped j k t bare) in
    let without : trim_start_matches (codes "sudo ") line ≡ inner =
      trim_rounds-wrapped j (length line) b's' (codes "udo ") inner (omega arith)
        (no_sudo k t sudo) in
    ap (λ x. trim_start_matches (codes "rtk ") (trim_start_matches (codes "sudo ") x)) begun
    ∙ (ap (trim_start_matches (codes "rtk ")) without
        ∙ trim_rounds-wrapped k (length inner) b'r' (codes "tk ") t (omega arith) rtk)

-- A call of `Bash` whose command is a command line with any white space before it, then any number
-- of `sudo ` and any number of `rtk `, counts as that command line, as long as this is not empty and
-- begins neither with white space nor with one of the two.
pub resolve_command-wrapped :
    (json : Json) (block input : json.Value) (space t : Text) (c j k : ℕ)
    → json.get (codes "input") block ≡ some input
    → str_field json (codes "command") input
      ≡ some (space ++ wrapped j (codes "sudo ") (wrapped k (codes "rtk ") (c ∷ t)))
    → all is_whitespace space ≡ true
    → trim_start (c ∷ t) ≡ c ∷ t
    → strip_prefix (codes "sudo ") (c ∷ t) ≡ none
    → strip_prefix (codes "rtk ") (c ∷ t) ≡ none
    → resolve_command json (codes "Bash") block ≡ some (c ∷ t)
unfolding resolve_command text_eq
resolve_command-wrapped json block input space t c j k there command blank bare sudo rtk =
    ap
      (λ i.
        and_then i
          (λ v. and_then (str_field json (codes "command") v) (λ r. non_empty (unwrapped r))))
      there
    ∙ (ap (λ r. and_then r (λ x. non_empty (unwrapped x))) command
        ∙ ap non_empty (unwrapped-wrapped space (c ∷ t) j k blank bare sudo rtk))
