-- ===== src/Efficiency/Inject.antt =====
-- src/efficiency/inject.rs and src/efficiency/instructions.rs
use toche.Prelude.{
  ℕ, ◌+◌, ◌/◌, [], ◌∷◌, ◌++◌, Option, none, some, Text, codes, Result, ok, err, ◌>>=◌,
  if◌then◌else◌, ltb,
}
use toche.Json.{Json}
use toche.Config.Types.{EfficiencyMode, normal, concise, careful}

pub record InjectionResult : Type 0 where
  pub modified_body : Text
  pub tokens_added : ℕ

abbrev pub concise_instruction : Text
concise_instruction =
    codes
      "Respond with concision. Drop filler words, pleasantries, and hedging.\nKeep all technical substance, code, errors, and diagnostics verbatim.\nFragments OK where meaning stays clear.\nBoundaries: code, commits, and PRs written normally.\nAuto-clarity: normal prose for security warnings and irreversible actions."

abbrev pub careful_instruction : Text
careful_instruction =
    codes
      "Before implementing:\n- State assumptions explicitly. If uncertain, ask.\n- If multiple interpretations exist, present them — don't pick silently.\n- If a simpler approach exists, say so.\n\nSimplicity first: minimum code that solves the problem. Nothing speculative.\nSurgical changes: touch only what you must. Match existing style.\nGoal-driven: transform tasks into verifiable success criteria. Loop until verified."

unfoldable pub instruction_for_mode : EfficiencyMode → Option Text
instruction_for_mode normal = none
instruction_for_mode concise = some concise_instruction
instruction_for_mode careful = some careful_instruction

-- `str::len`, the bytes of a text in UTF-8.
abbrev utf8_len : Text → ℕ
utf8_len [] = 0
utf8_len (c ∷ t) =
    (if ltb c 128 then 1 else (if ltb c 2048 then 2 else (if ltb c 65536 then 3 else 4)))
    + utf8_len t

-- The quotient by 4, rounded up: exact in f64 below 2 ^ 53.
unfoldable pub tokens_of : Text → ℕ
tokens_of text = (utf8_len text + 3) / 4

-- anyhow's `context`: its message is what the error displays.
abbrev context {ℓ} : {A : Type ℓ} → Text → Result A → Result A
context message (ok a) = ok a
context message (err e) = err message

module _ (json : Json) where
  open json use {Value}

  unfoldable pub text_block : Text → Value
  text_block t =
      json.object ((codes "type", json.string (codes "text")) ∷ (codes "text", json.string t) ∷ [])

  -- The change of the root, where the system prompt is an array or a string.
  unfoldable pub extend_system : Value → Value → Option Value
  unfolding text_block
  extend_system block root = elim (json.get (codes "system") root) [
    | none ↦ none
    | some system ↦ elim (json.as_array system) [
      | some blocks ↦ some (json.set (codes "system") (json.array (blocks ++ block ∷ [])) root)
      | none ↦ elim (json.as_str system) [
        | some original_text ↦
            some
              (json.set (codes "system") (json.array (text_block original_text ∷ block ∷ [])) root)
        | none ↦ none
      ]
    ]
  ]

  unfoldable pub inject_efficiency : Text → Option Text → Result InjectionResult
  unfolding extend_system text_block tokens_of
  inject_efficiency body none = ok (record { modified_body = body; tokens_added = 0 })
  inject_efficiency body (some instruction) = do
    root ←
        context (codes "Failed to parse request body for efficiency injection") (json.from_str body)
    elim (extend_system (text_block instruction) root) [
      | none ↦ ok (record { modified_body = body; tokens_added = 0 })
      | some changed ↦ do
        modified_body ←
            context (codes "Failed to serialize modified request body") (json.to_string changed)
        ok (record { modified_body = modified_body; tokens_added = tokens_of instruction })
    ]
