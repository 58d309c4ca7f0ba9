-- ===== src/Efficiency/Tests.antt =====
-- An instruction behind a system prompt that is a string.
use toche.Prelude.{[], ◌∷◌, ◌++◌, List, none, some, codes, ok, err, ◌≡◌, ◌⊎◌}
use toche.Json.{Json}
use toche.Json.Example.{Value, str, object, example_json, get}
use toche.Efficiency.Inject.{extend_system}
use toche.Efficiency.Prompt.{prompt, extend_system-prompt}

abbrev request : Value
request = object ((codes "model", str (codes "m")) ∷ (codes "system", str (codes "s")) ∷ [])

abbrev json : Json
json = example_json (λ t. ok request) (λ v. err [])

extend_system-prompt_example :
    ((extend_system json (str (codes "b")) request ≡ none) × (prompt json request ≡ none))
    ⊎ ((changed : Value) × (blocks : List Value) × (extend_system json (str (codes "b")) request
          ≡ some changed)
        × (prompt json request ≡ some blocks)
        × (prompt json changed ≡ some (blocks ++ str (codes "b") ∷ []))
        × (get (codes "model") changed ≡ get (codes "model") request))
extend_system-prompt_example =
    extend_system-prompt json (str (codes "b")) request (codes "model") (λ e. cc)
