-- ===== src/Reduce/Filter/Registry.antt =====
-- The registry of filters, and the quick test before it.
use toche.Prelude.{
  Result-cases, Result, ok, err, ◌∙◌, ◌∙◌, List, [], ◌∷◌, some, inl, inr, Bool, true, false, Text,
  ◌≡◌, refl, arith, any, retain, map, ◌⊎◌,
}
use toche.Reduce.Regex.{RegexApi}
use toche.Reduce.Filter.{TomlFilterDef, TomlFilterFile, CompiledFilter, find_filter_in}
use toche.Reduce.Filter.Compile.{
  compile_filter, compile_all, parse_and_compile, load, match_patterns_in, compiles,
  build_match_set, match_set_of,
}

module _ (api : RegexApi) where
  open api use {Regex, RegexSet, compile, compile_set, is_match, set_is_match}

  -- Whether a text is matched by a pattern, when the pattern compiles.
  abbrev pub matches : Text → Text → Bool
  matches text p = elim (compile p) [ ok re ↦ is_match re text | err e ↦ false ]

  compile_filter-match_regex :
      (name : Text) (d : TomlFilterDef) (f : CompiledFilter api)
      → compile_filter api name d ≡ ok f
      → compile d.match_command ≡ ok f.match_regex
  unfolding compile_filter
  compile_filter-match_regex name d f e = ground arith

  -- The first filter that fits was defined by an entry whose pattern fits.
  compile_all-matches :
      (entries : List (Text × TomlFilterDef)) (command : Text) (f : CompiledFilter api)
      → find_filter_in api command (compile_all api entries) ≡ some f
      → any (matches command) (map (λ (e : Text × TomlFilterDef). e.1.match_command) entries) ≡ true
  unfolding find_filter_in compile_all
  compile_all-matches [] command f e = cc
  compile_all-matches ((name, d) ∷ rest) command f e =
      elim (Result-cases (compile_filter api name d)) [
        | inl (g, built) ↦ ground (
          arith,
          built,
          compile_filter-match_regex name d g built,
          compile_all-matches rest command f,
        )
        | inr (m, failed) ↦ ground (arith, failed, compile_all-matches rest command f)
      ]

  any_compiling :
      (text : Text) (ps : List Text)
      → any (matches text) (retain (compiles api) ps) ≡ any (matches text) ps
  any_compiling text [] = refl
  any_compiling text (p ∷ ps) = elim (Result-cases (compile p)) [
    | inl (re, built) ↦ ground (arith, built, any_compiling text ps)
    | inr (m, failed) ↦ ground (arith, failed, any_compiling text ps)
  ]

  -- What the documentation of `RegexSet` says: a set matches a text exactly when one of its
  -- patterns does.
  pub record SetLaws : Type 0 where
    pub exact :
        (ps : List Text) (set : RegexSet) (text : Text)
        → compile_set ps ≡ ok set
        → set_is_match set text ≡ any (matches text) ps

  -- Neither the set of the patterns nor that of the patterns which compile can be built.
  abbrev pub HasNoSet : List Text → Type 0
  HasNoSet ps =
      (m : Text) × (n : Text) × (compile_set ps ≡ err m)
      × (compile_set (retain (compiles api) ps) ≡ err n)

  match_set-cases :
      (laws : SetLaws) (nothing : RegexSet) (ps : List Text) (text : Text)
      → (set_is_match (match_set_of api nothing ps) text ≡ any (matches text) ps)
        ⊎ (HasNoSet ps × (match_set_of api nothing ps ≡ nothing))
  unfolding match_set_of
  match_set-cases laws nothing ps text = elim (Result-cases (compile_set ps)) [
    | inl (set, built) ↦ inl (rw built (laws.exact ps set text built))
    | inr (m, failed) ↦ elim (Result-cases (compile_set (retain (compiles api) ps))) [
      | inl (set, built) ↦
          inl (rw (failed, built) (laws.exact _ set text built ∙ any_compiling text ps))
      | inr (n, failed') ↦ inr ((m, n, failed, failed'), rw (failed, failed') refl)
    ]
  ]

  load_listed :
      (from_str : Text → Result TomlFilterFile) (builtin_toml command : Text)
      (f : CompiledFilter api)
      → (r : Result TomlFilterFile) → from_str builtin_toml ≡ r
      → find_filter_in api command (load api from_str builtin_toml) ≡ some f
      → any (matches command) (match_patterns_in api from_str builtin_toml) ≡ true
  unfolding load parse_and_compile match_patterns_in find_filter_in
  load_listed from_str builtin_toml command f (err m) parsed e = ground arith
  load_listed from_str builtin_toml command f (ok file) parsed e =
      ground (arith, parsed, compile_all-matches file.filters command f)

  -- The quick test `command_matches_filter` hides a filter only where the set of all patterns
  -- cannot be built, nor that of the patterns which compile: whenever `find_filter_in` finds a
  -- filter of the loaded registry for a command, the set that is used matches the command, also
  -- where some pattern does not compile, or it is the empty set, since both of the others failed.
  -- This rests on what the documentation of `RegexSet` says of matching.
  pub find_filter-match_set :
      (laws : SetLaws) (from_str : Text → Result TomlFilterFile) (nothing : RegexSet)
      → (builtin_toml command : Text) (f : CompiledFilter api)
      → find_filter_in api command (load api from_str builtin_toml) ≡ some f
      → (set_is_match (build_match_set api from_str nothing builtin_toml) command ≡ true)
        ⊎ (HasNoSet (match_patterns_in api from_str builtin_toml)
            × (build_match_set api from_str nothing builtin_toml ≡ nothing))
  unfolding build_match_set
  find_filter-match_set laws from_str nothing builtin_toml command f e =
      elim (match_set-cases laws nothing (match_patterns_in api from_str builtin_toml) command) [
        | inl same ↦
            inl (same ∙ load_listed from_str builtin_toml command f (from_str builtin_toml) refl e)
        | inr unbuilt ↦ inr unbuilt
      ]
