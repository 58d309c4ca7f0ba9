-- ===== src/Reduce/Filter/Compile.antt =====
-- src/reduce/rtk/toml_filter.rs: `compile_filter`, `parse_and_compile` and `load`. The TOML parser
-- is a parameter, and an error is the text that it displays.
use toche.Prelude.{
  map_err, Result, ok, err, ◌>>=◌, retain, List, [], ◌∷◌, ◌++◌, Option, none, some, Bool, true,
  false, not, ◌&&◌, Text, codes, ◌==◌, if◌then◌else◌, String, map,
}
use toche.Reduce.Regex.{RegexApi}
use toche.Reduce.Lines.{decimal}
use toche.Reduce.Filter.{
  MatchOutputRule, ReplaceRule, TomlFilterDef, TomlFilterFile, CompiledMatchOutputRule,
  CompiledReplaceRule, LineFilter, every, strip, keep, CompiledFilter,
}

abbrev is_empty {ℓ} : {A : Type ℓ} → List A → Bool
is_empty [] = true
is_empty (x ∷ xs) = false

-- The error of a pattern names it: "invalid … pattern '{pattern}': {error}".
abbrev invalid : String → Text → Text
invalid what pattern = codes what ++ (codes " '" ++ (pattern ++ codes "': "))

-- `collect::<Result<Vec<_>, _>>()`
abbrev collect {ℓ κ} : {A : Type ℓ} {B : Type κ} → (A → Result B) → List A → Result (List B)
collect f [] = ok []
collect f (x ∷ xs) = do y ← f x; ys ← collect f xs; ok (y ∷ ys)

module _ (api : RegexApi) where
  open api use {Regex, RegexSet, compile, compile_set}

  unfoldable pub compile_replace : ReplaceRule → Result (CompiledReplaceRule api)
  compile_replace r = do
    pattern ← map_err (invalid "invalid replace pattern" r.pattern) (compile r.pattern)
    ok (record { pattern = pattern; replacement = r.replacement })

  unfoldable pub compile_unless : Option Text → Result (Option Regex)
  compile_unless none = ok none
  compile_unless (some u) = do
    re ← map_err (invalid "invalid match_output unless pattern" u) (compile u)
    ok (some re)

  unfoldable pub compile_match_output : MatchOutputRule → Result (CompiledMatchOutputRule api)
  unfolding compile_unless
  compile_match_output r = do
    pattern ← map_err (invalid "invalid match_output pattern" r.pattern) (compile r.pattern)
    unless ← compile_unless r.unless
    ok (record { pattern = pattern; message = r.message; unless = unless })

  unfoldable pub compile_line_filter : TomlFilterDef → Result (LineFilter api)
  compile_line_filter d =
      if not (is_empty d.strip_lines_matching)
      then (do
        set ←
            map_err (codes "invalid strip_lines_matching regex: ")
              (compile_set d.strip_lines_matching)
        ok (strip set))
      else if not (is_empty d.keep_lines_matching)
      then (do
        set ←
            map_err (codes "invalid keep_lines_matching regex: ")
              (compile_set d.keep_lines_matching)
        ok (keep set))
      else ok every

  unfoldable pub compile_filter : Text → TomlFilterDef → Result (CompiledFilter api)
  unfolding compile_replace compile_match_output compile_line_filter
  compile_filter name d =
      if not (is_empty d.strip_lines_matching) && not (is_empty d.keep_lines_matching)
      then err (codes "strip_lines_matching and keep_lines_matching are mutually exclusive")
      else do
        match_regex ← map_err (codes "invalid match_command regex: ") (compile d.match_command)
        replace ← collect compile_replace d.replace
        match_output ← collect compile_match_output d.match_output
        line_filter ← compile_line_filter d
        ok (record {
          name = name;
          description = d.description;
          match_regex = match_regex;
          strip_ansi = d.strip_ansi;
          replace = replace;
          match_output = match_output;
          line_filter = line_filter;
          limits = record {
            truncate_lines_at = d.truncate_lines_at;
            head_lines = d.head_lines;
            tail_lines = d.tail_lines;
            max_lines = d.max_lines;
            on_empty = d.on_empty;
          };
          filter_stderr = d.filter_stderr;
        })

  -- The loop of `parse_and_compile`: a filter that does not compile is left out.
  unfoldable pub compile_all : List (Text × TomlFilterDef) → List (CompiledFilter api)
  compile_all [] = []
  compile_all ((name, d) ∷ rest) =
      let later = compile_all rest in
      elim (compile_filter name d) [ ok f ↦ f ∷ later | err e ↦ later ]

  abbrev pub compiles : Text → Bool
  compiles p = elim (compile p) [ ok re ↦ true | err e ↦ false ]

  abbrev or_else {ℓ} : {A : Type ℓ} → Result A → A → A
  or_else (ok a) d = a
  or_else (err e) d = d

  -- One set for all patterns; failing that, one for those that compile; failing that, the
  -- empty set, which is a parameter.
  unfoldable pub match_set_of : RegexSet → List Text → RegexSet
  match_set_of nothing patterns =
      or_else (compile_set patterns) (or_else (compile_set (retain compiles patterns)) nothing)

  module _ (from_str : Text → Result TomlFilterFile) where
    unfoldable pub parse_and_compile : Text → Text → Result (List (CompiledFilter api))
    unfolding compile_all
    parse_and_compile content source = do
      file ← map_err (codes "TOML parse error in " ++ (source ++ codes ": ")) (from_str content)
      if file.schema_version == 1
          then ok (compile_all file.filters)
          else err (
              codes "unsupported schema_version "
              ++ (decimal file.schema_version
                  ++ (codes " in " ++ (source ++ codes " (expected 1)"))))

    -- `load`: built-in filters that do not parse leave the registry empty.
    unfoldable pub load : Text → List (CompiledFilter api)
    unfolding parse_and_compile
    load builtin_toml = elim (parse_and_compile builtin_toml (codes "builtin")) [
      | ok filters ↦ filters
      | err e ↦ []
    ]

    -- The commands of the filters that the file defines, whether or not the filters compile.
    unfoldable pub match_patterns_in : Text → List Text
    match_patterns_in content = elim (from_str content) [
      | ok file ↦
          if file.schema_version == 1
          then map (λ (e : Text × TomlFilterDef). e.1.match_command) file.filters
          else []
      | err e ↦ []
    ]

    unfoldable pub build_match_set : RegexSet → Text → RegexSet
    unfolding match_patterns_in match_set_of
    build_match_set nothing builtin_toml = match_set_of nothing (match_patterns_in builtin_toml)
