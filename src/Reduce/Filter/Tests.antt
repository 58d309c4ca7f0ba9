-- ===== src/Reduce/Filter/Tests.antt =====
-- A pattern language of literal prefixes, on which the laws of the regex crate hold, and the
-- promises of the filters at concrete outputs.
use toche.Prelude.{
  is_whitespace, Result, ok, err, ◌≤◌, List, [], ◌∷◌, ◌++◌, none, some, ◌⊎◌, Bool, true, false,
  ◌&&◌, Text, codes, ◌≡◌, refl, arith, any, all, length, drop, if◌then◌else◌, ◌==◌,
}
use toche.Reduce.Regex.{RegexApi}
use toche.Reduce.Lines.{lines, join, decimal, truncate, is_blank}
use toche.Reduce.Filter.{
  TomlFilterDef, TomlFilterFile, CompiledFilter, Limits, strip, omission, apply_filter_with_info,
  select_lines, rewrite_lines, replace_rules, strip_ansi, match_output, finish, cut, cap_lines,
  truncate_lines, loss, find_filter_in,
}
use toche.Reduce.Filter.Compile.{
  compile_filter, compile_all, parse_and_compile, load, build_match_set, match_patterns_in,
}
use toche.Reduce.Filter.Recovery.{Recoverable}
use toche.Reduce.Filter.Promises.{
  short_circuit, apply_filter-Recoverable, apply_filter-intact, apply_filter_capped,
}
use toche.Reduce.Filter.Newlines.{newlines}
use toche.Reduce.Filter.Registry.{SetLaws, HasNoSet, matches, find_filter-match_set}

abbrev starts : Text → Text → Bool
starts [] text = true
starts (c ∷ p) [] = false
starts (c ∷ p) (d ∷ text) = c == d && starts p text

abbrev compile_prefix : Text → Result Text
compile_prefix [] = err (codes "empty pattern")
compile_prefix (c ∷ p) = ok (c ∷ p)

abbrev compile_prefixes : List Text → Result (List Text)
compile_prefixes [] = ok []
compile_prefixes ([] ∷ ps) = err (codes "empty pattern")
compile_prefixes ((c ∷ p) ∷ ps) = elim (compile_prefixes ps) [
  | ok set ↦ ok ((c ∷ p) ∷ set)
  | err e ↦ err e
]

abbrev prefixes : RegexApi
prefixes = record {
  Regex = Text;
  RegexSet = List Text;
  compile = compile_prefix;
  compile_set = compile_prefixes;
  is_match = starts;
  set_is_match = λ set text. any (λ p. starts p text) set;
  replace_all =
      λ p text replacement. if starts p text then replacement ++ drop (length p) text else text;
  ansi_re = 27 ∷ codes "[0m";
}

prefixes_exact :
    (ps set : List Text) (text : Text)
    → compile_prefixes ps ≡ ok set
    → any (λ p. starts p text) set ≡ any (matches prefixes text) ps
prefixes_exact [] set text h = ground arith
prefixes_exact ([] ∷ ps) set text h = cc
prefixes_exact ((c ∷ p) ∷ ps) set text h =
    go (compile_prefixes ps) refl (λ rest built. prefixes_exact ps rest text built)
  where
    go :
        (r : Result (List Text))
        → compile_prefixes ps ≡ r
        → ((rest : List Text)
            → compile_prefixes ps ≡ ok rest
            → any (λ q. starts q text) rest ≡ any (matches prefixes text) ps)
        → any (λ q. starts q text) set ≡ any (matches prefixes text) ((c ∷ p) ∷ ps)
    go (ok rest) built ih = ground (arith, ih rest built)
    go (err m) failed ih = ground arith

prefixes-SetLaws : SetLaws prefixes
prefixes-SetLaws = record { exact = prefixes_exact }

abbrev no_limits : Limits
no_limits = record {
  truncate_lines_at = none;
  head_lines = none;
  tail_lines = none;
  max_lines = none;
  on_empty = none;
}

abbrev filter_with : Limits → CompiledFilter prefixes
filter_with limits = record {
  name = codes "make";
  description = none;
  match_regex = codes "make";
  strip_ansi = true;
  replace = [];
  match_output = [];
  line_filter = strip (codes "make:" ∷ []);
  limits = limits;
  filter_stderr = false;
}

abbrev output : Text
output = codes "make: entering\na\nb\r\nc\nd"

lines_of_output :
    lines output ≡ codes "make: entering" ∷ codes "a" ∷ codes "b" ∷ codes "c" ∷ codes "d" ∷ []
unfolding lines
lines_of_output = refl

decimal_examples : (decimal 0 ≡ codes "0") × (decimal 907 ≡ codes "907")
unfolding decimal
decimal_examples = (refl, refl)

truncate_example : truncate (codes "hello world") 8 ≡ codes "hello..."
unfolding truncate
truncate_example = refl

apply_filter-Recoverable_example :
    Recoverable
      (codes "a" ∷ codes "b" ∷ codes "c" ∷ codes "d" ∷ [])
      (codes "a\nb\n... (2 lines omitted)")
      (codes "a\nb\nc\nd")
      3
unfolding apply_filter_with_info lines rewrite_lines replace_rules strip_ansi match_output
    select_lines finish cut cap_lines truncate_lines loss join omission decimal is_blank
    is_whitespace
apply_filter-Recoverable_example =
    apply_filter-Recoverable prefixes (filter_with (record no_limits { head_lines = some 2 }))
      output (codes "a\nb\n... (2 lines omitted)") (codes "a\nb\nc\nd") 3 refl

apply_filter-intact_example :
    (codes "a\nb\nc\nd" ≡ join (codes "a" ∷ codes "b" ∷ codes "c" ∷ codes "d" ∷ []))
    ⊎ ((no_limits.on_empty ≡ some (codes "a\nb\nc\nd"))
        × (all is_blank (codes "a" ∷ codes "b" ∷ codes "c" ∷ codes "d" ∷ []) ≡ true))
unfolding apply_filter_with_info lines rewrite_lines replace_rules strip_ansi match_output
    select_lines finish cut cap_lines truncate_lines loss join omission decimal is_blank
    is_whitespace
apply_filter-intact_example =
    apply_filter-intact prefixes (filter_with no_limits) output (codes "a\nb\nc\nd") refl

apply_filter_capped_example :
    let r =
      (apply_filter_with_info prefixes
        (filter_with (record no_limits { max_lines = some 2 }))
        output).0 in
    (short_circuit prefixes (filter_with (record no_limits { max_lines = some 2 })) output ≡ some r)
    ⊎ (((record no_limits { max_lines = some 2 }).on_empty ≡ some r) ⊎ (newlines r ≤ 2))
unfolding lines rewrite_lines replace_rules strip_ansi select_lines
apply_filter_capped_example =
    apply_filter_capped prefixes (filter_with (record no_limits { max_lines = some 2 })) output 2
      refl refl

abbrev definition : Text → TomlFilterDef
definition command = record {
  description = none;
  match_command = command;
  strip_ansi = true;
  replace = [];
  match_output = [];
  strip_lines_matching = codes "make:" ∷ [];
  keep_lines_matching = [];
  truncate_lines_at = none;
  head_lines = none;
  tail_lines = none;
  max_lines = none;
  on_empty = none;
  filter_stderr = false;
}

-- The second entry does not compile, so the first set is not built.
abbrev two_filters : Text → Result TomlFilterFile
two_filters content = ok (record {
  schema_version = 1;
  filters = (codes "make", definition (codes "make")) ∷ (codes "bad", definition []) ∷ [];
})

find_filter-match_set_example :
    (any (λ p. starts p (codes "make all")) (build_match_set prefixes two_filters [] []) ≡ true)
    ⊎ (HasNoSet prefixes (match_patterns_in prefixes two_filters [])
        × (build_match_set prefixes two_filters [] [] ≡ []))
unfolding find_filter_in load parse_and_compile compile_all compile_filter
find_filter-match_set_example =
    find_filter-match_set prefixes prefixes-SetLaws two_filters [] [] (codes "make all")
      (filter_with no_limits) refl
