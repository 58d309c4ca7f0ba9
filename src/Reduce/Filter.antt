-- ===== src/Reduce/Filter.antt =====
-- src/reduce/rtk/toml_filter.rs: filter definitions, their compilation, and the pipeline that
-- applies a compiled filter. Warnings on stderr are not modelled.
pub mod Recovery
pub mod Cuts
pub mod Newlines
pub mod Compile
pub mod Promises
pub mod Registry
mod Tests
use toche.Prelude.{
  Result, ok, err, ◌>>=◌, ℕ, suc, ◌+◌, ◌-◌, List, [], ◌∷◌, ◌++◌, Option, none, some, is_some, Bool,
  true, false, not, ◌&&◌, ◌||◌, Text, text_eq, codes, String, ◌==◌, ltb, if◌then◌else◌, length,
  take, drop, any, find, retain, map,
}
use toche.Reduce.Regex.{RegexApi}
use toche.Reduce.Lines.{lines, join, is_blank, decimal, truncate}

pub record MatchOutputRule : Type 0 where
  pub pattern : Text
  pub message : Text
  pub unless : Option Text

pub record ReplaceRule : Type 0 where
  pub pattern : Text
  pub replacement : Text

pub record TomlFilterDef : Type 0 where
  pub description : Option Text
  pub match_command : Text
  pub strip_ansi : Bool
  pub replace : List ReplaceRule
  pub match_output : List MatchOutputRule
  pub strip_lines_matching : List Text
  pub keep_lines_matching : List Text
  pub truncate_lines_at : Option ℕ
  pub head_lines : Option ℕ
  pub tail_lines : Option ℕ
  pub max_lines : Option ℕ
  pub on_empty : Option Text
  pub filter_stderr : Bool

-- The `BTreeMap` of filters in the order of its keys; the `tests` field is read by no code.
pub record TomlFilterFile : Type 0 where
  pub schema_version : ℕ
  pub filters : List (Text × TomlFilterDef)

-- What a filter's output has lost: nothing, the lines from an offset on of a payload, or an
-- unknown part.
pub data Lossiness : Type 0 where
  intact : Lossiness
  tail : Text → ℕ → Lossiness
  whole : Lossiness

-- Stage 6. `omitted` builds the line that stands for what was dropped.
unfoldable pub omission : String → ℕ → Text
omission what n = codes "... (" ++ (decimal n ++ codes what)

pub record Cut : Type 0 where
  pub kept : List Text
  pub noncontiguous_drop : Bool
  pub head_cut : Option ℕ

unfoldable pub cut : Option ℕ → Option ℕ → List Text → Cut
cut (some head) (some last) ls =
    let total = length ls in
    if ltb (head + last) total
    then record {
      kept =
          take head ls
          ++ (omission " lines omitted)" (total - head - last) ∷ drop (total - last) ls);
      noncontiguous_drop = true;
      head_cut = none;
    }
    else record { kept = ls; noncontiguous_drop = false; head_cut = none }
cut (some head) none ls =
    let total = length ls in
    if ltb head total
    then record {
      kept = take head ls ++ omission " lines omitted)" (total - head) ∷ [];
      noncontiguous_drop = false;
      head_cut = some head;
    }
    else record { kept = ls; noncontiguous_drop = false; head_cut = none }
cut none (some last) ls =
    let total = length ls in
    if ltb last total
    then record {
      kept = omission " lines omitted)" (total - last) ∷ drop (total - last) ls;
      noncontiguous_drop = true;
      head_cut = none;
    }
    else record { kept = ls; noncontiguous_drop = false; head_cut = none }
cut none none ls = record { kept = ls; noncontiguous_drop = false; head_cut = none }

-- Stage 7, with `max_cut`.
unfoldable pub cap_lines : Option ℕ → List Text → List Text × Option ℕ
cap_lines none ls = (ls, none)
cap_lines (some max) ls =
    if ltb max (length ls)
    then (take max ls ++ omission " lines truncated)" (length ls - max) ∷ [], some max)
    else (ls, none)

-- Stage 5, with `intra_line_loss`.
unfoldable pub truncate_lines : Option ℕ → List Text → List Text × Bool
truncate_lines none ls = (ls, false)
truncate_lines (some max_chars) ls =
    (map (λ l. truncate l max_chars) ls, any (λ l. not (text_eq (truncate l max_chars) l)) ls)

-- The classification at the end, `pre_cut` being the snapshot before stage 6.
unfoldable pub loss : Option (List Text) → Bool → Option ℕ → Option ℕ → Bool → Lossiness
loss (some snapshot) noncontiguous (some head) (some max) intra = whole
loss (some snapshot) noncontiguous (some head) none intra = tail (join snapshot) (head + 1)
loss (some snapshot) noncontiguous none (some max) intra = tail (join snapshot) (max + 1)
loss (some snapshot) noncontiguous none none intra = intact
loss none noncontiguous head_cut max_cut intra =
    if noncontiguous || (intra || (is_some head_cut || is_some max_cut)) then whole else intact

-- The fields of a compiled filter that say how the selected lines are cut.
pub record Limits : Type 0 where
  pub truncate_lines_at : Option ℕ
  pub head_lines : Option ℕ
  pub tail_lines : Option ℕ
  pub max_lines : Option ℕ
  pub on_empty : Option Text

-- Stages 5 to 8, and the classification.
unfoldable pub finish : Limits → List Text → Text × Lossiness
finish f selected =
    let (shown, intra_line_loss) = truncate_lines f.truncate_lines_at selected in
    let snapshot_for_tail =
      not intra_line_loss
      && (not (is_some f.tail_lines) && (is_some f.head_lines || is_some f.max_lines)) in
    let pre_cut = if snapshot_for_tail then some shown else none in
    let c = cut f.head_lines f.tail_lines shown in
    let (capped, max_cut) = cap_lines f.max_lines c.kept in
    let result = join capped in
    let normal : Text × Lossiness =
      (result, loss pre_cut c.noncontiguous_drop c.head_cut max_cut intra_line_loss) in
    if is_blank result
    then elim f.on_empty [ none ↦ normal | some message ↦ (message, intact) ]
    else normal

module _ (api : RegexApi) where
  open api use {Regex, RegexSet, compile, compile_set, is_match, set_is_match, replace_all, ansi_re}

  pub record CompiledMatchOutputRule : Type 0 where
    pub pattern : Regex
    pub message : Text
    pub unless : Option Regex

  pub record CompiledReplaceRule : Type 0 where
    pub pattern : Regex
    pub replacement : Text

  pub data LineFilter : Type 0 where
    every : LineFilter
    strip : RegexSet → LineFilter
    keep : RegexSet → LineFilter

  pub record CompiledFilter : Type 0 where
    pub name : Text
    pub description : Option Text
    pub match_regex : Regex
    pub strip_ansi : Bool
    pub replace : List CompiledReplaceRule
    pub match_output : List CompiledMatchOutputRule
    pub line_filter : LineFilter
    pub limits : Limits
    pub filter_stderr : Bool

  -- Stages 1 and 2 on one line.
  unfoldable pub strip_ansi : Text → Text
  strip_ansi text = replace_all ansi_re text []

  unfoldable pub replace_rules : List CompiledReplaceRule → Text → Text
  replace_rules [] line = line
  replace_rules (rule ∷ rules) line =
      replace_rules rules (replace_all rule.pattern line rule.replacement)

  unfoldable pub rewrite_lines : CompiledFilter → List Text → List Text
  rewrite_lines f ls =
      map (replace_rules f.replace) (if f.strip_ansi then map strip_ansi ls else ls)

  -- Stage 3: the message of the first rule whose pattern matches and whose exception does not.
  unfoldable pub match_output : List CompiledMatchOutputRule → Text → Option Text
  match_output [] blob = none
  match_output (rule ∷ rules) blob =
      let later = match_output rules blob in
      if is_match rule.pattern blob
      then elim rule.unless [
        | none ↦ some rule.message
        | some unless_re ↦ if is_match unless_re blob then later else some rule.message
      ]
      else later

  -- Stage 4.
  unfoldable pub select_lines : LineFilter → List Text → List Text
  select_lines every ls = ls
  select_lines (strip set) ls = retain (λ l. not (set_is_match set l)) ls
  select_lines (keep set) ls = retain (set_is_match set) ls

  unfoldable pub apply_filter_with_info : CompiledFilter → Text → Text × Lossiness
  apply_filter_with_info f stdout =
      let ls = rewrite_lines f (lines stdout) in
      elim (match_output f.match_output (join ls)) [
        | some message ↦ (message, whole)
        | none ↦ finish f.limits (select_lines f.line_filter ls)
      ]

  unfoldable pub apply_filter : CompiledFilter → Text → Text
  unfolding apply_filter_with_info
  apply_filter f stdout = (apply_filter_with_info f stdout).0

  unfoldable pub find_filter_in : Text → List CompiledFilter → Option CompiledFilter
  find_filter_in command filters = find (λ f. is_match f.match_regex command) filters
