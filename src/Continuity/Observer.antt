-- ===== src/Continuity/Observer.antt =====
-- src/continuity/observer.rs: the facts about files and commands in observed responses. A body
-- stands as the text that `from_utf8_lossy` makes of it, and the lock is never poisoned.
use toche.Prelude.{
  List, [], ◌∷◌, ◌++◌, Option, none, some, Bool, ◌&&◌, ◌||◌, Text, codes, if◌then◌else◌, Result, ok,
  err, and_then,
}
use toche.Json.{Json}
use toche.Json.Arrays.{array_field, str_field}
use toche.Cache.Breakpoint.{has_type}
use toche.Reduce.Lines.{lines}
use toche.SafeCache.Db.{contains}
use toche.SafeCache.Inspect.{contains_text, starts_with, event_data, is_empty}

pub record SessionFacts : Type 0 where
  pub files_read : List Text
  pub files_written : List Text
  pub commands_run : List Text
  pub models_used : List Text

abbrev pub no_facts : SessionFacts
no_facts = record { files_read = []; files_written = []; commands_run = []; models_used = [] }

abbrev pub is_empty_facts : SessionFacts → Bool
is_empty_facts facts =
    is_empty facts.files_read
    && (is_empty facts.files_written && (is_empty facts.commands_run && is_empty facts.models_used))

-- `if !guard.contains(&f) { guard.push(f) }`, and the loop of it.
abbrev pub push_new : Text → List Text → List Text
push_new f guard = if contains f guard then guard else guard ++ (f ∷ [])

abbrev pub push_all : List Text → List Text → List Text
push_all [] guard = guard
push_all (f ∷ fs) guard = push_all fs (push_new f guard)

abbrev pub or_empty : Option Text → Text
or_empty none = []
or_empty (some t) = t

-- The first line of a command.
abbrev first_line : Text → List Text → Text
first_line cmd [] = cmd
first_line cmd (l ∷ ls) = l

abbrev or_else {ℓ} : {A : Type ℓ} → Option A → Option A → Option A
or_else none y = y
or_else (some x) y = some x

abbrev pub is_one_of : List Text → Text → Bool
is_one_of names name = contains name names

abbrev pub read_names : List Text
read_names = codes "read" ∷ codes "Read" ∷ codes "View" ∷ []

abbrev pub write_names : List Text
write_names = codes "write" ∷ codes "Write" ∷ codes "Edit" ∷ codes "edit" ∷ []

abbrev pub command_names : List Text
command_names = codes "bash" ∷ codes "Bash" ∷ codes "PowerShell" ∷ codes "Shell" ∷ []

-- A list with a value at its end, where there is one.
abbrev pub pushed : Option Text → List Text → List Text
pushed none xs = xs
pushed (some x) xs = xs ++ (x ∷ [])

module _ (json : Json) where
  open json use {Value, get, from_str, as_str}

  abbrev pub file_path : Value → Option Text
  file_path input =
      and_then (or_else (get (codes "file_path") input) (get (codes "filePath") input)) as_str

  abbrev pub command : Value → Option Text
  command input = elim (str_field json (codes "command") input) [
    | none ↦ none
    | some cmd ↦ some (first_line cmd (lines cmd))
  ]

  unfoldable pub extract_tool_use_from_block : Value → SessionFacts → SessionFacts
  extract_tool_use_from_block block facts =
      let name = or_empty (str_field json (codes "name") block) in
      let input = get (codes "input") block in
      if is_one_of read_names name
      then record facts { files_read = pushed (and_then input file_path) facts.files_read }
      else (if is_one_of write_names name
          then record facts {
            files_written = pushed (and_then input file_path) facts.files_written;
          }
          else (if is_one_of command_names name
              then record facts {
                commands_run = pushed (and_then input command) facts.commands_run;
              }
              else facts))

  abbrev extract_from_object : Value → SessionFacts → SessionFacts
  extract_from_object obj facts = elim (get (codes "content_block") obj) [
    | none ↦ extract_tool_use_from_block obj facts
    | some cb ↦
        if has_type json (codes "tool_use") cb then extract_tool_use_from_block cb facts else facts
  ]

  abbrev extract_parsed : Result Value → SessionFacts → SessionFacts
  extract_parsed (err e) facts = facts
  extract_parsed (ok obj) facts = extract_from_object obj facts

  unfoldable pub extract_tool_use : Text → SessionFacts → SessionFacts
  unfolding extract_tool_use_from_block
  extract_tool_use data_ facts = extract_parsed (from_str data_) facts

  abbrev extract_events : List Text → SessionFacts → SessionFacts
  extract_events [] facts = facts
  extract_events (d ∷ ds) facts = extract_events ds (extract_tool_use d facts)

  unfoldable pub extract_sse_facts : Text → SessionFacts → SessionFacts
  unfolding extract_tool_use event_data
  extract_sse_facts text facts = extract_events (event_data (lines text)) facts

  abbrev pub extract_blocks : List Value → SessionFacts → SessionFacts
  extract_blocks [] facts = facts
  extract_blocks (block ∷ blocks) facts = extract_blocks blocks (
      if has_type json (codes "tool_use") block
      then extract_tool_use_from_block block facts
      else facts)

  -- The model that the message names, and that of the response.
  abbrev pub models_of : Value → List Text → List Text
  models_of root models =
      let models' =
        pushed (and_then (get (codes "message") root) (str_field json (codes "model"))) models in
      elim (str_field json (codes "model") root) [
        | none ↦ models'
        | some model ↦ push_new model models'
      ]

  abbrev pub blocks_of : Option (List Value) → SessionFacts → SessionFacts
  blocks_of none facts = facts
  blocks_of (some blocks) facts = extract_blocks blocks facts

  abbrev pub extract_root : Result Value → SessionFacts → SessionFacts
  extract_root (err e) facts = facts
  extract_root (ok root) facts =
      blocks_of (array_field json (codes "content") root)
        (record facts { models_used = models_of root facts.models_used })

  unfoldable pub extract_json_facts : Text → SessionFacts → SessionFacts
  unfolding extract_tool_use_from_block
  extract_json_facts text facts = extract_root (from_str text) facts

  unfoldable pub extract_facts : Text → SessionFacts
  unfolding extract_sse_facts extract_json_facts
  extract_facts [] = no_facts
  extract_facts (c ∷ text) =
      if contains_text (codes "event: ") (c ∷ text) || starts_with (codes "data:") (c ∷ text)
      then extract_sse_facts (c ∷ text) no_facts
      else extract_json_facts (c ∷ text) no_facts

  -- The facts of a response go to the facts observed so far.
  unfoldable pub observe_response : Text → SessionFacts → SessionFacts
  unfolding extract_facts
  observe_response body guard =
      let facts = extract_facts body in
      if is_empty_facts facts then guard else record {
        files_read = push_all facts.files_read guard.files_read;
        files_written = push_all facts.files_written guard.files_written;
        commands_run = push_all facts.commands_run guard.commands_run;
        models_used = push_all facts.models_used guard.models_used;
      }

-- What is handed over, and what the observer then holds.
unfoldable pub drain_facts : SessionFacts → SessionFacts × SessionFacts
drain_facts guard = (guard, no_facts)
