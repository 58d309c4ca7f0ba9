-- ===== src/Continuity/Tests.antt =====
-- A response that reads a file, one that cannot be parsed, and a table of two checkpoints.
use toche.Prelude.{
  [], ◌∷◌, Text, codes, text_eq, if◌then◌else◌, ok, err, ◌≡◌, refl, any, true, false, none, some,
  ◌≢◌, ◌&&◌,
}
use toche.Json.{Json}
use toche.Json.Arrays.{array_field}
use toche.Json.Example.{example_json, object, Value, str, arr, of_list}
use toche.Cache.Breakpoint.{has_type}
use toche.SafeCache.Db.{contains}
use toche.Continuity.Observer.{no_facts, drain_facts, extract_facts}
use toche.Continuity.Observed.{observe_all, drain_facts-observe_all, reads, facts_of, is_unique}
use toche.Continuity.Checkpoints.{NewCheckpoint, CheckpointDb, new_row, insert, get, latest, list}
use toche.Continuity.Checkpoints.Kept.{insert-get}
use toche.Continuity.Extracted.{extract_facts-files_read, reads_file}

abbrev file : Text
file = codes "src/lib.rs"

abbrev tool_use : Value
tool_use = object (
    (codes "type", str (codes "tool_use"))
    ∷ (codes "name", str (codes "Read"))
    ∷ (codes "input", object ((codes "file_path", str file) ∷ []))
    ∷ [])

abbrev root : Value
root = object (
    (codes "model", str (codes "m"))
    ∷ (codes "content", arr (of_list (tool_use ∷ tool_use ∷ [])))
    ∷ [])

abbrev body : Text
body = codes "{}"

abbrev json : Json
json =
    example_json (λ t. if text_eq t body then ok root else err (codes "no JSON"))
      (λ v. ok (codes "{}"))

drain_facts-observe_all_example :
    let drained = drain_facts (observe_all json (body ∷ codes "?" ∷ body ∷ []) no_facts) in
    (contains file (facts_of reads drained.0)
      ≡ any
          (λ b. contains file (facts_of reads (extract_facts json b)))
          (body ∷ codes "?" ∷ body ∷ []))
    × (is_unique (facts_of reads drained.0) ≡ true)
    × (drained.1 ≡ no_facts)
drain_facts-observe_all_example =
    drain_facts-observe_all json reads file (body ∷ codes "?" ∷ body ∷ [])

extract_facts-files_read_example :
    contains file (extract_facts json body).files_read
    ≡ any
        (λ b. has_type json (codes "tool_use") b && reads_file json file b)
        (tool_use ∷ tool_use ∷ [])
unfolding text_eq array_field
extract_facts-files_read_example =
    extract_facts-files_read json 123 (codes "}") file root (tool_use ∷ tool_use ∷ []) refl refl
      refl

abbrev checkpoint : Text → NewCheckpoint
checkpoint project = record {
  project_path = project;
  task = codes "task";
  completed = [];
  changed_files = [];
  verification = [];
  open_risks = [];
  next_action = [];
  facts_json = codes "{}";
  model_assisted = false;
}

abbrev here : Text
here = codes "/p"

abbrev there : Text
there = codes "/q"

abbrev two : CheckpointDb
two =
    new_row 5 (codes "t1") [] [] (checkpoint here)
    ∷ new_row 2 (codes "t0") [] [] (checkpoint there)
    ∷ []

insert-get_example :
    let inserted = insert (codes "t2") [] [] (checkpoint here) two in
    let row = new_row inserted.1 (codes "t2") [] [] (checkpoint here) in
    (get two inserted.1 ≡ none)
    × (get inserted.0 inserted.1 ≡ some row)
    × (inserted.1 ≢ 2 → get inserted.0 2 ≡ get two 2)
    × (latest inserted.0 here ≡ some row)
    × (list inserted.0 here 2 ≡ row ∷ list two here 1)
    × (text_eq here there ≡ false → list inserted.0 there 1 ≡ list two there 1)
insert-get_example = insert-get (codes "t2") [] [] (checkpoint here) two 1 2 there
