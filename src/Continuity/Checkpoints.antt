-- ===== src/Continuity/Checkpoints.antt =====
-- src/continuity/checkpoint.rs: the table of checkpoints, with what its SQL statements do to it. A
-- statement runs whole, and none fails; `now`, `git_head` and `ws_fp` are what the clock, git and
-- the fingerprint of the workspace give. The largest id of SQLite is never reached.
pub mod Kept
use toche.Prelude.{
  ℕ, suc, List, [], ◌∷◌, Option, none, some, Bool, not, Text, text_eq, if◌then◌else◌, find, retain,
  any, take, leb, ◌==◌,
}

pub record CheckpointEntry : Type 0 where
  pub id : ℕ
  pub project_path : Text
  pub git_head : Text
  pub workspace_fingerprint : Text
  pub task : Text
  pub completed : Text
  pub changed_files : Text
  pub verification : Text
  pub open_risks : Text
  pub next_action : Text
  pub facts_json : Text
  pub model_assisted : Bool
  pub created_at : Text
  pub updated_at : Text

pub record NewCheckpoint : Type 0 where
  pub project_path : Text
  pub task : Text
  pub completed : Text
  pub changed_files : Text
  pub verification : Text
  pub open_risks : Text
  pub next_action : Text
  pub facts_json : Text
  pub model_assisted : Bool

abbrev pub CheckpointDb : Type 0
CheckpointDb = List CheckpointEntry

-- The number that SQLite gives to a new row.
unfoldable pub next_id : CheckpointDb → ℕ
next_id [] = 1
next_id (r ∷ rows) = let n = next_id rows in if leb n r.id then suc r.id else n

abbrev pub new_row : ℕ → Text → Text → Text → NewCheckpoint → CheckpointEntry
new_row id now git_head ws_fp e = record {
  id = id;
  project_path = e.project_path;
  git_head = git_head;
  workspace_fingerprint = ws_fp;
  task = e.task;
  completed = e.completed;
  changed_files = e.changed_files;
  verification = e.verification;
  open_risks = e.open_risks;
  next_action = e.next_action;
  facts_json = e.facts_json;
  model_assisted = e.model_assisted;
  created_at = now;
  updated_at = now;
}

unfoldable pub insert : Text → Text → Text → NewCheckpoint → CheckpointDb → CheckpointDb × ℕ
unfolding next_id
insert now git_head ws_fp e db = (new_row (next_id db) now git_head ws_fp e ∷ db, next_id db)

-- `ORDER BY id DESC`
abbrev pub put_in_order : CheckpointEntry → CheckpointDb → CheckpointDb
put_in_order r [] = r ∷ []
put_in_order r (s ∷ rows) =
    let later = put_in_order r rows in if leb s.id r.id then r ∷ s ∷ rows else s ∷ later

abbrev pub by_id_desc : CheckpointDb → CheckpointDb
by_id_desc [] = []
by_id_desc (r ∷ rows) = put_in_order r (by_id_desc rows)

abbrev pub of_project : Text → CheckpointDb → CheckpointDb
of_project p db = retain (λ (r : CheckpointEntry). text_eq r.project_path p) db

unfoldable pub list : CheckpointDb → Text → ℕ → CheckpointDb
list db project_path limit = take limit (by_id_desc (of_project project_path db))

abbrev first : CheckpointDb → Option CheckpointEntry
first [] = none
first (r ∷ rows) = some r

unfoldable pub latest : CheckpointDb → Text → Option CheckpointEntry
unfolding list
latest db project_path = first (list db project_path 1)

unfoldable pub get : CheckpointDb → ℕ → Option CheckpointEntry
get db id = find (λ (r : CheckpointEntry). r.id == id) db

unfoldable pub delete : ℕ → CheckpointDb → CheckpointDb × Bool
delete id db = (
  retain (λ (r : CheckpointEntry). not (r.id == id)) db,
  any (λ (r : CheckpointEntry). r.id == id) db,
)
