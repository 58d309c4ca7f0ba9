-- ===== src/Continuity/Checkpoints/Kept.antt =====
-- src/continuity/checkpoint.rs: a checkpoint is found again, and the others stay.
use toche.Prelude.{
  ℕ, suc, [], ◌∷◌, none, some, Bool, true, false, Text, text_eq, text_eq_iff, if◌then◌else◌, take,
  leb, ltb, ◌≡◌, ◌≢◌, refl, arith, ap, is_some, ◌∙◌,
}
use toche.Continuity.Checkpoints.{
  CheckpointEntry, NewCheckpoint, CheckpointDb, next_id, new_row, insert, put_in_order, by_id_desc,
  of_project, list, latest, get, delete,
}

-- All ids are below a number.
abbrev is_below : ℕ → CheckpointDb → Bool
is_below n [] = true
is_below n (r ∷ rows) = if ltb r.id n then is_below n rows else false

is_below_mono :
    (n m : ℕ) (db : CheckpointDb) → leb n m ≡ true → is_below n db ≡ true → is_below m db ≡ true
is_below_mono n m [] le h = refl
is_below_mono n m (r ∷ rows) le h = ground (arith, is_below_mono n m rows)

is_below-next_id : (db : CheckpointDb) → is_below (next_id db) db ≡ true
unfolding next_id
is_below-next_id [] = refl
is_below-next_id (r ∷ rows) =
    ground (arith, is_below-next_id rows, is_below_mono (next_id rows) (suc r.id) rows)

is_below-of_project :
    (n : ℕ) (p : Text) (db : CheckpointDb)
    → is_below n db ≡ true
    → is_below n (of_project p db) ≡ true
is_below-of_project n p [] h = refl
is_below-of_project n p (r ∷ rows) h = ground (arith, is_below-of_project n p rows)

is_below-put_in_order :
    (n : ℕ) (r : CheckpointEntry) (db : CheckpointDb)
    → ltb r.id n ≡ true
    → is_below n db ≡ true
    → is_below n (put_in_order r db) ≡ true
is_below-put_in_order n r [] l h = ground arith
is_below-put_in_order n r (s ∷ rows) l h = ground (arith, is_below-put_in_order n r rows)

is_below-by_id_desc :
    (n : ℕ) (db : CheckpointDb) → is_below n db ≡ true → is_below n (by_id_desc db) ≡ true
is_below-by_id_desc n [] h = refl
is_below-by_id_desc n (r ∷ rows) h =
    ground (arith, is_below-by_id_desc n rows, is_below-put_in_order n r (by_id_desc rows))

put_in_order_first :
    (r : CheckpointEntry) (db : CheckpointDb) → is_below r.id db ≡ true → put_in_order r db ≡ r ∷ db
put_in_order_first r [] h = refl
put_in_order_first r (s ∷ rows) h = ground arith

get_ne : (n j : ℕ) (db : CheckpointDb) → is_below n db ≡ true → leb n j ≡ true → get db j ≡ none
unfolding get
get_ne n j [] h l = refl
get_ne n j (r ∷ rows) h l = ground (arith, get_ne n j rows)

list-own :
    (r : CheckpointEntry) (p : Text) (n : ℕ) (db : CheckpointDb)
    → is_below r.id db ≡ true
    → r.project_path ≡ p
    → list (r ∷ db) p (suc n) ≡ r ∷ list db p n
unfolding list
list-own r p n db h own = ap (take (suc n)) (
    ap by_id_desc (own_kept (text_eq_iff r.project_path p).1 own)
    ∙ put_in_order_first r (by_id_desc (of_project p db))
        (is_below-by_id_desc r.id (of_project p db) (is_below-of_project r.id p db h)))
  where
    own_kept :
        (r.project_path ≡ p → text_eq r.project_path p ≡ true)
        → r.project_path ≡ p
        → of_project p (r ∷ db) ≡ r ∷ of_project p db
    own_kept f e = ground arith

list-other :
    (r : CheckpointEntry) (p : Text) (n : ℕ) (db : CheckpointDb)
    → text_eq r.project_path p ≡ false
    → list (r ∷ db) p n ≡ list db p n
unfolding list
list-other r p n db other = rw other refl

-- An inserted checkpoint has an id that no other has. It is found under that id, with its fields and
-- with the time of the insertion as both of its times. It is the latest of its project and the first
-- in its list, before the list as it was. Under every other id, and for every other project, the
-- table answers as before.
pub insert-get :
    (now git_head ws_fp : Text) (e : NewCheckpoint) (db : CheckpointDb) (n j : ℕ) (q : Text)
    → let id = (insert now git_head ws_fp e db).1 in
      let after = (insert now git_head ws_fp e db).0 in
      let row : CheckpointEntry = record {
        id = id;
        project_path = e.project_path;
        git_head = git_head;
        workspace_fingerprint = ws_fp;
        task = e.task;
        completed = e.completed;
        changed_files = e.changed_files;
        verification = e.verification;
        open_risks = e.open_risks;
        next_action = e.next_action;
        facts_json = e.facts_json;
        model_assisted = e.model_assisted;
        created_at = now;
        updated_at = now;
      } in
      (get db id ≡ none)
      × (get after id ≡ some row)
      × (id ≢ j → get after j ≡ get db j)
      × (latest after e.project_path ≡ some row)
      × (list after e.project_path (suc n) ≡ row ∷ list db e.project_path n)
      × (text_eq e.project_path q ≡ false → list after q n ≡ list db q n)
unfolding insert get latest
insert-get now git_head ws_fp e db n j q =
    let id = next_id db in
    let row = new_row id now git_head ws_fp e in
    let below = is_below-next_id db in
    (
      get_ne id id db below (ground arith),
      ground arith,
      λ other. ground arith,
      rw (list-own row e.project_path 0 db below refl) refl,
      list-own row e.project_path n db below refl,
      list-other row q n db,
    )

-- A deleted checkpoint is gone, every other stays, and the deletion reports whether there was one.
delete-get :
    (id j : ℕ) (db : CheckpointDb)
    → (get (delete id db).0 id ≡ none)
      × (id ≢ j → get (delete id db).0 j ≡ get db j)
      × ((delete id db).1 ≡ is_some (get db id))
unfolding delete get
delete-get id j [] = (refl, λ n. refl, refl)
delete-get id j (r ∷ rows) =
    let (gone, kept, reported) = delete-get id j rows in
    (ground (arith, gone), λ n. ground (arith, kept n), ground (arith, reported))
