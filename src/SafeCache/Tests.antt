-- ===== src/SafeCache/Tests.antt =====
-- The properties of the response cache at a database with one entry and a blob on disk.
use toche.Prelude.{
  ℕ, true, any, ok, err, [], ◌∷◌, ◌++◌, none, some, false, ◌&&◌, not, Text, codes, ◌≡◌, refl,
  text_eq,
}
use toche.SafeCache.Db.{
  CacheDb, CacheEntry, NewCacheEntry, new_row, lookup, insert, register_cas, run, contains, opens,
  inserts, evicts, clears,
}
use toche.SafeCache.Orphans.{CasFile, orphan_candidates}
use toche.SafeCache.Entries.{lookup-insert, unique, has_id}
use toche.SafeCache.Invariant.{IsValid, run-IsValid}
use toche.Json.{Json}
use toche.Json.Arrays.{array_field, str_field}
use toche.Json.Example
use toche.Json.Example.{example_json}
use toche.Cache.Breakpoint.{has_type}
use toche.SafeCache.Inspect.{inspect_json}
use toche.SafeCache.Verdict.{inspect_json_iff}
use toche.SafeCache.Protection.{
  lists, on_disk, referenced, orphan_candidates-lists, registered_never_deleted,
}

abbrev empty : CacheDb
empty = record { safe_cache = []; cache_rejects = []; cas_known = []; cas_cache_refs = [] }

abbrev blob : Text
blob = codes "00" ++ codes "11111111111111111111111111111111111111111111111111111111111111"

abbrev answer : NewCacheEntry
answer = record {
  project_path = codes "/p";
  fingerprint = codes "f";
  workspace_fingerprint = [];
  response_hash = blob;
  model = codes "m";
  status = 200;
  tokens_input = 3;
  tokens_output = 4;
}

abbrev row : CacheEntry
row = new_row 1 (codes "2026-01-01") answer

abbrev one : CacheDb
one = record {
  safe_cache = row ∷ [];
  cache_rejects = [];
  cas_known = blob ∷ [];
  cas_cache_refs = blob ∷ [];
}

abbrev file : CasFile
file = record {
  first = codes "00";
  second = codes "11111111111111111111111111111111111111111111111111111111111111";
  bytes = 9;
}

lookup-insert_example :
    (id : ℕ) × (any (has_id id) one.safe_cache ≡ false)
    × (lookup (insert (codes "2026-02-02") answer one) (codes "/p") (codes "f")
        ≡ some (record {
          id = id;
          project_path = answer.project_path;
          fingerprint = answer.fingerprint;
          workspace_fingerprint = answer.workspace_fingerprint;
          response_hash = answer.response_hash;
          model = answer.model;
          status = answer.status;
          tokens_input = answer.tokens_input;
          tokens_output = answer.tokens_output;
          created_at = codes "2026-02-02";
          last_hit_at = codes "2026-02-02";
          hit_count = 1;
        }))
unfolding text_eq
lookup-insert_example = lookup-insert (codes "2026-02-02") (codes "/p") (codes "f") answer one

run-IsValid_example : IsValid (
    run
      (inserts (codes "2026-02-02") answer ∷ opens ∷ evicts (codes "2026-03-03") ∷ clears none ∷ [])
      one)
unfolding text_eq unique
run-IsValid_example =
    run-IsValid
      (inserts (codes "2026-02-02") answer ∷ opens ∷ evicts (codes "2026-03-03") ∷ clears none ∷ [])
      one (refl, refl, refl)

orphan_candidates-lists_example :
    (lists blob (orphan_candidates one (file ∷ [])).safe_to_delete ≡ (
      on_disk blob (file ∷ [])
      && (contains blob one.cas_known
          && (contains blob one.cas_cache_refs && not (referenced blob one)))))
    × (lists blob (orphan_candidates one (file ∷ [])).legacy_untracked
        ≡ (on_disk blob (file ∷ []) && not (contains blob one.cas_known)))
orphan_candidates-lists_example = orphan_candidates-lists blob one (file ∷ [])

registered_never_deleted_example :
    let s =
      run (inserts (codes "2026-02-02") answer ∷ clears none ∷ []) (register_cas blob empty) in
    (lists blob (orphan_candidates s (file ∷ [])).safe_to_delete ≡ false)
    × (lists blob (orphan_candidates s (file ∷ [])).legacy_untracked ≡ false)
unfolding unique
registered_never_deleted_example =
    registered_never_deleted blob empty (inserts (codes "2026-02-02") answer ∷ clears none ∷ [])
      (file ∷ []) (refl, refl, refl) refl

abbrev stream : Text
stream = codes "event: x\ndata: {\"type\":\"text\"}\n"

-- Every body parses to one response with a text block.
abbrev answers : Json
answers =
    example_json
      (λ t. ok (
        Example.object (
          (codes "content", Example.arr (Example.of_list (Example.str (codes "block") ∷ [])))
          ∷ [])))
      (λ v. err [])

inspect_json_iff_example : (inspect_json answers (codes "body")).safe ≡ true
unfolding array_field str_field text_eq has_type
inspect_json_iff_example = inspect_json_iff answers (codes "body")
