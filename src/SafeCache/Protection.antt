-- ===== src/SafeCache/Protection.antt =====
-- src/safe_cache/cache_db.rs: which blobs the cleanup of orphans may ever delete.
use toche.Prelude.{
  ℕ, List, [], ◌∷◌, ◌++◌, none, some, Bool, true, false, ◌&&◌, ◌||◌, not, Text, text_eq,
  text_eq_iff, text_eq_refl, if◌then◌else◌, any, all, map, ◌≡◌, refl, ap, ◌∙◌, arith, Bool-cases,
  inl, inr,
}
use toche.SafeCache.Db.{
  CacheDb, CacheEntry, NewCacheEntry, contains, insert_or_ignore, backfill, open_db, register_cas,
  insert, touch, evict_expired, clear, insert_reject, evict_expired_rejects, Operation, opens,
  registers, inserts, touches, evicts, clears, rejects, evicts_rejects, step, run,
}
use toche.SafeCache.Orphans.{
  OrphanCandidates, CasFile, OrphanCandidate, is_blob, place, sort_by_size, classify,
  orphan_candidates,
}
use toche.SafeCache.Invariant.{IsValid, contains-insert_or_ignore}

abbrev pub lists : Text → List OrphanCandidate → Bool
lists h candidates = any (λ (c : OrphanCandidate). text_eq c.hash h) candidates

-- Whether a blob of the hash stands among the files.
abbrev pub on_disk : Text → List CasFile → Bool
on_disk h files = any (λ (f : CasFile). is_blob f && text_eq (f.first ++ f.second) h) files

abbrev pub referenced : Text → CacheDb → Bool
referenced h s = contains h (map (λ (r : CacheEntry). r.response_hash) s.safe_cache)

lists-place :
    (h : Text) (c : OrphanCandidate) (cs : List OrphanCandidate)
    → lists h (place c cs) ≡ (text_eq c.hash h || lists h cs)
lists-place h c [] = refl
lists-place h c (d ∷ ds) = ground (arith, lists-place h c ds)

lists-sort : (h : Text) (cs : List OrphanCandidate) → lists h (sort_by_size cs) ≡ lists h cs
lists-sort h [] = refl
lists-sort h (c ∷ cs) =
    lists-place h c (sort_by_size cs) ∙ ap (λ b. text_eq c.hash h || b) (lists-sort h cs)

contains-agree : (h j : Text) (l : List Text) → text_eq j h ≡ true → contains j l ≡ contains h l
contains-agree h j l e = ground (arith, text_eq_iff j h)

-- One file of a blob in the classification, with what the tables say of its hash and of another.
safe_step :
    (h j : Text) (k o r kh oh rh disk : Bool) (later : OrphanCandidates) (bytes : ℕ)
    → (text_eq j h ≡ true → k ≡ kh)
    → (text_eq j h ≡ true → o ≡ oh)
    → (text_eq j h ≡ true → r ≡ rh)
    → lists h later.safe_to_delete ≡ (disk && (kh && (oh && not rh)))
    → let c : OrphanCandidate = record { hash = j; bytes = bytes } in
      lists h
        (if not k
          then record later { legacy_untracked = c ∷ later.legacy_untracked }
          else (if o && not r
              then record later { safe_to_delete = c ∷ later.safe_to_delete }
              else later)).safe_to_delete
      ≡ ((text_eq j h || disk) && (kh && (oh && not rh)))
safe_step h j k o r kh oh rh disk later bytes sk so sr e = elim (Bool-cases (text_eq j h)) [
  | inl same ↦ rw (sk same, so same, sr same) (ground (arith, e, same))
  | inr apart ↦ ground (arith, e, apart)
]

classify_safe :
    (h : Text) (s : CacheDb) (files : List CasFile)
    → lists h (classify s files).safe_to_delete ≡ (
        on_disk h files
        && (contains h s.cas_known && (contains h s.cas_cache_refs && not (referenced h s))))
unfolding classify
classify_safe h s [] = refl
classify_safe h s (f ∷ files) =
    let j = f.first ++ f.second in
    let blobs = map (λ (r : CacheEntry). r.response_hash) s.safe_cache in
    elim (Bool-cases (is_blob f)) [
      | inr other ↦ rw other (classify_safe h s files)
      | inl blob ↦ rw blob (
          safe_step h j (contains j s.cas_known) (contains j s.cas_cache_refs) (contains j blobs)
            (contains h s.cas_known) (contains h s.cas_cache_refs) (contains h blobs)
            (on_disk h files) (classify s files) f.bytes (contains-agree h j s.cas_known)
            (contains-agree h j s.cas_cache_refs) (contains-agree h j blobs)
            (classify_safe h s files))
    ]

classify_untracked :
    (h : Text) (s : CacheDb) (files : List CasFile)
    → lists h (classify s files).legacy_untracked
      ≡ (on_disk h files && not (contains h s.cas_known))
unfolding classify
classify_untracked h s [] = refl
classify_untracked h s (f ∷ files) =
    ground (arith, classify_untracked h s files, contains-agree h (f.first ++ f.second) s.cas_known)

-- A hash is listed as safe to delete exactly where a blob of it is on disk, is known, is owned by
-- the cache and no entry refers to it, and as untracked exactly where a blob of it is on disk and
-- is not known.
pub orphan_candidates-lists :
    (h : Text) (s : CacheDb) (files : List CasFile)
    → (lists h (orphan_candidates s files).safe_to_delete ≡ (
        on_disk h files
        && (contains h s.cas_known && (contains h s.cas_cache_refs && not (referenced h s)))))
      × (lists h (orphan_candidates s files).legacy_untracked
          ≡ (on_disk h files && not (contains h s.cas_known)))
unfolding orphan_candidates
orphan_candidates-lists h s files = (
  lists-sort h (classify s files).safe_to_delete ∙ classify_safe h s files,
  lists-sort h (classify s files).legacy_untracked ∙ classify_untracked h s files,
)

abbrev Foreign : Text → CacheDb → Type 0
Foreign h s = (contains h s.cas_known ≡ true) × (contains h s.cas_cache_refs ≡ false)

known_more :
    (h j : Text) (l : List Text) → contains h l ≡ true → contains h (insert_or_ignore j l) ≡ true
known_more h j l k = ground (arith, contains-insert_or_ignore h j l)

known-backfill :
    (h : Text) (rows : List CacheEntry) (known : List Text)
    → contains h known ≡ true
    → contains h (backfill rows known) ≡ true
unfolding backfill
known-backfill h [] known k = k
known-backfill h (r ∷ rows) known k =
    known-backfill h rows (insert_or_ignore r.response_hash known)
      (known_more h r.response_hash known k)

insert-Foreign :
    (h now : Text) (e : NewCacheEntry) (s : CacheDb) → Foreign h s → Foreign h (insert now e s)
unfolding insert register_cas
insert-Foreign h now e s (k, f) = (
  known_more h e.response_hash s.cas_known k,
  ground (
    arith,
    k,
    f,
    contains-insert_or_ignore h e.response_hash s.cas_cache_refs,
    text_eq_iff e.response_hash h,
  ),
)

step-Foreign : (h : Text) (o : Operation) (s : CacheDb) → Foreign h s → Foreign h (step o s)
unfolding step open_db register_cas touch evict_expired clear insert_reject evict_expired_rejects
step-Foreign h opens s (k, f) = (known-backfill h s.safe_cache s.cas_known k, f)
step-Foreign h (registers hash) s (k, f) = (known_more h hash s.cas_known k, f)
step-Foreign h (inserts now e) s v = insert-Foreign h now e s v
step-Foreign h (touches now p g) s v = v
step-Foreign h (evicts cutoff) s v = v
step-Foreign h (clears none) s v = v
step-Foreign h (clears (some p)) s v = v
step-Foreign h (rejects q) s v = v
step-Foreign h (evicts_rejects cutoff) s v = v

run-Foreign : (h : Text) (ops : List Operation) (s : CacheDb) → Foreign h s → Foreign h (run ops s)
unfolding run
run-Foreign h [] s v = v
run-Foreign h (o ∷ ops) s v = run-Foreign h ops (step o s) (step-Foreign h o s v)

unowned :
    (h : Text) (known refs : List Text)
    → all (λ j. contains j known) refs ≡ true
    → contains h known ≡ false
    → contains h refs ≡ false
unowned h known [] o u = refl
unowned h known (j ∷ refs) o u = ground (arith, unowned h known refs, contains-agree h j known)

-- In a valid database, a blob that is registered before the cache knows it, as the reductions do with
-- theirs, is never listed for deletion, whatever operations follow.
pub registered_never_deleted :
    (h : Text) (s : CacheDb) (ops : List Operation) (files : List CasFile)
    → IsValid s
    → contains h s.cas_known ≡ false
    → (lists h (orphan_candidates (run ops (register_cas h s)) files).safe_to_delete ≡ false)
      × (lists h (orphan_candidates (run ops (register_cas h s)) files).legacy_untracked ≡ false)
unfolding register_cas
registered_never_deleted h s ops files (u, r, o) fresh =
    let start : Foreign h (register_cas h s) = (
      contains-insert_or_ignore h h s.cas_known
          ∙ ap (λ b. b || contains h s.cas_known) (text_eq_refl h),
      unowned h s.cas_known s.cas_cache_refs o fresh,
    ) in
    let (k, f) = run-Foreign h ops (register_cas h s) start in
    let (safe, untracked) = orphan_candidates-lists h (run ops (register_cas h s)) files in
    ground (arith, safe, untracked, k, f)
