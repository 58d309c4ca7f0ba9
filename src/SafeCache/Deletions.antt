-- ===== src/SafeCache/Deletions.antt =====
-- src/safe_cache/cache_db.rs: what the deletions report, and what a lookup finds after a clear.
use toche.Prelude.{
  ◌+◌, List, [], ◌∷◌, Option, none, some, Bool, not, Text, text_eq, text_eq_iff, if◌then◌else◌,
  find, retain, length, ◌≡◌, refl, arith,
}
use toche.SafeCache.Db.{
  CacheDb, CacheEntry, CacheReject, is_at, lookup, evict_expired, evict_expired_rejects, clear,
  count, count_rejects, text_lt,
}

length-split :
    {A : Type 0} (p : A → Bool) (rows : List A)
    → length (retain p rows) + length (retain (λ r. not (p r)) rows) ≡ length rows
length-split p [] = omega arith
length-split p (r ∷ rows) = ground (arith, length-split p rows)

find-clear :
    (q p f : Text) (rows : List CacheEntry)
    → find (is_at p f) (retain (λ (r : CacheEntry). not (text_eq r.project_path q)) rows)
      ≡ (if text_eq p q then none else find (is_at p f) rows)
find-clear q p f [] = ground arith
find-clear q p f (r ∷ rows) = ground (
  arith,
  find-clear q p f rows,
  text_eq_iff r.project_path q,
  text_eq_iff r.project_path p,
  text_eq_iff p q,
)

-- A clear of one project removes its entries and no others, and a clear of all removes all.
lookup-clear :
    (project : Option Text) (p f : Text) (s : CacheDb)
    → lookup (clear project s).0 p f
      ≡ elim project [ none ↦ none | some q ↦ if text_eq p q then none else lookup s p f ]
unfolding lookup clear
lookup-clear none p f s = refl
lookup-clear (some q) p f s = find-clear q p f s.safe_cache

-- Each deletion reports as many entries as the table has lost.
count-deletions :
    (cutoff : Text) (project : Option Text) (s : CacheDb)
    → ((evict_expired cutoff s).1 + count (evict_expired cutoff s).0 none ≡ count s none)
      × ((evict_expired_rejects cutoff s).1 + count_rejects (evict_expired_rejects cutoff s).0 none
          ≡ count_rejects s none)
      × ((clear project s).1 + count (clear project s).0 none ≡ count s none)
unfolding evict_expired evict_expired_rejects clear count count_rejects
count-deletions cutoff none s = (
  length-split (λ (r : CacheEntry). text_lt r.created_at cutoff) s.safe_cache,
  length-split (λ (r : CacheReject). text_lt r.timestamp cutoff) s.cache_rejects,
  omega arith,
)
count-deletions cutoff (some p) s = (
  length-split (λ (r : CacheEntry). text_lt r.created_at cutoff) s.safe_cache,
  length-split (λ (r : CacheReject). text_lt r.timestamp cutoff) s.cache_rejects,
  length-split (λ (r : CacheEntry). text_eq r.project_path p) s.safe_cache,
)
