-- ===== src/SafeCache/Entries.antt =====
-- src/safe_cache/cache_db.rs: what a lookup finds after each operation.
use toche.Prelude.{
  ◌==◌, leb, ℕ, List, [], ◌∷◌, Option, none, some, Bool, true, false, ◌&&◌, not, Text, text_eq,
  text_eq_iff, if◌then◌else◌, any, find, retain, map, ◌≡◌, refl, ap, ◌∙◌, arith, Bool-cases, inl,
  inr, ◌+◌,
}
use mathlib.Core.Option
use toche.SafeCache.Db.{
  CacheDb, CacheEntry, NewCacheEntry, is_at, next_id, lookup, insert, touch, evict_expired, text_lt,
}

-- No two rows of a table are at one place: the constraint UNIQUE(project_path, fingerprint).
unfoldable pub unique : List CacheEntry → Bool
unique [] = true
unique (r ∷ rows) =
    let later = unique rows in not (any (is_at r.project_path r.fingerprint) rows) && later

-- A row at a place is at every place equal to it.
is_at-agree :
    (p f : Text) (r q : CacheEntry)
    → is_at p f r ≡ true
    → is_at p f q ≡ is_at r.project_path r.fingerprint q
is_at-agree p f r q h = ground (arith, text_eq_iff r.project_path p, text_eq_iff r.fingerprint f)

find-any :
    (p : CacheEntry → Bool) (rows : List CacheEntry) → any p rows ≡ false → find p rows ≡ none
find-any p [] h = refl
find-any p (r ∷ rows) h = ground (arith, find-any p rows)

any-agree :
    (p q : CacheEntry → Bool)
    → ((r : CacheEntry) → p r ≡ q r)
    → (rows : List CacheEntry) → any p rows ≡ any q rows
any-agree p q same [] = refl
any-agree p q same (r ∷ rows) = ground (arith, same r, any-agree p q same rows)

-- What a lookup gives of a table where the rows that do not pass a test are deleted.
abbrev pub kept : (CacheEntry → Bool) → Option CacheEntry → Option CacheEntry
kept keep none = none
kept keep (some r) = if keep r then some r else none

find-retain :
    (keep : CacheEntry → Bool) (p f : Text) (rows : List CacheEntry)
    → unique rows ≡ true
    → find (is_at p f) (retain keep rows) ≡ kept keep (find (is_at p f) rows)
unfolding unique
find-retain keep p f [] h = refl
find-retain keep p f (r ∷ rows) h = elim (Bool-cases (is_at p f r)) [
  | inl here ↦
      let alone : find (is_at p f) rows ≡ none = find-any (is_at p f) rows (
        any-agree (is_at p f) (is_at r.project_path r.fingerprint) (λ q. is_at-agree p f r q here)
          rows
        ∙ ground arith) in
      let rest : find (is_at p f) (retain keep rows) ≡ none =
        find-retain keep p f rows (ground arith) ∙ ap (kept keep) alone in
      ground (arith, here, rest)
  | inr away ↦ ground (arith, away, find-retain keep p f rows)
]

-- Deleting the rows at one place leaves the lookups at another.
find-others :
    (p f q g : Text) (rows : List CacheEntry)
    → (text_eq p q && text_eq f g) ≡ false
    → find (is_at q g) (retain (λ r. not (is_at p f r)) rows) ≡ find (is_at q g) rows
find-others p f q g [] h = refl
find-others p f q g (r ∷ rows) h = ground (
  arith,
  find-others p f q g rows h,
  text_eq_iff r.project_path p,
  text_eq_iff r.fingerprint f,
  text_eq_iff p q,
  text_eq_iff f g,
)

find-touch :
    (now q g p f : Text) (rows : List CacheEntry)
    → find (is_at p f) (
        map
          (λ (r : CacheEntry).
            if is_at q g r then record r { last_hit_at = now; hit_count = r.hit_count + 1 } else r)
          rows)
      ≡ Option.map
          (λ (r : CacheEntry).
            if text_eq q p && text_eq g f
            then record r { last_hit_at = now; hit_count = r.hit_count + 1 }
            else r)
          (find (is_at p f) rows)
find-touch now q g p f [] = refl
find-touch now q g p f (r ∷ rows) = ground (
  arith,
  find-touch now q g p f rows,
  text_eq_iff r.project_path p,
  text_eq_iff r.fingerprint f,
  text_eq_iff r.project_path q,
  text_eq_iff r.fingerprint g,
  text_eq_iff p q,
  text_eq_iff f g,
  text_eq_iff q p,
  text_eq_iff g f,
)

-- Whether a row has a number.
abbrev pub has_id : ℕ → CacheEntry → Bool
has_id n r = r.id == n

next_id_fresh :
    (n : ℕ) (rows : List CacheEntry) → leb (next_id rows) n ≡ true → any (has_id n) rows ≡ false
unfolding next_id
next_id_fresh n [] h = refl
next_id_fresh n (r ∷ rows) h = ground (arith, next_id_fresh n rows)

-- After an insertion, its place holds the fields of the entry, a number that no row had before, the
-- time as both times, and one hit. Every other place is as it was.
pub lookup-insert :
    (now p f : Text) (e : NewCacheEntry) (s : CacheDb)
    → (id : ℕ) × (any (has_id id) s.safe_cache ≡ false)
      × (lookup (insert now e s) p f ≡ (
          if text_eq e.project_path p && text_eq e.fingerprint f
          then some (record {
            id = id;
            project_path = e.project_path;
            fingerprint = e.fingerprint;
            workspace_fingerprint = e.workspace_fingerprint;
            response_hash = e.response_hash;
            model = e.model;
            status = e.status;
            tokens_input = e.tokens_input;
            tokens_output = e.tokens_output;
            created_at = now;
            last_hit_at = now;
            hit_count = 1;
          })
          else lookup s p f))
unfolding lookup insert
lookup-insert now p f e s = (
  next_id s.safe_cache,
  next_id_fresh (next_id s.safe_cache) s.safe_cache (ground arith),
  elim (Bool-cases (text_eq e.project_path p && text_eq e.fingerprint f)) [
    | inl here ↦ rw here refl
    | inr away ↦ rw away (find-others e.project_path e.fingerprint p f s.safe_cache away)
  ],
)

-- Where no two rows are at one place, the eviction keeps exactly the entries that were created no
-- earlier than the cutoff.
lookup-evict_expired :
    (cutoff p f : Text) (s : CacheDb)
    → unique s.safe_cache ≡ true
    → lookup (evict_expired cutoff s).0 p f
      ≡ kept (λ (r : CacheEntry). not (text_lt r.created_at cutoff)) (lookup s p f)
unfolding lookup evict_expired
lookup-evict_expired cutoff p f s h =
    find-retain (λ (r : CacheEntry). not (text_lt r.created_at cutoff)) p f s.safe_cache h

-- A touch counts one more hit and notes its time for the entry at its place, and leaves every
-- other place as it was.
pub lookup-touch :
    (now q g p f : Text) (s : CacheDb)
    → lookup (touch now q g s) p f
      ≡ Option.map
          (λ (r : CacheEntry).
            if text_eq q p && text_eq g f
            then record r { last_hit_at = now; hit_count = r.hit_count + 1 }
            else r)
          (lookup s p f)
unfolding lookup touch
lookup-touch now q g p f s = find-touch now q g p f s.safe_cache
