-- ===== src/SafeCache/Orphans.antt =====
-- src/safe_cache/cache_db.rs, `orphan_candidates`: which blobs on disk may be deleted.
use toche.Prelude.{
  ℕ, List, [], ◌∷◌, ◌++◌, Bool, ◌&&◌, ◌||◌, not, Text, if◌then◌else◌, all, map, length, leb, ltb,
  ◌==◌,
}
use toche.SafeCache.Db.{CacheDb, CacheEntry, contains}

pub record OrphanCandidate : Type 0 where
  pub hash : Text
  pub bytes : ℕ

pub record OrphanCandidates : Type 0 where
  pub safe_to_delete : List OrphanCandidate
  pub legacy_untracked : List OrphanCandidate

-- A file of the blob directory: the names of its folder and its own, and its size.
pub record CasFile : Type 0 where
  pub first : Text
  pub second : Text
  pub bytes : ℕ

-- `char::is_ascii_hexdigit`
abbrev pub is_hexdigit : ℕ → Bool
is_hexdigit c =
    (leb b'0' c && leb c b'9') || (leb b'a' c && leb c b'f') || (leb b'A' c && leb c b'F')

unfoldable pub is_blob : CasFile → Bool
is_blob f =
    (length f.first == 2 && all is_hexdigit f.first)
    && (length f.second == 62 && all is_hexdigit f.second)

abbrev pub candidate_of : CasFile → OrphanCandidate
candidate_of f = record { hash = f.first ++ f.second; bytes = f.bytes }

-- The stable sort by size, the largest first.
abbrev pub place : OrphanCandidate → List OrphanCandidate → List OrphanCandidate
place c [] = c ∷ []
place c (d ∷ ds) = if ltb c.bytes d.bytes then d ∷ place c ds else c ∷ d ∷ ds

abbrev pub sort_by_size : List OrphanCandidate → List OrphanCandidate
sort_by_size [] = []
sort_by_size (c ∷ cs) = place c (sort_by_size cs)

unfoldable pub classify : CacheDb → List CasFile → OrphanCandidates
classify s [] = record { safe_to_delete = []; legacy_untracked = [] }
classify s (f ∷ files) =
    let later = classify s files in
    let c = candidate_of f in
    let referenced = map (λ (r : CacheEntry). r.response_hash) s.safe_cache in
    if not (is_blob f)
    then later
    else (if not (contains c.hash s.cas_known)
        then record later { legacy_untracked = c ∷ later.legacy_untracked }
        else (if contains c.hash s.cas_cache_refs && not (contains c.hash referenced)
            then record later { safe_to_delete = c ∷ later.safe_to_delete }
            else later))

unfoldable pub orphan_candidates : CacheDb → List CasFile → OrphanCandidates
unfolding classify
orphan_candidates s files = record {
  safe_to_delete = sort_by_size (classify s files).safe_to_delete;
  legacy_untracked = sort_by_size (classify s files).legacy_untracked;
}
