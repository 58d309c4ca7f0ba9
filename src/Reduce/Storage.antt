-- ===== src/Reduce/Storage.antt =====
-- src/reduce/storage.rs: the blobs of raw tool outputs, keyed by their digest. The file system and
-- the digest (SHA-256 in hexadecimal) are parameters; making the directories of a path counts as part
-- of its write, and the path that a message of failure ends with is left out.
pub mod Integrity
use toche.Prelude.{
  ℕ, ◌+◌, List, [], ◌∷◌, ◌++◌, Option, none, some, Bool, true, false, ◌&&◌, ◌||◌, not, Text, codes,
  Result, ok, err, if◌then◌else◌, length, take, drop, all, leb, ltb, ◌≡◌, ◌≢◌,
}

-- What `create_new(true)` comes to: a new file, a name that is taken, or an error, after which the
-- file may be there in part.
pub data Created (F : Type 0) : Type 0 where
  made : F → Created F
  exists : Created F
  failed : F → Text → Created F

-- The result of a removal.
pub data Removed (F : Type 0) : Type 0 where
  gone : F → Removed F
  not_found : Removed F
  kept : Text → Removed F

-- The files under a directory, by their paths in it, and what the system calls report of them. A
-- write that fails leaves the file in whatever state it got to.
pub record FileSystem : Type 1 where
  pub Files : Type 0
  pub read : Text → Files → Option Text
  pub write : Text → Text → Files → Files × Option Text
  pub create_new : Text → Text → Files → Created Files
  pub remove : Text → Files → Removed Files

module _ (fs : FileSystem) where
  open fs use {Files, read, write, create_new, remove}

  pub record IsLawful : Type 0 where
    pub read-write_self :
        (p t : Text) (s : Files) → (write p t s).1 ≡ none → read p (write p t s).0 ≡ some t
    pub read-write_ne : (p q t : Text) (s : Files) → p ≢ q → read q (write p t s).0 ≡ read q s
    pub read-create_self :
        (p t : Text) (s s' : Files) → create_new p t s ≡ made s' → read p s' ≡ some t
    pub read-create_ne :
        (p q t : Text) (s s' : Files) → create_new p t s ≡ made s' → p ≢ q → read q s' ≡ read q s
    pub read-exists :
        (p t : Text) (s : Files) → create_new p t s ≡ exists → (c : Text) × (read p s ≡ some c)
    pub read-remove_self : (p : Text) (s s' : Files) → remove p s ≡ gone s' → read p s' ≡ none
    pub read-remove_ne :
        (p q : Text) (s s' : Files) → remove p s ≡ gone s' → p ≢ q → read q s' ≡ read q s

abbrev is_ascii_hexdigit : ℕ → Bool
is_ascii_hexdigit c =
    (leb b'0' c && leb c b'9') || ((leb b'a' c && leb c b'f') || (leb b'A' c && leb c b'F'))

-- The test on a hash that a caller names.
unfoldable pub is_valid_hash : Text → Bool
is_valid_hash hash = not (ltb (length hash) 2) && all is_ascii_hexdigit hash

-- `<first2>/<remaining>`
unfoldable pub blob_path : Text → Text
blob_path hash = take 2 hash ++ (b'/' ∷ drop 2 hash)

module _ (fs : FileSystem) (digest : Text → Text) where
  open fs use {Files, read, write, create_new, remove}

  unfoldable pub store_at : Text → Files → Result Text × Files
  unfolding blob_path
  store_at raw s =
      let hash = digest raw in
      let (s', result) = write (blob_path hash) raw s in
      elim result [ none ↦ (ok hash, s') | some e ↦ (err (codes "failed to write CAS blob"), s') ]

  unfoldable pub store_new_at : Text → Files → Result (Text × Bool) × Files
  unfolding blob_path
  store_new_at raw s =
      let hash = digest raw in
      elim (create_new (blob_path hash) raw s) [
        | made s' ↦ (ok (hash, true), s')
        | exists ↦ (ok (hash, false), s)
        | failed s' e ↦ (err (codes "failed to create CAS blob"), s')
      ]

  unfoldable pub retrieve_at : Text → Files → Result Text
  unfolding is_valid_hash blob_path
  retrieve_at hash s =
      if is_valid_hash hash
      then elim (read (blob_path hash) s) [
        | none ↦ err (codes "CAS blob not found: " ++ hash)
        | some raw ↦ ok raw
      ]
      else err (codes "invalid hash: " ++ hash)

  -- A removal that fails for another reason is logged only.
  unfoldable pub delete_at : Text → Files → Bool × Files
  unfolding is_valid_hash blob_path
  delete_at hash s =
      if is_valid_hash hash
      then elim (remove (blob_path hash) s) [
        | gone s' ↦ (true, s')
        | not_found ↦ (false, s)
        | kept e ↦ (false, s)
      ]
      else (false, s)
