-- ===== src/Reduce/Storage/Integrity.antt =====
-- src/reduce/storage.rs: a blob holds a text with the digest that names it.
use toche.Prelude.{
  false, Bool, ◌⊎◌, Bool, [], ◌∷◌, some, Option-cases, Bool-cases, inl, inr, true, Text, text_eq,
  text_eq_iff, arith, ok, ◌≡◌, ◌≢◌, refl, sym, ◌∙◌,
}
use toche.Reduce.Storage.{
  made, exists, failed, gone, not_found, kept, made, Created, kept, Removed, gone, FileSystem,
  IsLawful, blob_path, is_valid_hash, store_at, store_new_at, retrieve_at, delete_at,
}

blob_path_injective :
    (a b : Text)
    → is_valid_hash a ≡ true
    → is_valid_hash b ≡ true
    → blob_path a ≡ blob_path b
    → a ≡ b
unfolding blob_path is_valid_hash
blob_path_injective [] b va vb h = cc
blob_path_injective (x ∷ []) b va vb h = cc
blob_path_injective (x ∷ (y ∷ r)) [] va vb h = cc
blob_path_injective (x ∷ (y ∷ r)) (u ∷ []) va vb h = cc
blob_path_injective (x ∷ (y ∷ r)) (u ∷ (w ∷ r')) va vb h = ground arith

module _ (fs : FileSystem) (laws : IsLawful fs) (digest : Text → Text) where
  open fs use {Files, read, write, create_new, remove}

  -- Each blob under a valid hash has this hash as its digest.
  pub record IsContentAddressed (s : Files) : Type 0 where
    pub named : (h t : Text) → is_valid_hash h ≡ true → read (blob_path h) s ≡ some t → digest t ≡ h

  pub retrieve_some :
      (h t : Text) (s : Files)
      → is_valid_hash h ≡ true
      → read (blob_path h) s ≡ some t
      → retrieve_at fs digest h s ≡ ok t
  unfolding retrieve_at
  retrieve_some h t s v r = rw (v, r) refl

  pub retrieved :
      (h t : Text) (s : Files) → retrieve_at fs digest h s ≡ ok t → read (blob_path h) s ≡ some t
  unfolding retrieve_at
  retrieved h t s e = elim (Bool-cases (is_valid_hash h)) [
    | inr invalid ↦ absurd (ground (arith, invalid))
    | inl valid ↦ elim (Option-cases (read (blob_path h) s)) [
      | inl missing ↦ absurd (ground (arith, valid, missing))
      | inr (u, there) ↦ ground (arith, valid, there)
    ]
  ]

  -- A file that holds its text under the digest of it, beside files as they were.
  addressed_put :
      (raw : Text) (s s' : Files)
      → is_valid_hash (digest raw) ≡ true
      → IsContentAddressed s
      → read (blob_path (digest raw)) s' ≡ some raw
      → ((q : Text) → blob_path (digest raw) ≢ q → read q s' ≡ read q s)
      → IsContentAddressed s'
  addressed_put raw s s' valid before here elsewhere = record {
    named = λ h t vh r. elim (Bool-cases (text_eq (blob_path (digest raw)) (blob_path h))) [
      | inl same ↦
          let path = (text_eq_iff (blob_path (digest raw)) (blob_path h)).0 same in
          let hash = blob_path_injective (digest raw) h valid vh path in
          ground (arith, here, r, path, hash)
      | inr other ↦ before.named h t vh (
          sym (
            elsewhere (blob_path h)
              (λ e. ground (arith, text_eq_iff (blob_path (digest raw)) (blob_path h))))
          ∙ r)
    ];
  }

  pub store_at-retrieve_at :
      (raw h : Text) (s s' : Files)
      → is_valid_hash (digest raw) ≡ true
      → IsContentAddressed s
      → store_at fs digest raw s ≡ (ok h, s')
      → (digest raw ≡ h) × (retrieve_at fs digest h s' ≡ ok raw) × IsContentAddressed s'
  unfolding store_at
  store_at-retrieve_at raw h s s' valid before e =
      elim (Option-cases (write (blob_path (digest raw)) raw s).1) [
        | inl fine ↦
            let hash : digest raw ≡ h = ground (arith, fine) in
            let files : (write (blob_path (digest raw)) raw s).0 ≡ s' = ground (arith, fine) in
            let here : read (blob_path (digest raw)) s' ≡ some raw =
              rw (sym files) (laws.read-write_self (blob_path (digest raw)) raw s fine) in
            (
              hash,
              rw (sym hash) (retrieve_some (digest raw) raw s' valid here),
              addressed_put raw s s' valid before here
                  (λ q n. rw (sym files) (laws.read-write_ne (blob_path (digest raw)) q raw s n)),
            )
        | inr (m, is_failed) ↦ absurd (ground (arith, is_failed))
      ]

  -- Storing leaves each blob as it was, or makes it the text that is stored.
  pub store_at_either :
      (raw h p t : Text) (s s' : Files)
      → store_at fs digest raw s ≡ (ok h, s')
      → read p s ≡ some t
      → (read p s' ≡ some t) ⊎ (read p s' ≡ some raw)
  unfolding store_at
  store_at_either raw h p t s s' e there =
      elim (Option-cases (write (blob_path (digest raw)) raw s).1) [
        | inr (m, is_failed) ↦ absurd (ground (arith, is_failed))
        | inl fine ↦
            let files : (write (blob_path (digest raw)) raw s).0 ≡ s' = ground (arith, fine) in
            elim (Bool-cases (text_eq (blob_path (digest raw)) p)) [
              | inl same ↦ inr (
                  rw (sym ((text_eq_iff (blob_path (digest raw)) p).0 same), sym files)
                    (laws.read-write_self (blob_path (digest raw)) raw s fine))
              | inr other ↦ inl (
                  rw (sym files) (
                    laws.read-write_ne (blob_path (digest raw)) p raw s
                      (λ q. ground (arith, text_eq_iff (blob_path (digest raw)) p))
                    ∙ there))
            ]
      ]

  -- What a creation says of the files.
  new_cases :
      (raw h : Text) (b : Bool) (s s' : Files)
      → store_new_at fs digest raw s ≡ (ok (h, b), s')
      → (c : Created Files) → create_new (blob_path (digest raw)) raw s ≡ c
      → (digest raw ≡ h) × ((c ≡ made s') ⊎ ((c ≡ exists) × (s ≡ s')))
  unfolding store_new_at
  new_cases raw h b s s' e (made t) is = ground (arith, is)
  new_cases raw h b s s' e exists is = ground (arith, is)
  new_cases raw h b s s' e (failed t m) is = absurd (ground (arith, is))

  -- Storing without overwriting, where it succeeds, keeps every blob under the digest of its text,
  -- and what is retrieved by the hash that it returns is a text with this digest: the file that was
  -- there already counts, whoever wrote it.
  pub store_new_at-retrieve_at :
      (raw h : Text) (b : Bool) (s s' : Files)
      → is_valid_hash (digest raw) ≡ true
      → IsContentAddressed s
      → store_new_at fs digest raw s ≡ (ok (h, b), s')
      → IsContentAddressed s'
        × ((t : Text) × (retrieve_at fs digest h s' ≡ ok t) × (digest t ≡ digest raw))
  store_new_at-retrieve_at raw h b s s' valid before e =
      let path = blob_path (digest raw) in
      let (hash, what) = new_cases raw h b s s' e (create_new path raw s) refl in
      elim what [
        | inl is_made ↦
            let here = laws.read-create_self path raw s s' is_made in
            (
              addressed_put raw s s' valid before here
                  (λ q n. laws.read-create_ne path q raw s s' is_made n),
              (raw, rw (sym hash) (retrieve_some (digest raw) raw s' valid here), refl),
            )
        | inr (is_there, same) ↦
            let (t, here) = laws.read-exists path raw s is_there in
            (
              rw (sym same) before,
              (
                t,
                rw (sym hash, sym same) (retrieve_some (digest raw) t s valid here),
                before.named (digest raw) t valid here,
              ),
            )
      ]

  removed_addressed :
      (h : Text) (s s' : Files)
      → IsContentAddressed s
      → is_valid_hash h ≡ true
      → remove (blob_path h) s ≡ gone s'
      → IsContentAddressed s'
  removed_addressed h s s' before valid is_gone = record {
    named = λ j t vj r. elim (Bool-cases (text_eq (blob_path h) (blob_path j))) [
      | inl same ↦
          let path = (text_eq_iff (blob_path h) (blob_path j)).0 same in
          absurd (ground (arith, laws.read-remove_self (blob_path h) s s' is_gone, r, path))
      | inr other ↦ before.named j t vj (
          sym (
            laws.read-remove_ne (blob_path h) (blob_path j) s s' is_gone
              (λ e. ground (arith, text_eq_iff (blob_path h) (blob_path j))))
          ∙ r)
    ];
  }

  deleted :
      (h : Text) (s : Files)
      → (r : Removed Files) → remove (blob_path h) s ≡ r
      → (v : Bool) → is_valid_hash h ≡ v
      → IsContentAddressed s
      → IsContentAddressed (delete_at fs digest h s).1
  unfolding delete_at
  deleted h s r is false invalid before = rw invalid before
  deleted h s (gone s') is true valid before =
      rw (valid, is) (removed_addressed h s s' before valid is)
  deleted h s not_found is true valid before = rw (valid, is) before
  deleted h s (kept m) is true valid before = rw (valid, is) before

  -- Deleting a blob keeps every other one under the digest of its text.
  pub delete_at-IsContentAddressed :
      (h : Text) (s : Files) → IsContentAddressed s → IsContentAddressed (delete_at fs digest h s).1
  delete_at-IsContentAddressed h s before =
      deleted h s (remove (blob_path h) s) refl (is_valid_hash h) refl before
