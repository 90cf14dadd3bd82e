-- ===== src/Uploads/Soundness.antt =====
-- Proofs about the offsets and lengths of `ResumableUpload::append` of src/uploads.rs.
use seiza_server.Base.{
  ℕ, ◌+◌, ◌^◌, ◌≤◌, ◌<◌, ◌≡◌, ◌≢◌, refl, inl, inr, false, not, ◌&&◌, ◌||◌, Option, none, some, List,
  [], ◌∷◌, ◌++◌, arith, Text, text, ltb, leb, ◌==◌, is_some, length, Bool-cases,
}
use seiza_server.Uploads.Storage.{Bytes, StoredObjectPart, ObjectStore}
use seiza_server.Uploads.Keys.{chunk_key}
use seiza_server.Uploads.Session.{
  ResumableUpload, ResumableUploadError, exceeds_length, completed, internal, offset_mismatch,
  incomplete, Result, ok, err, Codec, grown, stored, saved, save, append,
}

abbrev pub total_length : List StoredObjectPart → ℕ
total_length [] = 0
total_length (part ∷ parts) = part.size + total_length parts

pub total_length-append :
    (xs ys : List StoredObjectPart) → total_length (xs ++ ys) ≡ total_length xs + total_length ys
total_length-append [] ys = omega arith
total_length-append (x ∷ xs) ys = omega (arith, total_length-append xs ys)

-- The offset of an upload is the length of its chunks, and at most its total.
pub record IsSound {W O : Type 0} (u : ResumableUpload W O) : Type 0 where
  pub chunks_length : total_length u.chunks ≡ u.offset
  pub in_total : u.offset ≤ u.total_size
  pub u64 : u.total_size < 2 ^ 64

module _ (o : ObjectStore) {W O : Type 0} (codec : Codec W O) where
  -- The guards that an append passes on its way to the store.
  pub record Admitted (offset : ℕ) (content : Bytes) (u : ResumableUpload W O) : Type 0 where
    pub unfinished : is_some u.job_id ≡ false
    pub in_order : offset ≡ u.offset
    pub fits : offset + length content ≤ u.total_size
    pub nonempty : 0 < length content

  abbrev pub chunk_put :
      Text → ℕ → Bytes → ResumableUpload W O → o.State → Option (Unit {0}) × o.State
  chunk_put prefix offset content u s =
      o.put (chunk_key prefix u.id offset) content (some (text "application/offset+octet-stream")) s

  abbrev pub extended : Text → ℕ → Bytes → ResumableUpload W O → ResumableUpload W O
  extended prefix offset content u =
      grown o codec (chunk_key prefix u.id offset) (length content) (offset + length content) u

  abbrev pub state_put :
      Text → ℕ → Bytes → ResumableUpload W O → o.State → Option (Unit {0}) × o.State
  state_put prefix offset content u s =
      save o codec prefix (extended prefix offset content u) (chunk_put prefix offset content u s).1

  -- What an append can have done: nothing, or it put a chunk that was not stored, or whose upload
  -- was not saved, or it went through.
  pub record Branches {ℓ} (P : Result ℕ × ResumableUpload W O × o.State → Type ℓ) (prefix : Text)
      (offset : ℕ) (content : Bytes) (u : ResumableUpload W O) (s : o.State) : Type ℓ where
    pub refused : (e : ResumableUploadError) → e ≢ internal → P (err e, u, s)
    pub unstored :
        Admitted offset content u
        → (chunk_put prefix offset content u s).0 ≡ none
        → P (err internal, u, (chunk_put prefix offset content u s).1)
    pub unsaved :
        Admitted offset content u
        → (chunk_put prefix offset content u s).0 ≡ some tt
        → (state_put prefix offset content u s).0 ≡ none
        → P (
          err internal,
          extended prefix offset content u,
          (state_put prefix offset content u s).1,
        )
    pub taken :
        Admitted offset content u
        → (chunk_put prefix offset content u s).0 ≡ some tt
        → (state_put prefix offset content u s).0 ≡ some tt
        → P (
          ok (offset + length content),
          extended prefix offset content u,
          (state_put prefix offset content u s).1,
        )

  saved_cases {ℓ} :
      (P : Result ℕ × ResumableUpload W O × o.State → Type ℓ) (n : ℕ) (v : ResumableUpload W O)
      (w : Option (Unit {0}) × o.State)
      → (w.0 ≡ none → P (err internal, v, w.1))
      → (w.0 ≡ some tt → P (ok n, v, w.1))
      → P (saved o codec n v w)
  saved_cases P n v (none, t) bad good = bad refl
  saved_cases P n v (some _, t) bad good = good refl

  stored_cases {ℓ} :
      (P : Result ℕ × ResumableUpload W O × o.State → Type ℓ) (prefix key : Text) (size n : ℕ)
      (u : ResumableUpload W O) (w : Option (Unit {0}) × o.State)
      → (w.0 ≡ none → P (err internal, u, w.1))
      → (w.0 ≡ some tt
          → P (
              saved o codec n
                (grown o codec key size n u)
                (save o codec prefix (grown o codec key size n u) w.1)))
      → P (stored o codec prefix key size n u w)
  stored_cases P prefix key size n u (none, t) bad good = bad refl
  stored_cases P prefix key size n u (some _, t) bad good = good refl

  append_stored {ℓ} :
      (P : Result ℕ × ResumableUpload W O × o.State → Type ℓ) (prefix : Text) (offset : ℕ)
      (content : Bytes) (u : ResumableUpload W O) (s : o.State)
      → Branches P prefix offset content u s
      → Admitted offset content u
      → P (
          stored o codec prefix
            (chunk_key prefix u.id offset)
            (length content)
            (offset + length content)
            u
            (chunk_put prefix offset content u s))
  append_stored P prefix offset content u s b a =
      stored_cases P prefix (chunk_key prefix u.id offset) (length content)
        (offset + length content) u (chunk_put prefix offset content u s) (b.unstored a)
        (λ stored_ok.
          saved_cases P (offset + length content) (extended prefix offset content u)
            (state_put prefix offset content u s) (b.unsaved a stored_ok) (b.taken a stored_ok))

  -- A statement that holds on each branch of an append holds of the append.
  pub append_cases {ℓ} :
      (P : Result ℕ × ResumableUpload W O × o.State → Type ℓ) (prefix : Text) (offset : ℕ)
      (content : Bytes) (u : ResumableUpload W O) (s : o.State)
      → Branches P prefix offset content u s
      → P (append o codec prefix offset content u s)
  unfolding append
  append_cases P prefix offset content u s b =
      elim (Bool-cases (is_some u.job_id || u.offset == u.total_size)) [
        | inl e ↦ rw e (b.refused completed (λ h. cc))
        | inr e ↦ rw e (elim (Bool-cases (not (offset == u.offset))) [
          | inl f ↦ rw f (b.refused (offset_mismatch u.offset offset) (λ h. cc))
          | inr f ↦ rw f (elim (Bool-cases (ltb (offset + length content) (2 ^ 64))) [
            | inl g ↦ rw g (elim (Bool-cases (leb (offset + length content) u.total_size)) [
              | inl k ↦
                  rw k
                    (elim (Bool-cases
                      (length content == 0 && ltb (offset + length content) u.total_size)) [
                        | inl m ↦ rw m (
                            b.refused (incomplete (offset + length content) u.total_size) (λ h. cc))
                        | inr m ↦ rw m (
                            append_stored P prefix offset content u s b (record {
                              unfinished = ground arith;
                              in_order = ground arith;
                              fits = ground arith;
                              nonempty = ground arith;
                            }))
                      ])
              | inr k ↦ rw k (b.refused exceeds_length (λ h. cc))
            ])
            | inr g ↦ rw g (b.refused exceeds_length (λ h. cc))
          ])
        ])
      ]

  extended-IsSound :
      (prefix : Text) (offset : ℕ) (content : Bytes) (u : ResumableUpload W O)
      → IsSound u
      → Admitted offset content u
      → IsSound (extended prefix offset content u)
  extended-IsSound prefix offset content u h a = record {
    chunks_length = omega (
      arith,
      total_length-append u.chunks
          (record { key = chunk_key prefix u.id offset; size = length content } ∷ []),
      h.chunks_length,
      a.in_order,
    );
    in_total = a.fits;
    u64 = h.u64;
  }

  -- An append, accepted or not, keeps a sound upload sound.
  pub append-IsSound :
      (prefix : Text) (offset : ℕ) (content : Bytes) (u : ResumableUpload W O) (s : o.State)
      → IsSound u
      → IsSound (append o codec prefix offset content u s).1
  append-IsSound prefix offset content u s h =
      append_cases (λ r. IsSound r.1) prefix offset content u s
        (record {
          refused = λ e k. h;
          unstored = λ a k. h;
          unsaved = λ a k l. extended-IsSound prefix offset content u h a;
          taken = λ a k l. extended-IsSound prefix offset content u h a;
        })
