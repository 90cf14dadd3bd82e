-- ===== src/Uploads/Contents.antt =====
-- The bytes behind an upload of src/uploads.rs.
use mathlib.Core.List.{append-nil, append_assoc}
use seiza_server.Base.{
  ℕ, ◌+◌, ◌^◌, ◌≤◌, ◌<◌, ◌≡◌, ◌≢◌, refl, ap, sym, subst, ◌∙◌, inl, inr, Option, none, some, List,
  [], ◌∷◌, ◌++◌, arith, Text, ◌==◌, length, length-append, All, All-append, Bool-cases,
}
use seiza_server.Uploads.Storage.{
  Bytes, StoredObjectPart, ObjectStore, IsObjectStore, gather, joined,
}
use seiza_server.Uploads.Keys.{state_key, chunk_key, chunk_key_injective, state_key-ne-chunk_key}
use seiza_server.Uploads.Session.{ResumableUpload, Codec, save}
use seiza_server.Uploads.Soundness.{total_length, IsSound, Admitted, chunk_put, extended, state_put}

-- A chunk of the upload that has this id, from before this offset.
abbrev pub ChunkOf : Text → Text → ℕ → StoredObjectPart → Type 0
ChunkOf prefix id offset part = (n : ℕ) × (n < offset) × (part.key ≡ chunk_key prefix id n)

ChunkOf-le :
    (prefix id : Text) (n m : ℕ) (parts : List StoredObjectPart)
    → n ≤ m
    → All (ChunkOf prefix id n) parts
    → All (ChunkOf prefix id m) parts
ChunkOf-le prefix id n m [] h a = tt
ChunkOf-le prefix id n m (p ∷ ps) h ((k, lt, e), rest) =
    ((k, omega arith, e), ChunkOf-le prefix id n m ps h rest)

other_chunk :
    (prefix id : Text) (offset : ℕ) (parts : List StoredObjectPart)
    → offset < 2 ^ 64
    → All (ChunkOf prefix id offset) parts
    → All (λ p. p.key ≢ chunk_key prefix id offset) parts
other_chunk prefix id offset [] h a = tt
other_chunk prefix id offset (p ∷ ps) h ((n, lt, e), rest) = (
  λ k. ground (arith, chunk_key_injective prefix id n offset (omega arith) h (sym e ∙ k)),
  other_chunk prefix id offset ps h rest,
)

not_state :
    (prefix id : Text) (offset : ℕ) (parts : List StoredObjectPart)
    → All (ChunkOf prefix id offset) parts
    → All (λ p. p.key ≢ state_key prefix id) parts
not_state prefix id offset [] a = tt
not_state prefix id offset (p ∷ ps) ((n, lt, e), rest) =
    (λ k. state_key-ne-chunk_key prefix id n (sym e ∙ k), not_state prefix id offset ps rest)

module _ (o : ObjectStore) where
  joined_inv :
      (size : ℕ) (a b : Option Bytes) (c : Bytes)
      → joined o size a b ≡ some c
      → (x : Bytes) × (y : Bytes) × (a ≡ some x) × (b ≡ some y) × (length x ≡ size) × (c ≡ x ++ y)
  joined_inv size none b c h = cc
  joined_inv size (some x) none c h = cc
  joined_inv size (some x) (some y) c h = elim (Bool-cases (length x == size)) [
    | inl e ↦ (x, y, refl, refl, ground arith, ground arith)
    | inr e ↦ ground arith
  ]

  pub length-gather :
      (parts : List StoredObjectPart) (c : Bytes) (s : o.State)
      → gather o parts s ≡ some c
      → length c ≡ total_length parts
  unfolding gather
  length-gather [] c s h = ground arith
  length-gather (p ∷ ps) c s h =
      let (x, y, ex, ey, l, e) = joined_inv p.size (o.get p.key s) (gather o ps s) c h in
      rw e (omega (arith, length-append x y, length-gather ps y s ey, l))

  pub gather-append :
      (parts : List StoredObjectPart) (p : StoredObjectPart) (c d : Bytes) (s : o.State)
      → gather o parts s ≡ some c
      → o.get p.key s ≡ some d
      → length d ≡ p.size
      → gather o (parts ++ p ∷ []) s ≡ some (c ++ d)
  unfolding gather
  gather-append [] p c d s h g l = rw g (elim (Bool-cases (length d == p.size)) [
    | inl e ↦ rw e (ground (arith, append-nil d, h))
    | inr e ↦ ground arith
  ])
  gather-append (q ∷ qs) p c d s h g l =
      let (x, y, ex, ey, lx, e) = joined_inv q.size (o.get q.key s) (gather o qs s) c h in
      rw ex (
        rw (gather-append qs p y d s ey g l) (elim (Bool-cases (length x == q.size)) [
          | inl f ↦ rw f (rw e (ap some (sym (append_assoc x y d))))
          | inr f ↦ ground arith
        ]))

  pub gather_put :
      (parts : List StoredObjectPart) (k : Text) (content : Bytes) (t : Option Text) (s : o.State)
      → IsObjectStore o
      → All (λ p. p.key ≢ k) parts
      → gather o parts (o.put k content t s).1 ≡ gather o parts s
  unfolding gather
  gather_put [] k content t s law a = refl
  gather_put (p ∷ ps) k content t s law a =
      rw (law.get-put_ne k p.key content t s a.0) (rw (gather_put ps k content t s law a.1) refl)

module _ (o : ObjectStore) {W O : Type 0} where
  -- The store has the upload's chunks, each under its own key, and they are these bytes.
  pub record Holds (prefix : Text) (u : ResumableUpload W O) (s : o.State) (contents : Bytes)
      : Type 0 where
    pub own_chunks : All (ChunkOf prefix u.id u.offset) u.chunks
    pub gathered : gather o u.chunks s ≡ some contents

  module _ (codec : Codec W O) (law : IsObjectStore o) (prefix : Text) (offset : ℕ)
      (content : Bytes) (u : ResumableUpload W O) (s : o.State) (contents : Bytes)
      (sound : IsSound u) (before : Holds prefix u s contents)
      (a : Admitted o codec offset content u) where
    pub chunk_put-Holds : Holds prefix u (chunk_put o codec prefix offset content u s).1 contents
    chunk_put-Holds = record {
      own_chunks = before.own_chunks;
      gathered =
          gather_put o u.chunks _ content _ s law (
            other_chunk prefix u.id offset u.chunks
              (omega (arith, a.in_order, sound.in_total, sound.u64))
              (subst (λ n. All (ChunkOf prefix u.id n) u.chunks) (sym a.in_order)
                before.own_chunks))
          ∙ before.gathered;
    }

    pub state_put-Holds : Holds prefix u (state_put o codec prefix offset content u s).1 contents
    unfolding save
    state_put-Holds = record {
      own_chunks = before.own_chunks;
      gathered =
          gather_put o u.chunks _ _ _ (chunk_put o codec prefix offset content u s).1 law
            (not_state prefix u.id u.offset u.chunks before.own_chunks)
          ∙ chunk_put-Holds.gathered;
    }

    pub extended-Holds :
        (chunk_put o codec prefix offset content u s).0 ≡ some tt
        → Holds prefix
            (extended o codec prefix offset content u)
            (state_put o codec prefix offset content u s).1
            (contents ++ content)
    unfolding save
    extended-Holds stored_ok = record {
      own_chunks =
          All-append (ChunkOf prefix u.id (offset + length content)) u.chunks
            (record { key = chunk_key prefix u.id offset; size = length content } ∷ [])
            (ChunkOf-le prefix u.id u.offset (offset + length content) u.chunks
              (omega (arith, a.in_order)) before.own_chunks)
            ((offset, omega (arith, a.nonempty), refl), tt);
      gathered =
          gather-append o u.chunks
            (record { key = chunk_key prefix u.id offset; size = length content }) contents content
            _ state_put-Holds.gathered
            (law.get-put_ne (state_key prefix u.id) (chunk_key prefix u.id offset) _ _ _
                (state_key-ne-chunk_key prefix u.id offset)
              ∙ law.get-put (chunk_key prefix u.id offset) content _ s stored_ok)
            refl;
    }
