-- ===== src/Uploads/Reading.antt =====
-- What a complete `ResumableUpload` of src/uploads.rs is read and composed by: `assemble`,
-- `read_prefix` and `compose`.
use seiza_server.Base.{
  ℕ, ◌-◌, min, not, Option, none, some, List, [], ◌∷◌, ◌++◌, ◌==◌, if◌then◌else◌, length,
}
use seiza_server.Uploads.Storage.{Bytes, StoredObjectPart, ObjectStore, gather}
use seiza_server.Uploads.Session.{ResumableUpload, internal, incomplete, Result, ok, err}

abbrev pub of_length : ℕ → Option Bytes → Result Bytes
of_length size none = err internal
of_length size (some bytes) = if length bytes == size then ok bytes else err internal

-- The bytes that were asked for, handed to what follows.
abbrev pub exactly : ℕ → Option Bytes → (Bytes → Option Bytes) → Option Bytes
exactly requested none next = none
exactly requested (some bytes) next = if length bytes == requested then next bytes else none

abbrev pub done : {S : Type 0} → Option (Unit {0}) × S → Result (Unit {0}) × S
done (none, s) = (err internal, s)
done (some _, s) = (ok tt, s)

module _ (o : ObjectStore) where
  unfoldable pub read_chunks : ℕ → List StoredObjectPart → Bytes → o.State → Option Bytes
  read_chunks capacity [] output s = some output
  read_chunks capacity (chunk ∷ chunks) output s =
      let requested = min (capacity - length output) chunk.size in
      let rest =
        exactly requested (o.get_range chunk.key 0 requested s)
          (λ bytes. read_chunks capacity chunks (output ++ bytes) s) in
      if length output == capacity then some output else rest

module _ (o : ObjectStore) {W O : Type 0} where
  unfoldable pub assemble : ResumableUpload W O → o.State → Result Bytes
  unfolding gather
  assemble u s =
      if not (u.offset == u.total_size)
      then err (incomplete u.offset u.total_size)
      else of_length u.total_size (gather o u.chunks s)

  unfoldable pub read_prefix : ℕ → ResumableUpload W O → o.State → Result Bytes
  unfolding read_chunks
  read_prefix limit u s =
      if not (u.offset == u.total_size)
      then err (incomplete u.offset u.total_size)
      else of_length (min u.total_size limit) (read_chunks o (min u.total_size limit) u.chunks [] s)

  unfoldable pub compose : ResumableUpload W O → o.State → Result (Unit {0}) × o.State
  compose u s =
      if not (u.offset == u.total_size)
      then (err (incomplete u.offset u.total_size), s)
      else done (o.compose u.object_key u.chunks u.content_type s)
