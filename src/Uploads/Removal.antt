-- ===== src/Uploads/Removal.antt =====
-- How a `ResumableUpload` of src/uploads.rs is taken away: `cleanup_chunks`, `delete_state` and
-- `terminate`.
use seiza_server.Base.{Option, none, some, List, [], ◌∷◌, Text, if◌then◌else◌, is_some}
use seiza_server.Uploads.Storage.{StoredObjectPart, ObjectStore}
use seiza_server.Uploads.Keys.{state_key}
use seiza_server.Uploads.Session.{ResumableUpload, completed, internal, Result, err}
use seiza_server.Uploads.Reading.{done}

-- The first deletion that fails ends the loop.
abbrev pub go_on :
    {S : Type 0} → Option (Unit {0}) × S → (S → Result (Unit {0}) × S) → Result (Unit {0}) × S
go_on (none, s) next = (err internal, s)
go_on (some _, s) next = next s

module _ (o : ObjectStore) where
  -- Failed deletions are only logged. The deletions run in any order; here, in the list's.
  unfoldable pub delete_all : List StoredObjectPart → o.State → o.State
  delete_all [] s = s
  delete_all (chunk ∷ chunks) s = delete_all chunks (o.delete chunk.key s).1

  unfoldable pub delete_each :
      List StoredObjectPart
      → (o.State → Result (Unit {0}) × o.State)
      → o.State
      → Result (Unit {0}) × o.State
  delete_each [] next s = next s
  delete_each (chunk ∷ chunks) next s =
      go_on (o.delete chunk.key s) (λ t. delete_each chunks next t)

module _ (o : ObjectStore) {W O : Type 0} where
  unfoldable pub cleanup_chunks : ResumableUpload W O → o.State → ResumableUpload W O × o.State
  unfolding delete_all
  cleanup_chunks u s = (record u { chunks = [] }, delete_all o u.chunks s)

  unfoldable pub delete_state : Text → ResumableUpload W O → o.State → Result (Unit {0}) × o.State
  delete_state storage_prefix u s = done (o.delete (state_key storage_prefix u.id) s)

  unfoldable pub terminate : Text → ResumableUpload W O → o.State → Result (Unit {0}) × o.State
  unfolding delete_each delete_state
  terminate storage_prefix u s =
      if is_some u.job_id
      then (err completed, s)
      else delete_each o u.chunks (delete_state storage_prefix u) s
