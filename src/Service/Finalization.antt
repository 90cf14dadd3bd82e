-- ===== src/Service/Finalization.antt =====
-- `finalize_resumable` of src/api.rs: a complete upload becomes a job.
use seiza_server.Base.{ℕ, Option, none, some, Text, ltb, if◌then◌else◌, length}
use seiza_server.Queue.Rows.{JobRecord, Result as QueueResult, ok as stored, err as refused}
use seiza_server.Queue.Jobs.{get, get_by_legacy_id}
use seiza_server.Uploads.Storage.{Bytes, ObjectStore}
use seiza_server.Uploads.Session.{
  PersistedJobId, uuid, legacy, ResumableUpload, Result, ok, err, Codec, save,
}
use seiza_server.Uploads.Reading.{read_prefix, compose}
use seiza_server.Uploads.Removal.{cleanup_chunks}
use seiza_server.Tus.Requests.{Outcome, answer, failed, failure, bad_request, resumable_api_error}
use seiza_server.Service.Names.{Uuids}
use seiza_server.Service.World.{Transport, Imaging, World}
use seiza_server.Service.Submission.{enqueue_stored}

module _ {W O S : Type 0} where
  abbrev pub or_lost : Option (JobRecord W O S) → Outcome (JobRecord W O S)
  or_lost none = failed failure
  or_lost (some job) = answer job

  abbrev pub looked_up : QueueResult (Option (JobRecord W O S)) → Outcome (JobRecord W O S)
  looked_up (refused e) = failed failure
  looked_up (stored job) = or_lost job

module _ {W O : Type 0} (imaging : Imaging O) where
  unfoldable pub prepared : Bytes → ResumableUpload W O → ResumableUpload W O
  prepared header_prefix u = record u {
    options = imaging.prepare_from_prefix u.options header_prefix u.original_filename u.total_size;
  }

module _ (o : ObjectStore) {W O : Type 0} (imaging : Imaging O) where
  -- The header's length is known from its beginning, and more is read where that is not enough.
  abbrev pub probed : ResumableUpload W O → o.State → Result Bytes → Result Bytes
  probed u s (err e) = err e
  probed u s (ok header_prefix) =
      let wanted = imaging.image_header_probe_bytes header_prefix u.original_filename in
      if ltb (length header_prefix) wanted then read_prefix o wanted u s else ok header_prefix

module _ (o : ObjectStore) {W O S : Type 0} (q : Transport W O S) where
  -- What the call returns, with the upload and the world as they are after it.
  abbrev pub Finished : Type 0
  Finished = Outcome (JobRecord W O S) × ResumableUpload W O × World o q

module _ (uuids : Uuids) (o : ObjectStore) {W O S : Type 0} (q : Transport W O S)
    (codec : Codec W O) (imaging : Imaging O) (s3_prefix : Text) where
  abbrev pub committed : PersistedJobId → World o q → Outcome (JobRecord W O S)
  committed (uuid job_id) w = or_lost (get job_id w.queue)
  committed (legacy job_id) w = looked_up (get_by_legacy_id job_id w.queue)

  -- The state without its chunks is written again; where that fails, it is only logged.
  abbrev pub compacted : JobRecord W O S → ResumableUpload W O × o.State → World o q → Finished o q
  compacted job (u, s) w = (answer job, u, record w { objects = (save o codec s3_prefix u s).1 })

  abbrev pub recorded :
      JobRecord W O S → ResumableUpload W O → Option (Unit {0}) × o.State → World o q → Finished o q
  recorded job u (none, s) w = (failed failure, u, record w { objects = s })
  recorded job u (some _, s) w = compacted job (cleanup_chunks o u s) w

  abbrev pub enqueued : ResumableUpload W O → Outcome (JobRecord W O S) × World o q → Finished o q
  enqueued u (failed e, w) = (failed e, u, w)
  enqueued u (answer job, w) =
      let v = record u { job_id = some (uuid job.id) } in
      recorded job v (save o codec s3_prefix v w.objects) w

  abbrev pub composed :
      ℕ → ResumableUpload W O → Result (Unit {0}) × o.State → World o q → Finished o q
  composed now u (err e, s) w = (failed (resumable_api_error e), u, record w { objects = s })
  composed now u (ok _, s) w = enqueued u (
      enqueue_stored uuids now (record { id = u.owner; queue_weight = u.queue_weight }) u.object_key
        u.original_filename u.content_type u.options (record w { objects = s }))

  abbrev pub with_header : ℕ → ResumableUpload W O → Result Bytes → World o q → Finished o q
  with_header now u (err e) w = (failed (resumable_api_error e), u, w)
  with_header now u (ok header_prefix) w =
      let v = prepared imaging header_prefix u in
      if imaging.is_valid v.options
      then composed now v (compose o v w.objects) w
      else (failed bad_request, v, w)

  abbrev pub unless_committed :
      ℕ → ResumableUpload W O → Option PersistedJobId → World o q → Finished o q
  unless_committed now u (some job_id) w = (committed job_id w, u, w)
  unless_committed now u none w =
      with_header now u
        (probed o imaging u w.objects (read_prefix o imaging.fits_header_probe_bytes u w.objects)) w

  unfoldable pub finalize_resumable : ℕ → ResumableUpload W O → World o q → Finished o q
  unfolding get get_by_legacy_id read_prefix prepared compose enqueue_stored save cleanup_chunks
      resumable_api_error
  finalize_resumable now u w = unless_committed now u u.job_id w
