-- ===== src/Service/Submission.antt =====
-- `enqueue_stored` and `submit_job` of src/api.rs. The clock's reading is an argument, and the
-- database is taken to answer what does not break a constraint.
use seiza_server.Base.{Option, none, some, Text, if◌then◌else◌, ℕ}
use seiza_server.Queue.Rows.{
  queued, is_queued, JobRecord, Store, Result as QueueResult, ok as stored, err as refused,
}
use seiza_server.Queue.Jobs.{find_by_object_key, enqueue, mark_notification_delivered}
use seiza_server.Uploads.Storage.{Bytes, ObjectStore}
use seiza_server.Tus.Requests.{Outcome, answer, failed, failure, bad_request, rate_limited, Client}
use seiza_server.Service.Names.{Uuids, job_id_from_object_key, new_object_key}
use seiza_server.Service.World.{Transport, Imaging, World, notify_waiters}

pub record UploadedFile : Type 0 where
  pub filename : Text
  pub content_type : Option Text
  pub content : Bytes

module _ {W O S : Type 0} where
  unfoldable pub job_record : ℕ → ℕ → Client W → Text → Text → Option Text → O → JobRecord W O S
  job_record job_id now client object_key original_filename content_type options = record {
    id = job_id;
    astrometry_id = 0;
    owner = client.id;
    queue_weight = client.queue_weight;
    object_key = object_key;
    original_filename = original_filename;
    content_type = content_type;
    options = options;
    status = queued;
    created_at = now;
    started_at = none;
    completed_at = none;
    solution = none;
    error = none;
    validation_donation = none;
  }

module _ (uuids : Uuids) {o : ObjectStore} {W O S : Type 0} {q : Transport W O S} where
  abbrev pub woken : JobRecord W O S → World o q → World o q
  woken job w = if is_queued job.status then notify_waiters w else w

  abbrev pub acknowledged :
      ℕ → JobRecord W O S → Option (Unit {0}) × q.State → World o q → World o q
  acknowledged now job (none, sent) w = record w { sent = sent }
  acknowledged now job (some _, sent) w = record w {
    sent = sent;
    queue = mark_notification_delivered job.id now w.queue;
  }

  -- A publication that fails leaves the notice in the outbox.
  unfoldable pub announce : ℕ → JobRecord W O S → World o q → World o q
  unfolding mark_notification_delivered
  announce now job w =
      if q.uses_external_queue then acknowledged now job (q.publish job w.sent) w else w

  abbrev pub inserted :
      ℕ
      → QueueResult (JobRecord W O S) × Store W O S
      → World o q
      → Outcome (JobRecord W O S) × World o q
  inserted now (refused e, s) w = (failed failure, record w { queue = s })
  inserted now (stored job, s) w =
      (answer job, announce now job (woken job (record w { queue = s })))

  abbrev pub with_id :
      ℕ
      → Client W
      → Text
      → Text
      → Option Text
      → O
      → Option ℕ
      → World o q
      → Outcome (JobRecord W O S) × World o q
  with_id now client object_key original_filename content_type options none w = (failed failure, w)
  with_id now client object_key original_filename content_type options (some job_id) w =
      inserted now
        (enqueue (job_record job_id now client object_key original_filename content_type options)
          w.queue)
        w

  abbrev pub unless_found :
      ℕ
      → Client W
      → Text
      → Text
      → Option Text
      → O
      → Option (JobRecord W O S)
      → World o q
      → Outcome (JobRecord W O S) × World o q
  unless_found now client object_key original_filename content_type options (some job) w =
      (answer job, woken job w)
  unless_found now client object_key original_filename content_type options none w =
      with_id now client object_key original_filename content_type options
        (job_id_from_object_key uuids object_key) w

  unfoldable pub enqueue_stored :
      ℕ
      → Client W
      → Text
      → Text
      → Option Text
      → O
      → World o q
      → Outcome (JobRecord W O S) × World o q
  unfolding find_by_object_key job_id_from_object_key enqueue job_record announce
  enqueue_stored now client object_key original_filename content_type options w =
      unless_found now client object_key original_filename content_type options
        (find_by_object_key object_key w.queue) w

  abbrev pub put_then :
      ℕ
      → Client W
      → Text
      → Text
      → Option Text
      → O
      → Option (Unit {0}) × o.State
      → World o q
      → Outcome (JobRecord W O S) × World o q
  put_then now client object_key filename content_type options (none, s) w =
      (failed failure, record w { objects = s })
  put_then now client object_key filename content_type options (some _, s) w =
      enqueue_stored now client object_key filename content_type options (record w { objects = s })

  abbrev pub admitted :
      ℕ
      → Client W
      → Text
      → UploadedFile
      → O
      → Option ℕ
      → World o q
      → Outcome (JobRecord W O S) × World o q
  admitted now client object_key upload options (some retry_after) w =
      (failed (rate_limited retry_after), w)
  admitted now client object_key upload options none w =
      put_then now client object_key upload.filename upload.content_type options
        (o.put object_key upload.content upload.content_type w.objects) w

  -- `wait` is the rate limiter's answer to the client, and the two UUIDs of the key are fresh.
  unfoldable pub submit_job :
      Imaging O
      → Text
      → ℕ
      → ℕ
      → ℕ
      → Option ℕ
      → Client W
      → UploadedFile
      → O
      → World o q
      → Outcome (JobRecord W O S) × World o q
  unfolding enqueue_stored new_object_key
  submit_job imaging s3_prefix now job_id storage_token wait client upload options w =
      let prepared = imaging.prepare_solve_options options upload.content upload.filename in
      if imaging.is_valid prepared
      then admitted now client (new_object_key uuids s3_prefix upload.filename job_id storage_token)
          upload prepared wait w
      else (failed bad_request, w)
