-- ===== src/Queue/Jobs.antt =====
-- Jobs, donations and the outbox: the methods of src/repository.rs that need no lease.
use seiza_server.Base.{
  ℕ, min, Bool, true, false, not, ◌&&◌, ◌||◌, Option, none, some, List, [], ◌∷◌, ◌++◌, map, Text,
  text_eq, leb, ◌==◌, if◌then◌else◌, is_none, length, take, filter, any, find,
}
use seiza_server.Queue.Rows.{
  queued, is_queued, is_terminal, astrometry_id_for_job, ValidationDonation, JobRecord,
  JobHistoryRecord, Row, Donated, Notice, Store, out_of_range, constraint_failed, missing_job,
  Result, ok, err, record_from_row, history_record_from_row,
}
use seiza_server.Queue.Sql.{Engine, update_where, upsert}
use seiza_server.Queue.Leases.{i64_max, reclaim_expired, donation_of}

-- `ON CONFLICT(job_id) DO UPDATE`: a later donation keeps the licence and the date of the first.
unfoldable pub donate_over : ValidationDonation → Donated → Donated
donate_over donation d = record d {
  donation = record (d.donation) {
    object_key = donation.object_key;
    comment = donation.comment;
    solve_is_invalid = donation.solve_is_invalid;
  };
}

abbrev legacy_is : ℕ → Option ℕ → Bool
legacy_is legacy_id none = false
legacy_is legacy_id (some stored) = stored == legacy_id

module _ {W O S : Type 0} where
  -- The donation is read by a second query and joined to the record.
  unfoldable pub with_donation : Store W O S → Option (Row W O S) → Option (JobRecord W O S)
  unfolding donation_of
  with_donation s none = none
  with_donation s (some row) =
      some (record (record_from_row row) { validation_donation = donation_of row.id s.donations })

  unfoldable pub get : ℕ → Store W O S → Option (JobRecord W O S)
  unfolding with_donation
  get job_id s = with_donation s (find (λ row. row.id == job_id) s.jobs)

  -- `i64::try_from` refuses what a BIGINT cannot hold.
  unfoldable pub get_by_legacy_id : ℕ → Store W O S → Result (Option (JobRecord W O S))
  unfolding with_donation
  get_by_legacy_id legacy_id s =
      if leb legacy_id i64_max
      then ok (with_donation s (find (λ row. legacy_is legacy_id row.legacy_id) s.jobs))
      else err out_of_range

  unfoldable pub get_by_astrometry_id : ℕ → Store W O S → Result (Option (JobRecord W O S))
  unfolding with_donation
  get_by_astrometry_id astrometry_id s =
      if leb astrometry_id i64_max
      then ok (with_donation s (find (λ row. row.astrometry_id == astrometry_id) s.jobs))
      else err out_of_range

  unfoldable pub find_by_object_key : Text → Store W O S → Option (JobRecord W O S)
  unfolding with_donation
  find_by_object_key key s = with_donation s (find (λ row. text_eq row.object_key key) s.jobs)

  unfoldable pub list_by_owner : Engine → Text → ℕ → Store W O S → List JobHistoryRecord
  list_by_owner e owner limit s =
      if limit == 0
      then []
      else map history_record_from_row (
          take (min limit i64_max)
            (e.descending (λ row. row.created_at) (filter (λ row. text_eq row.owner owner) s.jobs)))

  unfoldable pub queue_depth : Store W O S → ℕ
  queue_depth s = length (filter (λ row. is_queued row.status) s.jobs)

  -- The inserted row. The columns that the statement leaves out are NULL, and `attempts` is 0.
  unfoldable pub new_row : JobRecord W O S → Row W O S
  new_row job = record {
    id = job.id;
    astrometry_id = job.astrometry_id;
    legacy_id = none;
    owner = job.owner;
    queue_weight = job.queue_weight;
    object_key = job.object_key;
    original_filename = job.original_filename;
    content_type = job.content_type;
    options = job.options;
    status = queued;
    created_at = job.created_at;
    started_at = none;
    completed_at = none;
    solution = none;
    error = none;
    lease_token = none;
    lease_expires_at = none;
    attempts = 0;
  }

  abbrev or_missing : Option (JobRecord W O S) → Result (JobRecord W O S)
  or_missing none = err missing_job
  or_missing (some job) = ok job

  -- The row is not inserted beside one of its object key; one of its id or Astrometry id fails the
  -- statement, and so does a notice of its id in the outbox.
  unfoldable pub insert_job : JobRecord W O S → Store W O S → Result (JobRecord W O S) × Store W O S
  unfolding find_by_object_key new_row
  insert_job job s =
      if leb job.astrometry_id i64_max
      then if any (λ row. text_eq row.object_key job.object_key) s.jobs
        then (or_missing (find_by_object_key job.object_key s), s)
        else if any (λ row. (row.id == job.id) || (row.astrometry_id == job.astrometry_id)) s.jobs
            || any (λ n. n.job_id == job.id) s.outbox
        then (err constraint_failed, s)
        else (
          ok job,
          record s {
            jobs = s.jobs ++ new_row job ∷ [];
            outbox = s.outbox ++ record { job_id = job.id; delivered_at = none } ∷ [];
          },
        )
      else (err out_of_range, s)

  unfoldable pub enqueue : JobRecord W O S → Store W O S → Result (JobRecord W O S) × Store W O S
  unfolding insert_job
  enqueue job s =
      insert_job (record job { astrometry_id = astrometry_id_for_job job.id; status = queued }) s

  abbrev pub may_donate : Option (Row W O S) → Bool
  may_donate none = false
  may_donate (some row) = is_terminal row.status

  -- An object key donated for another job fails the statement.
  unfoldable pub donate_validation :
      ℕ → ValidationDonation → Store W O S → Result Bool × Store W O S
  donate_validation job_id donation s =
      if may_donate (find (λ row. row.id == job_id) s.jobs)
      then if any
          (λ d. text_eq d.donation.object_key donation.object_key && not (d.job_id == job_id))
          s.donations
        then (err constraint_failed, s)
        else (
          ok true,
          record s {
            donations =
                upsert (λ d. d.job_id == job_id) (donate_over donation)
                  (record { job_id = job_id; donation = donation }) s.donations;
          },
        )
      else (ok false, s)

  -- `queue_outbox_v2 JOIN jobs_v2 ON jobs_v2.id = queue_outbox_v2.job_id WHERE delivered_at IS
  -- NULL`, as the jobs whose notices are pending.
  unfoldable pub pending_rows : List Notice → List (Row W O S) → List (Row W O S)
  pending_rows [] rows = []
  pending_rows (n ∷ outbox) rows =
      (if is_none n.delivered_at then filter (λ row. row.id == n.job_id) rows else [])
      ++ pending_rows outbox rows

  -- `LIMIT` of the number cast to `i64`. A negative limit is refused here, as PostgreSQL does; SQLite
  -- takes it for no limit. The code asks for 100.
  unfoldable pub pending_notifications :
      Engine → ℕ → ℕ → Store W O S → Result (List ℕ) × Store W O S
  unfolding reclaim_expired pending_rows
  pending_notifications e limit now s =
      let r = reclaim_expired now s in
      if leb limit i64_max
      then (
        ok (
            map (λ row. row.id)
              (take limit (e.ascending (λ row. row.created_at) (pending_rows r.outbox r.jobs)))),
        r,
      )
      else (err out_of_range, s)

  unfoldable pub mark_notification_delivered : ℕ → ℕ → Store W O S → Store W O S
  mark_notification_delivered job_id now s = record s {
    outbox =
        update_where (λ n. n.job_id == job_id) (λ n. record n { delivered_at = some now }) s.outbox;
  }
