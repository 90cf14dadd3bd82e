-- ===== src/Queue/Leases.antt =====
-- Leases: `reclaim_expired`, `claim`, `heartbeat`, `input_key` and `complete` of
-- src/repository.rs.
use seiza_server.Base.{
  ℕ, ◌+◌, ◌-◌, ◌*◌, ◌^◌, max, Bool, ◌&&◌, Option, none, some, List, [], ◌∷◌, Text, text_eq, ◌==◌,
  if◌then◌else◌, is_some, is_none, length, filter, find,
}
use seiza_server.Queue.Rows.{
  queued, solving, succeeded, failed, is_queued, is_solving, ValidationDonation, JobRecord,
  JobLease, Row, Donated, Served, Notice, Store, no_outcome, Result, ok, err,
}
use seiza_server.Queue.Sql.{Engine, Float, text_is, at_most, above, update_where, upsert}
use seiza_server.Queue.Scheduler.{select_candidate}

abbrev pub i64_max : ℕ
i64_max = 2 ^ 63 - 1

abbrev pub second : ℕ
second = 1000000000

-- `lease_seconds.max(1)` seconds, of a number up to `i64::MAX / 1000`: `Duration::seconds` takes no
-- more.
abbrev pub lease_span : ℕ → ℕ
lease_span lease_seconds = max lease_seconds 1 * second

-- The upsert of the outbox that makes a job's notification pending.
unfoldable pub notify : ℕ → List Notice → List Notice
notify job_id =
    upsert (λ n. n.job_id == job_id) (λ n. record n { delivered_at = none })
      (record { job_id = job_id; delivered_at = none })

module _ {W O S : Type 0} where
  -- `WHERE id = $ AND status = 'solving' AND lease_token = $ AND lease_expires_at > $now`.
  unfoldable pub holds : ℕ → Text → ℕ → Row W O S → Bool
  holds job_id token now row =
      (row.id == job_id)
      && is_solving row.status
      && text_is row.lease_token token
      && above row.lease_expires_at now

  -- `WHERE status = 'solving' AND lease_expires_at <= $now`.
  unfoldable pub has_expired : ℕ → Row W O S → Bool
  has_expired now row = is_solving row.status && at_most row.lease_expires_at now

  unfoldable pub released : Row W O S → Row W O S
  released row = record row { status = queued; lease_token = none; lease_expires_at = none }

  -- One round of the loop of `reclaim_expired`.
  unfoldable pub reclaim_one : ℕ → Store W O S → Store W O S
  unfolding released notify
  reclaim_one job_id s = record s {
    jobs = update_where (λ row. (row.id == job_id) && is_solving row.status) released s.jobs;
    outbox = notify job_id s.outbox;
  }

  unfoldable pub reclaim_all : List (Row W O S) → Store W O S → Store W O S
  reclaim_all [] s = s
  reclaim_all (row ∷ rows) s = reclaim_all rows (reclaim_one row.id s)

  unfoldable pub reclaim_expired : ℕ → Store W O S → Store W O S
  unfolding has_expired
  reclaim_expired now s = reclaim_all (filter (has_expired now) s.jobs) s

unfoldable pub serve : ℕ → Text → List Served → List Served
serve now owner =
    upsert (λ row. text_eq row.owner owner) (λ row. record row { last_served_at = now })
      (record { owner = owner; last_served_at = now })

module _ {W O S : Type 0} where
  unfoldable pub claimed_row : ℕ → Text → ℕ → Row W O S → Row W O S
  claimed_row now token expires row = record row {
    status = solving;
    started_at = some now;
    lease_token = some token;
    lease_expires_at = some expires;
    attempts = row.attempts + 1;
  }

  -- From the candidate on: `s` is the store that the transaction began with, `r` the store after
  -- the expired leases went back to the queue.
  unfoldable pub claim_job :
      Text
      → ℕ
      → ℕ
      → Store W O S
      → Store W O S
      → Option (JobRecord W O S)
      → Option (JobLease O) × Store W O S
  unfolding claimed_row serve
  claim_job token lease_seconds now s r none = (none, r)
  claim_job token lease_seconds now s r (some job) =
      let expires = now + lease_span lease_seconds in
      let test = λ (row : Row W O S). (row.id == job.id) && is_queued row.status in
      if length (filter test r.jobs) == 1
      then (
        some (record {
          job_id = job.id;
          lease_token = token;
          lease_expires_at = expires;
          original_filename = job.original_filename;
          options = job.options;
        }),
        record r {
          jobs = update_where test (claimed_row now token expires) r.jobs;
          clients = serve now job.owner r.clients;
        },
      )
      else (none, s)

module _ (f : Float) {O S : Type 0} where
  unfoldable pub claim :
      Engine → Option ℕ → Text → ℕ → ℕ → Store f.F O S → Option (JobLease O) × Store f.F O S
  unfolding claim_job reclaim_expired select_candidate
  claim e requested_job_id token lease_seconds now s =
      let r = reclaim_expired now s in
      claim_job token lease_seconds now s r (select_candidate f e requested_job_id now r)

abbrev donation_in : Option Donated → Option ValidationDonation
donation_in none = none
donation_in (some d) = some d.donation

-- `SELECT ... FROM validation_donations_v2 WHERE job_id = $1`.
unfoldable pub donation_of : ℕ → List Donated → Option ValidationDonation
donation_of job_id donations = donation_in (find (λ d. d.job_id == job_id) donations)

abbrev key_or : Text → Option ValidationDonation → Text
key_or key none = key
key_or key (some donation) = donation.object_key

module _ {W O S : Type 0} where
  unfoldable pub renewed : ℕ → Row W O S → Row W O S
  renewed expires row = record row { lease_expires_at = some expires }

  -- UPDATE ... SET lease_expires_at; the result says whether one row was changed.
  unfoldable pub heartbeat : ℕ → Text → ℕ → ℕ → Store W O S → Bool × Store W O S
  unfolding holds renewed
  heartbeat job_id token lease_seconds now s = (
    length (filter (holds job_id token now) s.jobs) == 1,
    record s {
      jobs =
          update_where (holds job_id token now) (renewed (now + lease_span lease_seconds)) s.jobs;
    },
  )

  -- `COALESCE((SELECT object_key FROM validation_donations_v2 ...), object_key)`.
  abbrev input_for : List Donated → Option (Row W O S) → Option Text
  input_for donations none = none
  input_for donations (some row) = some (key_or row.object_key (donation_of row.id donations))

  unfoldable pub input_key : ℕ → Text → ℕ → Store W O S → Option Text
  unfolding holds donation_of
  input_key job_id token now s = input_for s.donations (find (holds job_id token now) s.jobs)

  unfoldable pub finished : Option S → Option Text → ℕ → Row W O S → Row W O S
  finished solution error now row = record row {
    status = if is_some solution then succeeded else failed;
    completed_at = some now;
    solution = solution;
    error = error;
    lease_token = none;
    lease_expires_at = none;
  }

  unfoldable pub complete :
      ℕ → Text → Option S → Option Text → ℕ → Store W O S → Result Bool × Store W O S
  unfolding holds finished
  complete job_id token solution error now s =
      if is_none solution && is_none error then (err no_outcome, s) else (
        ok (length (filter (holds job_id token now) s.jobs) == 1),
        record s {
          jobs = update_where (holds job_id token now) (finished solution error now) s.jobs;
        },
      )
