-- ===== src/Queue/Lookups.antt =====
-- Proofs about `enqueue` and `get` of src/repository.rs.
use seiza_server.Base.{
  ℕ, ◌≤◌, ◌≡◌, ◌↔◌, refl, sym, ◌∙◌, inl, inr, true, false, ◌||◌, none, some, List, [], ◌∷◌, ◌++◌,
  arith, Text, text, text_eq, text_eq→eq, text_eq_refl, ◌==◌, leb, Bool-cases, any, find,
}
use seiza_server.Queue.Rows.{
  JobStatus, queued, solving, succeeded, failed, as_str, parse_status, astrometry_id_for_job,
  JobRecord, Row, Store, Result, ok, record_from_row,
}
use seiza_server.Queue.Leases.{i64_max, donation_of}
use seiza_server.Queue.Jobs.{get, find_by_object_key, new_row, insert_job, enqueue, with_donation}

parsed : (v : Text) (st : JobStatus) → parse_status v ≡ some st → v ≡ as_str st
unfolding parse_status as_str
parsed v queued h = ground (arith, text_eq→eq v (text "queued"))
parsed v solving h = ground (arith, text_eq→eq v (text "solving"))
parsed v succeeded h = ground (arith, text_eq→eq v (text "succeeded"))
parsed v failed h = ground (arith, text_eq→eq v (text "failed"))

parse_as_str : (st : JobStatus) → parse_status (as_str st) ≡ some st
unfolding parse_status as_str text_eq
parse_as_str queued = refl
parse_as_str solving = refl
parse_as_str succeeded = refl
parse_as_str failed = refl

-- The text of a status parses back to the status, and no other text parses to it.
pub parse_status-as_str : (v : Text) (st : JobStatus) → (parse_status v ≡ some st) ↔ (v ≡ as_str st)
unfolding parse_status
parse_status-as_str v st = (parsed v st, λ e. rw e (parse_as_str st))

-- An Astrometry id is positive and fits a signed 64-bit column.
pub astrometry_id_bounds :
    (job_id : ℕ) → (1 ≤ astrometry_id_for_job job_id) × (astrometry_id_for_job job_id ≤ i64_max)
unfolding astrometry_id_for_job
astrometry_id_bounds job_id = omega arith

self_eq : (n : ℕ) → (n == n) ≡ true
self_eq n = ground arith

pub fits_column : (job_id : ℕ) → leb (astrometry_id_for_job job_id) i64_max ≡ true
fits_column job_id = ground (arith, astrometry_id_bounds job_id)

module _ {W O S : Type 0} where
  find_key_append :
      (key : Text) (xs ys : List (Row W O S))
      → any (λ row. text_eq row.object_key key) xs ≡ false
      → find (λ row. text_eq row.object_key key) (xs ++ ys)
        ≡ find (λ row. text_eq row.object_key key) ys
  find_key_append key [] ys h = refl
  find_key_append key (x ∷ xs) ys h = ground (arith, find_key_append key xs ys)

  find_id_append :
      (j : ℕ) (a : ℕ) (xs ys : List (Row W O S))
      → any (λ row. (row.id == j) || (row.astrometry_id == a)) xs ≡ false
      → find (λ row. row.id == j) (xs ++ ys) ≡ find (λ row. row.id == j) ys
  find_id_append j a [] ys h = refl
  find_id_append j a (x ∷ xs) ys h = ground (arith, find_id_append j a xs ys)

  any-find :
      (key : Text) (xs : List (Row W O S))
      → any (λ row. text_eq row.object_key key) xs ≡ true
      → (r : Row W O S) × (find (λ row. text_eq row.object_key key) xs ≡ some r)
  any-find key [] h = absurd (cc)
  any-find key (x ∷ xs) h = elim (Bool-cases (text_eq x.object_key key)) [
    | inl hit ↦ (x, rw hit refl)
    | inr miss ↦ let (r, e) = any-find key xs (ground arith) in (r, rw miss e)
  ]

  found_any :
      (key : Text) (xs : List (Row W O S)) (r : Row W O S)
      → find (λ row. text_eq row.object_key key) xs ≡ some r
      → any (λ row. text_eq row.object_key key) xs ≡ true
  found_any key [] r h = cc
  found_any key (x ∷ xs) r h = ground (arith, found_any key xs r)

  -- The record that a query by object key returns for a row.
  abbrev read_back : Store W O S → Row W O S → JobRecord W O S
  read_back s r = record (record_from_row r) { validation_donation = donation_of r.id s.donations }

  insert_stored :
      (job : JobRecord W O S) (s : Store W O S) (r : Row W O S)
      → leb job.astrometry_id i64_max ≡ true
      → find (λ row. text_eq row.object_key job.object_key) s.jobs ≡ some r
      → insert_job job s ≡ (ok (read_back s r), s)
  unfolding insert_job find_by_object_key
  insert_stored job s r fits h =
      rw fits (rw (found_any job.object_key s.jobs r h) (rw (h, with_donation) refl))

  stored_id :
      (done : JobRecord W O S) (s : Store W O S) (r : Row W O S)
      (answer : Result (JobRecord W O S) × Store W O S)
      → answer ≡ (ok (read_back s r), s)
      → answer.0 ≡ ok done
      → done.id ≡ r.id
  unfolding record_from_row
  stored_id done s r answer e h = ground arith

  made_id :
      (done job : JobRecord W O S) (answer : Result (JobRecord W O S) × Store W O S)
      (s : Store W O S)
      → answer ≡ (ok job, s)
      → answer.0 ≡ ok done
      → done.id ≡ job.id
  made_id done job answer s e h = ground arith

  last_key :
      (job : JobRecord W O S)
      → find (λ row. text_eq row.object_key job.object_key) (new_row job ∷ []) ≡ some (new_row job)
  unfolding new_row
  last_key job = ground (arith, text_eq_refl job.object_key)

  -- The store with the job's row and its pending notice.
  abbrev with_job : JobRecord W O S → Store W O S → Store W O S
  with_job job s = record s {
    jobs = s.jobs ++ new_row job ∷ [];
    outbox = s.outbox ++ record { job_id = job.id; delivered_at = none } ∷ [];
  }

  insert_fresh :
      (job done : JobRecord W O S) (s : Store W O S)
      → leb job.astrometry_id i64_max ≡ true
      → any (λ row. text_eq row.object_key job.object_key) s.jobs ≡ false
      → (insert_job job s).0 ≡ ok done
      → insert_job job s ≡ (ok job, with_job job s)
  unfolding insert_job
  insert_fresh job done s fits fresh h =
      elim (Bool-cases (
        any (λ row. (row.id == job.id) || (row.astrometry_id == job.astrometry_id)) s.jobs
        || any (λ n. n.job_id == job.id) s.outbox)) [
          | inl taken ↦ absurd (ground arith)
          | inr free ↦ rw fits (rw fresh (rw free refl))
        ]

  pub inserted_row :
      (job done : JobRecord W O S) (s : Store W O S)
      → leb job.astrometry_id i64_max ≡ true
      → (insert_job job s).0 ≡ ok done
      → (r : Row W O S) × (find
            (λ row. text_eq row.object_key job.object_key)
            (insert_job job s).1.jobs
          ≡ some r)
        × (done.id ≡ r.id)
  unfolding new_row
  inserted_row job done s fits h =
      elim (Bool-cases (any (λ row. text_eq row.object_key job.object_key) s.jobs)) [
        | inl old ↦
            let (r, e) = any-find job.object_key s.jobs old in
            let same = insert_stored job s r fits e in
            (r, rw same e, stored_id done s r (insert_job job s) same h)
        | inr fresh ↦
            let made = insert_fresh job done s fits fresh h in
            (
              new_row job,
              rw made
                  (find_key_append job.object_key s.jobs (new_row job ∷ []) fresh ∙ last_key job),
              made_id done job (insert_job job s) _ made h,
            )
      ]

  -- The record that `enqueue` inserts.
  abbrev pub stamped : JobRecord W O S → JobRecord W O S
  stamped job = record job { astrometry_id = astrometry_id_for_job job.id; status = queued }

  -- Enqueueing again under the object key of a job that was enqueued, whatever the other fields are,
  -- returns the job that is stored and changes nothing.
  pub enqueue_idempotent :
      (job again done : JobRecord W O S) (s : Store W O S)
      → (enqueue job s).0 ≡ ok done
      → again.object_key ≡ job.object_key
      → (d : JobRecord W O S) × (enqueue again (enqueue job s).1 ≡ (ok d, (enqueue job s).1))
        × (d.id ≡ done.id)
  unfolding enqueue record_from_row
  enqueue_idempotent job again done s h same =
      let (r, found, e) = inserted_row (stamped job) done s (fits_column job.id) h in
      let after = (insert_job (stamped job) s).1 in
      (
        read_back after r,
        insert_stored (stamped again) after r (fits_column again.id) (rw same found),
        sym e,
      )

  -- A job with a fresh object key, id and Astrometry id is stored queued, with its Astrometry id,
  -- and reads back by its id as it was given but for its progress, which is reset.
  pub get-enqueue :
      (job : JobRecord W O S) (s : Store W O S)
      → any (λ row. text_eq row.object_key job.object_key) s.jobs ≡ false
      → any
          (λ row. (row.id == job.id) || (row.astrometry_id == astrometry_id_for_job job.id))
          s.jobs
        ≡ false
      → any (λ n. n.job_id == job.id) s.outbox ≡ false
      → get job.id (enqueue job s).1
        ≡ some (record job {
          astrometry_id = astrometry_id_for_job job.id;
          status = queued;
          started_at = none;
          completed_at = none;
          solution = none;
          error = none;
          validation_donation = donation_of job.id s.donations;
        })
  unfolding enqueue insert_job get with_donation new_row record_from_row
  get-enqueue job s key id notice = rw (fits_column job.id) (
      rw key (
        rw id (
          rw notice (
            rw
              (find_id_append job.id (astrometry_id_for_job job.id) s.jobs
                (new_row (stamped job) ∷ []) id)
              (rw (self_eq job.id) refl)))))
