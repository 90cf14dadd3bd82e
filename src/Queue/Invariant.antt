-- ===== src/Queue/Invariant.antt =====
-- The invariant of the tables of src/repository.rs.
use seiza_server.Base.{
  ℕ, ◌+◌, ◌≡◌, refl, ◌≢◌, inl, inr, Bool, true, false, ◌&&◌, ◌||◌, Option, none, some, List, [],
  ◌∷◌, ◌++◌, map, arith, Text, text_eq, text_eq_iff, ◌==◌, Bool-cases, is_some, is_none, length,
  All, Distinct, Distinct-append-cons, filter, any, find, not, All-append, leb, All-map,
}
use mathlib.Core.List.{map-append}
use seiza_server.Queue.Rows.{
  JobStatus, queued, solving, succeeded, failed, is_queued, is_solving, JobRecord, Row, Donated,
  ValidationDonation, Served, Notice, Store,
}
use seiza_server.Queue.Sql.{Engine, Float, update_where, upsert}
use seiza_server.Queue.Leases.{
  notify, released, reclaim_one, reclaim_all, reclaim_expired, claimed_row, serve, lease_span,
  claim_job, claim, heartbeat, holds, finished, complete, i64_max,
}
use seiza_server.Queue.Jobs.{
  new_row, insert_job, donate_over, may_donate, enqueue, donate_validation, pending_notifications,
  mark_notification_delivered,
}
use seiza_server.Queue.Updates.{All-update_where, map-update_where, upsert-Distinct}

module _ {W O S : Type 0} where
  -- What a row of each status holds.
  abbrev pub Fits : JobStatus → Row W O S → Type 0
  Fits queued r =
      (r.lease_token ≡ none)
      × (r.lease_expires_at ≡ none)
      × (r.solution ≡ none)
      × (r.error ≡ none)
      × (r.completed_at ≡ none)
  Fits solving r =
      (is_some r.lease_token ≡ true)
      × (is_some r.lease_expires_at ≡ true)
      × (r.solution ≡ none)
      × (r.error ≡ none)
      × (r.completed_at ≡ none)
  Fits succeeded r =
      (r.lease_token ≡ none)
      × (r.lease_expires_at ≡ none)
      × (is_some r.solution ≡ true)
      × (is_some r.completed_at ≡ true)
  Fits failed r =
      (r.lease_token ≡ none)
      × (r.lease_expires_at ≡ none)
      × (r.solution ≡ none)
      × (is_some r.error ≡ true)
      × (is_some r.completed_at ≡ true)

  abbrev pub IsConsistent : Row W O S → Type 0
  IsConsistent r = Fits r.status r

  released-IsConsistent :
      (r : Row W O S) → IsConsistent r → is_solving r.status ≡ true → IsConsistent (released r)
  unfolding released
  released-IsConsistent r c h = ground arith

  claimed_row-IsConsistent :
      (now : ℕ) (token : Text) (expires : ℕ) (r : Row W O S)
      → IsConsistent r
      → is_queued r.status ≡ true
      → IsConsistent (claimed_row now token expires r)
  unfolding claimed_row
  claimed_row-IsConsistent now token expires r c h = ground arith

  finished-IsConsistent :
      (solution : Option S) (error : Option Text) (now : ℕ) (r : Row W O S)
      → (is_none solution && is_none error) ≡ false
      → IsConsistent (finished solution error now r)
  unfolding finished
  finished-IsConsistent solution error now r h = ground arith

-- Every row fits its status; ids, object keys and the keys of the other tables are unique; every
-- job has a notice in the outbox.
pub record IsValid {W O S : Type 0} (s : Store W O S) : Type 0 where
  pub rows : All IsConsistent s.jobs
  pub ids : Distinct (map (λ r. r.id) s.jobs)
  pub keys : Distinct (map (λ r. r.object_key) s.jobs)
  pub noticed : All (λ i. any (λ n. n.job_id == i) s.outbox ≡ true) (map (λ r. r.id) s.jobs)
  pub notices : Distinct (map (λ n. n.job_id) s.outbox)
  pub donors : Distinct (map (λ d. d.job_id) s.donations)
  pub clients : Distinct (map (λ c. c.owner) s.clients)

notify-keeps :
    (i j : ℕ) (xs : List Notice)
    → any (λ n. n.job_id == i) xs ≡ true
    → any (λ n. n.job_id == i) (notify j xs) ≡ true
unfolding notify upsert
notify-keeps i j [] h = cc
notify-keeps i j (n ∷ xs) h = ground (arith, notify-keeps i j xs)

pub notify-Distinct :
    (j : ℕ) (xs : List Notice)
    → Distinct (map (λ n. n.job_id) xs)
    → Distinct (map (λ n. n.job_id) (notify j xs))
unfolding notify
notify-Distinct j xs h =
    upsert-Distinct (λ (n : Notice). n.job_id) _ _ _ (λ n. refl) (λ n miss. ground arith) xs h

serve-Distinct :
    (now : ℕ) (owner : Text) (xs : List Served)
    → Distinct (map (λ c. c.owner) xs)
    → Distinct (map (λ c. c.owner) (serve now owner xs))
unfolding serve
serve-Distinct now owner xs h =
    upsert-Distinct (λ (c : Served). c.owner) _ _ _ (λ c. refl)
      (λ c miss. ground (arith, text_eq_iff c.owner owner)) xs h

new_notice :
    (j : ℕ) (xs : List Notice)
    → any (λ n. n.job_id == j) xs ≡ false
    → All (λ i. i ≢ j) (map (λ n. n.job_id) xs)
new_notice j [] h = tt
new_notice j (x ∷ xs) h = (ground arith, new_notice j xs (ground arith))

noticed_append :
    (i j : ℕ) (xs : List Notice)
    → any (λ n. n.job_id == i) xs ≡ true
    → any (λ n. n.job_id == i) (xs ++ record { job_id = j; delivered_at = none } ∷ []) ≡ true
noticed_append i j [] h = cc
noticed_append i j (x ∷ xs) h = ground (arith, noticed_append i j xs)

noticed_last :
    (j : ℕ) (xs : List Notice)
    → any (λ n. n.job_id == j) (xs ++ record { job_id = j; delivered_at = none } ∷ []) ≡ true
noticed_last j [] = ground arith
noticed_last j (x ∷ xs) = ground (arith, noticed_last j xs)

donor_Distinct :
    (j : ℕ) (donation : ValidationDonation) (xs : List Donated)
    → Distinct (map (λ d. d.job_id) xs)
    → Distinct (
        map
          (λ d. d.job_id)
          (upsert
            (λ d. d.job_id == j)
            (donate_over donation)
            (record { job_id = j; donation = donation })
            xs))
unfolding donate_over
donor_Distinct j donation xs h =
    upsert-Distinct (λ (d : Donated). d.job_id) (λ d. d.job_id == j) (donate_over donation)
      (record { job_id = j; donation = donation }) (λ d. refl) (λ d miss. ground arith) xs h

delivered_Distinct :
    (j now : ℕ) (xs : List Notice)
    → Distinct (map (λ n. n.job_id) xs)
    → Distinct (
        map
          (λ n. n.job_id)
          (update_where (λ n. n.job_id == j) (λ n. record n { delivered_at = some now }) xs))
delivered_Distinct j now xs h =
    rw
      (map-update_where (λ (n : Notice). n.job_id) (λ n. n.job_id == j)
        (λ n. record n { delivered_at = some now }) (λ n. refl) xs)
      h

any-delivered :
    (i j now : ℕ) (xs : List Notice)
    → any (λ n. n.job_id == i) xs ≡ true
    → any
        (λ n. n.job_id == i)
        (update_where (λ n. n.job_id == j) (λ n. record n { delivered_at = some now }) xs)
      ≡ true
unfolding update_where
any-delivered i j now [] h = cc
any-delivered i j now (x ∷ xs) h = ground (arith, any-delivered i j now xs)

module _ {W O S : Type 0} where
  -- An update of the jobs that keeps ids, object keys and consistency keeps the invariant.
  pub update-IsValid :
      (test : Row W O S → Bool) (change : Row W O S → Row W O S) (s : Store W O S)
      → ((r : Row W O S) → (change r).id ≡ r.id)
      → ((r : Row W O S) → (change r).object_key ≡ r.object_key)
      → ((r : Row W O S) → IsConsistent r → test r ≡ true → IsConsistent (change r))
      → IsValid s
      → IsValid (record s { jobs = update_where test change s.jobs })
  update-IsValid test change s ids keys keep v = record {
    rows = All-update_where IsConsistent test change keep s.jobs v.rows;
    ids = rw (map-update_where (λ (r : Row W O S). r.id) test change ids s.jobs) v.ids;
    keys = rw (map-update_where (λ (r : Row W O S). r.object_key) test change keys s.jobs) v.keys;
    noticed = rw (map-update_where (λ (r : Row W O S). r.id) test change ids s.jobs) v.noticed;
    notices = v.notices;
    donors = v.donors;
    clients = v.clients;
  }

  reclaim_one-IsValid : (j : ℕ) (s : Store W O S) → IsValid s → IsValid (reclaim_one j s)
  unfolding reclaim_one
  reclaim_one-IsValid j s v =
      let u =
        update-IsValid (λ row. (row.id == j) && is_solving row.status) released s (λ r. refl)
          (λ r. refl) (λ r c h. released-IsConsistent r c (ground arith)) v in
      record {
        rows = u.rows;
        ids = u.ids;
        keys = u.keys;
        noticed = All-map (λ i h. notify-keeps i j s.outbox h) _ u.noticed;
        notices = notify-Distinct j s.outbox v.notices;
        donors = v.donors;
        clients = v.clients;
      }

  reclaim_all-IsValid :
      (rows : List (Row W O S)) (s : Store W O S) → IsValid s → IsValid (reclaim_all rows s)
  unfolding reclaim_all
  reclaim_all-IsValid [] s v = v
  reclaim_all-IsValid (r ∷ rows) s v =
      reclaim_all-IsValid rows (reclaim_one r.id s) (reclaim_one-IsValid r.id s v)

  pub reclaim_expired-IsValid :
      (now : ℕ) (s : Store W O S) → IsValid s → IsValid (reclaim_expired now s)
  unfolding reclaim_expired
  reclaim_expired-IsValid now s v = reclaim_all-IsValid _ s v

  claim_job-IsValid :
      (token : Text) (lease_seconds now : ℕ) (s r : Store W O S) (job : Option (JobRecord W O S))
      → IsValid s
      → IsValid r
      → IsValid (claim_job token lease_seconds now s r job).1
  unfolding claim_job
  claim_job-IsValid token lease_seconds now s r none v w = w
  claim_job-IsValid token lease_seconds now s r (some job) v w =
      let test = λ (row : Row W O S). (row.id == job.id) && is_queued row.status in
      let u =
        update-IsValid test (claimed_row now token (now + lease_span lease_seconds)) r (λ x. refl)
          (λ x. refl)
          (λ x c h.
            claimed_row-IsConsistent now token (now + lease_span lease_seconds) x c (ground arith))
          w in
      elim (Bool-cases (length (filter test r.jobs) == 1)) [
        | inl one ↦ rw one (record {
          rows = u.rows;
          ids = u.ids;
          keys = u.keys;
          noticed = u.noticed;
          notices = w.notices;
          donors = w.donors;
          clients = serve-Distinct now job.owner r.clients w.clients;
        })
        | inr other ↦ rw other v
      ]

  pub heartbeat-IsValid :
      (j : ℕ) (token : Text) (lease_seconds now : ℕ) (s : Store W O S)
      → IsValid s
      → IsValid (heartbeat j token lease_seconds now s).1
  unfolding heartbeat
  heartbeat-IsValid j token lease_seconds now s v =
      update-IsValid (holds j token now) _ s (λ r. refl) (λ r. refl) (λ r c h. ground arith) v

  pub complete-IsValid :
      (j : ℕ) (token : Text) (solution : Option S) (error : Option Text) (now : ℕ) (s : Store W O S)
      → IsValid s
      → IsValid (complete j token solution error now s).1
  unfolding complete
  complete-IsValid j token solution error now s v =
      elim (Bool-cases (is_none solution && is_none error)) [
        | inl nothing ↦ rw nothing v
        | inr outcome ↦ rw outcome (
            update-IsValid (holds j token now) (finished solution error now) s (λ r. refl)
              (λ r. refl) (λ r c h. finished-IsConsistent solution error now r outcome) v)
      ]

  -- What the two uniqueness tests of an insertion say of the ids and of the object keys.
  new_id :
      (job : JobRecord W O S) (xs : List (Row W O S))
      → any (λ row. (row.id == job.id) || (row.astrometry_id == job.astrometry_id)) xs ≡ false
      → All (λ i. i ≢ job.id) (map (λ r. r.id) xs)
  new_id job [] h = tt
  new_id job (x ∷ xs) h = (ground arith, new_id job xs (ground arith))

  new_key :
      (job : JobRecord W O S) (xs : List (Row W O S))
      → any (λ row. text_eq row.object_key job.object_key) xs ≡ false
      → All (λ k. k ≢ job.object_key) (map (λ r. r.object_key) xs)
  new_key job [] h = tt
  new_key job (x ∷ xs) h =
      (ground (arith, text_eq_iff x.object_key job.object_key), new_key job xs (ground arith))

  insert_job-IsValid :
      (job : JobRecord W O S) (s : Store W O S) → IsValid s → IsValid (insert_job job s).1
  unfolding insert_job
  insert_job-IsValid job s v = elim (Bool-cases (leb job.astrometry_id i64_max)) [
    | inr large ↦ rw large v
    | inl fits ↦
        rw fits (elim (Bool-cases (any (λ row. text_eq row.object_key job.object_key) s.jobs)) [
          | inl old ↦ rw old v
          | inr fresh_key ↦
              rw fresh_key
                (elim (Bool-cases (
                  any (λ row. (row.id == job.id) || (row.astrometry_id == job.astrometry_id)) s.jobs
                  || any (λ n. n.job_id == job.id) s.outbox)) [
                    | inl taken ↦ rw taken v
                    | inr fresh ↦ rw fresh (inserted fresh_key (ground arith) (ground arith))
                  ])
        ])
  ]
    where
      inserted :
          any (λ row. text_eq row.object_key job.object_key) s.jobs ≡ false
          → any (λ row. (row.id == job.id) || (row.astrometry_id == job.astrometry_id)) s.jobs
            ≡ false
          → any (λ n. n.job_id == job.id) s.outbox ≡ false
          → IsValid (record s {
            jobs = s.jobs ++ new_row job ∷ [];
            outbox = s.outbox ++ record { job_id = job.id; delivered_at = none } ∷ [];
          })
      inserted key id notice = record {
        rows = All-append IsConsistent s.jobs _ v.rows ((refl, refl, refl, refl, refl), tt);
        ids =
            rw (map-append (λ (r : Row W O S). r.id) s.jobs)
              (Distinct-append-cons _ job.id v.ids (new_id job s.jobs id));
        keys =
            rw (map-append (λ (r : Row W O S). r.object_key) s.jobs)
              (Distinct-append-cons _ job.object_key v.keys (new_key job s.jobs key));
        noticed = rw (map-append (λ (r : Row W O S). r.id) s.jobs) (
            All-append _ _ (job.id ∷ [])
              (All-map (λ i h. noticed_append i job.id s.outbox h) _ v.noticed)
              (noticed_last job.id s.outbox, tt));
        notices =
            rw (map-append (λ (n : Notice). n.job_id) s.outbox)
              (Distinct-append-cons _ job.id v.notices (new_notice job.id s.outbox notice));
        donors = v.donors;
        clients = v.clients;
      }

  pub enqueue-IsValid :
      (job : JobRecord W O S) (s : Store W O S) → IsValid s → IsValid (enqueue job s).1
  unfolding enqueue
  enqueue-IsValid job s v = insert_job-IsValid _ s v

  pub donate-IsValid :
      (j : ℕ) (donation : ValidationDonation) (s : Store W O S)
      → IsValid s
      → IsValid (donate_validation j donation s).1
  unfolding donate_validation
  donate-IsValid j donation s v =
      elim (Bool-cases (may_donate (find (λ row. row.id == j) s.jobs))) [
        | inr unfinished ↦ rw unfinished v
        | inl may ↦
            rw may
              (elim (Bool-cases (
                any (λ d. text_eq d.donation.object_key donation.object_key && not (d.job_id == j))
                  s.donations)) [
                    | inl taken ↦ rw taken v
                    | inr free ↦ rw free (record {
                      rows = v.rows;
                      ids = v.ids;
                      keys = v.keys;
                      noticed = v.noticed;
                      notices = v.notices;
                      donors = donor_Distinct j donation s.donations v.donors;
                      clients = v.clients;
                    })
                  ])
      ]

  pub pending-IsValid :
      (e : Engine) (limit now : ℕ) (s : Store W O S)
      → IsValid s
      → IsValid (pending_notifications e limit now s).1
  unfolding pending_notifications
  pending-IsValid e limit now s v = elim (Bool-cases (leb limit i64_max)) [
    | inl fits ↦ rw fits (reclaim_expired-IsValid now s v)
    | inr large ↦ rw large v
  ]

  pub delivered-IsValid :
      (j now : ℕ) (s : Store W O S) → IsValid s → IsValid (mark_notification_delivered j now s)
  unfolding mark_notification_delivered
  delivered-IsValid j now s v = record {
    rows = v.rows;
    ids = v.ids;
    keys = v.keys;
    noticed = All-map (λ i h. any-delivered i j now s.outbox h) _ v.noticed;
    notices = delivered_Distinct j now s.outbox v.notices;
    donors = v.donors;
    clients = v.clients;
  }

pub claim-IsValid :
    (f : Float) (e : Engine) {O S : Type 0} (requested : Option ℕ) (token : Text)
    (lease_seconds now : ℕ) (s : Store f.F O S)
    → IsValid s
    → IsValid (claim f e requested token lease_seconds now s).1
unfolding claim
claim-IsValid f e requested token lease_seconds now s v =
    claim_job-IsValid token lease_seconds now s _ _ v (reclaim_expired-IsValid now s v)
