-- ===== src/Queue/Tests.antt =====
-- The queue at concrete stores.
use mathlib.Core.List.{Memᴰ}
use seiza_server.Base.{
  ℕ, ◌≤◌, ◌≡◌, ◌≢◌, refl, true, false, none, some, List, [], ◌∷◌, arith, Text, text, text_eq, All,
  length,
}
use seiza_server.Queue.Rows.{
  queued, solving, succeeded, JobRecord, JobLease, Row, Store, ok, astrometry_id_for_job,
  record_from_row,
}
use seiza_server.Queue.Sql.{Descends, update_where}
use seiza_server.Queue.Scheduler.{select_candidate}
use seiza_server.Queue.Leases.{
  claim, complete, reclaim_expired, reclaim_all, has_expired, released, donation_of,
}
use seiza_server.Queue.Jobs.{enqueue, get, list_by_owner, pending_notifications}
use seiza_server.Queue.Lookup.{row_of}
use seiza_server.Queue.Calls.{Call, enqueues, claims, completes, polls, step, run, empty}
use seiza_server.Queue.Invariant.{IsValid}
use seiza_server.Queue.Lifecycle.{Reach, jobs-reclaim_expired}
use seiza_server.Queue.History.{run-IsValid, step-row_of, terminal_forever}
use seiza_server.Queue.Exclusion.{stale_worker_fenced}
use seiza_server.Queue.Grants.{lease_excludes}
use seiza_server.Queue.Selection.{QueuedIn, Tops, select_candidate_best}
use seiza_server.Queue.Lookups.{enqueue_idempotent, get-enqueue}
use seiza_server.Queue.Reports.{
  OwnedIn, Newest, list_by_owner_lem, is_pending, reclaim_expired-is_pending,
}
use seiza_server.Queue.Sorting.{engine, engine-IsEngine, float}

abbrev job : ℕ → Text → ℕ → JobRecord ℕ ℕ ℕ
job id owner created_at = record {
  id = id;
  astrometry_id = 0;
  owner = owner;
  queue_weight = 1000000;
  object_key = id ∷ [];
  original_filename = text "field.fits";
  content_type = none;
  options = 0;
  status = queued;
  created_at = created_at;
  started_at = none;
  completed_at = none;
  solution = none;
  error = none;
  validation_donation = none;
}

abbrev waiting : ℕ → Text → ℕ → Row ℕ ℕ ℕ
waiting id owner created_at = record {
  id = id;
  astrometry_id = id;
  legacy_id = none;
  owner = owner;
  queue_weight = 1000000;
  object_key = id ∷ [];
  original_filename = text "field.fits";
  content_type = none;
  options = 0;
  status = queued;
  created_at = created_at;
  started_at = none;
  completed_at = none;
  solution = none;
  error = none;
  lease_token = none;
  lease_expires_at = none;
  attempts = 0;
}

abbrev pub leased : Row ℕ ℕ ℕ
leased = record (waiting 7 (text "ann") 10) {
  status = solving;
  started_at = some 40;
  lease_token = some (text "live");
  lease_expires_at = some 100;
  attempts = 1;
}

abbrev pub solved_row : Row ℕ ℕ ℕ
solved_row = record (waiting 7 (text "ann") 10) {
  status = succeeded;
  completed_at = some 90;
  solution = some 5;
}

-- Three jobs of two owners, the first as given.
abbrev pub store : Row ℕ ℕ ℕ → Store ℕ ℕ ℕ
store first = record {
  jobs = first ∷ waiting 8 (text "bob") 20 ∷ waiting 9 (text "ann") 30 ∷ [];
  donations = [];
  clients = record { owner = text "ann"; last_served_at = 5 } ∷ [];
  outbox =
      record { job_id = 7; delivered_at = some 12 }
      ∷ record { job_id = 8; delivered_at = none }
      ∷ record { job_id = 9; delivered_at = none }
      ∷ [];
}

abbrev start : Store ℕ ℕ ℕ
start = store (waiting 7 (text "ann") 10)

start-IsValid : IsValid start
start-IsValid = record {
  rows = (
    (refl, refl, refl, refl, refl),
    ((refl, refl, refl, refl, refl), ((refl, refl, refl, refl, refl), tt)),
  );
  ids = omega arith;
  keys = ((λ e. cc, (λ e. cc, tt)), ((λ e. cc, tt), (tt, tt)));
  noticed = (refl, (refl, (refl, tt)));
  notices = omega arith;
  donors = tt;
  clients = (tt, tt);
}

pub leased-IsValid : IsValid (store leased)
leased-IsValid = record {
  rows = (
    (refl, refl, refl, refl, refl),
    ((refl, refl, refl, refl, refl), ((refl, refl, refl, refl, refl), tt)),
  );
  ids = omega arith;
  keys = ((λ e. cc, (λ e. cc, tt)), ((λ e. cc, tt), (tt, tt)));
  noticed = (refl, (refl, (refl, tt)));
  notices = omega arith;
  donors = tt;
  clients = (tt, tt);
}

solved-IsValid : IsValid (store solved_row)
solved-IsValid = record {
  rows = (
    (refl, refl, refl, refl),
    ((refl, refl, refl, refl, refl), ((refl, refl, refl, refl, refl), tt)),
  );
  ids = omega arith;
  keys = ((λ e. cc, (λ e. cc, tt)), ((λ e. cc, tt), (tt, tt)));
  noticed = (refl, (refl, (refl, tt)));
  notices = omega arith;
  donors = tt;
  clients = (tt, tt);
}

abbrev others : List (ℕ × Call ℕ ℕ ℕ)
others =
    (45, completes 7 (text "old") (some 1) none)
    ∷ (50, enqueues (job 11 (text "cyd") 50))
    ∷ (60, polls 10)
    ∷ []

-- A lease of the job 7, by name, ends 60 seconds after the time 40.
abbrev lease_7 : JobLease ℕ
lease_7 = record {
  job_id = 7;
  lease_token = text "live";
  lease_expires_at = 60000000040;
  original_filename = text "field.fits";
  options = 0;
}

abbrev lease_8 : JobLease ℕ
lease_8 = record lease_7 { job_id = 8; lease_token = text "later"; lease_expires_at = 60000000070 }

abbrev after_7 : Store ℕ ℕ ℕ
after_7 = (claim float engine (some 7) (text "live") 60 40 start).1

lease_excludes_example : ◌≢◌ {A = ℕ} 8 7
lease_excludes_example =
    lease_excludes float engine (some 7) (text "live") 60 40 start lease_7 others (some 8)
      (text "later") 60 70 lease_8 start-IsValid granted_7
      ((omega arith, λ e. cc), ((omega arith, λ e. cc), ((omega arith, λ e. cc), tt))) (omega arith)
      granted_8
  where
    granted_7 : (claim float engine (some 7) (text "live") 60 40 start).0 ≡ some lease_7
    granted_7 = unfold claim reclaim_all record_from_row in refl

    granted_8 :
        (claim float engine (some 8) (text "later") 60 70 (run float engine others after_7)).0
        ≡ some lease_8
    granted_8 =
        unfold pending_notifications update_where claim complete enqueue astrometry_id_for_job run
          step text_eq reclaim_all record_from_row in
        refl

terminal_forever_example :
    row_of 7
      (run float engine
        ((95, claims none (text "later") 60)
          ∷ (96, completes 7 (text "live") none (some (text "late")))
          ∷ [])
        (store solved_row)).jobs
    ≡ some solved_row
terminal_forever_example =
    terminal_forever float engine
      ((95, claims none (text "later") 60)
        ∷ (96, completes 7 (text "live") none (some (text "late")))
        ∷ [])
      (store solved_row) 7 solved_row solved-IsValid refl refl

stale_worker_fenced_example :
    complete 7 (text "old") (some 3) none 50 (store leased) ≡ (ok false, store leased)
stale_worker_fenced_example =
    (stale_worker_fenced (store leased) 7 50 100 60 (text "live") (text "old") leased (some 3) none
      leased-IsValid refl (unfold text_eq in (refl, refl, omega arith)) (λ e. cc) refl).0

run-IsValid_example : IsValid (run float engine others start)
run-IsValid_example = run-IsValid float engine others start start-IsValid

step-row_of_example :
    (q : Row ℕ ℕ ℕ) × (row_of 7 (step float engine 100 (polls 5) (store leased)).jobs ≡ some q)
    × Reach 100 none leased q
step-row_of_example =
    step-row_of float engine 100 (polls 5) (store leased) 7 leased leased-IsValid refl

select_candidate_best_example :
    (best : JobRecord ℕ ℕ ℕ) × (select_candidate float engine none 50 start ≡ some best)
    × QueuedIn float start best
    × Tops float 50 start.clients best (record_from_row (waiting 8 (text "bob") 20))
select_candidate_best_example =
    select_candidate_best float engine 50 start (waiting 8 (text "bob") 20) engine-IsEngine
      (Memᴰ.tail (Memᴰ.head refl)) refl

enqueue_idempotent_example :
    (d : JobRecord ℕ ℕ ℕ) × (enqueue
        (record (job 12 (text "ann") 60) { object_key = 7 ∷ [] })
        (enqueue (job 7 (text "ann") 10) (empty ℕ ℕ ℕ)).1
      ≡ (ok d, (enqueue (job 7 (text "ann") 10) (empty ℕ ℕ ℕ)).1))
    × (d.id ≡ 7)
enqueue_idempotent_example =
    enqueue_idempotent (job 7 (text "ann") 10)
      (record (job 12 (text "ann") 60) { object_key = 7 ∷ [] })
      (record (job 7 (text "ann") 10) { astrometry_id = 7 }) (empty ℕ ℕ ℕ)
      (unfold enqueue astrometry_id_for_job in refl) refl

get-enqueue_example :
    get 10 (enqueue (job 10 (text "cyd") 60) start).1
    ≡ some (record (job 10 (text "cyd") 60) {
      astrometry_id = astrometry_id_for_job 10;
      validation_donation = donation_of 10 [];
    })
get-enqueue_example =
    get-enqueue (job 10 (text "cyd") 60) start (unfold text_eq in refl)
      (unfold astrometry_id_for_job in refl) refl

jobs-reclaim_expired_example :
    (reclaim_expired 100 (store leased)).jobs
    ≡ update_where (has_expired 100) released (store leased).jobs
jobs-reclaim_expired_example = jobs-reclaim_expired 100 (store leased) leased-IsValid.ids

reclaim_expired-is_pending_example : is_pending 7 (reclaim_expired 100 (store leased)).outbox ≡ true
reclaim_expired-is_pending_example =
    reclaim_expired-is_pending 100 (store leased) leased (Memᴰ.head refl)
      (unfold has_expired in refl)

list_by_owner_lem_example :
    (length (list_by_owner engine (text "ann") 1 start) ≤ 1)
    × All (OwnedIn start (text "ann")) (list_by_owner engine (text "ann") 1 start)
    × Descends (λ h. h.created_at) (list_by_owner engine (text "ann") 1 start)
    × Newest start (text "ann") 1 (list_by_owner engine (text "ann") 1 start)
list_by_owner_lem_example = list_by_owner_lem engine (text "ann") 1 start engine-IsEngine
