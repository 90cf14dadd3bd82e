-- ===== src/Service/Workers.antt =====
-- The workers' side of src/api.rs: the endpoints that lease jobs to workers, the embedded worker, and
-- the dispatcher of the outbox. One clock reading stands for those of one round of the dispatcher.
use seiza_server.Base.{
  ℕ, Bool, true, not, Option, none, some, List, [], ◌∷◌, Text, text, if◌then◌else◌,
}
use seiza_server.Queue.Rows.{
  JobRecord, JobLease, Store, Result as QueueResult, ok as stored, err as refused,
}
use seiza_server.Queue.Sql.{Engine, Float, text_is}
use seiza_server.Queue.Leases.{claim, heartbeat, input_key, complete}
use seiza_server.Queue.Jobs.{get, pending_notifications, mark_notification_delivered}
use seiza_server.Uploads.Storage.{Bytes, ObjectStore}
use seiza_server.Accounts.BrowserSessions.{kept}
use seiza_server.Tus.Requests.{
  Outcome, answer, failed, and_then, bad_request, missing, failure, unauthorized, conflict, Headers,
}
use seiza_server.Tus.Metadata.{is_empty}
use seiza_server.Service.Clients.{bearer}
use seiza_server.Service.World.{Transport, World}

-- `worker_token` is the configured one.
abbrev pub expected : Option Text → Option Text → Outcome (Unit {0})
expected none supplied = failed missing
expected (some token) supplied = if text_is supplied token then answer tt else failed unauthorized

unfoldable pub authenticate_worker : Option Text → Headers → Outcome (Unit {0})
authenticate_worker worker_token headers =
    expected worker_token (bearer (headers (text "authorization")))

pub record WorkerCompletion (S : Type 0) : Type 0 where
  pub lease_token : Text
  pub solution : Option S
  pub error : Option Text

-- The rest of a request that a worker may make.
abbrev pub as_worker {ℓ} :
    {A : Type 0} {w : Type ℓ} → Outcome (Unit {0}) → w → Outcome A × w → Outcome A × w
as_worker (failed e) w next = (failed e, w)
as_worker (answer _) w next = next

module _ (worker_token : Option Text) (o : ObjectStore) (f : Float) {O S : Type 0}
    (q : Transport f.F O S) (lease_seconds : ℕ) where
  -- A claim, for the next job or for one job; without a lease the answer has no content. `token`
  -- is the fresh lease token.
  unfoldable pub claim_response :
      Engine → Option ℕ → Text → ℕ → World o q → Outcome (Option (JobLease O)) × World o q
  unfolding claim
  claim_response e requested_job_id token now w =
      let (lease, s) = claim f e requested_job_id token lease_seconds now w.queue in
      (answer lease, record w { queue = s })

  unfoldable pub worker_claim_next :
      Engine → Headers → Text → ℕ → World o q → Outcome (Option (JobLease O)) × World o q
  unfolding authenticate_worker claim_response
  worker_claim_next e headers token now w =
      as_worker (authenticate_worker worker_token headers) w (claim_response e none token now w)

  unfoldable pub worker_claim_job :
      Engine → Headers → ℕ → Text → ℕ → World o q → Outcome (Option (JobLease O)) × World o q
  unfolding authenticate_worker claim_response
  worker_claim_job e headers job_id token now w =
      as_worker (authenticate_worker worker_token headers) w
        (claim_response e (some job_id) token now w)

  abbrev pub lease_token_of : Option Text → Outcome Text
  lease_token_of none = failed unauthorized
  lease_token_of (some token) = answer token

  abbrev pub active_key : Option Text → Outcome Text
  active_key none = failed conflict
  active_key (some key) = answer key

  abbrev pub content_of : Option Bytes → Outcome Bytes
  content_of none = failed failure
  content_of (some content) = answer content

  unfoldable pub worker_input : Headers → ℕ → ℕ → World o q → Outcome Bytes
  unfolding authenticate_worker input_key
  worker_input headers job_id now w = and_then (authenticate_worker worker_token headers) (λ _.
      and_then
        (lease_token_of
          (kept (λ token. not (is_empty token)) (headers (text "x-seiza-lease-token"))))
        (λ lease_token.
          and_then (active_key (input_key job_id lease_token now w.queue))
            (λ object_key. content_of (o.get object_key w.objects))))

  unfoldable pub worker_heartbeat : Headers → ℕ → Text → ℕ → World o q → Outcome Bool × World o q
  unfolding authenticate_worker heartbeat
  worker_heartbeat headers job_id lease_token now w =
      as_worker (authenticate_worker worker_token headers) w (
        let (active, s) = heartbeat job_id lease_token lease_seconds now w.queue in
        (answer active, record w { queue = s }))

  abbrev pub valid_solution : (S → Bool) → Option S → Bool
  valid_solution is_valid none = true
  valid_solution is_valid (some solution) = is_valid solution

  abbrev pub accepted_completion :
      QueueResult Bool × Store f.F O S → World o q → Outcome Bool × World o q
  accepted_completion (refused e, s) w = (failed bad_request, record w { queue = s })
  accepted_completion (stored accepted, s) w = (answer accepted, record w { queue = s })

  -- `is_valid` is whether `SolutionResponse::validate` accepts.
  unfoldable pub worker_complete :
      (S → Bool) → Headers → ℕ → WorkerCompletion S → ℕ → World o q → Outcome Bool × World o q
  unfolding authenticate_worker complete
  worker_complete is_valid headers job_id completion now w =
      as_worker (authenticate_worker worker_token headers) w (
        if valid_solution is_valid completion.solution
        then accepted_completion
            (complete job_id completion.lease_token completion.solution completion.error now
              w.queue)
            w
        else (failed bad_request, w))

-- What the solver returns, an error as its text.
pub data Solved (S : Type 0) : Type 0 where
  solved : S → Solved S
  unsolved : Text → Solved S

module _ (o : ObjectStore) {W O S : Type 0} (q : Transport W O S)
    (solve : Bytes → Text → O → Solved S) (unreadable : Text) where
  -- An object that cannot be read is an error like those of the solver.
  abbrev pub solve_object : JobLease O → Option Bytes → Solved S
  solve_object lease none = unsolved unreadable
  solve_object lease (some bytes) = solve bytes lease.original_filename lease.options

  abbrev pub completion_of : Text → Solved S → WorkerCompletion S
  completion_of lease_token (solved solution) = record {
    lease_token = lease_token;
    solution = some solution;
    error = none;
  }
  completion_of lease_token (unsolved error) = record {
    lease_token = lease_token;
    solution = none;
    error = some error;
  }

  abbrev pub completing : JobLease O → ℕ → WorkerCompletion S → World o q → World o q
  completing lease now completion w = record w {
    queue =
        (complete lease.job_id completion.lease_token completion.solution completion.error now
          w.queue).1;
  }

  abbrev pub with_input : JobLease O → ℕ → Option Text → World o q → World o q
  with_input lease later none w = w
  with_input lease later (some object_key) w =
      completing lease later
        (completion_of lease.lease_token (solve_object lease (o.get object_key w.objects))) w

  -- `later` is the clock when the solver is done. Errors are only logged.
  unfoldable pub run_embedded_job : ℕ → ℕ → JobLease O → World o q → World o q
  unfolding input_key complete
  run_embedded_job now later lease w =
      with_input lease later (input_key lease.job_id lease.lease_token now w.queue) w

module _ {o : ObjectStore} {W O S : Type 0} (q : Transport W O S) where
  abbrev pub published : ℕ → ℕ → Option (Unit {0}) × q.State → World o q → World o q
  published now job_id (none, sent) w = record w { sent = sent }
  published now job_id (some _, sent) w = record w {
    sent = sent;
    queue = mark_notification_delivered job_id now w.queue;
  }

  -- The notice of a job that is not there is discarded.
  abbrev pub dispatched : ℕ → ℕ → Option (JobRecord W O S) → World o q → World o q
  dispatched now job_id none w = record w { queue = mark_notification_delivered job_id now w.queue }
  dispatched now job_id (some job) w = published now job_id (q.publish job w.sent) w

  unfoldable pub dispatch_all : ℕ → List ℕ → World o q → World o q
  unfolding get mark_notification_delivered
  dispatch_all now [] w = w
  dispatch_all now (job_id ∷ job_ids) w =
      dispatch_all now job_ids (dispatched now job_id (get job_id w.queue) w)

  abbrev pub with_pending : ℕ → QueueResult (List ℕ) × Store W O S → World o q → World o q
  with_pending now (refused e, s) w = w
  with_pending now (stored job_ids, s) w = dispatch_all now job_ids (record w { queue = s })

  -- One round of the loop.
  unfoldable pub dispatch_outbox : Engine → ℕ → World o q → World o q
  unfolding pending_notifications dispatch_all
  dispatch_outbox e now w = with_pending now (pending_notifications e 100 now w.queue) w
