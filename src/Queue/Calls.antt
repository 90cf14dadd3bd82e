-- ===== src/Queue/Calls.antt =====
-- The repository under a history of calls: each call is one transaction, at a time of its own.
use seiza_server.Base.{ℕ, Option, List, [], ◌∷◌, Text}
use seiza_server.Queue.Rows.{JobRecord, Store, ValidationDonation}
use seiza_server.Queue.Sql.{Engine, Float}
use seiza_server.Queue.Leases.{claim, heartbeat, complete}
use seiza_server.Queue.Jobs.{
  enqueue, donate_validation, pending_notifications, mark_notification_delivered,
}

-- The calls of the trait `JobRepository` that write.
pub data Call (W O S : Type 0) : Type 0 where
  enqueues : JobRecord W O S → Call W O S
  claims : Option ℕ → Text → ℕ → Call W O S
  heartbeats : ℕ → Text → ℕ → Call W O S
  completes : ℕ → Text → Option S → Option Text → Call W O S
  donates : ℕ → ValidationDonation → Call W O S
  polls : ℕ → Call W O S
  delivers : ℕ → Call W O S

module _ (f : Float) (e : Engine) {O S : Type 0} where
  unfoldable pub step : ℕ → Call f.F O S → Store f.F O S → Store f.F O S
  step now (enqueues job) s = (enqueue job s).1
  step now (claims requested token lease_seconds) s =
      (claim f e requested token lease_seconds now s).1
  step now (heartbeats job_id token lease_seconds) s =
      (heartbeat job_id token lease_seconds now s).1
  step now (completes job_id token solution error) s =
      (complete job_id token solution error now s).1
  step now (donates job_id donation) s = (donate_validation job_id donation s).1
  step now (polls limit) s = (pending_notifications e limit now s).1
  step now (delivers job_id) s = mark_notification_delivered job_id now s

  unfoldable pub run : List (ℕ × Call f.F O S) → Store f.F O S → Store f.F O S
  run [] s = s
  run ((now, c) ∷ cs) s = run cs (step now c s)

  -- What every call keeps, every history keeps.
  pub run-keeps :
      (P : Store f.F O S → Type 0)
      → ((now : ℕ) (c : Call f.F O S) (s : Store f.F O S) → P s → P (step now c s))
      → (cs : List (ℕ × Call f.F O S)) (s : Store f.F O S) → P s
      → P (run cs s)
  unfolding run
  run-keeps P keep [] s h = h
  run-keeps P keep ((now, c) ∷ cs) s h = run-keeps P keep cs (step now c s) (keep now c s h)

abbrev pub empty : (W O S : Type 0) → Store W O S
empty W O S = record { jobs = []; donations = []; clients = []; outbox = [] }
