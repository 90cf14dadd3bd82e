-- ===== src/Queue/History.antt =====
-- Proofs about histories of calls of src/repository.rs.
use seiza_server.Base.{
  ℕ, ◌≡◌, refl, ap, ◌∙◌, true, false, Option, none, some, List, [], ◌∷◌, arith, Text,
}
use seiza_server.Queue.Rows.{is_terminal, Row, Store}
use seiza_server.Queue.Sql.{Engine, Float}
use seiza_server.Queue.Leases.{has_expired, holds}
use seiza_server.Queue.Jobs.{mark_notification_delivered}
use seiza_server.Queue.Lookup.{row_of}
use seiza_server.Queue.Calls.{
  Call, enqueues, claims, heartbeats, completes, donates, polls, delivers, step, run, run-keeps,
}
use seiza_server.Queue.Invariant.{
  IsValid, enqueue-IsValid, claim-IsValid, heartbeat-IsValid, complete-IsValid, donate-IsValid,
  pending-IsValid, delivered-IsValid,
}
use seiza_server.Queue.Lifecycle.{
  RowStep, releases, starts, renews, finishes, Reach, here, next, Follows, Follows-refl,
  enqueue-Follows, donate-Follows, pending-Follows, claim-Follows, heartbeat-Follows,
  complete-Follows, find-Follows,
}

-- The lease token that a call shows.
abbrev pub shown : {W O S : Type 0} → Call W O S → Option Text
shown (heartbeats job_id token lease_seconds) = some token
shown (completes job_id token solution error) = some token
shown _ = none

module _ (f : Float) (e : Engine) {O S : Type 0} where
  pub step-IsValid :
      (now : ℕ) (c : Call f.F O S) (s : Store f.F O S) → IsValid s → IsValid (step f e now c s)
  unfolding step
  step-IsValid now (enqueues job) s v = enqueue-IsValid job s v
  step-IsValid now (claims requested token n) s v = claim-IsValid f e requested token n now s v
  step-IsValid now (heartbeats j token n) s v = heartbeat-IsValid j token n now s v
  step-IsValid now (completes j token solution error) s v =
      complete-IsValid j token solution error now s v
  step-IsValid now (donates j donation) s v = donate-IsValid j donation s v
  step-IsValid now (polls limit) s v = pending-IsValid e limit now s v
  step-IsValid now (delivers j) s v = delivered-IsValid j now s v

  -- Whatever calls were made, at whatever times, a store that satisfies the invariant still does.
  pub run-IsValid :
      (cs : List (ℕ × Call f.F O S)) (s : Store f.F O S) → IsValid s → IsValid (run f e cs s)
  run-IsValid cs s v = run-keeps f e IsValid step-IsValid cs s v

  step-Follows :
      (now : ℕ) (c : Call f.F O S) (s : Store f.F O S)
      → IsValid s
      → Follows now (shown c) s.jobs (step f e now c s).jobs
  unfolding step mark_notification_delivered
  step-Follows now (enqueues job) s v = enqueue-Follows now job s
  step-Follows now (claims requested token n) s v = claim-Follows f e requested token n now s v.ids
  step-Follows now (heartbeats j token n) s v = heartbeat-Follows j token n now s
  step-Follows now (completes j token solution error) s v =
      complete-Follows j token solution error now s
  step-Follows now (donates j donation) s v = donate-Follows now j donation s
  step-Follows now (polls limit) s v = pending-Follows e limit now s v.ids
  step-Follows now (delivers j) s v = Follows-refl now none s.jobs

  -- In every call, the row of a job goes on by transitions of the row state machine, made at the
  -- time of the call and with the lease token that the call shows; no job is lost.
  pub step-row_of :
      (now : ℕ) (c : Call f.F O S) (s : Store f.F O S) (j : ℕ) (r : Row f.F O S)
      → IsValid s
      → row_of j s.jobs ≡ some r
      → (q : Row f.F O S) × (row_of j (step f e now c s).jobs ≡ some q) × Reach now (shown c) r q
  step-row_of now c s j r v h = find-Follows now (shown c) j s.jobs _ r (step-Follows now c s v) h

-- No transition leaves a terminal row.
terminal-RowStep :
    {W O S : Type 0} {now : ℕ} {token : Option Text} {r q : Row W O S}
    → RowStep now token r q
    → is_terminal r.status ≡ false
unfolding has_expired holds
terminal-RowStep (releases r h) = ground arith
terminal-RowStep (starts r lease expires h) = ground arith
terminal-RowStep (renews r j lease expires t h) = ground arith
terminal-RowStep (finishes r j lease solution error t h k) = ground arith

terminal-Reach :
    {W O S : Type 0} {now : ℕ} {token : Option Text} {r q : Row W O S}
    → Reach now token r q
    → is_terminal r.status ≡ true
    → q ≡ r
terminal-Reach here h = refl
terminal-Reach {r = r} (next {q = x} path st) h =
    let same : x ≡ r = terminal-Reach path h in
    absurd (ground (arith, ap (λ (y : Row _ _ _). is_terminal y.status) same, terminal-RowStep st))

module _ (f : Float) (e : Engine) {O S : Type 0} where
  -- The row of a job that has succeeded or failed is the same after every later history.
  pub terminal_forever :
      (cs : List (ℕ × Call f.F O S)) (s : Store f.F O S) (j : ℕ) (r : Row f.F O S)
      → IsValid s
      → row_of j s.jobs ≡ some r
      → is_terminal r.status ≡ true
      → row_of j (run f e cs s).jobs ≡ some r
  unfolding run
  terminal_forever [] s j r v h done = h
  terminal_forever ((now, c) ∷ cs) s j r v h done =
      let (q, found, path) = step-row_of f e now c s j r v h in
      terminal_forever cs (step f e now c s) j r (step-IsValid f e now c s v)
        (found ∙ ap some (terminal-Reach path done)) done
