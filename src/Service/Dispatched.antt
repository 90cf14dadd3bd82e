-- ===== src/Service/Dispatched.antt =====
-- The embedded worker and the dispatcher of src/api.rs: proofs about `run_embedded_job` and
-- `dispatch_outbox`.
use mathlib.Core.List.{Memᴰ}
use seiza_server.Base.{
  ℕ, ◌≤◌, ◌<◌, ◌≡◌, ◌⊎◌, refl, subst, inl, inr, Bool, true, false, ◌&&◌, Option, none, some, List,
  [], ◌∷◌, arith, Text, ◌==◌, is_none, is_some, find, All, All-map, Bool-cases, if◌then◌else◌,
}
use seiza_server.Queue.Rows.{
  JobRecord, JobLease, Row, Notice, Store, Result as QueueResult, ok as stored, err as refused,
}
use seiza_server.Queue.Leases.{holds, input_key, finished}
use seiza_server.Queue.Lookup.{row_of, id-row_of}
use seiza_server.Queue.Invariant.{IsValid}
use seiza_server.Queue.Exclusion.{HeldBy, HeldBy-test, id-holds, holder_completes}
use seiza_server.Queue.Updates.{All-update_where}
use seiza_server.Queue.Sql.{Engine}
use seiza_server.Queue.Jobs.{get, pending_notifications, mark_notification_delivered}
use seiza_server.Identity.Spent.{everything, All-update_both}
use seiza_server.Uploads.Storage.{Bytes, ObjectStore}
use seiza_server.Service.World.{Transport, World}
use seiza_server.Service.Workers.{
  Solved, solved, unsolved, solve_object, completion_of, completing, with_input, run_embedded_job,
  published, dispatched, dispatch_all, with_pending, dispatch_outbox,
}

module _ {W O S : Type 0} where
  find_held :
      (test : Row W O S → Bool) (j : ℕ) (xs : List (Row W O S)) (r : Row W O S)
      → ((x : Row W O S) → test x ≡ true → x.id ≡ j)
      → row_of j xs ≡ some r
      → test r ≡ true
      → (x : Row W O S) × (find test xs ≡ some x)
  find_held test j [] r asks h passed = cc
  find_held test j (x ∷ xs) r asks h passed = elim (Bool-cases (x.id == j)) [
    | inl hit ↦ let passes : test x ≡ true = ground arith in (x, rw passes refl)
    | inr miss ↦ elim (Bool-cases (test x)) [
      | inl e ↦ (x, rw e refl)
      | inr e ↦ let (y, found) = find_held test j xs r asks (ground arith) passed in (y, rw e found)
    ]
  ]

module _ (o : ObjectStore) {W O S : Type 0} (q : Transport W O S)
    (solve : Bytes → Text → O → Solved S) (unreadable : Text) where
  -- The job's row is the leased one with an outcome and no lease.
  abbrev pub Ended : JobLease O → ℕ → Row W O S → World o q → Type 0
  Ended lease later r w =
      (solution : Option S) × (error : Option Text) × ((is_none solution && is_none error) ≡ false)
      × (row_of lease.job_id w.queue.jobs ≡ some (finished solution error later r))

  some_outcome :
      (token : Text) (x : Solved S)
      → (is_none (completion_of o q solve unreadable token x).solution
          && is_none (completion_of o q solve unreadable token x).error)
        ≡ false
  some_outcome token (solved s) = refl
  some_outcome token (unsolved e) = refl

  completing-Ended :
      (lease : JobLease O) (later until : ℕ) (x : Solved S) (r : Row W O S) (w : World o q)
      → IsValid w.queue
      → row_of lease.job_id w.queue.jobs ≡ some r
      → HeldBy lease.lease_token until r
      → later < until
      → Ended lease later r (
          completing o q solve unreadable lease later
            (completion_of o q solve unreadable lease.lease_token x)
            w)
  completing-Ended lease later until (solved s) r w v h held early = (
    some s,
    none,
    refl,
    (holder_completes w.queue lease.job_id later until lease.lease_token r (some s) none v h held
        early refl).1,
  )
  completing-Ended lease later until (unsolved e) r w v h held early = (
    none,
    some e,
    refl,
    (holder_completes w.queue lease.job_id later until lease.lease_token r none (some e) v h held
        early refl).1,
  )

  with_input-Ended :
      (lease : JobLease O) (later until : ℕ) (key : Option Text) (r : Row W O S) (w : World o q)
      → is_some key ≡ true
      → IsValid w.queue
      → row_of lease.job_id w.queue.jobs ≡ some r
      → HeldBy lease.lease_token until r
      → later < until
      → Ended lease later r (with_input o q solve unreadable lease later key w)
  with_input-Ended lease later until none r w is v h held early = cc
  with_input-Ended lease later until (some key) r w is v h held early =
      completing-Ended lease later until
        (solve_object o q solve unreadable lease (o.get key w.objects)) r w v h held early

  is_some-input_key :
      (lease : JobLease O) (now until : ℕ) (r : Row W O S) (s : Store W O S)
      → row_of lease.job_id s.jobs ≡ some r
      → HeldBy lease.lease_token until r
      → now < until
      → is_some (input_key lease.job_id lease.lease_token now s) ≡ true
  unfolding input_key
  is_some-input_key lease now until r s h held early =
      let (x, found) =
        find_held (holds lease.job_id lease.lease_token now) lease.job_id s.jobs r
          (λ x. id-holds lease.job_id lease.lease_token now x) h
          (HeldBy-test lease.job_id lease.lease_token until now r
            (id-row_of lease.job_id s.jobs r h) early held) in
      rw found refl

-- If the embedded worker holds the lease of a job and the lease runs out only after the solver has
-- returned, then the job ends: whatever the solver returns, and whether or not the input can be read,
-- its row then has a solution or an error and no lease. The store satisfies its invariant.
pub run_embedded_job-Ended :
    (o : ObjectStore) {W O S : Type 0} (q : Transport W O S) (solve : Bytes → Text → O → Solved S)
    (unreadable : Text) (now later until : ℕ) (lease : JobLease O) (r : Row W O S) (w : World o q)
    → IsValid w.queue
    → row_of lease.job_id w.queue.jobs ≡ some r
    → HeldBy lease.lease_token until r
    → now ≤ later
    → later < until
    → Ended o q solve unreadable lease later r
        (run_embedded_job o q solve unreadable now later lease w)
unfolding run_embedded_job
run_embedded_job-Ended o q solve unreadable now later until lease r w v h held order early =
    with_input-Ended o q solve unreadable lease later until
      (input_key lease.job_id lease.lease_token now w.queue) r w
      (is_some-input_key o q solve unreadable lease now until r w.queue h held (omega arith)) v h
      held early

-- No notice of the job is pending.
abbrev pub Settled : {W O S : Type 0} → ℕ → Store W O S → Type 0
Settled job_id s = All (λ n. n.job_id ≡ job_id → is_none n.delivered_at ≡ false) s.outbox

module _ {W O S : Type 0} where
  mark-Settled :
      (now job_id : ℕ) (s : Store W O S) → Settled job_id (mark_notification_delivered job_id now s)
  unfolding mark_notification_delivered
  mark-Settled now job_id s =
      All-update_both (λ n. Unit {0})
        (λ (n : Notice). n.job_id ≡ job_id → is_none n.delivered_at ≡ false)
        (λ n. n.job_id == job_id) (λ n. record n { delivered_at = some now }) s.outbox
        (λ n hit u e. refl) (λ n miss u e. ground (arith, miss, e)) (everything s.outbox)

  mark_keeps-Settled :
      (now job_id other : ℕ) (s : Store W O S)
      → Settled other s
      → Settled other (mark_notification_delivered job_id now s)
  unfolding mark_notification_delivered
  mark_keeps-Settled now job_id other s h =
      All-update_where (λ (n : Notice). n.job_id ≡ other → is_none n.delivered_at ≡ false)
        (λ n. n.job_id == job_id) (λ n. record n { delivered_at = some now }) (λ n k hit e. refl)
        s.outbox h

All-or_later :
    (P : ℕ → Type 0) (j : ℕ) (xs : List ℕ) (b : Bool) (is : List ℕ)
    → All (λ i. P i ⊎ Memᴰ i xs) is
    → All (λ i. P i ⊎ Memᴰ i (if b then j ∷ xs else xs)) is
All-or_later P j xs false is h = h
All-or_later P j xs true is h = All-map weaken is h
  where
    weaken : (i : ℕ) → P i ⊎ Memᴰ i xs → P i ⊎ Memᴰ i (j ∷ xs)
    weaken i (inl h) = inl h
    weaken i (inr m) = inr (Memᴰ.tail m)

module _ {o : ObjectStore} {W O S : Type 0} (q : Transport W O S) where
  -- The job of a notice is there, and its publication fails.
  abbrev refuses : Option (JobRecord W O S) → World o q → Bool
  refuses none w = false
  refuses (some job) w = is_none (q.publish job w.sent).0

  -- The jobs of a round whose publication fails when its turn comes.
  abbrev pub undelivered : ℕ → List ℕ → World o q → List ℕ
  undelivered now [] w = []
  undelivered now (job_id ∷ job_ids) w =
      let job = get job_id w.queue in
      let later = undelivered now job_ids (dispatched q now job_id job w) in
      if refuses job w then job_id ∷ later else later

  published-Settled :
      (now job_id : ℕ) (p : Option (Unit {0}) × q.State) (w : World o q)
      → is_none p.0 ≡ false
      → Settled job_id (published q now job_id p w).queue
  published-Settled now job_id (none, s) w h = cc
  published-Settled now job_id (some x, s) w h = mark-Settled now job_id w.queue

  dispatched-Settled :
      (now job_id : ℕ) (job : Option (JobRecord W O S)) (w : World o q)
      → refuses job w ≡ false
      → Settled job_id (dispatched q now job_id job w).queue
  dispatched-Settled now job_id none w h = mark-Settled now job_id w.queue
  dispatched-Settled now job_id (some job) w h =
      published-Settled now job_id (q.publish job w.sent) w h

  dispatched_keeps-Settled :
      (now job_id other : ℕ) (job : Option (JobRecord W O S)) (w : World o q)
      → Settled other w.queue
      → Settled other (dispatched q now job_id job w).queue
  dispatched_keeps-Settled now job_id other none w h = mark_keeps-Settled now job_id other w.queue h
  dispatched_keeps-Settled now job_id other (some job) w h = by (q.publish job w.sent)
    where
      by : (p : Option (Unit {0}) × q.State) → Settled other (published q now job_id p w).queue
      by (none, s) = h
      by (some x, s) = mark_keeps-Settled now job_id other w.queue h

  dispatch_keeps-Settled :
      (now other : ℕ) (job_ids : List ℕ) (w : World o q)
      → Settled other w.queue
      → Settled other (dispatch_all q now job_ids w).queue
  unfolding dispatch_all
  dispatch_keeps-Settled now other [] w h = h
  dispatch_keeps-Settled now other (job_id ∷ job_ids) w h =
      dispatch_keeps-Settled now other job_ids (dispatched q now job_id (get job_id w.queue) w)
        (dispatched_keeps-Settled now job_id other (get job_id w.queue) w h)

  -- After the round there is no pending notice of the job, or its publication failed in the round.
  abbrev pub Handled : ℕ → List ℕ → World o q → ℕ → Type 0
  Handled now job_ids w job_id =
      Settled job_id (dispatch_all q now job_ids w).queue ⊎ Memᴰ job_id (undelivered now job_ids w)

  dispatch_all-Handled :
      (now : ℕ) (job_ids : List ℕ) (w : World o q) → All (Handled now job_ids w) job_ids
  unfolding dispatch_all
  dispatch_all-Handled now [] w = tt
  dispatch_all-Handled now (job_id ∷ job_ids) w =
      let next = dispatched q now job_id (get job_id w.queue) w in
      let others = dispatch_all-Handled now job_ids next in
      (
        elim (Bool-cases (refuses (get job_id w.queue) w)) [
          | inl e ↦ inr (rw e (Memᴰ.head refl))
          | inr e ↦ inl (
              dispatch_keeps-Settled now job_id job_ids next
                (dispatched-Settled now job_id (get job_id w.queue) w e))
        ],
        All-or_later (λ i. Settled i (dispatch_all q now job_ids next).queue) job_id
            (undelivered now job_ids next) (refuses (get job_id w.queue) w) job_ids others,
      )

stored_injective : {A : Type 0} (x y : A) → stored x ≡ stored y → x ≡ y
stored_injective x y h = cc

-- Of each job whose notice a round of the dispatcher has read, no notice is pending after the round,
-- unless the job's own publication failed when its turn in the round came.
pub dispatch_outbox-Settled :
    {o : ObjectStore} {W O S : Type 0} (q : Transport W O S) (e : Engine) (now : ℕ)
    (job_ids : List ℕ) (w : World o q)
    → (pending_notifications e 100 now w.queue).0 ≡ stored job_ids
    → All
        (λ job_id.
          Settled job_id (dispatch_outbox q e now w).queue
          ⊎ Memᴰ job_id (
              undelivered q now job_ids
                (record w { queue = (pending_notifications e 100 now w.queue).1 })))
        job_ids
unfolding dispatch_outbox
dispatch_outbox-Settled {W = W} {O = O} {S = S} q e now job_ids w =
    by (pending_notifications e 100 now w.queue)
  where
    by :
        (r : QueueResult (List ℕ) × Store W O S)
        → r.0 ≡ stored job_ids
        → All
            (λ job_id.
              Settled job_id (with_pending q now r w).queue
              ⊎ Memᴰ job_id (undelivered q now job_ids (record w { queue = r.1 })))
            job_ids
    by (refused x, s) h = cc
    by (stored ids, s) h =
        subst
          (λ (read : List ℕ).
            All
              (λ job_id.
                Settled job_id (dispatch_all q now ids (record w { queue = s })).queue
                ⊎ Memᴰ job_id (undelivered q now read (record w { queue = s })))
              read)
          (stored_injective ids job_ids h) (dispatch_all-Handled q now ids (record w { queue = s }))
