-- ===== src/Delivery/Turns.antt =====
-- Proofs about the polling of two queues in src/worker.rs.
use native.Mathlib.Nat.{mod-eq_of_lt, mod-lt, mod_self}
use seiza_server.Base.{
  ℕ, zero, suc, ◌+◌, ◌%◌, ◌≤◌, ◌<◌, ◌≡◌, ◌↔◌, refl, inl, inr, min, true, false, Text, arith, ltb,
  if◌then◌else◌, Bool-cases,
}
use seiza_server.Delivery.Polling.{
  SqsQueueClass, priority, normal, SqsQueueSchedule, new_schedule, next_class, Received, received,
  nothing, failed, Receiver, other_class, poll, after_preferred, after_fallback,
  receive_weighted_sqs_message, sqs_visibility_timeout,
}

abbrev normal_count : SqsQueueClass → ℕ
normal_count priority = 0
normal_count normal = 1

-- How many of the next calls prefer the normal queue.
unfoldable pub normals : ℕ → SqsQueueSchedule → ℕ
unfolding next_class
normals zero s = 0
normals (suc calls) s = normal_count (next_class s).0 + normals calls (next_class s).1

normals_lem :
    (calls w c : ℕ)
    → c ≤ w
    → calls ≤ w + 1
    → normals calls (record { priority_weight = w; cursor = c })
      ≡ (if ltb w (c + calls) then 1 else 0)
unfolding normals
normals_lem zero w c h k = ground arith
normals_lem (suc calls) w c h k = elim (Bool-cases (ltb c w)) [
  | inl e ↦
      let inside : c + 1 < w + 1 = ground (arith, e) in
      rw e (
        rw (mod-eq_of_lt {n = c + 1} {m = w + 1} inside)
          (ground (arith, normals_lem calls w (c + 1) (omega arith) (omega arith))))
  | inr e ↦
      let last : c ≡ w = ground (arith, e) in
      let wraps : (c + 1) % (w + 1) ≡ 0 = rw last (mod_self (w + 1)) in
      rw e (rw wraps (ground (arith, last, normals_lem calls w 0 (omega arith) (omega arith))))
]

-- Of as many calls in a row as the priority queue weighs, and one more, exactly one prefers the
-- normal queue, from wherever in its round the schedule is.
pub normals_in_round :
    (s : SqsQueueSchedule) → s.cursor ≤ s.priority_weight → normals (s.priority_weight + 1) s ≡ 1
normals_in_round s h =
    let n = normals_lem (s.priority_weight + 1) s.priority_weight s.cursor h (omega arith) in
    ground (arith, n)

-- A new schedule starts a round, and every call stays in one.
pub next_class_in_round :
    (w : ℕ) (s : SqsQueueSchedule)
    → ((new_schedule w).cursor ≤ (new_schedule w).priority_weight)
      × ((next_class s).1.cursor ≤ (next_class s).1.priority_weight)
      × ((next_class s).1.priority_weight ≡ s.priority_weight)
unfolding new_schedule next_class
next_class_in_round w s = (
  omega arith,
  omega (arith, mod-lt (s.cursor + 1) {m = s.priority_weight + 1} (omega arith)),
  refl,
)

module _ {M : Type 0} (sqs : Receiver M) where
  after_preferred_failed :
      (class : SqsQueueClass) (r : Received M × sqs.State)
      (fallback : sqs.State → Received M × sqs.State)
      → ((after_preferred sqs class r fallback).0 ≡ failed)
        ↔ ((r.0 ≡ failed) × ((fallback r.1).0 ≡ failed))
  after_preferred_failed class (received m, q) fallback = (λ h. cc, λ h. cc (h.0))
  after_preferred_failed class (nothing, q) fallback = (λ h. quiet (fallback q).0 h, λ h. cc (h.0))
    where
      quiet :
          (r : Received M)
          → after_fallback true (other_class class) r ≡ failed
          → (◌≡◌ {A = Received M} nothing failed) × (r ≡ failed)
      quiet (received m) h = cc
      quiet nothing h = cc
      quiet failed h = cc
  after_preferred_failed class (failed, q) fallback =
      (λ h. (refl, loud (fallback q).0 h), λ h. rw h.1 refl)
    where
      loud : (r : Received M) → after_fallback false (other_class class) r ≡ failed → r ≡ failed
      loud (received m) h = cc
      loud nothing h = cc
      loud failed h = refl

module _ {M : Type 0} (sqs : Receiver M) (normal_queue_url priority_queue_url : Text)
    (s : SqsQueueSchedule) (visibility_timeout : ℕ) (q : sqs.State) where
  abbrev pub first_poll : Received M × sqs.State
  first_poll = poll sqs (next_class s).0 normal_queue_url priority_queue_url visibility_timeout q

  abbrev pub second_poll : Received M × sqs.State
  second_poll =
      poll sqs (other_class (next_class s).0) normal_queue_url priority_queue_url visibility_timeout
        first_poll.1

  -- A call reports an error exactly when the receives from both queues fail, so one queue that is
  -- out of order does not stop a worker.
  pub receive_weighted_sqs_message-failed :
      ((receive_weighted_sqs_message sqs normal_queue_url priority_queue_url s visibility_timeout
          q).0
        ≡ failed)
      ↔ ((first_poll.0 ≡ failed) × (second_poll.0 ≡ failed))
  unfolding receive_weighted_sqs_message
  receive_weighted_sqs_message-failed = after_preferred_failed sqs (next_class s).0 first_poll (λ p.
      poll sqs (other_class (next_class s).0) normal_queue_url priority_queue_url visibility_timeout
        p)

-- The visibility timeout is from 1 second to 12 hours, and within that as long as a lease.
pub sqs_visibility_timeout_bounds :
    (lease_seconds : ℕ)
    → (1 ≤ sqs_visibility_timeout lease_seconds)
      × (sqs_visibility_timeout lease_seconds ≤ 43200)
      × (min lease_seconds 43200 ≤ sqs_visibility_timeout lease_seconds)
unfolding sqs_visibility_timeout
sqs_visibility_timeout_bounds lease_seconds = (omega arith, omega arith, omega arith)
