-- ===== src/Delivery/Polling.antt =====
-- The weighted polling of two queues in src/worker.rs. A weight is below 2 ^ 64 - 1, so that no sum
-- wraps.
use seiza_server.Base.{ℕ, ◌+◌, ◌-◌, ◌^◌, ◌%◌, min, max, Bool, true, false, Text, ltb, if◌then◌else◌}

pub data SqsQueueClass : Type 0 where
  priority normal : SqsQueueClass

pub record SqsQueueSchedule : Type 0 where
  pub priority_weight : ℕ
  pub cursor : ℕ

unfoldable pub new_schedule : ℕ → SqsQueueSchedule
new_schedule priority_weight = record { priority_weight = max priority_weight 1; cursor = 0 }

unfoldable pub next_class : SqsQueueSchedule → SqsQueueClass × SqsQueueSchedule
next_class s = (
  if ltb s.cursor s.priority_weight then priority else normal,
  record s { cursor = (s.cursor + 1) % (s.priority_weight + 1) },
)

-- What one receive from a queue returns.
pub data Received (M : Type 0) : Type 0 where
  received : M → Received M
  nothing failed : Received M

-- `SqsMessageReceiver`: the queue's URL, the visibility timeout and the waiting time in seconds.
pub record Receiver (M : Type 0) : Type 1 where
  pub State : Type 0
  pub receive_sqs_message : Text → ℕ → ℕ → State → Received M × State

abbrev pub sqs_priority_poll_seconds : ℕ
sqs_priority_poll_seconds = 2

abbrev pub other_class : SqsQueueClass → SqsQueueClass
other_class priority = normal
other_class normal = priority

abbrev pub url_of : SqsQueueClass → Text → Text → Text
url_of priority normal_queue_url priority_queue_url = priority_queue_url
url_of normal normal_queue_url priority_queue_url = normal_queue_url

module _ {M : Type 0} where
  -- `succeeded` says whether the receive from the preferred queue returned without an error.
  abbrev pub after_fallback : Bool → SqsQueueClass → Received M → Received (SqsQueueClass × M)
  after_fallback succeeded fallback (received m) = received (fallback, m)
  after_fallback succeeded fallback nothing = nothing
  after_fallback true fallback failed = nothing
  after_fallback false fallback failed = failed

  module _ (sqs : Receiver M) where
    abbrev pub poll : SqsQueueClass → Text → Text → ℕ → sqs.State → Received M × sqs.State
    poll class normal_queue_url priority_queue_url visibility_timeout q =
        sqs.receive_sqs_message (url_of class normal_queue_url priority_queue_url)
          visibility_timeout sqs_priority_poll_seconds q

    abbrev pub fall_back :
        SqsQueueClass → Bool → Received M × sqs.State → Received (SqsQueueClass × M) × sqs.State
    fall_back class succeeded (r, q) = (after_fallback succeeded class r, q)

    abbrev pub after_preferred :
        SqsQueueClass
        → Received M × sqs.State
        → (sqs.State → Received M × sqs.State)
        → Received (SqsQueueClass × M) × sqs.State
    after_preferred class (received m, q) fallback = (received (class, m), q)
    after_preferred class (nothing, q) fallback = fall_back (other_class class) true (fallback q)
    after_preferred class (failed, q) fallback = fall_back (other_class class) false (fallback q)

    -- The message with the class of the queue that it is from, and the schedule and the queues
    -- after it.
    unfoldable pub receive_weighted_sqs_message :
        Text
        → Text
        → SqsQueueSchedule
        → ℕ
        → sqs.State
        → Received (SqsQueueClass × M) × SqsQueueSchedule × sqs.State
    unfolding next_class
    receive_weighted_sqs_message normal_queue_url priority_queue_url schedule visibility_timeout q =
        let (class, later) = next_class schedule in
        let (r, q') =
          after_preferred class
            (poll class normal_queue_url priority_queue_url visibility_timeout q)
            (λ p.
              poll (other_class class) normal_queue_url priority_queue_url visibility_timeout p) in
        (r, later, q')

abbrev pub worker_heartbeat_seconds : ℕ
worker_heartbeat_seconds = 60

abbrev pub sqs_max_visibility_seconds : ℕ
sqs_max_visibility_seconds = 43200

-- `saturating_add`, `clamp` and the cast to `i32`, which holds every clamped value.
unfoldable pub sqs_visibility_timeout : ℕ → ℕ
sqs_visibility_timeout lease_seconds =
    min (max (min (lease_seconds + worker_heartbeat_seconds) (2 ^ 64 - 1)) 1)
      sqs_max_visibility_seconds
