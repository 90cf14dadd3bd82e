-- ===== src/Delivery/Routing.antt =====
-- `SqsTransport`, `is_priority` and `fair_queue_group_id` of src/transport.rs. `W` is the `f64` of a
-- queue weight.
use seiza_server.Base.{
  ℕ, Bool, true, false, not, ◌&&◌, ◌||◌, Option, none, some, ◌++◌, Text, text, ltb, leb, all,
  length, if◌then◌else◌,
}
use seiza_server.Queue.Rows.{JobRecord}

-- `>` on `f64` and the literal `1.0`.
pub record Weights (W : Type 0) : Type 0 where
  pub exceeds : W → W → Bool
  pub one : W

-- The two queues, and what the client's `send_message` takes: the queue's URL, the body and the
-- message group.
pub record SqsTransport : Type 1 where
  pub State : Type 0
  pub queue_url : Text
  pub priority_queue_url : Option Text
  pub send_message : Text → Text → Text → State → Option (Unit {0}) × State

abbrev pub is_ascii_alphanumeric : ℕ → Bool
is_ascii_alphanumeric c =
    (leb 48 c && leb c 57) || ((leb 65 c && leb c 90) || (leb 97 c && leb c 122))

abbrev pub is_ascii_punctuation : ℕ → Bool
is_ascii_punctuation c =
    (leb 33 c && leb c 47)
    || ((leb 58 c && leb c 64) || ((leb 91 c && leb c 96) || (leb 123 c && leb c 126)))

abbrev pub group_prefix : Text
group_prefix = text "seiza:v1:"

-- A character outside ASCII has only bytes above 127, which pass neither test.
unfoldable pub fair_queue_group_id : Text → Option Text
fair_queue_group_id owner =
    if ltb 128 (length (group_prefix ++ owner))
      || not (all (λ c. is_ascii_alphanumeric c || is_ascii_punctuation c) (group_prefix ++ owner))
    then none
    else some (group_prefix ++ owner)

abbrev pub is_priority : {W : Type 0} → Weights W → W → Bool
is_priority weights queue_weight = weights.exceeds queue_weight weights.one

abbrev pub url_for : Bool → Text → Option Text → Text
url_for true queue_url (some priority_queue_url) = priority_queue_url
url_for true queue_url none = queue_url
url_for false queue_url priority = queue_url

module _ {W O S : Type 0} (weights : Weights W) where
  unfoldable pub queue_url : SqsTransport → JobRecord W O S → Text
  queue_url t job = url_for (is_priority weights job.queue_weight) t.queue_url t.priority_queue_url

  -- `to_string` is that of a UUID.
  unfoldable pub publish :
      (ℕ → Text) → (t : SqsTransport) → JobRecord W O S → t.State → Option (Unit {0}) × t.State
  unfolding queue_url fair_queue_group_id
  publish to_string t job q = in_group (fair_queue_group_id job.owner)
    where
      in_group : Option Text → Option (Unit {0}) × t.State
      in_group none = (none, q)
      in_group (some message_group_id) =
          t.send_message (queue_url t job) (to_string job.id) message_group_id q
