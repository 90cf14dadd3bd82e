-- ===== src/Limiter/Windows.antt =====
-- The rolling windows of src/rate_limit.rs. A time and a duration are nanoseconds; `duration_since`
-- is 0 for a later time, as subtraction is here. A `u32` sum wraps as in a release build.
use seiza_server.Base.{
  ℕ, zero, suc, ◌+◌, ◌-◌, ◌/◌, ◌%◌, ◌^◌, min, max, Bool, true, false, Option, none, some, List, [],
  ◌∷◌, Text, text_eq, ltb, leb, if◌then◌else◌, length, filter,
}

pub record SourceSend : Type 0 where
  pub at : ℕ
  pub recipient : Text
  pub window_cost : ℕ
  pub daily_cost : ℕ

-- What a budget asks of a request: nothing, or to wait for some seconds. An index out of bounds
-- panics.
pub data Retry : Type 0 where
  clear panicked : Retry
  wait : ℕ → Retry

abbrev pub in_window : ℕ → ℕ → ℕ → Bool
in_window now window at = ltb (now - at) window

abbrev pub saturating_add : ℕ → ℕ → ℕ
saturating_add a b = min (a + b) (2 ^ 32 - 1)

-- `as_secs_f64().ceil().max(1.0)`, which is exact for windows of up to a month.
unfoldable pub seconds_until_expiry : ℕ → ℕ → ℕ → ℕ
seconds_until_expiry event now window = max ((window - (now - event) + 999999999) / 1000000000) 1

unfoldable pub recent_cost : Bool → Text → List SourceSend → ℕ
recent_cost has_recent_send recipient [] = if has_recent_send then 2 else 1
recent_cost has_recent_send recipient (event ∷ events) =
    let rest = recent_cost true recipient events in
    if text_eq event.recipient recipient then 1 else rest

unfoldable pub recipient_cost : List SourceSend → Text → ℕ → ℕ → ℕ
unfolding recent_cost
recipient_cost events recipient now window =
    recent_cost false recipient (filter (λ event. in_window now window event.at) events)

unfoldable pub total_cost : (SourceSend → ℕ) → List SourceSend → ℕ
total_cost cost [] = 0
total_cost cost (event ∷ events) = (cost event + total_cost cost events) % 2 ^ 32

-- The send with which enough is released.
unfoldable pub released_at : (SourceSend → ℕ) → ℕ → ℕ → List SourceSend → Option ℕ
released_at cost needed released [] = none
released_at cost needed released (event ∷ events) =
    let rest = released_at cost needed ((released + cost event) % 2 ^ 32) events in
    if leb needed ((released + cost event) % 2 ^ 32) then some event.at else rest

abbrev pub expiry_or_window : ℕ → ℕ → Option ℕ → ℕ
expiry_or_window now window none = max (window / 1000000000) 1
expiry_or_window now window (some at) = seconds_until_expiry at now window

unfoldable pub weighted_retry_after : List SourceSend → ℕ → ℕ → ℕ → ℕ → (SourceSend → ℕ) → Retry
unfolding total_cost released_at seconds_until_expiry
weighted_retry_after events now window budget incoming_cost cost =
    let active = filter (λ event. in_window now window event.at) events in
    let asked = saturating_add (total_cost cost active) incoming_cost in
    if leb asked budget
    then clear
    else wait (expiry_or_window now window (released_at cost (asked - budget) 0 active))

unfoldable pub nth : ℕ → List ℕ → Option ℕ
nth n [] = none
nth zero (x ∷ xs) = some x
nth (suc n) (x ∷ xs) = nth n xs

abbrev pub wait_for : ℕ → ℕ → Option ℕ → Retry
wait_for now window none = panicked
wait_for now window (some at) = wait (seconds_until_expiry at now window)

unfoldable pub count_retry_after : List ℕ → ℕ → ℕ → ℕ → Retry
unfolding nth seconds_until_expiry
count_retry_after events now window limit =
    let active = filter (λ at. in_window now window at) events in
    let release_index = length active + 1 - limit in
    if ltb (length active) limit
    then clear
    else wait_for now window (nth (release_index - 1) active)

-- `retain_recent`, and `retain_recent_source` over the times of sends.
unfoldable pub retain_recent {ℓ} : {A : Type ℓ} → (A → ℕ) → ℕ → ℕ → List A → List A
retain_recent at now window [] = []
retain_recent at now window (event ∷ events) =
    let rest = retain_recent at now window events in
    if leb window (now - at event) then rest else event ∷ events

-- `into_iter().flatten().max()`; a panic while the array is built goes first.
abbrev pub longer : Retry → Retry → Retry
longer panicked r = panicked
longer clear r = r
longer (wait n) clear = wait n
longer (wait n) (wait m) = wait (max n m)
longer (wait n) panicked = panicked
