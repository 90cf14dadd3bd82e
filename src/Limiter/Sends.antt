-- ===== src/Limiter/Sends.antt =====
-- `check_at` and `sweep` of `EmailSendRateLimiter` in src/rate_limit.rs, on the state behind its
-- lock. A map is a list of its entries.
use seiza_server.Base.{
  ℕ, ◌*◌, max, Bool, true, false, not, ◌&&◌, List, [], ◌∷◌, ◌++◌, map, Text, text_eq, leb,
  if◌then◌else◌, length, filter, any,
}
use seiza_server.Limiter.Windows.{
  SourceSend, Retry, clear, panicked, wait, recipient_cost, weighted_retry_after, count_retry_after,
  retain_recent, longer,
}

pub record EmailSendRateLimits : Type 0 where
  pub source_window : ℕ
  pub source_budget : ℕ
  pub source_daily_window : ℕ
  pub source_daily_budget : ℕ
  pub recipient_cooldown : ℕ
  pub recipient_hour_window : ℕ
  pub recipient_hour_limit : ℕ
  pub recipient_daily_window : ℕ
  pub recipient_daily_limit : ℕ
  pub global_hour_window : ℕ
  pub global_hour_limit : ℕ
  pub global_daily_window : ℕ
  pub global_daily_limit : ℕ

abbrev secs : ℕ → ℕ
secs n = n * 1000000000

abbrev pub default_limits : EmailSendRateLimits
default_limits = record {
  source_window = secs (15 * 60);
  source_budget = 3;
  source_daily_window = secs (24 * 60 * 60);
  source_daily_budget = 10;
  recipient_cooldown = secs 60;
  recipient_hour_window = secs (60 * 60);
  recipient_hour_limit = 3;
  recipient_daily_window = secs (24 * 60 * 60);
  recipient_daily_limit = 10;
  global_hour_window = secs (60 * 60);
  global_hour_limit = 100;
  global_daily_window = secs (24 * 60 * 60);
  global_daily_limit = 1000;
}

abbrev pub Entries {ℓ} : Type ℓ → Type ℓ
Entries A = List (Text × List A)

pub record EmailSendRateState : Type 0 where
  pub sources : Entries SourceSend
  pub recipients : Entries ℕ
  pub global : List ℕ

module _ {A : Type 0} where
  abbrev pub contains_key : Text → Entries A → Bool
  contains_key key m = any (λ e. text_eq e.0 key) m

  -- `get_mut` and what is done with the value, if any.
  unfoldable pub update : Text → (List A → List A) → Entries A → Entries A
  update key f [] = []
  update key f ((k, events) ∷ m) =
      let rest = update key f m in if text_eq k key then (k, f events) ∷ m else (k, events) ∷ rest

  -- `entry(key).or_default()`.
  abbrev pub or_default : Text → Entries A → Entries A
  or_default key m = if contains_key key m then m else m ++ (key, []) ∷ []

  -- `get(key)` of a key that is there.
  unfoldable pub events_of : Text → Entries A → List A
  events_of key [] = []
  events_of key ((k, events) ∷ m) =
      let rest = events_of key m in if text_eq k key then events else rest

  abbrev pub is_empty : List A → Bool
  is_empty [] = true
  is_empty (x ∷ xs) = false

  -- `retain` with `retain_recent` on every value.
  unfoldable pub retain_entries : (A → ℕ) → ℕ → ℕ → Entries A → Entries A
  unfolding retain_recent
  retain_entries at now window m =
      filter (λ e. not (is_empty e.1)) (map (λ e. (e.0, retain_recent at now window e.1)) m)

abbrev sweep_threshold_buckets : ℕ
sweep_threshold_buckets = 10000

module _ {A : Type 0} where
  -- The part of `sweep` on one map.
  unfoldable pub swept : (A → ℕ) → Text → ℕ → ℕ → Entries A → Entries A
  unfolding update retain_entries retain_recent
  swept at key now window m =
      let m' = update key (retain_recent at now window) m in
      if leb sweep_threshold_buckets (length m') && not (contains_key key m')
      then retain_entries at now window m'
      else m'

module _ (limits : EmailSendRateLimits) where
  unfoldable pub sweep : Text → Text → ℕ → EmailSendRateState → EmailSendRateState
  unfolding swept retain_recent
  sweep source recipient now s = record {
    sources =
        swept (λ event. event.at) source now (max limits.source_window limits.source_daily_window)
          s.sources;
    recipients =
        swept (λ at. at) recipient now
          (max (max limits.recipient_cooldown limits.recipient_hour_window)
            limits.recipient_daily_window)
          s.recipients;
    global =
        retain_recent (λ at. at) now (max limits.global_hour_window limits.global_daily_window)
          s.global;
  }

  -- The longest wait that a budget asks for.
  unfoldable pub retry_after : ℕ → List SourceSend → List ℕ → List ℕ → ℕ → ℕ → Retry
  unfolding weighted_retry_after count_retry_after
  retry_after now source_events recipient_events global window_cost daily_cost =
      longer
        (weighted_retry_after source_events now limits.source_window limits.source_budget
          window_cost (λ event. event.window_cost))
        (longer
          (weighted_retry_after source_events now limits.source_daily_window
            limits.source_daily_budget daily_cost (λ event. event.daily_cost))
          (longer (count_retry_after recipient_events now limits.recipient_cooldown 1) (
            longer
              (count_retry_after recipient_events now limits.recipient_hour_window
                limits.recipient_hour_limit)
              (longer
                (count_retry_after recipient_events now limits.recipient_daily_window
                  limits.recipient_daily_limit)
                (longer
                  (count_retry_after global now limits.global_hour_window limits.global_hour_limit)
                  (count_retry_after global now limits.global_daily_window
                    limits.global_daily_limit))))))

  abbrev pub charged : Text → Text → ℕ → ℕ → ℕ → EmailSendRateState → EmailSendRateState
  charged source recipient now window_cost daily_cost s = record {
    sources =
        update source
          (λ events.
            events
            ++ record {
              at = now;
              recipient = recipient;
              window_cost = window_cost;
              daily_cost = daily_cost;
            }
              ∷ [])
          s.sources;
    recipients = update recipient (λ events. events ++ now ∷ []) s.recipients;
    global = s.global ++ now ∷ [];
  }

  abbrev pub settled : Retry → EmailSendRateState → EmailSendRateState → Retry × EmailSendRateState
  settled clear s paid = (clear, paid)
  settled (wait n) s paid = (wait n, s)
  settled panicked s paid = (panicked, s)

  -- The state with an entry for both, after the sweep.
  abbrev pub entered : Text → Text → ℕ → EmailSendRateState → EmailSendRateState
  entered source recipient now s =
      let t = sweep source recipient now s in
      record t {
        sources = or_default source t.sources;
        recipients = or_default recipient t.recipients;
      }

  -- `clear` is `Ok(())`, `wait n` is `Err(n)`.
  unfoldable pub check_at : Text → Text → ℕ → EmailSendRateState → Retry × EmailSendRateState
  unfolding sweep events_of recipient_cost retry_after update
  check_at source recipient now s =
      let t = entered source recipient now s in
      let source_events = events_of source t.sources in
      let window_cost = recipient_cost source_events recipient now limits.source_window in
      let daily_cost = recipient_cost source_events recipient now limits.source_daily_window in
      settled
        (retry_after now source_events (events_of recipient t.recipients) t.global window_cost
          daily_cost)
        t (charged source recipient now window_cost daily_cost t)
