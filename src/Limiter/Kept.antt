-- ===== src/Limiter/Kept.antt =====
-- What a request adds to the sends that `EmailSendRateState` of src/rate_limit.rs has recorded.
use seiza_server.Base.{
  All, ℕ, ◌≤◌, ◌≡◌, max, List, [], arith, Text, text_eq, ◌∷◌, ◌++◌, if◌then◌else◌,
}
use seiza_server.Limiter.Windows.{SourceSend, Retry, clear, panicked, wait, recipient_cost}
use seiza_server.Limiter.Sends.{EmailSendRateLimits, EmailSendRateState, events_of}
use seiza_server.Limiter.Maps.{IsMap}
use seiza_server.Limiter.Live.{live}

module _ (limits : EmailSendRateLimits) where
  -- What an answer records: the send, if it is accepted.
  abbrev pub added : {A : Type 0} → Retry → A → List A
  added clear x = x ∷ []
  added (wait n) x = []
  added panicked x = []

  -- The send of a request. It costs what the recipient costs among the source's sends.
  abbrev pub send_of : Text → Text → ℕ → EmailSendRateState → SourceSend
  send_of source recipient now s = record {
    at = now;
    recipient = recipient;
    window_cost = recipient_cost (events_of source s.sources) recipient now limits.source_window;
    daily_cost =
        recipient_cost (events_of source s.sources) recipient now limits.source_daily_window;
  }

  -- That from one state to the next a window loses no send and has the accepted one: for
  -- every source, for every recipient and for the server.
  module _ (source recipient : Text) (now : ℕ) (s : EmailSendRateState) (answer : Retry)
      (after : EmailSendRateState) where
    abbrev pub KeepsSources : ℕ → Type 0
    KeepsSources window =
        (k : Text)
        → live (λ event. event.at) now window (events_of k after.sources)
          ≡ live (λ event. event.at) now window
              (events_of k s.sources
                ++ (if text_eq source k then added answer (send_of source recipient now s) else []))

    abbrev pub KeepsRecipients : ℕ → Type 0
    KeepsRecipients window =
        (k : Text)
        → live (λ at. at) now window (events_of k after.recipients)
          ≡ live (λ at. at) now window
              (events_of k s.recipients ++ (if text_eq recipient k then added answer now else []))

    abbrev pub KeepsGlobal : ℕ → Type 0
    KeepsGlobal window =
        live (λ at. at) now window after.global
        ≡ live (λ at. at) now window (s.global ++ added answer now)

    -- So it is in the window of each budget.
    pub record Records : Type 0 where
      pub sources : All KeepsSources (limits.source_window ∷ limits.source_daily_window ∷ [])
      pub recipients : All KeepsRecipients (
          limits.recipient_cooldown ∷ limits.recipient_hour_window ∷ limits.recipient_daily_window
          ∷ [])
      pub global : All KeepsGlobal (limits.global_hour_window ∷ limits.global_daily_window ∷ [])

  -- The keys of both maps are distinct.
  abbrev pub HasKeys : EmailSendRateState → Type 0
  HasKeys s = IsMap s.sources × IsMap s.recipients

  -- What holds of each window up to the longest holds of each budget's window.
  pub each_source :
      (P : ℕ → Type 0)
      → ((window : ℕ) → window ≤ max limits.source_window limits.source_daily_window → P window)
      → All P (limits.source_window ∷ limits.source_daily_window ∷ [])
  each_source P f =
      (f limits.source_window (omega arith), (f limits.source_daily_window (omega arith), tt))

  pub each_recipient :
      (P : ℕ → Type 0)
      → ((window : ℕ)
          → window
            ≤ max
                (max limits.recipient_cooldown limits.recipient_hour_window)
                limits.recipient_daily_window
          → P window)
      → All P (
          limits.recipient_cooldown ∷ limits.recipient_hour_window ∷ limits.recipient_daily_window
          ∷ [])
  each_recipient P f = (
    f limits.recipient_cooldown (omega arith),
    (
      f limits.recipient_hour_window (omega arith),
      (f limits.recipient_daily_window (omega arith), tt),
    ),
  )

  pub each_global :
      (P : ℕ → Type 0)
      → ((window : ℕ)
          → window ≤ max limits.global_hour_window limits.global_daily_window
          → P window)
      → All P (limits.global_hour_window ∷ limits.global_daily_window ∷ [])
  each_global P f =
      (f limits.global_hour_window (omega arith), (f limits.global_daily_window (omega arith), tt))
