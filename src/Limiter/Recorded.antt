-- ===== src/Limiter/Recorded.antt =====
-- The sends that `check_at` of src/rate_limit.rs records.
use mathlib.Core.List.{append-nil}
use seiza_server.Base.{
  ℕ, ◌≤◌, ◌≡◌, refl, max, List, [], arith, Text, text_eq, ◌++◌, ap, ◌∙◌, Bool, true, false,
  if◌then◌else◌,
}
use seiza_server.Limiter.Windows.{
  SourceSend, Retry, clear, panicked, wait, recent_cost, recipient_cost,
}
use seiza_server.Limiter.Sends.{
  EmailSendRateLimits, EmailSendRateState, events_of, sweep, charged, settled, entered,
}
use seiza_server.Limiter.Maps.{
  update-IsMap, or_default-IsMap, contains_key-or_default, events_of-or_default, events_of-add,
}
use seiza_server.Limiter.Live.{live, live-retain, live-add, live-swept, swept-IsMap}
use seiza_server.Limiter.Kept.{
  added, send_of, KeepsSources, KeepsRecipients, KeepsGlobal, Records, HasKeys, each_source,
  each_recipient, each_global,
}

module _ (limits : EmailSendRateLimits) where
  live-entered_source :
      (source recipient k : Text) (now window : ℕ) (s : EmailSendRateState)
      → HasKeys limits s
      → window ≤ max limits.source_window limits.source_daily_window
      → live
          (λ event. event.at)
          now
          window
          (events_of k (entered limits source recipient now s).sources)
        ≡ live (λ event. event.at) now window (events_of k s.sources)
  unfolding sweep
  live-entered_source source recipient k now window s u h =
      ap (live (λ event. event.at) now window) (events_of-or_default k source _)
      ∙ live-swept (λ event. event.at) now k source window _ s.sources h u.0

  live-entered_recipient :
      (source recipient k : Text) (now window : ℕ) (s : EmailSendRateState)
      → HasKeys limits s
      → window
        ≤ max
            (max limits.recipient_cooldown limits.recipient_hour_window)
            limits.recipient_daily_window
      → live (λ at. at) now window (events_of k (entered limits source recipient now s).recipients)
        ≡ live (λ at. at) now window (events_of k s.recipients)
  unfolding sweep
  live-entered_recipient source recipient k now window s u h =
      ap (live (λ at. at) now window) (events_of-or_default k recipient _)
      ∙ live-swept (λ at. at) now k recipient window _ s.recipients h u.1

  live-entered_global :
      (source recipient : Text) (now window : ℕ) (s : EmailSendRateState)
      → window ≤ max limits.global_hour_window limits.global_daily_window
      → live (λ at. at) now window (entered limits source recipient now s).global
        ≡ live (λ at. at) now window s.global
  unfolding sweep
  live-entered_global source recipient now window s h =
      live-retain (λ at. at) now window _ s.global h

  entered-HasKeys :
      (source recipient : Text) (now : ℕ) (s : EmailSendRateState)
      → HasKeys limits s
      → HasKeys limits (entered limits source recipient now s)
  unfolding sweep
  entered-HasKeys source recipient now s u = (
    or_default-IsMap source _ (swept-IsMap (λ event. event.at) now source _ s.sources u.0),
    or_default-IsMap recipient _ (swept-IsMap (λ at. at) now recipient _ s.recipients u.1),
  )

  append-nothing : {A : Type 0} (xs : List A) (b : Bool) → xs ++ (if b then [] else []) ≡ xs
  append-nothing xs true = append-nil xs
  append-nothing xs false = append-nil xs

  refused-Records :
      (source recipient : Text) (now : ℕ) (s : EmailSendRateState) (answer : Retry)
      → ((A : Type 0) (x : A) → added limits answer x ≡ [])
      → HasKeys limits s
      → Records limits source recipient now s answer (entered limits source recipient now s)
  refused-Records source recipient now s answer nothing u = record {
    sources =
        each_source limits
          (KeepsSources limits source recipient now s answer
            (entered limits source recipient now s))
          (λ window h k.
            rw
              (
                nothing SourceSend (send_of limits source recipient now s),
                append-nothing _ (text_eq source k),
              )
              (live-entered_source source recipient k now window s u h));
    recipients =
        each_recipient limits
          (KeepsRecipients limits source recipient now s answer
            (entered limits source recipient now s))
          (λ window h k.
            rw (nothing ℕ now, append-nothing _ (text_eq recipient k))
              (live-entered_recipient source recipient k now window s u h));
    global =
        each_global limits
          (KeepsGlobal limits source recipient now s answer (entered limits source recipient now s))
          (λ window h.
            rw (nothing ℕ now, append-nil s.global)
              (live-entered_global source recipient now window s h));
  }

  -- What the code takes for the costs of the send.
  abbrev cost_in : Text → Text → ℕ → EmailSendRateState → ℕ → ℕ
  cost_in source recipient now s window =
      recipient_cost (events_of source (entered limits source recipient now s).sources) recipient
        now window

  cost_in-eq :
      (source recipient : Text) (now window : ℕ) (s : EmailSendRateState)
      → HasKeys limits s
      → window ≤ max limits.source_window limits.source_daily_window
      → cost_in source recipient now s window
        ≡ recipient_cost (events_of source s.sources) recipient now window
  unfolding recipient_cost
  cost_in-eq source recipient now window s u h =
      ap (recent_cost false recipient)
        (live-entered_source source recipient source now window s u h)

  accepted-Records :
      (source recipient : Text) (now : ℕ) (s : EmailSendRateState)
      → HasKeys limits s
      → Records limits source recipient now s clear (
          charged limits source recipient now
            (cost_in source recipient now s limits.source_window)
            (cost_in source recipient now s limits.source_daily_window)
            (entered limits source recipient now s))
  accepted-Records source recipient now s u =
      let t = entered limits source recipient now s in
      let after =
        charged limits source recipient now (cost_in source recipient now s limits.source_window)
          (cost_in source recipient now s limits.source_daily_window) t in
      let sent : SourceSend = record {
        at = now;
        recipient = recipient;
        window_cost = cost_in source recipient now s limits.source_window;
        daily_cost = cost_in source recipient now s limits.source_daily_window;
      } in
      record {
        sources =
            each_source limits (KeepsSources limits source recipient now s clear after)
              (λ window h k.
                rw
                  (
                    events_of-add k source sent t.sources (contains_key-or_default source _),
                    cost_in-eq source recipient now limits.source_window s u (omega arith),
                    cost_in-eq source recipient now limits.source_daily_window s u (omega arith),
                  )
                  (live-add (λ event. event.at) now window _ _ _
                    (live-entered_source source recipient k now window s u h)));
        recipients =
            each_recipient limits (KeepsRecipients limits source recipient now s clear after)
              (λ window h k.
                rw
                  (events_of-add k recipient now t.recipients (contains_key-or_default recipient _))
                  (live-add (λ at. at) now window _ _ _
                    (live-entered_recipient source recipient k now window s u h)));
        global =
            each_global limits (KeepsGlobal limits source recipient now s clear after) (λ window h.
              live-add (λ at. at) now window _ _ _
                (live-entered_global source recipient now window s h));
      }

  pub settled-Records :
      (source recipient : Text) (now : ℕ) (s : EmailSendRateState) (answer : Retry)
      → HasKeys limits s
      → let r = settled limits answer (entered limits source recipient now s) (
          charged limits source recipient now
            (cost_in source recipient now s limits.source_window)
            (cost_in source recipient now s limits.source_daily_window)
            (entered limits source recipient now s)) in
        Records limits source recipient now s r.0 r.1 × HasKeys limits r.1
  settled-Records source recipient now s clear u =
      let v = entered-HasKeys source recipient now s u in
      (
        accepted-Records source recipient now s u,
        (update-IsMap source _ _ v.0, update-IsMap recipient _ _ v.1),
      )
  settled-Records source recipient now s (wait n) u = (
    refused-Records source recipient now s (wait n) (λ A x. refl) u,
    entered-HasKeys source recipient now s u,
  )
  settled-Records source recipient now s panicked u = (
    refused-Records source recipient now s panicked (λ A x. refl) u,
    entered-HasKeys source recipient now s u,
  )
