-- ===== src/Limiter/Admission.antt =====
-- Proofs about `check_at` of src/rate_limit.rs.
use seiza_server.Base.{ℕ, ◌-◌, ◌^◌, ◌≤◌, ◌<◌, ◌≡◌, refl, max, List, [], arith, Text, All, All-map}
use seiza_server.Limiter.Windows.{SourceSend, Retry, clear, panicked, wait, retain_recent}
use seiza_server.Limiter.Sends.{
  EmailSendRateLimits, EmailSendRateState, events_of, sweep, retry_after, charged, settled, entered,
  check_at,
}
use seiza_server.Limiter.Budgets.{
  active_count, active_count-later, active_count-retain, count_clear, longer_clear, spent,
  spent-later, spent-retain, weighted_clear, Every, update-Every, or_default-Every, swept-Every,
  events_of-Every,
}
use seiza_server.Limiter.Kept.{Records, HasKeys}
use seiza_server.Limiter.Recorded.{settled-Records}

module _ (limits : EmailSendRateLimits) where
  -- The sends of one source, of one recipient and of the server are within their budgets at a time.
  pub record SourceWithin (now : ℕ) (events : List SourceSend) : Type 0 where
    pub window :
        spent (λ event. event.window_cost) now limits.source_window events ≤ limits.source_budget
    pub daily :
        spent (λ event. event.daily_cost) now limits.source_daily_window events
        ≤ limits.source_daily_budget

  pub record RecipientWithin (now : ℕ) (events : List ℕ) : Type 0 where
    pub cooldown : active_count now limits.recipient_cooldown events ≤ 1
    pub hour : active_count now limits.recipient_hour_window events ≤ limits.recipient_hour_limit
    pub daily : active_count now limits.recipient_daily_window events ≤ limits.recipient_daily_limit

  pub record GlobalWithin (now : ℕ) (events : List ℕ) : Type 0 where
    pub hour : active_count now limits.global_hour_window events ≤ limits.global_hour_limit
    pub daily : active_count now limits.global_daily_window events ≤ limits.global_daily_limit

  pub record IsWithin (now : ℕ) (s : EmailSendRateState) : Type 0 where
    pub sources : All (λ (e : Text × List SourceSend). SourceWithin now e.1) s.sources
    pub recipients : All (λ (e : Text × List ℕ). RecipientWithin now e.1) s.recipients
    pub global : GlobalWithin now s.global

  source-later :
      (now later : ℕ) (events : List SourceSend)
      → now ≤ later
      → SourceWithin now events
      → SourceWithin later events
  source-later now later events h k = record {
    window = omega (
      arith,
      spent-later (λ event. event.window_cost) now later limits.source_window events h,
      k.window,
    );
    daily = omega (
      arith,
      spent-later (λ event. event.daily_cost) now later limits.source_daily_window events h,
      k.daily,
    );
  }

  recipient-later :
      (now later : ℕ) (events : List ℕ)
      → now ≤ later
      → RecipientWithin now events
      → RecipientWithin later events
  recipient-later now later events h k = record {
    cooldown =
        omega (arith, active_count-later now later limits.recipient_cooldown events h, k.cooldown);
    hour =
        omega (arith, active_count-later now later limits.recipient_hour_window events h, k.hour);
    daily =
        omega (arith, active_count-later now later limits.recipient_daily_window events h, k.daily);
  }

  -- What is within its budgets stays so as time goes by.
  pub IsWithin-later :
      (now later : ℕ) (s : EmailSendRateState) → now ≤ later → IsWithin now s → IsWithin later s
  IsWithin-later now later s h k = record {
    sources = All-map (λ e. source-later now later e.1 h) s.sources k.sources;
    recipients = All-map (λ e. recipient-later now later e.1 h) s.recipients k.recipients;
    global = record {
      hour =
          omega (
            arith,
            active_count-later now later limits.global_hour_window s.global h,
            k.global.hour,
          );
      daily = omega (
        arith,
        active_count-later now later limits.global_daily_window s.global h,
        k.global.daily,
      );
    };
  }

  source-retain :
      (now retention : ℕ) (events : List SourceSend)
      → SourceWithin now events
      → SourceWithin now (retain_recent (λ event. event.at) now retention events)
  source-retain now retention events k = record {
    window = omega (
      arith,
      spent-retain (λ event. event.window_cost) now limits.source_window retention events,
      k.window,
    );
    daily = omega (
      arith,
      spent-retain (λ event. event.daily_cost) now limits.source_daily_window retention events,
      k.daily,
    );
  }

  recipient-retain :
      (now retention : ℕ) (events : List ℕ)
      → RecipientWithin now events
      → RecipientWithin now (retain_recent (λ at. at) now retention events)
  recipient-retain now retention events k = record {
    cooldown =
        omega
          (arith, active_count-retain now limits.recipient_cooldown retention events, k.cooldown);
    hour =
        omega
          (arith, active_count-retain now limits.recipient_hour_window retention events, k.hour);
    daily =
        omega
          (arith, active_count-retain now limits.recipient_daily_window retention events, k.daily);
  }

  no_source : (now : ℕ) → SourceWithin now []
  no_source now = record { window = omega arith; daily = omega arith }

  no_recipient : (now : ℕ) → RecipientWithin now []
  no_recipient now = record { cooldown = omega arith; hour = omega arith; daily = omega arith }

  entered-IsWithin :
      (source recipient : Text) (now : ℕ) (s : EmailSendRateState)
      → IsWithin now s
      → IsWithin now (entered limits source recipient now s)
  unfolding sweep Every
  entered-IsWithin source recipient now s k = record {
    sources =
        or_default-Every (SourceWithin now) source _
          (swept-Every (SourceWithin now) (λ event. event.at) source now _ s.sources (no_source now)
            (source-retain now _) k.sources)
          (no_source now);
    recipients =
        or_default-Every (RecipientWithin now) recipient _
          (swept-Every (RecipientWithin now) (λ at. at) recipient now _ s.recipients
            (no_recipient now) (recipient-retain now _) k.recipients)
          (no_recipient now);
    global = record {
      hour = omega (
        arith,
        active_count-retain now limits.global_hour_window
            (max limits.global_hour_window limits.global_daily_window) s.global,
        k.global.hour,
      );
      daily = omega (
        arith,
        active_count-retain now limits.global_daily_window
            (max limits.global_hour_window limits.global_daily_window) s.global,
        k.global.daily,
      );
    };
  }

  settled-IsWithin :
      (now : ℕ) (r : Retry) (s paid : EmailSendRateState)
      → IsWithin now s
      → (r ≡ clear → IsWithin now paid)
      → IsWithin now (settled limits r s paid).1
  settled-IsWithin now clear s paid h k = k refl
  settled-IsWithin now (wait n) s paid h k = h
  settled-IsWithin now panicked s paid h k = h

  charged-IsWithin :
      (source recipient : Text) (now window_cost daily_cost : ℕ) (t : EmailSendRateState)
      → limits.source_budget < 2 ^ 32 - 1
      → limits.source_daily_budget < 2 ^ 32 - 1
      → IsWithin now t
      → retry_after limits now
          (events_of source t.sources)
          (events_of recipient t.recipients)
          t.global
          window_cost
          daily_cost
        ≡ clear
      → IsWithin now (charged limits source recipient now window_cost daily_cost t)
  unfolding retry_after Every
  charged-IsWithin source recipient now window_cost daily_cost t small small' k h =
      let (c1, r1) = longer_clear _ _ h in
      let (c2, r2) = longer_clear _ _ r1 in
      let (c3, r3) = longer_clear _ _ r2 in
      let (c4, r4) = longer_clear _ _ r3 in
      let (c5, r5) = longer_clear _ _ r4 in
      let (c6, c7) = longer_clear _ _ r5 in
      let own = events_of-Every (SourceWithin now) source t.sources k.sources (no_source now) in
      let event : SourceSend = record {
        at = now;
        recipient = recipient;
        window_cost = window_cost;
        daily_cost = daily_cost;
      } in
      record {
        sources = update-Every (SourceWithin now) source _ t.sources k.sources (record {
          window =
              weighted_clear (λ event. event.window_cost) (events_of source t.sources) event now
                limits.source_window limits.source_budget small own.window c1;
          daily =
              weighted_clear (λ event. event.daily_cost) (events_of source t.sources) event now
                limits.source_daily_window limits.source_daily_budget small' own.daily c2;
        });
        recipients =
            update-Every (RecipientWithin now) recipient _ t.recipients k.recipients (record {
              cooldown =
                  count_clear (events_of recipient t.recipients) now limits.recipient_cooldown 1 c3;
              hour =
                  count_clear (events_of recipient t.recipients) now limits.recipient_hour_window
                    limits.recipient_hour_limit c4;
              daily =
                  count_clear (events_of recipient t.recipients) now limits.recipient_daily_window
                    limits.recipient_daily_limit c5;
            });
        global = record {
          hour = count_clear t.global now limits.global_hour_window limits.global_hour_limit c6;
          daily = count_clear t.global now limits.global_daily_window limits.global_daily_limit c7;
        };
      }

  -- If at one time the sends that are recorded for every source, for every recipient and for the
  -- server are within their budgets in each of their rolling windows, then so they are at any later
  -- time at which one more request has been answered, accepted or not, given source budgets below
  -- the largest 32-bit number and maps with distinct keys, which stay distinct. In the
  -- window of every budget, the sends that are then recorded, for every source, for every recipient
  -- and for the server, are those that were, and after them the request's own exactly if it is
  -- accepted and theirs.
  pub check_at-IsWithin :
      (source recipient : Text) (before now : ℕ) (s : EmailSendRateState)
      → limits.source_budget < 2 ^ 32 - 1
      → limits.source_daily_budget < 2 ^ 32 - 1
      → before ≤ now
      → IsWithin before s
      → HasKeys limits s
      → IsWithin now (check_at limits source recipient now s).1
        × Records limits source recipient now s
            (check_at limits source recipient now s).0
            (check_at limits source recipient now s).1
        × HasKeys limits (check_at limits source recipient now s).1
  unfolding check_at
  check_at-IsWithin source recipient before now s small small' h k u =
      let t = entered limits source recipient now s in
      let w = entered-IsWithin source recipient now s (IsWithin-later before now s h k) in
      let (recorded, keys) = settled-Records limits source recipient now s _ u in
      (
        settled-IsWithin now _ t _ w (charged-IsWithin source recipient now _ _ t small small' w),
        recorded,
        keys,
      )
