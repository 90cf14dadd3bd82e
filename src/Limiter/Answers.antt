-- ===== src/Limiter/Answers.antt =====
-- Proofs about the answers of `check_at` of src/rate_limit.rs.
use seiza_server.Base.{
  ℕ, zero, suc, ◌+◌, ◌-◌, ◌≤◌, ◌<◌, ◌≡◌, ◌⊎◌, refl, inl, inr, max, Option, none, some, List, [],
  ◌∷◌, arith, Text, ltb, leb, Bool-cases, length, filter,
}
use seiza_server.Limiter.Windows.{
  SourceSend, Retry, clear, panicked, wait, in_window, saturating_add, seconds_until_expiry,
  expiry_or_window, total_cost, released_at, weighted_retry_after, nth, count_retry_after, longer,
}
use seiza_server.Limiter.Sends.{
  EmailSendRateLimits, EmailSendRateState, events_of, retry_after, settled, entered, check_at,
}

-- Leave to send, or at least a second's wait.
abbrev pub IsAnswer : Retry → Type 0
IsAnswer r = (r ≡ clear) ⊎ ((n : ℕ) × (r ≡ wait n) × (1 ≤ n))

longer-IsAnswer : (a b : Retry) → IsAnswer a → IsAnswer b → IsAnswer (longer a b)
longer-IsAnswer a b (inl e) h = rw e h
longer-IsAnswer a b (inr (n, e, one)) (inl f) = inr (n, rw e (rw f refl), one)
longer-IsAnswer a b (inr (n, e, one)) (inr (m, f, k)) = inr (max n m, rw e (rw f refl), omega arith)

seconds_until_expiry_pos : (event now window : ℕ) → 1 ≤ seconds_until_expiry event now window
unfolding seconds_until_expiry
seconds_until_expiry_pos event now window = omega arith

expiry_pos : (now window : ℕ) (at : Option ℕ) → 1 ≤ expiry_or_window now window at
expiry_pos now window none = omega arith
expiry_pos now window (some at) = seconds_until_expiry_pos at now window

weighted-IsAnswer :
    (events : List SourceSend) (now window budget cost : ℕ) (of_event : SourceSend → ℕ)
    → IsAnswer (weighted_retry_after events now window budget cost of_event)
unfolding weighted_retry_after
weighted-IsAnswer events now window budget cost of_event =
    elim (Bool-cases (
      leb
        (saturating_add
          (total_cost of_event (filter (λ event. in_window now window event.at) events)) cost)
        budget)) [
          | inl e ↦ inl (rw e refl)
          | inr e ↦ inr (
            expiry_or_window now window (
                released_at of_event
                  (saturating_add
                      (total_cost of_event (filter (λ event. in_window now window event.at) events))
                      cost
                    - budget)
                  0 (filter (λ event. in_window now window event.at) events)),
            rw e refl,
            expiry_pos now window _,
          )
        ]

none_below : (n : ℕ) → n < 0 → ⊥
none_below n h = omega (arith, h)

nth-length : (n : ℕ) (xs : List ℕ) → n < length xs → (x : ℕ) × (nth n xs ≡ some x)
unfolding nth
nth-length n [] h = elim (none_below n h) [ ]
nth-length zero (x ∷ xs) h = (x, refl)
nth-length (suc n) (x ∷ xs) h = nth-length n xs (omega arith)

count-IsAnswer :
    (events : List ℕ) (now window limit : ℕ)
    → 1 ≤ limit
    → IsAnswer (count_retry_after events now window limit)
unfolding count_retry_after
count-IsAnswer events now window limit h =
    let active = filter (λ at. in_window now window at) events in
    elim (Bool-cases (ltb (length active) limit)) [
      | inl e ↦ inl (rw e refl)
      | inr e ↦
          let full : limit ≤ length active = ground (arith, e) in
          let (at, found) = nth-length (length active + 1 - limit - 1) active (omega arith) in
          inr (
            seconds_until_expiry at now window,
            rw e (rw found refl),
            seconds_until_expiry_pos at now window,
          )
    ]

module _ (limits : EmailSendRateLimits) where
  settled-IsAnswer :
      (r : Retry) (s paid : EmailSendRateState) → IsAnswer r → IsAnswer (settled limits r s paid).0
  settled-IsAnswer clear s paid h = h
  settled-IsAnswer (wait n) s paid h = h
  settled-IsAnswer panicked s paid h = h

  -- With limits of at least one, every request is let through or told to wait for at least a second:
  -- no index is out of bounds.
  pub check_at-IsAnswer :
      (source recipient : Text) (now : ℕ) (s : EmailSendRateState)
      → 1 ≤ limits.recipient_hour_limit
      → 1 ≤ limits.recipient_daily_limit
      → 1 ≤ limits.global_hour_limit
      → 1 ≤ limits.global_daily_limit
      → IsAnswer (check_at limits source recipient now s).0
  unfolding check_at retry_after
  check_at-IsAnswer source recipient now s a b c d =
      let t = entered limits source recipient now s in
      let sent = events_of recipient t.recipients in
      settled-IsAnswer _ t _ (
        longer-IsAnswer _ _ (weighted-IsAnswer (events_of source t.sources) now _ _ _ _) (
          longer-IsAnswer _ _ (weighted-IsAnswer (events_of source t.sources) now _ _ _ _) (
            longer-IsAnswer _ _ (count-IsAnswer sent now _ 1 (omega arith)) (
              longer-IsAnswer _ _ (count-IsAnswer sent now _ _ a) (
                longer-IsAnswer _ _ (count-IsAnswer sent now _ _ b) (
                  longer-IsAnswer _ _ (count-IsAnswer t.global now _ _ c)
                    (count-IsAnswer t.global now _ _ d)))))))
