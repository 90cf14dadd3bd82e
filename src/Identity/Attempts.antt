-- ===== src/Identity/Attempts.antt =====
-- Proofs about the failed attempts at a challenge of src/sqlx_identity.rs.
use seiza_server.Base.{
  ℕ, ◌+◌, ◌≤◌, ◌≡◌, ◌≢◌, ◌⊎◌, subst, inl, inr, false, some, List, [], ◌∷◌, arith, ◌==◌,
  if◌then◌else◌, Bool-cases, All, All-map,
}
use seiza_server.Queue.Sql.{Engine}
use seiza_server.Identity.Rows.{
  Account, AuthChallenge, AuthSession, CompletedEmailSignIn, ApiKey, Tables, ok,
}
use seiza_server.Identity.Tables.{affected}
use seiza_server.Identity.Challenges.{
  consume, tried, can_try, can_complete, complete_email_challenge, record_challenge_failure,
}
use seiza_server.Identity.Calls
use seiza_server.Identity.Calls.{run, step}
use seiza_server.Identity.Stability.{AllRows}
use seiza_server.Identity.Runs.{step-AllRows}
use seiza_server.Identity.Spent.{
  NotReissued, All-update_both, everything, Closed, challenges-IsStable, NotReissued-Brings,
  Closed-completes_none,
}

-- The failed attempts at the challenge that the history records.
abbrev pub failure_of : {W : Type 0} → ℕ → Calls.Call W → ℕ
failure_of id (Calls.fails i now max_attempts) = if i == id then 1 else 0
failure_of id _ = 0

abbrev pub failures : {W : Type 0} → ℕ → List (Calls.Call W) → ℕ
failures id [] = 0
failures id (call ∷ calls) = failure_of id call + failures id calls

-- Attempts are recorded by then, under a limit that is no smaller.
abbrev pub RecordsBy : {W : Type 0} → ℕ → ℕ → Calls.Call W → Type 0
RecordsBy now max_attempts (Calls.fails id at limit) = (at ≤ now) × (max_attempts ≤ limit)
RecordsBy now max_attempts _ = Unit

module _ (id now max_attempts : ℕ) where
  -- The challenge can be tried no more, or has failed that often.
  Worn : ℕ → AuthChallenge → Type 0
  Worn n c = (can_try id now max_attempts c ≡ false) ⊎ (n ≤ c.attempts)

  Worn-consume : (n at : ℕ) (c : AuthChallenge) → Worn n (consume at c)
  unfolding Worn can_try consume
  Worn-consume n at c = inl (ground arith)

  Worn-tried : (n : ℕ) (c : AuthChallenge) → Worn n c → Worn n (tried c)
  unfolding Worn can_try tried
  Worn-tried n c (inl h) = inl (ground (arith, h))
  Worn-tried n c (inr h) = inr (omega (arith, h))

  Worn-hit :
      (n i : ℕ) (c : AuthChallenge) → Worn n c → Worn (n + (if i == id then 1 else 0)) (tried c)
  unfolding Worn can_try tried
  Worn-hit n i c (inl h) = inl (ground (arith, h))
  Worn-hit n i c (inr h) = inr (ground (arith, h))

  Worn-miss :
      (n i at limit : ℕ) (c : AuthChallenge)
      → at ≤ now
      → max_attempts ≤ limit
      → can_try i at limit c ≡ false
      → Worn n c
      → Worn (n + (if i == id then 1 else 0)) c
  unfolding Worn can_try
  Worn-miss n i at limit c h k m w = elim (Bool-cases (i == id)) [
    | inl e ↦ inl (ground (arith, e, h, k, m))
    | inr e ↦ elim w [ inl f ↦ inl f | inr f ↦ inr (ground (arith, e, f)) ]
  ]

  Worn-other : (n : ℕ) (c : AuthChallenge) → c.id ≢ id → Worn n c
  unfolding Worn can_try
  Worn-other n c ne = inl (ground (arith, ne))

  abbrev Wear : {W : Type 0} → ℕ → Tables W → Type 0
  Wear {W} n t = AllRows (Worn n) (λ (k : ApiKey W). Unit {0}) (λ s. Unit {0}) t

  fails-Wear :
      {W : Type 0} (n i at limit : ℕ) (t : Tables W)
      → at ≤ now
      → max_attempts ≤ limit
      → Wear n t
      → Wear (n + (if i == id then 1 else 0)) (record_challenge_failure i at limit t).1
  unfolding record_challenge_failure
  fails-Wear n i at limit t h k w =
      let worn =
        All-update_both (Worn n) (Worn (n + (if i == id then 1 else 0))) (can_try i at limit) tried
          t.challenges (λ c hit p. Worn-hit n i c p)
          (λ c miss p. Worn-miss n i at limit c h k miss p) w.challenges in
      elim (Bool-cases (affected (can_try i at limit) t.challenges == 0)) [
        | inl e ↦ rw e (record { challenges = worn; keys = w.keys; sessions = w.sessions })
        | inr e ↦ rw e (record { challenges = worn; keys = w.keys; sessions = w.sessions })
      ]

  step-Wear :
      {W : Type 0} (e : Engine) (n : ℕ) (call : Calls.Call W) (t : Tables W)
      → NotReissued id call
      → Wear n t
      → Wear n (step e call t)
  step-Wear e n call t fresh w =
      step-AllRows (Worn n) (λ k. Unit {0}) (λ s. Unit {0})
        (challenges-IsStable (Worn n) (λ at c h. Worn-consume n at c) (λ c h. Worn-tried n c h)) e
        call t (NotReissued-Brings (Worn n) id call (λ c ne. Worn-other n c ne) fresh) w

  plain-Wear :
      {W : Type 0} (e : Engine) (n : ℕ) (call : Calls.Call W) (t : Tables W)
      → NotReissued id call
      → Wear n t
      → Wear (n + 0) (step e call t)
  plain-Wear e n call t fresh w =
      subst (λ k. AllRows (Worn k) (λ x. Unit {0}) (λ x. Unit {0}) (step e call t)) (omega arith)
        (step-Wear e n call t fresh w)

  counted-Wear :
      {W : Type 0} (e : Engine) (n : ℕ) (call : Calls.Call W) (t : Tables W)
      → NotReissued id call
      → RecordsBy now max_attempts call
      → Wear n t
      → Wear (n + failure_of id call) (step e call t)
  unfolding step
  counted-Wear e n (Calls.fails i at limit) t fresh by w = fails-Wear n i at limit t by.0 by.1 w
  counted-Wear e n (Calls.accounts a) t fresh by w = plain-Wear e n (Calls.accounts a) t fresh w
  counted-Wear e n (Calls.challenges c) t fresh by w = plain-Wear e n (Calls.challenges c) t fresh w
  counted-Wear e n (Calls.emails c m) t fresh by w = plain-Wear e n (Calls.emails c m) t fresh w
  counted-Wear e n (Calls.completes i x m a s) t fresh by w =
      plain-Wear e n (Calls.completes i x m a s) t fresh w
  counted-Wear e n (Calls.sessions s) t fresh by w = plain-Wear e n (Calls.sessions s) t fresh w
  counted-Wear e n (Calls.touches a s l x) t fresh by w =
      plain-Wear e n (Calls.touches a s l x) t fresh w
  counted-Wear e n (Calls.revokes a s r) t fresh by w =
      plain-Wear e n (Calls.revokes a s r) t fresh w
  counted-Wear e n (Calls.revokes_all a r) t fresh by w =
      plain-Wear e n (Calls.revokes_all a r) t fresh w
  counted-Wear e n (Calls.deletes a s) t fresh by w = plain-Wear e n (Calls.deletes a s) t fresh w
  counted-Wear e n (Calls.passkeys p) t fresh by w = plain-Wear e n (Calls.passkeys p) t fresh w
  counted-Wear e n (Calls.registers i p x) t fresh by w =
      plain-Wear e n (Calls.registers i p x) t fresh w
  counted-Wear e n (Calls.signs_in i p s x) t fresh by w =
      plain-Wear e n (Calls.signs_in i p s x) t fresh w
  counted-Wear e n (Calls.revokes_passkey a p r) t fresh by w =
      plain-Wear e n (Calls.revokes_passkey a p r) t fresh w
  counted-Wear e n (Calls.keys k) t fresh by w = plain-Wear e n (Calls.keys k) t fresh w
  counted-Wear e n (Calls.touches_key a k l) t fresh by w =
      plain-Wear e n (Calls.touches_key a k l) t fresh w
  counted-Wear e n (Calls.revokes_key a k r) t fresh by w =
      plain-Wear e n (Calls.revokes_key a k r) t fresh w
  counted-Wear e n (Calls.purges x) t fresh by w = plain-Wear e n (Calls.purges x) t fresh w

  run-Wear :
      {W : Type 0} (e : Engine) (n : ℕ) (calls : List (Calls.Call W)) (t : Tables W)
      → All (λ call. NotReissued id call × RecordsBy now max_attempts call) calls
      → Wear n t
      → Wear (n + failures id calls) (run e calls t)
  unfolding run
  run-Wear e n [] t p w =
      subst (λ k. AllRows (Worn k) (λ x. Unit {0}) (λ x. Unit {0}) t) (omega arith) w
  run-Wear e n (call ∷ calls) t p w =
      subst (λ k. AllRows (Worn k) (λ x. Unit {0}) (λ x. Unit {0}) (run e calls (step e call t)))
        (omega arith)
        (run-Wear e (n + failure_of id call) calls (step e call t) p.1
          (counted-Wear e n call t p.0.0 p.0.1 w))

  Worn-Closed :
      (n : ℕ) (c : AuthChallenge) → max_attempts ≤ n → Worn n c → Closed id now max_attempts c
  unfolding Worn can_complete can_try
  Worn-Closed n c h (inl k) = ground (arith, k)
  Worn-Closed n c h (inr k) = ground (arith, h, k)

  Worn-start : (c : AuthChallenge) → Worn 0 c
  unfolding Worn
  Worn-start c = inr (omega arith)

-- After a history with as many calls that record a failed attempt at a challenge as there are attempts
-- allowed, `complete_email_challenge` signs nobody in by that challenge. Every call of the history that
-- records a failed attempt, at whatever challenge, is made by the time of the completion and with at
-- least as many attempts allowed, and no call stores a challenge under the id anew; other calls may
-- come between.
pub attempts_bounded :
    {W : Type 0} (e : Engine) (id now max_attempts : ℕ) (a : Account) (s : AuthSession)
    (t : Tables W) (r : CompletedEmailSignIn) (calls : List (Calls.Call W))
    → All (λ call. NotReissued id call × RecordsBy now max_attempts call) calls
    → max_attempts ≤ failures id calls
    → (complete_email_challenge id now max_attempts a s (run e calls t)).0 ≢ ok (some r)
attempts_bounded e id now max_attempts a s t r calls p h =
    let start =
      All-map (λ c u. Worn-start id now max_attempts c) t.challenges (everything t.challenges) in
    let w = run-Wear id now max_attempts e 0 calls t p (record {
      challenges = start;
      keys = everything t.api_keys;
      sessions = everything t.sessions;
    }) in
    Closed-completes_none id now max_attempts a s (run e calls t) r (
      All-map (λ c k. Worn-Closed id now max_attempts (0 + failures id calls) c (omega arith) k)
        (run e calls t).challenges w.challenges)
