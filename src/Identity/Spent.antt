-- ===== src/Identity/Spent.antt =====
-- Proofs about `complete_email_challenge` of src/sqlx_identity.rs.
use seiza_server.Base.{
  ℕ, ◌≤◌, ◌≡◌, ◌≢◌, refl, inl, inr, Bool, true, false, not, ◌||◌, Option, none, some, List, [], ◌∷◌,
  ◌++◌, arith, Text, text_eq, ◌==◌, any, length, filter, filter_none, Bool-cases, All, All-map, ap,
}
use seiza_server.Queue.Sql.{Engine, update_where}
use seiza_server.Identity.Rows.{
  email_login, same_purpose, is_active, Account, AuthChallenge, AuthSession, CompletedEmailSignIn,
  ApiKey, Tables, Result, ok, err,
}
use seiza_server.Identity.Tables.{affected, admits_session, insert_session}
use seiza_server.Identity.Accounts.{account_by_email_lookup}
use seiza_server.Identity.Challenges.{
  consume, tried, can_try, can_complete, open_for, opened_session, signed_in, found_account,
  new_sign_in, sign_in_as, consume_and_sign_in, for_email, of_challenge, challenge_by_id,
  complete_email_challenge,
}
use seiza_server.Identity.Calls
use seiza_server.Identity.Calls.{run, step}
use seiza_server.Identity.Stability.{All-update_where, IsStable, Brings}
use seiza_server.Identity.Runs.{run-AllRows}

pub everything {ℓ} : {A : Type ℓ} (xs : List A) → All (λ x. Unit {0}) xs
everything [] = tt
everything (x ∷ xs) = (tt, everything xs)

pub All-update_both {ℓ κ μ} :
    {A : Type ℓ} (P : A → Type κ) (Q : A → Type μ) (test : A → Bool) (change : A → A)
    (rows : List A)
    → ((row : A) → test row ≡ true → P row → Q (change row))
    → ((row : A) → test row ≡ false → P row → Q row)
    → All P rows
    → All Q (update_where test change rows)
unfolding update_where
All-update_both P Q test change [] hit miss h = tt
All-update_both P Q test change (row ∷ rows) hit miss h = elim (Bool-cases (test row)) [
  | inl e ↦ rw e (hit row e h.0, All-update_both P Q test change rows hit miss h.1)
  | inr e ↦ rw e (miss row e h.0, All-update_both P Q test change rows hit miss h.1)
]

-- No call creates another challenge with this id.
abbrev pub NotReissued : {W : Type 0} → ℕ → Calls.Call W → Type 0
NotReissued id (Calls.challenges c) = c.id ≢ id
NotReissued id (Calls.emails c max_live) = c.id ≢ id
NotReissued id _ = Unit

-- No row lets this completion through.
abbrev pub Closed : ℕ → ℕ → ℕ → AuthChallenge → Type 0
Closed id now max_attempts c = can_complete id now max_attempts c ≡ false

Closed-consume :
    (id now max_attempts at : ℕ) (c : AuthChallenge) → Closed id now max_attempts (consume at c)
unfolding can_complete can_try consume
Closed-consume id now max_attempts at c = ground arith

Closed-tried :
    (id now max_attempts : ℕ) (c : AuthChallenge)
    → Closed id now max_attempts c
    → Closed id now max_attempts (tried c)
unfolding can_complete can_try tried
Closed-tried id now max_attempts c h = ground (arith, h)

Closed-later :
    (id now later max_attempts fewer : ℕ) (c : AuthChallenge)
    → now ≤ later
    → fewer ≤ max_attempts
    → Closed id now max_attempts c
    → Closed id later fewer c
unfolding can_complete can_try
Closed-later id now later max_attempts fewer c h k p = ground (arith, h, k, p)

pub Closed-other :
    (id now max_attempts : ℕ) (c : AuthChallenge) → c.id ≢ id → Closed id now max_attempts c
unfolding can_complete can_try
Closed-other id now max_attempts c ne = ground (arith, ne)

-- A predicate of challenges alone.
module _ {W : Type 0} (P : AuthChallenge → Type 0) where
  pub challenges-IsStable :
      ((now : ℕ) (c : AuthChallenge) → P c → P (consume now c))
      → ((c : AuthChallenge) → P c → P (tried c))
      → IsStable P (λ (k : ApiKey W). Unit {0}) (λ s. Unit {0})
  challenges-IsStable consumed again = record {
    consumes = λ at c unused h. consumed at c h;
    tries = again;
    uses = λ at k h. tt;
    revokes_key = λ at k h. tt;
    touches = λ last expires s live h. tt;
    revokes = λ at s h. tt;
  }

  pub NotReissued-Brings :
      (id : ℕ) (call : Calls.Call W)
      → ((c : AuthChallenge) → c.id ≢ id → P c)
      → NotReissued id call
      → Brings P (λ (k : ApiKey W). Unit {0}) (λ s. Unit {0}) call
  NotReissued-Brings id (Calls.accounts a) other h = tt
  NotReissued-Brings id (Calls.challenges c) other h = other c h
  NotReissued-Brings id (Calls.emails c max_live) other h = other c h
  NotReissued-Brings id (Calls.fails i n m) other h = tt
  NotReissued-Brings id (Calls.completes i n m a s) other h = λ account_id. tt
  NotReissued-Brings id (Calls.sessions s) other h = tt
  NotReissued-Brings id (Calls.touches a s l e) other h = tt
  NotReissued-Brings id (Calls.revokes a s r) other h = tt
  NotReissued-Brings id (Calls.revokes_all a r) other h = tt
  NotReissued-Brings id (Calls.deletes a s) other h = tt
  NotReissued-Brings id (Calls.passkeys p) other h = tt
  NotReissued-Brings id (Calls.registers i p n) other h = tt
  NotReissued-Brings id (Calls.signs_in i p s n) other h = tt
  NotReissued-Brings id (Calls.revokes_passkey a p r) other h = tt
  NotReissued-Brings id (Calls.keys k) other h = tt
  NotReissued-Brings id (Calls.touches_key a k l) other h = tt
  NotReissued-Brings id (Calls.revokes_key a k r) other h = tt
  NotReissued-Brings id (Calls.purges n) other h = tt

module _ {W : Type 0} (P : AuthChallenge → Type 0)
    (keeps : (now : ℕ) (c : AuthChallenge) → P (consume now c)) where
  -- If the call signed somebody in, every challenge has `P` after it.
  abbrev Done : Result (Option CompletedEmailSignIn) × Tables W → Type 0
  Done w = (r : CompletedEmailSignIn) → w.0 ≡ ok (some r) → All P w.1.challenges

  opened_session-Done :
      (email_lookup : Text) (now : ℕ) (a : Account) (created : Bool) (s : AuthSession)
      (t : Tables W) (w : Result (Unit {0}) × Tables W)
      → All P w.1.challenges
      → Done (opened_session email_lookup now a created s t w)
  opened_session-Done email_lookup now a created s t (err, t') k r e = cc
  opened_session-Done email_lookup now a created s t (ok x, t') k r e =
      All-update_where P (open_for email_lookup) (consume now) t'.challenges (λ c u p. keeps now c)
        k

  insert_session-All :
      (s : AuthSession) (t : Tables W)
      → All P t.challenges
      → All P (insert_session s t).1.challenges
  unfolding insert_session
  insert_session-All s t h = elim (Bool-cases (admits_session s t)) [
    | inl e ↦ rw e h
    | inr e ↦ rw e h
  ]

  signed_in-Done :
      (email_lookup : Text) (now : ℕ) (a : Account) (created : Bool) (s : AuthSession)
      (t t' : Tables W)
      → All P t'.challenges
      → Done (signed_in email_lookup now a created s t t')
  unfolding signed_in
  signed_in-Done email_lookup now a created s t t' k =
      elim (Bool-cases (not (is_active a.status))) [
        | inl e ↦ rw e (λ r f. cc)
        | inr e ↦ rw e (
            opened_session-Done email_lookup now a created _ t
              (insert_session (record s { account_id = a.id }) t') (insert_session-All _ t' k))
      ]

  found_account-Done :
      (email_lookup : Text) (now : ℕ) (s : AuthSession) (t t' : Tables W) (created : Bool)
      (a : Option Account)
      → All P t'.challenges
      → Done (found_account email_lookup now s t t' created a)
  found_account-Done email_lookup now s t t' created none k = λ r e. cc
  found_account-Done email_lookup now s t t' created (some a) k =
      signed_in-Done email_lookup now a created s t t' k

  new_sign_in-Done :
      (email_lookup : Text) (now : ℕ) (a : Account) (s : AuthSession) (t t' : Tables W)
      → All P t'.challenges
      → Done (new_sign_in email_lookup now a s t t')
  unfolding new_sign_in
  new_sign_in-Done email_lookup now a s t t' k =
      elim (Bool-cases (any (λ (x : Account). text_eq x.email_lookup a.email_lookup) t'.accounts)) [
        | inl e ↦ rw e (
            found_account-Done email_lookup now s t t' false
              (account_by_email_lookup email_lookup t') k)
        | inr e ↦
            elim (Bool-cases (
              any
                (λ (x : Account).
                  (x.id == a.id) || text_eq x.webauthn_user_handle a.webauthn_user_handle)
                t'.accounts)) [
                  | inl f ↦ rw e (rw f (λ r g. cc))
                  | inr f ↦ rw e (
                      rw f (
                        found_account-Done email_lookup now s t
                          (record t' { accounts = t'.accounts ++ a ∷ [] }) true _ k))
                ]
      ]

  sign_in_as-Done :
      (email_lookup : Text) (now : ℕ) (a : Account) (s : AuthSession) (t t' : Tables W)
      (b : Option Account)
      → All P t'.challenges
      → Done (sign_in_as email_lookup now a s t t' b)
  sign_in_as-Done email_lookup now a s t t' none k = new_sign_in-Done email_lookup now a s t t' k
  sign_in_as-Done email_lookup now a s t t' (some b) k =
      signed_in-Done email_lookup now b false s t t' k

-- Who is signed in has found a challenge to consume, and leaves none.
abbrev Spends :
    {W : Type 0} → ℕ → ℕ → ℕ → Tables W → Result (Option CompletedEmailSignIn) × Tables W → Type 0
Spends id now max_attempts t w =
    (r : CompletedEmailSignIn)
    → w.0 ≡ ok (some r)
    → ((affected (can_complete id now max_attempts) t.challenges == 0) ≡ false)
      × All (Closed id now max_attempts) w.1.challenges

module _ {W : Type 0} (id now max_attempts : ℕ) (a : Account) (s : AuthSession) (t : Tables W) where
  consume_and_sign_in-Spends :
      (email_lookup : Text)
      → Spends id now max_attempts t (consume_and_sign_in id now max_attempts email_lookup a s t)
  unfolding consume_and_sign_in
  consume_and_sign_in-Spends email_lookup =
      elim (Bool-cases (affected (can_complete id now max_attempts) t.challenges == 0)) [
        | inl e ↦ rw e (λ r f. cc)
        | inr e ↦ rw e (λ r f. (
          refl,
          sign_in_as-Done (Closed id now max_attempts)
              (λ at c. Closed-consume id now max_attempts at c) email_lookup now a s t
              (record t {
                challenges =
                    update_where (can_complete id now max_attempts) (consume now) t.challenges;
              })
              _
              (All-update_both (λ c. Unit {0}) (Closed id now max_attempts)
                (can_complete id now max_attempts) (consume now) t.challenges
                (λ c hit u. Closed-consume id now max_attempts now c) (λ c miss u. miss)
                (everything t.challenges))
              r f,
        ))
      ]

  for_email-Spends :
      (c : AuthChallenge) (email_lookup : Option Text)
      → Spends id now max_attempts t (for_email id now max_attempts a s t c email_lookup)
  for_email-Spends c none = λ r e. cc
  for_email-Spends c (some email_lookup) =
      elim (Bool-cases (not (same_purpose c.purpose email_login))) [
        | inl e ↦ rw e (λ r f. cc)
        | inr e ↦ rw e (consume_and_sign_in-Spends email_lookup)
      ]

  of_challenge-Spends :
      (c : Option AuthChallenge)
      → Spends id now max_attempts t (of_challenge id now max_attempts a s t c)
  of_challenge-Spends none = λ r e. cc
  of_challenge-Spends (some c) = for_email-Spends c c.email_lookup

  pub complete_email_challenge-Spends :
      Spends id now max_attempts t (complete_email_challenge id now max_attempts a s t)
  unfolding complete_email_challenge
  complete_email_challenge-Spends = of_challenge-Spends (challenge_by_id id t)

  -- Where no row lets it through, nobody is signed in.
  pub Closed-completes_none :
      (r : CompletedEmailSignIn)
      → All (Closed id now max_attempts) t.challenges
      → (complete_email_challenge id now max_attempts a s t).0 ≢ ok (some r)
  Closed-completes_none r h e =
      let some_row = (complete_email_challenge-Spends r e).0 in
      let none_left : length (filter (can_complete id now max_attempts) t.challenges) ≡ 0 =
        ap length (filter_none (can_complete id now max_attempts) t.challenges h) in
      ground (arith, some_row, none_left)

-- A challenge by which `complete_email_challenge` has signed somebody in signs nobody in by another
-- `complete_email_challenge`, made at that time or later and with no more attempts allowed, whatever
-- calls of the repository come between, if none of them stores a challenge under its id anew.
pub challenge_once :
    {W : Type 0} (e : Engine) (id now later max_attempts fewer : ℕ) (a b : Account)
    (s z : AuthSession) (t : Tables W) (r q : CompletedEmailSignIn) (calls : List (Calls.Call W))
    → (complete_email_challenge id now max_attempts a s t).0 ≡ ok (some r)
    → All (NotReissued id) calls
    → now ≤ later
    → fewer ≤ max_attempts
    → (complete_email_challenge id later fewer b z
        (run e calls (complete_email_challenge id now max_attempts a s t).1)).0
      ≢ ok (some q)
challenge_once e id now later max_attempts fewer a b s z t r q calls first fresh time tries =
    let after = (complete_email_challenge-Spends id now max_attempts a s t r first).1 in
    let kept =
      run-AllRows (Closed id now max_attempts) (λ k. Unit {0}) (λ s. Unit {0})
        (challenges-IsStable (Closed id now max_attempts)
          (λ at c h. Closed-consume id now max_attempts at c)
          (λ c h. Closed-tried id now max_attempts c h))
        e calls (complete_email_challenge id now max_attempts a s t).1
        (All-map
          (λ call f.
            NotReissued-Brings (Closed id now max_attempts) id call
              (λ c ne. Closed-other id now max_attempts c ne) f)
          calls fresh)
        (record { challenges = after; keys = everything _; sessions = everything _ }) in
    Closed-completes_none id later fewer b z _ q (
      All-map (λ c h. Closed-later id now later max_attempts fewer c time tries h) _
        kept.challenges)
