-- ===== src/Identity/Stability.antt =====
-- Predicates of rows under the calls of src/sqlx_identity.rs, one by one.
use seiza_server.Base.{
  ℕ, ◌≡◌, refl, inl, inr, Bool, true, false, not, ◌&&◌, ◌||◌, Option, none, some, List, [], ◌∷◌,
  ◌++◌, arith, Text, ltb, ◌==◌, is_none, any, text_eq, Bool-cases, All, All-append,
}
use seiza_server.Queue.Sql.{Engine, text_is, update_where}
use seiza_server.Identity.Rows.{
  email_login, same_purpose, is_active, Account, AuthChallenge, AuthSession, PasskeyCredential,
  ApiKey, Tables, Result, ok, err,
}
use seiza_server.Identity.Tables.{
  affected, inserted, admits_challenge, admits_session, admits_passkey, insert_challenge,
  insert_session, insert_passkey,
}
use seiza_server.Identity.Challenges.{
  consume, consume_each, tried, can_try, can_complete, open_for, capped, email_challenge,
  opened_session, signed_in, found_account, new_sign_in, sign_in_as, consume_and_sign_in, for_email,
  of_challenge,
}
use seiza_server.Identity.Accounts.{account_by_email_lookup}
use seiza_server.Identity.Sessions.{revoked, touched}
use seiza_server.Identity.Passkeys.{
  is_live_passkey, can_register, can_authenticate, complete_passkey_registration, registered,
  passkey_session, passkey_sign_in, sign_in_active,
}
use seiza_server.Identity.Keys.{used, revoked_key}
use seiza_server.Identity.Calls

-- `UPDATE` keeps what its change keeps on the rows that it takes.
pub All-update_where {ℓ κ} :
    {A : Type ℓ} (P : A → Type κ) (test : A → Bool) (change : A → A) (rows : List A)
    → ((row : A) → test row ≡ true → P row → P (change row))
    → All P rows
    → All P (update_where test change rows)
unfolding update_where
All-update_where P test change [] keep h = tt
All-update_where P test change (row ∷ rows) keep h = elim (Bool-cases (test row)) [
  | inl e ↦ rw e (keep row e h.0, All-update_where P test change rows keep h.1)
  | inr e ↦ rw e (h.0, All-update_where P test change rows keep h.1)
]

pub and_inv : (a b : Bool) → (a && b) ≡ true → (a ≡ true) × (b ≡ true)
and_inv true true h = (refl, refl)
and_inv true false h = cc
and_inv false b h = cc

pub open_for-is_none :
    (email_lookup : Text) (c : AuthChallenge)
    → open_for email_lookup c ≡ true
    → is_none c.consumed_at ≡ true
unfolding open_for
open_for-is_none email_lookup c e =
    (and_inv (same_purpose c.purpose email_login) (is_none c.consumed_at)
      (and_inv (text_is c.email_lookup email_lookup)
        (same_purpose c.purpose email_login && is_none c.consumed_at) e).1).1

pub can_try-is_none :
    (id now max_attempts : ℕ) (c : AuthChallenge)
    → can_try id now max_attempts c ≡ true
    → is_none c.consumed_at ≡ true
unfolding can_try
can_try-is_none id now max_attempts c e =
    (and_inv (is_none c.consumed_at) (ltb now c.expires_at && ltb c.attempts max_attempts)
      (and_inv (c.id == id)
        (is_none c.consumed_at && (ltb now c.expires_at && ltb c.attempts max_attempts)) e).1).0

pub can_complete-is_none :
    (id now max_attempts : ℕ) (c : AuthChallenge)
    → can_complete id now max_attempts c ≡ true
    → is_none c.consumed_at ≡ true
unfolding can_complete
can_complete-is_none id now max_attempts c e =
    can_try-is_none id now max_attempts c
      (and_inv (same_purpose c.purpose email_login) (can_try id now max_attempts c) e).1

can_register-is_none :
    (id account_id now : ℕ) (c : AuthChallenge)
    → can_register id account_id now c ≡ true
    → is_none c.consumed_at ≡ true
unfolding can_register
can_register-is_none id account_id now c e = ground (arith, e)

can_authenticate-is_none :
    (id now : ℕ) (c : AuthChallenge)
    → can_authenticate id now c ≡ true
    → is_none c.consumed_at ≡ true
unfolding can_authenticate
can_authenticate-is_none id now c e = ground (arith, e)

module _ {W : Type 0} (Pc : AuthChallenge → Type 0) (Pk : ApiKey W → Type 0)
    (Ps : AuthSession → Type 0) where
  -- Every challenge, key and session of the tables.
  pub record AllRows (t : Tables W) : Type 0 where
    pub challenges : All Pc t.challenges
    pub keys : All Pk t.api_keys
    pub sessions : All Ps t.sessions

  -- The changes that a call makes to a row keep the predicates.
  pub record IsStable : Type 0 where
    pub consumes :
        (now : ℕ) (c : AuthChallenge) → is_none c.consumed_at ≡ true → Pc c → Pc (consume now c)
    pub tries : (c : AuthChallenge) → Pc c → Pc (tried c)
    pub uses : (now : ℕ) (k : ApiKey W) → Pk k → Pk (used now k)
    pub revokes_key : (now : ℕ) (k : ApiKey W) → Pk k → Pk (revoked_key now k)
    pub touches :
        (last_seen_at expires_at : ℕ) (s : AuthSession)
        → is_none s.revoked_at ≡ true
        → Ps s
        → Ps (touched last_seen_at expires_at s)
    pub revokes : (now : ℕ) (s : AuthSession) → Ps s → Ps (revoked now s)

  -- The rows that a call may insert have the predicates.
  abbrev pub Brings : Calls.Call W → Type 0
  Brings (Calls.accounts a) = Unit
  Brings (Calls.challenges c) = Pc c
  Brings (Calls.emails c max_live) = Pc c
  Brings (Calls.fails id now max_attempts) = Unit
  Brings (Calls.completes id now max_attempts a s) =
      (account_id : ℕ) → Ps (record s { account_id = account_id })
  Brings (Calls.sessions s) = Ps s
  Brings (Calls.touches a s l e) = Unit
  Brings (Calls.revokes a s r) = Unit
  Brings (Calls.revokes_all a r) = Unit
  Brings (Calls.deletes a s) = Unit
  Brings (Calls.passkeys p) = Unit
  Brings (Calls.registers id p now) = Unit
  Brings (Calls.signs_in id p s now) = Ps s
  Brings (Calls.revokes_passkey a p r) = Unit
  Brings (Calls.keys k) = Pk k
  Brings (Calls.touches_key a k l) = Unit
  Brings (Calls.revokes_key a k r) = Unit
  Brings (Calls.purges now) = Unit

  pub inserted-AllRows :
      (b : Bool) (t t' : Tables W) → AllRows t → AllRows t' → AllRows (inserted b t t').1
  inserted-AllRows true t t' h k = k
  inserted-AllRows false t t' h k = h

  module _ (stable : IsStable) where
    pub insert_challenge-AllRows :
        (c : AuthChallenge) (t : Tables W) → Pc c → AllRows t → AllRows (insert_challenge c t).1
    unfolding insert_challenge
    insert_challenge-AllRows c t p h =
        inserted-AllRows (admits_challenge c t) t (record t { challenges = t.challenges ++ c ∷ [] })
          h
          (record {
            challenges = All-append Pc t.challenges (c ∷ []) h.challenges (p, tt);
            keys = h.keys;
            sessions = h.sessions;
          })

    pub insert_session-AllRows :
        (s : AuthSession) (t : Tables W) → Ps s → AllRows t → AllRows (insert_session s t).1
    unfolding insert_session
    insert_session-AllRows s t p h =
        inserted-AllRows (admits_session s t) t (record t { sessions = t.sessions ++ s ∷ [] }) h
          (record {
            challenges = h.challenges;
            keys = h.keys;
            sessions = All-append Ps t.sessions (s ∷ []) h.sessions (p, tt);
          })

    consume_each-All :
        (now : ℕ) (rows challenges : List AuthChallenge)
        → All Pc challenges
        → All Pc (consume_each now rows challenges)
    unfolding consume_each
    consume_each-All now [] challenges h = h
    consume_each-All now (row ∷ rows) challenges h =
        consume_each-All now rows
          (update_where (λ c. (c.id == row.id) && is_none c.consumed_at) (consume now) challenges)
          (All-update_where Pc (λ c. (c.id == row.id) && is_none c.consumed_at) (consume now)
            challenges
            (λ c e p.
              stable.consumes now c (and_inv (c.id == row.id) (is_none c.consumed_at) e).1 p)
            h)

    -- Tables in which only challenges have been consumed.
    consume_where-AllRows :
        (now : ℕ) (test : AuthChallenge → Bool) (t : Tables W)
        → ((c : AuthChallenge) → test c ≡ true → is_none c.consumed_at ≡ true)
        → AllRows t
        → AllRows (record t { challenges = update_where test (consume now) t.challenges })
    consume_where-AllRows now test t opens h = record {
      challenges =
          All-update_where Pc test (consume now) t.challenges
            (λ c e p. stable.consumes now c (opens c e) p) h.challenges;
      keys = h.keys;
      sessions = h.sessions;
    }

    pub session_where-AllRows :
        (test : AuthSession → Bool) (change : AuthSession → AuthSession) (t : Tables W)
        → ((s : AuthSession) → test s ≡ true → Ps s → Ps (change s))
        → AllRows t
        → AllRows (record t { sessions = update_where test change t.sessions })
    session_where-AllRows test change t keep h = record {
      challenges = h.challenges;
      keys = h.keys;
      sessions = All-update_where Ps test change t.sessions keep h.sessions;
    }

    capped-AllRows :
        (e : Engine) (email_lookup : Text) (created_at max_live : ℕ) (t : Tables W)
        (w : Result (Unit {0}) × Tables W)
        → AllRows t
        → AllRows w.1
        → AllRows (capped e email_lookup created_at max_live t w).1
    capped-AllRows e email_lookup created_at max_live t (err, t') h k = h
    capped-AllRows e email_lookup created_at max_live t (ok x, t') h k = record {
      challenges = consume_each-All created_at _ t'.challenges k.challenges;
      keys = k.keys;
      sessions = k.sessions;
    }

    pub email_challenge-AllRows :
        (e : Engine) (c : AuthChallenge) (max_live : ℕ) (t : Tables W) (email_lookup : Option Text)
        → Pc c
        → AllRows t
        → AllRows (email_challenge e c max_live t email_lookup).1
    email_challenge-AllRows e c max_live t none p h = h
    email_challenge-AllRows e c max_live t (some email_lookup) p h =
        capped-AllRows e email_lookup c.created_at max_live t (insert_challenge c t) h
          (insert_challenge-AllRows c t p h)

    opened_session-AllRows :
        (email_lookup : Text) (now : ℕ) (a : Account) (created : Bool) (s : AuthSession)
        (t : Tables W) (w : Result (Unit {0}) × Tables W)
        → AllRows t
        → AllRows w.1
        → AllRows (opened_session email_lookup now a created s t w).1
    opened_session-AllRows email_lookup now a created s t (err, t') h k = h
    opened_session-AllRows email_lookup now a created s t (ok x, t') h k = record {
      challenges =
          (consume_where-AllRows now (open_for email_lookup) t' (open_for-is_none email_lookup)
            k).challenges;
      keys = k.keys;
      sessions = k.sessions;
    }

    signed_in-AllRows :
        (email_lookup : Text) (now : ℕ) (a : Account) (created : Bool) (s : AuthSession)
        (t t' : Tables W)
        → ((account_id : ℕ) → Ps (record s { account_id = account_id }))
        → AllRows t
        → AllRows t'
        → AllRows (signed_in email_lookup now a created s t t').1
    unfolding signed_in
    signed_in-AllRows email_lookup now a created s t t' p h k =
        elim (Bool-cases (not (is_active a.status))) [
          | inl e ↦ rw e h
          | inr e ↦ rw e (
              opened_session-AllRows email_lookup now a created _ t
                (insert_session (record s { account_id = a.id }) t') h
                (insert_session-AllRows (record s { account_id = a.id }) t' (p a.id) k))
        ]

    found_account-AllRows :
        (email_lookup : Text) (now : ℕ) (s : AuthSession) (t t' : Tables W) (created : Bool)
        (a : Option Account)
        → ((account_id : ℕ) → Ps (record s { account_id = account_id }))
        → AllRows t
        → AllRows t'
        → AllRows (found_account email_lookup now s t t' created a).1
    found_account-AllRows email_lookup now s t t' created none p h k = h
    found_account-AllRows email_lookup now s t t' created (some a) p h k =
        signed_in-AllRows email_lookup now a created s t t' p h k

    new_sign_in-AllRows :
        (email_lookup : Text) (now : ℕ) (a : Account) (s : AuthSession) (t t' : Tables W)
        → ((account_id : ℕ) → Ps (record s { account_id = account_id }))
        → AllRows t
        → AllRows t'
        → AllRows (new_sign_in email_lookup now a s t t').1
    unfolding new_sign_in
    new_sign_in-AllRows email_lookup now a s t t' p h k =
        elim (Bool-cases
          (any (λ (x : Account). text_eq x.email_lookup a.email_lookup) t'.accounts)) [
            | inl e ↦ rw e (
                found_account-AllRows email_lookup now s t t' false
                  (account_by_email_lookup email_lookup t') p h k)
            | inr e ↦
                elim (Bool-cases (
                  any
                    (λ (x : Account).
                      (x.id == a.id) || text_eq x.webauthn_user_handle a.webauthn_user_handle)
                    t'.accounts)) [
                      | inl f ↦ rw e (rw f h)
                      | inr f ↦ rw e (
                          rw f (
                            found_account-AllRows email_lookup now s t
                              (record t' { accounts = t'.accounts ++ a ∷ [] }) true _ p h
                              (record {
                                challenges = k.challenges;
                                keys = k.keys;
                                sessions = k.sessions;
                              })))
                    ]
          ]

    sign_in_as-AllRows :
        (email_lookup : Text) (now : ℕ) (a : Account) (s : AuthSession) (t t' : Tables W)
        (b : Option Account)
        → ((account_id : ℕ) → Ps (record s { account_id = account_id }))
        → AllRows t
        → AllRows t'
        → AllRows (sign_in_as email_lookup now a s t t' b).1
    sign_in_as-AllRows email_lookup now a s t t' none p h k =
        new_sign_in-AllRows email_lookup now a s t t' p h k
    sign_in_as-AllRows email_lookup now a s t t' (some b) p h k =
        signed_in-AllRows email_lookup now b false s t t' p h k

    consume_and_sign_in-AllRows :
        (id now max_attempts : ℕ) (email_lookup : Text) (a : Account) (s : AuthSession)
        (t : Tables W)
        → ((account_id : ℕ) → Ps (record s { account_id = account_id }))
        → AllRows t
        → AllRows (consume_and_sign_in id now max_attempts email_lookup a s t).1
    unfolding consume_and_sign_in
    consume_and_sign_in-AllRows id now max_attempts email_lookup a s t p h =
        elim (Bool-cases (affected (can_complete id now max_attempts) t.challenges == 0)) [
          | inl e ↦ rw e h
          | inr e ↦ rw e (
              sign_in_as-AllRows email_lookup now a s t
                (record t {
                  challenges =
                      update_where (can_complete id now max_attempts) (consume now) t.challenges;
                })
                _ p h
                (consume_where-AllRows now (can_complete id now max_attempts) t
                  (can_complete-is_none id now max_attempts) h))
        ]

    for_email-AllRows :
        (id now max_attempts : ℕ) (a : Account) (s : AuthSession) (t : Tables W) (c : AuthChallenge)
        (email_lookup : Option Text)
        → ((account_id : ℕ) → Ps (record s { account_id = account_id }))
        → AllRows t
        → AllRows (for_email id now max_attempts a s t c email_lookup).1
    for_email-AllRows id now max_attempts a s t c none p h = h
    for_email-AllRows id now max_attempts a s t c (some email_lookup) p h =
        elim (Bool-cases (not (same_purpose c.purpose email_login))) [
          | inl e ↦ rw e h
          | inr e ↦ rw e (consume_and_sign_in-AllRows id now max_attempts email_lookup a s t p h)
        ]

    pub of_challenge-AllRows :
        (id now max_attempts : ℕ) (a : Account) (s : AuthSession) (t : Tables W)
        (c : Option AuthChallenge)
        → ((account_id : ℕ) → Ps (record s { account_id = account_id }))
        → AllRows t
        → AllRows (of_challenge id now max_attempts a s t c).1
    of_challenge-AllRows id now max_attempts a s t none p h = h
    of_challenge-AllRows id now max_attempts a s t (some c) p h =
        for_email-AllRows id now max_attempts a s t c c.email_lookup p h

    registered-AllRows :
        (t : Tables W) (w : Result (Unit {0}) × Tables W)
        → AllRows t
        → AllRows w.1
        → AllRows (registered t w).1
    registered-AllRows t (err, t') h k = h
    registered-AllRows t (ok x, t') h k = k

    pub insert_passkey-AllRows :
        (q : PasskeyCredential) (t : Tables W) → AllRows t → AllRows (insert_passkey q t).1
    unfolding insert_passkey
    insert_passkey-AllRows q t h =
        inserted-AllRows (admits_passkey q t) t (record t { passkeys = t.passkeys ++ q ∷ [] }) h
          (record { challenges = h.challenges; keys = h.keys; sessions = h.sessions })

    pub registration-AllRows :
        (id : ℕ) (q : PasskeyCredential) (now : ℕ) (t : Tables W)
        → AllRows t
        → AllRows (complete_passkey_registration id q now t).1
    unfolding complete_passkey_registration
    registration-AllRows id q now t h =
        elim (Bool-cases (
          affected (can_register id q.account_id now) t.challenges == 0
          || not
              (any (λ (a : Account). (a.id == q.account_id) && is_active a.status) t.accounts))) [
                | inl e ↦ rw e h
                | inr e ↦ rw e (
                    registered-AllRows t _ h (
                      insert_passkey-AllRows q
                        (record t {
                          challenges =
                              update_where (can_register id q.account_id now) (consume now)
                                t.challenges;
                        })
                        (consume_where-AllRows now (can_register id q.account_id now) t
                          (can_register-is_none id q.account_id now) h)))
              ]

    passkey_session-AllRows :
        (q : PasskeyCredential) (s : AuthSession) (now : ℕ) (a : Account) (t : Tables W)
        (w : Result (Unit {0}) × Tables W)
        → AllRows t
        → AllRows w.1
        → AllRows (passkey_session q s now a t w).1
    passkey_session-AllRows q s now a t (err, t') h k = h
    passkey_session-AllRows q s now a t (ok x, t') h k = record {
      challenges = k.challenges;
      keys = k.keys;
      sessions = k.sessions;
    }

    passkey_sign_in-AllRows :
        (id : ℕ) (q : PasskeyCredential) (s : AuthSession) (now : ℕ) (t : Tables W) (a : Account)
        → Ps s
        → AllRows t
        → AllRows (passkey_sign_in id q s now t a).1
    unfolding passkey_sign_in
    passkey_sign_in-AllRows id q s now t a p h =
        elim (Bool-cases (affected (can_authenticate id now) t.challenges == 0)) [
          | inl e ↦ rw e h
          | inr e ↦ elim (Bool-cases (affected (is_live_passkey q) t.passkeys == 0)) [
            | inl f ↦ rw e (rw f h)
            | inr f ↦ rw e (
                rw f (
                  passkey_session-AllRows q s now a t _ h (
                    insert_session-AllRows s _ p (
                      let k =
                        consume_where-AllRows now (can_authenticate id now) t
                          (can_authenticate-is_none id now) h in
                      record { challenges = k.challenges; keys = k.keys; sessions = k.sessions }))))
          ]
        ]

    pub sign_in_active-AllRows :
        (id : ℕ) (q : PasskeyCredential) (s : AuthSession) (now : ℕ) (t : Tables W)
        (a : Option Account)
        → Ps s
        → AllRows t
        → AllRows (sign_in_active id q s now t a).1
    sign_in_active-AllRows id q s now t none p h = h
    sign_in_active-AllRows id q s now t (some a) p h = passkey_sign_in-AllRows id q s now t a p h
