-- ===== src/Identity/Runs.antt =====
-- Predicates of rows along a history of calls of src/sqlx_identity.rs.
use seiza_server.Base.{
  ℕ, ◌-◌, ◌*◌, inl, inr, Bool, not, ◌&&◌, List, [], ◌∷◌, ◌++◌, ltb, ◌==◌, is_none, Bool-cases, All,
  All-append, All-filter, find,
}
use seiza_server.Queue.Sql.{Engine, update_where}
use seiza_server.Identity.Rows.{
  email_login, same_purpose, is_active, Account, AuthChallenge, AuthSession, PasskeyCredential,
  ApiKey, Tables,
}
use seiza_server.Identity.Tables.{
  affected, admits_account, admits_key, create_account, create_api_key,
}
use seiza_server.Identity.Challenges.{
  challenge_by_id, tried, can_try, create_email_challenge, record_challenge_failure,
  complete_email_challenge,
}
use seiza_server.Identity.Sessions.{
  hour, is_dead, session_is, revoked, touched, touch_session, revoke_session, revoke_all_sessions,
  delete_session, purge_expired,
}
use seiza_server.Identity.Passkeys.{complete_passkey_sign_in, revoke_passkey}
use seiza_server.Identity.Keys.{key_is, used, revoked_key, touch_api_key, revoke_api_key}
use seiza_server.Identity.Calls
use seiza_server.Identity.Calls.{step, run}
use seiza_server.Identity.Stability.{
  All-update_where, and_inv, AllRows, IsStable, Brings, inserted-AllRows, insert_challenge-AllRows,
  insert_session-AllRows, session_where-AllRows, email_challenge-AllRows, of_challenge-AllRows,
  insert_passkey-AllRows, registration-AllRows, sign_in_active-AllRows,
}

module _ {W : Type 0} (Pc : AuthChallenge → Type 0) (Pk : ApiKey W → Type 0)
    (Ps : AuthSession → Type 0) (stable : IsStable Pc Pk Ps) where
  abbrev Rows : Tables W → Type 0
  Rows t = AllRows Pc Pk Ps t

  create_email_challenge-AllRows :
      (e : Engine) (c : AuthChallenge) (max_live : ℕ) (t : Tables W)
      → Pc c
      → Rows t
      → Rows (create_email_challenge e c max_live t).1
  unfolding create_email_challenge
  create_email_challenge-AllRows e c max_live t p h =
      elim (Bool-cases (not (same_purpose c.purpose email_login))) [
        | inl a ↦ rw a h
        | inr a ↦ elim (Bool-cases (max_live == 0)) [
          | inl b ↦ rw a (rw b h)
          | inr b ↦
              rw a
                (rw b (email_challenge-AllRows Pc Pk Ps stable e c max_live t c.email_lookup p h))
        ]
      ]

  pub failure-AllRows :
      (id now max_attempts : ℕ) (t : Tables W)
      → Rows t
      → Rows (record_challenge_failure id now max_attempts t).1
  unfolding record_challenge_failure
  failure-AllRows id now max_attempts t h =
      let k : Rows (record t {
        challenges = update_where (can_try id now max_attempts) tried t.challenges;
      }) =
        record {
          challenges =
              All-update_where Pc (can_try id now max_attempts) tried t.challenges
                (λ c e p. stable.tries c p) h.challenges;
          keys = h.keys;
          sessions = h.sessions;
        } in
      elim (Bool-cases (affected (can_try id now max_attempts) t.challenges == 0)) [
        | inl a ↦ rw a k
        | inr a ↦ rw a k
      ]

  key_where-AllRows :
      (test : ApiKey W → Bool) (change : ApiKey W → ApiKey W) (t : Tables W)
      → ((k : ApiKey W) → Pk k → Pk (change k))
      → Rows t
      → Rows (record t { api_keys = update_where test change t.api_keys })
  key_where-AllRows test change t keep h = record {
    challenges = h.challenges;
    keys = All-update_where Pk test change t.api_keys (λ k e p. keep k p) h.keys;
    sessions = h.sessions;
  }

  revoke_api_key-AllRows :
      (account_id key_id now : ℕ) (t : Tables W)
      → Rows t
      → Rows (revoke_api_key account_id key_id now t).1
  unfolding revoke_api_key
  revoke_api_key-AllRows account_id key_id now t h =
      elim (Bool-cases (
        affected (λ (k : ApiKey W). key_is account_id key_id k && is_none k.revoked_at) t.api_keys
        == 0)) [
          | inl e ↦ rw e h
          | inr e ↦ rw e (
              session_where-AllRows Pc Pk Ps stable _ (revoked now)
                (record t {
                  api_keys =
                      update_where
                        (λ (k : ApiKey W). key_is account_id key_id k && is_none k.revoked_at)
                        (revoked_key now) t.api_keys;
                })
                (λ s e p. stable.revokes now s p)
                (key_where-AllRows _ (revoked_key now) t (λ k p. stable.revokes_key now k p) h))
        ]

  complete_passkey_sign_in-AllRows :
      (id : ℕ) (q : PasskeyCredential) (s : AuthSession) (now : ℕ) (t : Tables W)
      → Ps s
      → Rows t
      → Rows (complete_passkey_sign_in id q s now t).1
  unfolding complete_passkey_sign_in
  complete_passkey_sign_in-AllRows id q s now t p h =
      elim (Bool-cases (not (q.account_id == s.account_id))) [
        | inl a ↦ rw a h
        | inr a ↦ rw a (
            sign_in_active-AllRows Pc Pk Ps stable id q s now t
              (find (λ (x : Account). (x.id == q.account_id) && is_active x.status) t.accounts) p h)
      ]

  -- One call keeps what all rows have, if the rows that it brings have it.
  pub step-AllRows :
      (e : Engine) (call : Calls.Call W) (t : Tables W)
      → Brings Pc Pk Ps call
      → Rows t
      → Rows (step e call t)
  unfolding step create_account touch_session revoke_session revoke_all_sessions delete_session
      complete_passkey_sign_in complete_email_challenge revoke_passkey create_api_key touch_api_key
      purge_expired
  step-AllRows e (Calls.accounts a) t p h =
      inserted-AllRows Pc Pk Ps (admits_account a t) t
        (record t { accounts = t.accounts ++ a ∷ [] }) h
        (record { challenges = h.challenges; keys = h.keys; sessions = h.sessions })
  step-AllRows e (Calls.challenges c) t p h = insert_challenge-AllRows Pc Pk Ps stable c t p h
  step-AllRows e (Calls.emails c max_live) t p h = create_email_challenge-AllRows e c max_live t p h
  step-AllRows e (Calls.fails id now max_attempts) t p h = failure-AllRows id now max_attempts t h
  step-AllRows e (Calls.completes id now max_attempts a s) t p h =
      of_challenge-AllRows Pc Pk Ps stable id now max_attempts a s t (challenge_by_id id t) p h
  step-AllRows e (Calls.sessions s) t p h = insert_session-AllRows Pc Pk Ps stable s t p h
  step-AllRows e (Calls.touches account_id session_id last expires) t p h =
      session_where-AllRows Pc Pk Ps stable _ (touched last expires) t
        (λ s e q.
          stable.touches last expires s
            (and_inv (is_none s.revoked_at) (ltb last s.absolute_expires_at)
              (and_inv (session_is account_id session_id s)
                (is_none s.revoked_at && ltb last s.absolute_expires_at) e).1).0
            q)
        h
  step-AllRows e (Calls.revokes account_id session_id now) t p h =
      session_where-AllRows Pc Pk Ps stable _ (revoked now) t (λ s e q. stable.revokes now s q) h
  step-AllRows e (Calls.revokes_all account_id now) t p h =
      session_where-AllRows Pc Pk Ps stable _ (revoked now) t (λ s e q. stable.revokes now s q) h
  step-AllRows e (Calls.deletes account_id session_id) t p h = record {
    challenges = h.challenges;
    keys = h.keys;
    sessions = All-filter Ps (λ s. not (session_is account_id session_id s)) t.sessions h.sessions;
  }
  step-AllRows e (Calls.passkeys q) t p h = insert_passkey-AllRows Pc Pk Ps stable q t h
  step-AllRows e (Calls.registers id q now) t p h =
      registration-AllRows Pc Pk Ps stable id q now t h
  step-AllRows e (Calls.signs_in id q s now) t p h =
      complete_passkey_sign_in-AllRows id q s now t p h
  step-AllRows e (Calls.revokes_passkey account_id passkey_id now) t p h = record {
    challenges = h.challenges;
    keys = h.keys;
    sessions = h.sessions;
  }
  step-AllRows e (Calls.keys k) t p h =
      inserted-AllRows Pc Pk Ps (admits_key k t) t (record t { api_keys = t.api_keys ++ k ∷ [] }) h
        (record {
          challenges = h.challenges;
          keys = All-append Pk t.api_keys (k ∷ []) h.keys (p, tt);
          sessions = h.sessions;
        })
  step-AllRows e (Calls.touches_key account_id key_id now) t p h =
      key_where-AllRows _ (used now) t (λ k q. stable.uses now k q) h
  step-AllRows e (Calls.revokes_key account_id key_id now) t p h =
      revoke_api_key-AllRows account_id key_id now t h
  step-AllRows e (Calls.purges now) t p h = record {
    challenges =
        All-filter Pc (λ (c : AuthChallenge). not (ltb c.expires_at (now - 24 * hour))) t.challenges
          h.challenges;
    keys = h.keys;
    sessions = All-filter Ps (λ s. not (is_dead now s)) t.sessions h.sessions;
  }

  -- So does a history.
  pub run-AllRows :
      (e : Engine) (calls : List (Calls.Call W)) (t : Tables W)
      → All (Brings Pc Pk Ps) calls
      → Rows t
      → Rows (run e calls t)
  unfolding run
  run-AllRows e [] t p h = h
  run-AllRows e (call ∷ calls) t p h =
      run-AllRows e calls (step e call t) p.1 (step-AllRows e call t p.0 h)
