-- ===== src/Identity/Calls.antt =====
-- Histories of calls of the repository in src/sqlx_identity.rs.
use seiza_server.Base.{ℕ, List, [], ◌∷◌}
use seiza_server.Queue.Sql.{Engine}
use seiza_server.Identity.Rows.{
  Account, AuthChallenge, AuthSession, PasskeyCredential, ApiKey, Tables,
}
use seiza_server.Identity.Tables.{
  create_account, insert_challenge, insert_session, insert_passkey, create_api_key,
}
use seiza_server.Identity.Challenges.{
  create_email_challenge, record_challenge_failure, complete_email_challenge,
}
use seiza_server.Identity.Sessions.{
  touch_session, revoke_session, revoke_all_sessions, delete_session, purge_expired,
}
use seiza_server.Identity.Passkeys.{
  complete_passkey_registration, complete_passkey_sign_in, revoke_passkey,
}
use seiza_server.Identity.Keys.{touch_api_key, revoke_api_key}

-- The methods of `IdentityRepository` that write, with their arguments.
pub data Call (W : Type 0) : Type 0 where
  accounts : Account → Call W
  challenges : AuthChallenge → Call W
  emails : AuthChallenge → ℕ → Call W
  fails : (id now max_attempts : ℕ) → Call W
  completes : (id now max_attempts : ℕ) → Account → AuthSession → Call W
  sessions : AuthSession → Call W
  touches : (account_id session_id last_seen_at expires_at : ℕ) → Call W
  revokes : (account_id session_id revoked_at : ℕ) → Call W
  revokes_all : (account_id revoked_at : ℕ) → Call W
  deletes : (account_id session_id : ℕ) → Call W
  passkeys : PasskeyCredential → Call W
  registers : ℕ → PasskeyCredential → ℕ → Call W
  signs_in : ℕ → PasskeyCredential → AuthSession → ℕ → Call W
  revokes_passkey : (account_id passkey_id revoked_at : ℕ) → Call W
  keys : ApiKey W → Call W
  touches_key : (account_id key_id last_used_at : ℕ) → Call W
  revokes_key : (account_id key_id revoked_at : ℕ) → Call W
  purges : ℕ → Call W

module _ {W : Type 0} where
  unfoldable pub step : Engine → Call W → Tables W → Tables W
  unfolding create_account insert_challenge create_email_challenge record_challenge_failure
      complete_email_challenge insert_session touch_session revoke_session revoke_all_sessions
      delete_session insert_passkey complete_passkey_registration complete_passkey_sign_in
      revoke_passkey create_api_key touch_api_key revoke_api_key purge_expired
  step e (accounts a) t = (create_account a t).1
  step e (challenges c) t = (insert_challenge c t).1
  step e (emails c max_live) t = (create_email_challenge e c max_live t).1
  step e (fails id now max_attempts) t = (record_challenge_failure id now max_attempts t).1
  step e (completes id now max_attempts a s) t =
      (complete_email_challenge id now max_attempts a s t).1
  step e (sessions s) t = (insert_session s t).1
  step e (touches account_id session_id last_seen_at expires_at) t =
      (touch_session account_id session_id last_seen_at expires_at t).1
  step e (revokes account_id session_id revoked_at) t =
      (revoke_session account_id session_id revoked_at t).1
  step e (revokes_all account_id revoked_at) t = (revoke_all_sessions account_id revoked_at t).1
  step e (deletes account_id session_id) t = delete_session account_id session_id t
  step e (passkeys p) t = (insert_passkey p t).1
  step e (registers id p now) t = (complete_passkey_registration id p now t).1
  step e (signs_in id p s now) t = (complete_passkey_sign_in id p s now t).1
  step e (revokes_passkey account_id passkey_id revoked_at) t =
      (revoke_passkey account_id passkey_id revoked_at t).1
  step e (keys k) t = (create_api_key k t).1
  step e (touches_key account_id key_id last_used_at) t =
      (touch_api_key account_id key_id last_used_at t).1
  step e (revokes_key account_id key_id revoked_at) t =
      (revoke_api_key account_id key_id revoked_at t).1
  step e (purges now) t = (purge_expired now t).1

  unfoldable pub run : Engine → List (Call W) → Tables W → Tables W
  unfolding step
  run e [] t = t
  run e (call ∷ calls) t = run e calls (step e call t)
