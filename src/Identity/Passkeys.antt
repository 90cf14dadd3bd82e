-- ===== src/Identity/Passkeys.antt =====
-- Passkeys in src/sqlx_identity.rs, and the two ceremonies that end in one transaction.
use seiza_server.Base.{
  ℕ, Bool, true, false, not, ◌&&◌, ◌||◌, Option, none, some, List, Text, text_eq, ltb, ◌==◌,
  if◌then◌else◌, is_none, filter, find, any,
}
use seiza_server.Queue.Sql.{Engine, update_where}
use seiza_server.Identity.Rows.{
  passkey_registration, passkey_authentication, is_active, same_purpose, Account, AuthChallenge,
  AuthSession, PasskeyCredential, CompletedPasskeySignIn, Tables, Result, ok, err,
}
use seiza_server.Identity.Tables.{affected, number_is, insert_passkey, insert_session}
use seiza_server.Identity.Challenges.{consume}

-- `WHERE id = $ AND purpose = 'passkey-registration' AND account_id = $ AND ...`.
unfoldable pub can_register : ℕ → ℕ → ℕ → AuthChallenge → Bool
can_register id account_id now c =
    (c.id == id)
    && (same_purpose c.purpose passkey_registration
        && (number_is c.account_id account_id && (is_none c.consumed_at && ltb now c.expires_at)))

-- `WHERE id = $ AND purpose = 'passkey-authentication' AND ...`.
unfoldable pub can_authenticate : ℕ → ℕ → AuthChallenge → Bool
can_authenticate id now c =
    (c.id == id)
    && (same_purpose c.purpose passkey_authentication
        && (is_none c.consumed_at && ltb now c.expires_at))

-- `WHERE id = $ AND credential_id = $ AND account_id = $ AND revoked_at IS NULL`.
unfoldable pub is_live_passkey : PasskeyCredential → PasskeyCredential → Bool
is_live_passkey passkey p =
    (p.id == passkey.id)
    && (text_eq p.credential_id passkey.credential_id
        && ((p.account_id == passkey.account_id) && is_none p.revoked_at))

unfoldable pub passkey_used : Text → ℕ → PasskeyCredential → PasskeyCredential
passkey_used credential_json now p = record p {
  credential_json = credential_json;
  last_used_at = some now;
}

module _ {W : Type 0} where
  abbrev pub registered : Tables W → Result (Unit {0}) × Tables W → Result Bool × Tables W
  registered t (err, t') = (err, t)
  registered t (ok x, t') = (ok true, t')

  unfoldable pub complete_passkey_registration :
      ℕ → PasskeyCredential → ℕ → Tables W → Result Bool × Tables W
  unfolding can_register consume insert_passkey
  complete_passkey_registration challenge_id passkey now t =
      if affected (can_register challenge_id passkey.account_id now) t.challenges == 0
        || not
            (any (λ (a : Account). (a.id == passkey.account_id) && is_active a.status) t.accounts)
      then (ok false, t)
      else registered t (
          insert_passkey passkey (record t {
            challenges =
                update_where (can_register challenge_id passkey.account_id now) (consume now)
                  t.challenges;
          }))

  abbrev pub passkey_session :
      PasskeyCredential
      → AuthSession
      → ℕ
      → Account
      → Tables W
      → Result (Unit {0}) × Tables W
      → Result (Option CompletedPasskeySignIn) × Tables W
  passkey_session passkey session now account t (err, t') = (err, t)
  passkey_session passkey session now account t (ok x, t') = (
    ok (
        some (record {
          account = record account { updated_at = now; last_authenticated_at = now };
          session = session;
          passkey = record passkey { last_used_at = some now };
        })),
    record t' {
      accounts =
          update_where (λ a. (a.id == passkey.account_id) && is_active a.status)
            (λ a. record a { updated_at = now; last_authenticated_at = now }) t'.accounts;
    },
  )

  unfoldable pub passkey_sign_in :
      ℕ
      → PasskeyCredential
      → AuthSession
      → ℕ
      → Tables W
      → Account
      → Result (Option CompletedPasskeySignIn) × Tables W
  unfolding can_authenticate is_live_passkey passkey_used consume insert_session
  passkey_sign_in challenge_id passkey session now t account =
      if affected (can_authenticate challenge_id now) t.challenges == 0
      then (ok none, t)
      else if affected (is_live_passkey passkey) t.passkeys == 0
      then (ok none, t)
      else passkey_session passkey session now account t (
          insert_session session (record t {
            challenges =
                update_where (can_authenticate challenge_id now) (consume now) t.challenges;
            passkeys =
                update_where (is_live_passkey passkey) (passkey_used passkey.credential_json now)
                  t.passkeys;
          }))

  abbrev pub sign_in_active :
      ℕ
      → PasskeyCredential
      → AuthSession
      → ℕ
      → Tables W
      → Option Account
      → Result (Option CompletedPasskeySignIn) × Tables W
  sign_in_active challenge_id passkey session now t none = (ok none, t)
  sign_in_active challenge_id passkey session now t (some account) =
      passkey_sign_in challenge_id passkey session now t account

  unfoldable pub complete_passkey_sign_in :
      ℕ
      → PasskeyCredential
      → AuthSession
      → ℕ
      → Tables W
      → Result (Option CompletedPasskeySignIn) × Tables W
  unfolding passkey_sign_in
  complete_passkey_sign_in challenge_id passkey session now t =
      if not (passkey.account_id == session.account_id)
      then (err, t)
      else sign_in_active challenge_id passkey session now t
          (find (λ (a : Account). (a.id == passkey.account_id) && is_active a.status) t.accounts)

  unfoldable pub passkey_by_credential_id : Text → Tables W → Option PasskeyCredential
  passkey_by_credential_id credential_id t =
      find
        (λ (p : PasskeyCredential). text_eq p.credential_id credential_id && is_none p.revoked_at)
        t.passkeys

  unfoldable pub list_passkeys : Engine → ℕ → Tables W → List PasskeyCredential
  list_passkeys e account_id t =
      e.ascending (λ (p : PasskeyCredential). p.created_at)
        (filter (λ (p : PasskeyCredential). p.account_id == account_id) t.passkeys)

  unfoldable pub revoke_passkey : ℕ → ℕ → ℕ → Tables W → Bool × Tables W
  revoke_passkey account_id passkey_id revoked_at t =
      let test = λ (p : PasskeyCredential).
        (p.id == passkey_id) && ((p.account_id == account_id) && is_none p.revoked_at) in
      (
        ltb 0 (affected test t.passkeys),
        record t {
          passkeys = update_where test (λ p. record p { revoked_at = some revoked_at }) t.passkeys;
        },
      )
