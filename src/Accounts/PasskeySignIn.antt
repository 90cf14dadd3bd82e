-- ===== src/Accounts/PasskeySignIn.antt =====
-- Passkeys in src/auth.rs: the registration and the authentication ceremony. A call's one clock
-- reading stands for the two or three that it takes.
use seiza_server.Base.{
  ℕ, ◌+◌, Bool, true, false, not, ◌&&◌, ◌||◌, Option, none, some, List, [], ◌∷◌, Text, text, ltb,
  ◌==◌, if◌then◌else◌, is_none, length, filter,
}
use seiza_server.Queue.Sql.{Engine}
use seiza_server.Identity.Rows.{
  passkey_registration, passkey_authentication, same_purpose, ChallengePurpose, AuthChallenge,
  PasskeyCredential, CompletedPasskeySignIn, Tables, Result, ok, err,
}
use seiza_server.Identity.Tables.{insert_challenge}
use seiza_server.Identity.Challenges.{challenge_by_id}
use seiza_server.Identity.Passkeys.{
  complete_passkey_registration, complete_passkey_sign_in, passkey_by_credential_id, list_passkeys,
}
use seiza_server.Accounts.Secrets.{
  Primitives, invalid_credential, internal, invalid_passkey_label, rate_limited, AuthError, Outcome,
  done, failed, challenge_lifetime,
}
use seiza_server.Accounts.Tokens.{format_prefixed_token}
use seiza_server.Accounts.EmailSignIn.{new_browser_session}
use seiza_server.Accounts.BrowserSessions.{AuthenticatedBrowserSession, kept, require_recent_auth}
use seiza_server.Accounts.ApiKeys.{char_count}

-- `Webauthn`, its types as JSON, and the text of a credential id. `update_credential` is none where
-- the result is not of the passkey.
pub record Webauthn : Type 1 where
  pub Passkey : Type 0
  pub Registration : Type 0
  pub Authentication : Type 0
  pub Creation : Type 0
  pub Request : Type 0
  pub RegisterCredential : Type 0
  pub PublicKeyCredential : Type 0
  pub AuthenticationResult : Type 0
  pub start_passkey_registration :
      ℕ → Text → Text → Option (List Text) → Option (Creation × Registration)
  pub finish_passkey_registration : RegisterCredential → Registration → Option Passkey
  pub start_discoverable_authentication : Option (Request × Authentication)
  pub identify_discoverable_authentication : PublicKeyCredential → Option (ℕ × Text)
  pub finish_discoverable_authentication :
      PublicKeyCredential → Authentication → Passkey → Option AuthenticationResult
  pub user_verified : AuthenticationResult → Bool
  pub update_credential : AuthenticationResult → Passkey → Option Passkey
  pub cred_id : Passkey → Text
  pub encode : Text → Text
  pub passkey_to_json : Passkey → Option Text
  pub passkey_from_json : Text → Option Passkey
  pub registration_to_json : Registration → Option Text
  pub registration_from_json : Text → Option Registration
  pub authentication_to_json : Authentication → Option Text
  pub authentication_from_json : Text → Option Authentication

abbrev pub also : {A B : Type 0} → Outcome A → (A → Outcome B) → Outcome B
also (done a) next = next a
also (failed e) next = failed e

-- `ok_or` and `map_err`.
abbrev pub or_error : {A : Type 0} → AuthError → Option A → Outcome A
or_error e none = failed e
or_error e (some a) = done a

abbrev pub same_account : Option ℕ → Option ℕ → Bool
same_account none none = true
same_account (some a) (some b) = a == b
same_account _ _ = false

unfoldable pub normalize_passkey_label : Primitives → Text → Outcome Text
normalize_passkey_label p label =
    if (length (p.trim label) == 0) || ltb 80 (char_count (p.trim label))
    then failed invalid_passkey_label
    else done (p.trim label)

-- A challenge that a ceremony begins with.
unfoldable pub webauthn_challenge : ChallengePurpose → ℕ → Option ℕ → Text → ℕ → AuthChallenge
webauthn_challenge purpose challenge_id account_id state_json now = record {
  id = challenge_id;
  purpose = purpose;
  account_id = account_id;
  email_lookup = none;
  link_token_digest = none;
  code_digest = none;
  webauthn_state_json = some state_json;
  attempts = 0;
  created_at = now;
  expires_at = now + challenge_lifetime;
  consumed_at = none;
}

pub record CompletedPasskeyBrowserSignIn : Type 0 where
  pub completion : CompletedPasskeySignIn
  pub session_token : Text
  pub csrf_token : Text

abbrev pub serves : ℕ → ChallengePurpose → Option ℕ → AuthChallenge → Bool
serves now purpose account_id c =
    same_purpose c.purpose purpose
    && (same_account c.account_id account_id && (is_none c.consumed_at && ltb now c.expires_at))

-- No list is given where there is no passkey.
abbrev pub excluded : List Text → Option (List Text)
excluded [] = none
excluded (id ∷ ids) = some (id ∷ ids)

abbrev pub in_budget : Option ℕ → Outcome (Unit {0})
in_budget none = done tt
in_budget (some retry_after) = failed (rate_limited retry_after)

-- A passkey of the account that the credential names.
abbrev pub is_of : ℕ → PasskeyCredential → Bool
is_of account_id passkey = (passkey.account_id == account_id) && is_none passkey.revoked_at

module _ (v : Webauthn) where
  -- The credential ids of the stored passkeys; JSON that does not parse is an error.
  unfoldable pub credential_ids : List PasskeyCredential → Outcome (List Text)
  credential_ids [] = done []
  credential_ids (c ∷ credentials) =
      also (or_error internal (v.passkey_from_json c.credential_json))
        (λ passkey. also (credential_ids credentials) (λ ids. done (v.cred_id passkey ∷ ids)))

  abbrev pub verified : v.AuthenticationResult → v.Passkey → Outcome v.Passkey
  verified result passkey =
      if not (v.user_verified result)
      then failed invalid_credential
      else or_error invalid_credential (v.update_credential result passkey)

module _ (v : Webauthn) {W : Type 0} where
  unfoldable pub valid_webauthn_challenge :
      ℕ → ℕ → ChallengePurpose → Option ℕ → Tables W → Outcome AuthChallenge
  unfolding challenge_by_id
  valid_webauthn_challenge now challenge_id purpose account_id t =
      or_error invalid_credential
        (kept (serves now purpose account_id) (challenge_by_id challenge_id t))

  abbrev pub begun : {A : Type 0} → A → Result (Unit {0}) × Tables W → Outcome A × Tables W
  begun a (err, t) = (failed internal, t)
  begun a (ok _, t) = (done a, t)

  -- The options for the browser, once the challenge is stored.
  abbrev pub storing : {A : Type 0} → Outcome (A × AuthChallenge) → Tables W → Outcome A × Tables W
  storing (failed e) t = (failed e, t)
  storing (done (options, challenge)) t = begun options (insert_challenge challenge t)

  unfoldable pub registration_options :
      Engine → ℕ → ℕ → AuthenticatedBrowserSession → Tables W → Outcome (v.Creation × AuthChallenge)
  unfolding require_recent_auth list_passkeys credential_ids webauthn_challenge
  registration_options e challenge_id now a t = also (require_recent_auth now a) (λ _.
      also
        (credential_ids v (
          filter (λ (c : PasskeyCredential). is_none c.revoked_at)
            (list_passkeys e a.account.id t)))
        (λ ids.
          also
            (or_error internal (
              v.start_passkey_registration a.account.id a.account.email a.account.email
                (excluded ids)))
            (λ (options, state). also (or_error internal (v.registration_to_json state)) (λ json.
              done (
                options,
                webauthn_challenge passkey_registration challenge_id (some a.account.id) json now,
              )))))

  unfoldable pub start_passkey_registration :
      Engine → ℕ → ℕ → AuthenticatedBrowserSession → Tables W → Outcome v.Creation × Tables W
  unfolding registration_options insert_challenge
  start_passkey_registration e challenge_id now a t =
      storing (registration_options e challenge_id now a t) t

  unfoldable pub new_passkey :
      Primitives
      → ℕ
      → ℕ
      → ℕ
      → AuthenticatedBrowserSession
      → Text
      → v.RegisterCredential
      → Tables W
      → Outcome PasskeyCredential
  unfolding require_recent_auth normalize_passkey_label valid_webauthn_challenge
  new_passkey p now passkey_id challenge_id a label credential t =
      also (require_recent_auth now a) (λ _. also (normalize_passkey_label p label) (λ name.
        also (valid_webauthn_challenge now challenge_id passkey_registration (some a.account.id) t)
          (λ challenge. also (or_error invalid_credential challenge.webauthn_state_json) (λ json.
            also (or_error internal (v.registration_from_json json)) (λ state.
              also (or_error invalid_credential (v.finish_passkey_registration credential state))
                (λ passkey. also (or_error internal (v.passkey_to_json passkey)) (λ stored_json.
                  done (record {
                    id = passkey_id;
                    credential_id = v.encode (v.cred_id passkey);
                    account_id = a.account.id;
                    credential_json = stored_json;
                    label = name;
                    created_at = now;
                    last_used_at = none;
                    revoked_at = none;
                  }))))))))

  abbrev pub persisted :
      PasskeyCredential → Result Bool × Tables W → Outcome PasskeyCredential × Tables W
  persisted passkey (err, t) = (failed internal, t)
  persisted passkey (ok false, t) = (failed invalid_credential, t)
  persisted passkey (ok true, t) = (done passkey, t)

  abbrev pub registering :
      ℕ → ℕ → Outcome PasskeyCredential → Tables W → Outcome PasskeyCredential × Tables W
  registering now challenge_id (failed e) t = (failed e, t)
  registering now challenge_id (done passkey) t =
      persisted passkey (complete_passkey_registration challenge_id passkey now t)

  unfoldable pub finish_registration :
      Primitives
      → ℕ
      → ℕ
      → ℕ
      → AuthenticatedBrowserSession
      → Text
      → v.RegisterCredential
      → Tables W
      → Outcome PasskeyCredential × Tables W
  unfolding new_passkey complete_passkey_registration
  finish_registration p now passkey_id challenge_id a label credential t =
      registering now challenge_id (new_passkey p now passkey_id challenge_id a label credential t)
        t

  -- `wait` is the source limiter's answer.
  unfoldable pub start_passkey_authentication :
      ℕ → ℕ → Option ℕ → Tables W → Outcome v.Request × Tables W
  unfolding webauthn_challenge insert_challenge
  start_passkey_authentication challenge_id now wait t =
      storing
        (also (in_budget wait) (λ _.
          also (or_error internal v.start_discoverable_authentication) (λ (options, state).
            also (or_error internal (v.authentication_to_json state)) (λ json.
              done
                (options, webauthn_challenge passkey_authentication challenge_id none json now)))))
        t

  -- The stored passkey with its state after the ceremony.
  unfoldable pub proven_passkey :
      ℕ → ℕ → v.PublicKeyCredential → Tables W → Outcome PasskeyCredential
  unfolding valid_webauthn_challenge passkey_by_credential_id
  proven_passkey now challenge_id credential t =
      also (valid_webauthn_challenge now challenge_id passkey_authentication none t) (λ challenge.
        also (or_error invalid_credential challenge.webauthn_state_json) (λ json.
          also (or_error internal (v.authentication_from_json json)) (λ state.
            also (or_error invalid_credential (v.identify_discoverable_authentication credential))
              (λ (account_id, credential_id).
                also
                  (or_error invalid_credential
                    (kept (is_of account_id) (passkey_by_credential_id (v.encode credential_id) t)))
                  (λ row.
                    also (or_error internal (v.passkey_from_json row.credential_json)) (λ passkey.
                      also
                        (or_error invalid_credential
                          (v.finish_discoverable_authentication credential state passkey))
                        (λ result. also (verified v result passkey) (λ updated.
                          also (or_error internal (v.passkey_to_json updated)) (λ updated_json.
                            done (record row { credential_json = updated_json }))))))))))

  module _ (p : Primitives) where
    abbrev pub signed :
        Text
        → Text
        → Result (Option CompletedPasskeySignIn) × Tables W
        → Outcome CompletedPasskeyBrowserSignIn × Tables W
    signed session_secret csrf_token (err, t) = (failed internal, t)
    signed session_secret csrf_token (ok none, t) = (failed invalid_credential, t)
    signed session_secret csrf_token (ok (some completion), t) = (
      done (record {
        completion = completion;
        session_token =
            format_prefixed_token p (text "session")
              (completion.account.id ∷ completion.session.id ∷ []) session_secret;
        csrf_token = csrf_token;
      }),
      t,
    )

    abbrev pub signing_in :
        ℕ
        → ℕ
        → ℕ
        → Option (Text × Text)
        → Outcome PasskeyCredential
        → Tables W
        → Outcome CompletedPasskeyBrowserSignIn × Tables W
    signing_in now session_id challenge_id secrets (failed e) t = (failed e, t)
    signing_in now session_id challenge_id none (done passkey) t = (failed internal, t)
    signing_in now session_id challenge_id (some (session_secret, csrf_token)) (done passkey) t =
        signed session_secret csrf_token (
          complete_passkey_sign_in challenge_id passkey
            (new_browser_session p session_id passkey.account_id now session_secret csrf_token) now
            t)

    -- The secrets are `none` where the random source fails. The account that the credential names is
    -- that of the passkey.
    unfoldable pub finish_authentication :
        ℕ
        → ℕ
        → ℕ
        → Option (Text × Text)
        → v.PublicKeyCredential
        → Tables W
        → Outcome CompletedPasskeyBrowserSignIn × Tables W
    unfolding proven_passkey complete_passkey_sign_in new_browser_session format_prefixed_token
    finish_authentication now session_id challenge_id secrets credential t =
        signing_in now session_id challenge_id secrets
          (proven_passkey now challenge_id credential t) t
