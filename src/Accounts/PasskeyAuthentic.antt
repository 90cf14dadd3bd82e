-- ===== src/Accounts/PasskeyAuthentic.antt =====
-- Proofs about the passkey ceremony of src/auth.rs that signs in.
use seiza_server.Base.{
  ℕ, ◌<◌, ◌≡◌, refl, sym, ap, ◌∙◌, subst, inl, inr, true, not, ◌&&◌, Option, none, some, arith,
  Text, ltb, ◌==◌, is_none, find, All-find, Bool-cases,
}
use seiza_server.Identity.Rows.{
  passkey_authentication, same_purpose, is_active, Account, AuthSession, AuthChallenge,
  PasskeyCredential, CompletedPasskeySignIn, Tables, Result, ok, err,
}
use seiza_server.Identity.Challenges.{challenge_by_id}
use seiza_server.Identity.Tables.{affected}
use seiza_server.Identity.Spent.{everything}
use seiza_server.Identity.Passkeys.{
  can_authenticate, is_live_passkey, passkey_session, passkey_sign_in, sign_in_active,
  complete_passkey_sign_in, passkey_by_credential_id,
}
use seiza_server.Accounts.EmailSignIn.{new_browser_session}
use seiza_server.Identity.Stability.{and_inv}
use seiza_server.Accounts.Secrets.{
  Primitives, AuthError, invalid_credential, internal, Outcome, done, failed, done_injective,
}
use seiza_server.Accounts.BrowserSessions.{kept}
use seiza_server.Accounts.Proofs.{kept_inv}
use seiza_server.Accounts.PasskeySignIn.{
  Webauthn, also, or_error, same_account, serves, is_of, verified, valid_webauthn_challenge,
  proven_passkey, CompletedPasskeyBrowserSignIn, signed, signing_in, finish_authentication,
}

also_inv :
    {A B : Type 0} (a : Outcome A) (f : A → Outcome B) (b : B)
    → also a f ≡ done b
    → (x : A) × (a ≡ done x) × (f x ≡ done b)
also_inv (done x) f b h = (x, refl, h)
also_inv (failed e) f b h = cc

or_error_inv :
    {A : Type 0} (e : AuthError) (o : Option A) (a : A) → or_error e o ≡ done a → o ≡ some a
or_error_inv e none a h = cc
or_error_inv e (some x) a h = ap some (done_injective x a h)

module _ (v : Webauthn) {W : Type 0} (now challenge_id : ℕ) (credential : v.PublicKeyCredential)
    (t : Tables W) where
  -- What a passkey is accepted for: a stored challenge for passkeys, unused and in time; a stored
  -- passkey, not revoked, of the account and the credential id that the credential names; and a
  -- ceremony over both that has verified the user.
  pub record Verified (row : PasskeyCredential) : Type 0 where
    pub challenge : AuthChallenge
    pub state : v.Authentication
    pub account_id : ℕ
    pub credential_id : Text
    pub passkey : v.Passkey
    pub result : v.AuthenticationResult
    pub stored_challenge : challenge_by_id challenge_id t ≡ some challenge
    pub for_passkeys : same_purpose challenge.purpose passkey_authentication ≡ true
    pub unused : is_none challenge.consumed_at ≡ true
    pub in_time : now < challenge.expires_at
    pub named : v.identify_discoverable_authentication credential ≡ some (account_id, credential_id)
    pub stored_passkey : passkey_by_credential_id (v.encode credential_id) t ≡ some row
    pub own : row.account_id ≡ account_id
    pub live : is_none row.revoked_at ≡ true
    pub read : v.passkey_from_json row.credential_json ≡ some passkey
    pub finished : v.finish_discoverable_authentication credential state passkey ≡ some result
    pub user_verified : v.user_verified result ≡ true

  verified_inv :
      (result : v.AuthenticationResult) (passkey updated : v.Passkey)
      → verified v result passkey ≡ done updated
      → v.user_verified result ≡ true
  verified_inv result passkey updated = elim (Bool-cases (v.user_verified result)) [
    | inl e ↦ rw e (λ h. refl)
    | inr e ↦ rw e (λ h. cc)
  ]

  serves_inv :
      (c : AuthChallenge)
      → serves now passkey_authentication none c ≡ true
      → (same_purpose c.purpose passkey_authentication ≡ true)
        × (is_none c.consumed_at ≡ true)
        × (now < c.expires_at)
  serves_inv c h =
      let (purpose, rest) = and_inv (same_purpose c.purpose passkey_authentication) _ h in
      let (account, rest') = and_inv (same_account c.account_id none) _ rest in
      let (unused, early) = and_inv (is_none c.consumed_at) (ltb now c.expires_at) rest' in
      (purpose, unused, ground (arith, early))

  is_of_inv :
      (account_id : ℕ) (row : PasskeyCredential)
      → is_of account_id row ≡ true
      → (row.account_id ≡ account_id) × (is_none row.revoked_at ≡ true)
  is_of_inv account_id row h =
      let (own, live) = and_inv (row.account_id == account_id) (is_none row.revoked_at) h in
      (ground (arith, own), live)

  -- The row that is handed on is the stored one but for the passkey's state.
  proven_passkey-Verified :
      (after : PasskeyCredential)
      → proven_passkey v now challenge_id credential t ≡ done after
      → (row : PasskeyCredential) × Verified row
        × (after.account_id ≡ row.account_id)
        × (after.id ≡ row.id)
  unfolding proven_passkey valid_webauthn_challenge
  proven_passkey-Verified after h =
      let (c, valid, h1) =
        also_inv (valid_webauthn_challenge v now challenge_id passkey_authentication none t) _ after
          h in
      let (json, _, h2) = also_inv (or_error invalid_credential c.webauthn_state_json) _ after h1 in
      let (state, _, h3) =
        also_inv (or_error internal (v.authentication_from_json json)) _ after h2 in
      let ((account_id, credential_id), named, h4) =
        also_inv (or_error invalid_credential (v.identify_discoverable_authentication credential)) _
          after h3 in
      let (row, found, h5) =
        also_inv
          (or_error invalid_credential
            (kept (is_of account_id) (passkey_by_credential_id (v.encode credential_id) t)))
          _ after h4 in
      let (passkey, read, h6) =
        also_inv (or_error internal (v.passkey_from_json row.credential_json)) _ after h5 in
      let (result, finished, h7) =
        also_inv
          (or_error invalid_credential
            (v.finish_discoverable_authentication credential state passkey))
          _ after h6 in
      let (updated, user, h8) = also_inv (verified v result passkey) _ after h7 in
      let (updated_json, _, h9) =
        also_inv (or_error internal (v.passkey_to_json updated)) _ after h8 in
      let (stored_challenge, serving) =
        kept_inv (serves now passkey_authentication none) (challenge_by_id challenge_id t) c
          (or_error_inv invalid_credential _ c valid) in
      let (for_passkeys, unused, in_time) = serves_inv c serving in
      let (stored_passkey, mine) =
        kept_inv (is_of account_id) (passkey_by_credential_id (v.encode credential_id) t) row
          (or_error_inv invalid_credential _ row found) in
      let (own, live) = is_of_inv account_id row mine in
      let same = done_injective (record row { credential_json = updated_json }) after h9 in
      (
        row,
        record {
          challenge = c;
          state = state;
          account_id = account_id;
          credential_id = credential_id;
          passkey = passkey;
          result = result;
          stored_challenge = stored_challenge;
          for_passkeys = for_passkeys;
          unused = unused;
          in_time = in_time;
          named = or_error_inv invalid_credential _ _ named;
          stored_passkey = stored_passkey;
          own = own;
          live = live;
          read = or_error_inv internal _ passkey read;
          finished = or_error_inv invalid_credential _ result finished;
          user_verified = verified_inv result passkey updated user;
        },
        sym (ap (λ (x : PasskeyCredential). x.account_id) same),
        sym (ap (λ (x : PasskeyCredential). x.id) same),
      )

ok_some_injective : {A : Type 0} (x y : A) → Result.ok (some x) ≡ ok (some y) → x ≡ y
ok_some_injective x y h = cc

module _ {W : Type 0} (challenge_id : ℕ) (passkey : PasskeyCredential) (s : AuthSession) (now : ℕ)
    (t : Tables W) (c : CompletedPasskeySignIn) where
  -- The account that a sign-in by the passkey is of.
  abbrev Opens : Type 0
  Opens =
      (c.account.id ≡ passkey.account_id) × (is_active c.account.status ≡ true) × (c.session ≡ s)

  passkey_session-Opens :
      (a : Account) (w : Result (Unit {0}) × Tables W)
      → ((a.id == passkey.account_id) && is_active a.status) ≡ true
      → (passkey_session passkey s now a t w).0 ≡ ok (some c)
      → Opens
  passkey_session-Opens a (err, t') own h = cc
  passkey_session-Opens a (ok x, t') own h =
      let (same, active) = and_inv (a.id == passkey.account_id) (is_active a.status) own in
      let e = ok_some_injective _ c h in
      (
        sym (ap (λ (x : CompletedPasskeySignIn). x.account.id) e) ∙ ground (arith, same),
        subst (λ (x : CompletedPasskeySignIn). is_active x.account.status ≡ true) e active,
        sym (ap (λ (x : CompletedPasskeySignIn). x.session) e),
      )

  passkey_sign_in-Opens :
      (a : Account)
      → ((a.id == passkey.account_id) && is_active a.status) ≡ true
      → (passkey_sign_in challenge_id passkey s now t a).0 ≡ ok (some c)
      → Opens
  unfolding passkey_sign_in
  passkey_sign_in-Opens a own =
      elim (Bool-cases (affected (can_authenticate challenge_id now) t.challenges == 0)) [
        | inl e ↦ rw e (λ h. cc)
        | inr e ↦ rw e (elim (Bool-cases (affected (is_live_passkey passkey) t.passkeys == 0)) [
          | inl f ↦ rw f (λ h. cc)
          | inr f ↦ rw f (passkey_session-Opens a _ own)
        ])
      ]

  sign_in_active-Opens :
      (o : Option Account)
      → find (λ (a : Account). (a.id == passkey.account_id) && is_active a.status) t.accounts ≡ o
      → (sign_in_active challenge_id passkey s now t o).0 ≡ ok (some c)
      → Opens
  sign_in_active-Opens none e h = cc
  sign_in_active-Opens (some a) e h =
      passkey_sign_in-Opens a
        (All-find (λ x. Unit {0})
          (λ (x : Account). (x.id == passkey.account_id) && is_active x.status) t.accounts a
          (everything t.accounts) e).1
        h

  complete_passkey_sign_in-Opens :
      (complete_passkey_sign_in challenge_id passkey s now t).0 ≡ ok (some c) → Opens
  unfolding complete_passkey_sign_in
  complete_passkey_sign_in-Opens = elim (Bool-cases (not (passkey.account_id == s.account_id))) [
    | inl e ↦ rw e (λ h. cc)
    | inr e ↦ rw e (sign_in_active-Opens _ refl)
  ]

module _ (v : Webauthn) {W : Type 0} (p : Primitives) (now session_id challenge_id : ℕ)
    (credential : v.PublicKeyCredential) (t : Tables W) (r : CompletedPasskeyBrowserSignIn) where
  -- The account of a passkey that was verified, active and with a session of its own.
  abbrev pub SignsIn : Type 0
  SignsIn =
      (row : PasskeyCredential) × Verified v now challenge_id credential t row
      × (r.completion.account.id ≡ row.account_id)
      × (is_active r.completion.account.status ≡ true)
      × (r.completion.session.account_id ≡ r.completion.account.id)

  signed_inv :
      (secret csrf : Text) (w : Result (Option CompletedPasskeySignIn) × Tables W)
      → (signed v p secret csrf w).0 ≡ done r
      → w.0 ≡ ok (some r.completion)
  signed_inv secret csrf (err, t') h = cc
  signed_inv secret csrf (ok none, t') h = cc
  signed_inv secret csrf (ok (some c), t') h =
      ap (λ x. ok (some x.completion)) (done_injective _ r h)

  signing_in-SignsIn :
      (secrets : Option (Text × Text)) (o : Outcome PasskeyCredential)
      → ((after : PasskeyCredential)
          → o ≡ done after
          → (row : PasskeyCredential) × Verified v now challenge_id credential t row
            × (after.account_id ≡ row.account_id)
            × (after.id ≡ row.id))
      → (signing_in v p now session_id challenge_id secrets o t).0 ≡ done r
      → SignsIn
  unfolding new_browser_session
  signing_in-SignsIn secrets (failed e) proof h = cc
  signing_in-SignsIn none (done passkey) proof h = cc
  signing_in-SignsIn (some (secret, csrf)) (done passkey) proof h =
      let (row, verified, same, _) = proof passkey refl in
      let (own, active, opened) =
        complete_passkey_sign_in-Opens challenge_id passkey
          (new_browser_session p session_id passkey.account_id now secret csrf) now t r.completion
          (signed_inv secret csrf _ h) in
      (row, verified, own ∙ same, active, ap (λ (s : AuthSession). s.account_id) opened ∙ sym own)

-- A passkey ceremony that signs in is over a stored challenge for passkeys that is unused and in time
-- and a stored passkey that is not revoked, of the account and the credential id that the credential
-- names; it has verified the user; and the account that is signed in is the passkey's, is active, and
-- has a session of its own.
pub finish_authentication-SignsIn :
    (v : Webauthn) {W : Type 0} (p : Primitives) (now session_id challenge_id : ℕ)
    (secrets : Option (Text × Text)) (credential : v.PublicKeyCredential) (t : Tables W)
    (r : CompletedPasskeyBrowserSignIn)
    → (finish_authentication v p now session_id challenge_id secrets credential t).0 ≡ done r
    → SignsIn v p now session_id challenge_id credential t r
unfolding finish_authentication
finish_authentication-SignsIn v p now session_id challenge_id secrets credential t r h =
    signing_in-SignsIn v p now session_id challenge_id credential t r secrets
      (proven_passkey v now challenge_id credential t)
      (λ after e. proven_passkey-Verified v now challenge_id credential t after e) h
