-- ===== src/Identity/Rows.antt =====
-- The records of src/identity.rs and the tables of migrations/identity. A UUID is the number that
-- it spells, a time the nanoseconds since the epoch. The tables' texts for times, UUIDs and scopes
-- are taken as the values that they encode, and `W` is the float queue weight.
use seiza_server.Base.{
  ℕ, Bool, true, false, Option, none, some, List, Text, text, text_eq, if◌then◌else◌,
}

pub data AccountStatus : Type 0 where
  active disabled : AccountStatus

unfoldable pub status_as_str : AccountStatus → Text
status_as_str active = text "active"
status_as_str disabled = text "disabled"

unfoldable pub parse_account_status : Text → Option AccountStatus
parse_account_status value =
    if text_eq value (text "active")
    then some active
    else if text_eq value (text "disabled")
    then some disabled
    else none

abbrev pub is_active : AccountStatus → Bool
is_active active = true
is_active disabled = false

pub record Account : Type 0 where
  pub id : ℕ
  pub email : Text
  pub email_lookup : Text
  pub email_verified_at : ℕ
  pub webauthn_user_handle : Text
  pub status : AccountStatus
  pub created_at : ℕ
  pub updated_at : ℕ
  pub last_authenticated_at : ℕ

pub data ChallengePurpose : Type 0 where
  email_login passkey_registration passkey_authentication : ChallengePurpose

unfoldable pub purpose_as_str : ChallengePurpose → Text
purpose_as_str email_login = text "email-login"
purpose_as_str passkey_registration = text "passkey-registration"
purpose_as_str passkey_authentication = text "passkey-authentication"

unfoldable pub parse_purpose : Text → Option ChallengePurpose
parse_purpose value =
    if text_eq value (text "email-login")
    then some email_login
    else if text_eq value (text "passkey-registration")
    then some passkey_registration
    else if text_eq value (text "passkey-authentication")
    then some passkey_authentication
    else none

-- `==` on purposes.
abbrev pub same_purpose : ChallengePurpose → ChallengePurpose → Bool
same_purpose email_login email_login = true
same_purpose passkey_registration passkey_registration = true
same_purpose passkey_authentication passkey_authentication = true
same_purpose _ _ = false

pub record AuthChallenge : Type 0 where
  pub id : ℕ
  pub purpose : ChallengePurpose
  pub account_id : Option ℕ
  pub email_lookup : Option Text
  pub link_token_digest : Option Text
  pub code_digest : Option Text
  pub webauthn_state_json : Option Text
  pub attempts : ℕ
  pub created_at : ℕ
  pub expires_at : ℕ
  pub consumed_at : Option ℕ

pub data SessionKind : Type 0 where
  browser astrometry : SessionKind

unfoldable pub kind_as_str : SessionKind → Text
kind_as_str browser = text "browser"
kind_as_str astrometry = text "astrometry"

unfoldable pub parse_kind : Text → Option SessionKind
parse_kind value =
    if text_eq value (text "browser")
    then some browser
    else if text_eq value (text "astrometry")
    then some astrometry
    else none

abbrev pub is_browser : SessionKind → Bool
is_browser browser = true
is_browser astrometry = false

abbrev pub is_astrometry : SessionKind → Bool
is_astrometry browser = false
is_astrometry astrometry = true

pub record AuthSession : Type 0 where
  pub id : ℕ
  pub token_digest : Text
  pub account_id : ℕ
  pub kind : SessionKind
  pub csrf_digest : Option Text
  pub api_key_id : Option ℕ
  pub created_at : ℕ
  pub last_seen_at : ℕ
  pub expires_at : ℕ
  pub absolute_expires_at : ℕ
  pub revoked_at : Option ℕ

pub record PasskeyCredential : Type 0 where
  pub id : ℕ
  pub credential_id : Text
  pub account_id : ℕ
  pub credential_json : Text
  pub label : Text
  pub created_at : ℕ
  pub last_used_at : Option ℕ
  pub revoked_at : Option ℕ

pub record ApiKey (W : Type 0) : Type 0 where
  pub id : ℕ
  pub account_id : ℕ
  pub secret_digest : Text
  pub display_prefix : Text
  pub name : Text
  pub scopes : List Text
  pub queue_weight : W
  pub created_at : ℕ
  pub expires_at : Option ℕ
  pub last_used_at : Option ℕ
  pub revoked_at : Option ℕ

pub record CompletedEmailSignIn : Type 0 where
  pub account : Account
  pub session : AuthSession
  pub account_created : Bool

pub record CompletedPasskeySignIn : Type 0 where
  pub account : Account
  pub session : AuthSession
  pub passkey : PasskeyCredential

pub record Tables (W : Type 0) : Type 0 where
  pub accounts : List Account
  pub challenges : List AuthChallenge
  pub api_keys : List (ApiKey W)
  pub sessions : List AuthSession
  pub passkeys : List PasskeyCredential

-- What a call returns; `err` is an error of the database or of the call's arguments.
pub data Result {ℓ} (A : Type ℓ) : Type ℓ where
  ok : A → Result A
  err : Result A
