-- ===== src/Accounts/Secrets.antt =====
-- What src/auth.rs takes from outside, its constants and its errors. A call's clock reading, fresh
-- UUIDs and random secrets are arguments of it. The database is taken to answer every read.
use seiza_server.Base.{ℕ, ◌*◌, ◌≡◌, Bool, false, Option, none, some, Text, text_eq, if◌then◌else◌}

-- The digests (SHA-256, and HMAC under the service's pepper), UUIDs as text, and the texts that are
-- email addresses.
pub record Primitives : Type 0 where
  pub secret_digest : Text → Text
  pub code_digest : ℕ → Text → Text
  pub uuid_to_string : ℕ → Text
  pub parse_uuid : Text → Option ℕ
  pub trim : Text → Text
  pub to_lowercase : Text → Text
  pub is_email_address : Text → Bool

pub data AuthError : Type 0 where
  invalid_email invalid_credential delivery internal recent_authentication_required : AuthError
  invalid_passkey_label invalid_api_key_request : AuthError
  rate_limited : ℕ → AuthError

pub data Outcome {ℓ} (A : Type ℓ) : Type ℓ where
  done : A → Outcome A
  failed : AuthError → Outcome A

pub done_injective : {A : Type 0} (x y : A) → done x ≡ done y → x ≡ y
done_injective x y h = cc

abbrev pub minutes : ℕ → ℕ
minutes n = n * (60 * 1000000000)

abbrev pub days : ℕ → ℕ
days n = n * (24 * (3600 * 1000000000))

abbrev pub challenge_lifetime : ℕ
challenge_lifetime = minutes 10

abbrev pub challenge_resend_delay : ℕ
challenge_resend_delay = minutes 1

abbrev pub max_live_email_challenges : ℕ
max_live_email_challenges = 3

abbrev pub max_challenge_attempts : ℕ
max_challenge_attempts = 5

abbrev pub session_idle_lifetime : ℕ
session_idle_lifetime = days 30

abbrev pub session_absolute_lifetime : ℕ
session_absolute_lifetime = days 90

abbrev pub session_touch_interval : ℕ
session_touch_interval = minutes 15

abbrev pub recent_auth_lifetime : ℕ
recent_auth_lifetime = minutes 10

abbrev pub api_key_touch_interval : ℕ
api_key_touch_interval = minutes 15

abbrev pub max_live_astrometry_sessions_per_key : ℕ
max_live_astrometry_sessions_per_key = 20

-- `constant_time_eq`.
abbrev pub constant_time_eq : Text → Text → Bool
constant_time_eq left right = text_eq left right

-- `is_some_and(|digest| constant_time_eq(digest, ...))`.
abbrev pub has_digest : Option Text → Text → Bool
has_digest none value = false
has_digest (some digest) value = constant_time_eq digest value

module _ (p : Primitives) where
  unfoldable pub normalize_email : Text → Option Text
  normalize_email value =
      if p.is_email_address (p.to_lowercase (p.trim value))
      then some (p.to_lowercase (p.trim value))
      else none
