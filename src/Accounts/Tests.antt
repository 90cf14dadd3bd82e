-- ===== src/Accounts/Tests.antt =====
-- Signing in by a code, browser sessions and API keys, over tables in memory.
use seiza_server.Base.{
  ℕ, zero, suc, ◌≤◌, ◌≡◌, refl, ◌+◌, true, false, none, some, List, [], ◌∷◌, arith, Text, text,
  text_eq, length, filter,
}
use seiza_server.Queue.Sql.{update_where}
use seiza_server.Queue.Sorting.{engine, engine-IsEngine}
use seiza_server.Accounts.PasskeySignIn.{
  Webauthn, CompletedPasskeyBrowserSignIn, finish_authentication,
}
use seiza_server.Accounts.PasskeyAuthentic.{SignsIn, finish_authentication-SignsIn}
use seiza_server.Identity.Rows.{
  passkey_authentication, PasskeyCredential, astrometry, browser, AuthSession, ApiKey, Tables,
}
use seiza_server.Identity.Keys.{revoke_api_key}
use seiza_server.Identity.Calls
use seiza_server.Identity.Calls.{Call, run}
use seiza_server.Identity.Tests.{anna, challenge}
use seiza_server.Accounts.Secrets.{
  Primitives, failed, invalid_credential, session_idle_lifetime, session_absolute_lifetime,
}
use seiza_server.Identity.Sessions.{session}
use seiza_server.Accounts.Tokens.{
  underscore, NoUnderscore, IsUuid, format_prefixed_token, parse_prefixed_token,
  parse_session_token, parse_api_key_token, parse-format_prefixed_token,
}
use seiza_server.Accounts.EmailSignIn.{
  code, Draws, CompletedBrowserSignIn, new_browser_session, complete_email,
}
use seiza_server.Accounts.Authentic.{Accepts, complete_email-Accepts}
use seiza_server.Accounts.BrowserSessions.{
  AuthenticatedBrowserSession, authenticate_browser_session, logout,
}
use seiza_server.Accounts.ApiKeys.{authenticate_api_key, scope_solve_submit}
use seiza_server.Accounts.Astrometry.{create_astrometry_session, authenticate_astrometry_session}
use seiza_server.Accounts.Recycling.{is_counted, create_astrometry_session-bound}
use seiza_server.Accounts.Revocation.{
  logout-authenticate_browser_session, revoke_api_key-authenticate,
}

-- A UUID as so many ones.
abbrev ones : ℕ → Text
ones zero = []
ones (suc n) = 49 ∷ ones n

primitives_ones : (n : ℕ) → NoUnderscore (ones n)
primitives_ones zero = tt
primitives_ones (suc n) = ((λ (e : 49 ≡ underscore). absurd (omega arith)), primitives_ones n)

length-ones : (n : ℕ) → length (ones n) ≡ n
length-ones zero = refl
length-ones (suc n) = omega (arith, length-ones n)

abbrev pub primitives : Primitives
primitives = record {
  secret_digest = λ s. s;
  code_digest = λ id s. s;
  uuid_to_string = ones;
  parse_uuid = λ s. some (length s);
  trim = λ s. s;
  to_lowercase = λ s. s;
  is_email_address = λ s. true;
}

pub primitives-IsUuid : IsUuid primitives
primitives-IsUuid = record {
  parse-to_string = λ n. rw (length-ones n) refl;
  no_underscore = primitives_ones;
}

parse-format_prefixed_token_example :
    parse_prefixed_token primitives 2
      (format_prefixed_token primitives (text "key") (3 ∷ 4 ∷ []) (text "s_t"))
      (text "key")
    ≡ some (3 ∷ 4 ∷ [], text "s_t")
parse-format_prefixed_token_example =
    parse-format_prefixed_token primitives (text "key") (3 ∷ 4 ∷ []) b's' (text "_t")
      primitives-IsUuid (ground arith)

abbrev draws : Draws primitives
draws = record { account_id = 7; session_id = 2; secrets = some (text "s", text "x") }

abbrev tables : Tables ℕ
tables = record {
  accounts = anna ∷ [];
  challenges = record challenge { code_digest = some (text "12345678") } ∷ [];
  api_keys = [];
  sessions = [];
  passkeys = [];
}

abbrev completed_sign_in : CompletedBrowserSignIn
completed_sign_in = record {
  completion = record {
    account = record anna { updated_at = 100; last_authenticated_at = 100 };
    session = record {
      id = 2;
      token_digest = text "s";
      account_id = 7;
      kind = browser;
      csrf_digest = some (text "x");
      api_key_id = none;
      created_at = 100;
      last_seen_at = 100;
      expires_at = 100 + session_idle_lifetime;
      absolute_expires_at = 100 + session_absolute_lifetime;
      revoked_at = none;
    };
    account_created = false;
  };
  session_token = text "seiza_session_1111111_11_s";
  csrf_token = text "x";
}

complete_email-Accepts_example :
    Accepts primitives 100 (code (text "a@b.c") 1 (text "12345678")) tables completed_sign_in
complete_email-Accepts_example =
    complete_email-Accepts primitives 100 draws (code (text "a@b.c") 1 (text "12345678")) tables
      completed_sign_in (unfold complete_email text_eq in refl)

abbrev key : ApiKey ℕ
key = record {
  id = 4;
  account_id = 7;
  secret_digest = text "k";
  display_prefix = text "seiza_key";
  name = text "telescope";
  scopes = scope_solve_submit ∷ [];
  queue_weight = 1000000;
  created_at = 100;
  expires_at = none;
  last_used_at = none;
  revoked_at = none;
}

abbrev minted : AuthSession
minted = record {
  id = 5;
  token_digest = text "m";
  account_id = 7;
  kind = astrometry;
  csrf_digest = none;
  api_key_id = some 4;
  created_at = 200;
  last_seen_at = 200;
  expires_at = 200 + session_idle_lifetime;
  absolute_expires_at = 200 + session_absolute_lifetime;
  revoked_at = none;
}

abbrev key_token : Text
key_token = text "seiza_key_1111111_1111_k"

abbrev with_key : Tables ℕ
with_key = record tables { api_keys = key ∷ [] }

create_astrometry_session-bound_example :
    length (
      filter
        (is_counted 7 4 200)
        (create_astrometry_session primitives engine 5 200
          (some (text "m"))
          key_token
          with_key).1.sessions)
    ≤ 20
create_astrometry_session-bound_example =
    create_astrometry_session-bound primitives engine engine-IsEngine 5 200 (some (text "m"))
      key_token with_key
      (record { account = anna; session = minted; token = text "seiza_session_1111111_11111_m" }) 4
      (unfold create_astrometry_session text_eq update_where in refl) refl

abbrev browser_session : AuthenticatedBrowserSession
browser_session = record {
  account = anna;
  session = completed_sign_in.completion.session;
  csrf_token = some (text "x");
}

abbrev with_session : Tables ℕ
with_session = record tables { sessions = completed_sign_in.completion.session ∷ [] }

logout-authenticate_browser_session_example :
    (authenticate_browser_session primitives 500 completed_sign_in.session_token none
      (run engine (Calls.touches 7 2 400 900 ∷ []) (logout 300 browser_session with_session))).0
    ≡ failed invalid_credential
logout-authenticate_browser_session_example =
    logout-authenticate_browser_session primitives engine 300 500 with_session
      (Calls.touches 7 2 400 900 ∷ []) browser_session completed_sign_in.session_token (text "s")
      none (unfold parse_session_token text_eq in refl) (omega arith)

abbrev later_calls : List (Call ℕ)
later_calls = Calls.sessions minted ∷ Calls.touches_key 7 4 400 ∷ []

revoke_api_key-authenticate_example :
    ((authenticate_api_key primitives 500 key_token scope_solve_submit
        (run engine later_calls (revoke_api_key 7 4 300 with_key).1)).0
      ≡ failed invalid_credential)
    × ((authenticate_astrometry_session primitives 1000000 500
          (text "seiza_session_1111111_11111_m")
          (run engine later_calls (revoke_api_key 7 4 300 with_key).1)).0
        ≡ failed invalid_credential)
revoke_api_key-authenticate_example =
    revoke_api_key-authenticate primitives engine 300 500 with_key later_calls 7 4 1000000 key_token
      scope_solve_submit (text "k") (text "seiza_session_1111111_11111_m") (text "m") 5
      (omega arith) (unfold parse_api_key_token text_eq in refl)
      (unfold parse_session_token text_eq in refl)
      (λ s e. (unfold run revoke_api_key session update_where in ground (arith, e)))

abbrev webauthn : Webauthn
webauthn = record {
  Passkey = Text;
  Registration = Text;
  Authentication = Text;
  Creation = Text;
  Request = Text;
  RegisterCredential = Text;
  PublicKeyCredential = Text;
  AuthenticationResult = Text;
  start_passkey_registration = λ id name display exclude. some ([], []);
  finish_passkey_registration = λ c s. some c;
  start_discoverable_authentication = some ([], []);
  identify_discoverable_authentication = λ c. some (7, c);
  finish_discoverable_authentication = λ c s k. some c;
  user_verified = λ r. true;
  update_credential = λ r k. some k;
  cred_id = λ k. k;
  encode = λ c. c;
  passkey_to_json = λ k. some k;
  passkey_from_json = λ s. some s;
  registration_to_json = λ s. some s;
  registration_from_json = λ s. some s;
  authentication_to_json = λ s. some s;
  authentication_from_json = λ s. some s;
}

abbrev passkey : PasskeyCredential
passkey = record {
  id = 5;
  credential_id = text "k";
  account_id = 7;
  credential_json = text "k";
  label = text "phone";
  created_at = 50;
  last_used_at = none;
  revoked_at = none;
}

abbrev with_passkey : Tables ℕ
with_passkey = record tables {
  challenges =
      record challenge {
        purpose = passkey_authentication;
        email_lookup = none;
        webauthn_state_json = some (text "s");
        expires_at = 200;
      }
      ∷ [];
  passkeys = passkey ∷ [];
}

abbrev by_passkey : CompletedPasskeyBrowserSignIn
by_passkey = record {
  completion = record {
    account = record anna { updated_at = 100; last_authenticated_at = 100 };
    session = new_browser_session primitives 3 7 100 (text "s") (text "x");
    passkey = record passkey { last_used_at = some 100 };
  };
  session_token = text "seiza_session_1111111_111_s";
  csrf_token = text "x";
}

finish_authentication-SignsIn_example :
    SignsIn webauthn primitives 100 3 1 (text "k") with_passkey by_passkey
finish_authentication-SignsIn_example =
    finish_authentication-SignsIn webauthn primitives 100 3 1 (some (text "s", text "x")) (text "k")
      with_passkey by_passkey
      (unfold finish_authentication new_browser_session text_eq update_where in refl)
