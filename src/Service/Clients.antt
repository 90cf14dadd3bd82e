-- ===== src/Service/Clients.antt =====
-- Who a request of src/api.rs comes from: `client_from_headers` and its helpers, with the browser
-- sessions of src/api/auth.rs. `one` is the weight 1.0.
use seiza_server.Base.{
  ℕ, ◌*◌, ◌/◌, ◌^◌, Bool, false, not, Option, none, some, ◌++◌, Text, text, text_eq, ◌==◌,
  if◌then◌else◌, is_none, is_some,
}
use seiza_server.Identity.Rows.{Tables}
use seiza_server.Accounts.Secrets.{
  AuthError, invalid_email, invalid_credential, delivery, internal, recent_authentication_required,
  invalid_passkey_label, invalid_api_key_request, Primitives, done,
}
use seiza_server.Accounts.Secrets
use seiza_server.Accounts.BrowserSessions.{
  AuthenticatedBrowserSession, kept, authenticate_browser_session, require_csrf,
}
use seiza_server.Accounts.ApiKeys.{
  AuthenticatedApiKey, AuthenticatedAstrometrySession, scope_solve_submit, scope_solve_read,
  authenticate_api_key,
}
use seiza_server.Accounts.Astrometry.{authenticate_astrometry_session}
use seiza_server.Tus.Requests.{
  ApiError, bad_request, missing, failure, rate_limited, unauthorized, forbidden, email_unavailable,
  Outcome, answer, failed, and_then, Headers, Client,
}
use seiza_server.Tus.Metadata.{is_empty}
use seiza_server.Service.Names.{split_at, strip_prefix, first_or}

pub data AuthMode : Type 0 where
  public stub_api_key accounts : AuthMode

pub data PublicSolveSurface : Type 0 where
  ui api : PublicSolveSurface

pub data IpAddr : Type 0 where
  v4 v6 : ℕ → IpAddr

-- `IpAddr`'s parser and printer, the hash of a key as 16 digits, the weights of keys, UUIDs.
pub record Codes (W : Type 0) : Type 0 where
  pub parse_ip : Text → Option IpAddr
  pub ip_to_string : IpAddr → Text
  pub stable_hash : Text → Text
  pub queue_weight_for_api_key : Text → W
  pub one : W
  pub is_uuid : Text → Bool

-- `public_origin` is that of the account service, where there is one.
pub record Config : Type 0 where
  pub auth_mode : AuthMode
  pub public_ui_solves : Bool
  pub public_api_solves : Bool
  pub secure_auth_cookies : Bool
  pub public_origin : Option Text

-- A request's headers whose values `to_str` reads, which headers are there with a value that it does
-- not read, and the cookies as their parser reads them.
pub record Request : Type 0 where
  pub headers : Headers
  pub unreadable : Text → Bool
  pub cookie : Text → Option Text

unfoldable pub auth_api_error : AuthError → ApiError
auth_api_error invalid_email = bad_request
auth_api_error invalid_credential = unauthorized
auth_api_error (Secrets.rate_limited retry_after) = rate_limited retry_after
auth_api_error delivery = email_unavailable
auth_api_error recent_authentication_required = forbidden
auth_api_error invalid_passkey_label = bad_request
auth_api_error invalid_api_key_request = bad_request
auth_api_error internal = failure

unfoldable pub session_cookie_name : Config → Text
session_cookie_name config =
    if config.secure_auth_cookies then text "__Host-seiza_session" else text "seiza_session"

unfoldable pub csrf_cookie_name : Config → Text
csrf_cookie_name config =
    if config.secure_auth_cookies then text "__Host-seiza_csrf" else text "seiza_csrf"

abbrev pub or_else : Option Text → Option Text → Option Text
or_else none other = other
or_else (some value) other = some value

abbrev pub bearer : Option Text → Option Text
bearer none = none
bearer (some value) = strip_prefix (text "Bearer ") value

-- A value that is not blank.
abbrev pub is_given : Primitives → Text → Bool
is_given p value = not (is_empty (p.trim value))

unfoldable pub request_api_key : Primitives → Headers → Option Text
unfolding strip_prefix
request_api_key p headers =
    kept (is_given p)
      (or_else (headers (text "x-api-key")) (bearer (headers (text "authorization"))))

abbrev pub surface_of : Option Text → PublicSolveSurface
surface_of none = api
surface_of (some value) = if text_eq value (text "web") then ui else api

-- `web_client_header` is the header's name.
unfoldable pub public_solve_surface : Text → Headers → PublicSolveSurface
public_solve_surface web_client_header headers = surface_of (headers web_client_header)

abbrev pub is_allowed : Config → PublicSolveSurface → Bool
is_allowed config ui = config.public_ui_solves
is_allowed config api = config.public_api_solves

unfoldable pub ensure_public_solve_allowed : Config → PublicSolveSurface → Outcome (Unit {0})
ensure_public_solve_allowed config surface =
    if is_allowed config surface then answer tt else failed forbidden

abbrev pub surface_allowed : Config → Option PublicSolveSurface → Outcome (Unit {0})
surface_allowed config none = answer tt
surface_allowed config (some surface) = ensure_public_solve_allowed config surface

abbrev pub session_prefix : Text
session_prefix = text "seiza_public_"

abbrev pub is_some_and : (Text → Bool) → Option Text → Bool
is_some_and test none = false
is_some_and test (some value) = test value

abbrev pub account_client_id : Primitives → ℕ → Text
account_client_id p account_id = text "account:" ++ p.uuid_to_string account_id

module _ {W : Type 0} (codes : Codes W) where
  unfoldable pub is_public_astrometry_session : Text → Bool
  unfolding strip_prefix
  is_public_astrometry_session session =
      is_some_and (λ id. codes.is_uuid id) (strip_prefix session_prefix session)

  abbrev pub network_id : Option IpAddr → Text
  network_id none = text "public:anonymous"
  network_id (some (v4 address)) = text "public:" ++ codes.ip_to_string (v4 address)
  network_id (some (v6 address)) =
      text "public:" ++ codes.ip_to_string (v6 (address / 2 ^ 64 * 2 ^ 64))

  -- The addresses of one /64 are one client.
  unfoldable pub public_client_id : Primitives → Text → Text
  public_client_id p source_ip = network_id (codes.parse_ip (p.trim source_ip))

  abbrev pub source_of : Option Text → Text
  source_of none = text "anonymous"
  source_of (some value) = first_or (text "anonymous") (split_at (λ c. c == b',') value)

  -- A first header that is not readable counts, and the second is not asked for.
  abbrev pub forwarded_from : Request → Option Text
  forwarded_from r =
      if r.unreadable (text "x-forwarded-for")
      then none
      else or_else (r.headers (text "x-forwarded-for")) (r.headers (text "x-real-ip"))

  unfoldable pub public_client : Primitives → Request → Client W
  unfolding public_client_id split_at
  public_client p r = record {
    id = public_client_id p (source_of (forwarded_from r));
    queue_weight = codes.one;
  }

  unfoldable pub public_client_for_request :
      Primitives → Config → Request → Option PublicSolveSurface → Outcome (Client W)
  unfolding ensure_public_solve_allowed public_client
  public_client_for_request p config r surface =
      and_then (surface_allowed config surface) (λ _. answer (public_client p r))

  abbrev pub key_client : Text → Client W
  key_client key = record {
    id = text "key:" ++ codes.stable_hash key;
    queue_weight = codes.queue_weight_for_api_key key;
  }

  -- The answers of the account service.
  module _ (p : Primitives) where
    abbrev pub as_client :
        {A : Type 0} → (A → Client W) → Secrets.Outcome A × Tables W → Outcome (Client W) × Tables W
    as_client f (Secrets.failed e, t) = (failed (auth_api_error e), t)
    as_client f (done a, t) = (answer (f a), t)

    abbrev pub of_browser : AuthenticatedBrowserSession → Client W
    of_browser a = record { id = account_client_id p a.account.id; queue_weight = codes.one }

    abbrev pub of_api_key : AuthenticatedApiKey W → Client W
    of_api_key a = record {
      id = account_client_id p a.account.id;
      queue_weight = a.api_key.queue_weight;
    }

    abbrev pub of_astrometry : AuthenticatedAstrometrySession W → Client W
    of_astrometry a = record {
      id = account_client_id p a.account.id;
      queue_weight = a.queue_weight;
    }

    abbrev pub browser_answered :
        Secrets.Outcome AuthenticatedBrowserSession × Tables W
        → Outcome AuthenticatedBrowserSession × Tables W
    browser_answered (Secrets.failed e, t) = (failed (auth_api_error e), t)
    browser_answered (done a, t) = (answer a, t)

    abbrev pub with_token :
        Config
        → ℕ
        → Request
        → Option Text
        → Tables W
        → Outcome AuthenticatedBrowserSession × Tables W
    with_token config now r none t = (failed unauthorized, t)
    with_token config now r (some token) t =
        browser_answered
          (authenticate_browser_session p now token (r.cookie (csrf_cookie_name config)) t)

    abbrev pub with_service :
        Option Text
        → (Text → Outcome AuthenticatedBrowserSession × Tables W)
        → Tables W
        → Outcome AuthenticatedBrowserSession × Tables W
    with_service none next t = (failed missing, t)
    with_service (some public_origin) next t = next public_origin

    unfoldable pub authenticated_browser :
        Config → ℕ → Request → Tables W → Outcome AuthenticatedBrowserSession × Tables W
    unfolding session_cookie_name csrf_cookie_name authenticate_browser_session auth_api_error
    authenticated_browser config now r t =
        with_service config.public_origin
          (λ _. with_token config now r (r.cookie (session_cookie_name config)) t) t

    abbrev pub if_sent :
        AuthenticatedBrowserSession
        → Secrets.Outcome (Unit {0})
        → Outcome AuthenticatedBrowserSession
    if_sent a (Secrets.failed e) = failed (auth_api_error e)
    if_sent a (done _) = answer a

    abbrev pub csrf_checked :
        Request
        → Outcome AuthenticatedBrowserSession × Tables W
        → Outcome AuthenticatedBrowserSession × Tables W
    csrf_checked r (failed e, t) = (failed e, t)
    csrf_checked r (answer a, t) = (if_sent a (require_csrf a (r.headers (text "x-csrf-token"))), t)

    abbrev pub from_origin :
        Option Text
        → Text
        → Outcome AuthenticatedBrowserSession × Tables W
        → Tables W
        → Outcome AuthenticatedBrowserSession × Tables W
    from_origin none public_origin next t = (failed unauthorized, t)
    from_origin (some origin) public_origin next t =
        if not (text_eq origin public_origin) then (failed unauthorized, t) else next

    unfoldable pub authenticated_browser_for_mutation :
        Config → ℕ → Request → Tables W → Outcome AuthenticatedBrowserSession × Tables W
    unfolding authenticated_browser require_csrf auth_api_error
    authenticated_browser_for_mutation config now r t =
        with_service config.public_origin
          (λ public_origin.
            from_origin (r.headers (text "origin")) public_origin
              (csrf_checked r (authenticated_browser config now r t)) t)
          t

    abbrev pub as_browser_client :
        Outcome AuthenticatedBrowserSession × Tables W → Outcome (Client W) × Tables W
    as_browser_client (failed e, t) = (failed e, t)
    as_browser_client (answer a, t) = (answer (of_browser a), t)

    abbrev pub from_cookies :
        Config
        → ℕ
        → Request
        → Bool
        → Option PublicSolveSurface
        → Tables W
        → Outcome (Client W) × Tables W
    from_cookies config now r mutation surface t =
        if is_none (r.cookie (session_cookie_name config))
        then (public_client_for_request p config r surface, t)
        else as_browser_client (
            if mutation
            then authenticated_browser_for_mutation config now r t
            else authenticated_browser config now r t)

    abbrev pub serving :
        Config → (Outcome (Client W) × Tables W) → Tables W → Outcome (Client W) × Tables W
    serving config next t = if is_some config.public_origin then next else (failed missing, t)

    -- The credential that the request has: a session, a key, a cookie or none.
    abbrev pub from_credentials :
        Config
        → ℕ
        → Request
        → Option Text
        → Option Text
        → Bool
        → Option PublicSolveSurface
        → Tables W
        → Outcome (Client W) × Tables W
    from_credentials config now r (some session) (some api_key) mutation surface t =
        (failed unauthorized, t)
    from_credentials config now r (some session) none mutation surface t =
        if is_public_astrometry_session session
        then (public_client_for_request p config r surface, t)
        else serving config
            (as_client of_astrometry (authenticate_astrometry_session p codes.one now session t)) t
    from_credentials config now r none (some api_key) mutation surface t =
        serving config
          (as_client of_api_key (
            authenticate_api_key p now api_key
              (if mutation then scope_solve_submit else scope_solve_read) t))
          t
    from_credentials config now r none none mutation surface t =
        from_cookies config now r mutation surface t

    -- Accounts mode does not come here.
    abbrev pub anonymous_or_key :
        Config → Request → AuthMode → Option Text → Option PublicSolveSurface → Outcome (Client W)
    anonymous_or_key config r stub_api_key none surface = failed unauthorized
    anonymous_or_key config r stub_api_key (some key) surface = answer (key_client key)
    anonymous_or_key config r public (some key) surface =
        and_then (surface_allowed config surface) (λ _. answer (key_client key))
    anonymous_or_key config r public none surface = public_client_for_request p config r surface
    anonymous_or_key config r accounts key surface = failed failure

    abbrev pub in_mode :
        Config
        → ℕ
        → Request
        → Option Text
        → Bool
        → Option PublicSolveSurface
        → AuthMode
        → Tables W
        → Outcome (Client W) × Tables W
    in_mode config now r astrometry_session mutation surface accounts t =
        from_credentials config now r astrometry_session (request_api_key p r.headers) mutation
          surface t
    in_mode config now r astrometry_session mutation surface mode t = (
      anonymous_or_key config r mode
          (kept (is_given p) (or_else (request_api_key p r.headers) astrometry_session)) surface,
      t,
    )

    unfoldable pub client_from_headers :
        Config
        → ℕ
        → Request
        → Option Text
        → Bool
        → Option PublicSolveSurface
        → Tables W
        → Outcome (Client W) × Tables W
    unfolding request_api_key public_client_for_request is_public_astrometry_session
        authenticate_astrometry_session authenticate_api_key session_cookie_name
        authenticated_browser authenticated_browser_for_mutation auth_api_error
    client_from_headers config now r astrometry_session mutation surface t =
        in_mode config now r astrometry_session mutation surface config.auth_mode t
