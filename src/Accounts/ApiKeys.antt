-- ===== src/Accounts/ApiKeys.antt =====
-- API keys in src/auth.rs, and the astrometry sessions that they mint.
use seiza_server.Base.{
  ℕ, ◌-◌, Bool, true, false, not, ◌&&◌, ◌||◌, Option, none, some, List, [], ◌∷◌, ◌++◌, Text, text,
  text_eq, leb, ltb, ◌==◌, if◌then◌else◌, is_none, length, filter, any,
}
use seiza_server.Queue.Sorting.{sort}
use seiza_server.Identity.Rows.{is_active, Account, AuthSession, ApiKey, Tables, Result, ok, err}
use seiza_server.Identity.Tables.{create_api_key}
use seiza_server.Identity.Accounts.{account_by_id}
use seiza_server.Identity.Keys.{api_key, touch_api_key, used}
use seiza_server.Accounts.Secrets.{
  Primitives, Outcome, done, failed, internal, invalid_credential, invalid_api_key_request,
  constant_time_eq, api_key_touch_interval,
}
use seiza_server.Accounts.Tokens.{format_prefixed_token, parse_api_key_token}
use seiza_server.Accounts.BrowserSessions.{AuthenticatedBrowserSession, kept, require_recent_auth}

pub record AuthenticatedApiKey (W : Type 0) : Type 0 where
  pub account : Account
  pub api_key : ApiKey W

pub record AuthenticatedAstrometrySession (W : Type 0) : Type 0 where
  pub account : Account
  pub session : AuthSession
  pub queue_weight : W

pub record CreatedApiKey (W : Type 0) : Type 0 where
  pub api_key : ApiKey W
  pub token : Text

pub record CreatedAstrometrySession : Type 0 where
  pub account : Account
  pub session : AuthSession
  pub token : Text

abbrev pub scope_solve_read : Text
scope_solve_read = text "solve:read"

abbrev pub scope_solve_submit : Text
scope_solve_submit = text "solve:submit"

-- `chars().count()`: the bytes that start a character.
abbrev pub char_count : Text → ℕ
char_count s = length (filter (λ (c : ℕ). not (leb 128 c && ltb c 192)) s)

-- `<=` on strings.
unfoldable pub text_leb : Text → Text → Bool
text_leb [] t = true
text_leb (x ∷ s) [] = false
text_leb (x ∷ s) (y ∷ t) = let rest = text_leb s t in if x == y then rest else ltb x y

-- `Vec::dedup`.
unfoldable pub dedup : List Text → List Text
dedup [] = []
dedup (x ∷ []) = x ∷ []
dedup (x ∷ (y ∷ xs)) = let rest = dedup (y ∷ xs) in if text_eq x y then rest else x ∷ rest

-- An end, where there is one, that is still ahead.
abbrev pub ahead : Option ℕ → ℕ → Bool
ahead none now = true
ahead (some expires_at) now = ltb now expires_at

-- `is_none_or(|last_used_at| now - last_used_at >= API_KEY_TOUCH_INTERVAL)`.
abbrev pub is_due : Option ℕ → ℕ → Bool
is_due none now = true
is_due (some last_used_at) now = leb api_key_touch_interval (now - last_used_at)

module _ (p : Primitives) where
  -- The guards of the request, behind the one on the age of the session.
  unfoldable pub is_bad_request : Text → List Text → Bool
  unfolding sort dedup text_leb
  is_bad_request name scopes =
      (length (p.trim name) == 0)
      || (ltb 80 (char_count (p.trim name))
          || ((length scopes == 0)
              || any
                  (λ scope.
                    not (text_eq scope scope_solve_read || text_eq scope scope_solve_submit))
                  (dedup (sort text_leb scopes))))

module _ {W : Type 0} where
  -- A key that is neither revoked nor at its end.
  abbrev pub is_live_key : ℕ → ApiKey W → Bool
  is_live_key now k = is_none k.revoked_at && ahead k.expires_at now

module _ (p : Primitives) {W : Type 0} where
  unfoldable pub new_api_key : ℕ → ℕ → W → ℕ → Text → Text → List Text → ApiKey W
  new_api_key account_id key_id one now secret name scopes = record {
    id = key_id;
    account_id = account_id;
    secret_digest = p.secret_digest secret;
    display_prefix =
        text "seiza_key_"
        ++ (p.uuid_to_string account_id
            ++ (text "_" ++ (p.uuid_to_string key_id ++ 226 ∷ 128 ∷ 166 ∷ [])));
    name = name;
    scopes = scopes;
    queue_weight = one;
    created_at = now;
    expires_at = none;
    last_used_at = none;
    revoked_at = none;
  }

  abbrev key_created :
      ApiKey W → Text → Result (Unit {0}) × Tables W → Outcome (CreatedApiKey W) × Tables W
  key_created k token (err, t) = (failed internal, t)
  key_created k token (ok x, t) = (done (record { api_key = k; token = token }), t)

  abbrev key_with :
      ℕ
      → ℕ
      → W
      → ℕ
      → Option Text
      → Text
      → List Text
      → Tables W
      → Outcome (CreatedApiKey W) × Tables W
  key_with account_id key_id one now none name scopes t = (failed internal, t)
  key_with account_id key_id one now (some secret) name scopes t =
      key_created (new_api_key account_id key_id one now secret name scopes)
        (format_prefixed_token p (text "key") (account_id ∷ key_id ∷ []) secret)
        (create_api_key (new_api_key account_id key_id one now secret name scopes) t)

  abbrev recently :
      ℕ
      → ℕ
      → W
      → ℕ
      → Option Text
      → Text
      → List Text
      → Outcome (Unit {0})
      → Tables W
      → Outcome (CreatedApiKey W) × Tables W
  recently account_id key_id one now secret name scopes (failed e) t = (failed e, t)
  recently account_id key_id one now secret name scopes (done x) t =
      if is_bad_request p name scopes
      then (failed invalid_api_key_request, t)
      else key_with account_id key_id one now secret (p.trim name) (dedup (sort text_leb scopes)) t

  -- `one` is the weight 1.0; the secret is `none` where the random source fails.
  unfoldable pub create_key :
      W
      → ℕ
      → ℕ
      → Option Text
      → AuthenticatedBrowserSession
      → Text
      → List Text
      → Tables W
      → Outcome (CreatedApiKey W) × Tables W
  unfolding require_recent_auth is_bad_request new_api_key create_api_key format_prefixed_token sort
      dedup text_leb
  create_key one key_id now secret a name scopes t =
      recently a.account.id key_id one now secret name scopes (require_recent_auth now a) t

  abbrev pub key_used :
      ℕ → Account → ApiKey W → Bool × Tables W → Outcome (AuthenticatedApiKey W) × Tables W
  key_used now account k (true, t) = (done (record { account = account; api_key = used now k }), t)
  key_used now account k (false, t) = (done (record { account = account; api_key = k }), t)

  abbrev pub key_of_account :
      ℕ → ℕ → ℕ → ApiKey W → Option Account → Tables W → Outcome (AuthenticatedApiKey W) × Tables W
  key_of_account account_id key_id now k none t = (failed invalid_credential, t)
  key_of_account account_id key_id now k (some account) t =
      if is_due k.last_used_at now
      then key_used now account k (touch_api_key account_id key_id now t)
      else (done (record { account = account; api_key = k }), t)

  abbrev pub key_serves : ℕ → Text → Text → ApiKey W → Bool
  key_serves now required_scope secret k =
      is_none k.revoked_at
      && (ahead k.expires_at now
          && (any (λ scope. text_eq scope required_scope) k.scopes
              && constant_time_eq k.secret_digest (p.secret_digest secret)))

  abbrev pub of_key :
      ℕ → ℕ → ℕ → Option (ApiKey W) → Tables W → Outcome (AuthenticatedApiKey W) × Tables W
  of_key account_id key_id now none t = (failed invalid_credential, t)
  of_key account_id key_id now (some k) t =
      key_of_account account_id key_id now k
        (kept (λ (a : Account). is_active a.status) (account_by_id account_id t)) t

  abbrev pub of_key_token :
      ℕ → Text → Option (ℕ × ℕ × Text) → Tables W → Outcome (AuthenticatedApiKey W) × Tables W
  of_key_token now required_scope none t = (failed invalid_credential, t)
  of_key_token now required_scope (some (account_id, key_id, secret)) t =
      of_key account_id key_id now
        (kept (key_serves now required_scope secret) (api_key account_id key_id t)) t

  -- A key's use is written down at most every quarter of an hour.
  unfoldable pub authenticate_api_key :
      ℕ → Text → Text → Tables W → Outcome (AuthenticatedApiKey W) × Tables W
  unfolding parse_api_key_token api_key account_by_id touch_api_key used
  authenticate_api_key now token required_scope t =
      of_key_token now required_scope (parse_api_key_token p token) t
