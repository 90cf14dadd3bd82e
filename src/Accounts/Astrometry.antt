-- ===== src/Accounts/Astrometry.antt =====
-- Astrometry sessions in src/auth.rs, which API keys mint.
use seiza_server.Base.{
  ℕ, ◌+◌, ◌-◌, Bool, ◌&&◌, Option, none, some, List, [], ◌∷◌, Text, text, leb, ltb, if◌then◌else◌,
  is_none, length, filter, take,
}
use seiza_server.Queue.Sql.{Engine}
use seiza_server.Queue.Sorting.{sort}
use seiza_server.Identity.Rows.{
  is_active, astrometry, is_astrometry, Account, AuthSession, ApiKey, Tables, Result, ok, err,
}
use seiza_server.Identity.Tables.{number_is, insert_session}
use seiza_server.Identity.Accounts.{account_by_id}
use seiza_server.Identity.Sessions.{session, list_sessions, delete_session}
use seiza_server.Identity.Keys.{api_key, touch_api_key}
use seiza_server.Accounts.Secrets.{
  Primitives, Outcome, done, failed, internal, invalid_credential, constant_time_eq,
  session_idle_lifetime, session_absolute_lifetime, max_live_astrometry_sessions_per_key,
}
use seiza_server.Accounts.Tokens.{format_prefixed_token, parse_session_token}
use seiza_server.Accounts.BrowserSessions.{kept, renew}
use seiza_server.Accounts.ApiKeys.{
  AuthenticatedApiKey, AuthenticatedAstrometrySession, CreatedAstrometrySession, scope_solve_submit,
  is_due, is_live_key, authenticate_api_key,
}

-- A live session of the key.
unfoldable pub is_live_of : ℕ → ℕ → AuthSession → Bool
is_live_of key_id now s =
    is_astrometry s.kind
    && (number_is s.api_key_id key_id
        && (is_none s.revoked_at && (ltb now s.expires_at && ltb now s.absolute_expires_at)))

module _ (p : Primitives) where
  unfoldable pub astrometry_session : ℕ → ℕ → ℕ → ℕ → Text → AuthSession
  astrometry_session session_id account_id key_id now secret = record {
    id = session_id;
    token_digest = p.secret_digest secret;
    account_id = account_id;
    kind = astrometry;
    csrf_digest = none;
    api_key_id = some key_id;
    created_at = now;
    last_seen_at = now;
    expires_at = now + session_idle_lifetime;
    absolute_expires_at = now + session_absolute_lifetime;
    revoked_at = none;
  }

  abbrev pub is_open : ℕ → Text → AuthSession → Bool
  is_open now secret s =
      is_astrometry s.kind
      && (is_none s.revoked_at
          && (ltb now s.expires_at
              && (ltb now s.absolute_expires_at
                  && constant_time_eq s.token_digest (p.secret_digest secret))))

module _ {W : Type 0} where
  -- Deletes the sessions one after the other.
  unfoldable pub delete_each : ℕ → List AuthSession → Tables W → Tables W
  unfolding delete_session
  delete_each account_id [] t = t
  delete_each account_id (s ∷ sessions) t =
      delete_each account_id sessions (delete_session account_id s.id t)

  abbrev pub recycled : ℕ → List AuthSession → Tables W → Tables W
  recycled account_id live t =
      if ltb (length live) max_live_astrometry_sessions_per_key
      then t
      else delete_each account_id
          (take (length live + 1 - max_live_astrometry_sessions_per_key)
            (sort (λ (x y : AuthSession). leb x.created_at y.created_at) live))
          t

  -- Room for one more live session of the key: the oldest go.
  unfoldable pub recycle_astrometry_sessions : Engine → ℕ → ℕ → ℕ → Tables W → Tables W
  unfolding list_sessions is_live_of delete_each sort
  recycle_astrometry_sessions e account_id key_id now t =
      recycled account_id (filter (is_live_of key_id now) (list_sessions e account_id t)) t

  module _ (p : Primitives) where
    abbrev pub session_created :
        Account
        → AuthSession
        → Text
        → Result (Unit {0}) × Tables W
        → Outcome CreatedAstrometrySession × Tables W
    session_created account s token (err, t) = (failed internal, t)
    session_created account s token (ok x, t) =
        (done (record { account = account; session = s; token = token }), t)

    abbrev pub session_with :
        ℕ
        → ℕ
        → Account
        → ApiKey W
        → Option Text
        → Tables W
        → Outcome CreatedAstrometrySession × Tables W
    session_with session_id now account k none t = (failed internal, t)
    session_with session_id now account k (some secret) t =
        session_created account (astrometry_session p session_id account.id k.id now secret)
          (format_prefixed_token p (text "session") (account.id ∷ session_id ∷ []) secret)
          (insert_session (astrometry_session p session_id account.id k.id now secret) t)

    abbrev pub for_key :
        Engine
        → ℕ
        → ℕ
        → Option Text
        → Outcome (AuthenticatedApiKey W) × Tables W
        → Outcome CreatedAstrometrySession × Tables W
    for_key e session_id now secret (failed error, t) = (failed error, t)
    for_key e session_id now secret (done a, t) =
        session_with session_id now a.account a.api_key secret
          (recycle_astrometry_sessions e a.account.id a.api_key.id now t)

    -- One clock reading stands for the two that the call takes.
    unfoldable pub create_astrometry_session :
        Engine → ℕ → ℕ → Option Text → Text → Tables W → Outcome CreatedAstrometrySession × Tables W
    unfolding authenticate_api_key recycle_astrometry_sessions astrometry_session insert_session
        format_prefixed_token
    create_astrometry_session e session_id now secret token t =
        for_key e session_id now secret (authenticate_api_key p now token scope_solve_submit t)

    abbrev pub weighed :
        ℕ
        → ℕ
        → ℕ
        → Account
        → AuthSession
        → W
        → Tables W
        → Outcome (AuthenticatedAstrometrySession W) × Tables W
    weighed account_id session_id now account s weight t = (
      done (record {
        account = account;
        session = (renew account_id session_id now s t).0;
        queue_weight = weight;
      }),
      (renew account_id session_id now s t).1,
    )

    abbrev pub by_key :
        ℕ
        → ℕ
        → ℕ
        → ℕ
        → Account
        → AuthSession
        → Option (ApiKey W)
        → Tables W
        → Outcome (AuthenticatedAstrometrySession W) × Tables W
    by_key account_id session_id key_id now account s none t = (failed invalid_credential, t)
    by_key account_id session_id key_id now account s (some k) t =
        weighed account_id session_id now account s k.queue_weight
          (if is_due k.last_used_at now then (touch_api_key account_id key_id now t).1 else t)

    abbrev pub with_weight :
        ℕ
        → ℕ
        → W
        → ℕ
        → Account
        → AuthSession
        → Option ℕ
        → Tables W
        → Outcome (AuthenticatedAstrometrySession W) × Tables W
    with_weight account_id session_id one now account s none t =
        weighed account_id session_id now account s one t
    with_weight account_id session_id one now account s (some key_id) t =
        by_key account_id session_id key_id now account s
          (kept (is_live_key now) (api_key account_id key_id t)) t

    abbrev pub as_account :
        ℕ
        → ℕ
        → W
        → ℕ
        → AuthSession
        → Option Account
        → Tables W
        → Outcome (AuthenticatedAstrometrySession W) × Tables W
    as_account account_id session_id one now s none t = (failed invalid_credential, t)
    as_account account_id session_id one now s (some account) t =
        with_weight account_id session_id one now account s s.api_key_id t

    abbrev pub as_session :
        ℕ
        → ℕ
        → W
        → ℕ
        → Option AuthSession
        → Tables W
        → Outcome (AuthenticatedAstrometrySession W) × Tables W
    as_session account_id session_id one now none t = (failed invalid_credential, t)
    as_session account_id session_id one now (some s) t =
        as_account account_id session_id one now s
          (kept (λ (a : Account). is_active a.status) (account_by_id account_id t)) t

    abbrev pub as_token :
        W
        → ℕ
        → Option (ℕ × ℕ × Text)
        → Tables W
        → Outcome (AuthenticatedAstrometrySession W) × Tables W
    as_token one now none t = (failed invalid_credential, t)
    as_token one now (some (account_id, session_id, secret)) t =
        as_session account_id session_id one now
          (kept (is_open p now secret) (session account_id session_id t)) t

    -- The key that has minted the session is looked at again, and gives its weight.
    unfoldable pub authenticate_astrometry_session :
        W → ℕ → Text → Tables W → Outcome (AuthenticatedAstrometrySession W) × Tables W
    unfolding parse_session_token session account_by_id api_key touch_api_key renew
    authenticate_astrometry_session one now token t =
        as_token one now (parse_session_token p token) t
