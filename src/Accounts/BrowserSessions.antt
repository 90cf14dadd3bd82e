-- ===== src/Accounts/BrowserSessions.antt =====
-- Browser sessions in src/auth.rs: authentication, CSRF, logging out and recent authentication.
use seiza_server.Base.{
  ℕ, ◌+◌, ◌-◌, min, Bool, true, false, not, ◌||◌, Option, none, some, Text, leb, if◌then◌else◌,
  is_some,
}
use seiza_server.Identity.Rows.{is_active, is_browser, Account, AuthSession, Tables}
use seiza_server.Identity.Accounts.{account_by_id}
use seiza_server.Identity.Sessions.{session, touch_session, revoke_session, revoke_all_sessions}
use seiza_server.Accounts.Secrets.{
  Primitives, Outcome, done, failed, invalid_credential, recent_authentication_required, has_digest,
  constant_time_eq, session_touch_interval, session_idle_lifetime, recent_auth_lifetime,
}
use seiza_server.Accounts.Tokens.{parse_session_token}

pub record AuthenticatedBrowserSession : Type 0 where
  pub account : Account
  pub session : AuthSession
  pub csrf_token : Option Text

-- `Option::filter`.
abbrev pub kept {ℓ} : {A : Type ℓ} → (A → Bool) → Option A → Option A
kept test none = none
kept test (some a) = if test a then some a else none

module _ (p : Primitives) where
  -- The guard that turns a session down.
  unfoldable pub is_refused : ℕ → Text → AuthSession → Bool
  is_refused now secret s =
      not (is_browser s.kind)
      || (is_some s.revoked_at
          || (leb s.expires_at now
              || (leb s.absolute_expires_at now
                  || not (constant_time_eq s.token_digest (p.secret_digest secret)))))

  abbrev pub csrf_of : Option Text → AuthSession → Option Text
  csrf_of csrf_cookie s =
      kept (λ token. has_digest s.csrf_digest (p.secret_digest token)) csrf_cookie

module _ {W : Type 0} where
  abbrev pub renewed : ℕ → ℕ → AuthSession → Bool × Tables W → AuthSession × Tables W
  renewed now expires_at s (true, t) = (record s { last_seen_at = now; expires_at = expires_at }, t)
  renewed now expires_at s (false, t) = (s, t)

  -- The end of the idle lifetime moves on, at most every quarter of an hour, and never past the
  -- session's absolute end.
  unfoldable pub renew : ℕ → ℕ → ℕ → AuthSession → Tables W → AuthSession × Tables W
  unfolding touch_session
  renew account_id session_id now s t =
      if leb session_touch_interval (now - s.last_seen_at)
      then renewed now (min (now + session_idle_lifetime) s.absolute_expires_at) s (
          touch_session account_id session_id now
            (min (now + session_idle_lifetime) s.absolute_expires_at) t)
      else (s, t)

  module _ (p : Primitives) where
    abbrev pub authenticated :
        Option Text
        → Account
        → AuthSession × Tables W
        → Outcome AuthenticatedBrowserSession × Tables W
    authenticated csrf_cookie account (s, t) =
        (done (record { account = account; session = s; csrf_token = csrf_of p csrf_cookie s }), t)

    abbrev pub of_account :
        ℕ
        → ℕ
        → ℕ
        → Option Text
        → AuthSession
        → Option Account
        → Tables W
        → Outcome AuthenticatedBrowserSession × Tables W
    of_account account_id session_id now csrf_cookie s none t = (failed invalid_credential, t)
    of_account account_id session_id now csrf_cookie s (some account) t =
        authenticated csrf_cookie account (renew account_id session_id now s t)

    abbrev pub of_session :
        ℕ
        → ℕ
        → Text
        → ℕ
        → Option Text
        → Option AuthSession
        → Tables W
        → Outcome AuthenticatedBrowserSession × Tables W
    of_session account_id session_id secret now csrf_cookie none t = (failed invalid_credential, t)
    of_session account_id session_id secret now csrf_cookie (some s) t =
        if is_refused p now secret s
        then (failed invalid_credential, t)
        else of_account account_id session_id now csrf_cookie s
            (kept (λ (a : Account). is_active a.status) (account_by_id account_id t)) t

    abbrev pub of_token :
        ℕ
        → Option Text
        → Option (ℕ × ℕ × Text)
        → Tables W
        → Outcome AuthenticatedBrowserSession × Tables W
    of_token now csrf_cookie none t = (failed invalid_credential, t)
    of_token now csrf_cookie (some (account_id, session_id, secret)) t =
        of_session account_id session_id secret now csrf_cookie (session account_id session_id t) t

    unfoldable pub authenticate_browser_session :
        ℕ → Text → Option Text → Tables W → Outcome AuthenticatedBrowserSession × Tables W
    unfolding parse_session_token session account_by_id renew is_refused
    authenticate_browser_session now token csrf_cookie t =
        of_token now csrf_cookie (parse_session_token p token) t

  unfoldable pub logout : ℕ → AuthenticatedBrowserSession → Tables W → Tables W
  unfolding revoke_session
  logout now a t = (revoke_session a.account.id a.session.id now t).1

  unfoldable pub logout_all : ℕ → AuthenticatedBrowserSession → Tables W → ℕ × Tables W
  unfolding revoke_all_sessions
  logout_all now a t = revoke_all_sessions a.account.id now t

abbrev matched : Option Text → Option Text → Outcome (Unit {0})
matched (some cookie) (some header) =
    if constant_time_eq cookie header then done tt else failed invalid_credential
matched _ _ = failed invalid_credential

unfoldable pub require_csrf : AuthenticatedBrowserSession → Option Text → Outcome (Unit {0})
require_csrf a header = matched a.csrf_token header

unfoldable pub require_recent_auth : ℕ → AuthenticatedBrowserSession → Outcome (Unit {0})
require_recent_auth now a =
    if leb (now - a.session.created_at) recent_auth_lifetime
    then done tt
    else failed recent_authentication_required
