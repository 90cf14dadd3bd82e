-- ===== src/Service/AccountCalls.antt =====
-- The handlers of src/api/auth.rs for the sessions and credentials of the signed-in account.
use seiza_server.Base.{ℕ, ◌≡◌, refl, Bool, true, false, some, Text, ◌==◌, if◌then◌else◌}
use seiza_server.Identity.Rows.{Tables}
use seiza_server.Identity.Sessions.{revoke_session}
use seiza_server.Identity.Passkeys.{revoke_passkey}
use seiza_server.Identity.Keys.{revoke_api_key}
use seiza_server.Accounts.Secrets.{Primitives, done}
use seiza_server.Accounts.Secrets
use seiza_server.Accounts.BrowserSessions.{
  AuthenticatedBrowserSession, logout, logout_all, require_recent_auth,
}
use seiza_server.Accounts.Proofs.{BrowserProof}
use seiza_server.Tus.Requests.{Outcome, answer, failed, missing}
use seiza_server.Service.Clients.{
  Codes, Config, Request, auth_api_error, session_cookie_name, authenticated_browser_for_mutation,
}
use seiza_server.Service.Acting.{SameSite, mutation_inv, authenticated_browser-BrowserProof}

pub data AccountCall : Type 0 where
  revokes_passkey revokes_api_key revokes_session : ℕ → AccountCall
  logs_out logs_out_all : AccountCall

module _ {W : Type 0} where
  -- `not_found_message` where nothing was revoked.
  abbrev pub or_missing : Bool × Tables W → Outcome (Unit {0}) × Tables W
  or_missing (true, t) = (answer tt, t)
  or_missing (false, t) = (failed missing, t)

  abbrev pub if_recent :
      Secrets.Outcome (Unit {0})
      → Tables W
      → Outcome (Unit {0}) × Tables W
      → Outcome (Unit {0}) × Tables W
  if_recent (Secrets.failed e) t next = (failed (auth_api_error e), t)
  if_recent (done _) t next = next

  unfoldable pub account_revoke_passkey :
      ℕ → ℕ → AuthenticatedBrowserSession → Tables W → Outcome (Unit {0}) × Tables W
  unfolding require_recent_auth revoke_passkey
  account_revoke_passkey now passkey_id a t =
      if_recent (require_recent_auth now a) t
        (or_missing (revoke_passkey a.account.id passkey_id now t))

  unfoldable pub account_revoke_api_key :
      ℕ → ℕ → AuthenticatedBrowserSession → Tables W → Outcome (Unit {0}) × Tables W
  unfolding require_recent_auth revoke_api_key
  account_revoke_api_key now key_id a t =
      if_recent (require_recent_auth now a) t
        (or_missing (revoke_api_key a.account.id key_id now t))

  -- To revoke the session that the request comes with is to log out.
  unfoldable pub revoke_account_session :
      ℕ → ℕ → AuthenticatedBrowserSession → Tables W → Outcome (Unit {0}) × Tables W
  unfolding require_recent_auth revoke_session logout
  revoke_account_session now session_id a t = if_recent (require_recent_auth now a) t (
      if session_id == a.session.id
      then (answer tt, logout now a t)
      else or_missing (revoke_session a.account.id session_id now t))

  abbrev pub handled :
      ℕ → AccountCall → AuthenticatedBrowserSession → Tables W → Outcome (Unit {0}) × Tables W
  handled now (revokes_passkey passkey_id) a t = account_revoke_passkey now passkey_id a t
  handled now (revokes_api_key key_id) a t = account_revoke_api_key now key_id a t
  handled now (revokes_session session_id) a t = revoke_account_session now session_id a t
  handled now logs_out a t = (answer tt, logout now a t)
  handled now logs_out_all a t = (answer tt, (logout_all now a t).1)

  abbrev pub on_account :
      ℕ
      → AccountCall
      → Outcome AuthenticatedBrowserSession × Tables W
      → Outcome (Unit {0}) × Tables W
  on_account now call (failed e, t) = (failed e, t)
  on_account now call (answer a, t) = handled now call a t

module _ {W : Type 0} (codes : Codes W) (p : Primitives) (config : Config) (now : ℕ)
    (r : Request) where
  unfoldable pub account_request : AccountCall → Tables W → Outcome (Unit {0}) × Tables W
  unfolding authenticated_browser_for_mutation account_revoke_passkey account_revoke_api_key
      revoke_account_session logout logout_all
  account_request call t =
      on_account now call (authenticated_browser_for_mutation codes p config now r t)

  -- Who has made a call, and on what.
  pub record Entitled (t : Tables W) : Type 0 where
    pub session : AuthenticatedBrowserSession
    pub token : Text
    pub cookie : r.cookie (session_cookie_name config) ≡ some token
    pub proof : BrowserProof p now t token session.account
    pub same_site : SameSite config r session

  on_account_inv :
      (call : AccountCall) (w : Outcome AuthenticatedBrowserSession × Tables W)
      → (on_account now call w).0 ≡ answer tt
      → (a : AuthenticatedBrowserSession) × (w.0 ≡ answer a)
  on_account_inv call (failed e, t) h = cc
  on_account_inv call (answer a, t) h = (a, refl)

-- A call that ends sessions or revokes a credential succeeds only for a request with the cookie of a
-- stored session of an active account that is not refused, from the service's own origin, and with
-- the session's CSRF token.
pub account_request-Entitled :
    {W : Type 0} (codes : Codes W) (p : Primitives) (config : Config) (now : ℕ) (r : Request)
    (call : AccountCall) (t : Tables W)
    → (account_request codes p config now r call t).0 ≡ answer tt
    → Entitled codes p config now r t
unfolding account_request
account_request-Entitled codes p config now r call t h =
    let (a, signed) =
      on_account_inv codes p config now r call
        (authenticated_browser_for_mutation codes p config now r t) h in
    let (plain, site) = mutation_inv codes p config now r t a signed in
    let (token, cookie, proof) =
      authenticated_browser-BrowserProof codes p config now r t a plain in
    record { session = a; token = token; cookie = cookie; proof = proof; same_site = site }
