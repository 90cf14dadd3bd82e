-- ===== src/Service/Acting.antt =====
-- Proofs about `client_from_headers` of src/api.rs.
use seiza_server.Base.{
  ℕ, ◌≡◌, ◌≢◌, refl, sym, ap, ◌∙◌, subst, inl, inr, Bool, true, false, Option, none, some, arith,
  Text, text, text_eq, text_eq→eq, if◌then◌else◌, is_none, is_some, Bool-cases,
}
use seiza_server.Identity.Rows.{Account, Tables}
use seiza_server.Uploads.Keys.{append_cancel}
use seiza_server.Accounts.Secrets.{Primitives, done}
use seiza_server.Accounts.Secrets
use seiza_server.Accounts.Tokens.{IsUuid}
use seiza_server.Accounts.BrowserSessions.{
  AuthenticatedBrowserSession, authenticate_browser_session, require_csrf,
}
use seiza_server.Accounts.ApiKeys.{scope_solve_submit, scope_solve_read, authenticate_api_key}
use seiza_server.Accounts.Astrometry.{authenticate_astrometry_session}
use seiza_server.Accounts.Proofs.{
  BrowserProof, AstrometryProof, KeyProof, authenticate_browser_session-BrowserProof,
  authenticate_api_key-KeyProof, authenticate_astrometry_session-AstrometryProof,
}
use seiza_server.Tus.Requests.{Outcome, answer, failed, Client}
use seiza_server.Tus.Access.{and_then_inv, answer_injective}
use seiza_server.Service.Clients.{
  AuthMode, public, stub_api_key, accounts, PublicSolveSurface, IpAddr, v4, v6, Codes, Config,
  Request, session_cookie_name, csrf_cookie_name, request_api_key, surface_allowed,
  account_client_id, is_public_astrometry_session, network_id, public_client_id, public_client,
  public_client_for_request, key_client, as_client, of_browser, of_api_key, of_astrometry,
  browser_answered, with_token, with_service, authenticated_browser, if_sent, csrf_checked,
  from_origin, authenticated_browser_for_mutation, as_browser_client, from_cookies, serving,
  from_credentials, anonymous_or_key, in_mode, client_from_headers,
}

module _ (config : Config) (r : Request) where
  -- A writing request from a browser names the service's origin, and sends the session's CSRF token.
  pub record SameSite (a : AuthenticatedBrowserSession) : Type 0 where
    pub from_service : r.headers (text "origin") ≡ config.public_origin
    pub csrf_sent : require_csrf a (r.headers (text "x-csrf-token")) ≡ done tt

module _ {W : Type 0} (p : Primitives) (config : Config) (now : ℕ) (r : Request) (mutation : Bool)
    (t : Tables W) where
  -- What a request proves of an account: its browser session, its API key or its Astrometry session.
  pub data Proven (astrometry_session : Option Text) (a : Account) : Type 0 where
    by_cookie :
        (token : Text) (s : AuthenticatedBrowserSession)
        → r.cookie (session_cookie_name config) ≡ some token
        → s.account ≡ a
        → BrowserProof p now t token a
        → (mutation ≡ true → SameSite config r s)
        → Proven astrometry_session a
    by_api_key :
        (token : Text)
        → request_api_key p r.headers ≡ some token
        → KeyProof p now t token (if mutation then scope_solve_submit else scope_solve_read) a
        → Proven astrometry_session a
    by_session :
        (token : Text)
        → astrometry_session ≡ some token
        → AstrometryProof p now t token a
        → Proven astrometry_session a

id_injective :
    (p : Primitives) (law : IsUuid p) (i j : ℕ)
    → account_client_id p i ≡ account_client_id p j
    → i ≡ j
id_injective p law i j h =
    let same = append_cancel (text "account:") (p.uuid_to_string i) (p.uuid_to_string j) h in
    cc (sym (law.parse-to_string i) ∙ (ap (λ s. p.parse_uuid s) same ∙ law.parse-to_string j))

module _ {W : Type 0} (codes : Codes W) (p : Primitives) (config : Config) (now : ℕ) (r : Request)
    (t : Tables W) where
  pub authenticated_browser-BrowserProof :
      (s : AuthenticatedBrowserSession)
      → (authenticated_browser codes p config now r t).0 ≡ answer s
      → (token : Text) × (r.cookie (session_cookie_name config) ≡ some token)
        × BrowserProof p now t token s.account
  unfolding authenticated_browser
  authenticated_browser-BrowserProof s =
      service config.public_origin (r.cookie (session_cookie_name config))
    where
      browser :
          (token : Text) (w : Secrets.Outcome AuthenticatedBrowserSession × Tables W)
          → ((x : AuthenticatedBrowserSession)
              → w.0 ≡ done x
              → BrowserProof p now t token x.account)
          → (browser_answered codes p w).0 ≡ answer s
          → BrowserProof p now t token s.account
      browser token (Secrets.failed e, t') proof h = cc
      browser token (done x, t') proof h =
          subst (λ (y : AuthenticatedBrowserSession). BrowserProof p now t token y.account)
            (answer_injective x s h) (proof x refl)

      cookie :
          (o : Option Text)
          → (with_token codes p config now r o t).0 ≡ answer s
          → (token : Text) × (o ≡ some token) × BrowserProof p now t token s.account
      cookie none h = cc
      cookie (some token) h = (
        token,
        refl,
        browser token
            (authenticate_browser_session p now token (r.cookie (csrf_cookie_name config)) t)
            (λ x k.
              authenticate_browser_session-BrowserProof p now t token
                (r.cookie (csrf_cookie_name config)) x k)
            h,
      )

      service :
          (o token : Option Text)
          → (with_service codes p o (λ _. with_token codes p config now r token t) t).0 ≡ answer s
          → (x : Text) × (token ≡ some x) × BrowserProof p now t x s.account
      service none token h = cc
      service (some origin) token h = cookie token h

  csrf_checked_inv :
      (w : Outcome AuthenticatedBrowserSession × Tables W) (s : AuthenticatedBrowserSession)
      → (csrf_checked codes p r w).0 ≡ answer s
      → (w.0 ≡ answer s) × (require_csrf s (r.headers (text "x-csrf-token")) ≡ done tt)
  csrf_checked_inv (failed e, t') s h = cc
  csrf_checked_inv (answer x, t') s h = by (require_csrf x (r.headers (text "x-csrf-token"))) refl h
    where
      by :
          (o : Secrets.Outcome (Unit {0}))
          → require_csrf x (r.headers (text "x-csrf-token")) ≡ o
          → if_sent codes p x o ≡ answer s
          → (Outcome.answer x ≡ answer s)
            × (require_csrf s (r.headers (text "x-csrf-token")) ≡ done tt)
      by (Secrets.failed e) k h = cc
      by (done u) k h = (
        h,
        subst
            (λ (y : AuthenticatedBrowserSession).
              require_csrf y (r.headers (text "x-csrf-token")) ≡ done tt)
            (answer_injective x s h) k,
      )

  pub mutation_inv :
      (s : AuthenticatedBrowserSession)
      → (authenticated_browser_for_mutation codes p config now r t).0 ≡ answer s
      → ((authenticated_browser codes p config now r t).0 ≡ answer s) × SameSite config r s
  unfolding authenticated_browser_for_mutation
  mutation_inv s = service config.public_origin refl (r.headers (text "origin")) refl
    where
      checks : Outcome AuthenticatedBrowserSession × Tables W
      checks = csrf_checked codes p r (authenticated_browser codes p config now r t)

      service :
          (o : Option Text)
          → config.public_origin ≡ o
          → (given : Option Text) → r.headers (text "origin") ≡ given
          → (with_service codes p o
              (λ public_origin.
                from_origin codes p given public_origin
                  (csrf_checked codes p r (authenticated_browser codes p config now r t))
                  t)
              t).0
            ≡ answer s
          → ((authenticated_browser codes p config now r t).0 ≡ answer s) × SameSite config r s
      service none e given k h = cc
      service (some origin) e none k h = cc
      service (some origin) e (some given) k h = elim (Bool-cases (text_eq given origin)) [
        | inl same ↦
            let (signed, csrf) =
              csrf_checked_inv (authenticated_browser codes p config now r t) s (rw same at h) in
            (
              signed,
              record {
                from_service = k ∙ (ap some (text_eq→eq given origin same) ∙ sym e);
                csrf_sent = csrf;
              },
            )
        | inr other ↦ cc (rw other at h)
      ]

module _ {W : Type 0} (codes : Codes W) (p : Primitives) (config : Config) (now : ℕ) (r : Request)
    (t : Tables W) (law : IsUuid p) (astrometry_session : Option Text) (mutation : Bool)
    (account_id : ℕ) where
  -- Where the client's id is the account's, the account has been proved.
  abbrev Backed : Outcome (Client W) → Type 0
  Backed o =
      (c : Client W)
      → o ≡ answer c
      → c.id ≡ account_client_id p account_id
      → (a : Account) × Proven p config now r mutation t astrometry_session a × (a.id ≡ account_id)

  network_id-ne : (o : Option IpAddr) → network_id codes o ≢ account_client_id p account_id
  network_id-ne none h = ground (arith, h)
  network_id-ne (some (v4 n)) h = ground (arith, h)
  network_id-ne (some (v6 n)) h = ground (arith, h)

  public-Backed :
      (surface : Option PublicSolveSurface)
      → Backed (public_client_for_request codes p config r surface)
  unfolding public_client_for_request public_client public_client_id
  public-Backed surface c h e =
      let (_, _, k) = and_then_inv (surface_allowed config surface) _ c h in
      absurd (network_id-ne _ (ap (λ x. x.id) (answer_injective _ c k) ∙ e))

  key_client-Backed :
      (key : Text) (c : Client W) → key_client codes key ≡ c → c.id ≢ account_client_id p account_id
  key_client-Backed key c h e = let k = ap (λ (x : Client W). x.id) h ∙ e in ground (arith, k)

  anonymous_or_key-Backed :
      (mode : AuthMode) (key : Option Text) (surface : Option PublicSolveSurface)
      → Backed (anonymous_or_key codes p config r mode key surface)
  anonymous_or_key-Backed stub_api_key none surface c h e = cc
  anonymous_or_key-Backed stub_api_key (some key) surface c h e =
      absurd (key_client-Backed key c (answer_injective _ c h) e)
  anonymous_or_key-Backed public (some key) surface c h e =
      let (_, _, k) = and_then_inv (surface_allowed config surface) _ c h in
      absurd (key_client-Backed key c (answer_injective _ c k) e)
  anonymous_or_key-Backed public none surface c h e = public-Backed surface c h e
  anonymous_or_key-Backed accounts key surface c h e = cc

  as_client_inv :
      {A : Type 0} (f : A → Client W) (w : Secrets.Outcome A × Tables W) (c : Client W)
      → (as_client codes p f w).0 ≡ answer c
      → (a : A) × (w.0 ≡ done a) × (f a ≡ c)
  as_client_inv f (Secrets.failed e, t') c h = cc
  as_client_inv f (done a, t') c h = (a, refl, answer_injective (f a) c h)

  account_injective :
      (c : Client W) (id : ℕ)
      → account_client_id p id ≡ c.id
      → c.id ≡ account_client_id p account_id
      → id ≡ account_id
  account_injective c id h e = id_injective p law id account_id (h ∙ e)

  browser_client_inv :
      (w : Outcome AuthenticatedBrowserSession × Tables W) (c : Client W)
      → (as_browser_client codes p w).0 ≡ answer c
      → (s : AuthenticatedBrowserSession) × (w.0 ≡ answer s) × (of_browser codes p s ≡ c)
  browser_client_inv (failed e, t') c h = cc
  browser_client_inv (answer s, t') c h = (s, refl, answer_injective (of_browser codes p s) c h)

  browser_signed_in :
      (b : Bool) (s : AuthenticatedBrowserSession)
      → (if b
          then authenticated_browser_for_mutation codes p config now r t
          else authenticated_browser codes p config now r t).0
        ≡ answer s
      → ((authenticated_browser codes p config now r t).0 ≡ answer s)
        × (b ≡ true → SameSite config r s)
  browser_signed_in true s h =
      let (signed, site) = mutation_inv codes p config now r t s h in (signed, λ e. site)
  browser_signed_in false s h = (h, λ e. cc)

  from_cookies-Backed :
      (surface : Option PublicSolveSurface)
      → Backed (from_cookies codes p config now r mutation surface t).0
  from_cookies-Backed surface =
      elim (Bool-cases (is_none (r.cookie (session_cookie_name config)))) [
        | inl none_sent ↦ rw none_sent (public-Backed surface)
        | inr sent ↦ rw sent (λ c h e.
            let (s, signs, client) = browser_client_inv _ c h in
            let (signed, site) = browser_signed_in mutation s signs in
            let (token, cookie, proof) =
              authenticated_browser-BrowserProof codes p config now r t s signed in
            (
              s.account,
              by_cookie token s cookie refl proof site,
              account_injective c s.account.id (ap (λ x. x.id) client) e,
            ))
      ]

  serving-Backed :
      (w : Outcome (Client W) × Tables W) → Backed w.0 → Backed (serving codes p config w t).0
  serving-Backed w h = elim (Bool-cases (is_some config.public_origin)) [
    | inl e ↦ rw e h
    | inr e ↦ rw e (λ c k f. cc)
  ]

  session-Backed :
      (token : Text)
      → astrometry_session ≡ some token
      → Backed
          (as_client codes p
            (of_astrometry codes p)
            (authenticate_astrometry_session p codes.one now token t)).0
  session-Backed token given c h e =
      let (s, signed, client) = as_client_inv (of_astrometry codes p) _ c h in
      (
        s.account,
        by_session token given
            (authenticate_astrometry_session-AstrometryProof p now t codes.one token s signed),
        account_injective c s.account.id (ap (λ x. x.id) client) e,
      )

  api_key-Backed :
      (token : Text)
      → request_api_key p r.headers ≡ some token
      → Backed
          (as_client codes p (of_api_key codes p) (
            authenticate_api_key p now token
              (if mutation then scope_solve_submit else scope_solve_read)
              t)).0
  api_key-Backed token given c h e =
      let (s, signed, client) = as_client_inv (of_api_key codes p) _ c h in
      (
        s.account,
        by_api_key token given (authenticate_api_key-KeyProof p now t token _ s signed),
        account_injective c s.account.id (ap (λ x. x.id) client) e,
      )

  from_credentials-Backed :
      (given key : Option Text) (surface : Option PublicSolveSurface)
      → astrometry_session ≡ given
      → request_api_key p r.headers ≡ key
      → Backed (from_credentials codes p config now r given key mutation surface t).0
  from_credentials-Backed (some token) (some key) surface f g = λ c h e. cc
  from_credentials-Backed (some token) none surface f g =
      elim (Bool-cases (is_public_astrometry_session codes token)) [
        | inl shared ↦ rw shared (public-Backed surface)
        | inr own ↦ rw own (serving-Backed _ (session-Backed token f))
      ]
  from_credentials-Backed none (some key) surface f g = serving-Backed _ (api_key-Backed key g)
  from_credentials-Backed none none surface f g = from_cookies-Backed surface

  in_mode-Backed :
      (mode : AuthMode) (surface : Option PublicSolveSurface)
      → Backed (in_mode codes p config now r astrometry_session mutation surface mode t).0
  in_mode-Backed accounts surface =
      from_credentials-Backed astrometry_session (request_api_key p r.headers) surface refl refl
  in_mode-Backed public surface = anonymous_or_key-Backed public _ surface
  in_mode-Backed stub_api_key surface = anonymous_or_key-Backed stub_api_key _ surface

-- In whatever mode, a client whose id is an account's has proved that account: by the cookie of a
-- stored browser session that is not refused, where a request that writes also names the service's
-- origin and sends the session's CSRF token; or by a stored API key that serves for reading or for
-- submitting, as the request does; or by a stored Astrometry session that is open. The account of the
-- credential is stored and active, and has that id. UUIDs can be read back from their text.
pub client_from_headers-Proven :
    {W : Type 0} (codes : Codes W) (p : Primitives) (config : Config) (now : ℕ) (r : Request)
    (astrometry_session : Option Text) (mutation : Bool) (surface : Option PublicSolveSurface)
    (t : Tables W) (account_id : ℕ) (c : Client W)
    → IsUuid p
    → (client_from_headers codes p config now r astrometry_session mutation surface t).0 ≡ answer c
    → c.id ≡ account_client_id p account_id
    → (a : Account) × Proven p config now r mutation t astrometry_session a × (a.id ≡ account_id)
unfolding client_from_headers
client_from_headers-Proven codes p config now r astrometry_session mutation surface t account_id c
      law =
    in_mode-Backed codes p config now r t law astrometry_session mutation account_id
      config.auth_mode surface c
