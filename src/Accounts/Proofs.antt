-- ===== src/Accounts/Proofs.antt =====
-- Proofs about the credentials that src/auth.rs authenticates.
use seiza_server.Base.{
  ℕ, ◌≡◌, refl, ap, subst, inl, inr, Bool, true, false, Option, none, some, arith, Text, ◌==◌,
  Bool-cases, All-find,
}
use seiza_server.Identity.Rows.{is_active, Account, AuthSession, ApiKey, Tables}
use seiza_server.Identity.Accounts.{account_by_id}
use seiza_server.Identity.Sessions.{session}
use seiza_server.Identity.Keys.{api_key, touch_api_key}
use seiza_server.Identity.Spent.{everything}
use seiza_server.Accounts.Secrets.{Primitives, done, done_injective}
use seiza_server.Accounts.Tokens.{parse_session_token, parse_api_key_token}
use seiza_server.Accounts.BrowserSessions.{
  AuthenticatedBrowserSession, kept, is_refused, of_account, of_session, of_token,
  authenticate_browser_session,
}
use seiza_server.Accounts.ApiKeys.{
  AuthenticatedApiKey, AuthenticatedAstrometrySession, is_live_key, is_due, key_used,
  key_of_account, key_serves, of_key, of_key_token, authenticate_api_key,
}
use seiza_server.Accounts.Astrometry.{
  is_open, by_key, with_weight, as_account, as_session, as_token, authenticate_astrometry_session,
}

pub kept_inv {ℓ} :
    {A : Type ℓ} (test : A → Bool) (o : Option A) (a : A)
    → kept test o ≡ some a
    → (o ≡ some a) × (test a ≡ true)
kept_inv test none a h = cc
kept_inv test (some x) a h = elim (Bool-cases (test x)) [
  | inl e ↦
      let same : x ≡ a = ground (arith, e, h) in (ap some same, subst (λ y. test y ≡ true) same e)
  | inr e ↦ ground (arith, e, h)
]

module _ {W : Type 0} (p : Primitives) (now : ℕ) (t : Tables W) where
  -- An active account with that id.
  pub record Holder (account_id : ℕ) (a : Account) : Type 0 where
    pub stored_as : account_by_id account_id t ≡ some a
    pub active : is_active a.status ≡ true
    pub named : a.id ≡ account_id

  holder :
      (account_id : ℕ) (a : Account)
      → kept (λ (x : Account). is_active x.status) (account_by_id account_id t) ≡ some a
      → Holder account_id a
  unfolding account_by_id
  holder account_id a h =
      let (found, active) =
        kept_inv (λ (x : Account). is_active x.status) (account_by_id account_id t) a h in
      let (_, same) =
        All-find (λ x. Unit {0}) (λ (x : Account). x.id == account_id) t.accounts a
          (everything t.accounts) found in
      record { stored_as = found; active = active; named = ground (arith, same) }

  -- The token of a stored session that is not refused, and its active account.
  pub record BrowserProof (token : Text) (a : Account) : Type 0 where
    pub account_id : ℕ
    pub session_id : ℕ
    pub secret : Text
    pub row : AuthSession
    pub parsed : parse_session_token p token ≡ some (account_id, session_id, secret)
    pub stored_session : session account_id session_id t ≡ some row
    pub accepted : is_refused p now secret row ≡ false
    pub holds : Holder account_id a

  -- The token of a stored session that an API key has minted and that is open.
  pub record AstrometryProof (token : Text) (a : Account) : Type 0 where
    pub account_id : ℕ
    pub session_id : ℕ
    pub secret : Text
    pub row : AuthSession
    pub parsed : parse_session_token p token ≡ some (account_id, session_id, secret)
    pub stored_session : session account_id session_id t ≡ some row
    pub accepted : is_open p now secret row ≡ true
    pub holds : Holder account_id a

  -- The token of a stored API key that serves for the scope.
  pub record KeyProof (token scope : Text) (a : Account) : Type 0 where
    pub account_id : ℕ
    pub key_id : ℕ
    pub secret : Text
    pub row : ApiKey W
    pub parsed : parse_api_key_token p token ≡ some (account_id, key_id, secret)
    pub stored_key : api_key account_id key_id t ≡ some row
    pub accepted : key_serves p now scope secret row ≡ true
    pub holds : Holder account_id a

  of_account_inv :
      (account_id session_id : ℕ) (csrf : Option Text) (s : AuthSession) (o : Option Account)
      (r : AuthenticatedBrowserSession)
      → (of_account p account_id session_id now csrf s o t).0 ≡ done r
      → o ≡ some r.account
  of_account_inv account_id session_id csrf s none r h = cc
  of_account_inv account_id session_id csrf s (some a) r h =
      ap (λ x. some x.account) (done_injective _ r h)

  of_token_inv :
      (csrf : Option Text) (token : Text) (o : Option (ℕ × ℕ × Text))
      (r : AuthenticatedBrowserSession)
      → parse_session_token p token ≡ o
      → (of_token p now csrf o t).0 ≡ done r
      → BrowserProof token r.account
  of_token_inv csrf token none r e h = cc
  of_token_inv csrf token (some (account_id, session_id, secret)) r e h =
      by (session account_id session_id t) refl h
    where
      by :
          (o : Option AuthSession)
          → session account_id session_id t ≡ o
          → (of_session p account_id session_id secret now csrf o t).0 ≡ done r
          → BrowserProof token r.account
      by none f = λ k. cc
      by (some s) f = elim (Bool-cases (is_refused p now secret s)) [
        | inl g ↦ rw g (λ k. cc)
        | inr g ↦ rw g (λ k. record {
          account_id = account_id;
          session_id = session_id;
          secret = secret;
          row = s;
          parsed = e;
          stored_session = f;
          accepted = g;
          holds = holder account_id r.account (
              of_account_inv account_id session_id csrf s
                (kept (λ (a : Account). is_active a.status) (account_by_id account_id t)) r k);
        })
      ]

  -- Whom a browser session's token signs in as.
  pub authenticate_browser_session-BrowserProof :
      (token : Text) (csrf : Option Text) (r : AuthenticatedBrowserSession)
      → (authenticate_browser_session p now token csrf t).0 ≡ done r
      → BrowserProof token r.account
  unfolding authenticate_browser_session
  authenticate_browser_session-BrowserProof token csrf r h =
      of_token_inv csrf token (parse_session_token p token) r refl h

  key_of_account_inv :
      (account_id key_id : ℕ) (k : ApiKey W) (o : Option Account) (r : AuthenticatedApiKey W)
      → (key_of_account p account_id key_id now k o t).0 ≡ done r
      → o ≡ some r.account
  key_of_account_inv account_id key_id k none r = λ h. cc
  key_of_account_inv account_id key_id k (some a) r =
      elim (Bool-cases (is_due k.last_used_at now)) [
        | inl e ↦ rw e (by (touch_api_key account_id key_id now t))
        | inr e ↦ rw e (λ h. ap (λ x. some x.account) (done_injective _ r h))
      ]
    where
      by : (w : Bool × Tables W) → (key_used p now a k w).0 ≡ done r → some a ≡ some r.account
      by (true, t') h = ap (λ x. some x.account) (done_injective _ r h)
      by (false, t') h = ap (λ x. some x.account) (done_injective _ r h)

  of_key_token_inv :
      (scope token : Text) (o : Option (ℕ × ℕ × Text)) (r : AuthenticatedApiKey W)
      → parse_api_key_token p token ≡ o
      → (of_key_token p now scope o t).0 ≡ done r
      → KeyProof token scope r.account
  of_key_token_inv scope token none r e h = cc
  of_key_token_inv scope token (some (account_id, key_id, secret)) r e h =
      by (kept (key_serves p now scope secret) (api_key account_id key_id t)) refl h
    where
      by :
          (o : Option (ApiKey W))
          → kept (key_serves p now scope secret) (api_key account_id key_id t) ≡ o
          → (of_key p account_id key_id now o t).0 ≡ done r
          → KeyProof token scope r.account
      by none f k = cc
      by (some row) f k =
          let (found, serves) =
            kept_inv (key_serves p now scope secret) (api_key account_id key_id t) row f in
          record {
            account_id = account_id;
            key_id = key_id;
            secret = secret;
            row = row;
            parsed = e;
            stored_key = found;
            accepted = serves;
            holds = holder account_id r.account (
                key_of_account_inv account_id key_id row
                  (kept (λ (a : Account). is_active a.status) (account_by_id account_id t)) r k);
          }

  -- Whom an API key authenticates.
  pub authenticate_api_key-KeyProof :
      (token scope : Text) (r : AuthenticatedApiKey W)
      → (authenticate_api_key p now token scope t).0 ≡ done r
      → KeyProof token scope r.account
  unfolding authenticate_api_key
  authenticate_api_key-KeyProof token scope r h =
      of_key_token_inv scope token (parse_api_key_token p token) r refl h

  by_key_inv :
      (account_id session_id key_id : ℕ) (a : Account) (s : AuthSession) (o : Option (ApiKey W))
      (r : AuthenticatedAstrometrySession W)
      → (by_key p account_id session_id key_id now a s o t).0 ≡ done r
      → a ≡ r.account
  by_key_inv account_id session_id key_id a s none r h = cc
  by_key_inv account_id session_id key_id a s (some k) r h =
      ap (λ x. x.account) (done_injective _ r h)

  with_weight_inv :
      (account_id session_id : ℕ) (one : W) (a : Account) (s : AuthSession) (o : Option ℕ)
      (r : AuthenticatedAstrometrySession W)
      → (with_weight p account_id session_id one now a s o t).0 ≡ done r
      → a ≡ r.account
  with_weight_inv account_id session_id one a s none r h =
      ap (λ x. x.account) (done_injective _ r h)
  with_weight_inv account_id session_id one a s (some key_id) r h =
      by_key_inv account_id session_id key_id a s
        (kept (is_live_key now) (api_key account_id key_id t)) r h

  as_account_inv :
      (account_id session_id : ℕ) (one : W) (s : AuthSession) (o : Option Account)
      (r : AuthenticatedAstrometrySession W)
      → (as_account p account_id session_id one now s o t).0 ≡ done r
      → o ≡ some r.account
  as_account_inv account_id session_id one s none r h = cc
  as_account_inv account_id session_id one s (some a) r h =
      ap some (with_weight_inv account_id session_id one a s s.api_key_id r h)

  as_token_inv :
      (one : W) (token : Text) (o : Option (ℕ × ℕ × Text)) (r : AuthenticatedAstrometrySession W)
      → parse_session_token p token ≡ o
      → (as_token p one now o t).0 ≡ done r
      → AstrometryProof token r.account
  as_token_inv one token none r e h = cc
  as_token_inv one token (some (account_id, session_id, secret)) r e h =
      by (kept (is_open p now secret) (session account_id session_id t)) refl h
    where
      by :
          (o : Option AuthSession)
          → kept (is_open p now secret) (session account_id session_id t) ≡ o
          → (as_session p account_id session_id one now o t).0 ≡ done r
          → AstrometryProof token r.account
      by none f k = cc
      by (some row) f k =
          let (found, opens) =
            kept_inv (is_open p now secret) (session account_id session_id t) row f in
          record {
            account_id = account_id;
            session_id = session_id;
            secret = secret;
            row = row;
            parsed = e;
            stored_session = found;
            accepted = opens;
            holds = holder account_id r.account (
                as_account_inv account_id session_id one row
                  (kept (λ (a : Account). is_active a.status) (account_by_id account_id t)) r k);
          }

  -- Whom an Astrometry session's token authenticates.
  pub authenticate_astrometry_session-AstrometryProof :
      (one : W) (token : Text) (r : AuthenticatedAstrometrySession W)
      → (authenticate_astrometry_session p one now token t).0 ≡ done r
      → AstrometryProof token r.account
  unfolding authenticate_astrometry_session
  authenticate_astrometry_session-AstrometryProof one token r h =
      as_token_inv one token (parse_session_token p token) r refl h
