-- ===== src/Accounts/Revocation.antt =====
-- Proofs about `logout` and `revoke_api_key` of src/auth.rs over histories of the repository.
use seiza_server.Base.{
  ℕ, ◌≡◌, ◌≢◌, refl, inl, inr, Bool, true, false, ◌&&◌, ◌||◌, Option, none, some, List, [], ◌∷◌,
  arith, Text, ◌==◌, is_none, is_some, Bool-cases, All, All-map, All-find,
}
use seiza_server.Queue.Sql.{Engine}
use seiza_server.Identity.Rows.{Account, AuthChallenge, AuthSession, ApiKey, Tables}
use seiza_server.Identity.Tables.{affected}
use seiza_server.Identity.Sessions.{session_is, session, revoked, touched, revoke_session}
use seiza_server.Identity.Keys.{key_is, api_key, used, revoked_key, revoke_api_key}
use seiza_server.Identity.Calls
use seiza_server.Identity.Calls.{run}
use seiza_server.Identity.Stability.{IsStable, Brings}
use seiza_server.Identity.Runs.{run-AllRows}
use seiza_server.Identity.Spent.{everything, All-update_both}
use seiza_server.Accounts.Secrets.{Primitives, failed, invalid_credential}
use seiza_server.Accounts.Tokens.{parse_session_token, parse_api_key_token}
use seiza_server.Accounts.BrowserSessions.{
  AuthenticatedBrowserSession, kept, is_refused, of_session, authenticate_browser_session, logout,
}
use seiza_server.Accounts.ApiKeys.{is_live_key, key_serves, of_key, authenticate_api_key}
use seiza_server.Accounts.Astrometry.{
  is_open, with_weight, by_key, as_account, as_session, authenticate_astrometry_session,
}

module _ {W : Type 0} {Pc Qc : AuthChallenge → Type 0} {Pk Qk : ApiKey W → Type 0}
    {Ps Qs : AuthSession → Type 0} where
  Brings-map :
      ((c : AuthChallenge) → Pc c → Qc c)
      → ((k : ApiKey W) → Pk k → Qk k)
      → ((s : AuthSession) → Ps s → Qs s)
      → (call : Calls.Call W) → Brings Pc Pk Ps call
      → Brings Qc Qk Qs call
  Brings-map f g i (Calls.accounts a) h = tt
  Brings-map f g i (Calls.challenges c) h = f c h
  Brings-map f g i (Calls.emails c max_live) h = f c h
  Brings-map f g i (Calls.fails id n m) h = tt
  Brings-map f g i (Calls.completes id n m a s) h = λ account_id. i _ (h account_id)
  Brings-map f g i (Calls.sessions s) h = i s h
  Brings-map f g i (Calls.touches a s l e) h = tt
  Brings-map f g i (Calls.revokes a s r) h = tt
  Brings-map f g i (Calls.revokes_all a r) h = tt
  Brings-map f g i (Calls.deletes a s) h = tt
  Brings-map f g i (Calls.passkeys q) h = tt
  Brings-map f g i (Calls.registers id q n) h = tt
  Brings-map f g i (Calls.signs_in id q s n) h = i s h
  Brings-map f g i (Calls.revokes_passkey a q r) h = tt
  Brings-map f g i (Calls.keys k) h = g k h
  Brings-map f g i (Calls.touches_key a k l) h = tt
  Brings-map f g i (Calls.revokes_key a k r) h = tt
  Brings-map f g i (Calls.purges n) h = tt

-- The call brings no session with this id.
abbrev pub NoSession : {W : Type 0} → ℕ → Calls.Call W → Type 0
NoSession id call = Brings (λ c. Unit {0}) (λ k. Unit {0}) (λ (s : AuthSession). s.id ≢ id) call

-- The call brings no API key with this id.
abbrev pub NoKey : {W : Type 0} → ℕ → Calls.Call W → Type 0
NoKey {W = W} id call = Brings (λ c. Unit {0}) (λ (k : ApiKey W). k.id ≢ id) (λ s. Unit {0}) call

abbrev Ended : ℕ → ℕ → AuthSession → Type 0
Ended account_id session_id s =
    session_is account_id session_id s ≡ true → is_none s.revoked_at ≡ false

Ended-other :
    (account_id session_id : ℕ) (s : AuthSession)
    → s.id ≢ session_id
    → Ended account_id session_id s
unfolding session_is
Ended-other account_id session_id s ne e = ground (arith, ne, e)

live_none : (a b : Bool) (o : Option ℕ) → is_none o ≡ false → (a || (is_some o || b)) ≡ true
live_none true b o h = refl
live_none false b none h = cc
live_none false b (some x) h = refl

revoked-is_refused :
    (p : Primitives) (now : ℕ) (secret : Text) (s : AuthSession)
    → is_none s.revoked_at ≡ false
    → is_refused p now secret s ≡ true
unfolding is_refused
revoked-is_refused p now secret s h = live_none _ _ s.revoked_at h

affected_none {ℓ} :
    {A : Type ℓ} (test : A → Bool) (xs : List A)
    → (affected test xs == 0) ≡ true
    → All (λ x. test x ≡ false) xs
affected_none test [] = λ h. tt
affected_none test (x ∷ xs) = elim (Bool-cases (test x)) [
  | inl e ↦ rw e (λ h. ground (arith, h))
  | inr e ↦ rw e (λ h. (refl, affected_none test xs h))
]

module _ {W : Type 0} where
  abbrev KeyEnded : ℕ → ℕ → ApiKey W → Type 0
  KeyEnded account_id key_id k = key_is account_id key_id k ≡ true → is_none k.revoked_at ≡ false

  KeyEnded-other :
      (account_id key_id : ℕ) (k : ApiKey W) → k.id ≢ key_id → KeyEnded account_id key_id k
  unfolding key_is
  KeyEnded-other account_id key_id k ne e = ground (arith, ne, e)

  Ended-IsStable :
      (account_id session_id : ℕ)
      → IsStable (λ c. Unit {0}) (λ (k : ApiKey W). Unit {0}) (Ended account_id session_id)
  unfolding revoked touched session_is
  Ended-IsStable account_id session_id = record {
    consumes = λ at c unused h. tt;
    tries = λ c h. tt;
    uses = λ at k h. tt;
    revokes_key = λ at k h. tt;
    touches = λ last expires s live h. h;
    revokes = λ at s h e. refl;
  }

  KeyEnded-IsStable :
      (account_id key_id : ℕ)
      → IsStable (λ c. Unit {0}) (KeyEnded account_id key_id) (λ s. Unit {0})
  unfolding used revoked_key key_is
  KeyEnded-IsStable account_id key_id = record {
    consumes = λ at c unused h. tt;
    tries = λ c h. tt;
    uses = λ at k h. h;
    revokes_key = λ at k h e. refl;
    touches = λ last expires s live h. tt;
    revokes = λ at s h. tt;
  }

  revoke_session-Ended :
      (account_id session_id now : ℕ) (t : Tables W)
      → All (Ended account_id session_id) (revoke_session account_id session_id now t).1.sessions
  unfolding revoke_session revoked session_is
  revoke_session-Ended account_id session_id now t =
      All-update_both (λ s. Unit {0}) (Ended account_id session_id)
        (λ (s : AuthSession). session_is account_id session_id s && is_none s.revoked_at)
        (revoked now) t.sessions (λ s hit u e. refl) (λ s miss u e. ground (arith, miss, e))
        (everything t.sessions)

  revoke_api_key-KeyEnded :
      (account_id key_id now : ℕ) (t : Tables W)
      → All (KeyEnded account_id key_id) (revoke_api_key account_id key_id now t).1.api_keys
  unfolding revoke_api_key revoked_key key_is
  revoke_api_key-KeyEnded account_id key_id now t =
      elim (Bool-cases (
        affected (λ (k : ApiKey W). key_is account_id key_id k && is_none k.revoked_at) t.api_keys
        == 0)) [
          | inl e ↦ rw e (
              All-map (λ k miss hit. ground (arith, miss, hit)) t.api_keys
                (affected_none _ t.api_keys e))
          | inr e ↦ rw e (
              All-update_both (λ k. Unit {0}) (KeyEnded account_id key_id)
                (λ (k : ApiKey W). key_is account_id key_id k && is_none k.revoked_at)
                (revoked_key now) t.api_keys (λ k hit u f. refl)
                (λ k miss u f. ground (arith, miss, f)) (everything t.api_keys))
        ]

  session-Ended :
      (account_id session_id : ℕ) (t : Tables W) (s : AuthSession)
      → All (Ended account_id session_id) t.sessions
      → session account_id session_id t ≡ some s
      → is_none s.revoked_at ≡ false
  unfolding session
  session-Ended account_id session_id t s h found =
      let both =
        All-find (Ended account_id session_id) (session_is account_id session_id) t.sessions s h
          found in
      both.0 both.1

  key-KeyEnded :
      (account_id key_id : ℕ) (t : Tables W) (k : ApiKey W)
      → All (KeyEnded account_id key_id) t.api_keys
      → api_key account_id key_id t ≡ some k
      → is_none k.revoked_at ≡ false
  unfolding api_key
  key-KeyEnded account_id key_id t k h found =
      let both =
        All-find (KeyEnded account_id key_id) (key_is account_id key_id) t.api_keys k h found in
      both.0 both.1

  module _ (p : Primitives) where
    of_session-failed :
        (account_id session_id now : ℕ) (secret : Text) (csrf_cookie : Option Text)
        (o : Option AuthSession) (t : Tables W)
        → ((s : AuthSession) → o ≡ some s → is_none s.revoked_at ≡ false)
        → (of_session p account_id session_id secret now csrf_cookie o t).0
          ≡ failed invalid_credential
    of_session-failed account_id session_id now secret csrf_cookie none t h = refl
    of_session-failed account_id session_id now secret csrf_cookie (some s) t h =
        rw (revoked-is_refused p now secret s (h s refl)) refl

    of_key-failed :
        (account_id key_id now : ℕ) (required_scope secret : Text) (o : Option (ApiKey W))
        (t : Tables W)
        → ((k : ApiKey W) → o ≡ some k → is_none k.revoked_at ≡ false)
        → (of_key p account_id key_id now (kept (key_serves p now required_scope secret) o) t).0
          ≡ failed invalid_credential
    of_key-failed account_id key_id now required_scope secret none t h = refl
    of_key-failed account_id key_id now required_scope secret (some k) t h = rw (h k refl) refl

    by_key-failed :
        (account_id session_id key_id now : ℕ) (account : Account) (s : AuthSession)
        (o : Option (ApiKey W)) (t : Tables W)
        → ((k : ApiKey W) → o ≡ some k → is_none k.revoked_at ≡ false)
        → (by_key p account_id session_id key_id now account s (kept (is_live_key now) o) t).0
          ≡ failed invalid_credential
    by_key-failed account_id session_id key_id now account s none t h = refl
    by_key-failed account_id session_id key_id now account s (some k) t h = rw (h k refl) refl

  module _ (p : Primitives) (one : W) (account_id key_id now : ℕ) where
    with_weight-failed :
        (session_id : ℕ) (account : Account) (s : AuthSession) (t : Tables W) (minted_by : Option ℕ)
        → All (KeyEnded account_id key_id) t.api_keys
        → minted_by ≡ some key_id
        → (with_weight p account_id session_id one now account s minted_by t).0
          ≡ failed invalid_credential
    with_weight-failed session_id account s t none h e = cc
    with_weight-failed session_id account s t (some id) h e =
        let same : id ≡ key_id = ground (arith, e) in
        rw same (
          by_key-failed p account_id session_id key_id now account s (api_key account_id key_id t) t
            (λ k f. key-KeyEnded account_id key_id t k h f))

    as_account-failed :
        (session_id : ℕ) (s : AuthSession) (a : Option Account) (t : Tables W)
        → All (KeyEnded account_id key_id) t.api_keys
        → s.api_key_id ≡ some key_id
        → (as_account p account_id session_id one now s a t).0 ≡ failed invalid_credential
    as_account-failed session_id s none t h e = refl
    as_account-failed session_id s (some a) t h e =
        with_weight-failed session_id a s t s.api_key_id h e

    as_session-failed :
        (session_id : ℕ) (secret : Text) (o : Option AuthSession) (t : Tables W)
        → All (KeyEnded account_id key_id) t.api_keys
        → ((s : AuthSession) → o ≡ some s → s.api_key_id ≡ some key_id)
        → (as_session p account_id session_id one now (kept (is_open p now secret) o) t).0
          ≡ failed invalid_credential
    as_session-failed session_id secret none t h minted = refl
    as_session-failed session_id secret (some s) t h minted =
        elim (Bool-cases (is_open p now secret s)) [
          | inl e ↦ rw e (as_account-failed session_id s _ t h (minted s refl))
          | inr e ↦ rw e refl
        ]

module _ {W : Type 0} (p : Primitives) (e : Engine) (now later : ℕ) (t : Tables W)
    (calls : List (Calls.Call W)) where
  -- Logging out ends the session: whatever the repository is called for afterwards, as long as it is
  -- not given the session's id anew, the session's token signs nobody in.
  pub logout-authenticate_browser_session :
      (a : AuthenticatedBrowserSession) (token secret : Text) (csrf_cookie : Option Text)
      → parse_session_token p token ≡ some (a.account.id, a.session.id, secret)
      → All (NoSession a.session.id) calls
      → (authenticate_browser_session p later token csrf_cookie (run e calls (logout now a t))).0
        ≡ failed invalid_credential
  unfolding authenticate_browser_session logout
  logout-authenticate_browser_session a token secret csrf_cookie parsed fresh =
      let kept_ended =
        run-AllRows (λ c. Unit {0}) (λ (k : ApiKey W). Unit {0}) (Ended a.account.id a.session.id)
          (Ended-IsStable a.account.id a.session.id) e calls
          (revoke_session a.account.id a.session.id now t).1
          (All-map
            (λ call f.
              Brings-map (λ c u. tt) (λ k u. tt)
                (λ s ne. Ended-other a.account.id a.session.id s ne) call f)
            calls fresh)
          (record {
            challenges = everything _;
            keys = everything _;
            sessions = revoke_session-Ended a.account.id a.session.id now t;
          }) in
      rw parsed (
        of_session-failed p a.account.id a.session.id later secret csrf_cookie _ _ (λ s f.
          session-Ended a.account.id a.session.id
            (run e calls (revoke_session a.account.id a.session.id now t).1) s kept_ended.sessions
            f))

  -- Revoking an API key ends the key and what it has minted: whatever the repository is called for
  -- afterwards, as long as it is not given the key's id anew, no token of the key authenticates, and
  -- no token of a session that the key has minted does, even one that the revocation has not reached.
  pub revoke_api_key-authenticate :
      (account_id key_id : ℕ) (one : W) (token required_scope secret : Text)
      (session_token session_secret : Text) (session_id : ℕ)
      → All (NoKey key_id) calls
      → parse_api_key_token p token ≡ some (account_id, key_id, secret)
      → parse_session_token p session_token ≡ some (account_id, session_id, session_secret)
      → ((s : AuthSession)
          → session account_id session_id (run e calls (revoke_api_key account_id key_id now t).1)
            ≡ some s
          → s.api_key_id ≡ some key_id)
      → ((authenticate_api_key p later token required_scope
            (run e calls (revoke_api_key account_id key_id now t).1)).0
          ≡ failed invalid_credential)
        × ((authenticate_astrometry_session p one later session_token
              (run e calls (revoke_api_key account_id key_id now t).1)).0
            ≡ failed invalid_credential)
  unfolding authenticate_api_key authenticate_astrometry_session
  revoke_api_key-authenticate account_id key_id one token required_scope secret session_token
        session_secret session_id fresh parsed session_parsed minted =
      let kept_ended =
        run-AllRows (λ c. Unit {0}) (KeyEnded account_id key_id) (λ s. Unit {0})
          (KeyEnded-IsStable account_id key_id) e calls (revoke_api_key account_id key_id now t).1
          (All-map
            (λ call f.
              Brings-map {Ps = λ s. Unit {0}} (λ c u. tt)
                (λ k ne. KeyEnded-other account_id key_id k ne) (λ s u. tt) call f)
            calls fresh)
          (record {
            challenges = everything _;
            keys = revoke_api_key-KeyEnded account_id key_id now t;
            sessions = everything _;
          }) in
      (
        rw parsed (
            of_key-failed p account_id key_id later required_scope secret _ _ (λ k f.
              key-KeyEnded account_id key_id
                (run e calls (revoke_api_key account_id key_id now t).1) k kept_ended.keys f)),
        rw session_parsed (
            as_session-failed p one account_id key_id later session_id session_secret _ _
              kept_ended.keys minted),
      )
