-- ===== src/Accounts/EmailSignIn.antt =====
-- Sign-in by email in src/auth.rs: `start_email`, `complete_email` and `random_code`.
use seiza_server.Base.{
  ℕ, ◌+◌, ◌-◌, ◌%◌, ◌^◌, Bool, true, false, not, ◌&&◌, ◌||◌, Option, none, some, List, [], ◌∷◌,
  Text, text, leb, ltb, all, ◌==◌, if◌then◌else◌, is_some, length,
}
use seiza_server.Queue.Sql.{Engine}
use seiza_server.Uploads.Keys.{padded}
use seiza_server.Limiter.Windows.{Retry, clear, panicked, wait}
use seiza_server.Limiter.Sends.{EmailSendRateState, default_limits, check_at}
use seiza_server.Identity.Rows.{
  email_login, active, same_purpose, browser, Account, AuthChallenge, AuthSession,
  CompletedEmailSignIn, Tables, Result, ok, err,
}
use seiza_server.Identity.Challenges.{
  challenge_by_id, create_email_challenge, record_challenge_failure, complete_email_challenge,
}
use seiza_server.Accounts.Secrets.{
  Primitives, invalid_email, invalid_credential, delivery, internal, rate_limited, Outcome, done,
  failed, normalize_email, has_digest, constant_time_eq, challenge_lifetime, challenge_resend_delay,
  max_live_email_challenges, max_challenge_attempts, session_idle_lifetime,
  session_absolute_lifetime,
}
use seiza_server.Accounts.Tokens.{format_prefixed_token, parse_login_token}

pub record EmailStart : Type 0 where
  pub challenge_id : ℕ
  pub resend_at : ℕ

pub data EmailCredential : Type 0 where
  link_token : Text → EmailCredential
  code : (email : Text) (challenge_id : ℕ) (code : Text) → EmailCredential

pub data CandidateCredential : Type 0 where
  link : Text → CandidateCredential
  email_code : (email code : Text) → CandidateCredential

pub record CompletedBrowserSignIn : Type 0 where
  pub completion : CompletedEmailSignIn
  pub session_token : Text
  pub csrf_token : Text

-- `random_code` over the 32-bit numbers that the system draws: the first one under the largest
-- multiple of 10 ^ 8, in eight digits.
unfoldable pub random_code : List ℕ → Option Text
unfolding padded
random_code [] = none
random_code (value ∷ values) =
    let rest = random_code values in
    if ltb value (2 ^ 32 - 1 - (2 ^ 32 - 1) % 100000000)
    then some (padded 8 (value % 100000000) [])
    else rest

abbrev pub is_ascii_digit : ℕ → Bool
is_ascii_digit c = leb 48 c && leb c 57

-- What sends mail: the address, the link, the code and the minutes that they hold; and the link for
-- a token under the public URL.
pub record EmailSender : Type 1 where
  pub State : Type 0
  pub send_sign_in : Text → Text → Text → ℕ → State → Bool × State
  pub link_for : Text → Option Text

-- The states behind the service: the limiter's, the tables and the mail.
pub record World (sender : EmailSender) (W : Type 0) : Type 0 where
  pub limiter : EmailSendRateState
  pub tables : Tables W
  pub mail : sender.State

module _ (p : Primitives) where
  unfoldable pub email_challenge_for : ℕ → ℕ → Text → Text → Text → AuthChallenge
  email_challenge_for challenge_id now email link_secret digits = record {
    id = challenge_id;
    purpose = email_login;
    account_id = none;
    email_lookup = some email;
    link_token_digest = some (p.secret_digest link_secret);
    code_digest = some (p.code_digest challenge_id digits);
    webauthn_state_json = none;
    attempts = 0;
    created_at = now;
    expires_at = now + challenge_lifetime;
    consumed_at = none;
  }

  module _ (sender : EmailSender) {W : Type 0} where
    abbrev pub mailed :
        ℕ
        → ℕ
        → Bool × sender.State
        → EmailSendRateState
        → Tables W
        → Outcome EmailStart × World sender W
    mailed challenge_id now (false, m) limiter t =
        (failed delivery, record { limiter = limiter; tables = t; mail = m })
    mailed challenge_id now (true, m) limiter t = (
      done (record { challenge_id = challenge_id; resend_at = now + challenge_resend_delay }),
      record { limiter = limiter; tables = t; mail = m },
    )

    abbrev pub send_link :
        ℕ
        → ℕ
        → Text
        → Text
        → Option Text
        → EmailSendRateState
        → Tables W
        → sender.State
        → Outcome EmailStart × World sender W
    send_link challenge_id now email digits none limiter t m =
        (failed internal, record { limiter = limiter; tables = t; mail = m })
    send_link challenge_id now email digits (some url) limiter t m =
        mailed challenge_id now (sender.send_sign_in email url digits 10 m) limiter t

    abbrev pub stored :
        ℕ
        → ℕ
        → Text
        → Text
        → Text
        → EmailSendRateState
        → Result (Unit {0}) × Tables W
        → sender.State
        → Outcome EmailStart × World sender W
    stored challenge_id now email link_secret digits limiter (err, t) m =
        (failed internal, record { limiter = limiter; tables = t; mail = m })
    stored challenge_id now email link_secret digits limiter (ok x, t) m =
        send_link challenge_id now email digits
          (sender.link_for (format_prefixed_token p (text "login") (challenge_id ∷ []) link_secret))
          limiter t m

    abbrev pub with_secrets :
        Engine
        → ℕ
        → ℕ
        → Text
        → Option Text
        → Option Text
        → EmailSendRateState
        → Tables W
        → sender.State
        → Outcome EmailStart × World sender W
    with_secrets e challenge_id now email (some link_secret) (some digits) limiter t m =
        stored challenge_id now email link_secret digits limiter
          (create_email_challenge e (email_challenge_for challenge_id now email link_secret digits)
            max_live_email_challenges t)
          m
    with_secrets e challenge_id now email _ _ limiter t m =
        (failed internal, record { limiter = limiter; tables = t; mail = m })

    abbrev pub limited :
        Engine
        → ℕ
        → ℕ
        → Text
        → Option Text
        → Option Text
        → Retry × EmailSendRateState
        → Tables W
        → sender.State
        → Outcome EmailStart × World sender W
    limited e challenge_id now email link_secret digits (clear, limiter) t m =
        with_secrets e challenge_id now email link_secret digits limiter t m
    limited e challenge_id now email link_secret digits (wait seconds, limiter) t m =
        (failed (rate_limited seconds), record { limiter = limiter; tables = t; mail = m })
    limited e challenge_id now email link_secret digits (panicked, limiter) t m =
        (failed internal, record { limiter = limiter; tables = t; mail = m })

    abbrev pub to_address :
        Engine
        → ℕ
        → ℕ
        → ℕ
        → Text
        → Option Text
        → Option Text
        → Option Text
        → World sender W
        → Outcome EmailStart × World sender W
    to_address e tick challenge_id now source link_secret digits none w = (failed invalid_email, w)
    to_address e tick challenge_id now source link_secret digits (some email) w =
        limited e challenge_id now email link_secret digits
          (check_at default_limits source email tick w.limiter) w.tables w.mail

    -- `tick` is the limiter's monotonic clock; the secrets are `none` where the random source fails.
    -- The default limits do not panic.
    unfoldable pub start_email :
        Engine
        → ℕ
        → ℕ
        → ℕ
        → Option Text
        → Option Text
        → Text
        → Text
        → World sender W
        → Outcome EmailStart × World sender W
    unfolding normalize_email check_at create_email_challenge email_challenge_for
        format_prefixed_token
    start_email e tick challenge_id now link_secret digits email source w =
        to_address e tick challenge_id now source link_secret digits (normalize_email p email) w

  -- `new_browser_session`; the two secrets are `none` where the random source fails.
  unfoldable pub new_browser_session : ℕ → ℕ → ℕ → Text → Text → AuthSession
  new_browser_session session_id account_id now session_secret csrf_token = record {
    id = session_id;
    token_digest = p.secret_digest session_secret;
    account_id = account_id;
    kind = browser;
    csrf_digest = some (p.secret_digest csrf_token);
    api_key_id = none;
    created_at = now;
    last_seen_at = now;
    expires_at = now + session_idle_lifetime;
    absolute_expires_at = now + session_absolute_lifetime;
    revoked_at = none;
  }

  abbrev linked : Option (ℕ × Text) → Outcome (ℕ × CandidateCredential)
  linked none = failed invalid_credential
  linked (some (challenge_id, secret)) = done (challenge_id, link secret)

  abbrev coded : ℕ → Text → Option Text → Outcome (ℕ × CandidateCredential)
  coded challenge_id digits none = failed invalid_credential
  coded challenge_id digits (some email) =
      if not (length digits == 8) || not (all is_ascii_digit digits)
      then failed invalid_credential
      else done (challenge_id, email_code email digits)

  -- The challenge and the secret that a credential stands for.
  unfoldable pub candidate : EmailCredential → Outcome (ℕ × CandidateCredential)
  unfolding parse_login_token normalize_email
  candidate (link_token token) = linked (parse_login_token p token)
  candidate (code email challenge_id digits) = coded challenge_id digits (normalize_email p email)

  unfoldable pub is_valid : ℕ → AuthChallenge → Text → CandidateCredential → Bool
  is_valid challenge_id challenge email_lookup (link secret) =
      has_digest challenge.link_token_digest (p.secret_digest secret)
  is_valid challenge_id challenge email_lookup (email_code email digits) =
      constant_time_eq email_lookup email
      && has_digest challenge.code_digest (p.code_digest challenge_id digits)

  unfoldable pub new_account : ℕ → Text → ℕ → Account
  new_account account_id email_lookup now = record {
    id = account_id;
    email = email_lookup;
    email_lookup = email_lookup;
    email_verified_at = now;
    webauthn_user_handle = p.uuid_to_string account_id;
    status = active;
    created_at = now;
    updated_at = now;
    last_authenticated_at = now;
  }

  -- What a call draws: the ids of a new account and session, and the two secrets of the session.
  pub record Draws : Type 0 where
    pub account_id : ℕ
    pub session_id : ℕ
    pub secrets : Option (Text × Text)

  module _ {W : Type 0} where
    abbrev pub completed :
        Text
        → Text
        → Result (Option CompletedEmailSignIn) × Tables W
        → Outcome CompletedBrowserSignIn × Tables W
    completed session_secret csrf_token (err, t) = (failed internal, t)
    completed session_secret csrf_token (ok none, t) = (failed invalid_credential, t)
    completed session_secret csrf_token (ok (some completion), t) = (
      done (record {
        completion = completion;
        session_token =
            format_prefixed_token p (text "session")
              (completion.account.id ∷ completion.session.id ∷ []) session_secret;
        csrf_token = csrf_token;
      }),
      t,
    )

    abbrev pub finish :
        ℕ
        → Draws
        → ℕ
        → Text
        → Option (Text × Text)
        → Tables W
        → Outcome CompletedBrowserSignIn × Tables W
    finish now draws challenge_id email_lookup none t = (failed internal, t)
    finish now draws challenge_id email_lookup (some (session_secret, csrf_token)) t =
        completed session_secret csrf_token (
          complete_email_challenge challenge_id now max_challenge_attempts
            (new_account draws.account_id email_lookup now)
            (new_browser_session draws.session_id draws.account_id now session_secret csrf_token) t)

    abbrev pub check_secret :
        ℕ
        → Draws
        → ℕ
        → AuthChallenge
        → CandidateCredential
        → Option Text
        → Tables W
        → Outcome CompletedBrowserSignIn × Tables W
    check_secret now draws challenge_id challenge secret none t = (failed invalid_credential, t)
    check_secret now draws challenge_id challenge secret (some email_lookup) t =
        if not (is_valid challenge_id challenge email_lookup secret)
        then (
          failed invalid_credential,
          (record_challenge_failure challenge_id now max_challenge_attempts t).1,
        )
        else finish now draws challenge_id email_lookup draws.secrets t

    abbrev pub check_challenge :
        ℕ
        → Draws
        → ℕ
        → CandidateCredential
        → Option AuthChallenge
        → Tables W
        → Outcome CompletedBrowserSignIn × Tables W
    check_challenge now draws challenge_id secret none t = (failed invalid_credential, t)
    check_challenge now draws challenge_id secret (some challenge) t =
        if not (same_purpose challenge.purpose email_login)
          || (is_some challenge.consumed_at
              || (leb challenge.expires_at now || leb max_challenge_attempts challenge.attempts))
        then (failed invalid_credential, t)
        else check_secret now draws challenge_id challenge secret challenge.email_lookup t

    abbrev pub check_candidate :
        ℕ
        → Draws
        → Outcome (ℕ × CandidateCredential)
        → Tables W
        → Outcome CompletedBrowserSignIn × Tables W
    check_candidate now draws (failed e) t = (failed e, t)
    check_candidate now draws (done (challenge_id, secret)) t =
        check_challenge now draws challenge_id secret (challenge_by_id challenge_id t) t

    unfoldable pub complete_email :
        ℕ → Draws → EmailCredential → Tables W → Outcome CompletedBrowserSignIn × Tables W
    unfolding candidate is_valid new_account new_browser_session format_prefixed_token
        challenge_by_id record_challenge_failure complete_email_challenge
    complete_email now draws credential t = check_candidate now draws (candidate credential) t
