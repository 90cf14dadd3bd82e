-- ===== src/Identity/Tests.antt =====
-- A sign-in by email over the tables in memory.
use seiza_server.Base.{ℕ, ◌≢◌, refl, true, none, some, List, [], ◌∷◌, arith, text, text_eq}
use seiza_server.Queue.Sorting.{engine}
use seiza_server.Identity.Rows.{
  email_login, browser, active, Account, AuthChallenge, AuthSession, CompletedEmailSignIn, Tables,
  ok,
}
use seiza_server.Identity.Challenges.{complete_email_challenge}
use seiza_server.Identity.Calls
use seiza_server.Identity.Calls.{Call, run}
use seiza_server.Identity.Spent.{challenge_once}
use seiza_server.Identity.Attempts.{attempts_bounded}

abbrev pub anna : Account
anna = record {
  id = 7;
  email = text "a@b.c";
  email_lookup = text "a@b.c";
  email_verified_at = 100;
  webauthn_user_handle = text "u7";
  status = active;
  created_at = 100;
  updated_at = 100;
  last_authenticated_at = 100;
}

abbrev pub challenge : AuthChallenge
challenge = record {
  id = 1;
  purpose = email_login;
  account_id = none;
  email_lookup = some (text "a@b.c");
  link_token_digest = some (text "l");
  code_digest = some (text "c");
  webauthn_state_json = none;
  attempts = 0;
  created_at = 50;
  expires_at = 500;
  consumed_at = none;
}

abbrev new_session : AuthSession
new_session = record {
  id = 9;
  token_digest = text "t";
  account_id = 7;
  kind = browser;
  csrf_digest = some (text "x");
  api_key_id = none;
  created_at = 100;
  last_seen_at = 100;
  expires_at = 900;
  absolute_expires_at = 2000;
  revoked_at = none;
}

abbrev tables : Tables ℕ
tables = record {
  accounts = [];
  challenges = challenge ∷ [];
  api_keys = [];
  sessions = [];
  passkeys = [];
}

abbrev signed_in_first : CompletedEmailSignIn
signed_in_first = record {
  account = record anna { updated_at = 100; last_authenticated_at = 100 };
  session = new_session;
  account_created = true;
}

-- The sign-in by the account's first challenge, and others after it.
challenge_once_example :
    (complete_email_challenge 1 200 5 anna new_session (
      run engine
        (Calls.fails 1 150 5
          ∷ Calls.purges 180
          ∷ Calls.challenges (record challenge { id = 2 })
          ∷ [])
        (complete_email_challenge 1 100 5 anna new_session tables).1)).0
    ≢ ok (some signed_in_first)
challenge_once_example =
    challenge_once engine 1 100 200 5 5 anna anna new_session new_session tables signed_in_first
      signed_in_first
      (Calls.fails 1 150 5 ∷ Calls.purges 180 ∷ Calls.challenges (record challenge { id = 2 }) ∷ [])
      (unfold complete_email_challenge text_eq in refl) (omega arith) (omega arith) (omega arith)

abbrev guesses : List (Call ℕ)
guesses = Calls.fails 1 60 3 ∷ Calls.fails 1 70 3 ∷ Calls.revokes_all 7 75 ∷ Calls.fails 1 80 3 ∷ []

attempts_bounded_example :
    (complete_email_challenge 1 100 3 anna new_session (run engine guesses tables)).0
    ≢ ok (some signed_in_first)
attempts_bounded_example =
    attempts_bounded engine 1 100 3 anna new_session tables signed_in_first guesses (omega arith)
      (omega arith)
