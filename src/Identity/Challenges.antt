-- ===== src/Identity/Challenges.antt =====
-- Sign-in challenges in src/sqlx_identity.rs. A method that runs in a transaction returns the tables
-- as they were when it rolls back or fails. Where a new account meets both its email and its id in
-- the table, the email's conflict is taken first.
use seiza_server.Base.{
  ℕ, ◌+◌, Bool, true, false, not, ◌&&◌, ◌||◌, Option, none, some, List, [], ◌∷◌, ◌++◌, Text,
  text_eq, ltb, ◌==◌, if◌then◌else◌, is_none, filter, find, any, drop,
}
use seiza_server.Queue.Sql.{Engine, text_is, update_where}
use seiza_server.Identity.Rows.{
  email_login, is_active, same_purpose, Account, AuthChallenge, AuthSession, CompletedEmailSignIn,
  Tables, Result, ok, err,
}
use seiza_server.Identity.Tables.{affected, insert_challenge, insert_session}
use seiza_server.Identity.Accounts.{account_by_email_lookup}

unfoldable pub consume : ℕ → AuthChallenge → AuthChallenge
consume now c = record c { consumed_at = some now }

-- `WHERE email_lookup = $ AND purpose = 'email-login' AND consumed_at IS NULL`.
unfoldable pub open_for : Text → AuthChallenge → Bool
open_for email_lookup c =
    text_is c.email_lookup email_lookup
    && (same_purpose c.purpose email_login && is_none c.consumed_at)

-- `WHERE id = $ AND consumed_at IS NULL AND expires_at > $ AND attempts < $`.
unfoldable pub can_try : ℕ → ℕ → ℕ → AuthChallenge → Bool
can_try id now max_attempts c =
    (c.id == id) && (is_none c.consumed_at && (ltb now c.expires_at && ltb c.attempts max_attempts))

unfoldable pub tried : AuthChallenge → AuthChallenge
tried c = record c { attempts = c.attempts + 1 }

-- `WHERE id = $ AND purpose = 'email-login' AND consumed_at IS NULL AND ...`.
unfoldable pub can_complete : ℕ → ℕ → ℕ → AuthChallenge → Bool
unfolding can_try
can_complete id now max_attempts c =
    same_purpose c.purpose email_login && can_try id now max_attempts c

-- One round of the loop behind `skip(max_live)` for each of the rows.
unfoldable pub consume_each : ℕ → List AuthChallenge → List AuthChallenge → List AuthChallenge
unfolding consume
consume_each now [] challenges = challenges
consume_each now (row ∷ rows) challenges =
    consume_each now rows
      (update_where (λ c. (c.id == row.id) && is_none c.consumed_at) (consume now) challenges)

module _ {W : Type 0} where
  unfoldable pub challenge_by_id : ℕ → Tables W → Option AuthChallenge
  challenge_by_id id t = find (λ (c : AuthChallenge). c.id == id) t.challenges

  unfoldable pub live_for : Engine → Text → ℕ → Tables W → List AuthChallenge
  unfolding open_for
  live_for e email_lookup created_at t =
      e.descending (λ (c : AuthChallenge). c.created_at)
        (filter (λ c. open_for email_lookup c && ltb created_at c.expires_at) t.challenges)

  abbrev pub capped :
      Engine → Text → ℕ → ℕ → Tables W → Result (Unit {0}) × Tables W → Result (Unit {0}) × Tables W
  capped e email_lookup created_at max_live t (err, t') = (err, t)
  capped e email_lookup created_at max_live t (ok x, t') = (
    ok tt,
    record t' {
      challenges =
          consume_each created_at (drop max_live (live_for e email_lookup created_at t'))
            t'.challenges;
    },
  )

  abbrev pub email_challenge :
      Engine → AuthChallenge → ℕ → Tables W → Option Text → Result (Unit {0}) × Tables W
  email_challenge e challenge max_live t none = (err, t)
  email_challenge e challenge max_live t (some email_lookup) =
      capped e email_lookup challenge.created_at max_live t (insert_challenge challenge t)

  unfoldable pub create_email_challenge :
      Engine → AuthChallenge → ℕ → Tables W → Result (Unit {0}) × Tables W
  unfolding live_for insert_challenge consume_each
  create_email_challenge e challenge max_live t =
      if not (same_purpose challenge.purpose email_login)
      then (err, t)
      else if max_live == 0
      then (err, t)
      else email_challenge e challenge max_live t challenge.email_lookup

  unfoldable pub record_challenge_failure : ℕ → ℕ → ℕ → Tables W → Option AuthChallenge × Tables W
  unfolding can_try tried challenge_by_id
  record_challenge_failure id now max_attempts t =
      let t' = record t {
        challenges = update_where (can_try id now max_attempts) tried t.challenges;
      } in
      if affected (can_try id now max_attempts) t.challenges == 0
      then (none, t')
      else (challenge_by_id id t', t')

  -- The end of the transaction, for an account that may sign in.
  abbrev pub opened_session :
      Text
      → ℕ
      → Account
      → Bool
      → AuthSession
      → Tables W
      → Result (Unit {0}) × Tables W
      → Result (Option CompletedEmailSignIn) × Tables W
  opened_session email_lookup now account account_created session t (err, t') = (err, t)
  opened_session email_lookup now account account_created session t (ok x, t') = (
    ok (
        some (record {
          account = record account { updated_at = now; last_authenticated_at = now };
          session = session;
          account_created = account_created;
        })),
    record t' {
      challenges = update_where (open_for email_lookup) (consume now) t'.challenges;
      accounts =
          update_where (λ a. a.id == account.id)
            (λ a. record a { updated_at = now; last_authenticated_at = now }) t'.accounts;
    },
  )

  -- `t` are the tables that the transaction began with, `t'` those it has reached.
  unfoldable pub signed_in :
      Text
      → ℕ
      → Account
      → Bool
      → AuthSession
      → Tables W
      → Tables W
      → Result (Option CompletedEmailSignIn) × Tables W
  unfolding open_for consume insert_session
  signed_in email_lookup now account account_created new_session t t' =
      let session = record new_session { account_id = account.id } in
      if not (is_active account.status)
      then (ok none, t)
      else opened_session email_lookup now account account_created session t
          (insert_session session t')

  abbrev pub found_account :
      Text
      → ℕ
      → AuthSession
      → Tables W
      → Tables W
      → Bool
      → Option Account
      → Result (Option CompletedEmailSignIn) × Tables W
  found_account email_lookup now new_session t t' account_created none = (err, t)
  found_account email_lookup now new_session t t' account_created (some account) =
      signed_in email_lookup now account account_created new_session t t'

  -- `INSERT ... ON CONFLICT(email_lookup) DO NOTHING`, and the account read back.
  unfoldable pub new_sign_in :
      Text
      → ℕ
      → Account
      → AuthSession
      → Tables W
      → Tables W
      → Result (Option CompletedEmailSignIn) × Tables W
  unfolding signed_in account_by_email_lookup
  new_sign_in email_lookup now new_account new_session t t' =
      let t'' = record t' { accounts = t'.accounts ++ new_account ∷ [] } in
      if any (λ (a : Account). text_eq a.email_lookup new_account.email_lookup) t'.accounts
      then found_account email_lookup now new_session t t' false
          (account_by_email_lookup email_lookup t')
      else if any
          (λ (a : Account).
            (a.id == new_account.id)
            || text_eq a.webauthn_user_handle new_account.webauthn_user_handle)
          t'.accounts
      then (err, t)
      else found_account email_lookup now new_session t t'' true
          (account_by_email_lookup email_lookup t'')

  abbrev pub sign_in_as :
      Text
      → ℕ
      → Account
      → AuthSession
      → Tables W
      → Tables W
      → Option Account
      → Result (Option CompletedEmailSignIn) × Tables W
  sign_in_as email_lookup now new_account new_session t t' none =
      new_sign_in email_lookup now new_account new_session t t'
  sign_in_as email_lookup now new_account new_session t t' (some account) =
      signed_in email_lookup now account false new_session t t'

  unfoldable pub consume_and_sign_in :
      ℕ
      → ℕ
      → ℕ
      → Text
      → Account
      → AuthSession
      → Tables W
      → Result (Option CompletedEmailSignIn) × Tables W
  unfolding can_complete consume new_sign_in signed_in account_by_email_lookup
  consume_and_sign_in id now max_attempts email_lookup new_account new_session t =
      let t' = record t {
        challenges = update_where (can_complete id now max_attempts) (consume now) t.challenges;
      } in
      if affected (can_complete id now max_attempts) t.challenges == 0
      then (ok none, t)
      else sign_in_as email_lookup now new_account new_session t t'
          (account_by_email_lookup email_lookup t')

  abbrev pub for_email :
      ℕ
      → ℕ
      → ℕ
      → Account
      → AuthSession
      → Tables W
      → AuthChallenge
      → Option Text
      → Result (Option CompletedEmailSignIn) × Tables W
  for_email id now max_attempts new_account new_session t challenge none = (ok none, t)
  for_email id now max_attempts new_account new_session t challenge (some email_lookup) =
      if not (same_purpose challenge.purpose email_login)
      then (ok none, t)
      else consume_and_sign_in id now max_attempts email_lookup new_account new_session t

  abbrev pub of_challenge :
      ℕ
      → ℕ
      → ℕ
      → Account
      → AuthSession
      → Tables W
      → Option AuthChallenge
      → Result (Option CompletedEmailSignIn) × Tables W
  of_challenge id now max_attempts new_account new_session t none = (ok none, t)
  of_challenge id now max_attempts new_account new_session t (some challenge) =
      for_email id now max_attempts new_account new_session t challenge challenge.email_lookup

  unfoldable pub complete_email_challenge :
      ℕ → ℕ → ℕ → Account → AuthSession → Tables W → Result (Option CompletedEmailSignIn) × Tables W
  unfolding challenge_by_id consume_and_sign_in
  complete_email_challenge id now max_attempts new_account new_session t =
      of_challenge id now max_attempts new_account new_session t (challenge_by_id id t)
