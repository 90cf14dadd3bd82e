-- ===== src/Accounts/Authentic.antt =====
-- Proofs about `complete_email` of src/auth.rs.
use seiza_server.Base.{
  ℕ, ◌<◌, ◌≡◌, refl, ap, subst, ◌∙◌, inl, inr, Bool, true, false, not, ◌||◌, Option, none, some, [],
  ◌∷◌, ◌++◌, arith, Text, text_eq, text_eq→eq, leb, ◌==◌, is_some, is_none, any, All-find,
  Bool-cases,
}
use seiza_server.Queue.Sql.{update_where}
use seiza_server.Identity.Rows.{
  email_login, is_active, same_purpose, Account, AuthChallenge, AuthSession, CompletedEmailSignIn,
  Tables, Result, ok, err,
}
use seiza_server.Identity.Tables.{affected, insert_session}
use seiza_server.Identity.Accounts.{account_by_email_lookup}
use seiza_server.Identity.Challenges.{
  consume, can_complete, challenge_by_id, opened_session, signed_in, found_account, new_sign_in,
  sign_in_as, consume_and_sign_in, for_email, of_challenge, complete_email_challenge,
}
use seiza_server.Identity.Spent.{everything}
use seiza_server.Identity.Stability.{and_inv}
use seiza_server.Accounts.Secrets.{
  has_digest, Primitives, Outcome, done, failed, done_injective, max_challenge_attempts,
}
use seiza_server.Accounts.EmailSignIn.{
  EmailCredential, CandidateCredential, link, email_code, CompletedBrowserSignIn, Draws, candidate,
  is_valid, completed, finish, check_secret, check_challenge, check_candidate, complete_email,
}

-- An active account with that address, and a session of it.
pub record SignedIn (email_lookup : Text) (r : CompletedEmailSignIn) : Type 0 where
  pub address : r.account.email_lookup ≡ email_lookup
  pub is_active_account : is_active r.account.status ≡ true
  pub own_session : r.session.account_id ≡ r.account.id

ok_some : {A : Type 0} (x y : A) → ok (some x) ≡ ok (some y) → x ≡ y
ok_some x y h = cc

some_injective : {A : Type 0} (x y : A) → some x ≡ some y → x ≡ y
some_injective x y h = cc

module _ {W : Type 0} (email_lookup : Text) where
  abbrev Yields : Result (Option CompletedEmailSignIn) × Tables W → Type 0
  Yields w = (r : CompletedEmailSignIn) → w.0 ≡ ok (some r) → SignedIn email_lookup r

  account_lookup :
      (t : Tables W) (a : Account)
      → account_by_email_lookup email_lookup t ≡ some a
      → a.email_lookup ≡ email_lookup
  unfolding account_by_email_lookup
  account_lookup t a h =
      text_eq→eq a.email_lookup email_lookup
        (All-find (λ x. Unit {0}) (λ (x : Account). text_eq x.email_lookup email_lookup) t.accounts
          a (everything t.accounts) h).1

  opened_session-Yields :
      (now : ℕ) (a : Account) (created : Bool) (s : AuthSession) (t : Tables W)
      (w : Result (Unit {0}) × Tables W)
      → a.email_lookup ≡ email_lookup
      → is_active a.status ≡ true
      → s.account_id ≡ a.id
      → Yields (opened_session email_lookup now a created s t w)
  opened_session-Yields now a created s t (err, t') same live own = λ r e. cc
  opened_session-Yields now a created s t (ok x, t') same live own = λ r e.
      subst (SignedIn email_lookup) (ok_some _ r e)
        (record { address = same; is_active_account = live; own_session = own })

  signed_in-Yields :
      (now : ℕ) (a : Account) (created : Bool) (s : AuthSession) (t t' : Tables W)
      → a.email_lookup ≡ email_lookup
      → Yields (signed_in email_lookup now a created s t t')
  unfolding signed_in
  signed_in-Yields now a created s t t' same = elim (Bool-cases (not (is_active a.status))) [
    | inl e ↦ rw e (λ r f. cc)
    | inr e ↦ rw e (
        opened_session-Yields now a created (record s { account_id = a.id }) t
          (insert_session (record s { account_id = a.id }) t') same (ground (arith, e)) refl)
  ]

  found_account-Yields :
      (now : ℕ) (s : AuthSession) (t t' : Tables W) (created : Bool) (a : Option Account)
      → ((b : Account) → a ≡ some b → b.email_lookup ≡ email_lookup)
      → Yields (found_account email_lookup now s t t' created a)
  found_account-Yields now s t t' created none same = λ r e. cc
  found_account-Yields now s t t' created (some a) same =
      signed_in-Yields now a created s t t' (same a refl)

  new_sign_in-Yields :
      (now : ℕ) (a : Account) (s : AuthSession) (t t' : Tables W)
      → Yields (new_sign_in email_lookup now a s t t')
  unfolding new_sign_in
  new_sign_in-Yields now a s t t' =
      elim (Bool-cases (any (λ (x : Account). text_eq x.email_lookup a.email_lookup) t'.accounts)) [
        | inl e ↦ rw e (
            found_account-Yields now s t t' false (account_by_email_lookup email_lookup t')
              (λ b f. account_lookup t' b f))
        | inr e ↦
            elim (Bool-cases (
              any
                (λ (x : Account).
                  (x.id == a.id) || text_eq x.webauthn_user_handle a.webauthn_user_handle)
                t'.accounts)) [
                  | inl f ↦ rw e (rw f (λ r g. cc))
                  | inr f ↦ rw e (
                      rw f (
                        found_account-Yields now s t
                          (record t' { accounts = t'.accounts ++ a ∷ [] }) true _
                          (λ b g.
                            account_lookup (record t' { accounts = t'.accounts ++ a ∷ [] }) b g)))
                ]
      ]

  sign_in_as-Yields :
      (now : ℕ) (a : Account) (s : AuthSession) (t t' : Tables W) (b : Option Account)
      → ((c : Account) → b ≡ some c → c.email_lookup ≡ email_lookup)
      → Yields (sign_in_as email_lookup now a s t t' b)
  sign_in_as-Yields now a s t t' none same = new_sign_in-Yields now a s t t'
  sign_in_as-Yields now a s t t' (some b) same = signed_in-Yields now b false s t t' (same b refl)

  consume_and_sign_in-Yields :
      (id now max_attempts : ℕ) (a : Account) (s : AuthSession) (t : Tables W)
      → Yields (consume_and_sign_in id now max_attempts email_lookup a s t)
  unfolding consume_and_sign_in
  consume_and_sign_in-Yields id now max_attempts a s t =
      elim (Bool-cases (affected (can_complete id now max_attempts) t.challenges == 0)) [
        | inl e ↦ rw e (λ r f. cc)
        | inr e ↦ rw e (
            sign_in_as-Yields now a s t
              (record t {
                challenges =
                    update_where (can_complete id now max_attempts) (consume now) t.challenges;
              })
              _
              (λ b f.
                account_lookup
                  (record t {
                    challenges =
                        update_where (can_complete id now max_attempts) (consume now) t.challenges;
                  })
                  b f))
      ]

module _ {W : Type 0} (id now max_attempts : ℕ) (a : Account) (s : AuthSession) (t : Tables W) where
  -- Whose challenge it is.
  abbrev OfChallenge :
      Option AuthChallenge → Result (Option CompletedEmailSignIn) × Tables W → Type 0
  OfChallenge c w =
      (d : AuthChallenge) (email_lookup : Text) (r : CompletedEmailSignIn)
      → c ≡ some d
      → d.email_lookup ≡ some email_lookup
      → w.0 ≡ ok (some r)
      → SignedIn email_lookup r

  for_email-Yields :
      (c : AuthChallenge) (o : Option Text) (email_lookup : Text) (r : CompletedEmailSignIn)
      → o ≡ some email_lookup
      → (for_email id now max_attempts a s t c o).0 ≡ ok (some r)
      → SignedIn email_lookup r
  for_email-Yields c none email_lookup r h = λ e. cc
  for_email-Yields c (some x) email_lookup r h =
      elim (Bool-cases (not (same_purpose c.purpose email_login))) [
        | inl f ↦ rw f (λ e. cc)
        | inr f ↦ rw f (λ e.
            subst (λ y. SignedIn y r) (some_injective x email_lookup h)
              (consume_and_sign_in-Yields x id now max_attempts a s t r e))
      ]

  of_challenge-Yields :
      (c : Option AuthChallenge) → OfChallenge c (of_challenge id now max_attempts a s t c)
  of_challenge-Yields none d email_lookup r h k e = cc
  of_challenge-Yields (some c) d email_lookup r h k e =
      let same : c ≡ d = some_injective c d h in
      for_email-Yields c c.email_lookup email_lookup r (ap (λ x. x.email_lookup) same ∙ k) e

  pub complete_email_challenge-SignedIn :
      (d : AuthChallenge) (email_lookup : Text) (r : CompletedEmailSignIn)
      → challenge_by_id id t ≡ some d
      → d.email_lookup ≡ some email_lookup
      → (complete_email_challenge id now max_attempts a s t).0 ≡ ok (some r)
      → SignedIn email_lookup r
  unfolding complete_email_challenge
  complete_email_challenge-SignedIn = of_challenge-Yields (challenge_by_id id t)

-- What the challenge keeps of the secret that was sent: the digest of the link's, or the digest of
-- the code's beside the address.
abbrev pub Matches : Primitives → ℕ → AuthChallenge → Text → CandidateCredential → Type 0
Matches p challenge_id challenge email_lookup (link secret) =
    challenge.link_token_digest ≡ some (p.secret_digest secret)
Matches p challenge_id challenge email_lookup (email_code email digits) =
    (email_lookup ≡ email) × (challenge.code_digest ≡ some (p.code_digest challenge_id digits))

has_digest→eq :
    (stored : Option Text) (value : Text) → has_digest stored value ≡ true → stored ≡ some value
has_digest→eq none value h = cc
has_digest→eq (some digest) value h = ap some (text_eq→eq digest value h)

is_valid→Matches :
    (p : Primitives) (challenge_id : ℕ) (challenge : AuthChallenge) (email_lookup : Text)
    (secret : CandidateCredential)
    → is_valid p challenge_id challenge email_lookup secret ≡ true
    → Matches p challenge_id challenge email_lookup secret
unfolding is_valid
is_valid→Matches p challenge_id challenge email_lookup (link secret) h =
    has_digest→eq challenge.link_token_digest (p.secret_digest secret) h
is_valid→Matches p challenge_id challenge email_lookup (email_code email digits) h =
    let both =
      and_inv (text_eq email_lookup email)
        (has_digest challenge.code_digest (p.code_digest challenge_id digits)) h in
    (
      text_eq→eq email_lookup email both.0,
      has_digest→eq challenge.code_digest (p.code_digest challenge_id digits) both.1,
    )

-- The challenge by which a credential is accepted: stored, for email, unused, in time, not tried too
-- often, and with a digest that the credential's secret meets.
pub record Accepts {W : Type 0} (p : Primitives) (now : ℕ) (credential : EmailCredential)
    (t : Tables W) (r : CompletedBrowserSignIn) : Type 0 where
  pub challenge_id : ℕ
  pub secret : CandidateCredential
  pub challenge : AuthChallenge
  pub email_lookup : Text
  pub presented : candidate p credential ≡ done (challenge_id, secret)
  pub stored_as : challenge_by_id challenge_id t ≡ some challenge
  pub for_sign_in : same_purpose challenge.purpose email_login ≡ true
  pub unused : is_none challenge.consumed_at ≡ true
  pub in_time : now < challenge.expires_at
  pub under_limit : challenge.attempts < max_challenge_attempts
  pub addressed : challenge.email_lookup ≡ some email_lookup
  pub matches : Matches p challenge_id challenge email_lookup secret
  pub signs_in : SignedIn email_lookup r.completion

both_pass :
    (a : Bool) (o : Option ℕ) (b : Bool)
    → (not a || (is_some o || b)) ≡ false
    → (a ≡ true) × (is_none o ≡ true)
both_pass true none b h = (refl, refl)
both_pass true (some x) b h = cc
both_pass false o b h = cc

module _ {W : Type 0} (p : Primitives) (now : ℕ) (draws : Draws p) (t : Tables W)
    (r : CompletedBrowserSignIn) where
  completed_inv :
      (session_secret csrf_token : Text) (w : Result (Option CompletedEmailSignIn) × Tables W)
      → (completed p session_secret csrf_token w).0 ≡ done r
      → w.0 ≡ ok (some r.completion)
  completed_inv session_secret csrf_token (err, t') h = cc
  completed_inv session_secret csrf_token (ok none, t') h = cc
  completed_inv session_secret csrf_token (ok (some completion), t') h =
      ap (λ x. ok (some x.completion)) (done_injective _ r h)

  finish_inv :
      (id : ℕ) (email_lookup : Text) (secrets : Option (Text × Text)) (c : AuthChallenge)
      → challenge_by_id id t ≡ some c
      → c.email_lookup ≡ some email_lookup
      → (finish p now draws id email_lookup secrets t).0 ≡ done r
      → SignedIn email_lookup r.completion
  finish_inv id email_lookup none c h k e = cc
  finish_inv id email_lookup (some (x, y)) c h k e =
      complete_email_challenge-SignedIn id now max_challenge_attempts _ _ t c email_lookup
        r.completion h k (completed_inv x y _ e)

  check_secret_inv :
      (id : ℕ) (c : AuthChallenge) (secret : CandidateCredential) (o : Option Text)
      → challenge_by_id id t ≡ some c
      → c.email_lookup ≡ o
      → (check_secret p now draws id c secret o t).0 ≡ done r
      → (email_lookup : Text) × (o ≡ some email_lookup)
        × (is_valid p id c email_lookup secret ≡ true)
        × SignedIn email_lookup r.completion
  check_secret_inv id c secret none h k = λ e. cc
  check_secret_inv id c secret (some email_lookup) h k =
      elim (Bool-cases (is_valid p id c email_lookup secret)) [
        | inl v ↦
            rw v (λ e. (email_lookup, refl, v, finish_inv id email_lookup draws.secrets c h k e))
        | inr v ↦ rw v (λ e. cc)
      ]

  check_challenge_inv :
      (id : ℕ) (secret : CandidateCredential) (credential : EmailCredential)
      (o : Option AuthChallenge)
      → candidate p credential ≡ done (id, secret)
      → challenge_by_id id t ≡ o
      → (check_challenge p now draws id secret o t).0 ≡ done r
      → Accepts p now credential t r
  check_challenge_inv id secret credential none h k = λ e. cc
  check_challenge_inv id secret credential (some c) h k =
      elim (Bool-cases (
        not (same_purpose c.purpose email_login)
        || (is_some c.consumed_at
            || (leb c.expires_at now || leb max_challenge_attempts c.attempts)))) [
              | inl f ↦ rw f (λ e. cc)
              | inr f ↦ rw f (λ e.
                  let (email_lookup, addressed, valid, signs) =
                    check_secret_inv id c secret c.email_lookup k refl e in
                  record {
                    challenge_id = id;
                    secret = secret;
                    challenge = c;
                    email_lookup = email_lookup;
                    presented = h;
                    stored_as = k;
                    for_sign_in = (both_pass _ c.consumed_at _ f).0;
                    unused = (both_pass _ c.consumed_at _ f).1;
                    in_time = ground (arith, f);
                    under_limit = ground (arith, f);
                    addressed = addressed;
                    matches = is_valid→Matches p id c email_lookup secret valid;
                    signs_in = signs;
                  })
            ]

  check_candidate_inv :
      (credential : EmailCredential) (o : Outcome (ℕ × CandidateCredential))
      → candidate p credential ≡ o
      → (check_candidate p now draws o t).0 ≡ done r
      → Accepts p now credential t r
  check_candidate_inv credential (failed e) h k = cc
  check_candidate_inv credential (done (id, secret)) h k =
      check_challenge_inv id secret credential (challenge_by_id id t) h refl k

-- A credential that signs in is one for a stored challenge that is for email, unused, in time and not
-- tried too often, with its link's or its code's secret; and the account is active, at the challenge's
-- address, with a session of its own.
pub complete_email-Accepts :
    {W : Type 0} (p : Primitives) (now : ℕ) (draws : Draws p) (credential : EmailCredential)
    (t : Tables W) (r : CompletedBrowserSignIn)
    → (complete_email p now draws credential t).0 ≡ done r
    → Accepts p now credential t r
unfolding complete_email
complete_email-Accepts p now draws credential t r h =
    check_candidate_inv p now draws t r credential (candidate p credential) refl h
