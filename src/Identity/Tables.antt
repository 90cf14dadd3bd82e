-- ===== src/Identity/Tables.antt =====
-- The statements of src/sqlx_identity.rs on lists of rows, with the constraints of
-- migrations/identity. A statement that breaks one is an error and changes nothing.
use seiza_server.Base.{
  ℕ, Bool, true, false, ◌&&◌, ◌||◌, not, Option, none, some, List, [], ◌∷◌, ◌++◌, text_eq, ◌==◌,
  is_none, length, filter, any,
}
use seiza_server.Identity.Rows.{
  Account, AuthChallenge, AuthSession, PasskeyCredential, ApiKey, Tables, Result, ok, err,
}

-- `column = $n` on a number that may be NULL.
abbrev pub number_is : Option ℕ → ℕ → Bool
number_is none value = false
number_is (some stored) value = stored == value

-- `rows_affected()` of an UPDATE or DELETE.
abbrev pub affected {ℓ} : {A : Type ℓ} → (A → Bool) → List A → ℕ
affected test rows = length (filter test rows)

-- A nullable foreign key.
abbrev pub refers : (ℕ → Bool) → Option ℕ → Bool
refers there none = true
refers there (some id) = there id

-- The unique index is on the credentials that are not revoked.
abbrev pub clashes : PasskeyCredential → PasskeyCredential → Bool
clashes new old =
    (old.id == new.id)
    || (is_none old.revoked_at
        && (is_none new.revoked_at && text_eq old.credential_id new.credential_id))

module _ {W : Type 0} where
  abbrev pub has_account : ℕ → Tables W → Bool
  has_account id t = any (λ (a : Account). a.id == id) t.accounts

  abbrev pub has_key : ℕ → Tables W → Bool
  has_key id t = any (λ (k : ApiKey W). k.id == id) t.api_keys

  abbrev pub inserted : Bool → Tables W → Tables W → Result (Unit {0}) × Tables W
  inserted true t t' = (ok tt, t')
  inserted false t t' = (err, t)

  -- The keys that a new row must not share, and the rows that it must refer to.
  abbrev pub admits_account : Account → Tables W → Bool
  admits_account account t = not (
      any
        (λ (a : Account).
          (a.id == account.id)
          || (text_eq a.email_lookup account.email_lookup
              || text_eq a.webauthn_user_handle account.webauthn_user_handle))
        t.accounts)

  abbrev pub admits_challenge : AuthChallenge → Tables W → Bool
  admits_challenge challenge t =
      not (any (λ (c : AuthChallenge). c.id == challenge.id) t.challenges)
      && refers (λ id. has_account id t) challenge.account_id

  abbrev pub admits_session : AuthSession → Tables W → Bool
  admits_session session t =
      not (any (λ (s : AuthSession). s.id == session.id) t.sessions)
      && (has_account session.account_id t && refers (λ id. has_key id t) session.api_key_id)

  abbrev pub admits_passkey : PasskeyCredential → Tables W → Bool
  admits_passkey passkey t =
      not (any (clashes passkey) t.passkeys) && has_account passkey.account_id t

  abbrev pub admits_key : ApiKey W → Tables W → Bool
  admits_key key t = not (has_key key.id t) && has_account key.account_id t

  unfoldable pub create_account : Account → Tables W → Result (Unit {0}) × Tables W
  create_account account t =
      inserted (admits_account account t) t (record t { accounts = t.accounts ++ account ∷ [] })

  unfoldable pub insert_challenge : AuthChallenge → Tables W → Result (Unit {0}) × Tables W
  insert_challenge challenge t =
      inserted (admits_challenge challenge t) t
        (record t { challenges = t.challenges ++ challenge ∷ [] })

  unfoldable pub insert_session : AuthSession → Tables W → Result (Unit {0}) × Tables W
  insert_session session t =
      inserted (admits_session session t) t (record t { sessions = t.sessions ++ session ∷ [] })

  unfoldable pub insert_passkey : PasskeyCredential → Tables W → Result (Unit {0}) × Tables W
  insert_passkey passkey t =
      inserted (admits_passkey passkey t) t (record t { passkeys = t.passkeys ++ passkey ∷ [] })

  unfoldable pub create_api_key : ApiKey W → Tables W → Result (Unit {0}) × Tables W
  create_api_key key t =
      inserted (admits_key key t) t (record t { api_keys = t.api_keys ++ key ∷ [] })
