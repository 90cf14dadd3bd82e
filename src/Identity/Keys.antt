-- ===== src/Identity/Keys.antt =====
-- API keys in src/sqlx_identity.rs.
use seiza_server.Base.{
  ℕ, Bool, true, false, ◌&&◌, ◌||◌, Option, some, List, ltb, ◌==◌, if◌then◌else◌, is_none, filter,
  find,
}
use seiza_server.Queue.Sql.{Engine, above, update_where}
use seiza_server.Identity.Rows.{ApiKey, AuthSession, Tables}
use seiza_server.Identity.Tables.{affected, number_is}
use seiza_server.Identity.Sessions.{revoked}

module _ {W : Type 0} where
  unfoldable pub key_is : ℕ → ℕ → ApiKey W → Bool
  key_is account_id key_id k = (k.id == key_id) && (k.account_id == account_id)

  unfoldable pub api_key : ℕ → ℕ → Tables W → Option (ApiKey W)
  unfolding key_is
  api_key account_id key_id t = find (key_is account_id key_id) t.api_keys

  unfoldable pub list_api_keys : Engine → ℕ → Tables W → List (ApiKey W)
  list_api_keys e account_id t =
      e.ascending (λ (k : ApiKey W). k.created_at)
        (filter (λ (k : ApiKey W). k.account_id == account_id) t.api_keys)

  unfoldable pub used : ℕ → ApiKey W → ApiKey W
  used now k = record k { last_used_at = some now }

  unfoldable pub revoked_key : ℕ → ApiKey W → ApiKey W
  revoked_key now k = record k { revoked_at = some now }

  -- `... AND revoked_at IS NULL AND (expires_at IS NULL OR expires_at > $1)`.
  unfoldable pub touch_api_key : ℕ → ℕ → ℕ → Tables W → Bool × Tables W
  unfolding key_is used
  touch_api_key account_id key_id last_used_at t =
      let test = λ (k : ApiKey W).
        key_is account_id key_id k
        && (is_none k.revoked_at && (is_none k.expires_at || above k.expires_at last_used_at)) in
      (
        ltb 0 (affected test t.api_keys),
        record t { api_keys = update_where test (used last_used_at) t.api_keys },
      )

  -- The key, and every session that it has minted.
  unfoldable pub revoke_api_key : ℕ → ℕ → ℕ → Tables W → Bool × Tables W
  unfolding key_is revoked_key revoked
  revoke_api_key account_id key_id revoked_at t =
      let test = λ (k : ApiKey W). key_is account_id key_id k && is_none k.revoked_at in
      if affected test t.api_keys == 0 then (false, t) else (
        true,
        record t {
          api_keys = update_where test (revoked_key revoked_at) t.api_keys;
          sessions =
              update_where
                (λ (s : AuthSession).
                  (s.account_id == account_id)
                  && (number_is s.api_key_id key_id && is_none s.revoked_at))
                (revoked revoked_at) t.sessions;
        },
      )
