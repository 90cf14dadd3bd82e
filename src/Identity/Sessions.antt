-- ===== src/Identity/Sessions.antt =====
-- Sessions in src/sqlx_identity.rs, and `purge_expired`.
use seiza_server.Base.{
  ℕ, ◌+◌, ◌-◌, ◌*◌, Bool, false, not, ◌&&◌, ◌||◌, Option, none, some, List, ltb, ◌==◌, is_none,
  filter, find,
}
use seiza_server.Queue.Sql.{Engine, update_where}
use seiza_server.Identity.Rows.{AuthChallenge, AuthSession, Tables}
use seiza_server.Identity.Tables.{affected}

-- `WHERE id = $ AND account_id = $`.
unfoldable pub session_is : ℕ → ℕ → AuthSession → Bool
session_is account_id session_id s = (s.id == session_id) && (s.account_id == account_id)

unfoldable pub revoked : ℕ → AuthSession → AuthSession
revoked now s = record s { revoked_at = some now }

unfoldable pub touched : ℕ → ℕ → AuthSession → AuthSession
touched last_seen_at expires_at s = record s {
  last_seen_at = last_seen_at;
  expires_at = expires_at;
}

-- `column < $n`, which is false of a NULL.
abbrev pub below : Option ℕ → ℕ → Bool
below none value = false
below (some stored) value = ltb stored value

abbrev pub hour : ℕ
hour = 3600 * 1000000000

-- `absolute_expires_at < $1 OR expires_at < $2 OR revoked_at < $2`.
unfoldable pub is_dead : ℕ → AuthSession → Bool
is_dead now s =
    ltb s.absolute_expires_at now
    || (ltb s.expires_at (now - 720 * hour) || below s.revoked_at (now - 720 * hour))

module _ {W : Type 0} where
  unfoldable pub session : ℕ → ℕ → Tables W → Option AuthSession
  unfolding session_is
  session account_id session_id t = find (session_is account_id session_id) t.sessions

  unfoldable pub list_sessions : Engine → ℕ → Tables W → List AuthSession
  list_sessions e account_id t =
      e.descending (λ (s : AuthSession). s.created_at)
        (filter (λ (s : AuthSession). s.account_id == account_id) t.sessions)

  -- `WHERE ... AND revoked_at IS NULL AND absolute_expires_at > $1`.
  unfoldable pub touch_session : ℕ → ℕ → ℕ → ℕ → Tables W → Bool × Tables W
  unfolding session_is touched
  touch_session account_id session_id last_seen_at expires_at t =
      let test = λ (s : AuthSession).
        session_is account_id session_id s
        && (is_none s.revoked_at && ltb last_seen_at s.absolute_expires_at) in
      (
        affected test t.sessions == 1,
        record t { sessions = update_where test (touched last_seen_at expires_at) t.sessions },
      )

  unfoldable pub revoke_session : ℕ → ℕ → ℕ → Tables W → Bool × Tables W
  unfolding session_is revoked
  revoke_session account_id session_id revoked_at t =
      let test = λ (s : AuthSession). session_is account_id session_id s && is_none s.revoked_at in
      (
        affected test t.sessions == 1,
        record t { sessions = update_where test (revoked revoked_at) t.sessions },
      )

  unfoldable pub revoke_all_sessions : ℕ → ℕ → Tables W → ℕ × Tables W
  unfolding revoked
  revoke_all_sessions account_id revoked_at t =
      let test = λ (s : AuthSession). (s.account_id == account_id) && is_none s.revoked_at in
      (
        affected test t.sessions,
        record t { sessions = update_where test (revoked revoked_at) t.sessions },
      )

  unfoldable pub delete_session : ℕ → ℕ → Tables W → Tables W
  unfolding session_is
  delete_session account_id session_id t = record t {
    sessions = filter (λ s. not (session_is account_id session_id s)) t.sessions;
  }

  -- Challenges go a day after they expire, sessions when they can authenticate no more and, where
  -- idle or revoked, thirty days later. A clock past 1970 by more than that is assumed.
  unfoldable pub purge_expired : ℕ → Tables W → ℕ × Tables W
  unfolding is_dead
  purge_expired now t =
      let old = λ (c : AuthChallenge). ltb c.expires_at (now - 24 * hour) in
      (
        affected old t.challenges + affected (is_dead now) t.sessions,
        record t {
          challenges = filter (λ c. not (old c)) t.challenges;
          sessions = filter (λ s. not (is_dead now s)) t.sessions;
        },
      )
