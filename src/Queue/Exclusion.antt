-- ===== src/Queue/Exclusion.antt =====
-- Proofs about the holders of leases in src/repository.rs: `complete`, `heartbeat` and
-- `input_key`.
use seiza_server.Base.{
  ℕ, ◌+◌, ◌≤◌, ◌<◌, ◌≡◌, refl, ap, sym, ◌∙◌, ◌≢◌, inl, inr, true, false, ◌&&◌, Option, none, some,
  arith, Text, text_eq→eq, Bool-cases, is_none, All, filter_none, find-none,
}
use seiza_server.Queue.Rows.{is_solving, Row, Store, ok}
use seiza_server.Queue.Sql.{text_is}
use seiza_server.Queue.Leases.{
  has_expired, heartbeat, holds, renewed, finished, complete, input_key, lease_span,
}
use seiza_server.Queue.Updates.{update_where_none}
use seiza_server.Queue.Lookup.{row_of, id-row_of, only_row, length-filter_one, row_of-update_where}
use seiza_server.Queue.Invariant.{IsValid}
use seiza_server.Queue.Lifecycle.{RowStep, releases, starts, renews, finishes}

same_token :
    (stored : Option Text) (a b : Text) → text_is stored a ≡ true → text_is stored b ≡ true → a ≡ b
same_token none a b h k = cc
same_token (some s) a b h k = sym (text_eq→eq s a h) ∙ text_eq→eq s b k

abbrev pub Until : Option ℕ → ℕ → Type 0
Until none until = ⊥
Until (some expires) until = until ≤ expires

module _ {W O S : Type 0} where
  -- The row is leased under the token, at least until that time.
  abbrev pub HeldBy : Text → ℕ → Row W O S → Type 0
  HeldBy token until r =
      (is_solving r.status ≡ true)
      × (text_is r.lease_token token ≡ true)
      × Until r.lease_expires_at until

  -- Who passes the test of a lease's update shows the token of the row.
  token-holds :
      (j : ℕ) (token : Text) (now : ℕ) (r : Row W O S)
      → holds j token now r ≡ true
      → text_is r.lease_token token ≡ true
  unfolding holds
  token-holds j token now r h = ground arith

  stranger :
      (token lease : Text) (actor : Option Text) (j now : ℕ) (r : Row W O S)
      → actor ≢ some token
      → text_is r.lease_token token ≡ true
      → actor ≡ some lease
      → holds j lease now r ≡ true
      → ⊥
  stranger token lease actor j now r other held t h =
      other (t ∙ ap some (same_token r.lease_token lease token (token-holds j lease now r h) held))

  pub HeldBy-RowStep :
      (token : Text) (until now : ℕ) (actor : Option Text) (r q : Row W O S)
      → actor ≢ some token
      → now < until
      → RowStep now actor r q
      → HeldBy token until r
      → HeldBy token until q
  unfolding has_expired
  HeldBy-RowStep token until now actor r q other early (releases _ h) held = absurd (ground arith)
  HeldBy-RowStep token until now actor r q other early (starts _ lease expires h) held =
      absurd (ground arith)
  HeldBy-RowStep token until now actor r q other early (renews _ j lease expires t h) held =
      absurd (stranger token lease actor j now r other held.1 t h)
  HeldBy-RowStep token until now actor r q other early (finishes _ j lease solution error t h k)
        held =
      absurd (stranger token lease actor j now r other held.1 t h)

  pub HeldBy-test :
      (j : ℕ) (token : Text) (until now : ℕ) (r : Row W O S)
      → r.id ≡ j
      → now < until
      → HeldBy token until r
      → holds j token now r ≡ true
  unfolding holds
  HeldBy-test j token until now r same early held = ground arith

  pub id-holds :
      (j : ℕ) (token : Text) (now : ℕ) (r : Row W O S) → holds j token now r ≡ true → r.id ≡ j
  unfolding holds
  id-holds j token now r h = ground arith

  id_finished :
      (solution : Option S) (error : Option Text) (now : ℕ) (x : Row W O S)
      → (finished solution error now x).id ≡ x.id
  unfolding finished
  id_finished solution error now x = refl

  -- A worker that shows another token than the row's finds no row to write or to read.
  fenced :
      (s : Store W O S) (j now until : ℕ) (token stale : Text) (r : Row W O S)
      → IsValid s
      → row_of j s.jobs ≡ some r
      → HeldBy token until r
      → stale ≢ token
      → All (λ x. holds j stale now x ≡ false) s.jobs
  fenced s j now until token stale r v h held other =
      only_row (holds j stale now) j (λ x. id-holds j stale now x) s.jobs r v.ids h
        (elim (Bool-cases (holds j stale now r)) [
          | inl passed ↦ absurd (
              other
                (same_token r.lease_token stale token (token-holds j stale now r passed) held.1))
          | inr failed ↦ failed
        ])

  -- While one worker's lease is on the row, a worker with another token completes nothing, renews
  -- nothing and reads no input: each call reports it, and the store stays as it was.
  pub stale_worker_fenced :
      (s : Store W O S) (j now until lease_seconds : ℕ) (token stale : Text) (r : Row W O S)
      (solution : Option S) (error : Option Text)
      → IsValid s
      → row_of j s.jobs ≡ some r
      → HeldBy token until r
      → stale ≢ token
      → (is_none solution && is_none error) ≡ false
      → (complete j stale solution error now s ≡ (ok false, s))
        × (heartbeat j stale lease_seconds now s ≡ (false, s))
        × (input_key j stale now s ≡ none)
  unfolding complete heartbeat input_key
  stale_worker_fenced s j now until lease_seconds token stale r solution error v h held other
        given =
      let no_one = fenced s j now until token stale r v h held other in
      let empty = filter_none (holds j stale now) s.jobs no_one in
      (
        ground (
          arith,
          empty,
          update_where_none (holds j stale now) (finished solution error now) s.jobs no_one,
        ),
        ground (
          arith,
          empty,
          update_where_none (holds j stale now) (renewed (now + lease_span lease_seconds)) s.jobs
              no_one,
        ),
        ground (arith, find-none (holds j stale now) s.jobs no_one),
      )

  -- The holder of an unexpired lease completes its job: the call reports it, and the row holds the
  -- outcome, succeeded exactly when there is a solution, and no lease.
  pub holder_completes :
      (s : Store W O S) (j now until : ℕ) (token : Text) (r : Row W O S) (solution : Option S)
      (error : Option Text)
      → IsValid s
      → row_of j s.jobs ≡ some r
      → HeldBy token until r
      → now < until
      → (is_none solution && is_none error) ≡ false
      → ((complete j token solution error now s).0 ≡ ok true)
        × (row_of j (complete j token solution error now s).1.jobs
            ≡ some (finished solution error now r))
  unfolding complete
  holder_completes s j now until token r solution error v h held early given =
      let mine = HeldBy-test j token until now r (id-row_of j s.jobs r h) early held in
      let one =
        length-filter_one (holds j token now) j (λ x. id-holds j token now x) s.jobs r v.ids h
          mine in
      let after =
        row_of-update_where (holds j token now) (finished solution error now)
          (λ x. id_finished solution error now x) j s.jobs r h in
      (ground (arith, one), rw given (rw after (rw mine)))
