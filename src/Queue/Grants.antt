-- ===== src/Queue/Grants.antt =====
-- Proofs about `claim` of src/repository.rs.
use seiza_server.Base.{
  ℕ, ◌+◌, ◌<◌, ◌≡◌, refl, ◌∙◌, subst, ◌≢◌, inl, inr, Bool, true, ◌&&◌, Option, none, some, List, [],
  ◌∷◌, arith, Text, text_eq_refl, ◌==◌, if◌then◌else◌, Bool-cases, length, All, filter,
}
use seiza_server.Queue.Rows.{is_queued, JobRecord, JobLease, Row, Store}
use seiza_server.Queue.Sql.{Engine, Float}
use seiza_server.Queue.Scheduler.{select_candidate}
use seiza_server.Queue.Leases.{reclaim_expired, claimed_row, claim_job, claim, lease_span}
use seiza_server.Queue.Lookup.{row_of, id-row_of, row_of-update_where, row_of-filter}
use seiza_server.Queue.Calls.{Call, step, run}
use seiza_server.Queue.Invariant.{IsValid, claim-IsValid, reclaim_expired-IsValid}
use seiza_server.Queue.Lifecycle.{Reach-keeps, find-Follows, reclaim_expired-Follows}
use seiza_server.Queue.History.{shown, step-IsValid, run-IsValid, step-row_of}
use seiza_server.Queue.Exclusion.{HeldBy, HeldBy-RowStep}

-- What is known of a lease that was granted: `q` is the table of jobs before, `p` the one after.
pub record Granted {W O S : Type 0} (token : Text) (now expires : ℕ) (q p : List (Row W O S))
    (lease : JobLease O) : Type 0 where
  pub row : Row W O S
  pub was : row_of lease.job_id q ≡ some row
  pub was_queued : is_queued row.status ≡ true
  pub becomes : row_of lease.job_id p ≡ some (claimed_row now token expires row)
  pub shows : lease.lease_token ≡ token
  pub ends : lease.lease_expires_at ≡ expires

module _ {W O S : Type 0} where
  id_claimed :
      (now : ℕ) (token : Text) (expires : ℕ) (x : Row W O S)
      → (claimed_row now token expires x).id ≡ x.id
  unfolding claimed_row
  id_claimed now token expires x = refl

  passes :
      (x y : Row W O S) (a b : Bool) → a ≡ true → b ≡ true → some (if a && b then x else y) ≡ some x
  passes x y a b h k = ground arith

  claim_job-Granted :
      (token : Text) (n now : ℕ) (s r : Store W O S) (job : Option (JobRecord W O S))
      (lease : JobLease O)
      → IsValid r
      → (claim_job token n now s r job).0 ≡ some lease
      → Granted token now (now + lease_span n) r.jobs (claim_job token n now s r job).1.jobs lease
  unfolding claim_job
  claim_job-Granted token n now s r none lease v h = absurd (cc)
  claim_job-Granted token n now s r (some job) lease v h =
      let test = λ (row : Row W O S). (row.id == job.id) && is_queued row.status in
      elim (Bool-cases (length (filter test r.jobs) == 1)) [
        | inl one ↦
            let (row, found, queued) =
              row_of-filter (λ (x : Row W O S). is_queued x.status) job.id r.jobs v.ids one in
            let same : lease.job_id ≡ job.id = ground arith in
            record {
              row = row;
              was = rw same found;
              was_queued = queued;
              becomes = rw one (
                  rw same (
                    row_of-update_where test (claimed_row now token (now + lease_span n))
                      (λ x. id_claimed now token (now + lease_span n) x) job.id r.jobs row found
                    ∙ passes (claimed_row now token (now + lease_span n) row) row (row.id == job.id)
                        (is_queued row.status) (ground (arith, id-row_of job.id r.jobs row found))
                        queued));
              shows = ground arith;
              ends = ground arith;
            }
        | inr other ↦ absurd (ground arith)
      ]

claimed_HeldBy :
    {W O S : Type 0} (now : ℕ) (token : Text) (expires : ℕ) (x : Row W O S) (until : ℕ)
    → until ≡ expires
    → HeldBy token until (claimed_row now token expires x)
unfolding claimed_row
claimed_HeldBy now token expires x until h = (refl, text_eq_refl token, omega arith)

module _ (f : Float) (e : Engine) {O S : Type 0} where
  claim-Granted :
      (requested : Option ℕ) (token : Text) (n now : ℕ) (s : Store f.F O S) (lease : JobLease O)
      → IsValid s
      → (claim f e requested token n now s).0 ≡ some lease
      → Granted token now
          (now + lease_span n)
          (reclaim_expired now s).jobs
          (claim f e requested token n now s).1.jobs
          lease
  unfolding claim
  claim-Granted requested token n now s lease v h =
      claim_job-Granted token n now s (reclaim_expired now s)
        (select_candidate f e requested now (reclaim_expired now s)) lease
        (reclaim_expired-IsValid now s v) h

  -- A granted lease puts the row of its job under the token, until the time that the lease names.
  granted-HeldBy :
      (requested : Option ℕ) (token : Text) (n now : ℕ) (s : Store f.F O S) (lease : JobLease O)
      → IsValid s
      → (claim f e requested token n now s).0 ≡ some lease
      → (r : Row f.F O S) × (row_of lease.job_id (claim f e requested token n now s).1.jobs
          ≡ some r)
        × HeldBy token lease.lease_expires_at r
  granted-HeldBy requested token n now s lease v h =
      let g = claim-Granted requested token n now s lease v h in
      let expires = now + lease_span n in
      (
        claimed_row now token expires g.row,
        g.becomes,
        claimed_HeldBy now token expires g.row lease.lease_expires_at g.ends,
      )

  -- Calls by others: made before `until`, and without the token.
  abbrev pub Elsewhere : Text → ℕ → ℕ × Call f.F O S → Type 0
  Elsewhere token until (now, c) = (now < until) × (shown c ≢ some token)

  held_through :
      (cs : List (ℕ × Call f.F O S)) (s : Store f.F O S) (j until : ℕ) (token : Text)
      (r : Row f.F O S)
      → IsValid s
      → row_of j s.jobs ≡ some r
      → HeldBy token until r
      → All (Elsewhere token until) cs
      → (q : Row f.F O S) × (row_of j (run f e cs s).jobs ≡ some q) × HeldBy token until q
  unfolding run
  held_through [] s j until token r v h held others = (r, h, held)
  held_through ((now, c) ∷ cs) s j until token r v h held others =
      let (q, found, path) = step-row_of f e now c s j r v h in
      held_through cs (step f e now c s) j until token q (step-IsValid f e now c s v) found
        (Reach-keeps (HeldBy token until)
          (λ x y st k. HeldBy-RowStep token until now (shown c) x y others.0.1 others.0.0 st k) path
          held)
        others.1

  not_claimable :
      (requested : Option ℕ) (token other : Text) (n now j until : ℕ) (s : Store f.F O S)
      (r : Row f.F O S) (lease : JobLease O)
      → IsValid s
      → row_of j s.jobs ≡ some r
      → HeldBy token until r
      → now < until
      → (claim f e requested other n now s).0 ≡ some lease
      → lease.job_id ≢ j
  not_claimable requested token other n now j until s r lease v h held early given same =
      let g = claim-Granted requested other n now s lease v given in
      let (q, found, path) =
        find-Follows now none j s.jobs (reclaim_expired now s).jobs r
          (reclaim_expired-Follows now none s v.ids) h in
      let still : HeldBy token until q =
        Reach-keeps (HeldBy token until)
          (λ x y st k. HeldBy-RowStep token until now none x y (λ z. cc) early st k) path held in
      absurd (
        ground (
          arith,
          subst (λ i. row_of i (reclaim_expired now s).jobs ≡ some g.row) same g.was,
          found,
          still.0,
          g.was_queued,
        ))

  -- After a claim has granted a lease, and any calls of other workers before it expires, no claim
  -- before it expires grants a lease on the same job.
  pub lease_excludes :
      (requested : Option ℕ) (token : Text) (n now : ℕ) (s : Store f.F O S) (lease : JobLease O)
      (cs : List (ℕ × Call f.F O S)) (requested' : Option ℕ) (token' : Text) (n' now' : ℕ)
      (lease' : JobLease O)
      → IsValid s
      → (claim f e requested token n now s).0 ≡ some lease
      → All (Elsewhere token lease.lease_expires_at) cs
      → now' < lease.lease_expires_at
      → (claim f e requested' token' n' now' (run f e cs (claim f e requested token n now s).1)).0
        ≡ some lease'
      → lease'.job_id ≢ lease.job_id
  lease_excludes requested token n now s lease cs requested' token' n' now' lease' v h others early
        g =
      let s' = (claim f e requested token n now s).1 in
      let v' = claim-IsValid f e requested token n now s v in
      let (r, found, held) = granted-HeldBy requested token n now s lease v h in
      let (q, later, kept) =
        held_through cs s' lease.job_id lease.lease_expires_at token r v' found held others in
      not_claimable requested' token token' n' now' lease.job_id lease.lease_expires_at
        (run f e cs s') q lease' (run-IsValid f e cs s' v') later kept early g
