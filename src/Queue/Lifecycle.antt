-- ===== src/Queue/Lifecycle.antt =====
-- The state machine of a job's row in src/repository.rs.
use seiza_server.Base.{
  ℕ, ◌+◌, ◌≡◌, refl, ap, subst, ◌∙◌, ◌≢◌, inl, inr, Bool, true, false, ◌&&◌, Option, none, some,
  List, [], ◌∷◌, ◌++◌, map, arith, Text, ◌==◌, leb, if◌then◌else◌, Bool-cases, is_none, length, All,
  Distinct, filter, find,
}
use seiza_server.Queue.Rows.{is_queued, is_solving, JobRecord, Row, Store, ValidationDonation}
use seiza_server.Queue.Sql.{Engine, Float, update_where}
use seiza_server.Queue.Leases.{
  released, reclaim_one, reclaim_all, reclaim_expired, has_expired, claimed_row, claim_job, claim,
  heartbeat, holds, finished, complete, lease_span, i64_max,
}
use seiza_server.Queue.Jobs.{new_row, insert_job, enqueue, donate_validation, pending_notifications}
use seiza_server.Queue.Updates.{update_where_none}

module _ {W O S : Type 0} where
  -- One transition of a row in a call at `now` by the worker that shows `token`, if any.
  pub data RowStep (now : ℕ) (token : Option Text) : Row W O S → Row W O S → Type 0 where
    releases : (r : Row W O S) → has_expired now r ≡ true → RowStep now token r (released r)
    starts :
        (r : Row W O S) (lease : Text) (expires : ℕ)
        → is_queued r.status ≡ true
        → RowStep now token r (claimed_row now lease expires r)
    renews :
        (r : Row W O S) (job_id : ℕ) (lease : Text) (expires : ℕ)
        → token ≡ some lease
        → holds job_id lease now r ≡ true
        → RowStep now token r (record r { lease_expires_at = some expires })
    finishes :
        (r : Row W O S) (job_id : ℕ) (lease : Text) (solution : Option S) (error : Option Text)
        → token ≡ some lease
        → holds job_id lease now r ≡ true
        → (is_none solution && is_none error) ≡ false
        → RowStep now token r (finished solution error now r)

  pub data Reach (now : ℕ) (token : Option Text) (r : Row W O S) : Row W O S → Type 0 where
    here : Reach now token r r
    next : {q p : Row W O S} → Reach now token r q → RowStep now token q p → Reach now token r p

  -- What every transition of a call keeps, the call keeps.
  pub Reach-keeps :
      {now : ℕ} {token : Option Text} {r q : Row W O S} (P : Row W O S → Type 0)
      → ((x y : Row W O S) → RowStep now token x y → P x → P y)
      → Reach now token r q
      → P r
      → P q
  Reach-keeps P keep here h = h
  Reach-keeps P keep (next {q = x} {p = y} path st) h = keep x y st (Reach-keeps P keep path h)

  Reach-trans :
      {now : ℕ} {token : Option Text} {r q p : Row W O S}
      → Reach now token r q
      → Reach now token q p
      → Reach now token r p
  Reach-trans a here = a
  Reach-trans a (next b st) = next (Reach-trans a b) st

  pub id-RowStep :
      {now : ℕ} {token : Option Text} {r q : Row W O S} → RowStep now token r q → q.id ≡ r.id
  unfolding released claimed_row finished
  id-RowStep (releases r h) = refl
  id-RowStep (starts r lease expires h) = refl
  id-RowStep (renews r j lease expires t h) = refl
  id-RowStep (finishes r j lease solution error t h k) = refl

  pub id-Reach :
      {now : ℕ} {token : Option Text} {r q : Row W O S} → Reach now token r q → q.id ≡ r.id
  id-Reach here = refl
  id-Reach (next a st) = id-RowStep st ∙ id-Reach a

  -- Row by row, the second list follows the first, which new rows may come behind.
  abbrev pub Follows : ℕ → Option Text → List (Row W O S) → List (Row W O S) → Type 0
  Follows now token [] ys = Unit
  Follows now token (x ∷ xs) [] = ⊥
  Follows now token (x ∷ xs) (y ∷ ys) = Reach now token x y × Follows now token xs ys

  pub Follows-refl :
      (now : ℕ) (token : Option Text) (xs : List (Row W O S)) → Follows now token xs xs
  Follows-refl now token [] = tt
  Follows-refl now token (x ∷ xs) = (here, Follows-refl now token xs)

  pub Follows-append :
      (now : ℕ) (token : Option Text) (xs ys : List (Row W O S)) → Follows now token xs (xs ++ ys)
  Follows-append now token [] ys = tt
  Follows-append now token (x ∷ xs) ys = (here, Follows-append now token xs ys)

  pub Follows-trans :
      (now : ℕ) (token : Option Text) (xs ys zs : List (Row W O S))
      → Follows now token xs ys
      → Follows now token ys zs
      → Follows now token xs zs
  Follows-trans now token [] ys zs a b = tt
  Follows-trans now token (x ∷ xs) [] zs a b = absurd a
  Follows-trans now token (x ∷ xs) (y ∷ ys) [] a b = absurd b
  Follows-trans now token (x ∷ xs) (y ∷ ys) (z ∷ zs) a b =
      (Reach-trans a.0 b.0, Follows-trans now token xs ys zs a.1 b.1)

  pub Follows-update_where :
      (now : ℕ) (token : Option Text) (test : Row W O S → Bool) (change : Row W O S → Row W O S)
      → ((r : Row W O S) → test r ≡ true → RowStep now token r (change r))
      → (xs : List (Row W O S)) → Follows now token xs (update_where test change xs)
  unfolding update_where
  Follows-update_where now token test change st [] = tt
  Follows-update_where now token test change st (x ∷ xs) = (
    elim (Bool-cases (test x)) [
      | inl hit ↦ rw hit (next here (st x hit))
      | inr miss ↦ rw miss here
    ],
    Follows-update_where now token test change st xs,
  )

  -- The row that a query by id finds goes on from the row that it found before.
  pub find-Follows :
      (now : ℕ) (token : Option Text) (j : ℕ) (xs ys : List (Row W O S)) (r : Row W O S)
      → Follows now token xs ys
      → find (λ row. row.id == j) xs ≡ some r
      → (q : Row W O S) × (find (λ row. row.id == j) ys ≡ some q) × Reach now token r q
  find-Follows now token j [] ys r a h = absurd (cc)
  find-Follows now token j (x ∷ xs) [] r a h = absurd a
  find-Follows now token j (x ∷ xs) (y ∷ ys) r a h = elim (Bool-cases (x.id == j)) [
    | inl hit ↦
        let same : x ≡ r = ground arith in
        (y, ground (arith, id-Reach a.0), subst (λ z. Reach now token z y) same a.0)
    | inr miss ↦
        let (q, found, path) = find-Follows now token j xs ys r a.1 (ground arith) in
        (q, ground (arith, id-Reach a.0, found), path)
  ]

  -- The row-by-row effect of the loop of `reclaim_expired`.
  release_by : List ℕ → Row W O S → Row W O S
  release_by [] r = r
  release_by (i ∷ is) r =
      release_by is (if (r.id == i) && is_solving r.status then released r else r)

  release_each : List ℕ → List (Row W O S) → List (Row W O S)
  release_each [] xs = xs
  release_each (i ∷ is) xs =
      release_each is (update_where (λ row. (row.id == i) && is_solving row.status) released xs)

  release_each-cons :
      (is : List ℕ) (x : Row W O S) (xs : List (Row W O S))
      → release_each is (x ∷ xs) ≡ release_by is x ∷ release_each is xs
  unfolding release_each release_by update_where
  release_each-cons [] x xs = refl
  release_each-cons (i ∷ is) x xs = release_each-cons is _ _

  release_by-idle :
      (is : List ℕ) (r : Row W O S) → is_solving r.status ≡ false → release_by is r ≡ r
  unfolding release_by
  release_by-idle [] r h = refl
  release_by-idle (i ∷ is) r h = ground (arith, release_by-idle is r h)

  release_by-other : (is : List ℕ) (r : Row W O S) → All (λ i. i ≢ r.id) is → release_by is r ≡ r
  unfolding release_by
  release_by-other [] r h = refl
  release_by-other (i ∷ is) r h = ground (arith, release_by-other is r h.1)

  jobs-reclaim_all :
      (rows : List (Row W O S)) (s : Store W O S)
      → (reclaim_all rows s).jobs ≡ release_each (map (λ r. r.id) rows) s.jobs
  unfolding reclaim_all reclaim_one release_each
  jobs-reclaim_all [] s = refl
  jobs-reclaim_all (r ∷ rows) s = jobs-reclaim_all rows (reclaim_one r.id s)

  filter_ids_ne :
      (test : Row W O S → Bool) (k : ℕ) (xs : List (Row W O S))
      → All (λ i. i ≢ k) (map (λ r. r.id) xs)
      → All (λ i. i ≢ k) (map (λ r. r.id) (filter test xs))
  filter_ids_ne test k [] h = tt
  filter_ids_ne test k (x ∷ xs) h = elim (Bool-cases (test x)) [
    | inl hit ↦ rw hit (h.0, filter_ids_ne test k xs h.1)
    | inr miss ↦ rw miss (filter_ids_ne test k xs h.1)
  ]

  other_ids :
      (k : ℕ) (xs : List (Row W O S))
      → All (λ i. i ≢ k) (map (λ r. r.id) xs)
      → All (λ row. ((row.id == k) && is_solving row.status) ≡ false) xs
  other_ids k [] h = tt
  other_ids k (x ∷ xs) h = (ground arith, other_ids k xs h.1)

  expired_test :
      (now : ℕ) (r : Row W O S)
      → has_expired now r ≡ true
      → ((r.id == r.id) && is_solving r.status) ≡ true
  unfolding has_expired
  expired_test now r h = ground arith

  released_now :
      (r : Row W O S) (is : List ℕ)
      → ((r.id == r.id) && is_solving r.status) ≡ true
      → release_by (r.id ∷ is) r ≡ released r
  unfolding release_by released
  released_now r is h = ground (arith, release_by-idle is (released r) refl)

  release_each-expired :
      (now : ℕ) (xs : List (Row W O S))
      → Distinct (map (λ r. r.id) xs)
      → release_each (map (λ r. r.id) (filter (has_expired now) xs)) xs
        ≡ update_where (has_expired now) released xs
  unfolding release_each update_where released
  release_each-expired now [] d = refl
  release_each-expired now (x ∷ xs) d =
      let ids = map (λ (r : Row W O S). r.id) (filter (has_expired now) xs) in
      elim (Bool-cases (has_expired now x)) [
        | inl hit ↦ rw hit (
            release_each-cons (x.id ∷ ids) x xs
            ∙ cc (
              released_now x ids (expired_test now x hit),
              ap (release_each ids) (update_where_none _ released xs (other_ids x.id xs d.0)),
              release_each-expired now xs d.1,
            ))
        | inr miss ↦ rw miss (
            release_each-cons ids x xs
            ∙ cc (
              release_by-other ids x (filter_ids_ne (has_expired now) x.id xs d.0),
              release_each-expired now xs d.1,
            ))
      ]

  -- With unique ids, the loop releases at once exactly the rows whose leases have run out.
  pub jobs-reclaim_expired :
      (now : ℕ) (s : Store W O S)
      → Distinct (map (λ r. r.id) s.jobs)
      → (reclaim_expired now s).jobs ≡ update_where (has_expired now) released s.jobs
  unfolding reclaim_expired
  jobs-reclaim_expired now s d =
      jobs-reclaim_all (filter (has_expired now) s.jobs) s ∙ release_each-expired now s.jobs d

  pub reclaim_expired-Follows :
      (now : ℕ) (token : Option Text) (s : Store W O S)
      → Distinct (map (λ r. r.id) s.jobs)
      → Follows now token s.jobs (reclaim_expired now s).jobs
  reclaim_expired-Follows now token s d =
      rw (jobs-reclaim_expired now s d)
        (Follows-update_where now token (has_expired now) released (λ r h. releases r h) s.jobs)

  claim_job-Follows :
      (lease : Text) (lease_seconds now : ℕ) (s r : Store W O S) (job : Option (JobRecord W O S))
      → Follows now none s.jobs r.jobs
      → Follows now none s.jobs (claim_job lease lease_seconds now s r job).1.jobs
  unfolding claim_job
  claim_job-Follows lease lease_seconds now s r none h = h
  claim_job-Follows lease lease_seconds now s r (some job) h =
      let test = λ (row : Row W O S). (row.id == job.id) && is_queued row.status in
      elim (Bool-cases (length (filter test r.jobs) == 1)) [
        | inl one ↦ rw one (
            Follows-trans now none s.jobs r.jobs _ h (
              Follows-update_where now none test _
                (λ x hit. starts x lease (now + lease_span lease_seconds) (ground arith)) r.jobs))
        | inr other ↦ rw other (Follows-refl now none s.jobs)
      ]

  pub heartbeat-Follows :
      (j : ℕ) (lease : Text) (lease_seconds now : ℕ) (s : Store W O S)
      → Follows now (some lease) s.jobs (heartbeat j lease lease_seconds now s).1.jobs
  unfolding heartbeat
  heartbeat-Follows j lease lease_seconds now s =
      Follows-update_where now (some lease) (holds j lease now) _
        (λ x hit. renews x j lease (now + lease_span lease_seconds) refl hit) s.jobs

  pub complete-Follows :
      (j : ℕ) (lease : Text) (solution : Option S) (error : Option Text) (now : ℕ) (s : Store W O S)
      → Follows now (some lease) s.jobs (complete j lease solution error now s).1.jobs
  unfolding complete
  complete-Follows j lease solution error now s =
      elim (Bool-cases (is_none solution && is_none error)) [
        | inl nothing ↦ rw nothing (Follows-refl now (some lease) s.jobs)
        | inr outcome ↦ rw outcome (
            Follows-update_where now (some lease) (holds j lease now) _
              (λ x hit. finishes x j lease solution error refl hit outcome) s.jobs)
      ]

  insert_job-Follows :
      (now : ℕ) (job : JobRecord W O S) (s : Store W O S)
      → Follows now none s.jobs (insert_job job s).1.jobs
  unfolding insert_job
  insert_job-Follows now job s =
      ground
        (arith, Follows-refl now none s.jobs, Follows-append now none s.jobs (new_row job ∷ []))

  pub enqueue-Follows :
      (now : ℕ) (job : JobRecord W O S) (s : Store W O S)
      → Follows now none s.jobs (enqueue job s).1.jobs
  unfolding enqueue
  enqueue-Follows now job s = insert_job-Follows now _ s

  pub donate-Follows :
      (now j : ℕ) (donation : ValidationDonation) (s : Store W O S)
      → Follows now none s.jobs (donate_validation j donation s).1.jobs
  unfolding donate_validation
  donate-Follows now j donation s =
      let same : (donate_validation j donation s).1.jobs ≡ s.jobs = ground arith in
      rw same (Follows-refl now none s.jobs)

  pub pending-Follows :
      (e : Engine) (limit now : ℕ) (s : Store W O S)
      → Distinct (map (λ r. r.id) s.jobs)
      → Follows now none s.jobs (pending_notifications e limit now s).1.jobs
  unfolding pending_notifications
  pending-Follows e limit now s d = elim (Bool-cases (leb limit i64_max)) [
    | inl fits ↦ rw fits (reclaim_expired-Follows now none s d)
    | inr large ↦ rw large (Follows-refl now none s.jobs)
  ]

pub claim-Follows :
    (f : Float) (e : Engine) {O S : Type 0} (requested : Option ℕ) (lease : Text)
    (lease_seconds now : ℕ) (s : Store f.F O S)
    → Distinct (map (λ r. r.id) s.jobs)
    → Follows now none s.jobs (claim f e requested lease lease_seconds now s).1.jobs
unfolding claim
claim-Follows f e requested lease lease_seconds now s d =
    claim_job-Follows lease lease_seconds now s _ _ (reclaim_expired-Follows now none s d)
