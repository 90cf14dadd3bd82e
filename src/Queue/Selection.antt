-- ===== src/Queue/Selection.antt =====
-- Proofs about `select_candidate` of src/repository.rs.
use mathlib.Core.List.{Memᴰ}
use mathlib.Core.List.Permᴰ
use seiza_server.Base.{
  ℕ, ◌≤◌, ◌<◌, ◌≡◌, refl, ◌⊎◌, inl, inr, true, Option, none, some, List, [], ◌∷◌, arith, ltb,
  Bool-cases, All, All-at, All-map, All-perm, All-of_filter, filter-All, All-Mem, filter,
}
use seiza_server.Queue.Rows.{is_queued, JobRecord, Row, Served, Store, record_from_row}
use seiza_server.Queue.Sql.{Engine, IsEngine, Float}
use seiza_server.Queue.Scheduler.{score, beats, better, best_of, select_candidate}

module _ (f : Float) {O S : Type 0} (now : ℕ) (clients : List Served) where
  -- The job's place in the order of scores.
  abbrev pub rank_of : JobRecord f.F O S → ℕ
  rank_of job = f.total_rank (score f now clients job)

  abbrev AtLeast : JobRecord f.F O S → JobRecord f.F O S → Type 0
  AtLeast best job =
      (rank_of job ≤ rank_of best) × (rank_of job ≡ rank_of best → best.created_at ≤ job.created_at)

  -- A job of a higher score is better, and among equal scores the one that was created first.
  abbrev pub Tops : JobRecord f.F O S → JobRecord f.F O S → Type 0
  Tops best job =
      (rank_of job < rank_of best)
      ⊎ ((rank_of job ≡ rank_of best) × (best.created_at ≤ job.created_at))

  AtLeast-Tops : (best job : JobRecord f.F O S) → AtLeast best job → Tops best job
  AtLeast-Tops best job h = elim (Bool-cases (ltb (rank_of job) (rank_of best))) [
    | inl less ↦ inl (ground arith)
    | inr not_less ↦ inr (let same : rank_of job ≡ rank_of best = ground arith in (same, h.1 same))
  ]

  abbrev TopOf : Option (JobRecord f.F O S) → JobRecord f.F O S → Type 0
  TopOf none job = ⊥
  TopOf (some best) job = AtLeast best job

  better-itself :
      (best : Option (JobRecord f.F O S)) (job : JobRecord f.F O S)
      → TopOf (better f now clients best job) job
  unfolding beats
  better-itself none job = (omega arith, λ h. omega arith)
  better-itself (some best) job = elim (Bool-cases (beats f now clients job best)) [
    | inl wins ↦ rw wins (omega arith, λ h. omega arith)
    | inr loses ↦ rw loses (ground arith, λ h. ground arith)
  ]

  better-keeps :
      (best : Option (JobRecord f.F O S)) (job other : JobRecord f.F O S)
      → TopOf best other
      → TopOf (better f now clients best job) other
  unfolding beats
  better-keeps none job other h = absurd h
  better-keeps (some best) job other h = elim (Bool-cases (beats f now clients job best)) [
    | inl wins ↦ rw wins (ground arith, λ e. ground arith)
    | inr loses ↦ rw loses h
  ]

  best_of-keeps :
      (best : Option (JobRecord f.F O S)) (rows : List (Row f.F O S)) (other : JobRecord f.F O S)
      → TopOf best other
      → TopOf (best_of f now clients best rows) other
  unfolding best_of
  best_of-keeps best [] other h = h
  best_of-keeps best (row ∷ rows) other h =
      best_of-keeps (better f now clients best (record_from_row row)) rows other
        (better-keeps best (record_from_row row) other h)

  best_of-TopOf :
      (best : Option (JobRecord f.F O S)) (rows : List (Row f.F O S))
      → All (λ row. TopOf (best_of f now clients best rows) (record_from_row row)) rows
  unfolding best_of
  best_of-TopOf best [] = tt
  best_of-TopOf best (row ∷ rows) =
      let next = better f now clients best (record_from_row row) in
      (
        best_of-keeps next rows (record_from_row row) (better-itself best (record_from_row row)),
        best_of-TopOf next rows,
      )

  abbrev Keeps : (JobRecord f.F O S → Type 0) → Option (JobRecord f.F O S) → Type 0
  Keeps P none = Unit
  Keeps P (some job) = P job

  best_of-Keeps :
      (P : JobRecord f.F O S → Type 0) (best : Option (JobRecord f.F O S))
      (rows : List (Row f.F O S))
      → Keeps P best
      → All (λ row. P (record_from_row row)) rows
      → Keeps P (best_of f now clients best rows)
  unfolding best_of
  best_of-Keeps P best [] h a = h
  best_of-Keeps P best (row ∷ rows) h a =
      best_of-Keeps P (better f now clients best (record_from_row row)) rows (keep best h) a.1
    where
      keep :
          (b : Option (JobRecord f.F O S))
          → Keeps P b
          → Keeps P (better f now clients b (record_from_row row))
      keep none k = a.0
      keep (some b) k = elim (Bool-cases (beats f now clients (record_from_row row) b)) [
        | inl wins ↦ rw wins a.0
        | inr loses ↦ rw loses k
      ]

module _ (f : Float) {O S : Type 0} where
  -- A job taken from a queued row of the table.
  abbrev pub QueuedIn : Store f.F O S → JobRecord f.F O S → Type 0
  QueuedIn s job =
      (r : Row f.F O S) × Memᴰ r s.jobs × (is_queued r.status ≡ true) × (job ≡ record_from_row r)

  found_best :
      (now : ℕ) (s : Store f.F O S) (answer : Option (JobRecord f.F O S)) (job : JobRecord f.F O S)
      → Keeps f now s.clients (QueuedIn s) answer
      → TopOf f now s.clients answer job
      → (best : JobRecord f.F O S) × (answer ≡ some best)
        × QueuedIn s best
        × Tops f now s.clients best job
  found_best now s none job k h = absurd h
  found_best now s (some best) job k h = (best, refl, k, AtLeast-Tops f now s.clients best job h)

  -- While a job is queued, an unrequested claim has a candidate, whatever order the database gives
  -- ties: a queued job whose score is higher than that job's, or equal and with an age at least as
  -- great.
  pub select_candidate_best :
      (e : Engine) (now : ℕ) (s : Store f.F O S) (row : Row f.F O S)
      → IsEngine e
      → Memᴰ row s.jobs
      → is_queued row.status ≡ true
      → (best : JobRecord f.F O S) × (select_candidate f e none now s ≡ some best)
        × QueuedIn s best
        × Tops f now s.clients best (record_from_row row)
  unfolding select_candidate
  select_candidate_best e now s row law m waits =
      let queue = filter (λ (x : Row f.F O S). is_queued x.status) s.jobs in
      let rows = e.ascending (λ (x : Row f.F O S). x.created_at) queue in
      let perm = law.ascending_perm (Row f.F O S) (λ x. x.created_at) queue in
      let top = λ (x : Row f.F O S).
        TopOf f now s.clients (best_of f now s.clients none rows) (record_from_row x) in
      let sources =
        filter-All (λ x. QueuedIn s (record_from_row x)) (λ x. is_queued x.status) s.jobs
          (All-map (λ x k h. (x, k, h, refl)) s.jobs (All-Mem s.jobs)) in
      found_best now s (best_of f now s.clients none rows) (record_from_row row)
        (best_of-Keeps f now s.clients (QueuedIn s) none rows tt
          (All-perm (λ x. QueuedIn s (record_from_row x)) (Permᴰ.symm perm) sources))
        (All-at (λ x. is_queued x.status ≡ true → top x) m
          (All-of_filter top (λ x. is_queued x.status) s.jobs
            (All-perm top perm (best_of-TopOf f now s.clients none rows)))
          waits)
