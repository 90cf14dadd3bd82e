-- ===== src/Queue/Scheduler.antt =====
-- The choice of the next job: `last_served` and `select_candidate` of src/repository.rs.
use seiza_server.Base.{
  ℕ, Bool, ◌&&◌, ◌||◌, Option, none, some, List, [], ◌∷◌, Text, text_eq, ltb, ◌==◌, if◌then◌else◌,
  filter, find,
}
use seiza_server.Queue.Rows.{is_queued, JobRecord, Row, Served, Store, record_from_row}
use seiza_server.Queue.Sql.{Engine, Float, num_milliseconds}

abbrev pub served_at : Option Served → Option ℕ
served_at none = none
served_at (some row) = some row.last_served_at

unfoldable pub last_served : List Served → Text → Option ℕ
last_served clients owner = served_at (find (λ row. text_eq row.owner owner) clients)

module _ (f : Float) where
  -- Seconds since the owner was last served, times the queue weight.
  abbrev pub waited : ℕ → f.F → Option ℕ → f.F
  waited now weight (some last) =
      f.mul (f.div (f.of_i64 (num_milliseconds now last)) f.thousand) (f.max_of weight f.hundredth)
  waited now weight none = f.quarter_max

  module _ {O S : Type 0} where
    unfoldable pub score : ℕ → List Served → JobRecord f.F O S → f.F
    score now clients job = waited now job.queue_weight (last_served clients job.owner)

    -- The closure that `best.as_ref().is_none_or` is given.
    unfoldable pub beats : ℕ → List Served → JobRecord f.F O S → JobRecord f.F O S → Bool
    unfolding score
    beats now clients job best =
        let rank = f.total_rank (score now clients job) in
        let best_rank = f.total_rank (score now clients best) in
        ltb best_rank rank || ((rank == best_rank) && ltb job.created_at best.created_at)

    abbrev pub better :
        ℕ
        → List Served
        → Option (JobRecord f.F O S)
        → JobRecord f.F O S
        → Option (JobRecord f.F O S)
    better now clients none job = some job
    better now clients (some best) job = if beats now clients job best then some job else some best

    unfoldable pub best_of :
        ℕ
        → List Served
        → Option (JobRecord f.F O S)
        → List (Row f.F O S)
        → Option (JobRecord f.F O S)
    best_of now clients best [] = best
    best_of now clients best (row ∷ rows) =
        best_of now clients (better now clients best (record_from_row row)) rows

    abbrev pub requested : Option (Row f.F O S) → Option (JobRecord f.F O S)
    requested none = none
    requested (some row) = some (record_from_row row)

    unfoldable pub select_candidate :
        Engine → Option ℕ → ℕ → Store f.F O S → Option (JobRecord f.F O S)
    select_candidate e (some job_id) now s =
        requested (find (λ row. (row.id == job_id) && is_queued row.status) s.jobs)
    select_candidate e none now s =
        best_of now s.clients none
          (e.ascending (λ row. row.created_at) (filter (λ row. is_queued row.status) s.jobs))
