-- ===== src/Service/Lookups.antt =====
-- The jobs behind public ids, and how long their inputs are kept, in src/api.rs.
use seiza_server.Base.{
  ℕ, ◌+◌, ◌*◌, Bool, ◌||◌, Option, none, some, Text, [], ◌∷◌, ltb, ◌==◌, if◌then◌else◌, is_some,
}
use seiza_server.Queue.Rows.{JobRecord, Store, Result as QueueResult, ok as stored, err as refused}
use seiza_server.Queue.Leases.{second}
use seiza_server.Queue.Jobs.{get, get_by_legacy_id}
use seiza_server.Accounts.BrowserSessions.{kept}
use seiza_server.Tus.Requests.{Outcome, answer, failed, missing, gone, failure}
use seiza_server.Service.Names.{Uuids}

abbrev pub front : ℕ → Option (Text × Text) → Option (Text × Text)
front c none = none
front c (some (before, after)) = some (c ∷ before, after)

-- `split_once('-')`.
unfoldable pub split_once : Text → Option (Text × Text)
split_once [] = none
split_once (c ∷ cs) = let rest = split_once cs in if c == b'-' then some ([], cs) else front c rest

abbrev pub both_read : Option ℕ → Option ℕ → Option (ℕ × ℕ)
both_read (some sequence) (some id) = some (sequence, id)
both_read _ _ = none

-- `parse_u64` is `str::parse`.
module _ (uuids : Uuids) (parse_u64 : Text → Option ℕ) where
  abbrev pub legacy_parts : Option (Text × Text) → Option (ℕ × ℕ)
  legacy_parts none = none
  legacy_parts (some (sequence, token)) = both_read (parse_u64 sequence) (uuids.parse_str token)

  unfoldable pub legacy_public_job_id : Text → Option (ℕ × ℕ)
  unfolding split_once
  legacy_public_job_id public_id = legacy_parts (split_once public_id)

  module _ {W O S : Type 0} where
    abbrev pub of_legacy :
        ℕ → QueueResult (Option (JobRecord W O S)) → Outcome (Option (JobRecord W O S))
    of_legacy job_id (refused e) = failed failure
    of_legacy job_id (stored job) = answer (kept (λ (j : JobRecord W O S). j.id == job_id) job)

    abbrev pub by_legacy_id : Option (ℕ × ℕ) → Store W O S → Outcome (Option (JobRecord W O S))
    by_legacy_id none s = answer none
    by_legacy_id (some (legacy_id, job_id)) s = of_legacy job_id (get_by_legacy_id legacy_id s)

    abbrev pub by_public_id : Text → Option ℕ → Store W O S → Outcome (Option (JobRecord W O S))
    by_public_id public_id none s = by_legacy_id (legacy_public_job_id public_id) s
    by_public_id public_id (some job_id) s = answer (get job_id s)

    unfoldable pub public_job : Text → Store W O S → Outcome (Option (JobRecord W O S))
    unfolding legacy_public_job_id get get_by_legacy_id
    public_job public_id s = by_public_id public_id (uuids.parse_str public_id) s

    -- `ok_or_else(ApiError::not_found)`.
    abbrev pub found_job : Option (JobRecord W O S) → Outcome (JobRecord W O S)
    found_job none = failed missing
    found_job (some job) = answer job

module _ {W O S : Type 0} (upload_retention_seconds : ℕ) where
  -- The retention is below 2^63 seconds.
  unfoldable pub input_expires_at : JobRecord W O S → ℕ
  input_expires_at job = job.created_at + upload_retention_seconds * second

  unfoldable pub input_available : ℕ → JobRecord W O S → Bool
  unfolding input_expires_at
  input_available now job = is_some job.validation_donation || ltb now (input_expires_at job)

  unfoldable pub ensure_input_available : ℕ → JobRecord W O S → Outcome (Unit {0})
  unfolding input_available
  ensure_input_available now job = if input_available now job then answer tt else failed gone
