-- ===== src/Service/World.antt =====
-- The state behind `AppState` of src/api.rs, and what its methods take from outside.
use seiza_server.Base.{ℕ, ◌+◌, Bool, Option, Text}
use seiza_server.Queue.Rows.{JobRecord, Store}
use seiza_server.Uploads.Storage.{Bytes, ObjectStore}

-- `QueueTransport`: `none` is an error of the queue's client.
pub record Transport (W O S : Type 0) : Type 1 where
  pub State : Type 0
  pub uses_external_queue : Bool
  pub publish : JobRecord W O S → State → Option (Unit {0}) × State

-- Images and options of a solve: `FITS_HEADER_PROBE_BYTES`, `image_header_probe_bytes`,
-- `prepare_solve_options_from_prefix` and whether `SolveOptions::validate` accepts.
pub record Imaging (O : Type 0) : Type 0 where
  pub fits_header_probe_bytes : ℕ
  pub image_header_probe_bytes : Bytes → Text → ℕ
  pub prepare_from_prefix : O → Bytes → Text → ℕ → O
  pub prepare_solve_options : O → Bytes → Text → O
  pub is_valid : O → Bool

-- The objects, the job tables, the transport, and how often the embedded workers were woken.
pub record World (o : ObjectStore) {W O S : Type 0} (q : Transport W O S) : Type 0 where
  pub objects : o.State
  pub queue : Store W O S
  pub sent : q.State
  pub wakeups : ℕ

module _ {o : ObjectStore} {W O S : Type 0} {q : Transport W O S} where
  -- `notify_waiters`.
  abbrev pub notify_waiters : World o q → World o q
  notify_waiters w = record w { wakeups = w.wakeups + 1 }
