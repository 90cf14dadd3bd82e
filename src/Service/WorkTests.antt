-- ===== src/Service/WorkTests.antt =====
-- A leased job, an outbox and a solve that is run again, in memory.
use mathlib.Core.List.{Memᴰ}
use seiza_server.Base.{◌⊎◌, ℕ, refl, true, none, List, [], ◌∷◌, arith, Text, text, text_eq, All}
use seiza_server.Queue.Rows.{JobRecord, JobLease, record_from_row, astrometry_id_for_job}
use seiza_server.Queue.Sorting.{engine, sort, insert}
use seiza_server.Queue.Leases.{reclaim_expired, has_expired, reclaim_all}
use seiza_server.Queue.Jobs.{pending_notifications, pending_rows, with_donation}
use seiza_server.Queue.Tests.{leased, solved_row, store, leased-IsValid}
use seiza_server.Uploads.Memory.{memory_store, lookup}
use seiza_server.Tus.Requests.{answer, Client}
use seiza_server.Service.Names.{new_object_key}
use seiza_server.Service.World.{World}
use seiza_server.Service.Submission.{job_record}
use seiza_server.Service.Workers.{Solved, unsolved, run_embedded_job, dispatch_outbox}
use seiza_server.Service.Dispatched.{
  Ended, Settled, undelivered, run_embedded_job-Ended, dispatch_outbox-Settled,
}
use seiza_server.Service.Resolving.{Fields, resolve_solve}
use seiza_server.Service.Resolved.{Resolved, resolve_solve-Resolved}
use seiza_server.Service.Tests.{uuids, memory_store-IsComposer, prefix, transport, imaging, world}

abbrev leased_world : World memory_store transport
leased_world = record world { queue = store leased }

abbrev lease : JobLease ℕ
lease = record {
  job_id = 7;
  lease_token = text "live";
  lease_expires_at = 100;
  original_filename = text "field.fits";
  options = 0;
}

abbrev no_solution : List ℕ → Text → ℕ → Solved ℕ
no_solution bytes filename options = unsolved (text "no match")

run_embedded_job-Ended_example :
    Ended memory_store transport no_solution (text "unreadable") lease 90 leased (
      run_embedded_job memory_store transport no_solution
        (text "unreadable")
        50
        90
        lease
        leased_world)
run_embedded_job-Ended_example =
    run_embedded_job-Ended memory_store transport no_solution (text "unreadable") 50 90 100 lease
      leased leased_world leased-IsValid refl (unfold text_eq in (refl, refl, omega arith))
      (omega arith) (omega arith)

dispatch_outbox-Settled_example :
    All
      (λ job_id.
        Settled job_id (dispatch_outbox transport engine 50 leased_world).queue
        ⊎ Memᴰ job_id (
            undelivered transport 50 (8 ∷ 9 ∷ []) (record leased_world {
              queue = (pending_notifications engine 100 50 leased_world.queue).1;
            })))
      (8 ∷ 9 ∷ [])
dispatch_outbox-Settled_example =
    dispatch_outbox-Settled transport engine 50 (8 ∷ 9 ∷ []) leased_world (
      unfold pending_notifications reclaim_expired has_expired reclaim_all pending_rows sort
        insert in
      refl)

abbrev solved_world : World memory_store transport
solved_world = record world { queue = store solved_row; objects = (7 ∷ [], 1 ∷ 2 ∷ []) ∷ [] }

abbrev fields : Fields ℕ ℕ
fields = record {
  observed = λ options. record {
    capture_time = none;
    exposure_seconds = none;
    observer_latitude_deg = none;
    observer_longitude_deg = none;
    observer_altitude_m = none;
    observer_itrf_m = none;
  };
  with_observed = λ v options. options;
  same_time = λ a b. true;
  same_number = λ a b. true;
  same_place = λ a b. true;
  with_metadata_of = λ previous options. options;
}

abbrev bob : Client ℕ
bob = record { id = text "bob"; queue_weight = 1 }

abbrev again : JobRecord ℕ ℕ ℕ
again =
    record (job_record 9 50 bob (new_object_key uuids prefix (text "field.fits") 12 3)
      (text "field.fits") none 4) { id = 12; astrometry_id = astrometry_id_for_job 12 }

resolve_solve-Resolved_example :
    (filename : Text) × Resolved uuids
      (λ s. none)
      memory_store
      transport
      imaging
      fields
      prefix
      1000
      (text "1111111")
      (new_object_key uuids prefix filename 12 3)
      solved_world
      again
      (resolve_solve uuids
        (λ s. none)
        memory_store
        transport
        imaging
        fields
        prefix
        1000
        50
        12
        3
        (text "1111111")
        (answer bob)
        none
        4
        solved_world).1
resolve_solve-Resolved_example =
    resolve_solve-Resolved uuids (λ s. none) memory_store transport imaging fields prefix 1000 50 12
      3 (text "1111111") (answer bob) none 4 solved_world again memory_store-IsComposer
      (unfold resolve_solve job_record text_eq lookup new_object_key with_donation record_from_row
          astrometry_id_for_job in
        refl)
