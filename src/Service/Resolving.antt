-- ===== src/Service/Resolving.antt =====
-- `resolve_solve` and `donate_validation_image` of src/api.rs: a completed solve is run again, or its
-- image is given to the validation set. `client` is what `client_from_headers` returns for the
-- writing request, `wait` the rate limiter's answer.
use seiza_server.Base.{
  ℕ, Bool, true, false, not, [], ◌||◌, Option, none, some, Text, text, ltb, if◌then◌else◌, is_some,
  is_none, length,
}
use seiza_server.Queue.Rows.{
  is_terminal, ValidationDonation, JobRecord, input_object_key, Result as QueueResult, ok as stored,
  err as refused, Store,
}
use seiza_server.Queue.Jobs.{get, find_by_object_key, donate_validation}
use seiza_server.Uploads.Storage.{ObjectStore}
use seiza_server.Tus.Requests.{
  Outcome, answer, failed, and_then, bad_request, failure, retry_conflict, validation_conflict,
  gone, Client,
}
use seiza_server.Tus.Metadata.{is_empty}
use seiza_server.Tus.Creation.{unlimited}
use seiza_server.Service.Names.{Uuids, new_object_key, validation_object_key}
use seiza_server.Service.World.{Transport, Imaging, World}
use seiza_server.Service.Submission.{enqueue_stored}
use seiza_server.Service.Finalization.{or_lost}
use seiza_server.Service.Lookups.{public_job, found_job, ensure_input_available}

-- The options that say when and where an image was taken, as `SolveOptions` holds them.
pub record Observed (N : Type 0) : Type 0 where
  pub capture_time : Option ℕ
  pub exposure_seconds : Option N
  pub observer_latitude_deg : Option N
  pub observer_longitude_deg : Option N
  pub observer_altitude_m : Option N
  pub observer_itrf_m : Option (N × N × N)

-- These fields of the options, how they are set, `==` on them, and the options with the source and
-- the keywords of the satellite metadata of others.
pub record Fields (O N : Type 0) : Type 0 where
  pub observed : O → Observed N
  pub with_observed : Observed N → O → O
  pub same_time : Option ℕ → Option ℕ → Bool
  pub same_number : Option N → Option N → Bool
  pub same_place : Option (N × N × N) → Option (N × N × N) → Bool
  pub with_metadata_of : O → O → O

abbrev pub or_previous {ℓ} : {A : Type ℓ} → Option A → Option A → Option A
or_previous none previous = previous
or_previous (some a) previous = some a

module _ {N : Type 0} where
  abbrev pub overrides_observer : Observed N → Bool
  overrides_observer v =
      is_some v.observer_latitude_deg
      || (is_some v.observer_longitude_deg
          || (is_some v.observer_altitude_m || is_some v.observer_itrf_m))

  -- The two ways to say one site are merged as one.
  unfoldable pub merged : Observed N → Observed N → Observed N
  merged v previous =
      let times : Observed N = record v {
        capture_time = or_previous v.capture_time previous.capture_time;
        exposure_seconds = or_previous v.exposure_seconds previous.exposure_seconds;
      } in
      if overrides_observer v then times else record times {
        observer_latitude_deg = previous.observer_latitude_deg;
        observer_longitude_deg = previous.observer_longitude_deg;
        observer_altitude_m = previous.observer_altitude_m;
        observer_itrf_m = previous.observer_itrf_m;
      }

  module _ {O : Type 0} (fields : Fields O N) where
    abbrev pub differs : Observed N → Observed N → Bool
    differs v previous =
        not (fields.same_time v.capture_time previous.capture_time)
        || (not (fields.same_number v.exposure_seconds previous.exposure_seconds)
            || (not (fields.same_number v.observer_latitude_deg previous.observer_latitude_deg)
                || (not
                      (fields.same_number v.observer_longitude_deg previous.observer_longitude_deg)
                    || (not (fields.same_number v.observer_altitude_m previous.observer_altitude_m)
                        || not (fields.same_place v.observer_itrf_m previous.observer_itrf_m)))))

    unfoldable pub merge_resolve_satellite_metadata : O → O → Bool × O
    unfolding merged
    merge_resolve_satellite_metadata options previous =
        let v = merged (fields.observed options) (fields.observed previous) in
        (differs v (fields.observed previous), fields.with_observed v options)

    unfoldable pub resolve_options : Imaging O → O → O → Text → O
    unfolding merge_resolve_satellite_metadata
    resolve_options imaging options previous filename =
        let (overrides, combined) = merge_resolve_satellite_metadata options previous in
        let prepared = imaging.prepare_solve_options combined [] filename in
        if overrides then prepared else fields.with_metadata_of previous prepared

module _ (uuids : Uuids) (parse_u64 : Text → Option ℕ) (o : ObjectStore) {W O S N : Type 0}
    (q : Transport W O S) (imaging : Imaging O) (fields : Fields O N) (s3_prefix : Text)
    (upload_retention_seconds : ℕ) where
  -- `exists` of the store.
  abbrev pub retained : Option Bool → Outcome (Unit {0})
  retained none = failed failure
  retained (some false) = failed gone
  retained (some true) = answer tt

  abbrev pub completed_job : Outcome (Option (JobRecord W O S)) → Outcome (JobRecord W O S)
  completed_job found = and_then found (λ row. found_job uuids parse_u64 row)

  abbrev pub checked_job :
      ℕ
      → Option ℕ
      → O
      → World o q
      → Client W
      → JobRecord W O S
      → Outcome (Client W × JobRecord W O S × O)
  checked_job now wait options w c job =
      if not (is_terminal job.status)
      then failed retry_conflict
      else and_then (ensure_input_available upload_retention_seconds now job) (λ _.
        and_then (retained (o.exists (input_object_key job) w.objects)) (λ _.
          let prepared = resolve_options fields imaging options job.options job.original_filename in
          if imaging.is_valid prepared
          then and_then (unlimited wait) (λ _. answer (c, job, prepared))
          else failed bad_request))

  -- The job to run again, and its options.
  unfoldable pub resolvable :
      ℕ
      → Text
      → Outcome (Client W)
      → Option ℕ
      → O
      → World o q
      → Outcome (Client W × JobRecord W O S × O)
  unfolding public_job ensure_input_available input_object_key resolve_options
  resolvable now public_id client wait options w = and_then client (λ c.
      and_then (completed_job (public_job uuids parse_u64 public_id w.queue))
        (λ job. checked_job now wait options w c job))

  abbrev pub unless_persisted : Text → Option (JobRecord W O S) → World o q → World o q
  unless_persisted object_key (some job) w = w
  unless_persisted object_key none w = record w { objects = (o.delete object_key w.objects).1 }

  -- The copy of a submission that failed is deleted, unless a job has it.
  abbrev pub cleaned :
      Text → Outcome (JobRecord W O S) × World o q → Outcome (JobRecord W O S) × World o q
  cleaned object_key (answer job, w) = (answer job, w)
  cleaned object_key (failed e, w) =
      (failed e, unless_persisted object_key (find_by_object_key object_key w.queue) w)

  abbrev pub copied :
      ℕ
      → Text
      → Client W × JobRecord W O S × O
      → Option (Unit {0}) × o.State
      → World o q
      → Outcome (JobRecord W O S) × World o q
  copied now object_key found (none, s) w = (failed failure, record w { objects = s })
  copied now object_key (c, job, options) (some _, s) w = cleaned object_key (
      enqueue_stored uuids now c object_key job.original_filename job.content_type options
        (record w { objects = s }))

  abbrev pub resolving :
      ℕ
      → ℕ
      → ℕ
      → Outcome (Client W × JobRecord W O S × O)
      → World o q
      → Outcome (JobRecord W O S) × World o q
  resolving now job_id storage_token (failed e) w = (failed e, w)
  resolving now job_id storage_token (answer (c, job, options)) w =
      let object_key = new_object_key uuids s3_prefix job.original_filename job_id storage_token in
      copied now object_key (c, job, options)
        (o.copy (input_object_key job) object_key job.content_type w.objects) w

  unfoldable pub resolve_solve :
      ℕ
      → ℕ
      → ℕ
      → Text
      → Outcome (Client W)
      → Option ℕ
      → O
      → World o q
      → Outcome (JobRecord W O S) × World o q
  unfolding resolvable new_object_key input_object_key enqueue_stored find_by_object_key
  resolve_solve now job_id storage_token public_id client wait options w =
      resolving now job_id storage_token (resolvable now public_id client wait options w) w

pub record ValidationDonationRequest : Type 0 where
  pub comment : Option Text
  pub solve_is_invalid : Bool
  pub license_agreed : Bool

abbrev pub license_version : Text
license_version = text "seiza-validation-image-grant-v2"

abbrev pub max_comment_bytes : ℕ
max_comment_bytes = 2000

-- `trim` is `str::trim`.
module _ (trim : Text → Text) where
  abbrev pub comment_of : Option Text → Option Text
  comment_of none = none
  comment_of (some comment) = if is_empty (trim comment) then none else some (trim comment)

abbrev pub is_long : Option Text → Bool
is_long none = false
is_long (some comment) = ltb max_comment_bytes (length comment)

module _ (uuids : Uuids) (parse_u64 : Text → Option ℕ) (trim : Text → Text) (o : ObjectStore)
    {W O S : Type 0} (q : Transport W O S) (validation_prefix : Text)
    (upload_retention_seconds : ℕ) where
  abbrev pub as_found : Outcome (Option (JobRecord W O S)) → Outcome (JobRecord W O S)
  as_found found = and_then found (λ row. found_job uuids parse_u64 row)

  -- The job whose image may be given.
  unfoldable pub donatable :
      Text → Outcome (Client W) → ValidationDonationRequest → World o q → Outcome (JobRecord W O S)
  unfolding public_job
  donatable public_id client request w = and_then client (λ _.
      if not request.license_agreed
      then failed bad_request
      else if is_long (comment_of trim request.comment)
      then failed bad_request
      else and_then (as_found (public_job uuids parse_u64 public_id w.queue))
          (λ job. if not (is_terminal job.status) then failed validation_conflict else answer job))

  abbrev pub donation_key : JobRecord W O S → Option ValidationDonation → Text
  donation_key job none = validation_object_key uuids validation_prefix job.id job.object_key
  donation_key job (some donation) = donation.object_key

  abbrev pub donation_time : ℕ → Option ValidationDonation → ℕ
  donation_time now none = now
  donation_time now (some donation) = donation.donated_at

  unfoldable pub donation_for : ℕ → ValidationDonationRequest → JobRecord W O S → ValidationDonation
  unfolding validation_object_key
  donation_for now request job = record {
    object_key = donation_key job job.validation_donation;
    comment = comment_of trim request.comment;
    solve_is_invalid = request.solve_is_invalid;
    license_version = license_version;
    donated_at = donation_time now job.validation_donation;
  }

  abbrev pub donation_recorded :
      ℕ → QueueResult Bool × Store W O S → World o q → Outcome (JobRecord W O S) × World o q
  donation_recorded job_id (refused e, s) w = (failed failure, record w { queue = s })
  donation_recorded job_id (stored false, s) w =
      (failed validation_conflict, record w { queue = s })
  donation_recorded job_id (stored true, s) w = (or_lost (get job_id s), record w { queue = s })

  abbrev pub donation_copied :
      JobRecord W O S
      → ValidationDonation
      → Option (Unit {0}) × o.State
      → World o q
      → Outcome (JobRecord W O S) × World o q
  donation_copied job donation (none, s) w = (failed failure, record w { objects = s })
  donation_copied job donation (some _, s) w =
      donation_recorded job.id (donate_validation job.id donation w.queue)
        (record w { objects = s })

  abbrev pub may_copy : ℕ → JobRecord W O S → World o q → Outcome (Unit {0})
  may_copy now job w =
      and_then (ensure_input_available upload_retention_seconds now job)
        (λ _. still_there (o.exists (input_object_key job) w.objects))
    where
      still_there : Option Bool → Outcome (Unit {0})
      still_there none = failed failure
      still_there (some false) = failed gone
      still_there (some true) = answer tt

  abbrev pub first_donation :
      JobRecord W O S
      → ValidationDonation
      → Outcome (Unit {0})
      → World o q
      → Outcome (JobRecord W O S) × World o q
  first_donation job donation (failed e) w = (failed e, w)
  first_donation job donation (answer _) w =
      donation_copied job donation
        (o.copy (input_object_key job) donation.object_key job.content_type w.objects) w

  abbrev pub donating :
      ℕ
      → ValidationDonationRequest
      → Outcome (JobRecord W O S)
      → World o q
      → Outcome (JobRecord W O S) × World o q
  donating now request (failed e) w = (failed e, w)
  donating now request (answer job) w =
      if is_none job.validation_donation
      then first_donation job (donation_for now request job) (may_copy now job w) w
      else donation_recorded job.id
          (donate_validation job.id (donation_for now request job) w.queue) w

  unfoldable pub donate_validation_image :
      ℕ
      → Text
      → Outcome (Client W)
      → ValidationDonationRequest
      → World o q
      → Outcome (JobRecord W O S) × World o q
  unfolding donatable donation_for ensure_input_available input_object_key donate_validation get
  donate_validation_image now public_id client request w =
      donating now request (donatable public_id client request w) w
