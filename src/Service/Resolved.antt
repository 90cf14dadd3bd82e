-- ===== src/Service/Resolved.antt =====
-- Proofs about `resolve_solve` of src/api.rs.
use seiza_server.Base.{
  ℕ, ◌≡◌, ◌≢◌, refl, ap, ◌∙◌, subst, inl, inr, true, not, Option, none, some, arith, Text,
  if◌then◌else◌, Bool-cases,
}
use seiza_server.Queue.Rows.{is_terminal, JobRecord, input_object_key}
use seiza_server.Uploads.Storage.{Bytes, ObjectStore}
use seiza_server.Tus.Requests.{Outcome, answer, failed, and_then, bad_request, Client}
use seiza_server.Tus.Access.{and_then_inv, answer_injective}
use seiza_server.Tus.Creation.{unlimited}
use seiza_server.Service.Names.{Uuids, new_object_key}
use seiza_server.Service.World.{Transport, Imaging, World}
use seiza_server.Service.Inputs.{IsComposer, HasJob, Submitted, enqueue_stored-Submitted}
use seiza_server.Service.Lookups.{public_job, ensure_input_available}
use seiza_server.Service.Resolving.{
  Fields, resolve_options, retained, completed_job, checked_job, resolvable, cleaned, copied,
  resolving, resolve_solve,
}

module _ (uuids : Uuids) (parse_u64 : Text → Option ℕ) (o : ObjectStore) {W O S N : Type 0}
    (q : Transport W O S) (imaging : Imaging O) (fields : Fields O N) (s3_prefix : Text)
    (upload_retention_seconds : ℕ) where
  -- The completed job that is run again. The new one is in the queue under a key whose object has
  -- the bytes of the old input, and every other object is as it was.
  pub record Resolved (public_id key : Text) (w : World o q) (job : JobRecord W O S)
      (w' : World o q) : Type 0 where
    pub previous : JobRecord W O S
    pub found : public_job uuids parse_u64 public_id w.queue ≡ answer (some previous)
    pub completed : is_terminal previous.status ≡ true
    pub in_queue : HasJob key job.id w'.queue
    pub input :
        (c : Bytes)
        → o.get (input_object_key previous) w.objects ≡ some c
        → o.get key w'.objects ≡ some c
    pub others : (k : Text) → k ≢ key → o.get k w'.objects ≡ o.get k w.objects

  found_job_inv :
      (found : Outcome (Option (JobRecord W O S))) (job : JobRecord W O S)
      → completed_job uuids parse_u64 o q imaging fields s3_prefix upload_retention_seconds found
        ≡ answer job
      → found ≡ answer (some job)
  found_job_inv (failed e) job h = cc
  found_job_inv (answer none) job h = cc
  found_job_inv (answer (some x)) job h = ap (λ y. answer (some y)) (answer_injective x job h)

  checked_job_inv :
      (now : ℕ) (wait : Option ℕ) (options : O) (w : World o q) (c d : Client W)
      (x job : JobRecord W O S) (prepared : O)
      → checked_job uuids parse_u64 o q imaging fields s3_prefix upload_retention_seconds now wait
          options w c x
        ≡ answer (d, job, prepared)
      → (x ≡ job) × (is_terminal x.status ≡ true)
  checked_job_inv now wait options w c d x job prepared =
      elim (Bool-cases (not (is_terminal x.status))) [
        | inl e ↦ rw e (λ h. cc)
        | inr e ↦ rw e (λ h.
            let (_, _, h1) =
              and_then_inv (ensure_input_available upload_retention_seconds now x) _
                (d, job, prepared) h in
            let (_, _, h2) =
              and_then_inv
                (retained uuids parse_u64 o q imaging fields s3_prefix upload_retention_seconds
                  (o.exists (input_object_key x) w.objects))
                _ (d, job, prepared) h1 in
            (by h2, ground (arith, e)))
      ]
    where
      by :
          (if imaging.is_valid
                (resolve_options fields imaging options x.options x.original_filename)
              then and_then {B = Client W × JobRecord W O S × O} (unlimited wait) (λ _.
                answer (c, x, resolve_options fields imaging options x.options x.original_filename))
              else failed bad_request)
            ≡ answer (d, job, prepared)
          → x ≡ job
      by =
          elim (Bool-cases (
            imaging.is_valid
              (resolve_options fields imaging options x.options x.original_filename))) [
                | inl f ↦ rw f (λ h.
                    let (_, _, k) = and_then_inv (unlimited wait) _ (d, job, prepared) h in
                    ap (λ (p : Client W × JobRecord W O S × O). p.1) (answer_injective _ _ k))
                | inr f ↦ rw f (λ h. cc)
              ]

  resolvable_inv :
      (now : ℕ) (public_id : Text) (client : Outcome (Client W)) (wait : Option ℕ) (options : O)
      (w : World o q) (c : Client W) (job : JobRecord W O S) (prepared : O)
      → resolvable uuids parse_u64 o q imaging fields s3_prefix upload_retention_seconds now
          public_id client wait options w
        ≡ answer (c, job, prepared)
      → (public_job uuids parse_u64 public_id w.queue ≡ answer (some job))
        × (is_terminal job.status ≡ true)
  unfolding resolvable
  resolvable_inv now public_id client wait options w c job prepared h =
      let (d, _, h1) = and_then_inv client _ (c, job, prepared) h in
      let (x, found, h2) =
        and_then_inv
          (completed_job uuids parse_u64 o q imaging fields s3_prefix upload_retention_seconds
            (public_job uuids parse_u64 public_id w.queue))
          _ (c, job, prepared) h1 in
      let (same, completed) = checked_job_inv now wait options w d c x job prepared h2 in
      (
        found_job_inv (public_job uuids parse_u64 public_id w.queue) x found
            ∙ ap (λ y. answer (some y)) same,
        subst (λ (y : JobRecord W O S). is_terminal y.status ≡ true) same completed,
      )

  cleaned_inv :
      (key : Text) (w : World o q) (r : Outcome (JobRecord W O S) × World o q)
      (job : JobRecord W O S)
      → Submitted uuids key w r
      → (cleaned uuids parse_u64 o q imaging fields s3_prefix upload_retention_seconds key r).0
        ≡ answer job
      → HasJob key job.id
          (cleaned uuids parse_u64 o q imaging fields s3_prefix upload_retention_seconds key
            r).1.queue
        × ((cleaned uuids parse_u64 o q imaging fields s3_prefix upload_retention_seconds key
              r).1.objects
            ≡ w.objects)
  cleaned_inv key w (failed e, w') job sent h = cc
  cleaned_inv key w (answer x, w') job sent h = sent job h

  copied_inv :
      (now : ℕ) (key : Text) (c : Client W) (old : JobRecord W O S) (options : O)
      (p : Option (Unit {0}) × o.State) (w : World o q) (job : JobRecord W O S)
      → (copied uuids parse_u64 o q imaging fields s3_prefix upload_retention_seconds now key
          (c, old, options)
          p
          w).0
        ≡ answer job
      → (p.0 ≡ some tt)
        × (HasJob key job.id
              (copied uuids parse_u64 o q imaging fields s3_prefix upload_retention_seconds now key
                (c, old, options)
                p
                w).1.queue
            × ((copied uuids parse_u64 o q imaging fields s3_prefix upload_retention_seconds now key
                  (c, old, options)
                  p
                  w).1.objects
                ≡ p.1))
  copied_inv now key c old options (none, s) w job h = cc
  copied_inv now key c old options (some x, s) w job h = (
    refl,
    cleaned_inv key (record w { objects = s }) _ job
        (enqueue_stored-Submitted uuids now c key old.original_filename old.content_type options
          (record w { objects = s }))
        h,
  )

  resolving_inv :
      (clean : IsComposer o) (now job_id token : ℕ) (public_id : Text)
      (found : Outcome (Client W × JobRecord W O S × O)) (w : World o q) (job : JobRecord W O S)
      → ((c : Client W) (old : JobRecord W O S) (prepared : O)
          → found ≡ answer (c, old, prepared)
          → (public_job uuids parse_u64 public_id w.queue ≡ answer (some old))
            × (is_terminal old.status ≡ true))
      → (resolving uuids parse_u64 o q imaging fields s3_prefix upload_retention_seconds now job_id
          token found w).0
        ≡ answer job
      → (filename : Text) × Resolved public_id
          (new_object_key uuids s3_prefix filename job_id token)
          w
          job
          (resolving uuids parse_u64 o q imaging fields s3_prefix upload_retention_seconds now
            job_id token found w).1
  resolving_inv clean now job_id token public_id (failed e) w job was h = cc
  resolving_inv clean now job_id token public_id (answer (c, old, options)) w job was h =
      let key = new_object_key uuids s3_prefix old.original_filename job_id token in
      let (found, completed) = was c old options refl in
      let (stored, (has, objects)) =
        copied_inv now key c old options
          (o.copy (input_object_key old) key old.content_type w.objects) w job h in
      (
        old.original_filename,
        record {
          previous = old;
          found = found;
          completed = completed;
          in_queue = has;
          input = λ bytes e.
              ap (o.get key) objects
              ∙ clean.get-copy (input_object_key old) key old.content_type bytes w.objects e stored;
          others = λ k ne.
              ap (o.get k) objects
              ∙ clean.get-copy_ne (input_object_key old) key k old.content_type w.objects ne;
        },
      )

-- A re-solve that is answered with a job is of a completed job under the public id. The new job is in
-- the queue under a key that the server makes, the object under that key has the bytes of the old
-- job's input, and every other object is as it was.
pub resolve_solve-Resolved :
    (uuids : Uuids) (parse_u64 : Text → Option ℕ) (o : ObjectStore) {W O S N : Type 0}
    (q : Transport W O S) (imaging : Imaging O) (fields : Fields O N) (s3_prefix : Text)
    (upload_retention_seconds now job_id token : ℕ) (public_id : Text) (client : Outcome (Client W))
    (wait : Option ℕ) (options : O) (w : World o q) (job : JobRecord W O S)
    → IsComposer o
    → (resolve_solve uuids parse_u64 o q imaging fields s3_prefix upload_retention_seconds now
        job_id token public_id client wait options w).0
      ≡ answer job
    → (filename : Text) × Resolved uuids parse_u64 o q imaging fields s3_prefix
        upload_retention_seconds public_id
        (new_object_key uuids s3_prefix filename job_id token)
        w
        job
        (resolve_solve uuids parse_u64 o q imaging fields s3_prefix upload_retention_seconds now
          job_id token public_id client wait options w).1
unfolding resolve_solve
resolve_solve-Resolved uuids parse_u64 o q imaging fields s3_prefix upload_retention_seconds now
      job_id token public_id client wait options w job clean h =
    resolving_inv uuids parse_u64 o q imaging fields s3_prefix upload_retention_seconds clean now
      job_id token public_id
      (resolvable uuids parse_u64 o q imaging fields s3_prefix upload_retention_seconds now
        public_id client wait options w)
      w job
      (λ c old prepared e.
        resolvable_inv uuids parse_u64 o q imaging fields s3_prefix upload_retention_seconds now
          public_id client wait options w c old prepared e)
      h
