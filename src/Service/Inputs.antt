-- ===== src/Service/Inputs.antt =====
-- Lemmas on `enqueue_stored` of src/api.rs and on the jobs' inputs.
use seiza_server.Base.{
  ℕ, ◌≡◌, ◌≢◌, refl, sym, ap, ◌∙◌, inl, inr, Option, none, some, List, arith, Text, text_eq, find,
  Bool-cases,
}
use seiza_server.Queue.Rows.{
  JobRecord, Row, Store, Result as QueueResult, ok as stored, err as refused, record_from_row,
  is_queued,
}
use seiza_server.Queue.Jobs.{
  find_by_object_key, with_donation, enqueue, mark_notification_delivered,
}
use seiza_server.Queue.Lookups.{inserted_row, stamped, fits_column}
use seiza_server.Uploads.Storage.{Bytes, StoredObjectPart, ObjectStore, gather}
use seiza_server.Tus.Requests.{Outcome, answer, Client}
use seiza_server.Service.Names.{Uuids, job_id_from_object_key}
use seiza_server.Service.World.{Transport, World}
use seiza_server.Service.Submission.{
  job_record, woken, acknowledged, announce, inserted, with_id, unless_found, enqueue_stored,
}

-- What is relied on: an object composed of parts that are as long as recorded is those parts, one
-- behind the other, a copy has the bytes of its source, and neither a copy nor a deletion changes
-- other objects.
pub record IsComposer (o : ObjectStore) : Type 0 where
  pub get-compose :
      (k : Text) (parts : List StoredObjectPart) (t : Option Text) (c : Bytes) (s : o.State)
      → gather o parts s ≡ some c
      → (o.compose k parts t s).0 ≡ some tt
      → o.get k (o.compose k parts t s).1 ≡ some c
  pub get-copy :
      (k j : Text) (t : Option Text) (c : Bytes) (s : o.State)
      → o.get k s ≡ some c
      → (o.copy k j t s).0 ≡ some tt
      → o.get j (o.copy k j t s).1 ≡ some c
  pub get-copy_ne :
      (k j i : Text) (t : Option Text) (s : o.State)
      → i ≢ j
      → o.get i (o.copy k j t s).1 ≡ o.get i s
  pub get-delete_ne : (k j : Text) (s : o.State) → j ≢ k → o.get j (o.delete k s).1 ≡ o.get j s

pub answer_injective : {A : Type 0} (x y : A) → answer x ≡ answer y → x ≡ y
answer_injective x y h = cc

module _ {W O S : Type 0} where
  -- The queue's job with that input has that id.
  abbrev pub HasJob : Text → ℕ → Store W O S → Type 0
  HasJob key job_id s =
      (r : Row W O S) × (find (λ row. text_eq row.object_key key) s.jobs ≡ some r) × (r.id ≡ job_id)

  enqueue-HasJob :
      (job made : JobRecord W O S) (s : Store W O S)
      → (enqueue job s).0 ≡ stored made
      → HasJob job.object_key made.id (enqueue job s).1
  unfolding enqueue
  enqueue-HasJob job made s h =
      let (r, found, e) = inserted_row (stamped job) made s (fits_column job.id) h in
      (r, found, sym e)

  with_donation_inv :
      (s : Store W O S) (row : Option (Row W O S)) (job : JobRecord W O S)
      → with_donation s row ≡ some job
      → (r : Row W O S) × (row ≡ some r) × (r.id ≡ job.id)
  unfolding with_donation record_from_row
  with_donation_inv s none job h = cc
  with_donation_inv s (some r) job h = (r, refl, ground (arith, h))

module _ (uuids : Uuids) {o : ObjectStore} {W O S : Type 0} {q : Transport W O S} where
  announce_lem :
      (now : ℕ) (job : JobRecord W O S) (w : World o q)
      → ((announce uuids now job w).queue.jobs ≡ w.queue.jobs)
        × ((announce uuids now job w).objects ≡ w.objects)
  unfolding announce mark_notification_delivered
  announce_lem now job w = elim (Bool-cases q.uses_external_queue) [
    | inl e ↦ rw e (sent (q.publish job w.sent))
    | inr e ↦ rw e (refl, refl)
  ]
    where
      sent :
          (p : Option (Unit {0}) × q.State)
          → ((acknowledged uuids now job p w).queue.jobs ≡ w.queue.jobs)
            × ((acknowledged uuids now job p w).objects ≡ w.objects)
      sent (none, s) = (refl, refl)
      sent (some x, s) = (refl, refl)

  woken_lem :
      (job : JobRecord W O S) (w : World o q)
      → ((woken uuids job w).queue ≡ w.queue) × ((woken uuids job w).objects ≡ w.objects)
  woken_lem job w = elim (Bool-cases (is_queued job.status)) [
    | inl e ↦ rw e (refl, refl)
    | inr e ↦ rw e (refl, refl)
  ]

  -- The job is in the queue after the call, and the objects are as they were.
  abbrev pub Submitted : Text → World o q → Outcome (JobRecord W O S) × World o q → Type 0
  Submitted key w answered =
      (job : JobRecord W O S)
      → answered.0 ≡ answer job
      → HasJob key job.id answered.1.queue × (answered.1.objects ≡ w.objects)

  inserted-Submitted :
      (now : ℕ) (job : JobRecord W O S) (w : World o q)
      → Submitted job.object_key w (inserted uuids now (enqueue job w.queue) w)
  inserted-Submitted now job w =
      by (enqueue job w.queue) (λ made h. enqueue-HasJob job made w.queue h)
    where
      by :
          (r : QueueResult (JobRecord W O S) × Store W O S)
          → ((made : JobRecord W O S) → r.0 ≡ stored made → HasJob job.object_key made.id r.1)
          → Submitted job.object_key w (inserted uuids now r w)
      by (refused e, s) has = λ j h. cc
      by (stored made, s) has = λ j h.
          let same : made ≡ j = answer_injective made j h in
          let w' : World o q = record w { queue = s } in
          let told = announce_lem now made (woken uuids made w') in
          let rested = woken_lem made w' in
          let (r, found, e) = has made refl in
          (
            (r, rw (told.0 ∙ ap (λ x. x.jobs) rested.0) found, e ∙ ap (λ x. x.id) same),
            told.1 ∙ rested.1,
          )

  pub enqueue_stored-Submitted :
      (now : ℕ) (client : Client W) (key filename : Text) (content_type : Option Text) (options : O)
      (w : World o q)
      → Submitted key w (enqueue_stored uuids now client key filename content_type options w)
  unfolding enqueue_stored find_by_object_key
  enqueue_stored-Submitted now client key filename content_type options w =
      by (find_by_object_key key w.queue) refl
    where
      made :
          (id : Option ℕ)
          → Submitted key w (with_id uuids now client key filename content_type options id w)
      made none = λ job h. cc
      made (some id) =
          unfold job_record in
          inserted-Submitted now (job_record id now client key filename content_type options) w

      by :
          (found : Option (JobRecord W O S))
          → find_by_object_key key w.queue ≡ found
          → Submitted key w
              (unless_found uuids now client key filename content_type options found w)
      by none e = made (job_id_from_object_key uuids key)
      by (some old) e = λ job h.
          let (r, f, i) =
            with_donation_inv w.queue (find (λ row. text_eq row.object_key key) w.queue.jobs) old
              e in
          let rested = woken_lem old w in
          (
            (r, rw (ap (λ x. x.jobs) rested.0) f, i ∙ ap (λ x. x.id) (answer_injective old job h)),
            rested.1,
          )
