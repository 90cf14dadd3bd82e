-- ===== src/Service/Commits.antt =====
-- Proofs about `finalize_resumable` of src/api.rs.
use seiza_server.Base.{
  ℕ, ◌≡◌, ◌≢◌, ◌⊎◌, refl, sym, ap, ◌∙◌, subst, inl, inr, not, ◌==◌, Option, none, some, List, [],
  ◌∷◌, Text, All, Bool-cases,
}
use seiza_server.Queue.Rows.{JobRecord}
use seiza_server.Uploads.Storage.{Bytes, StoredObjectPart, ObjectStore, IsObjectStore, gather}
use seiza_server.Uploads.Keys.{state_key}
use seiza_server.Uploads.Session.{uuid, ResumableUpload, Result, ok, err, Codec, save}
use seiza_server.Uploads.Reading.{read_prefix, compose, done}
use seiza_server.Uploads.Removal.{cleanup_chunks, delete_all}
use seiza_server.Tus.Requests.{Outcome, answer, failed}
use seiza_server.Service.Names.{Uuids}
use seiza_server.Service.World.{Transport, Imaging, World}
use seiza_server.Service.Submission.{enqueue_stored}
use seiza_server.Service.Finalization.{
  Finished, prepared, probed, recorded, enqueued, composed, with_header, unless_committed,
  finalize_resumable,
}
use seiza_server.Service.Inputs.{
  IsComposer, HasJob, Submitted, answer_injective, enqueue_stored-Submitted,
}

module _ (o : ObjectStore) (clean : IsComposer o) where
  get-delete_all :
      (key : Text) (chunks : List StoredObjectPart) (s : o.State)
      → All (λ p. p.key ≢ key) chunks
      → o.get key (delete_all o chunks s) ≡ o.get key s
  unfolding delete_all
  get-delete_all key [] s h = refl
  get-delete_all key (p ∷ ps) s h =
      get-delete_all key ps (o.delete p.key s).1 h.1
      ∙ clean.get-delete_ne p.key key s (λ e. h.0 (sym e))

module _ (o : ObjectStore) {W O S : Type 0} (q : Transport W O S) (codec : Codec W O)
    (s3_prefix : Text) (chunks : List StoredObjectPart) (key id : Text) (contents : Bytes) where
  -- The store is one that has the state of an upload which names the job, after the chunks have been
  -- deleted and this upload has been saved.
  abbrev Saved : ℕ → ResumableUpload W O → o.State → Type 0
  Saved job_id u after =
      (u.id ≡ id)
      × (v : ResumableUpload W O) × (s : o.State) × (v.job_id ≡ some (uuid job_id))
      × (o.get (state_key s3_prefix id) s ≡ some (codec.to_json v))
      × ((save o codec s3_prefix u (delete_all o chunks s)).1 ≡ after)

  -- The call's job is in the queue under the key, its input is these bytes, and the upload names it.
  abbrev pub Commits : Finished o q → Type 0
  Commits f =
      (job : JobRecord W O S)
      → f.0 ≡ answer job
      → HasJob key job.id f.2.queue
        × (o.get key f.2.objects ≡ some contents)
        × (f.1.job_id ≡ some (uuid job.id))
        × (f.1.chunks ≡ [])
        × Saved job.id f.1 f.2.objects

module _ (o : ObjectStore) {W O S : Type 0} (q : Transport W O S) (codec : Codec W O)
    (s3_prefix key id : Text) (contents : Bytes) where
  -- Before the last save, which is of this upload, the stored state names the job. After it the
  -- stored state is this upload's, unless that save failed.
  abbrev pub StateNames : ℕ → ResumableUpload W O → o.State → Type 0
  StateNames job_id u after =
      (v : ResumableUpload W O) × (t : o.State) × (v.job_id ≡ some (uuid job_id))
      × (o.get (state_key s3_prefix id) t ≡ some (codec.to_json v))
      × ((save o codec s3_prefix u t).1 ≡ after)
      × ((o.get (state_key s3_prefix id) after ≡ some (codec.to_json u))
          ⊎ ((save o codec s3_prefix u t).0 ≡ none))

  -- The call's job is in the queue under the key, its input is these bytes, the upload names it and has
  -- no chunks, and so does its state.
  abbrev pub Committed : Finished o q → Type 0
  Committed f =
      (job : JobRecord W O S)
      → f.0 ≡ answer job
      → HasJob key job.id f.2.queue
        × (o.get key f.2.objects ≡ some contents)
        × (f.1.job_id ≡ some (uuid job.id))
        × (f.1.chunks ≡ [])
        × StateNames job.id f.1 f.2.objects

module _ (uuids : Uuids) (o : ObjectStore) {W O S : Type 0} (q : Transport W O S)
    (codec : Codec W O) (imaging : Imaging O) (s3_prefix : Text) (law : IsObjectStore o)
    (clean : IsComposer o) (key id : Text) (contents : Bytes)
    (apart : state_key s3_prefix id ≢ key) where
  get-save :
      (u : ResumableUpload W O) (s : o.State)
      → u.id ≡ id
      → o.get key (save o codec s3_prefix u s).1 ≡ o.get key s
  unfolding save
  get-save u s same =
      law.get-put_ne (state_key s3_prefix u.id) key _ _ s
        (λ e. apart (ap (state_key s3_prefix) (sym same) ∙ sym e))

  state_of :
      (u : ResumableUpload W O) (s : o.State)
      → (save o codec s3_prefix u s).0 ≡ some tt
      → o.get (state_key s3_prefix u.id) (save o codec s3_prefix u s).1 ≡ some (codec.to_json u)
  unfolding save
  state_of u s h = law.get-put (state_key s3_prefix u.id) _ _ s h

  recorded-Commits :
      (job : JobRecord W O S) (u : ResumableUpload W O) (p : Option (Unit {0}) × o.State)
      (w : World o q)
      → u.id ≡ id
      → u.job_id ≡ some (uuid job.id)
      → All (λ c. c.key ≢ key) u.chunks
      → HasJob key job.id w.queue
      → o.get key p.1 ≡ some contents
      → (p.0 ≡ some tt → o.get (state_key s3_prefix u.id) p.1 ≡ some (codec.to_json u))
      → Commits o q codec s3_prefix u.chunks key id contents
          (recorded uuids o q codec imaging s3_prefix job u p w)
  unfolding cleanup_chunks
  recorded-Commits job u (none, s) w same named others has input state = λ j h. cc
  recorded-Commits job u (some x, s) w same named others has input state = λ j h.
      let is_job : job ≡ j = answer_injective job j h in
      (
        subst (λ x. HasJob key x.id w.queue) is_job has,
        get-save (record u { chunks = [] }) (delete_all o u.chunks s) same
            ∙ (get-delete_all o clean key u.chunks s others ∙ input),
        named ∙ ap (λ (x : JobRecord W O S). some (uuid x.id)) is_job,
        refl,
        (
          same,
          u,
          s,
          named ∙ ap (λ (x : JobRecord W O S). some (uuid x.id)) is_job,
          subst (λ i. o.get (state_key s3_prefix i) s ≡ some (codec.to_json u)) same (state refl),
          refl,
        ),
      )

  enqueued-Commits :
      (u : ResumableUpload W O) (w : World o q) (r : Outcome (JobRecord W O S) × World o q)
      → u.id ≡ id
      → All (λ c. c.key ≢ key) u.chunks
      → Submitted uuids key w r
      → o.get key w.objects ≡ some contents
      → Commits o q codec s3_prefix u.chunks key id contents
          (enqueued uuids o q codec imaging s3_prefix u r)
  enqueued-Commits u w (failed e, w') same others sent input = λ j h. cc
  enqueued-Commits u w (answer job, w') same others sent input =
      let (has, objects) = sent job refl in
      let v : ResumableUpload W O = record u { job_id = some (uuid job.id) } in
      recorded-Commits job v (save o codec s3_prefix v w'.objects) w' same refl others has
        (get-save v w'.objects same ∙ (ap (o.get key) objects ∙ input)) (state_of v w'.objects)

  composed-Commits :
      (now : ℕ) (u : ResumableUpload W O) (r : Result (Unit {0}) × o.State) (w : World o q)
      → u.id ≡ id
      → u.object_key ≡ key
      → All (λ c. c.key ≢ key) u.chunks
      → (r.0 ≡ ok tt → o.get key r.1 ≡ some contents)
      → Commits o q codec s3_prefix u.chunks key id contents
          (composed uuids o q codec imaging s3_prefix now u r w)
  composed-Commits now u (err e, s) w same at others input = λ j h. cc
  composed-Commits now u (ok x, s) w same at others input =
      let w' : World o q = record w { objects = s } in
      enqueued-Commits u w' _ same others
        (subst
          (λ k. Submitted uuids k w' (
            enqueue_stored uuids now (record { id = u.owner; queue_weight = u.queue_weight })
              u.object_key u.original_filename u.content_type u.options w'))
          at
          (enqueue_stored-Submitted uuids now
            (record { id = u.owner; queue_weight = u.queue_weight }) u.object_key
            u.original_filename u.content_type u.options w'))
        (input refl)

  get-composed :
      (u : ResumableUpload W O) (s : o.State)
      → u.object_key ≡ key
      → gather o u.chunks s ≡ some contents
      → (compose o u s).0 ≡ ok tt
      → o.get key (compose o u s).1 ≡ some contents
  unfolding compose
  get-composed u s at held = elim (Bool-cases (not (u.offset == u.total_size))) [
    | inl e ↦ rw e (λ h. cc)
    | inr e ↦ rw e (
        by (o.compose u.object_key u.chunks u.content_type s) (λ h.
          ap (λ k. o.get k (o.compose u.object_key u.chunks u.content_type s).1) (sym at)
          ∙ clean.get-compose u.object_key u.chunks u.content_type contents s held h))
  ]
    where
      by :
          (p : Option (Unit {0}) × o.State)
          → (p.0 ≡ some tt → o.get key p.1 ≡ some contents)
          → (done p).0 ≡ ok tt
          → o.get key (done p).1 ≡ some contents
      by (none, t) f h = cc
      by (some x, t) f h = f refl

  with_header-Commits :
      (now : ℕ) (u : ResumableUpload W O) (r : Result Bytes) (w : World o q)
      → u.id ≡ id
      → u.object_key ≡ key
      → All (λ c. c.key ≢ key) u.chunks
      → gather o u.chunks w.objects ≡ some contents
      → Commits o q codec s3_prefix u.chunks key id contents
          (with_header uuids o q codec imaging s3_prefix now u r w)
  unfolding prepared
  with_header-Commits now u (err e) w same at others held = λ j h. cc
  with_header-Commits now u (ok header) w same at others held =
      let v = prepared imaging header u in
      elim (Bool-cases (imaging.is_valid v.options)) [
        | inl e ↦ rw e (
            composed-Commits now v (compose o v w.objects) w same at others
              (get-composed v w.objects at held))
        | inr e ↦ rw e (λ j h. cc)
      ]

  unless_committed-Commits :
      (now : ℕ) (u : ResumableUpload W O) (w : World o q)
      → u.id ≡ id
      → u.object_key ≡ key
      → All (λ c. c.key ≢ key) u.chunks
      → gather o u.chunks w.objects ≡ some contents
      → Commits o q codec s3_prefix u.chunks key id contents
          (unless_committed uuids o q codec imaging s3_prefix now u none w)
  unless_committed-Commits now u w same at others held =
      with_header-Commits now u
        (probed o imaging u w.objects (read_prefix o imaging.fits_header_probe_bytes u w.objects)) w
        same at others held

pub finalize_resumable_lem :
    (uuids : Uuids) (o : ObjectStore) {W O S : Type 0} (q : Transport W O S) (codec : Codec W O)
    (imaging : Imaging O) (s3_prefix : Text) (contents : Bytes) (now : ℕ) (u : ResumableUpload W O)
    (w : World o q)
    → IsObjectStore o
    → IsComposer o
    → state_key s3_prefix u.id ≢ u.object_key
    → All (λ c. c.key ≢ u.object_key) u.chunks
    → u.job_id ≡ none
    → gather o u.chunks w.objects ≡ some contents
    → Commits o q codec s3_prefix u.chunks u.object_key u.id contents
        (finalize_resumable uuids o q codec imaging s3_prefix now u w)
unfolding finalize_resumable
finalize_resumable_lem uuids o q codec imaging s3_prefix contents now u w law clean apart others
      uncommitted held =
    subst
      (λ job_id.
        Commits o q codec s3_prefix u.chunks u.object_key u.id contents
          (unless_committed uuids o q codec imaging s3_prefix now u job_id w))
      (sym uncommitted)
      (unless_committed-Commits uuids o q codec imaging s3_prefix law clean u.object_key u.id
        contents apart now u w refl refl others held)

stored_or_not : (r : Option (Unit {0})) → (r ≡ none) ⊎ (r ≡ some tt)
stored_or_not none = inl refl
stored_or_not (some x) = inr refl

module _ (o : ObjectStore) {W O S : Type 0} (q : Transport W O S) (codec : Codec W O)
    (s3_prefix : Text) (law : IsObjectStore o) (clean : IsComposer o) where
  -- What a save stores, unless it fails.
  last_save :
      (id : Text) (u : ResumableUpload W O) (t after : o.State)
      → u.id ≡ id
      → (save o codec s3_prefix u t).1 ≡ after
      → (o.get (state_key s3_prefix id) after ≡ some (codec.to_json u))
        ⊎ ((save o codec s3_prefix u t).0 ≡ none)
  unfolding save
  last_save id u t after same e = elim (stored_or_not (save o codec s3_prefix u t).0) [
    | inl lost ↦ inr lost
    | inr made ↦ inl (
        subst (λ i. o.get (state_key s3_prefix i) after ≡ some (codec.to_json u)) same
          (subst (λ s. o.get (state_key s3_prefix u.id) s ≡ some (codec.to_json u)) e
            (law.get-put (state_key s3_prefix u.id) _ _ t made)))
  ]

  Commits-Committed :
      (chunks : List StoredObjectPart) (key id : Text) (contents : Bytes) (f : Finished o q)
      → All (λ c. c.key ≢ state_key s3_prefix id) chunks
      → Commits o q codec s3_prefix chunks key id contents f
      → Committed o q codec s3_prefix key id contents f
  Commits-Committed chunks key id contents f others c = λ job h.
      let (has, input, named, empty, saving) = c job h in
      let (same, v, s, names, state, after) = saving in
      let t = delete_all o chunks s in
      let kept = get-delete_all o clean (state_key s3_prefix id) chunks s others ∙ state in
      let last = last_save id f.1 t f.2.objects same after in
      (has, input, named, empty, (v, t, names, kept, after, last))

-- An upload that `finalize_resumable` answers with a job has that job in the queue, under its object
-- key; the object under that key holds the bytes that its chunks held; and the upload names the job
-- and has no chunks left. It is saved so at the end, in a store whose state of the upload names the
-- job already; and unless that last save fails, this upload is the state that is stored. The upload
-- was not committed, its object key is neither that of its state nor that of a chunk, and no chunk
-- has the key of the state.
pub finalize_resumable-Commits :
    (uuids : Uuids) (o : ObjectStore) {W O S : Type 0} (q : Transport W O S) (codec : Codec W O)
    (imaging : Imaging O) (s3_prefix : Text) (contents : Bytes) (now : ℕ) (u : ResumableUpload W O)
    (w : World o q)
    → IsObjectStore o
    → IsComposer o
    → state_key s3_prefix u.id ≢ u.object_key
    → All (λ c. c.key ≢ u.object_key) u.chunks
    → All (λ c. c.key ≢ state_key s3_prefix u.id) u.chunks
    → u.job_id ≡ none
    → gather o u.chunks w.objects ≡ some contents
    → Committed o q codec s3_prefix u.object_key u.id contents
        (finalize_resumable uuids o q codec imaging s3_prefix now u w)
finalize_resumable-Commits uuids o q codec imaging s3_prefix contents now u w law clean apart others
      states uncommitted held =
    Commits-Committed o q codec s3_prefix law clean u.chunks u.object_key u.id contents
      (finalize_resumable uuids o q codec imaging s3_prefix now u w) states
      (finalize_resumable_lem uuids o q codec imaging s3_prefix contents now u w law clean apart
        others uncommitted held)
