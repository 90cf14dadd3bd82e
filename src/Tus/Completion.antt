-- ===== src/Tus/Completion.antt =====
-- Proofs about the PATCH of src/api/tus.rs that brings an upload's last bytes.
use seiza_server.Base.{
  ℕ, ◌+◌, ◌≡◌, ◌≢◌, refl, sym, ap, ◌∙◌, subst, inl, inr, Bool, true, false, not, ◌&&◌, Option, none,
  some, List, ◌++◌, arith, Text, text_eq, text_eq→eq, ◌==◌, if◌then◌else◌, is_some, length, All,
  Bool-cases,
}
use seiza_server.Uploads.Storage.{Bytes, StoredObjectPart, ObjectStore, IsObjectStore}
use seiza_server.Uploads.Session.{ResumableUpload, Result, ok, err, Codec, load, append}
use seiza_server.Uploads.Soundness.{IsSound, append_cases, extended, state_put}
use seiza_server.Uploads.Contents.{Holds, extended-Holds}
use seiza_server.Tus.Requests.{
  Outcome, answer, failed, bad_request, and_then, Headers, Client, verify_tus_version,
  ensure_upload_owner, mapped,
}
use seiza_server.Tus.Handlers.{Response}
use seiza_server.Tus.Patching.{after_final, appended, patched, patching, patch_resumable_upload}
use seiza_server.Tus.Access.{OwnedBy, answer_injective}
use seiza_server.Service.Names.{Uuids, new_object_key}
use seiza_server.Service.World.{Transport, Imaging, World}
use seiza_server.Service.Finalization.{Finished}
use seiza_server.Service.Inputs.{IsComposer, HasJob}
use seiza_server.Service.Commits.{Commits, finalize_resumable_lem}
use seiza_server.Service.Apart.{state_key-ne-new_object_key, chunks-ne-new_object_key}

patched_inv :
    {W O : Type 0} (v : Outcome (Unit {0})) (other : Bool) (a : Outcome (Client W)) (n : Outcome ℕ)
    (l : Result (ResumableUpload W O)) (u : ResumableUpload W O) (offset : ℕ)
    → and_then v (λ _.
      if other
      then failed bad_request
      else and_then a (λ client. and_then n (λ m. and_then (mapped l) (λ upload.
        and_then {B = ResumableUpload W O × ℕ}
          (ensure_upload_owner upload client)
          (λ _. answer (upload, m))))))
      ≡ answer (u, offset)
    → (client : Client W) × (a ≡ answer client) × (l ≡ ok u) × (u.owner ≡ client.id)
unfolding ensure_upload_owner mapped
patched_inv (failed e) other a n l u offset h = cc
patched_inv (answer x) true a n l u offset h = cc
patched_inv (answer x) false (failed e) n l u offset h = cc
patched_inv (answer x) false (answer client) (failed e) l u offset h = cc
patched_inv (answer x) false (answer client) (answer m) (err e) u offset h = cc
patched_inv {W = W} {O = O} (answer x) false (answer client) (answer m) (ok upload) u offset h =
    elim (Bool-cases (text_eq upload.owner client.id)) [
      | inl e ↦
          let same : upload ≡ u =
            ap (λ (p : ResumableUpload W O × ℕ). p.0)
              (answer_injective (upload, m) (u, offset) (rw e at h)) in
          (
            client,
            refl,
            ap ok same,
            subst (λ v. v.owner ≡ client.id) same (text_eq→eq upload.owner client.id e),
          )
      | inr e ↦ cc (e, h)
    ]

module _ (o : ObjectStore) {W O S : Type 0} (q : Transport W O S) where
  -- A job is in the queue whose input is these bytes.
  abbrev pub Turned : Text → Bytes → World o q → Type 0
  Turned key contents w = ((id : ℕ) × HasJob key id w.queue) × (o.get key w.objects ≡ some contents)

module _ (uuids : Uuids) (o : ObjectStore) {W O S : Type 0} (q : Transport W O S)
    (codec : Codec W O) (imaging : Imaging O) (to_string : ℕ → Text) (max_upload_bytes : ℕ)
    (s3_prefix : Text) where
  after_final-Turned :
      (chunks : List StoredObjectPart) (key id : Text) (contents : Bytes) (n : ℕ) (f : Finished o q)
      (r : Response)
      → Commits o q codec s3_prefix chunks key id contents f
      → (after_final uuids o q codec imaging to_string max_upload_bytes s3_prefix n f).0 ≡ answer r
      → Turned o q key contents
          (after_final uuids o q codec imaging to_string max_upload_bytes s3_prefix n f).1
  after_final-Turned chunks key id contents n (failed e, u, w) r c h = cc
  after_final-Turned chunks key id contents n (answer job, u, w) r c h =
      let (has, input, named, empty, saving) = c job refl in ((job.id, has), input)

  -- What the rest of the request makes of an append.
  abbrev answered :
      ℕ → World o q → Result ℕ × ResumableUpload W O × o.State → Outcome Response × World o q
  answered now w r = appended uuids o q codec imaging to_string max_upload_bytes s3_prefix now r w

  is_none-job : (u : ResumableUpload W O) → is_some u.job_id ≡ false → u.job_id ≡ none
  is_none-job u = by u.job_id
    where
      by : {A : Type 0} (j : Option A) → is_some j ≡ false → j ≡ none
      by none h = refl
      by (some x) h = cc

  appended-Turned :
      (now offset : ℕ) (body contents : Bytes) (u : ResumableUpload W O) (w : World o q)
      (filename : Text) (job_id token : ℕ) (r : Response)
      → IsObjectStore o
      → IsComposer o
      → IsSound u
      → Holds o s3_prefix u w.objects contents
      → u.partial ≡ false
      → u.offset + length body ≡ u.total_size
      → u.object_key ≡ new_object_key uuids s3_prefix filename job_id token
      → (answered now w (append o codec s3_prefix offset body u w.objects)).0 ≡ answer r
      → Turned o q u.object_key
          (contents ++ body)
          (answered now w (append o codec s3_prefix offset body u w.objects)).1
  appended-Turned now offset body contents u w filename job_id token r law clean sound holds whole
        last at =
      append_cases o codec
        (λ x.
          (answered now w x).0 ≡ answer r
          → Turned o q u.object_key (contents ++ body) (answered now w x).1)
        s3_prefix offset body u w.objects
        (record {
          refused = λ e k m. cc;
          unstored = λ a k m. cc;
          unsaved = λ a k l m. cc;
          taken = λ a k l.
              let held =
                extended-Holds o codec law s3_prefix offset body u w.objects contents sound holds a
                  k in
              let v = extended o codec s3_prefix offset body u in
              let w' : World o q = record w {
                objects = (state_put o codec s3_prefix offset body u w.objects).1;
              } in
              let final : ((offset + length body == u.total_size) && not u.partial) ≡ true =
                ground (arith, a.in_order, last, whole) in
              rw final (
                after_final-Turned v.chunks u.object_key u.id (contents ++ body)
                  (offset + length body) _ r
                  (finalize_resumable_lem uuids o q codec imaging s3_prefix (contents ++ body) now v
                    w' law clean
                    (λ e.
                      state_key-ne-new_object_key uuids s3_prefix filename job_id token u.id
                        (e ∙ at))
                    (subst (λ key. All (λ p. p.key ≢ key) v.chunks) (sym at)
                      (chunks-ne-new_object_key uuids s3_prefix filename job_id token u.id v.offset
                        v.chunks held.own_chunks))
                    (is_none-job u a.unfinished) held.gathered));
        })

  ok_injective : {A : Type 0} (x y : A) → Result.ok x ≡ ok y → x ≡ y
  ok_injective x y h = cc

  -- A PATCH that is answered is one by the client who owns the upload. When its body is the last
  -- that the upload lacks, then after the answer there is a job in the queue for the upload's object
  -- key, and the object under that key is the bytes of the earlier chunks followed by the body. The
  -- stored upload is no partial one, is sound, has its chunks in the store, and its object key is
  -- one that the server makes.
  pub patch_resumable_upload-Turned :
      (now : ℕ) (upload_id : Text) (headers : Headers) (parse : Text → Option ℕ)
      (authenticated : Outcome (Client W)) (body contents : Bytes) (u : ResumableUpload W O)
      (w : World o q) (filename : Text) (job_id token : ℕ) (r : Response)
      → IsObjectStore o
      → IsComposer o
      → load o codec s3_prefix upload_id w.objects ≡ ok u
      → IsSound u
      → Holds o s3_prefix u w.objects contents
      → u.partial ≡ false
      → u.offset + length body ≡ u.total_size
      → u.object_key ≡ new_object_key uuids s3_prefix filename job_id token
      → (patch_resumable_upload uuids o q codec imaging to_string max_upload_bytes s3_prefix now
          upload_id headers parse authenticated body w).0
        ≡ answer r
      → OwnedBy o codec to_string max_upload_bytes s3_prefix upload_id authenticated w.objects
        × Turned o q u.object_key
            (contents ++ body)
            (patch_resumable_upload uuids o q codec imaging to_string max_upload_bytes s3_prefix now
              upload_id headers parse authenticated body w).1
  unfolding patch_resumable_upload patched
  patch_resumable_upload-Turned now upload_id headers parse authenticated body contents u w filename
        job_id token r law clean stored sound holds whole last at =
      by
        (patched uuids o q codec imaging to_string max_upload_bytes s3_prefix upload_id headers
          parse authenticated w)
        (λ v offset e.
          patched_inv (verify_tus_version headers) _ authenticated _
            (load o codec s3_prefix upload_id w.objects) v offset e)
    where
      by :
          (a : Outcome (ResumableUpload W O × ℕ))
          → ((v : ResumableUpload W O) (offset : ℕ)
              → a ≡ answer (v, offset)
              → (client : Client W) × (authenticated ≡ answer client)
                × (load o codec s3_prefix upload_id w.objects ≡ ok v)
                × (v.owner ≡ client.id))
          → (patching uuids o q codec imaging to_string max_upload_bytes s3_prefix now body a w).0
            ≡ answer r
          → OwnedBy o codec to_string max_upload_bytes s3_prefix upload_id authenticated w.objects
            × Turned o q u.object_key
                (contents ++ body)
                (patching uuids o q codec imaging to_string max_upload_bytes s3_prefix now body a
                  w).1
      by (failed e) named h = cc
      by (answer (v, offset)) named h =
          let (client, who, loaded, owns) = named v offset refl in
          let same : u ≡ v = ok_injective u v (sym stored ∙ loaded) in
          (
            (client, v, who, loaded, owns),
            subst
                (λ x.
                  (answered now w (append o codec s3_prefix offset body x w.objects)).0 ≡ answer r
                  → Turned o q u.object_key (contents ++ body)
                      (answered now w (append o codec s3_prefix offset body x w.objects)).1)
                same
                (appended-Turned now offset body contents u w filename job_id token r law clean
                  sound holds whole last at)
                h,
          )
