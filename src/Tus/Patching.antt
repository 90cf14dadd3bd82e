-- ===== src/Tus/Patching.antt =====
-- `patch_resumable_upload` and `get_resumable_upload_result` of src/api/tus.rs over the world of
-- src/api.rs. The lock of the upload makes each one step; `authenticated` and `may_submit` are what
-- `client_from_headers` returns for a reading and for a writing request.
use seiza_server.Base.{
  ℕ, Bool, not, ◌&&◌, Option, none, some, [], ◌∷◌, ◌++◌, Text, text, text_eq, ◌==◌, if◌then◌else◌,
  is_none,
}
use seiza_server.Queue.Rows.{JobRecord}
use seiza_server.Uploads.Storage.{Bytes, ObjectStore}
use seiza_server.Uploads.Session.{ResumableUpload, Result, ok, err, Codec, load, append}
use seiza_server.Tus.Requests.{
  Outcome, answer, failed, and_then, bad_request, artifact_not_ready, Headers, Client,
  verify_tus_version, required_u64_header, ensure_upload_owner, mapped, resumable_api_error,
}
use seiza_server.Tus.Handlers.{Response, tus_headers}
use seiza_server.Service.Names.{Uuids}
use seiza_server.Service.World.{Transport, Imaging, World}
use seiza_server.Service.Finalization.{Finished, finalize_resumable}

abbrev pub chunk_content_type : Text
chunk_content_type = text "application/offset+octet-stream"

abbrev or_empty : Option Text → Text
or_empty none = []
or_empty (some value) = value

-- `append` and `finalize_resumable` with the world in place of the store.
module _ (uuids : Uuids) (o : ObjectStore) {W O S : Type 0} (q : Transport W O S)
    (codec : Codec W O) (imaging : Imaging O) (to_string : ℕ → Text) (max_upload_bytes : ℕ)
    (s3_prefix : Text) where
  abbrev pub accepted : ℕ → World o q → Outcome Response × World o q
  accepted new_offset w = (
    answer (record {
      status = 204;
      headers =
          tus_headers to_string max_upload_bytes
          ++ (text "upload-offset", to_string new_offset) ∷ [];
    }),
    w,
  )

  abbrev pub after_final : ℕ → Finished o q → Outcome Response × World o q
  after_final new_offset (failed e, u, w) = (failed e, w)
  after_final new_offset (answer job, u, w) = accepted new_offset w

  abbrev pub appended :
      ℕ → Result ℕ × ResumableUpload W O × o.State → World o q → Outcome Response × World o q
  appended now (err e, u, s) w = (failed (resumable_api_error e), record w { objects = s })
  appended now (ok new_offset, u, s) w =
      if (new_offset == u.total_size) && not u.partial
      then after_final new_offset
          (finalize_resumable uuids o q codec imaging s3_prefix now u (record w { objects = s }))
      else accepted new_offset (record w { objects = s })

  -- The upload that the request names, may see and writes to at the offset.
  unfoldable pub patched :
      Text
      → Headers
      → (Text → Option ℕ)
      → Outcome (Client W)
      → World o q
      → Outcome (ResumableUpload W O × ℕ)
  unfolding verify_tus_version load ensure_upload_owner mapped required_u64_header
  patched upload_id headers parse authenticated w = and_then (verify_tus_version headers) (λ _.
      if not (text_eq (or_empty (headers (text "content-type"))) chunk_content_type)
      then failed bad_request
      else and_then authenticated (λ client.
        and_then (required_u64_header parse headers (text "upload-offset")) (λ offset.
          and_then (mapped (load o codec s3_prefix upload_id w.objects)) (λ upload.
            and_then (ensure_upload_owner upload client) (λ _. answer (upload, offset))))))

  abbrev pub patching :
      ℕ → Bytes → Outcome (ResumableUpload W O × ℕ) → World o q → Outcome Response × World o q
  patching now body (failed e) w = (failed e, w)
  patching now body (answer (upload, offset)) w =
      appended now (append o codec s3_prefix offset body upload w.objects) w

  unfoldable pub patch_resumable_upload :
      ℕ
      → Text
      → Headers
      → (Text → Option ℕ)
      → Outcome (Client W)
      → Bytes
      → World o q
      → Outcome Response × World o q
  unfolding patched append finalize_resumable tus_headers resumable_api_error
  patch_resumable_upload now upload_id headers parse authenticated body w =
      patching now body (patched upload_id headers parse authenticated w) w

  abbrev pub result_of : Finished o q → Outcome (JobRecord W O S) × World o q
  result_of (r, u, w) = (r, w)

  abbrev pub resulting :
      ℕ → Outcome (ResumableUpload W O) → World o q → Outcome (JobRecord W O S) × World o q
  resulting now (failed e) w = (failed e, w)
  resulting now (answer upload) w =
      result_of (finalize_resumable uuids o q codec imaging s3_prefix now upload w)

  -- A complete upload of the client; one without a job wants the right to submit from an API key.
  unfoldable pub resultable :
      Text
      → Bool
      → Outcome (Client W)
      → Outcome (Client W)
      → World o q
      → Outcome (ResumableUpload W O)
  unfolding load ensure_upload_owner mapped
  resultable upload_id has_api_key authenticated may_submit w = and_then authenticated (λ client.
      and_then (mapped (load o codec s3_prefix upload_id w.objects)) (λ upload.
        and_then (ensure_upload_owner upload client) (λ _.
          if not (upload.offset == upload.total_size)
          then failed artifact_not_ready
          else if is_none upload.job_id && has_api_key
          then and_then may_submit (λ _. answer upload)
          else answer upload)))

  -- The job, before it is written as JSON.
  unfoldable pub get_resumable_upload_result :
      ℕ
      → Text
      → Bool
      → Outcome (Client W)
      → Outcome (Client W)
      → World o q
      → Outcome (JobRecord W O S) × World o q
  unfolding resultable finalize_resumable
  get_resumable_upload_result now upload_id has_api_key authenticated may_submit w =
      resulting now (resultable upload_id has_api_key authenticated may_submit w) w
