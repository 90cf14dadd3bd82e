-- ===== src/Tus/Creation.antt =====
-- `create_resumable_upload` of src/api/tus.rs. `authenticated` is what `client_from_headers` returns
-- for a writing request, `wait` the rate limiter's answer to the client, `now` the clock, and the
-- three UUIDs are fresh.
use seiza_server.Base.{
  ℕ, Bool, true, false, not, ◌&&◌, ◌||◌, Option, none, some, List, [], ◌∷◌, ◌++◌, map, Text, text,
  text_eq, ltb, ◌==◌, if◌then◌else◌, is_some,
}
use seiza_server.Uploads.Storage.{ObjectStore, sum_checked}
use seiza_server.Uploads.Session.{
  ResumableUpload, Result, ok, err, Codec, new, new_partial, concatenate, load, save,
}
use seiza_server.Uploads.Removal.{delete_state}
use seiza_server.Tus.Requests.{
  Outcome, answer, failed, and_then, bad_request, upload_conflict, payload_too_large, rate_limited,
  failure, Headers, Client, verify_tus_version, checked_upload_length, ensure_upload_owner, mapped,
  resumable_api_error,
}
use seiza_server.Tus.Handlers.{Response, tus_headers}
use seiza_server.Tus.Metadata.{Formats, upload_metadata, parse_concat_part_ids}
use seiza_server.Service.Names.{Uuids, new_object_key, strip_prefix}
use seiza_server.Service.World.{Transport, Imaging, World}
use seiza_server.Service.Finalization.{Finished, finalize_resumable}

abbrev pub unlimited : Option ℕ → Outcome (Unit {0})
unlimited none = answer tt
unlimited (some retry_after) = failed (rate_limited retry_after)

-- Which of the three kinds of upload the `Upload-Concat` header asks for.
pub data Kind : Type 0 where
  whole part unknown : Kind
  final : Text → Kind

unfoldable pub kind : Option Text → Kind
unfolding strip_prefix
kind none = whole
kind (some value) =
    if text_eq value (text "partial")
    then part
    else if is_some (strip_prefix (text "final;") value)
    then final value
    else unknown

module _ (uuids : Uuids) (o : ObjectStore) {W O : Type 0} (codec : Codec W O) (imaging : Imaging O)
    (formats : Formats O) (max_upload_bytes : ℕ) (s3_prefix : Text) where
  -- A complete partial upload of the client that no job has.
  abbrev pub usable_part : Client W → ResumableUpload W O → Outcome (ResumableUpload W O)
  usable_part client upload = and_then (ensure_upload_owner upload client) (λ _.
      if not upload.partial || (not (upload.offset == upload.total_size) || is_some upload.job_id)
      then failed upload_conflict
      else answer upload)

  unfoldable pub usable_parts :
      Client W → List Text → o.State → Outcome (List (ResumableUpload W O))
  unfolding load mapped ensure_upload_owner
  usable_parts client [] s = answer []
  usable_parts client (id ∷ ids) s = and_then (mapped (load o codec s3_prefix id s)) (λ upload.
      and_then (usable_part client upload)
        (λ checked. and_then (usable_parts client ids s) (λ rest. answer (checked ∷ rest))))

  abbrev pub total_within : Option ℕ → Outcome ℕ
  total_within none = failed payload_too_large
  total_within (some total_size) =
      if total_size == 0
      then failed bad_request
      else if ltb max_upload_bytes total_size
      then failed payload_too_large
      else answer total_size

  module _ (id : Text) (now job_id storage_token : ℕ) where
    unfoldable pub new_upload :
        Headers → (Text → Option ℕ) → Option ℕ → Client W → Outcome (ResumableUpload W O)
    unfolding checked_upload_length upload_metadata new_object_key new
    new_upload headers parse wait client = and_then (unlimited wait) (λ _.
        and_then (checked_upload_length parse max_upload_bytes headers) (λ total_size.
          and_then (upload_metadata formats imaging headers)
            (λ (original_filename, content_type, options). answer (
              new id now original_filename content_type total_size
                (new_object_key uuids s3_prefix original_filename job_id storage_token) options
                client.id client.queue_weight))))

    unfoldable pub partial_upload :
        Headers → (Text → Option ℕ) → Client W → Outcome (ResumableUpload W O)
    unfolding checked_upload_length new_partial
    partial_upload headers parse client =
        and_then (checked_upload_length parse max_upload_bytes headers) (λ total_size.
          answer
            (new_partial id now formats.default_options total_size client.id client.queue_weight))

    unfoldable pub final_upload :
        Headers → Option ℕ → Client W → Text → o.State → Outcome (ResumableUpload W O)
    unfolding parse_concat_part_ids usable_parts upload_metadata new_object_key concatenate mapped
    final_upload headers wait client value s = and_then (unlimited wait) (λ _.
        and_then (parse_concat_part_ids formats value) (λ ids.
          and_then (usable_parts client ids s) (λ parts.
            and_then (total_within (sum_checked (some 0) (map (λ p. p.total_size) parts))) (λ _.
              and_then (upload_metadata formats imaging headers)
                (λ (original_filename, content_type, options). mapped (
                  concatenate id now original_filename content_type
                    (new_object_key uuids s3_prefix original_filename job_id storage_token) options
                    client.id client.queue_weight parts))))))

    abbrev pub of_kind :
        Headers
        → (Text → Option ℕ)
        → Option ℕ
        → Client W
        → Kind
        → o.State
        → Outcome (ResumableUpload W O)
    of_kind headers parse wait client whole s = new_upload headers parse wait client
    of_kind headers parse wait client part s = partial_upload headers parse client
    of_kind headers parse wait client unknown s = failed bad_request
    of_kind headers parse wait client (final value) s = final_upload headers wait client value s

    unfoldable pub requested :
        Headers
        → (Text → Option ℕ)
        → Option ℕ
        → Outcome (Client W)
        → o.State
        → Outcome (ResumableUpload W O)
    unfolding verify_tus_version kind new_upload partial_upload final_upload
    requested headers parse wait authenticated s = and_then (verify_tus_version headers) (λ _.
        and_then authenticated
          (λ client. of_kind headers parse wait client (kind (headers (text "upload-concat"))) s))

  module _ {S : Type 0} (q : Transport W O S) (to_string : ℕ → Text) where
    abbrev pub located : ResumableUpload W O → Response
    located upload = record {
      status = 201;
      headers =
          tus_headers to_string max_upload_bytes
          ++ (text "location", text "/api/v1/uploads/" ++ upload.id)
            ∷ (text "upload-offset", to_string upload.offset)
            ∷ [];
    }

    abbrev pub forgotten :
        Result (ResumableUpload W O)
        → World o q
        → (World o q → Outcome (Unit {0}) × World o q)
        → Outcome (Unit {0}) × World o q
    forgotten (err e) w next = (failed (resumable_api_error e), w)
    forgotten (ok upload) w next =
        next (record w { objects = (delete_state o s3_prefix upload w.objects).1 })

    -- The states of the parts are deleted; a deletion that fails is only logged.
    unfoldable pub forget_parts : List Text → World o q → Outcome (Unit {0}) × World o q
    unfolding load delete_state
    forget_parts [] w = (answer tt, w)
    forget_parts (id ∷ ids) w =
        forgotten (load o codec s3_prefix id w.objects) w (λ w'. forget_parts ids w')

    abbrev pub answered :
        ResumableUpload W O → Outcome (Unit {0}) × World o q → Outcome Response × World o q
    answered upload (failed e, w) = (failed e, w)
    answered upload (answer _, w) = (answer (located upload), w)

    abbrev pub concluded : Finished o q → Outcome Response × World o q
    concluded (failed e, upload, w) = (failed e, w)
    concluded (answer job, upload, w) = answered upload (forget_parts upload.concat_parts w)

    abbrev pub has_parts : ResumableUpload W O → Bool
    has_parts upload = not upload.partial && some_part upload.concat_parts
      where
        some_part : List Text → Bool
        some_part [] = false
        some_part (id ∷ ids) = true

    abbrev pub stored_upload :
        ℕ
        → ResumableUpload W O
        → Option (Unit {0}) × o.State
        → World o q
        → Outcome Response × World o q
    stored_upload now upload (none, s) w = (failed failure, record w { objects = s })
    stored_upload now upload (some _, s) w =
        if has_parts upload
        then concluded (
            finalize_resumable uuids o q codec imaging s3_prefix now upload
              (record w { objects = s }))
        else (answer (located upload), record w { objects = s })

    abbrev pub creating :
        ℕ → Outcome (ResumableUpload W O) → World o q → Outcome Response × World o q
    creating now (failed e) w = (failed e, w)
    creating now (answer upload) w =
        stored_upload now upload (save o codec s3_prefix upload w.objects) w

    unfoldable pub create_resumable_upload :
        Text
        → ℕ
        → ℕ
        → ℕ
        → Headers
        → (Text → Option ℕ)
        → Option ℕ
        → Outcome (Client W)
        → World o q
        → Outcome Response × World o q
    unfolding requested save finalize_resumable forget_parts tus_headers
    create_resumable_upload id now job_id storage_token headers parse wait authenticated w =
        creating now
          (requested id now job_id storage_token headers parse wait authenticated w.objects) w
