-- ===== src/Tus/Handlers.antt =====
-- `resumable_upload_options`, `head_resumable_upload` and `delete_resumable_upload` of src/api/tus.rs. `authenticated` is what
-- `client_from_headers` returns for the request; `to_string` prints a number.
use seiza_server.Base.{ℕ, Bool, true, false, List, [], ◌∷◌, ◌++◌, Text, text}
use seiza_server.Uploads.Storage.{ObjectStore}
use seiza_server.Uploads.Session.{ResumableUpload, Result, ok, err, Codec, load}
use seiza_server.Uploads.Removal.{terminate}
use seiza_server.Tus.Requests.{
  Outcome, answer, failed, and_then, Headers, Client, tus_version, verify_tus_version,
  ensure_upload_owner, mapped, resumable_api_error,
}

abbrev tus_extensions : Text
tus_extensions = text "creation,termination,concatenation"

-- A response: its status and its headers in order.
pub record Response : Type 0 where
  pub status : ℕ
  pub headers : List (Text × Text)

unfoldable pub tus_headers : (ℕ → Text) → ℕ → List (Text × Text)
tus_headers to_string max_upload_bytes =
    (text "tus-resumable", tus_version)
    ∷ (text "tus-version", tus_version)
    ∷ (text "tus-extension", tus_extensions)
    ∷ (text "tus-max-size", to_string max_upload_bytes)
    ∷ []

unfoldable pub resumable_upload_options : (ℕ → Text) → ℕ → Response
unfolding tus_headers
resumable_upload_options to_string max_upload_bytes = record {
  status = 204;
  headers = tus_headers to_string max_upload_bytes;
}

unfoldable pub part_urls : List Text → Text
part_urls [] = []
part_urls (id ∷ []) = text "/api/v1/uploads/" ++ id
part_urls (id ∷ next ∷ ids) =
    text "/api/v1/uploads/" ++ (id ++ (text " " ++ part_urls (next ∷ ids)))

abbrev concat_header : Bool → List Text → List (Text × Text)
concat_header true parts = (text "upload-concat", text "partial") ∷ []
concat_header false [] = []
concat_header false (id ∷ ids) = (text "upload-concat", text "final;" ++ part_urls (id ∷ ids)) ∷ []

module _ (o : ObjectStore) {W O : Type 0} (codec : Codec W O) (to_string : ℕ → Text)
    (max_upload_bytes : ℕ) (prefix : Text) where
  -- The upload that a request names and may see.
  unfoldable pub owned_upload :
      Text → Headers → Outcome (Client W) → o.State → Outcome (ResumableUpload W O)
  unfolding verify_tus_version load ensure_upload_owner mapped
  owned_upload upload_id headers authenticated s = and_then (verify_tus_version headers) (λ _.
      and_then authenticated (λ client.
        and_then (mapped (load o codec prefix upload_id s))
          (λ upload. and_then (ensure_upload_owner upload client) (λ _. answer upload))))

  unfoldable pub head_resumable_upload :
      Text → Headers → Outcome (Client W) → o.State → Outcome Response
  unfolding owned_upload tus_headers part_urls
  head_resumable_upload upload_id headers authenticated s =
      and_then (owned_upload upload_id headers authenticated s) (λ upload. answer (record {
        status = 200;
        headers =
            tus_headers to_string max_upload_bytes
            ++ ((text "upload-offset", to_string upload.offset)
                ∷ (text "upload-length", to_string upload.total_size)
                ∷ (concat_header upload.partial upload.concat_parts
                    ++ (text "cache-control", text "no-store") ∷ []));
      }))

  abbrev pub no_content : Result (Unit {0}) × o.State → Outcome Response × o.State
  no_content (ok _, s) =
      (answer (record { status = 204; headers = tus_headers to_string max_upload_bytes }), s)
  no_content (err e, s) = (failed (resumable_api_error e), s)

  abbrev pub terminated : Outcome (ResumableUpload W O) → o.State → Outcome Response × o.State
  terminated (failed e) s = (failed e, s)
  terminated (answer upload) s = no_content (terminate o prefix upload s)

  unfoldable pub delete_resumable_upload :
      Text → Headers → Outcome (Client W) → o.State → Outcome Response × o.State
  unfolding owned_upload terminate tus_headers
  delete_resumable_upload upload_id headers authenticated s =
      terminated (owned_upload upload_id headers authenticated s) s
