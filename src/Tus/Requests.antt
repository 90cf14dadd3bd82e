-- ===== src/Tus/Requests.antt =====
-- The checks on a request that the handlers of src/api/tus.rs share. An error is its kind, without
-- its message. `parse` reads a header's value as text and as a number.
use seiza_server.Base.{ℕ, Option, none, some, Text, text, text_eq, ltb, ◌==◌, if◌then◌else◌}
use seiza_server.Uploads.Session.{
  ResumableUpload, ResumableUploadError, not_found, exceeds_length, completed, internal,
  offset_mismatch, incomplete, Result, ok, err,
}

pub data ApiError : Type 0 where
  bad_request missing upload_conflict artifact_not_ready payload_too_large failure : ApiError
  unauthorized forbidden email_unavailable conflict retry_conflict validation_conflict : ApiError
  gone : ApiError
  rate_limited : ℕ → ApiError

pub data Outcome {ℓ} (A : Type ℓ) : Type ℓ where
  answer : A → Outcome A
  failed : ApiError → Outcome A

abbrev pub and_then : {A B : Type 0} → Outcome A → (A → Outcome B) → Outcome B
and_then (answer a) f = f a
and_then (failed e) f = failed e

-- `HeaderMap::get`.
abbrev pub Headers : Type 0
Headers = Text → Option Text

pub record Client (W : Type 0) : Type 0 where
  pub id : Text
  pub queue_weight : W

abbrev pub tus_version : Text
tus_version = text "1.0.0"

abbrev is_version : Option Text → Outcome (Unit {0})
is_version none = failed bad_request
is_version (some version) = if text_eq version tus_version then answer tt else failed bad_request

unfoldable pub verify_tus_version : Headers → Outcome (Unit {0})
verify_tus_version headers = is_version (headers (text "tus-resumable"))

abbrev read_number : Option ℕ → Outcome ℕ
read_number none = failed bad_request
read_number (some n) = answer n

abbrev read_header : (Text → Option ℕ) → Option Text → Outcome ℕ
read_header parse none = failed bad_request
read_header parse (some value) = read_number (parse value)

unfoldable pub required_u64_header : (Text → Option ℕ) → Headers → Text → Outcome ℕ
required_u64_header parse headers name = read_header parse (headers name)

unfoldable pub checked_upload_length : (Text → Option ℕ) → ℕ → Headers → Outcome ℕ
unfolding required_u64_header
checked_upload_length parse max_upload_bytes headers =
    and_then (required_u64_header parse headers (text "upload-length")) (λ total_size.
      if total_size == 0
      then failed bad_request
      else if ltb max_upload_bytes total_size
      then failed payload_too_large
      else answer total_size)

unfoldable pub ensure_upload_owner :
    {W O : Type 0} → ResumableUpload W O → Client W → Outcome (Unit {0})
ensure_upload_owner upload client =
    if text_eq upload.owner client.id then answer tt else failed missing

unfoldable pub resumable_api_error : ResumableUploadError → ApiError
resumable_api_error not_found = missing
resumable_api_error (offset_mismatch expected actual) = upload_conflict
resumable_api_error exceeds_length = bad_request
resumable_api_error (incomplete offset total) = artifact_not_ready
resumable_api_error completed = upload_conflict
resumable_api_error internal = failure

unfoldable pub mapped : {A : Type 0} → Result A → Outcome A
unfolding resumable_api_error
mapped (ok a) = answer a
mapped (err e) = failed (resumable_api_error e)
