-- ===== src/Tus/Tests.antt =====
-- Requests on one stored upload, one that completes an upload, and one that creates one.
use seiza_server.Base.{
  ℕ, ◌≡◌, refl, true, none, some, [], ◌∷◌, ◌++◌, arith, Text, text, text_eq, if◌then◌else◌,
}
use seiza_server.Queue.Rows.{record_from_row, astrometry_id_for_job}
use seiza_server.Queue.Jobs.{with_donation}
use seiza_server.Uploads.Storage.{ObjectStore, gather}
use seiza_server.Uploads.Keys.{state_key, chunk_key}
use seiza_server.Uploads.Session.{ResumableUpload, ok, Codec, new, load}
use seiza_server.Uploads.Memory.{memory_store, memory_store-IsObjectStore, lookup, range, pieces}
use seiza_server.Uploads.Soundness.{IsSound}
use seiza_server.Uploads.Contents.{Holds}
use seiza_server.Tus.Requests.{
  answer, Headers, Client, tus_version, verify_tus_version, ensure_upload_owner, mapped,
}
use seiza_server.Tus.Handlers.{Response, tus_headers, head_resumable_upload, owned_upload}
use seiza_server.Tus.Metadata.{Formats}
use seiza_server.Tus.Creation.{requested}
use seiza_server.Tus.Created.{Created, requested-Created}
use seiza_server.Tus.Patching.{chunk_content_type, patch_resumable_upload}
use seiza_server.Tus.Completion.{Turned, patch_resumable_upload-Turned}
use seiza_server.Tus.Access.{OwnedBy, head_resumable_upload-OwnedBy}
use seiza_server.Service.Names.{new_object_key}
use seiza_server.Service.World.{World}
use seiza_server.Service.Tests.{
  uuids, memory_store-IsComposer, prefix, m31_key, upload, transport, imaging, world,
}

abbrev kept : ResumableUpload ℕ ℕ
kept = new (text "u1") 0 (text "field.fits") none 5 (text "job") 0 (text "anna") 1

abbrev codec : Codec ℕ ℕ
codec = record { to_json = λ u. []; from_json = λ b. some kept; is_uuid = λ t. true }

-- A store in which every object is there and empty.
abbrev full_store : ObjectStore
full_store = record {
  State = Unit;
  put = λ k c t s. (some tt, s);
  get = λ k s. some [];
  get_range = λ k start count s. some [];
  compose = λ k parts t s. (some tt, s);
  exists = λ k s. some true;
  copy = λ k j t s. (some tt, s);
  delete = λ k s. (some tt, s);
}

abbrev anna : Client ℕ
anna = record { id = text "anna"; queue_weight = 1 }

abbrev headers : Headers
headers = λ name. some tus_version

abbrev printed : ℕ → Text
printed n = n ∷ []

abbrev told : Response
told = record {
  status = 200;
  headers =
      tus_headers printed 9
      ++ (text "upload-offset", printed 0)
        ∷ (text "upload-length", printed 5)
        ∷ (text "cache-control", text "no-store")
        ∷ [];
}

head_resumable_upload-OwnedBy_example :
    OwnedBy full_store codec printed 9 [] (text "u1") (answer anna) tt
head_resumable_upload-OwnedBy_example =
    head_resumable_upload-OwnedBy full_store codec printed 9 [] (text "u1") headers (answer anna) tt
      told
      (unfold head_resumable_upload owned_upload verify_tus_version ensure_upload_owner mapped load
          new text_eq tus_headers in
        refl)

-- The upload of the world in memory before its last two bytes.
abbrev begun_upload : ResumableUpload ℕ ℕ
begun_upload = record upload {
  offset = 1;
  chunks = record { key = chunk_key prefix (text "u1") 0; size = 1 } ∷ [];
}

abbrev reading : Codec ℕ ℕ
reading = record { to_json = λ u. []; from_json = λ b. some begun_upload; is_uuid = λ t. true }

abbrev patch_headers : Headers
patch_headers = λ name.
    if text_eq name (text "tus-resumable")
    then some tus_version
    else if text_eq name (text "content-type")
    then some chunk_content_type
    else some []

abbrev begun_world : World memory_store transport
begun_world = record world {
  objects = (chunk_key prefix (text "u1") 0, 1 ∷ []) ∷ (state_key prefix (text "u1"), []) ∷ [];
}

abbrev accepted_patch : Response
accepted_patch = record {
  status = 204;
  headers = tus_headers printed 9 ++ (text "upload-offset", printed 3) ∷ [];
}

upload_begun-Holds : Holds memory_store prefix begun_upload begun_world.objects (1 ∷ [])
upload_begun-Holds = record {
  own_chunks = ((0, omega arith, refl), tt);
  gathered = unfold gather lookup chunk_key text_eq in refl;
}

patch_resumable_upload-Turned_example :
    OwnedBy memory_store reading printed 9 prefix (text "u1") (answer anna) begun_world.objects
    × Turned memory_store transport m31_key
        (1 ∷ 2 ∷ 3 ∷ [])
        (patch_resumable_upload uuids memory_store transport reading imaging printed 9 prefix 5
          (text "u1")
          patch_headers
          (λ s. some 1)
          (answer anna)
          (2 ∷ 3 ∷ [])
          begun_world).1
patch_resumable_upload-Turned_example =
    patch_resumable_upload-Turned uuids memory_store transport reading imaging printed 9 prefix 5
      (text "u1") patch_headers (λ s. some 1) (answer anna) (2 ∷ 3 ∷ []) (1 ∷ []) begun_upload
      begun_world (text "m31.fits") 7 3 accepted_patch memory_store-IsObjectStore
      memory_store-IsComposer (unfold load lookup state_key chunk_key text_eq in refl)
      (record { chunks_length = refl; in_total = omega arith; u64 = omega arith })
      upload_begun-Holds refl refl refl
      (unfold patch_resumable_upload text_eq lookup pieces range new_object_key chunk_key state_key
          astrometry_id_for_job record_from_row with_donation in
        refl)

abbrev formats : Formats ℕ
formats = record {
  decode_base64 = λ s. some s;
  from_utf8 = λ b. some b;
  uri_path = λ s. some s;
  is_uuid = λ s. true;
  parse_options = λ s. some 0;
  default_options = 0;
}

abbrev post_headers : Headers
post_headers = λ name.
    if text_eq name (text "tus-resumable")
    then some tus_version
    else if text_eq name (text "upload-metadata")
    then some (text "filename m31.fits")
    else if text_eq name (text "upload-length")
    then some []
    else none

none_stored :
    (i : Text) (v : ResumableUpload ℕ ℕ) → load memory_store codec prefix i [] ≡ ok v → IsSound v
unfolding load lookup
none_stored i v h = cc

abbrev posted : ResumableUpload ℕ ℕ
posted =
    new (text "u1") 0 (text "m31.fits") none 5 (new_object_key uuids prefix (text "m31.fits") 7 3) 0
      (text "anna") 1

requested-Created_example : Created uuids 9 prefix 7 3 anna posted
requested-Created_example =
    requested-Created uuids memory_store codec imaging formats 9 prefix (text "u1") 0 7 3
      post_headers (λ s. some 5) none anna [] posted (omega arith) (λ i v h. none_stored i v h)
      (unfold requested text_eq in refl)
