-- ===== src/Uploads/Session.antt =====
-- `ResumableUpload` of src/uploads.rs. A method takes the upload and the store and returns its
-- result with both as they are after it, on an error too. `W` and `O` stand for the queue weight and
-- the solve options, which an upload carries unread; a `usize` has 64 bits.
use seiza_server.Base.{
  ℕ, Bool, true, false, not, ◌&&◌, ◌||◌, Option, none, some, List, [], ◌∷◌, ◌++◌, map, Text, text,
  ltb, leb, ◌==◌, if◌then◌else◌, is_some, length,
}
use seiza_server.Uploads.Storage.{Bytes, StoredObjectPart, ObjectStore, checked_add, sum_checked}
use seiza_server.Uploads.Keys.{state_key, chunk_key}

pub data PersistedJobId : Type 0 where
  uuid legacy : ℕ → PersistedJobId

pub data ResumableUploadError : Type 0 where
  not_found exceeds_length completed internal : ResumableUploadError
  offset_mismatch : ℕ → ℕ → ResumableUploadError
  incomplete : ℕ → ℕ → ResumableUploadError

pub data Result {ℓ} (A : Type ℓ) : Type ℓ where
  ok : A → Result A
  err : ResumableUploadError → Result A

pub record ResumableUpload (W O : Type 0) : Type 0 where
  pub id : Text
  pub original_filename : Text
  pub content_type : Option Text
  pub total_size : ℕ
  pub offset : ℕ
  pub object_key : Text
  pub options : O
  pub owner : Text
  pub queue_weight : W
  pub created_at : ℕ
  pub job_id : Option PersistedJobId
  pub partial : Bool
  pub concat_parts : List Text
  pub chunks : List StoredObjectPart

-- `serde_json` for an upload's state, and `Uuid::parse_str`.
pub record Codec (W O : Type 0) : Type 0 where
  pub to_json : ResumableUpload W O → Bytes
  pub from_json : Bytes → Option (ResumableUpload W O)
  pub is_uuid : Text → Bool

module _ {W O : Type 0} where
  -- `id` is the fresh UUID, `now` the clock.
  unfoldable pub new : Text → ℕ → Text → Option Text → ℕ → Text → O → Text → W → ResumableUpload W O
  new id now original_filename content_type total_size object_key options owner queue_weight =
      record {
        id = id;
        original_filename = original_filename;
        content_type = content_type;
        total_size = total_size;
        offset = 0;
        object_key = object_key;
        options = options;
        owner = owner;
        queue_weight = queue_weight;
        created_at = now;
        job_id = none;
        partial = false;
        concat_parts = [];
        chunks = [];
      }

  -- `default_options` is `SolveOptions::default()`.
  unfoldable pub new_partial : Text → ℕ → O → ℕ → Text → W → ResumableUpload W O
  new_partial id now default_options total_size owner queue_weight = record {
    id = id;
    original_filename = [];
    content_type = none;
    total_size = total_size;
    offset = 0;
    object_key = [];
    options = default_options;
    owner = owner;
    queue_weight = queue_weight;
    created_at = now;
    job_id = none;
    partial = true;
    concat_parts = [];
    chunks = [];
  }

  unfoldable pub all_chunks : List (ResumableUpload W O) → List StoredObjectPart
  all_chunks [] = []
  all_chunks (part ∷ parts) = part.chunks ++ all_chunks parts

  abbrev pub concatenated :
      Text
      → ℕ
      → Text
      → Option Text
      → Text
      → O
      → Text
      → W
      → List (ResumableUpload W O)
      → Option ℕ
      → Result (ResumableUpload W O)
  concatenated id now original_filename content_type object_key options owner queue_weight parts
        none =
      err internal
  concatenated id now original_filename content_type object_key options owner queue_weight parts
        (some total) =
      ok (record {
        id = id;
        original_filename = original_filename;
        content_type = content_type;
        total_size = total;
        offset = total;
        object_key = object_key;
        options = options;
        owner = owner;
        queue_weight = queue_weight;
        created_at = now;
        job_id = none;
        partial = false;
        concat_parts = map (λ part. part.id) parts;
        chunks = all_chunks parts;
      })

  unfoldable pub concatenate :
      Text
      → ℕ
      → Text
      → Option Text
      → Text
      → O
      → Text
      → W
      → List (ResumableUpload W O)
      → Result (ResumableUpload W O)
  concatenate id now original_filename content_type object_key options owner queue_weight parts =
      concatenated id now original_filename content_type object_key options owner queue_weight parts
        (sum_checked (some 0) (map (λ part. part.total_size) parts))

abbrev pub or_internal {ℓ} : {A : Type ℓ} → Option A → Result A
or_internal none = err internal
or_internal (some a) = ok a

module _ (o : ObjectStore) {W O : Type 0} (codec : Codec W O) where
  abbrev decoded : Option Bytes → Result (ResumableUpload W O)
  decoded none = err internal
  decoded (some bytes) = or_internal (codec.from_json bytes)

  abbrev present : Option Bool → Option Bytes → Result (ResumableUpload W O)
  present none bytes = err internal
  present (some false) bytes = err not_found
  present (some true) bytes = decoded bytes

  unfoldable pub load : Text → Text → o.State → Result (ResumableUpload W O)
  load storage_prefix id s =
      if codec.is_uuid id
      then present (o.exists (state_key storage_prefix id) s)
          (o.get (state_key storage_prefix id) s)
      else err not_found

  unfoldable pub save : Text → ResumableUpload W O → o.State → Option (Unit {0}) × o.State
  save storage_prefix u s =
      o.put (state_key storage_prefix u.id) (codec.to_json u) (some (text "application/json")) s

  abbrev pub grown : Text → ℕ → ℕ → ResumableUpload W O → ResumableUpload W O
  grown key size new_offset u = record u {
    offset = new_offset;
    chunks = u.chunks ++ record { key = key; size = size } ∷ [];
  }

  abbrev pub saved :
      ℕ
      → ResumableUpload W O
      → Option (Unit {0}) × o.State
      → Result ℕ × ResumableUpload W O × o.State
  saved n u (none, s) = (err internal, u, s)
  saved n u (some _, s) = (ok n, u, s)

  abbrev pub stored :
      Text
      → Text
      → ℕ
      → ℕ
      → ResumableUpload W O
      → Option (Unit {0}) × o.State
      → Result ℕ × ResumableUpload W O × o.State
  stored storage_prefix key size new_offset u (none, s) = (err internal, u, s)
  stored storage_prefix key size new_offset u (some _, s) =
      let v = grown key size new_offset u in saved new_offset v (save storage_prefix v s)

  -- `checked_add` and the `filter` behind it.
  abbrev pub within : Option ℕ → ℕ → Option ℕ
  within none total = none
  within (some n) total = if leb n total then some n else none

  abbrev pub sized :
      Text
      → ℕ
      → Bytes
      → ResumableUpload W O
      → o.State
      → Option ℕ
      → Result ℕ × ResumableUpload W O × o.State
  sized storage_prefix offset content u s none = (err exceeds_length, u, s)
  sized storage_prefix offset content u s (some new_offset) =
      if length content == 0 && ltb new_offset u.total_size
      then (err (incomplete new_offset u.total_size), u, s)
      else stored storage_prefix (chunk_key storage_prefix u.id offset) (length content) new_offset
          u
          (o.put (chunk_key storage_prefix u.id offset) content
            (some (text "application/offset+octet-stream")) s)

  unfoldable pub append :
      Text → ℕ → Bytes → ResumableUpload W O → o.State → Result ℕ × ResumableUpload W O × o.State
  unfolding save
  append storage_prefix offset content u s =
      if is_some u.job_id || u.offset == u.total_size
      then (err completed, u, s)
      else if not (offset == u.offset)
      then (err (offset_mismatch u.offset offset), u, s)
      else sized storage_prefix offset content u s
          (within (checked_add offset (length content)) u.total_size)
