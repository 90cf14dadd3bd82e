-- ===== src/Queue/Rows.antt =====
-- The job records and the tables of the SQL repository (src/models.rs, src/repository.rs).
-- A UUID is the 128-bit number that it spells; times are nanoseconds since the epoch, whose
-- RFC 3339 texts compare as the times do. `W`, `O` and `S` stand for the float queue weight, the
-- solve options and the solution: the repository stores and returns them unread.
use Prim.Native.Nat.{ℕ, ◌%◌, ◌^◌, max}
use seiza_server.Base.{
  Bool, true, false, Option, none, some, List, Text, text, text_eq, if◌then◌else◌,
}

pub data JobStatus : Type 0 where
  queued solving succeeded failed : JobStatus

unfoldable pub as_str : JobStatus → Text
as_str queued = text "queued"
as_str solving = text "solving"
as_str succeeded = text "succeeded"
as_str failed = text "failed"

unfoldable pub parse_status : Text → Option JobStatus
parse_status value =
    if text_eq value (text "queued")
    then some queued
    else if text_eq value (text "solving")
    then some solving
    else if text_eq value (text "succeeded")
    then some succeeded
    else if text_eq value (text "failed")
    then some failed
    else none

abbrev pub is_queued : JobStatus → Bool
is_queued queued = true
is_queued _ = false

abbrev pub is_solving : JobStatus → Bool
is_solving solving = true
is_solving _ = false

-- `status == "succeeded" || status == "failed"`.
abbrev pub is_terminal : JobStatus → Bool
is_terminal succeeded = true
is_terminal failed = true
is_terminal _ = false

-- The last eight bytes of the UUID, big-endian, under `i64::MAX`, and at least 1.
unfoldable pub astrometry_id_for_job : ℕ → ℕ
astrometry_id_for_job job_id = max (job_id % 2 ^ 64 % 2 ^ 63) 1

pub record ValidationDonation : Type 0 where
  pub object_key : Text
  pub comment : Option Text
  pub solve_is_invalid : Bool
  pub license_version : Text
  pub donated_at : ℕ

pub record JobRecord (W O S : Type 0) : Type 0 where
  pub id : ℕ
  pub astrometry_id : ℕ
  pub owner : Text
  pub queue_weight : W
  pub object_key : Text
  pub original_filename : Text
  pub content_type : Option Text
  pub options : O
  pub status : JobStatus
  pub created_at : ℕ
  pub started_at : Option ℕ
  pub completed_at : Option ℕ
  pub solution : Option S
  pub error : Option Text
  pub validation_donation : Option ValidationDonation

-- The input that a worker reads: the donated copy once there is one.
abbrev input_of : Text → Option ValidationDonation → Text
input_of key none = key
input_of key (some donation) = donation.object_key

unfoldable pub input_object_key : {W O S : Type 0} → JobRecord W O S → Text
input_object_key job = input_of job.object_key job.validation_donation

pub record JobHistoryRecord : Type 0 where
  pub id : ℕ
  pub status : JobStatus
  pub original_filename : Text
  pub created_at : ℕ
  pub started_at : Option ℕ
  pub completed_at : Option ℕ

pub record JobLease (O : Type 0) : Type 0 where
  pub job_id : ℕ
  pub lease_token : Text
  pub lease_expires_at : ℕ
  pub original_filename : Text
  pub options : O

-- A row of `jobs_v2`.
pub record Row (W O S : Type 0) : Type 0 where
  pub id : ℕ
  pub astrometry_id : ℕ
  pub legacy_id : Option ℕ
  pub owner : Text
  pub queue_weight : W
  pub object_key : Text
  pub original_filename : Text
  pub content_type : Option Text
  pub options : O
  pub status : JobStatus
  pub created_at : ℕ
  pub started_at : Option ℕ
  pub completed_at : Option ℕ
  pub solution : Option S
  pub error : Option Text
  pub lease_token : Option Text
  pub lease_expires_at : Option ℕ
  pub attempts : ℕ

-- A row of `validation_donations_v2`.
pub record Donated : Type 0 where
  pub job_id : ℕ
  pub donation : ValidationDonation

-- A row of `client_service`.
pub record Served : Type 0 where
  pub owner : Text
  pub last_served_at : ℕ

-- A row of `queue_outbox_v2`.
pub record Notice : Type 0 where
  pub job_id : ℕ
  pub delivered_at : Option ℕ

pub record Store (W O S : Type 0) : Type 0 where
  pub jobs : List (Row W O S)
  pub donations : List Donated
  pub clients : List Served
  pub outbox : List Notice

pub data Error : Type 0 where
  out_of_range constraint_failed missing_job no_outcome : Error

pub data Result {ℓ} (A : Type ℓ) : Type ℓ where
  ok : A → Result A
  err : Error → Result A

module _ {W O S : Type 0} where
  unfoldable pub record_from_row : Row W O S → JobRecord W O S
  record_from_row row = record {
    id = row.id;
    astrometry_id = row.astrometry_id;
    owner = row.owner;
    queue_weight = row.queue_weight;
    object_key = row.object_key;
    original_filename = row.original_filename;
    content_type = row.content_type;
    options = row.options;
    status = row.status;
    created_at = row.created_at;
    started_at = row.started_at;
    completed_at = row.completed_at;
    solution = row.solution;
    error = row.error;
    validation_donation = none;
  }

  unfoldable pub history_record_from_row : Row W O S → JobHistoryRecord
  history_record_from_row row = record {
    id = row.id;
    status = row.status;
    original_filename = row.original_filename;
    created_at = row.created_at;
    started_at = row.started_at;
    completed_at = row.completed_at;
  }
