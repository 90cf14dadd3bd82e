-- ===== src/Service/Tests.antt =====
-- An upload of three bytes that becomes a job, and a request with a cookie.
use seiza_server.Base.{
  ℕ, zero, suc, ◌≤◌, ◌≡◌, ◌≢◌, refl, sym, inl, inr, true, false, not, Option, none, some, List, [],
  ◌∷◌, arith, Text, text, text_eq, text_eq_refl, text_eq→eq, ◌==◌, if◌then◌else◌, length, filter,
  All, Bool-cases,
}
use seiza_server.Queue.Calls.{empty}
use seiza_server.Queue.Rows.{record_from_row, astrometry_id_for_job}
use seiza_server.Queue.Jobs.{with_donation}
use seiza_server.Uploads.Storage.{Bytes, StoredObjectPart, gather, joined}
use seiza_server.Uploads.Keys.{
  trim_slashes, trim_matches, upload_namespace, padded, state_key, chunk_key,
  state_key-ne-chunk_key,
}
use seiza_server.Uploads.Session.{ResumableUpload, Codec}
use seiza_server.Uploads.Memory.{
  Memory, memory_store, memory_store-IsObjectStore, lookup, range, both, pieces, composed,
}
use seiza_server.Service.Names.{
  slash, full_stop, is_safe, safe_filename, Uuids, new_object_key, job_id_from_object_key,
}
use seiza_server.Service.SafeNames.{safe_filename_lem}
use seiza_server.Service.ObjectKeys.{NoSlash, IsUuids, job_id_from_object_key-new_object_key}
use seiza_server.Service.World.{Transport, Imaging, World}
use seiza_server.Service.Inputs.{IsComposer}
use seiza_server.Service.Commits.{Committed, finalize_resumable-Commits}
use seiza_server.Service.Finalization.{finalize_resumable}
use seiza_server.Service.Apart.{state_key-ne-new_object_key, chunk_key-ne-new_object_key}
use seiza_server.Identity.Rows.{browser, Account, Tables}
use seiza_server.Identity.Tests.{anna}
use seiza_server.Accounts.Tests.{primitives, primitives-IsUuid}
use seiza_server.Service.Clients.{
  accounts, Codes, Config, Request, account_client_id, client_from_headers,
}
use seiza_server.Service.Acting.{Proven, client_from_headers-Proven}
use seiza_server.Service.AccountCalls.{
  revokes_session, account_request, Entitled, account_request-Entitled,
}

-- A UUID as so many ones.
abbrev pub ones : ℕ → Text
ones zero = []
ones (suc n) = 49 ∷ ones n

length-ones : (n : ℕ) → length (ones n) ≡ n
length-ones zero = refl
length-ones (suc n) = omega (arith, length-ones n)

ones-NoSlash : (n : ℕ) → NoSlash (ones n)
ones-NoSlash zero = tt
ones-NoSlash (suc n) = ((λ (e : 49 ≡ slash). absurd (omega arith)), ones-NoSlash n)

abbrev pub uuids : Uuids
uuids = record { to_string = ones; parse_str = λ s. some (length s) }

uuids-IsUuids : IsUuids uuids
uuids-IsUuids = record { parse-to_string = λ n. rw (length-ones n) refl; no_slash = ones-NoSlash }

safe_filename_lem_example :
    All (λ c. is_safe c ≡ true) (safe_filename (text "../..\\.my field.fits"))
    × (1 ≤ length (safe_filename (text "../..\\.my field.fits")))
    × (length (safe_filename (text "../..\\.my field.fits")) ≤ 160)
    × ((c : ℕ) (cs : Text) → safe_filename (text "../..\\.my field.fits") ≡ c ∷ cs → c ≢ full_stop)
safe_filename_lem_example = safe_filename_lem (text "../..\\.my field.fits")

job_id_from_object_key-new_object_key_example :
    job_id_from_object_key uuids (new_object_key uuids (text "/data/") (text "m31.FITS") 7 3)
    ≡ some 7
job_id_from_object_key-new_object_key_example =
    job_id_from_object_key-new_object_key uuids (text "/data/") (text "m31.FITS") 7 3 uuids-IsUuids

lookup-filter_other :
    (k j : Text) (s : Memory) → j ≢ k → lookup j (filter (λ e. not (text_eq e.0 k)) s) ≡ lookup j s
unfolding lookup
lookup-filter_other k j [] ne = refl
lookup-filter_other k j ((i, c) ∷ s) ne = elim (Bool-cases (text_eq i k)) [
  | inl e ↦ elim (Bool-cases (text_eq i j)) [
    | inl f ↦ absurd (ne (cc (text_eq→eq i k e, text_eq→eq i j f)))
    | inr f ↦ rw e (rw f (lookup-filter_other k j s ne))
  ]
  | inr e ↦ rw e (rw (lookup-filter_other k j s ne) refl)
]

pieces-gather :
    (parts : List StoredObjectPart) (c : Bytes) (s : Memory)
    → gather memory_store parts s ≡ some c
    → pieces parts s ≡ some c
unfolding gather pieces
pieces-gather [] c s h = h
pieces-gather (p ∷ ps) c s h =
    by (lookup p.key s) (gather memory_store ps s) (pieces ps s) (λ d. pieces-gather ps d s) h
  where
    by :
        (a b d : Option Bytes)
        → ((x : Bytes) → b ≡ some x → d ≡ some x)
        → joined memory_store p.size a b ≡ some c
        → both a d ≡ some c
    by none b d f k = cc
    by (some x) none d f k = cc
    by (some x) (some y) d f k = elim (Bool-cases (length x == p.size)) [
      | inl e ↦ rw (f y refl) (rw e at k)
      | inr e ↦ ground (arith, e, k)
    ]

composed-get :
    (j : Text) (o : Option Bytes) (c : Bytes) (s : Memory)
    → o ≡ some c
    → lookup j (composed j o s).1 ≡ some c
unfolding lookup
composed-get j none c s h = cc
composed-get j (some x) c s h = rw (text_eq_refl j) h

composed-get_ne :
    (i j : Text) (o : Option Bytes) (s : Memory) → i ≢ j → lookup i (composed j o s).1 ≡ lookup i s
unfolding lookup
composed-get_ne i j none s ne = refl
composed-get_ne i j (some x) s ne = elim (Bool-cases (text_eq j i)) [
  | inl e ↦ absurd (ne (sym (text_eq→eq j i e)))
  | inr e ↦ rw e refl
]

pub memory_store-IsComposer : IsComposer memory_store
unfolding lookup
memory_store-IsComposer = record {
  get-compose = λ k parts t c s h stored. rw (pieces-gather parts c s h) (rw (text_eq_refl k) refl);
  get-copy = λ k j t c s h stored. composed-get j (lookup k s) c s h;
  get-copy_ne = λ k j i t s ne. composed-get_ne i j (lookup k s) s ne;
  get-delete_ne = λ k j s ne. lookup-filter_other k j s ne;
}

abbrev pub prefix : Text
prefix = text "/data/"

abbrev pub m31_key : Text
m31_key = new_object_key uuids prefix (text "m31.fits") 7 3

abbrev pub upload : ResumableUpload ℕ ℕ
upload = record {
  id = text "u1";
  original_filename = text "m31.fits";
  content_type = none;
  total_size = 3;
  offset = 3;
  object_key = m31_key;
  options = 0;
  owner = text "anna";
  queue_weight = 1;
  created_at = 0;
  job_id = none;
  partial = false;
  concat_parts = [];
  chunks =
      record { key = chunk_key prefix (text "u1") 0; size = 1 }
      ∷ record { key = chunk_key prefix (text "u1") 1; size = 2 }
      ∷ [];
}

abbrev pub transport : Transport ℕ ℕ ℕ
transport = record {
  State = List ℕ;
  uses_external_queue = true;
  publish = λ job sent. (some tt, job.id ∷ sent);
}

abbrev pub imaging : Imaging ℕ
imaging = record {
  fits_header_probe_bytes = 2;
  image_header_probe_bytes = λ header filename. 3;
  prepare_from_prefix = λ options header filename size. options;
  prepare_solve_options = λ options content filename. options;
  is_valid = λ options. true;
}

abbrev pub world : World memory_store transport
world = record {
  objects =
      (chunk_key prefix (text "u1") 0, 1 ∷ [])
      ∷ (chunk_key prefix (text "u1") 1, 2 ∷ 3 ∷ [])
      ∷ (state_key prefix (text "u1"), [])
      ∷ [];
  queue = empty ℕ ℕ ℕ;
  sent = [];
  wakeups = 0;
}

abbrev pub codec : Codec ℕ ℕ
codec = record { to_json = λ u. []; from_json = λ b. some upload; is_uuid = λ t. true }

upload-gather : gather memory_store upload.chunks world.objects ≡ some (1 ∷ 2 ∷ 3 ∷ [])
upload-gather =
    unfold gather lookup chunk_key state_key upload_namespace trim_matches trim_slashes text_eq
      padded in
    refl

finalize_resumable-Commits_example :
    Committed memory_store transport codec prefix m31_key
      (text "u1")
      (1 ∷ 2 ∷ 3 ∷ [])
      (finalize_resumable uuids memory_store transport codec imaging prefix 5 upload world)
finalize_resumable-Commits_example =
    finalize_resumable-Commits uuids memory_store transport codec imaging prefix (1 ∷ 2 ∷ 3 ∷ []) 5
      upload world memory_store-IsObjectStore memory_store-IsComposer
      (state_key-ne-new_object_key uuids prefix (text "m31.fits") 7 3 (text "u1"))
      (
        chunk_key-ne-new_object_key uuids prefix (text "m31.fits") 7 3 (text "u1") 0,
        (chunk_key-ne-new_object_key uuids prefix (text "m31.fits") 7 3 (text "u1") 1, tt),
      )
      (
        state_key-ne-chunk_key prefix (text "u1") 0,
        (state_key-ne-chunk_key prefix (text "u1") 1, tt),
      )
      refl upload-gather

-- It is answered, and its job is told to the queue.
finalized_sent :
    (finalize_resumable uuids memory_store transport codec imaging prefix 5 upload world).2.sent
    ≡ 7 ∷ []
finalized_sent =
    unfold finalize_resumable text_eq lookup pieces range new_object_key chunk_key state_key
      astrometry_id_for_job record_from_row with_donation in
    refl

abbrev codes : Codes ℕ
codes = record {
  parse_ip = λ s. none;
  ip_to_string = λ a. [];
  stable_hash = λ s. s;
  queue_weight_for_api_key = λ s. 1;
  one = 1;
  is_uuid = λ s. true;
}

abbrev config : Config
config = record {
  auth_mode = accounts;
  public_ui_solves = true;
  public_api_solves = true;
  secure_auth_cookies = false;
  public_origin = some (text "https://seiza");
}

-- A cookie of Anna's session, and no header.
abbrev request : Request
request = record {
  headers = λ name. none;
  unreadable = λ name. false;
  cookie = λ name.
      if text_eq name (text "seiza_session")
      then some (text "seiza_session_1111111_1111_s_t")
      else none;
}

abbrev tables : Tables ℕ
tables = record {
  accounts = anna ∷ [];
  challenges = [];
  sessions =
      record {
        id = 4;
        token_digest = text "s_t";
        account_id = anna.id;
        kind = browser;
        csrf_digest = none;
        api_key_id = none;
        created_at = 0;
        last_seen_at = 0;
        expires_at = 100;
        absolute_expires_at = 100;
        revoked_at = none;
      }
      ∷ [];
  passkeys = [];
  api_keys = [];
}

client_from_headers-Proven_example :
    (a : Account) × Proven primitives config 5 request false tables none a × (a.id ≡ anna.id)
client_from_headers-Proven_example =
    client_from_headers-Proven codes primitives config 5 request none false none tables anna.id
      (record { id = account_client_id primitives anna.id; queue_weight = 1 }) primitives-IsUuid
      (unfold client_from_headers text_eq in refl) refl

-- The same cookie with the CSRF token, in a request of the service's own pages.
abbrev own_request : Request
own_request = record {
  unreadable = λ name. false;
  headers =
      λ name. if text_eq name (text "origin") then some (text "https://seiza") else some (text "c");
  cookie = λ name.
      if text_eq name (text "seiza_session")
      then some (text "seiza_session_1111111_1111_s_t")
      else some (text "c");
}

abbrev with_csrf : Tables ℕ
with_csrf = record tables {
  sessions =
      record {
        id = 4;
        token_digest = text "s_t";
        account_id = anna.id;
        kind = browser;
        csrf_digest = some (text "c");
        api_key_id = none;
        created_at = 0;
        last_seen_at = 0;
        expires_at = 100;
        absolute_expires_at = 100;
        revoked_at = none;
      }
      ∷ [];
}

account_request-Entitled_example : Entitled codes primitives config 5 own_request with_csrf
account_request-Entitled_example =
    account_request-Entitled codes primitives config 5 own_request (revokes_session 4) with_csrf
      (unfold account_request text_eq in refl)
