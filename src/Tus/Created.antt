-- ===== src/Tus/Created.antt =====
-- Proofs about `create_resumable_upload` of src/api/tus.rs.
use seiza_server.Base.{
  ℕ, ◌+◌, ◌^◌, ◌≤◌, ◌<◌, ◌≡◌, refl, ap, subst, inl, inr, false, not, ◌||◌, Option, none, some, List,
  [], ◌∷◌, ◌++◌, map, arith, Text, text, text_eq, text_eq→eq, ltb, if◌then◌else◌, ◌==◌, is_some,
  All, Bool-cases,
}
use seiza_server.Uploads.Storage.{ObjectStore, checked_add, sum_checked}
use seiza_server.Uploads.Session.{
  ResumableUpload, Result, ok, err, Codec, new, new_partial, all_chunks, concatenate, concatenated,
  load,
}
use seiza_server.Uploads.Soundness.{IsSound, total_length, total_length-append}
use seiza_server.Tus.Requests.{
  answer, failed, bad_request, payload_too_large, Headers, Client, verify_tus_version,
  checked_upload_length, required_u64_header, ensure_upload_owner, mapped,
}
use seiza_server.Tus.Access.{and_then_inv, answer_injective}
use seiza_server.Tus.Metadata.{Formats, upload_metadata, parse_concat_part_ids}
use seiza_server.Tus.Creation.{
  unlimited, Kind, whole, part, unknown, final, kind, usable_part, usable_parts, total_within,
  new_upload, partial_upload, final_upload, of_kind, requested,
}
use seiza_server.Service.Names.{Uuids, new_object_key}
use seiza_server.Service.World.{Imaging}

in_bounds :
    (limit m n : ℕ)
    → (if m == 0
        then failed bad_request
        else if ltb limit m
        then failed payload_too_large
        else answer m)
      ≡ answer n
    → (0 < n) × (n ≤ limit) × (m ≡ n)
in_bounds limit m n h = elim (Bool-cases (m == 0)) [
  | inl f ↦ cc (f, h)
  | inr f ↦ elim (Bool-cases (ltb limit m)) [
    | inl g ↦ cc (f, g, h)
    | inr g ↦
        let same : m ≡ n = answer_injective m n (rw f at (rw g at h)) in
        (ground (arith, same, f), ground (arith, same, g), same)
  ]
]

-- A length that is accepted is not nothing, and at most the limit.
checked_upload_length-bounds :
    (parse : Text → Option ℕ) (max_upload_bytes : ℕ) (headers : Headers) (n : ℕ)
    → checked_upload_length parse max_upload_bytes headers ≡ answer n
    → (0 < n) × (n ≤ max_upload_bytes)
unfolding checked_upload_length
checked_upload_length-bounds parse max_upload_bytes headers n h =
    let (m, _, e) = and_then_inv (required_u64_header parse headers (text "upload-length")) _ n h in
    let (some_bytes, few, _) = in_bounds max_upload_bytes m n e in (some_bytes, few)

sum_checked-none : (xs : List ℕ) → sum_checked none xs ≡ none
unfolding sum_checked
sum_checked-none [] = refl
sum_checked-none (x ∷ xs) = sum_checked-none xs

module _ {W O : Type 0} where
  -- A complete partial upload of the client.
  record Usable (client : Client W) (p : ResumableUpload W O) : Type 0 where
    owned : p.owner ≡ client.id
    complete : p.offset ≡ p.total_size
    sound : IsSound p

  sum_checked-total :
      (client : Client W) (parts : List (ResumableUpload W O)) (n t : ℕ)
      → n < 2 ^ 64
      → All (Usable client) parts
      → sum_checked (some n) (map (λ p. p.total_size) parts) ≡ some t
      → (n + total_length (all_chunks parts) ≡ t) × (t < 2 ^ 64)
  unfolding sum_checked all_chunks
  sum_checked-total client [] n t small a h = ground arith
  sum_checked-total client (p ∷ ps) n t small a h =
      by (checked_add n p.total_size) refl (λ m f k. sum_checked-total client ps m t f a.1 k) h
    where
      by :
          (c : Option ℕ)
          → checked_add n p.total_size ≡ c
          → ((m : ℕ)
              → m < 2 ^ 64
              → sum_checked (some m) (map (λ (q : ResumableUpload W O). q.total_size) ps) ≡ some t
              → (m + total_length (all_chunks ps) ≡ t) × (t < 2 ^ 64))
          → sum_checked c (map (λ (q : ResumableUpload W O). q.total_size) ps) ≡ some t
          → (n + total_length (p.chunks ++ all_chunks ps) ≡ t) × (t < 2 ^ 64)
      by none e more k =
          cc (sum_checked-none (map (λ (q : ResumableUpload W O). q.total_size) ps), k)
      by (some m) e more k =
          let (added, fits) : (n + p.total_size ≡ m) × (m < 2 ^ 64) = ground (arith, e) in
          let rest = more m fits k in
          (
            omega (
              arith,
              added,
              rest.0,
              total_length-append p.chunks (all_chunks ps),
              a.0.sound.chunks_length,
              a.0.complete,
            ),
            rest.1,
          )

module _ (uuids : Uuids) (max_upload_bytes : ℕ) (s3_prefix : Text) {W O : Type 0} where
  -- What an upload that was asked for is: the client's, within the limit, sound, without a job, and
  -- under an object key of the server's unless it is a part.
  pub record Created (job_id storage_token : ℕ) (client : Client W) (u : ResumableUpload W O)
      : Type 0 where
    pub owned : u.owner ≡ client.id
    pub nonempty : 0 < u.total_size
    pub bounded : u.total_size ≤ max_upload_bytes
    pub unfinished : u.job_id ≡ none
    pub sound : IsSound u
    pub server_key :
        u.partial ≡ false
        → u.object_key ≡ new_object_key uuids s3_prefix u.original_filename job_id storage_token

module _ (uuids : Uuids) (o : ObjectStore) {W O : Type 0} (codec : Codec W O) (imaging : Imaging O)
    (formats : Formats O) (max_upload_bytes : ℕ) (s3_prefix : Text) where
  module _ (small : max_upload_bytes < 2 ^ 64) (s : o.State)
      (all_sound : (id : Text) (u : ResumableUpload W O)
        → load o codec s3_prefix id s ≡ ok u
        → IsSound u) where
    usable_part_inv :
        (client : Client W) (id : Text) (u v : ResumableUpload W O)
        → load o codec s3_prefix id s ≡ ok u
        → usable_part uuids o codec imaging formats max_upload_bytes s3_prefix client u ≡ answer v
        → Usable client v
    unfolding ensure_upload_owner
    usable_part_inv client id u v loaded h = elim (Bool-cases (text_eq u.owner client.id)) [
      | inl e ↦
          elim (Bool-cases
            (not u.partial || (not (u.offset == u.total_size) || is_some u.job_id))) [
              | inl f ↦ cc (rw f at (rw e at h))
              | inr f ↦
                  let same : u ≡ v = answer_injective u v (rw f at (rw e at h)) in
                  subst (Usable client) same (record {
                    owned = text_eq→eq u.owner client.id e;
                    complete = ground (arith, f);
                    sound = all_sound id u loaded;
                  })
            ]
      | inr e ↦ cc (rw e at h)
    ]

    ok_injective : {A : Type 0} (x y : A) → Result.ok x ≡ ok y → x ≡ y
    ok_injective x y h = cc

    mapped_inv : {A : Type 0} (r : Result A) (a : A) → mapped r ≡ answer a → r ≡ ok a
    unfolding mapped
    mapped_inv (ok x) a h = ap ok (answer_injective x a h)
    mapped_inv (err e) a h = cc

    usable_parts-All :
        (client : Client W) (ids : List Text) (parts : List (ResumableUpload W O))
        → usable_parts uuids o codec imaging formats max_upload_bytes s3_prefix client ids s
          ≡ answer parts
        → All (Usable client) parts
    unfolding usable_parts
    usable_parts-All client [] parts h =
        subst (All (Usable client)) (answer_injective [] parts h) tt
    usable_parts-All client (id ∷ ids) parts h =
        let (u, loaded, h1) = and_then_inv (mapped (load o codec s3_prefix id s)) _ parts h in
        let (v, used, h2) =
          and_then_inv
            (usable_part uuids o codec imaging formats max_upload_bytes s3_prefix client u) _ parts
            h1 in
        let (rest, others, h3) =
          and_then_inv
            (usable_parts uuids o codec imaging formats max_upload_bytes s3_prefix client ids s) _
            parts h2 in
        subst (All (Usable client)) (answer_injective (v ∷ rest) parts h3) (
          usable_part_inv client id u v (mapped_inv (load o codec s3_prefix id s) u loaded) used,
          usable_parts-All client ids rest others,
        )

    module _ (id : Text) (now job_id storage_token : ℕ) where
      new_upload-Created :
          (headers : Headers) (parse : Text → Option ℕ) (wait : Option ℕ) (client : Client W)
          (u : ResumableUpload W O)
          → new_upload uuids o codec imaging formats max_upload_bytes s3_prefix id now job_id
              storage_token headers parse wait client
            ≡ answer u
          → Created uuids max_upload_bytes s3_prefix job_id storage_token client u
      unfolding new_upload new
      new_upload-Created headers parse wait client u h =
          let (_, _, h1) = and_then_inv (unlimited wait) _ u h in
          let (n, length_ok, h2) =
            and_then_inv (checked_upload_length parse max_upload_bytes headers) _ u h1 in
          let (m, _, h3) = and_then_inv (upload_metadata formats imaging headers) _ u h2 in
          let bounds = checked_upload_length-bounds parse max_upload_bytes headers n length_ok in
          subst (Created uuids max_upload_bytes s3_prefix job_id storage_token client)
            (answer_injective _ u h3)
            (record {
              owned = refl;
              nonempty = bounds.0;
              bounded = bounds.1;
              unfinished = refl;
              sound = record {
                chunks_length = refl;
                in_total = omega arith;
                u64 = omega (arith, bounds.1, small);
              };
              server_key = λ whole. refl;
            })

      partial_upload-Created :
          (headers : Headers) (parse : Text → Option ℕ) (client : Client W)
          (u : ResumableUpload W O)
          → partial_upload uuids o codec imaging formats max_upload_bytes s3_prefix id now job_id
              storage_token headers parse client
            ≡ answer u
          → Created uuids max_upload_bytes s3_prefix job_id storage_token client u
      unfolding partial_upload new_partial
      partial_upload-Created headers parse client u h =
          let (n, length_ok, h1) =
            and_then_inv (checked_upload_length parse max_upload_bytes headers) _ u h in
          let bounds = checked_upload_length-bounds parse max_upload_bytes headers n length_ok in
          subst (Created uuids max_upload_bytes s3_prefix job_id storage_token client)
            (answer_injective _ u h1)
            (record {
              owned = refl;
              nonempty = bounds.0;
              bounded = bounds.1;
              unfinished = refl;
              sound = record {
                chunks_length = refl;
                in_total = omega arith;
                u64 = omega (arith, bounds.1, small);
              };
              server_key = λ whole. cc;
            })

      concatenate-Created :
          (name : Text) (content_type : Option Text) (options : O) (client : Client W)
          (parts : List (ResumableUpload W O)) (n : ℕ) (u : ResumableUpload W O)
          → All (Usable client) parts
          → total_within uuids o codec imaging formats max_upload_bytes s3_prefix
              (sum_checked (some 0) (map (λ p. p.total_size) parts))
            ≡ answer n
          → concatenate id now name content_type
              (new_object_key uuids s3_prefix name job_id storage_token)
              options
              client.id
              client.queue_weight
              parts
            ≡ ok u
          → Created uuids max_upload_bytes s3_prefix job_id storage_token client u
      unfolding concatenate
      concatenate-Created name content_type options client parts n u usable =
          by (sum_checked (some 0) (map (λ (p : ResumableUpload W O). p.total_size) parts))
            (λ t e. sum_checked-total client parts 0 t (omega arith) usable e)
        where
          by :
              (c : Option ℕ)
              → ((t : ℕ) → c ≡ some t → (0 + total_length (all_chunks parts) ≡ t) × (t < 2 ^ 64))
              → total_within uuids o codec imaging formats max_upload_bytes s3_prefix c ≡ answer n
              → concatenated id now name content_type
                  (new_object_key uuids s3_prefix name job_id storage_token)
                  options
                  client.id
                  client.queue_weight
                  parts
                  c
                ≡ ok u
              → Created uuids max_upload_bytes s3_prefix job_id storage_token client u
          by none total h k = cc
          by (some t) total h k =
              let (lengths, fits) = total t refl in
              let (some_bytes, few, same) = in_bounds max_upload_bytes t n h in
              subst (Created uuids max_upload_bytes s3_prefix job_id storage_token client)
                (ok_injective _ u k)
                (record {
                  owned = refl;
                  nonempty = omega (arith, some_bytes, same);
                  bounded = omega (arith, few, same);
                  unfinished = refl;
                  sound = record {
                    chunks_length = omega (arith, lengths);
                    in_total = omega arith;
                    u64 = fits;
                  };
                  server_key = λ whole. refl;
                })

      final_upload-Created :
          (headers : Headers) (wait : Option ℕ) (client : Client W) (value : Text)
          (u : ResumableUpload W O)
          → final_upload uuids o codec imaging formats max_upload_bytes s3_prefix id now job_id
              storage_token headers wait client value s
            ≡ answer u
          → Created uuids max_upload_bytes s3_prefix job_id storage_token client u
      unfolding final_upload
      final_upload-Created headers wait client value u h =
          let (_, _, h1) = and_then_inv (unlimited wait) _ u h in
          let (ids, _, h2) = and_then_inv (parse_concat_part_ids formats value) _ u h1 in
          let (parts, used, h3) =
            and_then_inv
              (usable_parts uuids o codec imaging formats max_upload_bytes s3_prefix client ids s) _
              u h2 in
          let (n, total, h4) =
            and_then_inv
              (total_within uuids o codec imaging formats max_upload_bytes s3_prefix
                (sum_checked (some 0) (map (λ p. p.total_size) parts)))
              _ u h3 in
          let ((name, content_type, options), _, h5) =
            and_then_inv (upload_metadata formats imaging headers) _ u h4 in
          concatenate-Created name content_type options client parts n u
            (usable_parts-All client ids parts used) total (mapped_inv _ u h5)

      of_kind-Created :
          (headers : Headers) (parse : Text → Option ℕ) (wait : Option ℕ) (client : Client W)
          (k : Kind) (u : ResumableUpload W O)
          → of_kind uuids o codec imaging formats max_upload_bytes s3_prefix id now job_id
              storage_token headers parse wait client k s
            ≡ answer u
          → Created uuids max_upload_bytes s3_prefix job_id storage_token client u
      of_kind-Created headers parse wait client whole u h =
          new_upload-Created headers parse wait client u h
      of_kind-Created headers parse wait client part u h =
          partial_upload-Created headers parse client u h
      of_kind-Created headers parse wait client unknown u h = cc
      of_kind-Created headers parse wait client (final value) u h =
          final_upload-Created headers wait client value u h

-- An upload that a request is allowed to create, whole, partial or put together from parts, is owned
-- by the request's client, has a length from 1 to the limit, is sound, has no job, and, unless it is
-- a part, lies under an object key that the server makes. The limit is below 2^64 and the uploads
-- that are stored are sound.
pub requested-Created :
    (uuids : Uuids) (o : ObjectStore) {W O : Type 0} (codec : Codec W O) (imaging : Imaging O)
    (formats : Formats O) (max_upload_bytes : ℕ) (s3_prefix id : Text)
    (now job_id storage_token : ℕ) (headers : Headers) (parse : Text → Option ℕ) (wait : Option ℕ)
    (client : Client W) (s : o.State) (u : ResumableUpload W O)
    → max_upload_bytes < 2 ^ 64
    → ((i : Text) (v : ResumableUpload W O) → load o codec s3_prefix i s ≡ ok v → IsSound v)
    → requested uuids o codec imaging formats max_upload_bytes s3_prefix id now job_id storage_token
        headers parse wait
        (answer client)
        s
      ≡ answer u
    → Created uuids max_upload_bytes s3_prefix job_id storage_token client u
unfolding requested
requested-Created uuids o codec imaging formats max_upload_bytes s3_prefix id now job_id
      storage_token headers parse wait client s u small all_sound h =
    let (_, _, k) = and_then_inv (verify_tus_version headers) _ u h in
    of_kind-Created uuids o codec imaging formats max_upload_bytes s3_prefix small s all_sound id
      now job_id storage_token headers parse wait client (kind (headers (text "upload-concat"))) u k
