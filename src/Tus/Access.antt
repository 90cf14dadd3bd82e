-- ===== src/Tus/Access.antt =====
-- Proofs about `head_resumable_upload` of src/api/tus.rs and the owner of an upload.
use seiza_server.Base.{ℕ, ◌≡◌, refl, ap, subst, inl, inr, Text, text_eq, text_eq→eq, Bool-cases}
use seiza_server.Uploads.Storage.{ObjectStore}
use seiza_server.Uploads.Session.{ResumableUpload, Result, ok, err, Codec, load}
use seiza_server.Tus.Requests.{
  Outcome, answer, failed, and_then, Headers, Client, verify_tus_version, ensure_upload_owner,
  mapped,
}
use seiza_server.Tus.Handlers.{
  Response, owned_upload, head_resumable_upload, delete_resumable_upload, terminated,
}

pub and_then_inv :
    {A B : Type 0} (a : Outcome A) (f : A → Outcome B) (b : B)
    → and_then a f ≡ answer b
    → (x : A) × (a ≡ answer x) × (f x ≡ answer b)
and_then_inv (answer x) f b h = (x, refl, h)
and_then_inv (failed e) f b h = cc

pub answer_injective : {A : Type 0} (x y : A) → answer x ≡ answer y → x ≡ y
answer_injective x y h = cc

pub owned_inv :
    {W O : Type 0} (v : Outcome (Unit {0})) (a : Outcome (Client W))
    (l : Result (ResumableUpload W O)) (u : ResumableUpload W O)
    → and_then v (λ _. and_then a (λ client.
      and_then
        (mapped l)
        (λ upload. and_then (ensure_upload_owner upload client) (λ _. answer upload))))
      ≡ answer u
    → (client : Client W) × (a ≡ answer client) × (l ≡ ok u) × (u.owner ≡ client.id)
unfolding ensure_upload_owner mapped
owned_inv (failed e) a l u h = cc
owned_inv (answer x) (failed e) l u h = cc
owned_inv (answer x) (answer client) (err e) u h = cc
owned_inv (answer x) (answer client) (ok upload) u h =
    elim (Bool-cases (text_eq upload.owner client.id)) [
      | inl e ↦
          let same : upload ≡ u = answer_injective upload u (rw e at h) in
          (
            client,
            refl,
            ap ok same,
            subst (λ v. v.owner ≡ client.id) same (text_eq→eq upload.owner client.id e),
          )
      | inr e ↦ cc (e, h)
    ]

module _ (o : ObjectStore) {W O : Type 0} (codec : Codec W O) (to_string : ℕ → Text)
    (max_upload_bytes : ℕ) (prefix : Text) where
  -- The client who owns the upload that the request names.
  abbrev pub OwnedBy : Text → Outcome (Client W) → o.State → Type 0
  OwnedBy upload_id authenticated s =
      (client : Client W) × (upload : ResumableUpload W O) × (authenticated ≡ answer client)
      × (load o codec prefix upload_id s ≡ ok upload)
      × (upload.owner ≡ client.id)

  owned_upload_lem :
      (upload_id : Text) (headers : Headers) (authenticated : Outcome (Client W)) (s : o.State)
      (u : ResumableUpload W O)
      → owned_upload o codec to_string max_upload_bytes prefix upload_id headers authenticated s
        ≡ answer u
      → OwnedBy upload_id authenticated s
  unfolding owned_upload
  owned_upload_lem upload_id headers authenticated s u h =
      let (client, who, loaded, owns) =
        owned_inv (verify_tus_version headers) authenticated (load o codec prefix upload_id s) u
          h in
      (client, u, who, loaded, owns)

  -- A request that is told an upload's state is one by the client who owns the upload.
  pub head_resumable_upload-OwnedBy :
      (upload_id : Text) (headers : Headers) (authenticated : Outcome (Client W)) (s : o.State)
      (r : Response)
      → head_resumable_upload o codec to_string max_upload_bytes prefix upload_id headers
          authenticated s
        ≡ answer r
      → OwnedBy upload_id authenticated s
  unfolding head_resumable_upload
  head_resumable_upload-OwnedBy upload_id headers authenticated s r h =
      let (u, owned, _) =
        and_then_inv
          (owned_upload o codec to_string max_upload_bytes prefix upload_id headers authenticated s)
          _ r h in
      owned_upload_lem upload_id headers authenticated s u owned

  terminated_inv :
      (a : Outcome (ResumableUpload W O)) (s : o.State) (r : Response)
      → (terminated o codec to_string max_upload_bytes prefix a s).0 ≡ answer r
      → (u : ResumableUpload W O) × (a ≡ answer u)
  terminated_inv (answer u) s r h = (u, refl)
  terminated_inv (failed e) s r h = cc

  -- A request to terminate an upload that succeeds is one by the client who owns the upload.
  pub delete_resumable_upload-OwnedBy :
      (upload_id : Text) (headers : Headers) (authenticated : Outcome (Client W)) (s : o.State)
      (r : Response)
      → (delete_resumable_upload o codec to_string max_upload_bytes prefix upload_id headers
          authenticated s).0
        ≡ answer r
      → OwnedBy upload_id authenticated s
  unfolding delete_resumable_upload
  delete_resumable_upload-OwnedBy upload_id headers authenticated s r h =
      let (u, owned) =
        terminated_inv
          (owned_upload o codec to_string max_upload_bytes prefix upload_id headers authenticated s)
          s r h in
      owned_upload_lem upload_id headers authenticated s u owned
