-- ===== src/Service/Apart.antt =====
-- `new_object_key` of src/api.rs against `state_key` and `chunk_key` of src/uploads.rs.
use mathlib.Core.List.{append_assoc}
use seiza_server.Base.{ℕ, ◌≢◌, sym, ap, ◌∙◌, List, [], ◌∷◌, ◌++◌, arith, Text, text, All}
use seiza_server.Uploads.Storage.{StoredObjectPart}
use seiza_server.Uploads.Keys.{
  namespace_under, upload_namespace, trim_matches, state_key, chunk_key, append_cancel,
}
use seiza_server.Uploads.Contents.{ChunkOf}
use seiza_server.Service.Names.{Uuids, under_prefix, new_object_key}

outside :
    (prefix id key rest : Text)
    → namespace_under prefix id ++ rest ≢ under_prefix prefix (text "public-" ++ key)
outside [] id key rest h = ground (arith, h)
outside (c ∷ cs) id key rest h =
    let k =
      append_cancel (c ∷ cs) _ _
        (sym (append_assoc (c ∷ cs) (text "/.resumable/" ++ id) rest) ∙ h) in
    ground (arith, k)

module _ (uuids : Uuids) (s3_prefix filename : Text) (job_id storage_token : ℕ) where
  pub state_key-ne-new_object_key :
      (id : Text)
      → state_key s3_prefix id ≢ new_object_key uuids s3_prefix filename job_id storage_token
  unfolding state_key upload_namespace new_object_key
  state_key-ne-new_object_key id h = outside (trim_matches s3_prefix) id _ (text "/state.json") (
      h
      ∙ ap (under_prefix (trim_matches s3_prefix))
          (append_assoc (text "public-") (uuids.to_string job_id) _))

  pub chunk_key-ne-new_object_key :
      (id : Text) (n : ℕ)
      → chunk_key s3_prefix id n ≢ new_object_key uuids s3_prefix filename job_id storage_token
  unfolding chunk_key upload_namespace new_object_key
  chunk_key-ne-new_object_key id n h = outside (trim_matches s3_prefix) id _ _ (
      h
      ∙ ap (under_prefix (trim_matches s3_prefix))
          (append_assoc (text "public-") (uuids.to_string job_id) _))

  pub chunks-ne-new_object_key :
      (id : Text) (offset : ℕ) (parts : List StoredObjectPart)
      → All (ChunkOf s3_prefix id offset) parts
      → All (λ p. p.key ≢ new_object_key uuids s3_prefix filename job_id storage_token) parts
  chunks-ne-new_object_key id offset [] a = tt
  chunks-ne-new_object_key id offset (p ∷ ps) ((n, lt, e), rest) = (
    λ k. chunk_key-ne-new_object_key id n (sym e ∙ k),
    chunks-ne-new_object_key id offset ps rest,
  )
