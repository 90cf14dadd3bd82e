-- ===== src/Service/ObjectKeys.antt =====
-- Proofs about `new_object_key` and `job_id_from_object_key` of src/api.rs.
use mathlib.Core.List.{reverse, reverse-append}
use seiza_server.Base.{
  ℕ, ◌≡◌, ◌≢◌, refl, ap, ◌∙◌, inl, inr, Bool, true, false, some, List, [], ◌∷◌, ◌++◌, arith, Text,
  text, ◌==◌, All, All-append, Bool-cases,
}
use seiza_server.Uploads.Keys.{trim_matches}
use seiza_server.Service.Names.{
  slash, full_stop, split_at, more, extension_of, safe_extension, Uuids, under_prefix,
  new_object_key, tagged_id, job_id_from_object_key,
}

abbrev pub is_slash : ℕ → Bool
is_slash c = c == slash

abbrev pub NoSlash : Text → Type 0
NoSlash s = All (λ c. c ≢ slash) s

split_at-plain : (s : Text) → NoSlash s → split_at is_slash s ≡ s ∷ []
unfolding split_at
split_at-plain [] h = refl
split_at-plain (c ∷ cs) h = rw (split_at-plain cs h.1) (elim (Bool-cases (c == slash)) [
  | inl e ↦ absurd (h.0 (ground (arith, e)))
  | inr e ↦ rw e refl
])

more-append :
    (c : ℕ) (b : Bool) (xs ys : List Text) → xs ≢ [] → more c b (xs ++ ys) ≡ more c b xs ++ ys
more-append c true xs ys ne = refl
more-append c false [] ys ne = absurd (ne refl)
more-append c false (x ∷ xs) ys ne = refl

more-ne : (c : ℕ) (b : Bool) (xs : List Text) → more c b xs ≢ []
more-ne c true xs = λ e. cc
more-ne c false [] = λ e. cc
more-ne c false (x ∷ xs) = λ e. cc

split_at-ne : (s : Text) → split_at is_slash s ≢ []
unfolding split_at
split_at-ne [] = λ e. cc
split_at-ne (c ∷ cs) = more-ne c (c == slash) (split_at is_slash cs)

split_at-append :
    (s t : Text) → split_at is_slash (s ++ slash ∷ t) ≡ split_at is_slash s ++ split_at is_slash t
unfolding split_at
split_at-append [] t = ground arith
split_at-append (c ∷ cs) t =
    ap (more c (c == slash)) (split_at-append cs t)
    ∙ more-append c (c == slash) (split_at is_slash cs) (split_at is_slash t) (split_at-ne cs)

-- What is relied on of UUIDs as text.
pub record IsUuids (uuids : Uuids) : Type 0 where
  pub parse-to_string : (id : ℕ) → uuids.parse_str (uuids.to_string id) ≡ some id
  pub no_slash : (id : ℕ) → NoSlash (uuids.to_string id)

extension_plain : (s : Text) → NoSlash (extension_of s)
unfolding extension_of
extension_plain s = ground arith

behind_prefix :
    (prefix key : Text)
    → (x : List Text) × (split_at is_slash (under_prefix prefix key) ≡ x ++ split_at is_slash key)
behind_prefix [] key = ([], refl)
behind_prefix (c ∷ cs) key = (split_at is_slash (c ∷ cs), split_at-append (c ∷ cs) key)

tagged :
    (uuids : Uuids) (law : IsUuids uuids) (id : ℕ) (filename : Text) (rest : List Text)
    → tagged_id uuids (filename ∷ ((text "public-" ++ uuids.to_string id) ∷ rest)) ≡ some id
unfolding tagged_id
tagged uuids law id filename rest = rw (law.parse-to_string id) refl

-- The object key that is made for a job's input, under whatever prefix and from whatever file name,
-- names the job: its UUID is read back from it.
pub job_id_from_object_key-new_object_key :
    (uuids : Uuids) (s3_prefix filename : Text) (job_id storage_token : ℕ)
    → IsUuids uuids
    → job_id_from_object_key uuids (new_object_key uuids s3_prefix filename job_id storage_token)
      ≡ some job_id
unfolding job_id_from_object_key new_object_key safe_extension
job_id_from_object_key-new_object_key uuids s3_prefix filename job_id storage_token law =
    let parent : Text = text "public-" ++ uuids.to_string job_id in
    let file : Text = uuids.to_string storage_token ++ full_stop ∷ safe_extension filename in
    let parent_plain : NoSlash parent =
      All-append (λ c. c ≢ slash) (text "public-") (uuids.to_string job_id) (ground arith)
        (law.no_slash job_id) in
    let file_plain : NoSlash file =
      All-append (λ c. c ≢ slash) (uuids.to_string storage_token)
        (full_stop ∷ safe_extension filename) (law.no_slash storage_token)
        ((λ (e : full_stop ≡ slash). absurd (omega arith)), extension_plain _) in
    let (x, same) = behind_prefix (trim_matches s3_prefix) (parent ++ slash ∷ file) in
    let parts : split_at is_slash (under_prefix (trim_matches s3_prefix) (parent ++ slash ∷ file))
        ≡ x ++ parent ∷ file ∷ [] =
      same
      ∙ ap (λ r. x ++ r)
          (split_at-append parent file
            ∙ rw (split_at-plain parent parent_plain) (rw (split_at-plain file file_plain) refl)) in
    ap (λ r. tagged_id uuids (reverse r)) parts
    ∙ (ap (tagged_id uuids) (reverse-append x (parent ∷ file ∷ []))
        ∙ tagged uuids law job_id file (reverse x))
