-- ===== src/Service/Names.antt =====
-- File names and object keys in src/api.rs: `safe_filename`, `safe_extension`, `new_object_key`,
-- `validation_object_key`, `job_id_from_object_key` and `legacy_public_job_id`.
use mathlib.Core.List.{reverse}
use seiza_server.Base.{
  ℕ, ◌+◌, Bool, true, false, ◌&&◌, ◌||◌, Option, none, some, List, [], ◌∷◌, ◌++◌, Text, text,
  text_eq, leb, ◌==◌, if◌then◌else◌, take, filter,
}
use seiza_server.Uploads.Keys.{trim_matches}
use seiza_server.Delivery.Routing.{is_ascii_alphanumeric}

abbrev pub slash : ℕ
slash = b'/'

abbrev pub full_stop : ℕ
full_stop = b'.'

abbrev pub more : ℕ → Bool → List Text → List Text
more c true components = [] ∷ components
more c false [] = (c ∷ []) ∷ []
more c false (s ∷ components) = (c ∷ s) ∷ components

-- `split(separator)`.
unfoldable pub split_at : (ℕ → Bool) → Text → List Text
split_at is_separator [] = [] ∷ []
split_at is_separator (c ∷ cs) = more c (is_separator c) (split_at is_separator cs)

abbrev pub first_or : Text → List Text → Text
first_or default [] = default
first_or default (s ∷ rest) = s

-- `rsplit(...).next()`.
unfoldable pub last_or : Text → List Text → Text
last_or default components = first_or default (reverse components)

abbrev pub is_safe : ℕ → Bool
is_safe c = is_ascii_alphanumeric c || ((c == full_stop) || ((c == b'_') || (c == b'-')))

unfoldable pub drop_stops : Text → Text
drop_stops [] = []
drop_stops (c ∷ cs) = let rest = drop_stops cs in if c == full_stop then rest else c ∷ cs

-- `trim_matches('.')`.
unfoldable pub trim_stops : Text → Text
unfolding drop_stops
trim_stops s = reverse (drop_stops (reverse (drop_stops s)))

abbrev pub or_upload : Text → Text
or_upload [] = text "upload"
or_upload (c ∷ cs) = c ∷ cs

-- A character outside ASCII has only bytes above 127, which are not safe.
unfoldable pub safe_filename : Text → Text
unfolding split_at last_or trim_stops
safe_filename filename = or_upload (
    trim_stops (
      take 160 (
        filter is_safe
          (last_or (text "upload") (split_at (λ c. (c == slash) || (c == 92)) filename)))))

-- `to_ascii_lowercase` of a byte.
abbrev pub lower : ℕ → ℕ
lower c = if leb b'A' c && leb c b'Z' then c + 32 else c

unfoldable pub lowercase : Text → Text
lowercase [] = []
lowercase (c ∷ cs) = lower c ∷ lowercase cs

abbrev pub among : Text → List Text → Bool
among s [] = false
among s (t ∷ ts) = text_eq s t || among s ts

unfoldable pub extension_of : Text → Text
extension_of s =
    if among s (text "fit" ∷ text "fits" ∷ text "fts" ∷ [])
    then text "fits"
    else if text_eq s (text "xisf")
    then text "xisf"
    else if among s (text "jpg" ∷ text "jpeg" ∷ [])
    then text "jpg"
    else if text_eq s (text "png")
    then text "png"
    else if among s (text "tif" ∷ text "tiff" ∷ [])
    then text "tiff"
    else if text_eq s (text "webp")
    then text "webp"
    else text "bin"

unfoldable pub safe_extension : Text → Text
unfolding split_at last_or lowercase extension_of
safe_extension filename =
    extension_of (lowercase (last_or [] (split_at (λ c. c == full_stop) filename)))

-- UUIDs as text.
pub record Uuids : Type 0 where
  pub to_string : ℕ → Text
  pub parse_str : Text → Option ℕ

abbrev pub under_prefix : Text → Text → Text
under_prefix [] key = key
under_prefix (c ∷ cs) key = (c ∷ cs) ++ slash ∷ key

module _ (uuids : Uuids) where
  -- The two UUIDs are fresh.
  unfoldable pub new_object_key : Text → Text → ℕ → ℕ → Text
  unfolding safe_extension trim_matches
  new_object_key s3_prefix filename job_id storage_token = under_prefix (trim_matches s3_prefix) (
      (text "public-" ++ uuids.to_string job_id)
      ++ slash ∷ (uuids.to_string storage_token ++ full_stop ∷ safe_extension filename))

  unfoldable pub validation_object_key : Text → ℕ → Text → Text
  unfolding split_at last_or
  validation_object_key validation_prefix job_id object_key =
      validation_prefix
      ++ slash
        ∷ ((text "public-" ++ uuids.to_string job_id)
            ++ slash ∷ last_or [] (split_at (λ c. c == slash) object_key))

unfoldable pub strip_prefix : Text → Text → Option Text
strip_prefix [] s = some s
strip_prefix (c ∷ cs) [] = none
strip_prefix (c ∷ cs) (x ∷ xs) = let rest = strip_prefix cs xs in if c == x then rest else none

-- What is behind the first `.`.
unfoldable pub behind_stop : Text → Option Text
behind_stop [] = none
behind_stop (c ∷ cs) = let rest = behind_stop cs in if c == full_stop then some cs else rest

abbrev pub reversed_or : Text → Option Text → Text
reversed_or s none = s
reversed_or s (some rest) = reverse rest

-- What stands before the last `.`, or the whole.
unfoldable pub before_stop : Text → Text
unfolding behind_stop
before_stop s = reversed_or s (behind_stop (reverse s))

abbrev pub parsed_behind : (Text → Option ℕ) → Option Text → Option ℕ
parsed_behind parse none = none
parsed_behind parse (some s) = parse s

-- `or_else`.
abbrev pub or_parsed : Option ℕ → Option ℕ → Option ℕ
or_parsed none other = other
or_parsed (some id) other = some id

module _ (uuids : Uuids) where
  unfoldable pub tagged_id : List Text → Option ℕ
  unfolding strip_prefix before_stop
  tagged_id [] = none
  tagged_id (filename ∷ []) = uuids.parse_str (before_stop filename)
  tagged_id (filename ∷ (parent ∷ rest)) =
      or_parsed (parsed_behind (λ s. uuids.parse_str s) (strip_prefix (text "public-") parent))
        (uuids.parse_str (before_stop filename))

  unfoldable pub job_id_from_object_key : Text → Option ℕ
  unfolding tagged_id split_at
  job_id_from_object_key object_key = tagged_id (reverse (split_at (λ c. c == slash) object_key))
