-- ===== src/Tus/Metadata.antt =====
-- The headers that create an upload in src/api/tus.rs: `parse_upload_metadata`, `upload_metadata`
-- and `parse_concat_part_ids`. A header's value is ASCII, so only a space and a tab are blank.
use mathlib.Core.List.{reverse}
use seiza_server.Base.{
  ℕ, Bool, true, false, not, ◌&&◌, ◌||◌, Option, none, some, List, [], ◌∷◌, ◌++◌, Text, text,
  text_eq, leb, ◌==◌, if◌then◌else◌, any, filter, find, length, map,
}
use seiza_server.Tus.Requests.{Outcome, answer, failed, and_then, bad_request, Headers}
use seiza_server.Service.Names.{slash, split_at, strip_prefix, safe_filename}
use seiza_server.Service.World.{Imaging}

-- The base64 decoder and `String::from_utf8`, the path of a URI, `Uuid::parse_str`, and
-- `serde_json` and `default` for the solve options.
pub record Formats (O : Type 0) : Type 0 where
  pub decode_base64 : Text → Option (List ℕ)
  pub from_utf8 : List ℕ → Option Text
  pub uri_path : Text → Option Text
  pub is_uuid : Text → Bool
  pub parse_options : Text → Option O
  pub default_options : O

abbrev pub is_blank : ℕ → Bool
is_blank c = c == 32 || c == 9

abbrev pub is_empty : Text → Bool
is_empty [] = true
is_empty (c ∷ cs) = false

unfoldable pub drop_blanks : Text → Text
drop_blanks [] = []
drop_blanks (c ∷ cs) = let rest = drop_blanks cs in if is_blank c then rest else c ∷ cs

unfoldable pub trim : Text → Text
unfolding drop_blanks
trim s = reverse (drop_blanks (reverse (drop_blanks s)))

-- `split_once(' ')`, or the whole with an empty value.
unfoldable pub key_and_value : Text → Text × Text
key_and_value [] = ([], [])
key_and_value (c ∷ cs) =
    let rest = key_and_value cs in if c == 32 then ([], cs) else (c ∷ rest.0, rest.1)

abbrev pub or_bad_request : {A : Type 0} → Option A → Outcome A
or_bad_request none = failed bad_request
or_bad_request (some a) = answer a

-- `split_ascii_whitespace`.
unfoldable pub words : Text → List Text
unfolding split_at
words s = filter (λ w. not (is_empty w)) (split_at is_blank s)

module _ {O : Type 0} (formats : Formats O) where
  unfoldable pub decode_pair : Text → Outcome (Text × Text)
  unfolding key_and_value
  decode_pair pair =
      let (key, encoded) = key_and_value pair in
      and_then (or_bad_request (formats.decode_base64 encoded)) (λ bytes.
        and_then (or_bad_request (formats.from_utf8 bytes)) (λ value. answer (key, value)))

  unfoldable pub decode_pairs : List Text → Outcome (List (Text × Text))
  unfolding decode_pair
  decode_pairs [] = answer []
  decode_pairs (pair ∷ pairs) =
      and_then (decode_pair pair)
        (λ entry. and_then (decode_pairs pairs) (λ entries. answer (entry ∷ entries)))

  abbrev pub decode_header : Option Text → Outcome (List (Text × Text))
  decode_header none = answer []
  decode_header (some raw) =
      decode_pairs (filter (λ pair. not (is_empty pair)) (map trim (split_at (λ c. c == b',') raw)))

  -- The entries in order; a map keeps the last one of a key.
  unfoldable pub parse_upload_metadata : Headers → Outcome (List (Text × Text))
  unfolding split_at trim decode_pairs
  parse_upload_metadata headers = decode_header (headers (text "upload-metadata"))

  abbrev pub value_of : Option (Text × Text) → Option Text
  value_of none = none
  value_of (some entry) = some entry.1

  -- `HashMap::get`.
  unfoldable pub entry_of : Text → List (Text × Text) → Option Text
  entry_of key metadata = value_of (find (λ entry. text_eq entry.0 key) (reverse metadata))

  abbrev pub named : Option Text → Outcome Text
  named none = failed bad_request
  named (some filename) =
      let name = safe_filename filename in if is_empty name then failed bad_request else answer name

  abbrev pub typed : Option Text → Option Text
  typed none = none
  typed (some value) = if not (is_empty value) && leb (length value) 255 then some value else none

  abbrev pub optioned : Option Text → Outcome O
  optioned none = answer formats.default_options
  optioned (some raw) = or_bad_request (formats.parse_options raw)

  unfoldable pub upload_metadata : Imaging O → Headers → Outcome (Text × Option Text × O)
  unfolding parse_upload_metadata entry_of safe_filename
  upload_metadata imaging headers = and_then (parse_upload_metadata headers) (λ metadata.
      and_then (named (entry_of (text "filename") metadata)) (λ original_filename.
        and_then (optioned (entry_of (text "options") metadata)) (λ options.
          if imaging.is_valid options
          then answer (original_filename, typed (entry_of (text "filetype") metadata), options)
          else failed bad_request)))

  -- An identifier without `/`, behind the uploads' path.
  abbrev pub upload_of : Option Text → Outcome Text
  upload_of none = failed bad_request
  upload_of (some id) =
      if not (is_empty id) && not (any (λ c. c == slash) id) then answer id else failed bad_request

  unfoldable pub part_id : Text → Outcome Text
  unfolding strip_prefix
  part_id raw =
      and_then (or_bad_request (formats.uri_path raw))
        (λ path. upload_of (strip_prefix (text "/api/v1/uploads/") path))

  unfoldable pub part_ids : List Text → List Text → Outcome (List Text)
  unfolding part_id
  part_ids [] ids = answer ids
  part_ids (raw ∷ raws) ids = and_then (part_id raw) (λ id.
      if not (formats.is_uuid id) || any (λ existing. text_eq existing id) ids
      then failed bad_request
      else part_ids raws (ids ++ id ∷ []))

  abbrev pub at_least_one : List Text → Outcome (List Text)
  at_least_one [] = failed bad_request
  at_least_one (id ∷ ids) = answer (id ∷ ids)

  abbrev pub concat_ids : Option Text → Outcome (List Text)
  concat_ids none = failed bad_request
  concat_ids (some raw_parts) = and_then (part_ids (words raw_parts) []) at_least_one

  unfoldable pub parse_concat_part_ids : Text → Outcome (List Text)
  unfolding strip_prefix words part_ids
  parse_concat_part_ids value = concat_ids (strip_prefix (text "final;") value)
