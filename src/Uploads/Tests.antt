-- ===== src/Uploads/Tests.antt =====
-- Uploads of a few bytes in a store in memory.
use seiza_server.Base.{ℕ, ◌≡◌, refl, true, none, List, [], ◌∷◌, ◌++◌, arith, Text, text}
use seiza_server.Uploads.Storage.{Bytes, gather}
use seiza_server.Uploads.Session.{ResumableUpload, offset_mismatch, Result, ok, Codec, append, new}
use seiza_server.Uploads.Reading.{assemble}
use seiza_server.Uploads.Memory.{Memory, memory_store, memory_store-IsObjectStore}
use seiza_server.Uploads.Soundness.{IsSound, append-IsSound}
use seiza_server.Uploads.Contents.{Holds}
use seiza_server.Uploads.Roundtrip.{append-Holds, append_refused, uploaded, upload_roundtrip}

abbrev codec : Codec ℕ ℕ
codec = record { to_json = λ u. []; from_json = λ b. none; is_uuid = λ t. true }

abbrev data_prefix : Text
data_prefix = text "/data/"

abbrev fresh : ResumableUpload ℕ ℕ
fresh = new (text "u1") 0 (text "field.fits") none 5 (text "job") 0 (text "anna") 1

abbrev first : Result ℕ × ResumableUpload ℕ ℕ × Memory
first = append memory_store codec data_prefix 0 (1 ∷ 2 ∷ 3 ∷ []) fresh []

fresh-IsSound : IsSound fresh
fresh-IsSound =
    unfold new in record { chunks_length = refl; in_total = omega arith; u64 = omega arith }

fresh-Holds : Holds memory_store data_prefix fresh [] []
fresh-Holds = unfold new gather in record { own_chunks = tt; gathered = refl }

append-IsSound_example : IsSound first.1
append-IsSound_example =
    append-IsSound memory_store codec data_prefix 0 (1 ∷ 2 ∷ 3 ∷ []) fresh [] fresh-IsSound

append-Holds_example : Holds memory_store data_prefix first.1 first.2 ([] ++ 1 ∷ 2 ∷ 3 ∷ [])
append-Holds_example =
    append-Holds memory_store codec data_prefix 0 (1 ∷ 2 ∷ 3 ∷ []) fresh [] [] 3
      memory_store-IsObjectStore fresh-IsSound fresh-Holds (unfold append new in refl)

append_refused_example :
    ((append memory_store codec data_prefix 2 (7 ∷ []) fresh []).1 ≡ fresh)
    × ((append memory_store codec data_prefix 2 (7 ∷ []) fresh []).2 ≡ [])
append_refused_example =
    append_refused memory_store codec data_prefix 2 (7 ∷ []) fresh [] (offset_mismatch 0 2)
      (λ h. cc) (unfold append new in refl)

-- The second request is out of order and is refused.
abbrev requests : List (ℕ × Bytes)
requests = (0, 1 ∷ 2 ∷ 3 ∷ []) ∷ (0, 9 ∷ []) ∷ (3, 4 ∷ 5 ∷ []) ∷ []

abbrev result : ResumableUpload ℕ ℕ × Memory × Bytes
result = uploaded memory_store codec data_prefix requests (fresh, [], [])

contents_of_result : result.2 ≡ 1 ∷ 2 ∷ 3 ∷ 4 ∷ 5 ∷ []
contents_of_result = unfold uploaded append new in refl

upload_roundtrip_example : assemble memory_store result.0 result.1 ≡ ok result.2
upload_roundtrip_example =
    upload_roundtrip memory_store codec data_prefix (text "u1") 0 (text "field.fits") none 5
      (text "job") 0 (text "anna") 1 requests [] memory_store-IsObjectStore (omega arith)
      (unfold uploaded append new in refl)
