-- ===== src/Uploads/Keys.antt =====
-- The object keys of an upload: `upload_namespace`, `state_key` and `chunk_key` of src/uploads.rs.
use mathlib.Core.List.{reverse}
use native.Mathlib.Nat.{pow-suc}
use seiza_server.Base.{
  ℕ, zero, suc, ◌+◌, ◌/◌, ◌%◌, ◌^◌, ◌<◌, ◌≡◌, ◌≢◌, [], ◌∷◌, ◌++◌, arith, Text, text, ◌==◌,
  if◌then◌else◌,
}

-- The byte of `/`.
abbrev slash : ℕ
slash = b'/'

unfoldable pub trim_slashes : Text → Text
trim_slashes [] = []
trim_slashes (c ∷ cs) = let rest = trim_slashes cs in if c == slash then rest else c ∷ cs

-- `trim_matches('/')`.
unfoldable pub trim_matches : Text → Text
unfolding trim_slashes
trim_matches s = reverse (trim_slashes (reverse (trim_slashes s)))

abbrev pub namespace_under : Text → Text → Text
namespace_under [] id = text ".resumable/" ++ id
namespace_under (c ∷ cs) id = (c ∷ cs) ++ (text "/.resumable/" ++ id)

unfoldable pub upload_namespace : Text → Text → Text
unfolding trim_matches
upload_namespace storage_prefix id = namespace_under (trim_matches storage_prefix) id

unfoldable pub state_key : Text → Text → Text
unfolding upload_namespace
state_key storage_prefix id = upload_namespace storage_prefix id ++ text "/state.json"

-- The last `k` decimal digits, with leading zeros, before `rest`.
unfoldable pub padded : ℕ → ℕ → Text → Text
padded zero n rest = rest
padded (suc k) n rest = padded k (n / 10) ((b'0' + n % 10) ∷ rest)

-- `{offset:020}`: a `u64` has at most 20 digits.
unfoldable pub chunk_key : Text → Text → ℕ → Text
unfolding upload_namespace padded
chunk_key storage_prefix id offset =
    upload_namespace storage_prefix id ++ (text "/chunks/" ++ padded 20 offset [])

padded_injective :
    (k n m : ℕ) (a b : Text)
    → n < 10 ^ k
    → m < 10 ^ k
    → padded k n a ≡ padded k m b
    → (n ≡ m) × (a ≡ b)
unfolding padded
padded_injective zero n m a b hn hm h = (omega arith, h)
padded_injective (suc k) n m a b hn hm h =
    let low : n / 10 < 10 ^ k = omega (arith, pow-suc 10 k) in
    let low' : m / 10 < 10 ^ k = omega (arith, pow-suc 10 k) in
    let (tens, rest) = padded_injective k (n / 10) (m / 10) _ _ low low' h in
    (ground (arith, rest, tens), ground (arith, rest))

pub append_cancel : (xs ys zs : Text) → xs ++ ys ≡ xs ++ zs → ys ≡ zs
append_cancel [] ys zs h = h
append_cancel (x ∷ xs) ys zs h = append_cancel xs ys zs (cc)

-- Chunks at different offsets have different keys.
pub chunk_key_injective :
    (prefix id : Text) (n m : ℕ)
    → n < 2 ^ 64
    → m < 2 ^ 64
    → chunk_key prefix id n ≡ chunk_key prefix id m
    → n ≡ m
unfolding chunk_key
chunk_key_injective prefix id n m hn hm h =
    (padded_injective 20 n m [] [] (omega arith) (omega arith) (
      append_cancel (text "/chunks/") (padded 20 n []) (padded 20 m [])
        (append_cancel (upload_namespace prefix id) _ _ h))).0

-- The key of the state is no chunk's key.
pub state_key-ne-chunk_key :
    (prefix id : Text) (n : ℕ) → chunk_key prefix id n ≢ state_key prefix id
unfolding chunk_key state_key
state_key-ne-chunk_key prefix id n h =
    let k = append_cancel (upload_namespace prefix id) _ _ h in ground (arith, k)
