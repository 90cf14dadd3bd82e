-- ===== src/Uploads/Storage.antt =====
-- The trait `ObjectStore` of src/storage.rs as far as uploads and jobs use it, and its default `get_range`.
use seiza_server.Base.{
  ℕ, ◌+◌, ◌^◌, ◌≤◌, ◌≡◌, ◌≢◌, Bool, ◌||◌, Option, none, some, List, [], ◌∷◌, ◌++◌, Text, ltb, leb,
  ◌==◌, if◌then◌else◌, length, take, drop,
}

abbrev pub Bytes : Type 0
Bytes = List ℕ

pub record StoredObjectPart : Type 0 where
  pub key : Text
  pub size : ℕ

-- A store as its state and the operations that uploads and jobs call; `none` is an error of the store.
pub record ObjectStore : Type 1 where
  pub State : Type 0
  pub put : Text → Bytes → Option Text → State → Option (Unit {0}) × State
  pub get : Text → State → Option Bytes
  pub get_range : Text → ℕ → ℕ → State → Option Bytes
  pub compose : Text → List StoredObjectPart → Option Text → State → Option (Unit {0}) × State
  pub exists : Text → State → Option Bool
  pub copy : Text → Text → Option Text → State → Option (Unit {0}) × State
  pub delete : Text → State → Option (Unit {0}) × State

-- What is relied on: what was put is there, and no other object is touched.
pub record IsObjectStore (o : ObjectStore) : Type 0 where
  pub get-put :
      (k : Text) (c : Bytes) (t : Option Text) (s : o.State)
      → (o.put k c t s).0 ≡ some tt
      → o.get k (o.put k c t s).1 ≡ some c
  pub get-put_ne :
      (k j : Text) (c : Bytes) (t : Option Text) (s : o.State)
      → j ≢ k
      → o.get j (o.put k c t s).1 ≡ o.get j s
  pub get_range-get :
      (k : Text) (c : Bytes) (n : ℕ) (s : o.State)
      → o.get k s ≡ some c
      → n ≤ length c
      → o.get_range k 0 n s ≡ some (take n c)

-- `u64::checked_add`.
abbrev pub checked_add : ℕ → ℕ → Option ℕ
checked_add a b = if ltb (a + b) (2 ^ 64) then some (a + b) else none

abbrev added : Option ℕ → ℕ → Option ℕ
added none size = none
added (some total) size = checked_add total size

-- `try_fold` with `checked_add` over the sizes.
unfoldable pub sum_checked : Option ℕ → List ℕ → Option ℕ
sum_checked total [] = total
sum_checked total (size ∷ sizes) = sum_checked (added total size) sizes

module _ (o : ObjectStore) where
  abbrev slice : ℕ → ℕ → Option Bytes → Option Bytes
  slice start count none = none
  slice start count (some content) =
      some
        (if leb (length content) start || count == 0 then [] else take count (drop start content))

  -- The default `get_range`: what there is of the range.
  unfoldable pub default_get_range : Text → ℕ → ℕ → o.State → Option Bytes
  default_get_range key start count s = slice start count (o.get key s)

  -- The bytes of a part that is as long as its record says, before those of the later parts.
  abbrev pub joined : ℕ → Option Bytes → Option Bytes → Option Bytes
  joined size none rest = none
  joined size (some content) none = none
  joined size (some content) (some rest) =
      if length content == size then some (content ++ rest) else none

  unfoldable pub gather : List StoredObjectPart → o.State → Option Bytes
  gather [] s = some []
  gather (part ∷ parts) s = joined part.size (o.get part.key s) (gather parts s)
