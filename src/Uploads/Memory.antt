-- ===== src/Uploads/Memory.antt =====
-- An object store in memory: the newest write of a key first.
use seiza_server.Base.{
  ℕ, zero, suc, ◌≡◌, refl, inl, inr, not, ◌||◌, Option, none, some, List, [], ◌∷◌, ◌++◌, arith,
  Text, text_eq, text_eq_refl, text_eq→eq, leb, ◌==◌, if◌then◌else◌, length, take, drop, filter,
  is_some, Bool-cases,
}
use seiza_server.Uploads.Storage.{Bytes, StoredObjectPart, ObjectStore, IsObjectStore}

abbrev pub Memory : Type 0
Memory = List (Text × Bytes)

unfoldable pub lookup : Text → Memory → Option Bytes
lookup k [] = none
lookup k ((j, c) ∷ s) = let rest = lookup k s in if text_eq j k then some c else rest

unfoldable pub range : ℕ → ℕ → Option Bytes → Option Bytes
range start count none = none
range start count (some content) =
    some (if leb (length content) start || count == 0 then [] else take count (drop start content))

abbrev pub both : Option Bytes → Option Bytes → Option Bytes
both (some a) (some b) = some (a ++ b)
both _ _ = none

unfoldable pub pieces : List StoredObjectPart → Memory → Option Bytes
unfolding lookup
pieces [] s = some []
pieces (p ∷ ps) s = both (lookup p.key s) (pieces ps s)

abbrev pub composed : Text → Option Bytes → Memory → Option (Unit {0}) × Memory
composed k none s = (none, s)
composed k (some c) s = (some tt, (k, c) ∷ s)

abbrev pub memory_store : ObjectStore
memory_store = record {
  State = Memory;
  put = λ k c t s. (some tt, (k, c) ∷ s);
  get = lookup;
  get_range = λ k start count s. range start count (lookup k s);
  compose = λ k parts t s. composed k (pieces parts s) s;
  exists = λ k s. some (is_some (lookup k s));
  copy = λ k j t s. composed j (lookup k s) s;
  delete = λ k s. (some tt, filter (λ e. not (text_eq e.0 k)) s);
}

range-take : (n : ℕ) (c : Bytes) → range 0 n (some c) ≡ some (take n c)
unfolding range
range-take zero [] = refl
range-take zero (x ∷ xs) = ground arith
range-take (suc n) [] = refl
range-take (suc n) (x ∷ xs) = ground arith

pub memory_store-IsObjectStore : IsObjectStore memory_store
unfolding lookup
memory_store-IsObjectStore = record {
  get-put = λ k c t s h. rw (text_eq_refl k) refl;
  get-put_ne = λ k j c t s ne. elim (Bool-cases (text_eq k j)) [
    | inl e ↦ ground (arith, ne, text_eq→eq k j e)
    | inr e ↦ rw e refl
  ];
  get_range-get = λ k c n s h le. rw h (range-take n c);
}
