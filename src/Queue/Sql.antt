-- ===== src/Queue/Sql.antt =====
-- The SQL statements of src/repository.rs as operations on lists of rows, and what the repository
-- takes from outside: the database's `ORDER BY` and the machine's `f64`.
use Prim.Native.Nat.{ℕ, zero, suc, ◌-◌, ◌/◌, ◌≤◌}
use mathlib.Core.List.{Permᴰ}
use seiza_server.Base.{
  Bool, false, Option, none, some, List, [], ◌∷◌, Text, text_eq, ltb, leb, if◌then◌else◌, All,
}

-- `ORDER BY key ASC` and `ORDER BY key DESC`. SQL leaves the order of ties to the engine.
pub record Engine : Type 1 where
  pub ascending : {A : Type 0} → (A → ℕ) → List A → List A
  pub descending : {A : Type 0} → (A → ℕ) → List A → List A

module _ {A : Type 0} where
  abbrev pub Ascends : (A → ℕ) → List A → Type 0
  Ascends key [] = Unit
  Ascends key (x ∷ xs) = All (λ y. key x ≤ key y) xs × Ascends key xs

  abbrev pub Descends : (A → ℕ) → List A → Type 0
  Descends key [] = Unit
  Descends key (x ∷ xs) = All (λ y. key y ≤ key x) xs × Descends key xs

-- The same rows, in order.
pub record IsEngine (e : Engine) : Type 1 where
  pub ascending_perm : (A : Type 0) (key : A → ℕ) (xs : List A) → Permᴰ (e.ascending key xs) xs
  pub ascending_order : (A : Type 0) (key : A → ℕ) (xs : List A) → Ascends key (e.ascending key xs)
  pub descending_perm : (A : Type 0) (key : A → ℕ) (xs : List A) → Permᴰ (e.descending key xs) xs
  pub descending_order :
      (A : Type 0) (key : A → ℕ) (xs : List A) → Descends key (e.descending key xs)

-- A signed 64-bit number: `negsuc n` is -(n + 1).
pub data ℤ : Type 0 where
  pos : ℕ → ℤ
  negsuc : ℕ → ℤ

abbrev negated : ℕ → ℤ
negated zero = pos 0
negated (suc n) = negsuc n

-- `(now - last).num_milliseconds()`, which drops the fraction on either side of zero.
unfoldable pub num_milliseconds : ℕ → ℕ → ℤ
num_milliseconds now last =
    if leb last now then pos ((now - last) / 1000000) else negated ((last - now) / 1000000)

-- The `f64` operations of the scheduler. `total_rank` is a float's place in IEEE 754 `totalOrder`,
-- by which `f64::total_cmp` compares.
pub record Float : Type 1 where
  pub F : Type 0
  pub of_i64 : ℤ → F
  pub thousand : F
  pub hundredth : F
  pub quarter_max : F
  pub div : F → F → F
  pub mul : F → F → F
  pub max_of : F → F → F
  pub total_rank : F → ℕ

-- `column = $n`, where a NULL is equal to nothing.
abbrev pub text_is : Option Text → Text → Bool
text_is none value = false
text_is (some stored) value = text_eq stored value

-- `column <= $n` and `column > $n`, both false of a NULL.
abbrev pub at_most : Option ℕ → ℕ → Bool
at_most none value = false
at_most (some stored) value = leb stored value

abbrev pub above : Option ℕ → ℕ → Bool
above none value = false
above (some stored) value = ltb value stored

module _ {ℓ} {A : Type ℓ} where
  -- `UPDATE ... SET change WHERE test`.
  unfoldable pub update_where : (A → Bool) → (A → A) → List A → List A
  update_where test change [] = []
  update_where test change (x ∷ xs) = (if test x then change x else x) ∷ update_where test change xs

  -- `INSERT ... ON CONFLICT DO UPDATE`: the first row of that key is changed, or one is added.
  unfoldable pub upsert : (A → Bool) → (A → A) → A → List A → List A
  upsert test change row [] = row ∷ []
  upsert test change row (x ∷ xs) =
      let rest = upsert test change row xs in if test x then change x ∷ xs else x ∷ rest
