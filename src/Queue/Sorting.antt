-- ===== src/Queue/Sorting.antt =====
-- A database that orders by insertion and floats in millionths: the outside of the repository at
-- concrete values, for tests.
use mathlib.Core.List.{Permᴰ}
use seiza_server.Base.{
  ℕ, ◌*◌, ◌/◌, ◌≤◌, max, refl, inl, inr, Bool, List, [], ◌∷◌, arith, leb, if◌then◌else◌, Bool-cases,
  All-map, All-perm,
}
use mathlib.Core.List.Permᴰ
use seiza_server.Queue.Sql.{Engine, IsEngine, Ascends, Descends, Float, ℤ, pos, negsuc}

module _ {A : Type 0} (before : A → A → Bool) where
  unfoldable pub insert : A → List A → List A
  insert x [] = x ∷ []
  insert x (y ∷ ys) = let rest = y ∷ insert x ys in if before x y then x ∷ y ∷ ys else rest

  unfoldable pub sort : List A → List A
  sort [] = []
  sort (x ∷ xs) = insert x (sort xs)

  insert-perm : (x : A) (xs : List A) → Permᴰ (insert x xs) (x ∷ xs)
  unfolding insert
  insert-perm x [] = Permᴰ.refl (x ∷ [])
  insert-perm x (y ∷ ys) = elim (Bool-cases (before x y)) [
    | inl first ↦ rw first (Permᴰ.refl (x ∷ y ∷ ys))
    | inr later ↦ rw later (Permᴰ.trans (Permᴰ.cons refl (insert-perm x ys)) (Permᴰ.swap refl refl))
  ]

  pub sort-perm : (xs : List A) → Permᴰ (sort xs) xs
  unfolding sort
  sort-perm [] = Permᴰ.nil
  sort-perm (x ∷ xs) = Permᴰ.trans (insert-perm x (sort xs)) (Permᴰ.cons refl (sort-perm xs))

module _ {A : Type 0} (key : A → ℕ) where
  abbrev up : A → A → Bool
  up x y = leb (key x) (key y)

  abbrev down : A → A → Bool
  down x y = leb (key y) (key x)

  insert-Ascends : (x : A) (xs : List A) → Ascends key xs → Ascends key (insert up x xs)
  unfolding insert
  insert-Ascends x [] h = (tt, tt)
  insert-Ascends x (y ∷ ys) h = elim (Bool-cases (up x y)) [
    | inl first ↦ rw first ((ground arith, All-map (λ z k. ground arith) ys h.0), h)
    | inr later ↦ rw later (
      All-perm (λ z. key y ≤ key z) (Permᴰ.symm (insert-perm up x ys)) (ground arith, h.0),
      insert-Ascends x ys h.1,
    )
  ]

  sort-Ascends : (xs : List A) → Ascends key (sort up xs)
  unfolding sort
  sort-Ascends [] = tt
  sort-Ascends (x ∷ xs) = insert-Ascends x (sort up xs) (sort-Ascends xs)

  insert-Descends : (x : A) (xs : List A) → Descends key xs → Descends key (insert down x xs)
  unfolding insert
  insert-Descends x [] h = (tt, tt)
  insert-Descends x (y ∷ ys) h = elim (Bool-cases (down x y)) [
    | inl first ↦ rw first ((ground arith, All-map (λ z k. ground arith) ys h.0), h)
    | inr later ↦ rw later (
      All-perm (λ z. key z ≤ key y) (Permᴰ.symm (insert-perm down x ys)) (ground arith, h.0),
      insert-Descends x ys h.1,
    )
  ]

  sort-Descends : (xs : List A) → Descends key (sort down xs)
  unfolding sort
  sort-Descends [] = tt
  sort-Descends (x ∷ xs) = insert-Descends x (sort down xs) (sort-Descends xs)

abbrev pub engine : Engine
engine = record {
  ascending = λ {A} key xs. sort (up key) xs;
  descending = λ {A} key xs. sort (down key) xs;
}

pub engine-IsEngine : IsEngine engine
engine-IsEngine = record {
  ascending_perm = λ A key xs. sort-perm (up key) xs;
  ascending_order = λ A key xs. sort-Ascends key xs;
  descending_perm = λ A key xs. sort-perm (down key) xs;
  descending_order = λ A key xs. sort-Descends key xs;
}

abbrev whole : ℤ → ℕ
whole (pos n) = n * 1000000
whole (negsuc n) = 0

abbrev pub float : Float
float = record {
  F = ℕ;
  of_i64 = whole;
  thousand = 1000000000;
  hundredth = 10000;
  quarter_max = 1000000000000000000000000;
  div = λ a b. a * 1000000 / b;
  mul = λ a b. a * b / 1000000;
  max_of = λ a b. max a b;
  total_rank = λ a. a;
}
