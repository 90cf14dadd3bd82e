-- ===== src/Base/Perms.antt =====
-- Facts about every entry, carried along permutations, filters and memberships.
use mathlib.Core.Path.{◌≡◌, refl, sym, subst}
use mathlib.Core.Logic.{inl, inr}
use mathlib.Core.Bool.{Bool, true}
use mathlib.Core.List.{List, [], ◌∷◌, Permᴰ, Memᴰ}
use seiza_server.Base.Tests.{if◌then◌else◌, Bool-cases}
use seiza_server.Base.Lists.{All, filter, All-map}

module _ {ℓ κ} {A : Type ℓ} (P : A → Type κ) where
  pub All-perm : {xs ys : List A} → Permᴰ xs ys → All P xs → All P ys
  All-perm Permᴰ.nil h = h
  All-perm (Permᴰ.cons e p) h = (subst P e h.0, All-perm p h.1)
  All-perm (Permᴰ.swap e d) h = (subst P d h.1.0, (subst P e h.0, h.1.1))
  All-perm (Permᴰ.trans p q) h = All-perm q (All-perm p h)

  -- What holds of every entry that passes holds of every entry, if it passes.
  pub All-of_filter :
      (test : A → Bool) (xs : List A) → All P (filter test xs) → All (λ x. test x ≡ true → P x) xs
  All-of_filter test [] h = tt
  All-of_filter test (x ∷ xs) h = elim (Bool-cases (test x)) [
    | inl hit ↦
        let k : All P (x ∷ filter test xs) =
          subst (λ b. All P (if b then x ∷ filter test xs else filter test xs)) hit h in
        (λ _. k.0, All-of_filter test xs k.1)
    | inr miss ↦
        let k : All P (filter test xs) =
          subst (λ b. All P (if b then x ∷ filter test xs else filter test xs)) miss h in
        (λ e. cc, All-of_filter test xs k)
  ]

  pub filter-All :
      (test : A → Bool) (xs : List A) → All (λ x. test x ≡ true → P x) xs → All P (filter test xs)
  filter-All test [] h = tt
  filter-All test (x ∷ xs) h = elim (Bool-cases (test x)) [
    | inl hit ↦ rw hit (h.0 hit, filter-All test xs h.1)
    | inr miss ↦ rw miss (filter-All test xs h.1)
  ]

module _ {ℓ} {A : Type ℓ} where
  -- Every entry is a member.
  pub All-Mem : (xs : List A) → All (λ x. Memᴰ x xs) xs
  All-Mem [] = tt
  All-Mem (x ∷ xs) = (Memᴰ.head refl, All-map (λ y m. Memᴰ.tail m) xs (All-Mem xs))

module _ {ℓ κ} {A : Type ℓ} (P : A → Type κ) where
  pub All-at : {x : A} {xs : List A} → Memᴰ x xs → All P xs → P x
  All-at (Memᴰ.head e) h = subst P (sym e) h.0
  All-at (Memᴰ.tail m) h = All-at m h.1
