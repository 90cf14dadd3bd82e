-- ===== src/Queue/Updates.antt =====
-- Lemmas on the SQL statements of Queue/Sql.
use seiza_server.Base.{
  ◌≡◌, refl, ◌≢◌, inl, inr, Bool, true, false, List, [], ◌∷◌, map, arith, Bool-cases, All, Distinct,
}
use seiza_server.Queue.Sql.{update_where, upsert}

module _ {ℓ κ} {A : Type ℓ} (P : A → Type κ) where
  -- An update keeps what its change keeps.
  pub All-update_where :
      (test : A → Bool) (change : A → A)
      → ((x : A) → P x → test x ≡ true → P (change x))
      → (xs : List A) → All P xs
      → All P (update_where test change xs)
  unfolding update_where
  All-update_where test change keep [] h = tt
  All-update_where test change keep (x ∷ xs) h = (
    elim (Bool-cases (test x)) [ inl hit ↦ rw hit (keep x h.0 hit) | inr miss ↦ rw miss h.0 ],
    All-update_where test change keep xs h.1,
  )

module _ {ℓ κ} {A : Type ℓ} {K : Type κ} (key : A → K) where
  pub map-update_where :
      (test : A → Bool) (change : A → A)
      → ((x : A) → key (change x) ≡ key x)
      → (xs : List A) → map key (update_where test change xs) ≡ map key xs
  unfolding update_where
  map-update_where test change keep [] = refl
  map-update_where test change keep (x ∷ xs) =
      ground (arith, keep x, map-update_where test change keep xs)

module _ {ℓ} {A : Type ℓ} where
  pub update_where_none :
      (test : A → Bool) (change : A → A) (xs : List A)
      → All (λ x. test x ≡ false) xs
      → update_where test change xs ≡ xs
  unfolding update_where
  update_where_none test change [] h = refl
  update_where_none test change (x ∷ xs) h = ground (arith, update_where_none test change xs h.1)

module _ {ℓ κ} {A : Type ℓ} {K : Type κ} (key : A → K) where
  map-All_ne :
      (k : K) (test : A → Bool) (change : A → A) (row : A)
      → ((x : A) → key (change x) ≡ key x)
      → key row ≢ k
      → (xs : List A) → All (λ y. y ≢ k) (map key xs)
      → All (λ y. y ≢ k) (map key (upsert test change row xs))
  unfolding upsert
  map-All_ne k test change row keep other [] h = (other, tt)
  map-All_ne k test change row keep other (x ∷ xs) h = elim (Bool-cases (test x)) [
    | inl hit ↦ rw hit (rw (keep x) h)
    | inr miss ↦ rw miss (h.0, map-All_ne k test change row keep other xs h.1)
  ]

  -- An upsert whose test finds its key leaves the keys distinct.
  pub upsert-Distinct :
      (test : A → Bool) (change : A → A) (row : A)
      → ((x : A) → key (change x) ≡ key x)
      → ((x : A) → test x ≡ false → key row ≢ key x)
      → (xs : List A) → Distinct (map key xs)
      → Distinct (map key (upsert test change row xs))
  unfolding upsert
  upsert-Distinct test change row keep apart [] h = (tt, tt)
  upsert-Distinct test change row keep apart (x ∷ xs) h = elim (Bool-cases (test x)) [
    | inl hit ↦ rw hit (rw (keep x) h)
    | inr miss ↦ rw miss (
      map-All_ne (key x) test change row keep (apart x miss) xs h.0,
      upsert-Distinct test change row keep apart xs h.1,
    )
  ]
