-- ===== src/Queue/Lookup.antt =====
-- Rows found by id, where ids are unique.
use seiza_server.Base.{
  ℕ, ◌≡◌, refl, subst, ◌≢◌, inl, inr, Bool, true, false, ◌&&◌, Option, some, List, [], ◌∷◌, map,
  arith, ◌==◌, ==_iff, if◌then◌else◌, Bool-cases, length, All, Distinct, filter, filter_none, find,
}
use seiza_server.Queue.Rows.{Row}
use seiza_server.Queue.Sql.{update_where}

module _ {W O S : Type 0} where
  -- `SELECT * FROM jobs_v2 WHERE id = $`.
  abbrev pub row_of : ℕ → List (Row W O S) → Option (Row W O S)
  row_of j xs = find (λ row. row.id == j) xs

  pub id-row_of : (j : ℕ) (xs : List (Row W O S)) (r : Row W O S) → row_of j xs ≡ some r → r.id ≡ j
  id-row_of j [] r h = absurd (cc)
  id-row_of j (x ∷ xs) r h = elim (Bool-cases (x.id == j)) [
    | inl hit ↦ ground arith
    | inr miss ↦ id-row_of j xs r (ground arith)
  ]

  none_of_id :
      (test : Row W O S → Bool) (j : ℕ)
      → ((x : Row W O S) → test x ≡ true → x.id ≡ j)
      → (xs : List (Row W O S)) → All (λ i. i ≢ j) (map (λ x. x.id) xs)
      → All (λ x. test x ≡ false) xs
  none_of_id test j asks [] h = tt
  none_of_id test j asks (x ∷ xs) h = (
    elim (Bool-cases (test x)) [ inl passed ↦ absurd (h.0 (asks x passed)) | inr failed ↦ failed ],
    none_of_id test j asks xs h.1,
  )

  ids_ne :
      (j : ℕ) (x : Row W O S) (xs : List (Row W O S))
      → (x.id == j) ≡ true
      → All (λ i. i ≢ x.id) (map (λ y. y.id) xs)
      → All (λ i. i ≢ j) (map (λ y. y.id) xs)
  ids_ne j x xs hit h =
      subst (λ k. All (λ i. i ≢ k) (map (λ (y : Row W O S). y.id) xs)) ((==_iff x.id j).0 hit) h

  -- Only the row of that id can pass a test that asks for the id.
  pub only_row :
      (test : Row W O S → Bool) (j : ℕ)
      → ((x : Row W O S) → test x ≡ true → x.id ≡ j)
      → (xs : List (Row W O S)) (r : Row W O S) → Distinct (map (λ x. x.id) xs)
      → row_of j xs ≡ some r
      → test r ≡ false
      → All (λ x. test x ≡ false) xs
  only_row test j asks [] r d h no_r = tt
  only_row test j asks (x ∷ xs) r d h no_r = elim (Bool-cases (x.id == j)) [
    | inl hit ↦
        let same : x ≡ r = ground arith in
        (rw same no_r, none_of_id test j asks xs (ids_ne j x xs hit d.0))
    | inr miss ↦ (
      elim (Bool-cases (test x)) [
        | inl passed ↦ absurd (ground (arith, asks x passed))
        | inr failed ↦ failed
      ],
      only_row test j asks xs r d.1 (ground arith) no_r,
    )
  ]

  -- If the row of that id passes, it is the one row that does.
  pub length-filter_one :
      (test : Row W O S → Bool) (j : ℕ)
      → ((x : Row W O S) → test x ≡ true → x.id ≡ j)
      → (xs : List (Row W O S)) (r : Row W O S) → Distinct (map (λ x. x.id) xs)
      → row_of j xs ≡ some r
      → test r ≡ true
      → length (filter test xs) ≡ 1
  length-filter_one test j asks [] r d h yes_r = absurd (cc)
  length-filter_one test j asks (x ∷ xs) r d h yes_r = elim (Bool-cases (x.id == j)) [
    | inl hit ↦
        let same : x ≡ r = ground arith in
        let first : test x ≡ true = rw same yes_r in
        rw first (
          rw (filter_none test xs (none_of_id test j asks xs (ids_ne j x xs hit d.0)))
            (omega arith))
    | inr miss ↦ elim (Bool-cases (test x)) [
      | inl passed ↦ absurd (ground (arith, asks x passed))
      | inr failed ↦ rw failed (length-filter_one test j asks xs r d.1 (ground arith) yes_r)
    ]
  ]

  pub row_of-update_where :
      (test : Row W O S → Bool) (change : Row W O S → Row W O S)
      → ((x : Row W O S) → (change x).id ≡ x.id)
      → (j : ℕ) (xs : List (Row W O S)) (r : Row W O S) → row_of j xs ≡ some r
      → row_of j (update_where test change xs) ≡ some (if test r then change r else r)
  unfolding update_where
  row_of-update_where test change keep j [] r h = cc
  row_of-update_where test change keep j (x ∷ xs) r h =
      ground (arith, keep x, row_of-update_where test change keep j xs r)

  -- The one row of an id that passes a further test.
  pub row_of-filter :
      (p : Row W O S → Bool) (j : ℕ) (xs : List (Row W O S))
      → Distinct (map (λ x. x.id) xs)
      → (length (filter (λ x. (x.id == j) && p x) xs) == 1) ≡ true
      → (r : Row W O S) × (row_of j xs ≡ some r) × (p r ≡ true)
  row_of-filter p j [] d h = absurd (ground arith)
  row_of-filter p j (x ∷ xs) d h = elim (Bool-cases (x.id == j)) [
    | inl hit ↦ elim (Bool-cases (p x)) [
      | inl passed ↦ (x, rw hit refl, passed)
      | inr failed ↦ absurd (
          ground (
            arith,
            filter_none (λ y. (y.id == j) && p y) xs
                (none_of_id (λ y. (y.id == j) && p y) j (λ y t. ground arith) xs
                  (ids_ne j x xs hit d.0)),
          ))
    ]
    | inr miss ↦
        let (r, found, passed) = row_of-filter p j xs d.1 (ground arith) in
        (r, rw miss found, passed)
  ]
