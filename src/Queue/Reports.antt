-- ===== src/Queue/Reports.antt =====
-- The history of an owner and the pending notifications of src/repository.rs: proofs about
-- `list_by_owner` and `reclaim_expired`.
use mathlib.Core.List.{Memᴰ, Permᴰ}
use mathlib.Core.List.Permᴰ
use seiza_server.Base.{
  ℕ, zero, suc, min, ◌≤◌, ◌≡◌, refl, sym, ap, subst, ◌∙◌, ◌++◌, inl, inr, Bool, true, ◌&&◌, List,
  [], ◌∷◌, map, arith, Text, text_eq, text_eq→eq, ◌==◌, Bool-cases, is_none, length, length-take-le,
  length-map, take, All, All-map, All-at, All-perm, filter-All, All-of_filter, All-Mem, All-take,
  filter, any,
}
use seiza_server.Queue.Rows.{JobHistoryRecord, Row, Notice, Store, history_record_from_row}
use seiza_server.Queue.Sql.{Engine, IsEngine, Descends, upsert}
use seiza_server.Queue.Leases.{
  i64_max, notify, has_expired, reclaim_one, reclaim_all, reclaim_expired,
}
use seiza_server.Queue.Jobs.{list_by_owner}

module _ {W O S : Type 0} where
  -- A history entry taken from a row of that owner.
  abbrev pub OwnedIn : Store W O S → Text → JobHistoryRecord → Type 0
  OwnedIn s owner h =
      (r : Row W O S) × Memᴰ r s.jobs × (r.owner ≡ owner) × (h ≡ history_record_from_row r)

  history-Descends :
      (xs : List (Row W O S))
      → Descends (λ r. r.created_at) xs
      → Descends (λ (h : JobHistoryRecord). h.created_at) (map history_record_from_row xs)
  unfolding history_record_from_row
  history-Descends [] h = tt
  history-Descends (x ∷ xs) h = (older x xs h.0, history-Descends xs h.1)
    where
      older :
          (y : Row W O S) (ys : List (Row W O S))
          → All (λ z. z.created_at ≤ y.created_at) ys
          → All
              (λ (z : JobHistoryRecord). z.created_at ≤ y.created_at)
              (map history_record_from_row ys)
      older y [] k = tt
      older y (z ∷ ys) k = (k.0, older y ys k.1)

  Descends-take :
      (n : ℕ) (xs : List (Row W O S))
      → Descends (λ r. r.created_at) xs
      → Descends (λ r. r.created_at) (take n xs)
  Descends-take zero xs h = tt
  Descends-take (suc n) [] h = tt
  Descends-take (suc n) (x ∷ xs) h =
      (All-take (λ y. y.created_at ≤ x.created_at) n xs h.0, Descends-take n xs h.1)

  history-OwnedIn :
      (s : Store W O S) (owner : Text) (xs : List (Row W O S))
      → All (λ r. Memᴰ r s.jobs × (r.owner ≡ owner)) xs
      → All (OwnedIn s owner) (map history_record_from_row xs)
  history-OwnedIn s owner [] h = tt
  history-OwnedIn s owner (x ∷ xs) h = ((x, h.0.0, h.0.1, refl), history-OwnedIn s owner xs h.1)

  abbrev drop : ℕ → List (Row W O S) → List (Row W O S)
  drop zero xs = xs
  drop (suc n) [] = []
  drop (suc n) (x ∷ xs) = drop n xs

  take-append-drop : (n : ℕ) (xs : List (Row W O S)) → take n xs ++ drop n xs ≡ xs
  take-append-drop zero xs = refl
  take-append-drop (suc n) [] = refl
  take-append-drop (suc n) (x ∷ xs) = ap (λ ys. x ∷ ys) (take-append-drop n xs)

  length-take : (n : ℕ) (xs : List (Row W O S)) → length (take n xs) ≡ min n (length xs)
  length-take zero xs = omega arith
  length-take (suc n) [] = omega arith
  length-take (suc n) (x ∷ xs) = omega (arith, length-take n xs)

  -- No row of the second list is newer than one of the first.
  abbrev pub NewerThan : List (Row W O S) → List (Row W O S) → Type 0
  NewerThan chosen rest = All (λ r. All (λ c. r.created_at ≤ c.created_at) chosen) rest

  All-drop : (P : Row W O S → Type 0) (n : ℕ) (xs : List (Row W O S)) → All P xs → All P (drop n xs)
  All-drop P zero xs h = h
  All-drop P (suc n) [] h = tt
  All-drop P (suc n) (x ∷ xs) h = All-drop P n xs h.1

  NewerThan-nil : (rest : List (Row W O S)) → NewerThan [] rest
  NewerThan-nil [] = tt
  NewerThan-nil (r ∷ rest) = (tt, NewerThan-nil rest)

  NewerThan-cons :
      (c : Row W O S) (chosen rest : List (Row W O S))
      → All (λ r. r.created_at ≤ c.created_at) rest
      → NewerThan chosen rest
      → NewerThan (c ∷ chosen) rest
  NewerThan-cons c chosen [] h k = tt
  NewerThan-cons c chosen (r ∷ rest) h k = ((h.0, k.0), NewerThan-cons c chosen rest h.1 k.1)

  take-NewerThan-drop :
      (n : ℕ) (xs : List (Row W O S))
      → Descends (λ r. r.created_at) xs
      → NewerThan (take n xs) (drop n xs)
  take-NewerThan-drop zero xs h = NewerThan-nil xs
  take-NewerThan-drop (suc n) [] h = tt
  take-NewerThan-drop (suc n) (x ∷ xs) h =
      NewerThan-cons x (take n xs) (drop n xs)
        (All-drop (λ r. r.created_at ≤ x.created_at) n xs h.0) (take-NewerThan-drop n xs h.1)

  length-perm : {xs ys : List (Row W O S)} → Permᴰ xs ys → length xs ≡ length ys
  length-perm Permᴰ.nil = refl
  length-perm (Permᴰ.cons e p) = ap suc (length-perm p)
  length-perm (Permᴰ.swap e d) = refl
  length-perm (Permᴰ.trans p q) = length-perm p ∙ length-perm q

  -- The owner's rows are these entries' rows and the rest, none of which is newer.
  pub record Newest (s : Store W O S) (owner : Text) (limit : ℕ) (entries : List JobHistoryRecord)
      : Type 0 where
    pub chosen : List (Row W O S)
    pub rest : List (Row W O S)
    pub same : entries ≡ map history_record_from_row chosen
    pub all_of : Permᴰ (chosen ++ rest) (filter (λ row. text_eq row.owner owner) s.jobs)
    pub count :
        length chosen
        ≡ min (min limit i64_max) (length (filter (λ row. text_eq row.owner owner) s.jobs))
    pub newer : NewerThan chosen rest

  -- The history of an owner has at most the asked number of entries, each of one of the owner's
  -- jobs, and each no newer than the one before it. They are the owner's newest jobs: the owner's
  -- rows are those of the entries, each once, and a rest of which none is newer than an entry; and
  -- there are as many entries as the limit, taken up to the largest signed 64-bit number, and the
  -- number of the owner's rows allow. The database sorts as it is asked to.
  pub list_by_owner_lem :
      (e : Engine) (owner : Text) (limit : ℕ) (s : Store W O S)
      → IsEngine e
      → (length (list_by_owner e owner limit s) ≤ limit)
        × All (OwnedIn s owner) (list_by_owner e owner limit s)
        × Descends (λ h. h.created_at) (list_by_owner e owner limit s)
        × Newest s owner limit (list_by_owner e owner limit s)
  unfolding list_by_owner
  list_by_owner_lem e owner limit s law = elim (Bool-cases (limit == 0)) [
    | inl nothing ↦ rw nothing (omega arith, tt, tt, newest_none (ground (arith, nothing)))
    | inr some_of ↦ rw some_of (
      omega (
        arith,
        length-map {0, 0} (take (min limit i64_max) rows) history_record_from_row,
        length-take-le {0} (min limit i64_max) rows,
      ),
      history-OwnedIn s owner (take (min limit i64_max) rows) (
          All-take (λ r. Memᴰ r s.jobs × (r.owner ≡ owner)) (min limit i64_max) rows
            (All-perm (λ r. Memᴰ r s.jobs × (r.owner ≡ owner)) (Permᴰ.symm perm) sources)),
      history-Descends (take (min limit i64_max) rows) (
          Descends-take (min limit i64_max) rows
            (law.descending_order (Row W O S) (λ r. r.created_at) mine)),
      newest_rows,
    )
  ]
    where
      mine : List (Row W O S)
      mine = filter (λ row. text_eq row.owner owner) s.jobs

      rows : List (Row W O S)
      rows = e.descending (λ row. row.created_at) mine

      perm : Permᴰ rows mine
      perm = law.descending_perm (Row W O S) (λ r. r.created_at) mine

      newest_none : limit ≡ 0 → Newest s owner limit []
      newest_none none_asked = record {
        chosen = [];
        rest = mine;
        same = refl;
        all_of = Permᴰ.refl mine;
        count = omega (arith, none_asked);
        newer = NewerThan-nil mine;
      }

      newest_rows :
          Newest s owner limit (map history_record_from_row (take (min limit i64_max) rows))
      newest_rows = record {
        chosen = take (min limit i64_max) rows;
        rest = drop (min limit i64_max) rows;
        same = refl;
        all_of = subst (λ ys. Permᴰ ys mine) (sym (take-append-drop (min limit i64_max) rows)) perm;
        count =
            length-take (min limit i64_max) rows ∙ ap (min (min limit i64_max)) (length-perm perm);
        newer =
            take-NewerThan-drop (min limit i64_max) rows
              (law.descending_order (Row W O S) (λ r. r.created_at) mine);
      }

      sources : All (λ r. Memᴰ r s.jobs × (r.owner ≡ owner)) mine
      sources =
          filter-All (λ r. Memᴰ r s.jobs × (r.owner ≡ owner)) (λ row. text_eq row.owner owner)
            s.jobs (All-map (λ r m h. (m, text_eq→eq r.owner owner h)) s.jobs (All-Mem s.jobs))

-- The job's notice is in the outbox and is not delivered.
abbrev pub is_pending : ℕ → List Notice → Bool
is_pending i outbox = any (λ n. (n.job_id == i) && is_none n.delivered_at) outbox

notify-keeps_pending :
    (i j : ℕ) (xs : List Notice) → is_pending i xs ≡ true → is_pending i (notify j xs) ≡ true
unfolding notify upsert
notify-keeps_pending i j [] h = cc
notify-keeps_pending i j (n ∷ xs) h = ground (arith, notify-keeps_pending i j xs)

notify-is_pending : (j : ℕ) (xs : List Notice) → is_pending j (notify j xs) ≡ true
unfolding notify upsert
notify-is_pending j [] = ground arith
notify-is_pending j (n ∷ xs) = ground (arith, notify-is_pending j xs)

module _ {W O S : Type 0} where
  reclaim_all-keeps_pending :
      (i : ℕ) (rows : List (Row W O S)) (s : Store W O S)
      → is_pending i s.outbox ≡ true
      → is_pending i (reclaim_all rows s).outbox ≡ true
  unfolding reclaim_all reclaim_one
  reclaim_all-keeps_pending i [] s h = h
  reclaim_all-keeps_pending i (r ∷ rows) s h =
      reclaim_all-keeps_pending i rows (reclaim_one r.id s) (notify-keeps_pending i r.id s.outbox h)

  reclaim_all-is_pending :
      (rows : List (Row W O S)) (s : Store W O S)
      → All (λ r. is_pending r.id (reclaim_all rows s).outbox ≡ true) rows
  unfolding reclaim_all reclaim_one
  reclaim_all-is_pending [] s = tt
  reclaim_all-is_pending (r ∷ rows) s = (
    reclaim_all-keeps_pending r.id rows (reclaim_one r.id s) (notify-is_pending r.id s.outbox),
    reclaim_all-is_pending rows (reclaim_one r.id s),
  )

  -- Reclaiming leaves a pending notice for every job whose lease had run out.
  pub reclaim_expired-is_pending :
      (now : ℕ) (s : Store W O S) (r : Row W O S)
      → Memᴰ r s.jobs
      → has_expired now r ≡ true
      → is_pending r.id (reclaim_expired now s).outbox ≡ true
  unfolding reclaim_expired
  reclaim_expired-is_pending now s r m h =
      All-at (λ x. has_expired now x ≡ true → is_pending x.id (reclaim_expired now s).outbox ≡ true)
        m
        (All-of_filter
          (λ x. is_pending x.id (reclaim_all (filter (has_expired now) s.jobs) s).outbox ≡ true)
          (has_expired now) s.jobs (reclaim_all-is_pending (filter (has_expired now) s.jobs) s))
        h
