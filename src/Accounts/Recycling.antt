-- ===== src/Accounts/Recycling.antt =====
-- Proofs about `create_astrometry_session` of src/auth.rs.
use mathlib.Core.List.{Permᴰ}
use seiza_server.Base.{
  ℕ, zero, suc, ◌+◌, ◌-◌, ◌≤◌, ◌≡◌, refl, sym, ap, ◌∙◌, subst, inl, inr, Bool, true, false, not,
  ◌&&◌, Option, none, some, List, [], ◌∷◌, ◌++◌, arith, Text, ltb, leb, ◌==◌, length, filter, take,
  drop, length-filter-le, Bool-cases, filter_none, All, All-map,
}
use seiza_server.Queue.Sql.{Engine, IsEngine}
use seiza_server.Queue.Sorting.{sort, sort-perm}
use seiza_server.Identity.Rows.{Account, AuthSession, ApiKey, Tables, Result, ok, err}
use seiza_server.Identity.Tables.{admits_session, insert_session}
use seiza_server.Identity.Sessions.{session_is, list_sessions, delete_session}
use seiza_server.Accounts.Secrets.{Primitives, Outcome, done, failed, done_injective}
use seiza_server.Accounts.ApiKeys.{
  AuthenticatedApiKey, CreatedAstrometrySession, scope_solve_submit, authenticate_api_key,
}
use seiza_server.Accounts.Astrometry.{
  is_live_of, delete_each, recycle_astrometry_sessions, astrometry_session, session_created,
  session_with, for_key, create_astrometry_session,
}

abbrev one_if : Bool → ℕ
one_if true = 1
one_if false = 0

and_true : (a : Bool) → a ≡ a && true
and_true true = refl
and_true false = refl

and_swap : (a b c : Bool) → (a && (b && c)) ≡ (b && (a && c))
and_swap true true c = refl
and_swap true false c = refl
and_swap false true c = refl
and_swap false false c = refl

module _ {A : Type 0} where
  abbrev count : (A → Bool) → List A → ℕ
  count test xs = length (filter test xs)

  count-cons :
      (test : A → Bool) (x : A) (xs : List A)
      → count test (x ∷ xs) ≡ one_if (test x) + count test xs
  count-cons test x xs = elim (Bool-cases (test x)) [
    | inl e ↦ rw e (ground arith)
    | inr e ↦ rw e (ground arith)
  ]

  count-cong : (p q : A → Bool) (xs : List A) → ((x : A) → p x ≡ q x) → count p xs ≡ count q xs
  count-cong p q [] h = refl
  count-cong p q (x ∷ xs) h =
      rw (count-cons p x xs) (rw (count-cons q x xs) (rw (h x) (rw (count-cong p q xs h) refl)))

  count-filter : (p q : A → Bool) (xs : List A) → count p (filter q xs) ≡ count (λ x. q x && p x) xs
  count-filter p q [] = refl
  count-filter p q (x ∷ xs) = elim (Bool-cases (q x)) [
    | inl e ↦ rw e (
        count-cons p x (filter q xs) ∙ elim (Bool-cases (p x)) [
          | inl f ↦ rw f (ground (arith, count-filter p q xs))
          | inr f ↦ rw f (ground (arith, count-filter p q xs))
        ])
    | inr e ↦ rw e (count-filter p q xs)
  ]

  count-append : (p : A → Bool) (xs ys : List A) → count p (xs ++ ys) ≡ count p xs + count p ys
  count-append p [] ys = ground arith
  count-append p (x ∷ xs) ys =
      ground (arith, count-cons p x (xs ++ ys), count-cons p x xs, count-append p xs ys)

  count-perm : (p : A → Bool) {xs ys : List A} → Permᴰ xs ys → count p xs ≡ count p ys
  count-perm p Permᴰ.nil = refl
  count-perm p (Permᴰ.cons {a = a} {b = b} {l₁ = xs} {l₂ = ys} e h) =
      rw (count-cons p a xs) (rw (count-cons p b ys) (rw (count-perm p h) (rw e refl)))
  count-perm p (Permᴰ.swap {a = a} {b = b} {a' = c} {b' = d} {l = xs} e f) = ground (
    arith,
    count-cons p a (b ∷ xs),
    count-cons p b xs,
    count-cons p c (d ∷ xs),
    count-cons p d xs,
    ap (λ z. one_if (p z)) e,
    ap (λ z. one_if (p z)) f,
  )
  count-perm p (Permᴰ.trans h k) = count-perm p h ∙ count-perm p k

  count_all : (xs : List A) → count (λ x. true) xs ≡ length xs
  count_all [] = refl
  count_all (x ∷ xs) = ap suc (count_all xs)

  take-drop : (n : ℕ) (xs : List A) → take n xs ++ drop n xs ≡ xs
  take-drop zero xs = refl
  take-drop (suc n) [] = refl
  take-drop (suc n) (x ∷ xs) = ap (λ l. x ∷ l) (take-drop n xs)

  length-perm : {xs ys : List A} → Permᴰ xs ys → length xs ≡ length ys
  length-perm Permᴰ.nil = refl
  length-perm (Permᴰ.cons e p) = ap suc (length-perm p)
  length-perm (Permᴰ.swap e d) = refl
  length-perm (Permᴰ.trans p q) = length-perm p ∙ length-perm q

  length-drop : (n : ℕ) (xs : List A) → length (drop n xs) ≡ length xs - n
  length-drop zero xs = ground arith
  length-drop (suc n) [] = ground arith
  length-drop (suc n) (x ∷ xs) = ground (arith, length-drop n xs)

module _ (account_id : ℕ) where
  abbrev owned : AuthSession → Bool
  owned s = s.account_id == account_id

  -- Not the row of one of these sessions.
  abbrev spared : List AuthSession → AuthSession → Bool
  spared [] s = true
  spared (d ∷ ds) s = not (session_is account_id d.id s) && spared ds s

  owned_gone : (ds : List AuthSession) → All (λ s. (owned s && spared ds s) ≡ false) ds
  unfolding session_is
  owned_gone [] = tt
  owned_gone (d ∷ ds) = (ground arith, All-map (λ s h. ground (arith, h)) ds (owned_gone ds))

  -- Of a list, what is not among its first `n` is left.
  count-spared :
      (n : ℕ) (xs : List AuthSession)
      → count (λ s. owned s && spared (take n xs) s) xs ≤ length xs - n
  count-spared n xs =
      let test = λ (s : AuthSession). owned s && spared (take n xs) s in
      let parts : count test (take n xs ++ drop n xs) ≡ count test xs =
        ap (count test) (take-drop n xs) in
      let none_left : count test (take n xs) ≡ 0 =
        ap length (filter_none test (take n xs) (owned_gone (take n xs))) in
      ground (
        arith,
        parts,
        none_left,
        count-append test (take n xs) (drop n xs),
        length-filter-le test (drop n xs),
        length-drop n xs,
      )

  module _ {W : Type 0} where
    count-delete_each :
        (test : AuthSession → Bool) (ds : List AuthSession) (t : Tables W)
        → count test (delete_each account_id ds t).sessions
          ≡ count (λ s. test s && spared ds s) t.sessions
    unfolding delete_each delete_session session_is
    count-delete_each test [] t = count-cong _ _ t.sessions (λ s. and_true (test s))
    count-delete_each test (d ∷ ds) t =
        count-delete_each test ds (delete_session account_id d.id t)
        ∙ (count-filter (λ s. test s && spared ds s) (λ s. not (session_is account_id d.id s))
              t.sessions
            ∙ count-cong _ _ t.sessions
                (λ s. and_swap (not (session_is account_id d.id s)) (test s) (spared ds s)))

and_keep : (o l k : Bool) → ((o && l) && k) ≡ (o && (l && (o && k)))
and_keep true l k = refl
and_keep false l k = refl

-- The live sessions of the key among the account's.
abbrev pub is_counted : ℕ → ℕ → ℕ → AuthSession → Bool
is_counted account_id key_id now s = (s.account_id == account_id) && is_live_of key_id now s

abbrev oldest_first : List AuthSession → List AuthSession
oldest_first live = sort (λ (x y : AuthSession). leb x.created_at y.created_at) live

module _ {W : Type 0} (e : Engine) (law : IsEngine e) (account_id key_id now : ℕ) where
  abbrev live_in : Tables W → List AuthSession
  live_in t = filter (is_live_of key_id now) (list_sessions e account_id t)

  -- A count over the list that the code sorts is one over the table.
  count-live_in :
      (p : AuthSession → Bool) (t : Tables W)
      → count p (oldest_first (live_in t))
        ≡ count (λ s. owned account_id s && (is_live_of key_id now s && p s)) t.sessions
  unfolding list_sessions
  count-live_in p t =
      count-perm p (sort-perm (λ (x y : AuthSession). leb x.created_at y.created_at) (live_in t))
      ∙ (count-filter p (is_live_of key_id now) (list_sessions e account_id t)
          ∙ (count-perm (λ s. is_live_of key_id now s && p s)
                (law.descending_perm AuthSession (λ (s : AuthSession). s.created_at)
                  (filter (owned account_id) t.sessions))
              ∙ count-filter (λ s. is_live_of key_id now s && p s) (owned account_id) t.sessions))

  live_count :
      (t : Tables W) → count (is_counted account_id key_id now) t.sessions ≡ length (live_in t)
  live_count t =
      count-cong _ _ t.sessions
        (λ s. ap (λ b. owned account_id s && b) (and_true (is_live_of key_id now s)))
      ∙ (sym (count-live_in (λ s. true) t)
          ∙ (count_all (oldest_first (live_in t))
              ∙ length-perm
                  (sort-perm (λ (x y : AuthSession). leb x.created_at y.created_at) (live_in t))))

  pruned-bound :
      (n : ℕ) (t : Tables W)
      → count
          (is_counted account_id key_id now)
          (delete_each account_id (take n (oldest_first (live_in t))) t).sessions
        ≤ length (live_in t) - n
  pruned-bound n t =
      let xs : List AuthSession = oldest_first (live_in t) in
      let deleted = count-delete_each account_id (is_counted account_id key_id now) (take n xs) t in
      let moved =
        count-cong (λ s. is_counted account_id key_id now s && spared account_id (take n xs) s) _
          t.sessions
          (λ s.
            and_keep (owned account_id s) (is_live_of key_id now s)
              (spared account_id (take n xs) s))
        ∙ sym (count-live_in (λ s. owned account_id s && spared account_id (take n xs) s) t) in
      let few = count-spared account_id n xs in
      let same =
        length-perm
          (sort-perm (λ (x y : AuthSession). leb x.created_at y.created_at) (live_in t)) in
      rw (deleted ∙ moved) (rw (← same) few)

  recycle-bound :
      (t : Tables W)
      → count
          (is_counted account_id key_id now)
          (recycle_astrometry_sessions e account_id key_id now t).sessions
        ≤ 19
  unfolding recycle_astrometry_sessions
  recycle-bound t = elim (Bool-cases (ltb (length (live_in t)) 20)) [
    | inl few ↦ rw few (ground (arith, few, live_count t))
    | inr many ↦ rw many (ground (arith, many, pruned-bound (length (live_in t) + 1 - 20) t))
  ]

  insert-bound :
      (s : AuthSession) (t : Tables W) (n : ℕ)
      → count (is_counted account_id key_id now) t.sessions ≤ n
      → count (is_counted account_id key_id now) (insert_session s t).1.sessions ≤ suc n
  unfolding insert_session
  insert-bound s t n h = elim (Bool-cases (admits_session s t)) [
    | inl f ↦ rw f (
        ground (
          arith,
          h,
          count-append (is_counted account_id key_id now) t.sessions (s ∷ []),
          length-filter-le (is_counted account_id key_id now) (s ∷ []),
        ))
    | inr f ↦ rw f (ground (arith, h))
  ]

module _ {W : Type 0} (p : Primitives) (e : Engine) (law : IsEngine e) (session_id now : ℕ) where
  abbrev Bounded : Outcome CreatedAstrometrySession × Tables W → Type 0
  Bounded w =
      (r : CreatedAstrometrySession) (key_id : ℕ)
      → w.0 ≡ done r
      → r.session.api_key_id ≡ some key_id
      → length (filter (is_counted r.account.id key_id now) w.1.sessions) ≤ 20

  session_created-Bounded :
      (account : Account) (s : AuthSession) (token : Text) (w : Result (Unit {0}) × Tables W)
      → ((key_id : ℕ)
          → s.api_key_id ≡ some key_id
          → count (is_counted account.id key_id now) w.1.sessions ≤ 20)
      → Bounded (session_created p account s token w)
  session_created-Bounded account s token (err, t) h = λ r key_id f g. cc
  session_created-Bounded account s token (ok x, t) h = λ r key_id f g.
      subst
        (λ (x : CreatedAstrometrySession).
          x.session.api_key_id ≡ some key_id
          → count (is_counted x.account.id key_id now) t.sessions ≤ 20)
        (done_injective _ r f) (h key_id) g

  session_with-Bounded :
      (account : Account) (k : ApiKey W) (secret : Option Text) (t : Tables W)
      → count (is_counted account.id k.id now) t.sessions ≤ 19
      → Bounded (session_with p session_id now account k secret t)
  unfolding astrometry_session
  session_with-Bounded account k none t h = λ r key_id f g. cc
  session_with-Bounded account k (some secret) t h =
      session_created-Bounded account _ _ _ (λ key_id g.
        subst
          (λ i.
            count (is_counted account.id i now)
              (insert_session (astrometry_session p session_id account.id k.id now secret)
                t).1.sessions
            ≤ 20)
          (ground (arith, g))
          (insert-bound e law account.id k.id now
            (astrometry_session p session_id account.id k.id now secret) t 19 h))

  for_key-Bounded :
      (secret : Option Text) (w : Outcome (AuthenticatedApiKey W) × Tables W)
      → Bounded (for_key p e session_id now secret w)
  for_key-Bounded secret (failed error, t) = λ r key_id f g. cc
  for_key-Bounded secret (done a, t) =
      session_with-Bounded a.account a.api_key secret _
        (recycle-bound e law a.account.id a.api_key.id now t)

  -- A new session of an API key leaves the key with twenty live sessions at most, whatever it had
  -- before, in a database that sorts as it is asked to.
  pub create_astrometry_session-bound :
      (secret : Option Text) (token : Text) (t : Tables W) (r : CreatedAstrometrySession)
      (key_id : ℕ)
      → (create_astrometry_session p e session_id now secret token t).0 ≡ done r
      → r.session.api_key_id ≡ some key_id
      → length (
          filter
            (is_counted r.account.id key_id now)
            (create_astrometry_session p e session_id now secret token t).1.sessions)
        ≤ 20
  unfolding create_astrometry_session
  create_astrometry_session-bound secret token t =
      for_key-Bounded secret (authenticate_api_key p now token scope_solve_submit t)
