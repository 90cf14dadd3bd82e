-- ===== src/Limiter/Live.antt =====
-- The sends of a window in the maps of `EmailSendRateState` in src/rate_limit.rs, through `sweep`.
use seiza_server.Base.{
  ℕ, ◌-◌, ◌≤◌, ◌≡◌, refl, sym, ap, ◌∙◌, subst, inl, inr, false, not, ◌&&◌, List, [], ◌∷◌, ◌++◌,
  arith, Text, text_eq, text_eq→eq, leb, if◌then◌else◌, Bool-cases, length, filter,
}
use seiza_server.Limiter.Windows.{in_window, retain_recent}
use seiza_server.Limiter.Sends.{
  Entries, update, contains_key, events_of, is_empty, retain_entries, swept,
}
use seiza_server.Limiter.Maps.{IsMap, update-IsMap, no_events}

module _ {A : Type 0} (at : A → ℕ) (now : ℕ) where
  -- The sends of the window that ends now.
  abbrev pub live : ℕ → List A → List A
  live window events = filter (λ event. in_window now window (at event)) events

  live-append :
      (window : ℕ) (xs ys : List A) → live window (xs ++ ys) ≡ live window xs ++ live window ys
  live-append window [] ys = refl
  live-append window (x ∷ xs) ys = elim (Bool-cases (in_window now window (at x))) [
    | inl e ↦ rw e (ap (λ zs. x ∷ zs) (live-append window xs ys))
    | inr e ↦ rw e (live-append window xs ys)
  ]

  -- Lists with the same live sends keep them as sends are added.
  pub live-add :
      (window : ℕ) (xs ys zs : List A)
      → live window xs ≡ live window ys
      → live window (xs ++ zs) ≡ live window (ys ++ zs)
  live-add window xs ys zs h =
      live-append window xs zs ∙ ap (λ vs. vs ++ live window zs) h ∙ sym (live-append window ys zs)

  pub live-retain :
      (window retention : ℕ) (events : List A)
      → window ≤ retention
      → live window (retain_recent at now retention events) ≡ live window events
  unfolding retain_recent
  live-retain window retention [] h = refl
  live-retain window retention (event ∷ events) h =
      elim (Bool-cases (leb retention (now - at event))) [
        | inl e ↦
            let old : in_window now window (at event) ≡ false = ground (arith, e, h) in
            rw (e, old) (live-retain window retention events h)
        | inr e ↦ rw e refl
      ]

  live-update :
      (k key : Text) (window retention : ℕ) (m : Entries A)
      → window ≤ retention
      → live window (events_of k (update key (retain_recent at now retention) m))
        ≡ live window (events_of k m)
  unfolding events_of update
  live-update k key window retention [] h = refl
  live-update k key window retention ((k', events) ∷ m) h = elim (Bool-cases (text_eq k' key)) [
    | inl e ↦ rw e (elim (Bool-cases (text_eq k' k)) [
      | inl hit ↦ rw hit (live-retain window retention events h)
      | inr miss ↦ rw miss refl
    ])
    | inr e ↦ rw e (elim (Bool-cases (text_eq k' k)) [
      | inl hit ↦ rw hit refl
      | inr miss ↦ rw miss (live-update k key window retention m h)
    ])
  ]

  contains_key-retain :
      (k : Text) (retention : ℕ) (m : Entries A)
      → contains_key k m ≡ false
      → contains_key k (retain_entries at now retention m) ≡ false
  unfolding retain_entries
  contains_key-retain k retention [] h = refl
  contains_key-retain k retention ((k', events) ∷ m) h = elim (Bool-cases (text_eq k' k)) [
    | inl hit ↦ cc (hit, h)
    | inr miss ↦
        kept (retain_recent at now retention events) _ miss
          (contains_key-retain k retention m (rw miss at h))
  ]
    where
      kept :
          (xs : List A) (rest : Entries A)
          → text_eq k' k ≡ false
          → contains_key k rest ≡ false
          → contains_key k (if not (is_empty xs) then (k', xs) ∷ rest else rest) ≡ false
      kept [] rest miss h = h
      kept (x ∷ xs) rest miss h = rw miss h

  retain-IsMap :
      (retention : ℕ) (m : Entries A) → IsMap m → IsMap (retain_entries at now retention m)
  unfolding retain_entries
  retain-IsMap retention [] h = tt
  retain-IsMap retention ((k, events) ∷ m) h =
      kept (retain_recent at now retention events) _ (contains_key-retain k retention m h.0)
        (retain-IsMap retention m h.1)
    where
      kept :
          (xs : List A) (rest : Entries A)
          → contains_key k rest ≡ false
          → IsMap rest
          → IsMap (if not (is_empty xs) then (k, xs) ∷ rest else rest)
      kept [] rest absent h = h
      kept (x ∷ xs) rest absent h = (absent, h)

  live-retain_entries :
      (k : Text) (window retention : ℕ) (m : Entries A)
      → window ≤ retention
      → IsMap m
      → live window (events_of k (retain_entries at now retention m)) ≡ live window (events_of k m)
  unfolding events_of retain_entries
  live-retain_entries k window retention [] h u = refl
  live-retain_entries k window retention ((k', events) ∷ m) h u =
      kept (retain_recent at now retention events) (retain_entries at now retention m)
        (live-retain window retention events h) (live-retain_entries k window retention m h u.1)
    where
      kept :
          (xs : List A) (rest : Entries A)
          → live window xs ≡ live window events
          → live window (events_of k rest) ≡ live window (events_of k m)
          → live window (events_of k (if not (is_empty xs) then (k', xs) ∷ rest else rest))
            ≡ live window (if text_eq k' k then events else events_of k m)
      kept [] rest same others = elim (Bool-cases (text_eq k' k)) [
        | inl hit ↦
            let absent : contains_key k m ≡ false =
              subst (λ n. contains_key n m ≡ false) (text_eq→eq k' k hit) u.0 in
            rw hit (others ∙ ap (live window) (no_events k m absent) ∙ same)
        | inr miss ↦ rw miss others
      ]
      kept (x ∷ xs) rest same others = elim (Bool-cases (text_eq k' k)) [
        | inl hit ↦ rw hit same
        | inr miss ↦ rw miss others
      ]

  pub live-swept :
      (k key : Text) (window retention : ℕ) (m : Entries A)
      → window ≤ retention
      → IsMap m
      → live window (events_of k (swept at key now retention m)) ≡ live window (events_of k m)
  unfolding swept
  live-swept k key window retention m h u =
      let m' = update key (retain_recent at now retention) m in
      elim (Bool-cases (leb 10000 (length m') && not (contains_key key m'))) [
        | inl e ↦ rw e (
            live-retain_entries k window retention m' h (update-IsMap key _ m u)
            ∙ live-update k key window retention m h)
        | inr e ↦ rw e (live-update k key window retention m h)
      ]

  pub swept-IsMap :
      (key : Text) (retention : ℕ) (m : Entries A) → IsMap m → IsMap (swept at key now retention m)
  unfolding swept
  swept-IsMap key retention m u =
      let m' = update key (retain_recent at now retention) m in
      let u' : IsMap m' = update-IsMap key _ m u in
      elim (Bool-cases (leb 10000 (length m') && not (contains_key key m'))) [
        | inl e ↦ rw e (retain-IsMap retention m' u')
        | inr e ↦ rw e u'
      ]
