-- ===== src/Limiter/Maps.antt =====
-- The maps of `EmailSendRateState` in src/rate_limit.rs as lists of entries: keys, and the list of a
-- key.
use mathlib.Core.List.{append-nil}
use seiza_server.Base.{
  ◌≡◌, refl, sym, ◌∙◌, subst, inl, inr, true, false, List, [], ◌∷◌, ◌++◌, Text, text_eq, text_eq→eq,
  text_eq_refl, if◌then◌else◌, Bool-cases,
}
use seiza_server.Limiter.Sends.{Entries, update, or_default, contains_key, events_of}

module _ {A : Type 0} where
  -- No key has two entries.
  abbrev pub IsMap : Entries A → Type 0
  IsMap [] = Unit
  IsMap ((k, events) ∷ m) = (contains_key k m ≡ false) × IsMap m

  contains_key-update :
      (k key : Text) (f : List A → List A) (m : Entries A)
      → contains_key k (update key f m) ≡ contains_key k m
  unfolding update
  contains_key-update k key f [] = refl
  contains_key-update k key f ((k', events) ∷ m) = elim (Bool-cases (text_eq k' key)) [
    | inl e ↦ rw e refl
    | inr e ↦ rw (e, contains_key-update k key f m) refl
  ]

  pub update-IsMap :
      (key : Text) (f : List A → List A) (m : Entries A) → IsMap m → IsMap (update key f m)
  unfolding update
  update-IsMap key f [] h = tt
  update-IsMap key f ((k, events) ∷ m) h = elim (Bool-cases (text_eq k key)) [
    | inl e ↦ rw e h
    | inr e ↦ rw e (contains_key-update k key f m ∙ h.0, update-IsMap key f m h.1)
  ]

  contains_key-append :
      (k key : Text) (m : Entries A)
      → contains_key k m ≡ false
      → text_eq key k ≡ false
      → contains_key k (m ++ (key, []) ∷ []) ≡ false
  contains_key-append k key [] h e = rw e refl
  contains_key-append k key ((k', events) ∷ m) h e = elim (Bool-cases (text_eq k' k)) [
    | inl hit ↦ cc (hit, h)
    | inr miss ↦ rw miss (contains_key-append k key m (rw miss at h) e)
  ]

  append-IsMap :
      (key : Text) (m : Entries A)
      → contains_key key m ≡ false
      → IsMap m
      → IsMap (m ++ (key, []) ∷ [])
  append-IsMap key [] absent h = (refl, tt)
  append-IsMap key ((k, events) ∷ m) absent h = elim (Bool-cases (text_eq k key)) [
    | inl hit ↦ cc (hit, absent)
    | inr miss ↦
        (contains_key-append k key m h.0 (other miss), append-IsMap key m (rw miss at absent) h.1)
  ]
    where
      other : text_eq k key ≡ false → text_eq key k ≡ false
      other miss = elim (Bool-cases (text_eq key k)) [
        | inl hit ↦
            let same : text_eq k key ≡ true = rw (text_eq→eq key k hit) (text_eq_refl k) in
            cc (same, miss)
        | inr e ↦ e
      ]

  pub or_default-IsMap : (key : Text) (m : Entries A) → IsMap m → IsMap (or_default key m)
  or_default-IsMap key m h = elim (Bool-cases (contains_key key m)) [
    | inl e ↦ rw e h
    | inr e ↦ rw e (append-IsMap key m e h)
  ]

  pub contains_key-or_default :
      (key : Text) (m : Entries A) → contains_key key (or_default key m) ≡ true
  contains_key-or_default key m = elim (Bool-cases (contains_key key m)) [
    | inl e ↦ rw (e, e) refl
    | inr e ↦ rw e (last m)
  ]
    where
      last : (m : Entries A) → contains_key key (m ++ (key, []) ∷ []) ≡ true
      last [] = rw (text_eq_refl key) refl
      last ((k, events) ∷ m) = elim (Bool-cases (text_eq k key)) [
        | inl e ↦ rw e refl
        | inr e ↦ rw e (last m)
      ]

  pub events_of-or_default :
      (k key : Text) (m : Entries A) → events_of k (or_default key m) ≡ events_of k m
  unfolding events_of
  events_of-or_default k key m = elim (Bool-cases (contains_key key m)) [
    | inl e ↦ rw e refl
    | inr e ↦ rw e (last m)
  ]
    where
      last : (m : Entries A) → events_of k (m ++ (key, []) ∷ []) ≡ events_of k m
      last [] = elim (Bool-cases (text_eq key k)) [ inl e ↦ rw e refl | inr e ↦ rw e refl ]
      last ((k', events) ∷ m) = elim (Bool-cases (text_eq k' k)) [
        | inl e ↦ rw e refl
        | inr e ↦ rw e (last m)
      ]

  -- What is added to the list of a key that has an entry.
  pub events_of-add :
      (k key : Text) (x : A) (m : Entries A)
      → contains_key key m ≡ true
      → events_of k (update key (λ events. events ++ x ∷ []) m)
        ≡ events_of k m ++ (if text_eq key k then x ∷ [] else [])
  unfolding events_of update
  events_of-add k key x [] h = cc
  events_of-add k key x ((k', events) ∷ m) h = elim (Bool-cases (text_eq k' key)) [
    | inl e ↦ rw e (elim (Bool-cases (text_eq k' k)) [
      | inl hit ↦
          let same = subst (λ n. text_eq n k ≡ true) (text_eq→eq k' key e) hit in
          rw (hit, same) refl
      | inr miss ↦
          let other = subst (λ n. text_eq n k ≡ false) (text_eq→eq k' key e) miss in
          rw (miss, other) (sym (append-nil (events_of k m)))
    ])
    | inr e ↦ rw e (elim (Bool-cases (text_eq k' k)) [
      | inl hit ↦
          let other : text_eq key k ≡ false = apart hit e in
          rw (hit, other) (sym (append-nil events))
      | inr miss ↦ rw miss (events_of-add k key x m (rw e at h))
    ])
  ]
    where
      apart : text_eq k' k ≡ true → text_eq k' key ≡ false → text_eq key k ≡ false
      apart hit e = elim (Bool-cases (text_eq key k)) [
        | inl same ↦
            let met : text_eq k' key ≡ true =
              subst (λ n. text_eq k' n ≡ true) (sym (text_eq→eq key k same)) hit in
            cc (met, e)
        | inr other ↦ other
      ]

  pub no_events : (k : Text) (m : Entries A) → contains_key k m ≡ false → events_of k m ≡ []
  unfolding events_of
  no_events k [] h = refl
  no_events k ((k', events) ∷ m) h = elim (Bool-cases (text_eq k' k)) [
    | inl e ↦ cc (e, h)
    | inr e ↦ rw e (no_events k m (rw e at h))
  ]
