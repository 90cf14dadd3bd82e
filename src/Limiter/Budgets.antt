-- ===== src/Limiter/Budgets.antt =====
-- Lemmas on the budgets of rolling windows in src/rate_limit.rs.
use seiza_server.Base.{
  ℕ, ◌+◌, ◌-◌, ◌^◌, ◌≤◌, ◌<◌, ◌≡◌, refl, inl, inr, true, not, ◌&&◌, Option, none, some, List, [],
  ◌∷◌, ◌++◌, map, arith, Text, text_eq, leb, ltb, if◌then◌else◌, Bool-cases, length, filter, All,
  All-append, All-filter,
}
use seiza_server.Limiter.Windows.{
  SourceSend, Retry, clear, panicked, wait, in_window, wait_for, count_retry_after, retain_recent,
  longer, total_cost, saturating_add, weighted_retry_after,
}
use seiza_server.Limiter.Sends.{
  Entries, update, or_default, contains_key, events_of, retain_entries, swept,
}

-- The sends of the window that ends now.
abbrev pub active_count : ℕ → ℕ → List ℕ → ℕ
active_count now window ats = length (filter (λ at. in_window now window at) ats)

pub active_count-later :
    (now later window : ℕ) (ats : List ℕ)
    → now ≤ later
    → active_count later window ats ≤ active_count now window ats
active_count-later now later window [] h = omega arith
active_count-later now later window (at ∷ ats) h =
    ground (arith, active_count-later now later window ats h)

active_count-append :
    (now window : ℕ) (ats : List ℕ)
    → active_count now window (ats ++ now ∷ []) ≤ active_count now window ats + 1
active_count-append now window [] = ground arith
active_count-append now window (at ∷ ats) = ground (arith, active_count-append now window ats)

pub active_count-retain :
    (now window retention : ℕ) (ats : List ℕ)
    → active_count now window (retain_recent (λ at. at) now retention ats)
      ≤ active_count now window ats
unfolding retain_recent
active_count-retain now window retention [] = omega arith
active_count-retain now window retention (at ∷ ats) =
    ground (arith, active_count-retain now window retention ats)

wait_for-clear : (now window : ℕ) (at : Option ℕ) → wait_for now window at ≡ clear → ⊥
wait_for-clear now window none h = cc
wait_for-clear now window (some at) h = cc

pub count_clear :
    (events : List ℕ) (now window limit : ℕ)
    → count_retry_after events now window limit ≡ clear
    → active_count now window (events ++ now ∷ []) ≤ limit
unfolding count_retry_after
count_clear events now window limit h =
    elim (Bool-cases (ltb (active_count now window events) limit)) [
      | inl e ↦ ground (arith, e, active_count-append now window events)
      | inr e ↦ elim (wait_for-clear now window _ (rw e at h)) [ ]
    ]

-- The true cost of the sends of the window that ends now.
abbrev pub spent : (SourceSend → ℕ) → ℕ → ℕ → List SourceSend → ℕ
spent cost now window [] = 0
spent cost now window (event ∷ events) =
    (if in_window now window event.at then cost event else 0) + spent cost now window events

pub spent-later :
    (cost : SourceSend → ℕ) (now later window : ℕ) (events : List SourceSend)
    → now ≤ later
    → spent cost later window events ≤ spent cost now window events
spent-later cost now later window [] h = omega arith
spent-later cost now later window (event ∷ events) h =
    ground (arith, spent-later cost now later window events h)

spent-append :
    (cost : SourceSend → ℕ) (now window : ℕ) (events : List SourceSend) (event : SourceSend)
    → spent cost now window (events ++ event ∷ []) ≤ spent cost now window events + cost event
spent-append cost now window [] event = ground arith
spent-append cost now window (e ∷ events) event =
    omega (arith, spent-append cost now window events event)

pub spent-retain :
    (cost : SourceSend → ℕ) (now window retention : ℕ) (events : List SourceSend)
    → spent cost now window (retain_recent (λ event. event.at) now retention events)
      ≤ spent cost now window events
unfolding retain_recent
spent-retain cost now window retention [] = omega arith
spent-retain cost now window retention (event ∷ events) =
    ground (arith, spent-retain cost now window retention events)

-- A sum that fits 32 bits has not wrapped.
total_cost-spent :
    (cost : SourceSend → ℕ) (now window : ℕ) (events : List SourceSend)
    → spent cost now window events < 2 ^ 32
    → total_cost cost (filter (λ event. in_window now window event.at) events)
      ≡ spent cost now window events
unfolding total_cost
total_cost-spent cost now window [] h = refl
total_cost-spent cost now window (event ∷ events) h =
    elim (Bool-cases (in_window now window event.at)) [
      | inl e ↦
          rw e (
            omega
              (arith, total_cost-spent cost now window events (ground (arith, e, h)), rw e at h))
      | inr e ↦ rw e (omega (arith, total_cost-spent cost now window events (ground (arith, e, h))))
    ]

pub weighted_clear :
    (cost : SourceSend → ℕ) (events : List SourceSend) (event : SourceSend) (now window budget : ℕ)
    → budget < 2 ^ 32 - 1
    → spent cost now window events ≤ budget
    → weighted_retry_after events now window budget (cost event) cost ≡ clear
    → spent cost now window (events ++ event ∷ []) ≤ budget
unfolding weighted_retry_after
weighted_clear cost events event now window budget small before h =
    let sum = total_cost-spent cost now window events (omega arith) in
    elim (Bool-cases (
      leb
        (saturating_add (total_cost cost (filter (λ event. in_window now window event.at) events))
          (cost event))
        budget)) [
          | inl e ↦ omega (arith, fits _ _ e, sum, spent-append cost now window events event)
          | inr e ↦ cc (e, h)
        ]
  where
    fits : (a b : ℕ) → leb a b ≡ true → a ≤ b
    fits a b h = ground (arith, h)

pub longer_clear : (a b : Retry) → longer a b ≡ clear → (a ≡ clear) × (b ≡ clear)
longer_clear panicked b h = cc
longer_clear clear b h = (refl, h)
longer_clear (wait n) clear h = cc
longer_clear (wait n) (wait m) h = cc
longer_clear (wait n) panicked h = cc

module _ {A : Type 0} (P : List A → Type 0) where
  unfoldable pub Every : Entries A → Type 0
  Every m = All (λ (e : Text × List A). P e.1) m

  pub update-Every :
      (key : Text) (f : List A → List A) (m : Entries A)
      → Every m
      → P (f (events_of key m))
      → Every (update key f m)
  unfolding Every update events_of
  update-Every key f [] h p = tt
  update-Every key f ((k, events) ∷ m) h p = elim (Bool-cases (text_eq k key)) [
    | inl e ↦ rw e (rw e at p, h.1)
    | inr e ↦ rw e (h.0, update-Every key f m h.1 (rw e at p))
  ]

  pub or_default-Every : (key : Text) (m : Entries A) → Every m → P [] → Every (or_default key m)
  unfolding Every
  or_default-Every key m h p = elim (Bool-cases (contains_key key m)) [
    | inl e ↦ rw e h
    | inr e ↦ rw e (All-append (λ (e : Text × List A). P e.1) m ((key, []) ∷ []) h (p, tt))
  ]

  pub events_of-Every : (key : Text) (m : Entries A) → Every m → P [] → P (events_of key m)
  unfolding Every events_of
  events_of-Every key [] h p = p
  events_of-Every key ((k, events) ∷ m) h p = elim (Bool-cases (text_eq k key)) [
    | inl e ↦ rw e h.0
    | inr e ↦ rw e (events_of-Every key m h.1 p)
  ]

  map-Every :
      (g : List A → List A) (m : Entries A)
      → ((events : List A) → P events → P (g events))
      → Every m
      → Every (map (λ e. (e.0, g e.1)) m)
  unfolding Every
  map-Every g [] keep h = tt
  map-Every g (e ∷ m) keep h = (keep e.1 h.0, map-Every g m keep h.1)

  pub swept-Every :
      (at : A → ℕ) (key : Text) (now window : ℕ) (m : Entries A)
      → P []
      → ((events : List A) → P events → P (retain_recent at now window events))
      → Every m
      → Every (swept at key now window m)
  unfolding Every swept retain_entries
  swept-Every at key now window m empty keep h =
      let m' = update key (retain_recent at now window) m in
      let u =
        update-Every key (retain_recent at now window) m h
          (keep (events_of key m) (events_of-Every key m h empty)) in
      elim (Bool-cases (leb 10000 (length m') && not (contains_key key m'))) [
        | inl e ↦ rw e (
            All-filter (λ (e : Text × List A). P e.1) _ _
              (map-Every (retain_recent at now window) m' keep u))
        | inr e ↦ rw e u
      ]
