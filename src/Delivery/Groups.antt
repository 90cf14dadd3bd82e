-- ===== src/Delivery/Groups.antt =====
-- The message group of an owner in src/transport.rs.
use seiza_server.Base.{
  ℕ, ◌≤◌, ◌≡◌, ◌↔◌, refl, inl, inr, Bool, true, ◌||◌, some, [], ◌∷◌, ◌++◌, arith, Text, text, ltb,
  all, length, All, Bool-cases,
}
use seiza_server.Delivery.Routing.{
  is_ascii_alphanumeric, is_ascii_punctuation, group_prefix, fair_queue_group_id,
}

-- A visible ASCII character.
abbrev pub IsVisible : ℕ → Type 0
IsVisible c = (33 ≤ c) × (c ≤ 126)

abbrev visible : ℕ → Bool
visible c = is_ascii_alphanumeric c || is_ascii_punctuation c

visible→IsVisible : (c : ℕ) → visible c ≡ true → IsVisible c
visible→IsVisible c h = ground (arith, h)

IsVisible→visible : (c : ℕ) → IsVisible c → visible c ≡ true
IsVisible→visible c h = ground (arith, h)

all-visible : (owner : Text) → all visible owner ≡ true → All IsVisible owner
all-visible [] h = tt
all-visible (c ∷ cs) h =
    (visible→IsVisible c (ground (arith, h)), all-visible cs (ground (arith, h)))

visible-all : (owner : Text) → All IsVisible owner → all visible owner ≡ true
visible-all [] h = refl
visible-all (c ∷ cs) h = rw (IsVisible→visible c h.0) (visible-all cs h.1)

-- An owner has a message group exactly when it is at most 119 bytes of visible ASCII, and the group
-- is then the owner behind a fixed prefix.
pub fair_queue_group_id_lem :
    (owner : Text)
    → (fair_queue_group_id owner ≡ some (text "seiza:v1:" ++ owner))
      ↔ ((length owner ≤ 119) × All IsVisible owner)
unfolding fair_queue_group_id
fair_queue_group_id_lem owner = elim (Bool-cases (ltb 128 (length (group_prefix ++ owner)))) [
  | inl a ↦ rw a (λ h. cc, λ h. ground (arith, a, h.0))
  | inr a ↦ elim (Bool-cases (all visible owner)) [
    | inl b ↦ rw a (rw b (λ h. (ground (arith, a), all-visible owner b), λ h. refl))
    | inr b ↦ rw a (rw b (λ h. cc, λ h. cc (b, visible-all owner h.1)))
  ]
]
