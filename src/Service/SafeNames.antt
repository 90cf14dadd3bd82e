-- ===== src/Service/SafeNames.antt =====
-- Proofs about `safe_filename` of src/api.rs.
use mathlib.Core.List.{reverse, reverse-append, reverse-reverse}
use seiza_server.Base.{
  ℕ, ◌≤◌, ◌≡◌, ◌≢◌, refl, sym, ap, ◌∙◌, subst, inl, inr, Bool, true, ◌||◌, [], ◌∷◌, ◌++◌, arith,
  Text, text, ◌==◌, length, take, filter, All, All-take, length-append, length-take-le, Bool-cases,
}
use seiza_server.Service.Names.{
  slash, full_stop, is_safe, drop_stops, trim_stops, or_upload, last_or, split_at, safe_filename,
}

IsSafe : ℕ → Type 0
IsSafe c = is_safe c ≡ true

-- The stops that are dropped.
dropped_stops : (s : Text) → (d : Text) × (s ≡ d ++ drop_stops s)
unfolding drop_stops
dropped_stops [] = ([], refl)
dropped_stops (c ∷ cs) = elim (Bool-cases (c == full_stop)) [
  | inl e ↦ let (d, same) = dropped_stops cs in (c ∷ d, rw e (ap (λ r. c ∷ r) same))
  | inr e ↦ ([], rw e refl)
]

drop_stops-first : (s : Text) (c : ℕ) (cs : Text) → drop_stops s ≡ c ∷ cs → c ≢ full_stop
unfolding drop_stops
drop_stops-first [] c cs h = cc
drop_stops-first (x ∷ xs) c cs h = elim (Bool-cases (x == full_stop)) [
  | inl e ↦ drop_stops-first xs c cs (ground (arith, e, h))
  | inr e ↦ ground (arith, e, h)
]

-- What is trimmed is what is left of its beginning.
trim_stops-prefix : (s : Text) → (r : Text) × (drop_stops s ≡ trim_stops s ++ r)
unfolding trim_stops
trim_stops-prefix s =
    let (d, same) = dropped_stops (reverse (drop_stops s)) in
    (
      reverse d,
      sym (reverse-reverse (drop_stops s))
          ∙ (ap reverse same ∙ reverse-append d (drop_stops (reverse (drop_stops s)))),
    )

trim_stops-first : (s : Text) (c : ℕ) (cs : Text) → trim_stops s ≡ c ∷ cs → c ≢ full_stop
trim_stops-first s c cs h =
    let (r, same) = trim_stops-prefix s in
    drop_stops-first s c (cs ++ r) (same ∙ ap (λ t. t ++ r) h)

All-behind : (P : ℕ → Type 0) (xs ys : Text) → All P (xs ++ ys) → All P ys
All-behind P [] ys h = h
All-behind P (x ∷ xs) ys h = All-behind P xs ys h.1

All-before : (P : ℕ → Type 0) (xs ys : Text) → All P (xs ++ ys) → All P xs
All-before P [] ys h = tt
All-before P (x ∷ xs) ys h = (h.0, All-before P xs ys h.1)

All-trim_stops : (P : ℕ → Type 0) (s : Text) → All P s → All P (trim_stops s)
All-trim_stops P s h =
    let (d, same) = dropped_stops s in
    let (r, rest) = trim_stops-prefix s in
    All-before P (trim_stops s) r
      (subst (All P) rest (All-behind P d (drop_stops s) (subst (All P) same h)))

length-trim_stops : (s : Text) → length (trim_stops s) ≤ length s
length-trim_stops s =
    let (d, same) = dropped_stops s in
    let (r, rest) = trim_stops-prefix s in
    omega (
      arith,
      ap length same,
      ap length rest,
      length-append d (drop_stops s),
      length-append (trim_stops s) r,
    )

or_upload-IsSafe : (s : Text) → All IsSafe s → All IsSafe (or_upload s)
unfolding IsSafe
or_upload-IsSafe [] h = (refl, (refl, (refl, (refl, (refl, (refl, tt))))))
or_upload-IsSafe (c ∷ cs) h = h

or_upload-first :
    (s : Text) (c : ℕ) (cs : Text)
    → ((d : ℕ) (ds : Text) → s ≡ d ∷ ds → d ≢ full_stop)
    → or_upload s ≡ c ∷ cs
    → c ≢ full_stop
or_upload-first [] c cs h e = ground (arith, e)
or_upload-first (x ∷ xs) c cs h e = h c cs e

length-or_upload :
    (s : Text) → length s ≤ 160 → (1 ≤ length (or_upload s)) × (length (or_upload s) ≤ 160)
length-or_upload [] h = (omega arith, omega arith)
length-or_upload (c ∷ cs) h = (omega arith, h)

filter_all : (test : ℕ → Bool) (xs : Text) → All (λ c. test c ≡ true) (filter test xs)
filter_all test [] = tt
filter_all test (x ∷ xs) = elim (Bool-cases (test x)) [
  | inl e ↦ rw e (e, filter_all test xs)
  | inr e ↦ rw e (filter_all test xs)
]

-- Whatever name a client gives, the name that is kept has from 1 to 160 bytes, each an ASCII letter
-- or digit, `.`, `_` or `-`, and does not begin with `.`: it names no directory above and no hidden
-- file.
pub safe_filename_lem :
    (filename : Text)
    → All (λ c. is_safe c ≡ true) (safe_filename filename)
      × (1 ≤ length (safe_filename filename))
      × (length (safe_filename filename) ≤ 160)
      × ((c : ℕ) (cs : Text) → safe_filename filename ≡ c ∷ cs → c ≢ full_stop)
unfolding safe_filename IsSafe
safe_filename_lem filename =
    let name = last_or (text "upload") (split_at (λ c. (c == slash) || (c == 92)) filename) in
    let kept = take 160 (filter is_safe name) in
    let bounds =
      length-or_upload (trim_stops kept)
        (omega (arith, length-trim_stops kept, length-take-le 160 (filter is_safe name))) in
    (
      or_upload-IsSafe (trim_stops kept) (
          All-trim_stops IsSafe kept
            (All-take IsSafe 160 (filter is_safe name) (filter_all is_safe name))),
      bounds.0,
      bounds.1,
      λ c cs e. or_upload-first (trim_stops kept) c cs (λ d ds f. trim_stops-first kept d ds f) e,
    )
