-- ===== src/Region/Bands.antt =====
-- The bands and the region of src/content_region.rs: proofs about `find_region`.
use seiza_server.Base.{
  ℕ, zero, suc, ◌+◌, ◌-◌, ◌*◌, ◌≤◌, ◌<◌, ◌≡◌, ◌⊎◌, refl, sym, subst, inl, inr, Bool, true, false,
  ◌&&◌, ◌||◌, none, some, List, [], ◌∷◌, map, all, arith, leb, ltb, ◌==◌, if◌then◌else◌, Bool-cases,
}
use seiza_server.Region.Find.{
  Pixel, Image, ContentRegion, near, flat_lines, from_edge, band, span, trim, top, bottom, left,
  right, region_of, find_region, enough, rows,
}

flat_lines-le :
    (colour : Pixel) (line : ℕ → List Pixel) (index lines : ℕ)
    → flat_lines colour line index lines ≤ lines
unfolding flat_lines
flat_lines-le colour line index zero = omega arith
flat_lines-le colour line index (suc lines) =
    ground (arith, flat_lines-le colour line (suc index) lines)

pub band-le : (lines : ℕ) (line : ℕ → List Pixel) → band lines line ≤ lines
unfolding band
band-le lines line = go (line 0)
  where
    go : (first : List Pixel) → from_edge first lines line ≤ lines
    go [] = omega arith
    go (colour ∷ pixels) = flat_lines-le colour line 0 lines

-- Every line of a band is flat.
flat_lines_flat :
    (colour : Pixel) (line : ℕ → List Pixel) (index lines i : ℕ)
    → i < flat_lines colour line index lines
    → all (near colour) (line (index + i)) ≡ true
unfolding flat_lines
flat_lines_flat colour line index zero i h = ground (arith, h)
flat_lines_flat colour line index (suc lines) zero h = ground (arith, h)
flat_lines_flat colour line index (suc lines) (suc i) h =
    elim (Bool-cases (all (near colour) (line index))) [
      | inl e ↦
          subst (λ k. all (near colour) (line k) ≡ true) (omega arith)
            (flat_lines_flat colour line (suc index) lines i (ground (arith, e, h)))
      | inr e ↦ ground (arith, e, h)
    ]

-- The pixel of a place on a line.
all-span :
    (test : Pixel → Bool) (f : ℕ → Pixel) (start count i : ℕ)
    → all test (map f (span start count)) ≡ true
    → i < count
    → test (f (start + i)) ≡ true
unfolding span
all-span test f start zero i h lt = ground (arith, lt)
all-span test f start (suc count) zero h lt = ground (arith, h)
all-span test f start (suc count) (suc i) h lt =
    subst (λ k. test (f k) ≡ true) (omega arith)
      (all-span test f (suc start) count i (ground (arith, h)) (omega arith))

-- A band of lines that start with their edge's first pixel.
pub band_flat :
    (lines width : ℕ) (f : ℕ → ℕ → Pixel) (i x : ℕ)
    → i < band lines (λ line. map (λ x. f x line) (span 0 width))
    → x < width
    → near (f 0 0) (f x i) ≡ true
unfolding band span
band_flat lines zero f i x h lt = ground (arith, lt)
band_flat lines (suc width) f i x h lt =
    subst (λ k. near (f 0 0) (f k i) ≡ true) (omega arith)
      (all-span (near (f 0 0)) (λ x. f x i) 0 (suc width) x
        (subst (λ k. all (near (f 0 0)) (map (λ x. f x k) (span 0 (suc width))) ≡ true)
          (omega arith)
          (flat_lines_flat (f 0 0) (λ line. map (λ x. f x line) (span 0 (suc width))) 0 lines i h))
        lt)

guarded :
    (a b c : Bool) (found r : ContentRegion)
    → (if a then none else if b then none else if c then some found else none) ≡ some r
    → (a ≡ false) × (b ≡ false) × (c ≡ true) × (found ≡ r)
guarded true b c found r h = cc
guarded false true c found r h = cc
guarded false false true found r h = (refl, refl, refl, cc)
guarded false false false found r h = cc

positive : (n : ℕ) → (n == 0) ≡ false → 0 < n
positive n h = ground (arith, h)

quarters : (a b c d : ℕ) → (leb a b && leb c d) ≡ true → (a ≤ b) × (c ≤ d)
quarters a b c d h = (ground (arith, h), ground (arith, h))

trim_le : (n : ℕ) → trim n ≤ n
trim_le n = ground arith

-- An edge is left as it is, or loses two lines or more.
abbrev pub IsBand : ℕ → Type 0
IsBand lines = (lines ≡ 0) ⊎ (2 ≤ lines)

trim-IsBand : (n : ℕ) → IsBand (trim n)
trim-IsBand n = elim (Bool-cases (ltb n 2)) [
  | inl e ↦ inl (ground (arith, e))
  | inr e ↦ inr (ground (arith, e))
]

some_two :
    (a b c d : ℕ)
    → IsBand a
    → IsBand b
    → IsBand c
    → IsBand d
    → 0 < a + b + c + d
    → (2 ≤ a) ⊎ (2 ≤ b) ⊎ (2 ≤ c) ⊎ (2 ≤ d)
some_two a b c d (inr h) hb hc hd some_band = inl h
some_two a b c d (inl e) (inr h) hc hd some_band = inr (inl h)
some_two a b c d (inl e) (inl f) (inr h) hd some_band = inr (inr (inl h))
some_two a b c d (inl e) (inl f) (inl g) (inr h) some_band = inr (inr (inr h))
some_two a b c d (inl e) (inl f) (inl g) (inl h) some_band = omega (arith, e, f, g, h, some_band)

module _ (image : Image) where
  ends_fit : top image + bottom image ≤ image.height
  unfolding top bottom
  ends_fit = omega (
    arith,
    band-le image.height (λ line. map (λ x. image.pixel x line) (span 0 image.width)),
    band-le (image.height - top image)
        (λ line. map (λ x. image.pixel x (image.height - 1 - line)) (span 0 image.width)),
  )

  sides_fit : left image + right image ≤ image.width
  unfolding left right
  sides_fit = omega (
    arith,
    band-le image.width (λ line. map (λ y. image.pixel line y) (rows image)),
    band-le (image.width - left image)
        (λ line. map (λ y. image.pixel (image.width - 1 - line) y) (rows image)),
  )

  pub record Found (r : ContentRegion) : Type 0 where
    pub same : r ≡ region_of image
    pub some_band :
        0 < trim (top image) + trim (bottom image) + trim (left image) + trim (right image)
    pub wide : image.width ≤ 4 * r.width
    pub high : image.height ≤ 4 * r.height

  found : (r : ContentRegion) → find_region image ≡ some r → Found r
  unfolding find_region
  found r h =
      let g =
        guarded (ltb image.width 8 || ltb image.height 8)
          (trim (top image) + trim (bottom image) + trim (left image) + trim (right image) == 0)
          (enough image (region_of image).width image.width
            && enough image (region_of image).height image.height)
          (region_of image) r h in
      let quarter = g.2 in
      subst Found g.3 (record {
        same = refl;
        some_band =
            positive
              (trim (top image) + trim (bottom image) + trim (left image) + trim (right image)) g.1;
        wide =
            (quarters image.width (4 * (region_of image).width) image.height
              (4 * (region_of image).height) quarter).0;
        high =
            (quarters image.width (4 * (region_of image).width) image.height
              (4 * (region_of image).height) quarter).1;
      })

  -- The region that is found lies in the image and has at least a quarter of each side. At each of
  -- the four edges it leaves out no line or at least two, and at one of them at least two.
  pub find_region_inside :
      (r : ContentRegion)
      → find_region image ≡ some r
      → (r.x + r.width ≤ image.width)
        × (r.y + r.height ≤ image.height)
        × (image.width ≤ 4 * r.width)
        × (image.height ≤ 4 * r.height)
        × IsBand r.y
        × IsBand (image.height - (r.y + r.height))
        × IsBand r.x
        × IsBand (image.width - (r.x + r.width))
        × ((2 ≤ r.y)
            ⊎ (2 ≤ image.height - (r.y + r.height))
            ⊎ (2 ≤ r.x)
            ⊎ (2 ≤ image.width - (r.x + r.width)))
  find_region_inside r h =
      let f = found r h in
      let sides = sides_fit in
      let ends = ends_fit in
      let lt = trim_le (left image) in
      let rt = trim_le (right image) in
      let tt = trim_le (top image) in
      let bt = trim_le (bottom image) in
      let under : trim (bottom image)
          ≡ image.height
            - (trim (top image) + (image.height - trim (top image) - trim (bottom image))) =
        omega arith in
      let beside : trim (right image)
          ≡ image.width
            - (trim (left image) + (image.width - trim (left image) - trim (right image))) =
        omega arith in
      let t = trim-IsBand (top image) in
      let b = subst IsBand under (trim-IsBand (bottom image)) in
      let l = trim-IsBand (left image) in
      let i = subst IsBand beside (trim-IsBand (right image)) in
      (
        rw f.same (omega arith),
        rw f.same (omega arith),
        f.wide,
        f.high,
        rw f.same t,
        rw f.same b,
        rw f.same l,
        rw f.same i,
        rw f.same (some_two _ _ _ _ t b l i (rw (sym under, sym beside) f.some_band)),
      )

  -- Every row above and below the region that is found is flat: each of its pixels is near the first
  -- pixel of the image's first row, or of its last.
  pub find_region_flat :
      (r : ContentRegion) (x y : ℕ)
      → find_region image ≡ some r
      → x < image.width
      → y < image.height
      → (y < r.y) ⊎ (r.y + r.height ≤ y)
      → (near (image.pixel 0 0) (image.pixel x y) ≡ true)
        ⊎ (near (image.pixel 0 (image.height - 1)) (image.pixel x y) ≡ true)
  unfolding top bottom
  find_region_flat r x y h in_row in_column (inl above) =
      let f = found r h in
      let above' : y < trim (top image) = subst (λ q. y < q.y) f.same above in
      let inside : y < top image = omega (arith, trim_le (top image), above') in
      inl (band_flat image.height image.width image.pixel y x inside in_row)
  find_region_flat r x y h in_row in_column (inr below) =
      let f = found r h in
      let below' : trim (top image) + (image.height - trim (top image) - trim (bottom image)) ≤ y =
        subst (λ q. q.y + q.height ≤ y) f.same below in
      let inside : image.height - 1 - y < bottom image =
        omega (arith, trim_le (bottom image), trim_le (top image), below', in_column, ends_fit) in
      inr (
        subst (λ k. near (image.pixel 0 (image.height - 1)) (image.pixel x k) ≡ true) (omega arith)
          (subst
            (λ k.
              near (image.pixel 0 k) (image.pixel x (image.height - 1 - (image.height - 1 - y)))
              ≡ true)
            (omega arith)
            (band_flat (image.height - top image) image.width
              (λ a line. image.pixel a (image.height - 1 - line)) (image.height - 1 - y) x inside
              in_row)))
