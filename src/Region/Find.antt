-- ===== src/Region/Find.antt =====
-- `find` and `band` of src/content_region.rs. A length of a side and a coordinate are `u32`s, none
-- of which wraps here, since a band is at most as long as what is left of its side.
use seiza_server.Base.{
  ℕ, zero, suc, ◌+◌, ◌-◌, ◌*◌, Bool, ◌&&◌, ◌||◌, Option, none, some, List, [], ◌∷◌, map, all, leb,
  ltb, ◌==◌, if◌then◌else◌,
}

pub record Pixel : Type 0 where
  pub red : ℕ
  pub green : ℕ
  pub blue : ℕ

-- An image as its dimensions and `get_pixel`.
pub record Image : Type 0 where
  pub width : ℕ
  pub height : ℕ
  pub pixel : ℕ → ℕ → Pixel

pub record ContentRegion : Type 0 where
  pub x : ℕ
  pub y : ℕ
  pub width : ℕ
  pub height : ℕ

abbrev pub tolerance : ℕ
tolerance = 10

abbrev pub min_band_px : ℕ
min_band_px = 2

abbrev pub abs_diff : ℕ → ℕ → ℕ
abs_diff a b = (a - b) + (b - a)

unfoldable pub near : Pixel → Pixel → Bool
near colour p =
    leb (abs_diff p.red colour.red) tolerance
    && (leb (abs_diff p.green colour.green) tolerance
        && leb (abs_diff p.blue colour.blue) tolerance)

-- `take_while` over the `lines` indices from `index` on.
unfoldable pub flat_lines : Pixel → (ℕ → List Pixel) → ℕ → ℕ → ℕ
unfolding near
flat_lines colour line index zero = 0
flat_lines colour line index (suc lines) =
    let rest = flat_lines colour line (suc index) lines in
    if all (near colour) (line index) then suc rest else 0

abbrev pub from_edge : List Pixel → ℕ → (ℕ → List Pixel) → ℕ
from_edge [] lines line = 0
from_edge (colour ∷ pixels) lines line = flat_lines colour line 0 lines

unfoldable pub band : ℕ → (ℕ → List Pixel) → ℕ
unfolding flat_lines
band lines line = from_edge (line 0) lines line

-- `start..start + count`.
unfoldable pub span : ℕ → ℕ → List ℕ
span start zero = []
span start (suc count) = start ∷ span (suc start) count

abbrev pub trim : ℕ → ℕ
trim band = if ltb band min_band_px then 0 else band

module _ (image : Image) where
  unfoldable pub top : ℕ
  unfolding band span
  top = band image.height (λ line. map (λ x. image.pixel x line) (span 0 image.width))

  unfoldable pub bottom : ℕ
  unfolding band span top
  bottom =
      band (image.height - top)
        (λ line. map (λ x. image.pixel x (image.height - 1 - line)) (span 0 image.width))

  abbrev pub rows : List ℕ
  rows = span top (image.height - bottom - top)

  unfoldable pub left : ℕ
  unfolding band span top bottom
  left = band image.width (λ line. map (λ y. image.pixel line y) rows)

  unfoldable pub right : ℕ
  unfolding band span top bottom left
  right = band (image.width - left) (λ line. map (λ y. image.pixel (image.width - 1 - line) y) rows)

  -- `part as f64 >= whole as f64 * 0.25`, which is exact on `u32`s.
  abbrev pub enough : ℕ → ℕ → Bool
  enough part whole = leb whole (4 * part)

  abbrev pub region_of : ContentRegion
  region_of = record {
    x = trim left;
    y = trim top;
    width = image.width - trim left - trim right;
    height = image.height - trim top - trim bottom;
  }

  unfoldable pub find_region : Option ContentRegion
  unfolding top bottom left right
  find_region =
      if ltb image.width (4 * min_band_px) || ltb image.height (4 * min_band_px)
      then none
      else if trim top + trim bottom + trim left + trim right == 0
      then none
      else if enough region_of.width image.width && enough region_of.height image.height
      then some region_of
      else none
