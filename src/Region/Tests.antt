-- ===== src/Region/Tests.antt =====
-- The finder at an image of 8 by 10 pixels with two black rows at the top.
use seiza_server.Base.{
  ◌-◌, ℕ, ◌+◌, ◌*◌, ◌%◌, ◌≤◌, ◌≡◌, ◌⊎◌, refl, inl, true, some, arith, ltb, if◌then◌else◌,
}
use seiza_server.Region.Find.{
  Pixel, Image, ContentRegion, near, find_region, top, bottom, left, right, band, span, flat_lines,
}
use seiza_server.Region.Bands.{IsBand, find_region_inside, find_region_flat}

abbrev grey : ℕ → Pixel
grey v = record { red = v; green = v; blue = v }

abbrev barred : Image
barred = record {
  width = 8;
  height = 10;
  pixel = λ x y. if ltb y 2 then grey 3 else grey (40 + ((x * 79 + y * 107) % 61));
}

abbrev region : ContentRegion
region = record { x = 0; y = 2; width = 8; height = 8 }

region_of_barred : find_region barred ≡ some region
unfolding find_region top bottom left right band span flat_lines near
region_of_barred = refl

find_region_inside_example :
    (0 + 8 ≤ 8)
    × (2 + 8 ≤ 10)
    × (8 ≤ 4 * 8)
    × (10 ≤ 4 * 8)
    × IsBand 2
    × IsBand (10 - (2 + 8))
    × IsBand 0
    × IsBand (8 - (0 + 8))
    × ((2 ≤ 2) ⊎ (2 ≤ 10 - (2 + 8)) ⊎ (2 ≤ 0) ⊎ (2 ≤ 8 - (0 + 8)))
find_region_inside_example = find_region_inside barred region region_of_barred

find_region_flat_example :
    (near (barred.pixel 0 0) (barred.pixel 5 1) ≡ true)
    ⊎ (near (barred.pixel 0 9) (barred.pixel 5 1) ≡ true)
find_region_flat_example =
    find_region_flat barred region 5 1 region_of_barred (omega arith) (omega arith)
      (inl (omega arith))
