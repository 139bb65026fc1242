-- ===== src/Text/Samples.antt =====
-- Small texts, and where they are cut.
use pidag.Base.{◌≡◌, refl, [], ◌∷◌, arith}
use pidag.Text.{Text}
use pidag.Text.Bytes.{
  truncate_at_char_boundary, find_char_boundary_after, len_utf8, last_end_before, slice_to,
  next_boundary, is_char_boundary,
}
use pidag.Text.Bytes.Cuts.{
  IsTruncation, truncate_at_char_boundary-IsTruncation, IsNextBoundary,
  find_char_boundary_after-IsNextBoundary,
}

-- `h€y`: 1, 3 and 1 bytes.
abbrev price : Text
price = 104 ∷ 0x20ac ∷ 121 ∷ []

truncate_at_char_boundary-IsTruncation_example :
    IsTruncation price 2 (truncate_at_char_boundary price 2)
truncate_at_char_boundary-IsTruncation_example = truncate_at_char_boundary-IsTruncation price 2

find_char_boundary_after-IsNextBoundary_example :
    IsNextBoundary price 2 (find_char_boundary_after price 2)
unfolding len_utf8
find_char_boundary_after-IsNextBoundary_example =
    find_char_boundary_after-IsNextBoundary price 2 (omega arith)

cuts : Unit {0}
unfolding truncate_at_char_boundary find_char_boundary_after len_utf8 last_end_before slice_to
    next_boundary is_char_boundary
cuts = tt

-- Byte 2 is inside `€`: the truncated text takes the whole character in.
truncate_at_char_boundary-price : truncate_at_char_boundary price 2 ≡ 104 ∷ 0x20ac ∷ []
unfolding cuts
truncate_at_char_boundary-price = refl

find_char_boundary_after-price : find_char_boundary_after price 2 ≡ 4
unfolding cuts
find_char_boundary_after-price = refl
