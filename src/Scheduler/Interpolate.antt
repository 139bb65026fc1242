-- ===== src/Scheduler/Interpolate.antt =====
-- `interpolate_outputs` of src/scheduler/execute.rs.
pub mod Bounds
use pidag.Base.{
  ℕ, zero, suc, ◌-◌, Bool, true, false, Option, none, some, List, [], ◌∷◌, ◌++◌, ltb, length,
  if◌then◌else◌,
}
use pidag.Text.{Text, codes}
use pidag.Text.Bytes.{size, slice_from, find_char_boundary_after}
use pidag.Text.Decimal.{show_nat}
use pidag.Text.Placeholder.{next_placeholder, absent, unclosed, found, output_reference, braced}
use pidag.Map.{Map}
use pidag.Scheduler.{NodeState}
use pidag.Scheduler.Verdict.{output_of}

abbrev pub max_interpolated : ℕ
max_interpolated = 0x8000

abbrev pub safe_tail_start : Text → ℕ
safe_tail_start output = find_char_boundary_after output (size output - max_interpolated)

unfoldable pub truncation_marker : ℕ → Text
truncation_marker dropped = codes "[… " ++ (show_nat dropped ++ codes " bytes truncated …]\n")

-- I6: the output, or its tail behind a marker.
unfoldable pub cap_output : Text → Text
cap_output output =
    if ltb max_interpolated (size output)
    then (let tail = slice_from output (safe_tail_start output) in
        truncation_marker (size output - size tail) ++ tail)
    else output

-- What takes the place of one placeholder.
unfoldable pub substitute : Map NodeState → Text → Text
substitute node_state content = elim (output_reference content) [
  | none ↦ braced content
  | some node_ref ↦ cap_output (output_of node_ref node_state)
]

unfoldable pub interpolate_from : ℕ → Text → Map NodeState → Text
interpolate_from zero prompt node_state = prompt
interpolate_from (suc fuel) prompt node_state = elim (next_placeholder prompt) [
  | absent ↦ prompt
  | unclosed ↦ prompt
  | found before content behind ↦
      before ++ (substitute node_state content ++ interpolate_from fuel behind node_state)
]

unfoldable pub interpolate_outputs : Text → Map NodeState → Text
interpolate_outputs prompt node_state = interpolate_from (length prompt) prompt node_state
