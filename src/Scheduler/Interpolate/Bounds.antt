-- ===== src/Scheduler/Interpolate/Bounds.antt =====
-- What interpolation puts into a prompt, and what it leaves alone.
use pidag.Base.{
  ℕ, zero, suc, ◌+◌, ◌-◌, ◌≤◌, ◌<◌, ◌≡◌, refl, ap, sym, ◌∙◌, none, ◌++◌, ltb, length, arith, All,
  Bool-cases, inl, inr, ◌⊎◌,
}
use pidag.Text.{Text}
use pidag.Text.Bytes.{
  size, slice_to, slice_from, is_char_boundary, size-append, slice_parts, is_char_boundary-append,
}
use pidag.Text.Bytes.Cuts.{IsNextBoundary, find_char_boundary_after-IsNextBoundary}
use pidag.Text.Placeholder.{
  output_reference, braced, contents, scan, is_absent, is_unclosed, is_found,
  next_placeholder_sound,
}
use pidag.Map.{Map}
use pidag.Scheduler.{NodeState}
use pidag.Scheduler.Interpolate.{
  max_interpolated, safe_tail_start, truncation_marker, cap_output, substitute, interpolate_from,
  interpolate_outputs,
}

-- A long output is replaced by a marker with the number of bytes dropped and by its tail: the longest
-- one of whole characters that fits into 32 KB.
pub record IsTail (output capped : Text) : Type 0 where
  pub front : Text
  pub tail : Text
  pub split : output ≡ front ++ tail
  pub marked : capped ≡ truncation_marker (size front) ++ tail
  pub fits : size tail ≤ max_interpolated
  pub longest : (f t : Text) → output ≡ f ++ t → size t ≤ max_interpolated → size t ≤ size tail

-- A tail that starts before the first boundary in reach would start at a boundary.
no_longer :
    {output : Text} (f t : Text)
    → output ≡ f ++ t
    → size t ≤ max_interpolated
    → (n : ℕ) → IsNextBoundary output (size output - max_interpolated) n
    → size output ≡ n + size (slice_from output n)
    → size t ≤ size (slice_from output n)
no_longer {output} f t s fits n next total =
    let lengths : size output ≡ size f + size t = ap size s ∙ size-append f t in
    elim (Bool-cases (ltb (size f) n)) [
      | inl early ↦
          let not_one = next.first (size f) (omega arith) (ground arith) in
          cc (ap (λ o. is_char_boundary o (size f)) s, is_char_boundary-append f t, not_one)
      | inr late ↦ ground (arith, lengths, total)
    ]

-- An output of at most 32 KB is put in as it is. A longer one becomes a marker with the number of
-- bytes left out, and the longest tail of whole characters that fits into 32 KB.
pub cap_output_cases :
    (output : Text)
    → (size output ≤ max_interpolated) × (cap_output output ≡ output)
      ⊎ (max_interpolated < size output) × IsTail output (cap_output output)
unfolding cap_output
cap_output_cases output = elim (Bool-cases (ltb max_interpolated (size output))) [
  | inr e ↦ inl (ground arith, rw e)
  | inl e ↦
      let n = safe_tail_start output in
      let next =
        find_char_boundary_after-IsNextBoundary output (size output - max_interpolated)
          (omega arith) in
      let (whole, front_size) = slice_parts output n next.boundary in
      let lengths = size-append (slice_to output n) (slice_from output n) in
      let total : size output ≡ n + size (slice_from output n) =
        omega (arith, ap size whole, lengths, front_size) in
      inr (
        ground arith,
        rw e (record {
          front = slice_to output n;
          tail = slice_from output n;
          split = sym whole;
          marked =
              ap (λ d. truncation_marker d ++ slice_from output n)
                (omega (arith, total, front_size));
          fits = omega (arith, total, next.from);
          longest = λ f t s fits. no_longer f t s fits n next total;
        }),
      )
]

substitute_plain :
    (content : Text)
    → output_reference content ≡ none
    → (node_state : Map NodeState) → substitute node_state content ≡ braced content
unfolding substitute
substitute_plain content h node_state = rw (h, substitute)

interpolate_from_plain :
    (fuel : ℕ) (prompt : Text) (node_state : Map NodeState)
    → All (λ c. output_reference c ≡ none) (contents fuel prompt)
    → interpolate_from fuel prompt node_state ≡ prompt
unfolding interpolate_from contents
interpolate_from_plain zero prompt node_state h = refl
interpolate_from_plain (suc fuel) prompt node_state h = elim (scan prompt) [
  | is_absent e ↦ rw (e, interpolate_from)
  | is_unclosed e ↦ rw (e, interpolate_from)
  | is_found before content behind e l ↦
      let parts : (output_reference content ≡ none)
          × All (λ c. output_reference c ≡ none) (contents fuel behind) =
        rw (e, contents) at h in
      rw (e, interpolate_from)
        (rw
          (
            substitute_plain content parts.0 node_state,
            interpolate_from_plain fuel behind node_state parts.1,
          )
          (sym (next_placeholder_sound prompt before content behind e)))
]

-- A prompt in which no placeholder reads `X.output` is dispatched as it is written.
pub interpolate_outputs_plain :
    (prompt : Text) (node_state : Map NodeState)
    → All (λ c. output_reference c ≡ none) (contents (length prompt) prompt)
    → interpolate_outputs prompt node_state ≡ prompt
unfolding interpolate_outputs
interpolate_outputs_plain prompt node_state h =
    interpolate_from_plain (length prompt) prompt node_state h
