-- ===== src/Text/Placeholder.antt =====
-- The scan for `{{…}}` that `validate_output_references` and `expand_output_refs` of core/dag.rs and
-- `interpolate_outputs` of scheduler/execute.rs share.
use mathlib.Core.List.{append_assoc}
use pidag.Base.{
  ℕ, zero, suc, ◌+◌, ◌≤◌, ◌<◌, ◌≡◌, refl, ap, Option, none, some, List, [], ◌∷◌, ◌++◌, arith,
  if◌then◌else◌, length, Option-cases, inl, inr,
}
use pidag.Text.{Text, codes, same}
use pidag.Text.Search.{find_split, find_split_sound, length-find_split}

-- What `find("{{")` and then `find("}}")` give: the text before a placeholder, what stands between
-- its braces, and the text behind it.
pub data Placeholder : Type 0 where
  absent unclosed : Placeholder
  found : (before content behind : Text) → Placeholder

abbrev pub opening : Text
opening = codes "{{"

abbrev pub closing : Text
closing = codes "}}"

abbrev close_placeholder : Text → Option (Text × Text) → Placeholder
close_placeholder before none = unclosed
close_placeholder before (some (content, behind)) = found before content behind

abbrev open_placeholder : Option (Text × Text) → Placeholder
open_placeholder none = absent
open_placeholder (some (before, rest)) = close_placeholder before (find_split closing rest)

unfoldable pub next_placeholder : Text → Placeholder
next_placeholder prompt = open_placeholder (find_split opening prompt)

-- The placeholder as it is written.
abbrev pub braced : Text → Text
braced content = opening ++ (content ++ closing)

-- `X` where the content is `X.output`, by the first dot.
unfoldable pub output_reference : Text → Option Text
output_reference content = elim (find_split (codes ".") content) [
  | none ↦ none
  | some (node_ref, suffix) ↦ if same suffix (codes "output") then some node_ref else none
]

-- Each round of a scan leaves a shorter text, so `length prompt` rounds are enough.
pub length-next_placeholder :
    (prompt before content behind : Text)
    → next_placeholder prompt ≡ found before content behind
    → length before + length content + length behind + 4 ≡ length prompt
unfolding next_placeholder
length-next_placeholder prompt before content behind h =
    elim (Option-cases (find_split opening prompt)) [
      | inl e ↦ ground arith
      | inr ((b, rest), e) ↦ elim (Option-cases (find_split closing rest)) [
        | inl k ↦ ground arith
        | inr ((c, r), k) ↦
            ground
              (arith, length-find_split opening prompt b rest, length-find_split closing rest c r)
      ]
    ]

-- The contents of all closed placeholders of a prompt.
unfoldable pub contents : ℕ → Text → List Text
contents zero prompt = []
contents (suc fuel) prompt = elim (next_placeholder prompt) [
  | absent ↦ []
  | unclosed ↦ []
  | found before content behind ↦ content ∷ contents fuel behind
]

-- Case split on the scan that keeps the equation.
pub data Scanned (prompt : Text) : Type 0 where
  is_absent : next_placeholder prompt ≡ absent → Scanned prompt
  is_unclosed : next_placeholder prompt ≡ unclosed → Scanned prompt
  is_found :
      (before content behind : Text)
      → next_placeholder prompt ≡ found before content behind
      → length behind < length prompt
      → Scanned prompt

pub scan : (prompt : Text) → Scanned prompt
scan prompt = go (next_placeholder prompt) refl
  where
    go : (p : Placeholder) → next_placeholder prompt ≡ p → Scanned prompt
    go absent e = is_absent e
    go unclosed e = is_unclosed e
    go (found before content behind) e =
        is_found before content behind e
          (omega (arith, length-next_placeholder prompt before content behind e))

pub contents_fuel :
    (f g : ℕ) (prompt : Text)
    → length prompt ≤ f
    → length prompt ≤ g
    → contents f prompt ≡ contents g prompt
unfolding contents
contents_fuel zero zero prompt hf hg = refl
contents_fuel zero (suc g) prompt hf hg = elim (scan prompt) [
  | is_absent e ↦ rw (e, contents)
  | is_unclosed e ↦ rw (e, contents)
  | is_found b c r e l ↦ absurd (omega arith)
]
contents_fuel (suc f) zero prompt hf hg = elim (scan prompt) [
  | is_absent e ↦ rw (e, contents)
  | is_unclosed e ↦ rw (e, contents)
  | is_found b c r e l ↦ absurd (omega arith)
]
contents_fuel (suc f) (suc g) prompt hf hg = elim (scan prompt) [
  | is_absent e ↦ rw (e, contents)
  | is_unclosed e ↦ rw (e, contents)
  | is_found b c r e l ↦
      rw (e, contents) (ap (λ l. c ∷ l) (contents_fuel f g r (omega arith) (omega arith)))
]

pub next_placeholder_sound :
    (prompt before content behind : Text)
    → next_placeholder prompt ≡ found before content behind
    → prompt ≡ before ++ (braced content ++ behind)
unfolding next_placeholder
next_placeholder_sound prompt before content behind h =
    elim (Option-cases (find_split opening prompt)) [
      | inl e ↦ ground arith
      | inr ((b, rest), e) ↦ elim (Option-cases (find_split closing rest)) [
        | inl k ↦ ground arith
        | inr ((c, r), k) ↦
            let outer = find_split_sound opening prompt b rest e in
            let inner = find_split_sound closing rest c r k in
            ground (arith, outer, inner, append_assoc c closing r)
      ]
    ]
