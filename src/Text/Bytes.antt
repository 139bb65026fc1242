-- ===== src/Text/Bytes.antt =====
-- Byte offsets into a `str`, and the two cuts of scheduler/execute.rs that keep to character
-- boundaries.
pub mod Cuts
use native.Mathlib.Nat.{add-sub_cancel_left}
use pidag.Base.{
  ℕ, zero, suc, ◌+◌, ◌-◌, ◌≤◌, ◌<◌, ◌≡◌, refl, ap, sym, ◌∙◌, ◌⊎◌, inl, inr, Bool, true, false,
  Option, none, some, List, [], ◌∷◌, ◌++◌, arith, ◌==◌, ltb, leb, ◌||◌, if◌then◌else◌, length,
  length-append, Option-cases, Bool-cases,
}
use pidag.Text.{Text}

-- `char::len_utf8`.
unfoldable pub len_utf8 : ℕ → ℕ
len_utf8 c = if ltb c 0x80 then 1 else if ltb c 0x800 then 2 else if ltb c 0x10000 then 3 else 4

-- `str::len`.
abbrev pub size : Text → ℕ
size [] = 0
size (c ∷ cs) = len_utf8 c + size cs

-- `&s[..n]`, where `n` is a character boundary.
unfoldable pub slice_to : Text → ℕ → Text
slice_to [] n = []
slice_to (c ∷ cs) n =
    let rest = slice_to cs (n - len_utf8 c) in if leb (len_utf8 c) n then c ∷ rest else []

-- `&s[n..]`, where `n` is a character boundary.
unfoldable pub slice_from : Text → ℕ → Text
slice_from [] n = []
slice_from (c ∷ cs) n =
    let rest = slice_from cs (n - len_utf8 c) in if leb (len_utf8 c) n then rest else c ∷ cs

-- `s.is_char_boundary(n)`.
unfoldable pub is_char_boundary : Text → ℕ → Bool
is_char_boundary [] n = n == 0
is_char_boundary (c ∷ cs) n =
    let rest = is_char_boundary cs (n - len_utf8 c) in
    if n == 0 then true else if leb (len_utf8 c) n then rest else false

-- `s.char_indices().rfind(|(pos, _)| *pos < max)`, as the end `pos + ch.len_utf8()` of that
-- character; `pos` is the offset of the text still to be read.
unfoldable pub last_end_before : ℕ → ℕ → Text → Option ℕ
last_end_before max pos [] = none
last_end_before max pos (c ∷ cs) = elim (last_end_before max (pos + len_utf8 c) cs) [
  | some end ↦ some end
  | none ↦ if ltb pos max then some (pos + len_utf8 c) else none
]

unfoldable pub truncate_at_char_boundary : Text → ℕ → Text
unfolding slice_to last_end_before
truncate_at_char_boundary s max_bytes =
    if leb (size s) max_bytes
    then s
    else elim (last_end_before max_bytes 0 s) [ some end ↦ slice_to s end | none ↦ [] ]

-- The loop `for i in pos + 1..=s.len()`, with `left` values of `i` to come.
unfoldable pub next_boundary : Text → ℕ → ℕ → ℕ
unfolding is_char_boundary
next_boundary s i zero = size s
next_boundary s i (suc left) =
    let rest = next_boundary s (i + 1) left in if is_char_boundary s i then i else rest

unfoldable pub find_char_boundary_after : Text → ℕ → ℕ
unfolding next_boundary
find_char_boundary_after s pos =
    if leb (size s) pos
    then size s
    else if is_char_boundary s pos
    then pos
    else next_boundary s (pos + 1) (size s - pos)

pub size-append : (s t : Text) → size (s ++ t) ≡ size s + size t
size-append [] t = omega arith
size-append (c ∷ cs) t = omega (arith, size-append cs t)

pub len_utf8_pos : (c : ℕ) → (1 ≤ len_utf8 c) × (len_utf8 c ≤ 4)
unfolding len_utf8
len_utf8_pos c = ground arith

-- A cut at a boundary splits the text, and the front has the length asked for.
pub slice_parts :
    (s : Text) (n : ℕ)
    → is_char_boundary s n ≡ true
    → (slice_to s n ++ slice_from s n ≡ s) × (size (slice_to s n) ≡ n)
unfolding slice_to slice_from is_char_boundary
slice_parts [] n h = (refl, ground arith)
slice_parts (c ∷ cs) n h = elim (Bool-cases (leb (len_utf8 c) n)) [
  | inl fits ↦ ground (arith, len_utf8_pos c, slice_parts cs (n - len_utf8 c))
  | inr short ↦ ground (arith, len_utf8_pos c)
]

pub is_char_boundary-size : (s : Text) → is_char_boundary s (size s) ≡ true
unfolding is_char_boundary
is_char_boundary-size [] = refl
is_char_boundary-size (c ∷ cs) = ground (arith, len_utf8_pos c, is_char_boundary-size cs)

pub is_char_boundary_zero : (s : Text) → is_char_boundary s 0 ≡ true
unfolding is_char_boundary
is_char_boundary_zero [] = refl
is_char_boundary_zero (c ∷ cs) = refl

pub is_char_boundary-append : (s t : Text) → is_char_boundary (s ++ t) (size s) ≡ true
unfolding is_char_boundary
is_char_boundary-append [] t = is_char_boundary_zero t
is_char_boundary-append (c ∷ cs) t =
    rw (add-sub_cancel_left (len_utf8 c) (size cs))
      (ground (arith, len_utf8_pos c, is_char_boundary-append cs t))
