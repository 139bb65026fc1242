-- ===== src/Text/Search.antt =====
-- `strip_prefix`, `find` and `replace` with a text as the pattern. A byte offset into a `str` is the
-- pair of the text before it and the text from it on.
use pidag.Base.{
  ◌+◌, ◌≡◌, refl, ap, inl, inr, Option, none, some, [], ◌∷◌, ◌++◌, arith, ◌==◌, if◌then◌else◌,
  length, length-append, Option-cases,
}
use pidag.Text.{Text}

-- `s.strip_prefix(p)`.
unfoldable pub strip_prefix : Text → Text → Option Text
strip_prefix [] s = some s
strip_prefix (p ∷ ps) [] = none
strip_prefix (p ∷ ps) (c ∷ cs) = let rest = strip_prefix ps cs in if p == c then rest else none

-- The texts before and behind the first occurrence that `s.find(p)` gives.
unfoldable pub find_split : Text → Text → Option (Text × Text)
unfolding strip_prefix
find_split p [] = elim (strip_prefix p []) [ none ↦ none | some rest ↦ some ([], rest) ]
find_split p (c ∷ cs) = elim (strip_prefix p (c ∷ cs)) [
  | none ↦ elim (find_split p cs) [
    | none ↦ none
    | some (before, behind) ↦ some (c ∷ before, behind)
  ]
  | some rest ↦ some ([], rest)
]

pub strip_prefix_sound : (p s rest : Text) → strip_prefix p s ≡ some rest → s ≡ p ++ rest
unfolding strip_prefix
strip_prefix_sound [] s rest h = ground arith
strip_prefix_sound (p ∷ ps) [] rest h = ground arith
strip_prefix_sound (p ∷ ps) (c ∷ cs) rest h = ground (arith, strip_prefix_sound ps cs rest)

pub strip_prefix-append : (p rest : Text) → strip_prefix p (p ++ rest) ≡ some rest
unfolding strip_prefix
strip_prefix-append [] rest = refl
strip_prefix-append (p ∷ ps) rest = ground (arith, strip_prefix-append ps rest)

pub find_split_sound :
    (p s before behind : Text)
    → find_split p s ≡ some (before, behind)
    → s ≡ before ++ (p ++ behind)
unfolding find_split
find_split_sound p [] before behind h = ground (arith, strip_prefix_sound p [] behind)
find_split_sound p (c ∷ cs) before behind h = elim (Option-cases (strip_prefix p (c ∷ cs))) [
  | inl e ↦ elim (Option-cases (find_split p cs)) [
    | inl k ↦ ground arith
    | inr ((b, r), k) ↦ ground (arith, find_split_sound p cs b r)
  ]
  | inr (r, e) ↦ ground (arith, strip_prefix_sound p (c ∷ cs) behind)
]

pub length-find_split :
    (p s before behind : Text)
    → find_split p s ≡ some (before, behind)
    → length s ≡ length before + length p + length behind
length-find_split p s before behind h = omega (
  arith,
  ap length (find_split_sound p s before behind h),
  length-append before (p ++ behind),
  length-append p behind,
)
