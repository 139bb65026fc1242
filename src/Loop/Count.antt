-- ===== src/Loop/Count.antt =====
-- How often a text stands in a list, and the pigeonhole principle for lists of texts.
use pidag.Base.{
  ℕ, suc, ◌+◌, ◌≤◌, ◌≡◌, refl, Bool, true, false, List, [], ◌∷◌, ◌++◌, length, ltb, Bool-cases, inl,
  inr, arith, if◌then◌else◌,
}
use pidag.Text.{Text, same, same_iff, same_refl, contains, distinct}

abbrev pub bit : Bool → ℕ
bit true = 1
bit false = 0

unfoldable pub count : Text → List Text → ℕ
count x [] = 0
count x (y ∷ l) = bit (same y x) + count x l

pub count-append : (x : Text) (l m : List Text) → count x (l ++ m) ≡ count x l + count x m
unfolding count
count-append x [] m = omega arith
count-append x (y ∷ l) m = omega (arith, count-append x l m)

pub contains-le-count : (x : Text) (l : List Text) → bit (contains l x) ≤ count x l
unfolding count contains
contains-le-count x [] = omega arith
contains-le-count x (y ∷ l) = ground (arith, contains-le-count x l)

pub count-distinct : (l : List Text) → ((x : Text) → count x l ≤ 1) → distinct l ≡ true
unfolding count distinct
count-distinct [] h = refl
count-distinct (y ∷ l) h = ground (
  arith,
  h y,
  same_refl y,
  contains-le-count y l,
  count-distinct l (λ x. let first = h x in omega (arith, first)),
)

-- The list without the first `x`.
drop_first : Text → List Text → List Text
drop_first x [] = []
drop_first x (y ∷ l) = let rest = drop_first x l in if same y x then l else y ∷ rest

count-drop_first :
    (x z : Text) (l : List Text) → count z l ≤ count z (drop_first x l) + bit (same x z)
unfolding count drop_first
count-drop_first x z [] = omega arith
count-drop_first x z (y ∷ l) =
    ground (arith, same_iff y x, same_iff y z, same_iff x z, count-drop_first x z l)

length-drop_first :
    (x : Text) (l : List Text) → 1 ≤ count x l → suc (length (drop_first x l)) ≡ length l
unfolding count drop_first
length-drop_first x [] h = absurd (omega arith)
length-drop_first x (y ∷ l) h = ground (arith, length-drop_first x l)

-- A list whose texts all stand at least as often in another is no longer than it.
pub count-length : (l m : List Text) → ((x : Text) → count x l ≤ count x m) → length l ≤ length m
unfolding count
count-length [] m h = omega arith
count-length (y ∷ l) m h =
    let rest = count-length l (drop_first y m) (λ x. omega (arith, h x, count-drop_first y x m)) in
    omega (arith, rest, length-drop_first y m (ground (arith, h y, same_refl y)))

-- Lists of the same length hold the same texts where the one holds all texts of the other.
pub count-equal :
    (l m : List Text) (x : Text)
    → ((z : Text) → count z l ≤ count z m)
    → length l ≡ length m
    → count x l ≡ count x m
count-equal l m x h e = elim (Bool-cases (ltb (count x l) (count x m))) [
  | inl less ↦
      let within : (z : Text) → count z l ≤ count z (drop_first x m) =
        λ z. ground (arith, h z, less, count-drop_first x z m, same_iff x z) in
      absurd (
        omega (
          arith,
          e,
          count-length l (drop_first x m) within,
          length-drop_first x m (ground (arith, less)),
        ))
  | inr more ↦ ground (arith, h x, more)
]
