-- ===== src/Text.antt =====
-- Rust's `str` as the list of its Unicode scalar values, with the methods of the standard library
-- that the sources call on it. `size` is `str::len`, the number of UTF-8 bytes.
pub mod Search
pub mod Bytes
pub mod Trim
pub mod Decimal
pub mod Placeholder
pub mod Order
mod Samples
use Prim.Native.Char.{code}
use Prim.Native.String.{String}
use pidag.Base.{
  ℕ, zero, suc, ◌+◌, ◌≤◌, ◌<◌, ◌≡◌, refl, ap, ◌↔◌, Bool, true, false, ◌&&◌, ◌||◌, Option, none,
  some, List, [], ◌∷◌, ◌++◌, arith, ltb, leb, not, any, Bool-cases, inl, inr, ◌==◌, if◌then◌else◌,
  length, length-append,
}

abbrev pub Text : Type 0
Text = List ℕ

abbrev pub codes : String → Text
codes String.[] = []
codes (String.◌∷◌ c s) = code c ∷ codes s

-- `==` on strings.
unfoldable pub same : Text → Text → Bool
same [] [] = true
same [] (d ∷ ds) = false
same (c ∷ cs) [] = false
same (c ∷ cs) (d ∷ ds) = c == d && same cs ds

pub same→eq : (s t : Text) → same s t ≡ true → s ≡ t
unfolding same
same→eq [] [] h = refl
same→eq [] (d ∷ ds) h = ground arith
same→eq (c ∷ cs) [] h = ground arith
same→eq (c ∷ cs) (d ∷ ds) h = ground (arith, same→eq cs ds)

pub same_refl : (s : Text) → same s s ≡ true
unfolding same
same_refl [] = refl
same_refl (c ∷ cs) = ground (arith, same_refl cs)

pub same_iff : (s t : Text) → (same s t ≡ true) ↔ (s ≡ t)
same_iff s t = (same→eq s t, λ e. rw e (same_refl t))

-- `contains` of a vector or a hash set of strings.
unfoldable pub contains : List Text → Text → Bool
contains [] t = false
contains (s ∷ ss) t = same s t || contains ss t

contains_iff_any : (ss : List Text) (t : Text) → contains ss t ≡ any (λ s. same s t) ss
unfolding contains
contains_iff_any [] t = refl
contains_iff_any (s ∷ ss) t = rw (contains_iff_any ss t)

pub contains-append :
    (ss ts : List Text) (t : Text) → contains (ss ++ ts) t ≡ (contains ss t || contains ts t)
unfolding contains
contains-append [] ts t = refl
contains-append (s ∷ ss) ts t = ground (arith, contains-append ss ts t)

pub contains-snoc : (ss : List Text) (t : Text) → contains (ss ++ t ∷ []) t ≡ true
unfolding contains
contains-snoc [] t = rw (same_refl t)
contains-snoc (s ∷ ss) t = ground (arith, contains-snoc ss t)

-- No two entries are equal.
unfoldable pub distinct : List Text → Bool
distinct [] = true
distinct (s ∷ ss) = not (contains ss s) && distinct ss

pub distinct-snoc :
    (ss : List Text) (t : Text)
    → distinct ss ≡ true
    → contains ss t ≡ false
    → distinct (ss ++ t ∷ []) ≡ true
unfolding distinct contains
distinct-snoc [] t h e = refl
distinct-snoc (s ∷ ss) t h e =
    ground (arith, same_iff s t, same_iff t s, contains-append ss (t ∷ []) s, distinct-snoc ss t)

-- The set after `remove`.
unfoldable pub without : List Text → Text → List Text
without [] t = []
without (s ∷ ss) t = let rest = without ss t in if same s t then rest else s ∷ rest

pub contains-without :
    (ss : List Text) (t u : Text) → contains (without ss t) u ≡ (contains ss u && not (same t u))
unfolding contains without
contains-without [] t u = refl
contains-without (s ∷ ss) t u = elim (Bool-cases (same s t)) [
  | inl e ↦ let s_is_t = same→eq s t e in rw (e, contains-without ss t u, s_is_t) (ground arith)
  | inr e ↦ elim (Bool-cases (same s u)) [
    | inl k ↦ ground (arith, same_iff s u, same_iff t u, same_iff s t, contains-without ss t u)
    | inr k ↦ ground (arith, contains-without ss t u)
  ]
]

-- `lines.join(separator)`.
unfoldable pub join : Text → List Text → Text
join separator [] = []
join separator (s ∷ []) = s
join separator (s ∷ t ∷ rest) = s ++ (separator ++ join separator (t ∷ rest))
