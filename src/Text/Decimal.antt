-- ===== src/Text/Decimal.antt =====
-- `Display` of an unsigned integer, as `format!` prints a counter or an index.
use Prim.Native.Nat.{ℕ}
use pidag.Base.{
  zero, suc, ◌+◌, ◌*◌, ◌/◌, ◌%◌, ◌≤◌, ◌<◌, ◌≡◌, refl, ap, sym, ◌∙◌, [], ◌∷◌, ◌++◌, arith, ltb,
  if◌then◌else◌, Bool-cases, inl, inr, ◌-◌, Bool, false, ◌||◌, any,
}
use pidag.Text.{Text}

-- The digits of `n`, the most significant first; `n < 10 ^ fuel` makes them all fit.
digits_of : ℕ → ℕ → Text
digits_of zero n = []
digits_of (suc fuel) n =
    let front = digits_of fuel (n / 10) in
    if ltb n 10 then (b'0' + n) ∷ [] else front ++ (b'0' + n % 10) ∷ []

unfoldable pub show_nat : ℕ → Text
unfolding digits_of
show_nat n = digits_of (suc n) n

-- What a run of digits denotes, behind the value `acc` of the digits before it.
value_from : ℕ → Text → ℕ
value_from acc [] = acc
value_from acc (c ∷ cs) = value_from (acc * 10 + (c - b'0')) cs

value_from-append :
    (acc : ℕ) (s t : Text) → value_from acc (s ++ t) ≡ value_from (value_from acc s) t
unfolding value_from
value_from-append acc [] t = refl
value_from-append acc (c ∷ cs) t = value_from-append (acc * 10 + (c - b'0')) cs t

value_from-digits_of : (fuel n : ℕ) → n < fuel → value_from 0 (digits_of fuel n) ≡ n
unfolding digits_of value_from
value_from-digits_of zero n h = absurd (omega arith)
value_from-digits_of (suc fuel) n h = elim (Bool-cases (ltb n 10)) [
  | inl e ↦ rw e (omega arith)
  | inr e ↦
      let at_least_ten : 10 ≤ n = ground arith in
      rw
        (
          e,
          value_from-append 0 (digits_of fuel (n / 10)) ((b'0' + n % 10) ∷ []),
          value_from-digits_of fuel (n / 10) (omega arith),
        )
        (omega arith)
]

-- Two numbers that print alike are equal.
pub show_nat-injective : (m n : ℕ) → show_nat m ≡ show_nat n → m ≡ n
unfolding show_nat
show_nat-injective m n h =
    sym (value_from-digits_of (suc m) m (omega arith))
    ∙ (ap (value_from 0) h ∙ value_from-digits_of (suc n) n (omega arith))

-- A character behind the digits.
abbrev pub is_behind_digits : ℕ → Bool
is_behind_digits c = ltb b'9' c

any-append :
    (s t : Text)
    → any is_behind_digits (s ++ t) ≡ (any is_behind_digits s || any is_behind_digits t)
any-append [] t = refl
any-append (c ∷ s) t = ground (arith, any-append s t)

any-digits_of : (fuel n : ℕ) → any is_behind_digits (digits_of fuel n) ≡ false
unfolding digits_of
any-digits_of zero n = refl
any-digits_of (suc fuel) n = ground (
  arith,
  any-append (digits_of fuel (n / 10)) ((b'0' + n % 10) ∷ []),
  any-digits_of fuel (n / 10),
)

-- A number prints as digits alone.
pub any-show_nat : (n : ℕ) → any is_behind_digits (show_nat n) ≡ false
unfolding show_nat
any-show_nat n = any-digits_of (suc n) n
