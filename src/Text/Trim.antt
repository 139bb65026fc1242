-- ===== src/Text/Trim.antt =====
-- `trim`, `trim_start_matches` and the character classes of the standard library. Which characters
-- outside ASCII are alphanumeric is the argument `wide`.
use pidag.Base.{ℕ, Bool, ◌||◌, ◌&&◌, [], ◌∷◌, ◌==◌, ltb, leb, if◌then◌else◌}
use pidag.Text.{Text}

abbrev between : ℕ → ℕ → ℕ → Bool
between lo hi c = leb lo c && leb c hi

-- `char::is_ascii_alphanumeric`.
unfoldable pub is_ascii_alphanumeric : ℕ → Bool
is_ascii_alphanumeric c = between b'0' b'9' c || (between b'a' b'z' c || between b'A' b'Z' c)

-- `char::is_alphanumeric`.
unfoldable pub is_alphanumeric : (ℕ → Bool) → ℕ → Bool
unfolding is_ascii_alphanumeric
is_alphanumeric wide c = if ltb c 128 then is_ascii_alphanumeric c else wide c

-- `char::is_whitespace`, the Unicode property White_Space.
unfoldable pub is_whitespace : ℕ → Bool
is_whitespace c =
    between 9 13 c
    || (c == 0x20
        || (c == 0x85
            || (c == 0xA0
                || (c == 0x1680
                    || (between 0x2000 0x200A c
                        || (c == 0x2028
                            || (c == 0x2029 || (c == 0x202F || (c == 0x205F || c == 0x3000)))))))))

unfoldable pub trim_start_matches : (ℕ → Bool) → Text → Text
trim_start_matches p [] = []
trim_start_matches p (c ∷ cs) = let rest = trim_start_matches p cs in if p c then rest else c ∷ cs

unfoldable pub trim_end_matches : (ℕ → Bool) → Text → Text
trim_end_matches p [] = []
trim_end_matches p (c ∷ cs) = elim (trim_end_matches p cs) [
  | [] ↦ if p c then [] else c ∷ []
  | d ∷ ds ↦ c ∷ d ∷ ds
]

unfoldable pub trim : Text → Text
unfolding trim_start_matches trim_end_matches is_whitespace
trim s = trim_end_matches is_whitespace (trim_start_matches is_whitespace s)
