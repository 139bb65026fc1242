-- ===== src/Text/Bytes/Cuts.antt =====
-- What the two cuts keep of a text.
use mathlib.Core.List.{append-nil}
use native.Mathlib.Decide.{ℕ_discrete}
use native.Mathlib.Nat.{sub_self, add-sub_cancel_left}
use pidag.Base.{
  ℕ, zero, suc, ◌+◌, ◌-◌, ◌≤◌, ◌<◌, ◌≡◌, refl, ap, sym, inl, inr, true, false, none, some, [], ◌∷◌,
  ◌++◌, arith, leb, Option-cases, Bool-cases,
}
use pidag.Text.{Text}
use pidag.Text.Bytes.{
  len_utf8, size, slice_from, is_char_boundary, last_end_before, truncate_at_char_boundary,
  next_boundary, find_char_boundary_after, len_utf8_pos, is_char_boundary_zero, slice_parts,
  is_char_boundary-size,
}

-- The character that ends at `end` starts before `max`, and no later one does.
record IsCut (max pos : ℕ) (s : Text) (end : ℕ) : Type 0 where
  kept : ℕ
  ends : end ≡ pos + kept
  some_kept : 0 < kept
  boundary : is_char_boundary s kept ≡ true
  upper : end ≤ max + 3
  lower : max < pos + size s → max ≤ end

last_end_before-none :
    (max pos : ℕ) (s : Text) → last_end_before max pos s ≡ none → max < pos + size s → max ≤ pos
unfolding last_end_before
last_end_before-none max pos [] h l = omega arith
last_end_before-none max pos (c ∷ cs) h l =
    elim (Option-cases (last_end_before max (pos + len_utf8 c) cs)) [
      | inl e ↦ ground arith
      | inr (e', e) ↦ ground arith
    ]

last_end_before-IsCut :
    (max pos : ℕ) (s : Text) (end : ℕ) → last_end_before max pos s ≡ some end → IsCut max pos s end
unfolding last_end_before is_char_boundary
last_end_before-IsCut max pos [] end h = ground arith
last_end_before-IsCut max pos (c ∷ cs) end h =
    elim (Option-cases (last_end_before max (pos + len_utf8 c) cs)) [
      | inl e ↦ record {
        kept = len_utf8 c;
        ends = ground arith;
        some_kept = omega (arith, len_utf8_pos c);
        boundary = ground (arith, len_utf8_pos c, is_char_boundary_zero cs, sub_self (len_utf8 c));
        upper = ground (arith, len_utf8_pos c);
        lower = ground (arith, last_end_before-none max (pos + len_utf8 c) cs);
      }
      | inr (e', e) ↦
          let later = last_end_before-IsCut max (pos + len_utf8 c) cs e' e in
          record {
            kept = len_utf8 c + later.kept;
            ends = ground (arith, later.ends);
            some_kept = omega (arith, later.some_kept);
            boundary = ground (
              arith,
              later.some_kept,
              later.boundary,
              add-sub_cancel_left (len_utf8 c) later.kept,
            );
            upper = ground (arith, later.upper);
            lower = ground (arith, later.lower);
          }
    ]

-- What a cut to `max` bytes leaves of a text.
pub record IsTruncation (s : Text) (max : ℕ) (t : Text) : Type 0 where
  pub rest : Text
  pub prefix : s ≡ t ++ rest
  pub short : size s ≤ max → t ≡ s
  pub lower : max < size s → max ≤ size t
  pub upper : size t ≤ max + 3

-- A truncated text is a prefix: the whole text where that fits, and otherwise one that fills the limit and
-- exceeds it by at most 3 bytes.
pub truncate_at_char_boundary-IsTruncation :
    (s : Text) (max : ℕ) → IsTruncation s max (truncate_at_char_boundary s max)
unfolding truncate_at_char_boundary
truncate_at_char_boundary-IsTruncation s max = elim (Bool-cases (leb (size s) max)) [
  | inl e ↦ rw e (record {
    rest = [];
    prefix = sym (append-nil s);
    short = λ _. refl;
    lower = ground arith;
    upper = ground arith;
  })
  | inr e ↦ elim (Option-cases (last_end_before max 0 s)) [
    | inl k ↦
        rw (e, k)
          (record {
            rest = s;
            prefix = refl;
            short = ground arith;
            lower = ground (arith, last_end_before-none max 0 s);
            upper = omega arith;
          })
    | inr (end, k) ↦
        let cut = last_end_before-IsCut max 0 s end k in
        let whole : cut.kept ≡ end = omega (arith, cut.ends) in
        let parts = slice_parts s end (rw whole at cut.boundary) in
        rw (e, k)
          (record {
            rest = slice_from s end;
            prefix = sym parts.0;
            short = ground arith;
            lower = ground (arith, parts.1, cut.lower);
            upper = ground (arith, parts.1, cut.upper);
          })
  ]
]

-- The first character boundary of `s` at or after `pos`.
pub record IsNextBoundary (s : Text) (pos next : ℕ) : Type 0 where
  pub boundary : is_char_boundary s next ≡ true
  pub from : pos ≤ next
  pub within : next ≤ size s
  pub first : (k : ℕ) → pos ≤ k → k < next → is_char_boundary s k ≡ false

-- The end of a text is a boundary, so a position that is none has others behind it.
left_pos :
    (s : Text) (i left : ℕ) → i + suc left ≡ size s + 1 → is_char_boundary s i ≡ false → 0 < left
left_pos s i zero h e =
    let at_end : i ≡ size s = omega arith in
    cc (is_char_boundary-size s, ap (is_char_boundary s) at_end)
left_pos s i (suc left) h e = omega arith

IsNextBoundary-skip :
    (s : Text) (i n : ℕ)
    → is_char_boundary s i ≡ false
    → IsNextBoundary s (i + 1) n
    → IsNextBoundary s i n
IsNextBoundary-skip s i n e b = record {
  boundary = b.boundary;
  from = omega (arith, b.from);
  within = b.within;
  first = λ k a l. elim (ℕ_discrete i k) [
    | yes here ↦ rw (← here) e
    | no other ↦ b.first k (omega arith) l
  ];
}

IsNextBoundary-self :
    (s : Text) (i : ℕ) → is_char_boundary s i ≡ true → i ≤ size s → IsNextBoundary s i i
IsNextBoundary-self s i e h = record {
  boundary = e;
  from = omega arith;
  within = h;
  first = λ k a l. absurd (omega arith);
}

next_boundary-IsNextBoundary :
    (s : Text) (i left : ℕ)
    → i + left ≡ size s + 1
    → 0 < left
    → IsNextBoundary s i (next_boundary s i left)
unfolding next_boundary
next_boundary-IsNextBoundary s i zero h p = absurd (omega arith)
next_boundary-IsNextBoundary s i (suc left) h p = elim (Bool-cases (is_char_boundary s i)) [
  | inl e ↦ rw e (IsNextBoundary-self s i e (omega arith))
  | inr e ↦ rw e (
      IsNextBoundary-skip s i _ e
        (next_boundary-IsNextBoundary s (i + 1) left (omega arith) (left_pos s i left h e)))
]

-- For a position inside the text, the result is the first character boundary at or behind it.
pub find_char_boundary_after-IsNextBoundary :
    (s : Text) (pos : ℕ) → pos ≤ size s → IsNextBoundary s pos (find_char_boundary_after s pos)
unfolding find_char_boundary_after
find_char_boundary_after-IsNextBoundary s pos h = elim (Bool-cases (leb (size s) pos)) [
  | inl e ↦
      let at_end : pos ≡ size s = ground arith in
      rw (e, at_end) (IsNextBoundary-self s (size s) (is_char_boundary-size s) (omega arith))
  | inr e ↦ elim (Bool-cases (is_char_boundary s pos)) [
    | inl k ↦ rw (e, k) (IsNextBoundary-self s pos k h)
    | inr k ↦
        rw (e, k)
          (IsNextBoundary-skip s pos _ k
            (next_boundary-IsNextBoundary s (pos + 1) (size s - pos) (omega arith) (ground arith)))
  ]
]
