-- ===== src/Queue/Choice.antt =====
-- Which spec of a project is taken up next.
use pidag.Base.{
  ◌≡◌, ◌↔◌, ◌⊎◌, inl, inr, refl, ap, subst, Bool, true, false, Option, none, some, List, [], ◌∷◌,
  ◌++◌, any, arith, Bool-cases, Option-cases,
}
use pidag.Text.{Text}
use pidag.Queue.{SpecState, QueueEntry, is_pending, is_interrupted}
use pidag.Queue.Select.{first_file, stem_of, is_nominated, nominated_or, select_spec}

-- Whether an entry is in such a state.
abbrev pub has_state : (SpecState → Bool) → List QueueEntry → Bool
has_state p specs = any (λ e. p e.state) specs

first_file-none :
    (p : SpecState → Bool) (specs : List QueueEntry)
    → (first_file p specs ≡ none) ↔ (has_state p specs ≡ false)
unfolding first_file
first_file-none p [] = (λ h. refl, λ h. refl)
first_file-none p (e ∷ es) = ground (arith, first_file-none p es)

-- The file of the first entry in such a state.
abbrev pub IsFirst : (SpecState → Bool) → Text → List QueueEntry → Type 0
IsFirst p file specs =
    (before : List QueueEntry) × (e : QueueEntry) × (after : List QueueEntry) × (specs
      ≡ before ++ e ∷ after)
    × (has_state p before ≡ false)
    × (p e.state ≡ true)
    × (e.spec_file ≡ file)

first_file-some :
    (p : SpecState → Bool) (specs : List QueueEntry) (file : Text)
    → first_file p specs ≡ some file
    → IsFirst p file specs
unfolding first_file
first_file-some p [] file h = absurd (ground (arith, h))
first_file-some p (e ∷ es) file h = elim (Bool-cases (p e.state)) [
  | inl k ↦ ([], e, es, refl, refl, k, ground (arith, k, h))
  | inr k ↦
      let (before, f, after, split, none_before, found, own) =
        first_file-some p es file (ground (arith, k, h)) in
      (e ∷ before, f, after, ap (λ l. e ∷ l) split, ground (arith, k, none_before), found, own)
]

nominated-pending :
    (stem : Text) (specs : List QueueEntry)
    → any (is_nominated stem) specs ≡ true
    → has_state is_pending specs ≡ true
unfolding is_nominated
nominated-pending stem [] h = ground (arith, h)
nominated-pending stem (e ∷ es) h = ground (arith, h, nominated-pending stem es)

-- A spec is chosen exactly where one is `Running`, `Failed` or `Pending`.
pub select_spec-none :
    (specs : List QueueEntry) (nominated : Option Text)
    → (select_spec specs nominated ≡ none)
      ↔ ((has_state is_interrupted specs ≡ false) × (has_state is_pending specs ≡ false))
unfolding select_spec
select_spec-none specs none =
    ground (arith, first_file-none is_interrupted specs, first_file-none is_pending specs)
select_spec-none specs (some file) = ground (
  arith,
  first_file-none is_interrupted specs,
  first_file-none is_pending specs,
  nominated-pending (stem_of file) specs,
)

-- The handoff nominates this file, and a `Pending` spec is meant by it.
abbrev pub Nominates : List QueueEntry → Option Text → Text → Type 0
Nominates specs nominated file =
    (nominated ≡ some file) × (any (is_nominated (stem_of file)) specs ≡ true)

-- The handoff nominates nothing, or nothing that is `Pending`.
abbrev pub NominatesNone : List QueueEntry → Option Text → Type 0
NominatesNone specs none = Unit
NominatesNone specs (some file) = any (is_nominated (stem_of file)) specs ≡ false

abbrev pub IsNext : List QueueEntry → Option Text → Text → Type 0
IsNext specs nominated file =
    Nominates specs nominated file ⊎ (NominatesNone specs nominated × IsFirst is_pending file specs)

nominated_or-some :
    (specs : List QueueEntry) (nominated : Option Text) (file : Text)
    → nominated_or specs nominated (first_file is_pending specs) ≡ some file
    → IsNext specs nominated file
nominated_or-some specs none file h = inr (tt, first_file-some is_pending specs file h)
nominated_or-some specs (some n) file h = elim (Bool-cases (any (is_nominated (stem_of n)) specs)) [
  | inl k ↦
      let own : n ≡ file = ground (arith, k, h) in
      inl (ap some own, subst (λ m. any (is_nominated (stem_of m)) specs ≡ true) own k)
  | inr k ↦ inr (k, first_file-some is_pending specs file (ground (arith, k, h)))
]

-- The chosen spec is the first interrupted one (`Running` or `Failed`); where none is interrupted, it
-- is the nominated one, if that is still `Pending`; and where that is not so either, it is the first
-- `Pending` one.
pub select_spec_sound :
    (specs : List QueueEntry) (nominated : Option Text) (file : Text)
    → select_spec specs nominated ≡ some file
    → IsFirst is_interrupted file specs
      ⊎ ((has_state is_interrupted specs ≡ false) × IsNext specs nominated file)
unfolding select_spec
select_spec_sound specs nominated file h = elim (Option-cases (first_file is_interrupted specs)) [
  | inr (f, e) ↦ inl (first_file-some is_interrupted specs file (ground (arith, e, h)))
  | inl e ↦ inr (
    ground (arith, e, first_file-none is_interrupted specs),
    nominated_or-some specs nominated file (ground (arith, e, h)),
  )
]
