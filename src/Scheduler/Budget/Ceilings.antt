-- ===== src/Scheduler/Budget/Ceilings.antt =====
-- What the ceilings guarantee.
use pidag.Base.{
  ℕ, ◌+◌, ◌≤◌, ◌<◌, ◌≡◌, refl, ap, ◌∙◌, Option, none, some, List, [], ◌∷◌, arith, Option-cases, inl,
  inr,
}
use pidag.Text.{Text}
use pidag.Scheduler.Budget.{
  u64_mod, TokenUsage, BudgetCounters, BudgetLimits, BudgetBreach, BudgetInner, new_budget, reserve,
  record_first_usage, record_extra_call,
}

-- A counter is within its ceiling, if there is one.
abbrev pub Within : Option ℕ → ℕ → Type 0
Within none value = Unit
Within (some limit) value = value ≤ limit

-- A ceiling that is passed has tripped the breach.
pub record IsGuarded (b : BudgetInner) : Type 0 where
  pub calls : b.breach ≡ none → Within b.limits.max_model_calls b.counters.model_calls
  pub tokens : b.breach ≡ none → Within b.limits.max_tokens b.counters.total_tokens

pub new_budget-IsGuarded : (c : BudgetCounters) (l : BudgetLimits) → IsGuarded (new_budget c l)
unfolding new_budget
new_budget-IsGuarded c l = ground arith

pub reserve-IsGuarded : (id : Text) (b : BudgetInner) → IsGuarded b → IsGuarded (reserve id b).1
unfolding reserve
reserve-IsGuarded id b g = ground (arith, g.calls, g.tokens)

pub record_first_usage-IsGuarded :
    (id : Text) (usage : Option TokenUsage) (b : BudgetInner)
    → IsGuarded b
    → IsGuarded (record_first_usage id usage b).1
unfolding record_first_usage
record_first_usage-IsGuarded id none b g = ground (arith, g.calls, g.tokens)
record_first_usage-IsGuarded id (some u) b g = ground (arith, g.calls, g.tokens)

pub record_extra_call-IsGuarded :
    (id : Text) (usage : Option TokenUsage) (b : BudgetInner)
    → IsGuarded b
    → IsGuarded (record_extra_call id usage b).1
unfolding record_extra_call
record_extra_call-IsGuarded id none b g = ground (arith, g.calls, g.tokens)
record_extra_call-IsGuarded id (some u) b g = ground (arith, g.calls, g.tokens)

-- The operations that the tasks of a run make on the shared budget.
pub data Op : Type 0 where
  reserved : (node_id : Text) → Op
  first_usage extra_call : (node_id : Text) (usage : Option TokenUsage) → Op

-- The state behind one operation, and the reservations that it granted: one or none.
pub apply : Op → BudgetInner → ℕ × BudgetInner
apply (reserved id) b =
    let (refusal, b') = reserve id b in (elim refusal [ none ↦ 1 | some r ↦ 0 ], b')
apply (first_usage id usage) b = (0, (record_first_usage id usage b).1)
apply (extra_call id usage) b = (0, (record_extra_call id usage b).1)

-- The operations in the order in which they take the lock, and all that they granted.
unfoldable pub apply_all : List Op → BudgetInner → ℕ × BudgetInner
unfolding apply
apply_all [] b = (0, b)
apply_all (op ∷ ops) b =
    let (granted, b') = apply op b in let (rest, b'') = apply_all ops b' in (granted + rest, b'')

apply-IsGuarded : (op : Op) (b : BudgetInner) → IsGuarded b → IsGuarded (apply op b).1
unfolding apply
apply-IsGuarded (reserved id) b g = reserve-IsGuarded id b g
apply-IsGuarded (first_usage id usage) b g = record_first_usage-IsGuarded id usage b g
apply-IsGuarded (extra_call id usage) b g = record_extra_call-IsGuarded id usage b g

pub apply_all-IsGuarded_from :
    (ops : List Op) (b : BudgetInner) → IsGuarded b → IsGuarded (apply_all ops b).1
unfolding apply_all
apply_all-IsGuarded_from [] b g = g
apply_all-IsGuarded_from (op ∷ ops) b g =
    apply_all-IsGuarded_from ops (apply op b).1 (apply-IsGuarded op b g)

-- Whatever the tasks do, a counter above its ceiling means that the run is in breach.
pub apply_all-IsGuarded :
    (ops : List Op) (c : BudgetCounters) (l : BudgetLimits)
    → IsGuarded (apply_all ops (new_budget c l)).1
apply_all-IsGuarded ops c l =
    apply_all-IsGuarded_from ops (new_budget c l) (new_budget-IsGuarded c l)

apply_breached :
    (op : Op) (b : BudgetInner) (x : BudgetBreach)
    → b.breach ≡ some x
    → ((apply op b).1.breach ≡ some x) × ((apply op b).0 ≡ 0)
unfolding apply reserve record_first_usage record_extra_call
apply_breached (reserved id) b x e = ground arith
apply_breached (first_usage id none) b x e = ground arith
apply_breached (first_usage id (some u)) b x e = ground arith
apply_breached (extra_call id none) b x e = ground arith
apply_breached (extra_call id (some u)) b x e = ground arith

-- Once a run is in breach, the breach that it reports stays the same, and no operation of any task
-- is granted a dispatch.
pub apply_all_breached :
    (ops : List Op) (b : BudgetInner) (x : BudgetBreach)
    → b.breach ≡ some x
    → ((apply_all ops b).1.breach ≡ some x) × ((apply_all ops b).0 ≡ 0)
unfolding apply_all
apply_all_breached [] b x e = (e, refl)
apply_all_breached (op ∷ ops) b x e =
    let (kept, none_granted) = apply_breached op b x e in
    let (kept', none_granted') = apply_all_breached ops (apply op b).1 x kept in
    (kept', omega (arith, none_granted, none_granted'))

-- One operation of a run that is not in breach grants no more than is left.
record IsPaid (limit : ℕ) (b b' : BudgetInner) (granted : ℕ) : Type 0 where
  limits_kept : b'.limits ≡ b.limits
  paid : b'.breach ≡ none → b.counters.model_calls + granted ≤ b'.counters.model_calls
  fits : b.counters.model_calls + granted ≤ limit
  stays : b'.breach ≡ none → b'.counters.model_calls ≤ limit

apply-IsPaid :
    (limit : ℕ) (op : Op) (b : BudgetInner)
    → limit + 1 < u64_mod
    → b.limits.max_model_calls ≡ some limit
    → b.breach ≡ none
    → b.counters.model_calls ≤ limit
    → IsPaid limit b (apply op b).1 (apply op b).0
unfolding apply reserve record_first_usage record_extra_call
apply-IsPaid limit (reserved id) b big e n le = ground arith
apply-IsPaid limit (first_usage id none) b big e n le = ground arith
apply-IsPaid limit (first_usage id (some u)) b big e n le = ground arith
apply-IsPaid limit (extra_call id none) b big e n le = ground arith
apply-IsPaid limit (extra_call id (some u)) b big e n le = ground arith

apply_all_paid :
    (limit : ℕ) (ops : List Op) (b : BudgetInner)
    → limit + 1 < u64_mod
    → b.limits.max_model_calls ≡ some limit
    → b.breach ≡ none
    → b.counters.model_calls ≤ limit
    → b.counters.model_calls + (apply_all ops b).0 ≤ limit
unfolding apply_all
apply_all_paid limit [] b big e n le = omega arith
apply_all_paid limit (op ∷ ops) b big e n le =
    let step = apply-IsPaid limit op b big e n le in
    let b' = (apply op b).1 in
    elim (Option-cases b'.breach) [
      | inl n' ↦ omega (
        arith,
        step.paid n',
        apply_all_paid limit ops b' big (ap (λ l. l.max_model_calls) step.limits_kept ∙ e) n'
            (step.stays n'),
      )
      | inr (x, stuck) ↦ omega (arith, step.fits, (apply_all_breached ops b' x stuck).1)
    ]

new_budget_keeps :
    (c : BudgetCounters) (l : BudgetLimits)
    → ((new_budget c l).limits ≡ l) × ((new_budget c l).counters ≡ c)
unfolding new_budget
new_budget_keeps c l = ground arith

-- However the operations of the tasks interleave, the reservations granted and the calls of the
-- earlier run together stay within `--max-model-calls`, if that is below the largest 64-bit number
-- and the earlier run was within it.
pub reserve_ceiling :
    (limit : ℕ) (ops : List Op) (c : BudgetCounters) (l : BudgetLimits)
    → limit + 1 < u64_mod
    → l.max_model_calls ≡ some limit
    → c.model_calls ≤ limit
    → c.model_calls + (apply_all ops (new_budget c l)).0 ≤ limit
reserve_ceiling limit ops c l big e le =
    let b = new_budget c l in
    let (same_limits, same_counters) = new_budget_keeps c l in
    let same_calls : b.counters.model_calls ≡ c.model_calls =
      ap (λ k. k.model_calls) same_counters in
    elim (Option-cases b.breach) [
      | inl fresh ↦ omega (
        arith,
        apply_all_paid limit ops b big (ap (λ m. m.max_model_calls) same_limits ∙ e) fresh
            (omega arith),
      )
      | inr (x, stuck) ↦ omega (arith, (apply_all_breached ops b x stuck).1)
    ]
