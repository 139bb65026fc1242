-- ===== src/Scheduler/Budget.antt =====
-- `BudgetInner` of src/scheduler/execute.rs: the counters and ceilings that the dispatches of a run
-- share. The counters are `u64` and wrap, as in a release build.
pub mod Ceilings
use pidag.Base.{
  ℕ, ◌+◌, ◌%◌, ◌^◌, Bool, true, false, ◌||◌, ◌&&◌, not, Option, none, some, is_some, List, ◌++◌,
  ltb, leb, if◌then◌else◌,
}
use pidag.Text.{Text, codes}
use pidag.Text.Decimal.{show_nat}

abbrev pub u64_mod : ℕ
u64_mod = 0x1_0000_0000_0000_0000

abbrev pub add_u64 : ℕ → ℕ → ℕ
add_u64 a b = (a + b) % u64_mod

-- `TokenUsage` of src/backend/mod.rs.
pub record TokenUsage : Type 0 where
  pub input_tokens : ℕ
  pub output_tokens : ℕ
  pub total_tokens : ℕ

pub record BudgetCounters : Type 0 where
  pub model_calls : ℕ
  pub total_tokens : ℕ

pub record BudgetLimits : Type 0 where
  pub max_model_calls : Option ℕ
  pub max_tokens : Option ℕ

pub record BudgetBreach : Type 0 where
  pub message : Text

pub record BudgetInner : Type 0 where
  pub counters : BudgetCounters
  pub limits : BudgetLimits
  pub breach : Option BudgetBreach

-- `if let Some(limit) = limit && value > limit`.
abbrev pub exceeds : Option ℕ → ℕ → Bool
exceeds none value = false
exceeds (some limit) value = ltb limit value

-- `if let Some(limit) = limit && value >= limit`.
abbrev pub reaches : Option ℕ → ℕ → Bool
reaches none value = false
reaches (some limit) value = leb limit value

-- The limit in a message, where there is one.
unfoldable pub show_limit : Option ℕ → Text
show_limit none = codes ""
show_limit (some limit) = show_nat limit

unfoldable pub calls_on_resume_message : ℕ → Option ℕ → Text
calls_on_resume_message calls limit =
    codes "budget ceiling already breached on resume: max-model-calls at "
    ++ (show_nat calls
        ++ (codes " (limit "
            ++ (show_limit limit ++ codes ") -- raise --max-model-calls to continue")))

unfoldable pub tokens_on_resume_message : ℕ → Option ℕ → Text
tokens_on_resume_message tokens limit =
    codes "budget ceiling already breached on resume: max-tokens at "
    ++ (show_nat tokens
        ++ (codes " (limit " ++ (show_limit limit ++ codes ") -- raise --max-tokens to continue")))

unfoldable pub refused_message : ℕ → Option ℕ → Text → Text
refused_message calls limit node_id =
    codes "budget ceiling breached: max-model-calls reached "
    ++ (show_nat calls
        ++ (codes " (limit "
            ++ (show_limit limit ++ (codes "); refusing to dispatch '" ++ (node_id ++ codes "'")))))

unfoldable pub tokens_message : ℕ → Option ℕ → Text → Text
tokens_message tokens limit node_id =
    codes "budget ceiling breached: max-tokens reached "
    ++ (show_nat tokens
        ++ (codes " (limit "
            ++ (show_limit limit ++ (codes ") after node '" ++ (node_id ++ codes "'")))))

unfoldable pub calls_message : ℕ → Option ℕ → Text → Text
calls_message calls limit node_id =
    codes "budget ceiling breached: max-model-calls reached "
    ++ (show_nat calls
        ++ (codes " (limit "
            ++ (show_limit limit ++ (codes ") after node '" ++ (node_id ++ codes "'")))))

unfoldable pub no_usage_message : Text → Text
no_usage_message node_id =
    codes "budget error: node '"
    ++ (node_id
        ++ codes
            "' reported no token usage, but --max-tokens requires it; the configured backend was verified at startup to support token_usage, so a missing usage is a hard error, not zero spend (spec-39 B4b)")

abbrev pub breach_with : Text → Option BudgetBreach
breach_with text = some (record { message = text })

unfoldable pub recheck_on_init : BudgetInner → BudgetInner
recheck_on_init b =
    if exceeds b.limits.max_model_calls b.counters.model_calls
    then record b {
      breach =
          breach_with (calls_on_resume_message b.counters.model_calls b.limits.max_model_calls);
    }
    else if exceeds b.limits.max_tokens b.counters.total_tokens
    then record b {
      breach = breach_with (tokens_on_resume_message b.counters.total_tokens b.limits.max_tokens);
    }
    else b

-- `BudgetInner::new`.
unfoldable pub new_budget : BudgetCounters → BudgetLimits → BudgetInner
unfolding recheck_on_init
new_budget counters limits =
    recheck_on_init (record { counters = counters; limits = limits; breach = none })

-- The result of `reserve`: the breach, if the caller must not dispatch, and the new state.
unfoldable pub reserve : Text → BudgetInner → Option BudgetBreach × BudgetInner
reserve node_id b = elim b.breach [
  | some earlier ↦ (some earlier, b)
  | none ↦
      if reaches b.limits.max_model_calls b.counters.model_calls
      then (
        breach_with (refused_message b.counters.model_calls b.limits.max_model_calls node_id),
        record b {
          breach =
              breach_with (refused_message b.counters.model_calls b.limits.max_model_calls node_id);
        },
      )
      else (
        none,
        record b {
          counters = record b.counters { model_calls = add_u64 b.counters.model_calls 1 };
        },
      )
]

-- The state with a breach, and the breach itself.
abbrev pub trip : Text → BudgetInner → Option BudgetBreach × BudgetInner
trip text b = (breach_with text, record b { breach = breach_with text })

-- The last test of `record_usage`.
recheck_calls : Text → Bool → BudgetInner → Option BudgetBreach × BudgetInner
recheck_calls node_id recheck b =
    if not (is_some b.breach)
      && (recheck && exceeds b.limits.max_model_calls b.counters.model_calls)
    then trip (calls_message b.counters.model_calls b.limits.max_model_calls node_id) b
    else (none, b)

abbrev pub add_tokens : ℕ → BudgetInner → BudgetInner
add_tokens tokens b = record b {
  counters = record b.counters { total_tokens = add_u64 b.counters.total_tokens tokens };
}

record_usage : Text → Option TokenUsage → Bool → BudgetInner → Option BudgetBreach × BudgetInner
unfolding recheck_calls
record_usage node_id (some usage) recheck b =
    let b' = add_tokens usage.total_tokens b in
    if not (is_some b.breach) && exceeds b.limits.max_tokens b'.counters.total_tokens
    then trip (tokens_message b'.counters.total_tokens b.limits.max_tokens node_id) b'
    else recheck_calls node_id recheck b'
record_usage node_id none recheck b =
    if not (is_some b.breach) && is_some b.limits.max_tokens
    then trip (no_usage_message node_id) b
    else recheck_calls node_id recheck b

unfoldable pub record_first_usage :
    Text → Option TokenUsage → BudgetInner → Option BudgetBreach × BudgetInner
unfolding record_usage
record_first_usage node_id usage b = record_usage node_id usage false b

unfoldable pub record_extra_call :
    Text → Option TokenUsage → BudgetInner → Option BudgetBreach × BudgetInner
unfolding record_usage
record_extra_call node_id usage b =
    record_usage node_id usage true
      (record b { counters = record b.counters { model_calls = add_u64 b.counters.model_calls 1 } })
