-- ===== src/Scheduler/Samples.antt =====
-- Small runs of the scheduler's pure parts.
use pidag.Base.{
  ℕ, ◌+◌, ◌≤◌, ◌<◌, ◌≡◌, ◌↔◌, ◌⊎◌, refl, Bool, true, false, none, some, length, List, [], ◌∷◌,
  arith,
}
use pidag.Text.{contains, distinct, Text, codes, same}
use pidag.Text.Placeholder.{contents, output_reference, next_placeholder}
use pidag.Text.Search.{strip_prefix, find_split}
use pidag.Text.Trim.{
  is_alphanumeric, is_ascii_alphanumeric, is_whitespace, trim, trim_start_matches, trim_end_matches,
}
use pidag.Text.Bytes.{size, len_utf8}
use pidag.Map.{insert, Map, lookup}
use pidag.Dag.{QuorumConfig, Node}
use pidag.Scheduler.{done, failed, NodeState}
use pidag.Scheduler.Budget.{BudgetCounters, BudgetLimits, BudgetInner, new_budget}
use pidag.Scheduler.Status.{parse, as_str, parse_iff}
use pidag.Scheduler.Awaiting.{Snapshot, record_terminal, next_terminal_node}
use pidag.Scheduler.Awaiting.Calls.{hand_out}
use pidag.Scheduler.Awaiting.Transitions.{record_all, empty_snapshot, first_ids}
use pidag.Scheduler.Awaiting.HandsOut.{expected, wait_any_hands_out}
use pidag.Scheduler.Budget.Ceilings.{
  Op, reserved, first_usage, extra_call, apply_all, IsGuarded, apply_all-IsGuarded,
  apply_all_breached, reserve_ceiling,
}
use pidag.Scheduler.Verdict.{
  parse_critic_verdict, compute_quorum, count_verdicts, try_tokens, verdict_reason, output_of,
  boundary_ok,
}
use pidag.Scheduler.Verdict.FailClosed.{
  IsPass, parse_critic_verdict_iff, compute_quorum_iff, passes, count_if,
}
use pidag.Scheduler.Interpolate.{
  interpolate_outputs, interpolate_from, substitute, cap_output, max_interpolated,
}
use pidag.Scheduler.Interpolate.Bounds.{cap_output_cases, IsTail, interpolate_outputs_plain}

abbrev limits : BudgetLimits
limits = record { max_model_calls = some 2; max_tokens = some 100 }

abbrev started : BudgetCounters
started = record { model_calls = 1; total_tokens = 0 }

-- Two nodes reserve, one answers, and the other retries.
abbrev ops : List Op
ops =
    reserved (codes "a")
    ∷ reserved (codes "b")
    ∷ first_usage (codes "a")
        (some (record { input_tokens = 30; output_tokens = 90; total_tokens = 120 }))
    ∷ extra_call (codes "a") none
    ∷ []

apply_all-IsGuarded_example : IsGuarded (apply_all ops (new_budget started limits)).1
apply_all-IsGuarded_example = apply_all-IsGuarded ops started limits

reserve_ceiling_example : 1 + (apply_all ops (new_budget started limits)).0 ≤ 2
reserve_ceiling_example = reserve_ceiling 2 ops started limits (omega arith) refl (omega arith)

abbrev tripped : BudgetInner
tripped = record {
  counters = started;
  limits = limits;
  breach = some (record { message = codes "over" });
}

apply_all_breached_example :
    ((apply_all ops tripped).1.breach ≡ some (record { message = codes "over" }))
    × ((apply_all ops tripped).0 ≡ 0)
apply_all_breached_example = apply_all_breached ops tripped (record { message = codes "over" }) refl

abbrev ascii : ℕ → Bool
ascii c = false

parse_critic_verdict_iff_example :
    ((parse_critic_verdict ascii (codes " PASS: fine")).0 ≡ true)
    ↔ IsPass ascii (codes " PASS: fine")
parse_critic_verdict_iff_example = parse_critic_verdict_iff ascii (codes " PASS: fine")

abbrev voted : Text → NodeState
voted reply = record { node_id = []; state = done; model = none; attempts = 1; output = some reply }

abbrev votes : Map NodeState
votes = (codes "x", voted (codes "PASS")) ∷ (codes "y", voted (codes "not a PASS")) ∷ []

abbrev majority : QuorumConfig
majority = record { of = codes "x" ∷ codes "y" ∷ []; min_pass = 2 }

abbrev counter : Node
counter = record {
  id = codes "q";
  prompt = [];
  depends_on = [];
  models = [];
  retry = record { attempts = 1; backoff_ms = 0 };
  validate = none;
  node_type = none;
  gate = none;
  timeout = none;
  mcp_call = none;
  after = codes "x" ∷ codes "y" ∷ [];
  verify = none;
  verify_pre = none;
  for_each = none;
  quorum = some majority;
}

compute_quorum_iff_example :
    (((compute_quorum ascii counter votes).state ≡ done)
      ↔ ((0 < 2) × (2 ≤ count_if (passes ascii votes) majority.of)))
    × (((compute_quorum ascii counter votes).state ≡ done)
        ⊎ ((compute_quorum ascii counter votes).state ≡ failed))
compute_quorum_iff_example = compute_quorum_iff ascii counter votes majority refl

verdicts : Unit {0}
unfolding compute_quorum count_verdicts parse_critic_verdict try_tokens verdict_reason output_of
    lookup boundary_ok is_alphanumeric is_ascii_alphanumeric same strip_prefix trim
    trim_start_matches trim_end_matches is_whitespace
verdicts = tt

compute_quorum-votes : (compute_quorum ascii counter votes).state ≡ failed
unfolding verdicts
compute_quorum-votes = refl

parse_critic_verdict-replies :
    ((parse_critic_verdict ascii (codes " PASS: fine")) ≡ (true, codes "fine"))
    × ((parse_critic_verdict ascii (codes "PASSED")) ≡ (false, codes "PASSED"))
    × ((parse_critic_verdict ascii (codes "FAIL - no tests")) ≡ (false, codes "no tests"))
unfolding verdicts
parse_critic_verdict-replies = (refl, refl, refl)

cap_output_cases_example :
    (size (codes "short") ≤ max_interpolated) × (cap_output (codes "short") ≡ codes "short")
    ⊎ (max_interpolated < size (codes "short"))
      × IsTail (codes "short") (cap_output (codes "short"))
cap_output_cases_example = cap_output_cases (codes "short")

interpolate_outputs_plain_example :
    interpolate_outputs (codes "use {{item}}") votes ≡ codes "use {{item}}"
unfolding contents output_reference next_placeholder find_split strip_prefix
interpolate_outputs_plain_example =
    interpolate_outputs_plain (codes "use {{item}}") votes (refl, tt)

interpolate_outputs-votes :
    interpolate_outputs (codes "x said {{x.output}}.") votes ≡ codes "x said PASS."
unfolding verdicts interpolate_outputs interpolate_from substitute cap_output output_reference
    next_placeholder find_split len_utf8
interpolate_outputs-votes = refl

-- `x` fails, `y` ends, and `x` is recorded again.
abbrev transitions : List (Text × NodeState)
transitions =
    (codes "x", voted (codes "FAIL"))
    ∷ (codes "y", voted (codes "PASS"))
    ∷ (codes "x", voted (codes "PASS"))
    ∷ []

abbrev last_snapshot : Snapshot
last_snapshot = record (record_all transitions empty_snapshot) { dag_done = false; report = none }

terminal_order-last_snapshot : last_snapshot.terminal_order ≡ codes "x" ∷ codes "y" ∷ []
unfolding record_all record_terminal insert contains same
terminal_order-last_snapshot = refl

wait_any_hands_out_example :
    let all_node_ids = codes "x" ∷ codes "y" ∷ codes "z" ∷ [] in
    let calls = hand_out (length (first_ids transitions)) all_node_ids last_snapshot [] in
    (calls.0 ≡ expected all_node_ids transitions (first_ids transitions))
    × ((next_terminal_node all_node_ids last_snapshot calls.1).0 ≡ none)
    × (distinct (first_ids transitions) ≡ true)
wait_any_hands_out_example =
    wait_any_hands_out (codes "x" ∷ codes "y" ∷ codes "z" ∷ []) transitions false none

parse_iff_example : (parse (codes "done") ≡ some done) ↔ (codes "done" ≡ as_str done)
parse_iff_example = parse_iff (codes "done") done
