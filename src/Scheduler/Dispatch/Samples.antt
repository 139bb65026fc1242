-- ===== src/Scheduler/Dispatch/Samples.antt =====
-- Small dispatches.
use pidag.Base.{◌==◌, ℕ, zero, suc, ◌≡◌, ◌⊎◌, refl, Bool, true, false, none, some, [], ◌∷◌, map}
use pidag.Text.{Text, codes, same}
use pidag.Text.Search.{strip_prefix, find_split}
use pidag.Text.Trim.{
  is_alphanumeric, is_ascii_alphanumeric, is_whitespace, trim, trim_start_matches, trim_end_matches,
}
use pidag.Text.Bytes.{truncate_at_char_boundary, len_utf8}
use pidag.Text.Placeholder.{next_placeholder, output_reference}
use pidag.Map.{lookup}
use pidag.Dag.{Verify, shell, critic, all, nil, cons, Node}
use pidag.Scheduler.{done, failed}
use pidag.Scheduler.Budget.{record_first_usage, record_extra_call, reserve}
use pidag.Scheduler.Verdict.{
  parse_critic_verdict, try_tokens, verdict_reason, boundary_ok, output_of,
}
use pidag.Scheduler.Interpolate.{interpolate_outputs, interpolate_from, substitute, cap_output}
use pidag.Scheduler.Outside.{World, Run, Reply, exited, run_with_node_timeout}
use pidag.Scheduler.Dispatch.{
  attempt_once, attempts_from, models_from, dispatch_with, shell_attempt_once,
}
use pidag.Scheduler.Dispatch.Verification.{
  run_verify, run_verify_pre, eval_critic, dispatch_critic, eval_verify, apply_verify_check,
}
use pidag.Scheduler.Dispatch.Whole.{dispatch_node}
use pidag.Scheduler.Dispatch.Added.{Calls, Sent}
use pidag.Scheduler.Dispatch.Limits.{IsAllowed, request_limit, dispatch_node-Sent}
use pidag.Scheduler.Dispatch.Settled.{IsDone}
use pidag.Scheduler.Dispatch.Proven.{Proven, eval_verify_sound}
use pidag.Scheduler.Budget.Ceilings.{IsGuarded}
use pidag.Scheduler.Dispatch.Guarded.{KeepsGuard}
use pidag.Scheduler.Dispatch.Accounts.{dispatch_node-IsGuarded}
use pidag.Scheduler.Dispatch.Done.{IsVerified, dispatch_node-IsDone}

abbrev ascii : ℕ → Bool
ascii c = false

abbrev review : Verify
review = all (
    cons (shell (codes "make test")) (
      cons (critic (codes "Judge {{n.output}}") (record { name = codes "free"; paid = false } ∷ []))
        nil))

abbrev node : Node
node = record {
  id = codes "n";
  prompt = codes "Write";
  depends_on = [];
  models =
      record { name = codes "big"; paid = true }
      ∷ record { name = codes "free"; paid = false }
      ∷ [];
  retry = record { attempts = 2; backoff_ms = 0 };
  validate = none;
  node_type = none;
  gate = none;
  timeout = some 10;
  mcp_call = none;
  after = [];
  verify = some review;
  verify_pre = none;
  for_each = none;
  quorum = none;
}

abbrev answer : Bool → Text → Reply
answer success output = record {
  took = 7;
  result = some (record { success = success; output = output; retryable = false; usage = none });
}

-- The first attempt fails, and every later reply is `PASS`.
abbrev replies : ℕ → Reply
replies zero = answer false (codes "no")
replies (suc clock) = answer true (codes "PASS")

abbrev world : World
world = record {
  worker = λ clock request. replies clock;
  shell = λ clock command token. record { took = 7; ended = exited true [] [] };
  others = λ clock b. b;
}

-- Every reply comes too late.
abbrev late : World
late = record world { worker = λ clock request. record { took = 11; result = none } }

abbrev idle : Run
idle = record {
  clock = 0;
  requests = [];
  budget = record {
    counters = record { model_calls = 1; total_tokens = 0 };
    limits = record { max_model_calls = none; max_tokens = none };
    breach = none;
  };
}

dispatches : Unit {0}
unfolding dispatch_node dispatch_with models_from attempts_from attempt_once shell_attempt_once
    run_with_node_timeout run_verify run_verify_pre eval_critic dispatch_critic eval_verify
    apply_verify_check reserve record_first_usage record_extra_call parse_critic_verdict try_tokens
    verdict_reason boundary_ok is_alphanumeric is_ascii_alphanumeric is_whitespace trim
    trim_start_matches trim_end_matches strip_prefix find_split interpolate_outputs interpolate_from
    substitute cap_output output_of lookup same next_placeholder output_reference
    truncate_at_char_boundary len_utf8
dispatches = tt

-- The free model is asked twice, and then the critic.
dispatch_node-world :
    ((dispatch_node ascii world false node idle).state.state ≡ done)
    × (map (λ q. q.attempt) (dispatch_node ascii world false node idle).run.requests
        ≡ 1 ∷ 2 ∷ 1 ∷ [])
    × (map (λ q. q.model) (dispatch_node ascii world false node idle).run.requests
        ≡ codes "free" ∷ codes "free" ∷ codes "free" ∷ [])
unfolding dispatches
dispatch_node-world = (refl, refl, refl)

-- A reply that comes late ends the dispatch.
dispatch_node-late :
    ((dispatch_node ascii late true node idle).state.state ≡ failed)
    × (map (λ q. q.model) (dispatch_node ascii late true node idle).run.requests ≡ codes "big" ∷ [])
unfolding dispatches
dispatch_node-late = (refl, refl)

-- The first attempts.
abbrev first_calls : Calls
first_calls model attempt = attempt == 1

dispatch_node-Sent_example :
    Sent
      (IsAllowed false node)
      first_calls
      (request_limit first_calls false node)
      idle
      (dispatch_node ascii world false node idle).run
dispatch_node-Sent_example = dispatch_node-Sent ascii world false node first_calls idle

dispatch_node-IsDone_example :
    ((dispatch_node ascii world false node idle).state.state ≡ failed)
    ⊎ IsDone
        (IsVerified ascii world node)
        world
        node
        (dispatch_node ascii world false node idle).state
dispatch_node-IsDone_example = dispatch_node-IsDone ascii world false node idle

abbrev later : Run
later = record idle { clock = 5 }

eval_verify_sound_example : Proven ascii world node (codes "done") none review
unfolding dispatches
eval_verify_sound_example =
    eval_verify_sound ascii world false node (codes "done") none review later refl

alone : KeepsGuard world
alone clock b g = g

unlimited : IsGuarded idle.budget
unlimited = record { calls = λ _. tt; tokens = λ _. tt }

dispatch_node-IsGuarded_example : IsGuarded (dispatch_node ascii world false node idle).run.budget
dispatch_node-IsGuarded_example =
    dispatch_node-IsGuarded ascii world alone false node idle unlimited
