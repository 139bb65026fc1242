-- ===== src/Scheduler/Verdict.antt =====
-- `parse_critic_verdict` and `compute_quorum` of src/scheduler/execute.rs. Which characters outside
-- ASCII are alphanumeric is the argument `wide`.
pub mod FailClosed
use pidag.Base.{
  ℕ, zero, suc, ◌+◌, Bool, true, false, ◌||◌, ◌&&◌, not, Option, none, some, get_or, List, [], ◌∷◌,
  ◌++◌, ltb, leb, length, ◌==◌, if◌then◌else◌,
}
use pidag.Text.{Text, codes, join}
use pidag.Text.Search.{strip_prefix}
use pidag.Text.Trim.{is_alphanumeric, is_whitespace, trim, trim_start_matches}
use pidag.Text.Decimal.{show_nat}
use pidag.Map.{Map, lookup}
use pidag.Dag.{QuorumConfig, Node}
use pidag.Scheduler.{NodeStatus, done, failed, NodeState}

-- `rest.chars().next().map(|c| !c.is_alphanumeric()).unwrap_or(true)`.
unfoldable pub boundary_ok : (ℕ → Bool) → Text → Bool
boundary_ok wide [] = true
boundary_ok wide (c ∷ cs) = not (is_alphanumeric wide c)

-- `reason`, or the whole reply where that is empty.
abbrev pub reason_or : Text → Text → Text
reason_or trimmed [] = trimmed
reason_or trimmed (c ∷ cs) = c ∷ cs

-- The reason behind a token.
unfoldable pub verdict_reason : Text → Text → Text
verdict_reason trimmed rest =
    reason_or trimmed
      (trim (trim_start_matches (λ c. is_whitespace c || (c == b'-' || c == b':')) rest))

-- The loop over the tokens.
unfoldable pub try_tokens : (ℕ → Bool) → Text → List (Text × Bool) → Bool × Text
try_tokens wide trimmed [] = (false, trimmed)
try_tokens wide trimmed ((token, passed) ∷ tokens) =
    let next = try_tokens wide trimmed tokens in
    elim (strip_prefix token trimmed) [
      | none ↦ next
      | some rest ↦ if boundary_ok wide rest then (passed, verdict_reason trimmed rest) else next
    ]

abbrev pub pass_token : Text
pass_token = codes "PASS"

abbrev pub fail_token : Text
fail_token = codes "FAIL"

unfoldable pub parse_critic_verdict : (ℕ → Bool) → Text → Bool × Text
parse_critic_verdict wide reply =
    try_tokens wide (trim reply) ((pass_token, true) ∷ (fail_token, false) ∷ [])

-- `node_state.get(id).and_then(|s| s.output.as_deref()).unwrap_or("")`.
unfoldable pub output_of : Text → Map NodeState → Text
output_of id node_state = elim (lookup id node_state) [ none ↦ [] | some s ↦ get_or s.output [] ]

unfoldable pub verdict_line : Text → Bool × Text → Text
verdict_line id (passed, reason) =
    id
    ++ (codes ": " ++ ((if passed then codes "PASS" else codes "FAIL") ++ (codes " - " ++ reason)))

-- The loop over `cfg.of`: `pass_count` and `lines`.
unfoldable pub count_verdicts : (ℕ → Bool) → Map NodeState → List Text → ℕ × List Text
count_verdicts wide node_state [] = (0, [])
count_verdicts wide node_state (id ∷ ids) =
    let verdict = parse_critic_verdict wide (output_of id node_state) in
    let (pass_count, lines) = count_verdicts wide node_state ids in
    (if verdict.0 then suc pass_count else pass_count, verdict_line id verdict ∷ lines)

unfoldable pub quorum_summary : ℕ → QuorumConfig → List Text → Text
quorum_summary pass_count cfg lines =
    codes "quorum: "
    ++ (show_nat pass_count
        ++ (codes "/"
            ++ (show_nat (length cfg.of)
                ++ (codes " passed (min_pass="
                    ++ (show_nat cfg.min_pass ++ (codes ")\n" ++ join (codes "\n") lines))))))

abbrev pub no_quorum : QuorumConfig
no_quorum = record { of = []; min_pass = 0 }

unfoldable pub compute_quorum : (ℕ → Bool) → Node → Map NodeState → NodeState
compute_quorum wide node node_state =
    let cfg = get_or node.quorum no_quorum in
    let (pass_count, lines) = count_verdicts wide node_state cfg.of in
    record {
      node_id = node.id;
      state = if ltb 0 cfg.min_pass && leb cfg.min_pass pass_count then done else failed;
      model = none;
      attempts = 1;
      output = some (quorum_summary pass_count cfg lines);
    }
