-- ===== src/Loop/Settle.antt =====
-- What `execute` does with a task that returned.
use pidag.Base.{
  ℕ, ◌-◌, Bool, true, false, Option, none, some, get_or, List, [], ◌∷◌, ◌++◌, ltb, if◌then◌else◌,
}
use pidag.Text.{Text, codes}
use pidag.Text.Search.{strip_prefix, find_split}
use pidag.Text.Bytes.{size, truncate_at_char_boundary}
use pidag.Text.Decimal.{show_nat}
use pidag.Map.{lookup, insert}
use pidag.Scheduler.{NodeStatus, done, failed, blocked, is_done, NodeState}
use pidag.Scheduler.Outside.{
  DispatchEvent, retry, backoff_retry, fallback, retry_exhausted, critic_dispatched,
}
use pidag.Scheduler.Outside
use pidag.Loop.{
  node_dispatched, node_done, node_failed, node_blocked, node_retry, provider_fallback,
  node_verify_failed, budget_updated, Plan, Board, emit, entries, bare_state, make_terminal,
  release_all, lower, is_gated_on,
}
use pidag.Loop.Drain.{announce}
use pidag.Loop.Skip.{skip}

-- The tuple that a task returns.
pub record Outcome : Type 0 where
  pub task_model : Option Text
  pub task_attempt : ℕ
  pub state : NodeState
  pub model_used : Option Text
  pub dispatch_events : List DispatchEvent
  pub verify_failed : Bool

-- The message on the channel for one event of the dispatch.
unfoldable pub report_event : Text → DispatchEvent → Board → Board
report_event id (retry attempt) b = emit (node_retry id (codes "attempt failed")) b
report_event id (backoff_retry attempt) b = emit (node_retry id (codes "429 backoff")) b
report_event id (fallback previous next) b = emit (provider_fallback id previous next) b
report_event id (retry_exhausted model) b = b
report_event id (critic_dispatched model) b =
    emit (node_dispatched (id ++ codes "::verify") model 1) b
report_event id (Outside.budget_updated c) b = emit (budget_updated c.model_calls c.total_tokens) b
report_event id (Outside.budget_breached message) b = announce message b

unfoldable pub report_events : Text → List DispatchEvent → Board → Board
report_events id [] b = b
report_events id (event ∷ events) b = report_events id events (report_event id event b)

abbrev pub max_error_len : ℕ
max_error_len = 8192

-- The message of a node that failed without a verification.
unfoldable pub error_message : Option Text → Text
error_message none = codes "execution failed"
error_message (some []) = codes "execution failed"
error_message (some (c ∷ cs)) =
    let output = c ∷ cs in
    let truncated = truncate_at_char_boundary output max_error_len in
    if ltb max_error_len (size output)
    then truncated
      ++ (codes "… [truncated " ++ (show_nat (size output - size truncated) ++ codes " bytes]"))
    else output

abbrev pub claim_of : Text → Option Text → Text
claim_of worker none = []
claim_of worker (some claim) = claim

-- The two parts of a failed verification's artifact.
abbrev pub split_artifact : Text → Option (Text × Text) → Text × Text
split_artifact output none = (output, [])
split_artifact output (some (worker, reason)) =
    (claim_of worker (strip_prefix (codes "worker: ") worker), reason)

abbrev pub verify_event : Text → Option Text → Board → Board
verify_event id none b = b
verify_event id (some output) b =
    let (claim, reason) = split_artifact output (find_split (codes "\nverify: ") output) in
    emit (node_verify_failed id claim reason) b

-- The messages for the state that the task ended in.
unfoldable pub report_state : Text → Outcome → Board → Board
report_state id o b =
    if is_done o.state.state
    then emit (node_done id (get_or o.model_used []) (get_or o.state.output [])) b
    else if o.verify_failed
    then verify_event id o.state.output b
    else emit (node_failed id (error_message o.state.output)) b

-- Both `Done` and `Failed` make the node terminal, and release its `after` edges.
abbrev pub record_end : Plan → Text → Outcome → Board → Board
record_end plan id o b =
    release_all (entries id plan.after_dependents) (make_terminal id o.state (report_state id o b))

-- `node_state.entry(id).or_insert(blocked).state = Blocked`.
abbrev pub blocked_entry : Text → Option NodeState → NodeState
blocked_entry id none = bare_state id blocked 0 none
blocked_entry id (some s) = record s { state = blocked }

-- A dependent of a failed node.
unfoldable pub block_one : Plan → Text → Board → Board
block_one plan id b =
    let b' = record b {
      node_state = insert id (blocked_entry id (lookup id b.node_state)) b.node_state;
      terminal_from_checkpoint = id ∷ b.terminal_from_checkpoint;
    } in
    release_all (entries id plan.after_dependents)
      (emit (node_blocked id) (make_terminal id (bare_state id blocked 0 none) b'))

-- The dependents of the node that ended.
unfoldable pub pass_one : Plan → Text → Bool → Text → Board → Board
pass_one plan source passed id b =
    if is_gated_on plan source id
    then if passed then skip plan id b else lower id b
    else if passed
    then lower id b
    else block_one plan id b

unfoldable pub pass_all : Plan → Text → Bool → List Text → Board → Board
pass_all plan source passed [] b = b
pass_all plan source passed (id ∷ ids) b =
    pass_all plan source passed ids (pass_one plan source passed id b)

abbrev pub is_end : NodeStatus → Bool
is_end done = true
is_end failed = true
is_end _ = false

-- The first messages, and the node's state.
unfoldable pub record_return : Text → Outcome → Board → Board
record_return id o b =
    let b' =
      report_events id o.dispatch_events
        (emit (node_dispatched id (get_or o.task_model []) o.task_attempt) b) in
    record b' { node_state = insert id o.state b'.node_state }

unfoldable pub settle : Plan → Text → Outcome → Board → Board
settle plan id o b =
    let b' = record_return id o b in
    let b'' = if is_end o.state.state then record_end plan id o b' else b' in
    pass_all plan id (is_done o.state.state) (entries id plan.dependents) b''
