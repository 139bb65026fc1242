-- ===== src/Loop/Quiet.antt =====
-- The steps of `execute` that only write events, the snapshot and the sets of terminal nodes.
use pidag.Base.{Bool, Option, none, some, List, [], ◌∷◌, if-intro}
use pidag.Text.{Text}
use pidag.Scheduler.{is_done}
use pidag.Scheduler.Awaiting.{Snapshot}
use pidag.Scheduler.Outside.{
  DispatchEvent, retry, backoff_retry, fallback, retry_exhausted, critic_dispatched,
}
use pidag.Scheduler.Outside
use pidag.Loop.{Event, Board}
use pidag.Loop.Drain.{announce}
use pidag.Loop.Settle.{Outcome, report_event, report_events, report_state, verify_event}

pub data Quiet (b : Board) : Board → Type 0 where
  quiet :
      (snapshot : Snapshot) (events : List Event)
      (terminal_nodes terminal_from_checkpoint : List Text) (breach_announced : Bool)
      → Quiet b (record b {
        snapshot = snapshot;
        events = events;
        terminal_nodes = terminal_nodes;
        terminal_from_checkpoint = terminal_from_checkpoint;
        breach_announced = breach_announced;
      })

Quiet-trans : {b c d : Board} → Quiet b c → Quiet c d → Quiet b d
Quiet-trans (quiet _ _ _ _ _) (quiet s e t u v) = quiet s e t u v

Quiet-refl : (b : Board) → Quiet b b
Quiet-refl b = quiet _ _ _ _ _

pub announce-Quiet : (message : Text) (b : Board) → Quiet b (announce message b)
unfolding announce
announce-Quiet message b =
    if-intro (Quiet b) b.breach_announced (λ e. Quiet-refl b) (λ e. quiet _ _ _ _ _)

report_event-Quiet :
    (id : Text) (event : DispatchEvent) (b : Board) → Quiet b (report_event id event b)
unfolding report_event
report_event-Quiet id (retry attempt) b = quiet _ _ _ _ _
report_event-Quiet id (backoff_retry attempt) b = quiet _ _ _ _ _
report_event-Quiet id (fallback previous next) b = quiet _ _ _ _ _
report_event-Quiet id (retry_exhausted model) b = Quiet-refl b
report_event-Quiet id (critic_dispatched model) b = quiet _ _ _ _ _
report_event-Quiet id (Outside.budget_updated c) b = quiet _ _ _ _ _
report_event-Quiet id (Outside.budget_breached message) b = announce-Quiet message b

pub report_events-Quiet :
    (id : Text) (events : List DispatchEvent) (b : Board) → Quiet b (report_events id events b)
unfolding report_events
report_events-Quiet id [] b = Quiet-refl b
report_events-Quiet id (event ∷ events) b =
    Quiet-trans (report_event-Quiet id event b) (report_events-Quiet id events _)

verify_event-Quiet : (id : Text) (o : Option Text) (b : Board) → Quiet b (verify_event id o b)
verify_event-Quiet id none b = Quiet-refl b
verify_event-Quiet id (some output) b = quiet _ _ _ _ _

pub report_state-Quiet : (id : Text) (o : Outcome) (b : Board) → Quiet b (report_state id o b)
unfolding report_state
report_state-Quiet id o b =
    if-intro (Quiet b) (is_done o.state.state) (λ e. quiet _ _ _ _ _)
      (λ e.
        if-intro (Quiet b) o.verify_failed (λ v. verify_event-Quiet id o.state.output b)
          (λ v. quiet _ _ _ _ _))
