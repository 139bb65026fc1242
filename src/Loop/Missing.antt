-- ===== src/Loop/Missing.antt =====
-- How many of a node's edges lead to nodes that are not `Done`, or that never will be.
use pidag.Base.{
  ◌||◌, ℕ, ◌+◌, ◌≤◌, ◌≡◌, Bool, true, false, not, Option, none, some, List, [], ◌∷◌, arith,
  if◌then◌else◌,
}
use pidag.Text.{Text, same, same_iff}
use pidag.Map.{Map, lookup, insert, lookup-insert}
use pidag.Loop.Drain.{is_settled}
use pidag.Scheduler.{NodeStatus, running, failed, blocked, NodeState, is_done}
use pidag.Loop.Count.{bit, count}

abbrev pub is_done_state : Option NodeState → Bool
is_done_state none = false
is_done_state (some s) = is_done s.state

-- The node of this id is `Done`.
unfoldable pub is_done_in : Map NodeState → Text → Bool
is_done_in states id = is_done_state (lookup id states)

-- How many of the edges lead to nodes that are not `Done`.
unfoldable pub missing : Map NodeState → List Text → ℕ
missing states [] = 0
missing states (dep ∷ deps) = bit (not (is_done_in states dep)) + missing states deps

pub is_done_in-insert :
    (states : Map NodeState) (id x : Text) (s : NodeState)
    → is_done_in (insert id s states) x
      ≡ (if same id x then is_done s.state else is_done_in states x)
unfolding is_done_in
is_done_in-insert states id x s = ground (arith, lookup-insert id x s states)

-- A node that was not `Done` ends.
pub missing-insert :
    (states : Map NodeState) (id : Text) (s : NodeState) (deps : List Text)
    → is_done_in states id ≡ false
    → missing states deps
      ≡ missing (insert id s states) deps + (if is_done s.state then count id deps else 0)
unfolding missing count
missing-insert states id s [] h = ground arith
missing-insert states id s (dep ∷ deps) h = ground (
  arith,
  missing-insert states id s deps h,
  is_done_in-insert states id dep s,
  same_iff id dep,
  same_iff dep id,
)

-- An edge to a node that is not `Done` is missing.
pub count-le-missing :
    (states : Map NodeState) (id : Text) (deps : List Text)
    → is_done_in states id ≡ false
    → count id deps ≤ missing states deps
unfolding missing count
count-le-missing states id [] h = omega arith
count-le-missing states id (dep ∷ deps) h =
    ground (arith, count-le-missing states id deps h, same_iff dep id)

abbrev pub is_lost_status : NodeStatus → Bool
is_lost_status failed = true
is_lost_status blocked = true
is_lost_status running = true
is_lost_status _ = false

abbrev pub is_lost_state : Option NodeState → Bool
is_lost_state none = false
is_lost_state (some s) = is_lost_status s.state

-- The node of this id left `Pending`, and not for `Done`.
unfoldable pub is_lost_in : Map NodeState → Text → Bool
is_lost_in states id = is_lost_state (lookup id states)

-- How many of the edges lead to such nodes.
unfoldable pub lost : Map NodeState → List Text → ℕ
lost states [] = 0
lost states (dep ∷ deps) = bit (is_lost_in states dep) + lost states deps

abbrev pub is_settled_in : Map NodeState → Text → Bool
is_settled_in states id = is_settled (lookup id states)

pub lost-le-missing :
    (states : Map NodeState) (deps : List Text) → lost states deps ≤ missing states deps
unfolding lost missing is_lost_in is_done_in
lost-le-missing states [] = omega arith
lost-le-missing states (dep ∷ deps) = ground (arith, lost-le-missing states deps)

pub is_lost_in-insert :
    (states : Map NodeState) (id x : Text) (s : NodeState)
    → is_lost_in (insert id s states) x
      ≡ (if same id x then is_lost_status s.state else is_lost_in states x)
unfolding is_lost_in
is_lost_in-insert states id x s = ground (arith, lookup-insert id x s states)

-- A node that is lost now, or was not before, adds no edge that can be met again.
pub lost-le-insert :
    (states : Map NodeState) (id : Text) (s : NodeState) (deps : List Text)
    → (is_lost_status s.state || not (is_lost_in states id)) ≡ true
    → lost states deps ≤ lost (insert id s states) deps
unfolding lost
lost-le-insert states id s [] h = omega arith
lost-le-insert states id s (dep ∷ deps) h =
    ground
      (arith, lost-le-insert states id s deps h, is_lost_in-insert states id dep s, same_iff id dep)

pub count-le-lost :
    (states : Map NodeState) (id : Text) (deps : List Text)
    → is_lost_in states id ≡ true
    → count id deps ≤ lost states deps
unfolding lost count
count-le-lost states id [] h = omega arith
count-le-lost states id (dep ∷ deps) h =
    ground (arith, count-le-lost states id deps h, same_iff dep id)

pub lost-settled :
    (states : Map NodeState) (x : Text)
    → is_lost_in states x ≡ true
    → (is_settled_in states x ≡ true) × (is_done_in states x ≡ false)
unfolding is_lost_in is_done_in
lost-settled states x h = ground (arith, h)
