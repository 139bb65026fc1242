-- ===== src/Loop/Moves.antt =====
-- The small moves that the branches behind a joined task are made of: an abstract view of `execute`
-- that forgets which node causes which move.
use pidag.Base.{ℕ, suc, ◌-◌, ◌≡◌, Bool, true, some, List, [], ◌∷◌, ◌++◌, ◌==◌, if-intro}
use pidag.Text.{Text}
use pidag.Map.{Map, lookup, insert}
use pidag.Scheduler.{NodeState}
use pidag.Scheduler.Awaiting.{Snapshot}
use pidag.Loop.{Event, Plan, Board, is_ready, try_enqueue}
use pidag.Loop.Acts
use pidag.Loop.Acts.{Act, Acts, settle-Acts}
use pidag.Loop.Quiet.{Quiet, quiet}
use pidag.Loop.Settle.{Outcome, settle}

-- No move touches the tasks, the log of spawns, the budget, or takes a node off the queue.
pub data Move (b : Board) : Board → Type 0 where
  notes :
      (node_state : Map NodeState) (snapshot : Snapshot) (events : List Event)
      (terminal_nodes terminal_from_checkpoint : List Text) (breach_announced : Bool)
      → Move b (record b {
        node_state = node_state;
        snapshot = snapshot;
        events = events;
        terminal_nodes = terminal_nodes;
        terminal_from_checkpoint = terminal_from_checkpoint;
        breach_announced = breach_announced;
      })
  releases :
      (id : Text) (left : ℕ)
      → lookup id b.after_pending ≡ some (suc left)
      → Move b (record b { after_pending = insert id left b.after_pending })
  lowers :
      (id : Text) (degree : ℕ)
      → lookup id b.in_degree ≡ some degree
      → Move b (record b { in_degree = insert id (degree - 1) b.in_degree })
  enqueues :
      (id : Text)
      → is_ready id b ≡ true
      → Move b (record b { ready = b.ready ++ id ∷ []; enqueued = id ∷ b.enqueued })

pub data Moves (b : Board) : Board → Type 0 where
  stays : Moves b b
  moves : {c d : Board} → Moves b c → Move c d → Moves b d

-- What each move keeps, a chain of moves keeps.
pub Moves-keep {ℓ} :
    (P : Board → Type ℓ)
    → ((b c : Board) → Move b c → P b → P c)
    → {b c : Board} → Moves b c
    → P b
    → P c
Moves-keep P keep stays p = p
Moves-keep P keep (moves m step) p = keep _ _ step (Moves-keep P keep m p)

pub Moves-trans : {b c d : Board} → Moves b c → Moves c d → Moves b d
Moves-trans m stays = m
Moves-trans m (moves n step) = moves (Moves-trans m n) step

try_enqueue-Moves : (id : Text) (b : Board) → Moves b (try_enqueue id b)
unfolding try_enqueue
try_enqueue-Moves id b =
    if-intro (Moves b) (is_ready id b) (λ e. moves stays (enqueues id e)) (λ e. stays)

Act-Moves : (b c : Board) → Act b c → Moves b c
Act-Moves b _ (Acts.notes _ _ _ _ _ _) = moves stays (notes _ _ _ _ _ _)
Act-Moves b _ (Acts.releases id left e) =
    Moves-trans (moves stays (releases id left e)) (try_enqueue-Moves id _)
Act-Moves b _ (Acts.lowers id degree e) =
    let b' = record b { in_degree = insert id (degree - 1) b.in_degree } in
    let lowered : Moves b b' = moves stays (lowers id degree e) in
    if-intro (Moves b) (degree - 1 == 0) (λ z. Moves-trans lowered (try_enqueue-Moves id b'))
      (λ z. lowered)

Acts-Moves : {b c : Board} → Acts b c → Moves b c
Acts-Moves Acts.rests = stays
Acts-Moves (Acts.acts m step) = Moves-trans (Acts-Moves m) (Act-Moves _ _ step)

pub Quiet-Moves : {b c : Board} → Quiet b c → Moves b c
Quiet-Moves (quiet _ _ _ _ _) = moves stays (notes _ _ _ _ _ _)

-- Whatever a task returned, the loop answers it by a chain of small moves: it writes notes, counts an
-- edge of a node down, or queues a node that was never queued and waits for no edge.
pub settle-Moves :
    (plan : Plan) (id : Text) (o : Outcome) (b : Board) → Moves b (settle plan id o b)
settle-Moves plan id o b = Acts-Moves (settle-Acts plan id o b)
