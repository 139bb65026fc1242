-- ===== src/Loop/Once.antt =====
-- Each node of a graph is spawned at most once, and the loop ends within as many rounds as the graph
-- has nodes.
use pidag.Base.{◌+◌, ◌-◌, ◌≤◌, is_some, List, [], ◌∷◌, arith}
use pidag.Text.{Text, same_iff, contains}
use pidag.Map.{lookup, lookup-insert}
use pidag.Loop.{Plan, Board}
use pidag.Loop.Drain.{spawn}
use pidag.Loop.Count.{bit, count, count-append}
use pidag.Loop.Drained.{Drained, empties, drops, spawns, refuses}
use pidag.Loop.Quiet.{announce-Quiet}
use pidag.Loop.Moves.{Quiet-Moves, Move, notes, releases, lowers, enqueues, Moves-keep}

-- How often `x` is queued or spawned, when the queue is `q`: never before it is in `enqueued`, and at
-- most once. Only the nodes of the graph have an in-degree.
pub record IsOnce (ids : List Text) (x : Text) (q : List Text) (b : Board) : Type 0 where
  pub once : count x q + count x b.dispatched ≤ bit (contains b.enqueued x)
  pub counted : bit (contains b.enqueued x) ≤ bit (is_some (lookup x b.in_degree))
  pub known : bit (is_some (lookup x b.in_degree)) ≤ count x ids

module _ (ids : List Text) (x : Text) where
  pub Move-IsOnce : (b c : Board) → Move b c → IsOnce ids x b.ready b → IsOnce ids x c.ready c
  unfolding count contains
  Move-IsOnce b _ (notes _ _ _ _ _ _) h = record {
    once = h.once;
    counted = h.counted;
    known = h.known;
  }
  Move-IsOnce b _ (releases id left e) h = record {
    once = h.once;
    counted = h.counted;
    known = h.known;
  }
  Move-IsOnce b _ (lowers id degree e) h =
      let found = lookup-insert id x (degree - 1) b.in_degree in
      record {
        once = h.once;
        counted = ground (arith, h.counted, found, same_iff id x);
        known = ground (arith, h.known, found, same_iff id x);
      }
  Move-IsOnce b _ (enqueues id e) h = record {
    once = ground (arith, h.once, same_iff id x, count-append x b.ready (id ∷ []));
    counted = ground (arith, h.counted, same_iff id x);
    known = h.known;
  }

  pub Drained-IsOnce :
      (plan : Plan) (q : List Text) (b c : Board)
      → Drained plan q b c
      → IsOnce ids x q b
      → IsOnce ids x c.ready c
  unfolding count spawn
  Drained-IsOnce plan _ b _ empties h = record {
    once = h.once;
    counted = h.counted;
    known = h.known;
  }
  Drained-IsOnce plan _ b c (drops id rest e d) h =
      Drained-IsOnce plan rest b c d
        (record { once = ground (arith, h.once); counted = h.counted; known = h.known })
  Drained-IsOnce plan _ b c (spawns id rest node budget e d) h =
      Drained-IsOnce plan rest _ c d
        (record { once = ground (arith, h.once); counted = h.counted; known = h.known })
  Drained-IsOnce plan _ b _ (refuses id rest breach budget e) h =
      Moves-keep (λ c. IsOnce ids x c.ready c) Move-IsOnce
        (Quiet-Moves (announce-Quiet breach.message _))
        (record { once = h.once; counted = h.counted; known = h.known })
