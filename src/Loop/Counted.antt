-- ===== src/Loop/Counted.antt =====
-- Every node of the graph keeps an in-degree.
use pidag.Base.{ℕ, ◌≡◌, ◌∙◌, sym, subst, Bool, true, none, is_some, List, [], ◌∷◌, arith}
use pidag.Text.{Text, contains}
use pidag.Map.{Map, lookup, insert, lookup-insert}
use pidag.Error.{ok}
use pidag.Dag.{Node, Dag, node_ids}
use pidag.Scheduler.Budget.{BudgetLimits}
use pidag.Loop.{Plan, Board}
use pidag.Loop.Build.{bump, bump_times, add_degrees, initial_degrees, plan_of}
use pidag.Loop.Seed.{fill_ready, apply_checkpoint}
use pidag.Loop.Drain.{drain, spawn}
use pidag.Loop.Whole.{Rounds, start, fresh_board, seeded_board}
use pidag.Loop.Index.{collect-is_some}
use pidag.Loop.Quiet.{Quiet, quiet, announce-Quiet}
use pidag.Loop.Moves.{Move, notes, releases, lowers, enqueues}
use pidag.Loop.Drained.{Drained, empties, drops, spawns, refuses, drain-Drained}
use pidag.Loop.Runs.{Rounds-keep, start-eq-ok}

module _ (x : Text) where
  abbrev IsCounted : Map ℕ → Type 0
  IsCounted m = is_some (lookup x m) ≡ true

  insert-IsCounted : (id : Text) (n : ℕ) (m : Map ℕ) → IsCounted m → IsCounted (insert id n m)
  insert-IsCounted id n m h = ground (arith, h, lookup-insert id x n m)

  bump_times-IsCounted :
      (id : Text) (deps : List Text) (m : Map ℕ) → IsCounted m → IsCounted (bump_times id deps m)
  unfolding bump_times bump
  bump_times-IsCounted id [] m h = h
  bump_times-IsCounted id (dep ∷ deps) m h =
      bump_times-IsCounted id deps _ (insert-IsCounted id _ m h)

  add_degrees-IsCounted : (ns : List Node) (m : Map ℕ) → IsCounted m → IsCounted (add_degrees ns m)
  unfolding add_degrees
  add_degrees-IsCounted [] m h = h
  add_degrees-IsCounted (n ∷ ns) m h =
      add_degrees-IsCounted ns _ (bump_times-IsCounted n.id n.depends_on m h)

  pub initial_degrees-IsCounted :
      (ns : List Node) → contains (node_ids ns) x ≡ true → IsCounted (initial_degrees ns)
  unfolding initial_degrees lookup
  initial_degrees-IsCounted ns h =
      add_degrees-IsCounted ns _ (collect-is_some (λ (n : Node). let z : ℕ = 0 in z) x ns [] ∙ h)

  Move-IsCounted : (b c : Board) → Move b c → IsCounted b.in_degree → IsCounted c.in_degree
  Move-IsCounted b _ (notes _ _ _ _ _ _) h = h
  Move-IsCounted b _ (releases _ _ _) h = h
  Move-IsCounted b _ (lowers id degree e) h = insert-IsCounted id _ b.in_degree h
  Move-IsCounted b _ (enqueues _ _) h = h

  Quiet-IsCounted : {b c : Board} → Quiet b c → IsCounted b.in_degree → IsCounted c.in_degree
  Quiet-IsCounted (quiet _ _ _ _ _) h = h

  Drained-IsCounted :
      (plan : Plan) (q : List Text) (b c : Board)
      → Drained plan q b c
      → IsCounted b.in_degree
      → IsCounted c.in_degree
  unfolding spawn
  Drained-IsCounted plan _ b _ empties h = h
  Drained-IsCounted plan _ b c (drops id rest e d) h = Drained-IsCounted plan rest b c d h
  Drained-IsCounted plan _ b c (spawns id rest node budget e d) h =
      Drained-IsCounted plan rest _ c d h
  Drained-IsCounted plan _ b _ (refuses id rest breach budget e) h =
      Quiet-IsCounted
        (announce-Quiet breach.message (record b { ready = id ∷ rest; budget = budget })) h

  drain-IsCounted :
      (plan : Plan) (b : Board) → IsCounted b.in_degree → IsCounted (drain plan b).in_degree
  drain-IsCounted plan b h = Drained-IsCounted plan b.ready b _ (drain-Drained plan b) h

  seeded_board-IsCounted :
      (dag : Dag) (limits : BudgetLimits)
      → contains (node_ids dag.nodes) x ≡ true
      → IsCounted (seeded_board dag none limits).in_degree
  unfolding seeded_board fill_ready apply_checkpoint fresh_board
  seeded_board-IsCounted dag limits known = initial_degrees-IsCounted dag.nodes known

  pub run-IsCounted :
      (wide : ℕ → Bool) (allow_paid : Bool) (authored : Dag) (limits : BudgetLimits) {dag : Dag}
      {b : Board} {n : ℕ} {c : Board}
      → start authored none limits ≡ ok (dag, b)
      → contains (node_ids dag.nodes) x ≡ true
      → Rounds wide allow_paid (plan_of dag) b n c
      → is_some (lookup x c.in_degree) ≡ true
  run-IsCounted wide allow_paid authored limits {dag} {b} started known rounds =
      Rounds-keep wide allow_paid (plan_of dag) (λ n c. IsCounted c.in_degree)
        (λ n d before after t ops e h. h) (λ n c d m h. Move-IsCounted c d m h)
        (λ n d h. drain-IsCounted (plan_of dag) d h) rounds
        (subst (λ (d : Board). IsCounted d.in_degree)
          (sym (start-eq-ok authored none limits started))
          (drain-IsCounted (plan_of dag) _ (seeded_board-IsCounted dag limits known)))
