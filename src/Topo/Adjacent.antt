-- ===== src/Topo/Adjacent.antt =====
-- The adjacency of a graph turns its edges round.
use pidag.Base.{◌+◌, ◌≡◌, refl, List, [], ◌∷◌, ◌++◌, arith, if◌then◌else◌}
use pidag.Text.{Text, same, same_iff}
use pidag.Map.{Map, lookup, insert, lookup-insert}
use pidag.Dag.{Node}
use pidag.Loop.{entries}
use pidag.Loop.Build.{collect}
use pidag.Loop.Count.{count, count-append}
use pidag.Loop.Index.{gathered, collect_entry}
use pidag.Topo.{push_entries, add_adjacent, adjacency}

count-push_entries :
    (x t id : Text) (edges : List Text) (m : Map (List Text))
    → count x (entries t (push_entries id edges m))
      ≡ count x (entries t m) + (if same id x then count t edges else 0)
unfolding count push_entries
count-push_entries x t id [] m = ground arith
count-push_entries x t id (e ∷ edges) m = ground (
  arith,
  count-push_entries x t id edges (insert e (entries e m ++ id ∷ []) m),
  lookup-insert e t (entries e m ++ id ∷ []) m,
  count-append x (entries t m) (id ∷ []),
  same_iff e t,
)

count-add_adjacent :
    (x t : Text) (ns : List Node) (m : Map (List Text))
    → count x (entries t (add_adjacent ns m))
      ≡ count x (entries t m) + count t (gathered (λ n. n.depends_on) x ns)
unfolding count add_adjacent gathered
count-add_adjacent x t [] m = omega arith
count-add_adjacent x t (n ∷ ns) m = ground (
  arith,
  count-add_adjacent x t ns (push_entries n.id n.depends_on m),
  count-push_entries x t n.id n.depends_on m,
  count-append t n.depends_on (gathered (λ n. n.depends_on) x ns),
)

-- A node stands as often behind `t` as `t` stands among its dependencies.
pub count-adjacency :
    (x t : Text) (ns : List Node)
    → count x (entries t (adjacency ns)) ≡ count t (gathered (λ n. n.depends_on) x ns)
unfolding adjacency count lookup
count-adjacency x t ns =
    let m : Map (List Text) = collect (λ n. []) ns [] in
    ground (arith, count-add_adjacent x t ns m, collect_entry {V = List Text} [] t ns [] refl)
