-- ===== src/Dag/Cycles/Complete.antt =====
-- The search finds no cycle in a graph that has none, and its fuel does not run out on one.
use pidag.Base.{
  ℕ, zero, suc, ◌≤◌, ◌<◌, ◌≡◌, refl, sym, ◌∙◌, Bool, true, false, Option, none, some, List, [], ◌∷◌,
  length, if◌then◌else◌, arith, All, All-map, Bool-cases, inl, inr, subst,
}
use pidag.Text.{Text, same, same_iff, contains}
use pidag.Dag.{Node, Dag, find_node}
use pidag.Dag.Cycles.{
  Search, visit_edges, enter, visit_after, visit_node, has_cycle_dfs, has_cycle_from, no_search,
  has_cycle,
}
use pidag.Dag.Cycles.Sound.{
  In, Inv, Inv-enter, Inv-no_search, visit_edges-Post, Post, Searches, has_cycle_dfs-Searches,
  visit_edges_new, visit_edges_old,
}

-- Each node ranks above the nodes that it waits for.
abbrev pub IsRanked : (Text → ℕ) → List Node → Type 0
IsRanked rank nodes =
    All (λ n. All (λ d. rank d < rank n.id) n.depends_on × All (λ d. rank d < rank n.id) n.after)
      nodes

-- The nodes that are not visited.
unvisited : List Node → List Text → ℕ
unvisited [] visited = 0
unvisited (n ∷ ns) visited =
    if contains visited n.id then unvisited ns visited else suc (unvisited ns visited)

unvisited_mono :
    (ns : List Node) (v w : List Text)
    → ((u : Text) → In v u → In w u)
    → unvisited ns w ≤ unvisited ns v
unfolding unvisited
unvisited_mono [] v w h = omega arith
unvisited_mono (n ∷ ns) v w h = ground (arith, unvisited_mono ns v w h, h n.id)

unvisited-enter :
    (ns : List Node) (v : List Text) (id : Text) (n : Node)
    → find_node ns id ≡ some n
    → contains v id ≡ false
    → unvisited ns (id ∷ v) < unvisited ns v
unfolding unvisited find_node contains
unvisited-enter [] v id n e new = cc
unvisited-enter (m ∷ ns) v id n e new = ground (
  arith,
  same_iff m.id id,
  same_iff id m.id,
  unvisited_mono ns v (id ∷ v) (λ u h. ground arith),
  unvisited-enter ns v id n,
)

abbrev Below : (Text → ℕ) → Text → Node → Type 0
Below rank id n = All (λ d. rank d < rank id) n.depends_on × All (λ d. rank d < rank id) n.after

find_node-Below :
    (rank : Text → ℕ) (ns : List Node) (id : Text) (n : Node)
    → IsRanked rank ns
    → find_node ns id ≡ some n
    → Below rank id n
unfolding find_node
find_node-Below rank [] id n r e = cc
find_node-Below rank (m ∷ ns) id n r e = elim (Bool-cases (same m.id id)) [
  | inl k ↦
      let same_node : m ≡ n = cc (rw k at e) in
      subst (Below rank id) same_node (subst (λ i. Below rank i m) ((same_iff m.id id).0 k) r.0)
  | inr k ↦ find_node-Below rank ns id n r.1 (rw k at e)
]

visit_after_clear :
    (dfs : Text → Search → Bool × Search) (id : Text) (n : Node) (r : Bool × Search)
    → r.0 ≡ false
    → (visit_edges dfs n.after r.1).0 ≡ false
    → (visit_after dfs id n r).0 ≡ false
visit_after_clear dfs id n (true, t) h k = cc
visit_after_clear dfs id n (false, t) h k = ground arith

module _ (rank : Text → ℕ) (nodes : List Node) where
  -- Everything on the stack ranks above `id`.
  abbrev Free : Search → Text → Type 0
  Free s id = (u : Text) → In s.rec_stack u → rank id < rank u

  -- The recursive call finds no cycle, if fewer than `bound` nodes are not visited.
  abbrev Completes : ℕ → (Text → Search → Bool × Search) → Type 0
  Completes bound dfs =
      (id : Text) (s : Search)
      → Inv nodes s
      → contains s.visited id ≡ false
      → Free s id
      → unvisited nodes s.visited < bound
      → (dfs id s).0 ≡ false

  Free-Post : (s t : Search) (ds : List Text) → Post nodes s t → All (Free s) ds → All (Free t) ds
  Free-Post s t ds p h = All-map (Free s) (Free t) (λ d f u on. f u (sym (p.stack u) ∙ on)) ds h

  visit_edges_clear :
      (dfs : Text → Search → Bool × Search) (bound : ℕ)
      → Searches nodes dfs
      → Completes bound dfs
      → (ds : List Text) (s : Search) → Inv nodes s
      → All (Free s) ds
      → unvisited nodes s.visited < bound
      → (visit_edges dfs ds s).0 ≡ false
  unfolding visit_edges
  visit_edges_clear dfs bound spec clear [] s v f b = refl
  visit_edges_clear dfs bound spec clear (d ∷ ds) s v f b =
      elim (Bool-cases (contains s.visited d)) [
        | inr e ↦
            let k = clear d s v e f.0 b in
            let (p, here) = spec d s v e k in
            rw (visit_edges_new dfs d ds s e k) (
              visit_edges_clear dfs bound spec clear ds (dfs d s).1 p.inv
                (Free-Post s (dfs d s).1 ds p f.1)
                (omega (arith, unvisited_mono nodes s.visited (dfs d s).1.visited p.grows)))
        | inl e ↦ elim (Bool-cases (contains s.rec_stack d)) [
          | inl k ↦ absurd (omega (arith, f.0 d k))
          | inr k ↦
              rw (visit_edges_old dfs d ds s e k)
                (visit_edges_clear dfs bound spec clear ds s v f.1 b)
        ]
      ]

  -- The ranks of what a node waits for lie below the stack, also with the node on it.
  Free-enter :
      (id : Text) (s : Search) (ds : List Text)
      → Free s id
      → All (λ d. rank d < rank id) ds
      → All (Free (enter id s)) ds
  unfolding contains
  Free-enter id s ds f h =
      All-map (λ d. rank d < rank id) (Free (enter id s))
        (λ d lt u on. ground (arith, same_iff id u, f u)) ds h

  visit_node_clear :
      (dfs : Text → Search → Bool × Search) (bound : ℕ)
      → Searches nodes dfs
      → Completes bound dfs
      → IsRanked rank nodes
      → (id : Text) (s : Search) → Inv nodes s
      → contains s.visited id ≡ false
      → Free s id
      → unvisited nodes s.visited < suc bound
      → (o : Option Node) → find_node nodes id ≡ o
      → (visit_node dfs id o (enter id s)).0 ≡ false
  visit_node_clear dfs bound spec clear ranked id s v new f b none e = refl
  visit_node_clear dfs bound spec clear ranked id s v new f b (some n) e =
      let below = find_node-Below rank nodes id n ranked e in
      let fewer = unvisited-enter nodes s.visited id n e new in
      let entered = Inv-enter nodes id s v new in
      let first =
        visit_edges_clear dfs bound spec clear n.depends_on (enter id s) entered
          (Free-enter id s n.depends_on f below.0) (omega arith) in
      let (p, deps) = visit_edges-Post nodes dfs spec n.depends_on (enter id s) entered first in
      let t = (visit_edges dfs n.depends_on (enter id s)).1 in
      let second =
        visit_edges_clear dfs bound spec clear n.after t p.inv
          (Free-Post (enter id s) t n.after p (Free-enter id s n.after f below.1))
          (omega (arith, unvisited_mono nodes (id ∷ s.visited) t.visited p.grows)) in
      visit_after_clear dfs id n (visit_edges dfs n.depends_on (enter id s)) first second

  has_cycle_dfs-Completes :
      IsRanked rank nodes → (fuel : ℕ) → Completes fuel (λ d t. has_cycle_dfs fuel nodes d t)
  unfolding has_cycle_dfs
  has_cycle_dfs-Completes ranked zero id s v new f b = absurd (omega arith)
  has_cycle_dfs-Completes ranked (suc fuel) id s v new f b =
      visit_node_clear (λ d t. has_cycle_dfs fuel nodes d t) fuel
        (has_cycle_dfs-Searches nodes fuel) (has_cycle_dfs-Completes ranked fuel) ranked id s v new
        f b (find_node nodes id) refl

  has_cycle_from_clear :
      (dfs : Text → Search → Bool × Search) (bound : ℕ)
      → Searches nodes dfs
      → Completes bound dfs
      → (ns : List Node) (s : Search) → Inv nodes s
      → ((u : Text) → contains s.rec_stack u ≡ false)
      → unvisited nodes s.visited < bound
      → has_cycle_from dfs ns s ≡ false
  unfolding has_cycle_from
  has_cycle_from_clear dfs bound spec clear [] s v idle b = refl
  has_cycle_from_clear dfs bound spec clear (n ∷ ns) s v idle b =
      elim (Bool-cases (contains s.visited n.id)) [
        | inl e ↦ rw (e, has_cycle_from) (has_cycle_from_clear dfs bound spec clear ns s v idle b)
        | inr e ↦
            let k = clear n.id s v e (λ u on. cc (idle u)) b in
            let (p, here) = spec n.id s v e k in
            rw (e, has_cycle_from, k)
              (has_cycle_from_clear dfs bound spec clear ns (dfs n.id s).1 p.inv
                (λ u. p.stack u ∙ idle u)
                (omega (arith, unvisited_mono nodes s.visited (dfs n.id s).1.visited p.grows)))
      ]

unvisited-le : (ns : List Node) (v : List Text) → unvisited ns v ≤ length ns
unfolding unvisited
unvisited-le [] v = omega arith
unvisited-le (n ∷ ns) v = ground (arith, unvisited-le ns v)

-- `has_cycle` finds none in a graph where some ranking puts each node above all the nodes that it
-- names in `depends_on` or `after`.
pub has_cycle_clear :
    (rank : Text → ℕ) (dag : Dag) → IsRanked rank dag.nodes → has_cycle dag ≡ false
unfolding has_cycle contains
has_cycle_clear rank dag ranked =
    has_cycle_from_clear rank dag.nodes _ (suc (length dag.nodes))
      (has_cycle_dfs-Searches dag.nodes (suc (length dag.nodes)))
      (has_cycle_dfs-Completes rank dag.nodes ranked (suc (length dag.nodes))) dag.nodes no_search
      (Inv-no_search dag.nodes) (λ u. refl) (omega (arith, unvisited-le dag.nodes []))
