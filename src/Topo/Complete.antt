-- ===== src/Topo/Complete.antt =====
-- `topo_sort` puts every graph in order that can be put in order.
use pidag.Base.{
  ℕ, zero, suc, ◌+◌, ◌≤◌, ◌<◌, ◌≡◌, refl, subst, true, List, [], ◌∷◌, ◌++◌, length, length-append,
  length-map, arith, All, All-map, All-append, if-intro,
}
use pidag.Text.{Text, same, same_iff, contains, distinct}
use pidag.Map.{Map}
use pidag.Error.{ok}
use pidag.Dag.{Node, Dag, node_ids}
use pidag.Loop.Count.{bit, count, contains-le-count, count-length}
use pidag.Loop.Index.{gathered}
use pidag.Topo.{adjacency, sort_from, sorted_ids, topo_sort}
use pidag.Topo.Ordered.{outside, deps_of, Lowering, pop-Lowering, start-Lowering}
use pidag.Topo.Sorted.{fuel_left}

count-contains : (x : Text) (l : List Text) → 1 ≤ count x l → contains l x ≡ true
unfolding count contains
count-contains x [] h = absurd (omega (arith, h))
count-contains x (y ∷ l) h = ground (arith, count-contains x l)

count-le-distinct : (x : Text) (l : List Text) → distinct l ≡ true → count x l ≤ bit (contains l x)
unfolding count contains distinct
count-le-distinct x [] h = omega arith
count-le-distinct x (y ∷ l) h = ground (arith, same_iff y x, count-le-distinct x l)

-- With enough fuel the loop ends on an empty queue.
sort_from-ends :
    (dag : Dag) (fuel : ℕ) (s : List Text × Map ℕ) (seen : List Text)
    → Lowering dag s seen
    → length dag.nodes ≤ fuel + length seen
    → (m : Map ℕ) × Lowering dag ([], m) (sort_from fuel (adjacency dag.nodes) s seen)
unfolding sort_from
sort_from-ends dag fuel ([], m) seen h e = (m, h)
sort_from-ends dag zero (id ∷ queue, m) seen h e =
    absurd (omega (arith, fuel_left dag id queue m seen h, e))
sort_from-ends dag (suc fuel) (id ∷ queue, m) seen h e =
    sort_from-ends dag fuel _ (seen ++ id ∷ []) (pop-Lowering dag id queue m seen h)
      (omega (arith, e, length-append seen (id ∷ [])))

outside-none :
    (seen deps : List Text) → All (λ d. contains seen d ≡ true) deps → outside seen deps ≡ 0
unfolding outside
outside-none seen [] h = refl
outside-none seen (d ∷ deps) h = ground (arith, h.0, outside-none seen deps h.1)

gathered-All :
    (P : Text → Text → Type 0) (x : Text) (ns : List Node)
    → All (λ n. All (P n.id) n.depends_on) ns
    → All (P x) (gathered (λ n. n.depends_on) x ns)
unfolding gathered
gathered-All P x [] h = tt
gathered-All P x (n ∷ ns) h =
    let rest = gathered-All P x ns h.1 in
    if-intro (All (P x)) (same n.id x)
      (λ e.
        All-append (P x) n.depends_on _
          (subst (λ y. All (P y) n.depends_on) ((same_iff n.id x).0 e) h.0) rest)
      (λ e. rest)

-- Each dependency is a node of the graph, of a lower rank.
abbrev pub IsDescending : (Text → ℕ) → List Node → Type 0
IsDescending rank nodes =
    All (λ n. All (λ d. (rank d < rank n.id) × (contains (node_ids nodes) d ≡ true)) n.depends_on)
      nodes

module _ (rank : Text → ℕ) (dag : Dag) (descends : IsDescending rank dag.nodes) where
  -- Behind the loop, the nodes below a rank are all seen.
  sorts_all :
      (m : Map ℕ) (seen : List Text)
      → Lowering dag ([], m) seen
      → (bound : ℕ) (x : Text) → rank x < bound
      → contains (node_ids dag.nodes) x ≡ true
      → contains seen x ≡ true
  unfolding count
  sorts_all m seen h zero x less known = absurd (omega (arith, less))
  sorts_all m seen h (suc bound) x less known =
      let below =
        gathered-All (λ y d. (rank d < rank y) × (contains (node_ids dag.nodes) d ≡ true)) x
          dag.nodes descends in
      let clear : outside seen (deps_of dag x) ≡ 0 = outside-none seen (deps_of dag x) (
        All-map _ _ (λ d p. sorts_all m seen h bound d (omega (arith, p.0, less)) p.1)
          (deps_of dag x) below) in
      let hx = h x in
      count-contains x seen (omega (arith, hx.due known (omega (arith, hx.waits, clear))))

  sorted-length :
      (m : Map ℕ) (seen : List Text)
      → Lowering dag ([], m) seen
      → distinct (node_ids dag.nodes) ≡ true
      → length seen ≡ length dag.nodes
  unfolding count
  sorted-length m seen h once =
      let within : (x : Text) → count x seen ≤ count x (node_ids dag.nodes) =
        λ x. omega (arith, (h x).single, (h x).known) in
      let all : (x : Text) → count x (node_ids dag.nodes) ≤ count x seen = λ x. ground (
        arith,
        count-le-distinct x (node_ids dag.nodes) once,
        sorts_all m seen h (suc (rank x)) x (omega arith),
        contains-le-count x seen,
      ) in
      omega (
        arith,
        count-length seen (node_ids dag.nodes) within,
        count-length (node_ids dag.nodes) seen all,
        length-map (λ (n : Node). n.id) dag.nodes,
      )

  -- `topo_sort` succeeds on every graph with distinct ids in which some ranking puts each node above
  -- all nodes that it depends on, where these are nodes of the graph.
  pub topo_sort_complete :
      distinct (node_ids dag.nodes) ≡ true → topo_sort dag ≡ ok (sorted_ids dag)
  unfolding topo_sort sorted_ids
  topo_sort_complete once =
      let (m, h) = sort_from-ends dag (length dag.nodes) _ [] (start-Lowering dag) (omega arith) in
      ground (arith, sorted-length m (sorted_ids dag) h once)
