-- ===== src/Topo/Sorted.antt =====
-- What `topo_sort` returns: an order in which a node stands behind every node it depends on.
use pidag.Base.{
  ℕ, zero, suc, ◌+◌, ◌≤◌, ◌≡◌, refl, sym, subst, true, List, [], ◌∷◌, ◌++◌, length, length-append,
  length-map, arith,
}
use mathlib.Core.List.{append-nil, append_assoc}
use pidag.Text.{Text, same_refl, same_iff, contains}
use pidag.Map.{Map}
use pidag.Error.{ok}
use pidag.Dag.{Node, Dag, node_ids}
use pidag.Loop.Build.{initial_degrees}
use pidag.Loop.Count.{count, count-append, count-length, count-equal}
use pidag.Topo.{adjacency, unblocked, sort_from, sorted_ids, topo_sort}
use pidag.Topo.Ordered.{outside, deps_of, Lowering, pop-Lowering, start-Lowering}

-- Every id of `l` stands behind its edges, of which those in `seen` stand before `l`.
unfoldable IsOrdered : (Text → List Text) → List Text → List Text → Type 0
IsOrdered edges seen [] = Unit
IsOrdered edges seen (x ∷ l) = (outside seen (edges x) ≡ 0) × IsOrdered edges (seen ++ x ∷ []) l

IsOrdered-snoc :
    (edges : Text → List Text) (seen l : List Text) (x : Text)
    → IsOrdered edges seen l
    → outside (seen ++ l) (edges x) ≡ 0
    → IsOrdered edges seen (l ++ x ∷ [])
unfolding IsOrdered
IsOrdered-snoc edges seen [] x h e = (subst (λ k. outside k (edges x) ≡ 0) (append-nil seen) e, tt)
IsOrdered-snoc edges seen (y ∷ l) x h e = (
  h.0,
  IsOrdered-snoc edges (seen ++ y ∷ []) l x h.1
      (subst (λ k. outside k (edges x) ≡ 0) (sym (append_assoc seen (y ∷ []) l)) e),
)

outside-contains :
    (seen deps : List Text) (t : Text)
    → outside seen deps ≡ 0
    → contains deps t ≡ true
    → contains seen t ≡ true
unfolding outside contains
outside-contains seen [] t h e = absurd (ground arith)
outside-contains seen (d ∷ deps) t h e = ground (arith, outside-contains seen deps t, same_iff d t)

IsOrdered-before :
    (edges : Text → List Text) (seen pre : List Text) (x : Text) (post : List Text)
    → IsOrdered edges seen (pre ++ x ∷ post)
    → outside (seen ++ pre) (edges x) ≡ 0
unfolding IsOrdered
IsOrdered-before edges seen [] x post h =
    subst (λ k. outside k (edges x) ≡ 0) (sym (append-nil seen)) h.0
IsOrdered-before edges seen (y ∷ pre) x post h =
    subst (λ l. outside l (edges x) ≡ 0) (append_assoc seen (y ∷ []) pre)
      (IsOrdered-before edges (seen ++ y ∷ []) pre x post h.1)

-- What the loop returns.
record IsSorted (dag : Dag) (l : List Text) : Type 0 where
  ordered : IsOrdered (deps_of dag) [] l
  once : (x : Text) → count x l ≤ 1
  known : (x : Text) → count x l ≤ count x (node_ids dag.nodes)

sort_from-IsSorted :
    (dag : Dag) (fuel : ℕ) (s : List Text × Map ℕ) (seen : List Text)
    → Lowering dag s seen
    → IsOrdered (deps_of dag) [] seen
    → IsSorted dag (sort_from fuel (adjacency dag.nodes) s seen)
unfolding sort_from count
sort_from-IsSorted dag fuel ([], m) seen h o = record {
  ordered = o;
  once = λ x. ground (arith, (h x).single);
  known = λ x. omega (arith, (h x).single, (h x).known);
}
sort_from-IsSorted dag zero (id ∷ queue, m) seen h o = record {
  ordered = o;
  once = λ x. ground (arith, (h x).single);
  known = λ x. omega (arith, (h x).single, (h x).known);
}
sort_from-IsSorted dag (suc fuel) (id ∷ queue, m) seen h o =
    sort_from-IsSorted dag fuel _ (seen ++ id ∷ []) (pop-Lowering dag id queue m seen h) (
      IsOrdered-snoc (deps_of dag) [] seen id o
        (ground (arith, (h id).waits, (h id).free, same_refl id)))

-- While the queue holds an id, fewer ids are seen than the graph has nodes.
pub fuel_left :
    (dag : Dag) (id : Text) (queue : List Text) (m : Map ℕ) (seen : List Text)
    → Lowering dag (id ∷ queue, m) seen
    → suc (length seen) ≤ length dag.nodes
unfolding count
fuel_left dag id queue m seen h =
    let within : (x : Text) → count x (id ∷ queue ++ seen) ≤ count x (node_ids dag.nodes) =
      λ x. omega (arith, (h x).single, (h x).known, count-append x queue seen) in
    omega (
      arith,
      count-length (id ∷ queue ++ seen) (node_ids dag.nodes) within,
      length-append queue seen,
      length-map (λ (n : Node). n.id) dag.nodes,
    )

-- Any more fuel than one unit for each node gives the same.
sort_from-enough :
    (dag : Dag) (fuel larger : ℕ) (s : List Text × Map ℕ) (seen : List Text)
    → Lowering dag s seen
    → length dag.nodes ≤ fuel + length seen
    → fuel ≤ larger
    → sort_from larger (adjacency dag.nodes) s seen ≡ sort_from fuel (adjacency dag.nodes) s seen
unfolding sort_from count
sort_from-enough dag zero zero s seen h e less = refl
sort_from-enough dag (suc fuel) zero s seen h e less = absurd (omega (arith, less))
sort_from-enough dag zero (suc larger) ([], m) seen h e less = refl
sort_from-enough dag (suc fuel) (suc larger) ([], m) seen h e less = refl
sort_from-enough dag zero (suc larger) (id ∷ queue, m) seen h e less =
    absurd (omega (arith, fuel_left dag id queue m seen h, e))
sort_from-enough dag (suc fuel) (suc larger) (id ∷ queue, m) seen h e less =
    sort_from-enough dag fuel larger _ (seen ++ id ∷ []) (pop-Lowering dag id queue m seen h)
      (omega (arith, e, length-append seen (id ∷ []))) (omega (arith, less))

sorted_ids-IsSorted : (dag : Dag) → IsSorted dag (sorted_ids dag)
unfolding sorted_ids IsOrdered
sorted_ids-IsSorted dag = sort_from-IsSorted dag (length dag.nodes) _ [] (start-Lowering dag) tt

topo_sort-ok :
    (dag : Dag) (l : List Text)
    → topo_sort dag ≡ ok l
    → (sorted_ids dag ≡ l) × (length l ≡ length dag.nodes)
unfolding topo_sort
topo_sort-ok dag l e = (ground (arith, e), ground (arith, e))

topo_sort-IsSorted : (dag : Dag) (l : List Text) → topo_sort dag ≡ ok l → IsSorted dag l
topo_sort-IsSorted dag l e = subst (IsSorted dag) (topo_sort-ok dag l e).0 (sorted_ids-IsSorted dag)

-- Where `topo_sort` returns a list, each node in the list stands behind every node it depends on.
pub topo_sort-order :
    (dag : Dag) (l before after : List Text) (x t : Text)
    → topo_sort dag ≡ ok l
    → l ≡ before ++ x ∷ after
    → contains (deps_of dag x) t ≡ true
    → contains before t ≡ true
topo_sort-order dag l before after x t e split needs =
    outside-contains before (deps_of dag x) t
      (IsOrdered-before (deps_of dag) [] before x after
        (subst (IsOrdered (deps_of dag) []) split (topo_sort-IsSorted dag l e).ordered))
      needs

-- Where `topo_sort` returns a list, every text stands in it as often as it is the id of a node, and
-- at most once.
pub topo_sort-permutes :
    (dag : Dag) (l : List Text) (x : Text)
    → topo_sort dag ≡ ok l
    → (count x l ≡ count x (node_ids dag.nodes)) × (count x l ≤ 1)
topo_sort-permutes dag l x e =
    let sorted = topo_sort-IsSorted dag l e in
    (
      count-equal l (node_ids dag.nodes) x sorted.known
          (omega (arith, (topo_sort-ok dag l e).1, length-map (λ (n : Node). n.id) dag.nodes)),
      sorted.once x,
    )

-- The loop of `topo_sort` ends within as many rounds as the graph has nodes: any more fuel gives the
-- same list.
sorted_ids-enough :
    (dag : Dag) (fuel : ℕ)
    → length dag.nodes ≤ fuel
    → sort_from fuel
        (adjacency dag.nodes)
        (unblocked (initial_degrees dag.nodes), initial_degrees dag.nodes)
        []
      ≡ sorted_ids dag
unfolding sorted_ids
sorted_ids-enough dag fuel h =
    sort_from-enough dag (length dag.nodes) fuel _ [] (start-Lowering dag) (omega arith) h
