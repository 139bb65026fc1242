-- ===== src/Dag/Cycles/Sound.antt =====
-- A graph in which the search finds no cycle can be put in order.
use pidag.Base.{
  ℕ, zero, suc, ◌≡◌, refl, sym, ◌∙◌, Bool, true, false, ◌&&◌, not, Option, none, some, List, [],
  ◌∷◌, length, arith, All, All-map, Bool-cases, inl, inr, subst,
}
use pidag.Text.{Text, same_iff, same_refl, contains, contains-without}
use pidag.Dag.{Node, Dag, find_node}
use pidag.Dag.Cycles.{
  Search, visit_edges, enter, leave, visit_after, visit_node, has_cycle_dfs, has_cycle_from,
  no_search, has_cycle,
}

abbrev pub In : List Text → Text → Type 0
In ids id = contains ids id ≡ true

-- All that the node waits for stands among `older`.
abbrev pub EdgesIn : Option Node → List Text → Type 0
EdgesIn none older = Unit
EdgesIn (some n) older = All (In older) n.depends_on × All (In older) n.after

-- Each id stands before all that the first node with it waits for.
abbrev pub Ordered : List Node → List Text → Type 0
Ordered nodes [] = Unit
Ordered nodes (id ∷ older) = EdgesIn (find_node nodes id) older × Ordered nodes older

-- The four branches of the loop over the edges.
module _ (dfs : Text → Search → Bool × Search) (d : Text) (ds : List Text) (s : Search) where
  pub visit_edges_found :
      contains s.visited d ≡ false
      → (dfs d s).0 ≡ true
      → visit_edges dfs (d ∷ ds) s ≡ (true, (dfs d s).1)
  unfolding visit_edges
  visit_edges_found e k = rw (e, visit_edges, k)

  pub visit_edges_new :
      contains s.visited d ≡ false
      → (dfs d s).0 ≡ false
      → visit_edges dfs (d ∷ ds) s ≡ visit_edges dfs ds (dfs d s).1
  unfolding visit_edges
  visit_edges_new e k = rw (e, visit_edges, k)

  pub visit_edges_stacked :
      contains s.visited d ≡ true
      → contains s.rec_stack d ≡ true
      → visit_edges dfs (d ∷ ds) s ≡ (true, s)
  unfolding visit_edges
  visit_edges_stacked e k = rw (e, visit_edges, k)

  pub visit_edges_old :
      contains s.visited d ≡ true
      → contains s.rec_stack d ≡ false
      → visit_edges dfs (d ∷ ds) s ≡ visit_edges dfs ds s
  unfolding visit_edges
  visit_edges_old e k = rw (e, visit_edges, k)

module _ (nodes : List Node) where
  -- The visited nodes that are not on the stack can be put in order.
  pub record Inv (s : Search) : Type 0 where
    pub order : List Text
    pub ordered : Ordered nodes order
    pub finished :
        (u : Text) → contains order u ≡ (contains s.visited u && not (contains s.rec_stack u))
    pub stacked : (u : Text) → In s.rec_stack u → In s.visited u

  -- What a search from `s` that finds no cycle leaves.
  pub record Post (s s' : Search) : Type 0 where
    pub inv : Inv s'
    pub stack : (u : Text) → contains s'.rec_stack u ≡ contains s.rec_stack u
    pub grows : (u : Text) → In s.visited u → In s'.visited u

  abbrev pub Finished : Search → Text → Type 0
  Finished s u = (contains s.visited u && not (contains s.rec_stack u)) ≡ true

  pub Post-refl : (s : Search) → Inv s → Post s s
  Post-refl s v = record { inv = v; stack = λ u. refl; grows = λ u h. h }

  pub Post-trans : (s t u : Search) → Post s t → Post t u → Post s u
  Post-trans s t u p q = record {
    inv = q.inv;
    stack = λ x. q.stack x ∙ p.stack x;
    grows = λ x h. q.grows x (p.grows x h);
  }

  Finished-Post : (s t : Search) (u : Text) → Post s t → Finished s u → Finished t u
  Finished-Post s t u p h = ground (arith, p.stack u, p.grows u)

  -- The specification of the recursive call.
  abbrev pub Searches : (Text → Search → Bool × Search) → Type 0
  Searches dfs =
      (id : Text) (s : Search)
      → Inv s
      → contains s.visited id ≡ false
      → (dfs id s).0 ≡ false
      → Post s (dfs id s).1 × Finished (dfs id s).1 id

  -- What a loop over the edges `ds` from `s` returns.
  abbrev pub EdgesPost : Search → List Text → Bool × Search → Type 0
  EdgesPost s ds r = r.0 ≡ false → Post s r.1 × All (Finished r.1) ds

  pub visit_edges-Post :
      (dfs : Text → Search → Bool × Search)
      → Searches dfs
      → (ds : List Text) (s : Search) → Inv s
      → EdgesPost s ds (visit_edges dfs ds s)
  unfolding visit_edges
  visit_edges-Post dfs spec [] s v = λ h. (Post-refl s v, tt)
  visit_edges-Post dfs spec (d ∷ ds) s v = elim (Bool-cases (contains s.visited d)) [
    | inr e ↦ elim (Bool-cases (dfs d s).0) [
      | inl k ↦ subst (EdgesPost s (d ∷ ds)) (sym (visit_edges_found dfs d ds s e k)) (λ h. cc)
      | inr k ↦ subst (EdgesPost s (d ∷ ds)) (sym (visit_edges_new dfs d ds s e k)) λ h.
          let (p, here) = spec d s v e k in
          let (q, rest) = visit_edges-Post dfs spec ds (dfs d s).1 p.inv h in
          (Post-trans s (dfs d s).1 _ p q, (Finished-Post (dfs d s).1 _ d q here, rest))
    ]
    | inl e ↦ elim (Bool-cases (contains s.rec_stack d)) [
      | inl k ↦ subst (EdgesPost s (d ∷ ds)) (sym (visit_edges_stacked dfs d ds s e k)) (λ h. cc)
      | inr k ↦ subst (EdgesPost s (d ∷ ds)) (sym (visit_edges_old dfs d ds s e k)) λ h.
          let (q, rest) = visit_edges-Post dfs spec ds s v h in
          (q, (Finished-Post s _ d q (ground arith), rest))
    ]
  ]

  -- Entering a node leaves the finished ones as they are.
  pub Inv-enter :
      (id : Text) (s : Search) → Inv s → contains s.visited id ≡ false → Inv (enter id s)
  unfolding contains
  Inv-enter id s v e = record {
    order = v.order;
    ordered = v.ordered;
    finished = λ u. ground (arith, v.finished u, same_iff id u, e);
    stacked = λ u h. ground (arith, v.stacked u, same_iff id u);
  }

  -- Leaving it adds it to the finished ones, if all that it waits for is finished.
  leave-Post :
      (id : Text) (s t : Search)
      → Inv s
      → contains s.visited id ≡ false
      → Post (enter id s) t
      → ((o : List Text) → ((u : Text) → Finished t u → In o u) → EdgesIn (find_node nodes id) o)
      → Post s (leave id t).1 × Finished (leave id t).1 id
  unfolding contains
  leave-Post id s t v e p edges = (
    record {
      inv = record {
        order = id ∷ p.inv.order;
        ordered = (edges p.inv.order (λ u f. p.inv.finished u ∙ f), p.inv.ordered);
        finished = λ u. ground (
          arith,
          p.inv.finished u,
          p.stack u,
          p.grows id,
          same_iff id u,
          same_refl id,
          contains-without t.rec_stack id u,
        );
        stacked = λ u h. ground (arith, contains-without t.rec_stack id u, p.inv.stacked u);
      };
      stack = λ u.
          ground
            (arith, p.stack u, contains-without t.rec_stack id u, v.stacked u, same_iff id u, e);
      grows = λ u h. ground (arith, p.grows u);
    },
    ground (arith, p.grows id, same_refl id, contains-without t.rec_stack id id),
  )

  -- What the search for `id` returns.
  abbrev DfsPost : Text → Search → Bool × Search → Type 0
  DfsPost id s r = r.0 ≡ false → Post s r.1 × Finished r.1 id

  All-Finished_to :
      (t : Search) (o : List Text)
      → ((u : Text) → Finished t u → In o u)
      → (ds : List Text) → All (Finished t) ds
      → All (In o) ds
  All-Finished_to t o f ds h = All-map (Finished t) (In o) f ds h

  visit_after-Post :
      (dfs : Text → Search → Bool × Search)
      → Searches dfs
      → (id : Text) (n : Node) (s : Search) → find_node nodes id ≡ some n
      → Inv s
      → contains s.visited id ≡ false
      → (r : Bool × Search) → EdgesPost (enter id s) n.depends_on r
      → DfsPost id s (visit_after dfs id n r)
  visit_after-Post dfs spec id n s e v new (true, t) before = λ h. cc
  visit_after-Post dfs spec id n s e v new (false, t) before = λ h.
      let (p, deps) = before refl in
      close p deps (visit_edges dfs n.after t) (visit_edges-Post dfs spec n.after t p.inv) h
    where
      close :
          Post (enter id s) t
          → All (Finished t) n.depends_on
          → (r : Bool × Search) → EdgesPost t n.after r
          → DfsPost id s (elim r.0 [ true ↦ (true, r.1) | false ↦ leave id r.1 ])
      close p deps (true, u) rest = λ h. cc
      close p deps (false, u) rest = λ _.
          let (q, after) = rest refl in
          leave-Post id s u v new (Post-trans (enter id s) t u p q) λ o f. rw e (
            All-Finished_to u o f n.depends_on
                (All-map (Finished t) (Finished u) (λ x. Finished-Post t u x q) n.depends_on deps),
            All-Finished_to u o f n.after after,
          )

  visit_node-Post :
      (dfs : Text → Search → Bool × Search)
      → Searches dfs
      → (id : Text) (s : Search) → Inv s
      → contains s.visited id ≡ false
      → (o : Option Node) → find_node nodes id ≡ o
      → DfsPost id s (visit_node dfs id o (enter id s))
  visit_node-Post dfs spec id s v new none e = λ _.
      leave-Post id s (enter id s) v new (Post-refl (enter id s) (Inv-enter id s v new))
        (λ o f. rw e tt)
  visit_node-Post dfs spec id s v new (some n) e =
      visit_after-Post dfs spec id n s e v new (visit_edges dfs n.depends_on (enter id s))
        (visit_edges-Post dfs spec n.depends_on (enter id s) (Inv-enter id s v new))

  pub has_cycle_dfs-Searches : (fuel : ℕ) → Searches (λ d t. has_cycle_dfs fuel nodes d t)
  unfolding has_cycle_dfs
  has_cycle_dfs-Searches zero id s v new h = cc
  has_cycle_dfs-Searches (suc fuel) id s v new h =
      visit_node-Post (λ d t. has_cycle_dfs fuel nodes d t) (has_cycle_dfs-Searches fuel) id s v new
        (find_node nodes id) refl h

  -- Behind the loop over the nodes they are all finished.
  has_cycle_from-Ordered :
      (dfs : Text → Search → Bool × Search)
      → Searches dfs
      → (ns : List Node) (s : Search) → Inv s
      → has_cycle_from dfs ns s ≡ false
      → (t : Search) × Post s t × All (λ n. In t.visited n.id) ns
  unfolding has_cycle_from
  has_cycle_from-Ordered dfs spec [] s v h = (s, Post-refl s v, tt)
  has_cycle_from-Ordered dfs spec (n ∷ ns) s v h = elim (Bool-cases (contains s.visited n.id)) [
    | inl e ↦
        let (t, p, rest) = has_cycle_from-Ordered dfs spec ns s v (rw (e, has_cycle_from) at h) in
        (t, p, (p.grows n.id e, rest))
    | inr e ↦ elim (Bool-cases (dfs n.id s).0) [
      | inl k ↦ cc (rw (e, has_cycle_from, k) at h)
      | inr k ↦
          let (p, here) = spec n.id s v e k in
          let (t, q, rest) =
            has_cycle_from-Ordered dfs spec ns (dfs n.id s).1 p.inv
              (rw (e, has_cycle_from, k) at h) in
          (t, Post-trans s (dfs n.id s).1 t p q, (q.grows n.id (ground arith), rest))
    ]
  ]

  pub Inv-no_search : Inv no_search
  unfolding contains
  Inv-no_search = record { order = []; ordered = tt; finished = λ u. refl; stacked = λ u h. h }

-- Where `has_cycle` finds none, the ids of the graph can be put in order: the list holds the ids of
-- all nodes, and each id stands before all the ids that the first node with it names in `depends_on`
-- or `after`.
pub has_cycle-Ordered :
    (dag : Dag)
    → has_cycle dag ≡ false
    → (order : List Text) × Ordered dag.nodes order × All (λ n. In order n.id) dag.nodes
unfolding has_cycle
has_cycle-Ordered dag h =
    let (t, p, visited) =
      has_cycle_from-Ordered dag.nodes _ (has_cycle_dfs-Searches dag.nodes (suc (length dag.nodes)))
        dag.nodes no_search (Inv-no_search dag.nodes) h in
    (
      p.inv.order,
      p.inv.ordered,
      All-map (λ (n : Node). In t.visited n.id) (λ n. In p.inv.order n.id)
          (λ n v. unfold contains in ground (arith, p.inv.finished n.id, p.stack n.id)) dag.nodes
          visited,
    )
