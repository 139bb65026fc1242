-- ===== src/Topo/Ordered.antt =====
-- The order that `topo_sort` returns.
use pidag.Base.{
  ℕ, suc, ◌+◌, ◌-◌, ◌≤◌, ◌≡◌, refl, true, Option, none, some, is_some, List, [], ◌∷◌, ◌++◌, ◌==◌,
  length, arith, if◌then◌else◌, if-intro,
}
use pidag.Text.{Text, same, same_iff, same_refl, contains}
use pidag.Map.{Map, lookup, insert, lookup-insert}
use pidag.Dag.{Dag, node_ids}
use pidag.Loop.{entries}
use pidag.Loop.Build.{initial_degrees}
use pidag.Loop.Count.{bit, count, count-append, contains-le-count}
use pidag.Loop.Index.{gathered, degree_in, degree-initial_degrees}
use pidag.Loop.Counted.{initial_degrees-IsCounted}
use pidag.Loop.Start.{keys, lookup-le-count, initial_degrees-Keyed, nodes-IsKnown}
use pidag.Topo.{adjacency, unblocked, lowered, lower_all}
use pidag.Topo.Adjacent.{count-adjacency}

-- How many of these edges do not lead into `seen`.
unfoldable pub outside : List Text → List Text → ℕ
outside seen [] = 0
outside seen (d ∷ deps) = let rest = outside seen deps in if contains seen d then rest else suc rest

contains-snoc :
    (id d : Text) (seen : List Text)
    → contains (seen ++ id ∷ []) d ≡ (if same id d then true else contains seen d)
unfolding contains
contains-snoc id d [] = ground arith
contains-snoc id d (y ∷ seen) = ground (arith, contains-snoc id d seen)

outside-snoc :
    (id : Text) (seen deps : List Text)
    → count id seen ≡ 0
    → outside seen deps ≡ outside (seen ++ id ∷ []) deps + count id deps
unfolding outside count
outside-snoc id seen [] h = omega arith
outside-snoc id seen (d ∷ deps) h = ground (
  arith,
  outside-snoc id seen deps h,
  contains-snoc id d seen,
  contains-le-count id seen,
  same_iff id d,
  same_iff d id,
)

outside-[] : (deps : List Text) → outside [] deps ≡ length deps
unfolding outside contains
outside-[] [] = refl
outside-[] (d ∷ deps) = omega (arith, outside-[] deps)

-- Of the node `x`, whose edges are `deps`: its in-degree counts the edges that do not lead into
-- `seen` and its place in `left`, the list of nodes that are still to be counted down; it is queued
-- or seen at most once, and exactly at in-degree 0; only the ids have an in-degree.
pub record IsLowering (ids deps : List Text) (x : Text) (left queue seen : List Text) (m : Map ℕ)
    : Type 0 where
  pub waits : degree_in m x ≡ outside seen deps + count x left
  pub single : count x queue + count x seen ≤ bit (is_some (lookup x m))
  pub free : 1 ≤ count x queue + count x seen → degree_in m x ≡ 0
  pub known : bit (is_some (lookup x m)) ≤ count x ids
  pub due : contains ids x ≡ true → degree_in m x ≡ 0 → 1 ≤ count x queue + count x seen

module _ (ids deps : List Text) (x : Text) (seen : List Text) where
  lowered-IsLowering :
      (o : Option ℕ) (id : Text) (left queue : List Text) (m : Map ℕ)
      → lookup id m ≡ o
      → IsLowering ids deps x (id ∷ left) queue seen m
      → IsLowering ids deps x left (lowered id o queue m).0 seen (lowered id o queue m).1
  unfolding count
  lowered-IsLowering none id left queue m e h = record {
    waits = ground (arith, h.waits, same_iff id x);
    single = h.single;
    free = h.free;
    known = h.known;
    due = h.due;
  }
  lowered-IsLowering (some degree) id left queue m e h =
      let found = lookup-insert id x (degree - 1) m in
      if-intro (λ q. IsLowering ids deps x left q seen (insert id (degree - 1) m)) (degree - 1 == 0)
        (λ z. record {
          waits = ground (arith, h.waits, same_iff id x, found);
          single = ground (
            arith,
            h.single,
            h.free,
            h.waits,
            same_iff id x,
            found,
            count-append x queue (id ∷ []),
          );
          free = λ r.
              ground (arith, h.free, h.waits, same_iff id x, found, count-append x queue (id ∷ []));
          known = ground (arith, h.known, same_iff id x, found);
          due =
              λ r d. ground (arith, h.due r, same_iff id x, found, count-append x queue (id ∷ []));
        })
        (λ z. record {
          waits = ground (arith, h.waits, same_iff id x, found);
          single = ground (arith, h.single, same_iff id x, found);
          free = λ r. ground (arith, h.free r, h.waits, same_iff id x, found);
          known = ground (arith, h.known, same_iff id x, found);
          due = λ r d. ground (arith, h.due r, h.waits, same_iff id x, found);
        })

  lower_all-IsLowering :
      (left : List Text) (s : List Text × Map ℕ)
      → IsLowering ids deps x left s.0 seen s.1
      → IsLowering ids deps x [] (lower_all left s).0 seen (lower_all left s).1
  unfolding lower_all
  lower_all-IsLowering [] s h = h
  lower_all-IsLowering (id ∷ left) (queue, m) h =
      lower_all-IsLowering left (lowered id (lookup id m) queue m)
        (lowered-IsLowering (lookup id m) id left queue m refl h)

abbrev pub deps_of : Dag → Text → List Text
deps_of dag x = gathered (λ n. n.depends_on) x dag.nodes

abbrev pub Lowering : Dag → List Text × Map ℕ → List Text → Type 0
Lowering dag s seen = (x : Text) → IsLowering (node_ids dag.nodes) (deps_of dag x) x [] s.0 seen s.1

-- The next round: the first of the queue is seen.
pub pop-Lowering :
    (dag : Dag) (id : Text) (queue : List Text) (m : Map ℕ) (seen : List Text)
    → Lowering dag (id ∷ queue, m) seen
    → Lowering dag (lower_all (entries id (adjacency dag.nodes)) (queue, m)) (seen ++ id ∷ [])
unfolding count
pop-Lowering dag id queue m seen h x =
    let hx = h x in
    let hi = h id in
    let unseen : count id seen ≡ 0 = ground (arith, hi.single, same_refl id) in
    lower_all-IsLowering (node_ids dag.nodes) (deps_of dag x) x (seen ++ id ∷ [])
      (entries id (adjacency dag.nodes)) (queue, m)
      (record {
        waits = omega (
          arith,
          hx.waits,
          outside-snoc id seen (deps_of dag x) unseen,
          count-adjacency x id dag.nodes,
        );
        single = omega (arith, hx.single, count-append x seen (id ∷ []));
        free = λ r. hx.free (omega (arith, r, count-append x seen (id ∷ [])));
        known = hx.known;
        due = λ r d. omega (arith, hx.due r d, count-append x seen (id ∷ []));
      })

count-unblocked-keys : (x : Text) (m : Map ℕ) → count x (unblocked m) ≤ count x (keys m)
unfolding count unblocked
count-unblocked-keys x [] = omega arith
count-unblocked-keys x ((id, degree) ∷ m) = ground (arith, count-unblocked-keys x m)

count-unblocked :
    (x : Text) (m : Map ℕ)
    → count x (keys m) ≤ 1
    → count x (unblocked m) ≤ (if degree_in m x == 0 then bit (is_some (lookup x m)) else 0)
unfolding count unblocked lookup
count-unblocked x [] h = omega arith
count-unblocked x ((id, degree) ∷ m) h =
    ground (arith, count-unblocked x m, count-unblocked-keys x m)

unblocked-all :
    (x : Text) (m : Map ℕ)
    → is_some (lookup x m) ≡ true
    → degree_in m x ≡ 0
    → 1 ≤ count x (unblocked m)
unfolding count unblocked lookup
unblocked-all x [] h e = absurd (ground (arith, h))
unblocked-all x ((id, degree) ∷ m) h e = ground (arith, h, e, unblocked-all x m)

pub start-Lowering :
    (dag : Dag) → Lowering dag (unblocked (initial_degrees dag.nodes), initial_degrees dag.nodes) []
unfolding count
start-Lowering dag x =
    let ids = node_ids dag.nodes in
    let m = initial_degrees dag.nodes in
    let keyed = initial_degrees-Keyed ids x dag.nodes (nodes-IsKnown dag.nodes) in
    let queued = count-unblocked x m (ground (arith, keyed)) in
    record {
      waits = omega (arith, degree-initial_degrees x dag.nodes, outside-[] (deps_of dag x));
      single = ground (arith, queued);
      free = λ r. ground (arith, queued);
      known = omega (arith, lookup-le-count x m, keyed, contains-le-count x ids);
      due = λ r d. omega (arith, unblocked-all x m (initial_degrees-IsCounted x dag.nodes r) d);
    }
