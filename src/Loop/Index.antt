-- ===== src/Loop/Index.antt =====
-- What the maps that `execute` builds hold: the reverse index turns the edges round, and the first
-- in-degree of an id counts its edges.
use pidag.Base.{
  if-intro, ◌∙◌, ◌||◌, ℕ, ◌+◌, ◌≡◌, refl, true, is_some, get_or, List, [], ◌∷◌, ◌++◌, length,
  length-append, arith, if◌then◌else◌,
}
use pidag.Text.{Text, same, same_iff, contains}
use pidag.Map.{Map, lookup, insert, modify, lookup-insert, lookup-modify}
use pidag.Dag.{Node, node_ids}
use pidag.Loop.{entries}
use pidag.Loop.Build.{
  collect, bump, bump_times, add_degrees, initial_degrees, push_under, add_reverse, reverse_index,
}
use pidag.Loop.Count.{bit, count, count-append}

-- The edges of all nodes of this id.
unfoldable pub gathered : (Node → List Text) → Text → List Node → List Text
gathered edges x [] = []
gathered edges x (n ∷ ns) =
    let rest = gathered edges x ns in if same n.id x then edges n ++ rest else rest

push-is_some :
    (t e id : Text) (m : Map (List Text))
    → is_some (lookup t (modify e (λ l. l ++ id ∷ []) m)) ≡ is_some (lookup t m)
push-is_some t e id m = ground (arith, lookup-modify e t (λ l. l ++ id ∷ []) m)

count-push :
    (x t e id : Text) (m : Map (List Text))
    → is_some (lookup t m) ≡ true
    → count x (entries t (modify e (λ l. l ++ id ∷ []) m))
      ≡ count x (entries t m) + (if same id x then bit (same e t) else 0)
unfolding count
count-push x t e id m h =
    ground (arith, lookup-modify e t (λ l. l ++ id ∷ []) m, count-append x (entries t m) (id ∷ []))

push_under-is_some :
    (t id : Text) (edges : List Text) (m : Map (List Text))
    → is_some (lookup t (push_under id edges m)) ≡ is_some (lookup t m)
unfolding push_under
push_under-is_some t id [] m = refl
push_under-is_some t id (e ∷ edges) m = push_under-is_some t id edges _ ∙ push-is_some t e id m

count-push_under :
    (x t id : Text) (edges : List Text) (m : Map (List Text))
    → is_some (lookup t m) ≡ true
    → count x (entries t (push_under id edges m))
      ≡ count x (entries t m) + (if same id x then count t edges else 0)
unfolding count push_under
count-push_under x t id [] m h = ground arith
count-push_under x t id (e ∷ edges) m h = ground (
  arith,
  count-push_under x t id edges (modify e (λ l. l ++ id ∷ []) m),
  push-is_some t e id m,
  count-push x t e id m h,
)

count-add_reverse :
    (f : Node → List Text) (x t : Text) (ns : List Node) (m : Map (List Text))
    → is_some (lookup t m) ≡ true
    → count x (entries t (add_reverse f ns m)) ≡ count x (entries t m) + count t (gathered f x ns)
unfolding count add_reverse gathered
count-add_reverse f x t [] m h = omega arith
count-add_reverse f x t (n ∷ ns) m h = ground (
  arith,
  count-add_reverse f x t ns (push_under n.id (f n) m),
  push_under-is_some t n.id (f n) m,
  count-push_under x t n.id (f n) m h,
  count-append t (f n) (gathered f x ns),
)

pub collect-is_some {ℓ} :
    {V : Type ℓ} (value : Node → V) (t : Text) (ns : List Node) (m : Map V)
    → is_some (lookup t (collect value ns m)) ≡ (is_some (lookup t m) || contains (node_ids ns) t)
unfolding collect contains
collect-is_some value t [] m = ground arith
collect-is_some value t (n ∷ ns) m =
    ground (
      arith,
      collect-is_some value t ns (insert n.id (value n) m),
      lookup-insert n.id t (value n) m,
    )

pub collect_entry {ℓ} :
    {V : Type ℓ} (v : V) (t : Text) (ns : List Node) (m : Map V)
    → get_or (lookup t m) v ≡ v
    → get_or (lookup t (collect (λ n. v) ns m)) v ≡ v
unfolding collect
collect_entry v t [] m h = h
collect_entry v t (n ∷ ns) m h = collect_entry v t ns (insert n.id v m) (
    rw (lookup-insert n.id t v m)
      (if-intro (λ o. get_or o v ≡ v) (same n.id t) (λ e. refl) (λ e. h)))

-- A node of the graph stands as often under `t` as `t` stands among its edges.
pub count-reverse_index :
    (f : Node → List Text) (x t : Text) (ns : List Node)
    → contains (node_ids ns) t ≡ true
    → count x (entries t (reverse_index f ns)) ≡ count t (gathered f x ns)
unfolding reverse_index count lookup
count-reverse_index f x t ns h =
    let m : Map (List Text) = collect (λ n. []) ns [] in
    ground (
      arith,
      count-add_reverse f x t ns m,
      collect-is_some (λ (n : Node). let l : List Text = [] in l) t ns [],
      collect_entry {V = List Text} [] t ns [] refl,
    )

abbrev pub degree_in : Map ℕ → Text → ℕ
degree_in m x = get_or (lookup x m) 0

degree-bump_times :
    (x id : Text) (edges : List Text) (m : Map ℕ)
    → degree_in (bump_times id edges m) x ≡ degree_in m x + (if same id x then length edges else 0)
unfolding bump_times bump
degree-bump_times x id [] m = ground arith
degree-bump_times x id (e ∷ edges) m = ground (
  arith,
  degree-bump_times x id edges (bump id m),
  same_iff id x,
  lookup-insert id x (degree_in m id + 1) m,
)

degree-add_degrees :
    (x : Text) (ns : List Node) (m : Map ℕ)
    → degree_in (add_degrees ns m) x ≡ degree_in m x + length (gathered (λ n. n.depends_on) x ns)
unfolding add_degrees gathered
degree-add_degrees x [] m = omega arith
degree-add_degrees x (n ∷ ns) m = ground (
  arith,
  degree-add_degrees x ns (bump_times n.id n.depends_on m),
  degree-bump_times x n.id n.depends_on m,
  length-append n.depends_on (gathered (λ n. n.depends_on) x ns),
)

-- The first in-degree of an id is the number of its edges.
pub degree-initial_degrees :
    (x : Text) (ns : List Node)
    → degree_in (initial_degrees ns) x ≡ length (gathered (λ n. n.depends_on) x ns)
unfolding initial_degrees lookup
degree-initial_degrees x ns =
    let m : Map ℕ = collect (λ n. 0) ns [] in
    omega (arith, degree-add_degrees x ns m, collect_entry {V = ℕ} 0 x ns [] refl)
