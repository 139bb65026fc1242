-- ===== src/Dag/Expand/ChildIds.antt =====
-- The ids of the children of one `for_each` node: when they are all different, and when not.
use pidag.Base.{
  ℕ, suc, ◌≤◌, ◌≡◌, ◌≢◌, refl, ap, ◌∙◌, Bool, true, false, ◌&&◌, not, List, [], ◌∷◌, ◌++◌, map,
  arith, any, All, All-map, Bool-cases, List-cases, inl, inr,
}
use pidag.Text.{distinct, Text, contains, same, same_iff, same→eq}
use pidag.Text.Decimal.{show_nat, show_nat-injective, is_behind_digits, any-show_nat}
use pidag.Dag.{Node}
use pidag.Dag.Expand.{expand_items, child, child_id, candidate_id, indexed_id, slugify}

abbrev Fresh : List Text → Text → Type 0
Fresh used id = contains used id ≡ false

append_cancel : (p s t : Text) → p ++ s ≡ p ++ t → s ≡ t
append_cancel [] s t h = h
append_cancel (c ∷ p) s t h = append_cancel p s t (cc h)

indexed_id-injective : (base : Text) (i j : ℕ) → indexed_id base i ≡ indexed_id base j → i ≡ j
unfolding indexed_id
indexed_id-injective base i j h = show_nat-injective i j (tail_eq (append_cancel base _ _ h))
  where
    tail_eq : {c : ℕ} {s t : Text} → c ∷ s ≡ c ∷ t → s ≡ t
    tail_eq e = cc e

Fresh-All : (used : List Text) (id : Text) → All (λ u. u ≢ id) used → Fresh used id
unfolding contains
Fresh-All [] id h = refl
Fresh-All (u ∷ used) id h = ground (arith, same→eq u id, h.0, Fresh-All used id h.1)

-- The child's id is one of those in use exactly when the id by slug and the id by index both are.
pub contains-child_id :
    (base : Text) (idx : ℕ) (item : Text) (used : List Text)
    → contains used (child_id base idx item used)
      ≡ (contains used (candidate_id base idx item) && contains used (indexed_id base idx))
unfolding child_id
contains-child_id base idx item used =
    elim (Bool-cases (contains used (candidate_id base idx item))) [ inl e ↦ rw e | inr e ↦ rw e e ]

-- The slug of the item holds a letter.
abbrev pub HasLetter : Text → Type 0
HasLetter item = any is_behind_digits (slugify item) ≡ true

-- The item's id by slug is no id by index.
abbrev Plain : Text → Text → Type 0
Plain base item = (k : ℕ) (idx : ℕ) → candidate_id base idx item ≢ indexed_id base k

-- An id that no index from `idx` on gives.
abbrev Behind : Text → ℕ → Text → Type 0
Behind base idx u = (k : ℕ) → idx ≤ k → u ≢ indexed_id base k

indexed_id-Fresh :
    (base : Text) (idx : ℕ) (used : List Text)
    → All (Behind base idx) used
    → Fresh used (indexed_id base idx)
indexed_id-Fresh base idx used h =
    Fresh-All used (indexed_id base idx)
      (All-map (Behind base idx) (λ u. u ≢ indexed_id base idx) (λ u b. b idx (omega arith)) used h)

Plain-HasLetter : (base item : Text) → HasLetter item → Plain base item
unfolding candidate_id indexed_id
Plain-HasLetter base item letter k idx h = elim (List-cases (slugify item)) [
  | inl e ↦ cc (ap (any is_behind_digits) e, letter)
  | inr (c, slug, e) ↦
      let same_id : base ++ (b'-' ∷ c ∷ slug) ≡ base ++ (b'-' ∷ show_nat k) =
        rw (e, candidate_id) at h in
      let same_slug : c ∷ slug ≡ show_nat k = cc (append_cancel base _ _ same_id) in
      cc (letter, ap (any is_behind_digits) (e ∙ same_slug), any-show_nat k)
]

child_id-Behind :
    (base : Text) (idx : ℕ) (item : Text) (used : List Text)
    → Plain base item
    → Behind base (suc idx) (child_id base idx item used)
unfolding child_id
child_id-Behind base idx item used plain k le =
    elim (Bool-cases (contains used (candidate_id base idx item))) [
      | inl e ↦ rw e (λ same_id. absurd (omega (arith, indexed_id-injective base idx k same_id)))
      | inr e ↦ rw e (plain k idx)
    ]

contains-cons_false :
    (used : List Text) (id u : Text) → Fresh (id ∷ used) u → (same id u ≡ false) × Fresh used u
unfolding contains
contains-cons_false used id u h = ground arith

Fresh-same : (ids : List Text) (id : Text) → All (λ u. same id u ≡ false) ids → Fresh ids id
unfolding contains
Fresh-same [] id h = refl
Fresh-same (u ∷ ids) id h = ground (arith, same_iff u id, same_iff id u, Fresh-same ids id h.1)

and_false : (a : Bool) {b : Bool} → b ≡ false → (a && b) ≡ false
and_false a h = ground arith

and_true : {a b : Bool} → a ≡ false → b ≡ true → (not a && b) ≡ true
and_true h k = ground arith

candidate_id_one :
    (base : Text) (idx : ℕ) (item : Text)
    → slugify item ≡ show_nat 1
    → candidate_id base idx item ≡ indexed_id base 1
unfolding candidate_id indexed_id show_nat
candidate_id_one base idx item h = rw (h, candidate_id) refl

child_id_one :
    (base : Text) (item : Text) (used : List Text)
    → slugify item ≡ show_nat 1
    → child_id base 1 item used ≡ indexed_id base 1
unfolding child_id
child_id_one base item used h = rw (candidate_id_one base 1 item h) (ground arith)

module _ (node : Node) where
  abbrev ids_of : ℕ → List Text → List Text → List Text
  ids_of idx used items = map (λ n. n.id) (expand_items node idx used items)

  ids_of-distinct :
      (items : List Text) (idx : ℕ) (used : List Text)
      → All (Plain node.id) items
      → All (Behind node.id idx) used
      → All (Fresh used) (ids_of idx used items) × (distinct (ids_of idx used items) ≡ true)
  unfolding expand_items child distinct
  ids_of-distinct [] idx used plain behind = (tt, refl)
  ids_of-distinct (item ∷ items) idx used plain behind =
      let id = child_id node.id idx item used in
      let now : Fresh used id =
        contains-child_id node.id idx item used
        ∙ and_false (contains used (candidate_id node.id idx item))
            (indexed_id-Fresh node.id idx used behind) in
      let (fresh, rest) = ids_of-distinct items (suc idx) (id ∷ used) plain.1 (
        child_id-Behind node.id idx item used plain.0,
        All-map (Behind node.id idx) (Behind node.id (suc idx)) (λ u b k le. b k (omega arith)) used
            behind,
      ) in
      (
        (
          now,
          All-map (Fresh (id ∷ used)) (Fresh used) (λ u f. (contains-cons_false used id u f).1) _
              fresh,
        ),
        and_true
            (Fresh-same _ id (
              All-map (Fresh (id ∷ used)) (λ u. same id u ≡ false)
                (λ u f. (contains-cons_false used id u f).0) _ fresh))
            rest,
      )

  -- The children of a node have different ids, if the slug of every item holds a letter.
  pub expand_items-distinct :
      (items : List Text)
      → All HasLetter items
      → distinct (map (λ n. n.id) (expand_items node 0 [] items)) ≡ true
  expand_items-distinct items letters =
      (ids_of-distinct items 0 []
        (All-map HasLetter (Plain node.id) (Plain-HasLetter node.id) items letters) tt).1

  -- Where the first two items have the slug `1`, the first two children have the same id, which is the
  -- id by the index 1.
  pub expand_items_collide :
      (x y : Text) (items : List Text)
      → slugify x ≡ show_nat 1
      → slugify y ≡ show_nat 1
      → (rest : List Text) × (map (λ n. n.id) (expand_items node 0 [] (x ∷ y ∷ items))
          ≡ indexed_id node.id 1 ∷ indexed_id node.id 1 ∷ rest)
  unfolding expand_items child
  expand_items_collide x y items hx hy =
      let first : child_id node.id 0 x [] ≡ indexed_id node.id 1 =
        unfold child_id contains in candidate_id_one node.id 0 x hx in
      (_, ap_cons first (child_id_one node.id y _ hy))
    where
      ap_cons : {i j k : Text} {rest : List Text} → i ≡ k → j ≡ k → i ∷ j ∷ rest ≡ k ∷ k ∷ rest
      ap_cons e d = cc (e, d)
