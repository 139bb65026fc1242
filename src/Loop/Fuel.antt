-- ===== src/Loop/Fuel.antt =====
-- The skip cascade of `execute` ends by its empty work list.
use pidag.Base.{ℕ, ◌+◌, ◌≡◌, true, false, List, [], ◌∷◌, length, if◌then◌else◌}
use pidag.Text.{Text, contains}
use pidag.Map.{Map}
use pidag.Loop.{Plan, Board}
use pidag.Loop.Skip.{skip_one}

-- The edges of the nodes that are not processed.
remaining : List Text → Map (List Text) → ℕ
remaining processed [] = 0
remaining processed ((id, l) ∷ m) =
    let rest = remaining processed m in if contains processed id then rest else length l + rest

-- The cascade from a work list to the board behind it, which ends when the work list is empty: a
-- processed node is dropped, any other is skipped with what its dependents bring.
pub data Cascade (plan : Plan) : List Text → List Text → Board → Board → Type 0 where
  ends : (processed : List Text) (b : Board) → Cascade plan processed [] b b
  drops :
      (processed : List Text) (id : Text) (work : List Text) (b c : Board)
      → contains processed id ≡ true
      → Cascade plan processed work b c
      → Cascade plan processed (id ∷ work) b c
  skips :
      (processed : List Text) (id : Text) (work : List Text) (b c : Board)
      → contains processed id ≡ false
      → Cascade plan (id ∷ processed) (skip_one plan id work b).0 (skip_one plan id work b).1 c
      → Cascade plan processed (id ∷ work) b c
