-- ===== src/Text/Order.antt =====
-- The order of strings, by their characters.
use pidag.Base.{◌≡◌, refl, Bool, true, false, [], ◌∷◌, ltb, arith, if◌then◌else◌}
use pidag.Text.{Text}

unfoldable pub le_text : Text → Text → Bool
le_text [] t = true
le_text (c ∷ cs) [] = false
le_text (c ∷ cs) (d ∷ ds) =
    let rest = le_text cs ds in if ltb c d then true else if ltb d c then false else rest

pub le_text_total : (s t : Text) → le_text s t ≡ false → le_text t s ≡ true
unfolding le_text
le_text_total [] t h = ground (arith, h)
le_text_total (c ∷ cs) [] h = refl
le_text_total (c ∷ cs) (d ∷ ds) h = ground (arith, h, le_text_total cs ds)

pub le_text_trans : (s t u : Text) → le_text s t ≡ true → le_text t u ≡ true → le_text s u ≡ true
unfolding le_text
le_text_trans [] t u h k = refl
le_text_trans (c ∷ cs) [] u h k = ground (arith, h)
le_text_trans (c ∷ cs) (d ∷ ds) [] h k = ground (arith, k)
le_text_trans (c ∷ cs) (d ∷ ds) (e ∷ es) h k = ground (arith, h, k, le_text_trans cs ds es)
