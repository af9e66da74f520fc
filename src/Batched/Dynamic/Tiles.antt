-- ===== src/Batched/Dynamic/Tiles.antt =====
-- Micro-batches without a gap.
use nemo_rl_vlm.Prelude.{ℕ, ◌≤◌, ◌<◌, ◌≡◌, refl, List, [], ◌∷◌, ◌++◌, arith}

-- The micro-batches begin at `a` and end at `b`, each where the last one ends, and none is empty.
abbrev pub Tiles : ℕ → List (ℕ × ℕ) → ℕ → Type 0
Tiles a [] b = a ≡ b
Tiles a ((s, e) ∷ is) b = (a ≡ s) × (s < e) × Tiles e is b

pub Tiles-le : (a : ℕ) (is : List (ℕ × ℕ)) (b : ℕ) → Tiles a is b → a ≤ b
Tiles-le a [] b h = omega (arith, h)
Tiles-le a ((s, e) ∷ is) b h = omega (arith, h.0, h.1, Tiles-le e is b h.2)

pub Tiles-snoc :
    (a : ℕ) (is : List (ℕ × ℕ)) (s e : ℕ) → Tiles a is s → s < e → Tiles a (is ++ (s, e) ∷ []) e
Tiles-snoc a [] s e h lt = (h, lt, refl)
Tiles-snoc a ((t, u) ∷ is) s e h lt = (h.0, h.1, Tiles-snoc u is s e h.2 lt)
