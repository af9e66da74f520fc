-- ===== src/Packing/Adjust/Moves.antt =====
-- One move of `_adjust_bin_count`: what it does to each bin, and what it keeps.
use nemo_rl_vlm.Prelude.{
  get_or-set, get_elem?-get_or, get_or_past, nil_of_length, ℕ, ◌+◌, ◌-◌, ◌≤◌, ◌<◌, List, [], ◌∷◌,
  flatten, ◌≡◌, ◌≢◌, refl, ap, ◌∙◌, some, arith, Bool-cases, ltb→lt, ltb_false→le, ==→eq, inl, inr,
  false, ltb, ◌==◌, if◌then◌else◌, length, get_or, set, total, All, length-set, total-set,
  total-flatten, All-set, All_get,
}
use nemo_rl_vlm.Packing.Adjust.{but_last, last_or, move_last}

module _ {ℓ} {A : Type ℓ} where
  total-but_last :
      (f : A → ℕ) (d : A) (xs : List A)
      → 0 < length xs
      → total f (but_last xs) + f (last_or d xs) ≡ total f xs
  unfolding but_last last_or
  total-but_last f d [] h = elim h [ ]
  total-but_last f d (x ∷ []) h = omega arith
  total-but_last f d (x ∷ y ∷ xs) h = omega (arith, total-but_last f d (y ∷ xs))

  length-but_last : (xs : List A) → length (but_last xs) ≡ length xs - 1
  unfolding but_last
  length-but_last [] = refl
  length-but_last (x ∷ []) = refl
  length-but_last (x ∷ y ∷ xs) = omega (arith, length-but_last (y ∷ xs))

module _ (bins : List (List ℕ)) (orig new : ℕ) (long : 1 < length (get_or bins orig []))
    (blank : length (get_or bins new []) ≡ 0) (inside : new < length bins) where
  abbrev source : List ℕ
  source = get_or bins orig []

  abbrev shrunk : List (List ℕ)
  shrunk = set bins orig (but_last source)

  pub orig_inside : orig < length bins
  orig_inside = elim (Bool-cases (ltb orig (length bins))) [
    | inl e ↦ ltb→lt _ _ e
    | inr e ↦
        let past : source ≡ [] = get_or_past bins orig [] (ltb_false→le _ _ e) in
        let none_left : length source ≡ 0 = ap length past in absurd (omega arith)
  ]

  pub orig-ne-new : orig ≢ new
  orig-ne-new e =
      let same : length source ≡ length (get_or bins new []) =
        ap (λ i. length (get_or bins i [])) e in
      omega arith

  not_same : (orig == new) ≡ false
  not_same = elim (Bool-cases (orig == new)) [
    | inl e ↦ absurd (orig-ne-new (==→eq _ _ e))
    | inr e ↦ e
  ]

  shrunk_new : get_or shrunk new [] ≡ []
  shrunk_new =
      get_or-set bins orig new (but_last source) [] orig_inside
      ∙ rw not_same (nil_of_length (get_or bins new []) blank)

  -- The new bin gets exactly the last item of its source.
  move_last_lem : move_last orig new bins ≡ set shrunk new (last_or 0 source ∷ [])
  unfolding move_last
  move_last_lem = rw shrunk_new

  new_inside_shrunk : new < length shrunk
  new_inside_shrunk = omega (arith, length-set {0} bins orig (but_last source))

  pub length-move_last_bins : length (move_last orig new bins) ≡ length bins
  length-move_last_bins =
      ap length move_last_lem
      ∙ length-set shrunk new (last_or 0 source ∷ [])
      ∙ length-set bins orig (but_last source)

  -- The size of each bin afterwards.
  pub length-move_last :
      (j : ℕ)
      → length (get_or (move_last orig new bins) j []) ≡ (
          if new == j
          then 1
          else if orig == j
          then length (get_or bins orig []) - 1
          else length (get_or bins j []))
  length-move_last j = rw move_last_lem (
      ground (
        arith,
        get_or-set shrunk new j (last_or 0 source ∷ []) [] new_inside_shrunk,
        get_or-set bins orig j (but_last source) [] orig_inside,
        length-but_last source,
      ))

  -- Nothing is lost or invented.
  pub total-move_last :
      (f : ℕ → ℕ) → total f (flatten (move_last orig new bins)) ≡ total f (flatten bins)
  total-move_last f = rw move_last_lem (
      omega (
        arith,
        total-flatten f bins,
        total-flatten f (set shrunk new (last_or 0 source ∷ [])),
        total-set (total f) bins orig source (but_last source)
            (get_elem?-get_or bins orig [] orig_inside),
        total-set (total f) shrunk new [] (last_or 0 source ∷ [])
            (get_elem?-get_or shrunk new [] new_inside_shrunk ∙ ap some shrunk_new),
        total-but_last f 0 source (omega arith),
      ))

  -- No bin comes to hold more than some bin held.
  pub move_last-fits :
      (f : ℕ → ℕ) (cap : ℕ)
      → All (λ bin. total f bin ≤ cap) bins
      → All (λ bin. total f bin ≤ cap) (move_last orig new bins)
  move_last-fits f cap h =
      let held : total f source ≤ cap =
        All_get (λ bin. total f bin ≤ cap) bins orig source h
          (get_elem?-get_or bins orig [] orig_inside) in
      rw move_last_lem (
        All-set (λ bin. total f bin ≤ cap) shrunk new (last_or 0 source ∷ [])
          (All-set (λ bin. total f bin ≤ cap) bins orig (but_last source) h
            (omega (arith, total-but_last f 0 source (omega arith))))
          (omega (arith, total-but_last f 0 source (omega arith))))
