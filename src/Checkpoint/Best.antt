-- ===== src/Checkpoint/Best.antt =====
-- The checkpoint that `get_best_checkpoint_path` chooses.
use nemo_rl_vlm.Prelude.{
  List-cases, ◌≡◌, refl, sym, ap, ◌∙◌, subst, inl, inr, List, ◌∷◌, some, Bool, true, false, not,
  length, total, All, Bool-cases, arith,
}
use nemo_rl_vlm.Prelude.Sort.{sort, IsSorted, sort-IsSorted, total-sort, length-sort}
use nemo_rl_vlm.Prelude.Multiset.{SameItems, All-of_SameItems}
use nemo_rl_vlm.Checkpoint.{
  Directory, Checkpoint, Manager, load_checkpoint_history, with_metric, not_worse,
  get_best_checkpoint,
}
use nemo_rl_vlm.Checkpoint.Order.{better-asym, better-between}

not-true : (b : Bool) → not b ≡ true → b ≡ false
not-true true h = absurd (ground arith)
not-true false h = refl

not-false : (b : Bool) → not b ≡ false → b ≡ true
not-false true h = refl
not-false false h = absurd (ground arith)

module _ {M : Type 0} (lt : M → M → Bool) (asym : (a b : M) → lt a b ≡ true → lt b a ≡ false)
    (between : (a b c : M) → lt a b ≡ false → lt b c ≡ false → lt a c ≡ false) (m : Manager) where
  not_worse_trans :
      (x y z : Checkpoint M)
      → not_worse lt m x y ≡ true
      → not_worse lt m y z ≡ true
      → not_worse lt m x z ≡ true
  not_worse_trans x y z h k =
      let zx =
        better-between lt asym between m.higher_is_better _ _ _ (not-true _ k) (not-true _ h) in
      rw zx refl

  not_worse-linear : (x y : Checkpoint M) → not_worse lt m x y ≡ false → not_worse lt m y x ≡ true
  not_worse-linear x y h =
      rw (better-asym lt asym between m.higher_is_better _ _ (not-false _ h)) refl

  -- If some checkpoints have the metric, and the comparison of metric values is a strict weak order,
  -- `get_best_checkpoint_path` returns the step of one of them: it and some others are, up to their order,
  -- all the checkpoints that have the metric, and none of these has a better value than it has.
  pub get_best_checkpoint-All :
      (dir : Directory M) (c : Checkpoint M) (cs : List (Checkpoint M))
      → with_metric lt m.metric_name (load_checkpoint_history dir) ≡ c ∷ cs
      → (best : Checkpoint M) × (others : List (Checkpoint M)) × (get_best_checkpoint lt m dir
          ≡ some best.step_number)
        × SameItems (best ∷ others) (c ∷ cs)
        × All (λ d. not_worse lt m best d ≡ true) (c ∷ cs)
  unfolding get_best_checkpoint with_metric
  get_best_checkpoint-All dir c cs h =
      let sorted = sort (not_worse lt m) (c ∷ cs) in
      elim (List-cases (load_checkpoint_history dir)) [
        | inl e ↦ absurd (omega (arith, ap length (sym h ∙ ap (with_metric lt m.metric_name) e)))
        | inr (x, xs, e) ↦ elim (List-cases sorted) [
          | inl e' ↦ absurd (omega (arith, length-sort (not_worse lt m) (c ∷ cs), ap length e'))
          | inr (best, others, e') ↦
              let ordered : IsSorted (not_worse lt m) (best ∷ others) =
                subst (IsSorted (not_worse lt m)) e'
                  (sort-IsSorted (not_worse lt m) not_worse_trans not_worse-linear (c ∷ cs)) in
              let same : SameItems (c ∷ cs) (best ∷ others) =
                λ f. sym (total-sort (not_worse lt m) f (c ∷ cs)) ∙ ap (total f) e' in
              let itself : not_worse lt m best best ≡ true =
                elim (Bool-cases (not_worse lt m best best)) [
                  | inl e0 ↦ e0
                  | inr e0 ↦ not_worse-linear best best e0
                ] in
              let with_e : with_metric lt m.metric_name (x ∷ xs) ≡ c ∷ cs =
                ap (with_metric lt m.metric_name) (sym e) ∙ h in
              (
                best,
                others,
                rw (e, with_e, e', get_best_checkpoint) refl,
                λ f. sym (same f),
                All-of_SameItems (not_worse lt m best) (best ∷ others) (c ∷ cs) same
                    (itself, ordered.0),
              )
        ]
      ]
