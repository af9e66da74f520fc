-- ===== src/AsyncGrpo/Buffer/Laws.antt =====
-- The replay buffer implements its specification.
use nemo_rl_vlm.Prelude.{
  ℕ, zero, suc, ◌+◌, ◌-◌, ◌≤◌, List, [], ◌∷◌, map, Bool, ◌||◌, ◌≡◌, refl, ap, ◌∙◌, inl, inr, ltb,
  ◌==◌, arith, Bool-cases, length, get_or, All,
}
use nemo_rl_vlm.Prelude.Int.{pos, ◌≤ℤ◌}
use nemo_rl_vlm.Prelude.Sort.{sort}
use nemo_rl_vlm.AsyncGrpo.Buffer.{
  Buffer, indices_where, keep_if, any, pop_each, ge, in_window, valid_indices, intended_indices,
}
use nemo_rl_vlm.AsyncGrpo.Buffer.Spec.{Entry, is_intended, has_older, count, split, IsValid}
use nemo_rl_vlm.AsyncGrpo.Buffer.Pops.{positions, chosen, length-positions, pop_each-chosen}

length-keep_if-le : (test : ℕ → Bool) (is : List ℕ) → length (keep_if test is) ≤ length is
unfolding keep_if
length-keep_if-le test [] = omega arith
length-keep_if-le test (i ∷ is) = ground (arith, length-keep_if-le test is)

module _ {A : Type 0} (current age : ℕ) where
  abbrev pub wanted : Entry A → Bool
  wanted e = is_intended current age e

  keep_if-positions :
      (i : ℕ) (es : List (Entry A)) (targets : List ℕ)
      → ((j k : ℕ) → j + i ≡ k → get_or targets k 0 ≡ get_or (map (λ e. e.2) es) j 0)
      → keep_if
          (λ k. get_or targets k 0 == current)
          (indices_where (in_window current age) i (map (λ e. e.1) es))
        ≡ positions wanted i es
  unfolding keep_if indices_where positions
  keep_if-positions i [] targets h = refl
  keep_if-positions i (e ∷ es) targets h = ground (
    arith,
    h 0 i (omega arith),
    keep_if-positions (suc i) es targets (λ j k s. h (suc j) k (omega arith)),
  )

  pub any-has_older :
      (es : List (Entry A))
      → any (λ v. ltb v (current - age)) (map (λ e. e.1) es) ≡ has_older current age es
  unfolding any
  any-has_older [] = refl
  any-has_older (e ∷ es) = ap (λ t. ltb e.1 (current - age) || t) (any-has_older es)

  All-split :
      (P : Entry A → Type 0) (n : ℕ) (es : List (Entry A)) → All P es → All P (split wanted n es).1
  All-split P n [] h = tt
  All-split P zero (e ∷ es) h = h
  All-split P (suc n) (e ∷ es) h = elim (Bool-cases (wanted e)) [
    | inl p ↦ rw (p, split) (All-split P n es h.1)
    | inr p ↦ rw (p, split) (h.0, All-split P (suc n) es h.1)
  ]

  length-split :
      (n : ℕ) (es : List (Entry A))
      → length (split wanted n es).0 + length (split wanted n es).1 ≡ length es
  length-split n [] = refl
  length-split zero (e ∷ es) = omega arith
  length-split (suc n) (e ∷ es) = ground (arith, length-split n es, length-split (suc n) es)

  module _ (b : Buffer A) (es : List (Entry A)) (valid : IsValid b es) where
    pub intended-positions : intended_indices current age b ≡ positions wanted 0 es
    unfolding intended_indices valid_indices
    intended-positions =
        rw (valid.holds.versions, valid.holds.targets)
          (keep_if-positions 0 es (map (λ e. e.2) es)
            (λ j k e. let e' : k ≡ j = omega arith in ap (λ t. get_or (map (λ e. e.2) es) t 0) e'))

    pub length-intended-le :
        length (intended_indices current age b) ≤ length (valid_indices current age b)
    unfolding intended_indices
    length-intended-le =
        length-keep_if-le (λ i. get_or b.target_weight_versions i 0 == current)
          (valid_indices current age b)

    pub length-intended : length (intended_indices current age b) ≡ count wanted es
    length-intended = ap length intended-positions ∙ length-positions wanted 0 es

    abbrev pub popped : ℕ → Buffer A
    popped n =
        let order = sort ge (chosen wanted n 0 es) in
        record b {
          trajectories = pop_each order b.trajectories;
          trajectory_versions = pop_each order b.trajectory_versions;
          target_weight_versions = pop_each order b.target_weight_versions;
        }

    -- The three lists lose the same entries.
    pub popped-IsValid : (n : ℕ) → IsValid (popped n) (split wanted n es).1
    popped-IsValid n = record {
      holds = record {
        groups =
            ap (pop_each (sort ge (chosen wanted n 0 es))) valid.holds.groups
            ∙ pop_each-chosen wanted (λ e. e.0) n 0 es [] refl;
        versions =
            ap (pop_each (sort ge (chosen wanted n 0 es))) valid.holds.versions
            ∙ pop_each-chosen wanted (λ e. e.1) n 0 es [] refl;
        targets =
            ap (pop_each (sort ge (chosen wanted n 0 es))) valid.holds.targets
            ∙ pop_each-chosen wanted (λ e. e.2) n 0 es [] refl;
      };
      bounded = omega (arith, length-split n es, valid.bounded);
      seen = All-split (λ e. pos e.2 ≤ℤ b.last_target_weight_already_generated) n es valid.seen;
    }
