-- ===== src/AsyncGrpo/Collector/Targets.antt =====
-- Which training step a generation is made for.
use nemo_rl_vlm.Prelude.{
  ℕ, zero, suc, ◌+◌, ◌≤◌, ◌<◌, ◌≡◌, refl, ap, ◌∙◌, subst, inl, inr, List, [], ◌∷◌, ◌++◌, map,
  Option, none, some, Bool, true, false, ◌==◌, range_from, All, All-map, Bool-cases, Option-cases,
  arith,
}
use nemo_rl_vlm.Prelude.Int.{ℤ}
use nemo_rl_vlm.AsyncGrpo.Buffer.{in_window}
use nemo_rl_vlm.AsyncGrpo.Collector.{
  Collector, calculate_target_weights, needs_generation, first_needed, none_needed,
  get_next_target_for_generation, should_pause_for_generation_limits,
}

abbrev pub age : Collector → ℕ
age c = c.config.max_trajectory_age_steps

-- What the search finds among the targets: nothing if none needs generation, else the first that does.
abbrev pub Search : ℤ → List ℕ → List ℕ → Option ℕ → Type 0
Search last generating targets none = All (λ t. needs_generation last generating t ≡ false) targets
Search last generating targets (some t) =
    (before : List ℕ) × (after : List ℕ) × (targets ≡ before ++ t ∷ after)
    × All (λ u. needs_generation last generating u ≡ false) before
    × (needs_generation last generating t ≡ true)

Search-cons :
    (last : ℤ) (generating : List ℕ) (u : ℕ) (us : List ℕ) (o : Option ℕ)
    → needs_generation last generating u ≡ false
    → Search last generating us o
    → Search last generating (u ∷ us) o
Search-cons last generating u us none h s = (h, s)
Search-cons last generating u us (some t) h (before, after, e, skipped, needed) =
    (u ∷ before, after, ap (λ ts. u ∷ ts) e, (h, skipped), needed)

pub first_needed-Search :
    (last : ℤ) (generating targets : List ℕ)
    → Search last generating targets (first_needed last generating targets)
unfolding first_needed
first_needed-Search last generating [] = tt
first_needed-Search last generating (u ∷ us) =
    elim (Bool-cases (needs_generation last generating u)) [
      | inl e ↦ rw (e, first_needed) ([], us, refl, tt, e)
      | inr e ↦
          rw (e, first_needed)
            (Search-cons last generating u us _ e (first_needed-Search last generating us))
    ]

-- The result of `_get_next_target_for_generation`: the first target that is later than the last one in
-- the buffer and not reserved is reserved and returned; if there is none, nothing changes.
pub Reserves : ℤ → ℕ → Collector → Option ℕ × Collector → Type 0
Reserves last version c (none, c') =
    (c' ≡ c) × Search last c.generating_targets (calculate_target_weights version c) none
Reserves last version c (some t, c') =
    (c' ≡ record c { generating_targets = t ∷ c.generating_targets })
    × Search last c.generating_targets (calculate_target_weights version c) (some t)

-- `_get_next_target_for_generation` returns the first target weight, in the order of
-- `_calculate_target_weights`, that is later than `last` and not reserved, and adds exactly that one to
-- the reservations; it returns none, and changes nothing, exactly if no target weight is such.
pub get_next_target-Reserves :
    (last : ℤ) (version : ℕ) (c : Collector)
    → Reserves last version c (get_next_target_for_generation last version c)
unfolding get_next_target_for_generation Reserves
get_next_target-Reserves last version c =
    let targets = calculate_target_weights version c in
    let found = first_needed-Search last c.generating_targets targets in
    elim (Option-cases (first_needed last c.generating_targets targets)) [
      | inl e ↦ rw (e, get_next_target_for_generation) (refl, rw e at found)
      | inr (t, e) ↦ rw (e, get_next_target_for_generation) (refl, rw e at found)
    ]

abbrev pub is_none : Option ℕ → Bool
is_none none = true
is_none (some t) = false

none_needed-first_needed :
    (last : ℤ) (generating targets : List ℕ)
    → none_needed last generating targets ≡ is_none (first_needed last generating targets)
unfolding none_needed first_needed
none_needed-first_needed last generating [] = refl
none_needed-first_needed last generating (t ∷ ts) =
    elim (Bool-cases (needs_generation last generating t)) [
      | inl e ↦ rw (e, none_needed, first_needed) refl
      | inr e ↦ rw (e, none_needed, first_needed) (none_needed-first_needed last generating ts)
    ]

-- The collection pauses for the generation limits exactly if the search for the next target at the
-- current weight version, with the same `last` and reservations, would find none.
pub should_pause-get_next_target :
    (last : ℤ) (c : Collector)
    → should_pause_for_generation_limits last c
      ≡ is_none (get_next_target_for_generation last c.current_weight_version c).0
unfolding should_pause_for_generation_limits get_next_target_for_generation
should_pause-get_next_target last c =
    let targets = calculate_target_weights c.current_weight_version c in
    none_needed-first_needed last c.generating_targets targets
    ∙ elim (Option-cases (first_needed last c.generating_targets targets)) [
      | inl e ↦ rw (e, get_next_target_for_generation) refl
      | inr (t, e) ↦ rw (e, get_next_target_for_generation) refl
    ]

range_from-bounds : (i n : ℕ) → All (λ t. (i ≤ t) × (t < i + n)) (range_from i n)
range_from-bounds i zero = tt
range_from-bounds i (suc n) = (
  (omega arith, omega arith),
  All-map _ _ (range_from (suc i) n) (λ t h. (omega (arith, h.0), omega (arith, h.1)))
      (range_from-bounds (suc i) n),
)

All-of_map : (P : ℕ → Type 0) (f : ℕ → ℕ) (xs : List ℕ) → All (λ x. P (f x)) xs → All P (map f xs)
All-of_map P f [] h = tt
All-of_map P f (x ∷ xs) h = (h.0, All-of_map P f xs h.1)

-- Every target weight of a generation weight version lies between that version and
-- `max_trajectory_age_steps` later.
pub calculate_target_weights-bounds :
    (version : ℕ) (c : Collector)
    → All (λ t. (version ≤ t) × (t ≤ version + age c)) (calculate_target_weights version c)
unfolding calculate_target_weights
calculate_target_weights-bounds version c =
    elim (Bool-cases (version == c.initial_weight_version)) [
      | inl e ↦
          rw (e, calculate_target_weights)
            (All-map _ _ (range_from c.initial_weight_version (age c + 1))
              (λ t h. (ground arith, ground arith))
              (range_from-bounds c.initial_weight_version (age c + 1)))
      | inr e ↦
          rw (e, calculate_target_weights)
            (All-of_map _ _ (range_from 1 (age c)) (
              All-map _ _ (range_from 1 (age c)) (λ i h. (omega arith, omega (arith, h.1)))
                (range_from-bounds 1 (age c))))
    ]

All-middle : (P : ℕ → Type 0) (before after : List ℕ) (t : ℕ) → All P (before ++ t ∷ after) → P t
All-middle P [] after t h = h.0
All-middle P (u ∷ before) after t h = All-middle P before after t h.1

-- If `_get_next_target_for_generation` reserves a target for a generation weight version, the replay
-- buffer counts a trajectory of that version as valid when the trainer is at the target step, with the
-- same maximal age.
pub get_next_target-in_window :
    (last : ℤ) (version t : ℕ) (c c' : Collector)
    → get_next_target_for_generation last version c ≡ (some t, c')
    → in_window t (age c) version ≡ true
unfolding Reserves
get_next_target-in_window last version t c c' h =
    let (_, (before, after, e, _, _)) =
      subst (Reserves last version c) h (get_next_target-Reserves last version c) in
    let bounds =
      All-middle _ before after t (subst (All _) e (calculate_target_weights-bounds version c)) in
    ground arith
