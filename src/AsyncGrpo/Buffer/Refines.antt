-- ===== src/AsyncGrpo/Buffer/Refines.antt =====
-- `sample` implements its specification.
use nemo_rl_vlm.Prelude.{
  ℕ, zero, suc, ◌-◌, ◌≤◌, ◌<◌, List, [], ◌∷◌, map, none, some, ◌≡◌, refl, ap, ◌∙◌, inl, inr, ltb,
  leb, if◌then◌else◌, arith, Bool-cases, length, get_elem?, take, ok, raise, value_error,
  ltb_false→le, ltb→lt, lt→ltb, leb→le,
}
use nemo_rl_vlm.Prelude.Sort.{sort}
use nemo_rl_vlm.AsyncGrpo.Buffer.{
  Buffer, any, pop_each, pick, ge, valid_indices, intended_indices, consume, sample,
}
use nemo_rl_vlm.AsyncGrpo.Buffer.Spec.{Entry, has_older, count, IsValid, spec_sample, Agrees}
use nemo_rl_vlm.AsyncGrpo.Buffer.Pops.{chosen, take-positions, pick-chosen}
use nemo_rl_vlm.AsyncGrpo.Buffer.Laws.{
  wanted, any-has_older, intended-positions, length-intended-le, length-intended, popped-IsValid,
}

consume_lem :
    {A : Type 0} (is : List ℕ) (b : Buffer A)
    → 0 < length is
    → consume is b
      ≡ ok (
        record b {
          trajectories = pop_each (sort ge is) b.trajectories;
          trajectory_versions = pop_each (sort ge is) b.trajectory_versions;
          target_weight_versions = pop_each (sort ge is) b.target_weight_versions;
        },
        some (record {
          items = pick is b.trajectories;
          sampled_weights = pick is b.trajectory_versions;
        }),
      )
unfolding consume
consume_lem [] b h = elim h [ ]
consume_lem (i ∷ is) b h = refl

length-take-le : (n : ℕ) (is : List ℕ) → n ≤ length is → length (take n is) ≡ n
length-take-le zero is h = refl
length-take-le (suc n) [] h = absurd (omega arith)
length-take-le (suc n) (i ∷ is) h = omega (arith, length-take-le n is)

-- The three tests on the numbers of valid and of intended groups.
module _ {R : Type 0} (valid intended groups : ℕ) (wait : R) (go : R)
    (fewer : intended ≤ valid) where
  waits :
      intended < groups
      → (if leb valid 0
          then wait
          else if ltb valid groups
          then wait
          else if ltb intended groups
          then wait
          else go)
        ≡ wait
  waits h = ground arith

  goes :
      0 < groups
      → groups ≤ intended
      → (if leb valid 0
          then wait
          else if ltb valid groups
          then wait
          else if ltb intended groups
          then wait
          else go)
        ≡ go
  goes some_group h = ground arith

module _ {A : Type 0} (current age groups : ℕ) (some_group : 0 < groups) (b : Buffer A) where
  -- The tests of `sample` on a buffer that is not empty.
  sample_tests :
      (es : List (Entry A))
      → IsValid b es
      → Agrees b
          (if any (λ v. ltb v (current - age)) b.trajectory_versions
            then raise value_error
            else let valid = valid_indices current age b in
              if leb (length valid) 0
              then ok (b, none)
              else if ltb (length valid) groups
              then ok (b, none)
              else let intended = intended_indices current age b in
                if ltb (length intended) groups
                then ok (b, none)
                else consume (take groups intended) b)
          (spec_sample groups current age es)
  unfolding spec_sample
  sample_tests es valid =
      let older : any (λ v. ltb v (current - age)) b.trajectory_versions
          ≡ has_older current age es =
        ap (any (λ v. ltb v (current - age))) valid.holds.versions ∙ any-has_older current age es in
      let size : length (intended_indices current age b) ≡ count (wanted {A = A} current age) es =
        length-intended current age b es valid in
      let fewer = length-intended-le current age b es valid in
      elim (Bool-cases (has_older current age es)) [
        | inl old ↦ rw (older, old) refl
        | inr fresh ↦
            rw (older, fresh)
              (elim (Bool-cases (ltb (count (wanted {A = A} current age) es) groups)) [
                | inl few ↦
                    rw
                      (
                        few,
                        waits (length (valid_indices current age b))
                            (length (intended_indices current age b)) groups (ok (b, none))
                            (consume (take groups (intended_indices current age b)) b) fewer
                            (omega (arith, ltb→lt _ _ few)),
                      )
                      (refl, valid)
                | inr enough ↦
                    let selected : take groups (intended_indices current age b)
                        ≡ chosen (wanted {A = A} current age) groups 0 es =
                      ap (take groups) (intended-positions current age b es valid)
                      ∙ take-positions (wanted {A = A} current age) groups 0 es in
                    let many : 0 < length (take groups (intended_indices current age b)) = omega (
                      arith,
                      length-take-le groups (intended_indices current age b)
                          (omega (arith, ltb_false→le _ _ enough)),
                    ) in
                    rw
                      (
                        enough,
                        goes (length (valid_indices current age b))
                            (length (intended_indices current age b)) groups (ok (b, none))
                            (consume (take groups (intended_indices current age b)) b) fewer
                            some_group (omega (arith, ltb_false→le _ _ enough)),
                        consume_lem (take groups (intended_indices current age b)) b many,
                        selected,
                      )
                      (
                        pick-chosen (wanted {A = A} current age) (λ e. e.0) groups 0 es
                            b.trajectories
                            (λ j k s.
                              let s' : k ≡ j = omega arith in
                              ap (λ l. get_elem? l k) valid.holds.groups
                              ∙ ap (get_elem? (map (λ (e : Entry A). e.0) es)) s'),
                        pick-chosen (wanted {A = A} current age) (λ e. e.1) groups 0 es
                            b.trajectory_versions
                            (λ j k s.
                              let s' : k ≡ j = omega arith in
                              ap (λ l. get_elem? l k) valid.holds.versions
                              ∙ ap (get_elem? (map (λ (e : Entry A). e.1) es)) s'),
                        popped-IsValid current age b es valid groups,
                        refl,
                      )
              ])
      ]

  empty-Agrees :
      (es : List (Entry A))
      → IsValid b es
      → length b.trajectories ≤ 0
      → Agrees b (ok (b, none)) (spec_sample groups current age es)
  unfolding spec_sample
  empty-Agrees [] valid h = rw (lt→ltb 0 groups some_group) (refl, valid)
  empty-Agrees (e ∷ es) valid h = absurd (omega (arith, ap length valid.holds.groups))

  -- For a positive number of groups and a well-formed buffer with the entries `es`, `sample` answers as
  -- the specification does on `es`: ValueError if an entry is older than the window; else nothing,
  -- and an unchanged buffer, if fewer than `groups` entries are generated within the window and meant
  -- for the current step; else the first `groups` of these with their versions, and a well-formed
  -- buffer of all the other entries in their order, with the same maximal size.
  pub sample-refines :
      (es : List (Entry A))
      → IsValid b es
      → Agrees b (sample groups current age b) (spec_sample groups current age es)
  unfolding sample
  sample-refines es valid = elim (Bool-cases (leb (length b.trajectories) 0)) [
    | inl empty ↦ rw empty (empty-Agrees es valid (leb→le _ _ empty))
    | inr some_entry ↦ rw some_entry (sample_tests es valid)
  ]
