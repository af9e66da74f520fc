-- ===== src/AsyncGrpo/Buffer/Push.antt =====
-- `push_with_wait_signal`, and what the abstract `sample` hands out.
use nemo_rl_vlm.Prelude.{
  ℕ, zero, suc, ◌≤◌, ◌<◌, List, [], ◌∷◌, ◌++◌, some, Bool, true, false, ◌≡◌, refl, sym, ap, ◌∙◌,
  ◌⊎◌, inl, inr, ltb, leb, arith, Bool-cases, length, All, All-map, All-append, length-append,
  length-map, total-append, ok, leb→le, leb_false→lt, ltb_false→le,
}
use mathlib.Core.List.{map-append}
use nemo_rl_vlm.Prelude.Int.{ℤ, pos, negsuc, max_ℤ, ◌≤ℤ◌}
use nemo_rl_vlm.Prelude.Multiset.{SameItems}
use nemo_rl_vlm.AsyncGrpo.Buffer.{Buffer, success, full, init, push_with_wait_signal}
use nemo_rl_vlm.AsyncGrpo.Buffer.Spec.{
  Entry, is_intended, has_older, count, split, IsValid, spec_sample,
}

seen_more : (t target : ℕ) (last : ℤ) → pos t ≤ℤ last → pos t ≤ℤ max_ℤ last (pos target)
seen_more t target last h = ground arith

seen_self : (target : ℕ) (last : ℤ) → pos target ≤ℤ max_ℤ last (pos target)
seen_self target last = ground arith

module _ {A : Type 0} where
  pub init-IsValid : (max_size : ℤ) {b : Buffer A} → init A max_size ≡ ok b → IsValid b []
  unfolding init
  init-IsValid (pos zero) h = absurd (ground arith)
  init-IsValid (pos (suc n)) {b} h = ground arith
  init-IsValid (negsuc n) h = absurd (ground arith)

  -- On a well-formed buffer, a push is refused with "full" and changes nothing exactly when the buffer
  -- holds its maximal number of entries; else the entry is appended behind all others, the buffer is
  -- well-formed again with the same maximal size, and its last target is the larger of the old and the new one.
  pub push-appends :
      (trajectory : A) (version target : ℕ) (b : Buffer A) (es : List (Entry A))
      → IsValid b es
      → ((b.max_size ≤ length es) × (push_with_wait_signal trajectory version target b ≡ (b, full)))
        ⊎ ((length es < b.max_size)
            × ((push_with_wait_signal trajectory version target b).1 ≡ success)
            × IsValid
                (push_with_wait_signal trajectory version target b).0
                (es ++ (trajectory, version, target) ∷ [])
            × ((push_with_wait_signal trajectory version target b).0.max_size ≡ b.max_size)
            × ((push_with_wait_signal trajectory version target
                  b).0.last_target_weight_already_generated
                ≡ max_ℤ b.last_target_weight_already_generated (pos target)))
  unfolding push_with_wait_signal
  push-appends trajectory version target b es valid =
      let size : length b.trajectories ≡ length es =
        ap length valid.holds.groups ∙ length-map es (λ e. e.0) in
      elim (Bool-cases (leb b.max_size (length b.trajectories))) [
        | inl e ↦ inl (omega (arith, leb→le _ _ e), rw e)
        | inr e ↦
            let room : length es < b.max_size = omega (arith, leb_false→lt _ _ e) in
            inr (
              room,
              rw e refl,
              rw e (record {
                holds = record {
                  groups =
                      ap (λ l. l ++ trajectory ∷ []) valid.holds.groups
                      ∙ sym (map-append (λ e. e.0) es ((trajectory, version, target) ∷ []));
                  versions =
                      ap (λ l. l ++ version ∷ []) valid.holds.versions
                      ∙ sym (map-append (λ e. e.1) es ((trajectory, version, target) ∷ []));
                  targets =
                      ap (λ l. l ++ target ∷ []) valid.holds.targets
                      ∙ sym (map-append (λ e. e.2) es ((trajectory, version, target) ∷ []));
                };
                bounded = omega (arith, length-append {0} es ((trajectory, version, target) ∷ []));
                seen =
                    All-append
                      (λ e. pos e.2 ≤ℤ max_ℤ b.last_target_weight_already_generated (pos target)) es
                      ((trajectory, version, target) ∷ [])
                      (All-map (λ e. pos e.2 ≤ℤ b.last_target_weight_already_generated)
                        (λ e. pos e.2 ≤ℤ max_ℤ b.last_target_weight_already_generated (pos target))
                        es (λ e h. seen_more e.2 target b.last_target_weight_already_generated h)
                        valid.seen)
                      (seen_self target b.last_target_weight_already_generated, tt);
              }),
              rw e refl,
              rw e refl,
            )
      ]

module _ {E : Type 0} (test : E → Bool) where
  split-SameItems :
      (n : ℕ) (es : List E) → SameItems ((split test n es).0 ++ (split test n es).1) es
  split-SameItems n [] f = refl
  split-SameItems zero (e ∷ es) f = refl
  split-SameItems (suc n) (e ∷ es) f = elim (Bool-cases (test e)) [
    | inl p ↦ rw (p, split) (omega (arith, split-SameItems n es f))
    | inr p ↦
        rw (p, split)
          (omega (
            arith,
            split-SameItems (suc n) es f,
            total-append f (split test (suc n) es).0 (split test (suc n) es).1,
            total-append f (split test (suc n) es).0 (e ∷ (split test (suc n) es).1),
          ))
  ]

  split-taken : (n : ℕ) (es : List E) → All (λ e. test e ≡ true) (split test n es).0
  split-taken n [] = tt
  split-taken zero (e ∷ es) = tt
  split-taken (suc n) (e ∷ es) = elim (Bool-cases (test e)) [
    | inl p ↦ rw (p, split) (p, split-taken n es)
    | inr p ↦ rw (p, split) (split-taken (suc n) es)
  ]

  length-split_taken : (n : ℕ) (es : List E) → n ≤ count test es → length (split test n es).0 ≡ n
  length-split_taken zero [] h = refl
  length-split_taken (suc n) [] h = absurd (omega arith)
  length-split_taken zero (e ∷ es) h = refl
  length-split_taken (suc n) (e ∷ es) h = elim (Bool-cases (test e)) [
    | inl p ↦ rw (p, split) (ap suc (length-split_taken n es (ground arith)))
    | inr p ↦ rw (p, split) (length-split_taken (suc n) es (ground arith))
  ]

-- When the specification hands out entries, they are as many as asked for, intended for the step, and with those that
-- stay all the entries; and none was too old.
pub spec_sample-hands_out :
    {A : Type 0} (groups current age : ℕ) (es taken left : List (Entry A))
    → spec_sample groups current age es ≡ ok (some taken, left)
    → (length taken ≡ groups)
      × All (λ e. is_intended current age e ≡ true) taken
      × SameItems (taken ++ left) es
      × (has_older current age es ≡ false)
unfolding spec_sample
spec_sample-hands_out groups current age es taken left h =
    elim (Bool-cases (has_older current age es)) [
      | inl old ↦ absurd (ground arith)
      | inr fresh ↦ elim (Bool-cases (ltb (count (is_intended current age) es) groups)) [
        | inl few ↦ absurd (ground arith)
        | inr enough ↦
            let same : (split (is_intended current age) groups es).0 ≡ taken = ground arith in
            let rest : (split (is_intended current age) groups es).1 ≡ left = ground arith in
            rw (← same, ← rest)
              (
                length-split_taken (is_intended current age) groups es (ltb_false→le _ _ enough),
                split-taken (is_intended current age) groups es,
                split-SameItems (is_intended current age) groups es,
                fresh,
              )
      ]
    ]
