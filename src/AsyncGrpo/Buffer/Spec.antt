-- ===== src/AsyncGrpo/Buffer/Spec.antt =====
-- The replay buffer as one list of entries, and what `sample` promises of it.
use nemo_rl_vlm.Prelude.{
  ℕ, zero, suc, ◌-◌, ◌≤◌, List, [], ◌∷◌, map, Bool, ◌&&◌, ◌||◌, false, ltb, ◌==◌, ◌≡◌,
  if◌then◌else◌, length, total, All, Option, none, some, Result, ok, raise, value_error,
}
use nemo_rl_vlm.Prelude.Int.{pos, ◌≤ℤ◌}
use nemo_rl_vlm.AsyncGrpo.Buffer.{Buffer, Sampled, in_window}

-- A group with its generation version and its target version.
abbrev pub Entry : Type 0 → Type 0
Entry A = A × ℕ × ℕ

-- The entry was generated within the age window and is meant for the current step.
abbrev pub is_intended {ℓ} : {A : Type ℓ} → ℕ → ℕ → A × ℕ × ℕ → Bool
is_intended current age e = in_window current age e.1 && e.2 == current

-- Some entry is older than the window allows.
abbrev pub has_older {ℓ} : {A : Type ℓ} → ℕ → ℕ → List (A × ℕ × ℕ) → Bool
has_older current age [] = false
has_older current age (e ∷ es) = ltb e.1 (current - age) || has_older current age es

abbrev pub count {ℓ} : {A : Type ℓ} → (A → Bool) → List A → ℕ
count test = total (λ e. if test e then 1 else 0)

-- The first `n` items that pass the test, in order, and all the others, in order.
abbrev pub split {ℓ} : {A : Type ℓ} → (A → Bool) → ℕ → List A → List A × List A
split test n [] = ([], [])
split test zero (e ∷ es) = ([], e ∷ es)
split test (suc n) (e ∷ es) =
    if test e
    then (e ∷ (split test n es).0, (split test n es).1)
    else ((split test (suc n) es).0, e ∷ (split test (suc n) es).1)

module _ {A : Type 0} where
  -- The three lists of the buffer are the columns of its entries.
  pub record Holds (b : Buffer A) (es : List (Entry A)) : Type 0 where
    pub groups : b.trajectories ≡ map (λ e. e.0) es
    pub versions : b.trajectory_versions ≡ map (λ e. e.1) es
    pub targets : b.target_weight_versions ≡ map (λ e. e.2) es

  -- Well-formed: three columns, no more than fit, and no target above the last one seen.
  pub record IsValid (b : Buffer A) (es : List (Entry A)) : Type 0 where
    pub holds : Holds b es
    pub bounded : length es ≤ b.max_size
    pub seen : All (λ e. pos e.2 ≤ℤ b.last_target_weight_already_generated) es

-- The abstract `sample`: the groups that are handed out, if any, and the entries that stay.
unfoldable pub spec_sample {ℓ} :
    {A : Type ℓ}
    → ℕ
    → ℕ
    → ℕ
    → List (A × ℕ × ℕ)
    → Result (Option (List (A × ℕ × ℕ)) × List (A × ℕ × ℕ))
spec_sample groups current age es =
    if has_older current age es
    then raise value_error
    else if ltb (count (is_intended current age) es) groups
    then ok (none, es)
    else ok (
      some (split (is_intended current age) groups es).0,
      (split (is_intended current age) groups es).1,
    )

-- The buffer's answer is the abstract one: the same error; or nothing, and the buffer unchanged; or
-- the groups handed out with their versions, and a well-formed buffer of the entries that stay.
module _ {A : Type 0} where
  abbrev pub Agrees :
      Buffer A
      → Result (Buffer A × Option (Sampled A))
      → Result (Option (List (Entry A)) × List (Entry A))
      → Type 0
  Agrees b (raise e) (raise e') = e ≡ e'
  Agrees b (raise e) (ok r) = ⊥
  Agrees b (ok r) (raise e) = ⊥
  Agrees b (ok (b', none)) (ok (none, left)) = (b' ≡ b) × IsValid b' left
  Agrees b (ok (b', none)) (ok (some taken, left)) = ⊥
  Agrees b (ok (b', some s)) (ok (none, left)) = ⊥
  Agrees b (ok (b', some s)) (ok (some taken, left)) =
      (s.items ≡ map (λ e. e.0) taken)
      × (s.sampled_weights ≡ map (λ e. e.1) taken)
      × IsValid b' left
      × (b'.max_size ≡ b.max_size)
