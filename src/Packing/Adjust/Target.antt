-- ===== src/Packing/Adjust/Target.antt =====
-- The number of bins that `_adjust_bin_count` aims at.
use native.Mathlib.Nat.{mod-lt, div-add-mod, mul-mod_right, mul-le-mul_left}
use nemo_rl_vlm.Prelude.{
  ℕ, ◌+◌, ◌-◌, ◌*◌, ◌/◌, ◌%◌, ◌≤◌, ◌<◌, ◌≡◌, ◌≢◌, ap, ◌∙◌, ltb, refl, inl, inr, none, some, Option,
  arith, Bool-cases, ltb→lt, ltb_false→le, ==→eq, ==_false→ne, ◌==◌,
}
use nemo_rl_vlm.Packing.Base.{Packer, IsValid}
use nemo_rl_vlm.Packing.Adjust.{at_least, round_up, target_bin_count}

abbrev pub LeOption : Option ℕ → ℕ → Type 0
LeOption none n = Unit
LeOption (some least) n = least ≤ n

abbrev pub DividesOption : Option ℕ → ℕ → Type 0
DividesOption none n = Unit
DividesOption (some k) n = n % k ≡ 0

-- `m` bins are as many as there are now or more, and satisfy both constraints.
pub record Allowed (p : Packer) (current m : ℕ) : Type 0 where
  pub grows : current ≤ m
  pub least : LeOption p.min_bin_count m
  pub multiple : DividesOption p.bin_count_multiple m

next_multiple : (n k : ℕ) → 0 < k → n % k ≢ 0 → (n + (k - n % k)) % k ≡ 0
next_multiple n k pos off =
    ap (λ (t : ℕ). t % k)
      (let e : n + (k - n % k) ≡ k * (n / k + 1) = omega (arith, div-add-mod n k, mod-lt n pos) in
        e)
    ∙ mul-mod_right k (n / k + 1)

next_multiple_least : (n k m : ℕ) → 0 < k → n ≤ m → m % k ≡ 0 → n % k ≢ 0 → n + (k - n % k) ≤ m
next_multiple_least n k m pos le dvd off = elim (Bool-cases (ltb (n / k) (m / k))) [
  | inl e ↦
      let above : k * (n / k + 1) ≤ k * (m / k) = mul-le-mul_left k (omega (arith, ltb→lt _ _ e)) in
      omega (arith, div-add-mod n k, div-add-mod m k, mod-lt n pos)
  | inr e ↦
      let below : k * (m / k) ≤ k * (n / k) = mul-le-mul_left k (ltb_false→le _ _ e) in
      absurd (omega (arith, div-add-mod n k, div-add-mod m k))
]

round_up-Allowed :
    (multiple : Option ℕ) (n : ℕ)
    → ((k : ℕ) → multiple ≡ some k → 0 < k)
    → (n ≤ round_up multiple n) × DividesOption multiple (round_up multiple n)
round_up-Allowed none n h = (omega arith, tt)
round_up-Allowed (some k) n h = elim (Bool-cases (n % k == 0)) [
  | inl e ↦ rw e (omega arith, ==→eq _ _ e)
  | inr e ↦ rw e (omega arith, next_multiple n k (h k refl) (==_false→ne _ _ e))
]

round_up_least :
    (multiple : Option ℕ) (n m : ℕ)
    → ((k : ℕ) → multiple ≡ some k → 0 < k)
    → n ≤ m
    → DividesOption multiple m
    → round_up multiple n ≤ m
round_up_least none n m h le dvd = le
round_up_least (some k) n m h le dvd = elim (Bool-cases (n % k == 0)) [
  | inl e ↦ rw e le
  | inr e ↦ rw e (next_multiple_least n k m (h k refl) le dvd (==_false→ne _ _ e))
]

at_least_bounds :
    (least : Option ℕ) (n : ℕ) → (n ≤ at_least least n) × LeOption least (at_least least n)
at_least_bounds none n = (omega arith, tt)
at_least_bounds (some least) n = (omega arith, omega arith)

LeOption-trans : (least : Option ℕ) (n m : ℕ) → LeOption least n → n ≤ m → LeOption least m
LeOption-trans none n m h le = tt
LeOption-trans (some least) n m h le = omega arith

at_least_least : (least : Option ℕ) (n m : ℕ) → n ≤ m → LeOption least m → at_least least n ≤ m
at_least_least none n m le h = le
at_least_least (some least) n m le h = omega arith

module _ (p : Packer) (valid : IsValid p) (current : ℕ) where
  -- The target is an allowed number of bins.
  pub target_bin_count-Allowed : Allowed p current (target_bin_count p current)
  unfolding target_bin_count
  target_bin_count-Allowed =
      let (grows, least) = at_least_bounds p.min_bin_count current in
      let (rounds, multiple) =
        round_up-Allowed p.bin_count_multiple (at_least p.min_bin_count current)
          valid.multiple_pos in
      record {
        grows = omega arith;
        least = LeOption-trans p.min_bin_count _ _ least rounds;
        multiple = multiple;
      }

  -- No allowed number of bins is smaller.
  pub target_bin_count-le : (m : ℕ) → Allowed p current m → target_bin_count p current ≤ m
  unfolding target_bin_count
  target_bin_count-le m h =
      round_up_least p.bin_count_multiple (at_least p.min_bin_count current) m valid.multiple_pos
        (at_least_least p.min_bin_count current m h.grows h.least) h.multiple
