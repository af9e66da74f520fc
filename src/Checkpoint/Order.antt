-- ===== src/Checkpoint/Order.antt =====
-- The order of the retention is a total preorder, if the comparison of metric values is a strict weak
-- order.
use nemo_rl_vlm.Prelude.{
  ℕ, ◌≡◌, refl, inl, inr, Option, none, some, Bool, true, false, not, ◌&&◌, ◌||◌, leb, Bool-cases,
  arith,
}
use nemo_rl_vlm.Checkpoint.{Checkpoint, Manager, better, value, precedes}

either_first :
    (a b : Bool) (i j : ℕ) → (a || (not b && leb j i)) ≡ false → (b || (not a && leb i j)) ≡ true
either_first true b i j h = absurd (ground arith)
either_first false true i j h = refl
either_first false false i j h = ground arith

second_false : (a b c : Bool) → (a ≡ true → b ≡ false) → (a || (not b && c)) ≡ true → b ≡ false
second_false true b c h k = h refl
second_false false true c h k = absurd (ground arith)
second_false false false c h k = refl

last_true : (a b c : Bool) → (a || (not b && c)) ≡ true → a ≡ false → c ≡ true
last_true true b c h e = absurd (ground arith)
last_true false true c h e = absurd (ground arith)
last_true false false c h e = h

module _ {M : Type 0} (lt : M → M → Bool) (asym : (a b : M) → lt a b ≡ true → lt b a ≡ false)
    (between : (a b c : M) → lt a b ≡ false → lt b c ≡ false → lt a c ≡ false) where
  pub better-asym :
      (higher : Bool) (a b : Option M) → better lt higher a b ≡ true → better lt higher b a ≡ false
  better-asym true (some a) (some b) h = asym b a h
  better-asym false (some a) (some b) h = asym a b h
  better-asym higher (some a) none h = refl
  better-asym higher none b h = absurd (ground arith)

  pub better-between :
      (higher : Bool) (a b c : Option M)
      → better lt higher a b ≡ false
      → better lt higher b c ≡ false
      → better lt higher a c ≡ false
  better-between true (some a) (some b) (some c) h k = between c b a k h
  better-between false (some a) (some b) (some c) h k = between a b c h k
  better-between higher (some a) (some b) none h k = absurd (ground arith)
  better-between higher (some a) none c h k = absurd (ground arith)
  better-between higher none b c h k = refl

  module _ (m : Manager) where
    pub precedes-linear :
        (x y : Checkpoint M) → precedes lt m x y ≡ false → precedes lt m y x ≡ true
    unfolding precedes
    precedes-linear x y h =
        either_first
          (better lt m.higher_is_better (value lt m.metric_name x) (value lt m.metric_name y))
          (better lt m.higher_is_better (value lt m.metric_name y) (value lt m.metric_name x))
          x.step_number y.step_number h

    not_better :
        (x y : Checkpoint M)
        → precedes lt m x y ≡ true
        → better lt m.higher_is_better (value lt m.metric_name y) (value lt m.metric_name x) ≡ false
    unfolding precedes
    not_better x y h =
        second_false
          (better lt m.higher_is_better (value lt m.metric_name x) (value lt m.metric_name y)) _ _
          (better-asym m.higher_is_better _ _) h

    pub precedes_trans :
        (x y z : Checkpoint M)
        → precedes lt m x y ≡ true
        → precedes lt m y z ≡ true
        → precedes lt m x z ≡ true
    unfolding precedes
    precedes_trans x y z h k =
        let wins = λ (a b : Checkpoint M).
          better lt m.higher_is_better (value lt m.metric_name a) (value lt m.metric_name b) in
        let yx = not_better x y h in
        let zy = not_better y z k in
        let zx : wins z x ≡ false = better-between m.higher_is_better _ _ _ zy yx in
        elim (Bool-cases (wins x z)) [
          | inl e ↦ rw (e, precedes) refl
          | inr e ↦
              let xy : wins x y ≡ false = better-between m.higher_is_better _ _ _ e zy in
              let yz : wins y z ≡ false = better-between m.higher_is_better _ _ _ yx e in
              let ge_xy = last_true (wins x y) (wins y x) (leb y.step_number x.step_number) h xy in
              let ge_yz = last_true (wins y z) (wins z y) (leb z.step_number y.step_number) k yz in
              let ge_xz : leb z.step_number x.step_number ≡ true = ground arith in
              rw (e, zx, precedes) ge_xz
        ]
