-- ===== src/Checkpoint/Removal.antt =====
-- What the removals of `remove_old_checkpoints` leave of each step.
use nemo_rl_vlm.Prelude.{
  ℕ, ◌+◌, ◌<◌, ◌≡◌, refl, ap, ◌∙◌, subst, inl, inr, List, [], ◌∷◌, Option, none, some, Bool, true,
  false, not, ◌&&◌, ltb, ==_refl, All-map, ◌==◌, if◌then◌else◌, total, All, Bool-cases, ==→eq,
  arith,
}
use nemo_rl_vlm.Checkpoint.{
  step, tmp_step, old_step, Directory, Checkpoint, find, remove, remove_all,
}

-- How often a step is among some checkpoints.
abbrev pub occurs : {M : Type 0} → ℕ → List (Checkpoint M) → ℕ
occurs n = total (λ c. if c.step_number == n then 1 else 0)

pub All-occurs : {M : Type 0} (cs : List (Checkpoint M)) → All (λ c. 0 < occurs c.step_number cs) cs
All-occurs [] = tt
All-occurs (c ∷ cs) = (
  rw (==_refl c.step_number) (omega arith),
  All-map _ _ cs (λ d h. omega (arith, h)) (All-occurs cs),
)

hidden :
    {A : Type 0} (k n i : ℕ) (info : A) (rest : Option A)
    → (k == i) ≡ true
    → (if k == n then none else rest)
      ≡ (if k == n then none else (if n == i then some info else rest))
hidden k n i info rest e = elim (Bool-cases (k == n)) [
  | inl e' ↦ rw e' refl
  | inr e' ↦ let other : n == i ≡ false = ground arith in rw (e', other) refl
]

find-remove :
    {M : Type 0} (n k : ℕ) (dir : Directory M)
    → find (step n) (remove (step k) dir) ≡ (if k == n then none else find (step n) dir)
unfolding find remove
find-remove n k [] = elim (Bool-cases (k == n)) [ inl e ↦ rw e refl | inr e ↦ rw e refl ]
find-remove n k ((step i, info) ∷ dir) = elim (Bool-cases (k == i)) [
  | inl e ↦ rw (e, remove) (find-remove n k dir ∙ hidden k n i info (find (step n) dir) e)
  | inr e ↦ elim (Bool-cases (n == i)) [
    | inl e' ↦ let other : k == n ≡ false = ground arith in rw (e, e', other, remove, find) refl
    | inr e' ↦ rw (e, e', remove, find) (find-remove n k dir)
  ]
]
find-remove n k ((tmp_step i, info) ∷ dir) = find-remove n k dir
find-remove n k ((old_step i, info) ∷ dir) = find-remove n k dir

-- What one round of the removals adds to the condition that a step is gone, in the two cases.
spared :
    {A : Type 0} (exclude : Bool) (k n latest more : ℕ) (gone here : A)
    → (exclude && k == latest) ≡ true
    → (if ltb 0 more && not (exclude && n == latest) then gone else here) ≡ (
        if ltb 0 ((if k == n then 1 else 0) + more) && not (exclude && n == latest)
        then gone
        else here)
spared false k n latest more gone here e = absurd (ground arith)
spared true k n latest more gone here e = elim (Bool-cases (n == latest)) [
  | inl e' ↦ rw (e') (elim (Bool-cases (k == n)) [
    | inl e'' ↦ rw e'' (ground arith)
    | inr e'' ↦ rw e'' (ground arith)
  ])
  | inr e' ↦ let other : k == n ≡ false = ground arith in rw (e', other) (ground arith)
]

removed :
    {A : Type 0} (exclude : Bool) (k n latest more : ℕ) (gone here : A)
    → (exclude && k == latest) ≡ false
    → (if ltb 0 more && not (exclude && n == latest) then gone else (if k == n then gone else here))
      ≡ (if ltb 0 ((if k == n then 1 else 0) + more) && not (exclude && n == latest)
          then gone
          else here)
removed exclude k n latest more gone here e = elim (Bool-cases (k == n)) [
  | inl e' ↦
      let same : k ≡ n = ==→eq k n e' in
      let spare : (exclude && n == latest) ≡ false =
        subst (λ x. (exclude && x == latest) ≡ false) same e in
      rw (e', spare) (ground arith)
  | inr e' ↦ rw e' (ground arith)
]

-- After the removals a step is there as before, unless it is among those removed.
pub find-remove_all :
    {M : Type 0} (lt : M → M → Bool) (exclude : Bool) (latest n : ℕ) (cs : List (Checkpoint M))
    (dir : Directory M)
    → find (step n) (remove_all lt exclude latest cs dir)
      ≡ (if ltb 0 (occurs n cs) && not (exclude && n == latest) then none else find (step n) dir)
unfolding remove_all
find-remove_all {M} lt exclude latest n [] dir = refl
find-remove_all {M} lt exclude latest n (c ∷ cs) dir =
    elim (Bool-cases (exclude && c.step_number == latest)) [
      | inl e ↦
          rw (e, remove_all)
            (find-remove_all lt exclude latest n cs dir
              ∙ spared exclude c.step_number n latest (occurs n cs) none (find (step n) dir) e)
      | inr e ↦
          rw (e, remove_all)
            (find-remove_all lt exclude latest n cs (remove (step c.step_number) dir)
              ∙ ap (λ o. if ltb 0 (occurs n cs) && not (exclude && n == latest) then none else o)
                  (find-remove n c.step_number dir)
              ∙ removed exclude c.step_number n latest (occurs n cs) none (find (step n) dir) e)
    ]
