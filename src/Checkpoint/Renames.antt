-- ===== src/Checkpoint/Renames.antt =====
-- What the renames of `finalize_checkpoint` leave under each name.
use nemo_rl_vlm.Prelude.{
  ℕ, ◌≡◌, refl, sym, ap, ◌∙◌, inl, inr, [], ◌∷◌, Option, none, some, Bool, true, false, ok, ◌==◌,
  ◌||◌, Option-cases, if◌then◌else◌, Bool-cases, ==→eq, ==_refl, arith,
}
use nemo_rl_vlm.Checkpoint.{
  Name, tmp_step, step, old_step, same_name, Info, Directory, find, exists, remove, rename,
  move_into_place,
}

same_name→eq : (a b : Name) → same_name a b ≡ true → a ≡ b
same_name→eq (tmp_step n) (tmp_step k) h = ap tmp_step (==→eq n k h)
same_name→eq (step n) (step k) h = ap step (==→eq n k h)
same_name→eq (old_step n) (old_step k) h = ap old_step (==→eq n k h)
same_name→eq (tmp_step n) (step k) h = absurd (ground arith)
same_name→eq (tmp_step n) (old_step k) h = absurd (ground arith)
same_name→eq (step n) (tmp_step k) h = absurd (ground arith)
same_name→eq (step n) (old_step k) h = absurd (ground arith)
same_name→eq (old_step n) (tmp_step k) h = absurd (ground arith)
same_name→eq (old_step n) (step k) h = absurd (ground arith)

same_name_refl : (a : Name) → same_name a a ≡ true
same_name_refl (tmp_step n) = ==_refl n
same_name_refl (step n) = ==_refl n
same_name_refl (old_step n) = ==_refl n

-- Two names that are the same as a third are the same.
same_name-false :
    (a b c : Name) → same_name b c ≡ true → same_name b a ≡ false → same_name a c ≡ false
same_name-false a b c h k = elim (Bool-cases (same_name a c)) [
  | inl e ↦
      let same : a ≡ b = same_name→eq a c e ∙ sym (same_name→eq b c h) in
      absurd (ground (arith, sym k ∙ ap (same_name b) same ∙ same_name_refl b))
  | inr e ↦ e
]

eq_swap : (i j : ℕ) → (i == j) ≡ (j == i)
eq_swap i j = ground arith

-- The lookups after the three operations that replace step_n, and after the one rename that makes it.
replaced :
    {A : Type 0} (n : ℕ) (name : Name) (new gone old here : A)
    → (if same_name (old_step n) name
        then gone
        else (if same_name name (step n)
            then new
            else (if same_name (tmp_step n) name
                then gone
                else (if same_name name (old_step n)
                    then old
                    else (if same_name (step n) name then gone else here)))))
      ≡ (if same_name name (step n)
          then new
          else (if same_name name (tmp_step n) || same_name name (old_step n) then gone else here))
replaced n (tmp_step j) new gone old here =
    rw (eq_swap n j) (elim (Bool-cases (j == n)) [ inl e ↦ rw e refl | inr e ↦ rw e refl ])
replaced n (step j) new gone old here =
    rw (eq_swap n j) (elim (Bool-cases (j == n)) [ inl e ↦ rw e refl | inr e ↦ rw e refl ])
replaced n (old_step j) new gone old here =
    rw (eq_swap n j) (elim (Bool-cases (j == n)) [ inl e ↦ rw e refl | inr e ↦ rw e refl ])

placed :
    {A : Type 0} (n : ℕ) (name : Name) (new gone here : A)
    → (name ≡ old_step n → here ≡ gone)
    → (if same_name name (step n)
        then new
        else (if same_name (tmp_step n) name then gone else here))
      ≡ (if same_name name (step n)
          then new
          else (if same_name name (tmp_step n) || same_name name (old_step n) then gone else here))
placed n (tmp_step j) new gone here h =
    rw (eq_swap n j) (elim (Bool-cases (j == n)) [ inl e ↦ rw e refl | inr e ↦ rw e refl ])
placed n (step j) new gone here h = refl
placed n (old_step j) new gone here h = elim (Bool-cases (j == n)) [
  | inl e ↦ rw e (h (ap old_step (==→eq j n e)))
  | inr e ↦ rw e refl
]

module _ {M : Type 0} where
  find-remove_name :
      (a b : Name) (dir : Directory M)
      → find a (remove b dir) ≡ (if same_name b a then none else find a dir)
  unfolding find remove
  find-remove_name a b [] = elim (Bool-cases (same_name b a)) [
    | inl e ↦ rw e refl
    | inr e ↦ rw e refl
  ]
  find-remove_name a b ((other, info) ∷ dir) = elim (Bool-cases (same_name b other)) [
    | inl e ↦ elim (Bool-cases (same_name b a)) [
      | inl e' ↦ rw (e, e', remove, find) (find-remove_name a b dir ∙ rw e' refl)
      | inr e' ↦
          let other_name = same_name-false a b other e e' in
          rw (e, e', other_name, remove, find) (find-remove_name a b dir ∙ rw e' refl)
    ]
    | inr e ↦ elim (Bool-cases (same_name a other)) [
      | inl e' ↦
          let kept : same_name b a ≡ false = ap (same_name b) (same_name→eq a other e') ∙ e in
          rw (e, e', kept, remove, find) refl
      | inr e' ↦ rw (e, e', remove, find) (find-remove_name a b dir)
    ]
  ]

  -- After a rename that succeeds.
  find-rename :
      (a b : Name) (dir : Directory M) (info : Option (Info M))
      → find a dir ≡ some info
      → exists b dir ≡ false
      → (dir' : Directory M) × (rename a b dir ≡ ok dir')
        × ((c : Name)
            → find c dir'
              ≡ (if same_name c b then some info else (if same_name a c then none else find c dir)))
  unfolding rename find
  find-rename a b dir info h k = (
    (b, info) ∷ remove a dir,
    rw (h, k, rename) refl,
    λ c. ap (λ o. if same_name c b then some info else o) (find-remove_name c a dir),
  )

  exists_found :
      (a : Name) (dir : Directory M) (info : Option (Info M))
      → find a dir ≡ some info
      → exists a dir ≡ true
  unfolding exists
  exists_found a dir info h = rw (h, exists) refl

  exists_none : (a : Name) (dir : Directory M) → find a dir ≡ none → exists a dir ≡ false
  unfolding exists
  exists_none a dir h = rw (h, exists) refl

  exists_some :
      (a : Name) (dir : Directory M)
      → exists a dir ≡ true
      → (info : Option (Info M)) × (find a dir ≡ some info)
  unfolding exists
  exists_some a dir h = elim (Option-cases (find a dir)) [
    | inl e ↦ absurd (ground (arith, sym (exists_none a dir e) ∙ h))
    | inr found ↦ found
  ]

  -- If tmp_step_n is in the directory and old_step_n is not, the renames of `finalize_checkpoint`
  -- succeed: step_n then holds what tmp_step_n held, whether or not there was a step_n before,
  -- tmp_step_n and old_step_n are gone, and every other name holds what it held.
  pub move_into_place-find :
      (lt : M → M → Bool) (n : ℕ) (dir : Directory M) (info : Option (Info M))
      → find (tmp_step n) dir ≡ some info
      → find (old_step n) dir ≡ none
      → (dir' : Directory M) × (move_into_place lt n dir ≡ ok dir')
        × ((name : Name)
            → find name dir' ≡ (
                if same_name name (step n)
                then some info
                else (if same_name name (tmp_step n) || same_name name (old_step n)
                    then none
                    else find name dir)))
  unfolding move_into_place
  move_into_place-find lt n dir info h k = elim (Bool-cases (exists (step n) dir)) [
    | inl e ↦
        let (info0, found) = exists_some (step n) dir e in
        let (dir1, run1, find1) =
          find-rename (step n) (old_step n) dir info0 found (exists_none (old_step n) dir k) in
        let (dir2, run2, find2) =
          find-rename (tmp_step n) (step n) dir1 info (find1 (tmp_step n) ∙ h) (
            exists_none (step n) dir1
              (find1 (step n) ∙ ap (λ t. if t then none else find (step n) dir) (==_refl n))) in
        let left : exists (old_step n) dir2 ≡ true = exists_found (old_step n) dir2 info0 (
          find2 (old_step n)
          ∙ find1 (old_step n)
          ∙ ap (λ t. if t then some info0 else find (old_step n) dir) (==_refl n)) in
        (
          remove (old_step n) dir2,
          rw (e, run1, run2, left, move_into_place) refl,
          λ name.
              find-remove_name name (old_step n) dir2
              ∙ ap (λ o. if same_name (old_step n) name then none else o)
                  (find2 name
                    ∙ ap
                        (λ o.
                          if same_name name (step n)
                          then some info
                          else (if same_name (tmp_step n) name then none else o))
                        (find1 name))
              ∙ replaced n name (some info) none (some info0) (find name dir),
        )
    | inr e ↦
        let (dir', run, find') = find-rename (tmp_step n) (step n) dir info h e in
        (
          dir',
          rw (e, move_into_place) run,
          λ name.
              find' name
              ∙ placed n name (some info) none (find name dir)
                  (λ same. ap (λ x. find x dir) same ∙ k),
        )
  ]
