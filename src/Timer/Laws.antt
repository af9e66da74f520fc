-- ===== src/Timer/Laws.antt =====
-- A start and a stop of a timer, and when the timeout asks for a save.
use nemo_rl_vlm.Prelude.{
  ℕ, ◌+◌, ◌-◌, ◌≤◌, ◌≡◌, refl, sym, ap, ◌∙◌, subst, inl, inr, List, [], ◌∷◌, ◌++◌, none, some, true,
  false, ◌&&◌, ok, raise, ok_inj, ==_refl, if◌then◌else◌, Bool-cases, Option-cases, arith,
}
use nemo_rl_vlm.Timer.{
  Label, same_label, lookup, delete, store, Timer, start, stop, measured, TimeoutChecker,
  check_save, start_iterations, mark_iteration, next_reaches, reached,
}

same_label_refl : (l : Label) → same_label l l ≡ true
same_label_refl [] = refl
same_label_refl (c ∷ cs) = rw (==_refl c, same_label_refl cs) refl

module _ {A : Type 0} (l : Label) where
  lookup-store : (v : A) (d : List (Label × A)) → lookup l (store l v d) ≡ some v
  unfolding lookup store
  lookup-store v [] = rw (same_label_refl l) refl
  lookup-store v ((k, a) ∷ d) = elim (Bool-cases (same_label l k)) [
    | inl e ↦ rw (e, store, lookup) (rw e refl)
    | inr e ↦ rw (e, store, lookup) (rw e (lookup-store v d))
  ]

  lookup-delete : (d : List (Label × A)) → lookup l (delete l d) ≡ none
  unfolding lookup delete
  lookup-delete [] = refl
  lookup-delete ((k, a) ∷ d) = elim (Bool-cases (same_label l k)) [
    | inl e ↦ rw (e, delete, lookup) (lookup-delete d)
    | inr e ↦ rw (e, delete, lookup) (rw e (lookup-delete d))
  ]

-- A label that was started at `now` can be stopped at `later`: the stop returns the time between them and
-- puts it behind the measurements that the label had, and the label is no longer running.
pub stop-start :
    (label : Label) (now later : ℕ) (t t' : Timer)
    → start now label t ≡ ok t'
    → (t'' : Timer) × (stop later label t' ≡ ok (t'', later - now))
      × (lookup label t''.start_times ≡ none)
      × (lookup label t''.timers ≡ some (measured (lookup label t.timers) ++ (later - now) ∷ []))
unfolding start stop
stop-start label now later t t' h = elim (Option-cases (lookup label t.start_times)) [
  | inl e ↦
      let running = record t { start_times = store label now t.start_times } in
      let same : running ≡ t' = ok_inj (rw (e, start) at h) in
      let found = lookup-store label now t.start_times in
      subst
        (λ s.
          (t'' : Timer) × (stop later label s ≡ ok (t'', later - now))
          × (lookup label t''.start_times ≡ none)
          × (lookup label t''.timers
              ≡ some (measured (lookup label t.timers) ++ (later - now) ∷ [])))
        same
        (
          record running {
            timers = store label (measured (lookup label t.timers) ++ (later - now) ∷ []) t.timers;
            start_times = delete label running.start_times;
          },
          rw (found, stop) refl,
          lookup-delete label running.start_times,
          lookup-store label _ t.timers,
        )
  | inr (started, e) ↦ absurd (ground (arith, rw (e, start) at h))
]

-- The calls of a training loop, each at its time.
pub data Event : Type 0 where
  check begin mark : ℕ → Event

-- The checker afterwards; a call that raises leaves it as it is.
abbrev pub after : Event → TimeoutChecker → TimeoutChecker
after (check now) t = (check_save now t).1
after (begin now) t = start_iterations now t
after (mark now) t = elim (mark_iteration now t) [ ok t' ↦ t' | raise e ↦ t ]

-- How many of the checks ask for a save.
abbrev pub saves : List Event → TimeoutChecker → ℕ
saves [] t = 0
saves (check now ∷ events) t =
    (if (check_save now t).0 then 1 else 0) + saves events (after (check now) t)
saves (begin now ∷ events) t = saves events (after (begin now) t)
saves (mark now ∷ events) t = saves events (after (mark now) t)

mark-last_saved : (now : ℕ) (t : TimeoutChecker) → (after (mark now) t).last_saved ≡ t.last_saved
unfolding mark_iteration
mark-last_saved now t = elim (Option-cases t.previous_iteration_time) [
  | inl e ↦ rw (e, mark_iteration) refl
  | inr (previous, e) ↦ rw (e, mark_iteration) refl
]

check_saved : (now : ℕ) (t : TimeoutChecker) → t.last_saved ≡ true → check_save now t ≡ (false, t)
unfolding check_save
check_saved now t h = rw (h, check_save) refl

check_true :
    (now : ℕ) (t : TimeoutChecker)
    → (check_save now t).0 ≡ true
    → (check_save now t).1.last_saved ≡ true
unfolding check_save
check_true now t h =
    let elapsed = now - t.start_time in
    let soon = t.fit_last_save_time && next_reaches t.last_save_time elapsed t.iteration_times in
    elim (Bool-cases t.last_saved) [
      | inl e ↦ absurd (ground (arith, sym h ∙ ap (λ p. p.0) (check_saved now t e)))
      | inr e ↦ elim (Bool-cases soon) [
        | inl e' ↦ rw (e, e', check_save) refl
        | inr e' ↦ elim (Bool-cases (reached t.last_save_time elapsed)) [
          | inl e'' ↦ rw (e, e', e'', check_save) refl
          | inr e'' ↦ absurd (ground (arith, rw (e, e', e'', check_save) at h))
        ]
      ]
    ]

saved_no_more :
    (events : List Event) (t : TimeoutChecker) → t.last_saved ≡ true → saves events t ≡ 0
saved_no_more [] t h = refl
saved_no_more (check now ∷ events) t h =
    let done = check_saved now t h in
    let rest = ap (λ p. saves events p.1) done in
    let quiet : (check_save now t).0 ≡ false = ap (λ p. p.0) done in
    rw quiet (omega (arith, rest, saved_no_more events t h))
saved_no_more (begin now ∷ events) t h = saved_no_more events (start_iterations now t) h
saved_no_more (mark now ∷ events) t h =
    saved_no_more events (after (mark now) t) (mark-last_saved now t ∙ h)

-- However the checks and the iterations follow each other, at most one check asks for a save.
pub saves-le_one : (events : List Event) (t : TimeoutChecker) → saves events t ≤ 1
saves-le_one [] t = omega arith
saves-le_one (check now ∷ events) t = elim (Bool-cases (check_save now t).0) [
  | inl e ↦ rw e (omega (arith, saved_no_more events (check_save now t).1 (check_true now t e)))
  | inr e ↦ rw e (omega (arith, saves-le_one events (check_save now t).1))
]
saves-le_one (begin now ∷ events) t = saves-le_one events (start_iterations now t)
saves-le_one (mark now ∷ events) t = saves-le_one events (after (mark now) t)
