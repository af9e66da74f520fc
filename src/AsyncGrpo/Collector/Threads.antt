-- ===== src/AsyncGrpo/Collector/Threads.antt =====
-- The list of the threads in flight (nemo_rl/algorithms/async_utils.py).
use nemo_rl_vlm.Prelude.{
  ℕ, ◌+◌, ◌≤◌, ◌≡◌, inl, inr, List, [], ◌∷◌, Bool, true, false, ◌||◌, ◌==◌, length, Bool-cases,
  arith,
}
use nemo_rl_vlm.AsyncGrpo.Collector.{Worker, alive, without}

abbrev pub has_thread : ℕ → List Worker → Bool
has_thread t [] = false
has_thread t (w ∷ ws) = t == w.thread || has_thread t ws

pub length-without :
    (t : ℕ) (ws : List Worker) → has_thread t ws ≡ true → length (without t ws) + 1 ≡ length ws
length-without t [] h = absurd (ground arith)
length-without t (w ∷ ws) h = elim (Bool-cases (t == w.thread)) [
  | inl e ↦ rw e (omega arith)
  | inr e ↦
      let rest : has_thread t ws ≡ true = ground arith in
      rw e (omega (arith, length-without t ws rest))
]

pub length-alive : (is_alive : ℕ → Bool) (ws : List Worker) → length (alive is_alive ws) ≤ length ws
length-alive is_alive [] = omega arith
length-alive is_alive (w ∷ ws) = elim (Bool-cases (is_alive w.thread)) [
  | inl e ↦ rw e (omega (arith, length-alive is_alive ws))
  | inr e ↦ rw e (omega (arith, length-alive is_alive ws))
]
