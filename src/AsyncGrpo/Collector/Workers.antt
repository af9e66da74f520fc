-- ===== src/AsyncGrpo/Collector/Workers.antt =====
-- The collector (nemo_rl/algorithms/async_utils.py) as a transition system of the trainer's calls, the collection
-- loop and the workers, in steps of which each is atomic in the source, and the permits of its semaphore.
use nemo_rl_vlm.Prelude.{ℕ, ◌+◌, ◌-◌, ◌≡◌, Option, some, Bool, true, false, length}
use nemo_rl_vlm.Prelude.Int.{ℤ}
use nemo_rl_vlm.AsyncGrpo.Collector.{
  Collector, Config, Worker, Place, max_inflight, init, get_next_target_for_generation,
  set_weight_version, pause, resume, prepare_for_refit, resume_after_refit, loop_step, acquire,
  add_thread, alive, cleanup_finished_threads, buffered, release_reservation, detach, release,
  may_refit,
}
use nemo_rl_vlm.AsyncGrpo.Collector.Threads.{has_thread}

-- The steps that leave the semaphore and the threads as they are. A worker's steps need only that its
-- thread is in flight.
pub data Move : Collector → Collector → Type 0 where
  start : (c : Collector) → Move c (record c { running = true })
  stop : (c : Collector) → Move c (record c { running = false })
  pauses : (c : Collector) → Move c (pause c)
  resumes : (c : Collector) → Move c (resume c)
  refit : (c : Collector) → Move c (prepare_for_refit c)
  refit_done : (c : Collector) → may_refit c ≡ true → Move c (resume_after_refit c)
  new_version : (v : ℕ) (c : Collector) → Move c (set_weight_version v c)
  loops :
      (last : ℤ) (place place' : Place) (c c' : Collector)
      → loop_step last place c ≡ some (place', c')
      → Move c c'
  reserves : (last : ℤ) (v : ℕ) (c : Collector) → Move c (get_next_target_for_generation last v c).1
  buffers :
      (w : Worker) (c : Collector)
      → has_thread w.thread c.inflight_threads ≡ true
      → Move c (buffered w c)
  releases_reservation :
      (w : Worker) (c : Collector)
      → has_thread w.thread c.inflight_threads ≡ true
      → Move c (release_reservation w c)

-- The collector with the permits that were taken and are not those of a thread in flight: by the loop, for a thread
-- that it has not recorded yet; by workers that are detached and have not released theirs yet; and by
-- threads that the cleanup found dead, because they could not be started, which never release theirs.
pub record System : Type 0 where
  pub collector : Collector
  pub acquired : ℕ
  pub detached : ℕ
  pub lost : ℕ

-- One step of the system. The threads interleave in any order.
pub data Step : System → System → Type 0 where
  moves : (s : System) (c : Collector) → Move s.collector c → Step s (record s { collector = c })
  acquires :
      (s : System) (c : Collector)
      → acquire s.collector ≡ some c
      → Step s (record s { collector = c; acquired = s.acquired + 1 })
  adds :
      (s : System) (w : Worker) (others : ℕ)
      → s.acquired ≡ others + 1
      → Step s (record s { collector = add_thread w s.collector; acquired = others })
  cleans :
      (s : System) (is_alive : ℕ → Bool)
      → Step s (record s {
        collector = cleanup_finished_threads is_alive s.collector;
        lost =
            s.lost
            + (length s.collector.inflight_threads
                - length (alive is_alive s.collector.inflight_threads));
      })
  detaches :
      (s : System) (w : Worker)
      → has_thread w.thread s.collector.inflight_threads ≡ true
      → Step s (record s { collector = detach w s.collector; detached = s.detached + 1 })
  releases :
      (s : System) (others : ℕ)
      → s.detached ≡ others + 1
      → Step s (record s { collector = release s.collector; detached = others })

pub data Reachable (config : Config) (start_step : ℕ) : System → Type 0 where
  initial :
      Reachable config start_step
        (record { collector = init config start_step; acquired = 0; detached = 0; lost = 0 })
  next :
      (s s' : System) → Reachable config start_step s → Step s s' → Reachable config start_step s'

-- Each permit is free, or that of a thread in flight, or taken and on its way, or lost.
pub record IsValid (config : Config) (s : System) : Type 0 where
  pub permits :
      s.collector.inflight_sema
        + length s.collector.inflight_threads
        + (s.acquired + s.detached + s.lost)
      ≡ max_inflight config

abbrev Same : Collector → Collector → Type 0
Same c c' = (c'.inflight_sema ≡ c.inflight_sema) × (c'.inflight_threads ≡ c.inflight_threads)

abbrev move : Place → Collector → Option (Place × Collector)
move place c = some (place, c)
