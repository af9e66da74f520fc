-- ===== src/Timer.antt =====
-- `Timer`, `convert_to_seconds` and `TimeoutChecker` (nemo_rl/utils/timer.py). The clock's value at a call
-- is an argument, in whole units; a label is its list of code points. The numpy reductions are a parameter.
pub mod Laws
mod Tests
use nemo_rl_vlm.Prelude.{
  ℕ, zero, suc, ◌+◌, ◌-◌, ◌*◌, List, [], ◌∷◌, ◌++◌, Option, none, some, Bool, true, false, ◌&&◌,
  Result, ok, raise, value_error, key_error, index_error, unbound_local_error, leb, ltb, ◌==◌,
  if◌then◌else◌, length, sum,
}

abbrev pub Label : Type 0
Label = List ℕ

abbrev pub same_label : List ℕ → List ℕ → Bool
same_label [] [] = true
same_label [] (d ∷ ds) = false
same_label (c ∷ cs) [] = false
same_label (c ∷ cs) (d ∷ ds) = c == d && same_label cs ds

-- A dict with labels as keys.
module _ {A : Type 0} where
  unfoldable pub lookup : Label → List (Label × A) → Option A
  lookup l [] = none
  lookup l ((k, a) ∷ entries) =
      let rest = lookup l entries in if same_label l k then some a else rest

  unfoldable pub delete : Label → List (Label × A) → List (Label × A)
  delete l [] = []
  delete l ((k, a) ∷ entries) =
      let rest = delete l entries in if same_label l k then rest else (k, a) ∷ rest

  -- `d[label] = value`
  unfoldable pub store : Label → A → List (Label × A) → List (Label × A)
  store l v [] = (l, v) ∷ []
  store l v ((k, a) ∷ entries) =
      let rest = store l v entries in if same_label l k then (k, v) ∷ entries else (k, a) ∷ rest

pub record Timer : Type 0 where
  pub timers : List (Label × List ℕ)
  pub start_times : List (Label × ℕ)

abbrev pub new_timer : Timer
new_timer = record { timers = []; start_times = [] }

unfoldable pub start : ℕ → Label → Timer → Result Timer
unfolding lookup store
start now label t = elim (lookup label t.start_times) [
  | some started ↦ raise value_error
  | none ↦ ok (record t { start_times = store label now t.start_times })
]

-- The measurements of a label, none being an empty list.
abbrev pub measured : Option (List ℕ) → List ℕ
measured none = []
measured (some times) = times

unfoldable pub stop : ℕ → Label → Timer → Result (Timer × ℕ)
unfolding lookup store delete
stop now label t = elim (lookup label t.start_times) [
  | none ↦ raise value_error
  | some started ↦
      let elapsed = now - started in
      ok (
        record t {
          timers = store label (measured (lookup label t.timers) ++ elapsed ∷ []) t.timers;
          start_times = delete label t.start_times;
        },
        elapsed,
      )
]

unfoldable pub get_elapsed : Label → Timer → Result (List ℕ)
unfolding lookup
get_elapsed label t = elim (lookup label t.timers) [
  | none ↦ raise key_error
  | some times ↦ ok times
]

abbrev pub last : ℕ → List ℕ → ℕ
last x [] = x
last x (y ∷ ys) = last y ys

unfoldable pub get_latest_elapsed : Label → Timer → Result ℕ
unfolding lookup
get_latest_elapsed label t = elim (lookup label t.timers) [
  | none ↦ raise key_error
  | some [] ↦ raise index_error
  | some (x ∷ xs) ↦ ok (last x xs)
]

pub data Reduction : Type 0 where
  mean median minimum maximum std sum_of count_of : Reduction

-- The operation is none if its name is no reduction's.
unfoldable pub reduce {ℓ} :
    {R : Type ℓ} → (Reduction → List ℕ → R) → Label → Option Reduction → Timer → Result R
unfolding lookup
reduce apply label none t = raise value_error
reduce apply label (some operation) t = elim (lookup label t.timers) [
  | none ↦ raise key_error
  | some times ↦ ok (apply operation times)
]

-- `if label:` is false for None and for the empty text.
unfoldable pub reset : Option Label → Timer → Timer
unfolding delete
reset none t = new_timer
reset (some []) t = new_timer
reset (some (c ∷ cs)) t = record {
  timers = delete (c ∷ cs) t.timers;
  start_times = delete (c ∷ cs) t.start_times;
}

-- `convert_to_seconds` on the numbers between the colons; the unpacking needs exactly four.
unfoldable pub convert_to_seconds : List ℕ → Result ℕ
convert_to_seconds (days ∷ hours ∷ minutes ∷ seconds ∷ []) =
    ok (days * 86400 + hours * 3600 + minutes * 60 + seconds)
convert_to_seconds _ = raise value_error

-- `last_save_time` is none for infinity.
pub record TimeoutChecker : Type 0 where
  pub last_save_time : Option ℕ
  pub start_time : ℕ
  pub last_saved : Bool
  pub iteration_times : List ℕ
  pub previous_iteration_time : Option ℕ
  pub fit_last_save_time : Bool

-- `elapsed >= self.last_save_time`
abbrev pub reached : Option ℕ → ℕ → Bool
reached none elapsed = false
reached (some limit) elapsed = leb limit elapsed

-- `elapsed + sum(times) / len(times) >= self.last_save_time`, multiplied by the number of times.
abbrev pub next_reaches : Option ℕ → ℕ → List ℕ → Bool
next_reaches limit elapsed [] = false
next_reaches none elapsed (x ∷ xs) = false
next_reaches (some limit) elapsed (x ∷ xs) =
    leb (limit * length (x ∷ xs)) (elapsed * length (x ∷ xs) + sum (x ∷ xs))

unfoldable pub check_save : ℕ → TimeoutChecker → Bool × TimeoutChecker
check_save now t =
    if t.last_saved
    then (false, t)
    else let elapsed = now - t.start_time in
      if t.fit_last_save_time && next_reaches t.last_save_time elapsed t.iteration_times
      then (true, record t { last_saved = true })
      else if reached t.last_save_time elapsed
      then (true, record t { last_saved = true })
      else (false, t)

abbrev pub start_iterations : ℕ → TimeoutChecker → TimeoutChecker
start_iterations now t = record t { previous_iteration_time = some now }

-- Before `start_iterations` the elapsed time is not assigned, and its use raises.
unfoldable pub mark_iteration : ℕ → TimeoutChecker → Result TimeoutChecker
mark_iteration now t = elim t.previous_iteration_time [
  | none ↦ raise unbound_local_error
  | some previous ↦ ok (record t {
    previous_iteration_time = some now;
    iteration_times = t.iteration_times ++ (now - previous) ∷ [];
  })
]
