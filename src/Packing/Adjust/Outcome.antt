-- ===== src/Packing/Adjust/Outcome.antt =====
-- What `_adjust_bin_count` returns: the target, and a packing of the same sequences.
use nemo_rl_vlm.Prelude.{
  All-of_get, get_or_past, get_elem?-get_or, ℕ, zero, suc, ◌+◌, ◌≤◌, ◌<◌, List, [], ◌∷◌, ◌++◌, map,
  flatten, ◌≡◌, refl, inl, inr, ◌∙◌, ap, Bool, arith, Bool-cases, ok, length, get_or, total, All,
  replicate, indexed_from, length-append, length-replicate, length-map, total-append, total-flatten,
  All_get,
}
use nemo_rl_vlm.Prelude.Sort.{insert_sorted, sort}
use nemo_rl_vlm.Packing.Adjust.{bin_sizes, move_last, fill_bins}
use nemo_rl_vlm.Packing.Adjust.Moves.{length-move_last, total-move_last, move_last-fits}
use nemo_rl_vlm.Packing.Adjust.Laws.{Has, Inv, total-length, fill_bin_total, move_last-Inv}

-- What the loop makes of the bins, `target` of them in the end.
pub record Redistributed (target new : ℕ) (bins bins' : List (List ℕ)) : Type 0 where
  pub size : length bins' ≡ target
  pub same : (f : ℕ → ℕ) → total f (flatten bins') ≡ total f (flatten bins)
  pub fits :
      (f : ℕ → ℕ) (cap : ℕ)
      → All (λ bin. total f bin ≤ cap) bins
      → All (λ bin. total f bin ≤ cap) bins'
  pub filled :
      ((i : ℕ) → i < new → 0 < length (get_or bins i [])) → All (λ bin. 0 < length bin) bins'

pub fill_bins-total :
    (target n new : ℕ) (sources : List (ℕ × ℕ)) (bins : List (List ℕ))
    → n + new ≡ target
    → target ≤ total (λ _. 1) (flatten bins)
    → Inv target new sources bins
    → (bins' : List (List ℕ)) × (fill_bins n new sources bins ≡ ok bins')
      × Redistributed target new bins bins'
unfolding fill_bins
fill_bins-total target zero new sources bins e enough inv = (
  bins,
  refl,
  record {
    size = inv.size;
    same = λ f. refl;
    fits = λ f cap h. h;
    filled =
        λ h. All-of_get (λ bin. 0 < length bin) bins [] (λ i lt. h i (omega (arith, inv.size)));
  },
)
fill_bins-total target (suc n) new sources bins e enough inv =
    let room : new < target = omega arith in
    let (sources', orig, run, long, inv') =
      fill_bin_total target new bins room (omega (arith, total-length bins)) sources inv in
    let blank : length (get_or bins new []) ≡ 0 = inv.blank new (omega arith) in
    let inside : new < length bins = omega (arith, inv.size) in
    let moved = move_last orig new bins in
    let same = total-move_last bins orig new long blank inside in
    let (bins', rest, done) =
      fill_bins-total target n (suc new) sources' moved (omega arith) (omega (arith, same (λ _. 1)))
        (move_last-Inv target new bins room (omega (arith, total-length bins)) sources' orig long
          inv') in
    (
      bins',
      rw run rest,
      record {
        size = done.size;
        same = λ f. done.same f ∙ same f;
        fits = λ f cap h. done.fits f cap (move_last-fits bins orig new long blank inside f cap h);
        filled = λ h.
            done.filled
              (λ i lt. ground (arith, h i, length-move_last bins orig new long blank inside i));
      },
    )

Has-insert_sorted :
    (le : ℕ × ℕ → ℕ × ℕ → Bool) (i : ℕ) (s : ℕ × ℕ) (rest : List (ℕ × ℕ))
    → Has i (s ∷ rest)
    → Has i (insert_sorted le s rest)
unfolding insert_sorted
Has-insert_sorted le i s [] h = h
Has-insert_sorted le i s (t ∷ rest) h = elim (Bool-cases (le s t)) [
  | inl e ↦ rw (e, insert_sorted) h
  | inr e ↦
      rw (e, insert_sorted)
        (elim h [
          | inl here ↦ inr (Has-insert_sorted le i s rest (inl here))
          | inr (inl next) ↦ inl next
          | inr (inr later) ↦ inr (Has-insert_sorted le i s rest (inr later))
        ])
]

Has-sort :
    (le : ℕ × ℕ → ℕ × ℕ → Bool) (i : ℕ) (sources : List (ℕ × ℕ))
    → Has i sources
    → Has i (sort le sources)
unfolding sort
Has-sort le i [] h = h
Has-sort le i (s ∷ rest) (inl here) = Has-insert_sorted le i s (sort le rest) (inl here)
Has-sort le i (s ∷ rest) (inr later) =
    Has-insert_sorted le i s (sort le rest) (inr (Has-sort le i rest later))

Has-indexed_from :
    (sizes : List ℕ) (k i j : ℕ) → k + i ≡ j → i < length sizes → Has j (indexed_from k sizes)
Has-indexed_from [] k i j e h = elim h [ ]
Has-indexed_from (x ∷ sizes) k zero j e h = inl (omega arith)
Has-indexed_from (x ∷ sizes) k (suc i) j e h =
    inr (Has-indexed_from sizes (suc k) i j (omega arith) (omega arith))

pub get_or-append_blank :
    (bins : List (List ℕ)) (k j : ℕ) → get_or (bins ++ replicate k []) j [] ≡ get_or bins j []
get_or-append_blank [] zero j = refl
get_or-append_blank [] (suc k) zero = refl
get_or-append_blank [] (suc k) (suc j) = get_or-append_blank [] k j
get_or-append_blank (bin ∷ bins) k zero = refl
get_or-append_blank (bin ∷ bins) k (suc j) = get_or-append_blank bins k j

long-lt_length : (bins : List (List ℕ)) (i : ℕ) → 1 < length (get_or bins i []) → i < length bins
long-lt_length [] i h = absurd (omega arith)
long-lt_length (bin ∷ bins) zero h = omega arith
long-lt_length (bin ∷ bins) (suc i) h = omega (arith, long-lt_length bins i h)

-- The invariant holds when the empty bins have been added.
pub start-Inv :
    (bins : List (List ℕ)) (k target : ℕ)
    → length bins + k ≡ target
    → Inv target (length bins) (bin_sizes bins) (bins ++ replicate k [])
unfolding bin_sizes
start-Inv bins k target e = record {
  size =
      omega
        (arith, length-append {0} bins (replicate k []), length-replicate {0} {A = List ℕ} k []);
  blank = λ j le. rw (get_or-append_blank bins k j) (ap length (get_or_past bins j [] le));
  covered = λ i long.
      let inside = long-lt_length bins i (rw (get_or-append_blank bins k i) at long) in
      Has-sort _ i (indexed_from 0 (map length bins)) (
        Has-indexed_from (map length bins) 0 i i (omega arith)
          (omega (arith, length-map {0, 0} bins (length {A = ℕ}))));
}

total-blank : (f : ℕ → ℕ) (k : ℕ) → total (total f) (replicate k []) ≡ 0
total-blank f zero = refl
total-blank f (suc k) = omega (arith, total-blank f k)

pub total-append_blank :
    (f : ℕ → ℕ) (bins : List (List ℕ)) (k : ℕ)
    → total f (flatten (bins ++ replicate k [])) ≡ total f (flatten bins)
total-append_blank f bins k = omega (
  arith,
  total-flatten f (bins ++ replicate k []),
  total-flatten f bins,
  total-append (total f) bins (replicate k []),
  total-blank f k,
)

pub All-blank : (f : ℕ → ℕ) (cap k : ℕ) → All (λ bin. total f bin ≤ cap) (replicate k [])
All-blank f cap zero = tt
All-blank f cap (suc k) = (omega arith, All-blank f cap k)

pub nonempty_at :
    (bins : List (List ℕ)) (i : ℕ)
    → All (λ bin. 0 < length bin) bins
    → i < length bins
    → 0 < length (get_or bins i [])
nonempty_at bins i h lt =
    All_get (λ bin. 0 < length bin) bins i (get_or bins i []) h (get_elem?-get_or bins i [] lt)

pub length-le_nonempty :
    (bins : List (List ℕ)) → All (λ bin. 0 < length bin) bins → length bins ≤ total length bins
length-le_nonempty [] h = omega arith
length-le_nonempty (bin ∷ bins) h = omega (arith, length-le_nonempty bins h.1, h.0)
