-- ===== src/Batched/Packed/Chunks.antt =====
-- The bins of a chunk all find their shard, and every shard gets one.
use native.Mathlib.Nat.{mod-lt, mod-eq_of_lt}
use nemo_rl_vlm.Prelude.{
  ◌>>=◌, ℕ, suc, ◌+◌, ◌-◌, ◌*◌, ◌/◌, ◌%◌, ◌≤◌, ◌<◌, ◌≡◌, refl, sym, ap, ◌∙◌, subst, inl, inr, List,
  [], ◌∷◌, map, flatten, some, true, false, ok, length, length-map, length-set, get_or, get_elem?,
  get_elem?_total, get_elem?-get_or, get_elem?-set_self, get_elem?-set_ne, get_elem?-lt, set, sum,
  total, total-append, total-map, total-set, All, All-map, All-set, All_get, Bool-cases, ◌==◌,
  ==→eq, ==_false→ne, arith,
}
use nemo_rl_vlm.Batched.{Columns, on_data, all_rows, index_select, each}
use nemo_rl_vlm.Batched.Columnwise.{select_indices-ok}
use nemo_rl_vlm.Batched.Shards.Gathers.{each_ok}
use nemo_rl_vlm.Batched.Dynamic.{at}
use nemo_rl_vlm.Batched.Packed.{Shard, padded_seqlen, put_bin, add_bins}
use nemo_rl_vlm.Batched.Packed.Bins.{IsShard, put_bin-IsShard, put_bin_some}

-- A length rounded up to a multiple.
abbrev pub rounded : ℕ → ℕ → ℕ
rounded multiple seqlen = (seqlen + multiple - 1) / multiple * multiple

-- The padded length of a row.
abbrev pub row_tokens : ℕ → List ℕ → ℕ → ℕ
row_tokens multiple seqlens i = rounded multiple (get_or seqlens i 0)

pub padded_seqlen-rounded :
    (multiple seqlen : ℕ)
    → 0 < multiple
    → padded_seqlen multiple seqlen ≡ ok (rounded multiple seqlen)
unfolding padded_seqlen
padded_seqlen-rounded multiple seqlen h =
    let some_multiple : (multiple == 0) ≡ false = ground (arith, h) in
    rw (some_multiple, padded_seqlen) refl

pub at-some : {A : Type 0} (xs : List A) (i : ℕ) (x : A) → get_elem? xs i ≡ some x → at xs i ≡ ok x
at-some xs i x h = rw (h, at) refl

sum-map : (f : ℕ → ℕ) (xs : List ℕ) → sum (map f xs) ≡ total f xs
sum-map f [] = refl
sum-map f (x ∷ xs) = omega (arith, sum-map f xs)

All-shift :
    (n start : ℕ) (bin : List ℕ)
    → All (λ i. i + start < n) bin
    → All (λ i. i < n) (map (λ i. i + start) bin)
All-shift n start [] h = tt
All-shift n start (i ∷ bin) h = (h.0, All-shift n start bin h.1)

module _ {E : Type 0} where
  -- What the shards hold, weighed.
  abbrev pub held : (ℕ → ℕ) → List (Shard E) → ℕ
  held f = total (λ shard. total f shard.global_indices)

  -- The first k shards have a bin of the chunk.
  abbrev pub Filled : ℕ → List (Shard E) → Type 0
  Filled k shards =
      (s : ℕ) (shard : Shard E)
      → s < k
      → get_elem? shards s ≡ some shard
      → 0 < length shard.chunk_micro_indices

module _ {E : Type 0} (cap n : ℕ) (cols : Columns E) (rows : all_rows n cols ≡ true) (multiple : ℕ)
    (pos : 0 < multiple) (seqlens : List ℕ) (enough : length seqlens ≡ n) where
  -- A bin of a chunk: some rows of the batch, of no more tokens than the maximum.
  abbrev pub IsBin : ℕ → List ℕ → Type 0
  IsBin start bin =
      (0 < length bin)
      × All (λ i. i + start < n) bin
      × (total (λ i. rounded multiple (get_or seqlens (i + start) 0)) bin ≤ cap)

  pub record IsHeld (size k : ℕ) (shards : List (Shard E)) : Type 0 where
    pub number : length shards ≡ size
    pub all_ok : All (IsShard cap n cols (row_tokens multiple seqlens)) shards
    pub filled : Filled k shards

  tokens_ok :
      (is : List ℕ)
      → All (λ i. i < n) is
      → each (λ i. at seqlens i >>= padded_seqlen multiple) is
        ≡ ok (map (λ i. rounded multiple (get_or seqlens i 0)) is)
  tokens_ok is h = each_ok _ _ is (
      All-map _ _ is
        (λ i lt.
          ap (λ r. r >>= padded_seqlen multiple)
            (at-some seqlens i (get_or seqlens i 0)
              (get_elem?-get_or seqlens i 0 (omega (arith, lt, enough))))
          ∙ padded_seqlen-rounded multiple (get_or seqlens i 0) pos)
        h)

  put-IsHeld :
      (size k : ℕ) (shards : List (Shard E)) (shard put : Shard E)
      → 0 < size
      → IsHeld size k shards
      → get_elem? shards (k % size) ≡ some shard
      → IsShard cap n cols (row_tokens multiple seqlens) put
      → 0 < length put.chunk_micro_indices
      → IsHeld size (suc k) (set shards (k % size) put)
  put-IsHeld size k shards shard put some_shards h found put_ok some_bins = record {
    number = length-set shards (k % size) put ∙ h.number;
    all_ok =
        All-set (IsShard cap n cols (row_tokens multiple seqlens)) shards (k % size) put h.all_ok
          put_ok;
    filled = λ s there lt e. elim (Bool-cases (k % size == s)) [
      | inl q ↦
          let index = ==→eq (k % size) s q in
          let self =
            get_elem?-set_self shards (k % size) put (get_elem?-lt shards (k % size) shard found) in
          let same : put ≡ there = cc in
          subst (λ sh. 0 < length sh.chunk_micro_indices) same some_bins
      | inr q ↦
          let other = ==_false→ne (k % size) s q in
          let before = sym (get_elem?-set_ne shards (k % size) s put other) ∙ e in
          let inside = get_elem?-lt shards s there before in
          let earlier : s < k = elim (Bool-cases (s == k)) [
            | inl same ↦
                let whole =
                  mod-eq_of_lt
                    (subst (λ i. i < size) (==→eq s k same) (omega (arith, inside, h.number))) in
                absurd (other (whole ∙ sym (==→eq s k same)))
            | inr not_same ↦ omega (arith, lt, ==_false→ne s k not_same)
          ] in
          h.filled s there earlier before
    ];
  }

  -- What a shard gets with a bin.
  unfoldable pub filled_with : ℕ → List ℕ → Shard E → Shard E
  unfolding put_bin
  filled_with start bin =
      let global = map (λ i. i + start) bin in
      put_bin global (on_data (λ A. index_select global) cols)
        (sum (map (λ i. rounded multiple (get_or seqlens i 0)) global))

  -- The shard whose turn it is gets the bin.
  put_step :
      (size start k : ℕ) (shards : List (Shard E)) (bin : List ℕ)
      → 0 < size
      → IsHeld size k shards
      → IsBin start bin
      → (shard : Shard E) × (get_elem? shards (k % size) ≡ some shard)
        × IsHeld size (suc k) (set shards (k % size) (filled_with start bin shard))
        × ((f : ℕ → ℕ)
            → held f (set shards (k % size) (filled_with start bin shard))
              ≡ held f shards + total (λ i. f (i + start)) bin)
  unfolding filled_with put_bin
  put_step size start k shards bin some_shards h (some_rows, inside, small) =
      let global = map (λ i. i + start) bin in
      let global_inside = All-shift n start bin inside in
      let some_global : 0 < length global =
        omega (arith, some_rows, length-map bin (λ i. i + start)) in
      let tokens = sum (map (λ i. rounded multiple (get_or seqlens i 0)) global) in
      let all_tokens : tokens ≤ cap = omega (
        arith,
        sum-map (λ i. rounded multiple (get_or seqlens i 0)) global,
        total-map (λ i. rounded multiple (get_or seqlens i 0)) (λ i. i + start) bin,
        small,
      ) in
      let (shard, found) =
        get_elem?_total shards (k % size) (omega (arith, mod-lt k some_shards, h.number)) in
      let put = filled_with start bin shard in
      (
        shard,
        found,
        put-IsHeld size k shards shard put some_shards h found
            (put_bin-IsShard cap n cols (row_tokens multiple seqlens) global tokens shard
              (All_get _ shards (k % size) shard h.all_ok found) some_global global_inside
              all_tokens (sum-map (row_tokens multiple seqlens) global))
            (put_bin_some cap n cols (row_tokens multiple seqlens) global
              (on_data (λ A. index_select global) cols) tokens shard),
        λ f. omega (
          arith,
          total-set (λ sh. total f sh.global_indices) shards (k % size) shard put found,
          total-append f shard.global_indices global,
          total-map f (λ i. i + start) bin,
        ),
      )

  -- Bins of the batch's rows are put into the shards in turn, without an error.
  pub add_bins-IsHeld :
      (size start : ℕ)
      → 0 < size
      → (bins : List (List ℕ)) (k : ℕ) (shards : List (Shard E)) → IsHeld size k shards
      → All (IsBin start) bins
      → (after : List (Shard E)) × (add_bins multiple seqlens cols start k bins shards ≡ ok after)
        × IsHeld size (k + length bins) after
        × ((f : ℕ → ℕ) → held f after ≡ held f shards + total (λ i. f (i + start)) (flatten bins))
  unfolding add_bins flatten filled_with
  add_bins-IsHeld size start some_shards [] k shards h bins_ok =
      (shards, refl, subst (λ m. IsHeld size m shards) (omega arith) h, λ f. omega arith)
  add_bins-IsHeld size start some_shards (bin ∷ bins) k shards h (bin_ok, rest_ok) =
      let global = map (λ i. i + start) bin in
      let global_inside = All-shift n start bin bin_ok.1 in
      let some_global : 0 < length global =
        omega (arith, bin_ok.0, length-map bin (λ i. i + start)) in
      let selected = select_indices-ok n global cols global_inside (inl some_global) rows in
      let (shard, found, next, weigh) = put_step size start k shards bin some_shards h bin_ok in
      let (after, run, held_after, weighs) =
        add_bins-IsHeld size start some_shards bins (suc k)
          (set shards (k % size) (filled_with start bin shard)) next rest_ok in
      (
        after,
        rw
            (
              selected,
              tokens_ok global global_inside,
              h.number,
              at-some shards (k % size) shard found,
              add_bins,
            )
            run,
        subst (λ m. IsHeld size m after) (omega arith) held_after,
        λ f. omega (arith, weighs f, weigh f, total-append (λ i. f (i + start)) bin (flatten bins)),
      )
