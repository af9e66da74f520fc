-- ===== src/Batched/Packed/Bins.antt =====
-- What a shard holds while bins are put into it.
use mathlib.Core.List.{map-append, append_assoc, append-nil}
use nemo_rl_vlm.Prelude.{
  ℕ, ◌-◌, total, ◌+◌, ◌≤◌, ◌<◌, ◌≡◌, refl, sym, subst, ap, ◌∙◌, List, [], ◌∷◌, ◌++◌, map, flatten,
  some, ok, length, length-append, sum, All, All-append, arith,
}
use nemo_rl_vlm.Packing.Concatenative.Laws.{flatten-snoc}
use nemo_rl_vlm.Batched.{Columns, on_data, index_select}
use nemo_rl_vlm.Batched.Dynamic.Tiles.{Tiles, Tiles-snoc, Tiles-le}
use nemo_rl_vlm.Batched.Packed.{Shard, new_shard, put_bin, close_chunk, last_end, end_or_zero}

last_end-snoc : (is : List (ℕ × ℕ)) (i : ℕ × ℕ) → last_end (is ++ i ∷ []) ≡ some i.1
last_end-snoc [] i = refl
last_end-snoc (j ∷ []) i = refl
last_end-snoc (j ∷ k ∷ is) i = last_end-snoc (k ∷ is) i

last_end-some : (is : List (ℕ × ℕ)) → 0 < length is → (end : ℕ) × (last_end is ≡ some end)
last_end-some [] h = absurd (omega arith)
last_end-some (i ∷ []) h = (i.1, refl)
last_end-some (i ∷ j ∷ is) h = last_end-some (j ∷ is) (omega arith)

Tiles-lt : (a : ℕ) (is : List (ℕ × ℕ)) (b : ℕ) → Tiles a is b → 0 < length is → a < b
Tiles-lt a [] b h pos = absurd (omega arith)
Tiles-lt a ((s, e) ∷ is) b h pos = omega (arith, h.0, h.1, Tiles-le e is b h.2)

sum-snoc : (xs : List ℕ) (x : ℕ) → sum (xs ++ x ∷ []) ≡ sum xs + x
sum-snoc [] x = omega arith
sum-snoc (y ∷ xs) x = omega (arith, sum-snoc xs x)

module _ (cap : ℕ) where
  -- For each chunk, the micro-batches follow each other from 0 to the number of rows, and have no more
  -- tokens than the maximum.
  abbrev pub Closed : List (List (ℕ × ℕ)) → List (List ℕ) → List ℕ → Type 0
  Closed [] [] [] = Unit
  Closed (is ∷ iss) (lens ∷ lenss) (count ∷ counts) =
      Tiles 0 is count
      × All (λ len. len ≤ cap) lens
      × (length is ≡ length lens)
      × Closed iss lenss counts
  Closed _ _ _ = ⊥

  Closed-snoc :
      (iss : List (List (ℕ × ℕ))) (lenss : List (List ℕ)) (counts : List ℕ) (is : List (ℕ × ℕ))
      (lens : List ℕ) (count : ℕ)
      → Closed iss lenss counts
      → Tiles 0 is count
      → All (λ len. len ≤ cap) lens
      → length is ≡ length lens
      → Closed (iss ++ is ∷ []) (lenss ++ lens ∷ []) (counts ++ count ∷ [])
  Closed-snoc [] [] [] is lens count h t w e = (t, w, e, tt)
  Closed-snoc [] [] (c ∷ cs) is lens count h t w e = elim h [ ]
  Closed-snoc [] (l ∷ ls) cs is lens count h t w e = elim h [ ]
  Closed-snoc (i ∷ iss) [] cs is lens count h t w e = elim h [ ]
  Closed-snoc (i ∷ iss) (l ∷ ls) [] is lens count h t w e = elim h [ ]
  Closed-snoc (i ∷ iss) (l ∷ ls) (c ∷ cs) is lens count h t w e =
      (h.0, h.1, h.2, Closed-snoc iss ls cs is lens count h.3 t w e)

-- How many rows a micro-batch has.
abbrev pub extent : ℕ × ℕ → ℕ
extent i = i.1 - i.0

module _ {E : Type 0} (cap n : ℕ) (cols : Columns E) (tokens_of : ℕ → ℕ) where
  -- The bins hold the rows at the shard's indices, in their order, and the micro-batches of the chunks
  -- are those bins: each has the number of their rows and the sum of their tokens.
  pub record IsShard (shard : Shard E) : Type 0 where
    pub parts : List (List ℕ)
    pub bins_are : shard.bins ≡ map (λ is. on_data (λ A. index_select is) cols) parts
    pub flat : flatten parts ≡ shard.global_indices
    pub inside : All (λ i. i < n) shard.global_indices
    pub tiles : Tiles 0 shard.chunk_micro_indices (end_or_zero (last_end shard.chunk_micro_indices))
    pub within : All (λ tokens. tokens ≤ cap) shard.chunk_micro_lengths
    pub same_number : length shard.chunk_micro_indices ≡ length shard.chunk_micro_lengths
    pub extents :
        map extent (flatten shard.micro_indices ++ shard.chunk_micro_indices)
        ≡ map (λ is. length is) parts
    pub tokens :
        flatten shard.micro_lengths ++ shard.chunk_micro_lengths ≡ map (total tokens_of) parts
    pub closed : Closed cap shard.micro_indices shard.micro_lengths shard.elem_counts
    pub counts :
        sum shard.elem_counts + end_or_zero (last_end shard.chunk_micro_indices)
        ≡ length shard.global_indices

  pub new_shard-IsShard : IsShard new_shard
  unfolding flatten
  new_shard-IsShard = record {
    parts = [];
    bins_are = refl;
    flat = refl;
    inside = tt;
    tiles = refl;
    within = tt;
    same_number = refl;
    extents = refl;
    tokens = refl;
    closed = tt;
    counts = refl;
  }

  pub put_bin-IsShard :
      (global : List ℕ) (tokens : ℕ) (shard : Shard E)
      → IsShard shard
      → 0 < length global
      → All (λ i. i < n) global
      → tokens ≤ cap
      → tokens ≡ total tokens_of global
      → IsShard (put_bin global (on_data (λ A. index_select global) cols) tokens shard)
  unfolding put_bin
  put_bin-IsShard global tokens shard h some_rows inside small all_tokens =
      let prev = end_or_zero (last_end shard.chunk_micro_indices) in
      let last = last_end-snoc shard.chunk_micro_indices (prev, prev + length global) in
      record {
        parts = h.parts ++ global ∷ [];
        bins_are =
            ap (λ l. l ++ on_data (λ A. index_select global) cols ∷ []) h.bins_are
            ∙ sym (map-append (λ is. on_data (λ A. index_select is) cols) h.parts (global ∷ []));
        flat = flatten-snoc h.parts global ∙ ap (λ l. l ++ global) h.flat;
        inside = All-append _ shard.global_indices global h.inside inside;
        tiles = rw last (
            Tiles-snoc 0 shard.chunk_micro_indices prev (prev + length global) h.tiles
              (omega (arith, some_rows)));
        within = All-append _ shard.chunk_micro_lengths (tokens ∷ []) h.within (small, tt);
        same_number = omega (
          arith,
          h.same_number,
          length-append {0} shard.chunk_micro_lengths (tokens ∷ []),
          length-append {0} shard.chunk_micro_indices ((prev, prev + length global) ∷ []),
        );
        extents =
            ap (map extent) (
              sym (
                append_assoc (flatten shard.micro_indices) shard.chunk_micro_indices
                  ((prev, prev + length global) ∷ [])))
            ∙ map-append extent (flatten shard.micro_indices ++ shard.chunk_micro_indices)
                ((prev, prev + length global) ∷ [])
            ∙ ap (λ l. l ++ (prev + length global - prev) ∷ []) h.extents
            ∙ ap (λ k. map (λ is. length is) h.parts ++ k ∷ []) (omega arith)
            ∙ sym (map-append (λ is. length is) h.parts (global ∷ []));
        tokens =
            sym (append_assoc (flatten shard.micro_lengths) shard.chunk_micro_lengths (tokens ∷ []))
            ∙ ap (λ l. l ++ tokens ∷ []) h.tokens
            ∙ ap (λ k. map (total tokens_of) h.parts ++ k ∷ []) all_tokens
            ∙ sym (map-append (total tokens_of) h.parts (global ∷ []));
        closed = h.closed;
        counts = rw last (omega (arith, h.counts, length-append {0} shard.global_indices global));
      }

  pub put_bin_some :
      (global : List ℕ) (rows : Columns E) (tokens : ℕ) (shard : Shard E)
      → 0 < length (put_bin global rows tokens shard).chunk_micro_indices
  unfolding put_bin
  put_bin_some global rows tokens shard =
      let prev = end_or_zero (last_end shard.chunk_micro_indices) in
      omega (arith, length-append {0} shard.chunk_micro_indices ((prev, prev + length global) ∷ []))

  pub close_chunk-IsShard :
      (shard : Shard E)
      → IsShard shard
      → 0 < length shard.chunk_micro_indices
      → (closed : Shard E) × (close_chunk shard ≡ ok closed)
        × IsShard closed
        × (closed.global_indices ≡ shard.global_indices)
        × (closed.chunk_micro_indices ≡ [])
        × (0 < length closed.global_indices)
  unfolding close_chunk
  close_chunk-IsShard shard h some_bins =
      let (end, found) = last_end-some shard.chunk_micro_indices some_bins in
      let ends : end_or_zero (last_end shard.chunk_micro_indices) ≡ end = ap end_or_zero found in
      (
        record shard {
          chunk_micro_indices = [];
          chunk_micro_lengths = [];
          micro_indices = shard.micro_indices ++ shard.chunk_micro_indices ∷ [];
          micro_lengths = shard.micro_lengths ++ shard.chunk_micro_lengths ∷ [];
          elem_counts = shard.elem_counts ++ end ∷ [];
        },
        rw (found, close_chunk) refl,
        record {
          parts = h.parts;
          bins_are = h.bins_are;
          flat = h.flat;
          inside = h.inside;
          tiles = refl;
          within = tt;
          same_number = refl;
          extents =
              ap (map extent) (
                append-nil (flatten (shard.micro_indices ++ shard.chunk_micro_indices ∷ []))
                ∙ flatten-snoc shard.micro_indices shard.chunk_micro_indices)
              ∙ h.extents;
          tokens =
              append-nil (flatten (shard.micro_lengths ++ shard.chunk_micro_lengths ∷ []))
              ∙ flatten-snoc shard.micro_lengths shard.chunk_micro_lengths
              ∙ h.tokens;
          closed =
              Closed-snoc cap shard.micro_indices shard.micro_lengths shard.elem_counts
                shard.chunk_micro_indices shard.chunk_micro_lengths end h.closed
                (subst (Tiles 0 shard.chunk_micro_indices) ends h.tiles) h.within h.same_number;
          counts = omega (arith, sum-snoc shard.elem_counts end, h.counts, ends);
        },
        refl,
        refl,
        omega (
          arith,
          h.counts,
          Tiles-lt 0 shard.chunk_micro_indices (end_or_zero (last_end shard.chunk_micro_indices))
              h.tiles some_bins,
        ),
      )
