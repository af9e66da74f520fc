-- ===== src/Batched/Dynamic/Micros.antt =====
-- The micro-batches that the loop over the places of a chunk makes.
use nemo_rl_vlm.Prelude.{
  ==→eq, ==_false→ne, ℕ, zero, suc, ◌+◌, ◌-◌, ◌*◌, ◌≤◌, ◌<◌, ◌≡◌, refl, sym, ap, subst, ◌∙◌, ◌⊎◌,
  inl, inr, List, [], ◌∷◌, ◌++◌, max, Result, ok, raise, assertion_error, leb, leb→le, false,
  leb_false→lt, range_from, Bool-cases, ◌==◌, arith,
}
use nemo_rl_vlm.Batched.Dynamic.Tiles.{Tiles, Tiles-snoc}
use nemo_rl_vlm.Batched.Dynamic.{
  DynamicArgs, Micro, first_micro, add_row, micro_step, micro_loop, pad,
}

module _ (tokens : ℕ) (seqlen : ℕ → ℕ) where
  -- The sequences of a micro-batch fit in its length, and its rows of that length in the tokens.
  abbrev pub Fits : ℕ → ℕ → ℕ → Type 0
  Fits s e len = ((p : ℕ) → s ≤ p → p < e → seqlen p ≤ len) × ((e - s) * len ≤ tokens)

  -- One of the sequences is as long as that length.
  abbrev pub IsTight : ℕ → ℕ → ℕ → Type 0
  IsTight s e len = (p : ℕ) × (s ≤ p) × (p < e) × (seqlen p ≡ len)

  -- The next row does not fit.
  abbrev pub IsFull : ℕ → ℕ → ℕ → Type 0
  IsFull s e len = tokens < (e - s + 1) * max len (seqlen e)

  abbrev pub AllFull : List (ℕ × ℕ) → List ℕ → Type 0
  AllFull [] [] = Unit
  AllFull [] (len ∷ lens) = ⊥
  AllFull (i ∷ is) [] = ⊥
  AllFull ((s, e) ∷ is) (len ∷ lens) =
      Fits s e len × IsTight s e len × IsFull s e len × AllFull is lens

  AllFull-snoc :
      (is : List (ℕ × ℕ)) (lens : List ℕ) (s e len : ℕ)
      → AllFull is lens
      → Fits s e len
      → IsTight s e len
      → IsFull s e len
      → AllFull (is ++ (s, e) ∷ []) (lens ++ len ∷ [])
  AllFull-snoc [] [] s e len h f t g = (f, t, g, tt)
  AllFull-snoc [] (l ∷ lens) s e len h f t g = elim h [ ]
  AllFull-snoc (i ∷ is) [] s e len h f t g = elim h [ ]
  AllFull-snoc (i ∷ is) (l ∷ lens) s e len h f t g =
      (h.0, h.1, h.2, AllFull-snoc is lens s e len h.3 f t g)

  -- The first n places are cut into micro-batches, and all but the last are full.
  pub record IsCut (n : ℕ) (m : Micro) : Type 0 where
    pub tiles : Tiles 0 m.full m.start
    pub full : AllFull m.full m.full_lengths
    pub last : Fits m.start m.end m.last_length
    pub whole : m.end ≡ n
    pub tight : IsTight m.start m.end m.last_length ⊎ (n ≡ 0) × (m.start ≡ 0) × (m.max_seqlen ≡ 0)
    pub longest : m.last_length ≡ m.max_seqlen

  first_tokens :
      (s e longest next : ℕ) → e ≡ 0 → s ≡ 0 → longest ≡ 0 → (e - s + 1) * max longest next ≡ next
  first_tokens s e longest next h k l = rw (h, k, l) (omega arith)

  started : (n : ℕ) (m : Micro) → IsCut n m → m.start ≤ m.end
  started n m h = elim h.tight [
    | inl (p, from, to, same) ↦ omega (arith, from, to)
    | inr (zero_n, zero_start, _) ↦ omega (arith, zero_start)
  ]

  longest_row :
      (n : ℕ) (m : Micro) → IsCut n m → IsTight m.start (m.end + 1) (max m.max_seqlen (seqlen n))
  longest_row n m h = elim h.tight [
    | inr (zero_n, zero_start, zero_longest) ↦
        (n, omega (arith, zero_start), omega (arith, h.whole), omega (arith, zero_longest))
    | inl (p, from, to, same) ↦ elim (Bool-cases (leb (seqlen n) m.max_seqlen)) [
      | inl e ↦ (
        p,
        from,
        omega (arith, to),
        omega (arith, leb→le (seqlen n) m.max_seqlen e, same, h.longest),
      )
      | inr e ↦ (
        n,
        omega (arith, h.whole, from, to),
        omega (arith, h.whole),
        omega (arith, leb_false→lt (seqlen n) m.max_seqlen e),
      )
    ]
  ]

  -- The row is added to the last micro-batch.
  add_row_fits :
      (n : ℕ) (m : Micro)
      → IsCut n m
      → (m.end - m.start + 1) * max m.max_seqlen (seqlen n) ≤ tokens
      → IsCut (n + 1) record m {
        end = m.end + 1;
        last_length = max m.max_seqlen (seqlen n);
        max_seqlen = max m.max_seqlen (seqlen n);
      }
  add_row_fits n m h fits = record {
    tiles = h.tiles;
    full = h.full;
    last = (
      λ p from to. elim (Bool-cases (p == m.end)) [
        | inl e ↦ let same = ap seqlen (==→eq p m.end e ∙ h.whole) in omega (arith, same)
        | inr e ↦
            omega (arith, h.last.0 p from (omega (arith, to, ==_false→ne p m.end e)), h.longest)
      ],
      subst (λ k. k * max m.max_seqlen (seqlen n) ≤ tokens) (omega (arith, started n m h)) fits,
    );
    whole = omega (arith, h.whole);
    tight = inl (longest_row n m h);
    longest = refl;
  }

  -- It begins a new one.
  add_row_new :
      (n : ℕ) (m : Micro)
      → IsCut n m
      → tokens < (m.end - m.start + 1) * max m.max_seqlen (seqlen n)
      → seqlen n ≤ tokens
      → IsCut (n + 1) record {
        full = m.full ++ (m.start, m.end) ∷ [];
        full_lengths = m.full_lengths ++ m.last_length ∷ [];
        start = n;
        end = n + 1;
        last_length = seqlen n;
        max_seqlen = seqlen n;
      }
  add_row_new n m h over small =
      let tight : IsTight m.start m.end m.last_length = elim h.tight [
        | inl t ↦ t
        | inr (zero_n, zero_start, zero_longest) ↦ absurd (
            omega (
              arith,
              over,
              small,
              first_tokens m.start m.end m.max_seqlen (seqlen n) (h.whole ∙ zero_n) zero_start
                  zero_longest,
            ))
      ] in
      let some_rows : m.start < m.end = omega (arith, tight.1, tight.2) in
      record {
        tiles =
            subst (Tiles 0 (m.full ++ (m.start, m.end) ∷ [])) h.whole
              (Tiles-snoc 0 m.full m.start m.end h.tiles some_rows);
        full = AllFull-snoc m.full m.full_lengths m.start m.end m.last_length h.full h.last tight (
            rw (h.longest, h.whole)
              (subst (λ k. tokens < (k - m.start + 1) * max m.max_seqlen (seqlen n)) h.whole over));
        last = (
          λ p from to.
              let same : seqlen p ≡ seqlen n = ap seqlen (omega (arith, from, to)) in
              omega (arith, same),
          rw (let e : n + 1 - n ≡ 1 = omega arith in e) (omega (arith, small)),
        );
        whole = refl;
        tight = inl (n, omega arith, omega arith, refl);
        longest = refl;
      }

  add_row-IsCut :
      (n : ℕ) (m : Micro)
      → IsCut n m
      → seqlen n ≤ tokens
      → IsCut (n + 1) (add_row tokens n (seqlen n) m)
  unfolding add_row
  add_row-IsCut n m h small =
      let total_tokens = (m.end - m.start + 1) * max m.max_seqlen (seqlen n) in
      elim (Bool-cases (leb total_tokens tokens)) [
        | inl e ↦ rw (e, add_row) (add_row_fits n m h (leb→le total_tokens tokens e))
        | inr e ↦ rw (e, add_row) (add_row_new n m h (leb_false→lt total_tokens tokens e) small)
      ]

-- The length that a sequence is padded to.
unfoldable pub padded : DynamicArgs → ℕ → (ℕ → ℕ) → ℕ → ℕ
unfolding pad
padded args width seqlen p = pad args.sequence_length_round width (seqlen p)

-- A row that is wider than the tokens of a micro-batch, even padded or cut.
abbrev pub TooLong : DynamicArgs → ℕ → (ℕ → ℕ) → ℕ → Type 0
TooLong args width seqlen n =
    (p : ℕ) × (p < n) × (args.max_tokens_per_microbatch < padded args width seqlen p)

module _ (args : DynamicArgs) (width size : ℕ) (longest : ℕ → Result ℕ) (seqlen : ℕ → ℕ)
    (known : (p : ℕ) → p < size → longest p ≡ ok (seqlen p))
    (round_pos : 0 < args.sequence_length_round) where
  -- From a place on, where the rows before it are cut into micro-batches.
  loop_from :
      (k r : ℕ) (m : Micro)
      → k + r ≤ size
      → IsCut args.max_tokens_per_microbatch (padded args width seqlen) k m
      → ((cut : Micro) × (micro_loop args (ok width) longest (range_from k r) m ≡ ok cut)
          × IsCut args.max_tokens_per_microbatch (padded args width seqlen) (k + r) cut)
        ⊎ ((micro_loop args (ok width) longest (range_from k r) m ≡ raise assertion_error)
            × TooLong args width seqlen (k + r))
  unfolding micro_loop micro_step padded
  loop_from k zero m le h = inl (
    m,
    refl,
    subst (λ n. IsCut args.max_tokens_per_microbatch (padded args width seqlen) n m) (omega arith)
        h,
  )
  loop_from k (suc r) m le h =
      let some_round : (args.sequence_length_round == 0) ≡ false = ground (arith, round_pos) in
      let long = padded args width seqlen k in
      elim (Bool-cases (leb long args.max_tokens_per_microbatch)) [
        | inr e ↦ inr (
          rw (known k (omega (arith, le)), some_round, e, micro_loop) refl,
          (k, omega arith, leb_false→lt long args.max_tokens_per_microbatch e),
        )
        | inl e ↦
            let m' = add_row args.max_tokens_per_microbatch k long m in
            let h' =
              add_row-IsCut args.max_tokens_per_microbatch (padded args width seqlen) k m h
                (leb→le long args.max_tokens_per_microbatch e) in
            let next : k + 1 + r ≡ k + suc r = omega arith in
            let go = loop_from (k + 1) r m' (omega (arith, le)) h' in
            let same : range_from (k + 1) r ≡ range_from (suc k) r =
              ap (λ i. range_from i r) (omega arith) in
            elim go [
              | inl (cut, run, is_cut) ↦ inl (
                cut,
                rw (known k (omega (arith, le)), some_round, e, micro_loop, sym same) run,
                subst (λ n. IsCut args.max_tokens_per_microbatch (padded args width seqlen) n cut)
                    next is_cut,
              )
              | inr (run, too_long) ↦ inr (
                rw (known k (omega (arith, le)), some_round, e, micro_loop, sym same) run,
                subst (TooLong args width seqlen) next too_long,
              )
            ]
      ]

  -- With known longest sequences, and a positive number to round them to, the loop over the places cuts them into
  -- micro-batches: they follow each other without a gap, none is empty if there is a place, the tokens of
  -- each (its rows of its length) are within the maximum, its length is that of its longest row, and none but the last had
  -- room for the next row. Or it raises AssertionError, and then one row is longer than the maximum.
  pub micro_loop-IsCut :
      ((cut : Micro) × (micro_loop args (ok width) longest (range_from 0 size) first_micro ≡ ok cut)
        × IsCut args.max_tokens_per_microbatch (padded args width seqlen) size cut)
      ⊎ ((micro_loop args (ok width) longest (range_from 0 size) first_micro
            ≡ raise assertion_error)
          × TooLong args width seqlen size)
  micro_loop-IsCut =
      let zero_size : 0 + size ≡ size = omega arith in
      let nothing : IsCut args.max_tokens_per_microbatch (padded args width seqlen) 0 first_micro =
        record {
          tiles = refl;
          full = tt;
          last = (λ p from to. absurd (omega (arith, to)), omega arith);
          whole = refl;
          tight = inr (refl, refl, refl);
          longest = refl;
        } in
      elim (loop_from 0 size first_micro (omega arith) nothing) [
        | inl (cut, run, is_cut) ↦ inl (
          cut,
          run,
          subst (λ n. IsCut args.max_tokens_per_microbatch (padded args width seqlen) n cut)
              zero_size is_cut,
        )
        | inr (run, too_long) ↦ inr (run, subst (TooLong args width seqlen) zero_size too_long)
      ]
