-- ===== src/Packing/Concatenative/Laws.antt =====
-- The concatenative packer keeps the order of the sequences, and respects both limits.
use nemo_rl_vlm.Prelude.{
  ℕ, zero, suc, ◌+◌, ◌≤◌, ◌<◌, max, List, [], ◌∷◌, ◌++◌, flatten, Option, none, some, Bool, false,
  ◌||◌, ◌≡◌, refl, sym, ap, ◌∙◌, inl, inr, ok, ltb, arith, Bool-cases, ltb_false→le, length, get_or,
  total, total-append, All, All-append, range_from, length-append, >>=-eq-ok,
}
use mathlib.Core.List.{append-nil, append_assoc}
use nemo_rl_vlm.Packing.Base.{validate_sequence_lengths, load, IsPacking}
use nemo_rl_vlm.Packing.Concatenative.{
  State, exceeds_limit, close_bin, place, place_all, pack_concatenative,
}

pub flatten-snoc {ℓ} :
    {A : Type ℓ} (xss : List (List A)) (xs : List A) → flatten (xss ++ xs ∷ []) ≡ flatten xss ++ xs
unfolding flatten
flatten-snoc [] xs = append-nil xs
flatten-snoc (ys ∷ xss) xs = rw (flatten-snoc xss xs) (sym (append_assoc ys (flatten xss) xs))

pub range_from-snoc : (i n j : ℕ) → i + n ≡ j → range_from i n ++ j ∷ [] ≡ range_from i (suc n)
range_from-snoc i zero j e = let e' : i ≡ j = omega arith in rw e'
range_from-snoc i (suc n) j e = ap (◌∷◌ i) (range_from-snoc (suc i) n j (omega arith))

pub validate_ok :
    (cap : ℕ) (lens : List ℕ)
    → All (λ len. len ≤ cap) lens
    → validate_sequence_lengths cap lens ≡ ok tt
unfolding validate_sequence_lengths
validate_ok cap [] h = refl
validate_ok cap (len ∷ lens) h = ground (arith, validate_ok cap lens h.1)

pub ok_validate :
    (cap : ℕ) (lens : List ℕ) {u : Unit {0}}
    → validate_sequence_lengths cap lens ≡ ok u
    → All (λ len. len ≤ cap) lens
unfolding validate_sequence_lengths
ok_validate cap [] h = tt
ok_validate cap (len ∷ lens) h = elim (Bool-cases (ltb cap len)) [
  | inl e ↦ absurd (ground arith)
  | inr e ↦ (ltb_false→le _ _ e, ok_validate cap lens (ground arith))
]

-- A bin that a limit has closed holds no more than the limit, or the one sequence that it must.
abbrev pub Within : Option ℕ → List ℕ → Type 0
Within none bin = Unit
Within (some limit) bin = length bin ≤ max 1 limit

module _ (cap : ℕ) (limit : Option ℕ) (lens : List ℕ) where
  record Inv (i : ℕ) (s : State) : Type 0 where
    order : flatten s.bins ++ s.current_bin ≡ range_from 0 i
    loaded : load lens s.current_bin ≡ s.current_length
    room : s.current_length ≤ cap
    fits : All (λ bin. load lens bin ≤ cap) s.bins
    nonempty : All (λ bin. 0 < length bin) s.bins
    limited : All (Within limit) s.bins
    within : Within limit s.current_bin

  flatten-close_bin :
      (bins : List (List ℕ)) (bin : List ℕ) → flatten (close_bin bins bin) ≡ flatten bins ++ bin
  flatten-close_bin bins [] = sym (append-nil (flatten bins))
  flatten-close_bin bins (i ∷ bin) = flatten-snoc bins (i ∷ bin)

  All-close_bin {κ} :
      (P : List ℕ → Type κ) (bins : List (List ℕ)) (bin : List ℕ)
      → All P bins
      → P bin
      → All P (close_bin bins bin)
  All-close_bin P bins [] h p = h
  All-close_bin P bins (i ∷ bin) h p = All-append P bins ((i ∷ bin) ∷ []) h (p, tt)

  close_bin_nonempty :
      (bins : List (List ℕ)) (bin : List ℕ)
      → All (λ b. 0 < length b) bins
      → All (λ b. 0 < length b) (close_bin bins bin)
  close_bin_nonempty bins [] h = h
  close_bin_nonempty bins (i ∷ bin) h =
      All-append (λ b. 0 < length b) bins ((i ∷ bin) ∷ []) h (omega arith, tt)

  Within-one : (limit : Option ℕ) (i : ℕ) → Within limit (i ∷ [])
  Within-one none i = tt
  Within-one (some limit) i = omega arith

  Within-nil : (limit : Option ℕ) → Within limit []
  Within-nil none = tt
  Within-nil (some limit) = omega arith

  or_false : (a b : Bool) → (a || b) ≡ false → (a ≡ false) × (b ≡ false)
  or_false a b h = ground arith

  Within-snoc :
      (limit : Option ℕ) (bin : List ℕ) (i : ℕ)
      → exceeds_limit limit bin ≡ false
      → Within limit (bin ++ i ∷ [])
  Within-snoc none bin i h = tt
  Within-snoc (some limit) bin i h = ground (arith, length-append bin (i ∷ []))

  place-Inv :
      (i len : ℕ) (s : State)
      → len ≤ cap
      → get_or lens i 0 ≡ len
      → Inv i s
      → Inv (suc i) (place cap limit i len s)
  unfolding place
  place-Inv i len s small here inv =
      elim (Bool-cases (ltb cap (s.current_length + len) || exceeds_limit limit s.current_bin)) [
        | inl e ↦ rw e (record {
          order =
              ap (λ l. l ++ i ∷ []) (flatten-close_bin s.bins s.current_bin ∙ inv.order)
              ∙ range_from-snoc 0 i i (omega arith);
          loaded = omega arith;
          room = small;
          fits = All-close_bin (λ b. load lens b ≤ cap) s.bins s.current_bin inv.fits (omega arith);
          nonempty = close_bin_nonempty s.bins s.current_bin inv.nonempty;
          limited = All-close_bin (Within limit) s.bins s.current_bin inv.limited inv.within;
          within = Within-one limit i;
        })
        | inr e ↦
            let (fits, under) =
              or_false (ltb cap (s.current_length + len)) (exceeds_limit limit s.current_bin) e in
            let load_snoc = total-append (λ j. get_or lens j 0) s.current_bin (i ∷ []) in
            rw e (record {
              order =
                  sym (append_assoc (flatten s.bins) s.current_bin (i ∷ []))
                  ∙ ap (λ l. l ++ i ∷ []) inv.order
                  ∙ range_from-snoc 0 i i (omega arith);
              loaded = omega (arith, load_snoc);
              room = ltb_false→le _ _ fits;
              fits = inv.fits;
              nonempty = inv.nonempty;
              limited = inv.limited;
              within = Within-snoc limit s.current_bin i under;
            })
      ]

  place_all-Inv :
      (i : ℕ) (rest : List ℕ) (n : ℕ) (s : State)
      → i + length rest ≡ n
      → All (λ len. len ≤ cap) rest
      → ((j k : ℕ) → j + i ≡ k → get_or lens k 0 ≡ get_or rest j 0)
      → Inv i s
      → Inv n (place_all cap limit i rest s)
  unfolding place_all
  place_all-Inv i [] n s e small suffix inv = let e' : i ≡ n = omega arith in rw (← e') inv
  place_all-Inv i (len ∷ rest) n s e small suffix inv =
      place_all-Inv (suc i) rest n (place cap limit i len s) (omega arith) small.1
        (λ j k f. suffix (suc j) k (omega arith))
        (place-Inv i len s small.0 (suffix 0 i (omega arith)) inv)

  -- Sequences that fit are packed in their order, within both limits.
  pub pack_concatenative_ok :
      All (λ len. len ≤ cap) lens
      → (bins : List (List ℕ)) × (pack_concatenative cap limit lens ≡ ok bins)
        × (flatten bins ≡ range_from 0 (length lens))
        × IsPacking cap lens bins
        × All (Within limit) bins
  unfolding pack_concatenative flatten
  pack_concatenative_ok small =
      let start : State = record { bins = []; current_bin = []; current_length = 0 } in
      let s : State = place_all cap limit 0 lens start in
      let inv : Inv (length lens) s =
        place_all-Inv 0 lens (length lens) start (omega arith) small
          (λ j k e. let e' : k ≡ j = omega arith in ap (λ t. get_or lens t 0) e')
          (record {
            order = refl;
            loaded = refl;
            room = omega arith;
            fits = tt;
            nonempty = tt;
            limited = tt;
            within = Within-nil limit;
          }) in
      let order = flatten-close_bin s.bins s.current_bin ∙ inv.order in
      (
        close_bin s.bins s.current_bin,
        rw (validate_ok cap lens small),
        order,
        record {
          partition = λ f. ap (total f) order;
          fits = All-close_bin (λ b. load lens b ≤ cap) s.bins s.current_bin inv.fits (omega arith);
          nonempty = close_bin_nonempty s.bins s.current_bin inv.nonempty;
        },
        All-close_bin (Within limit) s.bins s.current_bin inv.limited inv.within,
      )

  -- A run that returns had only sequences that fit.
  pub ok_pack_concatenative :
      {bins : List (List ℕ)}
      → pack_concatenative cap limit lens ≡ ok bins
      → All (λ len. len ≤ cap) lens
  unfolding pack_concatenative flatten
  ok_pack_concatenative h =
      let (u, valid, _) = >>=-eq-ok (validate_sequence_lengths cap lens) _ h in
      ok_validate cap lens valid
