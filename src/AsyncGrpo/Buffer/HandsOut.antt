-- ===== src/AsyncGrpo/Buffer/HandsOut.antt =====
-- What `sample` (nemo_rl/algorithms/async_utils.py) hands out and what stays in the buffer.
use nemo_rl_vlm.Prelude.{
  ℕ, ◌<◌, List, ◌++◌, map, some, true, false, ◌≡◌, ap, ◌∙◌, subst, inl, inr, length, All, ok,
  Result-cases, Option-cases,
}
use nemo_rl_vlm.Prelude.Multiset.{SameItems}
use nemo_rl_vlm.AsyncGrpo.Buffer.{Buffer, Sampled, sample}
use nemo_rl_vlm.AsyncGrpo.Buffer.Spec.{Entry, is_intended, has_older, IsValid, spec_sample, Agrees}
use nemo_rl_vlm.AsyncGrpo.Buffer.Push.{spec_sample-hands_out}
use nemo_rl_vlm.AsyncGrpo.Buffer.Refines.{sample-refines}

module _ {A : Type 0} (groups current age : ℕ) where
  -- The entries `es` of a buffer, of which no entry is too old, are those that are handed out and those that stay.
  abbrev pub HandsOut : List (Entry A) → Buffer A → Sampled A → Type 0
  HandsOut es b s =
      (taken : List (Entry A)) × (left : List (Entry A)) × (s.items ≡ map (λ e. e.0) taken)
      × (s.sampled_weights ≡ map (λ e. e.1) taken)
      × IsValid b left
      × (length taken ≡ groups)
      × All (λ e. is_intended current age e ≡ true) taken
      × SameItems (taken ++ left) es
      × (has_older current age es ≡ false)

  -- When `sample` hands out groups of a well-formed buffer, asked for a positive number, these with their versions
  -- are exactly as many entries as asked for, each generated within the age window and meant for the current
  -- step; together with the entries of the buffer that it leaves, which is well-formed, they are all the
  -- entries; and no entry was too old.
  pub sample-HandsOut :
      0 < groups
      → (b b' : Buffer A) (es : List (Entry A)) (s : Sampled A) → IsValid b es
      → sample groups current age b ≡ ok (b', some s)
      → HandsOut es b' s
  sample-HandsOut some_group b b' es s valid run =
      let agrees =
        subst (λ r. Agrees b r (spec_sample groups current age es)) run
          (sample-refines current age groups some_group b es valid) in
      elim (Result-cases (spec_sample groups current age es)) [
        | inr (e, raises) ↦ elim (subst (Agrees b (ok (b', some s))) raises agrees) [ ]
        | inl ((answer, left), returns) ↦ elim (Option-cases answer) [
          | inl nothing ↦
              let waits = returns ∙ ap (λ a. ok (a, left)) nothing in
              elim (subst (Agrees b (ok (b', some s))) waits agrees) [ ]
          | inr (taken, something) ↦
              let hands = returns ∙ ap (λ a. ok (a, left)) something in
              let (items, weights, valid', _) = subst (Agrees b (ok (b', some s))) hands agrees in
              let (number, intended, same, fresh) =
                spec_sample-hands_out groups current age es taken left hands in
              (taken, left, items, weights, valid', number, intended, same, fresh)
        ]
      ]
