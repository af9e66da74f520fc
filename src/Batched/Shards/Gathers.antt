-- ===== src/Batched/Shards/Gathers.antt =====
-- What a shard gathers: the rows at the indices of all of its chunks.
use mathlib.Core.List.{append-nil, append_assoc}
use nemo_rl_vlm.Prelude.{
  ℕ, ◌<◌, ◌≡◌, refl, sym, arith, ap, ◌∙◌, List, [], ◌∷◌, ◌++◌, map, flatten, true, Result, ok,
  length, All, ==_refl,
}
use nemo_rl_vlm.Batched.{
  Column, vector, matrix, packed, plain, Columns, on_rows, on_data, all_rows, index_select, each,
}
use nemo_rl_vlm.Batched.Rows.{index_select-append}
use nemo_rl_vlm.Batched.Columnwise.{CanSlice, rows_at-head}
use nemo_rl_vlm.Batched.Shards.{join, add_rows, gather}

module _ {E : Type 0} where
  join-on_rows :
      (is js : List ℕ) (v : Column E)
      → join (on_rows (λ A. index_select is) v) (on_rows (λ A. index_select js) v)
        ≡ ok (on_rows (λ A. index_select (is ++ js)) v)
  unfolding join
  join-on_rows is js (vector xs) = ap (λ r. ok (vector r)) (sym (index_select-append is js xs))
  join-on_rows is js (matrix xs) = ap (λ r. ok (matrix r)) (sym (index_select-append is js xs))
  join-on_rows is js (packed d xs) =
      rw (==_refl d, join) (ap (λ r. ok (packed d r)) (sym (index_select-append is js xs)))
  join-on_rows is js (plain xs) = ap (λ r. ok (plain r)) (sym (index_select-append is js xs))

  module _ (n : ℕ) (is : List ℕ) (ok_is : All (λ i. i < n) is) where
    add_rows_first :
        (cols : Columns E)
        → CanSlice is cols
        → all_rows n cols ≡ true
        → add_rows is [] cols ≡ ok (on_data (λ A. index_select is) cols)
    unfolding add_rows
    add_rows_first [] s e = refl
    add_rows_first ((k, v) ∷ cols) s e =
        let (here, s', e') = rows_at-head n is k v cols ok_is s e in
        rw (here, add_rows_first cols s' e', add_rows) refl

    add_rows-on_data :
        (js : List ℕ) (cols : Columns E)
        → CanSlice is cols
        → all_rows n cols ≡ true
        → add_rows is (on_data (λ A. index_select js) cols) cols
          ≡ ok (on_data (λ A. index_select (js ++ is)) cols)
    unfolding add_rows
    add_rows-on_data js [] s e = refl
    add_rows-on_data js ((k, v) ∷ cols) s e =
        let (here, s', e') = rows_at-head n is k v cols ok_is s e in
        rw (here, join-on_rows js is v, add_rows-on_data js cols s' e', add_rows) refl

  -- The indices of every chunk are rows of the batch, and can be cut from it.
  abbrev pub AllCut : ℕ → Columns E → List (List ℕ) → Type 0
  AllCut n cols iss = All (λ is. All (λ i. i < n) is × CanSlice is cols) iss

  gather-on_data :
      (n : ℕ) (cols : Columns E) (e : all_rows n cols ≡ true) (js : List ℕ) (iss : List (List ℕ))
      → AllCut n cols iss
      → gather iss (on_data (λ A. index_select js) cols) cols
        ≡ ok (on_data (λ A. index_select (js ++ flatten iss)) cols)
  unfolding gather flatten
  gather-on_data n cols e js [] h =
      ap (λ l. ok (on_data (λ A. index_select l) cols)) (sym (append-nil js))
  gather-on_data n cols e js (is ∷ iss) h =
      let (inside, cut) = h.0 in
      rw (add_rows-on_data n is inside js cols cut e, gather)
        (gather-on_data n cols e (js ++ is) iss h.1
          ∙ ap (λ l. ok (on_data (λ A. index_select l) cols)) (append_assoc js is (flatten iss)))

  -- A shard of at least one chunk.
  pub gather-flatten :
      (n : ℕ) (cols : Columns E) (e : all_rows n cols ≡ true) (iss : List (List ℕ))
      → AllCut n cols iss
      → 0 < length iss
      → gather iss [] cols ≡ ok (on_data (λ A. index_select (flatten iss)) cols)
  unfolding gather flatten
  gather-flatten n cols e [] h pos = absurd (omega arith)
  gather-flatten n cols e (is ∷ iss) h pos =
      let (inside, cut) = h.0 in
      rw (add_rows_first n is inside cols cut e, gather) (gather-on_data n cols e is iss h.1)

-- `each` succeeds if every call does.
pub each_ok :
    {A B : Type 0} (f : A → Result B) (g : A → B) (xs : List A)
    → All (λ x. f x ≡ ok (g x)) xs
    → each f xs ≡ ok (map g xs)
unfolding each
each_ok f g [] h = refl
each_ok f g (x ∷ xs) h = rw (h.0, each_ok f g xs h.1, each) refl
