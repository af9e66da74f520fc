-- ===== src/Packing/Modified.antt =====
-- `ModifiedFirstFitDecreasingPacker` (nemo_rl/data/packing/algorithms.py). An item is an index with
-- its size. Comparisons with `bin_capacity / 2`, `/ 3` and `/ 6` are multiplied out.
pub mod Rounds
pub mod Phases
pub mod Passes
pub mod Leftovers
pub mod Packs
use nemo_rl_vlm.Prelude.{
  ℕ, zero, suc, ◌+◌, ◌-◌, ◌*◌, List, [], ◌∷◌, ◌++◌, map, Option, none, some, Bool, true, false,
  ◌&&◌, ◌||◌, Result, ok, raise, ◌>>=◌, value_error, index_error, ltb, leb, ◌==◌, if◌then◌else◌,
  length, total, indexed_from,
}
use nemo_rl_vlm.Prelude.Sort.{sort}
use nemo_rl_vlm.Packing.Base.{validate_sequence_lengths}

-- (index, size)
abbrev pub Item : Type 0
Item = ℕ × ℕ

-- `sum(size for _, size in b)`
abbrev pub bin_size : List Item → ℕ
bin_size = total (λ it. it.1)

pub record Classes : Type 0 where
  pub large : List Item
  pub medium : List Item
  pub small : List Item
  pub tiny : List Item

unfoldable pub classify : ℕ → Item → Classes → Classes
classify cap it c =
    if ltb cap (2 * it.1)
    then record c { large = c.large ++ it ∷ [] }
    else if ltb cap (3 * it.1)
    then record c { medium = c.medium ++ it ∷ [] }
    else if ltb cap (6 * it.1)
    then record c { small = c.small ++ it ∷ [] }
    else record c { tiny = c.tiny ++ it ∷ [] }

-- `_classify_items`
unfoldable pub classify_items : ℕ → List Item → Classes → Classes
unfolding classify
classify_items cap [] c = c
classify_items cap (it ∷ items) c = classify_items cap items (classify cap it c)

-- A popped item with the rest, behind an item that stays.
abbrev pub keep : Item → Option (Item × List Item) → Option (Item × List Item)
keep it none = none
keep it (some (found, rest)) = some (found, it ∷ rest)

-- `for i, (idx, size) in enumerate(items): if size <= room: items.pop(i)`
unfoldable pub pop_first_fit : ℕ → List Item → Option (Item × List Item)
pop_first_fit room [] = none
pop_first_fit room (it ∷ items) =
    if leb it.1 room then some (it, items) else keep it (pop_first_fit room items)

-- The same from the end of the list: `for j in range(len(small) - 1, -1, -1)`.
unfoldable pub pop_last_fit : ℕ → List Item → Option (Item × List Item)
pop_last_fit room [] = none
pop_last_fit room (it ∷ items) = elim (pop_last_fit room items) [
  | some (found, rest) ↦ some (found, it ∷ rest)
  | none ↦ if leb it.1 room then some (it, items) else none
]

-- Phase 2, one bin.
unfoldable pub add_medium : ℕ → List Item → List Item → List Item × List Item
unfolding pop_first_fit
add_medium cap b medium = elim (pop_first_fit (cap - bin_size b) medium) [
  | none ↦ (b, medium)
  | some (it, rest) ↦ (b ++ it ∷ [], rest)
]

-- Phase 3, one bin. The first small item is popped before a second is looked for.
abbrev pub is_medium : ℕ → Item → Bool
is_medium cap it = ltb cap (3 * it.1) && leb (2 * it.1) cap

abbrev pub has_medium : ℕ → List Item → Bool
has_medium cap [] = false
has_medium cap (it ∷ b) = is_medium cap it || has_medium cap b

unfoldable pub add_second : ℕ → List Item → Item → List Item → List Item × List Item
unfolding pop_last_fit
add_second room b first small = elim (pop_last_fit (room - first.1) small) [
  | none ↦ (b, small)
  | some (second, rest) ↦ (b ++ first ∷ second ∷ [], rest)
]

unfoldable pub add_smalls : ℕ → List Item → List Item → List Item × List Item
unfolding add_second
add_smalls cap b [] = (b, [])
add_smalls cap b (first ∷ []) = (b, first ∷ [])
add_smalls cap b (first ∷ next ∷ small) =
    if has_medium cap b || ltb (cap - bin_size b) (first.1 + next.1)
    then (b, first ∷ next ∷ small)
    else add_second (cap - bin_size b) b first (next ∷ small)

abbrev pub last_size : Item → List Item → ℕ
last_size it [] = it.1
last_size it (next ∷ items) = last_size next items

-- Phase 4, the `while` of one bin. A round takes one item, so the number of items is enough fuel.
unfoldable pub fill : ℕ → ℕ → List Item → List Item → List Item × List Item
unfolding pop_first_fit
fill zero cap b items = (b, items)
fill (suc fuel) cap b [] = (b, [])
fill (suc fuel) cap b (it ∷ items) = elim (ltb (cap - bin_size b) (last_size it items)) [
  | true ↦ (b, it ∷ items)
  | false ↦ elim (pop_first_fit (cap - bin_size b) (it ∷ items)) [
    | none ↦ (b, it ∷ items)
    | some (chosen, rest) ↦ fill fuel cap (b ++ chosen ∷ []) rest
  ]
]

unfoldable pub fill_bin : ℕ → List Item → List Item → List Item × List Item
unfolding fill
fill_bin cap b items = fill (length items) cap b items

-- One phase over all bins, first to last (phases 2 and 4) and last to first (phase 3).
unfoldable pub forward :
    (List Item → List Item → List Item × List Item)
    → List (List Item)
    → List Item
    → List (List Item) × List Item
forward step [] items = ([], items)
forward step (b ∷ bins) items =
    let (b', items') = step b items in
    let (bins', items'') = forward step bins items' in (b' ∷ bins', items'')

unfoldable pub backward :
    (List Item → List Item → List Item × List Item)
    → List (List Item)
    → List Item
    → List (List Item) × List Item
backward step [] items = ([], items)
backward step (b ∷ bins) items =
    let (bins', items') = backward step bins items in
    let (b', items'') = step b items' in (b' ∷ bins', items'')

-- `bisect(sizes, size)` on an ascending list, and `list.insert`.
unfoldable pub bisect : List ℕ → ℕ → ℕ
bisect [] size = 0
bisect (s ∷ sizes) size = if leb s size then suc (bisect sizes size) else 0

unfoldable pub insert_at {ℓ} : {A : Type ℓ} → ℕ → A → List A → List A
insert_at (suc i) x (y ∷ ys) = y ∷ insert_at i x ys
insert_at _ x ys = x ∷ ys

-- Phase 5: `ffd_bins` and `ffd_bin_sizes`.
pub record Ffd : Type 0 where
  pub bins : List (List Item)
  pub sizes : List ℕ

unfoldable pub put_bin : List Item → ℕ → List (List Item) → List ℕ → Ffd
unfolding bisect insert_at
put_bin b size bins sizes = record {
  bins = insert_at (bisect sizes size) b bins;
  sizes = insert_at (bisect sizes size) size sizes;
}

-- `ffd_bin_sizes[0]` raises IndexError on an empty list.
unfoldable pub place_leftover : ℕ → Item → List (List Item) → List ℕ → Result Ffd
unfolding put_bin
place_leftover cap it (b ∷ bins) (s ∷ sizes) =
    if leb it.1 (cap - s)
    then ok (put_bin (b ++ it ∷ []) (s + it.1) bins sizes)
    else ok (put_bin (it ∷ []) it.1 (b ∷ bins) (s ∷ sizes))
place_leftover cap it bins sizes = raise index_error

unfoldable pub place_leftovers : ℕ → List Item → Ffd → Result Ffd
unfolding place_leftover
place_leftovers cap [] s = ok s
place_leftovers cap (it ∷ items) s =
    place_leftover cap it s.bins s.sizes >>= place_leftovers cap items

-- `[[idx for idx, _ in b] for b in bins if b]`
unfoldable pub index_bins : List (List Item) → List (List ℕ)
index_bins [] = []
index_bins ([] ∷ bins) = index_bins bins
index_bins ((it ∷ b) ∷ bins) = map (λ t. t.0) (it ∷ b) ∷ index_bins bins

abbrev pub size_ge : Item → Item → Bool
size_ge p q = leb q.1 p.1

abbrev pub size_le : Item → Item → Bool
size_le p q = leb p.1 q.1

-- The items as `(index, size)` pairs.
abbrev pub items_from : ℕ → List ℕ → List Item
items_from i [] = []
items_from i (len ∷ lens) = (i, len) ∷ items_from (suc i) lens

-- `any(l <= 0 for l in sequence_lengths)`
abbrev pub has_zero : List ℕ → Bool
has_zero [] = false
has_zero (len ∷ lens) = leb len 0 || has_zero lens

-- Phases 1 to 4: the bins of the large items, and what is left over.
unfoldable pub pack_large : ℕ → List Item → List (List Item) × List Item
unfolding classify_items add_medium add_smalls fill_bin forward backward
pack_large cap items =
    let c = classify_items cap items (record { large = []; medium = []; small = []; tiny = [] }) in
    let (bins, medium) =
      forward (add_medium cap) (map (λ it. it ∷ []) (sort size_ge c.large))
        (sort size_ge c.medium) in
    let (bins', small) = backward (add_smalls cap) bins (sort size_le c.small) in
    forward (fill_bin cap) bins' (sort size_ge ((medium ++ small) ++ sort size_le c.tiny))

unfoldable pub pack_modified : ℕ → List ℕ → Result (List (List ℕ))
unfolding validate_sequence_lengths pack_large place_leftovers index_bins
pack_modified cap lens = if cap == 0 || has_zero lens then raise value_error else do
  _ ← validate_sequence_lengths cap lens
  let packed = pack_large cap (items_from 0 lens)
  s ← place_leftovers cap (sort size_ge packed.1) (record { bins = [] ∷ []; sizes = 0 ∷ [] })
  ok (index_bins (packed.0 ++ s.bins))
