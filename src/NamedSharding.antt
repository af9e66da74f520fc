-- ===== src/NamedSharding.antt =====
-- `NamedSharding` (nemo_rl/distributed/named_sharding.py): an array of ranks with named axes. The array is one of
-- integers, as numpy keeps it: its shape, and its items in row-major order. Names are numbered.
pub mod Roundtrip
mod Tests
use nemo_rl_vlm.Prelude.{
  ℕ, zero, suc, ◌+◌, ◌*◌, ◌/◌, ◌%◌, List, [], ◌∷◌, ◌++◌, map, flatten, Option, none, some, Bool,
  true, false, ◌||◌, Result, ok, raise, ◌>>=◌, index_error, value_error, ltb, leb, ◌==◌,
  if◌then◌else◌, not, length, get_or, set, take, drop, replicate, range_from,
}
use nemo_rl_vlm.Prelude.Sort.{sort}

pub record NamedSharding : Type 0 where
  pub shape : List ℕ
  pub ranks : List ℕ
  pub names : List ℕ

abbrev pub product : List ℕ → ℕ
product [] = 1
product (d ∷ ds) = d * product ds

abbrev pub member : ℕ → List ℕ → Bool
member x [] = false
member x (y ∷ ys) = y == x || member x ys

-- `np.unique(..., return_counts=True)` finds a count above 1.
abbrev pub has_duplicates : List ℕ → Bool
has_duplicates [] = false
has_duplicates (x ∷ xs) = member x xs || has_duplicates xs

-- The constructor, on an integer array.
unfoldable pub init : List ℕ → List ℕ → List ℕ → Result NamedSharding
init shape ranks names =
    if not (length shape == length names)
    then raise value_error
    else if has_duplicates ranks
    then raise value_error
    else ok record { shape = shape; ranks = ranks; names = names }

-- `_name_to_axis`: of axes of the same name the last one.
unfoldable pub axis_of : ℕ → List ℕ → Option ℕ
axis_of name [] = none
axis_of name (m ∷ ms) = elim (axis_of name ms) [
  | some i ↦ some (suc i)
  | none ↦ if m == name then some 0 else none
]

unfoldable pub get_axis_index : NamedSharding → ℕ → Result ℕ
unfolding axis_of
get_axis_index s name = elim (axis_of name s.names) [
  | none ↦ raise value_error
  | some axis ↦ ok axis
]

-- The places of a rank in the items.
abbrev pub places : ℕ → ℕ → List ℕ → List ℕ
places rank start [] = []
places rank start (x ∷ xs) =
    let rest = places rank (suc start) xs in if x == rank then start ∷ rest else rest

-- The coordinates of a place.
abbrev pub unravel : List ℕ → ℕ → List ℕ
unravel [] place = []
unravel (d ∷ ds) place = place / product ds ∷ unravel ds (place % product ds)

-- `zip`
abbrev pub zip : List ℕ → List ℕ → List (ℕ × ℕ)
zip [] ys = []
zip (x ∷ xs) [] = []
zip (x ∷ xs) (y ∷ ys) = (x, y) ∷ zip xs ys

-- `np.where` finds the rank; `item` refuses more than one place.
unfoldable pub get_worker_coords : NamedSharding → ℕ → Result (List (ℕ × ℕ))
get_worker_coords s worker = elim (places worker 0 s.ranks) [
  | [] ↦ raise value_error
  | place ∷ (others → _) ↦ elim others [
    | [] ↦ ok (zip s.names (unravel s.shape place))
    | _ ∷ _ ↦ raise value_error
  ]
]

-- The loop over the keyword arguments, which replaces `slice(None)`, `none` here, by an index. `outside` is what
-- comes of an index out of bounds.
unfoldable pub set_indices :
    Result (Option (List (Option ℕ)))
    → NamedSharding
    → List (ℕ × ℕ)
    → List (Option ℕ)
    → Result (Option (List (Option ℕ)))
unfolding axis_of
set_indices outside s [] indices = ok (some indices)
set_indices outside s ((name, index) ∷ coords) indices = elim (axis_of name s.names) [
  | none ↦ raise value_error
  | some axis ↦
      let rest = set_indices outside s coords (set indices axis (some index)) in
      if ltb index (get_or s.shape axis 0) then rest else outside
]

-- `layout[indices]`, flattened.
unfoldable pub select : List ℕ → List (Option ℕ) → List ℕ → List ℕ
unfolding flatten
select [] indices ranks = ranks
select (d ∷ ds) [] ranks = ranks
select (d ∷ ds) (some i ∷ indices) ranks =
    select ds indices (take (product ds) (drop (i * product ds) ranks))
select (d ∷ ds) (none ∷ indices) ranks = flatten (
    map (λ i. select ds indices (take (product ds) (drop (i * product ds) ranks))) (range_from 0 d))

-- `sorted(np.unique(...))`
abbrev pub drop_repeats : List ℕ → List ℕ
drop_repeats [] = []
drop_repeats (x ∷ xs) = let rest = drop_repeats xs in if member x xs then rest else x ∷ rest

unfoldable pub get_ranks_by_coord : NamedSharding → List (ℕ × ℕ) → Result (List ℕ)
unfolding set_indices select sort
get_ranks_by_coord s coords = do
  indices ← set_indices (ok none) s coords (replicate (length s.shape) none)
  elim indices [
    | none ↦ ok []
    | some found ↦ ok (drop_repeats (sort leb (select s.shape found s.ranks)))
  ]

-- What is left of the shape, or of the names.
abbrev pub unset : List (Option ℕ) → List ℕ → List ℕ
unset [] xs = []
unset (i ∷ indices) [] = []
unset (none ∷ indices) (x ∷ xs) = x ∷ unset indices xs
unset (some i ∷ indices) (x ∷ xs) = unset indices xs

pub data Selection : Type 0 where
  sharding : NamedSharding → Selection
  rank : ℕ → Selection

-- A subset without axes is one rank.
unfoldable pub selection : List ℕ → List ℕ → List ℕ → Result Selection
unfolding init
selection shape (r ∷ []) [] = ok (rank r)
selection shape ranks [] = raise value_error
selection shape ranks (name ∷ names) = do s ← init shape ranks (name ∷ names); ok (sharding s)

unfoldable pub get_ranks : NamedSharding → List (ℕ × ℕ) → Result Selection
unfolding set_indices select selection
get_ranks s coords = do
  indices ← set_indices (raise index_error) s coords (replicate (length s.shape) none)
  elim indices [
    | none ↦ raise index_error
    | some found ↦
        selection (unset found s.shape) (select s.shape found s.ranks) (unset found s.names)
  ]
