-- ===== src/NamedSharding/Roundtrip.antt =====
-- From a rank to its coordinates and back.
use mathlib.Core.List.{append_assoc}
use native.Mathlib.Nat.{mod-lt, div-add-mod', div-lt_iff_lt-mul, mul-le-mul_right}
use nemo_rl_vlm.Prelude.{
  ℕ, zero, suc, ◌+◌, ◌*◌, ◌/◌, ◌%◌, ◌≤◌, ◌<◌, ◌≡◌, refl, sym, ap, ◌∙◌, subst, inl, inr, List, [],
  ◌∷◌, ◌++◌, map, Option, none, some, Bool, true, false, ◌||◌, Result, ok, raise, index_error, ltb,
  ◌==◌, ==→eq, ==_refl, ==_false→ne, lt→ltb, Bool-cases, ok_inj, length, length-append, length-take,
  length-drop, get_elem?, get_elem?-lt, get_or, set, take, drop, replicate, arith, tests,
}
use nemo_rl_vlm.Prelude.Sort.{sort, insert_sorted}
use nemo_rl_vlm.NamedSharding.{
  NamedSharding, product, member, has_duplicates, init, axis_of, places, unravel, zip,
  get_worker_coords, set_indices, select, get_ranks_by_coord, unset, rank, selection, get_ranks,
}

some_inj : {a b : ℕ} → some a ≡ some b → a ≡ b
some_inj {a} {b} h = ap (λ o. elim o [ none ↦ a | some x ↦ x ]) h

-- An item of a block that is cut out.
get_elem?-take :
    {A : Type 0} (n i : ℕ) (xs : List A) → i < n → get_elem? (take n xs) i ≡ get_elem? xs i
get_elem?-take zero i xs h = absurd (omega (arith, h))
get_elem?-take (suc n) i [] h = refl
get_elem?-take (suc n) zero (x ∷ xs) h = refl
get_elem?-take (suc n) (suc i) (x ∷ xs) h = get_elem?-take n i xs (omega (arith, h))

get_elem?-drop :
    {A : Type 0} (n i j : ℕ) (xs : List A) → n + i ≡ j → get_elem? (drop n xs) i ≡ get_elem? xs j
get_elem?-drop zero i j xs h = ap (get_elem? xs) (omega (arith, h))
get_elem?-drop (suc n) i j [] h = refl
get_elem?-drop (suc n) i zero (x ∷ xs) h = absurd (omega (arith, h))
get_elem?-drop (suc n) i (suc j) (x ∷ xs) h = get_elem?-drop n i j xs (omega (arith, h))

positive : (d p place : ℕ) → place < d * p → 0 < p
positive d p place inside = elim (Bool-cases (p == 0)) [
  | inl no_items ↦
      let zero_items : d * p ≡ d * 0 = ap (λ m. d * m) (==→eq p 0 no_items) in
      absurd (omega (arith, inside, zero_items))
  | inr some_items ↦ omega (tests, ==_false→ne p 0 some_items)
]

-- The item at the coordinates of a place is the item at that place.
select-unravel :
    (shape ranks : List ℕ) (place r : ℕ)
    → length ranks ≡ product shape
    → get_elem? ranks place ≡ some r
    → select shape (map some (unravel shape place)) ranks ≡ r ∷ []
unfolding select
select-unravel [] (x ∷ []) zero r h e = ap (λ x. x ∷ []) (some_inj e)
select-unravel [] (x ∷ []) (suc place) r h e = absurd (ground arith)
select-unravel [] [] place r h e = absurd (ground arith)
select-unravel [] (x ∷ y ∷ xs) place r h e = absurd (omega (arith, h))
select-unravel (d ∷ ds) ranks place r h e =
    let p = product ds in
    let q = place / p in
    let inside : place < d * p = omega (arith, get_elem?-lt ranks place r e, h) in
    let some_block = positive d p place inside in
    let rest = mod-lt place some_block in
    let whole = div-add-mod' place p in
    let block_exists : q < d = (div-lt_iff_lt-mul some_block).1 inside in
    let within : suc q * p ≤ d * p = mul-le-mul_right p block_exists in
    let block = take p (drop (q * p) ranks) in
    let number : length block ≡ p =
      omega
        (arith, length-take {0} p (drop (q * p) ranks), length-drop {0} (q * p) ranks, h, within) in
    let item =
      get_elem?-take p (place % p) (drop (q * p) ranks) rest
      ∙ get_elem?-drop (q * p) (place % p) place ranks whole
      ∙ e in
    select-unravel ds block (place % p) r number item

length-unravel : (shape : List ℕ) (place : ℕ) → length (unravel shape place) ≡ length shape
length-unravel [] place = refl
length-unravel (d ∷ ds) place = ap suc (length-unravel ds (place % product ds))

-- Coordinates of a place that exists are within the shape.
abbrev InShape : List ℕ → List ℕ → Type 0
InShape [] [] = Unit
InShape (d ∷ ds) (c ∷ cs) = (c < d) × InShape ds cs
InShape _ _ = ⊥

unravel-InShape :
    (shape : List ℕ) (place : ℕ) → place < product shape → InShape shape (unravel shape place)
unravel-InShape [] place h = tt
unravel-InShape (d ∷ ds) place h =
    let some_block = positive d (product ds) place h in
    (
      (div-lt_iff_lt-mul some_block).1 h,
      unravel-InShape ds (place % product ds) (mod-lt place some_block),
    )

-- The names are different.
abbrev pub Distinct : List ℕ → Type 0
Distinct [] = Unit
Distinct (m ∷ ms) = (member m ms ≡ false) × Distinct ms

neither : (a b : Bool) → (a || b) ≡ false → (a ≡ false) × (b ≡ false)
neither true b h = absurd (ground arith)
neither false b h = (refl, h)

axis_of-member : (name : ℕ) (names : List ℕ) → member name names ≡ false → axis_of name names ≡ none
unfolding axis_of
axis_of-member name [] h = refl
axis_of-member name (m ∷ ms) h =
    let both = neither (m == name) (member name ms) h in
    rw (axis_of-member name ms both.1, both.0) refl

axis_of-append :
    (done : List ℕ) (name : ℕ) (rest : List ℕ)
    → member name rest ≡ false
    → axis_of name (done ++ name ∷ rest) ≡ some (length done)
unfolding axis_of
axis_of-append [] name rest h = rw (axis_of-member name rest h, ==_refl name) refl
axis_of-append (d ∷ done) name rest h = rw (axis_of-append done name rest h) refl

set-append :
    (done : List (Option ℕ)) (x y : Option ℕ) (rest : List (Option ℕ))
    → set (done ++ x ∷ rest) (length done) y ≡ done ++ y ∷ rest
set-append [] x y rest = refl
set-append (d ∷ done) x y rest = ap (◌∷◌ d) (set-append done x y rest)

get_or-append :
    (done : List ℕ) (x : ℕ) (rest : List ℕ) → get_or (done ++ x ∷ rest) (length done) 0 ≡ x
get_or-append [] x rest = refl
get_or-append (d ∷ done) x rest = get_or-append done x rest

module _ (outside : Result (Option (List (Option ℕ)))) (s : NamedSharding) where
  -- The loop over the coordinates of all axes, of which some have been set.
  set_indices-all :
      (dn rn ds rs : List ℕ) (di : List (Option ℕ)) (rc : List ℕ)
      → s.names ≡ dn ++ rn
      → s.shape ≡ ds ++ rs
      → length dn ≡ length ds
      → length dn ≡ length di
      → length rn ≡ length rs
      → InShape rs rc
      → Distinct rn
      → set_indices outside s (zip rn rc) (di ++ replicate (length rs) none)
        ≡ ok (some (di ++ map some rc))
  unfolding set_indices
  set_indices-all dn [] ds [] di [] en es l m k h u = refl
  set_indices-all dn [] ds [] di (c ∷ rc) en es l m k h u = elim h [ ]
  set_indices-all dn [] ds (d ∷ rs) di rc en es l m k h u = absurd (omega (arith, k))
  set_indices-all dn (name ∷ rn) ds [] di rc en es l m k h u = absurd (omega (arith, k))
  set_indices-all dn (name ∷ rn) ds (d ∷ rs) di [] en es l m k h u = elim h [ ]
  set_indices-all dn (name ∷ rn) ds (d ∷ rs) di (c ∷ rc) en es l m k h u =
      let axis : axis_of name s.names ≡ some (length dn) =
        ap (axis_of name) en ∙ axis_of-append dn name rn u.0 in
      let dimension : get_or s.shape (length dn) 0 ≡ d =
        ap (λ shape. get_or shape (length dn) 0) es
        ∙ ap (λ i. get_or (ds ++ d ∷ rs) i 0) l
        ∙ get_or-append ds d rs in
      let small : ltb c (get_or s.shape (length dn) 0) ≡ true =
        lt→ltb c (get_or s.shape (length dn) 0) (subst (λ e. c < e) (sym dimension) h.0) in
      let put : set (di ++ none ∷ replicate (length rs) none) (length dn) (some c)
          ≡ di ++ some c ∷ replicate (length rs) none =
        ap (λ i. set (di ++ none ∷ replicate (length rs) none) i (some c)) m
        ∙ set-append di none (some c) (replicate (length rs) none) in
      let rest =
        set_indices-all (dn ++ name ∷ []) rn (ds ++ d ∷ []) rs (di ++ some c ∷ []) rc
          (en ∙ sym (append_assoc dn (name ∷ []) rn)) (es ∙ sym (append_assoc ds (d ∷ []) rs))
          (omega (arith, l, length-append {0} dn (name ∷ []), length-append {0} ds (d ∷ [])))
          (omega (arith, m, length-append {0} dn (name ∷ []), length-append {0} di (some c ∷ [])))
          (omega (arith, k)) h.1 u.1 in
      rw (axis, small, put, set_indices)
        (ap (set_indices outside s (zip rn rc))
            (sym (append_assoc di (some c ∷ []) (replicate (length rs) none)))
          ∙ rest
          ∙ ap (λ l'. ok (some l')) (append_assoc di (some c ∷ []) (map some rc)))

places-none : (r start : ℕ) (xs : List ℕ) → member r xs ≡ false → places r start xs ≡ []
places-none r start [] h = refl
places-none r start (x ∷ xs) h =
    let both = neither (x == r) (member r xs) h in rw both.0 (places-none r (suc start) xs both.1)

-- A rank that stands once has one place.
places-one :
    (r start : ℕ) (xs : List ℕ)
    → has_duplicates xs ≡ false
    → member r xs ≡ true
    → (i : ℕ) × (get_elem? xs i ≡ some r) × (places r start xs ≡ (start + i) ∷ [])
places-one r start [] u h = absurd (ground arith)
places-one r start (x ∷ xs) u h =
    let both = neither (member x xs) (has_duplicates xs) u in
    elim (Bool-cases (x == r)) [
      | inl e ↦
          let same = ==→eq x r e in
          (
            0,
            ap some same,
            rw e (
                ap (λ l. start ∷ l)
                  (places-none r (suc start) xs (subst (λ y. member y xs ≡ false) same both.0))
                ∙ ap (λ i. i ∷ []) (omega arith)),
          )
      | inr e ↦
          let later : member r xs ≡ true = rw e at h in
          let (i, found, only) = places-one r (suc start) xs both.1 later in
          (suc i, found, rw e (only ∙ ap (λ j. j ∷ []) (omega arith)))
    ]

unset-all : (cs xs : List ℕ) → length cs ≡ length xs → unset (map some cs) xs ≡ []
unset-all [] xs h = refl
unset-all (c ∷ cs) [] h = refl
unset-all (c ∷ cs) (x ∷ xs) h = unset-all cs xs (omega (arith, h))

init-ok :
    (shape ranks names : List ℕ) (s : NamedSharding)
    → init shape ranks names ≡ ok s
    → (length shape ≡ length names)
      × (has_duplicates ranks ≡ false)
      × (record { shape = shape; ranks = ranks; names = names } ≡ s)
unfolding init
init-ok shape ranks names s h = elim (Bool-cases (length shape == length names)) [
  | inr e ↦ absurd (ground (arith, e, h))
  | inl e ↦ elim (Bool-cases (has_duplicates ranks)) [
    | inl f ↦ absurd (ground (arith, e, f, h))
    | inr f ↦ (==→eq (length shape) (length names) e, f, ok_inj (sym (rw (e, f) refl) ∙ h))
  ]
]

-- For the sharding that the constructor makes of an array, with a name for each axis and all names different: a rank
-- of the array has coordinates, and both `get_ranks_by_coord` and `get_ranks` at these return that rank.
pub get_ranks-get_worker_coords :
    (shape ranks names : List ℕ) (s : NamedSharding)
    → init shape ranks names ≡ ok s
    → length ranks ≡ product shape
    → Distinct names
    → (r : ℕ) → member r ranks ≡ true
    → (coords : List (ℕ × ℕ)) × (get_worker_coords s r ≡ ok coords)
      × (get_ranks_by_coord s coords ≡ ok (r ∷ []))
      × (get_ranks s coords ≡ ok (rank r))
unfolding get_worker_coords get_ranks_by_coord get_ranks sort insert_sorted selection
get_ranks-get_worker_coords shape ranks names s made number distinct r exists =
    let (same, unique, is_s) = init-ok shape ranks names s made in
    let t : NamedSharding = record { shape = shape; ranks = ranks; names = names } in
    let (place, found, only) = places-one r 0 ranks unique exists in
    let cs = unravel shape place in
    let inside =
      unravel-InShape shape place (omega (arith, get_elem?-lt ranks place r found, number)) in
    let here : places r 0 ranks ≡ place ∷ [] = only ∙ ap (λ i. i ∷ []) (omega arith) in
    let indexed : (outside : Result (Option (List (Option ℕ))))
        → set_indices outside t (zip names cs) (replicate (length shape) none)
          ≡ ok (some (map some cs)) =
      λ outside.
        set_indices-all outside t [] names [] shape [] cs refl refl refl refl (sym same) inside
          distinct in
    let item = select-unravel shape ranks place r number found in
    let no_shape = unset-all cs shape (length-unravel shape place) in
    let no_names = unset-all cs names (length-unravel shape place ∙ same) in
    subst
      (λ u.
        (coords : List (ℕ × ℕ)) × (get_worker_coords u r ≡ ok coords)
        × (get_ranks_by_coord u coords ≡ ok (r ∷ []))
        × (get_ranks u coords ≡ ok (rank r)))
      is_s
      (
        zip names cs,
        rw (here, get_worker_coords) refl,
        rw (indexed (ok none), item, get_ranks_by_coord) refl,
        rw (indexed (raise index_error), item, no_shape, no_names, get_ranks) refl,
      )
