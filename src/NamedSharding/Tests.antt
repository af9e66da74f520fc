-- ===== src/NamedSharding/Tests.antt =====
-- The example of the class's documentation, and the theorem at it.
use nemo_rl_vlm.Prelude.{ℕ, ◌≡◌, refl, List, [], ◌∷◌, range_from, ok, raise, index_error}
use nemo_rl_vlm.NamedSharding.{
  NamedSharding, init, get_worker_coords, get_ranks_by_coord, get_ranks, rank, sharding,
}
use nemo_rl_vlm.NamedSharding.Roundtrip.{get_ranks-get_worker_coords}

-- `dp` of size 1, `pp` of size 2 and `tp` of size 4.
abbrev eight : NamedSharding
eight = record { shape = 1 ∷ 2 ∷ 4 ∷ []; ranks = range_from 0 8; names = 0 ∷ 1 ∷ 2 ∷ [] }

eight_made : init (1 ∷ 2 ∷ 4 ∷ []) (range_from 0 8) (0 ∷ 1 ∷ 2 ∷ []) ≡ ok eight
unfolding init
eight_made = refl

second_half :
    get_ranks eight ((0, 0) ∷ (1, 1) ∷ [])
    ≡ ok (sharding (record { shape = 4 ∷ []; ranks = 4 ∷ 5 ∷ 6 ∷ 7 ∷ []; names = 2 ∷ [] }))
unfolding get_ranks
second_half = refl

column_of_two : get_ranks_by_coord eight ((2, 3) ∷ []) ≡ ok (3 ∷ 7 ∷ [])
unfolding get_ranks_by_coord
column_of_two = refl

outside_axis : get_ranks eight ((2, 4) ∷ []) ≡ raise index_error
unfolding get_ranks
outside_axis = refl

get_ranks-get_worker_coords_example :
    (coords : List (ℕ × ℕ)) × (get_worker_coords eight 6 ≡ ok coords)
    × (get_ranks_by_coord eight coords ≡ ok (6 ∷ []))
    × (get_ranks eight coords ≡ ok (rank 6))
get_ranks-get_worker_coords_example =
    get_ranks-get_worker_coords (1 ∷ 2 ∷ 4 ∷ []) (range_from 0 8) (0 ∷ 1 ∷ 2 ∷ []) eight eight_made
      refl (refl, (refl, (refl, tt))) 6 refl
