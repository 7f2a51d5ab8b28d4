-- ===== src/Engine/RefMapper/Tests.antt =====
-- A mapper with the live actors 1 and 2, and 3 in its queue.
use simplx.Base.{ℕ, suc, ◌≡◌, refl, not, ◌||◌, ◌&&◌, some, [], ◌∷◌, arith, ◌==◌}
use simplx.Engine.RefMapper.{RefMapper, on_actor_added, on_actor_removed, get_num_actors}
use simplx.Engine.RefMapper.Counts.{IsValid, has, on_actor_added_lem, on_actor_removed_lem}

abbrev three : RefMapper
three = record { live = 2 ∷ 1 ∷ []; queue = 3 ∷ [] }

three-IsValid : IsValid three
three-IsValid = record {
  live_once = ground arith;
  queue_once = ground arith;
  apart = λ a h. ground arith;
}

on_actor_added_lem_example :
    (m' : RefMapper) × (on_actor_added three 4 ≡ some m')
    × ((a : ℕ) → has m' a ≡ ((a == 4) || has three a))
    × (get_num_actors m' ≡ 4)
    × IsValid m'
on_actor_added_lem_example = on_actor_added_lem three 4 three-IsValid refl

on_actor_removed_lem_example :
    (m' : RefMapper) × (on_actor_removed three 3 ≡ some m')
    × ((a : ℕ) → has m' a ≡ (has three a && not (a == 3)))
    × (suc (get_num_actors m') ≡ 3)
    × IsValid m'
on_actor_removed_lem_example = on_actor_removed_lem three 3 three-IsValid refl
