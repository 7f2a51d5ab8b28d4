-- ===== src/Engine/RefMapper.antt =====
-- src/engine/RefMapper.cpp, the actors of one core: the live set and the queue of the new ones.
-- An actor has an identity in place of its address, so the asserts that a pointer is not null hold
-- of themselves. Another failed `assert` is `none`.
pub mod Counts
mod Tests
use simplx.Base.{
  ℕ, ◌+◌, ◌<◌, Bool, true, false, not, ◌||◌, Option, some, none, List, [], ◌∷◌, ◌++◌, length, zero,
  suc, ◌==◌, if◌then◌else◌,
}
use simplx.Engine.ForwardChain.Linked.{mem}

-- `m_LiveActorSet` as the list of its elements, and `m_ActorQueue`.
pub record RefMapper : Type 0 where
  pub live : List ℕ
  pub queue : List ℕ

abbrev pub make : RefMapper
make = record { live = []; queue = [] }

pub erase : ℕ → List ℕ → List ℕ
erase a [] = []
erase a (x ∷ xs) = let rest = erase a xs in if a == x then xs else x ∷ rest

-- The loop of `DispatchQueue`: the live set afterwards, or a failed `assert`.
unfoldable pub dispatch : List ℕ → List ℕ → Option (List ℕ)
dispatch [] live = some live
dispatch (a ∷ queue) live =
    let rest = dispatch queue (a ∷ live) in if not (mem a live) then rest else none

unfoldable pub dispatch_queue : RefMapper → Option RefMapper
dispatch_queue m = elim (dispatch m.queue m.live) [
  | none ↦ none
  | some live ↦ some (record { live = live; queue = [] })
]

unfoldable pub on_actor_added : RefMapper → ℕ → Option RefMapper
unfolding dispatch_queue
on_actor_added m actor = elim (dispatch_queue m) [
  | none ↦ none
  | some m' ↦ some (record m' { queue = m'.queue ++ actor ∷ [] })
]

unfoldable pub on_actor_removed : RefMapper → ℕ → Option RefMapper
unfolding dispatch_queue erase
on_actor_removed m actor = elim (dispatch_queue m) [
  | none ↦ none
  | some m' ↦ if mem actor m'.live then some (record m' { live = erase actor m'.live }) else none
]

abbrev pub get_num_actors : RefMapper → ℕ
get_num_actors m = length m.live + length m.queue
