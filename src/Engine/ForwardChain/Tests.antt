-- ===== src/Engine/ForwardChain/Tests.antt =====
-- A chain of the links at 10 and 20, one of the link at 30, and a free link at 40.
use simplx.Base.{◌≡◌, refl, some, none, [], ◌∷◌, arith, ◌==◌, if◌then◌else◌}
use simplx.Engine.ForwardChain.{Memory, ForwardChain, push_chain_back, begin, erase}
use simplx.Engine.ForwardChain.Linked.{Linked, Holds, Disjoint}
use simplx.Engine.ForwardChain.Edit.{Begun, erase_lem}
use simplx.Engine.ForwardChain.Walk.{push_chain_back-begin}

abbrev links : Memory
links a = if a == 10 then 20 else if a == 20 then 28 else if a == 30 then 38 else a

abbrev two : ForwardChain
two = record { head = 10; tail = 20 }

abbrev one : ForwardChain
one = record { head = 30; tail = 30 }

two-Holds : Holds links two (10 ∷ 20 ∷ [])
unfolding Holds Linked
two-Holds = (refl, (refl, (ground arith, (refl, (refl, (ground arith, ground arith))))))

one-Holds : Holds links one (30 ∷ [])
unfolding Holds Linked
one-Holds = (refl, (refl, (ground arith, ground arith)))

apart : Disjoint (10 ∷ 20 ∷ []) (30 ∷ [])
apart a h = ground arith

apart_back : Disjoint (30 ∷ []) (10 ∷ 20 ∷ [])
apart_back a h = ground arith

push_chain_back-begin_example :
    (memory' : Memory) × (c' : ForwardChain) × (other' : ForwardChain) × (push_chain_back links two
        one
      ≡ (memory', (c', other')))
    × (begin memory' other' ≡ none)
push_chain_back-begin_example =
    push_chain_back-begin links two one 10 (20 ∷ []) 30 [] two-Holds one-Holds

-- The links of `two` as `begin` leaves them.
abbrev begun : Memory
begun a = if a == 10 then 20 else if a == 20 then 0 else a

two-Begun : Begun begun two (10 ∷ 20 ∷ [])
two-Begun = record {
  front = refl;
  back = refl;
  nexts = (refl, (refl, tt));
  distinct = ground arith;
}

erase_lem_example :
    (memory' : Memory) × (c' : ForwardChain) × (erase begun two
        (record { previous = 0; current = 10 })
      ≡ some (memory', (c', record { previous = 0; current = 20 })))
    × Begun memory' c' (20 ∷ [])
    × (memory' 10 ≡ 10)
erase_lem_example = erase_lem begun two [] 10 (20 ∷ []) two-Begun
