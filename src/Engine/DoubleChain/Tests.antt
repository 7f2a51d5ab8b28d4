-- ===== src/Engine/DoubleChain/Tests.antt =====
-- A chain of the links at 10, 20 and 30, one of the link at 40, and a free link at 50.
use simplx.Base.{◌≡◌, refl, some, [], ◌∷◌, arith, ◌==◌, if◌then◌else◌}
use simplx.Engine.ForwardChain.Linked.{Disjoint}
use simplx.Engine.DoubleChain.{Memory, DoubleChain, Chained, insert, remove, increment, decrement}
use simplx.Engine.DoubleChain.Links.{Holds}
use simplx.Engine.DoubleChain.Place.{remove_lem}
use simplx.Engine.DoubleChain.Ends.{insert_lem}
use simplx.Engine.DoubleChain.Splice.{decrement-increment}

abbrev links : Memory
links = record {
  previous = λ a. if a == 20 then 10 else if a == 30 then 20 else if a == 50 then 50 else 0;
  next = λ a. if a == 10 then 20 else if a == 20 then 30 else if a == 50 then 50 else 0;
}

abbrev three : DoubleChain
three = record { head = 10; tail = 30 }

abbrev one : DoubleChain
one = record { head = 40; tail = 40 }

three-Holds : Holds links three (10 ∷ 20 ∷ 30 ∷ [])
three-Holds = record {
  front = refl;
  back = refl;
  nexts = (refl, (refl, (refl, tt)));
  prevs = (refl, (refl, (refl, tt)));
  distinct = ground arith;
}

one-Holds : Holds links one (40 ∷ [])
one-Holds = record {
  front = refl;
  back = refl;
  nexts = (refl, tt);
  prevs = (refl, tt);
  distinct = ground arith;
}

apart : Disjoint (10 ∷ 20 ∷ 30 ∷ []) (40 ∷ [])
apart a h = ground arith

insert_lem_example :
    (r : Chained) × (insert links three 20 50 ≡ some (r, 50))
    × Holds r.memory r.chain (10 ∷ 50 ∷ 20 ∷ 30 ∷ [])
insert_lem_example =
    insert_lem links three (10 ∷ []) 50 (20 ∷ 30 ∷ []) three-Holds (omega arith) refl

remove_lem_example :
    (r : Chained) × (remove links three 20 ≡ some r)
    × (Holds r.memory r.chain (10 ∷ 30 ∷ [])
        × (r.memory.previous 20 ≡ 20)
        × (r.memory.next 20 ≡ 20))
remove_lem_example = remove_lem links three (10 ∷ []) 20 (30 ∷ []) three-Holds

decrement-increment_example : (increment links 20 ≡ some 30) × (decrement links three 30 ≡ 20)
decrement-increment_example = decrement-increment links three (10 ∷ []) 20 (30 ∷ []) three-Holds
