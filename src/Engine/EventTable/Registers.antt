-- ===== src/Engine/EventTable/Registers.antt =====
-- src/engine/actor.cpp: what registering and unregistering do to the entries of an array, the
-- allocation and the growth of its block included.
use simplx.Base.{
  ℕ, suc, ◌+◌, ◌%◌, ◌<◌, ◌≡◌, refl, sym, ◌∙◌, ap, subst, true, false, not, ◌&&◌, ◌||◌, Option, some,
  none, List, [], ◌∷◌, ◌++◌, arith, length, length-append, get_elem?, set, drop, length-drop,
  length-set, ltb, lt→ltb, ◌==◌, if◌then◌else◌, ◌⊎◌, inl, inr, Bool-cases, Option-cases, ==_iff,
}
use simplx.Engine.EventTable.Low.{
  max_event_id_count, low_frequency_array_alignement, RegisteredEvent, Block, Allocate, Outcome,
  returns, throws, is_unregistered, find_slot, array_size, set_event_id, put, overwrite, append,
  register_in, register_low,
}
use simplx.Engine.EventTable.Entries.{
  all_below, all_good, entry, position, put_entry, put_entry-all_below, added, length-put_entry,
  entry-event_id, entry-is_good,
}
use simplx.Engine.EventTable.Blocks.{
  IsArray, Holds, find_slot_lem, position-none, get_elem?-end, get_elem?-position, set-position,
  put_entry-none, set-end, copy_to-grown, lf_registered_event_array_size_lem,
}

-- The allocator gives blocks of the size that was asked for.
abbrev pub IsAllocator : Allocate → Type 0
IsAllocator allocate = (n : ℕ) (b : Block) → allocate n ≡ some b → length b ≡ n

-- The outcomes of registering: an allocation failed and the entries are the same, or the array holds
-- the entries with the new one.
abbrev pub Registered :
    Allocate → Outcome (Option Block) ℕ → RegisteredEvent → List RegisteredEvent → Type 0
Registered allocate r new es =
    ((n : ℕ) × (allocate n ≡ none)
      × (array' : Option Block) × (r ≡ throws array')
      × Holds array' es)
    ⊎ ((array' : Option Block) × (r ≡ returns array' (added new.event_id es))
        × Holds array' (put_entry new es))

first_block :
    (fresh : Block)
    → length fresh ≡ low_frequency_array_alignement
    → IsArray (set_event_id fresh 0 max_event_id_count) []
unfolding set_event_id
first_block [] h = absurd (omega arith)
first_block (f ∷ fresh) h = record {
  sentinel = record f { event_id = max_event_id_count };
  rest = fresh;
  cells = refl;
  ends = refl;
  below = refl;
  sized = h;
}

module _ (new : RegisteredEvent) (es : List RegisteredEvent) where
  -- The cells that the new entry needs are there.
  put_lem :
      (s : RegisteredEvent) (rest : Block)
      → new.event_id < max_event_id_count
      → all_below es ≡ true
      → entry new.event_id es ≡ none
      → suc (length es) < length (es ++ s ∷ rest)
      → length (es ++ s ∷ rest) ≡ array_size (suc (length es))
      → (b : Block) × (put
            (es ++ s ∷ rest)
            (length es)
            new.event_id
            new.event_handler
            new.static_event_handler
          ≡ returns (some b) 1)
        × IsArray b (put_entry new es)
  unfolding put
  put_lem s [] h below out room sized = absurd (omega (arith, length-append es (s ∷ [])))
  put_lem s (x ∷ rest) h below out room sized =
      let fits : ltb (length es + 1) (length (es ++ s ∷ x ∷ rest)) ≡ true = ground arith in
      let next : length es + 1 ≡ suc (length es) = omega arith in
      let b = put_entry new es ++ record x { event_id = max_event_id_count } ∷ rest in
      let same : set_event_id (set (es ++ s ∷ x ∷ rest) (length es) new) (suc (length es))
            max_event_id_count
          ≡ b =
        rw (put_entry-none new es out) (set-end es s x new rest max_event_id_count) in
      let longer : length (put_entry new es) ≡ suc (length es) =
        rw (put_entry-none new es out) (omega (arith, length-append es (new ∷ []))) in
      let total : length b ≡ length (es ++ s ∷ x ∷ rest) = omega (
        arith,
        longer,
        length-append es (s ∷ x ∷ rest),
        length-append (put_entry new es) (record x { event_id = max_event_id_count } ∷ rest),
      ) in
      (
        b,
        rw (put, fits, next, same) refl,
        record {
          sentinel = record x { event_id = max_event_id_count };
          rest = rest;
          cells = refl;
          ends = refl;
          below = put_entry-all_below new es h below;
          sized = total ∙ sized ∙ ap array_size (sym longer);
        },
      )

  -- The array grows when the new end would not fit.
  append_lem :
      (allocate : Allocate) (b : Block)
      → IsAllocator allocate
      → IsArray b es
      → new.event_id < max_event_id_count
      → entry new.event_id es ≡ none
      → Registered allocate
          (append allocate b (length es) new.event_id new.event_handler new.static_event_handler)
          new
          es
  unfolding append
  append_lem allocate b lawful a h out =
      let n = length es in
      let size = lf_registered_event_array_size_lem b es a in
      let once : added new.event_id es ≡ 1 = rw (added, out) refl in
      let length_b : length b ≡ n + suc (length a.rest) =
        rw a.cells (length-append es (a.sentinel ∷ a.rest)) in
      elim (Bool-cases (n + 1 == array_size n)) [
        | inl full ↦
            let whole : (array_size n % low_frequency_array_alignement == 0) ≡ true =
              ground arith in
            elim (Option-cases (allocate (array_size n + low_frequency_array_alignement))) [
              | inl no_memory ↦
                  inl (_, no_memory, some b, rw (append, size, full, whole, no_memory) refl, a)
              | inr (fresh, given) ↦
                  let sized = lawful _ fresh given in
                  let tail = drop (array_size n) fresh in
                  let copied =
                    copy_to-grown es a.sentinel a.rest b fresh _ a.cells a.sized (omega arith) in
                  let grown : length (es ++ a.sentinel ∷ (a.rest ++ tail)) ≡ array_size (suc n) =
                    let full_eq : n + 1 ≡ array_size n = (==_iff (n + 1) (array_size n)).0 full in
                    omega (
                      arith,
                      length-append es (a.sentinel ∷ (a.rest ++ tail)),
                      length-append a.rest tail,
                      length-drop (array_size n) fresh,
                      length_b,
                      a.sized,
                      sized,
                      full_eq,
                    ) in
                  let done =
                    put_lem a.sentinel (a.rest ++ tail) h a.below out (omega arith) grown in
                  inr (
                    some done.0,
                    rw (append, size, full, whole, given, copied, once) done.1,
                    done.2,
                  )
            ]
        | inr free ↦
            let length_cells : length (es ++ a.sentinel ∷ a.rest) ≡ array_size n =
              ap (length {A = RegisteredEvent}) (sym a.cells) ∙ a.sized in
            let same_size : array_size n ≡ array_size (suc n) = ground arith in
            let done =
              put_lem a.sentinel a.rest h a.below out (omega arith) (length_cells ∙ same_size) in
            let put_b =
              ap (λ (c : Block). put c n new.event_id new.event_handler new.static_event_handler)
                a.cells
              ∙ done.1 in
            inr (some done.0, rw (append, size, free, once) put_b, done.2)
      ]

  -- The branch for an event that was unregistered, and for one that has a handler.
  overwrite_lem :
      (b : Block) (e : RegisteredEvent)
      → IsArray b es
      → all_good es ≡ true
      → new.event_id < max_event_id_count
      → entry new.event_id es ≡ some e
      → (b' : Block) × (overwrite b
            (position new.event_id es)
            e
            new.event_handler
            new.static_event_handler
          ≡ returns (some b') (added new.event_id es))
        × IsArray b' (put_entry new es)
  unfolding overwrite
  overwrite_lem b e a good h there =
      let same_id = entry-event_id new.event_id es e there in
      let fine : (not (is_unregistered e.static_event_handler)
            || (is_unregistered e.static_event_handler && e.event_handler == 0))
          ≡ true =
        let g = entry-is_good new.event_id es e there good in ground arith in
      let once : (if is_unregistered e.static_event_handler then 1 else 0) ≡ added new.event_id es =
        rw (added, there) refl in
      let e' : RegisteredEvent = record e {
        event_handler = new.event_handler;
        static_event_handler = new.static_event_handler;
      } in
      let as_new : e' ≡ new = λ i. record new { event_id = same_id i } in
      let b' = put_entry new es ++ a.sentinel ∷ a.rest in
      let written : set b (position new.event_id es) e' ≡ b' =
        ap (λ (c : Block). set c (position new.event_id es) e') a.cells
        ∙ ap (set (es ++ a.sentinel ∷ a.rest) (position new.event_id es)) as_new
        ∙ set-position new.event_id e new es (a.sentinel ∷ a.rest) refl there in
      (
        b',
        rw (overwrite, fine) (λ i. returns (some (written i)) (once i)),
        record {
          sentinel = a.sentinel;
          rest = a.rest;
          cells = refl;
          ends = a.ends;
          below = put_entry-all_below new es h a.below;
          sized =
              ap (length {A = RegisteredEvent}) (sym written)
              ∙ length-set b (position new.event_id es) e'
              ∙ a.sized
              ∙ ap array_size (sym (length-put_entry new es e there));
        },
      )

  register_in_lem :
      (allocate : Allocate) (b : Block)
      → IsAllocator allocate
      → IsArray b es
      → all_good es ≡ true
      → new.event_id < max_event_id_count
      → Registered allocate
          (register_in allocate b new.event_id new.event_handler new.static_event_handler)
          new
          es
  unfolding register_in
  register_in_lem allocate b lawful a good h =
      let found : find_slot new.event_id b ≡ some (position new.event_id es) =
        ap (find_slot new.event_id) a.cells
        ∙ find_slot_lem a.sentinel a.rest a.ends new.event_id es a.below in
      elim (Option-cases (entry new.event_id es)) [
        | inl out ↦
            let at_end = position-none new.event_id es out in
            let cell : get_elem? b (length es) ≡ some a.sentinel =
              ap (λ (c : Block). get_elem? c (length es)) a.cells
              ∙ get_elem?-end es a.sentinel a.rest in
            let other : (a.sentinel.event_id == new.event_id) ≡ false = rw a.ends (ground arith) in
            let there : find_slot new.event_id b ≡ some (length es) = found ∙ ap some at_end in
            rw (register_in, there, cell, other) (append_lem allocate b lawful a h out)
        | inr (e, there) ↦
            let cell : get_elem? b (position new.event_id es) ≡ some e =
              ap (λ (c : Block). get_elem? c (position new.event_id es)) a.cells
              ∙ get_elem?-position new.event_id e es (a.sentinel ∷ a.rest) there in
            let same : (e.event_id == new.event_id) ≡ true =
              (==_iff e.event_id new.event_id).1 (entry-event_id new.event_id es e there) in
            let done = overwrite_lem b e a good h there in
            inr (some done.0, rw (register_in, found, cell, same) done.1, done.2)
      ]

  -- With a lawful allocator, registering an event id in range, in an array with good entries, fails
  -- no assert and reads and writes within its block: it either throws because an allocation failed,
  -- and leaves the entries as they were, or puts the handler in the event's entry, that of an event that
  -- has none being a new one, and answers 1 when the event had no handler.
  pub register_low_lem :
      (allocate : Allocate) (array : Option Block)
      → IsAllocator allocate
      → Holds array es
      → all_good es ≡ true
      → new.event_id < max_event_id_count
      → Registered allocate
          (register_low allocate array new.event_id new.event_handler new.static_event_handler)
          new
          es
  unfolding register_low
  register_low_lem allocate none lawful empty good h =
      let in_range = lt→ltb new.event_id max_event_id_count h in
      elim (Option-cases (allocate low_frequency_array_alignement)) [
        | inl no_memory ↦
            inl (_, no_memory, none, rw (register_low, in_range, no_memory) refl, empty)
        | inr (fresh, given) ↦
            let a =
              subst (IsArray (set_event_id fresh 0 max_event_id_count)) (sym empty)
                (first_block fresh (lawful _ fresh given)) in
            rw (register_low, in_range, given) (register_in_lem allocate _ lawful a good h)
      ]
  register_low_lem allocate (some b) lawful a good h =
      let in_range = lt→ltb new.event_id max_event_id_count h in
      rw (register_low, in_range) (register_in_lem allocate b lawful a good h)
