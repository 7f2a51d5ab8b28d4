-- ===== src/Engine/EventTable/Blocks.antt =====
-- src/engine/actor.cpp and src/engine/node.cpp: a block of memory that holds entries, its end, and
-- the loops and the assignments on it.
use simplx.Base.{
  ℕ, suc, ◌≤◌, ◌≡◌, refl, ◌∙◌, ap, true, false, Option, some, none, List, [], ◌∷◌, ◌++◌,
  append_assoc, arith, length, get_elem?, set, take, drop, take_all, copy_to, ltb, ◌==◌,
  if◌then◌else◌, inl, inr, Bool-cases,
}
use simplx.Engine.EventTable.Low.{
  max_event_id_count, RegisteredEvent, Block, find_slot, array_end, array_size,
  lf_registered_event_array_size, set_event_id,
}
use simplx.Engine.EventTable.Entries.{all_below, entry, position, put_entry, and_split, entry_split}

-- The entries, the end, and as many cells as `lfRegisteredEventArraySize` says.
pub record IsArray (b : Block) (es : List RegisteredEvent) : Type 0 where
  pub sentinel : RegisteredEvent
  pub rest : Block
  pub cells : b ≡ es ++ sentinel ∷ rest
  pub ends : sentinel.event_id ≡ max_event_id_count
  pub below : all_below es ≡ true
  pub sized : length b ≡ array_size (length es)

-- An array that was not allocated has no entries.
abbrev pub Holds : Option Block → List RegisteredEvent → Type 0
Holds none es = es ≡ []
Holds (some b) es = IsArray b es

pub below_head :
    (e : RegisteredEvent) (es : List RegisteredEvent)
    → all_below (e ∷ es) ≡ true
    → ((e.event_id == max_event_id_count) ≡ false) × (all_below es ≡ true)
below_head e es h =
    let both = and_split (ltb e.event_id max_event_id_count) (all_below es) h in
    (ground arith, both.1)

module _ (s : RegisteredEvent) (rest : Block) (ends : s.event_id ≡ max_event_id_count) where
  pub find_slot_lem :
      (id : ℕ) (es : List RegisteredEvent)
      → all_below es ≡ true
      → find_slot id (es ++ s ∷ rest) ≡ some (position id es)
  unfolding find_slot
  find_slot_lem id [] h = ground arith
  find_slot_lem id (e ∷ es) h =
      let under = below_head e es h in
      let ih = find_slot_lem id es under.1 in rw (under.0, ih) (ground arith)

  pub array_end_lem :
      (es : List RegisteredEvent)
      → all_below es ≡ true
      → array_end (es ++ s ∷ rest) ≡ some (length es)
  unfolding array_end
  array_end_lem [] h = ground arith
  array_end_lem (e ∷ es) h =
      let under = below_head e es h in let ih = array_end_lem es under.1 in rw (under.0, ih) refl

pub position-none :
    (id : ℕ) (es : List RegisteredEvent) → entry id es ≡ none → position id es ≡ length es
position-none id [] h = refl
position-none id (e ∷ es) h = elim (Bool-cases (e.event_id == id)) [
  | inl same ↦ let k : some e ≡ none = rw same at h in cc
  | inr other ↦
      let k : entry id es ≡ none = rw other at h in rw other (ap suc (position-none id es k))
]

pub get_elem?-end :
    (es : List RegisteredEvent) (s : RegisteredEvent) (rest : Block)
    → get_elem? (es ++ s ∷ rest) (length es) ≡ some s
get_elem?-end [] s rest = refl
get_elem?-end (e ∷ es) s rest = get_elem?-end es s rest

module _ (id : ℕ) (found : RegisteredEvent) where
  pub get_elem?-position :
      (es : List RegisteredEvent) (tail : Block)
      → entry id es ≡ some found
      → get_elem? (es ++ tail) (position id es) ≡ some found
  get_elem?-position [] tail h = cc
  get_elem?-position (e ∷ es) tail h = elim (entry_split id e es found h) [
    | inl (same, here) ↦ rw same (ap some here)
    | inr (other, there) ↦ rw other (get_elem?-position es tail there)
  ]

  pub set-position :
      (new : RegisteredEvent) (es : List RegisteredEvent) (tail : Block)
      → new.event_id ≡ id
      → entry id es ≡ some found
      → set (es ++ tail) (position id es) new ≡ put_entry new es ++ tail
  set-position new [] tail e h = cc
  set-position new (x ∷ es) tail e h = elim (entry_split id x es found h) [
    | inl (same, here) ↦
        let k : (x.event_id == new.event_id) ≡ true = ap (λ n. x.event_id == n) e ∙ same in
        rw (same, k) refl
    | inr (other, there) ↦
        let k : (x.event_id == new.event_id) ≡ false = ap (λ n. x.event_id == n) e ∙ other in
        rw (other, k) (ap (λ (ys : Block). x ∷ ys) (set-position new es tail e there))
  ]

pub put_entry-none :
    (new : RegisteredEvent) (es : List RegisteredEvent)
    → entry new.event_id es ≡ none
    → put_entry new es ≡ es ++ new ∷ []
put_entry-none new [] h = refl
put_entry-none new (x ∷ es) h = elim (Bool-cases (x.event_id == new.event_id)) [
  | inl same ↦ let k : some x ≡ none = rw same at h in cc
  | inr other ↦
      let k : entry new.event_id es ≡ none = rw other at h in
      rw other (ap (λ (ys : Block). x ∷ ys) (put_entry-none new es k))
]

-- The assignments at the end: the new entry and the new end.
pub set-end :
    (es : List RegisteredEvent) (s x new : RegisteredEvent) (rest : Block) (id : ℕ)
    → set_event_id (set (es ++ s ∷ x ∷ rest) (length es) new) (suc (length es)) id
      ≡ (es ++ new ∷ []) ++ record x { event_id = id } ∷ rest
unfolding set_event_id
set-end [] s x new rest id = refl
set-end (e ∷ es) s x new rest id = ap (λ (ys : Block). e ∷ ys) (set-end es s x new rest id)

-- The copy of a block into a larger one.
pub copy_to-append :
    (b fresh : Block) → length b ≤ length fresh → copy_to fresh 0 b ≡ b ++ drop (length b) fresh
unfolding copy_to
copy_to-append [] [] h = refl
copy_to-append [] (f ∷ fresh) h = refl
copy_to-append (x ∷ b) [] h = absurd (omega arith)
copy_to-append (x ∷ b) (f ∷ fresh) h =
    ap (λ (ys : Block). x ∷ ys) (copy_to-append b fresh (omega arith))

pub lf_registered_event_array_size_lem :
    (b : Block) (es : List RegisteredEvent)
    → IsArray b es
    → lf_registered_event_array_size b ≡ some (array_size (length es))
unfolding lf_registered_event_array_size
lf_registered_event_array_size_lem b es a =
    rw a.cells
      (rw (lf_registered_event_array_size, array_end_lem a.sentinel a.rest a.ends es a.below) refl)

-- The block that an array grows into.
pub copy_to-grown :
    (es : List RegisteredEvent) (s : RegisteredEvent) (rest b fresh : Block) (size : ℕ)
    → b ≡ es ++ s ∷ rest
    → length b ≡ size
    → size ≤ length fresh
    → copy_to fresh 0 (take size b) ≡ es ++ s ∷ (rest ++ drop size fresh)
copy_to-grown es s rest b fresh size cells sized fits =
    let whole : take size b ≡ b = take_all size b (omega arith) in
    rw whole (
      copy_to-append b fresh (omega arith)
      ∙ ap (λ (k : ℕ). b ++ drop k fresh) sized
      ∙ ap (λ (c : Block). c ++ drop size fresh) cells
      ∙ append_assoc es (s ∷ rest) (drop size fresh))

-- The first entry of an event in a block.
abbrev pub entry_in : ℕ → Block → Option RegisteredEvent
entry_in id [] = none
entry_in id (e ∷ es) =
    let rest = entry_in id es in
    if e.event_id == max_event_id_count then none else if e.event_id == id then some e else rest

pub entry_in-append :
    (s : RegisteredEvent) (rest : Block) (id : ℕ) (es : List RegisteredEvent)
    → s.event_id ≡ max_event_id_count
    → all_below es ≡ true
    → entry_in id (es ++ s ∷ rest) ≡ entry id es
entry_in-append s rest id [] ends h = rw ends refl
entry_in-append s rest id (e ∷ es) ends h =
    let under = below_head e es h in
    let ih = entry_in-append s rest id es ends under.1 in rw (under.0, ih) refl

pub entry_in_lem :
    (id : ℕ) (b : Block) (es : List RegisteredEvent) → IsArray b es → entry_in id b ≡ entry id es
entry_in_lem id b es a =
    ap (entry_in id) a.cells ∙ entry_in-append a.sentinel a.rest id es a.ends a.below
