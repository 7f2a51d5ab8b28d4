-- ===== src/Engine/EventTable/Entries.antt =====
-- What an array of registered events stands for: the list of the entries before its end, which has
-- the laws of an association list.
use simplx.Base.{
  ℕ, suc, ◌+◌, ◌<◌, ◌≡◌, refl, sym, ◌∙◌, ap, ◌⊎◌, inl, inr, Bool-cases, ==_iff, Bool, true, false,
  not, ◌&&◌, Option, some, none, List, [], ◌∷◌, arith, length, ltb, ◌==◌, if◌then◌else◌,
}
use simplx.Engine.EventTable.Low.{
  max_event_id_count, null, on_unregistered_event, on_event_of, RegisteredEvent, is_unregistered,
  unregistered,
}

-- An entry has a handler, or was unregistered.
abbrev pub is_good : RegisteredEvent → Bool
is_good e = elim e.static_event_handler [
  | null ↦ false
  | on_unregistered_event ↦ e.event_handler == 0
  | on_event_of k ↦ not (e.event_handler == 0)
]

abbrev pub all_below : List RegisteredEvent → Bool
all_below [] = true
all_below (e ∷ es) = ltb e.event_id max_event_id_count && all_below es

abbrev pub all_good : List RegisteredEvent → Bool
all_good [] = true
all_good (e ∷ es) = is_good e && all_good es

-- The first entry of an event, and its index, or that of the end.
abbrev pub entry : ℕ → List RegisteredEvent → Option RegisteredEvent
entry event_id [] = none
entry event_id (e ∷ es) =
    let rest = entry event_id es in if e.event_id == event_id then some e else rest

abbrev pub position : ℕ → List RegisteredEvent → ℕ
position event_id [] = 0
position event_id (e ∷ es) =
    let rest = suc (position event_id es) in if e.event_id == event_id then 0 else rest

abbrev pub put_entry : RegisteredEvent → List RegisteredEvent → List RegisteredEvent
put_entry new [] = new ∷ []
put_entry new (e ∷ es) =
    let rest = e ∷ put_entry new es in if e.event_id == new.event_id then new ∷ es else rest

abbrev pub unregister_entries : List RegisteredEvent → List RegisteredEvent
unregister_entries [] = []
unregister_entries (e ∷ es) = unregistered e ∷ unregister_entries es

abbrev pub live_count : List RegisteredEvent → ℕ
live_count [] = 0
live_count (e ∷ es) =
    let rest = live_count es in if is_unregistered e.static_event_handler then rest else suc rest

-- What the count of the handlers grows by when one is put.
abbrev pub added : ℕ → List RegisteredEvent → ℕ
added event_id es = elim (entry event_id es) [
  | none ↦ 1
  | some e ↦ if is_unregistered e.static_event_handler then 1 else 0
]

pub entry-put_entry :
    (new : RegisteredEvent) (es : List RegisteredEvent) (id : ℕ)
    → entry id (put_entry new es) ≡ (if new.event_id == id then some new else entry id es)
entry-put_entry new [] id = ground arith
entry-put_entry new (e ∷ es) id = let ih = entry-put_entry new es id in ground arith

pub put_entry-all_below :
    (new : RegisteredEvent) (es : List RegisteredEvent)
    → new.event_id < max_event_id_count
    → all_below es ≡ true
    → all_below (put_entry new es) ≡ true
put_entry-all_below new [] h k = ground arith
put_entry-all_below new (e ∷ es) h k =
    let rest = put_entry-all_below new es h (ground arith) in ground arith

pub and_split : (p q : Bool) → (p && q) ≡ true → (p ≡ true) × (q ≡ true)
and_split true q h = (refl, h)
and_split false q h = absurd (cc)

pub put_entry-all_good :
    (new : RegisteredEvent) (es : List RegisteredEvent)
    → is_good new ≡ true
    → all_good es ≡ true
    → all_good (put_entry new es) ≡ true
put_entry-all_good new [] h k = ground arith
put_entry-all_good new (e ∷ es) h k =
    let both = and_split (is_good e) (all_good es) k in
    let rest = put_entry-all_good new es h both.1 in
    elim (Bool-cases (e.event_id == new.event_id)) [
      | inl same ↦ rw (same, h) both.1
      | inr other ↦ rw (other, both.0) rest
    ]

pub live_count-put_entry :
    (new : RegisteredEvent) (es : List RegisteredEvent)
    → is_unregistered new.static_event_handler ≡ false
    → live_count (put_entry new es) ≡ live_count es + added new.event_id es
live_count-put_entry new [] h = ground arith
live_count-put_entry new (e ∷ es) h = let ih = live_count-put_entry new es h in ground arith

pub entry_split :
    (id : ℕ) (x : RegisteredEvent) (es : List RegisteredEvent) (e : RegisteredEvent)
    → entry id (x ∷ es) ≡ some e
    → (((x.event_id == id) ≡ true) × (x ≡ e))
      ⊎ (((x.event_id == id) ≡ false) × (entry id es ≡ some e))
entry_split id x es e h = elim (Bool-cases (x.event_id == id)) [
  | inl same ↦ let k : some x ≡ some e = rw same at h in inl (same, cc)
  | inr other ↦ inr (other, rw other at h)
]

-- Unregistering an event that has a handler.
pub live_count-unregister :
    (e : RegisteredEvent) (es : List RegisteredEvent)
    → entry e.event_id es ≡ some e
    → is_unregistered e.static_event_handler ≡ false
    → suc (live_count (put_entry (unregistered e) es)) ≡ live_count es
live_count-unregister e [] h k = cc
live_count-unregister e (x ∷ es) h k = elim (entry_split e.event_id x es e h) [
  | inl (same, here) ↦
      let off : is_unregistered x.static_event_handler ≡ false =
        ap (λ (y : RegisteredEvent). is_unregistered y.static_event_handler) here ∙ k in
      rw (same, off) refl
  | inr (other, there) ↦
      let ih = live_count-unregister e es there k in
      elim (Bool-cases (is_unregistered x.static_event_handler)) [
        | inl off ↦ rw (other, off) ih
        | inr on ↦ rw (other, on) (ap suc ih)
      ]
]

pub entry-unregister_entries :
    (es : List RegisteredEvent) (id : ℕ)
    → entry id (unregister_entries es)
      ≡ elim (entry id es) [ none ↦ none | some e ↦ some (unregistered e) ]
entry-unregister_entries [] id = refl
entry-unregister_entries (e ∷ es) id = let ih = entry-unregister_entries es id in ground arith

pub unregister_entries-all_below :
    (es : List RegisteredEvent) → all_below (unregister_entries es) ≡ all_below es
unregister_entries-all_below [] = refl
unregister_entries-all_below (e ∷ es) =
    ap (λ b. ltb e.event_id max_event_id_count && b) (unregister_entries-all_below es)

pub unregister_entries-all_good :
    (es : List RegisteredEvent) → all_good (unregister_entries es) ≡ true
unregister_entries-all_good [] = refl
unregister_entries-all_good (e ∷ es) = unregister_entries-all_good es

pub live_count-unregister_entries :
    (es : List RegisteredEvent) → live_count (unregister_entries es) ≡ 0
live_count-unregister_entries [] = refl
live_count-unregister_entries (e ∷ es) = live_count-unregister_entries es

pub length-unregister_entries :
    (es : List RegisteredEvent) → length (unregister_entries es) ≡ length es
length-unregister_entries [] = refl
length-unregister_entries (e ∷ es) = ap suc (length-unregister_entries es)

pub length-put_entry :
    (new : RegisteredEvent) (es : List RegisteredEvent) (e : RegisteredEvent)
    → entry new.event_id es ≡ some e
    → length (put_entry new es) ≡ length es
length-put_entry new [] e h = cc
length-put_entry new (x ∷ es) e h = elim (entry_split new.event_id x es e h) [
  | inl (same, here) ↦ rw same refl
  | inr (other, there) ↦ rw other (ap suc (length-put_entry new es e there))
]

-- An entry that is found has the id that was asked for, and is one of the good ones.
pub entry-event_id :
    (id : ℕ) (es : List RegisteredEvent) (e : RegisteredEvent)
    → entry id es ≡ some e
    → e.event_id ≡ id
entry-event_id id [] e h = cc
entry-event_id id (x ∷ es) e h = elim (entry_split id x es e h) [
  | inl (same, here) ↦
      ap (λ (y : RegisteredEvent). y.event_id) (sym here) ∙ (==_iff x.event_id id).0 same
  | inr (other, there) ↦ entry-event_id id es e there
]

pub entry-is_good :
    (id : ℕ) (es : List RegisteredEvent) (e : RegisteredEvent)
    → entry id es ≡ some e
    → all_good es ≡ true
    → is_good e ≡ true
entry-is_good id [] e h k = cc
entry-is_good id (x ∷ es) e h k =
    let both = and_split (is_good x) (all_good es) k in
    elim (entry_split id x es e h) [
      | inl (same, here) ↦ ap is_good (sym here) ∙ both.0
      | inr (other, there) ↦ entry-is_good id es e there both.1
    ]
