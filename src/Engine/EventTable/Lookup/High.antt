-- ===== src/Engine/EventTable/Lookup/High.antt =====
-- The loops over `hfEvent`, and the assignments to its cells.
use simplx.Base.{
  ℕ, zero, suc, ◌≡◌, refl, sym, ◌∙◌, ap, Bool, true, false, not, ◌&&◌, ◌||◌, Option, some, none,
  List, [], ◌∷◌, arith, get_elem?, set, ◌==◌, if◌then◌else◌, ◌⊎◌, inl, inr, Bool-cases, ==_iff,
}
use simplx.Engine.EventTable.Low.{
  max_event_id_count, RegisteredEvent, is_unregistered, later, set_event_id,
}
use simplx.Engine.EventTable.Table.{find_high, clear_high}
use simplx.Engine.EventTable.Entries.{is_good, entry, and_split}

-- A cell is free, or its event has a handler.
abbrev pub is_high : RegisteredEvent → Bool
is_high e =
    e.event_id == max_event_id_count || (is_good e && not (is_unregistered e.static_event_handler))

abbrev pub all_high : List RegisteredEvent → Bool
all_high [] = true
all_high (e ∷ es) = is_high e && all_high es

pub find_high_cases :
    (id : ℕ) (hf : List RegisteredEvent)
    → ((find_high id hf ≡ none) × (entry id hf ≡ none))
      ⊎ ((i : ℕ) × (e : RegisteredEvent) × (find_high id hf ≡ some i)
          × (get_elem? hf i ≡ some e)
          × (entry id hf ≡ some e))
unfolding find_high
find_high_cases id [] = inl (refl, refl)
find_high_cases id (e ∷ es) = elim (Bool-cases (e.event_id == id)) [
  | inl same ↦ inr (0, e, rw (find_high, same) refl, refl, rw same refl)
  | inr other ↦ elim (find_high_cases id es) [
    | inl (out, away) ↦ inl (rw (find_high, other, out) refl, rw other away)
    | inr (i, f, at, cell, there) ↦
        inr (suc i, f, rw (find_high, other, at) refl, cell, rw other there)
  ]
]

pub entry-is_high :
    (id : ℕ) (hf : List RegisteredEvent) (e : RegisteredEvent)
    → entry id hf ≡ some e
    → all_high hf ≡ true
    → is_high e ≡ true
entry-is_high id [] e h k = cc
entry-is_high id (x ∷ hf) e h k =
    let both = and_split (is_high x) (all_high hf) k in
    elim (Bool-cases (x.event_id == id)) [
      | inl same ↦
          let here : some x ≡ some e = rw same at h in
          let x_e : x ≡ e = cc in ap is_high (sym x_e) ∙ both.0
      | inr other ↦ entry-is_high id hf e (rw other at h) both.1
    ]

-- An event that has no cell is put in a free one.
module _ (new : RegisteredEvent) where
  pub entry-set :
      (hf : List RegisteredEvent) (i : ℕ)
      → find_high max_event_id_count hf ≡ some i
      → entry new.event_id hf ≡ none
      → (j : ℕ) → (j == max_event_id_count) ≡ false
      → entry j (set hf i new) ≡ (if new.event_id == j then some new else entry j hf)
  unfolding find_high
  entry-set [] i at out j h = cc
  entry-set (x ∷ hf) i at out j h = elim (Bool-cases (x.event_id == max_event_id_count)) [
    | inl free ↦
        let here : some 0 ≡ some i = rw (find_high, free) at at in
        let first : i ≡ 0 = cc in
        let not_j : (x.event_id == j) ≡ false = ground arith in rw (first, not_j) refl
    | inr used ↦
        let below : later (find_high max_event_id_count hf) ≡ some i = rw (find_high, used) at at in
        elim (Bool-cases (x.event_id == new.event_id)) [
          | inl same ↦ let clash : some x ≡ none = rw same at out in absurd (cc)
          | inr other ↦
              entry_set_later x hf i j (find_high max_event_id_count hf) refl below other
                (λ k at'. entry-set hf k at' (rw other at out) j h)
        ]
  ]
    where
      entry_set_later :
          (x : RegisteredEvent) (hf : List RegisteredEvent) (i j : ℕ) (o : Option ℕ)
          → find_high max_event_id_count hf ≡ o
          → later o ≡ some i
          → (x.event_id == new.event_id) ≡ false
          → ((k : ℕ)
              → find_high max_event_id_count hf ≡ some k
              → entry j (set hf k new) ≡ (if new.event_id == j then some new else entry j hf))
          → entry j (set (x ∷ hf) i new)
            ≡ (if new.event_id == j then some new else entry j (x ∷ hf))
      entry_set_later x hf i j none e h other ih = cc
      entry_set_later x hf i j (some k) e h other ih =
          let next : i ≡ suc k = cc in let rest = ih k e in rw next (ground arith)

  pub set-all_high :
      (hf : List RegisteredEvent) (i : ℕ)
      → is_high new ≡ true
      → all_high hf ≡ true
      → all_high (set hf i new) ≡ true
  set-all_high [] i h k = refl
  set-all_high (x ∷ hf) zero h k = rw h (and_split (is_high x) (all_high hf) k).1
  set-all_high (x ∷ hf) (suc i) h k =
      let both = and_split (is_high x) (all_high hf) k in rw both.0 (set-all_high hf i h both.1)

-- A cell is freed. An event is in one cell at most.
abbrev pub Once : List RegisteredEvent → Type 0
Once [] = Unit {0}
Once (x ∷ hf) = ((x.event_id ≡ max_event_id_count) ⊎ (entry x.event_id hf ≡ none)) × Once hf

-- What is known of a cell after one in the rest was found.
later_cases : (o : Option ℕ) (i : ℕ) → later o ≡ some i → (k : ℕ) × (o ≡ some k) × (i ≡ suc k)
later_cases none i h = absurd (cc)
later_cases (some k) i h = (k, refl, cc)

module _ (new : RegisteredEvent) (used : (new.event_id == max_event_id_count) ≡ false) where
  pub set-Once :
      (hf : List RegisteredEvent) (i : ℕ)
      → find_high max_event_id_count hf ≡ some i
      → entry new.event_id hf ≡ none
      → Once hf
      → Once (set hf i new)
  unfolding find_high
  set-Once [] i at out o = tt
  set-Once (x ∷ hf) i at out (here, o) = elim (Bool-cases (x.event_id == new.event_id)) [
    | inl same ↦ let clash : some x ≡ none = rw same at out in absurd (cc)
    | inr other ↦
        let away : entry new.event_id hf ≡ none = rw other at out in
        elim (Bool-cases (x.event_id == max_event_id_count)) [
          | inl free ↦
              let here : some 0 ≡ some i = rw (find_high, free) at at in
              let first : i ≡ 0 = cc in rw first (inr away, o)
          | inr busy ↦
              let below : later (find_high max_event_id_count hf) ≡ some i =
                rw (find_high, busy) at at in
              let (k, at_k, next) = later_cases (find_high max_event_id_count hf) i below in
              let not_new : (new.event_id == x.event_id) ≡ false = ground arith in
              let alone : entry x.event_id hf ≡ none = elim here [
                | inl e ↦ absurd (ground arith)
                | inr e ↦ e
              ] in
              let after : entry x.event_id (set hf k new) ≡ none =
                entry-set new hf k at_k away x.event_id busy ∙ rw not_new alone in
              rw next (inr after, set-Once hf k at_k away o)
        ]
  ]

module _ (id : ℕ) (in_range : (id == max_event_id_count) ≡ false) where
  pub entry-free :
      (hf : List RegisteredEvent) (i : ℕ)
      → find_high id hf ≡ some i
      → Once hf
      → (j : ℕ) → (j == max_event_id_count) ≡ false
      → entry j (set_event_id hf i max_event_id_count) ≡ (if id == j then none else entry j hf)
  unfolding find_high set_event_id
  entry-free [] i at o j h = cc
  entry-free (x ∷ hf) i at (here, o) j h = elim (Bool-cases (x.event_id == id)) [
    | inl same ↦
        let found : some 0 ≡ some i = rw (find_high, same) at at in
        let first : i ≡ 0 = cc in
        let e : x.event_id ≡ id = (==_iff x.event_id id).0 same in
        let alone : entry id hf ≡ none = elim here [
          | inl e' ↦ absurd (ground arith)
          | inr e' ↦ ap (λ n. entry n hf) (sym e) ∙ e'
        ] in
        let free : (max_event_id_count == j) ≡ false = ground arith in
        rw (first, free, e)
          (elim (Bool-cases (id == j)) [
            | inl mine ↦
                let e_j : id ≡ j = (==_iff id j).0 mine in
                rw mine (ap (λ n. entry n hf) (sym e_j) ∙ alone)
            | inr not_mine ↦ rw not_mine refl
          ])
    | inr other ↦
        let below : later (find_high id hf) ≡ some i = rw (find_high, other) at at in
        let (k, at_k, next) = later_cases (find_high id hf) i below in
        let rest = entry-free hf k at_k o j h in rw next (ground arith)
  ]

  pub free-Once :
      (hf : List RegisteredEvent) (i : ℕ)
      → find_high id hf ≡ some i
      → Once hf
      → Once (set_event_id hf i max_event_id_count)
  unfolding find_high set_event_id
  free-Once [] i at o = tt
  free-Once (x ∷ hf) i at (here, o) = elim (Bool-cases (x.event_id == id)) [
    | inl same ↦
        let found : some 0 ≡ some i = rw (find_high, same) at at in
        let first : i ≡ 0 = cc in rw first (inl refl, o)
    | inr other ↦
        let below : later (find_high id hf) ≡ some i = rw (find_high, other) at at in
        let (k, at_k, next) = later_cases (find_high id hf) i below in
        let head : (x.event_id ≡ max_event_id_count)
            ⊎ (entry x.event_id (set_event_id hf k max_event_id_count) ≡ none) =
          elim here [
            | inl e ↦ inl e
            | inr e ↦ elim (Bool-cases (x.event_id == max_event_id_count)) [
              | inl free ↦ inl ((==_iff x.event_id max_event_id_count).0 free)
              | inr busy ↦
                  let not_id : (id == x.event_id) ≡ false = ground arith in
                  inr (entry-free hf k at_k o x.event_id busy ∙ rw not_id e)
            ]
          ] in
        rw next (head, free-Once hf k at_k o)
  ]

pub free-all_high :
    (hf : List RegisteredEvent) (i : ℕ)
    → all_high hf ≡ true
    → all_high (set_event_id hf i max_event_id_count) ≡ true
unfolding set_event_id
free-all_high [] i k = refl
free-all_high (x ∷ hf) zero k = (and_split (is_high x) (all_high hf) k).1
free-all_high (x ∷ hf) (suc i) k =
    let both = and_split (is_high x) (all_high hf) k in rw both.0 (free-all_high hf i both.1)

-- All the cells are freed.
pub clear_high_lem :
    (hf : List RegisteredEvent)
    → (all_high (clear_high hf) ≡ true)
      × Once (clear_high hf)
      × ((j : ℕ) → (j == max_event_id_count) ≡ false → entry j (clear_high hf) ≡ none)
unfolding clear_high
clear_high_lem [] = (refl, tt, λ j h. refl)
clear_high_lem (x ∷ hf) =
    let rest = clear_high_lem hf in
    (
      rest.0,
      (inl refl, rest.1),
      λ j h. let free : (max_event_id_count == j) ≡ false = ground arith in rw free (rest.2 j h),
    )
