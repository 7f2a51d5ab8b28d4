-- ===== src/Engine/Exchange/Allocates.antt =====
-- src/engine/node.cpp (WriteCache): what an allocation does to the pages, and where its block lies.
use simplx.Base.{
  ℕ, ◌+◌, ◌≡◌, refl, ◌∙◌, ap, Bool, true, false, not, ◌||◌, some, none, List, [], ◌∷◌, arith, ltb,
  leb, ◌==◌, ◌⊎◌, inl, inr, Bool-cases, Option-cases, add64, sub64,
}
use simplx.Engine.Exchange.Shared.{WriteCache, is_empty}
use simplx.Engine.Exchange.Pages.{
  Slot, allocated, bad_alloc, fails, max_page_index, new_page, new_event_page, slot_at,
  allocate_front, allocate_event,
}

-- What a new front page is: the next index, or the first free page.
abbrev pub NewPage : WriteCache → List ℕ → WriteCache → Type 0
NewPage c free b =
    ((free ≡ [])
      × ((c.next_page_index == max_page_index) ≡ false)
      × (b ≡ record c {
        used_pages = c.next_page_index ∷ c.used_pages;
        next_page_index = c.next_page_index + 1;
        front_used_page_offset = 0;
      }))
    ⊎ ((page : ℕ) × (pages : List ℕ) × (free ≡ page ∷ pages)
        × (b ≡ record c {
          used_pages = page ∷ c.used_pages;
          free_pages = pages;
          front_used_page_offset = 0;
        }))

new_page_cases :
    (memory : Bool) (c b : WriteCache) (free : List ℕ)
    → new_page memory c free ≡ some b
    → NewPage c free b
unfolding new_page
new_page_cases memory c b [] h =
    elim (Bool-cases (c.next_page_index == max_page_index || not memory)) [
      | inl full ↦ let clash : none ≡ some b = rw full at h in absurd (cc)
      | inr room ↦
          let same : some (record c {
            used_pages = c.next_page_index ∷ c.used_pages;
            next_page_index = c.next_page_index + 1;
            front_used_page_offset = 0;
          })
              ≡ some b =
            rw room at h in
          inl (refl, ground arith, cc)
    ]
new_page_cases memory c b (page ∷ pages) h = inr (page, pages, refl, cc)

-- The block lies in the front page.
abbrev pub AtFront : WriteCache → List ℕ → ℕ → WriteCache → Slot → Type 0
AtFront b used size c slot =
    (page : ℕ) × (pages : List ℕ) × (used ≡ page ∷ pages)
    × (leb size (sub64 b.event_allocator_page_size b.front_used_page_offset) ≡ true)
    × (slot ≡ record { page = page; offset = b.front_used_page_offset; size = size })
    × (c ≡ record b {
      front_used_page_offset = add64 b.front_used_page_offset size;
      total_written_byte_size = add64 b.total_written_byte_size size;
    })

slot_at_cases :
    (b c : WriteCache) (used : List ℕ) (size : ℕ) (slot : Slot)
    → slot_at b used size ≡ allocated c slot
    → AtFront b used size c slot
unfolding slot_at
slot_at_cases b c [] size slot h = absurd (cc)
slot_at_cases b c (page ∷ pages) size slot h =
    elim (Bool-cases (leb size (sub64 b.event_allocator_page_size b.front_used_page_offset))) [
      | inl fits ↦
          let same : allocated
                (record b {
                  front_used_page_offset = add64 b.front_used_page_offset size;
                  total_written_byte_size = add64 b.total_written_byte_size size;
                })
                (record { page = page; offset = b.front_used_page_offset; size = size })
              ≡ allocated c slot =
            rw fits at h in
          (page, pages, refl, fits, cc, cc)
      | inr short ↦ let clash : fails ≡ allocated c slot = rw short at h in absurd (cc)
    ]

-- An allocation that succeeds is one at the front page, or at a new front page.
pub allocate_event_cases :
    (memory : Bool) (c c' : WriteCache) (size : ℕ) (slot : Slot)
    → allocate_event memory c size ≡ allocated c' slot
    → (b : WriteCache) × ((b ≡ c) ⊎ NewPage c c.free_pages b) × AtFront b b.used_pages size c' slot
unfolding allocate_event new_event_page allocate_front
allocate_event_cases memory c c' size slot h =
    elim (Bool-cases (leb c.front_used_page_offset c.event_allocator_page_size)) [
      | inr bad ↦ let clash : fails ≡ allocated c' slot = rw bad at h in absurd (cc)
      | inl good ↦
          elim (Bool-cases (
            is_empty c.used_pages
            || ltb (sub64 c.event_allocator_page_size c.front_used_page_offset) size)) [
              | inr fits ↦
                  let k : slot_at c c.used_pages size ≡ allocated c' slot = rw (good, fits) at h in
                  (c, inl refl, slot_at_cases c c' c.used_pages size slot k)
              | inl short ↦ elim (Bool-cases (ltb c.event_allocator_page_size size)) [
                | inl large ↦
                    let clash : bad_alloc c ≡ allocated c' slot = rw (good, short, large) at h in
                    absurd (cc)
                | inr small ↦ elim (Option-cases (new_page memory c c.free_pages)) [
                  | inl out ↦
                      let clash : bad_alloc c ≡ allocated c' slot =
                        rw (good, short, small, out) at h in
                      absurd (cc)
                  | inr (b, made) ↦
                      let k : slot_at b b.used_pages size ≡ allocated c' slot =
                        rw (good, short, small, made) at h in
                      (
                        b,
                        inr (new_page_cases memory c b c.free_pages made),
                        slot_at_cases b c' b.used_pages size slot k,
                      )
                ]
              ]
            ]
    ]

-- A field that no allocation writes.
same_field :
    {A : Type 0} (field : WriteCache → A) (memory : Bool) (c c' : WriteCache) (size : ℕ)
    (slot : Slot)
    → ((b : WriteCache) (used pages : List ℕ) (offset total next : ℕ)
        → field (record b {
          front_used_page_offset = offset;
          total_written_byte_size = total;
          used_pages = used;
          free_pages = pages;
          next_page_index = next;
        })
          ≡ field b)
    → allocate_event memory c size ≡ allocated c' slot
    → field c' ≡ field c
same_field field memory c c' size slot keeps h =
    let (b, from, (page, pages, used, fits, is, after)) =
      allocate_event_cases memory c c' size slot h in
    let front : field c' ≡ field b = ap field after ∙ keeps b _ _ _ _ _ in
    front ∙ elim from [
      | inl same ↦ ap field same
      | inr (inl (out, room, is_b)) ↦ ap field is_b ∙ keeps c _ _ _ _ _
      | inr (inr (p, ps, there, is_b)) ↦ ap field is_b ∙ keeps c _ _ _ _ _
    ]

module _ (memory : Bool) (c c' : WriteCache) (size : ℕ) (slot : Slot) where
  pub allocate_event-to_be_delivered :
      allocate_event memory c size ≡ allocated c' slot → c'.to_be_delivered ≡ c.to_be_delivered
  allocate_event-to_be_delivered =
      same_field (λ (k : WriteCache). k.to_be_delivered) memory c c' size slot
        (λ b used pages offset total next. refl)

  pub allocate_event-page_size :
      allocate_event memory c size ≡ allocated c' slot
      → c'.event_allocator_page_size ≡ c.event_allocator_page_size
  allocate_event-page_size =
      same_field (λ (k : WriteCache). k.event_allocator_page_size) memory c c' size slot
        (λ b used pages offset total next. refl)
