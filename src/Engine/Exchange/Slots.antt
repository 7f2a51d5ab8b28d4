-- ===== src/Engine/Exchange/Slots.antt =====
-- src/engine/node.cpp (WriteCache): the blocks that one batch of events is given do not overlap.
use simplx.Base.{
  ℕ, ◌+◌, ◌^◌, ◌<◌, ◌≤◌, ◌≡◌, sym, ◌∙◌, ap, subst, Bool, true, List, [], ◌∷◌, arith, leb, leb→le,
  ◌==◌, inl, inr, add64, sub64,
}
use simplx.Engine.Exchange.Shared.{WriteCache, Shared}
use simplx.Engine.Exchange.Pages.{Slot, allocated, allocate_event}
use simplx.Engine.Exchange.Allocates.{AtFront, allocate_event_cases, allocate_event-page_size}
use simplx.Engine.Exchange.Recycles.{count, IsPaged, allocate-IsPaged}

-- The offset is in the page, whose size is that of an object.
pub record IsFilled (c : WriteCache) : Type 0 where
  pub inside : c.front_used_page_offset ≤ c.event_allocator_page_size
  pub bounded : c.event_allocator_page_size < 2 ^ 63

-- A block that was given out is in a page in use, before the offset if that is the front page.
pub record IsBehind (c : WriteCache) (slot : Slot) : Type 0 where
  pub in_use : 0 < count slot.page c.used_pages
  pub before :
      (pages : List ℕ)
      → c.used_pages ≡ slot.page ∷ pages
      → slot.offset + slot.size ≤ c.front_used_page_offset

abbrev pub AllBehind : WriteCache → List Slot → Type 0
AllBehind c [] = Unit {0}
AllBehind c (slot ∷ slots) = IsBehind c slot × AllBehind c slots

-- Each of the blocks ends before the new one starts, or is in another page.
abbrev pub AllBefore : Slot → List Slot → Type 0
AllBefore new [] = Unit {0}
AllBefore new (slot ∷ slots) =
    (slot.page ≡ new.page → slot.offset + slot.size ≤ new.offset) × AllBefore new slots

-- The arithmetic of an allocation at the front page.
front_lem :
    (offset size page_size : ℕ)
    → offset ≤ page_size
    → page_size < 2 ^ 63
    → leb size (sub64 page_size offset) ≡ true
    → (offset + size ≤ page_size) × (add64 offset size ≡ offset + size)
front_lem offset size page_size inside bounded fits =
    let le = leb→le size (sub64 page_size offset) fits in
    let sum : offset + size ≤ page_size = omega arith in (sum, omega arith)

-- A page that was not in use comes to the front.
behind_new :
    (c b : WriteCache) (p : ℕ) (slots : List Slot)
    → b.used_pages ≡ p ∷ c.used_pages
    → count p c.used_pages ≡ 0
    → AllBehind c slots
    → AllBehind b slots
behind_new c b p [] e out a = tt
behind_new c b p (slot ∷ slots) e out (h, a) = (
  record {
    in_use = let used = ap (count slot.page) e in let k = h.in_use in omega (arith, used, k);
    before = λ pages front.
        let same_list : p ∷ c.used_pages ≡ slot.page ∷ pages = sym e ∙ front in
        let same : p ≡ slot.page = cc in
        let none_used : count slot.page c.used_pages ≡ 0 =
          ap (λ q. count q c.used_pages) (sym same) ∙ out in
        let k = h.in_use in absurd (omega (arith, none_used, k));
  },
  behind_new c b p slots e out a,
)

before_front :
    (b : WriteCache) (slots : List Slot) (new : Slot) (pages : List ℕ)
    → b.used_pages ≡ new.page ∷ pages
    → new.offset ≡ b.front_used_page_offset
    → AllBehind b slots
    → AllBefore new slots
before_front b [] new pages e at a = tt
before_front b (slot ∷ slots) new pages e at (h, a) = (
  λ same.
      let front : b.used_pages ≡ slot.page ∷ pages = e ∙ ap (λ p. p ∷ pages) (sym same) in
      let k = h.before pages front in omega (arith, at, k),
  before_front b slots new pages e at a,
)

behind_more :
    (b c : WriteCache) (slots : List Slot)
    → c.used_pages ≡ b.used_pages
    → b.front_used_page_offset ≤ c.front_used_page_offset
    → AllBehind b slots
    → AllBehind c slots
behind_more b c [] e le a = tt
behind_more b c (slot ∷ slots) e le (h, a) = (
  record {
    in_use = let k = h.in_use in let same = ap (count slot.page) e in omega (arith, same, k);
    before = λ pages front. let k = h.before pages (sym e ∙ front) in omega (arith, le, k);
  },
  behind_more b c slots e le a,
)

-- What an allocation at the front page gives.
front_step :
    (b c : WriteCache) (size : ℕ) (slot : Slot) (slots : List Slot)
    → AtFront b b.used_pages size c slot
    → IsFilled b
    → AllBehind b slots
    → IsFilled c
      × AllBefore slot slots
      × AllBehind c (slot ∷ slots)
      × (slot.offset + slot.size ≤ c.event_allocator_page_size)
front_step b c size slot slots (page, pages, used, fits, is, after) f a =
    let (sum, end) =
      front_lem b.front_used_page_offset size b.event_allocator_page_size f.inside f.bounded fits in
    let same_size : c.event_allocator_page_size ≡ b.event_allocator_page_size =
      ap (λ (k : WriteCache). k.event_allocator_page_size) after in
    let offset : c.front_used_page_offset ≡ b.front_used_page_offset + size =
      ap (λ (k : WriteCache). k.front_used_page_offset) after ∙ end in
    let same_used : c.used_pages ≡ b.used_pages = ap (λ (k : WriteCache). k.used_pages) after in
    let at_page : slot.page ≡ page = ap (λ (k : Slot). k.page) is in
    let at : slot.offset ≡ b.front_used_page_offset = ap (λ (k : Slot). k.offset) is in
    let sz : slot.size ≡ size = ap (λ (k : Slot). k.size) is in
    let front : b.used_pages ≡ slot.page ∷ pages = used ∙ ap (λ p. p ∷ pages) (sym at_page) in
    let counted = ap (count slot.page) (same_used ∙ front) in
    let itself : (slot.page == slot.page) ≡ true = ground arith in
    (
      record {
        inside = omega (arith, sum, same_size, offset);
        bounded = let k = f.bounded in omega (arith, same_size, k);
      },
      before_front b slots slot pages front at a,
      (
        record {
          in_use = rw (counted, itself) (omega arith);
          before = λ ps e. omega (arith, at, sz, offset);
        },
        behind_more b c slots same_used (omega (arith, offset)) a,
      ),
      omega (arith, at, sz, sum, same_size),
    )

-- An allocation, wherever its page comes from.
allocate_step :
    (memory : Bool) (s : Shared) (c : WriteCache) (size : ℕ) (slot : Slot) (slots : List Slot)
    → allocate_event memory s.cache size ≡ allocated c slot
    → IsPaged s
    → IsFilled s.cache
    → AllBehind s.cache slots
    → IsFilled c
      × AllBefore slot slots
      × AllBehind c (slot ∷ slots)
      × (slot.offset + slot.size ≤ c.event_allocator_page_size)
allocate_step memory s c size slot slots h v f a =
    let (b, from, front) = allocate_event_cases memory s.cache c size slot h in
    let ready : IsFilled b × AllBehind b slots = elim from [
      | inl same ↦ subst (λ (k : WriteCache). IsFilled k × AllBehind k slots) (sym same) (f, a)
      | inr (inl (out, room, is_b)) ↦
          let unused : count s.cache.next_page_index s.cache.used_pages ≡ 0 =
            let k = v.once s.cache.next_page_index in ground (arith, k) in
          (
            subst IsFilled (sym is_b) (record { inside = omega arith; bounded = f.bounded }),
            behind_new s.cache b s.cache.next_page_index slots
                (ap (λ (k : WriteCache). k.used_pages) is_b) unused a,
          )
      | inr (inr (p, ps, there, is_b)) ↦
          let unused : count p s.cache.used_pages ≡ 0 =
            let k = v.once p in let l = ap (count p) there in ground (arith, k, l) in
          (
            subst IsFilled (sym is_b) (record { inside = omega arith; bounded = f.bounded }),
            behind_new s.cache b p slots (ap (λ (k : WriteCache). k.used_pages) is_b) unused a,
          )
    ] in
    front_step b c size slot slots front ready.0 ready.1

-- The allocations of one batch, the last first.
pub data Run (start : Shared) : Shared → List Slot → Type 0 where
  none_yet : Run start start []
  more :
      {s : Shared} {slots : List Slot} (memory : Bool) (size : ℕ) {c : WriteCache} {slot : Slot}
      → Run start s slots
      → allocate_event memory s.cache size ≡ allocated c slot
      → Run start (record s { cache = c }) (slot ∷ slots)

-- The blocks are in their pages, and no two overlap.
abbrev pub AreApart : ℕ → List Slot → Type 0
AreApart page_size [] = Unit {0}
AreApart page_size (slot ∷ slots) =
    (slot.offset + slot.size ≤ page_size) × AllBefore slot slots × AreApart page_size slots

run_lem :
    {start s : Shared} {slots : List Slot}
    → Run start s slots
    → IsPaged start
    → IsFilled start.cache
    → (IsPaged s × IsFilled s.cache × AllBehind s.cache slots)
      × AreApart s.cache.event_allocator_page_size slots
run_lem none_yet v f = ((v, f, tt), tt)
run_lem (more {s} {slots} memory size {c} {slot} r h) v f =
    let ((v', f', a), apart) = run_lem r v f in
    let (filled, before, behind, within) = allocate_step memory s c size slot slots h v' f' a in
    let same = allocate_event-page_size memory s.cache c size slot h in
    (
      (allocate-IsPaged memory s c size slot h v', filled, behind),
      (within, before, subst (λ n. AreApart n slots) (sym same) apart),
    )

-- From a state in which each page is in one place and the offset is in the page, any sequence of
-- allocations gives blocks that lie within a page and do not overlap: of two blocks in one page the
-- earlier ends before the later starts.
pub Run-AreApart :
    {start s : Shared} {slots : List Slot}
    → Run start s slots
    → IsPaged start
    → IsFilled start.cache
    → AreApart s.cache.event_allocator_page_size slots
Run-AreApart r v f = (run_lem r v f).1
