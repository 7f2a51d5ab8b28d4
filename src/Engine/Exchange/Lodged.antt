-- ===== src/Engine/Exchange/Lodged.antt =====
-- src/engine/node.cpp: the events that the writer collects and those that the reader has stand in
-- pages of memory that are with the same side.
use simplx.Base.{
  ℕ, ◌+◌, ◌<◌, ◌≤◌, ◌≡◌, refl, sym, ◌∙◌, ap, subst, Bool, true, false, some, [], ◌∷◌, ◌++◌, arith,
  ◌==◌, inl, inr, Bool-cases,
}
use simplx.Engine.Exchange.Shared.{
  Locked, WriteCache, Shared, Wrote, write, write_clear, write_new, write_failed, is_taken,
  read_one, has_new, swapped,
}
use simplx.Engine.Exchange.Pages.{Slot, allocated, allocate_event}
use simplx.Engine.Exchange.Allocates.{allocate_event_cases, allocate_event-to_be_delivered}
use simplx.Engine.Exchange.Threads.{
  Reader, System, push, do_write, begin_read, read_next, Step, push_event, allocate, signal,
  note_undelivered, see_unlocked, see_reader, call_write, call_write_failed, lock, see_inactive,
  see_lock, swap_off, miss_off, give_back, release, swap_back, activate, swap_on, call_read, handle,
  end_read, return_event, unlock, swap_idle, deactivate,
}
use simplx.Engine.Exchange.History.{
  write_failed_cases, return_event_to_sender_cases, front_page-to_be_delivered, IsOrdered,
}
use simplx.Engine.Exchange.Recycles.{count, count-append}
use simplx.Engine.Exchange.Recalls.{Recalls, recalls_at, erase_event-count}

-- How often an event is in the chains that the reader goes through or sends back.
abbrev pub at_reader : ℕ → Locked → ℕ
at_reader e l = count e l.to_be_delivered + count e l.undelivered

pub record IsLodged (page_at : ℕ → ℕ) (s : Shared) : Type 0 where
  pub cached :
      (e : ℕ) → 0 < count e s.cache.to_be_delivered → 0 < count (page_at e) s.cache.used_pages
  pub sent : (e : ℕ) → 0 < at_reader e s.locked → 0 < count (page_at e) s.locked.used_pages

-- An allocation leaves the pages in use, and gives a block in one of them.
pub allocate-used :
    (memory : Bool) (c c' : WriteCache) (size : ℕ) (slot : Slot)
    → allocate_event memory c size ≡ allocated c' slot
    → ((p : ℕ) → count p c.used_pages ≤ count p c'.used_pages) × (0 < count slot.page c'.used_pages)
allocate-used memory c c' size slot h =
    let (b, from, (page, pages, used, fits, is, after)) =
      allocate_event_cases memory c c' size slot h in
    let same : c'.used_pages ≡ b.used_pages = ap (λ (k : WriteCache). k.used_pages) after in
    let at : slot.page ≡ page = ap (λ (k : Slot). k.page) is in
    let counted = ap (count page) (same ∙ used) in
    let itself : (page == page) ≡ true = ground arith in
    (
      λ p.
          let kept : count p c.used_pages ≤ count p b.used_pages = elim from [
            | inl e ↦ omega (arith, ap (λ (k : WriteCache). count p k.used_pages) e)
            | inr (inl (out, room, e)) ↦
                omega (arith, ap (λ (k : WriteCache). count p k.used_pages) e)
            | inr (inr (q, qs, there, e)) ↦
                omega (arith, ap (λ (k : WriteCache). count p k.used_pages) e)
          ] in
          omega (arith, kept, ap (count p) same),
      rw (at, counted, itself) (omega arith),
    )

write-IsLodged :
    (page_at : ℕ → ℕ) (s : Shared) → IsLodged page_at s → IsLodged page_at (write s).shared
unfolding write write_clear write_new
write-IsLodged page_at s v = elim (Bool-cases (has_new s.cache)) [
  | inl new ↦
      let c = (write_clear s).cache in
      let none_left = front_page-to_be_delivered (swapped c) c.free_pages in
      rw new (record {
        cached = λ e h. absurd (omega (arith, ap (count e) none_left));
        sent = λ e h. v.cached e (omega arith);
      })
  | inr old ↦ rw old (record { cached = v.cached; sent = λ e h. absurd (omega arith) })
]

failing-IsLodged :
    (page_at : ℕ → ℕ) (s : Shared) (w : Wrote)
    → write_failed s ≡ some w
    → (s.locked.delivered_events_flag ≡ false → s.locked.undelivered ≡ [])
    → IsLodged page_at w.shared
failing-IsLodged page_at s w h fresh =
    let (page, pages, all, e) = write_failed_cases s w h fresh in
    subst (λ (k : Wrote). IsLodged page_at k.shared) (sym e)
      (record { cached = λ k n. absurd (omega arith); sent = λ k n. absurd (omega arith) })

-- Events move between the two chains of the reader.
moved :
    (page_at : ℕ → ℕ) (s : Shared) (l : Locked)
    → IsLodged page_at s
    → l.used_pages ≡ s.locked.used_pages
    → ((e : ℕ) → at_reader e l ≡ at_reader e s.locked)
    → IsLodged page_at (record s { locked = l })
moved page_at s l v pages same = record {
  cached = v.cached;
  sent = λ e h.
      let before = v.sent e (omega (arith, same e)) in
      omega (arith, before, ap (count (page_at e)) pages);
}

abbrev pub Lodges : System → Type 0
Lodges s = IsLodged s.page_at s.shared

pub Step-Lodges : {s t : System} → Step s t → IsOrdered s → Recalls s → Lodges s → Lodges t
unfolding push do_write begin_read read_next read_one
Step-Lodges {s} {t} (push_event event memory size {c = c} {slot} done at e) o r v =
    let (kept, room) = allocate-used memory s.shared.cache c size slot done in
    let same = allocate_event-to_be_delivered memory s.shared.cache c size slot done in
    subst Lodges (sym e) (record {
      cached = λ k h.
          let grown = count-append k c.to_be_delivered (event ∷ []) in
          elim (Bool-cases (event == k)) [
            | inl it ↦
                let is : event ≡ k = ground arith in
                let page : s.page_at k ≡ slot.page = ap s.page_at (sym is) ∙ at in rw page room
            | inr other ↦
                let one : count k (event ∷ []) ≡ 0 = rw other refl in
                let old : 0 < count k s.shared.cache.to_be_delivered =
                  omega (arith, h, grown, one, ap (count k) same) in
                let before = v.cached k old in omega (arith, before, kept (s.page_at k))
          ];
      sent = v.sent;
    })
Step-Lodges {s} {t} (allocate memory size {c = c} {slot} done e) o r v =
    let (kept, room) = allocate-used memory s.shared.cache c size slot done in
    let same = allocate_event-to_be_delivered memory s.shared.cache c size slot done in
    subst Lodges (sym e) (record {
      cached = λ k h.
          let before = v.cached k (omega (arith, h, ap (count k) same)) in
          omega (arith, before, kept (s.page_at k));
      sent = v.sent;
    })
Step-Lodges (signal e) o r v = subst Lodges (sym e) v
Step-Lodges (note_undelivered e) o r v =
    subst Lodges (sym e) (record { cached = v.cached; sent = v.sent })
Step-Lodges (see_unlocked w sig l e) o r v = subst Lodges (sym e) v
Step-Lodges (see_reader w e) o r v = subst Lodges (sym e) v
Step-Lodges {s} {t} (call_write w e) o r v =
    subst Lodges (sym e) (write-IsLodged s.page_at s.shared v)
Step-Lodges {s} {t} (call_write_failed {w = w'} w done e) o r v =
    subst Lodges (sym e) (failing-IsLodged s.page_at s.shared w' done o.fresh)
Step-Lodges (lock w e) o r v = subst Lodges (sym e) v
Step-Lodges (see_inactive w off e) o r v = subst Lodges (sym e) v
Step-Lodges (see_lock w e) o r v = subst Lodges (sym e) v
Step-Lodges (swap_off w free e) o r v = subst Lodges (sym e) v
Step-Lodges (miss_off w on e) o r v = subst Lodges (sym e) v
Step-Lodges {s} {t} (give_back {w = w'} w done e) o r v =
    subst Lodges (sym e) (failing-IsLodged s.page_at s.shared w' done o.fresh)
Step-Lodges (release w e) o r v = subst Lodges (sym e) v
Step-Lodges (swap_back w e) o r v = subst Lodges (sym e) v
Step-Lodges (activate at e) o r v = subst Lodges (sym e) v
Step-Lodges (swap_on at free e) o r v = subst Lodges (sym e) v
Step-Lodges (call_read at l e) o r v =
    subst Lodges (sym e) (record { cached = v.cached; sent = v.sent })
Step-Lodges {s} {t} (handle {kept} {rest} {event} h at e) o r v =
    let l = s.shared.locked in
    let chain = (recalls_at s (Reader.reading kept (event ∷ rest)) at r).chain in
    subst Lodges (sym e) (elim (Bool-cases (is_taken h)) [
      | inl took ↦ rw (read_next, read_one, took) v
      | inr back ↦
          rw (read_next, read_one, back)
            (moved s.page_at s.shared
              (record l {
                to_be_delivered = kept ++ rest;
                undelivered = l.undelivered ++ event ∷ [];
              })
              v refl
              λ k. omega (
                arith,
                ap (count k) chain,
                count-append k kept (event ∷ rest),
                count-append k kept rest,
                count-append k l.undelivered (event ∷ []),
              ))
    ])
Step-Lodges (end_read at e) o r v = subst Lodges (sym e) v
Step-Lodges {s} {t} (return_event event {l} at found e) o r v =
    let k = s.shared.locked in
    let (rest, there, is) = return_event_to_sender_cases k l event found in
    subst Lodges (sym e) (
      subst (λ (z : Locked). IsLodged s.page_at (record (s.shared) { locked = z })) (sym is)
        (moved s.page_at s.shared
          (record k { to_be_delivered = rest; undelivered = k.undelivered ++ event ∷ [] }) v refl
          λ q. omega (
            arith,
            erase_event-count q event k.to_be_delivered there,
            count-append q k.undelivered (event ∷ []),
          )))
Step-Lodges (unlock at e) o r v = subst Lodges (sym e) v
Step-Lodges (swap_idle at e) o r v = subst Lodges (sym e) v
Step-Lodges (deactivate at e) o r v = subst Lodges (sym e) v
