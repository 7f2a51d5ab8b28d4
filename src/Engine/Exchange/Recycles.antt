-- ===== src/Engine/Exchange/Recycles.antt =====
-- src/engine/node.cpp and include/trz/engine/internal/node.h: the pages of memory go round between the
-- writer and the reader, and none is in two places.
use simplx.Base.{
  ℕ, ◌+◌, ◌<◌, ◌≡◌, refl, sym, ◌∙◌, ap, subst, Bool, false, some, List, [], ◌∷◌, ◌++◌, arith, ltb,
  ◌==◌, if◌then◌else◌, inl, inr, Bool-cases,
}
use simplx.Engine.Exchange.Shared.{
  Locked, WriteCache, Shared, Wrote, write, write_clear, write_new, write_failed, is_taken,
  read_one, has_new, front_page, swapped,
}
use simplx.Engine.Exchange.Pages.{Slot, allocated, allocate_event}
use simplx.Engine.Exchange.Allocates.{allocate_event_cases}
use simplx.Engine.Exchange.Threads.{
  System, push, do_write, begin_read, read_next, Step, push_event, allocate, signal,
  note_undelivered, see_unlocked, see_reader, call_write, call_write_failed, lock, see_inactive,
  see_lock, swap_off, miss_off, give_back, release, swap_back, activate, swap_on, call_read, handle,
  end_read, return_event, unlock, swap_idle, deactivate,
}
use simplx.Engine.Exchange.History.{
  all_pages, given_back, write_failed_cases, return_event_to_sender_cases, IsOrdered,
}

-- How often a page is in a chain.
abbrev pub count : ℕ → List ℕ → ℕ
count p [] = 0
count p (x ∷ xs) = (if x == p then 1 else 0) + count p xs

pub count-append : (p : ℕ) (xs ys : List ℕ) → count p (xs ++ ys) ≡ count p xs + count p ys
count-append p [] ys = omega arith
count-append p (x ∷ xs) ys = omega (arith, count-append p xs ys)

-- How often it is anywhere.
abbrev pub places : ℕ → Shared → ℕ
places p s = count p s.cache.free_pages + count p s.locked.used_pages + count p s.cache.used_pages

-- Each page that was made is in one place, and there is one.
pub record IsPaged (s : Shared) : Type 0 where
  pub once : (p : ℕ) → places p s ≡ (if ltb p s.cache.next_page_index then 1 else 0)
  pub some_page : 0 < s.cache.next_page_index

front_page-count :
    (p : ℕ) (c : WriteCache) (free : List ℕ)
    → c.free_pages ≡ free
    → (count p (front_page c free).free_pages + count p (front_page c free).used_pages
        ≡ count p free + count p c.used_pages)
      × ((front_page c free).next_page_index ≡ c.next_page_index)
front_page-count p c [] e = (omega (arith, ap (count p) e), refl)
front_page-count p c (page ∷ free) e = (omega arith, refl)

pub write-places :
    (p : ℕ) (s : Shared)
    → (places p (write s).shared ≡ places p s)
      × ((write s).shared.cache.next_page_index ≡ s.cache.next_page_index)
unfolding write write_clear write_new
write-places p s =
    let joined = count-append p s.cache.free_pages s.locked.used_pages in
    elim (Bool-cases (has_new s.cache)) [
      | inl new ↦
          let c = (write_clear s).cache in
          let moved = front_page-count p (swapped c) c.free_pages refl in
          rw new (omega (arith, joined, moved.0), moved.1)
      | inr old ↦ rw old (omega (arith, joined), refl)
    ]

pub given_back-places :
    (p : ℕ) (s : Shared) (page : ℕ) (pages : List ℕ)
    → all_pages s ≡ page ∷ pages
    → places p (given_back s page pages).shared ≡ places p s
given_back-places p s page pages e = omega (
  arith,
  ap (count p) e,
  count-append p s.cache.free_pages s.locked.used_pages,
  count-append p (s.cache.free_pages ++ s.locked.used_pages) s.cache.used_pages,
)

-- An allocation: a page that is new to the writer comes from the free ones, or is the next index.
pub allocate-IsPaged :
    (memory : Bool) (s : Shared) (c : WriteCache) (size : ℕ) (slot : Slot)
    → allocate_event memory s.cache size ≡ allocated c slot
    → IsPaged s
    → IsPaged (record s { cache = c })
allocate-IsPaged memory s c size slot h v =
    let (b, from, (page, pages, used, fits, is, after)) =
      allocate_event_cases memory s.cache c size slot h in
    let front : IsPaged (record s { cache = b }) → IsPaged (record s { cache = c }) = λ g.
      subst (λ (k : WriteCache). IsPaged (record s { cache = k })) (sym after)
        (record { once = g.once; some_page = g.some_page }) in
    front (elim from [
      | inl same ↦ subst (λ (k : WriteCache). IsPaged (record s { cache = k })) (sym same) v
      | inr (inl (out, room, is_b)) ↦
          subst (λ (k : WriteCache). IsPaged (record s { cache = k })) (sym is_b)
            (record {
              once =
                  λ p. next_lem p (places p s) s.cache.next_page_index _ (omega arith) (v.once p);
              some_page = omega (arith, v.some_page);
            })
      | inr (inr (p, ps, there, is_b)) ↦
          subst (λ (k : WriteCache). IsPaged (record s { cache = k })) (sym is_b)
            (record {
              once = λ q. omega (arith, ap (count q) there) ∙ v.once q;
              some_page = v.some_page;
            })
    ])
  where
    next_lem :
        (p n k m : ℕ)
        → m ≡ n + (if k == p then 1 else 0)
        → n ≡ (if ltb p k then 1 else 0)
        → m ≡ (if ltb p (k + 1) then 1 else 0)
    next_lem p n k m d e = ground arith

-- A call of `writeFailed`.
failing-IsPaged :
    (s : Shared) (w : Wrote)
    → write_failed s ≡ some w
    → (s.locked.delivered_events_flag ≡ false → s.locked.undelivered ≡ [])
    → IsPaged s
    → IsPaged w.shared
failing-IsPaged s w h fresh v =
    let (page, pages, all, e) = write_failed_cases s w h fresh in
    subst (λ (k : Wrote). IsPaged k.shared) (sym e)
      (record {
        once = λ p. given_back-places p s page pages all ∙ v.once p;
        some_page = v.some_page;
      })

pub Step-IsPaged : {s t : System} → Step s t → IsOrdered s → IsPaged s.shared → IsPaged t.shared
unfolding push do_write begin_read read_next read_one
Step-IsPaged {s} {t} (push_event event memory size {c = c} done at e) o v =
    let room = allocate-IsPaged memory s.shared c size _ done v in
    subst (λ (k : System). IsPaged k.shared) (sym e)
      (record { once = room.once; some_page = room.some_page })
Step-IsPaged {s} {t} (signal e) o v = subst (λ (k : System). IsPaged k.shared) (sym e) (v)
Step-IsPaged {s} {t} (note_undelivered e) o v =
    subst (λ (k : System). IsPaged k.shared) (sym e)
      (record { once = v.once; some_page = v.some_page })
Step-IsPaged {s} {t} (allocate memory size {c = c} done e) o v =
    subst (λ (k : System). IsPaged k.shared) (sym e)
      (allocate-IsPaged memory s.shared c size _ done v)
Step-IsPaged {s} {t} (see_unlocked w sig l e) o v =
    subst (λ (k : System). IsPaged k.shared) (sym e) (v)
Step-IsPaged {s} {t} (see_reader w e) o v = subst (λ (k : System). IsPaged k.shared) (sym e) (v)
Step-IsPaged {s} {t} (call_write w e) o v =
    subst (λ (k : System). IsPaged k.shared) (sym e)
      (record {
        once = λ p.
            (write-places p s.shared).0
            ∙ v.once p
            ∙ ap (λ k. if ltb p k then 1 else 0) (sym (write-places p s.shared).1);
        some_page = omega (arith, (write-places 0 s.shared).1, v.some_page);
      })
Step-IsPaged {s} {t} (call_write_failed {w = w'} w done e) o v =
    subst (λ (k : System). IsPaged k.shared) (sym e) (failing-IsPaged s.shared w' done o.fresh v)
Step-IsPaged {s} {t} (lock w e) o v = subst (λ (k : System). IsPaged k.shared) (sym e) (v)
Step-IsPaged {s} {t} (see_inactive w off e) o v =
    subst (λ (k : System). IsPaged k.shared) (sym e) (v)
Step-IsPaged {s} {t} (see_lock w e) o v = subst (λ (k : System). IsPaged k.shared) (sym e) (v)
Step-IsPaged {s} {t} (swap_off w free e) o v = subst (λ (k : System). IsPaged k.shared) (sym e) (v)
Step-IsPaged {s} {t} (miss_off w on e) o v = subst (λ (k : System). IsPaged k.shared) (sym e) (v)
Step-IsPaged {s} {t} (give_back {w = w'} w done e) o v =
    subst (λ (k : System). IsPaged k.shared) (sym e) (failing-IsPaged s.shared w' done o.fresh v)
Step-IsPaged {s} {t} (release w e) o v = subst (λ (k : System). IsPaged k.shared) (sym e) (v)
Step-IsPaged {s} {t} (swap_back w e) o v = subst (λ (k : System). IsPaged k.shared) (sym e) (v)
Step-IsPaged {s} {t} (activate r e) o v = subst (λ (k : System). IsPaged k.shared) (sym e) (v)
Step-IsPaged {s} {t} (swap_on r free e) o v = subst (λ (k : System). IsPaged k.shared) (sym e) (v)
Step-IsPaged {s} {t} (call_read r l e) o v =
    subst (λ (k : System). IsPaged k.shared) (sym e)
      (record { once = v.once; some_page = v.some_page })
Step-IsPaged {s} {t} (handle {kept} {rest} {event} h r e) o v =
    subst (λ (k : System). IsPaged k.shared) (sym e)
      (elim (Bool-cases (is_taken h)) [
        | inl took ↦ rw (read_next, read_one, took) v
        | inr back ↦
            rw (read_next, read_one, back) (record { once = v.once; some_page = v.some_page })
      ])
Step-IsPaged {s} {t} (end_read r e) o v = subst (λ (k : System). IsPaged k.shared) (sym e) (v)
Step-IsPaged {s} {t} (return_event event {l} r found e) o v =
    let (rest, there, is) = return_event_to_sender_cases s.shared.locked l event found in
    subst (λ (k : System). IsPaged k.shared) (sym e)
      (subst (λ (k : Locked). IsPaged (record (s.shared) { locked = k })) (sym is)
        (record { once = v.once; some_page = v.some_page }))
Step-IsPaged {s} {t} (unlock r e) o v = subst (λ (k : System). IsPaged k.shared) (sym e) (v)
Step-IsPaged {s} {t} (swap_idle r e) o v = subst (λ (k : System). IsPaged k.shared) (sym e) (v)
Step-IsPaged {s} {t} (deactivate r e) o v = subst (λ (k : System). IsPaged k.shared) (sym e) (v)
