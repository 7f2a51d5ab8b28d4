-- ===== src/Engine/Exchange/History.antt =====
-- include/trz/engine/internal/parallel.h and src/engine/node.cpp: where each event that was pushed is,
-- and the order of those that are gone.
use simplx.Base.{
  ℕ, ◌≡◌, refl, sym, ◌∙◌, ap, Bool, true, false, ◌||◌, some, none, List, [], ◌∷◌, ◌++◌, append-nil,
  arith, if◌then◌else◌, inl, inr, Bool-cases, Option-cases, if_same,
}
use simplx.Engine.Exchange.Shared.{
  Locked, WriteCache, Shared, Wrote, write, write_clear, write_new, write_failed, recycle, is_empty,
  has_new, front_page, swapped, erase_event, return_event_to_sender,
}
use simplx.Engine.Exchange.Threads.{Writer, Reader, System}
use simplx.Engine.Exchange.Merge.{Merge}
use simplx.Engine.Exchange.Inv.{is_reading, has_written}

-- The events to be delivered that the reader has not come to.
abbrev pub waiting_of : Reader → Locked → List ℕ
waiting_of (Reader.reading kept rest) l = rest
waiting_of Reader.away l = if l.delivered_events_flag then [] else l.to_be_delivered
waiting_of Reader.joining l = if l.delivered_events_flag then [] else l.to_be_delivered
waiting_of Reader.ready l = if l.delivered_events_flag then [] else l.to_be_delivered
waiting_of Reader.read_done l = if l.delivered_events_flag then [] else l.to_be_delivered
waiting_of Reader.leaving l = if l.delivered_events_flag then [] else l.to_be_delivered

abbrev pub waiting : System → List ℕ
waiting s = waiting_of s.reader s.shared.locked

abbrev pub has_failed : Writer → Bool
has_failed Writer.failed = true
has_failed other = false

-- Each event pushed is gone, waits for the reader, or is in the cache; those gone were taken or
-- refused; those returned, or to be returned, were refused, or taken and given back.
pub record IsOrdered (s : System) : Type 0 where
  pub gone : List ℕ
  pub order : s.pushed ≡ gone ++ (waiting s ++ s.shared.cache.to_be_delivered)
  pub refused : List ℕ
  pub merged : Merge s.taken refused gone
  pub back : Merge refused s.recalled (s.returned ++ s.shared.locked.undelivered)
  pub fresh : s.shared.locked.delivered_events_flag ≡ false → s.shared.locked.undelivered ≡ []
  pub settled : s.is_write_locked ≡ false → has_written s.writer ≡ false → waiting s ≡ []
  pub unread :
      s.is_write_locked ≡ true
      → is_reading s.reader ≡ false
      → s.shared.locked.delivered_events_flag ≡ false
  pub written : has_written s.writer ≡ true → s.shared.locked.delivered_events_flag ≡ false
  pub reading : is_reading s.reader ≡ true → s.shared.locked.delivered_events_flag ≡ true
  pub emptied : has_failed s.writer ≡ true → waiting s ≡ []

pub waiting_idle :
    (r : Reader) (l : Locked)
    → is_reading r ≡ false
    → waiting_of r l ≡ (if l.delivered_events_flag then [] else l.to_be_delivered)
waiting_idle Reader.away l h = refl
waiting_idle Reader.joining l h = refl
waiting_idle Reader.ready l h = refl
waiting_idle (Reader.reading kept rest) l h = absurd (cc)
waiting_idle Reader.read_done l h = absurd (cc)
waiting_idle Reader.leaving l h = refl

pub front_page-to_be_delivered :
    (c : WriteCache) (pages : List ℕ) → (front_page c pages).to_be_delivered ≡ c.to_be_delivered
front_page-to_be_delivered c [] = refl
front_page-to_be_delivered c (p ∷ pages) = refl

is_empty_lem : (xs : List ℕ) → is_empty xs ≡ true → xs ≡ []
is_empty_lem [] h = refl
is_empty_lem (x ∷ xs) h = absurd (cc)

-- What `write` does to the events.
pub write_lem :
    (s : Shared)
    → ((write s).returned ≡ s.locked.undelivered)
      × ((write s).shared.locked.undelivered ≡ [])
      × ((write s).shared.locked.delivered_events_flag ≡ false)
      × ((write s).shared.locked.to_be_delivered ++ (write s).shared.cache.to_be_delivered
          ≡ s.cache.to_be_delivered)
      × ((write s).worthy ≡ false → (write s).shared.locked.to_be_delivered ≡ [])
unfolding write write_clear write_new
write_lem s = elim (Bool-cases (has_new s.cache)) [
  | inl new ↦
      let c = (write_clear s).cache in
      let kept = front_page-to_be_delivered (swapped c) c.free_pages in
      rw new (
        refl,
        refl,
        refl,
        ap (λ xs. s.cache.to_be_delivered ++ xs) kept ∙ append-nil s.cache.to_be_delivered,
        λ w. absurd (cc),
      )
  | inr old ↦
      let nothing : s.cache.to_be_delivered ≡ [] =
        is_empty_lem s.cache.to_be_delivered (ground arith) in
      rw old (refl, refl, refl, refl, λ w. refl)
]

-- All the pages of both sides.
abbrev pub all_pages : Shared → List ℕ
all_pages s = (s.cache.free_pages ++ s.locked.used_pages) ++ s.cache.used_pages

-- What `writeFailed` leaves: nothing to deliver, and one page in use.
abbrev pub given_back : Shared → ℕ → List ℕ → Wrote
given_back s page pages = record {
  shared = record {
    locked = record (s.locked) {
      delivered_events_flag = false;
      check_undelivered_events_flag = false;
      to_be_delivered = [];
      undelivered = [];
      used_pages = [];
    };
    cache = record (s.cache) {
      check_undelivered_events_flag = false;
      to_be_delivered = [];
      free_pages = pages;
      used_pages = page ∷ [];
      front_used_page_offset = 0;
    };
  };
  returned =
      s.locked.undelivered
      ++ ((if s.locked.delivered_events_flag then [] else s.locked.to_be_delivered)
          ++ s.cache.to_be_delivered);
  worthy = false;
}

pub write_failed-given_back :
    (s : Shared) (page : ℕ) (pages : List ℕ)
    → all_pages s ≡ page ∷ pages
    → (s.locked.delivered_events_flag ≡ false → s.locked.undelivered ≡ [])
    → write_failed s ≡ some (given_back s page pages)
unfolding write_failed recycle
write_failed-given_back s page pages e fresh =
    let test = test_lem s.locked.delivered_events_flag s.locked.undelivered fresh in
    let ret =
      returned_lem s.locked.delivered_events_flag s.locked.undelivered s.locked.to_be_delivered
        s.cache.to_be_delivered fresh in
    rw (write_failed, test, recycle, e)
      (λ i. some (record (given_back s page pages) { returned = ret i }))
  where
    test_lem : (d : Bool) (u : List ℕ) → (d ≡ false → u ≡ []) → (d || is_empty u) ≡ true
    test_lem true u h = refl
    test_lem false u h = rw (h refl) refl

    returned_lem :
        (d : Bool) (u b c : List ℕ)
        → (d ≡ false → u ≡ [])
        → (if d then u else b) ++ c ≡ u ++ ((if d then [] else b) ++ c)
    returned_lem true u b c h = refl
    returned_lem false u b c h = rw (h refl) refl

write_failed-none : (s : Shared) → all_pages s ≡ [] → write_failed s ≡ none
unfolding write_failed recycle
write_failed-none s e =
    rw (write_failed, recycle, e)
      (if_same (s.locked.delivered_events_flag || is_empty s.locked.undelivered) none)

-- With no page at all its last assert would fail.
pub write_failed_cases :
    (s : Shared) (w : Wrote)
    → write_failed s ≡ some w
    → (s.locked.delivered_events_flag ≡ false → s.locked.undelivered ≡ [])
    → (page : ℕ) × (pages : List ℕ) × (all_pages s ≡ page ∷ pages) × (w ≡ given_back s page pages)
write_failed_cases s w h fresh = go (all_pages s) refl
  where
    go :
        (all : List ℕ)
        → all_pages s ≡ all
        → (page : ℕ) × (pages : List ℕ) × (all_pages s ≡ page ∷ pages)
          × (w ≡ given_back s page pages)
    go [] e = let never = write_failed-none s e in let clash = sym never ∙ h in absurd (cc)
    go (page ∷ pages) e =
        let is = write_failed-given_back s page pages e fresh in
        let same : some (given_back s page pages) ≡ some w = sym is ∙ h in (page, pages, e, cc)

-- What `returnToSender` does when it finds the event.
pub return_event_to_sender_cases :
    (r l : Locked) (event : ℕ)
    → return_event_to_sender r event ≡ (l, true)
    → (rest : List ℕ) × (erase_event r.to_be_delivered event ≡ some rest)
      × (l ≡ record r { to_be_delivered = rest; undelivered = r.undelivered ++ event ∷ [] })
unfolding return_event_to_sender
return_event_to_sender_cases r l event h =
    elim (Option-cases (erase_event r.to_be_delivered event)) [
      | inl out ↦
          let k : ◌≡◌ {A = Locked × Bool} (r, false) (l, true) =
            rw (return_event_to_sender, out) at h in
          let clash : false ≡ true = ap (λ (p : Locked × Bool). p.1) k in absurd (cc)
      | inr (rest, found) ↦
          let k : ◌≡◌ {A = Locked × Bool}
              (record r { to_be_delivered = rest; undelivered = r.undelivered ++ event ∷ [] }, true)
              (l, true) =
            rw (return_event_to_sender, found) at h in
          (rest, found, sym (ap (λ (p : Locked × Bool). p.0) k))
    ]
