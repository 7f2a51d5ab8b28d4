-- ===== src/Engine/Exchange/Recalls.antt =====
-- src/engine/node.cpp (ReaderSharedHandle): the chain that the loop of `read` goes through, and the
-- events that `returnToSender` gives back out of it.
use simplx.Base.{
  ℕ, ◌+◌, ◌≤◌, ◌≡◌, refl, sym, ◌∙◌, ap, subst, false, some, List, [], ◌∷◌, ◌++◌, append_assoc,
  arith, ◌==◌, if◌then◌else◌, inl, inr, Bool-cases, Option-cases,
}
use simplx.Engine.Exchange.Shared.{Locked, is_taken, read_one, erase_event}
use simplx.Engine.Exchange.Threads.{
  Reader, System, push, do_write, begin_read, read_next, Step, push_event, allocate, signal,
  note_undelivered, see_unlocked, see_reader, call_write, call_write_failed, lock, see_inactive,
  see_lock, swap_off, miss_off, give_back, release, swap_back, activate, swap_on, call_read, handle,
  end_read, return_event, unlock, swap_idle, deactivate,
}
use simplx.Engine.Exchange.Inv.{is_reading, has_unlocked, has_swapped, IsControlled}
use simplx.Engine.Exchange.History.{return_event_to_sender_cases}
use simplx.Engine.Exchange.Writes.{not_reading_unlocked, not_reading_swapped}
use simplx.Engine.Exchange.Recycles.{count, count-append}

-- The events of the round that their handlers took and that are not given back.
abbrev pub held : Reader → Locked → List ℕ
held (Reader.reading kept rest) l = kept
held Reader.read_done l = l.to_be_delivered
held Reader.away l = []
held Reader.joining l = []
held Reader.ready l = []
held Reader.leaving l = []

-- In the loop the chain is what was passed and kept, and what is to come.
abbrev pub IsChained : Reader → Locked → Type 0
IsChained (Reader.reading kept rest) l = l.to_be_delivered ≡ kept ++ rest
IsChained Reader.read_done l = Unit {0}
IsChained Reader.away l = Unit {0}
IsChained Reader.joining l = Unit {0}
IsChained Reader.ready l = Unit {0}
IsChained Reader.leaving l = Unit {0}

pub record IsRecalled (r : Reader) (l : Locked) (taken recalled : List ℕ) : Type 0 where
  pub chain : IsChained r l
  pub once : (e : ℕ) → count e recalled + count e (held r l) ≤ count e taken

abbrev pub Recalls : System → Type 0
Recalls s = IsRecalled s.reader s.shared.locked s.taken s.recalled

pub erase_event-count :
    (e event : ℕ) (xs : List ℕ) {rest : List ℕ}
    → erase_event xs event ≡ some rest
    → count e xs ≡ count e rest + (if event == e then 1 else 0)
unfolding erase_event
erase_event-count e event [] h = absurd (cc)
erase_event-count e event (x ∷ xs) {rest} h = elim (Option-cases (erase_event xs event)) [
  | inl out ↦ ground arith
  | inr (ys, found) ↦ let ih = erase_event-count e event xs found in ground arith
]

-- Outside of a round the shared part does not matter.
outside :
    (r : Reader) {l : Locked} (k : Locked) {taken recalled : List ℕ}
    → is_reading r ≡ false
    → IsRecalled r l taken recalled
    → IsRecalled r k taken recalled
outside Reader.away k h v = record { chain = tt; once = v.once }
outside Reader.joining k h v = record { chain = tt; once = v.once }
outside Reader.ready k h v = record { chain = tt; once = v.once }
outside Reader.leaving k h v = record { chain = tt; once = v.once }
outside (Reader.reading kept rest) k h v = absurd (cc)
outside Reader.read_done k h v = absurd (cc)

-- Where the reader is known to be.
abbrev pub recalls_at :
    (s : System) (r : Reader)
    → s.reader ≡ r
    → Recalls s
    → IsRecalled r s.shared.locked s.taken s.recalled
recalls_at s r e v = subst (λ z. IsRecalled z s.shared.locked s.taken s.recalled) e v

pub Step-Recalls : {s t : System} → Step s t → IsControlled s → Recalls s → Recalls t
unfolding push do_write begin_read read_next read_one
Step-Recalls (push_event event memory size done at e) c v = subst Recalls (sym e) v
Step-Recalls (allocate memory size done e) c v = subst Recalls (sym e) v
Step-Recalls (signal e) c v = subst Recalls (sym e) v
Step-Recalls (note_undelivered e) c v = subst Recalls (sym e) v
Step-Recalls (see_unlocked w sig l e) c v = subst Recalls (sym e) v
Step-Recalls (see_reader w e) c v = subst Recalls (sym e) v
Step-Recalls {s} {t} (call_write w e) c v =
    let free = not_reading_unlocked s c (c.write_unlocked (ap has_unlocked w)) in
    subst Recalls (sym e) (outside s.reader _ free v)
Step-Recalls {s} {t} (call_write_failed w done e) c v =
    let free = not_reading_unlocked s c (c.write_unlocked (ap has_unlocked w)) in
    subst Recalls (sym e) (outside s.reader _ free v)
Step-Recalls (lock w e) c v = subst Recalls (sym e) v
Step-Recalls (see_inactive w off e) c v = subst Recalls (sym e) v
Step-Recalls (see_lock w e) c v = subst Recalls (sym e) v
Step-Recalls (swap_off w free e) c v = subst Recalls (sym e) v
Step-Recalls (miss_off w on e) c v = subst Recalls (sym e) v
Step-Recalls {s} {t} (give_back w done e) c v =
    subst Recalls (sym e) (outside s.reader _ (not_reading_swapped s c (ap has_swapped w)) v)
Step-Recalls (release w e) c v = subst Recalls (sym e) v
Step-Recalls (swap_back w e) c v = subst Recalls (sym e) v
Step-Recalls (activate r e) c v =
    subst Recalls (sym e) (record { chain = tt; once = λ k. omega (arith, v.once k) })
Step-Recalls (swap_on r free e) c v =
    subst Recalls (sym e) (record { chain = tt; once = λ k. omega (arith, v.once k) })
Step-Recalls (call_read r l e) c v =
    subst Recalls (sym e) (record { chain = refl; once = λ k. omega (arith, v.once k) })
Step-Recalls {s} {t} (handle {kept} {rest} {event} h r e) c v =
    let v' = recalls_at s (Reader.reading kept (event ∷ rest)) r v in
    subst Recalls (sym e) (elim (Bool-cases (is_taken h)) [
      | inl took ↦
          rw (read_next, read_one, took)
            (record {
              chain = v'.chain ∙ sym (append_assoc kept (event ∷ []) rest);
              once = λ k. omega (
                arith,
                v'.once k,
                count-append k kept (event ∷ []),
                count-append k s.taken (event ∷ []),
              );
            })
      | inr back ↦ rw (read_next, read_one, back) (record { chain = refl; once = v'.once })
    ])
Step-Recalls {s} {t} (end_read {kept} r e) c v =
    let v' = recalls_at s (Reader.reading kept []) r v in
    subst Recalls (sym e) (record {
      chain = tt;
      once = λ k. omega (arith, v'.once k, ap (count k) v'.chain, count-append k kept []);
    })
Step-Recalls {s} {t} (return_event event {l} r found e) c v =
    let (rest, there, is) = return_event_to_sender_cases s.shared.locked l event found in
    let v' = recalls_at s Reader.read_done r v in
    let after : IsRecalled Reader.read_done l s.taken (s.recalled ++ event ∷ []) =
      subst (λ (z : Locked). IsRecalled Reader.read_done z s.taken (s.recalled ++ event ∷ []))
        (sym is)
        (record {
          chain = tt;
          once = λ k. omega (
            arith,
            v'.once k,
            erase_event-count k event s.shared.locked.to_be_delivered there,
            count-append k s.recalled (event ∷ []),
          );
        }) in
    subst Recalls (sym e)
      (subst (λ z. IsRecalled z l s.taken (s.recalled ++ event ∷ [])) (sym r) after)
Step-Recalls (unlock r e) c v =
    subst Recalls (sym e) (record { chain = tt; once = λ k. omega (arith, v.once k) })
Step-Recalls (swap_idle r e) c v =
    subst Recalls (sym e) (record { chain = tt; once = λ k. omega (arith, v.once k) })
Step-Recalls (deactivate r e) c v =
    subst Recalls (sym e) (record { chain = tt; once = λ k. omega (arith, v.once k) })
