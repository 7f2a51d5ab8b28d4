-- ===== src/Engine/Exchange/Preserves.antt =====
-- include/trz/engine/internal/parallel.h and src/engine/node.cpp: no step loses an event, or takes it
-- twice, or takes it out of order.
use simplx.Base.{
  ℕ, ◌≡◌, refl, sym, ◌∙◌, ap, subst, Bool, true, false, List, [], ◌∷◌, ◌++◌, append_assoc, arith,
  if◌then◌else◌, inl, inr, Bool-cases,
}
use simplx.Engine.Exchange.Shared.{Locked, write, is_taken, read_one}
use simplx.Engine.Exchange.Threads.{
  ReaderCas, cas_idle, cas_on, cas_off, Writer, Reader, System, push, do_write, begin_read,
  read_next, Step, push_event, allocate, signal, note_undelivered, see_unlocked, see_reader,
  call_write, call_write_failed, lock, see_inactive, see_lock, swap_off, miss_off, give_back,
  release, swap_back, activate, swap_on, call_read, handle, end_read, return_event, unlock,
  swap_idle, deactivate,
}
use simplx.Engine.Exchange.Allocates.{allocate_event-to_be_delivered}
use simplx.Engine.Exchange.History.{
  waiting_of, waiting, has_failed, IsOrdered, waiting_idle, write_lem, return_event_to_sender_cases,
}
use simplx.Engine.Exchange.Merge.{Merge, Merge-lefts, Merge-right}
use simplx.Engine.Exchange.Inv.{
  is_reading, has_unlocked, has_written, has_swapped, reading_on, IsControlled,
}
use simplx.Engine.Exchange.Writes.{
  phase_if, phase_lock, phase_wrote, written_unlocked, failed_swapped, not_reading_unlocked,
  not_reading_swapped, failing, writing,
}

-- A step of the writer that leaves the lock and the events alone.
writer_moves :
    {s : System} (w : Writer) (cas : ReaderCas) (sig act : Bool)
    → IsOrdered s
    → has_written s.writer ≡ false
    → has_written w ≡ false
    → has_failed w ≡ false
    → IsOrdered
        (record s { writer = w; reader_cas = cas; write_signal = sig; write_activity = act })
writer_moves w cas sig act o before after unfailed = record {
  gone = o.gone;
  order = o.order;
  refused = o.refused;
  merged = o.merged;
  back = o.back;
  fresh = o.fresh;
  settled = λ l k. o.settled l before;
  unread = o.unread;
  written = λ k. absurd (cc);
  reading = o.reading;
  emptied = λ k. absurd (cc);
}

-- A step of the reader between its rounds.
reader_moves :
    {s : System} (r : Reader) (cas : ReaderCas) (active : Bool)
    → IsOrdered s
    → is_reading s.reader ≡ false
    → is_reading r ≡ false
    → IsOrdered (record s { reader = r; reader_cas = cas; is_reader_active = active })
reader_moves {s} r cas active o before after =
    let q : waiting_of r s.shared.locked ≡ waiting s =
      waiting_idle r s.shared.locked after ∙ sym (waiting_idle s.reader s.shared.locked before) in
    record {
      gone = o.gone;
      order =
          o.order ∙ ap (λ (ws : List ℕ). o.gone ++ (ws ++ s.shared.cache.to_be_delivered)) (sym q);
      refused = o.refused;
      merged = o.merged;
      back = o.back;
      fresh = o.fresh;
      settled = λ l k. q ∙ o.settled l k;
      unread = λ l k. o.unread l before;
      written = o.written;
      reading = λ k. absurd (cc);
      emptied = λ k. q ∙ o.emptied k;
    }

pub Step-IsOrdered : {s t : System} → Step s t → IsControlled s → IsOrdered s → IsOrdered t
unfolding push do_write begin_read read_next read_one
Step-IsOrdered {s} {t} (push_event event memory size {c = v} done at e) c o =
    let same = allocate_event-to_be_delivered memory s.shared.cache v size _ done in
    subst IsOrdered (sym e) (record {
      gone = o.gone;
      order =
          ap (λ (xs : List ℕ). xs ++ event ∷ []) o.order
          ∙ append_assoc o.gone (waiting s ++ s.shared.cache.to_be_delivered) (event ∷ [])
          ∙ ap (λ (xs : List ℕ). o.gone ++ xs)
              (append_assoc (waiting s) s.shared.cache.to_be_delivered (event ∷ []))
          ∙ ap (λ (ws : List ℕ). o.gone ++ (waiting s ++ (ws ++ event ∷ []))) (sym same);
      refused = o.refused;
      merged = o.merged;
      back = o.back;
      fresh = o.fresh;
      settled = o.settled;
      unread = o.unread;
      written = o.written;
      reading = o.reading;
      emptied = o.emptied;
    })
Step-IsOrdered {s} {t} (allocate memory size {c = v} done e) c o =
    let same = allocate_event-to_be_delivered memory s.shared.cache v size _ done in
    subst IsOrdered (sym e) (record {
      gone = o.gone;
      order = o.order ∙ ap (λ (ws : List ℕ). o.gone ++ (waiting s ++ ws)) (sym same);
      refused = o.refused;
      merged = o.merged;
      back = o.back;
      fresh = o.fresh;
      settled = o.settled;
      unread = o.unread;
      written = o.written;
      reading = o.reading;
      emptied = o.emptied;
    })
Step-IsOrdered {s} {t} (signal e) c o = subst IsOrdered (sym e) (record {
  gone = o.gone;
  order = o.order;
  refused = o.refused;
  merged = o.merged;
  back = o.back;
  fresh = o.fresh;
  settled = o.settled;
  unread = o.unread;
  written = o.written;
  reading = o.reading;
  emptied = o.emptied;
})
Step-IsOrdered {s} {t} (note_undelivered e) c o = subst IsOrdered (sym e) (record {
  gone = o.gone;
  order = o.order;
  refused = o.refused;
  merged = o.merged;
  back = o.back;
  fresh = o.fresh;
  settled = o.settled;
  unread = o.unread;
  written = o.written;
  reading = o.reading;
  emptied = o.emptied;
})
Step-IsOrdered {s} {t} (see_unlocked w sig l e) c o = subst IsOrdered (sym e) (
    writer_moves {s = s} Writer.unlocked s.reader_cas false s.write_activity o (ap has_written w)
      refl refl)
Step-IsOrdered {s} {t} (see_reader w e) c o =
    let p = phase_if s.is_reader_active in
    subst IsOrdered (sym e) (
      writer_moves {s = s} (if s.is_reader_active then Writer.will_write else Writer.will_fail)
        s.reader_cas s.write_signal s.write_activity o (ap has_written w) p.0 p.1)
Step-IsOrdered {s} {t} (call_write w e) c o =
    let free_l = c.write_unlocked (ap has_unlocked w) in
    let nr = not_reading_unlocked s c free_l in
    let out = o.settled free_l (ap has_written w) in
    let (order, back, arrived) = writing s o nr out in
    let (ret, und, del, kept, none_new) = write_lem s.shared in
    let p = phase_wrote (write s.shared).worthy in
    subst IsOrdered (sym e) (record {
      gone = o.gone;
      order = order;
      refused = o.refused;
      merged = o.merged;
      back = back;
      fresh = λ k. und;
      settled = λ l k. arrived ∙ none_new (sym p.0 ∙ k);
      unread = λ l k. del;
      written = λ k. del;
      reading = λ k. absurd (cc);
      emptied = λ k. absurd (let a = p.1 in cc);
    })
Step-IsOrdered {s} {t} (call_write_failed {w = v} w done e) c o =
    let free_l = c.write_unlocked (ap has_unlocked w) in
    let nr = not_reading_unlocked s c free_l in
    let (gone, order, refused, merged, back, left, und, del) = failing s o nr v done in
    subst IsOrdered (sym e) (record {
      gone = gone;
      order = order;
      refused = refused;
      merged = merged;
      back = back;
      fresh = λ k. und;
      settled = λ l k. left;
      unread = λ l k. del;
      written = λ k. absurd (cc);
      reading = λ k. absurd (cc);
      emptied = λ k. absurd (cc);
    })
Step-IsOrdered {s} {t} (lock w e) c o = subst IsOrdered (sym e) (record {
  gone = o.gone;
  order = o.order;
  refused = o.refused;
  merged = o.merged;
  back = o.back;
  fresh = o.fresh;
  settled = λ l k. absurd (cc);
  unread = λ l k. o.written (ap has_written w);
  written = λ k. absurd (cc);
  reading = o.reading;
  emptied = λ k. absurd (cc);
})
Step-IsOrdered {s} {t} (see_inactive w off e) c o = subst IsOrdered (sym e) (
    writer_moves {s = s} Writer.inactive s.reader_cas s.write_signal s.write_activity o
      (ap has_written w) refl refl)
Step-IsOrdered {s} {t} (see_lock w e) c o =
    let p = phase_lock s.is_write_locked in
    subst IsOrdered (sym e) (
      writer_moves {s = s} (if s.is_write_locked then Writer.stuck else Writer.idle) s.reader_cas
        s.write_signal (if s.is_write_locked then s.write_activity else false) o (ap has_written w)
        p.0 p.1)
Step-IsOrdered {s} {t} (swap_off w free e) c o = subst IsOrdered (sym e) (
    writer_moves {s = s} Writer.owner cas_off s.write_signal s.write_activity o (ap has_written w)
      refl refl)
Step-IsOrdered {s} {t} (miss_off w on e) c o = subst IsOrdered (sym e) (
    writer_moves {s = s} Writer.idle s.reader_cas s.write_signal s.write_activity o
      (ap has_written w) refl refl)
Step-IsOrdered {s} {t} (give_back {w = v} w done e) c o =
    let nr = not_reading_swapped s c (ap has_swapped w) in
    let (gone, order, refused, merged, back, left, und, del) = failing s o nr v done in
    subst IsOrdered (sym e) (record {
      gone = gone;
      order = order;
      refused = refused;
      merged = merged;
      back = back;
      fresh = λ k. und;
      settled = λ l k. left;
      unread = λ l k. del;
      written = λ k. absurd (cc);
      reading = λ k. absurd (cc);
      emptied = λ k. left;
    })
Step-IsOrdered {s} {t} (release w e) c o = subst IsOrdered (sym e) (record {
  gone = o.gone;
  order = o.order;
  refused = o.refused;
  merged = o.merged;
  back = o.back;
  fresh = o.fresh;
  settled = λ l k. o.emptied (ap has_failed w);
  unread = λ l k. absurd (cc);
  written = λ k. absurd (cc);
  reading = o.reading;
  emptied = λ k. absurd (cc);
})
Step-IsOrdered {s} {t} (swap_back w e) c o = subst IsOrdered (sym e) (
    writer_moves {s = s} Writer.idle cas_idle s.write_signal s.write_activity o (ap has_written w)
      refl refl)
Step-IsOrdered {s} {t} (activate r e) c o =
    subst IsOrdered (sym e)
      (reader_moves {s = s} Reader.joining s.reader_cas true o (ap is_reading r) refl)
Step-IsOrdered {s} {t} (swap_on r free e) c o =
    subst IsOrdered (sym e)
      (reader_moves {s = s} Reader.ready cas_on s.is_reader_active o (ap is_reading r) refl)
Step-IsOrdered {s} {t} (call_read r l e) c o =
    let idle = ap is_reading r in
    let unread = o.unread l idle in
    let q : s.shared.locked.to_be_delivered ≡ waiting s = sym (
      waiting_idle s.reader s.shared.locked idle
      ∙ ap (λ b. if b then [] else s.shared.locked.to_be_delivered) unread) in
    subst IsOrdered (sym e) (record {
      gone = o.gone;
      order =
          o.order ∙ ap (λ (ws : List ℕ). o.gone ++ (ws ++ s.shared.cache.to_be_delivered)) (sym q);
      refused = o.refused;
      merged = o.merged;
      back = o.back;
      fresh = λ k. absurd (cc);
      settled = λ k h. absurd (cc);
      unread = λ k h. absurd (cc);
      written = λ k. let u = c.write_unlocked (written_unlocked s.writer k) in absurd (cc);
      reading = λ k. refl;
      emptied = λ k. q ∙ o.emptied k;
    })
Step-IsOrdered {s} {t} (handle {kept} {rest} {event} h r e) c o =
    let busy = ap is_reading r in
    let del = o.reading busy in
    let held = c.read_locked busy in
    let on = reading_on s.reader busy in
    let q : waiting s ≡ event ∷ rest = ap (λ z. waiting_of z s.shared.locked) r in
    let order : s.pushed ≡ (o.gone ++ event ∷ []) ++ (rest ++ s.shared.cache.to_be_delivered) =
      o.order
      ∙ ap (λ (ws : List ℕ). o.gone ++ (ws ++ s.shared.cache.to_be_delivered)) q
      ∙ sym (append_assoc o.gone (event ∷ []) (rest ++ s.shared.cache.to_be_delivered)) in
    subst IsOrdered (sym e) (elim (Bool-cases (is_taken h)) [
      | inl took ↦
          rw (read_next, read_one, took)
            (record {
              gone = o.gone ++ event ∷ [];
              order = order;
              refused = o.refused;
              merged = Merge-lefts (event ∷ []) o.merged;
              back = o.back;
              fresh = λ k. absurd (cc);
              settled = λ l k. absurd (cc);
              unread = λ l k. absurd (cc);
              written = o.written;
              reading = λ k. del;
              emptied = λ k. let sw = failed_swapped s.writer k in absurd (ground (arith, c.apart));
            })
      | inr back ↦
          rw (read_next, read_one, back)
            (record {
              gone = o.gone ++ event ∷ [];
              order = order;
              refused = o.refused ++ event ∷ [];
              merged = Merge-right (event ∷ []) o.merged;
              back =
                  subst (λ (xs : List ℕ). Merge (o.refused ++ event ∷ []) s.recalled xs)
                    (append_assoc s.returned s.shared.locked.undelivered (event ∷ []))
                    (Merge-lefts (event ∷ []) o.back);
              fresh = λ k. absurd (cc);
              settled = λ l k. absurd (cc);
              unread = λ l k. absurd (cc);
              written = o.written;
              reading = λ k. del;
              emptied = λ k. let sw = failed_swapped s.writer k in absurd (ground (arith, c.apart));
            })
    ])
Step-IsOrdered {s} {t} (end_read r e) c o =
    let busy = ap is_reading r in
    let del = o.reading busy in
    let held = c.read_locked busy in
    let arrived : (if s.shared.locked.delivered_events_flag
          then []
          else s.shared.locked.to_be_delivered)
        ≡ [] =
      ap (λ b. if b then [] else s.shared.locked.to_be_delivered) del in
    let q : (if s.shared.locked.delivered_events_flag then [] else s.shared.locked.to_be_delivered)
        ≡ waiting s =
      arrived ∙ sym (ap (λ z. waiting_of z s.shared.locked) r) in
    subst IsOrdered (sym e) (record {
      gone = o.gone;
      order =
          o.order ∙ ap (λ (ws : List ℕ). o.gone ++ (ws ++ s.shared.cache.to_be_delivered)) (sym q);
      refused = o.refused;
      merged = o.merged;
      back = o.back;
      fresh = o.fresh;
      settled = λ l k. arrived;
      unread = λ l k. absurd (cc);
      written = o.written;
      reading = λ k. del;
      emptied = λ k. arrived;
    })
Step-IsOrdered {s} {t} (return_event event {l} r found e) c o =
    let (rest, there, is) = return_event_to_sender_cases s.shared.locked l event found in
    let busy = ap is_reading r in
    let held = c.read_locked busy in
    let del : l.delivered_events_flag ≡ true =
      ap (λ (k : Locked). k.delivered_events_flag) is ∙ o.reading busy in
    let out : waiting s ≡ [] =
      ap (λ z. waiting_of z s.shared.locked) r
      ∙ ap (λ b. if b then [] else s.shared.locked.to_be_delivered) (o.reading busy) in
    let after : waiting_of s.reader l ≡ [] =
      ap (λ z. waiting_of z l) r ∙ ap (λ b. if b then [] else l.to_be_delivered) del in
    let und : l.undelivered ≡ s.shared.locked.undelivered ++ event ∷ [] =
      ap (λ (k : Locked). k.undelivered) is in
    subst IsOrdered (sym e) (record {
      gone = o.gone;
      order =
          o.order
          ∙ ap (λ (ws : List ℕ). o.gone ++ (ws ++ s.shared.cache.to_be_delivered))
              (out ∙ sym after);
      refused = o.refused;
      merged = o.merged;
      back =
          subst (λ (xs : List ℕ). Merge o.refused (s.recalled ++ event ∷ []) xs)
            (append_assoc s.returned s.shared.locked.undelivered (event ∷ [])
              ∙ ap (λ (u : List ℕ). s.returned ++ u) (sym und))
            (Merge-right (event ∷ []) o.back);
      fresh = λ k. absurd (cc);
      settled = λ k h. after;
      unread = λ k h. absurd (cc);
      written = λ k. let u = c.write_unlocked (written_unlocked s.writer k) in absurd (cc);
      reading = λ k. del;
      emptied = λ k. after;
    })
Step-IsOrdered {s} {t} (unlock r e) c o =
    let del = o.reading (ap is_reading r) in
    let arrived : (if s.shared.locked.delivered_events_flag
          then []
          else s.shared.locked.to_be_delivered)
        ≡ [] =
      ap (λ b. if b then [] else s.shared.locked.to_be_delivered) del in
    let q : waiting_of Reader.ready s.shared.locked ≡ waiting s =
      ap (λ z. waiting_of z s.shared.locked) (sym r) in
    subst IsOrdered (sym e) (record {
      gone = o.gone;
      order =
          o.order ∙ ap (λ (ws : List ℕ). o.gone ++ (ws ++ s.shared.cache.to_be_delivered)) (sym q);
      refused = o.refused;
      merged = o.merged;
      back = o.back;
      fresh = o.fresh;
      settled = λ l k. arrived;
      unread = λ l k. absurd (cc);
      written = o.written;
      reading = λ k. absurd (cc);
      emptied = λ k. arrived;
    })
Step-IsOrdered {s} {t} (swap_idle r e) c o =
    subst IsOrdered (sym e)
      (reader_moves {s = s} Reader.leaving cas_idle s.is_reader_active o (ap is_reading r) refl)
Step-IsOrdered {s} {t} (deactivate r e) c o =
    subst IsOrdered (sym e)
      (reader_moves {s = s} Reader.away s.reader_cas false o (ap is_reading r) refl)
