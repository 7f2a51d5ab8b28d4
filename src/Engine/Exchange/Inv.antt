-- ===== src/Engine/Exchange/Inv.antt =====
-- include/trz/engine/internal/parallel.h: what the flags say of where the two threads are.
use simplx.Base.{◌≡◌, refl, sym, ◌∙◌, subst, Bool, true, false, ◌&&◌, arith, inl, inr, Bool-cases}
use simplx.Engine.Exchange.Shared.{write}
use simplx.Engine.Exchange.Threads.{
  ReaderCas, cas_idle, cas_on, cas_off, Writer, Reader, System, push, do_write, begin_read,
  read_next, Step, push_event, allocate, signal, note_undelivered, see_unlocked, see_reader,
  call_write, call_write_failed, lock, see_inactive, see_lock, swap_off, miss_off, give_back,
  release, swap_back, activate, swap_on, call_read, handle, end_read, return_event, unlock,
  swap_idle, deactivate,
}

-- The reader has the compare-and-swap, or is in a call of `read` up to the barrier.
abbrev pub is_on : Reader → Bool
is_on Reader.away = false
is_on Reader.joining = false
is_on Reader.ready = true
is_on (Reader.reading kept rest) = true
is_on Reader.read_done = true
is_on Reader.leaving = false

abbrev pub is_reading : Reader → Bool
is_reading Reader.away = false
is_reading Reader.joining = false
is_reading Reader.ready = false
is_reading (Reader.reading kept rest) = true
is_reading Reader.read_done = true
is_reading Reader.leaving = false

-- The writer has the shared part since it is not locked; it wrote; it has the compare-and-swap.
abbrev pub has_unlocked : Writer → Bool
has_unlocked Writer.unlocked = true
has_unlocked Writer.will_write = true
has_unlocked Writer.will_fail = true
has_unlocked Writer.wrote = true
has_unlocked other = false

abbrev pub has_written : Writer → Bool
has_written Writer.wrote = true
has_written other = false

abbrev pub has_swapped : Writer → Bool
has_swapped Writer.owner = true
has_swapped Writer.failed = true
has_swapped Writer.released = true
has_swapped other = false

abbrev pub cas_for : Bool → Bool → ReaderCas
cas_for true swapped = cas_on
cas_for false true = cas_off
cas_for false false = cas_idle

-- The flags agree with where the threads are.
pub record IsControlled (s : System) : Type 0 where
  pub cas : s.reader_cas ≡ cas_for (is_on s.reader) (has_swapped s.writer)
  pub apart : (is_on s.reader && has_swapped s.writer) ≡ false
  pub read_locked : is_reading s.reader ≡ true → s.is_write_locked ≡ true
  pub write_unlocked : has_unlocked s.writer ≡ true → s.is_write_locked ≡ false

cas_lem :
    (on swapped : Bool)
    → (on && swapped) ≡ false
    → cas_idle ≡ cas_for on swapped
    → (on ≡ false) × (swapped ≡ false)
cas_lem true swapped h e = cc
cas_lem false true h e = cc
cas_lem false false h e = (refl, refl)

pub reading_on : (r : Reader) → is_reading r ≡ true → is_on r ≡ true
reading_on Reader.away h = h
reading_on Reader.joining h = h
reading_on Reader.ready h = refl
reading_on (Reader.reading kept rest) h = refl
reading_on Reader.read_done h = refl
reading_on Reader.leaving h = h

pub Step-IsControlled : {s t : System} → Step s t → IsControlled s → IsControlled t
unfolding push do_write begin_read read_next
Step-IsControlled {s} {t} (push_event event memory size done at e) c =
    subst IsControlled (sym e) (record {
      cas = c.cas;
      apart = c.apart;
      read_locked = c.read_locked;
      write_unlocked = c.write_unlocked;
    })
Step-IsControlled {s} {t} (signal e) c = subst IsControlled (sym e) (record {
  cas = c.cas;
  apart = c.apart;
  read_locked = c.read_locked;
  write_unlocked = c.write_unlocked;
})
Step-IsControlled {s} {t} (note_undelivered e) c = subst IsControlled (sym e) (record {
  cas = c.cas;
  apart = c.apart;
  read_locked = c.read_locked;
  write_unlocked = c.write_unlocked;
})
Step-IsControlled {s} {t} (allocate memory size done e) c = subst IsControlled (sym e) (record {
  cas = c.cas;
  apart = c.apart;
  read_locked = c.read_locked;
  write_unlocked = c.write_unlocked;
})
Step-IsControlled {s} {t} (see_unlocked w sig l e) c = subst IsControlled (sym e) (record {
  cas = ground (arith, c.cas);
  apart = ground (arith, c.apart);
  read_locked = λ k. c.read_locked k;
  write_unlocked = λ u. l;
})
Step-IsControlled {s} {t} (see_reader w e) c =
    subst IsControlled (sym e) (elim (Bool-cases s.is_reader_active) [
      | inl on ↦ rw on (record {
        cas = ground (arith, c.cas);
        apart = ground (arith, c.apart);
        read_locked = λ k. c.read_locked k;
        write_unlocked = λ u. c.write_unlocked (ground arith);
      })
      | inr off ↦ rw off (record {
        cas = ground (arith, c.cas);
        apart = ground (arith, c.apart);
        read_locked = λ k. c.read_locked k;
        write_unlocked = λ u. c.write_unlocked (ground arith);
      })
    ])
Step-IsControlled {s} {t} (call_write w e) c =
    subst IsControlled (sym e) (elim (Bool-cases (write s.shared).worthy) [
      | inl on ↦ rw on (record {
        cas = ground (arith, c.cas);
        apart = ground (arith, c.apart);
        read_locked = λ k. c.read_locked k;
        write_unlocked = λ u. c.write_unlocked (ground arith);
      })
      | inr off ↦ rw off (record {
        cas = ground (arith, c.cas);
        apart = ground (arith, c.apart);
        read_locked = λ k. c.read_locked k;
        write_unlocked = λ u. absurd (cc);
      })
    ])
Step-IsControlled {s} {t} (call_write_failed w done e) c = subst IsControlled (sym e) (record {
  cas = ground (arith, c.cas);
  apart = ground (arith, c.apart);
  read_locked = λ k. c.read_locked k;
  write_unlocked = λ u. absurd (cc);
})
Step-IsControlled {s} {t} (lock w e) c = subst IsControlled (sym e) (record {
  cas = ground (arith, c.cas);
  apart = ground (arith, c.apart);
  read_locked = λ k. refl;
  write_unlocked = λ u. absurd (cc);
})
Step-IsControlled {s} {t} (see_inactive w off e) c = subst IsControlled (sym e) (record {
  cas = ground (arith, c.cas);
  apart = ground (arith, c.apart);
  read_locked = λ k. c.read_locked k;
  write_unlocked = λ u. absurd (cc);
})
Step-IsControlled {s} {t} (see_lock w e) c =
    subst IsControlled (sym e) (elim (Bool-cases s.is_write_locked) [
      | inl on ↦ rw on (record {
        cas = ground (arith, c.cas);
        apart = ground (arith, c.apart);
        read_locked = λ k. refl;
        write_unlocked = λ u. absurd (cc);
      })
      | inr off ↦ rw off (record {
        cas = ground (arith, c.cas);
        apart = ground (arith, c.apart);
        read_locked = λ k. sym off ∙ c.read_locked k;
        write_unlocked = λ u. refl;
      })
    ])
Step-IsControlled {s} {t} (swap_off w free e) c =
    let off = cas_lem (is_on s.reader) (has_swapped s.writer) c.apart (sym free ∙ c.cas) in
    subst IsControlled (sym e) (record {
      cas = rw off.0 refl;
      apart = rw off.0 refl;
      read_locked = λ k. c.read_locked k;
      write_unlocked = λ u. absurd (cc);
    })
Step-IsControlled {s} {t} (miss_off w on e) c = subst IsControlled (sym e) (record {
  cas = ground (arith, c.cas);
  apart = ground (arith, c.apart);
  read_locked = λ k. c.read_locked k;
  write_unlocked = λ u. absurd (cc);
})
Step-IsControlled {s} {t} (give_back w done e) c = subst IsControlled (sym e) (record {
  cas = ground (arith, c.cas);
  apart = ground (arith, c.apart);
  read_locked = λ k. c.read_locked k;
  write_unlocked = λ u. absurd (cc);
})
Step-IsControlled {s} {t} (release w e) c =
    let off : is_on s.reader ≡ false = ground (arith, c.apart) in
    subst IsControlled (sym e) (record {
      cas = ground (arith, c.cas);
      apart = ground (arith, c.apart);
      read_locked = λ k. let on = reading_on s.reader k in cc;
      write_unlocked = λ u. refl;
    })
Step-IsControlled {s} {t} (swap_back w e) c =
    let off : is_on s.reader ≡ false = ground (arith, c.apart) in
    subst IsControlled (sym e) (record {
      cas = rw off refl;
      apart = rw off refl;
      read_locked = λ k. c.read_locked k;
      write_unlocked = λ u. absurd (cc);
    })
Step-IsControlled {s} {t} (activate r e) c = subst IsControlled (sym e) (record {
  cas = ground (arith, c.cas);
  apart = ground (arith, c.apart);
  read_locked = λ u. absurd (cc);
  write_unlocked = λ u. c.write_unlocked (ground arith);
})
Step-IsControlled {s} {t} (swap_on r free e) c =
    let off = cas_lem (is_on s.reader) (has_swapped s.writer) c.apart (sym free ∙ c.cas) in
    subst IsControlled (sym e) (record {
      cas = refl;
      apart = off.1;
      read_locked = λ u. absurd (cc);
      write_unlocked = λ u. c.write_unlocked (ground arith);
    })
Step-IsControlled {s} {t} (call_read r l e) c = subst IsControlled (sym e) (record {
  cas = ground (arith, c.cas);
  apart = ground (arith, c.apart);
  read_locked = λ k. l;
  write_unlocked = λ u. c.write_unlocked (ground arith);
})
Step-IsControlled {s} {t} (handle h r e) c = subst IsControlled (sym e) (record {
  cas = ground (arith, c.cas);
  apart = ground (arith, c.apart);
  read_locked = λ k. c.read_locked (ground arith);
  write_unlocked = λ u. c.write_unlocked (ground arith);
})
Step-IsControlled {s} {t} (end_read r e) c = subst IsControlled (sym e) (record {
  cas = ground (arith, c.cas);
  apart = ground (arith, c.apart);
  read_locked = λ k. c.read_locked (ground arith);
  write_unlocked = λ u. c.write_unlocked (ground arith);
})
Step-IsControlled {s} {t} (return_event event r found e) c = subst IsControlled (sym e) (record {
  cas = ground (arith, c.cas);
  apart = ground (arith, c.apart);
  read_locked = λ k. c.read_locked (ground arith);
  write_unlocked = λ u. c.write_unlocked (ground arith);
})
Step-IsControlled {s} {t} (unlock r e) c = subst IsControlled (sym e) (record {
  cas = ground (arith, c.cas);
  apart = ground (arith, c.apart);
  read_locked = λ u. absurd (cc);
  write_unlocked = λ u. refl;
})
Step-IsControlled {s} {t} (swap_idle r e) c =
    let off : has_swapped s.writer ≡ false = ground (arith, c.apart) in
    subst IsControlled (sym e) (record {
      cas = rw off refl;
      apart = refl;
      read_locked = λ u. absurd (cc);
      write_unlocked = λ u. c.write_unlocked (ground arith);
    })
Step-IsControlled {s} {t} (deactivate r e) c = subst IsControlled (sym e) (record {
  cas = ground (arith, c.cas);
  apart = ground (arith, c.apart);
  read_locked = λ u. absurd (cc);
  write_unlocked = λ u. c.write_unlocked (ground arith);
})
