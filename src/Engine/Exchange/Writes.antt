-- ===== src/Engine/Exchange/Writes.antt =====
-- src/engine/node.cpp: what the calls of the writer do to the events, while the reader is in no call
-- of `read`.
use simplx.Base.{
  ℕ, ◌≡◌, refl, sym, ◌∙◌, ap, subst, Bool, true, false, some, List, [], ◌++◌, append-nil,
  append_assoc, arith, if◌then◌else◌, inl, inr, Bool-cases,
}
use simplx.Engine.Exchange.Shared.{Wrote, write, write_failed}
use simplx.Engine.Exchange.Threads.{Writer, System}
use simplx.Engine.Exchange.History.{
  waiting_of, waiting, has_failed, IsOrdered, waiting_idle, write_lem, write_failed_cases,
  given_back,
}
use simplx.Engine.Exchange.Merge.{Merge, Merge-lefts, Merge-right}
use simplx.Engine.Exchange.Inv.{
  is_reading, has_unlocked, has_written, has_swapped, reading_on, IsControlled,
}

pub phase_if :
    (b : Bool)
    → (has_written (if b then Writer.will_write else Writer.will_fail) ≡ false)
      × (has_failed (if b then Writer.will_write else Writer.will_fail) ≡ false)
phase_if true = (refl, refl)
phase_if false = (refl, refl)

pub phase_lock :
    (b : Bool)
    → (has_written (if b then Writer.stuck else Writer.idle) ≡ false)
      × (has_failed (if b then Writer.stuck else Writer.idle) ≡ false)
phase_lock true = (refl, refl)
phase_lock false = (refl, refl)

pub phase_wrote :
    (b : Bool)
    → (has_written (if b then Writer.wrote else Writer.idle) ≡ b)
      × (has_failed (if b then Writer.wrote else Writer.idle) ≡ false)
phase_wrote true = (refl, refl)
phase_wrote false = (refl, refl)

pub written_unlocked : (w : Writer) → has_written w ≡ true → has_unlocked w ≡ true
written_unlocked w h = ground arith

pub failed_swapped : (w : Writer) → has_failed w ≡ true → has_swapped w ≡ true
failed_swapped w h = ground arith

-- A reader that may not touch the shared part is in no call of `read`.
pub not_reading_unlocked :
    (s : System) → IsControlled s → s.is_write_locked ≡ false → is_reading s.reader ≡ false
not_reading_unlocked s c l = elim (Bool-cases (is_reading s.reader)) [
  | inl busy ↦ let held = c.read_locked busy in absurd (cc)
  | inr free ↦ free
]

pub not_reading_swapped :
    (s : System) → IsControlled s → has_swapped s.writer ≡ true → is_reading s.reader ≡ false
not_reading_swapped s c h = elim (Bool-cases (is_reading s.reader)) [
  | inl busy ↦ let on = reading_on s.reader busy in absurd (ground (arith, c.apart))
  | inr free ↦ free
]

module _ (s : System) (o : IsOrdered s) (free : is_reading s.reader ≡ false) where
  -- `writeFailed` while the reader is in no call of `read`.
  pub failing :
      (w : Wrote)
      → write_failed s.shared ≡ some w
      → (gone : List ℕ) × (s.pushed
          ≡ gone ++ (waiting_of s.reader w.shared.locked ++ w.shared.cache.to_be_delivered))
        × (refused : List ℕ) × Merge s.taken refused gone
        × Merge refused s.recalled ((s.returned ++ w.returned) ++ w.shared.locked.undelivered)
        × (waiting_of s.reader w.shared.locked ≡ [])
        × (w.shared.locked.undelivered ≡ [])
        × (w.shared.locked.delivered_events_flag ≡ false)
  failing w h =
      let (page, pages, all, e) = write_failed_cases s.shared w h o.fresh in
      let g = given_back s.shared page pages in
      let c = s.shared.cache.to_be_delivered in
      let left : waiting_of s.reader g.shared.locked ≡ [] =
        waiting_idle s.reader g.shared.locked free in
      let old = waiting_idle s.reader s.shared.locked free in
      let rest =
        (if s.shared.locked.delivered_events_flag then [] else s.shared.locked.to_be_delivered)
        ++ c in
      let gone = o.gone ++ rest in
      let order : s.pushed ≡ gone ++ (waiting_of s.reader g.shared.locked ++ []) =
        o.order
        ∙ ap (λ (ws : List ℕ). o.gone ++ (ws ++ c)) old
        ∙ sym (append-nil gone)
        ∙ ap (λ (ws : List ℕ). gone ++ (ws ++ [])) (sym left) in
      let refused = o.refused ++ rest in
      let m : Merge refused s.recalled ((s.returned ++ g.returned) ++ []) =
        subst (λ (xs : List ℕ). Merge refused s.recalled xs)
          (append_assoc s.returned s.shared.locked.undelivered rest
            ∙ sym (append-nil (s.returned ++ g.returned)))
          (Merge-lefts rest o.back) in
      subst
        (λ (v : Wrote).
          (gone : List ℕ) × (s.pushed
            ≡ gone ++ (waiting_of s.reader v.shared.locked ++ v.shared.cache.to_be_delivered))
          × (refused : List ℕ) × Merge s.taken refused gone
          × Merge refused s.recalled ((s.returned ++ v.returned) ++ v.shared.locked.undelivered)
          × (waiting_of s.reader v.shared.locked ≡ [])
          × (v.shared.locked.undelivered ≡ [])
          × (v.shared.locked.delivered_events_flag ≡ false))
        (sym e) (gone, order, refused, Merge-right rest o.merged, m, left, refl, refl)

  -- `write` while the reader is in no call of `read` and has nothing left to deliver.
  pub writing :
      waiting s ≡ []
      → (s.pushed
          ≡ o.gone
            ++ (waiting_of s.reader (write s.shared).shared.locked
                ++ (write s.shared).shared.cache.to_be_delivered))
        × Merge o.refused s.recalled (
            (s.returned ++ (write s.shared).returned) ++ (write s.shared).shared.locked.undelivered)
        × (waiting_of s.reader (write s.shared).shared.locked
            ≡ (write s.shared).shared.locked.to_be_delivered)
  writing out =
      let (ret, und, del, kept, none_new) = write_lem s.shared in
      let l = (write s.shared).shared.locked in
      let arrived : waiting_of s.reader l ≡ l.to_be_delivered =
        waiting_idle s.reader l free ∙ ap (λ b. if b then [] else l.to_be_delivered) del in
      (
        o.order
            ∙ ap (λ (ws : List ℕ). o.gone ++ (ws ++ s.shared.cache.to_be_delivered)) out
            ∙ ap (λ (ws : List ℕ). o.gone ++ ws) (sym kept)
            ∙ ap (λ (ws : List ℕ). o.gone ++ (ws ++ (write s.shared).shared.cache.to_be_delivered))
                (sym arrived),
        subst (λ (xs : List ℕ). Merge o.refused s.recalled xs)
            (sym (append-nil (s.returned ++ s.shared.locked.undelivered))
              ∙ sym (λ i. (s.returned ++ ret i) ++ und i))
            o.back,
        arrived,
      )
