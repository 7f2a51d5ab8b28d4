-- ===== src/Engine/Exchange/Reads.antt =====
-- src/engine/node.cpp (ReaderSharedHandle::read): what a whole call of the loop does with the events.
use simplx.Base.{
  ℕ, ◌≡◌, sym, ◌∙◌, List, [], ◌∷◌, ◌++◌, append-nil, append_assoc, if◌then◌else◌, inl, inr,
  Bool-cases,
}
use simplx.Engine.Exchange.Shared.{Locked, Handling, is_taken, read_one, read_loop}

-- The events whose handling is one that keeps them in the chain, and the others.
abbrev pub taken_of : (ℕ → Handling) → List ℕ → List ℕ
taken_of handle [] = []
taken_of handle (e ∷ es) =
    let rest = taken_of handle es in if is_taken (handle e) then e ∷ rest else rest

abbrev pub refused_of : (ℕ → Handling) → List ℕ → List ℕ
refused_of handle [] = []
refused_of handle (e ∷ es) =
    let rest = refused_of handle es in if is_taken (handle e) then rest else e ∷ rest

loop_lem :
    (r : Locked) (kept events : List ℕ) (handle : ℕ → Handling)
    → read_loop (record r { to_be_delivered = kept ++ events }) kept events handle ≡ record r {
      to_be_delivered = kept ++ taken_of handle events;
      undelivered = r.undelivered ++ refused_of handle events;
    }
unfolding read_loop read_one
loop_lem r kept [] handle =
    λ i. record r { to_be_delivered = kept ++ []; undelivered = sym (append-nil r.undelivered) i }
loop_lem r kept (e ∷ events) handle = elim (Bool-cases (is_taken (handle e))) [
  | inl took ↦
      let ih = loop_lem r (kept ++ e ∷ []) events handle in
      let before = append_assoc kept (e ∷ []) events in
      let after = append_assoc kept (e ∷ []) (taken_of handle events) in
      rw took (
        (λ i.
          read_loop (record r { to_be_delivered = sym before i }) (kept ++ e ∷ []) events handle)
        ∙ ih
        ∙ (λ i. record r {
          to_be_delivered = after i;
          undelivered = r.undelivered ++ refused_of handle events;
        }))
  | inr back ↦
      let ih = loop_lem (record r { undelivered = r.undelivered ++ e ∷ [] }) kept events handle in
      let after = append_assoc r.undelivered (e ∷ []) (refused_of handle events) in
      rw back (
        ih ∙ (λ i. record r {
          to_be_delivered = kept ++ taken_of handle events;
          undelivered = after i;
        }))
]

-- The loop of read splits the chain of the events to be delivered: those that their handlers took
-- stay in it, in order, and the others go to the end of the undelivered ones, in order; nothing else
-- of the shared part is written.
pub read_loop-split :
    (r : Locked) (handle : ℕ → Handling)
    → read_loop r [] r.to_be_delivered handle ≡ record r {
      to_be_delivered = taken_of handle r.to_be_delivered;
      undelivered = r.undelivered ++ refused_of handle r.to_be_delivered;
    }
read_loop-split r handle = loop_lem r [] r.to_be_delivered handle
