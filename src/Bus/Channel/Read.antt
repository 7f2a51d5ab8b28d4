-- ===== src/Bus/Channel/Read.antt =====
-- The subscriber's side of a channel.
use simplx.Base.{
  ℕ, ◌≤◌, ◌≡◌, refl, ap, subst, ◌∙◌, List, [], ◌∷◌, ◌++◌, Option, none, some, arith, length, take,
  drop, ltb, ◌==◌, if◌then◌else◌, take_all, drop_all,
}
use simplx.Bus.Fifo
use simplx.Bus.RingBuffer.{dequeue}
use simplx.Bus.RingBuffer.Inv.{IsValid, contents, distance_lt}
use simplx.Bus.RingBuffer.Calls.{length-contents, capacity, dequeue_refines}
use simplx.Bus.Channel.{
  Channel, Effect, handled, deleted, Subscribers, find, subscribe, dispatch, dispatch_all, read_one,
  read_all,
}

-- The first handler subscribed to a type stays, and other types are not touched: a later lookup
-- finds what it found before, or the new handler where there was none.
pub find-subscribe :
    (subs : Subscribers) (type handler other : ℕ)
    → find other (subscribe subs type handler) ≡ elim (find other subs) [
      | some h ↦ some h
      | none ↦ if type == other then some handler else none
    ]
unfolding subscribe find
find-subscribe subs type handler other = ground arith

module _ {D : Type 0} where
  -- The data of a list of pointers.
  abbrev pub data_of : List (Option D) → List D
  data_of [] = []
  data_of (none ∷ ps) = data_of ps
  data_of (some d ∷ ps) = d ∷ data_of ps

  -- What is deleted.
  abbrev pub deletions : List (Effect D) → List D
  deletions [] = []
  deletions (handled h d ∷ es) = deletions es
  deletions (deleted d ∷ es) = d ∷ deletions es

  -- What is handed to a handler.
  abbrev pub deliveries : List (Effect D) → List (ℕ × D)
  deliveries [] = []
  deliveries (handled h d ∷ es) = (h, d) ∷ deliveries es
  deliveries (deleted d ∷ es) = deliveries es

  -- Each delivery is followed at once by the deletion of the same datum.
  abbrev pub IsPaired : List (Effect D) → Type 0
  IsPaired [] = Unit {0}
  IsPaired (deleted d ∷ es) = IsPaired es
  IsPaired (handled h d ∷ []) = ⊥
  IsPaired (handled h d ∷ handled k e ∷ es) = ⊥
  IsPaired (handled h d ∷ deleted e ∷ es) = (d ≡ e) × IsPaired es

  one_served :
      (handler : Option ℕ) (d : D) (es : List (Effect D)) {calls : List (ℕ × D)} {ds : List D}
      → deliveries es ≡ calls
      → deletions es ≡ ds
      → IsPaired es
      → let effects =
          elim handler [ none ↦ deleted d ∷ [] | some h ↦ handled h d ∷ deleted d ∷ [] ] ++ es in
        (deliveries effects ≡ elim handler [ none ↦ calls | some h ↦ (h, d) ∷ calls ])
        × (deletions effects ≡ d ∷ ds)
        × IsPaired effects
  one_served none d es called gone paired = (called, ap (λ q. d ∷ q) gone, paired)
  one_served (some h) d es called gone paired =
      (ap (λ q. (h, d) ∷ q) called, ap (λ q. d ∷ q) gone, (refl, paired))

module _ {D : Type 0} (type_of : D → ℕ) where
  -- The data for whose type there is a handler, each with it.
  abbrev pub subscribed : Subscribers → List D → List (ℕ × D)
  subscribed subs [] = []
  subscribed subs (d ∷ ds) =
      let rest = subscribed subs ds in
      elim (find (type_of d) subs) [ none ↦ rest | some h ↦ (h, d) ∷ rest ]

  -- What the subscriber does with pointers that it read: each datum that has a handler is handed to
  -- it, in order, each datum is deleted, once, in order, and after its delivery.
  abbrev pub Serves : Subscribers → List (Option D) → List (Effect D) → Type 0
  Serves subs ps effects =
      (deliveries effects ≡ subscribed subs (data_of ps))
      × (deletions effects ≡ data_of ps)
      × IsPaired effects

  dispatch_all-Serves :
      (subs : Subscribers) (ps : List (Option D)) → Serves subs ps (dispatch_all type_of subs ps)
  unfolding dispatch_all dispatch
  dispatch_all-Serves subs [] = (refl, refl, tt)
  dispatch_all-Serves subs (none ∷ ps) = dispatch_all-Serves subs ps
  dispatch_all-Serves subs (some d ∷ ps) =
      let (calls, gone, paired) = dispatch_all-Serves subs ps in
      one_served (find (type_of d) subs) d (dispatch_all type_of subs ps) calls gone paired

  -- `readAll` takes all that the ring holds, oldest first, and answers how many pointers there were.
  -- It hands each datum for whose type there is a handler to that handler, in order, and deletes
  -- each datum once, in order, with or without a handler, directly after its delivery; a null
  -- pointer has no effect. The ring is empty and valid afterwards, and what waits to be sent stays
  -- as it is. The ring is valid.
  pub read_all_lem :
      (subs : Subscribers) {c : Channel (Option D)}
      → IsValid c.ring
      → let (n, effects, c') = read_all type_of subs c in
        (n ≡ length (contents c.ring))
        × (deliveries effects ≡ subscribed subs (data_of (contents c.ring)))
        × (deletions effects ≡ data_of (contents c.ring))
        × IsPaired effects
        × (contents c'.ring ≡ [])
        × (c'.send_buffer ≡ c.send_buffer)
        × IsValid c'.ring
  unfolding read_all Fifo.poll
  read_all_lem subs {c} v =
      let r = c.ring in
      let (got, left, valid, _) = dequeue_refines (capacity r) v in
      let short : length (contents r) ≤ capacity r = omega (
        arith,
        length-contents v,
        distance_lt r.write_index r.read_index r.max_size v.small v.write_in v.read_in,
      ) in
      let all = got ∙ take_all (capacity r) (contents r) short in
      let (calls, gone, paired) = dispatch_all-Serves subs (dequeue r (capacity r)).0 in
      (
        ap length all,
        calls ∙ ap (λ ps. subscribed subs (data_of ps)) all,
        gone ∙ ap data_of all,
        paired,
        left ∙ drop_all (capacity r) (contents r) short,
        refl,
        valid,
      )

  -- `readOne` does so with the oldest pointer alone, and answers whether there was one.
  pub read_one_lem :
      (subs : Subscribers) {c : Channel (Option D)}
      → IsValid c.ring
      → let (found, effects, c') = read_one type_of subs c in
        (found ≡ ltb 0 (length (contents c.ring)))
        × Serves subs (take 1 (contents c.ring)) effects
        × (contents c'.ring ≡ drop 1 (contents c.ring))
        × (c'.send_buffer ≡ c.send_buffer)
        × IsValid c'.ring
  unfolding read_one Fifo.poll
  read_one_lem subs {c} v =
      let (got, left, valid, _) = dequeue_refines 1 v in
      (
        ap (λ q. length q == 1) got ∙ one_taken (contents c.ring),
        subst (λ q. Serves subs q (dispatch_all type_of subs (dequeue c.ring 1).0)) got
            (dispatch_all-Serves subs (dequeue c.ring 1).0),
        left,
        refl,
        valid,
      )
    where
      one_taken : (q : List (Option D)) → (length (take 1 q) == 1) ≡ ltb 0 (length q)
      one_taken [] = refl
      one_taken (p ∷ q) = ground arith
