-- ===== src/Engine/RefMapper/Counts.antt =====
-- The invariant of the mapper and what its calls do to the set of actors.
use simplx.Base.{
  ℕ, suc, ◌+◌, ◌≡◌, refl, sym, ◌∙◌, ap, Bool, true, false, not, ◌&&◌, ◌||◌, some, List, [], ◌∷◌,
  arith, length, ◌==◌, Bool-cases, inl, inr,
}
use simplx.Engine.ForwardChain.Linked.{mem}
use simplx.Engine.RefMapper.{
  RefMapper, erase, dispatch, dispatch_queue, on_actor_added, on_actor_removed, get_num_actors,
}

abbrev pub Once : List ℕ → Type 0
Once [] = Unit {0}
Once (x ∷ xs) = (mem x xs ≡ false) × Once xs

-- No actor is there twice, in the set, in the queue or in both.
pub record IsValid (m : RefMapper) : Type 0 where
  pub live_once : Once m.live
  pub queue_once : Once m.queue
  pub apart : (a : ℕ) → mem a m.queue ≡ true → mem a m.live ≡ false

-- Whether the actor is known.
abbrev pub has : RefMapper → ℕ → Bool
has m a = mem a m.live || mem a m.queue

dispatch_lem :
    (queue live : List ℕ)
    → Once queue
    → Once live
    → ((a : ℕ) → mem a queue ≡ true → mem a live ≡ false)
    → (live' : List ℕ) × (dispatch queue live ≡ some live')
      × Once live'
      × ((a : ℕ) → mem a live' ≡ (mem a live || mem a queue))
      × (length live' ≡ length live + length queue)
unfolding dispatch
dispatch_lem [] live oq ol apart = (live, refl, ol, λ a. ground arith, omega arith)
dispatch_lem (x ∷ xs) live (away, oq) ol apart =
    let out : mem x live ≡ false =
      apart x (let here : (x == x) ≡ true = ground arith in ground arith) in
    let rest = dispatch_lem xs (x ∷ live) oq (out, ol) (apart_step x xs live away apart) in
    (
      rest.0,
      rw out rest.1,
      rest.2,
      λ a. rest.3 a ∙ swap_lem (a == x) (mem a live) (mem a xs),
      omega (arith, rest.4),
    )
  where
    swap_lem : (p q r : Bool) → ((p || q) || r) ≡ (q || (p || r))
    swap_lem p q r = ground arith

    apart_step :
        (x : ℕ) (xs live : List ℕ)
        → mem x xs ≡ false
        → ((a : ℕ) → mem a (x ∷ xs) ≡ true → mem a live ≡ false)
        → (a : ℕ) → mem a xs ≡ true
        → mem a (x ∷ live) ≡ false
    apart_step x xs live away apart a there = elim (Bool-cases (a == x)) [
      | inl same ↦
          let e : a ≡ x = ground arith in
          let never : true ≡ false = sym there ∙ ap (λ b. mem b xs) e ∙ away in cc
      | inr other ↦ let out = apart a (ground arith) in ground arith
    ]

mem-erase : (a b : ℕ) (xs : List ℕ) → Once xs → mem b (erase a xs) ≡ (mem b xs && not (b == a))
unfolding erase
mem-erase a b [] o = refl
mem-erase a b (x ∷ xs) (away, o) =
    let rest = mem-erase a b xs o in
    let away_b : (b ≡ x) → mem b xs ≡ false = λ e. ap (λ c. mem c xs) e ∙ away in
    elim (Bool-cases (b == x)) [
      | inl same ↦ let e : b ≡ x = ground arith in let out = away_b e in ground arith
      | inr other ↦ ground arith
    ]

length-erase : (a : ℕ) (xs : List ℕ) → mem a xs ≡ true → suc (length (erase a xs)) ≡ length xs
unfolding erase
length-erase a [] h = cc
length-erase a (x ∷ xs) h = elim (Bool-cases (a == x)) [
  | inl same ↦ rw same
  | inr other ↦ let rest = length-erase a xs (ground arith) in rw other (ap suc rest)
]

Once-erase : (a : ℕ) (xs : List ℕ) → Once xs → Once (erase a xs)
unfolding erase
Once-erase a [] o = tt
Once-erase a (x ∷ xs) (away, o) = elim (Bool-cases (a == x)) [
  | inl same ↦ rw same o
  | inr other ↦
      rw other ((mem-erase a x xs o ∙ ap (λ b. b && not (x == a)) away), Once-erase a xs o)
]

-- On a valid mapper, adding an actor that it does not know fails no assert: it then knows that
-- actor and those from before, one more in number, and is valid again.
pub on_actor_added_lem :
    (m : RefMapper) (actor : ℕ)
    → IsValid m
    → has m actor ≡ false
    → (m' : RefMapper) × (on_actor_added m actor ≡ some m')
      × ((a : ℕ) → has m' a ≡ ((a == actor) || has m a))
      × (get_num_actors m' ≡ suc (get_num_actors m))
      × IsValid m'
unfolding on_actor_added
on_actor_added_lem m actor v new =
    let d = dispatch_lem m.queue m.live v.queue_once v.live_once v.apart in
    (
      record { live = d.0; queue = actor ∷ [] },
      rw (on_actor_added, dispatch_queue, d.1),
      λ a. let k = d.3 a in ground arith,
      omega (arith, d.4),
      record {
        live_once = d.2;
        queue_once = (refl, tt);
        apart = λ a h. let e : a ≡ actor = ground arith in d.3 a ∙ ap (has m) e ∙ new;
      },
    )

-- On a valid mapper, removing an actor that it knows fails no assert: it then knows the others
-- from before, one fewer in number, and is valid again.
pub on_actor_removed_lem :
    (m : RefMapper) (actor : ℕ)
    → IsValid m
    → has m actor ≡ true
    → (m' : RefMapper) × (on_actor_removed m actor ≡ some m')
      × ((a : ℕ) → has m' a ≡ (has m a && not (a == actor)))
      × (suc (get_num_actors m') ≡ get_num_actors m)
      × IsValid m'
unfolding on_actor_removed
on_actor_removed_lem m actor v old =
    let d = dispatch_lem m.queue m.live v.queue_once v.live_once v.apart in
    let there : mem actor d.0 ≡ true = d.3 actor ∙ old in
    (
      record { live = erase actor d.0; queue = [] },
      rw (on_actor_removed, dispatch_queue, d.1, there),
      λ a. let k = d.3 a in let e = mem-erase actor a d.0 d.2 in ground arith,
      omega (arith, d.4, length-erase actor d.0 there),
      record { live_once = Once-erase actor d.0 d.2; queue_once = tt; apart = λ a h. ground arith },
    )
