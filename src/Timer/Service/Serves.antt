-- ===== src/Timer/Service/Serves.antt =====
-- The invariant of the timer actor, and what its two handlers do.
use simplx.Base.{
  ℕ, ◌<◌, ◌≡◌, refl, sym, ◌∙◌, ap, Bool, true, false, not, ◌&&◌, ◌||◌, some, List, [], ◌∷◌, ◌++◌,
  map, arith, ltb, ◌==◌, if◌then◌else◌, Bool-cases, inl, inr, subst,
}
use simplx.Engine.ForwardChain.Linked.{mem}
use simplx.Engine.DoubleChain.Links.{mem-append}
use simplx.Timer.Service.{
  Client, Callback, Effect, EventHandler, GetEvent, done, unregistered, neutral, normal, set_client,
  is_due, push_time_out, is_nil, any, on_event, on_callback, max_node_count,
}
use simplx.Timer.Service.Visit.{those, Once, Agree, AllIn, seen, visit-Leaves}

abbrev pub is_registered : Callback → Bool
is_registered unregistered = false
is_registered neutral = true
is_registered normal = true

-- The chain holds the cores whose client is in progress, each once, and the actor will be called
-- back exactly when there is any.
pub record IsValid (h : EventHandler) : Type 0 where
  pub once : Once h.chain
  pub flags : (i : ℕ) → (h.client i).in_progress_flag ≡ mem i h.chain
  pub registered : is_registered h.callback ≡ not (is_nil h.chain)

mem-those : (P : ℕ → Bool) (j : ℕ) (is : List ℕ) → mem j (those P is) ≡ (mem j is && P j)
unfolding those
mem-those P j [] = refl
mem-those P j (i ∷ is) =
    let rest = mem-those P j is in
    elim (Bool-cases (j == i)) [
      | inl same ↦ let e : j ≡ i = ground arith in rw same (at_same e rest)
      | inr other ↦ rw other (at_other (P i) other rest)
    ]
  where
    at_same :
        j ≡ i
        → mem j (those P is) ≡ (mem j is && P j)
        → mem j (if P i then i ∷ those P is else those P is) ≡ P j
    at_same e rest = let q : P j ≡ P i = ap P e in ground arith

    at_other :
        (b : Bool)
        → (j == i) ≡ false
        → mem j (those P is) ≡ (mem j is && P j)
        → mem j (if b then i ∷ those P is else those P is) ≡ (mem j is && P j)
    at_other true other rest = rw other rest
    at_other false other rest = rest

Once-those : (P : ℕ → Bool) (is : List ℕ) → Once is → Once (those P is)
unfolding those
Once-those P [] o = tt
Once-those P (i ∷ is) (away, o) =
    at (P i) (let e = mem-those P i is in rw (e, away)) (Once-those P is o)
  where
    at :
        (b : Bool)
        → mem i (those P is) ≡ false
        → Once (those P is)
        → Once (if b then i ∷ those P is else those P is)
    at true out o = (out, o)
    at false out o = o

Agree-at : (is : List ℕ) (f g : ℕ → Client) (j : ℕ) → Agree is f g → mem j is ≡ true → f j ≡ g j
Agree-at [] f g j a h = cc
Agree-at (i ∷ is) f g j (e, a) h = elim (Bool-cases (j == i)) [
  | inl same ↦ let k : i ≡ j = ground arith in subst (λ x. f x ≡ g x) k e
  | inr other ↦ Agree-at is f g j a (ground arith)
]

AllIn-flags :
    (is : List ℕ) (f : ℕ → Client)
    → ((i : ℕ) → mem i is ≡ true → (f i).in_progress_flag ≡ true)
    → AllIn is f
AllIn-flags [] f h = tt
AllIn-flags (i ∷ is) f h =
    let here : mem i (i ∷ is) ≡ true = ground arith in
    (h i here, AllIn-flags is f (λ j k. h j (let there = k in ground arith)))

-- On a valid actor, `onCallback` fails no assert: exactly the clients that are due at that time
-- get their `TimeOutEvent`, or a retry of it, in the order of the chain, and no other; those that
-- are not due stay in the chain, in their order, and the actor is valid again.
pub on_callback-serves :
    (allocates : ℕ → Bool) (t : ℕ) (h : EventHandler)
    → IsValid h
    → (h' : EventHandler) × (effects : List Effect) × (on_callback allocates t h
        ≡ some (h', effects))
      × (effects
          ≡ map
              (λ i. push_time_out allocates t i (h.client i))
              (those (λ i. is_due t (h.client i)) h.chain))
      × (h'.chain ≡ those (λ i. not (is_due t (h.client i))) h.chain)
      × IsValid h'
unfolding on_callback
on_callback-serves allocates t h v =
    let all = AllIn-flags h.chain h.client (λ i there. v.flags i ∙ there) in
    let run = visit-Leaves allocates t h.chain h.client v.once all in
    let r = run.0 in
    (
      record {
        client = r.client;
        chain = r.kept;
        current = t;
        callback =
            if is_nil r.kept then unregistered else if any r.effects then normal else neutral;
      },
      r.effects,
      rw (run.1, on_callback),
      run.2.effects,
      run.2.kept,
      record {
        once = subst Once (sym run.2.kept) (Once-those _ h.chain v.once);
        flags = λ i.
            flags_lem i r.client r.kept run.2.kept (v.flags i) (run.2.others i)
              (Agree-at h.chain r.client _ i run.2.visited);
        registered = callback_lem (is_nil r.kept) (any r.effects);
      },
    )
  where
    callback_lem :
        (b c : Bool)
        → is_registered (if b then unregistered else if c then normal else neutral) ≡ not b
    callback_lem true c = refl
    callback_lem false true = refl
    callback_lem false false = refl

    flags_lem :
        (i : ℕ) (after : ℕ → Client) (kept : List ℕ)
        → kept ≡ those (λ i. not (is_due t (h.client i))) h.chain
        → (h.client i).in_progress_flag ≡ mem i h.chain
        → (mem i h.chain ≡ false → after i ≡ h.client i)
        → (mem i h.chain ≡ true → after i ≡ seen t (h.client i))
        → (after i).in_progress_flag ≡ mem i kept
    flags_lem i after kept k flag others visited =
        let at = ap (mem i) k ∙ mem-those (λ i. not (is_due t (h.client i))) i h.chain in
        elim (Bool-cases (mem i h.chain)) [
          | inl there ↦
              ap (λ c. c.in_progress_flag) (visited there)
              ∙ sym (at ∙ ap (λ b. b && not (is_due t (h.client i))) there)
          | inr away ↦
              ap (λ c. c.in_progress_flag) (others away)
              ∙ flag
              ∙ away
              ∙ sym (at ∙ ap (λ b. b && not (is_due t (h.client i))) away)
        ]

abbrev chain_with : ℕ → List ℕ → List ℕ
chain_with core is = if mem core is then is else is ++ core ∷ []

Once-append : (is : List ℕ) (core : ℕ) → Once is → mem core is ≡ false → Once (is ++ core ∷ [])
Once-append [] core o away = (refl, tt)
Once-append (i ∷ is) core (here, o) away =
    let out : mem i (is ++ core ∷ []) ≡ false =
      let both = mem-append i is (core ∷ []) in ground arith in
    (out, Once-append is core o (ground arith))

Once-with : (core : ℕ) (is : List ℕ) → Once is → Once (chain_with core is)
Once-with core is o = elim (Bool-cases (mem core is)) [
  | inl there ↦ subst Once (at there) o
  | inr away ↦ subst Once (at' away) (Once-append is core o away)
]
  where
    at : mem core is ≡ true → is ≡ chain_with core is
    at there = rw there

    at' : mem core is ≡ false → is ++ core ∷ [] ≡ chain_with core is
    at' away = rw away

mem-with : (i core : ℕ) (is : List ℕ) → mem i (chain_with core is) ≡ ((i == core) || mem i is)
mem-with i core is = elim (Bool-cases (mem core is)) [
  | inl there ↦ rw there (at there)
  | inr away ↦ rw away (at' (mem-append i is (core ∷ [])))
]
  where
    at : mem core is ≡ true → mem i is ≡ ((i == core) || mem i is)
    at there = elim (Bool-cases (i == core)) [
      | inl same ↦ let e : i ≡ core = ground arith in rw same (ap (λ j. mem j is) e ∙ there)
      | inr other ↦ rw other
    ]

    at' :
        mem i (is ++ core ∷ []) ≡ (mem i is || mem i (core ∷ []))
        → mem i (is ++ core ∷ []) ≡ ((i == core) || mem i is)
    at' both = ground arith

not-nil : (core : ℕ) (is : List ℕ) → is_nil (chain_with core is) ≡ false
not-nil core [] = refl
not-nil core (i ∷ is) = at (mem core (i ∷ is))
  where
    at : (b : Bool) → is_nil (if b then i ∷ is else i ∷ (is ++ core ∷ [])) ≡ false
    at true = refl
    at false = refl

-- On a valid actor, a `GetEvent` that did not come by a route, from a core below the limit, is
-- accepted: the client of that core is then in progress with the duration and the sender of the
-- event, at the end of the chain unless it was in it already, no other client changes, and the
-- actor is valid again.
pub on_event-accepts :
    (h : EventHandler) (e : GetEvent)
    → IsValid h
    → e.routed ≡ false
    → e.source_core < max_node_count
    → (h' : EventHandler) × (on_event h e ≡ done h')
      × (h'.chain ≡ (if mem e.source_core h.chain then h.chain else h.chain ++ e.source_core ∷ []))
      × (h'.client
          ≡ set_client h.client e.source_core (record {
            actor_id = e.source_actor;
            start_time = 0;
            duration = e.duration;
            in_progress_flag = true;
          }))
      × IsValid h'
unfolding on_event
on_event-accepts h e v direct low =
    let small : ltb e.source_core max_node_count ≡ true = ground arith in
    let flag = v.flags e.source_core in
    (
      record {
        client = set_client h.client e.source_core (record {
          actor_id = e.source_actor;
          start_time = 0;
          duration = e.duration;
          in_progress_flag = true;
        });
        chain = chain_with e.source_core h.chain;
        current = h.current;
        callback = if is_nil h.chain then neutral else h.callback;
      },
      rw (direct, small, flag),
      refl,
      refl,
      record {
        once = Once-with e.source_core h.chain v.once;
        flags = λ i. flags_lem i ∙ sym (mem-with i e.source_core h.chain);
        registered =
            callback_lem (is_nil h.chain) v.registered
            ∙ ap not (sym (not-nil e.source_core h.chain));
      },
    )
  where
    flags_lem :
        (i : ℕ)
        → (set_client h.client e.source_core
            (record {
              actor_id = e.source_actor;
              start_time = 0;
              duration = e.duration;
              in_progress_flag = true;
            })
            i).in_progress_flag
          ≡ ((i == e.source_core) || mem i h.chain)
    flags_lem i = elim (Bool-cases (i == e.source_core)) [
      | inl same ↦ rw same
      | inr other ↦ rw other (v.flags i)
    ]

    callback_lem :
        (b : Bool)
        → is_registered h.callback ≡ not b
        → is_registered (if b then neutral else h.callback) ≡ true
    callback_lem true r = refl
    callback_lem false r = r
