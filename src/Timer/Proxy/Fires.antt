-- ===== src/Timer/Proxy/Fires.antt =====
-- What `onEvent` of a `TimeOutEvent` does: whose `onTimeout` is called, what stays set, and the
-- request that goes to the timer service.
use simplx.Base.{
  ℕ, ◌≤◌, ◌≡◌, ◌≢◌, refl, sym, ◌∙◌, ap, Bool, true, false, not, List, [], ◌∷◌, ◌++◌, map,
  append-nil, append_assoc, arith, ◌==◌, if◌then◌else◌, subst,
}
use native.Mathlib.Nat.{le_trans}
use simplx.Timer.Clock.{started, minimum, forever}
use simplx.Timer.Proxy.{
  TimerProxy, Handler, start_at, timed_out, scan, Fired, fire, start_front, on_event, ask_again,
  is_nil,
}
use simplx.Timer.Proxy.Scan.{
  those, remaining, All, All-append, scan_lem, scan_min, minimum_le, All-weaken,
}

-- A repeating proxy after its call.
abbrev pub restart : ℕ → TimerProxy → TimerProxy
restart t p = record p { start_time = t }

again_lem :
    (t : ℕ) (b : Bool) (p : TimerProxy) (ws qs : List TimerProxy)
    → (if b then ws ++ restart t p ∷ [] else ws) ++ map (restart t) qs
      ≡ ws ++ map (restart t) (if b then p ∷ qs else qs)
again_lem t true p ws qs = append_assoc ws (restart t p ∷ []) (map (restart t) qs)
again_lem t false p ws qs = refl

fire_lem :
    (t : ℕ) (ps ws : List TimerProxy) (m : ℕ)
    → ((fire t ps ws m).fired ≡ map (λ p. p.id) ps)
      × ((fire t ps ws m).waiting ≡ ws ++ map (restart t) (those (λ p. p.repeat_flag) ps))
unfolding fire those
fire_lem t [] ws m = (refl, sym (append-nil ws))
fire_lem t (p ∷ ps) ws m =
    let rest =
      fire_lem t ps (if p.repeat_flag then ws ++ restart t p ∷ [] else ws)
        (if p.repeat_flag then minimum m p.duration else m) in
    (ap (λ is. p.id ∷ is) rest.0, rest.1 ∙ again_lem t p.repeat_flag p ws _)

restart_le :
    (b : Bool) (m d : ℕ)
    → ((if b then minimum m d else m) ≤ m) × (b ≡ true → (if b then minimum m d else m) ≤ d)
restart_le true m d = ((minimum_le m d).0, λ e. (minimum_le m d).1)
restart_le false m d = (omega arith, λ e. ground arith)

remaining-restart : (t : ℕ) (p : TimerProxy) → remaining t (restart t p) ≡ p.duration
remaining-restart t p = ground arith

All-those :
    (t k : ℕ) (b : Bool) (p : TimerProxy) (qs : List TimerProxy)
    → (b ≡ true → k ≤ p.duration)
    → All (λ q. k ≤ remaining t q) (map (restart t) qs)
    → All (λ q. k ≤ remaining t q) (map (restart t) (if b then p ∷ qs else qs))
All-those t k true p qs h hs = (rw (remaining-restart t p) (h refl), hs)
All-those t k false p qs h hs = hs

fire_min :
    (t : ℕ) (ps ws : List TimerProxy) (m : ℕ)
    → ((fire t ps ws m).min_remain ≤ m)
      × All
          (λ q. (fire t ps ws m).min_remain ≤ remaining t q)
          (map (restart t) (those (λ p. p.repeat_flag) ps))
unfolding fire those
fire_min t [] ws m = (omega arith, tt)
fire_min t (p ∷ ps) ws m =
    let rest =
      fire_min t ps (if p.repeat_flag then ws ++ restart t p ∷ [] else ws)
        (if p.repeat_flag then minimum m p.duration else m) in
    let least = restart_le p.repeat_flag m p.duration in
    (
      le_trans rest.0 least.0,
      All-those t _ p.repeat_flag p _ (λ e. le_trans rest.0 (least.1 e)) rest.1,
    )

-- A chain whose proxies have all been started is left alone by the third loop.
abbrev Started : TimerProxy → Type 0
Started p = p.start_time ≢ 0

start_front_lem :
    (t : ℕ) (ps : List TimerProxy) (m : ℕ) → All Started ps → start_front t ps m ≡ (ps, m)
unfolding start_front
start_front_lem t [] m h = refl
start_front_lem t (p ∷ ps) m (h, hs) =
    let other : (p.start_time == 0) ≡ false = ground arith in rw other

Started-start : (t : ℕ) → t ≢ 0 → (ps : List TimerProxy) → All Started (map (start_at t) ps)
Started-start t nz [] = tt
Started-start t nz (p ∷ ps) = (started_nz t p.start_time nz, Started-start t nz ps)
  where
    started_nz : (t s : ℕ) → t ≢ 0 → started t s ≢ 0
    started_nz t s nz e = ground arith

Started-restart : (t : ℕ) → t ≢ 0 → (ps : List TimerProxy) → All Started (map (restart t) ps)
Started-restart t nz [] = tt
Started-restart t nz (p ∷ ps) = (nz, Started-restart t nz ps)

-- The proxies of which `p` is one that have timed out, and the others.
abbrev pub due : ℕ → Handler → List TimerProxy
due t h = those (timed_out t) h.proxies

abbrev pub waiting : ℕ → Handler → List TimerProxy
waiting t h = those (λ p. not (timed_out t p)) h.proxies

map_ids :
    (t : ℕ) (ps : List TimerProxy) → map (λ p. p.id) (map (start_at t) ps) ≡ map (λ p. p.id) ps
map_ids t [] = refl
map_ids t (p ∷ ps) = ap (λ is. p.id ∷ is) (map_ids t ps)

-- What the chain is after the call.
abbrev pub after : ℕ → Handler → List TimerProxy
after t h = map (start_at t) (waiting t h) ++ map (restart t) (those (λ p. p.repeat_flag) (due t h))

restart_start :
    (t : ℕ) (ps : List TimerProxy)
    → map (restart t) (those (λ p. p.repeat_flag) (map (start_at t) ps))
      ≡ map (restart t) (those (λ p. p.repeat_flag) ps)
unfolding those
restart_start t [] = refl
restart_start t (p ∷ ps) = if_map p.repeat_flag p _ _ (restart_start t ps)
  where
    if_map :
        (b : Bool) (p : TimerProxy) (qs rs : List TimerProxy)
        → map (restart t) qs ≡ map (restart t) rs
        → map (restart t) (if b then start_at t p ∷ qs else qs)
          ≡ map (restart t) (if b then p ∷ rs else rs)
    if_map true p qs rs e = ap (λ xs. restart t p ∷ xs) e
    if_map false p qs rs e = e

ask_again-proxies :
    (a : Bool) (h : Handler) (ps : List TimerProxy) (m : ℕ) → (ask_again a h (ps, m)).proxies ≡ ps
unfolding ask_again
ask_again-proxies a h [] m = refl
ask_again-proxies a h (p ∷ ps) m = ground arith

ask_again-requests :
    (h : Handler) (ps : List TimerProxy) (m : ℕ)
    → h.in_progress ≡ false
    → (ask_again true h (ps, m)).requests ≡ h.requests ++ (if is_nil ps then [] else m ∷ [])
unfolding ask_again
ask_again-requests h [] m e = sym (append-nil h.requests)
ask_again-requests h (p ∷ ps) m e = ground arith

module _ (t : ℕ) (nz : t ≢ 0) (h : Handler) where
  abbrev found_min : ℕ
  found_min = (scan t h.proxies forever).min_remain

  abbrev called : Fired
  called = fire t (scan t h.proxies forever).due (scan t h.proxies forever).waiting found_min

  called_waiting : called.waiting ≡ after t h
  called_waiting =
      let parts = scan_lem t h.proxies forever in
      (fire_lem t (scan t h.proxies forever).due (scan t h.proxies forever).waiting found_min).1
      ∙ ap
          (λ ps.
            (scan t h.proxies forever).waiting ++ map (restart t) (those (λ p. p.repeat_flag) ps))
          parts.1
      ∙ ap (λ ps. ps ++ map (restart t) (those (λ p. p.repeat_flag) (map (start_at t) (due t h))))
          parts.0
      ∙ ap (λ ps. map (start_at t) (waiting t h) ++ ps) (restart_start t (due t h))

  called_front :
      start_front t called.waiting called.min_remain ≡ (called.waiting, called.min_remain)
  called_front = start_front_lem t called.waiting called.min_remain (
      subst (All Started) (sym called_waiting) (
        All-append Started (map (start_at t) (waiting t h)) _ (Started-start t nz (waiting t h))
          (Started-restart t nz _)))

  -- When a `TimeOutEvent` with a time `t` other than 0 arrives, `onTimeout` is called for exactly
  -- the proxies that have timed out, in the order of the chain. Those that have not stay in it, in
  -- their order; the repeating ones of those that have follow them, started anew.
  pub on_event-fires :
      (allocates : Bool)
      → ((on_event allocates t h).1 ≡ map (λ p. p.id) (due t h))
        × ((on_event allocates t h).0.proxies ≡ after t h)
  unfolding on_event
  on_event-fires allocates =
      let parts = scan_lem t h.proxies forever in
      (
        (fire_lem t (scan t h.proxies forever).due (scan t h.proxies forever).waiting found_min).0
            ∙ ap (map (λ p. p.id)) parts.1
            ∙ map_ids t (due t h),
        ap (λ front. (ask_again allocates (record h { in_progress = false }) front).proxies)
              called_front
            ∙ ask_again-proxies allocates (record h { in_progress = false }) called.waiting
                called.min_remain
            ∙ called_waiting,
      )

  -- After a `TimeOutEvent` with a time `t` other than 0, if the event can be allocated: one
  -- request goes to the timer service if any proxy is set, and none otherwise; its duration is no
  -- longer than the time that remains for any proxy that is set, so none is called late for it.
  pub on_event-wakes :
      (d : ℕ) × ((on_event true t h).0.requests
        ≡ h.requests ++ (if is_nil (after t h) then [] else d ∷ []))
      × All (λ p. d ≤ remaining t p) (after t h)
  unfolding on_event
  on_event-wakes =
      let parts = scan_lem t h.proxies forever in
      let least = scan_min t h.proxies forever in
      let last =
        fire_min t (scan t h.proxies forever).due (scan t h.proxies forever).waiting found_min in
      (
        called.min_remain,
        ap (λ front. (ask_again true (record h { in_progress = false }) front).requests)
              called_front
            ∙ ask_again-requests (record h { in_progress = false }) called.waiting called.min_remain
                refl
            ∙ ap (λ ps. h.requests ++ (if is_nil ps then [] else called.min_remain ∷ []))
                called_waiting,
        All-append _ (map (start_at t) (waiting t h)) _
            (subst (All (λ p. called.min_remain ≤ remaining t p)) parts.0
              (All-weaken _ _ (λ p le. le_trans last.0 le) _ least.1))
            (subst (All (λ p. called.min_remain ≤ remaining t p))
              (ap (λ ps. map (restart t) (those (λ p. p.repeat_flag) ps)) parts.1
                ∙ restart_start t (due t h))
              last.1),
      )
