-- ===== src/Timer/Proxy/Scan.antt =====
-- Each loop of `onEvent` by itself, against a description of what it does.
use simplx.Base.{
  ℕ, ◌-◌, ◌≤◌, ◌≡◌, refl, ap, Bool, true, false, not, List, [], ◌∷◌, ◌++◌, map, arith,
  if◌then◌else◌,
}
use native.Mathlib.Nat.{le_trans}
use simplx.Timer.Clock.{distance, started, minimum}
use simplx.Timer.Proxy.{TimerProxy, start_at, elapsed, timed_out, next_remain, scan}

-- The proxies that pass a test.
unfoldable pub those : (TimerProxy → Bool) → List TimerProxy → List TimerProxy
those test [] = []
those test (p ∷ ps) = let rest = those test ps in if test p then p ∷ rest else rest

-- The time that remains until the proxy is due.
abbrev pub remaining : ℕ → TimerProxy → ℕ
remaining t p = p.duration - elapsed t p

abbrev pub All : (TimerProxy → Type 0) → List TimerProxy → Type 0
All P [] = Unit {0}
All P (p ∷ ps) = P p × All P ps

kept :
    (f : TimerProxy → TimerProxy) (b : Bool) (p : TimerProxy) (ws ds qs rs : List TimerProxy)
    → (qs ≡ map f ws → (if b then qs else f p ∷ qs) ≡ map f (if not b then p ∷ ws else ws))
      × (rs ≡ map f ds → (if b then f p ∷ rs else rs) ≡ map f (if b then p ∷ ds else ds))
kept f true p ws ds qs rs = (λ e. e, λ e. ap (λ qs. f p ∷ qs) e)
kept f false p ws ds qs rs = (λ e. ap (λ qs. f p ∷ qs) e, λ e. e)

All-kept :
    (P : TimerProxy → Type 0) (b : Bool) (p : TimerProxy) (ps : List TimerProxy)
    → (b ≡ false → P p)
    → All P ps
    → All P (if b then ps else p ∷ ps)
All-kept P true p ps h hs = hs
All-kept P false p ps h hs = (h refl, hs)

pub scan_lem :
    (t : ℕ) (ps : List TimerProxy) (m : ℕ)
    → ((scan t ps m).waiting ≡ map (start_at t) (those (λ p. not (timed_out t p)) ps))
      × ((scan t ps m).due ≡ map (start_at t) (those (timed_out t) ps))
unfolding scan those
scan_lem t [] m = (refl, refl)
scan_lem t (p ∷ ps) m =
    let rest = scan_lem t ps (next_remain t p m) in
    let parts = kept (start_at t) (timed_out t p) p _ _ _ _ in (parts.0 rest.0, parts.1 rest.1)

pub All-weaken :
    (P Q : TimerProxy → Type 0)
    → ((p : TimerProxy) → P p → Q p)
    → (ps : List TimerProxy) → All P ps
    → All Q ps
All-weaken P Q f [] h = tt
All-weaken P Q f (p ∷ ps) (h, hs) = (f p h, All-weaken P Q f ps hs)

pub All-append :
    (P : TimerProxy → Type 0) (ps qs : List TimerProxy) → All P ps → All P qs → All P (ps ++ qs)
All-append P [] qs h k = k
All-append P (p ∷ ps) qs (h, hs) k = (h, All-append P ps qs hs k)

started_twice : (t s : ℕ) → started t (started t s) ≡ started t s
started_twice t s = ground arith

pub minimum_le : (a b : ℕ) → (minimum a b ≤ a) × (minimum a b ≤ b)
minimum_le a b = ground arith

pub next_le :
    (b : Bool) (m r : ℕ)
    → ((if b then m else minimum m r) ≤ m) × (b ≡ false → (if b then m else minimum m r) ≤ r)
next_le true m r = (omega arith, λ e. ground arith)
next_le false m r = ((minimum_le m r).0, λ e. (minimum_le m r).1)

pub remaining-start : (t : ℕ) (p : TimerProxy) → remaining t (start_at t p) ≡ remaining t p
remaining-start t p = ap (λ s. p.duration - distance t s) (started_twice t p.start_time)

-- No proxy that the first loop leaves in the chain has less time left than what it found.
pub scan_min :
    (t : ℕ) (ps : List TimerProxy) (m : ℕ)
    → ((scan t ps m).min_remain ≤ m)
      × All (λ p. (scan t ps m).min_remain ≤ remaining t p) (scan t ps m).waiting
unfolding scan
scan_min t [] m = (omega arith, tt)
scan_min t (p ∷ ps) m =
    let rest = scan_min t ps (next_remain t p m) in
    let least = next_le (timed_out t p) m (remaining t p) in
    let bound : timed_out t p ≡ false
        → (scan t ps (next_remain t p m)).min_remain ≤ remaining t (start_at t p) =
      λ waits. le_trans rest.0 (rw (remaining-start t p) (least.1 waits)) in
    (le_trans rest.0 least.0, All-kept _ (timed_out t p) (start_at t p) _ bound rest.1)
