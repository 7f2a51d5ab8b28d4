-- ===== src/Timer/Proxy.antt =====
-- include/trz/pattern/timer/timerproxy.h and src/pattern/timer/timeractor.cpp, the timers of the
-- actors on one core. The chain of proxies is the list of what it holds, as the double chain
-- implements it; a proxy has an identity in place of its address. A callback `onTimeout` is an
-- effect: it is recorded, and one that sets or clears timers itself is not modelled.
pub mod Scan
pub mod Fires
use simplx.Base.{
  ℕ, ◌-◌, ◌^◌, Bool, true, false, not, ◌&&◌, List, [], ◌∷◌, ◌++◌, ltb, leb, ◌==◌, if◌then◌else◌,
}
use simplx.Timer.Clock.{distance, started, minimum, forever}

pub record TimerProxy : Type 0 where
  pub id : ℕ
  pub start_time : ℕ
  pub duration : ℕ
  pub repeat_flag : Bool

-- `SingletonActorEventHandler`, with its `SendGetEventTryCallback`: `request` is the duration that
-- it holds, `requests` are the `GetEvent`s that were pushed, and `retry` is its registered callback.
pub record Handler : Type 0 where
  pub proxies : List TimerProxy
  pub in_progress : Bool
  pub request : ℕ
  pub requests : List ℕ
  pub retry : Bool

-- `SendGetEventTryCallback::onCallback`; the argument says whether the event could be allocated.
unfoldable pub try_push : Bool → Handler → Handler
try_push allocates h =
    if allocates
    then record h { requests = h.requests ++ h.request ∷ [] }
    else record h { retry = true }

-- `getTime`.
unfoldable pub get_time : Bool → Handler → ℕ → Handler
unfolding try_push
get_time allocates h duration =
    if now && h.in_progress
    then h
    else try_push allocates (record h { in_progress = now; request = duration })
  where
    now : Bool
    now = duration == 0

pub remove : ℕ → List TimerProxy → List TimerProxy
remove id [] = []
remove id (p ∷ ps) = let rest = remove id ps in if p.id == id then ps else p ∷ rest

unfoldable pub unset : ℕ → Handler → Handler
unset id h = record h { proxies = remove id h.proxies }

-- `set`, and `setRepeat` with the flag.
unfoldable pub set : Bool → Bool → ℕ → ℕ → Handler → Handler
unfolding get_time unset
set allocates repeat id duration h =
    get_time allocates
      (record h {
        proxies =
            record { id = id; start_time = 0; duration = duration; repeat_flag = repeat }
            ∷ (unset id h).proxies;
      })
      0

-- `isSet`.
pub is_set : ℕ → List TimerProxy → Bool
is_set id [] = false
is_set id (p ∷ ps) = let rest = is_set id ps in if p.id == id then true else rest

-- The start time that `timedOut` writes, when it is called at the time `t`.
abbrev pub start_at : ℕ → TimerProxy → TimerProxy
start_at t p = record p { start_time = started t p.start_time }

abbrev pub elapsed : ℕ → TimerProxy → ℕ
elapsed t p = distance t (started t p.start_time)

-- What `timedOut` answers.
abbrev pub timed_out : ℕ → TimerProxy → Bool
timed_out t p = not (ltb (elapsed t p) p.duration)

-- What the loops of `onEvent` keep: the proxies still in the chain, those that timed out, and the
-- shortest time that remains.
pub record Scanned : Type 0 where
  pub waiting : List TimerProxy
  pub due : List TimerProxy
  pub min_remain : ℕ

-- What `timedOut` does with `minRemainToTimeOut`.
abbrev pub next_remain : ℕ → TimerProxy → ℕ → ℕ
next_remain t p min_remain =
    if timed_out t p then min_remain else minimum min_remain (p.duration - elapsed t p)

-- The first loop, over the chain.
unfoldable pub scan : ℕ → List TimerProxy → ℕ → Scanned
scan t [] min_remain = record { waiting = []; due = []; min_remain = min_remain }
scan t (p ∷ ps) min_remain =
    let rest = scan t ps (next_remain t p min_remain) in
    record {
      waiting = if timed_out t p then rest.waiting else start_at t p ∷ rest.waiting;
      due = if timed_out t p then start_at t p ∷ rest.due else rest.due;
      min_remain = rest.min_remain;
    }

-- What the second loop leaves: the chain, the shortest time that remains, and the proxies whose
-- `onTimeout` was called.
pub record Fired : Type 0 where
  pub waiting : List TimerProxy
  pub min_remain : ℕ
  pub fired : List ℕ

unfoldable pub fire : ℕ → List TimerProxy → List TimerProxy → ℕ → Fired
fire t [] waiting min_remain = record { waiting = waiting; min_remain = min_remain; fired = [] }
fire t (p ∷ ps) waiting min_remain =
    let rest =
      fire t ps (if p.repeat_flag then waiting ++ record p { start_time = t } ∷ [] else waiting)
        (if p.repeat_flag then minimum min_remain p.duration else min_remain) in
    record rest { fired = p.id ∷ rest.fired }

-- The third loop: the proxies at the front that have not been started.
unfoldable pub start_front : ℕ → List TimerProxy → ℕ → List TimerProxy × ℕ
start_front t [] min_remain = ([], min_remain)
start_front t (p ∷ ps) min_remain =
    let rest = start_front t ps (minimum min_remain p.duration) in
    if p.start_time == 0
    then (record p { start_time = t } ∷ rest.0, rest.1)
    else (p ∷ ps, min_remain)

abbrev pub is_nil : List TimerProxy → Bool
is_nil [] = true
is_nil (p ∷ ps) = false

-- The end of `onEvent`: with proxies left, the service is asked again.
unfoldable pub ask_again : Bool → Handler → List TimerProxy × ℕ → Handler
unfolding get_time
ask_again allocates h (ps, min_remain) =
    if is_nil ps
    then record h { proxies = ps }
    else get_time allocates (record h { proxies = ps }) min_remain

-- `onEvent` of a `TimeOutEvent` with the time `t`: the handler, and whose `onTimeout` was called.
-- The pointer of a proxy to its chain is not modelled, and neither are the asserts on it and on the
-- source of the event.
unfoldable pub on_event : Bool → ℕ → Handler → Handler × List ℕ
on_event allocates t h = (
  ask_again allocates (record h { in_progress = false })
      (start_front t called.waiting called.min_remain),
  called.fired,
)
  where
    found : Scanned
    found = scan t h.proxies forever

    called : Fired
    called = fire t found.due found.waiting found.min_remain
