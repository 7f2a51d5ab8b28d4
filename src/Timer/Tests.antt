-- ===== src/Timer/Tests.antt =====
-- A handler with three timers at the time 100, and a service with two clients.
use simplx.Base.{
  ℕ, ◌+◌, ◌≡◌, ◌≤◌, refl, true, false, some, List, [], ◌∷◌, arith, ◌==◌, if◌then◌else◌,
}
use simplx.Timer.Proxy.{TimerProxy, Handler, timed_out, is_nil}
use simplx.Timer.Proxy.Scan.{All, remaining, those}
use simplx.Timer.Proxy.Fires.{on_event-fires, on_event-wakes}
use simplx.Timer.Proxy
use simplx.Timer.Service
use simplx.Timer.Service.{
  Client, EventHandler, GetEvent, Effect, time_out, retry, Callback, neutral, on_callback, done,
  set_client, max_node_count,
}
use simplx.Timer.Service.Visit
use simplx.Timer.Service.Serves.{IsValid, on_callback-serves, on_event-accepts}

-- The first has timed out, the second has not started, the third has timed out and repeats.
abbrev timers : Handler
timers = record {
  proxies =
      record { id = 1; start_time = 40; duration = 50; repeat_flag = false }
      ∷ record { id = 2; start_time = 0; duration = 30; repeat_flag = false }
      ∷ record { id = 3; start_time = 80; duration = 20; repeat_flag = true }
      ∷ [];
  in_progress = true;
  request = 0;
  requests = [];
  retry = false;
}

abbrev left : List TimerProxy
left =
    record { id = 2; start_time = 100; duration = 30; repeat_flag = false }
    ∷ record { id = 3; start_time = 100; duration = 20; repeat_flag = true }
    ∷ []

on_event-fires_example :
    ((Proxy.on_event true 100 timers).1 ≡ 1 ∷ 3 ∷ [])
    × ((Proxy.on_event true 100 timers).0.proxies ≡ left)
unfolding those
on_event-fires_example = on_event-fires 100 (omega arith) timers true

on_event-wakes_example :
    (d : ℕ) × ((Proxy.on_event true 100 timers).0.requests ≡ d ∷ [])
    × All (λ p. d ≤ remaining 100 p) left
unfolding those
on_event-wakes_example = on_event-wakes 100 (omega arith) timers

-- The client of the core 2 is due at the time 100, that of the core 5 is not.
abbrev clients : ℕ → Client
clients i = record {
  actor_id = 70 + i;
  start_time = 60;
  duration = if i == 2 then 40 else 90;
  in_progress_flag = if i == 2 then true else if i == 5 then true else false;
}

abbrev two_clients : EventHandler
two_clients = record { client = clients; chain = 2 ∷ 5 ∷ []; current = 60; callback = neutral }

two_clients-IsValid : IsValid two_clients
two_clients-IsValid = record { once = ground arith; flags = λ i. ground arith; registered = refl }

on_callback-serves_example :
    (h' : EventHandler) × (effects : List Effect) × (on_callback (λ i. true) 100 two_clients
      ≡ some (h', effects))
    × (effects ≡ time_out 72 100 ∷ [])
    × (h'.chain ≡ 5 ∷ [])
    × IsValid h'
unfolding Visit.those
on_callback-serves_example = on_callback-serves (λ i. true) 100 two_clients two_clients-IsValid

abbrev wish : GetEvent
wish = record { routed = false; source_core = 7; source_actor = 90; duration = 25 }

on_event-accepts_example :
    (h' : EventHandler) × (Service.on_event two_clients wish ≡ done h')
    × (h'.chain ≡ 2 ∷ 5 ∷ 7 ∷ [])
    × (h'.client
        ≡ set_client clients 7
            (record { actor_id = 90; start_time = 0; duration = 25; in_progress_flag = true }))
    × IsValid h'
on_event-accepts_example = on_event-accepts two_clients wish two_clients-IsValid refl (omega arith)
