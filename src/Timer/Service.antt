-- ===== src/Timer/Service.antt =====
-- src/pattern/timer/timeractor.cpp and include/trz/pattern/timer/timeractor.h, the actor that the
-- handlers of all cores ask. The chain of clients is the list of what it holds, by core.
pub mod Visit
pub mod Serves
use simplx.Base.{
  ℕ, Bool, true, false, not, Option, some, none, List, [], ◌∷◌, ◌++◌, ltb, ◌==◌, if◌then◌else◌,
}
use simplx.Timer.Clock.{distance, started}

pub record Client : Type 0 where
  pub actor_id : ℕ
  pub start_time : ℕ
  pub duration : ℕ
  pub in_progress_flag : Bool

-- Which callback of the actor is registered.
pub data Callback : Type 0 where
  unregistered : Callback
  neutral : Callback
  normal : Callback

-- What leaves the actor: a `TimeOutEvent` to an actor with a time, or the callback of the client
-- of a core, registered because the event could not be allocated.
pub data Effect : Type 0 where
  time_out : ℕ → ℕ → Effect
  retry : ℕ → Effect

pub record EventHandler : Type 0 where
  pub client : ℕ → Client
  pub chain : List ℕ
  pub current : ℕ
  pub callback : Callback

-- `MAX_NODE_COUNT`.
abbrev pub max_node_count : ℕ
max_node_count = 255

abbrev pub set_client : (ℕ → Client) → ℕ → Client → (ℕ → Client)
set_client clients core c i = if i == core then c else clients i

pub record GetEvent : Type 0 where
  pub routed : Bool
  pub source_core : ℕ
  pub source_actor : ℕ
  pub duration : ℕ

pub data Handled : Type 0 where
  done : EventHandler → Handled
  return_to_sender : Handled
  assert_failed : Handled

abbrev pub is_nil : List ℕ → Bool
is_nil [] = true
is_nil (x ∷ xs) = false

-- `onEvent`.
unfoldable pub on_event : EventHandler → GetEvent → Handled
on_event h e =
    if e.routed
    then return_to_sender
    else if ltb e.source_core max_node_count
    then done (record {
      client = set_client h.client e.source_core (record {
        actor_id = e.source_actor;
        start_time = 0;
        duration = e.duration;
        in_progress_flag = true;
      });
      chain = if c.in_progress_flag then h.chain else h.chain ++ e.source_core ∷ [];
      current = h.current;
      callback = if is_nil h.chain then neutral else h.callback;
    })
    else assert_failed
  where
    c : Client
    c = h.client e.source_core

-- The client as the loop finds it at the time `t`: started, and due or not.
abbrev pub start_at : ℕ → Client → Client
start_at t c = record c { start_time = started t c.start_time }

abbrev pub is_due : ℕ → Client → Bool
is_due t c = not (ltb (distance t (started t c.start_time)) c.duration)

-- `pushTimeOut`.
abbrev pub push_time_out : (ℕ → Bool) → ℕ → ℕ → Client → Effect
push_time_out allocates t core c = if allocates core then time_out c.actor_id t else retry core

pub record Visited : Type 0 where
  pub client : ℕ → Client
  pub kept : List ℕ
  pub effects : List Effect

-- One client of the loop, put before what the rest of the loop leaves.
abbrev pub visit_one : Effect → Bool → ℕ → Visited → Visited
visit_one effect due core rest = record {
  client = rest.client;
  kept = if due then rest.kept else core ∷ rest.kept;
  effects = if due then effect ∷ rest.effects else rest.effects;
}

-- The loop of `onCallback`, over the chain. A failed `assert` is `none`.
unfoldable pub visit : (ℕ → Bool) → ℕ → List ℕ → (ℕ → Client) → Option Visited
visit allocates t [] clients = some (record { client = clients; kept = []; effects = [] })
visit allocates t (i ∷ is) clients =
    let c = clients i in
    let seen = record (start_at t c) { in_progress_flag = not (is_due t c) } in
    let rest = visit allocates t is (set_client clients i seen) in
    if c.in_progress_flag
    then elim rest [
      | none ↦ none
      | some r ↦ some (visit_one (push_time_out allocates t i c) (is_due t c) i r)
    ]
    else none

abbrev pub any : List Effect → Bool
any [] = false
any (x ∷ xs) = true

-- `onCallback` at the time `t`; the callback itself is no longer registered when it runs.
unfoldable pub on_callback : (ℕ → Bool) → ℕ → EventHandler → Option (EventHandler × List Effect)
on_callback allocates t h = elim (visit allocates t h.chain h.client) [
  | none ↦ none
  | some r ↦ some (
    record {
      client = r.client;
      chain = r.kept;
      current = t;
      callback = if is_nil r.kept then unregistered else if any r.effects then normal else neutral;
    },
    r.effects,
  )
]
