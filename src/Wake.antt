-- ===== src/Wake.antt =====
-- src/wake.rs: waking the clients that can be reached over the internet.
pub mod Polls
pub mod Typing
mod Tests
use discord_gateway_proxy.State.Connections.{is_client_connected}
use discord_gateway_proxy.Dispatch.{WakeTarget}
use discord_gateway_proxy.State.{second, Inner}
use discord_gateway_proxy.Map.{Map}
use discord_gateway_proxy.Config.{ClientConfig}
use discord_gateway_proxy.State.Limits.{should_wake_client}
use discord_gateway_proxy.Prelude.{
  str_eq, nat_eq, none, some, [], ℕ, Str, List, ◌*◌, ◌∷◌, ◌++◌, Bool, map, if◌then◌else◌, codes,
  not, is_empty, ltb, Option, leb, ◌&&◌, ◌-◌, map_or, ◌+◌, nat_beq, ◌>>=◌,
}

abbrev pub typing_pulse : ℕ
typing_pulse = 7 * second

abbrev pub typing_max : ℕ
typing_max = 35 * second

-- In seconds, as `next_wake_at` is.
abbrev pub task_wake_lead : ℕ
task_wake_lead = 30

-- `trim_end_matches('/')`.
unfoldable pub trim_slashes : Str → Str
trim_slashes [] = []
trim_slashes (c ∷ s) =
    let rest = trim_slashes s in if is_empty rest && nat_beq c b'/' then [] else c ∷ rest

-- The request of `wake_client`: its address and its AUTHORIZATION header.
unfoldable pub wake_request : Str → Str → Str × Str
unfolding trim_slashes
wake_request reachable_url token =
    (trim_slashes reachable_url ++ codes "/kimaki/wake", codes "Bearer " ++ token)

-- A wake is due `task_wake_lead` before its time, with times in seconds of the epoch.
unfoldable pub is_due : ℕ → ℕ → Bool
is_due now next_wake_at = not (ltb now (next_wake_at - task_wake_lead))

-- One client of the registry in a poll of `spawn_scheduled_wakes`; `clock` is the monotonic time of
-- the cooldown.
unfoldable pub scheduled_wake : ℕ → ℕ → Str → ClientConfig → Inner → Inner × Option WakeTarget
unfolding is_due should_wake_client
scheduled_wake now clock client_id client inner = elim client.next_wake_at [
  | none ↦ (inner, none)
  | some next_wake_at ↦
      let (should_wake, marked) = should_wake_client clock (10 * second) client_id inner in
      if not (is_due now next_wake_at)
      then (inner, none)
      else if is_client_connected inner client_id
      then (inner, none)
      else if not should_wake
      then (marked, none)
      else (
        marked,
        client.reachable_url >>= λ url. some (client_id, url, client_id ++ b':' ∷ client.secret),
      )
]

-- What the poll meets at one client: both clocks, and what other tasks have made of the shared state
-- since the client before it.
pub record Visit : Type 0 where
  pub now : ℕ
  pub clock : ℕ
  pub meanwhile : Inner → Inner

-- A poll over the registry; each target is then sent a request.
unfoldable pub scheduled_wakes : List (Visit × Str × ClientConfig) → Inner → Inner × List WakeTarget
unfolding scheduled_wake
scheduled_wakes [] inner = (inner, [])
scheduled_wakes ((visit, client_id, client) ∷ clients) inner =
    let (after, target) =
      scheduled_wake visit.now visit.clock client_id client (visit.meanwhile inner) in
    let (last, targets) = scheduled_wakes clients after in
    (last, map_or targets (λ t. t ∷ targets) target)

-- The loop of `spawn_wake_typing` over what it finds each time round: whether the client is connected
-- and how long it has been running. The result is the number of pulses that were sent.
unfoldable pub wake_typing : List (Bool × ℕ) → ℕ
wake_typing [] = 0
wake_typing ((connected, elapsed) ∷ rounds) =
    let rest = wake_typing rounds in
    if connected then 0 else if leb typing_max elapsed then 0 else rest + 1
