-- ===== src/Process.antt =====
-- src/main.rs: the shared state at the start, the tasks that clean it up, and the shutdown.
pub mod Shards
pub mod Shutdown
mod Tests
use discord_gateway_proxy.Gateway.Connection.{send_voice_leaves}
use discord_gateway_proxy.Clients.{Registry}
use discord_gateway_proxy.State.Voice.{take_stale_voice_owners}
use discord_gateway_proxy.State.Limits.{prune_stale_client_state}
use discord_gateway_proxy.Config.{Config, ClientConfig}
use discord_gateway_proxy.State.{InMemoryCache, Shard, Inner}
use discord_gateway_proxy.Prelude.{
  none, some, [], false, true, zero, suc, str_eq, nat_eq, ℕ, List, unwrap_or, ◌∷◌, ◌-◌, map, Bool,
  ◌+◌, Str,
}

-- What Discord answers about the gateway, as far as it is used here.
pub record GatewayInfo : Type 0 where
  pub shards : ℕ

abbrev pub empty_cache : InMemoryCache
empty_cache = record {
  guilds = [];
  unavailable_guilds = [];
  guild_channels = λ guild_id. none;
  voice_state = λ user_id guild_id. false;
}

-- A shard before its READY.
unfoldable pub new_shard : ℕ → Shard
new_shard shard_id = record {
  id = shard_id;
  sender = [];
  events = [];
  ready = none;
  guilds = empty_cache;
}

-- The loop `for shard_id in shard_start..shard_end`, of so many rounds.
unfoldable pub create_shards : ℕ → ℕ → List Shard
unfolding new_shard
create_shards shard_start zero = []
create_shards shard_start (suc rounds) =
    new_shard shard_start ∷ create_shards (shard_start + 1) rounds

abbrev pub total_shards : Config → GatewayInfo → ℕ
total_shards config gateway = unwrap_or gateway.shards config.shards

unfoldable pub initial_state : Config → GatewayInfo → Inner
unfolding create_shards
initial_state config gateway =
    let shard_count = total_shards config gateway in
    let shard_start = unwrap_or 0 config.shard_start in
    let shard_end = unwrap_or shard_count config.shard_end in
    record {
      shards = create_shards shard_start (shard_end - shard_start);
      shard_count = shard_count;
      sessions = [];
      active_client_connections = [];
      offline_event_buffers = [];
      last_wake_attempts = [];
      client_command_windows = [];
      voice_owners = [];
      bot_user_id = 0;
    }

-- A tick of the cleanup: nothing where the lock on the registry is poisoned.
unfoldable pub cleanup : Registry → Inner → Inner
unfolding prune_stale_client_state
cleanup registry inner = elim registry.clients [
  | none ↦ inner
  | some clients ↦ prune_stale_client_state (map (λ (c : Str × ClientConfig). c.0) clients) inner
]

-- A tick of the voice sweep, with no other task between its two locks: the guilds whose owner is gone
-- are left.
unfoldable pub sweep_voice : Config → Registry → ℕ → Inner → Inner
unfolding take_stale_voice_owners send_voice_leaves
sweep_voice config registry now inner = elim registry.clients [
  | none ↦ inner
  | some clients ↦
      let authorized = map (λ (c : Str × ClientConfig). (c.0, c.1.guilds)) clients in
      let (swept, guilds) =
        take_stale_voice_owners config.cache.voice_states now authorized inner in
      send_voice_leaves guilds swept
]

-- The loop that waits for the dispatch tasks: how many ended in time and how many did not. Each entry
-- says whether a task ended before the timeout; the set of tasks is empty when none is left.
unfoldable pub await_dispatch : ℕ → ℕ → List Bool → ℕ × ℕ
await_dispatch graceful zero joined = (graceful, zero)
await_dispatch graceful (suc ungraceful) [] = (graceful, suc ungraceful)
await_dispatch graceful (suc ungraceful) (true ∷ joined) =
    await_dispatch (graceful + 1) ungraceful joined
await_dispatch graceful (suc ungraceful) (false ∷ joined) = (graceful, suc ungraceful)
