-- ===== src/Process/Shards.antt =====
-- src/main.rs: where a shard stands in the list of the shards that this process runs.
use discord_gateway_proxy.Config.{Config}
use discord_gateway_proxy.State.Voice.{find_shard}
use discord_gateway_proxy.Process.{create_shards, initial_state, Config, GatewayInfo, total_shards}
use discord_gateway_proxy.Prelude.{
  zero, suc, ℕ, get_elem?, length, ◌≡◌, ◌+◌, arith, refl, unwrap_or, ◌-◌,
}

-- The position of a shard in the list is its number less that of the first.
pub get_elem?-create_shards :
    (shard_start rounds index : ℕ)
    → get_elem? (create_shards shard_start rounds) index
      ≡ find_shard (shard_start + index) (create_shards shard_start rounds)
unfolding create_shards find_shard
get_elem?-create_shards shard_start zero index = refl
get_elem?-create_shards shard_start (suc rounds) zero = ground arith
get_elem?-create_shards shard_start (suc rounds) (suc index) =
    ground (arith, get_elem?-create_shards (shard_start + 1) rounds index)

length-create_shards : (shard_start rounds : ℕ) → length (create_shards shard_start rounds) ≡ rounds
unfolding create_shards
length-create_shards shard_start zero = refl
length-create_shards shard_start (suc rounds) =
    omega (arith, length-create_shards (shard_start + 1) rounds)

-- `state.shards[id]`, as `handle_client` looks a shard up, finds the shard whose number is `id` more
-- than that of the first shard of this process, or none: the shard `id` itself only where the process
-- starts at shard 0.
pub initial_state-lookup :
    (config : Config) (gateway : GatewayInfo) (id : ℕ)
    → get_elem? (initial_state config gateway).shards id
      ≡ find_shard (unwrap_or 0 config.shard_start + id) (initial_state config gateway).shards
unfolding initial_state
initial_state-lookup config gateway id =
    get_elem?-create_shards (unwrap_or 0 config.shard_start)
      (unwrap_or (total_shards config gateway) config.shard_end - unwrap_or 0 config.shard_start) id
