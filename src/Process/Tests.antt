-- ===== src/Process/Tests.antt =====
-- The shared state of src/main.rs at concrete configurations.
use discord_gateway_proxy.Process.Shards.{initial_state-lookup}
use discord_gateway_proxy.State.Voice.{find_shard}
use discord_gateway_proxy.Process.{GatewayInfo, initial_state, await_dispatch}
use discord_gateway_proxy.Config.{Config, default_cache}
use discord_gateway_proxy.Prelude.{none, some, [], true, false, ◌∷◌, get_elem?, codes, ◌≡◌, refl}

-- The second of two processes with two shards each.
abbrev config : Config
config = record {
  token = codes "bot";
  port = 0;
  shards = some 4;
  shard_start = some 2;
  shard_end = some 4;
  backpressure = 1;
  validate_token = true;
  twilight_http_proxy = none;
  gateway_url = none;
  externally_accessible_url = codes "u";
  cache = default_cache;
  clients = [];
}

abbrev gateway : GatewayInfo
gateway = record { shards = 4 }

-- Shard 0, which the other process runs, is taken to be shard 2, and shard 2 is not found.
initial_state-lookup_example :
    get_elem? (initial_state config gateway).shards 0
    ≡ find_shard 2 (initial_state config gateway).shards
initial_state-lookup_example = initial_state-lookup config gateway 0

test_missing : get_elem? (initial_state config gateway).shards 2 ≡ none
unfolding initial_state
test_missing = refl

test_shutdown : await_dispatch 0 3 (true ∷ true ∷ false ∷ []) ≡ (2, 1)
unfolding await_dispatch
test_shutdown = refl
