-- ===== src/Wake/Tests.antt =====
-- The theorems on src/wake.rs at concrete registries.
use discord_gateway_proxy.Wake.Polls.{Polled, scheduled_wakes-Polled}
use discord_gateway_proxy.Config.{ClientConfig}
use discord_gateway_proxy.Wake.{Visit, scheduled_wakes, wake_request, wake_typing, ClientConfig}
use discord_gateway_proxy.State.{Inner}
use discord_gateway_proxy.Map.{Map}
use discord_gateway_proxy.Prelude.{
  none, some, [], true, false, ◌∷◌, Option, map, Str, ◌≡◌, codes, ℕ, refl, List,
}

abbrev client : Option Str → Option ℕ → ClientConfig
client url at = record { secret = codes "s"; guilds = []; reachable_url = url; next_wake_at = at }

-- All clients are met at the same time, with nothing in between.
abbrev visit : Visit
visit = record { now = 100; clock = 0; meanwhile = λ inner. inner }

-- Due, not due yet, due without an address.
abbrev clients : List (Visit × Str × ClientConfig)
clients =
    (visit, codes "a", client (some (codes "h/")) (some 120))
    ∷ (visit, codes "b", client (some (codes "h")) (some 500))
    ∷ (visit, codes "c", client none (some 90))
    ∷ []

abbrev shared : Inner
shared = record {
  shards = [];
  shard_count = 1;
  sessions = [];
  active_client_connections = [];
  offline_event_buffers = [];
  last_wake_attempts = [];
  client_command_windows = [];
  voice_owners = [];
  bot_user_id = 42;
}

test_scheduled : (scheduled_wakes clients shared).1 ≡ (codes "a", codes "h/", codes "a:s") ∷ []
unfolding scheduled_wakes discord_gateway_proxy.State.Connections.is_client_connected
    discord_gateway_proxy.Map.get discord_gateway_proxy.Map.insert
    discord_gateway_proxy.Prelude.str_beq
test_scheduled = refl

test_wake_request :
    wake_request (codes "h//") (codes "a:s") ≡ (codes "h/kimaki/wake", codes "Bearer a:s")
unfolding wake_request
test_wake_request = refl

-- A client that never connects.
test_typing :
    wake_typing (
      (false, 0)
      ∷ (false, 7000)
      ∷ (false, 14000)
      ∷ (false, 21000)
      ∷ (false, 28000)
      ∷ (false, 35000)
      ∷ [])
    ≡ 5
unfolding wake_typing
test_typing = refl

scheduled_wakes-Polled_example : Polled clients shared ((codes "a", codes "h/", codes "a:s") ∷ [])
unfolding scheduled_wakes discord_gateway_proxy.State.Connections.is_client_connected
    discord_gateway_proxy.Map.get discord_gateway_proxy.Map.insert
    discord_gateway_proxy.Prelude.str_beq
scheduled_wakes-Polled_example = scheduled_wakes-Polled clients shared
