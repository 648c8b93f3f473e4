-- ===== src/Dispatch/Tests.antt =====
-- The theorems on src/dispatch.rs at concrete states.
use discord_gateway_proxy.Dispatch.Audiences.{audience_for-voice_owner}
use discord_gateway_proxy.Gateway.Forwarding.{HasGuild}
use discord_gateway_proxy.Dispatch.{buffer_event_for_clients, Audience}
use discord_gateway_proxy.Dispatch.Buffering.{kept, buffer_event_for_clients_lem}
use discord_gateway_proxy.State.Voice.{voice_owner}
use discord_gateway_proxy.State.{Inner, BroadcastMessage, BufferedClientEvent, Audience}
use discord_gateway_proxy.Clients.{Registry}
use discord_gateway_proxy.Config.{ClientConfig}
use discord_gateway_proxy.Map
use discord_gateway_proxy.Prelude.{
  nat_eq, str_eq, arith, none, some, [], ◌∷◌, true, false, refl, codes, ◌≡◌,
}

abbrev client_a : ClientConfig
client_a = record {
  secret = codes "s";
  guilds = 7 ∷ [];
  reachable_url = some (codes "u");
  next_wake_at = none;
}

abbrev registry : Registry
registry = record {
  clients = some ((codes "a", client_a) ∷ []);
  database_configured = false;
  last_successful_sync = 0;
  now = none;
}

abbrev inner : Inner
inner = record {
  shards = [];
  shard_count = 1;
  sessions = [];
  active_client_connections = [];
  offline_event_buffers = [];
  last_wake_attempts = [];
  client_command_windows = [];
  voice_owners =
      (7, record { client_id = codes "a"; disconnected_at = none; wants_voice = true }) ∷ [];
  bot_user_id = 42;
}

abbrev voice_event : BroadcastMessage
voice_event = record {
  payload = codes "{}";
  sequence = none;
  guild_id = some 7;
  audience = Audience.client (codes "a");
}

audience_for-voice_owner_example :
    (voice_owner inner 7 ≡ some (codes "a"))
    × HasGuild registry (codes "a") 7
    × HasGuild registry (codes "a") 7
unfolding discord_gateway_proxy.Dispatch.audience_for discord_gateway_proxy.Prelude.str_beq
    voice_owner Map.get discord_gateway_proxy.Clients.client_has_guild
    discord_gateway_proxy.Prelude.contains discord_gateway_proxy.Gateway.audience_passes
    discord_gateway_proxy.Gateway.guild_passes discord_gateway_proxy.Gateway.forward_event
    discord_gateway_proxy.Gateway.renumber
audience_for-voice_owner_example =
    audience_for-voice_owner registry registry inner (codes "a") (7 ∷ []) 7 0 voice_event refl refl
      (λ h. cc h)

abbrev missed : BufferedClientEvent
missed = record { payload = codes "{}"; sequence = none; guild_id = some 7 }

buffer_event_for_clients_lem_example :
    kept (buffer_event_for_clients 0 missed 7 ((codes "a", client_a) ∷ []) inner).0 (codes "a")
    ≡ missed ∷ []
unfolding Map.get discord_gateway_proxy.Prelude.str_beq discord_gateway_proxy.Prelude.contains
    discord_gateway_proxy.State.Connections.is_client_connected
    discord_gateway_proxy.State.Offline.push_bounded
buffer_event_for_clients_lem_example =
    buffer_event_for_clients_lem 0 missed 7 ((codes "a", client_a) ∷ []) inner (codes "a")
      (refl, tt)
