-- ===== src/Gateway/Tests.antt =====
-- The theorems on src/server.rs at concrete connections.
use discord_gateway_proxy.Gateway.Forwarding.{
  Shows, MaySee, MayReplay, forward_events-Shows, replay-Shows,
}
use discord_gateway_proxy.State.{BufferedClientEvent, BroadcastMessage, Audience}
use discord_gateway_proxy.Gateway.Filter.{MayPass, filter_client_command-MayPass}
use discord_gateway_proxy.Gateway.{
  Subscriber, forward_events, replay, VoiceStateUpdateInfo, Commands, BroadcastMessage, Audience,
  voice,
}
use discord_gateway_proxy.Clients.{Registry}
use discord_gateway_proxy.Map
use discord_gateway_proxy.Prelude.{
  nat_eq, str_eq, arith, none, some, [], ◌∷◌, true, false, refl, ℕ, List, codes, ◌≡◌,
}

abbrev registry : Registry
registry = record {
  clients = some (
      (
        codes "a",
        record { secret = codes "s"; guilds = 7 ∷ []; reachable_url = none; next_wake_at = none },
      )
      ∷ []);
  database_configured = false;
  last_successful_sync = 0;
  now = none;
}

abbrev subscriber : Subscriber
subscriber = record { client_id = some (codes "a"); authorized_guilds = some (7 ∷ 8 ∷ []) }

-- Guild 8 was revoked after IDENTIFY.
abbrev event : ℕ → BroadcastMessage
event guild_id = record {
  payload = codes "{\"s\":5}";
  sequence = some (record { seq = 5; range = record { start = 5; stop = 6 } });
  guild_id = some guild_id;
  audience = Audience.guild;
}

abbrev events : List (Registry × BroadcastMessage)
events = (registry, event 7) ∷ (registry, event 8) ∷ (registry, event 7) ∷ []

test_forwarded :
    (forward_events subscriber 9 events).1 ≡ codes "{\"s\":10}" ∷ codes "{\"s\":11}" ∷ []
unfolding forward_events discord_gateway_proxy.Clients.client_has_guild Map.get
    discord_gateway_proxy.Prelude.str_beq discord_gateway_proxy.Prelude.contains
test_forwarded = refl

forward_events-Shows_example :
    Shows
      (λ e. e.1.payload)
      (λ e. e.1.sequence)
      (MaySee (codes "a"))
      9
      events
      (forward_events subscriber 9 events).1
forward_events-Shows_example = forward_events-Shows (codes "a") (7 ∷ 8 ∷ []) 9 events

abbrev kept : List (Registry × BufferedClientEvent)
kept =
    (registry, record { payload = codes "{}"; sequence = none; guild_id = some 7 })
    ∷ (registry, record { payload = codes "{}"; sequence = none; guild_id = some 8 })
    ∷ []

replay-Shows_example :
    Shows
      (λ e. e.1.payload)
      (λ e. e.1.sequence)
      (MayReplay (codes "a"))
      9
      kept
      (replay subscriber 9 kept).1
replay-Shows_example = replay-Shows (codes "a") (7 ∷ 8 ∷ []) 9 kept

-- A JSON library that reads one voice update.
abbrev update : VoiceStateUpdateInfo
update = record {
  guild_id = codes "7";
  channel_id = some (codes "9");
  self_mute = false;
  self_deaf = false;
}

abbrev toy_commands : Commands
toy_commands = record {
  read_members = λ payload. none;
  read_voice = λ payload. some update;
  write_members = λ op d. none;
  write_voice = λ op d. some (codes "{}");
}

filter_client_command-MayPass_example :
    MayPass toy_commands 4 (codes "{}") (7 ∷ []) (voice 7 (some 9) (codes "{}"))
unfolding discord_gateway_proxy.Gateway.filter_client_command
    discord_gateway_proxy.Text.Number.from_str discord_gateway_proxy.Prelude.contains
filter_client_command-MayPass_example =
    filter_client_command-MayPass toy_commands 4 (codes "{}") (7 ∷ [])
