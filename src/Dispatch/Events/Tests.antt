-- ===== src/Dispatch/Events/Tests.antt =====
-- Runs of the loop over a shard's messages of src/dispatch.rs, and its theorem at a concrete one.
use discord_gateway_proxy.Dispatch.Events.Loop.{machine, events-refines}
use discord_gateway_proxy.State.{Shard, Inner}
use discord_gateway_proxy.Config.{Config, default_cache}
use discord_gateway_proxy.Dispatch.Events.Broadcast.{payload_of, Relayed}
use discord_gateway_proxy.Dispatch.Events.{
  Parsed, invalidate_session, text, events, Readers, Config, Relay, Arrival, Shard, Inner,
}
use discord_gateway_proxy.Prelude.{
  none, some, [], true, false, ◌∷◌, Str, List, map, codes, ℕ, ◌++◌, if◌then◌else◌, ◌≡◌, str_beq,
  refl,
}

abbrev readers : Readers
readers = record {
  read_ready = λ payload. some [];
  read_ready_user = λ payload. some (codes "42");
  read_voice = λ payload. none;
  parse = λ payload.
      if str_beq payload (codes "{\"op\":9}") then invalidate_session false else Parsed.skipped;
}

abbrev config : Config
config = record {
  token = codes "bot";
  port = 0;
  shards = none;
  shard_start = none;
  shard_end = none;
  backpressure = 1;
  validate_token = true;
  twilight_http_proxy = none;
  gateway_url = none;
  externally_accessible_url = codes "u";
  cache = default_cache;
  clients = [];
}

abbrev relay : Relay
relay = record {
  is_ready = false;
  inner = record {
    shards = new_shard 0 ∷ [];
    shard_count = 1;
    sessions = [];
    active_client_connections = [];
    offline_event_buffers = [];
    last_wake_attempts = [];
    client_command_windows = [];
    voice_owners = [];
    bot_user_id = 0;
  };
  woken = [];
  typing = [];
}
  where
    new_shard : ℕ → Shard
    new_shard id = record {
      id = id;
      sender = [];
      events = [];
      ready = none;
      guilds = record {
        guilds = [];
        unavailable_guilds = [];
        guild_channels = λ g. none;
        voice_state = λ u g. false;
      };
    }

abbrev arrival : Str → Arrival
arrival payload = record {
  moment = record {
    now = 0;
    registry = record {
      clients = some [];
      database_configured = false;
      last_successful_sync = 0;
      now = none;
    };
    shutdown = false;
  };
  message = text payload;
  meanwhile = λ inner. inner;
}

-- An event before READY, READY, an event, the end of the session, and an event after it.
abbrev arrivals : List Arrival
arrivals =
    arrival (codes "{\"op\":0,\"t\":\"X\"}")
    ∷ arrival (codes "{\"op\":0,\"t\":\"READY\"}")
    ∷ arrival (codes "{\"op\":0,\"t\":\"Y\"}")
    ∷ arrival (codes "{\"op\":9}")
    ∷ arrival (codes "{\"op\":0,\"t\":\"Z\"}")
    ∷ []

test_events :
    map
      (λ (s : Shard). map payload_of s.events)
      (events readers config 0 relay arrivals).inner.shards
    ≡ (codes "{\"op\":0,\"t\":\"Y\"}" ∷ []) ∷ []
unfolding events discord_gateway_proxy.Deserializer.find_opcode
    discord_gateway_proxy.Deserializer.find_event_type str_beq
test_events = refl

kept : (inner : Inner) (payloads : List Str) → Relayed 0 inner payloads → Relayed 0 inner payloads
kept inner payloads h = h

events-refines_example :
    Relayed 0 (events readers config 0 relay arrivals).inner ([] ++ machine readers false arrivals)
events-refines_example =
    events-refines readers config 0 arrivals relay [] (kept, (kept, (kept, (kept, (kept, tt)))))
      (_, refl, refl)
