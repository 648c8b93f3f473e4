-- ===== src/Gateway/Connection/Tests.antt =====
-- Connections of src/server.rs: runs of their turns, and the theorems at concrete ones.
use discord_gateway_proxy.Auth.{AuthContext}
use discord_gateway_proxy.State.Connections.{connections}
use discord_gateway_proxy.Gateway.Connection.Unserved.{check_identify_unserved}
use discord_gateway_proxy.Gateway.Connection.Upstream.{SendsOnly, turn-SendsOnly}
use discord_gateway_proxy.Gateway.Connection.Protocol.{Ends, serve, serve-refines, Run}
use discord_gateway_proxy.Gateway.Connection.Phases.{fresh, serving, Stands, Phase}
use discord_gateway_proxy.Gateway.Connection.System.{
  Reach, here, next, opens, turns, Reach-Balanced, Balanced, total, System,
}
use discord_gateway_proxy.Map
use discord_gateway_proxy.Gateway.Connection.Turns.{turn, check_identify}
use discord_gateway_proxy.Gateway.{VoiceStateUpdateInfo}
use discord_gateway_proxy.Clients.{Registry}
use discord_gateway_proxy.State.{InMemoryCache, Inner, Shard, SessionPrincipal}
use discord_gateway_proxy.Config.{Config, default_cache}
use discord_gateway_proxy.Gateway.Connection.{
  text_message, Inner, Registry, Moment, IdentifyInfo, Messages, Wakeup, Turned, ForwardTask,
  new_connection, continues, Shard, SessionPrincipal, panics,
}
use discord_gateway_proxy.Prelude.{
  none, some, [], true, false, codes, ◌∷◌, ◌≡◌, refl, str_eq, nat_eq, List, map, contains, str_beq,
  ◌+◌, arith,
}

abbrev config : Config
config = record {
  token = codes "bot";
  port = 0;
  shards = none;
  shard_start = none;
  shard_end = none;
  backpressure = 1;
  validate_token = true;
  twilight_http_proxy = none;
  gateway_url = none;
  externally_accessible_url = codes "u";
  cache = default_cache;
  clients = [];
}

abbrev no_guilds : InMemoryCache
no_guilds = record {
  guilds = record { id = 7; unavailable = none } ∷ [];
  unavailable_guilds = [];
  guild_channels = λ guild_id. some (9 ∷ []);
  voice_state = λ user_id guild_id. false;
}

abbrev shared : Inner
shared = record {
  shards = record { id = 0; sender = []; events = []; ready = none; guilds = no_guilds } ∷ [];
  shard_count = 1;
  sessions = [];
  active_client_connections = [];
  offline_event_buffers = [];
  last_wake_attempts = [];
  client_command_windows = [];
  voice_owners = [];
  bot_user_id = 42;
}

abbrev registry : Registry
registry = record {
  clients = some (
      (
        codes "a",
        record { secret = codes "s"; guilds = 7 ∷ []; reachable_url = none; next_wake_at = none },
      )
      ∷ []);
  database_configured = false;
  last_successful_sync = 0;
  now = none;
}

abbrev moment : Moment
moment = record { now = 5; registry = registry; draws = codes "i" ∷ [] }

abbrev identify : IdentifyInfo
identify = record { compress = none; shard_id = 0; shard_count = 1; token = codes "a:s" }

abbrev update : VoiceStateUpdateInfo
update = record {
  guild_id = codes "7";
  channel_id = some (codes "9");
  self_mute = false;
  self_deaf = false;
}

-- A JSON library that reads one message of each kind.
abbrev messages : Messages
messages = record {
  read_identify = λ payload. some identify;
  read_resume = λ payload. none;
  commands = record {
    read_members = λ payload. none;
    read_voice = λ payload. some update;
    write_members = λ op d. none;
    write_voice = λ op d. some (codes "{}");
  };
}

abbrev identify_message : Wakeup
identify_message = text_message (codes "{\"op\":2}")

abbrev voice_message : Wakeup
voice_message = text_message (codes "{\"op\":4}")

abbrev identified : Turned
identified = turn messages config moment identify_message (new_connection 0) shared

abbrev task : ForwardTask
task = record {
  session_id = codes "i";
  shard = 0;
  send_guilds = true;
  seq = 0;
  subscriber = record { client_id = some (codes "a"); authorized_guilds = some (7 ∷ []) };
}

test_identify : identified.connection.shard_forward_task ≡ some task
unfolding turn new_connection discord_gateway_proxy.Deserializer.find_opcode
    discord_gateway_proxy.Auth.authenticate_gateway_token
    discord_gateway_proxy.Clients.authenticate_client_with_id
    discord_gateway_proxy.Auth.normalize_gateway_token discord_gateway_proxy.Map.get
    discord_gateway_proxy.Prelude.str_beq discord_gateway_proxy.Map.contains_key
    discord_gateway_proxy.Map.retain discord_gateway_proxy.State.Voice.leave_voice_for_client
    discord_gateway_proxy.State.Connections.mark_client_connected
    discord_gateway_proxy.Map.map_values
test_identify = refl

flow_identify : identified.flow ≡ continues
unfolding turn discord_gateway_proxy.Deserializer.find_opcode new_connection
    discord_gateway_proxy.Auth.authenticate_gateway_token
    discord_gateway_proxy.Clients.authenticate_client_with_id
    discord_gateway_proxy.Auth.normalize_gateway_token Map.get str_beq Map.contains_key Map.retain
    discord_gateway_proxy.State.Voice.leave_voice_for_client
    discord_gateway_proxy.State.Connections.mark_client_connected Map.map_values
flow_identify = refl

abbrev start : System
start = record { inner = shared; open_connections = [] }

abbrev opened : System
opened = record { inner = shared; open_connections = new_connection 0 ∷ [] }

abbrev final : System
final = record { inner = identified.inner; open_connections = identified.connection ∷ [] }

Reach-final : Reach messages config start final
Reach-final =
    next (next here (opens start 0))
      (turns opened final [] [] (new_connection 0) moment identify_message refl flow_identify refl)

start-Balanced : Balanced messages config start
unfolding connections total Map.get
start-Balanced client_id = refl

Reach-Balanced_example :
    connections final.inner (codes "a") ≡ total final.open_connections (codes "a")
Reach-Balanced_example = Reach-Balanced messages config Reach-final start-Balanced (codes "a")

-- The client is counted.
test_count : connections final.inner (codes "a") ≡ 1
unfolding connections Map.get turn discord_gateway_proxy.Deserializer.find_opcode new_connection
    discord_gateway_proxy.Auth.authenticate_gateway_token
    discord_gateway_proxy.Clients.authenticate_client_with_id
    discord_gateway_proxy.Auth.normalize_gateway_token str_beq Map.contains_key Map.retain
    discord_gateway_proxy.State.Voice.leave_voice_for_client
    discord_gateway_proxy.State.Connections.mark_client_connected Map.map_values Map.insert
test_count = refl

abbrev served : List (Moment × Wakeup × Inner)
served = (moment, identify_message, shared) ∷ (moment, voice_message, identified.inner) ∷ []

new_connection-fresh : Stands fresh (new_connection 0)
unfolding new_connection
new_connection-fresh = (refl, refl, refl, refl, refl)

serve-refines_example :
    (left : List (Moment × Wakeup × Inner)) × (last : Phase) × Run messages config served fresh left
      last
    × Ends messages config left last (serve messages config (new_connection 0) served)
serve-refines_example =
    serve-refines messages config served fresh (new_connection 0) new_connection-fresh

identified-serving : Stands (serving task) identified.connection
unfolding turn discord_gateway_proxy.Deserializer.find_opcode new_connection
    discord_gateway_proxy.Auth.authenticate_gateway_token
    discord_gateway_proxy.Clients.authenticate_client_with_id
    discord_gateway_proxy.Auth.normalize_gateway_token Map.get str_beq Map.contains_key Map.retain
    discord_gateway_proxy.State.Voice.leave_voice_for_client
    discord_gateway_proxy.State.Connections.mark_client_connected Map.map_values
identified-serving = (refl, refl, refl, refl, refl)

turn-SendsOnly_example :
    SendsOnly messages config moment
      (codes "a")
      identified.inner
      (turn messages config moment voice_message identified.connection identified.inner).inner
turn-SendsOnly_example =
    turn-SendsOnly messages config moment (codes "a") voice_message identified.connection
      identified.inner task identified-serving refl

-- The command is sent.
test_voice :
    map
      (λ (s : Shard). s.sender)
      (turn messages config moment voice_message identified.connection
        identified.inner).inner.shards
    ≡ (codes "{}" ∷ []) ∷ []
unfolding turn discord_gateway_proxy.Deserializer.find_opcode new_connection
    discord_gateway_proxy.Auth.authenticate_gateway_token
    discord_gateway_proxy.Clients.authenticate_client_with_id
    discord_gateway_proxy.Auth.normalize_gateway_token Map.get str_beq Map.contains_key Map.retain
    discord_gateway_proxy.State.Voice.leave_voice_for_client
    discord_gateway_proxy.State.Connections.mark_client_connected Map.map_values contains
    discord_gateway_proxy.Rest.Channels.resolve_guild_id_for_channel
    discord_gateway_proxy.Prelude.find_map
test_voice = refl

-- The bot has two shards, of which the process runs the first.
abbrev half : Inner
half = record shared { shard_count = 2 }

abbrev elsewhere_served : IdentifyInfo
elsewhere_served = record { compress = none; shard_id = 1; shard_count = 2; token = codes "a:s" }

abbrev context : AuthContext
context = record {
  principal = SessionPrincipal.client (codes "a");
  authorized_guilds = some (7 ∷ []);
}

check_identify_unserved_example :
    (check_identify messages config moment elsewhere_served (new_connection 0) half).flow ≡ panics
unfolding Map.get contains str_beq discord_gateway_proxy.Auth.authenticate_gateway_token
    discord_gateway_proxy.Clients.authenticate_client_with_id
    discord_gateway_proxy.Auth.normalize_gateway_token
check_identify_unserved_example =
    check_identify_unserved messages config moment elsewhere_served context (new_connection 0) half
      (codes "i") refl (omega arith) refl tt refl refl
