-- ===== src/Gateway/Stream/Tests.antt =====
-- What `forward_shard` sends, at a concrete connection.
use discord_gateway_proxy.Deserializer.Sequence.{find_sequence-replace_range}
use discord_gateway_proxy.Text.Number.{to_string}
use discord_gateway_proxy.Text.Search.{replace_range}
use discord_gateway_proxy.Gateway.Connection.{ForwardTask}
use discord_gateway_proxy.Clients.{Registry}
use discord_gateway_proxy.Gateway.Stream.Numbers.{Reads, Counts}
use discord_gateway_proxy.Deserializer.{SequenceInfo, find_sequence, u64_bound}
use discord_gateway_proxy.Gateway.Stream.{
  ShardSource, Incoming, forward_shard, resumed, BroadcastMessage,
}
use discord_gateway_proxy.Cache.Guilds.{Source}
use discord_gateway_proxy.Json.{null}
use discord_gateway_proxy.State.{Audience, Inner, BroadcastMessage}
use discord_gateway_proxy.Gateway.Stream.Consecutive.{forward_shard-Consecutive}
use mathlib.Core.Option.{some-injective}
use discord_gateway_proxy.Prelude.{
  none, some, [], true, false, str_eq, nat_eq, Str, ℕ, Option, codes, ◌∷◌, ◌<◌, ap, ◌≡◌, ◌++◌,
  ◌>>=◌, String, nat_beq, refl, sym, arith, if◌then◌else◌, ◌∙◌, List,
}

-- A JSON parser that finds the number as the proxy's scan does, and a library that writes no more than
-- the number.
abbrev read : Str → Option ℕ
read t = find_sequence t >>= λ info. some info.seq

abbrev template : Str
template = codes "{\"s\":0}"

abbrev numbered_text : ℕ → Str
numbered_text n = replace_range 5 6 (to_string n) template

abbrev source : Source
source = record {
  resources = record {
    base = record {
      guilds =
          record { id = 7; unavailable = none }
          ∷ record { id = 8; unavailable = none }
          ∷ record { id = 9; unavailable = some true }
          ∷ [];
      unavailable_guilds = [];
      guild_channels = λ guild_id. some (1 ∷ 2 ∷ 3 ∷ []);
      voice_state = λ user_id guild_id. false;
    };
    is_thread = λ kind. nat_beq kind 11;
    channel = λ id.
        if nat_beq id 3
        then none
        else some (record { id = id; kind = if nat_beq id 2 then 11 else 0; rest = null });
    guild_presences = λ guild_id. none;
    presence = λ guild_id user_id. none;
    guild_emojis = λ guild_id. none;
    emoji = λ id. none;
    guild_members = λ guild_id. none;
    cached_member = λ guild_id user_id. none;
    guild_roles = λ guild_id. none;
    role = λ id. none;
    scheduled_events = λ guild_id. none;
    scheduled_event = λ id. none;
    guild_stage_instances = λ guild_id. none;
    stage_instance = λ id. none;
    guild_stickers = λ guild_id. none;
    sticker = λ id. none;
    guild_voice_states = λ guild_id. none;
    cached_voice_state = λ user_id guild_id. none;
    user = λ id. none;
  };
  copied = λ guild_id. null;
  write_create = λ payload. numbered_text payload.s;
  write_delete = λ payload. numbered_text payload.s;
}

abbrev shard : ShardSource
shard = record { source = source; write_ready = λ payload. some (numbered_text payload.s) }

abbrev found : SequenceInfo
found = record { seq = 0; range = record { start = 5; stop = 6 } }

read-numbered_text : (n : ℕ) → n < u64_bound → read (numbered_text n) ≡ some n
unfolding find_sequence
read-numbered_text n fits =
    ap (λ (o : Option SequenceInfo). o >>= λ info. some info.seq)
      (find_sequence-replace_range template found n fits refl)

read-resumed : read resumed ≡ none
unfolding find_sequence
read-resumed = refl

toy-Reads : Reads read shard
toy-Reads = record {
  ready_written = λ payload. (numbered_text payload.s, refl);
  reads_ready = λ payload t fits e.
      ap read (sym (some-injective (numbered_text payload.s) t e))
      ∙ read-numbered_text payload.s fits;
  reads_create = λ payload fits. read-numbered_text payload.s fits;
  reads_delete = λ payload fits. read-numbered_text payload.s fits;
  reads_resumed = read-resumed;
}

abbrev registry : Registry
registry = record {
  clients = some (
      (
        codes "a",
        record {
          secret = codes "s";
          guilds = 7 ∷ 9 ∷ [];
          reachable_url = none;
          next_wake_at = none;
        },
      )
      ∷ []);
  database_configured = false;
  last_successful_sync = 0;
  now = none;
}

abbrev task : ForwardTask
task = record {
  session_id = codes "i";
  shard = 0;
  send_guilds = true;
  seq = 0;
  subscriber = record { client_id = some (codes "a"); authorized_guilds = some (7 ∷ 9 ∷ []) };
}

abbrev shared : Inner
shared = record {
  shards = [];
  shard_count = 1;
  sessions = [];
  active_client_connections = [];
  offline_event_buffers =
      (codes "a", record { payload = template; sequence = some found; guild_id = some 7 } ∷ [])
      ∷ [];
  last_wake_attempts = [];
  client_command_windows = [];
  voice_owners = [];
  bot_user_id = 42;
}

abbrev live : ℕ → Registry × BroadcastMessage
live guild_id = (
  registry,
  record {
    payload = template;
    sequence = some found;
    guild_id = some guild_id;
    audience = Audience.guild;
  },
)

abbrev incoming : Incoming
incoming = record {
  ready = none ∷ some [] ∷ [];
  registry_at = λ i. registry;
  events = live 7 ∷ live 8 ∷ live 9 ∷ [];
}

-- READY, two guilds, the buffered event and two of the three live ones.
test_forward_shard : (forward_shard shard task incoming shared).0 ≡ (
  6,
  codes "{\"s\":1}"
      ∷ codes "{\"s\":2}"
      ∷ codes "{\"s\":3}"
      ∷ codes "{\"s\":4}"
      ∷ codes "{\"s\":5}"
      ∷ codes "{\"s\":6}"
      ∷ [],
)
unfolding forward_shard discord_gateway_proxy.Clients.client_has_guild discord_gateway_proxy.Map.get
    discord_gateway_proxy.Prelude.str_beq discord_gateway_proxy.Prelude.contains
test_forward_shard = refl

forward_shard-Consecutive_example : Counts read 0 (forward_shard shard task incoming shared).0
unfolding forward_shard discord_gateway_proxy.Map.get discord_gateway_proxy.Prelude.str_beq
forward_shard-Consecutive_example =
    forward_shard-Consecutive read shard toy-Reads task incoming shared
      (
        (read-numbered_text, tt),
        (read-numbered_text, (read-numbered_text, (read-numbered_text, tt))),
      )
      (omega (arith, ap (λ (r : ℕ × List Str). r.0) test_forward_shard))
