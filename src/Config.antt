-- ===== src/Config.antt =====
-- src/config.rs: the configuration of clients and of the cache, the guild ids of a client, and the
-- events and resources that follow from the cache's settings.
pub mod Flags
pub mod Announced
pub mod Guilds
mod Tests
use discord_gateway_proxy.Map.{Map}
use discord_gateway_proxy.Text.Number.{from_str}
use discord_gateway_proxy.Prelude.{
  nat_eq, str_eq, arith, Str, ℕ, Option, List, Bool, true, ◌^◌, some, [], false, if◌then◌else◌, ◌∷◌,
  ltb, ◌>>=◌, none, set_insert, map,
}

pub record ClientConfig : Type 0 where
  pub secret : Str
  pub guilds : List ℕ
  pub reachable_url : Option Str
  -- Seconds; the JSON file has none.
  pub next_wake_at : Option ℕ

-- The untagged enum of `visit_seq`.
pub data GuildId : Type 0 where
  string : Str → GuildId
  number : ℕ → GuildId

abbrev pub u64_values : ℕ
u64_values = 2 ^ 64

unfoldable pub parse_guild_id : GuildId → Option ℕ
parse_guild_id (GuildId.string s) = from_str u64_values s
parse_guild_id (GuildId.number n) = if ltb n u64_values then some n else none

-- `visit_seq`: one bad element refuses the list.
unfoldable pub visit_seq : List ℕ → List GuildId → Option (List ℕ)
unfolding parse_guild_id
visit_seq set [] = some set
visit_seq set (id ∷ ids) = parse_guild_id id >>= λ parsed. visit_seq (set_insert parsed set) ids

unfoldable pub deserialize_guild_ids : List GuildId → Option (List ℕ)
unfolding visit_seq
deserialize_guild_ids ids = visit_seq [] ids

pub record Cache : Type 0 where
  pub channels : Bool
  pub presences : Bool
  pub emojis : Bool
  pub current_member : Bool
  pub members : Bool
  pub roles : Bool
  pub scheduled_events : Bool
  pub stage_instances : Bool
  pub stickers : Bool
  pub users : Bool
  pub voice_states : Bool

unfoldable pub default_cache : Cache
default_cache = record {
  channels = true;
  presences = false;
  current_member = true;
  emojis = false;
  members = false;
  roles = true;
  scheduled_events = false;
  stage_instances = false;
  stickers = false;
  users = false;
  voice_states = false;
}

-- The fields of the configuration that the model reads; `token` has its fallback already.
pub record Config : Type 0 where
  pub token : Str
  pub port : ℕ
  pub shards : Option ℕ
  pub shard_start : Option ℕ
  pub shard_end : Option ℕ
  pub backpressure : ℕ
  pub validate_token : Bool
  pub twilight_http_proxy : Option Str
  pub gateway_url : Option Str
  pub externally_accessible_url : Str
  pub cache : Cache
  pub clients : Map Str ClientConfig
