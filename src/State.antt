-- ===== src/State.antt =====
-- src/state.rs: the state that all tasks of the proxy share. A lock guards each map in the source;
-- here an operation takes the state and returns the new one. Times are counts of one clock.
pub mod Sessions
pub mod Voice
pub mod Connections
pub mod Offline
pub mod Limits
mod Tests
use discord_gateway_proxy.Prelude.{
  ℕ, ◌*◌, Bool, true, false, ◌&&◌, Option, none, some, List, Str, str_eq, ◌==◌, str_beq,
}
use discord_gateway_proxy.Map.{Map}
use discord_gateway_proxy.Json.{JsonObject}
use discord_gateway_proxy.Deserializer.{SequenceInfo}

-- One second of the clock, in milliseconds.
abbrev pub second : ℕ
second = 1000

abbrev pub session_ttl : ℕ
session_ttl = 30 * 60 * second

abbrev pub offline_event_buffer_limit : ℕ
offline_event_buffer_limit = 200

abbrev pub voice_owner_grace : ℕ
voice_owner_grace = 60 * second

pub record VoiceOwner : Type 0 where
  pub client_id : Str
  pub disconnected_at : Option ℕ
  pub wants_voice : Bool

pub data VoiceDecision : Type 0 where
  allow deny : VoiceDecision

pub record BufferedClientEvent : Type 0 where
  pub payload : Str
  pub sequence : Option SequenceInfo
  pub guild_id : Option ℕ

-- src/dispatch.rs: `Audience`.
pub data Audience : Type 0 where
  guild : Audience
  bot_only : Audience
  client : Str → Audience

-- src/dispatch.rs: `BroadcastMessage`.
pub record BroadcastMessage : Type 0 where
  pub payload : Str
  pub sequence : Option SequenceInfo
  pub guild_id : Option ℕ
  pub audience : Audience

-- A guild in the cache of twilight: its id and whether an outage makes it unavailable.
pub record CachedGuild : Type 0 where
  pub id : ℕ
  pub unavailable : Option Bool

-- What twilight's `InMemoryCache` answers at one moment.
pub record InMemoryCache : Type 0 where
  pub guilds : List CachedGuild
  pub unavailable_guilds : List ℕ
  pub guild_channels : ℕ → Option (List ℕ)
  -- `voice_state(user, guild).is_some()`.
  pub voice_state : ℕ → ℕ → Bool

-- `sender` holds what was sent to Discord, `events` what was broadcast to clients, newest last.
pub record Shard : Type 0 where
  pub id : ℕ
  pub sender : List Str
  pub events : List BroadcastMessage
  pub ready : Option JsonObject
  pub guilds : InMemoryCache

pub data SessionPrincipal : Type 0 where
  bot_token : SessionPrincipal
  client : Str → SessionPrincipal
  unvalidated : Str → SessionPrincipal

unfoldable pub principal_beq : SessionPrincipal → SessionPrincipal → Bool
principal_beq SessionPrincipal.bot_token SessionPrincipal.bot_token = true
principal_beq (SessionPrincipal.client a) (SessionPrincipal.client b) = str_beq a b
principal_beq (SessionPrincipal.unvalidated a) (SessionPrincipal.unvalidated b) = str_beq a b
principal_beq _ _ = false

pub record Session : Type 0 where
  pub shard_id : ℕ
  pub compress : Option Bool
  pub principal : SessionPrincipal
  -- `none`: all events are forwarded.
  pub authorized_guilds : Option (List ℕ)
  pub last_accessed : ℕ

pub record Inner : Type 0 where
  pub shards : List Shard
  pub shard_count : ℕ
  pub sessions : Map Str Session
  pub active_client_connections : Map Str ℕ
  pub offline_event_buffers : Map Str (List BufferedClientEvent)
  pub last_wake_attempts : Map Str ℕ
  -- Start of the window and commands in it.
  pub client_command_windows : Map Str (ℕ × ℕ)
  pub voice_owners : Map ℕ VoiceOwner
  pub bot_user_id : ℕ
