-- ===== src/Gateway.antt =====
-- src/server.rs: the gateway that clients connect to. What a client may send, and which events of a
-- shard it is sent.
pub mod Filter
pub mod Forwarding
pub mod Stream
pub mod Compress
pub mod Sink
pub mod Upgrade
pub mod Connection
mod Tests
use discord_gateway_proxy.Deserializer.{SequenceInfo}
use discord_gateway_proxy.Config.{u64_values}
use discord_gateway_proxy.Json.{Value}
use discord_gateway_proxy.Text.Number.{from_str, to_string}
use discord_gateway_proxy.Text.Search.{replace_range}
use discord_gateway_proxy.State.{Audience, BufferedClientEvent, BroadcastMessage}
use discord_gateway_proxy.Clients.{Registry, client_has_guild}
use discord_gateway_proxy.Prelude.{
  nat_eq, str_eq, arith, none, some, [], ◌∷◌, true, false, Str, ℕ, List, Option, Bool, codes,
  if◌then◌else◌, leb, nat_beq, contains, str_beq, ◌&&◌, ◌++◌, length, ◌+◌,
}

-- src/model.rs: what is read of a command, and what of it is sent on.
pub record RequestGuildMembersInfo : Type 0 where
  pub guild_id : Str
  pub query : Option Str
  pub limit : Option ℕ
  pub presences : Option Bool
  pub user_ids : Option Value
  pub nonce : Option Str

pub record VoiceStateUpdateInfo : Type 0 where
  pub guild_id : Str
  pub channel_id : Option Str
  pub self_mute : Bool
  pub self_deaf : Bool

-- `parse_json` and `to_string` of the JSON library, at the types the program uses.
pub record Commands : Type 0 where
  pub read_members : Str → Option RequestGuildMembersInfo
  pub read_voice : Str → Option VoiceStateUpdateInfo
  -- `to_string(&OutgoingCommand { op, d })`.
  pub write_members : ℕ → RequestGuildMembersInfo → Option Str
  pub write_voice : ℕ → VoiceStateUpdateInfo → Option Str

pub data ClientCommand : Type 0 where
  forward : ℕ → Str → ClientCommand
  voice : ℕ → Option ℕ → Str → ClientCommand
  drop_command : Str → ClientCommand

abbrev pub payload_limit : ℕ
payload_limit = 4096

-- The channel of a command: `none` for a command that is not about voice.
unfoldable pub with_channel : ℕ → Option (Option Str) → Str → ClientCommand
with_channel guild_id none command = forward guild_id command
with_channel guild_id (some none) command = voice guild_id none command
with_channel guild_id (some (some channel_id)) command = elim (from_str u64_values channel_id) [
  | none ↦ drop_command (codes "invalid channel_id")
  | some id ↦ voice guild_id (some id) command
]

unfoldable pub with_command : ℕ → Option (Option Str) → Option Str → ClientCommand
unfolding with_channel
with_command guild_id channel_id none = drop_command (codes "failed to serialize command")
with_command guild_id channel_id (some command) =
    if leb (length command) payload_limit
    then with_channel guild_id channel_id command
    else drop_command (codes "command exceeds gateway payload limit")

unfoldable pub check_command : List ℕ → Str → Option (Option Str) → Option Str → ClientCommand
unfolding with_command
check_command authorized_guilds guild_id channel_id serialized =
    elim (from_str u64_values guild_id) [
      | none ↦ drop_command (codes "invalid guild_id")
      | some id ↦
          if contains authorized_guilds id
          then with_command id channel_id serialized
          else drop_command (codes "guild not authorized")
    ]

unfoldable pub filter_client_command : Commands → ℕ → Str → List ℕ → ClientCommand
unfolding check_command
filter_client_command commands op payload authorized_guilds =
    if nat_beq op 8
    then (elim (commands.read_members payload) [
      | none ↦ drop_command (codes "invalid request guild members payload")
      | some d ↦ check_command authorized_guilds d.guild_id none (commands.write_members op d)
    ])
    else if nat_beq op 4
    then (elim (commands.read_voice payload) [
      | none ↦ drop_command (codes "invalid voice state update payload")
      | some d ↦
          check_command authorized_guilds d.guild_id (some d.channel_id) (commands.write_voice op d)
    ])
    else drop_command (codes "opcode not allowed for multi-tenant clients")

-- The connection whose events are forwarded: `authorized_guilds` is the snapshot of IDENTIFY, `none`
-- for a connection that sees everything.
pub record Subscriber : Type 0 where
  pub client_id : Option Str
  pub authorized_guilds : Option (List ℕ)

-- `is_live_guild`.
unfoldable pub is_live_guild : Registry → List ℕ → Option Str → ℕ → Bool
is_live_guild registry snapshot none guild_id = contains snapshot guild_id
is_live_guild registry snapshot (some client_id) guild_id =
    client_has_guild registry client_id guild_id

abbrev pub is_own : Option Str → Str → Bool
is_own none owner = false
is_own (some client_id) owner = str_beq client_id owner

unfoldable pub audience_allows : Audience → Option Str → Bool
audience_allows Audience.guild client_id = true
audience_allows Audience.bot_only client_id = false
audience_allows (Audience.client owner) client_id = is_own client_id owner

-- Whether an event of a guild, or of none, passes.
unfoldable pub guild_passes : Registry → Subscriber → Option ℕ → Bool
unfolding is_live_guild
guild_passes registry subscriber guild_id = elim subscriber.authorized_guilds [
  | none ↦ true
  | some guilds ↦ elim guild_id [
    | none ↦ false
    | some gid ↦ is_live_guild registry guilds subscriber.client_id gid
  ]
]

unfoldable pub audience_passes : Subscriber → Audience → Bool
unfolding audience_allows
audience_passes subscriber audience = elim subscriber.authorized_guilds [
  | none ↦ true
  | some guilds ↦ audience_allows audience subscriber.client_id
]

-- The sequence number is counted up and written into the payload, where it has one.
unfoldable pub renumber : ℕ → Str → Option SequenceInfo → ℕ × Str
unfolding replace_range to_string
renumber seq payload none = (seq, payload)
renumber seq payload (some info) =
    (seq + 1, replace_range info.range.start info.range.stop (to_string (seq + 1)) payload)

-- One buffered event: the count, and what is sent.
unfoldable pub replay_event : Registry → Subscriber → ℕ → BufferedClientEvent → ℕ × List Str
unfolding guild_passes renumber
replay_event registry subscriber seq event =
    let (next, payload) = renumber seq event.payload event.sequence in
    if guild_passes registry subscriber event.guild_id then (next, payload ∷ []) else (seq, [])

-- One event of the shard; the registry is the one of the moment.
unfoldable pub forward_event : Registry → Subscriber → ℕ → BroadcastMessage → ℕ × List Str
unfolding audience_passes guild_passes renumber
forward_event registry subscriber seq event =
    let (next, payload) = renumber seq event.payload event.sequence in
    if audience_passes subscriber event.audience && guild_passes registry subscriber event.guild_id
    then (next, payload ∷ [])
    else (seq, [])

-- The loops of `forward_shard`, each event with the registry that it meets.
unfoldable pub replay : Subscriber → ℕ → List (Registry × BufferedClientEvent) → ℕ × List Str
unfolding replay_event
replay subscriber seq [] = (seq, [])
replay subscriber seq ((registry, event) ∷ events) =
    let (next, sent) = replay_event registry subscriber seq event in
    let (last, more) = replay subscriber next events in (last, sent ++ more)

unfoldable pub forward_events : Subscriber → ℕ → List (Registry × BroadcastMessage) → ℕ × List Str
unfolding forward_event
forward_events subscriber seq [] = (seq, [])
forward_events subscriber seq ((registry, event) ∷ events) =
    let (next, sent) = forward_event registry subscriber seq event in
    let (last, more) = forward_events subscriber next events in (last, sent ++ more)
