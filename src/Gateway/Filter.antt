-- ===== src/Gateway/Filter.antt =====
-- src/server.rs: what a client can send on the shared session of the bot.
use mathlib.Core.Option.{some-injective}
use discord_gateway_proxy.Config.{u64_values}
use discord_gateway_proxy.Text.Number.{from_str}
use discord_gateway_proxy.Gateway.{
  with_channel, with_command, check_command, Commands, filter_client_command, ClientCommand,
  RequestGuildMembersInfo, VoiceStateUpdateInfo, from_str, forward, u64_values, voice, drop_command,
  payload_limit,
}
use discord_gateway_proxy.Prelude.{
  nat_eq, str_eq, none, some, true, List, ℕ, Str, Option, Option-cases, ◌≡◌, contains, inl, ◌>>=◌,
  length, inr, Bool-cases, is_some, ◌≤◌, refl, leb, leb→le, nat_beq, nat_beq_iff,
}

-- What is checked of a command that is sent on for a guild.
abbrev pub Sendable : List ℕ → Str → Option Str → ℕ → Str → Type 0
Sendable guilds guild_id serialized id command =
    (from_str u64_values guild_id ≡ some id)
    × (contains guilds id ≡ true)
    × (serialized ≡ some command)
    × (length command ≤ payload_limit)

-- What a command must be for what the filter makes of it.
abbrev pub Rightful : List ℕ → Str → Option (Option Str) → Option Str → ClientCommand → Type 0
Rightful guilds guild_id channel_id serialized (forward id command) =
    Sendable guilds guild_id serialized id command × (channel_id ≡ none)
Rightful guilds guild_id channel_id serialized (voice id none command) =
    Sendable guilds guild_id serialized id command × (channel_id ≡ some none)
Rightful guilds guild_id channel_id serialized (voice id (some channel) command) =
    Sendable guilds guild_id serialized id command
    × (text : Str) × (channel_id ≡ some (some text))
    × (from_str u64_values text ≡ some channel)
Rightful guilds guild_id channel_id serialized (drop_command reason) = Unit

with_channel-Rightful :
    (guilds : List ℕ) (guild_id : Str) (channel_id : Option (Option Str)) (serialized : Option Str)
    (id : ℕ) (command : Str)
    → Sendable guilds guild_id serialized id command
    → Rightful guilds guild_id channel_id serialized (with_channel id channel_id command)
unfolding with_channel
with_channel-Rightful guilds guild_id none serialized id command h = (h, refl)
with_channel-Rightful guilds guild_id (some none) serialized id command h = (h, refl)
with_channel-Rightful guilds guild_id (some (some text)) serialized id command h =
    elim (Option-cases (from_str u64_values text)) [
      | inl e ↦ rw (e, with_channel) tt
      | inr (channel, e) ↦ rw (e, with_channel) (h, text, refl, e)
    ]

with_command-Rightful :
    (guilds : List ℕ) (guild_id : Str) (channel_id : Option (Option Str)) (serialized : Option Str)
    (id : ℕ)
    → from_str u64_values guild_id ≡ some id
    → contains guilds id ≡ true
    → Rightful guilds guild_id channel_id serialized (with_command id channel_id serialized)
unfolding with_command
with_command-Rightful guilds guild_id channel_id none id g h = tt
with_command-Rightful guilds guild_id channel_id (some command) id g h =
    elim (Bool-cases (leb (length command) payload_limit)) [
      | inl short ↦
          rw (short, with_command)
            (with_channel-Rightful guilds guild_id channel_id (some command) id command
              (g, h, refl, leb→le (length command) payload_limit short))
      | inr long ↦ rw (long, with_command) tt
    ]

check_command-Rightful :
    (guilds : List ℕ) (guild_id : Str) (channel_id : Option (Option Str)) (serialized : Option Str)
    → Rightful guilds guild_id channel_id serialized
        (check_command guilds guild_id channel_id serialized)
unfolding check_command
check_command-Rightful guilds guild_id channel_id serialized =
    elim (Option-cases (from_str u64_values guild_id)) [
      | inl e ↦ rw (e, check_command) tt
      | inr (id, e) ↦ elim (Bool-cases (contains guilds id)) [
        | inl held ↦
            rw (e, check_command, held)
              (with_command-Rightful guilds guild_id channel_id serialized id e held)
        | inr foreign ↦ rw (e, check_command, foreign) tt
      ]
    ]

-- The commands that the filter may make of a payload.
abbrev pub MayPass : Commands → ℕ → Str → List ℕ → ClientCommand → Type 0
MayPass commands op payload guilds (forward id command) =
    (op ≡ 8)
    × (d : RequestGuildMembersInfo) × (commands.read_members payload ≡ some d)
    × Sendable guilds d.guild_id (commands.write_members op d) id command
MayPass commands op payload guilds (voice id channel command) =
    (op ≡ 4)
    × (d : VoiceStateUpdateInfo) × (commands.read_voice payload ≡ some d)
    × Sendable guilds d.guild_id (commands.write_voice op d) id command
    × ((d.channel_id >>= from_str u64_values) ≡ channel)
    × (is_some d.channel_id ≡ is_some channel)
MayPass commands op payload guilds (drop_command reason) = Unit

members-MayPass :
    (commands : Commands) (op : ℕ) (payload : Str) (guilds : List ℕ) (d : RequestGuildMembersInfo)
    (result : ClientCommand)
    → op ≡ 8
    → commands.read_members payload ≡ some d
    → Rightful guilds d.guild_id none (commands.write_members op d) result
    → MayPass commands op payload guilds result
members-MayPass commands op payload guilds d (forward id command) o e h = (o, d, e, h.0)
members-MayPass commands op payload guilds d (voice id none command) o e h = cc h.1
members-MayPass commands op payload guilds d (voice id (some c) command) o e h =
    let (s, text, e1, e2) = h in cc e1
members-MayPass commands op payload guilds d (drop_command reason) o e h = tt

voice-MayPass :
    (commands : Commands) (op : ℕ) (payload : Str) (guilds : List ℕ) (d : VoiceStateUpdateInfo)
    (result : ClientCommand)
    → op ≡ 4
    → commands.read_voice payload ≡ some d
    → Rightful guilds d.guild_id (some d.channel_id) (commands.write_voice op d) result
    → MayPass commands op payload guilds result
voice-MayPass commands op payload guilds d (forward id command) o e h = cc h.1
voice-MayPass commands op payload guilds d (voice id none command) o e h =
    let channel = some-injective d.channel_id none h.1 in (o, d, e, h.0, rw channel, rw channel)
voice-MayPass commands op payload guilds d (voice id (some c) command) o e h =
    let (s, text, e1, e2) = h in
    let channel = some-injective d.channel_id (some text) e1 in
    (o, d, e, s, rw channel e2, rw channel)
voice-MayPass commands op payload guilds d (drop_command reason) o e h = tt

-- Of a client only requests for guild members and voice updates go upstream, rebuilt from the fields
-- that were read, for a guild of the client's, in at most 4096 bytes; a voice update keeps the channel
-- it names, or names none.
pub filter_client_command-MayPass :
    (commands : Commands) (op : ℕ) (payload : Str) (guilds : List ℕ)
    → MayPass commands op payload guilds (filter_client_command commands op payload guilds)
unfolding filter_client_command
filter_client_command-MayPass commands op payload guilds = elim (Bool-cases (nat_beq op 8)) [
  | inl members ↦ elim (Option-cases (commands.read_members payload)) [
    | inl e ↦ rw (members, e, filter_client_command) tt
    | inr (d, e) ↦
        rw (members, e, filter_client_command)
          (members-MayPass commands op payload guilds d
            (check_command guilds d.guild_id none (commands.write_members op d))
            ((nat_beq_iff op 8).0 members) e
            (check_command-Rightful guilds d.guild_id none (commands.write_members op d)))
  ]
  | inr other ↦ elim (Bool-cases (nat_beq op 4)) [
    | inl voice_update ↦ elim (Option-cases (commands.read_voice payload)) [
      | inl e ↦ rw (other, voice_update, e, filter_client_command) tt
      | inr (d, e) ↦
          rw (other, voice_update, e, filter_client_command)
            (voice-MayPass commands op payload guilds d
              (check_command guilds d.guild_id (some d.channel_id) (commands.write_voice op d))
              ((nat_beq_iff op 4).0 voice_update) e
              (check_command-Rightful guilds d.guild_id (some d.channel_id)
                (commands.write_voice op d)))
    ]
    | inr unknown ↦ rw (other, unknown, filter_client_command) tt
  ]
]
