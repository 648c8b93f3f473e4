-- ===== src/Cache/Guilds.antt =====
-- src/cache.rs: GUILD_CREATE and GUILD_DELETE, `get_guild_payloads`.
use discord_gateway_proxy.Json.{Value}
use discord_gateway_proxy.Cache.{is_authorized, Value, Payload, GuildDelete, is_unavailable}
use discord_gateway_proxy.State.{CachedGuild}
use discord_gateway_proxy.Cache.Resources.{
  channels_in_guild, emojis_in_guild, scheduled_events_in_guild, members_in_guild,
  presences_in_guild, roles_in_guild, stage_instances_in_guild, stickers_in_guild, threads_in_guild,
  voice_states_in_guild,
}
use discord_gateway_proxy.Cache.Entities.{
  Resources, Channel, Emoji, Member, Presence, Sticker, VoiceState,
}
use discord_gateway_proxy.Prelude.{
  ℕ, Str, List, if◌then◌else◌, Option, ◌∷◌, some, ◌+◌, true, codes, Bool, false, [],
}

-- `Guild`: the lists that are built from the cache. The fields that are copied from the cached guild
-- unchanged are one value; `unavailable` is always `Some(false)`.
pub record Guild : Type 0 where
  pub id : ℕ
  pub copied : Value
  pub channels : List Channel
  pub emojis : List Emoji
  pub guild_scheduled_events : List Value
  pub members : List Member
  pub presences : List Presence
  pub roles : List Value
  pub stage_instances : List Value
  pub stickers : List Sticker
  pub threads : List Channel
  pub unavailable : Option Bool
  pub voice_states : List VoiceState

-- The cache of twilight and the JSON library, which writes these types without fail.
pub record Source : Type 0 where
  pub resources : Resources
  pub copied : ℕ → Value
  pub write_create : Payload Guild → Str
  pub write_delete : Payload GuildDelete → Str

module _ (source : Source) where
  unfoldable pub new_guild : CachedGuild → Guild
  unfolding channels_in_guild emojis_in_guild scheduled_events_in_guild members_in_guild
      presences_in_guild roles_in_guild stage_instances_in_guild stickers_in_guild threads_in_guild
      voice_states_in_guild
  new_guild guild = record {
    id = guild.id;
    copied = source.copied guild.id;
    channels = channels_in_guild source.resources guild.id;
    emojis = emojis_in_guild source.resources guild.id;
    guild_scheduled_events = scheduled_events_in_guild source.resources guild.id;
    members = members_in_guild source.resources guild.id;
    presences = presences_in_guild source.resources guild.id;
    roles = roles_in_guild source.resources guild.id;
    stage_instances = stage_instances_in_guild source.resources guild.id;
    stickers = stickers_in_guild source.resources guild.id;
    threads = threads_in_guild source.resources guild.id;
    unavailable = some false;
    voice_states = voice_states_in_guild source.resources guild.id;
  }

  -- The payload of one guild at a number.
  unfoldable pub guild_payload : CachedGuild → ℕ → Str
  unfolding new_guild
  guild_payload guild sequence =
      if is_unavailable guild
      then source.write_delete (record {
        d = record { id = guild.id; unavailable = some true };
        op = 0;
        t = codes "GUILD_DELETE";
        s = sequence;
      })
      else source.write_create
          (record { d = new_guild guild; op = 0; t = codes "GUILD_CREATE"; s = sequence })

  -- The iterator, taken to its end: the count, and the payloads.
  unfoldable pub get_guild_payloads : List CachedGuild → ℕ → Option (List ℕ) → ℕ × List Str
  unfolding guild_payload is_authorized
  get_guild_payloads [] sequence authorized_guilds = (sequence, [])
  get_guild_payloads (guild ∷ guilds) sequence authorized_guilds =
      let passed = is_authorized authorized_guilds guild.id in
      let (last, rest) =
        get_guild_payloads guilds (if passed then sequence + 1 else sequence) authorized_guilds in
      if passed then (last, guild_payload guild (sequence + 1) ∷ rest) else (last, rest)
