-- ===== src/Cache/Resources.antt =====
-- src/cache.rs: the resources of a guild, as GUILD_CREATE lists them: `channels_in_guild` and the
-- functions like it.
use discord_gateway_proxy.Cache.Entities.{
  Channel, Presence, Emoji, Member, Sticker, VoiceState, Resources,
}
use discord_gateway_proxy.Json.{Value}
use discord_gateway_proxy.Prelude.{
  ℕ, Option, filter_map, List, ◌>>=◌, [], if◌then◌else◌, false, some, none, unwrap_or,
}

-- `.map(|reference| reference.iter().filter_map(f).collect()).unwrap_or_default()`.
unfoldable pub collected {ℓ} : {A : Type ℓ} → (ℕ → Option A) → Option (List ℕ) → List A
unfolding filter_map
collected f none = []
collected f (some ids) = filter_map f ids

module _ (cache : Resources) where
  unfoldable pub channels_in_guild : ℕ → List Channel
  unfolding collected
  channels_in_guild guild_id =
      collected
        (λ channel_id. cache.channel channel_id >>= λ channel.
          if cache.is_thread channel.kind then none else some channel)
        (cache.base.guild_channels guild_id)

  unfoldable pub threads_in_guild : ℕ → List Channel
  unfolding collected
  threads_in_guild guild_id =
      collected
        (λ channel_id. cache.channel channel_id >>= λ channel.
          if cache.is_thread channel.kind then some channel else none)
        (cache.base.guild_channels guild_id)

  unfoldable pub presences_in_guild : ℕ → List Presence
  unfolding collected
  presences_in_guild guild_id =
      collected
        (λ user_id. cache.presence guild_id user_id >>= λ presence. some (record {
          activities = presence.activities;
          client_status = presence.client_status;
          guild_id = presence.guild_id;
          status = presence.status;
          user = presence.user_id;
        }))
        (cache.guild_presences guild_id)

  unfoldable pub emojis_in_guild : ℕ → List Emoji
  unfolding collected
  emojis_in_guild guild_id =
      collected
        (λ emoji_id. cache.emoji emoji_id >>= λ emoji. some (record {
          animated = emoji.animated;
          available = emoji.available;
          id = emoji.id;
          managed = emoji.managed;
          name = emoji.name;
          require_colons = emoji.require_colons;
          roles = emoji.roles;
          user = emoji.user_id >>= cache.user;
        }))
        (cache.guild_emojis guild_id)

  -- `none` where the user of the member is not in the cache.
  unfoldable pub member : ℕ → ℕ → Option Member
  member guild_id user_id = cache.cached_member guild_id user_id >>= λ member.
      cache.user member.user_id >>= λ user. some (record {
        avatar = member.avatar;
        communication_disabled_until = member.communication_disabled_until;
        deaf = unwrap_or false member.deaf;
        flags = member.flags;
        joined_at = member.joined_at;
        mute = unwrap_or false member.mute;
        nick = member.nick;
        pending = member.pending;
        premium_since = member.premium_since;
        roles = member.roles;
        user = user;
      })

  unfoldable pub members_in_guild : ℕ → List Member
  unfolding collected member
  members_in_guild guild_id = collected (member guild_id) (cache.guild_members guild_id)

  unfoldable pub roles_in_guild : ℕ → List Value
  unfolding collected
  roles_in_guild guild_id = collected cache.role (cache.guild_roles guild_id)

  unfoldable pub scheduled_events_in_guild : ℕ → List Value
  unfolding collected
  scheduled_events_in_guild guild_id =
      collected cache.scheduled_event (cache.scheduled_events guild_id)

  unfoldable pub stage_instances_in_guild : ℕ → List Value
  unfolding collected
  stage_instances_in_guild guild_id =
      collected cache.stage_instance (cache.guild_stage_instances guild_id)

  unfoldable pub stickers_in_guild : ℕ → List Sticker
  unfolding collected
  stickers_in_guild guild_id =
      collected
        (λ sticker_id. cache.sticker sticker_id >>= λ sticker. some (record {
          available = sticker.available;
          description = some sticker.description;
          format_type = sticker.format_type;
          guild_id = some sticker.guild_id;
          id = sticker.id;
          kind = sticker.kind;
          name = sticker.name;
          pack_id = sticker.pack_id;
          sort_value = sticker.sort_value;
          tags = sticker.tags;
          user = sticker.user_id >>= cache.user;
        }))
        (cache.guild_stickers guild_id)

  unfoldable pub voice_states_in_guild : ℕ → List VoiceState
  unfolding collected member
  voice_states_in_guild guild_id =
      collected
        (λ user_id. cache.cached_voice_state user_id guild_id >>= λ voice_state. some (record {
          channel_id = some voice_state.channel_id;
          deaf = voice_state.deaf;
          guild_id = some voice_state.guild_id;
          member = member guild_id user_id;
          mute = voice_state.mute;
          self_deaf = voice_state.self_deaf;
          self_mute = voice_state.self_mute;
          self_stream = voice_state.self_stream;
          self_video = voice_state.self_video;
          session_id = voice_state.session_id;
          suppress = voice_state.suppress;
          user_id = voice_state.user_id;
          request_to_speak_timestamp = voice_state.request_to_speak_timestamp;
        }))
        (cache.guild_voice_states guild_id)
