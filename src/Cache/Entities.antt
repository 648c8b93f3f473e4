-- ===== src/Cache/Entities.antt =====
-- src/cache.rs: twilight's types that the payloads are built from and of, and its cache as far as
-- the program asks it.
use discord_gateway_proxy.State.{InMemoryCache}
use discord_gateway_proxy.Json.{Value}
use discord_gateway_proxy.Prelude.{ℕ, Bool, Option, Str, List}

-- Twilight's types, as far as the program builds them; what it only copies is one value.
pub record Channel : Type 0 where
  pub id : ℕ
  pub kind : ℕ
  pub rest : Value

pub record CachedPresence : Type 0 where
  pub activities : Value
  pub client_status : Value
  pub guild_id : ℕ
  pub status : Value
  pub user_id : ℕ

-- `user` is `UserOrId::UserId`.
pub record Presence : Type 0 where
  pub activities : Value
  pub client_status : Value
  pub guild_id : ℕ
  pub status : Value
  pub user : ℕ

pub record CachedEmoji : Type 0 where
  pub animated : Bool
  pub available : Bool
  pub id : ℕ
  pub managed : Bool
  pub name : Str
  pub require_colons : Bool
  pub roles : List ℕ
  pub user_id : Option ℕ

pub record Emoji : Type 0 where
  pub animated : Bool
  pub available : Bool
  pub id : ℕ
  pub managed : Bool
  pub name : Str
  pub require_colons : Bool
  pub roles : List ℕ
  pub user : Option Value

pub record CachedMember : Type 0 where
  pub avatar : Value
  pub communication_disabled_until : Value
  pub deaf : Option Bool
  pub flags : Value
  pub joined_at : Value
  pub mute : Option Bool
  pub nick : Option Str
  pub pending : Bool
  pub premium_since : Value
  pub roles : List ℕ
  pub user_id : ℕ

-- `avatar_decoration_data` and `banner` are always none.
pub record Member : Type 0 where
  pub avatar : Value
  pub communication_disabled_until : Value
  pub deaf : Bool
  pub flags : Value
  pub joined_at : Value
  pub mute : Bool
  pub nick : Option Str
  pub pending : Bool
  pub premium_since : Value
  pub roles : List ℕ
  pub user : Value

pub record CachedSticker : Type 0 where
  pub available : Bool
  pub description : Str
  pub format_type : Value
  pub guild_id : ℕ
  pub id : ℕ
  pub kind : Value
  pub name : Str
  pub pack_id : Option ℕ
  pub sort_value : Option ℕ
  pub tags : Str
  pub user_id : Option ℕ

pub record Sticker : Type 0 where
  pub available : Bool
  pub description : Option Str
  pub format_type : Value
  pub guild_id : Option ℕ
  pub id : ℕ
  pub kind : Value
  pub name : Str
  pub pack_id : Option ℕ
  pub sort_value : Option ℕ
  pub tags : Str
  pub user : Option Value

pub record CachedVoiceState : Type 0 where
  pub channel_id : ℕ
  pub deaf : Bool
  pub guild_id : ℕ
  pub mute : Bool
  pub self_deaf : Bool
  pub self_mute : Bool
  pub self_stream : Bool
  pub self_video : Bool
  pub session_id : Str
  pub suppress : Bool
  pub user_id : ℕ
  pub request_to_speak_timestamp : Value

pub record VoiceState : Type 0 where
  pub channel_id : Option ℕ
  pub deaf : Bool
  pub guild_id : Option ℕ
  pub member : Option Member
  pub mute : Bool
  pub self_deaf : Bool
  pub self_mute : Bool
  pub self_stream : Bool
  pub self_video : Bool
  pub session_id : Str
  pub suppress : Bool
  pub user_id : ℕ
  pub request_to_speak_timestamp : Value

-- What twilight's cache answers at one moment, also about the resources of guilds.
pub record Resources : Type 0 where
  pub base : InMemoryCache
  -- `ChannelType::is_thread`.
  pub is_thread : ℕ → Bool
  pub channel : ℕ → Option Channel
  pub guild_presences : ℕ → Option (List ℕ)
  pub presence : ℕ → ℕ → Option CachedPresence
  pub guild_emojis : ℕ → Option (List ℕ)
  pub emoji : ℕ → Option CachedEmoji
  pub guild_members : ℕ → Option (List ℕ)
  pub cached_member : ℕ → ℕ → Option CachedMember
  pub guild_roles : ℕ → Option (List ℕ)
  pub role : ℕ → Option Value
  pub scheduled_events : ℕ → Option (List ℕ)
  pub scheduled_event : ℕ → Option Value
  pub guild_stage_instances : ℕ → Option (List ℕ)
  pub stage_instance : ℕ → Option Value
  pub guild_stickers : ℕ → Option (List ℕ)
  pub sticker : ℕ → Option CachedSticker
  pub guild_voice_states : ℕ → Option (List ℕ)
  pub cached_voice_state : ℕ → ℕ → Option CachedVoiceState
  pub user : ℕ → Option Value
