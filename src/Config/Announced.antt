-- ===== src/Config/Announced.antt =====
-- src/config.rs: that the event types of the cache announce what its resource types store.
use discord_gateway_proxy.Config.Flags.{
  EventTypeFlag, ResourceType, event_eq, resource_eq, when, guild_create, guild_delete,
  guild_update, ready, gateway_invalidate_session, member_add, member_remove, member_update,
  role_create, role_delete, role_update, channel_create, channel_delete, channel_update,
  thread_create, thread_delete, thread_list_sync, thread_update, presence_update,
  guild_emojis_update, guild_stickers_update, guild_scheduled_events, stage_instance_create,
  stage_instance_delete, stage_instance_update, voice_state_update, voice_server_update,
  user_update, guild, user_current, channel, emoji, member_current, member, presence, role,
  guild_scheduled_event, stage_instance, sticker, user, voice_state,
}
use discord_gateway_proxy.Config.{Cache, true, false, []}
use discord_gateway_proxy.Prelude.{
  nat_eq, str_eq, Bool, ◌≡◌, PartialEq, List, contains, true, ◌∷◌, false, [], refl, ◌||◌, ◌&&◌,
  contains-append,
}

-- The gateway events by which Discord documents that it announces changes of a resource.
abbrev pub announced_by : ResourceType → List EventTypeFlag
announced_by guild = guild_create ∷ guild_update ∷ guild_delete ∷ []
announced_by user_current = ready ∷ user_update ∷ []
announced_by channel =
    channel_create ∷ channel_update ∷ channel_delete ∷ thread_create ∷ thread_update ∷ thread_delete
    ∷ thread_list_sync ∷ []
announced_by emoji = guild_emojis_update ∷ []
announced_by member_current = member_update ∷ []
announced_by member = member_add ∷ member_update ∷ member_remove ∷ []
announced_by presence = presence_update ∷ []
announced_by role = role_create ∷ role_update ∷ role_delete ∷ []
announced_by guild_scheduled_event = guild_scheduled_events ∷ []
announced_by stage_instance =
    stage_instance_create ∷ stage_instance_update ∷ stage_instance_delete ∷ []
announced_by sticker = guild_stickers_update ∷ []
announced_by user = user_update ∷ []
announced_by voice_state = voice_state_update ∷ []

abbrev pub is_sticker : ResourceType → Bool
is_sticker sticker = true
is_sticker _ = false

abbrev pub is_user_current : ResourceType → Bool
is_user_current user_current = true
is_user_current _ = false

contains-when {ℓ} :
    {A : Type ℓ} ⦃e : PartialEq A⦄ (b : Bool) (xs : List A) (a : A)
    → contains (when b xs) a ≡ (b && contains xs a)
unfolding contains
contains-when true xs a = refl
contains-when false xs a = refl

and_false : (b : Bool) → (b && false) ≡ false
and_false true = refl
and_false false = refl

and_true : (b : Bool) → (b && true) ≡ b
and_true true = refl
and_true false = refl

or_false : (b : Bool) → (b || false) ≡ b
or_false true = refl
or_false false = refl

ruleset set_rules = (contains-append, contains-when, and_false, and_true, or_false)

-- Which settings of the cache ask for an event.
abbrev pub asks_for : Cache → EventTypeFlag → Bool
asks_for cache guild_create = true
asks_for cache guild_delete = true
asks_for cache guild_update = true
asks_for cache ready = true
asks_for cache gateway_invalidate_session = true
asks_for cache member_add = cache.members || cache.current_member
asks_for cache member_remove = cache.members || cache.current_member
asks_for cache member_update = cache.members || cache.current_member
asks_for cache role_create = cache.roles
asks_for cache role_delete = cache.roles
asks_for cache role_update = cache.roles
asks_for cache channel_create = cache.channels
asks_for cache channel_delete = cache.channels
asks_for cache channel_update = cache.channels
asks_for cache thread_create = cache.channels
asks_for cache thread_delete = cache.channels
asks_for cache thread_list_sync = cache.channels
asks_for cache thread_update = cache.channels
asks_for cache presence_update = cache.presences
asks_for cache guild_emojis_update = cache.emojis
asks_for cache guild_stickers_update = false
asks_for cache guild_scheduled_events = cache.scheduled_events
asks_for cache stage_instance_create = cache.stage_instances
asks_for cache stage_instance_delete = cache.stage_instances
asks_for cache stage_instance_update = cache.stage_instances
asks_for cache voice_state_update = cache.voice_states
asks_for cache voice_server_update = cache.voice_states
asks_for cache user_update = cache.users

-- Which setting of the cache stores a resource.
abbrev pub stores : Cache → ResourceType → Bool
stores cache guild = true
stores cache user_current = true
stores cache channel = cache.channels
stores cache emoji = cache.emojis
stores cache member_current = cache.current_member
stores cache member = cache.members
stores cache presence = cache.presences
stores cache role = cache.roles
stores cache guild_scheduled_event = cache.scheduled_events
stores cache stage_instance = cache.stage_instances
stores cache sticker = cache.stickers
stores cache user = cache.users
stores cache voice_state = cache.voice_states
