-- ===== src/Config/Flags.antt =====
-- src/config.rs: `From<Cache>` for the event types and for the resource types. A set of flags is the
-- list of its flags.
use discord_gateway_proxy.Config.{Cache, true, false, []}
use discord_gateway_proxy.Prelude.{
  nat_eq, str_eq, Bool, ◌≡◌, PartialEq, List, true, if◌then◌else◌, ◌∷◌, false, ◌↔◌, [], refl, ◌++◌,
  ◌||◌,
}

-- twilight's `EventTypeFlags`, those that the program names and the stickers'.
pub data EventTypeFlag : Type 0 where
  guild_create guild_delete guild_update ready gateway_invalidate_session : EventTypeFlag
  member_add member_remove member_update : EventTypeFlag
  role_create role_delete role_update : EventTypeFlag
  channel_create channel_delete channel_update : EventTypeFlag
  thread_create thread_delete thread_list_sync thread_update : EventTypeFlag
  presence_update guild_emojis_update guild_stickers_update guild_scheduled_events : EventTypeFlag
  stage_instance_create stage_instance_delete stage_instance_update : EventTypeFlag
  voice_state_update voice_server_update user_update : EventTypeFlag

-- twilight's `ResourceType`.
pub data ResourceType : Type 0 where
  guild user_current channel emoji member_current member presence role : ResourceType
  guild_scheduled_event stage_instance sticker user voice_state : ResourceType

unfoldable pub EventTypeFlag-discrete : Discrete EventTypeFlag
EventTypeFlag-discrete = hlevel

unfoldable pub ResourceType-discrete : Discrete ResourceType
ResourceType-discrete = hlevel

-- `==` by a decision.
abbrev pub decides {ℓ} : {P : Type ℓ} → Dec P → Bool
decides (yes p) = true
decides (no n) = false

pub decides_iff {ℓ} : {P : Type ℓ} (d : Dec P) → (decides d ≡ true) ↔ P
decides_iff (yes p) = ((λ h. p), λ h. refl)
decides_iff (no n) = ((λ h. cc), λ p. absurd (n p))

instance abbrev pub event_eq : PartialEq EventTypeFlag
event_eq = record {
  is_eq = λ a b. decides (EventTypeFlag-discrete a b);
  is_eq_iff = λ a b. decides_iff (EventTypeFlag-discrete a b);
}

instance abbrev pub resource_eq : PartialEq ResourceType
resource_eq = record {
  is_eq = λ a b. decides (ResourceType-discrete a b);
  is_eq_iff = λ a b. decides_iff (ResourceType-discrete a b);
}

-- `if b { flags |= ... }`.
abbrev pub when {ℓ} : {A : Type ℓ} → Bool → List A → List A
when b flags = if b then flags else []

unfoldable pub event_type_flags : Cache → List EventTypeFlag
event_type_flags cache =
    (guild_create ∷ guild_delete ∷ guild_update ∷ ready ∷ gateway_invalidate_session ∷ [])
    ++ (when (cache.members || cache.current_member)
          (member_add ∷ member_remove ∷ member_update ∷ [])
        ++ (when cache.roles (role_create ∷ role_delete ∷ role_update ∷ [])
            ++ (when cache.channels (
                  channel_create ∷ channel_delete ∷ channel_update ∷ thread_create ∷ thread_delete
                  ∷ thread_list_sync ∷ thread_update ∷ [])
                ++ (when cache.presences (presence_update ∷ [])
                    ++ (when cache.emojis (guild_emojis_update ∷ [])
                        ++ (when cache.scheduled_events (guild_scheduled_events ∷ [])
                            ++ (when cache.stage_instances (
                                  stage_instance_create ∷ stage_instance_delete
                                  ∷ stage_instance_update ∷ [])
                                ++ (when cache.voice_states
                                      (voice_state_update ∷ voice_server_update ∷ [])
                                    ++ when cache.users (user_update ∷ [])))))))))

unfoldable pub resource_types : Cache → List ResourceType
resource_types cache =
    (guild ∷ user_current ∷ [])
    ++ (when cache.channels (channel ∷ [])
        ++ (when cache.emojis (emoji ∷ [])
            ++ (when cache.current_member (member_current ∷ [])
                ++ (when cache.members (member ∷ [])
                    ++ (when cache.presences (presence ∷ [])
                        ++ (when cache.roles (role ∷ [])
                            ++ (when cache.scheduled_events (guild_scheduled_event ∷ [])
                                ++ (when cache.stage_instances (stage_instance ∷ [])
                                    ++ (when cache.stickers (sticker ∷ [])
                                        ++ (when cache.users (user ∷ [])
                                            ++ when cache.voice_states (voice_state ∷ [])))))))))))
