-- ===== src/Dispatch.antt =====
-- src/dispatch.rs: what a shard does with an event of Discord's.
pub mod Audiences
pub mod Buffering
pub mod Events
mod Tests
use discord_gateway_proxy.Text.Number.{from_str}
use discord_gateway_proxy.State.Connections.{is_client_connected}
use discord_gateway_proxy.State.Limits.{should_wake_client}
use discord_gateway_proxy.State.Offline.{push_offline_event_for_client}
use discord_gateway_proxy.Deserializer.{SequenceInfo}
use discord_gateway_proxy.Map.{Map}
use discord_gateway_proxy.State.Voice.{bot_user_id, on_bot_voice_leave, voice_owner}
use discord_gateway_proxy.Config.{ClientConfig, u64_values}
use discord_gateway_proxy.State.{Inner, BufferedClientEvent, Audience, second}
use discord_gateway_proxy.Clients.{Registry, client_has_guild}
use discord_gateway_proxy.Map
use discord_gateway_proxy.Prelude.{
  nat_eq, str_eq, arith, none, some, [], ◌∷◌, true, false, Str, ℕ, contains, Option, Bool, ◌*◌, not,
  codes, List, if◌then◌else◌, is_some, ◌++◌, unwrap_or, str_beq, ◌&&◌, map_or, nat_beq,
}

unfoldable pub audience_of_owner : Registry → ℕ → Option Str → Audience
audience_of_owner registry guild_id none = Audience.bot_only
audience_of_owner registry guild_id (some client_id) =
    if client_has_guild registry client_id guild_id
    then Audience.client client_id
    else Audience.bot_only

unfoldable pub audience_for : Registry → Inner → Str → Option ℕ → Audience
unfolding audience_of_owner
audience_for registry inner event_name guild_id =
    if not (str_beq event_name (codes "VOICE_SERVER_UPDATE"))
    then Audience.guild
    else elim guild_id [
      | none ↦ Audience.bot_only
      | some id ↦ audience_of_owner registry id (voice_owner inner id)
    ]

-- src/model.rs: `VoiceStateEvent`.
pub record VoiceStateEvent : Type 0 where
  pub user_id : Str
  pub channel_id : Option Str

-- The bot left voice.
unfoldable pub is_bot_leave : ℕ → VoiceStateEvent → Bool
is_bot_leave bot_user_id event =
    not (is_some event.channel_id)
    && map_or false (λ id. nat_beq id bot_user_id) (from_str u64_values event.user_id)

unfoldable pub track_bot_voice_state :
    (Str → Option VoiceStateEvent) → Str → Option ℕ → Inner → Inner
unfolding is_bot_leave
track_bot_voice_state read_voice payload none inner = inner
track_bot_voice_state read_voice payload (some guild_id) inner = elim (bot_user_id inner) [
  | none ↦ inner
  | some bot ↦ elim (read_voice payload) [
    | none ↦ inner
    | some event ↦ if is_bot_leave bot event then on_bot_voice_leave guild_id inner else inner
  ]
]

unfoldable pub should_buffer_event : Str → Bool
unfolding contains
should_buffer_event event_name =
    contains
      (codes "MESSAGE_CREATE"
        ∷ codes "MESSAGE_UPDATE"
        ∷ codes "MESSAGE_DELETE"
        ∷ codes "THREAD_CREATE"
        ∷ codes "THREAD_UPDATE"
        ∷ codes "THREAD_DELETE"
        ∷ [])
      event_name

abbrev pub wake_cooldown : ℕ
wake_cooldown = 10 * second

-- Whom to wake: the client, the address and the token.
abbrev pub WakeTarget : Type 0
WakeTarget = Str × Str × Str

unfoldable pub wake_target : Str → ClientConfig → Bool → List WakeTarget
wake_target client_id client should_wake =
    if not should_wake then [] else elim client.reachable_url [
      | none ↦ []
      | some url ↦ (client_id, url, client_id ++ b':' ∷ client.secret) ∷ []
    ]

-- One client of the registry.
unfoldable pub buffer_event_for_client :
    ℕ → BufferedClientEvent → ℕ → Str → ClientConfig → Inner → Inner × List WakeTarget
unfolding wake_target
buffer_event_for_client now event guild_id client_id client inner =
    let pushed = push_offline_event_for_client client_id event inner in
    let (should_wake, marked) = should_wake_client now wake_cooldown client_id pushed in
    if not (contains client.guilds guild_id)
    then (inner, [])
    else if is_client_connected inner client_id
    then (inner, [])
    else (marked, wake_target client_id client should_wake)

unfoldable pub buffer_event_for_clients :
    ℕ → BufferedClientEvent → ℕ → Map Str ClientConfig → Inner → Inner × List WakeTarget
unfolding buffer_event_for_client
buffer_event_for_clients now event guild_id [] inner = (inner, [])
buffer_event_for_clients now event guild_id ((client_id, client) ∷ clients) inner =
    let (after, targets) = buffer_event_for_client now event guild_id client_id client inner in
    let (last, more) = buffer_event_for_clients now event guild_id clients after in
    (last, targets ++ more)

unfoldable pub buffer_event_for_disconnected_clients :
    ℕ → Registry → Str → Option SequenceInfo → Option ℕ → Inner → Inner × List WakeTarget
unfolding buffer_event_for_clients
buffer_event_for_disconnected_clients now registry payload sequence none inner = (inner, [])
buffer_event_for_disconnected_clients now registry payload sequence (some guild_id) inner =
    buffer_event_for_clients now
      (record { payload = payload; sequence = sequence; guild_id = some guild_id }) guild_id
      (unwrap_or [] registry.clients) inner

-- The clients for which the bot shows that it types.
unfoldable pub wake_typing_clients : ℕ → Inner → Map Str ClientConfig → List Str
wake_typing_clients guild_id inner [] = []
wake_typing_clients guild_id inner ((client_id, client) ∷ clients) =
    let rest = wake_typing_clients guild_id inner clients in
    if not (contains client.guilds guild_id)
    then rest
    else if is_client_connected inner client_id
    then rest
    else if not (is_some client.reachable_url)
    then rest
    else client_id ∷ rest
