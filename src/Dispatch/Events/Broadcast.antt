-- ===== src/Dispatch/Events/Broadcast.antt =====
-- src/dispatch.rs: what was broadcast on a shard, and the operations that leave the shards alone.
use discord_gateway_proxy.Deserializer.{SequenceInfo}
use discord_gateway_proxy.State.Connections.{is_client_connected}
use discord_gateway_proxy.Clients.{Registry}
use discord_gateway_proxy.Map.{Map}
use discord_gateway_proxy.Config.{ClientConfig, u64_values}
use discord_gateway_proxy.Text.Number.{from_str}
use discord_gateway_proxy.State.Offline.{push_offline_event_for_client}
use discord_gateway_proxy.State.Limits.{should_wake_client}
use discord_gateway_proxy.State.Voice.{on_bot_voice_leave, bot_user_id}
use discord_gateway_proxy.Dispatch.{
  track_bot_voice_state, buffer_event_for_client, Inner, on_bot_voice_leave, should_wake_client,
  VoiceStateEvent, push_offline_event_for_client, BufferedClientEvent, from_str, bot_user_id,
  ClientConfig, is_bot_leave, WakeTarget, buffer_event_for_clients,
  buffer_event_for_disconnected_clients, Map, Registry, is_client_connected, SequenceInfo,
  wake_cooldown,
}
use discord_gateway_proxy.State.{BroadcastMessage, Inner, Shard, BufferedClientEvent, VoiceOwner}
use mathlib.Core.Option.{some-injective}
use discord_gateway_proxy.Map
use discord_gateway_proxy.Prelude.{
  false, none, some, [], ◌∷◌, zero, suc, str_eq, nat_eq, ℕ, List, Str, map, Option, get_elem?, ◌≡◌,
  ◌++◌, ap, ◌∙◌, option-branches, refl, if-branches, map_or, not, arith, contains, unwrap_or,
}
use discord_gateway_proxy.Dispatch.Events.{
  BroadcastMessage, update_at, on_shard, store_bot_user_id, track_bot_voice_state, Shard, send,
}

abbrev pub payload_of : BroadcastMessage → Str
payload_of message = message.payload

-- The payloads that were broadcast on the shard at an index.
abbrev pub Relayed : ℕ → Inner → List Str → Type 0
Relayed index inner payloads =
    (shard : Shard) × (get_elem? inner.shards index ≡ some shard)
    × (map payload_of shard.events ≡ payloads)

get_elem?-update_at :
    (index : ℕ) (change : Shard → Shard) (shards : List Shard) (shard : Shard)
    → get_elem? shards index ≡ some shard
    → get_elem? (update_at index change shards) index ≡ some (change shard)
unfolding update_at
get_elem?-update_at index change [] shard h = cc h
get_elem?-update_at zero change (first ∷ shards) shard h =
    ap (λ s. some (change s)) (some-injective first shard h)
get_elem?-update_at (suc index) change (first ∷ shards) shard h =
    get_elem?-update_at index change shards shard h

pub on_shard-Relayed :
    (index : ℕ) (change : Shard → Shard) (inner : Inner) (payloads : List Str)
    → ((shard : Shard) → (change shard).events ≡ shard.events)
    → Relayed index inner payloads
    → Relayed index (on_shard index change inner) payloads
unfolding on_shard
on_shard-Relayed index change inner payloads keep (shard, at, e) = (
  change shard,
  get_elem?-update_at index change inner.shards shard at,
  ap (λ l. map payload_of l) (keep shard) ∙ e,
)

map-append_one :
    (xs : List BroadcastMessage) (message : BroadcastMessage)
    → map payload_of (xs ++ message ∷ []) ≡ map payload_of xs ++ payload_of message ∷ []
map-append_one [] message = refl
map-append_one (x ∷ xs) message = ap (λ l. payload_of x ∷ l) (map-append_one xs message)

pub send-Relayed :
    (index : ℕ) (message : BroadcastMessage) (inner : Inner) (payloads : List Str)
    → Relayed index inner payloads
    → Relayed index (on_shard index (send message) inner) (payloads ++ payload_of message ∷ [])
unfolding on_shard
send-Relayed index message inner payloads (shard, at, e) = (
  send message shard,
  get_elem?-update_at index (send message) inner.shards shard at,
  map-append_one shard.events message ∙ ap (λ l. l ++ payload_of message ∷ []) e,
)

pub same-Relayed :
    (index : ℕ) (inner inner' : Inner) (payloads : List Str)
    → inner'.shards ≡ inner.shards
    → Relayed index inner payloads
    → Relayed index inner' payloads
same-Relayed index inner inner' payloads same (shard, at, e) =
    (shard, ap (λ l. get_elem? l index) same ∙ at, e)

pub store_bot_user_id-shards :
    (user : Option Str) (inner : Inner) → (store_bot_user_id user inner).shards ≡ inner.shards
unfolding store_bot_user_id
store_bot_user_id-shards none inner = refl
store_bot_user_id-shards (some id) inner =
    option-branches (λ (i : Inner). i.shards ≡ inner.shards) (from_str u64_values id) (λ e. refl)
      (λ bot e. refl)

pub track_bot_voice_state-shards :
    (read : Str → Option VoiceStateEvent) (payload : Str) (guild_id : Option ℕ) (inner : Inner)
    → (track_bot_voice_state read payload guild_id inner).shards ≡ inner.shards
unfolding track_bot_voice_state on_bot_voice_leave
track_bot_voice_state-shards read payload none inner = refl
track_bot_voice_state-shards read payload (some guild_id) inner =
    let P = λ (i : Inner). i.shards ≡ inner.shards in
    option-branches P (bot_user_id inner) (λ e. refl)
      (λ bot e.
        option-branches P (read payload) (λ e. refl)
          (λ event e.
            if-branches P (is_bot_leave bot event)
              (λ e.
                if-branches P
                  (map_or false (λ (owner : VoiceOwner). not owner.wants_voice)
                    (Map.get inner.voice_owners guild_id))
                  (λ e. refl) (λ e. refl))
              (λ e. refl)))

should_wake_client-shards :
    (now cooldown : ℕ) (client_id : Str) (inner : Inner)
    → (should_wake_client now cooldown client_id inner).1.shards ≡ inner.shards
unfolding should_wake_client
should_wake_client-shards now cooldown client_id inner = ground arith

buffer_event_for_client-shards :
    (now : ℕ) (event : BufferedClientEvent) (guild_id : ℕ) (client_id : Str) (client : ClientConfig)
    (inner : Inner)
    → (buffer_event_for_client now event guild_id client_id client inner).0.shards ≡ inner.shards
unfolding buffer_event_for_client push_offline_event_for_client
buffer_event_for_client-shards now event guild_id client_id client inner =
    let P = λ (r : Inner × List WakeTarget). r.0.shards ≡ inner.shards in
    if-branches P (not (contains client.guilds guild_id)) (λ e. refl)
      (λ e.
        if-branches P (is_client_connected inner client_id) (λ e. refl)
          (λ e.
            should_wake_client-shards now wake_cooldown client_id
              (push_offline_event_for_client client_id event inner)))

buffer_event_for_clients-shards :
    (now : ℕ) (event : BufferedClientEvent) (guild_id : ℕ) (clients : Map Str ClientConfig)
    (inner : Inner)
    → (buffer_event_for_clients now event guild_id clients inner).0.shards ≡ inner.shards
unfolding buffer_event_for_clients
buffer_event_for_clients-shards now event guild_id [] inner = refl
buffer_event_for_clients-shards now event guild_id ((client_id, client) ∷ clients) inner =
    buffer_event_for_clients-shards now event guild_id clients
      (buffer_event_for_client now event guild_id client_id client inner).0
    ∙ buffer_event_for_client-shards now event guild_id client_id client inner

pub buffered-shards :
    (now : ℕ) (registry : Registry) (payload : Str) (sequence : Option SequenceInfo)
    (guild_id : Option ℕ) (inner : Inner)
    → (buffer_event_for_disconnected_clients now registry payload sequence guild_id inner).0.shards
      ≡ inner.shards
unfolding buffer_event_for_disconnected_clients
buffered-shards now registry payload sequence none inner = refl
buffered-shards now registry payload sequence (some guild_id) inner =
    buffer_event_for_clients-shards now _ guild_id (unwrap_or [] registry.clients) inner
