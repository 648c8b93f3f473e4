-- ===== src/Dispatch/Events.antt =====
-- src/dispatch.rs: the loop over the messages of a shard, `events`, a turn of which takes one message.
pub mod Broadcast
pub mod Machine
pub mod Relaying
pub mod Loop
mod Tests
use discord_gateway_proxy.Text.Number.{from_str}
use discord_gateway_proxy.Deserializer.{GatewayEvent, from_json}
use discord_gateway_proxy.Clients.{Registry}
use discord_gateway_proxy.Dispatch.{
  VoiceStateEvent, wake_typing_clients, track_bot_voice_state, WakeTarget, from_str, audience_for,
  should_buffer_event, buffer_event_for_disconnected_clients,
}
use discord_gateway_proxy.Config.{Config, u64_values}
use discord_gateway_proxy.State.{InMemoryCache, Shard, BroadcastMessage, Inner}
use discord_gateway_proxy.Map
use discord_gateway_proxy.Prelude.{
  true, false, none, some, [], ◌∷◌, zero, suc, str_eq, nat_eq, Str, Bool, ℕ, Option, List, codes,
  ◌++◌, str_beq, if◌then◌else◌, map, nat_beq, ◌>>=◌, unwrap_or, ◌&&◌,
}
use discord_gateway_proxy.Json.{arr, nil, str, JsonObject}

-- What twilight's `parse` makes of a payload: a change of the cache, the end of the session, anything
-- else, and nothing for what is skipped or cannot be parsed.
pub data Parsed : Type 0 where
  dispatch : (InMemoryCache → InMemoryCache) → Parsed
  invalidate_session : Bool → Parsed
  other_event : Parsed
  skipped : Parsed

-- The JSON library and twilight.
pub record Readers : Type 0 where
  -- `None` where the source unwraps the error.
  pub read_ready : Str → Option JsonObject
  -- The id of `ReadyUser`.
  pub read_ready_user : Str → Option Str
  pub read_voice : Str → Option VoiceStateEvent
  pub parse : Str → Parsed

pub data ShardMessage : Type 0 where
  text : Str → ShardMessage
  close : ShardMessage
  failed : ShardMessage
  ended : ShardMessage

-- How a turn ends; `panics` is a READY that cannot be read.
pub data Flow : Type 0 where
  continues returns panics : Flow

-- The state of the loop, and whom it has woken and shown typing, newest last.
pub record Relay : Type 0 where
  pub is_ready : Bool
  pub inner : Inner
  pub woken : List WakeTarget
  pub typing : List (Str × ℕ)

abbrev pub Turned : Type 0
Turned = Flow × Relay

-- A turn meets the clock, the registry and the shutdown flag.
pub record Moment : Type 0 where
  pub now : ℕ
  pub registry : Registry
  pub shutdown : Bool

unfoldable pub update_at : ℕ → (Shard → Shard) → List Shard → List Shard
update_at index change [] = []
update_at zero change (shard ∷ shards) = change shard ∷ shards
update_at (suc index) change (shard ∷ shards) = shard ∷ update_at index change shards

-- A change of the shard at an index.
unfoldable pub on_shard : ℕ → (Shard → Shard) → Inner → Inner
unfolding update_at
on_shard index change inner = record inner { shards = update_at index change inner.shards }

-- The guilds of READY are cleared if they are a list.
unfoldable pub clear_guilds : JsonObject → JsonObject
clear_guilds ready = elim (Map.get ready (codes "guilds")) [
  | some (arr values) ↦ Map.insert ready (codes "guilds") (arr nil)
  | some other ↦ ready
  | none ↦ ready
]

-- The READY that clients are sent later.
unfoldable pub blank_ready : Config → JsonObject → JsonObject
unfolding clear_guilds
blank_ready config ready =
    Map.insert (clear_guilds ready) (codes "resume_gateway_url")
      (str config.externally_accessible_url)

unfoldable pub store_bot_user_id : Option Str → Inner → Inner
store_bot_user_id none inner = inner
store_bot_user_id (some id) inner = elim (from_str u64_values id) [
  | none ↦ inner
  | some bot_user_id ↦ record inner { bot_user_id = bot_user_id }
]

abbrev pub set_ready : JsonObject → Shard → Shard
set_ready payload shard = record shard { ready = some payload }

abbrev pub set_not_ready : Shard → Shard
set_not_ready shard = record shard { ready = none }

abbrev pub send : BroadcastMessage → Shard → Shard
send message shard = record shard { events = shard.events ++ message ∷ [] }

-- `matches!(event_name, "MESSAGE_CREATE")` (src/wake.rs).
unfoldable pub should_show_wake_typing : Str → Bool
should_show_wake_typing event_name = str_beq event_name (codes "MESSAGE_CREATE")

module _ (readers : Readers) (config : Config) (index : ℕ) (moment : Moment) where
  -- READY: what clients will be sent, and who the bot is.
  unfoldable pub on_ready : Str → Relay → Turned
  unfolding blank_ready store_bot_user_id on_shard
  on_ready payload relay = elim (readers.read_ready payload) [
    | none ↦ (panics, relay)
    | some ready ↦ (
      continues,
      record relay {
        is_ready = true;
        inner =
            on_shard index (set_ready (blank_ready config ready))
              (store_bot_user_id (readers.read_ready_user payload) relay.inner);
      },
    )
  ]

  -- The two ids are there: the clients that are shown typing in the channel.
  unfoldable pub show_typing : Option ℕ → Option ℕ → Inner → List (Str × ℕ)
  unfolding wake_typing_clients
  show_typing (some channel_id) (some guild_id) inner =
      map (λ client_id. (client_id, channel_id))
        (wake_typing_clients guild_id inner (unwrap_or [] moment.registry.clients))
  show_typing _ _ inner = []

  -- An event that is relayed: the bot's own voice state, the broadcast, the buffers, the typing.
  unfoldable pub relay_event : Str → Str → GatewayEvent → Relay → Relay
  unfolding track_bot_voice_state audience_for on_shard should_buffer_event
      buffer_event_for_disconnected_clients should_show_wake_typing show_typing
  relay_event payload event_name event relay =
      let tracked =
        if str_beq event_name (codes "VOICE_STATE_UPDATE")
        then track_bot_voice_state readers.read_voice payload event.guild_id relay.inner
        else relay.inner in
      let broadcast =
        on_shard index
          (send (record {
            payload = payload;
            sequence = event.sequence;
            guild_id = event.guild_id;
            audience = audience_for moment.registry tracked event_name event.guild_id;
          }))
          tracked in
      let (buffered, targets) =
        if should_buffer_event event_name
        then buffer_event_for_disconnected_clients moment.now moment.registry payload event.sequence
            event.guild_id broadcast
        else (broadcast, []) in
      record relay {
        inner = buffered;
        woken = relay.woken ++ targets;
        typing =
            relay.typing
            ++ (if should_show_wake_typing event_name
                then show_typing event.channel_id event.guild_id buffered
                else []);
      }

  -- By the name of the event; `none` has no name, as an acknowledged heartbeat.
  unfoldable pub on_event : Str → Option Str → GatewayEvent → Relay → Turned
  unfolding on_ready relay_event
  on_event payload none event relay = (continues, relay)
  on_event payload (some event_name) event relay =
      if str_beq event_name (codes "READY")
      then on_ready payload relay
      else if str_beq event_name (codes "RESUMED")
      then (continues, record relay { is_ready = true })
      else if nat_beq event.op.op 0 && relay.is_ready
      then (continues, relay_event payload event_name event relay)
      else (continues, relay)

  -- The end of the turn: the cache, or the end of the session.
  unfoldable pub on_parsed : Parsed → Relay → Relay
  unfolding on_shard
  on_parsed (Parsed.dispatch update) relay = record relay {
    inner = on_shard index (λ shard. record shard { guilds = update shard.guilds }) relay.inner;
  }
  on_parsed (Parsed.invalidate_session can_resume) relay = record relay {
    is_ready = false;
    inner = if can_resume then relay.inner else on_shard index set_not_ready relay.inner;
  }
  on_parsed Parsed.other_event relay = relay
  on_parsed Parsed.skipped relay = relay

  abbrev pub then_parsed : Str → Turned → Turned
  then_parsed payload (continues, relay) = (continues, on_parsed (readers.parse payload) relay)
  then_parsed payload (returns, relay) = (returns, relay)
  then_parsed payload (panics, relay) = (panics, relay)

  abbrev pub event_name_of : GatewayEvent → Option Str
  event_name_of event = event.event_type >>= λ event_type. some event_type.name

  unfoldable pub turn : ShardMessage → Relay → Turned
  unfolding on_event on_parsed from_json
  turn (text payload) relay = elim (from_json payload) [
    | none ↦ (continues, relay)
    | some event ↦ then_parsed payload (on_event payload (event_name_of event) event relay)
  ]
  turn close relay = if moment.shutdown then (returns, relay) else (continues, relay)
  turn failed relay = (continues, relay)
  turn ended relay = (returns, relay)

-- A message that arrives: when, and what other tasks did to the shared state before it.
pub record Arrival : Type 0 where
  pub moment : Moment
  pub message : ShardMessage
  pub meanwhile : Inner → Inner

-- The loop, over all that arrives.
unfoldable pub events : Readers → Config → ℕ → Relay → List Arrival → Relay
unfolding turn
events readers config index relay [] = relay
events readers config index relay (arrival ∷ arrivals) =
    let (flow, after) =
      turn readers config index arrival.moment arrival.message
        (record relay { inner = arrival.meanwhile relay.inner }) in
    let rest = events readers config index after arrivals in
    elim flow [ continues ↦ rest | returns ↦ after | panics ↦ after ]
