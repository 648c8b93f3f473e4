-- ===== src/Gateway/Stream.antt =====
-- src/server.rs: `forward_shard` as a whole, from the wait for READY to the events of the shard.
pub mod Numbers
pub mod Consecutive
mod Tests
use discord_gateway_proxy.State.Offline.{drain_offline_events_for_client}
use discord_gateway_proxy.State.{BufferedClientEvent, BroadcastMessage, Inner}
use discord_gateway_proxy.Clients.{Registry}
use discord_gateway_proxy.Gateway.{
  replay, Registry, forward_events, BufferedClientEvent, BroadcastMessage,
}
use discord_gateway_proxy.Gateway.Connection.{ForwardTask}
use discord_gateway_proxy.Cache.{get_ready_payload, Payload}
use discord_gateway_proxy.Cache.Guilds.{Source, get_guild_payloads}
use discord_gateway_proxy.Map
use discord_gateway_proxy.Prelude.{
  str_eq, nat_eq, List, Str, Option, codes, none, ℕ, ◌∷◌, map_or, if◌then◌else◌, [], some, ◌++◌,
  ◌+◌,
}
use discord_gateway_proxy.Json.{str, JsonObject}

-- `Ready::wait_until_ready` (src/state.rs): the values of the watch channel that it sees, up to the
-- first payload. `none`: the sender is dropped before.
unfoldable pub wait_until_ready : List (Option JsonObject) → Option JsonObject
wait_until_ready [] = none
wait_until_ready (none ∷ values) = wait_until_ready values
wait_until_ready (some payload ∷ values) = some payload

abbrev pub resumed : Str
resumed = codes "{\"t\":\"RESUMED\",\"s\":null,\"op\":0,\"d\":{}}"

-- The shard's cache with the JSON library; READY is left out where it cannot be written.
pub record ShardSource : Type 0 where
  pub source : Source
  pub write_ready : Payload JsonObject → Option Str

-- What the task meets from outside: the watch channel, the registry at each buffered event, and the
-- events of the shard with the registry of their moment.
pub record Incoming : Type 0 where
  pub ready : List (Option JsonObject)
  pub registry_at : ℕ → Registry
  pub events : List (Registry × BroadcastMessage)

-- `ready_payload.d.insert("session_id", ..)`.
unfoldable pub with_session_id : Str → Payload JsonObject → Payload JsonObject
with_session_id session_id payload = record payload {
  d = Map.insert payload.d (codes "session_id") (str session_id);
}

module _ (shard : ShardSource) where
  -- READY and the guilds of a new session.
  unfoldable pub send_ready : ForwardTask → JsonObject → ℕ × List Str
  unfolding get_ready_payload get_guild_payloads with_session_id
  send_ready task ready =
      let cache = shard.source.resources.base in
      let authorized_guilds = task.subscriber.authorized_guilds in
      let (sequence, payload) = get_ready_payload cache ready task.seq authorized_guilds in
      let (last, guilds) =
        get_guild_payloads shard.source cache.guilds sequence authorized_guilds in
      (
        last,
        map_or [] (λ text. text ∷ []) (shard.write_ready (with_session_id task.session_id payload))
            ++ guilds,
      )

  -- What comes before the events.
  unfoldable pub send_start : ForwardTask → JsonObject → ℕ × List Str
  unfolding send_ready
  send_start task ready =
      if task.send_guilds then send_ready task ready else (task.seq, resumed ∷ [])

  abbrev pub Replayed : Type 0
  Replayed = List (Registry × BufferedClientEvent)

  abbrev pub with_registry : (ℕ → Registry) → ℕ → List BufferedClientEvent → Replayed
  with_registry registry_at i [] = []
  with_registry registry_at i (event ∷ events) =
      (registry_at i, event) ∷ with_registry registry_at (i + 1) events

  -- Only a client drains a buffer.
  unfoldable pub drained : Option Str → (ℕ → Registry) → Inner → Replayed × Inner
  unfolding drain_offline_events_for_client
  drained none registry_at inner = ([], inner)
  drained (some client_id) registry_at inner =
      let (buffered, rest) = drain_offline_events_for_client client_id inner in
      (with_registry registry_at 0 buffered, rest)

  -- The last sequence number and all that is sent, and the shared state without the buffer.
  unfoldable pub forward_shard : ForwardTask → Incoming → Inner → (ℕ × List Str) × Inner
  unfolding wait_until_ready send_start drained replay forward_events
  forward_shard task incoming inner = elim (wait_until_ready incoming.ready) [
    | none ↦ ((task.seq, []), inner)
    | some ready ↦
        let (started, start) = send_start task ready in
        let (buffered, after) = drained task.subscriber.client_id incoming.registry_at inner in
        let (replayed, old) = replay task.subscriber started buffered in
        let (last, new) = forward_events task.subscriber replayed incoming.events in
        ((last, start ++ (old ++ new)), after)
  ]
