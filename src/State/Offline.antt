-- ===== src/State/Offline.antt =====
-- src/state.rs: events kept for clients that are not connected.
pub mod Buffer
use discord_gateway_proxy.Prelude.{
  List, [], ◌∷◌, ◌++◌, Str, str_eq, leb, if◌then◌else◌, length, drop, unwrap_or,
}
use discord_gateway_proxy.Map
use discord_gateway_proxy.State.{BufferedClientEvent, Inner, offline_event_buffer_limit}

-- The bounded queue: `pop_front` on a full one, then `push_back`.
unfoldable pub push_bounded :
    List BufferedClientEvent → BufferedClientEvent → List BufferedClientEvent
push_bounded entry event =
    (if leb offline_event_buffer_limit (length entry) then drop 1 entry else entry) ++ event ∷ []

unfoldable pub push_offline_event_for_client : Str → BufferedClientEvent → Inner → Inner
unfolding push_bounded
push_offline_event_for_client client_id event inner =
    let entry = unwrap_or [] (Map.get inner.offline_event_buffers client_id) in
    record inner {
      offline_event_buffers =
          Map.insert inner.offline_event_buffers client_id (push_bounded entry event);
    }

unfoldable pub drain_offline_events_for_client : Str → Inner → List BufferedClientEvent × Inner
drain_offline_events_for_client client_id inner = (
  unwrap_or [] (Map.get inner.offline_event_buffers client_id),
  record inner { offline_event_buffers = Map.remove inner.offline_event_buffers client_id },
)
