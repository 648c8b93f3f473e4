-- ===== src/Gateway/Connection.antt =====
-- src/server.rs: the loop of one connection, `handle_client`, a turn of which takes one wakeup of its
-- `select!` and the moment at which it comes. Other tasks may change the shared state between turns.
pub mod Turns
pub mod Frames
pub mod Cases
pub mod Counts
pub mod System
pub mod Unserved
mod Tests
pub mod Delivery
pub mod Upstream
pub mod Phases
pub mod Moves
pub mod Protocol
use discord_gateway_proxy.Rest.Channels.{resolve_guild_id_for_channel}
use discord_gateway_proxy.State.Connections.{mark_client_connected}
use discord_gateway_proxy.Clients.{Registry}
use discord_gateway_proxy.Gateway.{Commands, Subscriber}
use discord_gateway_proxy.State.Voice.{
  shard_for_guild, send_on, send_voice_leave, leave_voice_for_client,
}
use discord_gateway_proxy.State.{Inner, SessionPrincipal, Shard, second}
use discord_gateway_proxy.Prelude.{
  Option, Str, Bool, ℕ, List, codes, ◌*◌, true, ◌++◌, ◌∷◌, some, false, none, [], map_or, ◌+◌, suc,
  nat_beq, zero,
}

-- src/model.rs: `IdentifyInfo`; the array `shard` is two numbers.
pub record IdentifyInfo : Type 0 where
  pub compress : Option Bool
  pub shard_id : ℕ
  pub shard_count : ℕ
  pub token : Str

-- src/model.rs: `ResumeInfo`.
pub record ResumeInfo : Type 0 where
  pub session_id : Str
  pub seq : ℕ
  pub token : Str

-- What the JSON library reads of a client's messages.
pub record Messages : Type 0 where
  pub read_identify : Str → Option IdentifyInfo
  pub read_resume : Str → Option ResumeInfo
  pub commands : Commands

-- What a connection writes to its queue.
pub data Message : Type 0 where
  text : Str → Message
  close : ℕ → Str → Message

-- The arguments of `forward_shard`, of which a connection starts at most one.
pub record ForwardTask : Type 0 where
  pub session_id : Str
  -- The index of the shard.
  pub shard : ℕ
  pub send_guilds : Bool
  pub seq : ℕ
  pub subscriber : Subscriber

-- The variables of `handle_client`. `compress_tx` says whether the oneshot sender is still there, and
-- `compress` what was sent on it; `shard_sender` is the index of the shard whose sender is kept.
pub record Connection : Type 0 where
  pub compress_tx : Bool
  pub compress : Option (Option Bool)
  pub shard_sender : Option ℕ
  pub shard_forward_task : Option ForwardTask
  pub active_client_id : Option Str
  pub command_scope : Option Str
  pub graceful_close : Bool
  pub sink_done : Bool
  pub heartbeat_deadline : ℕ
  pub stream_writer : List Message

-- How a turn ends. `panics` is an index out of range, on which the release build aborts;
-- `waits` is a turn that still draws session identifiers, all draws so far being taken.
pub data Flow : Type 0 where
  continues breaks panics waits : Flow

pub record Turned : Type 0 where
  pub flow : Flow
  pub connection : Connection
  pub inner : Inner

-- What a turn meets: the clock, the registry and the random draws.
pub record Moment : Type 0 where
  pub now : ℕ
  pub registry : Registry
  pub draws : List Str

-- The outcomes of `select!`, and of the message that a client sent.
pub data Wakeup : Type 0 where
  text_message : Str → Wakeup
  binary_message stream_ended sink_ended heartbeat_elapsed : Wakeup

abbrev pub heartbeat_ack : Str
heartbeat_ack = codes "{\"t\":null,\"s\":null,\"op\":11,\"d\":null}"

abbrev pub invalid_session : Str
invalid_session = codes "{\"t\":null,\"s\":null,\"op\":9,\"d\":false}"

abbrev pub client_heartbeat_timeout : ℕ
client_heartbeat_timeout = 2 * 41250

abbrev pub client_command_limit : ℕ
client_command_limit = 20

abbrev pub client_command_window : ℕ
client_command_window = 60 * second

unfoldable pub new_connection : ℕ → Connection
new_connection now = record {
  compress_tx = true;
  compress = none;
  shard_sender = none;
  shard_forward_task = none;
  active_client_id = none;
  command_scope = none;
  graceful_close = false;
  sink_done = false;
  heartbeat_deadline = now + client_heartbeat_timeout;
  stream_writer = [];
}

abbrev pub turned : Flow → Connection → Inner → Turned
turned flow connection inner = record { flow = flow; connection = connection; inner = inner }

-- Messages, then the end of the loop with time to flush them.
unfoldable pub close_with : List Message → Connection → Inner → Turned
close_with messages connection inner =
    turned breaks
      (record connection {
        stream_writer = connection.stream_writer ++ messages;
        graceful_close = true;
      })
      inner

-- INVALID_SESSION and the close frame 4007.
unfoldable pub reject : Str → Connection → Inner → Turned
unfolding close_with
reject reason connection inner =
    close_with (text invalid_session ∷ close 4007 reason ∷ []) connection inner

unfoldable pub client_of : SessionPrincipal → Option Str
client_of (SessionPrincipal.client client_id) = some client_id
client_of _ = none

-- `if active_client_id.is_none()`: the first authentication as a client counts.
unfoldable pub now_active : Option Str → Option Str → Option Str
now_active none client = client
now_active (some active) client = some active

unfoldable pub activate : Option Str → Option Str → Inner → Inner
activate none (some client_id) inner = mark_client_connected client_id inner
activate _ _ inner = inner

-- The loop over the guilds whose voice a client leaves.
unfoldable pub send_voice_leaves : List ℕ → Inner → Inner
send_voice_leaves [] inner = inner
send_voice_leaves (guild_id ∷ guilds) inner =
    send_voice_leaves guilds (send_voice_leave guild_id inner)

unfoldable pub leave_calls : Option Str → ℕ → Inner → Inner
unfolding send_voice_leaves
leave_calls none shard_id inner = inner
leave_calls (some client_id) shard_id inner =
    let (left, guilds) = leave_voice_for_client client_id shard_id inner in
    send_voice_leaves guilds left

-- `if let Some(sender) = compress_tx.take()`, where the sender is there.
unfoldable pub start_forwarding : ForwardTask → Option Bool → Connection → Connection
start_forwarding task compress connection = record connection {
  compress_tx = false;
  compress = some compress;
  shard_forward_task = some task;
}

-- The sender of the shard at an index.
unfoldable pub send_at : ℕ → Str → List Shard → List Shard
send_at index command [] = []
send_at zero command (shard ∷ shards) =
    record shard { sender = shard.sender ++ command ∷ [] } ∷ shards
send_at (suc index) command (shard ∷ shards) = shard ∷ send_at index command shards

unfoldable pub send_command : ℕ → Str → Inner → Inner
unfolding shard_for_guild send_on
send_command guild_id command inner = elim (shard_for_guild inner guild_id) [
  | none ↦ inner
  | some shard ↦ record inner { shards = send_on shard.id command inner.shards }
]

-- The channel that a voice command names must be known to be in its guild.
unfoldable pub channel_fits : Inner → ℕ → Option (Option ℕ) → Bool
channel_fits inner guild_id (some (some channel_id)) =
    map_or false (λ found. nat_beq found guild_id)
      (resolve_guild_id_for_channel inner.shards channel_id)
channel_fits inner guild_id _ = true
