-- ===== src/Lib.antt =====
-- The gateway proxy: a Rust program through which many clients share one bot session of Discord.
-- A shard of Discord's gateway is read by src/dispatch.rs, whose events go to the connections of
-- clients (src/server.rs) and, for clients without a connection, to a buffer (src/state.rs). What a
-- client sends goes upstream only through a filter, and its REST requests through src/rest_proxy.rs.
-- Who a client is and which guilds it has comes from a registry that src/db_config.rs keeps in step
-- with a database.
--
-- Deserializer (src/deserializer.rs): the scan of a payload for its opcode, sequence number, event name,
--   guild and channel, over the bytes of the text; an index out of range or a bad number ends it.
-- State (src/state.rs): the state that all tasks share. Each operation takes the state and returns the
--   new one, which is what happens while its lock is held. Sessions, voice ownership (State/Voice),
--   connections, offline buffers and limits are modules of their own. Three operations hold two locks
--   one after the other, between which other steps may run (State/Voice/Steps):
--   `take_stale_voice_owners`, which is `voice_snapshot` and `sweep_owners`, and `mark_client_connected`
--   and `mark_client_disconnected`, which count and then mark the voice owners.
-- Config (src/config.rs): the guild ids of a client, the cache's settings and the flags they give.
-- Clients (src/db_config.rs): the registry and authentication; Rows groups the rows of the table into
--   clients; Payload is the notification that the trigger writes and the proxy reads; Sync is the
--   realtime loop, a turn of which is `turn`, and Sync/Pending runs it next to a table that changes.
-- Auth (src/auth.rs): whom a token stands for.
-- Rest (src/rest_proxy.rs): `handle_rest_request`; its early returns are the constructor `respond` of
--   `Checked`. `admit` is everything up to the request that is sent to Discord.
-- Gateway (src/server.rs, src/model.rs, src/upgrade.rs): `filter_client_command` and the two loops of
--   `forward_shard`. Connection is `handle_client`: a `turn` takes one outcome of its `select!`, with
--   the clock, the registry and the shared state that it meets, and ends by going on, breaking,
--   panicking (an index out of range) or still drawing a session identifier; `teardown` is what follows
--   the loop. The release profile aborts on a panic, so that a turn that panics ends the process.
--   Connection/System runs any number of connections and other tasks on one state, each turn of a
--   connection being one step, and Connection/Phases is the abstract machine of a connection, to which
--   Protocol compares the loop. Stream is `forward_shard` as a whole, Sink is `sink_from_queue`, which
--   compresses by Compress, that is `compress_full` and `ZlibState`; Upgrade is `handler` and the
--   handshake.
-- Cache (src/cache.rs): the payloads that a client which identifies is sent of a shard's cache.
-- Dispatch (src/dispatch.rs): audiences, the bot's own voice state and the buffering of events; Events is
--   the loop over a shard's messages, and Events/Machine the abstract machine of what it relays.
-- Wake (src/wake.rs): the polls for scheduled wakes, which meet the clocks and the shared state anew at
--   each client, and the typing shown meanwhile.
-- Process (src/main.rs): the shared state at the start, the periodic cleanups and the shutdown.
-- Json: the values that the JSON library gives. Map: hash maps as association lists. Text: the
--   operations of `str`, over UTF-8 bytes.
--
-- Numbers are natural numbers; what the source parses as `u64`, `u32` or `u8` is refused from 2 ^ w on,
-- and a difference of times stops at 0 as `saturating_sub` and `duration_since` do. Loops over data
-- are recursion on a list, and loops over what arrives are recursion on the list of what arrives. Two
-- parts of the modelled code have loops without a bound of their own: the one that draws random session
-- identifiers, whose draws are a list, and the two of `compress_full`, which take fuel each: how much
-- they need depends on zlib, so it is a result and not a constant.
-- The JSON library, zlib, the WebSocket library, the HTTP client, twilight's cache and parser, the
-- database and Discord are parameters. What the theorems need of them stands in records of laws:
-- `Deflates` (zlib with synchronous flushes), `Reads` (JSON that is written is read).
--
-- Not modelled: the listener `run` (src/server.rs); metrics
-- (`update_shard_statistics` of src/dispatch.rs) and logging; reading and watching the configuration
-- file (src/config.rs); the connections to the database (src/db_config.rs); the waits for READY and the
-- first sync, signals and tracing of src/main.rs. The fields of a guild that GUILD_CREATE copies
-- unchanged are one value.
mod Prelude
pub mod Map
pub mod Text
pub mod Deserializer
pub mod Json
pub mod State
pub mod Config
pub mod Clients
pub mod Auth
pub mod Cache
pub mod Rest
pub mod Wake
pub mod Gateway
pub mod Dispatch
pub mod Process
