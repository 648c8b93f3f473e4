-- ===== src/Gateway/Sink.antt =====
-- src/server.rs: the task that writes the queue of a connection to its socket, `sink_from_queue`.
pub mod Order
mod Tests
use discord_gateway_proxy.Gateway.Connection.{Message, text}
use discord_gateway_proxy.Gateway.Compress.{
  Zlib, ZlibState, Outcome, returned, panicked, unfinished, then_run, new_state, compress_and_send,
}
use discord_gateway_proxy.Prelude.{
  true, false, none, some, [], ◌∷◌, Str, List, Bool, Option, codes, unwrap_or, ◌||◌, ℕ,
}

abbrev pub hello : Str
hello = codes "{\"t\":null,\"s\":null,\"op\":10,\"d\":{\"heartbeat_interval\":41250}}"

-- zlib, and what the WebSocket library gives for the payload of a message of any kind.
pub record Socket : Type 1 where
  pub zlib : Zlib
  pub into_payload : Message → Str

-- How a send ends within `SINK_SEND_TIMEOUT`.
pub data SendOutcome : Type 0 where
  sent timed_out failed : SendOutcome

-- What the task receives: a message, or what became of the oneshot of IDENTIFY and RESUME, `none` if
-- its sender was dropped. The list of what is received ends where the queue is closed.
pub data Received : Type 0 where
  queued : Message → SendOutcome → Received
  decided : Option (Option Bool) → Received

-- What goes over the wire.
pub data Frame : Type 0 where
  plain : Message → Frame
  binary : Str → Frame

-- How the task ends: with its result, or as a call of `compress_and_send` does.
pub data Ending : Type 0 where
  finished error panicking out_of_fuel : Ending

-- The frames that were given to the socket and taken in time, and how the task ended.
pub record SinkRun : Type 0 where
  pub frames : List Frame
  pub ending : Ending

-- The fuel is that of the two loops of `compress_full`, for each message.
module _ (socket : Socket) (feed_fuel flush_fuel : ℕ) where
  open socket use {zlib, into_payload}

  -- `zlib.get_or_insert_with(ZlibState::new)`.
  unfoldable pub frame_of :
      Bool → Option (ZlibState zlib) → Message → Outcome (Frame × Option (ZlibState zlib))
  unfolding compress_and_send new_state
  frame_of false state message = returned (plain message, state)
  frame_of true state message =
      let current = unwrap_or (new_state zlib) state in
      then_run (compress_and_send zlib feed_fuel flush_fuel current (into_payload message))
        (λ run. returned (binary run.1, some run.0))

  -- `result == Ok(Some(true))`.
  abbrev pub wants_zlib : Option (Option Bool) → Bool
  wants_zlib (some (some true)) = true
  wants_zlib _ = false

  abbrev pub ends : Ending → SinkRun
  ends ending = record { frames = []; ending = ending }

  -- A message that was sent, before the rest.
  abbrev pub before : Frame → SinkRun → SinkRun
  before frame run = record run { frames = frame ∷ run.frames }

  -- A send, for which the frame is made first. One that fails or comes too late ends the task.
  unfoldable pub send_in_time :
      Outcome (Frame × Option (ZlibState zlib))
      → SendOutcome
      → (Option (ZlibState zlib) → SinkRun)
      → SinkRun
  send_in_time panicked outcome rest = ends panicking
  send_in_time unfinished outcome rest = ends out_of_fuel
  send_in_time (returned made) sent rest = before made.0 (rest made.1)
  send_in_time (returned made) timed_out rest = ends finished
  send_in_time (returned made) failed rest = ends error

  -- The first loop while the decision is pending, and the second one after it, in which the oneshot
  -- is not asked any more.
  unfoldable pub drain_queue : Bool → Bool → Option (ZlibState zlib) → List Received → SinkRun
  unfolding frame_of send_in_time
  drain_queue pending use_zlib state [] = ends finished
  drain_queue true use_zlib state (decided result ∷ received) =
      drain_queue false (use_zlib || wants_zlib result) state received
  drain_queue false use_zlib state (decided result ∷ received) =
      drain_queue false use_zlib state received
  drain_queue pending use_zlib state (queued message outcome ∷ received) =
      send_in_time (frame_of use_zlib state message) outcome
        (λ next. drain_queue pending use_zlib next received)

  -- HELLO comes first.
  unfoldable pub sink_from_queue : Bool → SendOutcome → List Received → SinkRun
  unfolding frame_of drain_queue send_in_time
  sink_from_queue use_zlib outcome received =
      send_in_time (frame_of use_zlib none (text hello)) outcome
        (λ state. drain_queue true use_zlib state received)
