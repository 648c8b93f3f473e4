-- ===== src/Gateway/Sink/Order.antt =====
-- src/server.rs: the form of the frames that a connection is sent.
use discord_gateway_proxy.Prelude.{
  true, false, none, [], ◌∷◌, List, Str, Option, Bool, All, ℕ, some, unwrap_or,
}
use discord_gateway_proxy.Gateway.Compress.{
  ZlibState, Outcome, returned, panicked, unfinished, new_state, compress_and_send, then_run,
}
use discord_gateway_proxy.Gateway.Sink.{
  queued, decided, sent, timed_out, failed, plain, binary, Received, Frame, Socket, frame_of,
  drain_queue, sink_from_queue, SendOutcome, hello, SinkRun, send_in_time,
}
use discord_gateway_proxy.Gateway.Connection.{text, Message}

abbrev pub IsBinary : Frame → Type 0
IsBinary (plain message) = ⊥
IsBinary (binary bytes) = Unit

module _ (socket : Socket) (feed_fuel flush_fuel : ℕ) where
  abbrev State : Type 0
  State = Option (ZlibState socket.zlib)

  -- What a send gives where it makes its frame by compression.
  compressed-IsBinary :
      (compressed : Outcome (ZlibState socket.zlib × Str)) (outcome : SendOutcome)
      (rest : State → SinkRun)
      → ((state : State) → All IsBinary (rest state).frames)
      → All IsBinary
          (send_in_time socket feed_fuel flush_fuel
            (then_run compressed (λ run. returned (binary run.1, some run.0)))
            outcome
            rest).frames
  unfolding send_in_time
  compressed-IsBinary panicked outcome rest h = tt
  compressed-IsBinary unfinished outcome rest h = tt
  compressed-IsBinary (returned run) sent rest h = (tt, h (some run.0))
  compressed-IsBinary (returned run) timed_out rest h = tt
  compressed-IsBinary (returned run) failed rest h = tt

  send_in_time-IsBinary :
      (state : State) (message : Message) (outcome : SendOutcome) (rest : State → SinkRun)
      → ((next : State) → All IsBinary (rest next).frames)
      → All IsBinary
          (send_in_time socket feed_fuel flush_fuel
            (frame_of socket feed_fuel flush_fuel true state message)
            outcome
            rest).frames
  unfolding frame_of
  send_in_time-IsBinary state message outcome rest h =
      compressed-IsBinary
        (compress_and_send socket.zlib feed_fuel flush_fuel
          (unwrap_or (new_state socket.zlib) state) (socket.into_payload message))
        outcome rest h

  drain_queue-IsBinary :
      (pending : Bool) (state : State) (received : List Received)
      → All IsBinary (drain_queue socket feed_fuel flush_fuel pending true state received).frames
  unfolding drain_queue
  drain_queue-IsBinary true state [] = tt
  drain_queue-IsBinary false state [] = tt
  drain_queue-IsBinary true state (decided result ∷ received) =
      drain_queue-IsBinary false state received
  drain_queue-IsBinary false state (decided result ∷ received) =
      drain_queue-IsBinary false state received
  drain_queue-IsBinary true state (queued message outcome ∷ received) =
      send_in_time-IsBinary state message outcome _
        (λ next. drain_queue-IsBinary true next received)
  drain_queue-IsBinary false state (queued message outcome ∷ received) =
      send_in_time-IsBinary state message outcome _
        (λ next. drain_queue-IsBinary false next received)

  -- On a connection that asked for zlib-stream in its URL every frame is binary, whatever is queued
  -- and whatever zlib does: also a close message goes out as compressed data, and never as a close
  -- frame with its code.
  pub sink_from_queue-IsBinary :
      (outcome : SendOutcome) (received : List Received)
      → All IsBinary (sink_from_queue socket feed_fuel flush_fuel true outcome received).frames
  unfolding sink_from_queue
  sink_from_queue-IsBinary outcome received =
      send_in_time-IsBinary none (text hello) outcome _
        (λ state. drain_queue-IsBinary true state received)
