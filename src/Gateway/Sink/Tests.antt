-- ===== src/Gateway/Sink/Tests.antt =====
-- Runs of the task that writes to a socket of src/server.rs, and the theorems at concrete ones.
use discord_gateway_proxy.Gateway.Sink.Order.{IsBinary, sink_from_queue-IsBinary}
use discord_gateway_proxy.Gateway.Compress.{
  Zlib, Vec, Status, FlushCompress, ok, no_flush, sync, trailer,
}
use discord_gateway_proxy.Gateway.Sink.{
  sent, queued, decided, timed_out, plain, binary, Socket, sink_from_queue, Received, hello,
}
use discord_gateway_proxy.Gateway.Connection.{text, close, Message, heartbeat_ack, invalid_session}
use discord_gateway_proxy.Prelude.{
  some, [], true, false, ◌∷◌, Str, List, All, ◌/◌, ℕ, ◌≡◌, ◌%◌, ◌+◌, ◌++◌, length, Option, codes,
  refl,
}

abbrev payload_of : Message → Str
payload_of (text t) = t
payload_of (close code reason) = code / 256 ∷ code % 256 ∷ reason

-- A zlib that stores the bytes of a message and writes a marker at its flush.
record Store : Type 0 where
  total : ℕ
  body : Str

abbrev store_vec : Store → Str → Vec → FlushCompress → Store × Vec × Option Status
store_vec c input vec no_flush =
    (record { total = c.total + length input; body = c.body ++ input }, vec, some ok)
store_vec c input vec sync =
    (record c { body = [] }, record vec { bytes = vec.bytes ++ c.body ++ trailer }, some ok)

abbrev store : Zlib
store = record {
  Compress = Store;
  new = record { total = 0; body = [] };
  total_in = λ c. c.total;
  compress_vec = store_vec;
}

abbrev socket : Socket
socket = record { zlib = store; into_payload = payload_of }

-- A heartbeat is acknowledged before the form is decided; the last message is not taken.
abbrev received : List Received
received =
    queued (text heartbeat_ack) sent
    ∷ decided (some (some true))
    ∷ queued (text (codes "x")) sent
    ∷ queued (text (codes "y")) timed_out
    ∷ queued (text (codes "z")) sent
    ∷ []

test_frames :
    (sink_from_queue socket 2 2 false sent received).frames
    ≡ plain (text hello) ∷ plain (text heartbeat_ack) ∷ binary (codes "x" ++ trailer) ∷ []
unfolding sink_from_queue discord_gateway_proxy.Prelude.str_beq
test_frames = refl

-- INVALID_SESSION and its close message.
abbrev rejected : List Received
rejected =
    queued (text invalid_session) sent ∷ queued (close 4007 (codes "session rejected")) sent ∷ []

test_close :
    (sink_from_queue socket 2 2 true sent rejected).frames
    ≡ binary (hello ++ trailer)
      ∷ binary (invalid_session ++ trailer)
      ∷ binary (15 ∷ 167 ∷ codes "session rejected" ++ trailer)
      ∷ []
unfolding sink_from_queue discord_gateway_proxy.Prelude.str_beq
test_close = refl

sink_from_queue-IsBinary_example :
    All IsBinary (sink_from_queue socket 2 2 true sent rejected).frames
sink_from_queue-IsBinary_example = sink_from_queue-IsBinary socket 2 2 sent rejected
