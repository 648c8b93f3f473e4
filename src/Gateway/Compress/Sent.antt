-- ===== src/Gateway/Compress/Sent.antt =====
-- src/server.rs: what `compress_and_send` sends of a message.
use discord_gateway_proxy.Gateway.Compress.Deflates.{Wrote-trans, Deflates}
use discord_gateway_proxy.Gateway.Compress.Feed.{feed_total}
use discord_gateway_proxy.Gateway.Compress.Flush.{flush_total}
use mathlib.Core.List.{append-nil}
use discord_gateway_proxy.Gateway.Compress.{
  Zlib, Vec, returned, trailer, ends_with, feed, flush, compress_and_send, ZlibState, then_run,
}
use discord_gateway_proxy.Prelude.{
  ℕ, ◌≡◌, arith, length, Str, true, ◌++◌, [], ap, ◌∙◌, ◌<◌, sym, ◌≤◌,
}

compress_and_send-returned :
    (zlib : Zlib) (feed_fuel flush_fuel : ℕ) (state : ZlibState zlib) (input : Str)
    (fed done : zlib.Compress × Vec)
    → feed zlib feed_fuel
        (zlib.total_in state.compress)
        input
        state.compress
        (record state.buffer { bytes = [] })
      ≡ returned fed
    → flush zlib flush_fuel fed.0 fed.1 ≡ returned done
    → compress_and_send zlib feed_fuel flush_fuel state input
      ≡ returned (record { compress = done.0; buffer = done.1 }, done.1.bytes)
unfolding compress_and_send
compress_and_send-returned zlib feed_fuel flush_fuel state input fed done first second =
    rw (first, then_run, second, then_run)

-- With a buffer of more than six bytes, as a new state has, a message that is not empty is compressed
-- by finitely many calls of zlib, without a panic, whatever the state of the stream: the stream takes
-- its bytes, each once and in order, and what is sent is all that the stream writes meanwhile, and ends
-- with the marker of a flush. The buffer does not shrink, so the next message finds the same.
pub compress_and_send_total :
    (zlib : Zlib) (deflates : Deflates zlib) (state : ZlibState zlib) (input : Str)
    → 0 < length input
    → 7 ≤ state.buffer.capacity
    → (feed_fuel flush_fuel : ℕ) × (after : ZlibState zlib) × (sent : Str) × (compress_and_send zlib
          feed_fuel flush_fuel state input
        ≡ returned (after, sent))
      × (deflates.taken after.compress ≡ deflates.taken state.compress ++ input)
      × (deflates.written after.compress ≡ deflates.written state.compress ++ sent)
      × (ends_with sent trailer ≡ true)
      × (state.buffer.capacity ≤ after.buffer.capacity)
compress_and_send_total zlib deflates state input pos large =
    let cleared : Vec = record { bytes = []; capacity = state.buffer.capacity } in
    let start = deflates.taken state.compress in
    let (feed_fuel, (fed, owes, (fed_returns, took, grown, (new, wrote)))) =
      feed_total zlib deflates start input (length input) (deflates.held state.compress) 0
        state.compress cleared
        (sym (append-nil start), omega arith, λ none_left. absurd (omega arith)) (omega arith)
        (omega arith) in
    let (flush_fuel, (done, marked, (returns, same, grown', (rest, wrote_rest)))) =
      flush_total zlib deflates fed.0 fed.1 owes (omega arith) in
    let all = Wrote-trans wrote wrote_rest in
    (
      feed_fuel,
      flush_fuel,
      record { compress = done.0; buffer = done.1 },
      done.1.bytes,
      compress_and_send-returned zlib feed_fuel flush_fuel state input fed done
          (ap (λ before. feed zlib feed_fuel before input state.compress cleared)
              (deflates.total_in-taken state.compress)
            ∙ fed_returns)
          returns,
      same ∙ took,
      all.stream ∙ ap (λ l. deflates.written state.compress ++ l) (sym all.buffer),
      marked,
      omega arith,
    )
