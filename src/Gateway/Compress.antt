-- ===== src/Gateway/Compress.antt =====
-- src/server.rs: `compress_full` and `ZlibState`, which compress one message for the socket.
pub mod Deflates
pub mod Feed
pub mod Flush
pub mod Sent
mod Tests
use discord_gateway_proxy.Prelude.{
  ℕ, zero, suc, ◌+◌, ◌-◌, ◌*◌, Bool, true, false, Option, none, some, List, [], ◌∷◌, Str, length,
  drop, leb, ltb, if◌then◌else◌, str_beq, ◌||◌,
}

abbrev pub trailer : Str
trailer = 0 ∷ 0 ∷ 255 ∷ 255 ∷ []

-- `slice::ends_with`.
unfoldable pub ends_with : Str → Str → Bool
ends_with [] suffix = str_beq [] suffix
ends_with (b ∷ bytes) suffix = str_beq (b ∷ bytes) suffix || ends_with bytes suffix

-- `Vec<u8>`: zlib writes into what is left of the capacity.
pub record Vec : Type 0 where
  pub bytes : Str
  pub capacity : ℕ

-- `Vec::reserve`: room for so many more bytes, and at least twice the capacity if it has to grow.
unfoldable pub reserve : ℕ → Vec → Vec
reserve additional vec =
    let needed = length vec.bytes + additional in
    if leb needed vec.capacity then vec else record vec {
      capacity = if leb needed (2 * vec.capacity) then 2 * vec.capacity else needed;
    }

-- flate2's.
pub data Status : Type 0 where
  ok buf_error stream_end : Status

pub data FlushCompress : Type 0 where
  no_flush sync : FlushCompress

-- flate2's `Compress`. `compress_vec` has no status where it is an error, on which `unwrap` panics.
pub record Zlib : Type 1 where
  pub Compress : Type 0
  pub new : Compress
  pub total_in : Compress → ℕ
  pub compress_vec : Compress → Str → Vec → FlushCompress → Compress × Vec × Option Status

-- How code with a loop ends, on fuel.
pub data Outcome {ℓ} (A : Type ℓ) : Type ℓ where
  returned : A → Outcome A
  panicked unfinished : Outcome A

abbrev pub then_run {ℓ κ} : {A : Type ℓ} {B : Type κ} → Outcome A → (A → Outcome B) → Outcome B
then_run (returned a) f = f a
then_run panicked f = panicked
then_run unfinished f = unfinished

-- How a loop goes on after a call of zlib: with more room after a `BufError`.
abbrev pub after_call {ℓ} : {A : Type ℓ} → Option Status → A → Outcome A → Outcome A → Outcome A
after_call none stop continue grown = panicked
after_call (some ok) stop continue grown = continue
after_call (some buf_error) stop continue grown = grown
after_call (some stream_end) stop continue grown = returned stop

module _ (zlib : Zlib) where
  open zlib use {Compress, new, total_in, compress_vec}

  -- The first loop, until zlib has taken the whole input.
  unfoldable pub feed : ℕ → ℕ → Str → Compress → Vec → Outcome (Compress × Vec)
  unfolding reserve
  feed zero before_in input compressor output = unfinished
  feed (suc fuel) before_in input compressor output =
      let offset = total_in compressor - before_in in
      elim (ltb offset (length input)) [
        | false ↦ returned (compressor, output)
        | true ↦
            let (next, vec, status) = compress_vec compressor (drop offset input) output no_flush in
            let continue = feed fuel before_in input next vec in
            let grown = feed fuel before_in input next (reserve 4096 vec) in
            after_call status (next, vec) continue grown
      ]

  -- The second loop, until the output ends as a flush does.
  unfoldable pub flush : ℕ → Compress → Vec → Outcome (Compress × Vec)
  unfolding ends_with reserve
  flush zero compressor output = unfinished
  flush (suc fuel) compressor output = elim (ends_with output.bytes trailer) [
    | true ↦ returned (compressor, output)
    | false ↦
        let (next, vec, status) = compress_vec compressor [] (reserve 5 output) sync in
        let again = flush fuel next vec in after_call status (next, vec) again again
  ]

  -- Fuel for each of the two loops.
  unfoldable pub compress_full : ℕ → ℕ → Compress → Vec → Str → Outcome (Compress × Vec)
  unfolding feed flush
  compress_full feed_fuel flush_fuel compressor output input =
      then_run (feed feed_fuel (total_in compressor) input compressor output)
        (λ fed. flush flush_fuel fed.0 fed.1)

  pub record ZlibState : Type 0 where
    pub compress : Compress
    pub buffer : Vec

  unfoldable pub new_state : ZlibState
  new_state = record { compress = new; buffer = record { bytes = []; capacity = 32 * 1024 } }

  -- The state and the bytes that are sent.
  unfoldable pub compress_and_send : ℕ → ℕ → ZlibState → Str → Outcome (ZlibState × Str)
  unfolding compress_full
  compress_and_send feed_fuel flush_fuel state input =
      let cleared = record state.buffer { bytes = [] } in
      then_run (compress_full feed_fuel flush_fuel state.compress cleared input)
        (λ run. returned (record { compress = run.0; buffer = run.1 }, run.1.bytes))
