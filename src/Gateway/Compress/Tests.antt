-- ===== src/Gateway/Compress/Tests.antt =====
-- src/server.rs: `compress_full` on a concrete zlib, which stores bytes and takes one at each call.
use discord_gateway_proxy.Text.Positions.{length-take_le}
use discord_gateway_proxy.Prelude.{
  Str, [], Option, length, codes, ◌≡◌, some, if◌then◌else◌, ◌∷◌, ◌++◌, leb, ◌<◌, ℕ, ◌≤◌, take, true,
  ◌⊎◌, ◌+◌, arith, drop, Bool-cases, inl, inr, refl, Bool, false, ◌-◌, length-append, length-drop,
}
use discord_gateway_proxy.Gateway.Compress.{
  Zlib, Vec, Status, FlushCompress, ok, buf_error, no_flush, sync, returned, trailer, ends_with,
  compress_and_send, ZlibState, new_state, panicked, unfinished,
}
use discord_gateway_proxy.Gateway.Compress.Deflates.{Deflates, Wrote, ends_with-append, Wrote-nil}
use discord_gateway_proxy.Gateway.Compress.Sent.{compress_and_send_total}

-- A flush, if one is due, writes `body` and the marker. Of a marker that does not fit none is kept, so
-- that it is repeated.
record Store : Type 0 where
  taken : Str
  written : Str
  body : Str
  due : Bool

abbrev take_byte : Store → Str → Vec → Store × Vec × Option Status
take_byte c [] vec = (c, vec, some buf_error)
take_byte c (b ∷ input) vec =
    (record c { taken = c.taken ++ b ∷ []; body = c.body ++ b ∷ []; due = true }, vec, some ok)

abbrev write_body : Store → ℕ → Str → Vec → Store × Vec × Option Status
write_body c room output vec =
    if leb (length output) room
    then (
      record c { written = c.written ++ output; body = []; due = false },
      record vec { bytes = vec.bytes ++ output },
      some ok,
    )
    else (
      record c { written = c.written ++ take room output; body = drop room c.body },
      record vec { bytes = vec.bytes ++ take room output },
      some ok,
    )

abbrev store_vec : Store → Str → Vec → FlushCompress → Store × Vec × Option Status
store_vec c input vec no_flush =
    if leb vec.capacity (length vec.bytes) then (c, vec, some buf_error) else take_byte c input vec
store_vec c input vec sync =
    if c.due
    then write_body c (vec.capacity - length vec.bytes) (c.body ++ trailer) vec
    else (c, vec, some buf_error)

abbrev store : Zlib
store = record {
  Compress = Store;
  new = record { taken = []; written = []; body = []; due = false };
  total_in = λ c. length c.taken;
  compress_vec = store_vec;
}

-- Two messages in a row: what is sent for each is that message alone.
abbrev sent_for : Str → Str → Str × Str
sent_for first second = elim (compress_and_send store 9 9 (new_state store) first) [
  | panicked ↦ ([], [])
  | unfinished ↦ ([], [])
  | returned (state, sent) ↦ elim (compress_and_send store 9 9 state second) [
    | panicked ↦ (sent, [])
    | unfinished ↦ (sent, [])
    | returned (after, more) ↦ (sent, more)
  ]
]

test_twice : sent_for (codes "hi") (codes "you") ≡ (codes "hi" ++ trailer, codes "you" ++ trailer)
unfolding compress_and_send new_state discord_gateway_proxy.Prelude.str_beq
test_twice = refl

-- The documented behaviour can be met.
abbrev store_owed : Store → ℕ
store_owed c = if c.due then length c.body + 4 else 0

store-feeds :
    (c : Store) (input : Str) (vec : Vec)
    → 0 < length input
    → let (c', vec', status) = store_vec c input vec no_flush in
      ((status ≡ some ok)
        × (vec'.capacity ≡ vec.capacity)
        × ((k : ℕ) × (k ≤ length input)
            × (c'.taken ≡ c.taken ++ take k input)
            × (((0 < k) × (0 < store_owed c')) ⊎ ((k ≡ 0) × (0 < 0))))
        × ((new : Str) × Wrote c.written c'.written vec.bytes vec'.bytes new))
      ⊎ ((status ≡ some buf_error) × (vec.capacity ≤ length vec.bytes) × (c' ≡ c) × (vec' ≡ vec))
store-feeds c [] vec pos = absurd (omega arith)
store-feeds c (b ∷ input) vec pos = elim (Bool-cases (leb vec.capacity (length vec.bytes))) [
  | inl full ↦ rw full (inr (refl, ground arith, refl, refl))
  | inr room ↦ rw room (
      inl (
        refl,
        refl,
        (1, omega arith, refl, inl (omega arith, omega arith)),
        ([], Wrote-nil c.written vec.bytes),
      ))
]

store-flushes :
    (c : Store) (vec : Vec)
    → 0 < store_owed c
    → length vec.bytes < vec.capacity
    → let (c', vec', status) = store_vec c [] vec sync in
      (status ≡ some ok)
      × (vec'.capacity ≡ vec.capacity)
      × (c'.taken ≡ c.taken)
      × ((new : Str) × Wrote c.written c'.written vec.bytes vec'.bytes new)
      × ((ends_with vec'.bytes trailer ≡ true)
          ⊎ ((length vec'.bytes ≡ vec.capacity)
              × (0 < store_owed c')
              × (store_owed c' + (vec.capacity - length vec.bytes) ≤ store_owed c + 6)))
unfolding ends_with discord_gateway_proxy.Prelude.str_beq
store-flushes c vec pos room = elim (Bool-cases c.due) [
  | inr none_due ↦ absurd (omega (arith, rw none_due at pos))
  | inl due ↦
      let left = vec.capacity - length vec.bytes in
      let output = c.body ++ trailer in
      let size = length-append c.body trailer in
      rw due (elim (Bool-cases (leb (length output) left)) [
        | inl fits ↦ rw fits (
          refl,
          refl,
          refl,
          (output, record { buffer = refl; stream = refl }),
          inl (
              ends_with-append vec.bytes output trailer
                (ends_with-append c.body trailer trailer refl)),
        )
        | inr more ↦
            let beyond : left ≤ length output = ground (arith, more) in
            rw more (
              refl,
              refl,
              refl,
              (take left output, record { buffer = refl; stream = refl }),
              inr (
                omega (
                  arith,
                  length-append vec.bytes (take left output),
                  length-take_le left output beyond,
                ),
                omega arith,
                ground (arith, more, size, length-drop left c.body),
              ),
            )
      ])
]

abbrev store_Deflates : Deflates store
store_Deflates = record {
  taken = λ c. c.taken;
  written = λ c. c.written;
  owed = store_owed;
  held = λ c. 0;
  total_in-taken = λ c. refl;
  feeds = store-feeds;
  flushes = store-flushes;
}

compress_and_send_total_example :
    (feed_fuel flush_fuel : ℕ) × (after : ZlibState store) × (sent : Str) × (compress_and_send store
        feed_fuel flush_fuel
        (new_state store)
        (codes "hi")
      ≡ returned (after, sent))
    × (after.compress.taken ≡ (new_state store).compress.taken ++ codes "hi")
    × (after.compress.written ≡ (new_state store).compress.written ++ sent)
    × (ends_with sent trailer ≡ true)
    × ((new_state store).buffer.capacity ≤ after.buffer.capacity)
unfolding new_state
compress_and_send_total_example =
    compress_and_send_total store store_Deflates (new_state store) (codes "hi") (omega arith)
      (omega arith)
