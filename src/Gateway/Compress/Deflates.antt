-- ===== src/Gateway/Compress/Deflates.antt =====
-- src/server.rs: what is assumed of zlib where `compress_full` calls it, and the buffer it writes to.
use mathlib.Core.List.{append-nil, append_assoc}
use discord_gateway_proxy.Gateway.Compress.{
  Zlib, Vec, ok, buf_error, no_flush, sync, Outcome, returned, trailer, ends_with, reserve,
}
use discord_gateway_proxy.Prelude.{
  ℕ, ◌≡◌, arith, length, Str, true, take, ◌≤◌, ◌++◌, ◌∷◌, [], ap, suc, ◌∙◌, ◌<◌, sym, some, ◌⊎◌,
  ◌+◌, ◌-◌, ◌*◌,
}

-- `Vec::reserve` does what it is for.
pub reserve-lt :
    (n : ℕ) (vec : Vec) → length (reserve (suc n) vec).bytes < (reserve (suc n) vec).capacity
unfolding reserve
reserve-lt n vec = ground arith

pub reserve-bytes : (n : ℕ) (vec : Vec) → (reserve n vec).bytes ≡ vec.bytes
unfolding reserve
reserve-bytes n vec = ground arith

pub reserve-capacity : (n : ℕ) (vec : Vec) → vec.capacity ≤ (reserve n vec).capacity
unfolding reserve
reserve-capacity n vec = ground arith

-- A full buffer of at least that size is doubled.
pub reserve-full :
    (n : ℕ) (vec : Vec)
    → length vec.bytes ≡ vec.capacity
    → suc n ≤ vec.capacity
    → (reserve (suc n) vec).capacity ≡ 2 * vec.capacity
unfolding reserve
reserve-full n vec full enough = ground arith

pub ends_with-append :
    (xs ys suffix : Str) → ends_with ys suffix ≡ true → ends_with (xs ++ ys) suffix ≡ true
unfolding ends_with
ends_with-append [] ys suffix h = h
ends_with-append (x ∷ xs) ys suffix h = ground (arith, ends_with-append xs ys suffix h)

-- A call wrote some bytes, into the buffer and after all that the stream had written before.
pub record Wrote (written written' bytes bytes' new : Str) : Type 0 where
  pub buffer : bytes' ≡ bytes ++ new
  pub stream : written' ≡ written ++ new

-- What zlib documents of `deflate`, in terms of all that a stream has taken and written, of how much
-- a flush would write now, and of the output that it holds back.
pub record Deflates (zlib : Zlib) : Type 1 where
  pub taken : zlib.Compress → Str
  pub written : zlib.Compress → Str
  pub owed : zlib.Compress → ℕ
  pub held : zlib.Compress → ℕ
  pub total_in-taken : (c : zlib.Compress) → zlib.total_in c ≡ length (taken c)
  -- Without a flush: some input is taken, which a flush would have to write, or some output that was
  -- held back is written; there is no progress only where there is no room, and then nothing changes.
  pub feeds :
      (c : zlib.Compress) (input : Str) (vec : Vec)
      → 0 < length input
      → let (c', vec', status) = zlib.compress_vec c input vec no_flush in
        ((status ≡ some ok)
          × (vec'.capacity ≡ vec.capacity)
          × ((k : ℕ) × (k ≤ length input)
              × (taken c' ≡ taken c ++ take k input)
              × (((0 < k) × (0 < owed c')) ⊎ ((k ≡ 0) × (held c' < held c))))
          × ((new : Str) × Wrote (written c) (written c') vec.bytes vec'.bytes new))
        ⊎ ((status ≡ some buf_error) × (vec.capacity ≤ length vec.bytes) × (c' ≡ c) × (vec' ≡ vec))
  -- A flush with something to write, and room: it is completed, up to the marker, or it fills the
  -- buffer and is still to be completed, and then a marker of up to six bytes may be repeated.
  pub flushes :
      (c : zlib.Compress) (vec : Vec)
      → 0 < owed c
      → length vec.bytes < vec.capacity
      → let (c', vec', status) = zlib.compress_vec c [] vec sync in
        (status ≡ some ok)
        × (vec'.capacity ≡ vec.capacity)
        × (taken c' ≡ taken c)
        × ((new : Str) × Wrote (written c) (written c') vec.bytes vec'.bytes new)
        × ((ends_with vec'.bytes trailer ≡ true)
            ⊎ ((length vec'.bytes ≡ vec.capacity)
                × (0 < owed c')
                × (owed c' + (vec.capacity - length vec.bytes) ≤ owed c + 6)))

pub Wrote-nil : (written bytes : Str) → Wrote written written bytes bytes []
Wrote-nil written bytes = record {
  buffer = sym (append-nil bytes);
  stream = sym (append-nil written);
}

pub Wrote-trans :
    {w w' w'' b b' b'' new more : Str}
    → Wrote w w' b b' new
    → Wrote w' w'' b' b'' more
    → Wrote w w'' b b'' (new ++ more)
Wrote-trans {w = w} {b = b} {new = new} {more = more} h k = record {
  buffer = k.buffer ∙ ap (λ l. l ++ more) h.buffer ∙ append_assoc b new more;
  stream = k.stream ∙ ap (λ l. l ++ more) h.stream ∙ append_assoc w new more;
}

module _ (zlib : Zlib) (deflates : Deflates zlib) where
  open zlib use {Compress}
  open deflates use {taken, written}

  -- A loop that was entered so has returned: on the stream that took `all`, with what it wrote, into a
  -- buffer of at least the capacity that it had.
  abbrev pub Returns : Compress → Vec → Str → Outcome (Compress × Vec) → Compress × Vec → Type 0
  Returns c vec all outcome done =
      (outcome ≡ returned done)
      × (taken done.0 ≡ all)
      × (vec.capacity ≤ done.1.capacity)
      × ((new : Str) × Wrote (written c) (written done.0) vec.bytes done.1.bytes new)
