-- ===== src/Gateway/Compress/Flush.antt =====
-- src/server.rs: the second loop of `compress_full` ends, with the marker of a flush.
use discord_gateway_proxy.Gateway.Compress.Deflates.{
  reserve-lt, reserve-bytes, reserve-capacity, reserve-full, Wrote, Wrote-nil, Wrote-trans,
  Deflates, Returns,
}
use discord_gateway_proxy.Gateway.Compress.{
  Zlib, Vec, ok, sync, returned, trailer, ends_with, reserve, flush, after_call,
}
use discord_gateway_proxy.Prelude.{
  ℕ, ◌≡◌, arith, length, Str, true, ◌≤◌, ◌++◌, [], ap, suc, zero, refl, ◌∙◌, ◌<◌, some, false,
  Bool-cases, inl, inr, subst, ◌+◌, ◌-◌,
}

module _ (zlib : Zlib) (deflates : Deflates zlib) where
  open zlib use {Compress, compress_vec}
  open deflates use {taken, written, owed, flushes}

  abbrev pub Flushes : Compress → Vec → ℕ → Type 0
  Flushes c vec fuel =
      (done : Compress × Vec) × (ends_with done.1.bytes trailer ≡ true)
      × Returns zlib deflates c vec (taken c) (flush zlib fuel c vec) done

  flush_over :
      (fuel : ℕ) (c : Compress) (vec : Vec)
      → ends_with vec.bytes trailer ≡ true
      → flush zlib (suc fuel) c vec ≡ returned (c, vec)
  unfolding flush
  flush_over fuel c vec marked = rw (marked, flush)

  flush_ends :
      (c : Compress) (vec : Vec)
      → ends_with vec.bytes trailer ≡ true
      → (fuel : ℕ) × Flushes c vec fuel
  flush_ends c vec marked = (
    1,
    (
      (c, vec),
      marked,
      (flush_over 0 c vec marked, refl, omega arith, ([], Wrote-nil (written c) vec.bytes)),
    ),
  )

  flush_again :
      (fuel : ℕ) (c : Compress) (vec : Vec)
      → ends_with vec.bytes trailer ≡ false
      → (compress_vec c [] (reserve 5 vec) sync).2 ≡ some ok
      → let r = compress_vec c [] (reserve 5 vec) sync in
        flush zlib (suc fuel) c vec ≡ flush zlib fuel r.0 r.1
  unfolding flush
  flush_again fuel c vec more fine = rw (more, flush, fine, after_call)

  -- One call of the second loop, and the rest of it if the buffer is full.
  flush_call :
      (c : Compress) (vec : Vec)
      → 0 < owed c
      → ends_with vec.bytes trailer ≡ false
      → ((next : Compress) (vec' : Vec)
          → vec'.capacity ≡ (reserve 5 vec).capacity
          → length vec'.bytes ≡ vec'.capacity
          → 0 < owed next
          → owed next + ((reserve 5 vec).capacity - length vec.bytes) ≤ owed c + 6
          → (fuel : ℕ) × Flushes next vec' fuel)
      → (fuel : ℕ) × Flushes c vec fuel
  flush_call c vec pos more rest =
      let r = compress_vec c [] (reserve 5 vec) sync in
      let same_bytes = reserve-bytes 5 vec in
      let (fine, kept, same, (new, wrote), how) =
        flushes c (reserve 5 vec) pos (reserve-lt 4 vec) in
      let wrote' : Wrote (written c) (written r.0) vec.bytes r.1.bytes new =
        subst (λ b. Wrote (written c) (written r.0) b r.1.bytes new) same_bytes wrote in
      let ending : (fuel : ℕ) × Flushes r.0 r.1 fuel = elim how [
        | inl marked ↦ flush_ends r.0 r.1 marked
        | inr (full, left, less) ↦
            rest r.0 r.1 kept (omega arith) left
              (omega (arith, ap (λ (l : Str). length l) same_bytes))
      ] in
      let (fuel, (done, marked, (returns, all, grown, (later, wrote_rest)))) = ending in
      (
        suc fuel,
        (
          done,
          marked,
          (
            flush_again fuel c vec more fine ∙ returns,
            all ∙ same,
            omega (arith, reserve-capacity 5 vec),
            (new ++ later, Wrote-trans wrote' wrote_rest),
          ),
        ),
      )

  -- From a full buffer: it is doubled for every call, which leaves less to write, even with a marker
  -- repeated each time.
  flush_full :
      (n : ℕ) (c : Compress) (vec : Vec)
      → owed c ≤ n
      → 0 < owed c
      → 7 ≤ vec.capacity
      → length vec.bytes ≡ vec.capacity
      → (fuel : ℕ) × Flushes c vec fuel
  flush_full zero c vec bound pos large full = absurd (omega arith)
  flush_full (suc n) c vec bound pos large full = elim (Bool-cases (ends_with vec.bytes trailer)) [
    | inl marked ↦ flush_ends c vec marked
    | inr more ↦
        let doubled = reserve-full 4 vec full (omega arith) in
        flush_call c vec pos more (λ next vec' capacity full' left less.
          flush_full n next vec' (omega arith) left (omega arith) full')
  ]

  pub flush_total :
      (c : Compress) (vec : Vec) → 0 < owed c → 7 ≤ vec.capacity → (fuel : ℕ) × Flushes c vec fuel
  flush_total c vec pos large = elim (Bool-cases (ends_with vec.bytes trailer)) [
    | inl marked ↦ flush_ends c vec marked
    | inr more ↦ flush_call c vec pos more (λ next vec' capacity full left less.
        flush_full (owed next) next vec' (omega arith) left (omega (arith, reserve-capacity 5 vec))
          full)
  ]
