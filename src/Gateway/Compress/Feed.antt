-- ===== src/Gateway/Compress/Feed.antt =====
-- src/server.rs: the first loop of `compress_full` ends, with the whole input taken.
use discord_gateway_proxy.Gateway.Compress.Deflates.{
  reserve-lt, reserve-bytes, reserve-capacity, Wrote, Wrote-nil, Wrote-trans, Deflates, Returns,
}
use native.Mathlib.Decide.{dec_lt}
use mathlib.Core.List.{append_assoc}
use discord_gateway_proxy.Text.Positions.{length-take_le}
use discord_gateway_proxy.Gateway.Compress.{
  Zlib, Vec, ok, buf_error, no_flush, returned, reserve, feed, after_call,
}
use discord_gateway_proxy.Prelude.{
  ℕ, ◌≡◌, arith, length, Str, ◌+◌, true, take, ◌≤◌, ◌++◌, ◌∷◌, drop, [], ap, suc, zero, refl, ◌∙◌,
  ◌<◌, sym, some, ◌⊎◌, length-drop, false, inl, inr, subst, ◌-◌, ltb, length-append,
}

take-nil : (k : ℕ) → take {A = ℕ} k [] ≡ []
take-nil zero = refl
take-nil (suc k) = refl

take-drop : (xs : Str) (i k : ℕ) → take i xs ++ take k (drop i xs) ≡ take (i + k) xs
take-drop xs zero k = ap (λ n. take n xs) (omega arith)
take-drop [] (suc i) k = take-nil k ∙ sym (take-nil (suc i + k))
take-drop (x ∷ xs) (suc i) k =
    ap (λ l. x ∷ l) (take-drop xs i k) ∙ ap (λ n. take n (x ∷ xs)) {x = suc (i + k)} (omega arith)

take_all : (xs : Str) (k : ℕ) → length xs ≤ k → take k xs ≡ xs
take_all [] k h = take-nil k
take_all (x ∷ xs) zero h = absurd (omega arith)
take_all (x ∷ xs) (suc k) h = ap (λ l. x ∷ l) (take_all xs k (omega arith))

le-cases : (m n : ℕ) → m ≤ n → (m ≡ n) ⊎ (m < n)
le-cases m n h = elim (dec_lt m n) [ yes less ↦ inr less | no all ↦ inl (omega arith) ]

module _ (zlib : Zlib) (deflates : Deflates zlib) where
  open zlib use {Compress, total_in, compress_vec}
  open deflates use {taken, written, owed, held, total_in-taken, feeds}

  -- The first loop, on an input before which the stream had taken `start`.
  module _ (start input : Str) where
    -- The stream has taken the first `o` bytes of the input, in order.
    abbrev pub Fed : ℕ → Compress → Type 0
    Fed o c =
        (taken c ≡ start ++ take o input) × (o ≤ length input) × (o ≡ length input → 0 < owed c)

    abbrev pub Feeds : Compress → Vec → ℕ → Type 0
    Feeds c vec fuel =
        (done : Compress × Vec) × (0 < owed done.0)
        × Returns zlib deflates c vec (start ++ input) (feed zlib fuel (length start) input c vec)
            done

    offset_of : (o : ℕ) (c : Compress) → Fed o c → total_in c - length start ≡ o
    offset_of o c h = omega (
      arith,
      total_in-taken c,
      ap length h.0,
      length-append start (take o input),
      length-take_le o input h.1,
    )

    feed_over :
        (fuel o : ℕ) (c : Compress) (vec : Vec)
        → Fed o c
        → o ≡ length input
        → feed zlib (suc fuel) (length start) input c vec ≡ returned (c, vec)
    unfolding feed
    feed_over fuel o c vec h all =
        let over : ltb (total_in c - length start) (length input) ≡ false =
          ground (arith, offset_of o c h) in
        rw (over, feed)

    feed_ok :
        (fuel o : ℕ) (c : Compress) (vec : Vec)
        → Fed o c
        → o < length input
        → (compress_vec c (drop o input) vec no_flush).2 ≡ some ok
        → let r = compress_vec c (drop o input) vec no_flush in
          feed zlib (suc fuel) (length start) input c vec
          ≡ feed zlib fuel (length start) input r.0 r.1
    unfolding feed
    feed_ok fuel o c vec h more fine =
        let going : ltb (total_in c - length start) (length input) ≡ true =
          ground (arith, offset_of o c h) in
        rw (going, feed, offset_of o c h, fine, after_call)

    feed_grown :
        (fuel o : ℕ) (c : Compress) (vec : Vec)
        → Fed o c
        → o < length input
        → (compress_vec c (drop o input) vec no_flush).2 ≡ some buf_error
        → (compress_vec c (drop o input) vec no_flush).0 ≡ c
        → (compress_vec c (drop o input) vec no_flush).1 ≡ vec
        → feed zlib (suc fuel) (length start) input c vec
          ≡ feed zlib fuel (length start) input c (reserve 4096 vec)
    unfolding feed
    feed_grown fuel o c vec h more full same same_vec =
        let going : ltb (total_in c - length start) (length input) ≡ true =
          ground (arith, offset_of o c h) in
        rw (going, feed, offset_of o c h, full, after_call, same, same_vec)

    feed_ends :
        (o : ℕ) (c : Compress) (vec : Vec)
        → Fed o c
        → o ≡ length input
        → (fuel : ℕ) × Feeds c vec fuel
    feed_ends o c vec h all = (
      1,
      (
        (c, vec),
        h.2 all,
        (
          feed_over 0 o c vec h all,
          h.0 ∙ ap (λ l. start ++ l) (ap (λ n. take n input) all ∙ take_all input _ (omega arith)),
          omega arith,
          ([], Wrote-nil (written c) vec.bytes),
        ),
      ),
    )

    -- What is left of the loop after a call: with less input, or with less output held back.
    abbrev Rest : ℕ → Compress → Type 0
    Rest o c =
        (o' : ℕ) (next : Compress) (vec' : Vec)
        → Fed o' next
        → (o < o') ⊎ ((o' ≡ o) × (held next < held c))
        → (fuel : ℕ) × Feeds next vec' fuel

    -- A call that makes progress, and the rest of the loop.
    feed_progress :
        (o : ℕ) (c : Compress) (vec : Vec)
        → Fed o c
        → o < length input
        → (compress_vec c (drop o input) vec no_flush).2 ≡ some ok
        → (compress_vec c (drop o input) vec no_flush).1.capacity ≡ vec.capacity
        → ((k : ℕ) × (k ≤ length (drop o input))
            × (taken (compress_vec c (drop o input) vec no_flush).0
                ≡ taken c ++ take k (drop o input))
            × (((0 < k) × (0 < owed (compress_vec c (drop o input) vec no_flush).0))
                ⊎ ((k ≡ 0) × (held (compress_vec c (drop o input) vec no_flush).0 < held c))))
        → ((new : Str) × Wrote
              (written c)
              (written (compress_vec c (drop o input) vec no_flush).0)
              vec.bytes
              (compress_vec c (drop o input) vec no_flush).1.bytes
              new)
        → Rest o c
        → (fuel : ℕ) × Feeds c vec fuel
    feed_progress o c vec h more fine kept (k, within, took, how) (new, wrote) rest =
        let r = compress_vec c (drop o input) vec no_flush in
        let fed : Fed (o + k) r.0 = (
          took
              ∙ ap (λ l. l ++ take k (drop o input)) h.0
              ∙ append_assoc start (take o input) (take k (drop o input))
              ∙ ap (λ l. start ++ l) (take-drop input o k),
          omega (arith, length-drop o input),
          λ all. elim how [
            | inl (pos, marked) ↦ marked
            | inr (none_taken, less) ↦ absurd (omega arith)
          ],
        ) in
        let how' : (o < o + k) ⊎ ((o + k ≡ o) × (held r.0 < held c)) = elim how [
          | inl (pos, marked) ↦ inl (omega arith)
          | inr (none_taken, less) ↦ inr (omega arith, less)
        ] in
        let (fuel, (done, marked, (returns, all, grown, (later, wrote_rest)))) =
          rest (o + k) r.0 r.1 fed how' in
        (
          suc fuel,
          (
            done,
            marked,
            (
              feed_ok fuel o c vec h more fine ∙ returns,
              all,
              omega arith,
              (new ++ later, Wrote-trans wrote wrote_rest),
            ),
          ),
        )

    -- With room for it, a call makes progress.
    feed_room :
        (o : ℕ) (c : Compress) (vec : Vec)
        → Fed o c
        → o < length input
        → length vec.bytes < vec.capacity
        → Rest o c
        → (fuel : ℕ) × Feeds c vec fuel
    feed_room o c vec h more room rest =
        elim (feeds c (drop o input) vec (omega (arith, length-drop o input))) [
          | inl (fine, kept, took, wrote) ↦ feed_progress o c vec h more fine kept took wrote rest
          | inr (full, no_room, same, same_vec) ↦ absurd (omega arith)
        ]

    -- Without room there is none, and room is made.
    feed_call :
        (o : ℕ) (c : Compress) (vec : Vec)
        → Fed o c
        → o < length input
        → Rest o c
        → (fuel : ℕ) × Feeds c vec fuel
    feed_call o c vec h more rest =
        elim (feeds c (drop o input) vec (omega (arith, length-drop o input))) [
          | inl (fine, kept, took, wrote) ↦ feed_progress o c vec h more fine kept took wrote rest
          | inr (full, no_room, same, same_vec) ↦
              let (fuel, (done, marked, (returns, all, grown, (new, wrote)))) =
                feed_room o c (reserve 4096 vec) h more (reserve-lt 4095 vec) rest in
              (
                suc fuel,
                (
                  done,
                  marked,
                  (
                    feed_grown fuel o c vec h more full same same_vec ∙ returns,
                    all,
                    omega (arith, reserve-capacity 4096 vec),
                    (
                      new,
                      subst (λ b. Wrote (written c) (written done.0) b done.1.bytes new)
                          (reserve-bytes 4096 vec) wrote,
                    ),
                  ),
                ),
              )
        ]

    pub feed_total :
        (left output o : ℕ) (c : Compress) (vec : Vec)
        → Fed o c
        → length input ≤ o + left
        → held c ≤ output
        → (fuel : ℕ) × Feeds c vec fuel
    feed_total zero output o c vec h bound few = feed_ends o c vec h (omega (arith, h.1))
    feed_total (suc left) zero o c vec h bound few = elim (le-cases o (length input) h.1) [
      | inl all ↦ feed_ends o c vec h all
      | inr more ↦ feed_call o c vec h more (λ o' next vec' fed how.
          feed_total left (held next) o' next vec' fed (omega arith) (omega arith))
    ]
    feed_total (suc left) (suc output) o c vec h bound few = elim (le-cases o (length input) h.1) [
      | inl all ↦ feed_ends o c vec h all
      | inr more ↦ feed_call o c vec h more (λ o' next vec' fed how. elim how [
        | inl further ↦ feed_total left (held next) o' next vec' fed (omega arith) (omega arith)
        | inr (still, less) ↦
            feed_total (suc left) output o' next vec' fed (omega arith) (omega arith)
      ])
    ]
