-- ===== src/State/Offline/Buffer.antt =====
-- The buffer of src/state.rs against its specification: the last events since the buffer was drained.
use discord_gateway_proxy.Map.{get-remove, get-insert}
use discord_gateway_proxy.Prelude.{
  nat_eq, str_eq, arith, ℕ, List, drop, ◌≤◌, length, ◌≡◌, ◌-◌, ◌++◌, ap, suc, ◌∷◌, zero, [], refl,
  Bool-cases, leb, inl, inr, length-append, ◌<◌, Str, if◌then◌else◌, unwrap_or, ◌∙◌, str_beq, true,
  Bool, sym, false, ◌+◌, some, str_beq_refl, drop-drop, length-drop,
}
use mathlib.Core.List.{append-nil, append_assoc}
use discord_gateway_proxy.Map
use discord_gateway_proxy.State.{Inner, BufferedClientEvent, offline_event_buffer_limit}
use discord_gateway_proxy.State.Offline.{
  push_bounded, push_offline_event_for_client, drain_offline_events_for_client,
}

module _ {ℓ} {A : Type ℓ} where
  -- The last `n` of a list, or all of it.
  unfoldable pub keep_last : ℕ → List A → List A
  keep_last n xs = drop (length xs - n) xs

  drop-append : (n : ℕ) (xs ys : List A) → n ≤ length xs → drop n (xs ++ ys) ≡ drop n xs ++ ys
  drop-append zero xs ys h = refl
  drop-append (suc n) [] ys h = absurd (omega arith)
  drop-append (suc n) (x ∷ xs) ys h = drop-append n xs ys (omega arith)

  length-keep_last : (n : ℕ) (xs : List A) → length (keep_last n xs) ≤ n
  unfolding keep_last
  length-keep_last n xs = omega (arith, length-drop (length xs - n) xs)

  keep_last-all : (n : ℕ) (xs : List A) → length xs ≤ n → keep_last n xs ≡ xs
  unfolding keep_last
  keep_last-all n xs h = ap (λ k. drop k xs) {y = 0} (omega arith)

  keep_last-snoc :
      (n : ℕ) (xs : List A) (x : A)
      → 0 < n
      → (if leb n (length (keep_last n xs)) then drop 1 (keep_last n xs) else keep_last n xs)
          ++ x ∷ []
        ≡ keep_last n (xs ++ x ∷ [])
  unfolding keep_last
  keep_last-snoc n xs x pos = elim (Bool-cases (leb n (length xs))) [
    | inl full ↦ rw (is_full full) (
        ap (λ ys. ys ++ x ∷ []) (drop-drop 1 (length xs - n) xs)
        ∙ sym (drop-append (length xs - n + 1) xs (x ∷ []) (one_more full))
        ∙ ap (λ k. drop k (xs ++ x ∷ [])) (next full))
    | inr room ↦ rw (has_room room) (
        ap (λ ys. ys ++ x ∷ []) (keep_last-all n xs (below room))
        ∙ sym (keep_last-all n (xs ++ x ∷ []) (still_below room)))
  ]
    where
      is_full : leb n (length xs) ≡ true → leb n (length (drop (length xs - n) xs)) ≡ true
      is_full h = ground (arith, length-drop (length xs - n) xs)

      one_more : leb n (length xs) ≡ true → length xs - n + 1 ≤ length xs
      one_more h = ground arith

      next : leb n (length xs) ≡ true → length xs - n + 1 ≡ length (xs ++ x ∷ []) - n
      next h = ground (arith, length-append xs (x ∷ []))

      has_room : leb n (length xs) ≡ false → leb n (length (drop (length xs - n) xs)) ≡ false
      has_room h = ground (arith, length-drop (length xs - n) xs)

      below : leb n (length xs) ≡ false → length xs ≤ n
      below h = ground arith

      still_below : leb n (length xs) ≡ false → length (xs ++ x ∷ []) ≤ n
      still_below h = ground (arith, length-append xs (x ∷ []))

-- What is kept for a client.
abbrev pub buffered : Inner → Str → List BufferedClientEvent
buffered s client_id = unwrap_or [] (Map.get s.offline_event_buffers client_id)

unfoldable pub push_all : Str → List BufferedClientEvent → Inner → Inner
push_all client_id [] s = s
push_all client_id (event ∷ events) s =
    push_all client_id events (push_offline_event_for_client client_id event s)

buffered-push :
    (client_id other : Str) (event : BufferedClientEvent) (s : Inner)
    → buffered (push_offline_event_for_client client_id event s) other ≡ (
        if str_beq client_id other
        then push_bounded (buffered s client_id) event
        else buffered s other)
unfolding push_offline_event_for_client
buffered-push client_id other event s = rw get-insert (distribute (str_beq client_id other))
  where
    distribute :
        (b : Bool)
        → unwrap_or [] (
            if b
            then some (push_bounded (buffered s client_id) event)
            else Map.get s.offline_event_buffers other)
          ≡ (if b then push_bounded (buffered s client_id) event else buffered s other)
    distribute true = refl
    distribute false = refl

push_all-buffered :
    (client_id : Str) (before events : List BufferedClientEvent) (s : Inner)
    → buffered s client_id ≡ keep_last offline_event_buffer_limit before
    → buffered (push_all client_id events s) client_id
      ≡ keep_last offline_event_buffer_limit (before ++ events)
unfolding push_all
push_all-buffered client_id before [] s h =
    h ∙ ap (keep_last offline_event_buffer_limit) (sym (append-nil before))
push_all-buffered client_id before (event ∷ events) s h =
    push_all-buffered client_id (before ++ event ∷ []) events _ (
      buffered-push client_id client_id event s
      ∙ rw (str_beq_refl client_id, h)
          (unfold push_bounded in
            keep_last-snoc offline_event_buffer_limit before event (omega arith)))
    ∙ ap (keep_last offline_event_buffer_limit) (append_assoc before (event ∷ []) events)

push_all-other :
    (client_id other : Str) (events : List BufferedClientEvent) (s : Inner)
    → str_beq client_id other ≡ false
    → buffered (push_all client_id events s) other ≡ buffered s other
unfolding push_all
push_all-other client_id other [] s ne = refl
push_all-other client_id other (event ∷ events) s ne =
    push_all-other client_id other events _ ne ∙ (buffered-push client_id other event s ∙ rw ne)

-- Draining a client that had nothing kept, after any events were pushed for it, gives the last 200
-- of them in order, leaves nothing, and changes nothing that is kept for another client.
pub drain-push_all :
    (client_id other : Str) (events : List BufferedClientEvent) (s : Inner)
    → buffered s client_id ≡ []
    → str_beq client_id other ≡ false
    → let (drained, t) = drain_offline_events_for_client client_id (push_all client_id events s) in
      (drained ≡ keep_last offline_event_buffer_limit events)
      × (buffered t client_id ≡ [])
      × (buffered t other ≡ buffered s other)
unfolding drain_offline_events_for_client
drain-push_all client_id other events s empty ne = (
  push_all-buffered client_id [] events s
      (empty ∙ sym (keep_last-all offline_event_buffer_limit [] (omega arith))),
  rw (get-remove, str_beq_refl client_id),
  rw (get-remove, ne) (push_all-other client_id other events s ne),
)
