-- ===== src/Gateway/Stream/Numbers.antt =====
-- src/server.rs: the sequence numbers that a client reads.
use discord_gateway_proxy.State.{BufferedClientEvent, BroadcastMessage}
use discord_gateway_proxy.Text.Number.{to_string}
use discord_gateway_proxy.Clients.{Registry}
use discord_gateway_proxy.Cache.Guilds.{Guild}
use discord_gateway_proxy.Text.Search.{replace_range}
use discord_gateway_proxy.Json.{JsonObject}
use discord_gateway_proxy.Cache.{Payload, GuildDelete}
use discord_gateway_proxy.Gateway.{
  renumber, Subscriber, replay, forward_events, replay_event, forward_event, replace_range,
  Registry, to_string, BufferedClientEvent, BroadcastMessage, guild_passes, audience_passes,
}
use discord_gateway_proxy.Gateway.Stream.{ShardSource, Payload, JsonObject, resumed}
use discord_gateway_proxy.Deserializer.{SequenceInfo, u64_bound}
use discord_gateway_proxy.Prelude.{
  ℕ, filter_map, Str, List, Option, ◌≡◌, ◌++◌, ◌∷◌, subst, ◌+◌, sym, [], refl, arith, ◌≤◌, Bool,
  some, ◌<◌, if◌then◌else◌, none, true, All, ◌&&◌, false,
}

-- The numbers run from `seq` on, one after the other, up to `last`.
abbrev pub Consecutive : ℕ → List ℕ → ℕ → Type 0
Consecutive seq [] last = seq ≡ last
Consecutive seq (n ∷ numbers) last = (n ≡ seq + 1) × Consecutive (seq + 1) numbers last

Consecutive-append :
    (a b c : ℕ) (xs ys : List ℕ)
    → Consecutive a xs b
    → Consecutive b ys c
    → Consecutive a (xs ++ ys) c
Consecutive-append a b c [] ys h k = subst (λ n. Consecutive n ys c) (sym h) k
Consecutive-append a b c (x ∷ xs) ys h k = (h.0, Consecutive-append (a + 1) b c xs ys h.1 k)

filter_map-append :
    (read : Str → Option ℕ) (xs ys : List Str)
    → filter_map read (xs ++ ys) ≡ filter_map read xs ++ filter_map read ys
unfolding filter_map
filter_map-append read [] ys = refl
filter_map-append read (x ∷ xs) ys = ground (arith, filter_map-append read xs ys)

-- What is sent so far, and the counter.
abbrev pub Counts : (Str → Option ℕ) → ℕ → ℕ × List Str → Type 0
Counts read seq sent = Consecutive seq (filter_map read sent.1) sent.0

pub Consecutive-le : (a b : ℕ) (xs : List ℕ) → Consecutive a xs b → a ≤ b
Consecutive-le a b [] h = omega (arith, h)
Consecutive-le a b (x ∷ xs) h = omega (arith, Consecutive-le (a + 1) b xs h.1)

-- An event is readable if a client finds no number in it where the proxy found none, and finds the
-- number that the proxy writes where it found one.
abbrev pub Readable : (Str → Option ℕ) → Str → Option SequenceInfo → Type 0
Readable read payload none = read payload ≡ none
Readable read payload (some info) =
    (n : ℕ)
    → n < u64_bound
    → read (replace_range info.range.start info.range.stop (to_string n) payload) ≡ some n

-- What a client's JSON parser reads of the payloads that the JSON library of the proxy writes.
pub record Reads (read : Str → Option ℕ) (shard : ShardSource) : Type 0 where
  pub ready_written :
      (payload : Payload JsonObject) → (t : Str) × (shard.write_ready payload ≡ some t)
  pub reads_ready :
      (payload : Payload JsonObject) (t : Str)
      → payload.s < u64_bound
      → shard.write_ready payload ≡ some t
      → read t ≡ some payload.s
  pub reads_create :
      (payload : Payload Guild)
      → payload.s < u64_bound
      → read (shard.source.write_create payload) ≡ some payload.s
  pub reads_delete :
      (payload : Payload GuildDelete)
      → payload.s < u64_bound
      → read (shard.source.write_delete payload) ≡ some payload.s
  pub reads_resumed : read resumed ≡ none

module _ (read : Str → Option ℕ) where
  pub Counts-append :
      (a : ℕ) (x y : ℕ × List Str)
      → Counts read a x
      → Counts read x.0 y
      → Counts read a (y.0, x.1 ++ y.1)
  Counts-append a x y h k =
      subst (λ numbers. Consecutive a numbers y.0) (sym (filter_map-append read x.1 y.1))
        (Consecutive-append a x.0 y.0 (filter_map read x.1) (filter_map read y.1) h k)

  pub unnumbered-Counts : (seq : ℕ) (t : Str) → read t ≡ none → Counts read seq (seq, t ∷ [])
  unfolding filter_map
  unnumbered-Counts seq t h = rw (h, filter_map) refl

  pub next-Counts :
      (seq : ℕ) (t : Str) → read t ≡ some (seq + 1) → Counts read seq (seq + 1, t ∷ [])
  unfolding filter_map
  next-Counts seq t h = rw (h, filter_map) (refl, refl)

  renumber-Counts :
      (seq : ℕ) (payload : Str) (sequence : Option SequenceInfo)
      → Readable read payload sequence
      → (renumber seq payload sequence).0 < u64_bound
      → Counts read seq ((renumber seq payload sequence).0, (renumber seq payload sequence).1 ∷ [])
  unfolding renumber filter_map
  renumber-Counts seq payload none h fits = unnumbered-Counts seq payload h
  renumber-Counts seq payload (some info) h fits = next-Counts seq _ (h (seq + 1) fits)

  passed-Counts :
      (passes : Bool) (seq : ℕ) (payload : Str) (sequence : Option SequenceInfo)
      → Readable read payload sequence
      → let sent : ℕ × List Str =
          if passes
          then ((renumber seq payload sequence).0, (renumber seq payload sequence).1 ∷ [])
          else (seq, []) in
        sent.0 < u64_bound → Counts read seq sent
  unfolding filter_map
  passed-Counts true seq payload sequence h fits = renumber-Counts seq payload sequence h fits
  passed-Counts false seq payload sequence h fits = refl

  module _ (subscriber : Subscriber) where
    pub replay-Counts :
        (seq : ℕ) (events : List (Registry × BufferedClientEvent))
        → All
            (λ (e : Registry × BufferedClientEvent). Readable read e.1.payload e.1.sequence)
            events
        → (replay subscriber seq events).0 < u64_bound
        → Counts read seq (replay subscriber seq events)
    unfolding replay replay_event filter_map
    replay-Counts seq [] h fits = refl
    replay-Counts seq ((registry, event) ∷ events) h fits =
        let sent = replay_event registry subscriber seq event in
        let rest = replay subscriber sent.0 events in
        let counted = replay-Counts sent.0 events h.1 fits in
        Counts-append seq sent rest
          (passed-Counts (guild_passes registry subscriber event.guild_id) seq event.payload
            event.sequence h.0
            (omega (arith, fits, Consecutive-le sent.0 rest.0 (filter_map read rest.1) counted)))
          counted

    pub forward_events-Counts :
        (seq : ℕ) (events : List (Registry × BroadcastMessage))
        → All (λ (e : Registry × BroadcastMessage). Readable read e.1.payload e.1.sequence) events
        → (forward_events subscriber seq events).0 < u64_bound
        → Counts read seq (forward_events subscriber seq events)
    unfolding forward_events forward_event filter_map
    forward_events-Counts seq [] h fits = refl
    forward_events-Counts seq ((registry, event) ∷ events) h fits =
        let sent = forward_event registry subscriber seq event in
        let rest = forward_events subscriber sent.0 events in
        let counted = forward_events-Counts sent.0 events h.1 fits in
        Counts-append seq sent rest
          (passed-Counts
            (audience_passes subscriber event.audience
              && guild_passes registry subscriber event.guild_id)
            seq event.payload event.sequence h.0
            (omega (arith, fits, Consecutive-le sent.0 rest.0 (filter_map read rest.1) counted)))
          counted
