-- ===== src/Gateway/Stream/Consecutive.antt =====
-- src/server.rs: a client reads consecutive sequence numbers, from READY to the last event.
use discord_gateway_proxy.Gateway.{replay, forward_events}
use discord_gateway_proxy.Gateway.Connection.{ForwardTask}
use discord_gateway_proxy.Clients.{Registry}
use discord_gateway_proxy.Json.{JsonObject}
use discord_gateway_proxy.Cache.{is_unavailable, is_authorized, Payload, get_ready_payload}
use discord_gateway_proxy.Deserializer.{u64_bound}
use discord_gateway_proxy.State.{CachedGuild, BufferedClientEvent, BroadcastMessage, Inner}
use discord_gateway_proxy.Cache.Guilds.{guild_payload, get_guild_payloads}
use discord_gateway_proxy.Gateway.Stream.Numbers.{
  Reads, Counts, Readable, Counts-append, unnumbered-Counts, next-Counts, replay-Counts,
  forward_events-Counts, Consecutive-le,
}
use discord_gateway_proxy.Gateway.Stream.{
  ShardSource, get_guild_payloads, send_start, Incoming, drained, forward_shard, JsonObject,
  Registry, ForwardTask, with_session_id, BufferedClientEvent, wait_until_ready, BroadcastMessage,
  replay, resumed, Inner,
}
use discord_gateway_proxy.Prelude.{
  Str, Option, ℕ, filter_map, ◌<◌, List, ◌≡◌, some, ◌∷◌, if-branches, [], refl, Bool, if◌then◌else◌,
  All, ◌+◌, option-branches, map_or, ◌++◌, arith, true, ◌∙◌, ap, false,
}

module _ (read : Str → Option ℕ) (shard : ShardSource) (reads : Reads read shard) where
  guild_payload-read :
      (guild : CachedGuild) (n : ℕ)
      → n < u64_bound
      → read (guild_payload shard.source guild n) ≡ some n
  unfolding guild_payload
  guild_payload-read guild n fits =
      if-branches (λ t. read t ≡ some n) (is_unavailable guild) (λ e. reads.reads_delete _ fits)
        (λ e. reads.reads_create _ fits)

  guild-Counts :
      (passed : Bool) (guild : CachedGuild) (seq : ℕ) (rest : ℕ → ℕ × List Str)
      → ((n : ℕ) → (rest n).0 < u64_bound → Counts read n (rest n))
      → let after : ℕ × List Str = rest (if passed then seq + 1 else seq) in
        let result : ℕ × List Str =
          if passed
          then (after.0, guild_payload shard.source guild (seq + 1) ∷ after.1)
          else (after.0, after.1) in
        result.0 < u64_bound → Counts read seq result
  guild-Counts true guild seq rest h fits =
      let after = rest (seq + 1) in
      let counted = h (seq + 1) fits in
      Counts-append read seq (seq + 1, guild_payload shard.source guild (seq + 1) ∷ []) after
        (next-Counts read seq _ (
          guild_payload-read guild (seq + 1) (
            omega
              (arith, fits, Consecutive-le (seq + 1) after.0 (filter_map read after.1) counted))))
        counted
  guild-Counts false guild seq rest h fits = h seq fits

  get_guild_payloads-Counts :
      (authorized_guilds : Option (List ℕ)) (guilds : List CachedGuild) (seq : ℕ)
      → (get_guild_payloads shard.source guilds seq authorized_guilds).0 < u64_bound
      → Counts read seq (get_guild_payloads shard.source guilds seq authorized_guilds)
  unfolding get_guild_payloads filter_map
  get_guild_payloads-Counts authorized_guilds [] seq fits = refl
  get_guild_payloads-Counts authorized_guilds (guild ∷ guilds) seq fits =
      guild-Counts (is_authorized authorized_guilds guild.id) guild seq
        (λ n. get_guild_payloads shard.source guilds n authorized_guilds)
        (get_guild_payloads-Counts authorized_guilds guilds) fits

  ready-Counts :
      (seq : ℕ) (payload : Payload JsonObject) (guilds : ℕ × List Str)
      → payload.s ≡ seq + 1
      → guilds.0 < u64_bound
      → Counts read (seq + 1) guilds
      → Counts read seq
          (guilds.0, map_or [] (λ text. text ∷ []) (shard.write_ready payload) ++ guilds.1)
  ready-Counts seq payload guilds e fits h =
      let (t, written) = reads.ready_written payload in
      rw written (
        Counts-append read seq (seq + 1, t ∷ []) guilds
          (next-Counts read seq t (
            reads.reads_ready payload t
              (omega
                (arith, e, fits, Consecutive-le (seq + 1) guilds.0 (filter_map read guilds.1) h))
              written
            ∙ ap some e))
          h)

  send_start-Counts :
      (task : ForwardTask) (ready : JsonObject)
      → (send_start shard task ready).0 < u64_bound
      → Counts read task.seq (send_start shard task ready)
  unfolding send_start get_ready_payload with_session_id
  send_start-Counts task ready =
      if-branches (λ (sent : ℕ × List Str). sent.0 < u64_bound → Counts read task.seq sent)
        task.send_guilds
        (λ new fits.
          let guilds =
            get_guild_payloads shard.source shard.source.resources.base.guilds (task.seq + 1)
              task.subscriber.authorized_guilds in
          ready-Counts task.seq _ guilds refl fits (
            get_guild_payloads-Counts task.subscriber.authorized_guilds
              shard.source.resources.base.guilds (task.seq + 1) fits))
        (λ old fits. unnumbered-Counts read task.seq resumed reads.reads_resumed)

  -- Every event that comes in is one whose number the client reads where the proxy found it.
  abbrev pub IsReadable : ForwardTask → Incoming → Inner → Type 0
  IsReadable task incoming inner =
      All (λ (e : Registry × BufferedClientEvent). Readable read e.1.payload e.1.sequence)
        (drained shard task.subscriber.client_id incoming.registry_at inner).0
      × All (λ (e : Registry × BroadcastMessage). Readable read e.1.payload e.1.sequence)
          incoming.events

  -- The numbers that a client reads of all that a connection sends it are consecutive: they start
  -- after the number of its task, which is 0 after IDENTIFY and the client's own after RESUME, and go
  -- through READY, the guilds, the buffered events and the live ones with no gap and no repetition,
  -- whatever was filtered out, as long as the counter fits 64 bits.
  pub forward_shard-Consecutive :
      (task : ForwardTask) (incoming : Incoming) (inner : Inner)
      → IsReadable task incoming inner
      → (forward_shard shard task incoming inner).0.0 < u64_bound
      → Counts read task.seq (forward_shard shard task incoming inner).0
  unfolding forward_shard filter_map
  forward_shard-Consecutive task incoming inner h =
      option-branches (λ (r : (ℕ × List Str) × Inner). r.0.0 < u64_bound → Counts read task.seq r.0)
        (wait_until_ready incoming.ready) (λ dropped fits. refl)
        (λ ready e fits.
          let start = send_start shard task ready in
          let buffered = (drained shard task.subscriber.client_id incoming.registry_at inner).0 in
          let old = replay task.subscriber start.0 buffered in
          let new = forward_events task.subscriber old.0 incoming.events in
          let new_counts =
            forward_events-Counts read task.subscriber old.0 incoming.events h.1 fits in
          let old_fits : old.0 < u64_bound =
            omega (arith, fits, Consecutive-le old.0 new.0 (filter_map read new.1) new_counts) in
          let old_counts = replay-Counts read task.subscriber start.0 buffered h.0 old_fits in
          Counts-append read task.seq start (new.0, old.1 ++ new.1)
            (send_start-Counts task ready (
              omega
                (arith, old_fits, Consecutive-le start.0 old.0 (filter_map read old.1) old_counts)))
            (Counts-append read start.0 old new old_counts new_counts))
