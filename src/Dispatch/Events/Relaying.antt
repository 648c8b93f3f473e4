-- ===== src/Dispatch/Events/Relaying.antt =====
-- src/dispatch.rs: a turn of the loop over a shard's messages follows the abstract machine.
use discord_gateway_proxy.Dispatch.Events.Broadcast.{
  Relayed, on_shard-Relayed, send-Relayed, same-Relayed, store_bot_user_id-shards,
  track_bot_voice_state-shards, buffered-shards,
}
use discord_gateway_proxy.Dispatch.Events.Machine.{
  Step, is_invalid, machine_event, machine_parsed, machine_turn,
}
use mathlib.Core.List.{append-nil}
use discord_gateway_proxy.Deserializer.{from_json, GatewayEvent}
use discord_gateway_proxy.Config.{Config}
use discord_gateway_proxy.Dispatch.{
  track_bot_voice_state, Inner, WakeTarget, buffer_event_for_disconnected_clients, audience_for,
  should_buffer_event,
}
use discord_gateway_proxy.State.{BroadcastMessage, Inner}
use discord_gateway_proxy.Prelude.{
  true, false, none, some, [], ◌∷◌, str_eq, nat_eq, ℕ, List, Str, Option, ◌≡◌, ◌++◌, ◌∙◌, refl,
  if-branches, not, arith, Bool, ◌&&◌, if◌then◌else◌, str_beq, sym, codes, nat_beq, if-both,
  option-both,
}
use discord_gateway_proxy.Dispatch.Events.{
  text, close, failed, ended, continues, returns, panics, BroadcastMessage, on_shard,
  store_bot_user_id, track_bot_voice_state, send, Parsed, Readers, ShardMessage, Moment, Turned,
  relay_event, on_parsed, Relay, on_event, then_parsed, turn, set_ready, event_name_of, blank_ready,
}

module _ (readers : Readers) (config : Config) (index : ℕ) (moment : Moment)
    (payloads : List Str) where
  abbrev Follows : Step → Turned → Type 0
  Follows step result =
      (result.0 ≡ step.0)
      × (result.1.is_ready ≡ step.1)
      × Relayed index result.1.inner (payloads ++ step.2)

  silent : (inner : Inner) → Relayed index inner payloads → Relayed index inner (payloads ++ [])
  silent inner (shard, at, e) = (shard, at, e ∙ sym (append-nil payloads))

  relay_event-Relayed :
      (payload event_name : Str) (event : GatewayEvent) (relay : Relay)
      → Relayed index relay.inner payloads
      → Relayed index
          (relay_event readers config index moment payload event_name event relay).inner
          (payloads ++ payload ∷ [])
  unfolding relay_event
  relay_event-Relayed payload event_name event relay h =
      let tracked : Inner =
        if str_beq event_name (codes "VOICE_STATE_UPDATE")
        then track_bot_voice_state readers.read_voice payload event.guild_id relay.inner
        else relay.inner in
      let message : BroadcastMessage = record {
        payload = payload;
        sequence = event.sequence;
        guild_id = event.guild_id;
        audience = audience_for moment.registry tracked event_name event.guild_id;
      } in
      let broadcast = on_shard index (send message) tracked in
      let buffered : Inner × List WakeTarget =
        if should_buffer_event event_name
        then buffer_event_for_disconnected_clients moment.now moment.registry payload event.sequence
            event.guild_id broadcast
        else (broadcast, []) in
      same-Relayed index broadcast buffered.0 (payloads ++ payload ∷ [])
        (if-branches (λ (r : Inner × List WakeTarget). r.0.shards ≡ broadcast.shards)
          (should_buffer_event event_name)
          (λ e.
            buffered-shards moment.now moment.registry payload event.sequence event.guild_id
              broadcast)
          (λ e. refl))
        (send-Relayed index message tracked payloads (
          same-Relayed index relay.inner tracked payloads
            (if-branches (λ (i : Inner). i.shards ≡ relay.inner.shards)
              (str_beq event_name (codes "VOICE_STATE_UPDATE"))
              (λ e.
                track_bot_voice_state-shards readers.read_voice payload event.guild_id relay.inner)
              (λ e. refl))
            h))

  on_parsed-Relayed :
      (parsed : Parsed) (relay : Relay) (relayed : List Str)
      → Relayed index relay.inner relayed
      → Relayed index (on_parsed readers config index moment parsed relay).inner relayed
  unfolding on_parsed
  on_parsed-Relayed (Parsed.dispatch update) relay relayed h =
      on_shard-Relayed index _ relay.inner relayed (λ shard. refl) h
  on_parsed-Relayed (Parsed.invalidate_session true) relay relayed h = h
  on_parsed-Relayed (Parsed.invalidate_session false) relay relayed h =
      on_shard-Relayed index _ relay.inner relayed (λ shard. refl) h
  on_parsed-Relayed Parsed.other_event relay relayed h = h
  on_parsed-Relayed Parsed.skipped relay relayed h = h

  on_event-Follows :
      (payload : Str) (event_name : Option Str) (event : GatewayEvent) (relay : Relay)
      → Relayed index relay.inner payloads
      → Follows
          (machine_event readers relay.is_ready payload event_name event.op.op)
          (on_event readers config index moment payload event_name event relay)
  unfolding on_event machine_event
  on_event-Follows payload none event relay h = (refl, refl, silent relay.inner h)
  on_event-Follows payload (some event_name) event relay h =
      if-both Follows (str_beq event_name (codes "READY"))
        (λ e.
          option-both Follows (readers.read_ready payload)
            (λ bad. (refl, refl, silent relay.inner h))
            (λ ready read.
              let known = store_bot_user_id (readers.read_ready_user payload) relay.inner in
              (
                refl,
                refl,
                silent (on_shard index (set_ready (blank_ready config ready)) known) (
                    on_shard-Relayed index (set_ready (blank_ready config ready)) known payloads
                      (λ shard. refl)
                      (same-Relayed index relay.inner known payloads
                        (store_bot_user_id-shards (readers.read_ready_user payload) relay.inner)
                        h)),
              )))
        (λ e.
          if-both Follows (str_beq event_name (codes "RESUMED"))
            (λ e. (refl, refl, silent relay.inner h))
            (λ e.
              if-both Follows (nat_beq event.op.op 0 && relay.is_ready)
                (λ e. (refl, refl, relay_event-Relayed payload event_name event relay h))
                (λ e. (refl, refl, silent relay.inner h))))

  parsed-ready :
      (ready : Bool) (parsed : Parsed) (relay : Relay)
      → relay.is_ready ≡ ready
      → (on_parsed readers config index moment parsed relay).is_ready
        ≡ (ready && not (is_invalid parsed))
  unfolding on_parsed
  parsed-ready ready (Parsed.dispatch update) relay h = ground (arith, h)
  parsed-ready ready (Parsed.invalidate_session can_resume) relay h = ground (arith, h)
  parsed-ready ready Parsed.other_event relay h = ground (arith, h)
  parsed-ready ready Parsed.skipped relay h = ground (arith, h)

  then_parsed-Follows :
      (payload : Str) (step : Step) (result : Turned)
      → Follows step result
      → Follows
          (machine_parsed readers payload step)
          (then_parsed readers config index moment payload result)
  then_parsed-Follows payload (continues, ready, relayed) (continues, relay) h = (
    refl,
    parsed-ready ready (readers.parse payload) relay h.1,
    on_parsed-Relayed (readers.parse payload) relay (payloads ++ relayed) h.2,
  )
  then_parsed-Follows payload (continues, ready, relayed) (returns, relay) h = cc h.0
  then_parsed-Follows payload (continues, ready, relayed) (panics, relay) h = cc h.0
  then_parsed-Follows payload (returns, ready, relayed) (continues, relay) h = cc h.0
  then_parsed-Follows payload (returns, ready, relayed) (returns, relay) h = h
  then_parsed-Follows payload (returns, ready, relayed) (panics, relay) h = cc h.0
  then_parsed-Follows payload (panics, ready, relayed) (continues, relay) h = cc h.0
  then_parsed-Follows payload (panics, ready, relayed) (returns, relay) h = cc h.0
  then_parsed-Follows payload (panics, ready, relayed) (panics, relay) h = h

  pub turn-Follows :
      (message : ShardMessage) (relay : Relay)
      → Relayed index relay.inner payloads
      → Follows
          (machine_turn readers moment.shutdown relay.is_ready message)
          (turn readers config index moment message relay)
  unfolding turn machine_turn
  turn-Follows (text payload) relay h =
      option-both Follows (from_json payload) (λ bad. (refl, refl, silent relay.inner h))
        (λ event read.
          then_parsed-Follows payload
            (machine_event readers relay.is_ready payload
              (event_name_of readers config index moment event) event.op.op)
            (on_event readers config index moment payload
              (event_name_of readers config index moment event) event relay)
            (on_event-Follows payload (event_name_of readers config index moment event) event relay
              h))
  turn-Follows close relay h =
      if-both Follows moment.shutdown (λ e. (refl, refl, silent relay.inner h))
        (λ e. (refl, refl, silent relay.inner h))
  turn-Follows failed relay h = (refl, refl, silent relay.inner h)
  turn-Follows ended relay h = (refl, refl, silent relay.inner h)
