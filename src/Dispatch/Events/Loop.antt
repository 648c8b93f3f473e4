-- ===== src/Dispatch/Events/Loop.antt =====
-- src/dispatch.rs: the loop over a shard's messages refines the abstract machine of Machine.
use discord_gateway_proxy.State.{Inner}
use discord_gateway_proxy.Config.{Config}
use discord_gateway_proxy.Prelude.{Bool, List, ℕ, Str, ◌∷◌, All, ◌++◌, [], ◌∙◌, sym, subst}
use discord_gateway_proxy.Dispatch.Events.Relaying.{turn-Follows}
use discord_gateway_proxy.Dispatch.Events.Machine.{machine_turn}
use discord_gateway_proxy.Dispatch.Events.Broadcast.{Relayed}
use discord_gateway_proxy.Dispatch.Events.{
  continues, returns, panics, Readers, Config, Arrival, events, Flow, Relay, Inner, turn,
}
use mathlib.Core.List.{append-nil, append_assoc}

-- What a list gives if the loop goes on.
abbrev pub continued : Flow → List Str → List Str
continued continues rest = rest
continued returns rest = []
continued panics rest = []

module _ (readers : Readers) where
  -- All that the abstract machine relays.
  unfoldable pub machine : Bool → List Arrival → List Str
  unfolding machine_turn
  machine ready [] = []
  machine ready (arrival ∷ arrivals) =
      let (flow, after, relayed) =
        machine_turn readers arrival.moment.shutdown ready arrival.message in
      let rest = machine after arrivals in relayed ++ continued flow rest

  module _ (config : Config) (index : ℕ) where
    -- No other task broadcasts on the shard.
    abbrev pub Undisturbed : List Arrival → Type 0
    Undisturbed arrivals =
        All
          (λ (a : Arrival).
            (inner : Inner) (payloads : List Str)
            → Relayed index inner payloads
            → Relayed index (a.meanwhile inner) payloads)
          arrivals

    ended-Relayed :
        (payloads relayed more : List Str) (flow : Flow) (after last : Relay)
        → Relayed index after.inner (payloads ++ relayed)
        → Relayed index last.inner ((payloads ++ relayed) ++ more)
        → let final : Relay = elim flow [ continues ↦ last | returns ↦ after | panics ↦ after ] in
          Relayed index final.inner (payloads ++ (relayed ++ continued flow more))
    ended-Relayed payloads relayed more continues after last h k =
        subst (λ l. Relayed index last.inner l) (append_assoc payloads relayed more) k
    ended-Relayed payloads relayed more returns after last h k =
        subst (λ l. Relayed index after.inner (payloads ++ l)) (sym (append-nil relayed)) h
    ended-Relayed payloads relayed more panics after last h k =
        subst (λ l. Relayed index after.inner (payloads ++ l)) (sym (append-nil relayed)) h

    -- What the loop broadcasts on its shard, from whatever state it is in, is what the abstract
    -- machine relays: nothing before READY or RESUMED, neither of these two, nothing from the end of
    -- the session to the next of them, and every other dispatched event as it came, in order and
    -- once. The voice states, buffers and wakes on the way change nothing of it.
    pub events-refines :
        (arrivals : List Arrival) (relay : Relay) (payloads : List Str)
        → Undisturbed arrivals
        → Relayed index relay.inner payloads
        → Relayed index
            (events readers config index relay arrivals).inner
            (payloads ++ machine relay.is_ready arrivals)
    unfolding events machine
    events-refines [] relay payloads u (shard, at, e) = (shard, at, e ∙ sym (append-nil payloads))
    events-refines (arrival ∷ arrivals) relay payloads u h =
        let met : Relay = record relay { inner = arrival.meanwhile relay.inner } in
        let (same, ready, relayed) =
          turn-Follows readers config index arrival.moment payloads arrival.message met
            (u.0 relay.inner payloads h) in
        let step = machine_turn readers arrival.moment.shutdown relay.is_ready arrival.message in
        let result = turn readers config index arrival.moment arrival.message met in
        let last = events readers config index result.1 arrivals in
        let final : Relay = elim result.0 [
          | continues ↦ last
          | returns ↦ result.1
          | panics ↦ result.1
        ] in
        subst
          (λ flow.
            Relayed index final.inner
              (payloads ++ (step.2 ++ continued flow (machine step.1 arrivals))))
          same
          (ended-Relayed payloads step.2 (machine step.1 arrivals) result.0 result.1 last relayed (
            subst (λ r. Relayed index last.inner ((payloads ++ step.2) ++ machine r arrivals)) ready
              (events-refines arrivals result.1 (payloads ++ step.2) u.1 relayed)))
