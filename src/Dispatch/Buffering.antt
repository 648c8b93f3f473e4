-- ===== src/Dispatch/Buffering.antt =====
-- src/dispatch.rs: which clients keep an event for later.
use discord_gateway_proxy.Map.{get-insert}
use discord_gateway_proxy.Config.{ClientConfig}
use discord_gateway_proxy.State.Connections.{is_client_connected, connections}
use discord_gateway_proxy.Dispatch.{
  buffer_event_for_client, buffer_event_for_clients, is_client_connected, BufferedClientEvent,
  ClientConfig, wake_cooldown,
}
use discord_gateway_proxy.State.Limits.{should_wake_client}
use discord_gateway_proxy.State.Offline.{push_offline_event_for_client, push_bounded}
use discord_gateway_proxy.State.{Inner, BufferedClientEvent}
use discord_gateway_proxy.Map
use discord_gateway_proxy.Prelude.{
  nat_eq, str_eq, arith, none, some, [], ◌∷◌, false, Str, ℕ, List, Option, ◌≡◌, unwrap_or,
  if◌then◌else◌, Bool, str_beq, contains, Bool-cases, ◌&&◌, refl, not, inl, ap, str_beq_iff, inr,
  subst, ◌∙◌,
}

-- What is kept for a client.
abbrev pub kept : Inner → Str → List BufferedClientEvent
kept inner client_id = unwrap_or [] (Map.get inner.offline_event_buffers client_id)

-- Whether a client of the registry is to keep an event of a guild.
abbrev pub misses : Inner → ℕ → Str → Option ClientConfig → Bool
misses inner guild_id client_id none = false
misses inner guild_id client_id (some client) =
    contains client.guilds guild_id && not (is_client_connected inner client_id)

kept-push :
    (client_id other : Str) (event : BufferedClientEvent) (inner : Inner)
    → kept (push_offline_event_for_client client_id event inner) other ≡ (
        if str_beq client_id other then push_bounded (kept inner other) event else kept inner other)
unfolding push_offline_event_for_client
kept-push client_id other event inner = elim (Bool-cases (str_beq client_id other)) [
  | inl same ↦
      rw (get-insert, same)
        (ap (λ k. push_bounded (kept inner k) event) ((str_beq_iff client_id other).0 same))
  | inr different ↦ rw (get-insert, different)
]

kept-wake :
    (now cooldown : ℕ) (client_id other : Str) (inner : Inner)
    → kept (should_wake_client now cooldown client_id inner).1 other ≡ kept inner other
unfolding should_wake_client
kept-wake now cooldown client_id other inner = ground arith

kept-one :
    (now : ℕ) (event : BufferedClientEvent) (guild_id : ℕ) (client_id other : Str)
    (client : ClientConfig) (inner : Inner)
    → kept (buffer_event_for_client now event guild_id client_id client inner).0 other ≡ (
        if str_beq client_id other && misses inner guild_id client_id (some client)
        then push_bounded (kept inner other) event
        else kept inner other)
unfolding buffer_event_for_client
kept-one now event guild_id client_id other client inner = ground (
  arith,
  kept-wake now wake_cooldown client_id other (push_offline_event_for_client client_id event inner),
  kept-push client_id other event inner,
)

connected-one :
    (now : ℕ) (event : BufferedClientEvent) (guild_id : ℕ) (client_id other : Str)
    (client : ClientConfig) (inner : Inner)
    → is_client_connected
        (buffer_event_for_client now event guild_id client_id client inner).0
        other
      ≡ is_client_connected inner other
unfolding buffer_event_for_client should_wake_client push_offline_event_for_client
    is_client_connected connections
connected-one now event guild_id client_id other client inner = ground arith

misses-one :
    (now : ℕ) (event : BufferedClientEvent) (guild_id : ℕ) (client_id other : Str)
    (client : ClientConfig) (inner : Inner) (found : Option ClientConfig)
    → misses
        (buffer_event_for_client now event guild_id client_id client inner).0
        guild_id
        other
        found
      ≡ misses inner guild_id other found
misses-one now event guild_id client_id other client inner none = refl
misses-one now event guild_id client_id other client inner (some c) =
    rw (connected-one now event guild_id client_id other client inner)

-- An event of a guild is kept, once, for exactly the clients of the registry that have the guild and
-- no connection; what is kept for the others stays as it is.
pub buffer_event_for_clients_lem :
    (now : ℕ) (event : BufferedClientEvent) (guild_id : ℕ) (clients : Map.Map Str ClientConfig)
    (inner : Inner) (client_id : Str)
    → Map.Distinct clients
    → kept (buffer_event_for_clients now event guild_id clients inner).0 client_id ≡ (
        if misses inner guild_id client_id (Map.get clients client_id)
        then push_bounded (kept inner client_id) event
        else kept inner client_id)
unfolding buffer_event_for_clients Map.get
buffer_event_for_clients_lem now event guild_id [] inner client_id d = refl
buffer_event_for_clients_lem now event guild_id ((id, client) ∷ clients) inner client_id d =
    let after = (buffer_event_for_client now event guild_id id client inner).0 in
    let later = buffer_event_for_clients_lem now event guild_id clients after client_id d.1 in
    elim (Bool-cases (str_beq id client_id)) [
      | inl same ↦
          let absent =
            subst (λ k. Map.get clients k ≡ none) ((str_beq_iff id client_id).0 same) d.0 in
          rw same (
            later
            ∙ rw absent (
                kept-one now event guild_id id client_id client inner
                ∙ rw same (
                    ap
                      (λ k.
                        if misses inner guild_id k (some client)
                        then push_bounded (kept inner client_id) event
                        else kept inner client_id)
                      ((str_beq_iff id client_id).0 same))))
      | inr different ↦
          let unchanged : kept after client_id ≡ kept inner client_id =
            kept-one now event guild_id id client_id client inner ∙ rw different in
          rw different (
            later
            ∙ rw (
              misses-one now event guild_id id client_id client inner (Map.get clients client_id),
              unchanged,
            ))
    ]
