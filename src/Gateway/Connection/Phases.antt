-- ===== src/Gateway/Connection/Phases.antt =====
-- src/server.rs: the protocol that a connection keeps to, as an abstract machine of two phases.
use discord_gateway_proxy.State.{principal_beq, SessionPrincipal}
use discord_gateway_proxy.Gateway.Connection.Cases.{Authenticates}
use discord_gateway_proxy.Auth.{AuthContext}
use discord_gateway_proxy.Config.{Config}
use discord_gateway_proxy.Prelude.{
  Option, ◌≡◌, Str, true, none, List, false, ℕ, some, refl, ap, str_beq_iff,
}
use discord_gateway_proxy.Gateway.Connection.{
  ForwardTask, Connection, Messages, Moment, Turned, client_of, continues, now_active,
  SessionPrincipal,
}

-- A connection is fresh, or serves the one task that it has started.
pub data Phase : Type 0 where
  fresh : Phase
  serving : ForwardTask → Phase

abbrev pub Stands : Phase → Connection → Type 0
Stands fresh connection =
    (connection.compress_tx ≡ true)
    × (connection.shard_forward_task ≡ none)
    × (connection.shard_sender ≡ none)
    × (connection.command_scope ≡ none)
    × (connection.active_client_id ≡ none)
Stands (serving task) connection =
    (connection.compress_tx ≡ false)
    × (connection.shard_forward_task ≡ some task)
    × (connection.shard_sender ≡ some task.shard)
    × (connection.command_scope ≡ task.subscriber.client_id)
    × (connection.active_client_id ≡ task.subscriber.client_id)

-- The guilds of a client's task are those of its token; any other task may see every event.
abbrev pub SeesOnly : Option Str → AuthContext → Option (List ℕ) → Type 0
SeesOnly none context guilds = Unit
SeesOnly (some client_id) context guilds = guilds ≡ context.authorized_guilds

pub now_active_fresh :
    (active client : Option Str) → active ≡ none → now_active active client ≡ client
unfolding now_active
now_active_fresh none client h = refl
now_active_fresh (some active) client h = cc h

pub own_guilds :
    (client : Option Str) (context : AuthContext)
    → SeesOnly client context context.authorized_guilds
own_guilds none context = tt
own_guilds (some client_id) context = refl

pub resumed_own :
    (client : Option Str) (context : AuthContext) (guilds : Option (List ℕ))
    → SeesOnly client context
        (elim client [ none ↦ guilds | some client_id ↦ context.authorized_guilds ])
resumed_own none context guilds = tt
resumed_own (some client_id) context guilds = refl

pub principal_beq-eq : (p q : SessionPrincipal) → principal_beq p q ≡ true → p ≡ q
unfolding principal_beq
principal_beq-eq SessionPrincipal.bot_token SessionPrincipal.bot_token h = refl
principal_beq-eq SessionPrincipal.bot_token (SessionPrincipal.client b) h = cc h
principal_beq-eq SessionPrincipal.bot_token (SessionPrincipal.unvalidated b) h = cc h
principal_beq-eq (SessionPrincipal.client a) SessionPrincipal.bot_token h = cc h
principal_beq-eq (SessionPrincipal.client a) (SessionPrincipal.client b) h =
    ap (λ c. SessionPrincipal.client c) ((str_beq_iff a b).0 h)
principal_beq-eq (SessionPrincipal.client a) (SessionPrincipal.unvalidated b) h = cc h
principal_beq-eq (SessionPrincipal.unvalidated a) SessionPrincipal.bot_token h = cc h
principal_beq-eq (SessionPrincipal.unvalidated a) (SessionPrincipal.client b) h = cc h
principal_beq-eq (SessionPrincipal.unvalidated a) (SessionPrincipal.unvalidated b) h =
    ap (λ c. SessionPrincipal.unvalidated c) ((str_beq_iff a b).0 h)

module _ (messages : Messages) (config : Config) where
  -- A token is accepted at this moment, and the task is of the principal that it stands for.
  abbrev pub Earned : Moment → ForwardTask → Type 0
  Earned moment task =
      (token : Str) × (context : AuthContext) × Authenticates messages config moment token context
      × (task.subscriber.client_id ≡ client_of context.principal)
      × SeesOnly task.subscriber.client_id context task.subscriber.authorized_guilds

  -- What the abstract machine can do at one moment.
  pub data Move (moment : Moment) : Phase → Phase → Type 0 where
    stays : (phase : Phase) → Move moment phase phase
    earns : (task : ForwardTask) → Earned moment task → Move moment fresh (serving task)

  -- What a turn that goes on has done of the protocol.
  abbrev pub Refines : Moment → Phase → Turned → Type 0
  Refines moment phase result =
      result.flow ≡ continues
      → (phase' : Phase) × Stands phase' result.connection × Move moment phase phase'
