-- ===== src/Gateway/Connection/Cases.antt =====
-- src/server.rs: the ways in which a turn of `handle_client` can go, as one case rule. What holds of
-- each way holds of every turn.
use discord_gateway_proxy.Deserializer.{from_json}
use discord_gateway_proxy.Clients.{client_guilds}
use discord_gateway_proxy.Gateway.{filter_client_command}
use discord_gateway_proxy.Gateway.Connection.Turns.{
  on_identify, on_resume, on_command, check_identify, find_session, on_heartbeat, start_session,
  filtered_command, on_op, turn,
}
use discord_gateway_proxy.State.{Inner}
use discord_gateway_proxy.Auth.{
  AuthContext, authenticate_gateway_token, normalize_gateway_token, GatewayAuthResult,
}
use discord_gateway_proxy.Prelude.{
  Str, ◌≡◌, ℕ, true, List, codes, ◌∷◌, [], ◌<◌, some, none, unwrap_or, refl, Bool, not, if-branches,
  option-branches, false, nat_beq, arith, leb,
}
use discord_gateway_proxy.Config.{Config}
use discord_gateway_proxy.Gateway.Connection.{
  Messages, Moment, Turned, Connection, Inner, Flow, turned, breaks, IdentifyInfo, continues, close,
  Message, close_with, ResumeInfo, send_at, Wakeup, text_message, binary_message, stream_ended,
  sink_ended, heartbeat_elapsed,
}

pub not-not : (b : Bool) → not b ≡ false → b ≡ true
not-not b h = ground arith

in_range :
    (id count shard_count : ℕ)
    → not (nat_beq count shard_count) ≡ false
    → leb count id ≡ false
    → id < shard_count
in_range id count shard_count matched within = ground arith

module _ (messages : Messages) (config : Config) (moment : Moment) where
  abbrev pub Authenticates : Str → AuthContext → Type 0
  Authenticates token context =
      authenticate_gateway_token config moment.registry (normalize_gateway_token token)
      ≡ GatewayAuthResult.ok context

  pub record Cases (P : Turned → Type 0) (connection : Connection) (inner : Inner) : Type 0 where
    pub unchanged : (flow : Flow) → P (turned flow connection inner)
    pub sink_gone : P (turned breaks (record connection { sink_done = true }) inner)
    pub closes : (sent : List Message) → P (close_with sent connection inner)
    pub heartbeat : P (on_heartbeat messages config moment connection inner)
    pub starts :
        (identify : IdentifyInfo) (context : AuthContext)
        → connection.compress_tx ≡ true
        → identify.shard_id < inner.shard_count
        → Authenticates identify.token context
        → P (start_session messages config moment identify context connection inner)
    pub finds :
        (resume : ResumeInfo) (context : AuthContext)
        → Authenticates resume.token context
        → P (find_session messages config moment resume context connection inner)
    pub passes :
        (index : ℕ) (payload : Str)
        → connection.shard_sender ≡ some index
        → connection.command_scope ≡ none
        → P (
            turned continues connection
              (record inner { shards = send_at index payload inner.shards }))
    pub filters :
        (index : ℕ) (op : ℕ) (payload : Str) (client_id : Str)
        → connection.shard_sender ≡ some index
        → connection.command_scope ≡ some client_id
        → P (
            turned continues connection (
              filtered_command messages config moment client_id
                (filter_client_command messages.commands op payload
                  (unwrap_or [] (client_guilds moment.registry client_id)))
                inner))

  module _ (P : Turned → Type 0) (connection : Connection) (inner : Inner)
      (cases : Cases P connection inner) where
    -- The three arms on the result of the authentication.
    authenticated-cases :
        (result : GatewayAuthResult) (served : AuthContext → Turned)
        → ((context : AuthContext) → result ≡ GatewayAuthResult.ok context → P (served context))
        → P (elim result [
          | GatewayAuthResult.ok context ↦ served context
          | GatewayAuthResult.stale ↦ turned breaks connection inner
          | GatewayAuthResult.invalid ↦ turned breaks connection inner
        ])
    authenticated-cases (GatewayAuthResult.ok context) served h = h context refl
    authenticated-cases GatewayAuthResult.stale served h = cases.unchanged breaks
    authenticated-cases GatewayAuthResult.invalid served h = cases.unchanged breaks

    on_identify-cases :
        (payload : Str) → P (on_identify messages config moment payload connection inner)
    unfolding on_identify check_identify
    on_identify-cases payload =
        if-branches P (not connection.compress_tx) (λ taken. cases.unchanged breaks)
          (λ there.
            option-branches P (messages.read_identify payload) (λ bad. cases.unchanged continues)
              (λ identify read.
                if-branches P (not (nat_beq identify.shard_count inner.shard_count))
                  (λ mismatched. cases.unchanged breaks)
                  (λ matched.
                    if-branches P (leb identify.shard_count identify.shard_id)
                      (λ out. cases.unchanged breaks)
                      (λ within.
                        authenticated-cases
                          (authenticate_gateway_token config moment.registry
                            (normalize_gateway_token identify.token))
                          (λ context.
                            start_session messages config moment identify context connection inner)
                          (λ context e.
                            cases.starts identify context (not-not connection.compress_tx there)
                              (in_range identify.shard_id identify.shard_count inner.shard_count
                                matched within)
                              e)))))

    on_resume-cases :
        (payload : Str) → P (on_resume messages config moment payload connection inner)
    unfolding on_resume
    on_resume-cases payload =
        option-branches P (messages.read_resume payload) (λ bad. cases.unchanged continues)
          (λ resume read.
            authenticated-cases
              (authenticate_gateway_token config moment.registry
                (normalize_gateway_token resume.token))
              (λ context. find_session messages config moment resume context connection inner)
              (λ context e. cases.finds resume context e))

    on_command-cases :
        (op : ℕ) (payload : Str) → P (on_command messages config moment op payload connection inner)
    unfolding on_command
    on_command-cases op payload =
        option-branches P connection.shard_sender
          (λ fresh. cases.closes (close 4003 (codes "not authenticated") ∷ []))
          (λ index sender.
            option-branches P connection.command_scope
              (λ open_scope. cases.passes index payload sender open_scope)
              (λ client_id scope. cases.filters index op payload client_id sender scope))

    on_op-cases :
        (op : ℕ) (payload : Str) → P (on_op messages config moment op payload connection inner)
    unfolding on_op
    on_op-cases op payload =
        if-branches P (nat_beq op 1) (λ e. cases.heartbeat)
          (λ e.
            if-branches P (nat_beq op 2) (λ e. on_identify-cases payload)
              (λ e.
                if-branches P (nat_beq op 6) (λ e. on_resume-cases payload)
                  (λ e. on_command-cases op payload)))

    pub turn-cases : (wakeup : Wakeup) → P (turn messages config moment wakeup connection inner)
    unfolding turn
    turn-cases (text_message payload) =
        option-branches P (from_json payload) (λ e. cases.unchanged continues)
          (λ event e. on_op-cases event.op.op payload)
    turn-cases binary_message = cases.unchanged continues
    turn-cases stream_ended = cases.unchanged breaks
    turn-cases sink_ended = cases.sink_gone
    turn-cases heartbeat_elapsed = cases.closes (close 4009 (codes "session timed out") ∷ [])
