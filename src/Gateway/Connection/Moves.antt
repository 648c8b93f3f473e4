-- ===== src/Gateway/Connection/Moves.antt =====
-- src/server.rs: every turn of `handle_client` that goes on is a move of the abstract machine.
use discord_gateway_proxy.Gateway.Connection.Phases.{
  Phase, fresh, serving, Stands, now_active_fresh, own_guilds, resumed_own, principal_beq-eq, stays,
  earns, Refines,
}
use discord_gateway_proxy.State.Sessions.{create_session, get_session}
use discord_gateway_proxy.Gateway.Connection.Turns.{
  start_session, resume_session, resumed_guilds, turn, find_session, on_heartbeat,
}
use discord_gateway_proxy.State.{Inner, Session, principal_beq}
use discord_gateway_proxy.Gateway.Connection.Cases.{Authenticates, turn-cases, not-not}
use discord_gateway_proxy.Auth.{AuthContext}
use discord_gateway_proxy.Config.{Config}
use discord_gateway_proxy.Prelude.{
  ◌≡◌, true, List, false, ℕ, refl, if-branches, option-branches, ap, get_elem?, not,
}
use discord_gateway_proxy.Gateway.Connection.{
  ForwardTask, Connection, Messages, Moment, Inner, client_of, start_forwarding, IdentifyInfo,
  reject, close_with, ResumeInfo, leave_calls, activate, Wakeup, Message,
}

module _ (messages : Messages) (config : Config) where
  module _ (moment : Moment) (connection : Connection) where
    start_session-Refines :
        (inner : Inner) (identify : IdentifyInfo) (context : AuthContext) (phase : Phase)
        → Stands phase connection
        → connection.compress_tx ≡ true
        → Authenticates messages config moment identify.token context
        → Refines messages config moment phase
            (start_session messages config moment identify context connection inner)
    unfolding start_session start_forwarding
    start_session-Refines inner identify context (serving task) h there e = cc (h.0, there)
    start_session-Refines inner identify context fresh h there e =
        let client = client_of context.principal in
        let left =
          leave_calls client identify.shard_id
            (activate connection.active_client_id client inner) in
        let session : Session = record {
          shard_id = identify.shard_id;
          compress = identify.compress;
          principal = context.principal;
          authorized_guilds = context.authorized_guilds;
          last_accessed = moment.now;
        } in
        option-branches (Refines messages config moment fresh)
          (create_session moment.now moment.draws session left) (λ none_new go. cc go)
          (λ created made.
            option-branches (Refines messages config moment fresh)
              (get_elem? created.1.shards identify.shard_id) (λ out go. cc go)
              (λ shard found go.
                let task : ForwardTask = record {
                  session_id = created.0;
                  shard = identify.shard_id;
                  send_guilds = true;
                  seq = 0;
                  subscriber = record {
                    client_id = client;
                    authorized_guilds = context.authorized_guilds;
                  };
                } in
                (
                  serving task,
                  (refl, refl, refl, refl, now_active_fresh connection.active_client_id client h.4),
                  earns task (identify.token, context, e, refl, own_guilds client context),
                )))

    resume_session-Refines :
        (inner : Inner) (resume : ResumeInfo) (context : AuthContext) (session : Session)
        (phase : Phase)
        → Stands phase connection
        → session.principal ≡ context.principal
        → Authenticates messages config moment resume.token context
        → Refines messages config moment phase
            (resume_session messages config moment resume context session connection inner)
    unfolding resume_session start_forwarding reject close_with resumed_guilds
    resume_session-Refines inner resume context session (serving task) h same e =
        if-branches (Refines messages config moment (serving task)) connection.compress_tx
          (λ there. cc (h.0, there)) (λ taken go. cc go)
    resume_session-Refines inner resume context session fresh h same e =
        if-branches (Refines messages config moment fresh) connection.compress_tx
          (λ there go.
            let client = client_of session.principal in
            let task : ForwardTask = record {
              session_id = resume.session_id;
              shard = session.shard_id;
              send_guilds = false;
              seq = resume.seq;
              subscriber = record {
                client_id = client;
                authorized_guilds = resumed_guilds messages config moment session context;
              };
            } in
            (
              serving task,
              (refl, refl, refl, refl, now_active_fresh connection.active_client_id client h.4),
              earns task (
                resume.token,
                context,
                e,
                ap client_of same,
                resumed_own client context session.authorized_guilds,
              ),
            ))
          (λ taken go. cc go)

    find_session-Refines :
        (inner : Inner) (resume : ResumeInfo) (context : AuthContext) (phase : Phase)
        → Stands phase connection
        → Authenticates messages config moment resume.token context
        → Refines messages config moment phase
            (find_session messages config moment resume context connection inner)
    unfolding find_session reject close_with
    find_session-Refines inner resume context phase h e =
        let looked = get_session moment.now resume.session_id inner in
        option-branches (Refines messages config moment phase) looked.0 (λ lost go. cc go)
          (λ session found.
            if-branches (Refines messages config moment phase)
              (not (principal_beq session.principal context.principal)) (λ other go. cc go)
              (λ own.
                option-branches (Refines messages config moment phase)
                  (get_elem? looked.1.shards session.shard_id) (λ out go. cc go)
                  (λ shard there.
                    resume_session-Refines looked.1 resume context session phase h
                      (principal_beq-eq session.principal context.principal
                        (not-not (principal_beq session.principal context.principal) own))
                      e)))

    -- What is sent to the client, and the heartbeat, are no part of the protocol.
    later-Stands :
        (deadline : ℕ) (sent : List Message) (phase : Phase)
        → Stands phase connection
        → Stands phase (record connection { heartbeat_deadline = deadline; stream_writer = sent })
    later-Stands deadline sent fresh h = h
    later-Stands deadline sent (serving task) h = h

    -- Every turn of a connection that goes on is a move of the abstract machine.
    pub turn-Refines :
        (inner : Inner) (wakeup : Wakeup) (phase : Phase)
        → Stands phase connection
        → Refines messages config moment phase (turn messages config moment wakeup connection inner)
    unfolding close_with on_heartbeat
    turn-Refines inner wakeup phase h =
        turn-cases messages config moment (Refines messages config moment phase) connection inner
          (record {
            unchanged = λ flow go. (phase, h, stays phase);
            sink_gone = λ go. cc go;
            closes = λ sent go. cc go;
            heartbeat = λ go. (phase, later-Stands _ _ phase h, stays phase);
            starts = λ identify context there within e.
                start_session-Refines inner identify context phase h there e;
            finds = λ resume context e. find_session-Refines inner resume context phase h e;
            passes = λ index payload s o go. (phase, h, stays phase);
            filters = λ index op payload client_id s o go. (phase, h, stays phase);
          })
          wakeup
