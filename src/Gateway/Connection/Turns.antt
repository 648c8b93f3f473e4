-- ===== src/Gateway/Connection/Turns.antt =====
-- src/server.rs: a turn of `handle_client` by the opcode of the message, and the end of the loop.
use discord_gateway_proxy.Clients.{client_guilds}
use discord_gateway_proxy.Auth.{
  AuthContext, authenticate_gateway_token, normalize_gateway_token, GatewayAuthResult,
}
use discord_gateway_proxy.Deserializer.{from_json}
use discord_gateway_proxy.Gateway.{
  ClientCommand, forward, filter_client_command, voice, drop_command,
}
use discord_gateway_proxy.State.Limits.{allow_client_command}
use discord_gateway_proxy.State.Voice.{claim_voice}
use discord_gateway_proxy.State.{Inner, Session, principal_beq, deny, allow}
use discord_gateway_proxy.State.Sessions.{get_session, create_session}
use discord_gateway_proxy.Prelude.{
  ℕ, Str, Bool, if◌then◌else◌, none, Option, ◌&&◌, not, List, some, nat_beq, false, codes, is_some,
  ◌+◌, leb, get_elem?, ◌∷◌, true, [], ◌++◌, unwrap_or,
}
use discord_gateway_proxy.Config.{Config}
use discord_gateway_proxy.State.Connections.{mark_client_disconnected}
use discord_gateway_proxy.Gateway.Connection.{
  Messages, Moment, Connection, client_of, IdentifyInfo, send_command, channel_fits, close_with,
  Inner, now_active, Turned, reject, send_at, activate, turned, Wakeup, leave_calls,
  start_forwarding, ResumeInfo, continues, text_message, breaks, client_command_limit, close, waits,
  client_command_window, client_heartbeat_timeout, panics, text, binary_message, heartbeat_ack,
  stream_ended, sink_ended, heartbeat_elapsed,
}

module _ (messages : Messages) (config : Config) (moment : Moment) where
  -- The end of the arm of IDENTIFY: the session, the shard and the forwarding task.
  unfoldable pub start_session : IdentifyInfo → AuthContext → Connection → Inner → Turned
  unfolding client_of now_active activate leave_calls create_session start_forwarding
  start_session identify context connection inner =
      let client = client_of context.principal in
      let active : Connection = record connection {
        active_client_id = now_active connection.active_client_id client;
        command_scope = client;
      } in
      let left =
        leave_calls client identify.shard_id (activate connection.active_client_id client inner) in
      let session : Session = record {
        shard_id = identify.shard_id;
        compress = identify.compress;
        principal = context.principal;
        authorized_guilds = context.authorized_guilds;
        last_accessed = moment.now;
      } in
      elim (create_session moment.now moment.draws session left) [
        | none ↦ turned waits active left
        | some (session_id, stored) ↦ elim (get_elem? stored.shards identify.shard_id) [
          | none ↦ turned panics active stored
          | some shard ↦
              turned continues
                (start_forwarding
                  (record {
                    session_id = session_id;
                    shard = identify.shard_id;
                    send_guilds = true;
                    seq = 0;
                    subscriber = record {
                      client_id = client;
                      authorized_guilds = context.authorized_guilds;
                    };
                  })
                  identify.compress (record active { shard_sender = some identify.shard_id }))
                stored
        ]
      ]

  unfoldable pub check_identify : IdentifyInfo → Connection → Inner → Turned
  unfolding start_session
  check_identify identify connection inner =
      if not (nat_beq identify.shard_count inner.shard_count)
      then turned breaks connection inner
      else if leb identify.shard_count identify.shard_id
      then turned breaks connection inner
      else elim (authenticate_gateway_token config moment.registry
          (normalize_gateway_token identify.token)) [
            | GatewayAuthResult.ok context ↦ start_session identify context connection inner
            | GatewayAuthResult.stale ↦ turned breaks connection inner
            | GatewayAuthResult.invalid ↦ turned breaks connection inner
          ]

  -- Opcode 2.
  unfoldable pub on_identify : Str → Connection → Inner → Turned
  unfolding check_identify
  on_identify payload connection inner =
      if not connection.compress_tx
      then turned breaks connection inner
      else elim (messages.read_identify payload) [
        | none ↦ turned continues connection inner
        | some identify ↦ check_identify identify connection inner
      ]

  -- The guilds of a resumed session: a client's are those it has now.
  unfoldable pub resumed_guilds : Session → AuthContext → Option (List ℕ)
  unfolding client_of
  resumed_guilds session context = elim (client_of session.principal) [
    | none ↦ session.authorized_guilds
    | some client_id ↦ context.authorized_guilds
  ]

  -- A session of the same principal: the connection is its client's, and starts to forward if it has
  -- not done so.
  unfoldable pub resume_session : ResumeInfo → AuthContext → Session → Connection → Inner → Turned
  unfolding client_of now_active activate resumed_guilds start_forwarding reject
  resume_session resume context session connection inner =
      let client = client_of session.principal in
      let active : Connection = record connection {
        shard_sender = some session.shard_id;
        active_client_id = now_active connection.active_client_id client;
        command_scope = client;
      } in
      let counted = activate connection.active_client_id client inner in
      if connection.compress_tx
      then turned continues
          (start_forwarding
            (record {
              session_id = resume.session_id;
              shard = session.shard_id;
              send_guilds = false;
              seq = resume.seq;
              subscriber = record {
                client_id = client;
                authorized_guilds = resumed_guilds session context;
              };
            })
            session.compress active)
          counted
      else reject (codes "session rejected") active counted

  unfoldable pub find_session : ResumeInfo → AuthContext → Connection → Inner → Turned
  unfolding get_session reject principal_beq resume_session
  find_session resume context connection inner =
      let (found, touched) = get_session moment.now resume.session_id inner in
      elim found [
        | none ↦ reject (codes "session not found") connection touched
        | some session ↦
            if not (principal_beq session.principal context.principal)
            then reject (codes "session rejected") connection touched
            else elim (get_elem? touched.shards session.shard_id) [
              | none ↦ turned panics connection touched
              | some shard ↦ resume_session resume context session connection touched
            ]
      ]

  -- Opcode 6.
  unfoldable pub on_resume : Str → Connection → Inner → Turned
  unfolding find_session
  on_resume payload connection inner = elim (messages.read_resume payload) [
    | none ↦ turned continues connection inner
    | some resume ↦
        elim (authenticate_gateway_token config moment.registry
          (normalize_gateway_token resume.token)) [
            | GatewayAuthResult.ok context ↦ find_session resume context connection inner
            | GatewayAuthResult.stale ↦ turned breaks connection inner
            | GatewayAuthResult.invalid ↦ turned breaks connection inner
          ]
  ]

  -- A command within the rate limit. Who owns voice is asked for a voice command only.
  unfoldable pub claim_and_send : Str → ℕ → Option (Option ℕ) → Str → Inner → Inner
  unfolding send_command claim_voice
  claim_and_send client_id guild_id none command inner = send_command guild_id command inner
  claim_and_send client_id guild_id (some channel_id) command inner =
      let (decision, claimed) =
        claim_voice config.cache.voice_states guild_id client_id (is_some channel_id) inner in
      elim decision [ deny ↦ claimed | allow ↦ send_command guild_id command claimed ]

  unfoldable pub limit_command : Str → ℕ → Option (Option ℕ) → Str → Inner → Inner
  unfolding channel_fits allow_client_command claim_and_send
  limit_command client_id guild_id voice_channel command inner =
      if not (channel_fits inner guild_id voice_channel)
      then inner
      else let (allowed, counted) =
          allow_client_command moment.now client_command_limit client_command_window client_id
            inner in
        if not allowed
        then counted
        else claim_and_send client_id guild_id voice_channel command counted

  unfoldable pub filtered_command : Str → ClientCommand → Inner → Inner
  unfolding limit_command
  filtered_command client_id (forward guild_id command) inner =
      limit_command client_id guild_id none command inner
  filtered_command client_id (voice guild_id channel_id command) inner =
      limit_command client_id guild_id (some channel_id) command inner
  filtered_command client_id (drop_command reason) inner = inner

  -- Any other opcode.
  unfoldable pub on_command : ℕ → Str → Connection → Inner → Turned
  unfolding close_with send_at filter_client_command filtered_command client_guilds
  on_command op payload connection inner = elim connection.shard_sender [
    | none ↦ close_with (close 4003 (codes "not authenticated") ∷ []) connection inner
    | some index ↦ elim connection.command_scope [
      | none ↦
          turned continues connection (record inner { shards = send_at index payload inner.shards })
      | some client_id ↦ turned continues connection (
          filtered_command client_id
            (filter_client_command messages.commands op payload
              (unwrap_or [] (client_guilds moment.registry client_id)))
            inner)
    ]
  ]

  -- Opcode 1.
  unfoldable pub on_heartbeat : Connection → Inner → Turned
  on_heartbeat connection inner =
      turned continues
        (record connection {
          heartbeat_deadline = moment.now + client_heartbeat_timeout;
          stream_writer = connection.stream_writer ++ text heartbeat_ack ∷ [];
        })
        inner

  unfoldable pub on_op : ℕ → Str → Connection → Inner → Turned
  unfolding on_heartbeat on_identify on_resume on_command
  on_op op payload connection inner =
      if nat_beq op 1
      then on_heartbeat connection inner
      else if nat_beq op 2
      then on_identify payload connection inner
      else if nat_beq op 6
      then on_resume payload connection inner
      else on_command op payload connection inner

  unfoldable pub turn : Wakeup → Connection → Inner → Turned
  unfolding on_op close_with from_json
  turn (text_message payload) connection inner = elim (from_json payload) [
    | none ↦ turned continues connection inner
    | some event ↦ on_op event.op.op payload connection inner
  ]
  turn binary_message connection inner = turned continues connection inner
  turn stream_ended connection inner = turned breaks connection inner
  turn sink_ended connection inner = turned breaks (record connection { sink_done = true }) inner
  turn heartbeat_elapsed connection inner =
      close_with (close 4009 (codes "session timed out") ∷ []) connection inner

-- `if let Some(client_id) = active_client_id`, at the end of the task.
unfoldable pub deactivate : ℕ → Option Str → Inner → Inner
deactivate now none inner = inner
deactivate now (some client_id) inner = mark_client_disconnected now client_id inner

-- What is left of a connection after its loop: whether the sink is given time to flush the queue, and
-- the shared state. The forwarding task is aborted in every case.
unfoldable pub teardown : ℕ → Connection → Inner → Bool × Inner
unfolding deactivate
teardown now connection inner = (
  connection.graceful_close && not connection.sink_done,
  deactivate now connection.active_client_id inner,
)
