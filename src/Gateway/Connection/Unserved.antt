-- ===== src/Gateway/Connection/Unserved.antt =====
-- src/server.rs: an IDENTIFY for a shard of the bot that this proxy does not run, which
-- `handle_client` looks up by its number in the list of the shards that it does run.
use discord_gateway_proxy.Map.{Distinct}
use discord_gateway_proxy.Auth.{
  AuthContext, authenticate_gateway_token, normalize_gateway_token, GatewayAuthResult,
}
use discord_gateway_proxy.Gateway.Connection.Turns.{start_session, check_identify}
use discord_gateway_proxy.Config.{Config}
use discord_gateway_proxy.State.Connections.{mark_client_connected, count_connected}
use discord_gateway_proxy.Map
use discord_gateway_proxy.State.{Inner, Shard, Session}
use discord_gateway_proxy.Prelude.{
  List, ℕ, Str, Option, length, ◌≡◌, ◌≤◌, ◌∷◌, some, get_elem?, arith, ◌∙◌, none, Option-cases, [],
  refl, suc, zero, inl, inr, str_eq, nat_eq, contains, true, option-branches, ap, ◌<◌,
  if◌then◌else◌, ◌≢◌, ltb, Bool-cases, nat_beq, leb, false,
}
use discord_gateway_proxy.State.Sessions.{create_session, first_unused, prune_expired_sessions}
use discord_gateway_proxy.State.Sessions.Creation.{create_session_total}
use discord_gateway_proxy.Gateway.Connection.{
  send_voice_leaves, leave_calls, send_voice_leave, leave_voice_for_client, Inner, Shard,
  mark_client_connected, Messages, Moment, client_of, activate, IdentifyInfo, Connection, panics,
  Turned, continues,
}
use discord_gateway_proxy.State.Voice.{
  send_on, send_voice_leave, leave_voice_for_client, shard_id_for_guild, voice_leave_command,
}

length-send_on :
    (shard_id : ℕ) (command : Str) (shards : List Shard)
    → length (send_on shard_id command shards) ≡ length shards
unfolding send_on
length-send_on shard_id command [] = refl
length-send_on shard_id command (shard ∷ shards) =
    ground (arith, length-send_on shard_id command shards)

send_voice_leaves-length :
    (guilds : List ℕ) (inner : Inner)
    → length (send_voice_leaves guilds inner).shards ≡ length inner.shards
unfolding send_voice_leaves send_voice_leave
send_voice_leaves-length [] inner = refl
send_voice_leaves-length (guild_id ∷ guilds) inner =
    send_voice_leaves-length guilds (send_voice_leave guild_id inner)
    ∙ length-send_on (shard_id_for_guild inner.shard_count guild_id) (voice_leave_command guild_id)
        inner.shards

leave_calls-length :
    (client : Option Str) (shard_id : ℕ) (inner : Inner)
    → length (leave_calls client shard_id inner).shards ≡ length inner.shards
unfolding leave_calls leave_voice_for_client
leave_calls-length none shard_id inner = refl
leave_calls-length (some client_id) shard_id inner =
    send_voice_leaves-length (leave_voice_for_client client_id shard_id inner).1
      (leave_voice_for_client client_id shard_id inner).0

create_session-shards :
    (now : ℕ) (draws : List Str) (session : Session) (inner inner' : Inner) (id : Str)
    → create_session now draws session inner ≡ some (id, inner')
    → inner'.shards ≡ inner.shards
unfolding create_session
create_session-shards now draws session inner inner' id h =
    elim (Option-cases (first_unused (prune_expired_sessions now inner.sessions) draws)) [
      | inl e ↦ cc (rw (e, create_session) at h)
      | inr (found, e) ↦ let h' = rw (e, create_session) at h in ground (arith, e, h')
    ]

get_elem?-in {ℓ} : {A : Type ℓ} (xs : List A) (i : ℕ) → i < length xs → get_elem? xs i ≢ none
get_elem?-in [] i h e = omega arith
get_elem?-in (x ∷ xs) zero h e = cc e
get_elem?-in (x ∷ xs) (suc i) h e = get_elem?-in xs i (omega arith) e

get_elem?-out {ℓ} : {A : Type ℓ} (xs : List A) (i : ℕ) → length xs ≤ i → get_elem? xs i ≡ none
get_elem?-out [] i h = refl
get_elem?-out (x ∷ xs) zero h = absurd (omega arith)
get_elem?-out (x ∷ xs) (suc i) h = get_elem?-out xs i (omega arith)

send_voice_leaves-sessions :
    (guilds : List ℕ) (inner : Inner) → (send_voice_leaves guilds inner).sessions ≡ inner.sessions
unfolding send_voice_leaves send_voice_leave
send_voice_leaves-sessions [] inner = refl
send_voice_leaves-sessions (guild_id ∷ guilds) inner =
    send_voice_leaves-sessions guilds (send_voice_leave guild_id inner)

leave_calls-sessions :
    (client : Option Str) (shard_id : ℕ) (inner : Inner)
    → (leave_calls client shard_id inner).sessions ≡ inner.sessions
unfolding leave_calls leave_voice_for_client
leave_calls-sessions none shard_id inner = refl
leave_calls-sessions (some client_id) shard_id inner =
    send_voice_leaves-sessions (leave_voice_for_client client_id shard_id inner).1
      (leave_voice_for_client client_id shard_id inner).0

-- What IDENTIFY does to the shared state before it draws a session.
module _ (active client : Option Str) (shard_id : ℕ) (inner : Inner) where
  abbrev identified : Inner
  identified = leave_calls client shard_id (activate active client inner)

  activate-sessions : (activate active client inner).sessions ≡ inner.sessions
  unfolding activate mark_client_connected count_connected
  activate-sessions = ground arith

  activate-shards : (activate active client inner).shards ≡ inner.shards
  unfolding activate mark_client_connected count_connected
  activate-shards = ground arith

  identified-sessions : identified.sessions ≡ inner.sessions
  identified-sessions =
      leave_calls-sessions client shard_id (activate active client inner) ∙ activate-sessions

  identified-length : length identified.shards ≡ length inner.shards
  identified-length =
      leave_calls-length client shard_id (activate active client inner)
      ∙ ap (λ (l : List Shard). length l) activate-shards

module _ (messages : Messages) (config : Config) (moment : Moment) where
  -- How a turn ends that starts a session.
  start_session-flow :
      (identify : IdentifyInfo) (context : AuthContext) (connection : Connection) (inner : Inner)
      (id : Str)
      → Distinct inner.sessions
      → contains moment.draws id ≡ true
      → Map.get inner.sessions id ≡ none
      → (start_session messages config moment identify context connection inner).flow
        ≡ (if ltb identify.shard_id (length inner.shards) then continues else panics)
  unfolding start_session
  start_session-flow identify context connection inner id d drawn new =
      let client = client_of context.principal in
      let left = identified connection.active_client_id client identify.shard_id inner in
      let same = identified-sessions connection.active_client_id client identify.shard_id inner in
      let session : Session = record {
        shard_id = identify.shard_id;
        compress = identify.compress;
        principal = context.principal;
        authorized_guilds = context.authorized_guilds;
        last_accessed = moment.now;
      } in
      let P = λ (result : Turned).
        result.flow ≡ (if ltb identify.shard_id (length inner.shards) then continues else panics) in
      let (made, e) =
        create_session_total moment.now moment.draws session left id (rw same d) drawn
          (rw same new) in
      option-branches P (create_session moment.now moment.draws session left)
        (λ undrawn. cc (e, undrawn))
        (λ created e'.
          let shards =
            ap (λ (l : List Shard). length l)
              (create_session-shards moment.now moment.draws session left created.1 created.0 e')
            ∙ identified-length connection.active_client_id client identify.shard_id inner in
          option-branches P (get_elem? created.1.shards identify.shard_id)
            (λ gone. elim (Bool-cases (ltb identify.shard_id (length inner.shards))) [
              | inl inside ↦ absurd (
                  get_elem?-in created.1.shards identify.shard_id (ground (arith, inside, shards))
                    gone)
              | inr outside ↦ rw outside refl
            ])
            (λ shard found. elim (Bool-cases (ltb identify.shard_id (length inner.shards))) [
              | inl inside ↦ rw inside refl
              | inr outside ↦ cc (
                found,
                get_elem?-out created.1.shards identify.shard_id (ground (arith, outside, shards)),
              )
            ]))

  -- An IDENTIFY for a shard of the bot with a token that is accepted, and of whose session
  -- identifiers drawn one is free, panics exactly if its number is beyond the end of the list of the
  -- shards that the process runs, and otherwise goes on. The release build aborts on a panic.
  pub check_identify_unserved :
      (identify : IdentifyInfo) (context : AuthContext) (connection : Connection) (inner : Inner)
      (id : Str)
      → identify.shard_count ≡ inner.shard_count
      → identify.shard_id < identify.shard_count
      → authenticate_gateway_token config moment.registry (normalize_gateway_token identify.token)
        ≡ GatewayAuthResult.ok context
      → Distinct inner.sessions
      → contains moment.draws id ≡ true
      → Map.get inner.sessions id ≡ none
      → (check_identify messages config moment identify connection inner).flow
        ≡ (if ltb identify.shard_id (length inner.shards) then continues else panics)
  unfolding check_identify
  check_identify_unserved identify context connection inner id count bound accepted d drawn new =
      let started = start_session-flow identify context connection inner id d drawn new in
      let same : nat_beq identify.shard_count inner.shard_count ≡ true = ground arith in
      let within : leb identify.shard_count identify.shard_id ≡ false = ground arith in
      rw (accepted, same, within) started
