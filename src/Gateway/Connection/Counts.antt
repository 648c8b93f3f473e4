-- ===== src/Gateway/Connection/Counts.antt =====
-- src/server.rs: the counts of live connections through the turns of a connection and its teardown.
use discord_gateway_proxy.Gateway.Connection.Cases.{turn-cases}
use discord_gateway_proxy.Map
use discord_gateway_proxy.Map.{Map}
use discord_gateway_proxy.State.Connections.{
  mark_client_connected, connections, connections-mark_client_connected,
  connections-mark_client_disconnected,
}
use discord_gateway_proxy.State.Sessions.{create_session, get_session}
use discord_gateway_proxy.Auth.{AuthContext}
use discord_gateway_proxy.Gateway.Connection.Turns.{
  start_session, resume_session, find_session, on_heartbeat, turn, teardown, deactivate,
}
use discord_gateway_proxy.Gateway.Connection.Frames.{
  SameCounts, leave_calls-SameCounts, create_session-SameCounts, get_session-SameCounts,
  filtered_command-SameCounts,
}
use discord_gateway_proxy.Config.{Config}
use discord_gateway_proxy.State.{Inner, Session, principal_beq}
use discord_gateway_proxy.Gateway.Connection.{
  Connection, now_active, activate, close_with, Messages, Inner, Turned, Moment, start_forwarding,
  IdentifyInfo, client_of, leave_calls, mark_client_connected, reject, ResumeInfo, Wakeup,
}
use discord_gateway_proxy.Prelude.{
  Option, Str, ℕ, none, ◌≡◌, some, if◌then◌else◌, refl, str_beq, ◌∙◌, sym, ap, get_elem?,
  option-branches, if-branches, not, ◌+◌, unwrap_or, ◌-◌, arith, str_eq, nat_eq,
}

-- How often a connection counts for a client.
unfoldable pub holds : Option Str → Str → ℕ
holds none client_id = 0
holds (some active) client_id = if str_beq active client_id then 1 else 0

-- A turn that authenticates as a client, or as none, and touches no other count.
abbrev Counted : Connection → Inner → Turned → Type 0
Counted connection inner result =
    (client : Option Str) × (result.connection.active_client_id
      ≡ now_active connection.active_client_id client)
    × SameCounts (activate connection.active_client_id client inner) result.inner

now_active-none : (active : Option Str) → now_active active none ≡ active
unfolding now_active
now_active-none none = refl
now_active-none (some active) = refl

activate-none : (active : Option Str) (inner : Inner) → activate active none inner ≡ inner
unfolding activate
activate-none none inner = refl
activate-none (some active) inner = refl

activate-SameCounts :
    (active client : Option Str) (inner touched : Inner)
    → SameCounts inner touched
    → SameCounts (activate active client inner) (activate active client touched)
unfolding activate mark_client_connected
activate-SameCounts none none inner touched h = h
activate-SameCounts none (some client_id) inner touched h = rw h
activate-SameCounts (some active) client inner touched h = h

-- A turn that leaves both alone.
same-Counted :
    (connection : Connection) (inner : Inner) {active : Option Str} {counts : Map Str ℕ}
    → active ≡ connection.active_client_id
    → counts ≡ inner.active_client_connections
    → (client : Option Str) × (active ≡ now_active connection.active_client_id client)
      × (counts ≡ (activate connection.active_client_id client inner).active_client_connections)
same-Counted connection inner a s = (
  none,
  a ∙ sym (now_active-none connection.active_client_id),
  s
      ∙ ap (λ (i : Inner). i.active_client_connections)
          (sym (activate-none connection.active_client_id inner)),
)

module _ (messages : Messages) (config : Config) (moment : Moment) where
  start_session-Counted :
      (identify : IdentifyInfo) (context : AuthContext) (connection : Connection) (inner : Inner)
      → Counted connection inner
          (start_session messages config moment identify context connection inner)
  unfolding start_session start_forwarding
  start_session-Counted identify context connection inner =
      let client = client_of context.principal in
      let counted = activate connection.active_client_id client inner in
      let left = leave_calls client identify.shard_id counted in
      let session : Session = record {
        shard_id = identify.shard_id;
        compress = identify.compress;
        principal = context.principal;
        authorized_guilds = context.authorized_guilds;
        last_accessed = moment.now;
      } in
      let same = leave_calls-SameCounts client identify.shard_id counted in
      option-branches (Counted connection inner)
        (create_session moment.now moment.draws session left) (λ e. (client, refl, same))
        (λ created e.
          let stored_same =
            create_session-SameCounts moment.now moment.draws session left created.1 created.0 e
            ∙ same in
          option-branches (Counted connection inner) (get_elem? created.1.shards identify.shard_id)
            (λ out. (client, refl, stored_same)) (λ shard found. (client, refl, stored_same)))

  reject-Counted :
      (reason : Str) (connection active : Connection) (inner counted : Inner) (client : Option Str)
      → active.active_client_id ≡ now_active connection.active_client_id client
      → SameCounts (activate connection.active_client_id client inner) counted
      → Counted connection inner (reject reason active counted)
  unfolding reject close_with
  reject-Counted reason connection active inner counted client a s = (client, a, s)

  resume_session-Counted :
      (resume : ResumeInfo) (context : AuthContext) (session : Session) (connection : Connection)
      (inner touched : Inner)
      → SameCounts inner touched
      → Counted connection inner
          (resume_session messages config moment resume context session connection touched)
  unfolding resume_session start_forwarding reject close_with
  resume_session-Counted resume context session connection inner touched same =
      let client = client_of session.principal in
      let counted = activate-SameCounts connection.active_client_id client inner touched same in
      if-branches (Counted connection inner) connection.compress_tx
        (λ there. (client, refl, counted)) (λ taken. (client, refl, counted))

  find_session-Counted :
      (resume : ResumeInfo) (context : AuthContext) (connection : Connection) (inner : Inner)
      → Counted connection inner
          (find_session messages config moment resume context connection inner)
  unfolding find_session reject close_with
  find_session-Counted resume context connection inner =
      let looked = get_session moment.now resume.session_id inner in
      let same = get_session-SameCounts moment.now resume.session_id inner in
      option-branches (Counted connection inner) looked.0
        (λ e. same-Counted connection inner refl same)
        (λ session e.
          if-branches (Counted connection inner)
            (not (principal_beq session.principal context.principal))
            (λ other. same-Counted connection inner refl same)
            (λ own.
              option-branches (Counted connection inner)
                (get_elem? looked.1.shards session.shard_id)
                (λ out. same-Counted connection inner refl same)
                (λ shard found.
                  resume_session-Counted resume context session connection inner looked.1 same)))

  turn-Counted :
      (wakeup : Wakeup) (connection : Connection) (inner : Inner)
      → Counted connection inner (turn messages config moment wakeup connection inner)
  unfolding close_with on_heartbeat
  turn-Counted wakeup connection inner =
      turn-cases messages config moment (Counted connection inner) connection inner
        (record {
          unchanged = λ flow. same-Counted connection inner refl refl;
          sink_gone = same-Counted connection inner refl refl;
          closes = λ sent. same-Counted connection inner refl refl;
          heartbeat = same-Counted connection inner refl refl;
          starts = λ identify context there within e.
              start_session-Counted identify context connection inner;
          finds = λ resume context e. find_session-Counted resume context connection inner;
          passes = λ index payload s o. same-Counted connection inner refl refl;
          filters = λ index op payload client_id s o.
              same-Counted connection inner refl
                (filtered_command-SameCounts messages config moment client_id _ inner);
        })
        wakeup

holds-activate :
    (active client : Option Str) (inner : Inner) (client_id : Str)
    → connections (activate active client inner) client_id + holds active client_id
      ≡ connections inner client_id + holds (now_active active client) client_id
unfolding activate now_active holds
holds-activate none none inner client_id = refl
holds-activate none (some opened) inner client_id =
    ground (arith, connections-mark_client_connected opened client_id inner)
holds-activate (some active) client inner client_id = refl

pub connections-SameCounts :
    (inner inner' : Inner) (client_id : Str)
    → SameCounts inner inner'
    → connections inner' client_id ≡ connections inner client_id
unfolding connections
connections-SameCounts inner inner' client_id h =
    ap (λ counts. unwrap_or 0 (Map.get counts client_id)) h

-- A turn changes the counts by what the connection counts for.
pub turn-balance :
    (messages : Messages) (config : Config) (moment : Moment) (wakeup : Wakeup)
    (connection : Connection) (inner : Inner) (client_id : Str)
    → connections (turn messages config moment wakeup connection inner).inner client_id
        + holds connection.active_client_id client_id
      ≡ connections inner client_id
        + holds
            (turn messages config moment wakeup connection inner).connection.active_client_id
            client_id
turn-balance messages config moment wakeup connection inner client_id =
    let result = turn messages config moment wakeup connection inner in
    let (client, active, same) = turn-Counted messages config moment wakeup connection inner in
    let counted = activate connection.active_client_id client inner in
    rw (active, connections-SameCounts counted result.inner client_id same)
      (holds-activate connection.active_client_id client inner client_id)

deactivate-balance :
    (now : ℕ) (active : Option Str) (inner : Inner) (client_id : Str)
    → connections (deactivate now active inner) client_id
      ≡ connections inner client_id - holds active client_id
unfolding deactivate holds
deactivate-balance now none inner client_id = omega arith
deactivate-balance now (some active) inner client_id =
    ground (arith, connections-mark_client_disconnected now active client_id inner)

-- The teardown takes back what the connection counts for.
pub teardown-balance :
    (now : ℕ) (connection : Connection) (inner : Inner) (client_id : Str)
    → connections (teardown now connection inner).1 client_id
      ≡ connections inner client_id - holds connection.active_client_id client_id
unfolding teardown
teardown-balance now connection inner client_id =
    deactivate-balance now connection.active_client_id inner client_id
