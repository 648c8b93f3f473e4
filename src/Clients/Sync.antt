-- ===== src/Clients/Sync.antt =====
-- src/db_config.rs: the loops that keep the registry of clients in step with the database. A query's
-- answer is a parameter: `none` where the query fails.
pub mod Refresh
pub mod Pending
use discord_gateway_proxy.Clients.Payload.{parse_gateway_clients_change_payload}
use discord_gateway_proxy.Config.{ClientConfig}
use discord_gateway_proxy.Clients.Rows.{SnapshotClientRow, group_rows_into_clients}
use discord_gateway_proxy.Clients.{Registry, ClientConfig}
use discord_gateway_proxy.Prelude.{
  nat_eq, str_eq, arith, Option, Bool, if◌then◌else◌, Str, List, set_insert, false, none, is_empty,
  ◌>>=◌, some, not, true, ◌∷◌, [],
}
use discord_gateway_proxy.Map
use discord_gateway_proxy.Map.{Map}

-- What the database answers at one moment.
pub record Answers : Type 0 where
  -- SELECT_CLIENTS_SQL.
  pub all_rows : Option (List SnapshotClientRow)
  -- SELECT_CLIENTS_BY_IDS_SQL.
  pub rows_by_ids : List Str → Option (List SnapshotClientRow)
  -- `SELECT 1`.
  pub ping : Bool

-- The oneshot channel of the first sync: the sender, while it is kept, and whether it has sent.
pub record InitialSync : Type 0 where
  pub sender : Bool
  pub ready : Bool

unfoldable pub signal_initial_sync_ready : InitialSync → InitialSync
signal_initial_sync_ready initial =
    if initial.sender then record { sender = false; ready = true } else initial

unfoldable pub mark_sync_success : Registry → Registry
mark_sync_success registry = elim registry.now [
  | none ↦ registry
  | some now ↦ record registry { last_successful_sync = now }
]

-- `if let Ok(mut clients) = CLIENTS.write() { .. }`.
unfoldable pub write_clients : (Map Str ClientConfig → Map Str ClientConfig) → Registry → Registry
write_clients change registry = elim registry.clients [
  | none ↦ registry
  | some clients ↦ record registry { clients = some (change clients) }
]

unfoldable pub load_clients_snapshot : Answers → Option (Map Str ClientConfig)
load_clients_snapshot answers = answers.all_rows >>= λ rows. some (group_rows_into_clients rows)

unfoldable pub remove_all : List Str → Map Str ClientConfig → Map Str ClientConfig
remove_all [] clients = clients
remove_all (client_id ∷ client_ids) clients = remove_all client_ids (Map.remove clients client_id)

-- `HashMap::extend`.
unfoldable pub extend : Map Str ClientConfig → Map Str ClientConfig → Map Str ClientConfig
extend clients [] = clients
extend clients ((client_id, client) ∷ more) = extend (Map.insert clients client_id client) more

unfoldable pub refresh_clients_by_ids : Answers → List Str → Registry → Option Registry
unfolding remove_all extend write_clients
refresh_clients_by_ids answers dirty_client_ids registry =
    if is_empty dirty_client_ids
    then some registry
    else answers.rows_by_ids dirty_client_ids >>= λ rows. some (
        write_clients
          (λ clients. extend (remove_all dirty_client_ids clients) (group_rows_into_clients rows))
          registry)

-- A full reload of the registry.
unfoldable pub reload : Answers → Registry → Option Registry
unfolding load_clients_snapshot mark_sync_success write_clients
reload answers registry = load_clients_snapshot answers >>= λ snapshot.
    some (write_clients (λ clients. snapshot) (mark_sync_success registry))

-- What the realtime loop keeps between two turns.
pub record Realtime : Type 0 where
  pub registry : Registry
  pub dirty_client_ids : List Str
  pub should_full_reconcile : Bool

-- What `select!` returns: a message of the listener, with `none` for an error or a closed channel, or
-- one of the three intervals.
pub data Wakeup : Type 0 where
  listener : Option Str → Wakeup
  dirty_flush full_reconcile db_health_check : Wakeup

unfoldable pub on_payload : Str → Realtime → Realtime
unfolding set_insert
on_payload payload loop =
    if is_empty payload
    then record loop { should_full_reconcile = true }
    else (let change_event = parse_gateway_clients_change_payload payload in
        if is_empty change_event.client_id
        then record loop { should_full_reconcile = true }
        else record loop {
          dirty_client_ids = set_insert change_event.client_id loop.dirty_client_ids;
        })

-- The body of `select!`; `none` where the loop returns an error.
unfoldable pub on_wakeup : Answers → Wakeup → Realtime → Option Realtime
unfolding on_payload refresh_clients_by_ids mark_sync_success
on_wakeup answers (listener none) loop = none
on_wakeup answers (listener (some payload)) loop = some (on_payload payload loop)
on_wakeup answers dirty_flush loop =
    refresh_clients_by_ids answers loop.dirty_client_ids loop.registry >>= λ registry.
    some (record loop { registry = mark_sync_success registry; dirty_client_ids = [] })
on_wakeup answers full_reconcile loop = some (record loop { should_full_reconcile = true })
on_wakeup answers db_health_check loop =
    if answers.ping then some (record loop { registry = mark_sync_success loop.registry }) else none

unfoldable pub reconcile : Answers → Realtime → Option Realtime
unfolding reload
reconcile answers loop =
    if not loop.should_full_reconcile
    then some loop
    else reload answers loop.registry >>= λ registry.
        some (record { registry = registry; dirty_client_ids = []; should_full_reconcile = false })

-- `dirty_flush` with nothing dirty goes on to the next turn at once.
unfoldable pub idle : Wakeup → Realtime → Bool
idle dirty_flush loop = is_empty loop.dirty_client_ids
idle _ loop = false

unfoldable pub turn : Answers → Wakeup → Realtime → Option Realtime
unfolding idle on_wakeup reconcile
turn answers wakeup loop =
    if idle wakeup loop then some loop else on_wakeup answers wakeup loop >>= reconcile answers

-- From the first snapshot, taken after LISTEN, to the loop.
unfoldable pub start_realtime : Answers → Registry × InitialSync → Option (Realtime × InitialSync)
unfolding reload signal_initial_sync_ready
start_realtime answers (registry, initial) = reload answers registry >>= λ loaded. some (
  record { registry = loaded; dirty_client_ids = []; should_full_reconcile = false },
  signal_initial_sync_ready initial,
)

-- One round of `run_poll_loop`.
unfoldable pub poll : Answers → Registry × InitialSync → Option (Registry × InitialSync)
unfolding reload signal_initial_sync_ready
poll answers (registry, initial) =
    reload answers registry >>= λ loaded. some (loaded, signal_initial_sync_ready initial)
