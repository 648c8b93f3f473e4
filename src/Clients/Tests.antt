-- ===== src/Clients/Tests.antt =====
-- Runs of src/db_config.rs and src/auth.rs, and their theorems at concrete registries.
use discord_gateway_proxy.Clients.Rows.Grouping.{is_row_of}
use discord_gateway_proxy.Auth.{Justified, authenticate_gateway_token-Justified}
use discord_gateway_proxy.Clients.Sync.Refresh.{has_id, answers}
use discord_gateway_proxy.Clients.Authentication.{
  authenticate_client_with_id-invalid, authenticate_client_with_id-ok,
}
use discord_gateway_proxy.Clients.Payload.Roundtrip.{notify_gateway_clients_change-parse}
use discord_gateway_proxy.Clients.Sync.Pending.Complete.{
  no_lost_change, catch_up, catch_up_lem, started_world,
}
use discord_gateway_proxy.Clients.Rows.{SnapshotClientRow, group_rows_into_clients}
use discord_gateway_proxy.Clients.Sync.Pending.{
  commit, run, message, flush, next, here, World, here, WorldReach, notification, all_of, deleted,
  touched,
}
use discord_gateway_proxy.Clients.Sync.{
  InitialSync, Realtime, extend, remove_all, turn, listener, dirty_flush,
}
use discord_gateway_proxy.Clients.Payload.{
  parse_gateway_clients_change_payload, listener_payload, notify_gateway_clients_change,
  GatewayClientsChangeOperation,
}
use discord_gateway_proxy.Clients.Rows.Secrets.{secret_of, granted, group_rows_into_clients_lem}
use discord_gateway_proxy.Clients.{
  Registry, authenticate_client_with_id, registered, ClientAuthResult, client_data_state,
  ClientDataState,
}
use discord_gateway_proxy.Config.{ClientConfig, Config, default_cache}
use discord_gateway_proxy.Map
use discord_gateway_proxy.State.{SessionPrincipal}
use discord_gateway_proxy.Prelude.{
  nat_eq, str_eq, arith, none, some, [], ◌∷◌, true, false, refl, ◌<◌, List, Str, codes, ℕ, ◌≡◌, ◌≤◌,
  contains, if◌then◌else◌, ◌↔◌, ◌+◌, filter_map, ◌&&◌, ◌≢◌, ◌++◌, drop, filter, str_beq,
}

abbrev client_a : ClientConfig
client_a = record { secret = codes "s"; guilds = 7 ∷ []; reachable_url = none; next_wake_at = none }

abbrev registry : Registry
registry = record {
  clients = some ((codes "a", client_a) ∷ []);
  database_configured = true;
  last_successful_sync = 100;
  now = some 150;
}

authenticate_client_with_id-ok_example :
    (authenticate_client_with_id registry (codes "a:s") ≡ ClientAuthResult.ok (codes "a") (7 ∷ []))
    ↔ ((client_data_state registry ≢ ClientDataState.stale)
        × ((client : ClientConfig) × (registered registry (codes "a") ≡ some client)
            × (codes "a:s" ≡ codes "a" ++ b':' ∷ client.secret)
            × (contains (codes "a") b':' ≡ false)
            × (client.guilds ≡ 7 ∷ [])))
authenticate_client_with_id-ok_example =
    authenticate_client_with_id-ok registry (codes "a:s") (codes "a") (7 ∷ [])

authenticate_client_with_id-invalid_example :
    (0 < 100) × ((now : ℕ) → some 150 ≡ some now → now ≤ 100 + 120)
unfolding contains authenticate_client_with_id Map.get discord_gateway_proxy.Prelude.str_beq
authenticate_client_with_id-invalid_example =
    authenticate_client_with_id-invalid registry (codes "a") (codes "wrong") refl refl refl

abbrev rows : List SnapshotClientRow
rows =
    record {
      client_id = codes "a";
      secret = codes "new";
      guild_id = codes "111";
      reachable_url = none;
      next_wake_at = none;
    }
    ∷ record {
      client_id = codes "a";
      secret = codes "old";
      guild_id = codes "222";
      reachable_url = none;
      next_wake_at = none;
    }
    ∷ []

group_rows_into_clients_lem_example :
    (secret_of (Map.get (group_rows_into_clients rows) (codes "a")) ≡ some (codes "new"))
    × ((client : ClientConfig) (g : ℕ)
        → Map.get (group_rows_into_clients rows) (codes "a") ≡ some client
        → contains client.guilds g ≡ contains (filter_map (granted client.secret) rows) g)
unfolding discord_gateway_proxy.Prelude.find_map discord_gateway_proxy.Prelude.filter
    discord_gateway_proxy.Prelude.str_beq discord_gateway_proxy.Clients.Rows.Secrets.readable_secret
    discord_gateway_proxy.Text.Number.from_str
group_rows_into_clients_lem_example = group_rows_into_clients_lem rows (codes "a")

abbrev refreshed : Registry
refreshed = record registry {
  clients = some (
      extend (remove_all (codes "a" ∷ []) ((codes "a", client_a) ∷ []))
        (group_rows_into_clients rows));
}

notify_gateway_clients_change-parse_example :
    parse_gateway_clients_change_payload
      (listener_payload (notify_gateway_clients_change (codes "UPDATE") (codes "a") []))
    ≡ record {
      operation = GatewayClientsChangeOperation.unknown;
      client_id = codes "UPDATE\ta";
      guild_id = none;
    }
notify_gateway_clients_change-parse_example =
    notify_gateway_clients_change-parse (codes "UPDATE") (codes "a") [] (omega arith, refl)
      (omega arith, refl) tt

abbrev unsent : InitialSync
unsent = record { sender = true; ready = false }

abbrev sent : InitialSync
sent = record { sender = false; ready = true }

abbrev started : Realtime
started = record {
  registry = record registry {
    clients = some (group_rows_into_clients rows);
    last_successful_sync = 150;
  };
  dirty_client_ids = [];
  should_full_reconcile = false;
}

-- The newest row of client `a` is deleted: the change is announced, read and flushed.
abbrev fewer_rows : List SnapshotClientRow
fewer_rows = drop 1 rows

abbrev newest : SnapshotClientRow
newest = record {
  client_id = codes "a";
  secret = codes "new";
  guild_id = codes "111";
  reachable_url = none;
  next_wake_at = none;
}

abbrev announcement : Str
announcement = notification (deleted newest)

abbrev before : World
before = started_world rows [] started

abbrev dirty : Realtime
dirty = record started { dirty_client_ids = codes "a" ∷ [] }

abbrev flushed : Realtime
flushed = record started {
  registry = record registry {
    clients = some (
        extend (remove_all (codes "a" ∷ []) (group_rows_into_clients rows))
          (group_rows_into_clients (filter (has_id (codes "a" ∷ [])) fewer_rows)));
    last_successful_sync = 150;
  };
}

rows_of_others :
    (other : Str)
    → contains (all_of touched (deleted newest ∷ [])) other ≡ false
    → filter (is_row_of other) fewer_rows ≡ filter (is_row_of other) rows
unfolding filter contains all_of
rows_of_others other h =
    let different : str_beq (codes "a") other ≡ false = ground (arith, h) in rw different

abbrev after_commit : World
after_commit = started_world fewer_rows (announcement ∷ []) started

committed : WorldReach before after_commit
unfolding all_of
committed = next here (
    commit before fewer_rows (deleted newest ∷ []) (((omega arith, refl), omega arith), tt)
      rows_of_others)

read_turn :
    turn (answers fewer_rows) (listener (some (listener_payload announcement))) started ≡ some dirty
unfolding turn listener_payload notify_gateway_clients_change parse_gateway_clients_change_payload
read_turn = refl

flush_turn : turn (answers fewer_rows) dirty_flush dirty ≡ some flushed
unfolding turn
flush_turn = refl

no_lost_change_example :
    registered flushed.registry (codes "a")
    ≡ Map.get (group_rows_into_clients fewer_rows) (codes "a")
unfolding discord_gateway_proxy.Clients.Sync.start_realtime contains
no_lost_change_example =
    no_lost_change rows [] registry unsent started sent (started_world fewer_rows [] flushed) refl
      refl
      (next
        (next committed (
          run after_commit (listener (some (listener_payload announcement))) [] dirty
            (message announcement [] refl) read_turn))
        (run (started_world fewer_rows [] dirty) dirty_flush [] flushed flush flush_turn))
      refl refl (codes "a") refl

catch_up_lem_example :
    (after : Realtime) × (catch_up (answers fewer_rows) (announcement ∷ []) started ≡ some after)
    × ((id : Str)
        → contains [] id ≡ false
        → registered after.registry id ≡ Map.get (group_rows_into_clients fewer_rows) id)
unfolding discord_gateway_proxy.Clients.Sync.start_realtime
catch_up_lem_example =
    catch_up_lem rows [] registry unsent started sent after_commit refl refl committed

abbrev config : Config
config = record {
  token = codes "bot";
  port = 7878;
  shards = none;
  shard_start = none;
  shard_end = none;
  backpressure = 100;
  validate_token = true;
  twilight_http_proxy = none;
  gateway_url = none;
  externally_accessible_url = codes "wss://proxy";
  cache = default_cache;
  clients = [];
}

authenticate_gateway_token-Justified_example :
    Justified config registry (codes "a:s") (SessionPrincipal.client (codes "a")) (some (7 ∷ []))
unfolding discord_gateway_proxy.Auth.authenticate_gateway_token authenticate_client_with_id Map.get
    str_beq
authenticate_gateway_token-Justified_example =
    authenticate_gateway_token-Justified config registry (codes "a:s")
      (record {
        principal = SessionPrincipal.client (codes "a");
        authorized_guilds = some (7 ∷ []);
      })
      refl
