-- ===== src/Clients/Sync/Pending/Turns.antt =====
-- src/db_config.rs: each step next to a changing table keeps the registry in step.
use discord_gateway_proxy.Clients.Sync.Pending.Commits.{commit-InStep}
use discord_gateway_proxy.Clients.Sync.Refresh.{answers, has_id, get-refreshed}
use discord_gateway_proxy.Clients.Payload.{listener_payload, parse_gateway_clients_change_payload}
use discord_gateway_proxy.Config.{ClientConfig}
use discord_gateway_proxy.Clients.{Registry, ClientConfig}
use discord_gateway_proxy.Clients.Sync.{
  db_health_check, mark_sync_success, write_clients, reconcile, on_payload, Registry, reload,
  load_clients_snapshot, Realtime, turn, idle, on_wakeup, listener, refresh_clients_by_ids,
  dirty_flush, extend, remove_all, Wakeup, full_reconcile,
}
use discord_gateway_proxy.Clients.Rows.{group_rows_into_clients, SnapshotClientRow}
use discord_gateway_proxy.Clients.Sync.Pending.{
  flush, full, health, commit, run, here, next, message, announced, pending, World,
  listener_payload, InStep, answers, Received, message, WorldReach, next, commit, run, here,
}
use discord_gateway_proxy.Prelude.{
  nat_eq, str_eq, arith, true, false, contains, Str, List, map, ◌≡◌, filter, str_beq, Option-cases,
  some, ◌∷◌, inl, Every, ◌||◌, [], inr, contains-set_insert, ◌∙◌, ap, Every-some, refl, Every-test,
  not, is_empty, Bool, if◌then◌else◌,
}
use discord_gateway_proxy.Map

pub clients-mark : (registry : Registry) → (mark_sync_success registry).clients ≡ registry.clients
unfolding mark_sync_success
clients-mark registry = elim (Option-cases registry.now) [
  | inl e ↦ rw (e, mark_sync_success)
  | inr (now, e) ↦ rw (e, mark_sync_success)
]

pub clients-write :
    (change : Map.Map Str ClientConfig → Map.Map Str ClientConfig) (registry : Registry)
    (clients : Map.Map Str ClientConfig)
    → registry.clients ≡ some clients
    → (write_clients change registry).clients ≡ some (change clients)
unfolding write_clients
clients-write change registry clients e = rw (e, write_clients)

reconcile-InStep :
    (w : World) (clients : Map.Map Str ClientConfig)
    → w.loop.registry.clients ≡ some clients
    → (w.loop.should_full_reconcile ≡ false
        → (id : Str) → pending w id ≡ false
        → contains w.unannounced id ≡ false
        → Map.get clients id ≡ Map.get (group_rows_into_clients w.table) id)
    → Every (λ loop. InStep (record w { loop = loop })) (reconcile (answers w.table) w.loop)
unfolding reconcile reload load_clients_snapshot
reconcile-InStep w clients held seen =
    Every-test (not w.loop.should_full_reconcile) _ _
      (λ none_due. Every-some w.loop (record {
        clients = clients;
        held = held;
        settled = ground arith;
        seen = seen (ground arith);
      }))
      (λ due. Every-some _ (record {
        clients = group_rows_into_clients w.table;
        held =
            clients-write (λ _. group_rows_into_clients w.table) (mark_sync_success w.loop.registry)
              clients (clients-mark w.loop.registry ∙ held);
        settled = refl;
        seen = λ id p q. refl;
      }))

registry-on_payload :
    (payload : Str) (loop : Realtime) → (on_payload payload loop).registry ≡ loop.registry
unfolding on_payload
registry-on_payload payload loop = ground arith

dirty-on_payload :
    (payload : Str) (loop : Realtime) (id : Str)
    → (on_payload (listener_payload payload) loop).should_full_reconcile ≡ false
    → contains (on_payload (listener_payload payload) loop).dirty_client_ids id
      ≡ (str_beq (announced payload) id || contains loop.dirty_client_ids id)
unfolding on_payload announced
dirty-on_payload payload loop id h = ground (
  arith,
  contains-set_insert (parse_gateway_clients_change_payload (listener_payload payload)).client_id id
      loop.dirty_client_ids,
)

message-InStep :
    (w : World) (payload : Str) (rest : List Str)
    → w.notifications ≡ payload ∷ rest
    → InStep w
    → Every
        (λ loop. InStep (record w { notifications = rest; loop = loop }))
        (turn (answers w.table) (listener (some (listener_payload payload))) w.loop)
unfolding turn idle on_wakeup pending contains
message-InStep w payload rest e h =
    reconcile-InStep
      (record w { notifications = rest; loop = on_payload (listener_payload payload) w.loop })
      h.clients
      (ap (λ (r : Registry). r.clients) (registry-on_payload (listener_payload payload) w.loop)
        ∙ h.held)
      (λ still id p q. h.seen id (unseen still id p) q)
  where
    unseen :
        (on_payload (listener_payload payload) w.loop).should_full_reconcile ≡ false
        → (id : Str)
        → (contains (on_payload (listener_payload payload) w.loop).dirty_client_ids id
            || contains (map announced rest) id)
          ≡ false
        → (contains w.loop.dirty_client_ids id || contains (map announced w.notifications) id)
          ≡ false
    unseen still id p =
        let dirty = dirty-on_payload payload w.loop id still in
        ap (λ queue. contains w.loop.dirty_client_ids id || contains (map announced queue) id) e
        ∙ ground (arith, dirty, p)

refresh-dirty :
    (table : List SnapshotClientRow) (ids : List Str) (registry : Registry)
    → is_empty ids ≡ false
    → refresh_clients_by_ids (answers table) ids registry
      ≡ some (
          write_clients
            (λ clients.
              extend (remove_all ids clients) (group_rows_into_clients (filter (has_id ids) table)))
            registry)
unfolding refresh_clients_by_ids
refresh-dirty table ids registry e = rw (refresh_clients_by_ids, e)

flush-InStep :
    (w : World)
    → InStep w
    → Every (λ loop. InStep (record w { loop = loop })) (turn (answers w.table) dirty_flush w.loop)
unfolding turn idle on_wakeup pending contains
flush-InStep w h =
    Every-test (is_empty ids) _ _ (λ nothing. Every-some w.loop h)
      (λ some_dirty. rw (refresh-dirty w.table ids w.loop.registry some_dirty) (
        reconcile-InStep
          (record w {
            loop = record w.loop {
              registry = mark_sync_success (write_clients fresh w.loop.registry);
              dirty_client_ids = [];
            };
          })
          (fresh h.clients)
          (clients-mark (write_clients fresh w.loop.registry)
            ∙ clients-write fresh w.loop.registry h.clients h.held)
          (λ still id p q.
            get-refreshed w.table ids h.clients id ∙ settle id (contains ids id) refl p q)))
  where
    ids : List Str
    ids = w.loop.dirty_client_ids

    fresh : Map.Map Str ClientConfig → Map.Map Str ClientConfig
    fresh clients =
        extend (remove_all ids clients) (group_rows_into_clients (filter (has_id ids) w.table))

    settle :
        (id : Str) (dirty : Bool)
        → contains ids id ≡ dirty
        → contains (map announced w.notifications) id ≡ false
        → contains w.unannounced id ≡ false
        → (if dirty then Map.get (group_rows_into_clients w.table) id else Map.get h.clients id)
          ≡ Map.get (group_rows_into_clients w.table) id
    settle id true e p q = refl
    settle id false e p q = h.seen id (ground (arith, e, p)) q

-- Every turn, whatever wakes it.
pub turn-InStep :
    (w : World) (wakeup : Wakeup) (rest : List Str)
    → Received w.notifications wakeup rest
    → InStep w
    → Every
        (λ loop. InStep (record w { notifications = rest; loop = loop }))
        (turn (answers w.table) wakeup w.loop)
unfolding turn idle on_wakeup pending contains
turn-InStep w _ _ (message payload rest e) h = message-InStep w payload rest e h
turn-InStep w dirty_flush _ flush h = flush-InStep w h
turn-InStep w full_reconcile _ full h =
    reconcile-InStep (record w { loop = record w.loop { should_full_reconcile = true } }) h.clients
      h.held (λ still id p q. cc still)
turn-InStep w db_health_check _ health h =
    reconcile-InStep
      (record w { loop = record w.loop { registry = mark_sync_success w.loop.registry } }) h.clients
      (clients-mark w.loop.registry ∙ h.held) (λ still id p q. h.seen id p q)

-- From the first snapshot on, whatever was committed since LISTEN, after any sequence of commits and
-- turns: a client whose changes were all announced, with none left to see, is registered as a full
-- reload would do it.
pub WorldReach-InStep : (w t : World) → InStep w → WorldReach w t → InStep t
WorldReach-InStep w t h here = h
WorldReach-InStep w t h (next r (commit u table changes plain same)) =
    commit-InStep u table changes plain same (WorldReach-InStep w u h r)
WorldReach-InStep w t h (next r (run u wakeup rest loop received e)) =
    (turn-InStep u wakeup rest received (WorldReach-InStep w u h r)).at loop e
