-- ===== src/Clients/Sync/Pending/Complete.antt =====
-- src/db_config.rs: no change of the table is lost.
use discord_gateway_proxy.Clients.Sync.Pending.Turns.{
  WorldReach-InStep, clients-write, clients-mark, turn-InStep,
}
use discord_gateway_proxy.Clients.Payload.{listener_payload}
use discord_gateway_proxy.Clients.Sync.Refresh.{answers}
use discord_gateway_proxy.Clients.Rows.{SnapshotClientRow, group_rows_into_clients}
use discord_gateway_proxy.Clients.Sync.Pending.{
  pending, World, answers, InStep, WorldReach, listener_payload, announced, flush, message,
}
use discord_gateway_proxy.Clients.{registered, Registry}
use discord_gateway_proxy.Clients.Sync.{
  db_health_check, start_realtime, Answers, reload, load_clients_snapshot, SnapshotClientRow,
  Realtime, InitialSync, turn, dirty_flush, listener, idle, mark_sync_success, on_wakeup, reconcile,
  refresh_clients_by_ids, Wakeup, full_reconcile,
}
use mathlib.Core.Option.{some-injective}
use discord_gateway_proxy.Prelude.{
  nat_eq, str_eq, arith, true, false, List, contains, Str, Option, is_some, ◌≡◌, ◌∷◌, some,
  Option-cases, [], ◌>>=◌, inl, inr, ◌||◌, subst, map, ◌∙◌, refl, ◌≢◌, none, is_empty, Every,
  Every-test, Every-some, Every-bind, not,
}
use discord_gateway_proxy.Map

-- The world when the loop starts: `notifications` were sent between LISTEN and the first snapshot.
abbrev pub started_world : List SnapshotClientRow → List Str → Realtime → World
started_world table notifications loop = record {
  table = table;
  notifications = notifications;
  unannounced = [];
  loop = loop;
}

start-InStep :
    (table : List SnapshotClientRow) (notifications : List Str) (registry : Registry)
    (initial : InitialSync) (loop : Realtime) (told : InitialSync)
    → is_some registry.clients ≡ true
    → start_realtime (answers table) (registry, initial) ≡ some (loop, told)
    → InStep (started_world table notifications loop)
unfolding start_realtime reload load_clients_snapshot
start-InStep table notifications registry initial loop told held h =
    elim (Option-cases registry.clients) [
      | inl e ↦ cc (rw e at held)
      | inr (clients, e) ↦
          subst
            (λ (started : Realtime × InitialSync).
              InStep (started_world table notifications started.0))
            (some-injective _ _ h)
            (record {
              clients = group_rows_into_clients table;
              held =
                  clients-write (λ _. group_rows_into_clients table) (mark_sync_success registry)
                    clients (clients-mark registry ∙ e);
              settled = refl;
              seen = λ id p q. refl;
            })
    ]

-- From the start of the loop, after any turns of the loop and any commits to the table, of any rows of
-- visible text: once the channel is read and nothing is dirty, every client is registered exactly as
-- the table says, but for one whose row was moved to another client id, or was changed while its
-- guild was empty.
pub no_lost_change :
    (table : List SnapshotClientRow) (notifications : List Str) (registry : Registry)
    (initial : InitialSync) (loop : Realtime) (told : InitialSync) (w : World)
    → is_some registry.clients ≡ true
    → start_realtime (answers table) (registry, initial) ≡ some (loop, told)
    → WorldReach (started_world table notifications loop) w
    → w.notifications ≡ []
    → w.loop.dirty_client_ids ≡ []
    → (id : Str) → contains w.unannounced id ≡ false
    → registered w.loop.registry id ≡ Map.get (group_rows_into_clients w.table) id
unfolding registered pending contains
no_lost_change table notifications registry initial loop told w held h reach queue clean id
      announced_all =
    let step =
      WorldReach-InStep (started_world table notifications loop) w
        (start-InStep table notifications registry initial loop told held h) reach in
    rw (registered, step.held)
      (step.seen id (nothing_left w.notifications w.loop.dirty_client_ids queue clean id)
        announced_all)
  where
    nothing_left :
        (queue dirty : List Str)
        → queue ≡ []
        → dirty ≡ []
        → (id : Str) → (contains dirty id || contains (map announced queue) id) ≡ false
    nothing_left queue dirty q d id = rw (q, d)

-- The loop reads a whole channel and then flushes.
unfoldable pub catch_up : Answers → List Str → Realtime → Option Realtime
catch_up answers [] loop = turn answers dirty_flush loop
catch_up answers (payload ∷ queue) loop =
    turn answers (listener (some (listener_payload payload))) loop >>= catch_up answers queue

-- A turn does not fail while the database answers.
turn_total :
    (table : List SnapshotClientRow) (wakeup : Wakeup) (loop : Realtime)
    → wakeup ≢ listener none
    → is_some (turn (answers table) wakeup loop) ≡ true
unfolding turn idle on_wakeup reconcile reload load_clients_snapshot refresh_clients_by_ids
turn_total table (listener none) loop ne = absurd (ne refl)
turn_total table (listener (some payload)) loop ne = ground arith
turn_total table dirty_flush loop ne = ground arith
turn_total table full_reconcile loop ne = ground arith
turn_total table db_health_check loop ne = ground arith

is_some_inv {ℓ} : {A : Type ℓ} (o : Option A) → is_some o ≡ true → (a : A) × (o ≡ some a)
is_some_inv none h = cc h
is_some_inv (some a) h = (a, refl)

is_empty_inv : (ids : List Str) → is_empty ids ≡ true → ids ≡ []
is_empty_inv [] h = refl
is_empty_inv (id ∷ ids) h = cc h

abbrev Clean : Realtime → Type 0
Clean loop = loop.dirty_client_ids ≡ []

on_wakeup-Clean :
    (table : List SnapshotClientRow) (loop : Realtime)
    → Every Clean (on_wakeup (answers table) dirty_flush loop)
unfolding on_wakeup
on_wakeup-Clean table loop =
    Every-bind (refresh_clients_by_ids (answers table) loop.dirty_client_ids loop.registry) _
      (λ registry e. Every-some _ refl)

reconcile-Clean :
    (table : List SnapshotClientRow) (loop : Realtime)
    → Clean loop
    → Every Clean (reconcile (answers table) loop)
unfolding reconcile
reconcile-Clean table loop h =
    Every-test (not loop.should_full_reconcile) _ _ (λ none_due. Every-some loop h)
      (λ due.
        Every-bind (reload (answers table) loop.registry) finished
          (λ registry e. Every-some (settled registry) refl))
  where
    settled : Registry → Realtime
    settled registry = record {
      registry = registry;
      dirty_client_ids = [];
      should_full_reconcile = false;
    }

    finished : Registry → Option Realtime
    finished registry = some (settled registry)

-- A flush leaves nothing dirty.
flush-Clean :
    (table : List SnapshotClientRow) (loop : Realtime)
    → Every Clean (turn (answers table) dirty_flush loop)
unfolding turn idle
flush-Clean table loop =
    Every-test (is_empty loop.dirty_client_ids) _ _
      (λ nothing. Every-some loop (is_empty_inv loop.dirty_client_ids nothing))
      (λ some_dirty.
        Every-bind (on_wakeup (answers table) dirty_flush loop) _
          (λ after e. reconcile-Clean table after ((on_wakeup-Clean table loop).at after e)))

catch_up-InStep :
    (table : List SnapshotClientRow) (queue unannounced : List Str) (loop : Realtime)
    → InStep
        (record { table = table; notifications = queue; unannounced = unannounced; loop = loop })
    → (after : Realtime) × (catch_up (answers table) queue loop ≡ some after)
      × ((id : Str)
          → contains unannounced id ≡ false
          → registered after.registry id ≡ Map.get (group_rows_into_clients table) id)
unfolding catch_up pending contains registered
catch_up-InStep table [] unannounced loop h =
    let (after, e) = is_some_inv _ (turn_total table dirty_flush loop (λ r. cc r)) in
    let done =
      (turn-InStep
          (record { table = table; notifications = []; unannounced = unannounced; loop = loop })
          dirty_flush [] flush h).at
        after e in
    (
      after,
      e,
      λ id q.
          rw (registered, done.held) (done.seen id (rw ((flush-Clean table loop).at after e)) q),
    )
catch_up-InStep table (payload ∷ queue) unannounced loop h =
    let (next_loop, e) =
      is_some_inv _
        (turn_total table (listener (some (listener_payload payload))) loop (λ r. cc r)) in
    let w : World = record {
      table = table;
      notifications = payload ∷ queue;
      unannounced = unannounced;
      loop = loop;
    } in
    let step =
      (turn-InStep w (listener (some (listener_payload payload))) queue (message payload queue refl)
          h).at
        next_loop e in
    let (after, ran, agree) = catch_up-InStep table queue unannounced next_loop step in
    (after, rw (catch_up, e) ran, agree)

-- From the start of the loop, after any turns of the loop and any commits to the table as for
-- `no_lost_change`, reading what is in the channel and one flush bring the registry to what the table
-- says of every client but those that are excepted there, if the database answers every query and
-- nothing is committed meanwhile.
pub catch_up_lem :
    (table : List SnapshotClientRow) (notifications : List Str) (registry : Registry)
    (initial : InitialSync) (loop : Realtime) (told : InitialSync) (w : World)
    → is_some registry.clients ≡ true
    → start_realtime (answers table) (registry, initial) ≡ some (loop, told)
    → WorldReach (started_world table notifications loop) w
    → (after : Realtime) × (catch_up (answers w.table) w.notifications w.loop ≡ some after)
      × ((id : Str)
          → contains w.unannounced id ≡ false
          → registered after.registry id ≡ Map.get (group_rows_into_clients w.table) id)
catch_up_lem table notifications registry initial loop told w held h reach =
    catch_up-InStep w.table w.notifications w.unannounced w.loop (
      WorldReach-InStep (started_world table notifications loop) w
        (start-InStep table notifications registry initial loop told held h) reach)
