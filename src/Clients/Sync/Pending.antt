-- ===== src/Clients/Sync/Pending.antt =====
-- src/db_config.rs: the realtime loop next to a table that changes while it runs. Every change of the
-- table is announced by the trigger; what is announced waits in the listener's channel.
pub mod Commits
pub mod Turns
pub mod Complete
use discord_gateway_proxy.Text.Trim.{Visible}
use discord_gateway_proxy.Clients.Sync.Refresh.{answers}
use discord_gateway_proxy.Clients.Rows.Grouping.{is_row_of}
use discord_gateway_proxy.Clients.Payload.Roundtrip.{IsField, notify_gateway_clients_change-parse}
use discord_gateway_proxy.Config.{ClientConfig}
use discord_gateway_proxy.Clients.Sync.{
  Wakeup, Realtime, listener, dirty_flush, full_reconcile, db_health_check, turn, Answers,
}
use discord_gateway_proxy.Clients.Payload.{
  parse_gateway_clients_change_payload, listener_payload, notify_gateway_clients_change,
  GatewayClientsChangeEvent,
}
use discord_gateway_proxy.Clients.Rows.{SnapshotClientRow, group_rows_into_clients}
use discord_gateway_proxy.Prelude.{
  nat_eq, str_eq, arith, true, false, List, Str, contains, Bool, ◌||◌, ◌∷◌, str_beq, ◌≡◌, map,
  filter, some, ap, ◌++◌, [], ◌∙◌, All, codes, is_empty, if◌then◌else◌,
}
use discord_gateway_proxy.Map

-- `unannounced` are the clients whose rows changed with no notification that names them.
pub record World : Type 0 where
  pub table : List SnapshotClientRow
  pub notifications : List Str
  pub unannounced : List Str
  pub loop : Realtime

-- The change of a row, by the rows that the trigger calls OLD and NEW.
pub data RowChange : Type 0 where
  inserted deleted : SnapshotClientRow → RowChange
  updated : SnapshotClientRow → SnapshotClientRow → RowChange

abbrev pub touched : RowChange → List Str
touched (inserted new) = new.client_id ∷ []
touched (deleted old) = old.client_id ∷ []
touched (updated old new) = old.client_id ∷ new.client_id ∷ []

-- What the trigger sends of it.
abbrev pub notification : RowChange → Str
notification (inserted new) =
    notify_gateway_clients_change (codes "INSERT") new.client_id new.guild_id
notification (deleted old) =
    notify_gateway_clients_change (codes "DELETE") old.client_id old.guild_id
notification (updated old new) =
    notify_gateway_clients_change (codes "UPDATE") new.client_id new.guild_id

-- Its clients that the notification does not name: the one that a row is taken from, and all where the
-- guild is empty.
abbrev pub left_out : RowChange → List Str
left_out (inserted new) = if is_empty new.guild_id then new.client_id ∷ [] else []
left_out (deleted old) = if is_empty old.guild_id then old.client_id ∷ [] else []
left_out (updated old new) =
    if is_empty new.guild_id
    then old.client_id ∷ new.client_id ∷ []
    else if str_beq old.client_id new.client_id
    then []
    else old.client_id ∷ []

-- All its text is visible characters, and its client has a name.
abbrev pub IsPlainRow : SnapshotClientRow → Type 0
IsPlainRow row = IsField row.client_id × All Visible row.guild_id

abbrev pub IsPlain : RowChange → Type 0
IsPlain (inserted new) = IsPlainRow new
IsPlain (deleted old) = IsPlainRow old
IsPlain (updated old new) = IsPlainRow new

unfoldable pub all_of : (RowChange → List Str) → List RowChange → List Str
all_of ids [] = []
all_of ids (change ∷ changes) = ids change ++ all_of ids changes

-- The client that the loop reads from a notification.
unfoldable pub announced : Str → Str
announced payload = (parse_gateway_clients_change_payload (listener_payload payload)).client_id

-- Whether a change of the client is still to be seen.
unfoldable pub pending : World → Str → Bool
unfolding announced
pending world id =
    contains world.loop.dirty_client_ids id || contains (map announced world.notifications) id

-- What a turn may receive from the channel, or an interval.
pub data Received (queue : List Str) : Wakeup → List Str → Type 0 where
  message :
      (payload : Str) (rest : List Str)
      → queue ≡ payload ∷ rest
      → Received queue (listener (some (listener_payload payload))) rest
  flush : Received queue dirty_flush queue
  full : Received queue full_reconcile queue
  health : Received queue db_health_check queue

-- A commit changes any rows of any clients, each with its notification; or the loop takes a turn.
pub data WorldStep : World → World → Type 0 where
  commit :
      (w : World) (table : List SnapshotClientRow) (changes : List RowChange)
      → All IsPlain changes
      → ((other : Str)
          → contains (all_of touched changes) other ≡ false
          → filter (is_row_of other) table ≡ filter (is_row_of other) w.table)
      → WorldStep w (record w {
        table = table;
        notifications = w.notifications ++ map notification changes;
        unannounced = all_of left_out changes ++ w.unannounced;
      })
  run :
      (w : World) (wakeup : Wakeup) (rest : List Str) (loop : Realtime)
      → Received w.notifications wakeup rest
      → turn (answers w.table) wakeup w.loop ≡ some loop
      → WorldStep w (record w { notifications = rest; loop = loop })

pub data WorldReach (w : World) : World → Type 0 where
  here : WorldReach w w
  next : {t u : World} → WorldReach w t → WorldStep t u → WorldReach w u

-- Each client whose changes were announced and have all been seen is registered as a full reload would
-- register it.
pub record InStep (w : World) : Type 0 where
  pub clients : Map.Map Str ClientConfig
  pub held : w.loop.registry.clients ≡ some clients
  pub settled : w.loop.should_full_reconcile ≡ false
  pub seen :
      (id : Str)
      → pending w id ≡ false
      → contains w.unannounced id ≡ false
      → Map.get clients id ≡ Map.get (group_rows_into_clients w.table) id
