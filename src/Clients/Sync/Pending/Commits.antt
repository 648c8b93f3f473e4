-- ===== src/Clients/Sync/Pending/Commits.antt =====
-- src/db_config.rs: a commit to the table, next to the realtime loop, and what its trigger announces.
use discord_gateway_proxy.Text.Trim.{Visible}
use discord_gateway_proxy.Clients.Rows.Grouping.{is_row_of, get-add_rows, enter_rows}
use discord_gateway_proxy.Clients.Payload.{notify_gateway_clients_change}
use discord_gateway_proxy.Clients.Payload.Roundtrip.{IsField, notify_gateway_clients_change-parse}
use discord_gateway_proxy.Clients.Rows.{group_rows_into_clients, SnapshotClientRow}
use discord_gateway_proxy.Clients.Sync.Pending.{
  announced, pending, World, IsField, notify_gateway_clients_change, is_row_of, InStep, RowChange,
  all_of, IsPlain, notification, touched, left_out, inserted, deleted, updated,
}
use discord_gateway_proxy.Prelude.{
  nat_eq, str_eq, arith, false, contains, Str, List, map, ◌≡◌, ◌++◌, filter, str_beq, ◌∷◌, inl,
  ◌||◌, [], inr, ◌∙◌, ap, sym, refl, is_empty, if◌then◌else◌, All, Bool-cases, contains-append,
  codes, str_beq_iff,
}
use discord_gateway_proxy.Map

announced-notify :
    (tg_op client_id guild_id : Str)
    → IsField tg_op
    → IsField client_id
    → All Visible guild_id
    → is_empty guild_id ≡ false
    → announced (notify_gateway_clients_change tg_op client_id guild_id) ≡ client_id
unfolding announced
announced-notify tg_op client_id guild_id o c g named =
    rw (announced, notify_gateway_clients_change-parse tg_op client_id guild_id o c g, named)

-- Where the guild is there, what is left out is not the client that is announced.
either_named :
    (tg_op client_id guild_id id : Str) (others : List Str)
    → IsField tg_op
    → IsField client_id
    → All Visible guild_id
    → contains (if is_empty guild_id then client_id ∷ others else others) id ≡ false
    → str_beq (announced (notify_gateway_clients_change tg_op client_id guild_id)) id ≡ false
    → str_beq client_id id ≡ false
unfolding contains
either_named tg_op client_id guild_id id others o c g out unnamed =
    elim (Bool-cases (is_empty guild_id)) [
      | inl none_named ↦ let out' = rw none_named at out in ground (arith, out')
      | inr named ↦
          ap (λ a. str_beq a id) (sym (announced-notify tg_op client_id guild_id o c g named))
          ∙ unnamed
    ]

-- A client that is neither named by the notification nor left out is not touched.
untouched_row :
    (change : RowChange) (id : Str)
    → IsPlain change
    → str_beq (announced (notification change)) id ≡ false
    → contains (left_out change) id ≡ false
    → contains (touched change) id ≡ false
unfolding contains
untouched_row (inserted new) id (c, g) unnamed out =
    let other =
      either_named (codes "INSERT") new.client_id new.guild_id id [] (omega arith, refl) c g out
        unnamed in
    ground (arith, other)
untouched_row (deleted old) id (c, g) unnamed out =
    let other =
      either_named (codes "DELETE") old.client_id old.guild_id id [] (omega arith, refl) c g out
        unnamed in
    ground (arith, other)
untouched_row (updated old new) id (c, g) unnamed out = elim (Bool-cases (is_empty new.guild_id)) [
  | inl none_named ↦ rw none_named at out
  | inr named ↦
      let new_other : str_beq new.client_id id ≡ false =
        ap (λ a. str_beq a id)
          (sym (
            announced-notify (codes "UPDATE") new.client_id new.guild_id (omega arith, refl) c g
              named))
        ∙ unnamed in
      let out' = rw named at out in
      elim (Bool-cases (str_beq old.client_id new.client_id)) [
        | inl same ↦
            let is_old = (str_beq_iff old.client_id new.client_id).0 same in
            let old_other = ap (λ a. str_beq a id) is_old ∙ new_other in
            ground (arith, old_other, new_other)
        | inr moved ↦ let out'' = rw moved at out' in ground (arith, out'', new_other)
      ]
]

untouched :
    (changes : List RowChange) (id : Str)
    → All IsPlain changes
    → contains (map announced (map notification changes)) id ≡ false
    → contains (all_of left_out changes) id ≡ false
    → contains (all_of touched changes) id ≡ false
unfolding contains all_of
untouched [] id plain unnamed out = refl
untouched (change ∷ changes) id plain unnamed out =
    let split = contains-append (left_out change) (all_of left_out changes) id in
    let here_not =
      untouched_row change id plain.0 (ground (arith, unnamed)) (ground (arith, split, out)) in
    let later_not =
      untouched changes id plain.1 (ground (arith, unnamed)) (ground (arith, split, out)) in
    contains-append (touched change) (all_of touched changes) id
    ∙ ground (arith, here_not, later_not)

contains-announced :
    (queue more : List Str) (id : Str)
    → contains (map announced (queue ++ more)) id
      ≡ (contains (map announced queue) id || contains (map announced more) id)
unfolding contains
contains-announced [] more id = refl
contains-announced (p ∷ queue) more id = ground (arith, contains-announced queue more id)

group-ext :
    (s t : List SnapshotClientRow) (id : Str)
    → filter (is_row_of id) s ≡ filter (is_row_of id) t
    → Map.get (group_rows_into_clients s) id ≡ Map.get (group_rows_into_clients t) id
unfolding group_rows_into_clients
group-ext s t id e =
    get-add_rows s [] id ∙ ap (enter_rows (Map.get [] id)) e ∙ sym (get-add_rows t [] id)

pub commit-InStep :
    (w : World) (table : List SnapshotClientRow) (changes : List RowChange)
    → All IsPlain changes
    → ((other : Str)
        → contains (all_of touched changes) other ≡ false
        → filter (is_row_of other) table ≡ filter (is_row_of other) w.table)
    → InStep w
    → InStep (record w {
      table = table;
      notifications = w.notifications ++ map notification changes;
      unannounced = all_of left_out changes ++ w.unannounced;
    })
unfolding pending
commit-InStep w table changes plain same h = record {
  clients = h.clients;
  held = h.held;
  settled = h.settled;
  seen = seen;
}
  where
    seen :
        (id : Str)
        → (contains w.loop.dirty_client_ids id
            || contains (map announced (w.notifications ++ map notification changes)) id)
          ≡ false
        → contains (all_of left_out changes ++ w.unannounced) id ≡ false
        → Map.get h.clients id ≡ Map.get (group_rows_into_clients table) id
    seen id p q =
        let queue = contains-announced w.notifications (map notification changes) id in
        let split = contains-append (all_of left_out changes) w.unannounced id in
        let other =
          untouched changes id plain (ground (arith, queue, p)) (ground (arith, split, q)) in
        h.seen id (ground (arith, queue, p)) (ground (arith, split, q))
        ∙ sym (group-ext table w.table id (same id other))
