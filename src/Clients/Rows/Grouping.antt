-- ===== src/Clients/Rows/Grouping.antt =====
-- src/db_config.rs: a client as `group_rows_into_clients` makes it depends on its own rows only.
use discord_gateway_proxy.Text.Number.{from_str}
use discord_gateway_proxy.Map.{Map, insert-Distinct, get-insert}
use discord_gateway_proxy.Config.{ClientConfig, u64_values}
use discord_gateway_proxy.Clients.Rows.{
  enter_row, add_rows, SnapshotClientRow, add_row, ClientConfig, Map, from_str, u64_values,
}
use discord_gateway_proxy.Prelude.{
  nat_eq, str_eq, arith, Str, Option, Bool, filter, str_beq, List, ◌∷◌, ◌≡◌, [], Option-cases, refl,
  none, inl, some, inr, if◌then◌else◌, Bool-cases, ◌∙◌, ap, str_beq_iff,
}
use discord_gateway_proxy.Map

abbrev pub is_row_of : Str → SnapshotClientRow → Bool
is_row_of client_id row = str_beq row.client_id client_id

-- What a row does to the entry of its client.
unfoldable pub row_step : SnapshotClientRow → Option ClientConfig → Option ClientConfig
row_step row entry = elim (from_str u64_values row.guild_id) [
  | none ↦ entry
  | some guild_id ↦ some (enter_row row guild_id entry)
]

unfoldable pub enter_rows : Option ClientConfig → List SnapshotClientRow → Option ClientConfig
enter_rows entry [] = entry
enter_rows entry (row ∷ rows) = enter_rows (row_step row entry) rows

get-add_row :
    (clients : Map Str ClientConfig) (row : SnapshotClientRow) (client_id : Str)
    → Map.get (add_row clients row) client_id ≡ (
        if is_row_of client_id row
        then row_step row (Map.get clients client_id)
        else Map.get clients client_id)
unfolding add_row row_step
get-add_row clients row client_id = elim (Option-cases (from_str u64_values row.guild_id)) [
  | inl e ↦ rw (e, add_row, row_step) ground arith
  | inr (guild_id, e) ↦ elim (Bool-cases (str_beq row.client_id client_id)) [
    | inl same ↦
        rw (e, add_row, row_step, get-insert, same)
          (ap (λ k. some (enter_row row guild_id (Map.get clients k)))
            ((str_beq_iff row.client_id client_id).0 same))
    | inr other ↦ rw (e, add_row, row_step, get-insert, other)
  ]
]

pub get-add_rows :
    (rows : List SnapshotClientRow) (clients : Map Str ClientConfig) (client_id : Str)
    → Map.get (add_rows clients rows) client_id
      ≡ enter_rows (Map.get clients client_id) (filter (is_row_of client_id) rows)
unfolding add_rows enter_rows filter
get-add_rows [] clients client_id = refl
get-add_rows (row ∷ rows) clients client_id = elim (Bool-cases (is_row_of client_id row)) [
  | inl own ↦ get-add_rows rows (add_row clients row) client_id ∙ rw (get-add_row, own)
  | inr other ↦ get-add_rows rows (add_row clients row) client_id ∙ rw (get-add_row, other)
]

pub add_rows-Distinct :
    (rows : List SnapshotClientRow) (clients : Map Str ClientConfig)
    → Map.Distinct clients
    → Map.Distinct (add_rows clients rows)
unfolding add_rows add_row
add_rows-Distinct [] clients d = d
add_rows-Distinct (row ∷ rows) clients d = elim (Option-cases (from_str u64_values row.guild_id)) [
  | inl e ↦ rw (e, add_row) (add_rows-Distinct rows clients d)
  | inr (guild_id, e) ↦
      rw (e, add_row)
        (add_rows-Distinct rows
          (Map.insert clients row.client_id
            (enter_row row guild_id (Map.get clients row.client_id)))
          (insert-Distinct clients row.client_id
            (enter_row row guild_id (Map.get clients row.client_id)) d))
]
