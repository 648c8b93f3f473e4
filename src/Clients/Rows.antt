-- ===== src/Clients/Rows.antt =====
-- src/db_config.rs: rows of the table, grouped into clients.
pub mod Grouping
pub mod Secrets
use Prim.Native.Nat.{min}
use discord_gateway_proxy.Text.Number.{from_str}
use discord_gateway_proxy.Config.{ClientConfig, u64_values}
use discord_gateway_proxy.Map.{Map}
use discord_gateway_proxy.Prelude.{
  nat_eq, str_eq, arith, Str, Option, ℕ, List, some, none, if◌then◌else◌, ◌∷◌, [], not, str_beq,
  set_insert,
}
use discord_gateway_proxy.Map

pub record SnapshotClientRow : Type 0 where
  pub client_id : Str
  pub secret : Str
  pub guild_id : Str
  pub reachable_url : Option Str
  pub next_wake_at : Option ℕ

unfoldable pub earliest_wake : Option ℕ → Option ℕ → Option ℕ
earliest_wake none other = other
earliest_wake (some left) none = some left
earliest_wake (some left) (some right) = some (min left right)

-- `reachable_url` from any row.
unfoldable pub first_url : Option Str → Option Str → Option Str
first_url none other = other
first_url (some url) other = some url

-- The closure of `and_modify`.
unfoldable pub merge_row : SnapshotClientRow → ℕ → ClientConfig → ClientConfig
unfolding earliest_wake first_url
merge_row row guild_id client =
    if not (str_beq client.secret row.secret) then client else record client {
      guilds = set_insert guild_id client.guilds;
      reachable_url = first_url client.reachable_url row.reachable_url;
      next_wake_at = earliest_wake client.next_wake_at row.next_wake_at;
    }

-- The closure of `or_insert_with`.
unfoldable pub first_row : SnapshotClientRow → ℕ → ClientConfig
first_row row guild_id = record {
  secret = row.secret;
  guilds = guild_id ∷ [];
  reachable_url = row.reachable_url;
  next_wake_at = row.next_wake_at;
}

-- `entry(..).and_modify(..).or_insert_with(..)`.
unfoldable pub enter_row : SnapshotClientRow → ℕ → Option ClientConfig → ClientConfig
unfolding merge_row first_row
enter_row row guild_id none = first_row row guild_id
enter_row row guild_id (some client) = merge_row row guild_id client

-- One turn of the loop; a guild id that is no number skips the row.
unfoldable pub add_row : Map Str ClientConfig → SnapshotClientRow → Map Str ClientConfig
unfolding enter_row
add_row clients row = elim (from_str u64_values row.guild_id) [
  | none ↦ clients
  | some guild_id ↦
      Map.insert clients row.client_id (enter_row row guild_id (Map.get clients row.client_id))
]

unfoldable pub add_rows : Map Str ClientConfig → List SnapshotClientRow → Map Str ClientConfig
unfolding add_row
add_rows clients [] = clients
add_rows clients (row ∷ rows) = add_rows (add_row clients row) rows

unfoldable pub group_rows_into_clients : List SnapshotClientRow → Map Str ClientConfig
unfolding add_rows
group_rows_into_clients rows = add_rows [] rows
