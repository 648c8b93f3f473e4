-- ===== src/Clients/Rows/Secrets.antt =====
-- src/db_config.rs: the secret and the guilds that `group_rows_into_clients` gives a client whose
-- rows do not agree. The query lists the newest row first.
use discord_gateway_proxy.Config.{ClientConfig, u64_values}
use discord_gateway_proxy.Text.Number.{from_str}
use discord_gateway_proxy.Clients.Rows.Grouping.{enter_rows, row_step, is_row_of, get-add_rows}
use discord_gateway_proxy.Clients.Rows.{
  SnapshotClientRow, merge_row, from_str, ClientConfig, u64_values, enter_row, first_row,
  group_rows_into_clients,
}
use discord_gateway_proxy.Prelude.{
  nat_eq, str_eq, arith, Str, Option, ℕ, if◌then◌else◌, some, ◌≡◌, contains, str_beq, ◌>>=◌, none,
  List, filter_map, ◌&&◌, ◌∷◌, ◌||◌, ◌==◌, Option-cases, contains-set_insert, inl, inr, ◌∙◌, ap, [],
  refl, Bool, find_map, false, filter, sym, subst, str_beq_refl,
}
use discord_gateway_proxy.Map
use mathlib.Core.Option.{some-injective}

-- The guild that a row grants to a client with this secret.
unfoldable pub granted : Str → SnapshotClientRow → Option ℕ
granted secret row = if str_beq secret row.secret then from_str u64_values row.guild_id else none

-- The secret of a row whose guild id is a number.
unfoldable pub readable_secret : SnapshotClientRow → Option Str
readable_secret row = from_str u64_values row.guild_id >>= λ guild_id. some row.secret

abbrev pub secret_of : Option ClientConfig → Option Str
secret_of none = none
secret_of (some client) = some client.secret

abbrev is_some_of : ℕ → Option ℕ → Bool
is_some_of g none = false
is_some_of g (some n) = n == g

merge_row-secret :
    (row : SnapshotClientRow) (guild_id : ℕ) (client : ClientConfig)
    → (merge_row row guild_id client).secret ≡ client.secret
unfolding merge_row
merge_row-secret row guild_id client = ground arith

contains-merge_row :
    (row : SnapshotClientRow) (guild_id g : ℕ) (client : ClientConfig)
    → contains (merge_row row guild_id client).guilds g
      ≡ ((str_beq client.secret row.secret && guild_id == g) || contains client.guilds g)
unfolding merge_row
contains-merge_row row guild_id g client =
    ground (arith, contains-set_insert guild_id g client.guilds)

merged_secret :
    (rows : List SnapshotClientRow) (client : ClientConfig)
    → secret_of (enter_rows (some client) rows) ≡ some client.secret
unfolding enter_rows row_step enter_row
merged_secret [] client = refl
merged_secret (row ∷ rows) client = elim (Option-cases (from_str u64_values row.guild_id)) [
  | inl e ↦ rw (e, row_step) (merged_secret rows client)
  | inr (guild_id, e) ↦
      rw (e, row_step)
        (merged_secret rows (merge_row row guild_id client)
          ∙ ap some (merge_row-secret row guild_id client))
]

-- What a row adds to the guilds that the rows after it grant.
contains-granted :
    (secret : Str) (row : SnapshotClientRow) (rows : List SnapshotClientRow) (g : ℕ)
    → contains (filter_map (granted secret) (row ∷ rows)) g
      ≡ (is_some_of g (granted secret row) || contains (filter_map (granted secret) rows) g)
unfolding filter_map contains granted
contains-granted secret row rows g = elim (Option-cases (granted secret row)) [
  | inl e ↦ rw (e, filter_map)
  | inr (guild_id, e) ↦ rw (e, filter_map)
]

unread :
    (secret : Str) (row : SnapshotClientRow) (rows : List SnapshotClientRow) (g : ℕ)
    (guilds : List ℕ)
    → from_str u64_values row.guild_id ≡ none
    → (contains guilds g || contains (filter_map (granted secret) rows) g)
      ≡ (contains guilds g || contains (filter_map (granted secret) (row ∷ rows)) g)
unfolding granted
unread secret row rows g guilds e = rw (contains-granted, e) ground arith

read :
    (secret : Str) (row : SnapshotClientRow) (rows : List SnapshotClientRow) (guild_id g : ℕ)
    (held : Bool)
    → from_str u64_values row.guild_id ≡ some guild_id
    → (((str_beq secret row.secret && guild_id == g) || held)
        || contains (filter_map (granted secret) rows) g)
      ≡ (held || contains (filter_map (granted secret) (row ∷ rows)) g)
unfolding granted
read secret row rows guild_id g held e = rw (contains-granted, e) ground arith

merged_guilds :
    (rows : List SnapshotClientRow) (client result : ClientConfig)
    → enter_rows (some client) rows ≡ some result
    → (g : ℕ)
    → contains result.guilds g
      ≡ (contains client.guilds g || contains (filter_map (granted client.secret) rows) g)
unfolding enter_rows row_step enter_row filter_map contains
merged_guilds [] client result h g = ground arith
merged_guilds (row ∷ rows) client result h g =
    elim (Option-cases (from_str u64_values row.guild_id)) [
      | inl e ↦
          merged_guilds rows client result (rw (e, row_step) at h) g
          ∙ unread client.secret row rows g client.guilds e
      | inr (guild_id, e) ↦
          merged_guilds rows (merge_row row guild_id client) result (rw (e, row_step) at h) g
          ∙ rw (merge_row-secret, contains-merge_row)
              (read client.secret row rows guild_id g (contains client.guilds g) e)
    ]

first_guilds :
    (row : SnapshotClientRow) (rows : List SnapshotClientRow) (guild_id g : ℕ)
    (client : ClientConfig)
    → from_str u64_values row.guild_id ≡ some guild_id
    → enter_rows (some (first_row row guild_id)) rows ≡ some client
    → contains client.guilds g ≡ contains (filter_map (granted client.secret) (row ∷ rows)) g
unfolding first_row contains granted
first_guilds row rows guild_id g client e h =
    let secret =
      some-injective _ _ (sym (ap secret_of h) ∙ merged_secret rows (first_row row guild_id)) in
    merged_guilds rows (first_row row guild_id) client h g
    ∙ subst
        (λ s.
          ((guild_id == g || false) || contains (filter_map (granted row.secret) rows) g)
          ≡ contains (filter_map (granted s) (row ∷ rows)) g)
        (sym secret) (rw (contains-granted, e, str_beq_refl row.secret) ground arith)

-- The client of some rows: the secret of the newest row that can be read, and the guilds of exactly
-- the rows that have this secret.
enter_rows_lem :
    (rows : List SnapshotClientRow)
    → (secret_of (enter_rows none rows) ≡ find_map readable_secret rows)
      × ((client : ClientConfig)
          → enter_rows none rows ≡ some client
          → (g : ℕ)
          → contains client.guilds g ≡ contains (filter_map (granted client.secret) rows) g)
unfolding enter_rows row_step enter_row find_map readable_secret filter_map first_row contains
enter_rows_lem [] = (refl, λ client h g. cc)
enter_rows_lem (row ∷ rows) = elim (Option-cases (from_str u64_values row.guild_id)) [
  | inl e ↦
      let (secret, guilds) = enter_rows_lem rows in
      (
        rw (e, row_step, find_map, readable_secret) secret,
        λ client h g.
            guilds client (rw (e, row_step) at h) g ∙ unread client.secret row rows g [] e,
      )
  | inr (guild_id, e) ↦ (
    rw (e, row_step, find_map, readable_secret) (merged_secret rows (first_row row guild_id)),
    λ client h g. first_guilds row rows guild_id g client e (rw (e, row_step) at h),
  )
]

-- A client is registered exactly if one of its rows can be read. It has the secret of the first of
-- these, the newest, and the guilds of exactly those rows that have this secret: a row with an older
-- secret grants nothing.
pub group_rows_into_clients_lem :
    (rows : List SnapshotClientRow) (client_id : Str)
    → let own = filter (is_row_of client_id) rows in
      let entry = Map.get (group_rows_into_clients rows) client_id in
      (secret_of entry ≡ find_map readable_secret own)
      × ((client : ClientConfig) (g : ℕ)
          → entry ≡ some client
          → contains client.guilds g ≡ contains (filter_map (granted client.secret) own) g)
unfolding group_rows_into_clients Map.get
group_rows_into_clients_lem rows client_id =
    let (secret, guilds) = enter_rows_lem (filter (is_row_of client_id) rows) in
    (
      ap secret_of (get-add_rows rows [] client_id) ∙ secret,
      λ client g h. guilds client (sym (get-add_rows rows [] client_id) ∙ h) g,
    )
