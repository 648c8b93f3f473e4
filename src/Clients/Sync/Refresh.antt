-- ===== src/Clients/Sync/Refresh.antt =====
-- src/db_config.rs: the clients after `refresh_clients_by_ids`, next to those of a full reload.
use mathlib.Core.Option.{some-injective}
use discord_gateway_proxy.Clients.{registered, Registry}
use discord_gateway_proxy.Map.{get-remove, get-insert}
use discord_gateway_proxy.Config.{ClientConfig}
use discord_gateway_proxy.Clients.Rows.Grouping.{
  enter_rows, is_row_of, get-add_rows, add_rows-Distinct,
}
use discord_gateway_proxy.Clients.Rows.{group_rows_into_clients, SnapshotClientRow}
use discord_gateway_proxy.Clients.Sync.{
  remove_all, extend, Answers, ClientConfig, refresh_clients_by_ids, write_clients,
}
use discord_gateway_proxy.Prelude.{
  false, true, nat_eq, str_eq, arith, List, filter, Str, contains, Bool, ◌≡◌, some, if◌then◌else◌,
  none, true, [], ◌∷◌, Bool-cases, ◌∙◌, inl, refl, ap, inr, str_beq_iff, ◌&&◌, is_some, Option,
  ◌>>=◌, sym, Option-cases, or_else,
}
use discord_gateway_proxy.Map

abbrev pub has_id : List Str → SnapshotClientRow → Bool
has_id ids row = contains ids row.client_id

-- What the database answers while its table, in the order of the queries, is `table`.
abbrev pub answers : List SnapshotClientRow → Answers
answers table = record {
  all_rows = some table;
  rows_by_ids = λ ids. some (filter (has_id ids) table);
  ping = true;
}

filter-filter :
    (ids : List Str) (rows : List SnapshotClientRow) (id : Str)
    → filter (is_row_of id) (filter (has_id ids) rows)
      ≡ (if contains ids id then filter (is_row_of id) rows else [])
unfolding filter
filter-filter ids [] id = ground arith
filter-filter ids (row ∷ rows) id = elim (Bool-cases (is_row_of id row)) [
  | inl own ↦
      let has = ap (contains ids) ((str_beq_iff row.client_id id).0 own) in
      ground (arith, has, own, filter-filter ids rows id)
  | inr other ↦ ground (arith, other, filter-filter ids rows id)
]

get-remove_all :
    (ids : List Str) (clients : Map.Map Str ClientConfig) (id : Str)
    → Map.get (remove_all ids clients) id ≡ (if contains ids id then none else Map.get clients id)
unfolding remove_all contains
get-remove_all [] clients id = refl
get-remove_all (i ∷ ids) clients id =
    get-remove_all ids (Map.remove clients i) id ∙ rw (get-remove) ground (arith, str_beq_iff i id)

get-extend :
    (more clients : Map.Map Str ClientConfig) (id : Str)
    → Map.Distinct more
    → Map.get (extend clients more) id ≡ or_else (Map.get more id) (Map.get clients id)
unfolding extend Map.get
get-extend [] clients id d = refl
get-extend ((i, client) ∷ more) clients id d =
    get-extend more (Map.insert clients i client) id d.1
    ∙ ground (arith, get-insert clients i id client, str_beq_iff i id)

-- The rows of some clients, grouped.
get-group_rows_of :
    (ids : List Str) (table : List SnapshotClientRow) (id : Str)
    → Map.get (group_rows_into_clients (filter (has_id ids) table)) id
      ≡ (if contains ids id then Map.get (group_rows_into_clients table) id else none)
unfolding group_rows_into_clients Map.get enter_rows
get-group_rows_of ids table id =
    get-add_rows (filter (has_id ids) table) [] id
    ∙ ap (enter_rows none) (filter-filter ids table id)
    ∙ ground (arith, get-add_rows table [] id)

group-Distinct : (rows : List SnapshotClientRow) → Map.Distinct (group_rows_into_clients rows)
unfolding group_rows_into_clients
group-Distinct rows = add_rows-Distinct rows [] tt

-- The entries of the new map.
pub get-refreshed :
    (table : List SnapshotClientRow) (ids : List Str) (clients : Map.Map Str ClientConfig)
    (id : Str)
    → Map.get
        (extend (remove_all ids clients) (group_rows_into_clients (filter (has_id ids) table)))
        id
      ≡ (if contains ids id then Map.get (group_rows_into_clients table) id else Map.get clients id)
get-refreshed table ids clients id =
    get-extend (group_rows_into_clients (filter (has_id ids) table)) (remove_all ids clients) id
      (group-Distinct (filter (has_id ids) table))
    ∙ rw (get-group_rows_of, get-remove_all)
        (choose (contains ids id) (Map.get (group_rows_into_clients table) id) (Map.get clients id))
  where
    choose :
        (b : Bool) (new old : Option ClientConfig)
        → or_else (if b then new else none) (if b then none else old) ≡ (if b then new else old)
    choose true none old = refl
    choose true (some client) old = refl
    choose false new old = refl

registered-write_clients :
    (change : Map.Map Str ClientConfig → Map.Map Str ClientConfig) (registry : Registry) (id : Str)
    → registered (write_clients change registry) id
      ≡ (registry.clients >>= λ clients. Map.get (change clients) id)
unfolding registered write_clients
registered-write_clients change registry id = elim (Option-cases registry.clients) [
  | inl e ↦ rw (e, write_clients, registered, e)
  | inr (clients, e) ↦ rw (e, write_clients, registered)
]

-- After a refresh, the clients that were dirty are as a full reload would make them, and the others
-- are as they were.
pub refresh_clients_by_ids_lem :
    (table : List SnapshotClientRow) (ids : List Str) (registry refreshed : Registry)
    → refresh_clients_by_ids (answers table) ids registry ≡ some refreshed
    → (id : Str)
    → registered refreshed id ≡ (
        if contains ids id && is_some registry.clients
        then Map.get (group_rows_into_clients table) id
        else registered registry id)
unfolding refresh_clients_by_ids registered contains
refresh_clients_by_ids_lem table [] registry refreshed h id =
    ap (λ r. registered r id) (sym (some-injective registry refreshed h))
refresh_clients_by_ids_lem table (i ∷ ids) registry refreshed h id =
    let written =
      write_clients
        (λ clients.
          extend (remove_all (i ∷ ids) clients)
            (group_rows_into_clients (filter (has_id (i ∷ ids)) table)))
        registry in
    ap (λ r. registered r id) (sym (some-injective written refreshed h))
    ∙ registered-write_clients _ registry id
    ∙ held registry.clients
  where
    held :
        (o : Option (Map.Map Str ClientConfig))
        → (o >>= λ clients.
            Map.get
              (extend
                (remove_all (i ∷ ids) clients)
                (group_rows_into_clients (filter (has_id (i ∷ ids)) table)))
              id)
          ≡ (if contains (i ∷ ids) id && is_some o
              then Map.get (group_rows_into_clients table) id
              else o >>= λ clients. Map.get clients id)
    held none = ground arith
    held (some clients) = get-refreshed table (i ∷ ids) clients id ∙ ground arith
