-- ===== src/Clients.antt =====
-- src/db_config.rs: the registry of clients, who is authenticated from it, and its state.
pub mod Authentication
pub mod Rows
pub mod Payload
pub mod Sync
mod Tests
use discord_gateway_proxy.Text.Search.{split_once}
use discord_gateway_proxy.Prelude.{
  nat_eq, str_eq, arith, ℕ, Option, if◌then◌else◌, Str, Bool, not, List, ◌>>=◌, some, none, nat_beq,
  false, str_beq, ltb, contains, ◌-◌,
}
use discord_gateway_proxy.Map
use discord_gateway_proxy.Map.{Map}
use discord_gateway_proxy.Config.{ClientConfig}

abbrev pub client_data_stale_after_secs : ℕ
client_data_stale_after_secs = 120

-- The registry and what its state is judged by. `clients` is `none` where the lock is poisoned, `now`
-- is `none` where the clock stands before 1970; both times are in seconds.
pub record Registry : Type 0 where
  pub clients : Option (Map Str ClientConfig)
  -- DIRECT_DATABASE_URL or DATABASE_URL is set.
  pub database_configured : Bool
  pub last_successful_sync : ℕ
  pub now : Option ℕ

pub data ClientDataState : Type 0 where
  no_database never_synced fresh stale : ClientDataState

unfoldable pub client_data_state : Registry → ClientDataState
client_data_state registry =
    if not registry.database_configured
    then no_database
    else if nat_beq registry.last_successful_sync 0
    then never_synced
    else elim registry.now [
      | none ↦ fresh
      | some now ↦
          if ltb client_data_stale_after_secs (now - registry.last_successful_sync)
          then stale
          else fresh
    ]

pub data ClientAuthResult : Type 0 where
  ok : Str → List ℕ → ClientAuthResult
  stale : ClientAuthResult
  invalid : ClientAuthResult

unfoldable pub unverified : ClientDataState → ClientAuthResult
unverified ClientDataState.never_synced = ClientAuthResult.stale
unverified ClientDataState.stale = ClientAuthResult.stale
unverified ClientDataState.no_database = ClientAuthResult.invalid
unverified ClientDataState.fresh = ClientAuthResult.invalid

-- `clients.get(client_id)` under the lock.
unfoldable pub registered : Registry → Str → Option ClientConfig
registered registry client_id = registry.clients >>= λ clients. Map.get clients client_id

unfoldable pub client_guilds : Registry → Str → Option (List ℕ)
unfolding registered
client_guilds registry client_id = registered registry client_id >>= λ client. some client.guilds

unfoldable pub client_has_guild : Registry → Str → ℕ → Bool
unfolding registered
client_has_guild registry client_id guild_id = elim (registered registry client_id) [
  | none ↦ false
  | some client ↦ contains client.guilds guild_id
]

-- What the registry says of an id and a secret: `none` for a poisoned lock too.
unfoldable pub check_secret : ClientDataState → Str → Str → Option ClientConfig → ClientAuthResult
unfolding unverified
check_secret state client_id secret none = unverified state
check_secret state client_id secret (some client) =
    if str_beq client.secret secret
    then ClientAuthResult.ok client_id client.guilds
    else unverified state

-- A stale registry is not read.
unfoldable pub check_client : ClientDataState → Str → Str → Option ClientConfig → ClientAuthResult
unfolding check_secret
check_client ClientDataState.stale client_id secret found = ClientAuthResult.stale
check_client state client_id secret found = check_secret state client_id secret found

unfoldable pub authenticate_client_with_id : Registry → Str → ClientAuthResult
unfolding split_once client_data_state check_client registered
authenticate_client_with_id registry token = elim (split_once b':' token) [
  | none ↦ ClientAuthResult.invalid
  | some (client_id, secret) ↦
      check_client (client_data_state registry) client_id secret (registered registry client_id)
]
