-- ===== src/State/Tests.antt =====
-- Runs of src/state.rs, and its theorems at concrete states.
use discord_gateway_proxy.State.Voice.Steps.{mark}
use discord_gateway_proxy.State.Offline.Buffer.{push_all, buffered, drain-push_all}
use discord_gateway_proxy.State.Connections.{set_voice_owner_disconnected}
use discord_gateway_proxy.State.Voice.Transfer.{StillOwned, owner_kept}
use discord_gateway_proxy.State.Limits.{should_wake_client}
use discord_gateway_proxy.State.Limits.Windows.{
  attempts, allow_client_command_limit, allow_client_command_lem,
}
use discord_gateway_proxy.State.Offline.{drain_offline_events_for_client}
use discord_gateway_proxy.State.Sessions.{get_session, create_session, live}
use discord_gateway_proxy.State.Sessions.Creation.{get_session-create_session}
use discord_gateway_proxy.State.{
  InMemoryCache, Inner, VoiceOwner, Session, BufferedClientEvent, SessionPrincipal, deny,
}
use discord_gateway_proxy.Map
use discord_gateway_proxy.Prelude.{
  nat_eq, str_eq, arith, none, some, [], ◌∷◌, true, false, refl, Str, codes, ◌≡◌, str_beq,
}

abbrev no_guilds : InMemoryCache
no_guilds = record {
  guilds = [];
  unavailable_guilds = [];
  guild_channels = λ g. none;
  voice_state = λ u g. true;
}

-- One shard, one client with one connection, which owns voice in guild 7.
abbrev served : Inner
served = record {
  shards = record { id = 0; sender = []; events = []; ready = none; guilds = no_guilds } ∷ [];
  shard_count = 1;
  sessions = [];
  active_client_connections = (codes "a", 1) ∷ [];
  offline_event_buffers = [];
  last_wake_attempts = [];
  client_command_windows = [];
  voice_owners =
      (7, record { client_id = codes "a"; disconnected_at = none; wants_voice = true }) ∷ [];
  bot_user_id = 42;
}

abbrev owner_a : VoiceOwner
owner_a = record { client_id = codes "a"; disconnected_at = none; wants_voice = true }

abbrev first_session : Session
first_session = record {
  shard_id = 0;
  compress = none;
  principal = SessionPrincipal.client (codes "a");
  authorized_guilds = some (7 ∷ []);
  last_accessed = 1000;
}

abbrev with_session : Inner
with_session = record served { sessions = (codes "id", first_session) ∷ [] }

get_session-create_session_example :
    ((get_session 3000 (codes "id") with_session).0
      ≡ some (record first_session { last_accessed = 3000 }))
    × (live 1000 none ≡ none)
    × ((other : Str)
        → str_beq (codes "id") other ≡ false
        → Map.get with_session.sessions other ≡ live 1000 none)
unfolding create_session Map.contains_key Map.retain Map.insert Map.get
get_session-create_session_example =
    get_session-create_session 1000 3000 (codes "id" ∷ []) first_session served with_session
      (codes "id") tt refl

abbrev event : BufferedClientEvent
event = record { payload = codes "{}"; sequence = none; guild_id = some 7 }

drain-push_all_example :
    let (drained, t) =
      drain_offline_events_for_client
        (codes "a")
        (push_all (codes "a") (event ∷ event ∷ []) served) in
    (drained ≡ event ∷ event ∷ []) × (buffered t (codes "a") ≡ []) × (buffered t (codes "b") ≡ [])
unfolding Map.get str_beq drain_offline_events_for_client
    discord_gateway_proxy.State.Offline.Buffer.keep_last
drain-push_all_example =
    drain-push_all (codes "a") (codes "b") (event ∷ event ∷ []) served refl refl

allow_client_command_lem_example :
    (attempts 2 60000
      (codes "a")
      ((6, codes "b") ∷ (7, codes "a") ∷ (8, codes "a") ∷ [])
      (record served { client_command_windows = (codes "a", (5, 1)) ∷ [] })).0
    ≡ 1
unfolding Map.get str_beq discord_gateway_proxy.State.Limits.Windows.own
allow_client_command_lem_example =
    allow_client_command_lem 2 60000 (codes "a") 5 1
      ((6, codes "b") ∷ (7, codes "a") ∷ (8, codes "a") ∷ [])
      (record served { client_command_windows = (codes "a", (5, 1)) ∷ [] }) refl
      (λ e. omega arith, (λ e. omega arith, (λ e. omega arith, tt)))

owner_kept_example :
    StillOwned owner_a ⊥
      (Map.get (set_voice_owner_disconnected (codes "a") (some 9000) served).voice_owners 7)
unfolding Map.get
owner_kept_example =
    owner_kept {voice_states = true} (mark served (codes "a") (some 9000)) 7 owner_a (refl, tt) refl
      refl
