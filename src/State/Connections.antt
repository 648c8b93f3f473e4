-- ===== src/State/Connections.antt =====
-- src/state.rs: live gateway connections of each client.
use discord_gateway_proxy.Map.{get-insert, get-remove}
use discord_gateway_proxy.Prelude.{
  ℕ, ◌+◌, ◌-◌, ◌≡◌, Bool, Option, none, some, Str, str_eq, nat_eq, ◌==◌, leb, ltb, if◌then◌else◌,
  unwrap_or, arith, str_beq_iff, true, false,
}
use discord_gateway_proxy.Map
use discord_gateway_proxy.State.{VoiceOwner, Inner}

-- `active.get(client_id).copied().unwrap_or(0)`.
unfoldable pub connections : Inner → Str → ℕ
connections inner client_id = unwrap_or 0 (Map.get inner.active_client_connections client_id)

unfoldable pub mark_owner : Str → Option ℕ → VoiceOwner → VoiceOwner
mark_owner client_id at owner =
    if owner.client_id == client_id then record owner { disconnected_at = at } else owner

unfoldable pub set_voice_owner_disconnected : Str → Option ℕ → Inner → Inner
unfolding mark_owner
set_voice_owner_disconnected client_id at inner = record inner {
  voice_owners = Map.map_values (λ _ owner. mark_owner client_id at owner) inner.voice_owners;
}

-- What `mark_client_connected` and `mark_client_disconnected` do while they hold the lock of the
-- counts; the second one also finds out whether this was the last connection.
unfoldable pub count_connected : Str → Inner → Inner
unfolding connections
count_connected client_id inner = record inner {
  active_client_connections =
      Map.insert inner.active_client_connections client_id (connections inner client_id + 1);
}

unfoldable pub count_disconnected : Str → Inner → Inner × Bool
unfolding connections
count_disconnected client_id inner =
    if leb (connections inner client_id) 1
    then (
      record inner {
        active_client_connections = Map.remove inner.active_client_connections client_id;
      },
      true,
    )
    else (
      record inner {
        active_client_connections =
            Map.insert inner.active_client_connections client_id (connections inner client_id - 1);
      },
      false,
    )

-- Both drop the lock of the counts before they take the one of the voice owners: these are their
-- effects where no other task comes between the two.
unfoldable pub mark_client_connected : Str → Inner → Inner
unfolding count_connected set_voice_owner_disconnected
mark_client_connected client_id inner =
    set_voice_owner_disconnected client_id none (count_connected client_id inner)

unfoldable pub mark_client_disconnected : ℕ → Str → Inner → Inner
unfolding count_disconnected set_voice_owner_disconnected
mark_client_disconnected now client_id inner =
    let (counted, last) = count_disconnected client_id inner in
    if last then set_voice_owner_disconnected client_id (some now) counted else counted

unfoldable pub is_client_connected : Inner → Str → Bool
unfolding connections
is_client_connected inner client_id = ltb 0 (connections inner client_id)

-- A connection that opens counts for its client only.
pub connections-mark_client_connected :
    (client_id other : Str) (inner : Inner)
    → connections (mark_client_connected client_id inner) other
      ≡ (if client_id == other then connections inner other + 1 else connections inner other)
unfolding mark_client_connected
connections-mark_client_connected client_id other inner = ground (
  arith,
  get-insert inner.active_client_connections client_id other (connections inner client_id + 1),
  str_beq_iff client_id other,
)

-- A connection that closes counts for its client only.
pub connections-mark_client_disconnected :
    (now : ℕ) (client_id other : Str) (inner : Inner)
    → connections (mark_client_disconnected now client_id inner) other
      ≡ (if client_id == other then connections inner other - 1 else connections inner other)
unfolding mark_client_disconnected
connections-mark_client_disconnected now client_id other inner = ground (
  arith,
  get-insert inner.active_client_connections client_id other (connections inner client_id - 1),
  get-remove inner.active_client_connections client_id other,
  str_beq_iff client_id other,
)
