-- ===== src/State/Voice/Steps.antt =====
-- The steps of src/state.rs that touch voice ownership, in any order: each is one lock
-- held once, so a connect and a disconnect are two steps each.
use discord_gateway_proxy.Prelude.{ℕ, ◌≡◌, Bool, true, List, Str, Option}
use discord_gateway_proxy.Map.{Map}
use discord_gateway_proxy.State.{Inner}
use discord_gateway_proxy.State.Connections.{
  count_connected, count_disconnected, set_voice_owner_disconnected, is_client_connected,
}
use discord_gateway_proxy.State.Voice.{
  claim_voice, leave_voice_for_client, on_bot_voice_leave, sweep_owners,
}

-- `other` is any task that leaves the owners and the connections as they are, such as a change of
-- the cache. The snapshot that `sweep` works with may be older than its state.
pub data VoiceStep (voice_states : Bool) : Inner → Inner → Type 0 where
  count_up : (s : Inner) (client_id : Str) → VoiceStep voice_states s (count_connected client_id s)
  count_down :
      (s : Inner) (client_id : Str) → VoiceStep voice_states s (count_disconnected client_id s).0
  mark :
      (s : Inner) (client_id : Str) (at : Option ℕ)
      → VoiceStep voice_states s (set_voice_owner_disconnected client_id at s)
  claim :
      (s : Inner) (guild_id : ℕ) (client_id : Str) (joining : Bool)
      → is_client_connected s client_id ≡ true
      → VoiceStep voice_states s (claim_voice voice_states guild_id client_id joining s).1
  leave :
      (s : Inner) (client_id : Str) (shard_id : ℕ)
      → VoiceStep voice_states s (leave_voice_for_client client_id shard_id s).0
  bot_left : (s : Inner) (guild_id : ℕ) → VoiceStep voice_states s (on_bot_voice_leave guild_id s)
  sweep :
      (s : Inner) (now : ℕ) (authorized : Map Str (List ℕ)) (in_voice : Map ℕ Bool)
      → VoiceStep voice_states s
          (record s { voice_owners = (sweep_owners now authorized in_voice s.voice_owners).0 })
  other :
      (s t : Inner)
      → t.voice_owners ≡ s.voice_owners
      → t.active_client_connections ≡ s.active_client_connections
      → VoiceStep voice_states s t
