-- ===== src/State/Voice/Transfer.antt =====
-- When a guild's voice connection changes hands.
use discord_gateway_proxy.State.Voice.Owners.{get-relinquish, get-record_voice}
use discord_gateway_proxy.State.Connections.{
  mark_owner, count_connected, count_disconnected, set_voice_owner_disconnected, connections,
}
use discord_gateway_proxy.State.Voice.Steps.{
  VoiceStep, count_up, count_down, mark, claim, leave, bot_left, sweep, other,
}
use discord_gateway_proxy.Prelude.{
  ℕ, ◌≡◌, Bool, true, false, ◌⊎◌, some, arith, Str, str_eq, nat_eq, str_beq, Option, none, inl,
  Bool-cases, List, leb, inr, refl, str_beq_iff, nat_beq_iff,
}
use discord_gateway_proxy.Map
use discord_gateway_proxy.Map.{Map, Distinct, get-insert, get-remove, get-map_values, get-retain}
use discord_gateway_proxy.State.{VoiceOwner, Inner, deny}
use discord_gateway_proxy.State.Voice.{
  bot_in_voice, claim_voice, shard_id_for_guild, is_expired, is_revoked, leave_voice_for_client,
  on_bot_voice_leave, sweep_owners, decide_voice_command,
}

-- A voice command of a client that is not the owner is refused, and changes nothing, while the
-- owner wants voice or the bot is in voice.
pub claim_voice-deny :
    (voice_states : Bool) (guild_id : ℕ) (client_id : Str) (joining : Bool) (s : Inner)
    (owner : VoiceOwner)
    → Map.get s.voice_owners guild_id ≡ some owner
    → str_beq owner.client_id client_id ≡ false
    → (owner.wants_voice ≡ true) ⊎ (bot_in_voice voice_states s guild_id ≡ true)
    → claim_voice voice_states guild_id client_id joining s ≡ (deny, s)
unfolding claim_voice
claim_voice-deny voice_states guild_id client_id joining s owner held stranger busy = ground arith

-- The steps that end the wish for voice of the owner of a guild: its own leave, its new IDENTIFY,
-- and the sweep once it was away for the grace period or lost the guild.
abbrev pub EndedBy :
    {voice_states : Bool} {s t : Inner} → VoiceStep voice_states s t → ℕ → VoiceOwner → Type 0
EndedBy (count_up s client_id) guild_id owner = ⊥
EndedBy (count_down s client_id) guild_id owner = ⊥
EndedBy (mark s client_id at) guild_id owner = ⊥
EndedBy (claim s g client_id joining h) guild_id owner =
    (g ≡ guild_id) × (client_id ≡ owner.client_id) × (joining ≡ false)
EndedBy (leave s client_id shard_id) guild_id owner =
    (client_id ≡ owner.client_id) × (shard_id ≡ shard_id_for_guild s.shard_count guild_id)
EndedBy (bot_left s g) guild_id owner = ⊥
EndedBy (sweep s now authorized in_voice) guild_id owner =
    (is_expired now owner ≡ true) ⊎ (is_revoked authorized guild_id owner ≡ true)
EndedBy (other s t e f) guild_id owner = ⊥

-- The owner is the same client, and still wants voice unless `ended`.
abbrev pub StillOwned : VoiceOwner → Type 0 → Option VoiceOwner → Type 0
StillOwned owner ended none = ⊥
StillOwned owner ended (some owner') =
    (owner'.client_id ≡ owner.client_id) × ((owner'.wants_voice ≡ true) ⊎ ended)

marked-StillOwned :
    (client_id : Str) (at : Option ℕ) (owner : VoiceOwner)
    → owner.wants_voice ≡ true
    → StillOwned owner ⊥ (some (mark_owner client_id at owner))
unfolding mark_owner
marked-StillOwned client_id at owner wants = ground arith

module _ (s : Inner) (guild_id : ℕ) (owner : VoiceOwner)
    (held : Map.get s.voice_owners guild_id ≡ some owner) (wants : owner.wants_voice ≡ true) where
  count_up_kept :
      (client_id : Str)
      → StillOwned owner ⊥ (Map.get (count_connected client_id s).voice_owners guild_id)
  unfolding count_connected
  count_up_kept client_id = rw held (refl, inl wants)

  count_down_kept :
      (client_id : Str)
      → StillOwned owner ⊥ (Map.get (count_disconnected client_id s).0.voice_owners guild_id)
  unfolding count_disconnected
  count_down_kept client_id = elim (Bool-cases (leb (connections s client_id) 1)) [
    | inl last ↦ rw (last, count_disconnected, held) (refl, inl wants)
    | inr more ↦ rw (more, count_disconnected, held) (refl, inl wants)
  ]

  mark_kept :
      (client_id : Str) (at : Option ℕ)
      → StillOwned owner ⊥
          (Map.get (set_voice_owner_disconnected client_id at s).voice_owners guild_id)
  unfolding set_voice_owner_disconnected
  mark_kept client_id at = rw (get-map_values, held) (marked-StillOwned client_id at owner wants)

  claim_kept :
      (voice_states : Bool) (g : ℕ) (client_id : Str) (joining : Bool)
      → StillOwned owner
          ((g ≡ guild_id) × (client_id ≡ owner.client_id) × (joining ≡ false))
          (Map.get (claim_voice voice_states g client_id joining s).1.voice_owners guild_id)
  unfolding claim_voice decide_voice_command
  claim_kept voice_states g client_id joining = ground (
    arith,
    held,
    wants,
    get-record_voice g guild_id client_id joining s.voice_owners,
    nat_beq_iff g guild_id,
    str_beq_iff owner.client_id client_id,
  )

  leave_kept :
      (client_id : Str) (shard_id : ℕ)
      → StillOwned owner
          ((client_id ≡ owner.client_id) × (shard_id ≡ shard_id_for_guild s.shard_count guild_id))
          (Map.get (leave_voice_for_client client_id shard_id s).0.voice_owners guild_id)
  unfolding leave_voice_for_client
  leave_kept client_id shard_id =
      rw (get-relinquish, held) (ground (arith, wants, str_beq_iff owner.client_id client_id))

  bot_left_kept :
      (g : ℕ) → StillOwned owner ⊥ (Map.get (on_bot_voice_leave g s).voice_owners guild_id)
  unfolding on_bot_voice_leave
  bot_left_kept g =
      ground (arith, held, wants, get-remove s.voice_owners g guild_id, nat_beq_iff g guild_id)

  sweep_kept :
      (now : ℕ) (authorized : Map Str (List ℕ)) (in_voice : Map ℕ Bool)
      → Distinct s.voice_owners
      → StillOwned owner
          ((is_expired now owner ≡ true) ⊎ (is_revoked authorized guild_id owner ≡ true))
          (Map.get (sweep_owners now authorized in_voice s.voice_owners).0 guild_id)
  unfolding sweep_owners
  sweep_kept now authorized in_voice d =
      rw (get-relinquish, get-retain, held) (ground (arith, wants))

-- A guild whose owner wants voice has the same owner after any step, and that owner still wants
-- voice unless the step was its own leave or its new IDENTIFY on the shard of the guild, or a sweep
-- that found it away for the grace period or without the guild. Connecting and disconnecting change
-- neither.
pub owner_kept :
    {voice_states : Bool} {s t : Inner} (step : VoiceStep voice_states s t) (guild_id : ℕ)
    (owner : VoiceOwner)
    → Distinct s.voice_owners
    → Map.get s.voice_owners guild_id ≡ some owner
    → owner.wants_voice ≡ true
    → StillOwned owner (EndedBy step guild_id owner) (Map.get t.voice_owners guild_id)
owner_kept (count_up s client_id) guild_id owner d held wants =
    count_up_kept s guild_id owner held wants client_id
owner_kept (count_down s client_id) guild_id owner d held wants =
    count_down_kept s guild_id owner held wants client_id
owner_kept (mark s client_id at) guild_id owner d held wants =
    mark_kept s guild_id owner held wants client_id at
owner_kept {voice_states} (claim s g client_id joining h) guild_id owner d held wants =
    claim_kept s guild_id owner held wants voice_states g client_id joining
owner_kept (leave s client_id shard_id) guild_id owner d held wants =
    leave_kept s guild_id owner held wants client_id shard_id
owner_kept (bot_left s g) guild_id owner d held wants = bot_left_kept s guild_id owner held wants g
owner_kept (sweep s now authorized in_voice) guild_id owner d held wants =
    sweep_kept s guild_id owner held wants now authorized in_voice d
owner_kept (other s t e f) guild_id owner d held wants = rw (e, held) (refl, inl wants)
