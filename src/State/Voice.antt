-- ===== src/State/Voice.antt =====
-- src/state.rs: which client owns the voice connection of the shared bot in a guild.
pub mod Owners
pub mod Steps
pub mod Transfer
use discord_gateway_proxy.Prelude.{
  ℕ, ◌-◌, ◌/◌, ◌%◌, ◌^◌, Bool, true, false, not, ◌&&◌, ◌||◌, Option, none, some, List, [], ◌∷◌,
  ◌++◌, codes, Str, str_eq, nat_eq, ◌==◌, leb, if◌then◌else◌, map_or, unwrap_or, contains, nat_beq,
}
use discord_gateway_proxy.Text.{to_string}
use discord_gateway_proxy.Map
use discord_gateway_proxy.Map.{Map}
use discord_gateway_proxy.State.{
  VoiceOwner, VoiceDecision, allow, deny, Shard, InMemoryCache, Inner, voice_owner_grace,
}

-- src/cache.rs: `has_voice_state`; an id of twilight is not 0.
unfoldable pub has_voice_state : InMemoryCache → ℕ → ℕ → Bool
has_voice_state cache guild_id user_id =
    if nat_beq guild_id 0 || nat_beq user_id 0 then false else cache.voice_state user_id guild_id

-- The source divides by `shard_count`, which must not be 0.
unfoldable pub shard_id_for_guild : ℕ → ℕ → ℕ
shard_id_for_guild shard_count guild_id = (guild_id / 2 ^ 22) % shard_count % 2 ^ 32

unfoldable pub find_shard : ℕ → List Shard → Option Shard
find_shard shard_id [] = none
find_shard shard_id (shard ∷ shards) =
    if nat_beq shard.id shard_id then some shard else find_shard shard_id shards

unfoldable pub shard_for_guild : Inner → ℕ → Option Shard
unfolding shard_id_for_guild find_shard
shard_for_guild inner guild_id =
    find_shard (shard_id_for_guild inner.shard_count guild_id) inner.shards

unfoldable pub bot_user_id : Inner → Option ℕ
bot_user_id inner = if nat_beq inner.bot_user_id 0 then none else some inner.bot_user_id

-- `voice_states` is CONFIG.cache.voice_states.
unfoldable pub bot_in_voice : Bool → Inner → ℕ → Bool
unfolding bot_user_id shard_for_guild has_voice_state
bot_in_voice voice_states inner guild_id = elim (bot_user_id inner) [
  | none ↦ true
  | some user_id ↦ elim (shard_for_guild inner guild_id) [
    | none ↦ true
    | some shard ↦ not voice_states || has_voice_state shard.guilds guild_id user_id
  ]
]

unfoldable pub decide_voice_command : Option VoiceOwner → Str → Bool → VoiceDecision
decide_voice_command none client_id bot_in_voice = allow
decide_voice_command (some owner) client_id bot_in_voice =
    if owner.client_id == client_id
    then allow
    else if not owner.wants_voice && not bot_in_voice
    then allow
    else deny

abbrev pub give_up : VoiceOwner → VoiceOwner
give_up owner = record owner { wants_voice = false }

-- What an allowed command writes: a join takes the guild, a leave gives it up.
unfoldable pub record_voice : ℕ → Str → Bool → Map ℕ VoiceOwner → Map ℕ VoiceOwner
record_voice guild_id client_id true owners =
    Map.insert owners guild_id
      (record { client_id = client_id; disconnected_at = none; wants_voice = true })
record_voice guild_id client_id false owners = elim (Map.get owners guild_id) [
  | none ↦ owners
  | some owner ↦ Map.insert owners guild_id (give_up owner)
]

unfoldable pub claim_voice : Bool → ℕ → Str → Bool → Inner → VoiceDecision × Inner
unfolding decide_voice_command record_voice
claim_voice voice_states guild_id client_id joining inner =
    elim (decide_voice_command (Map.get inner.voice_owners guild_id) client_id
      (bot_in_voice voice_states inner guild_id)) [
        | allow ↦ (
          allow,
          record inner {
            voice_owners = record_voice guild_id client_id joining inner.voice_owners;
          },
        )
        | deny ↦ (deny, inner)
      ]

-- A loop over the owners: those that pass the test give their guild up, and the guild is listed.
unfoldable pub relinquish : (ℕ → VoiceOwner → Bool) → Map ℕ VoiceOwner → Map ℕ VoiceOwner × List ℕ
relinquish test [] = ([], [])
relinquish test ((guild_id, owner) ∷ owners) =
    let (rest, guilds) = relinquish test owners in
    if test guild_id owner
    then ((guild_id, give_up owner) ∷ rest, guild_id ∷ guilds)
    else ((guild_id, owner) ∷ rest, guilds)

unfoldable pub leaves_with : Str → ℕ → ℕ → ℕ → VoiceOwner → Bool
unfolding shard_id_for_guild
leaves_with client_id shard_id shard_count guild_id owner =
    owner.client_id == client_id
    && (owner.wants_voice && nat_beq (shard_id_for_guild shard_count guild_id) shard_id)

unfoldable pub leave_voice_for_client : Str → ℕ → Inner → Inner × List ℕ
unfolding relinquish leaves_with
leave_voice_for_client client_id shard_id inner =
    let (owners, guilds) =
      relinquish (leaves_with client_id shard_id inner.shard_count) inner.voice_owners in
    (record inner { voice_owners = owners }, guilds)

unfoldable pub on_bot_voice_leave : ℕ → Inner → Inner
on_bot_voice_leave guild_id inner =
    if map_or false (λ (owner : VoiceOwner). not owner.wants_voice)
      (Map.get inner.voice_owners guild_id)
    then record inner { voice_owners = Map.remove inner.voice_owners guild_id }
    else inner

-- The first lock of `take_stale_voice_owners`: the bot's voice state in every owned guild.
unfoldable pub voice_snapshot : Bool → Inner → Map ℕ VoiceOwner → Map ℕ Bool
unfolding bot_in_voice
voice_snapshot voice_states inner [] = []
voice_snapshot voice_states inner ((guild_id, owner) ∷ owners) =
    (guild_id, bot_in_voice voice_states inner guild_id) ∷ voice_snapshot voice_states inner owners

-- `owner.wants_voice || in_voice.get(guild_id) != Some(&false)`.
unfoldable pub keeps_guild : Map ℕ Bool → ℕ → VoiceOwner → Bool
keeps_guild in_voice guild_id owner =
    owner.wants_voice || unwrap_or true (Map.get in_voice guild_id)

unfoldable pub is_expired : ℕ → VoiceOwner → Bool
is_expired now owner = map_or false (λ at. leb voice_owner_grace (now - at)) owner.disconnected_at

unfoldable pub is_revoked : Map Str (List ℕ) → ℕ → VoiceOwner → Bool
is_revoked authorized guild_id owner =
    not (map_or false (λ guilds. contains guilds guild_id) (Map.get authorized owner.client_id))

unfoldable pub is_stale : ℕ → Map Str (List ℕ) → ℕ → VoiceOwner → Bool
unfolding is_expired is_revoked
is_stale now authorized guild_id owner =
    owner.wants_voice && (is_expired now owner || is_revoked authorized guild_id owner)

-- The second lock, with the snapshot of the first: other tasks may run between the two.
unfoldable pub sweep_owners :
    ℕ → Map Str (List ℕ) → Map ℕ Bool → Map ℕ VoiceOwner → Map ℕ VoiceOwner × List ℕ
unfolding keeps_guild is_stale relinquish
sweep_owners now authorized in_voice owners =
    relinquish (is_stale now authorized) (Map.retain (keeps_guild in_voice) owners)

unfoldable pub take_stale_voice_owners : Bool → ℕ → Map Str (List ℕ) → Inner → Inner × List ℕ
unfolding voice_snapshot sweep_owners
take_stale_voice_owners voice_states now authorized inner =
    let (owners, guilds) =
      sweep_owners now authorized (voice_snapshot voice_states inner inner.voice_owners)
        inner.voice_owners in
    (record inner { voice_owners = owners }, guilds)

unfoldable pub voice_owner : Inner → ℕ → Option Str
voice_owner inner guild_id = elim (Map.get inner.voice_owners guild_id) [
  | none ↦ none
  | some owner ↦ some owner.client_id
]

-- Sending on a shard: the command goes to the end of its queue.
unfoldable pub send_on : ℕ → Str → List Shard → List Shard
send_on shard_id command [] = []
send_on shard_id command (shard ∷ shards) =
    if nat_beq shard.id shard_id
    then record shard { sender = shard.sender ++ command ∷ [] } ∷ shards
    else shard ∷ send_on shard_id command shards

unfoldable pub voice_leave_command : ℕ → Str
unfolding to_string
voice_leave_command guild_id =
    codes "{\"op\":4,\"d\":{\"guild_id\":\""
    ++ (to_string guild_id
        ++ codes "\",\"channel_id\":null,\"self_mute\":false,\"self_deaf\":false}}")

unfoldable pub send_voice_leave : ℕ → Inner → Inner
unfolding shard_id_for_guild send_on
send_voice_leave guild_id inner = record inner {
  shards =
      send_on (shard_id_for_guild inner.shard_count guild_id) (voice_leave_command guild_id)
        inner.shards;
}
