-- ===== src/State/Voice/Owners.antt =====
-- What the loops of src/state.rs over the voice owners leave under each guild, and what they list.
use discord_gateway_proxy.Prelude.{
  ℕ, ◌≡◌, refl, Bool, false, Option, none, some, [], ◌∷◌, arith, nat_eq, if◌then◌else◌, nat_beq_iff,
  contains, Str, true, nat_beq, Option-cases, inl, inr,
}
use discord_gateway_proxy.Map
use discord_gateway_proxy.Map.{Map, Distinct, get-insert}
use discord_gateway_proxy.State.{VoiceOwner}
use discord_gateway_proxy.State.Voice.{relinquish, give_up, record_voice}

abbrev pub after_test : (ℕ → VoiceOwner → Bool) → ℕ → Option VoiceOwner → Option VoiceOwner
after_test test guild_id none = none
after_test test guild_id (some owner) = some (if test guild_id owner then give_up owner else owner)

abbrev pub passes : (ℕ → VoiceOwner → Bool) → ℕ → Option VoiceOwner → Bool
passes test guild_id none = false
passes test guild_id (some owner) = test guild_id owner

module _ (test : ℕ → VoiceOwner → Bool) where
  pub get-relinquish :
      (owners : Map ℕ VoiceOwner) (guild_id : ℕ)
      → Map.get (relinquish test owners).0 guild_id
        ≡ after_test test guild_id (Map.get owners guild_id)
  unfolding relinquish Map.get
  get-relinquish [] guild_id = refl
  get-relinquish ((g, owner) ∷ owners) guild_id =
      ground (arith, get-relinquish owners guild_id, nat_beq_iff g guild_id)

  -- The listed guilds are those that gave up.
  pub contains-relinquish :
      (owners : Map ℕ VoiceOwner) (guild_id : ℕ)
      → Distinct owners
      → contains (relinquish test owners).1 guild_id
        ≡ passes test guild_id (Map.get owners guild_id)
  unfolding relinquish Map.get contains
  contains-relinquish [] guild_id d = refl
  contains-relinquish ((g, owner) ∷ owners) guild_id d =
      ground (arith, contains-relinquish owners guild_id d.1, nat_beq_iff g guild_id)

  pub relinquish-Distinct :
      (owners : Map ℕ VoiceOwner) → Distinct owners → Distinct (relinquish test owners).0
  unfolding relinquish
  relinquish-Distinct [] d = d
  relinquish-Distinct ((g, owner) ∷ owners) d =
      ground (arith, relinquish-Distinct owners d.1, get-relinquish owners g)

-- What an allowed command leaves under each guild.
abbrev pub after_command : Str → Bool → Option VoiceOwner → Option VoiceOwner
after_command client_id true o =
    some (record { client_id = client_id; disconnected_at = none; wants_voice = true })
after_command client_id false none = none
after_command client_id false (some owner) = some (give_up owner)

pub get-record_voice :
    (g guild_id : ℕ) (client_id : Str) (joining : Bool) (owners : Map ℕ VoiceOwner)
    → Map.get (record_voice g client_id joining owners) guild_id ≡ (
        if nat_beq g guild_id
        then after_command client_id joining (Map.get owners guild_id)
        else Map.get owners guild_id)
unfolding record_voice
get-record_voice g guild_id client_id true owners = get-insert owners g guild_id _
get-record_voice g guild_id client_id false owners = elim (Option-cases (Map.get owners g)) [
  | inl e ↦ ground (arith, e, nat_beq_iff g guild_id)
  | inr (owner, e) ↦
      ground (arith, e, nat_beq_iff g guild_id, get-insert owners g guild_id (give_up owner))
]
