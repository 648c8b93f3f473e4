-- ===== src/Dispatch/Audiences.antt =====
-- src/dispatch.rs: who is sent the voice token of the shared bot.
use discord_gateway_proxy.State.Voice.{voice_owner}
use discord_gateway_proxy.Gateway.Forwarding.{
  Admits, HasGuild, client_subscriber, sent-MaySee, client_has_guild-HasGuild,
}
use discord_gateway_proxy.State.{Inner, BroadcastMessage}
use discord_gateway_proxy.Gateway.{forward_event}
use discord_gateway_proxy.Clients.{Registry, client_has_guild}
use discord_gateway_proxy.Dispatch.{audience_of_owner, audience_for, Inner, voice_owner}
use mathlib.Core.Option.{some-injective}
use discord_gateway_proxy.Prelude.{
  nat_eq, str_eq, none, some, ℕ, str_beq, Option, codes, Str, ◌≡◌, List, Bool-cases, refl, inl, ap,
  sym, subst, inr, ◌∙◌, ◌≢◌, [],
}

Admits-owner :
    (registry : Registry) (guild_id : ℕ) (owner : Option Str) (client_id : Str)
    → Admits (audience_of_owner registry guild_id owner) client_id
    → (owner ≡ some client_id) × HasGuild registry client_id guild_id
unfolding audience_of_owner
Admits-owner registry guild_id none client_id h = absurd h
Admits-owner registry guild_id (some owner) client_id h =
    elim (Bool-cases (client_has_guild registry owner guild_id)) [
      | inl held ↦
          let own : client_id ≡ owner = rw (held, audience_of_owner) at h in
          (
            ap some (sym own),
            client_has_guild-HasGuild registry client_id guild_id
                (ap (λ c. client_has_guild registry c guild_id) own ∙ held),
          )
      | inr revoked ↦ absurd (rw (revoked, audience_of_owner) at h)
    ]

audience_for-voice :
    (registry : Registry) (inner : Inner) (guild_id : ℕ)
    → audience_for registry inner (codes "VOICE_SERVER_UPDATE") (some guild_id)
      ≡ audience_of_owner registry guild_id (voice_owner inner guild_id)
unfolding audience_for str_beq
audience_for-voice registry inner guild_id = refl

-- The voice token of the shared bot in a guild is sent to no client but the one that owned the voice
-- connection there when the event came from Discord; and only if the client had the guild then, and
-- still has it when the event is sent.
pub audience_for-voice_owner :
    (dispatched registry : Registry) (inner : Inner) (client_id : Str) (guilds : List ℕ)
    (guild_id seq : ℕ) (event : BroadcastMessage)
    → event.guild_id ≡ some guild_id
    → event.audience ≡ audience_for dispatched inner (codes "VOICE_SERVER_UPDATE") (some guild_id)
    → (forward_event registry (client_subscriber client_id guilds) seq event).1 ≢ []
    → (voice_owner inner guild_id ≡ some client_id)
      × HasGuild dispatched client_id guild_id
      × HasGuild registry client_id guild_id
audience_for-voice_owner dispatched registry inner client_id guilds guild_id seq event g a h =
    let ((id, e, held), admitted) = sent-MaySee client_id guilds registry seq event h in
    let (owns, had) = Admits-owner dispatched guild_id (voice_owner inner guild_id) client_id (
      subst (λ k. Admits k client_id) (a ∙ audience_for-voice dispatched inner guild_id)
        admitted) in
    (
      owns,
      had,
      subst (λ k. HasGuild registry client_id k) (some-injective id guild_id (sym e ∙ g)) held,
    )
