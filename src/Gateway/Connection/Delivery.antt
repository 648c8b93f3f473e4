-- ===== src/Gateway/Connection/Delivery.antt =====
-- src/server.rs: which operations of a connection send to Discord, and to which shard.
use discord_gateway_proxy.State.Connections.{mark_client_connected}
use discord_gateway_proxy.State.Sessions.{get_session, prune_expired_sessions}
use discord_gateway_proxy.Map
use discord_gateway_proxy.Auth.{AuthContext}
use discord_gateway_proxy.Gateway.Connection.Turns.{find_session, resume_session}
use discord_gateway_proxy.Gateway.{ClientCommand, forward, voice}
use discord_gateway_proxy.Config.{Config}
use discord_gateway_proxy.State.Voice.{claim_voice, shard_for_guild, send_on}
use discord_gateway_proxy.State.Limits.{allow_client_command}
use discord_gateway_proxy.Gateway.Connection.{
  send_command, Messages, shard_for_guild, Shard, Moment, send_on, close_with, reject, ResumeInfo,
  Connection, activate, mark_client_connected, Turned, client_of,
}
use discord_gateway_proxy.Prelude.{
  ℕ, ◌≡◌, Str, Option, Bool, ◌⊎◌, arith, some, option-branches, inl, none, inr, ◌∙◌, if-branches,
  not, refl, str_eq, nat_eq, Option-cases, get_elem?,
}
use discord_gateway_proxy.State.{Inner, Shard, allow, VoiceDecision, deny, principal_beq}

-- The shards, and what was sent on them, are as they were.
abbrev pub SameShards : Inner → Inner → Type 0
SameShards inner inner' = (inner'.shards ≡ inner.shards) × (inner'.shard_count ≡ inner.shard_count)

-- A command went to the shard of a guild, and nothing else did.
abbrev pub Delivered : Inner → ℕ → Str → Inner → Type 0
Delivered inner guild_id command inner' =
    (shard : Shard) × (shard_for_guild inner guild_id ≡ some shard)
    × (inner'.shards ≡ send_on shard.id command inner.shards)

abbrev pub command_of : ℕ → Option (Option ℕ) → Str → ClientCommand
command_of guild_id none command = forward guild_id command
command_of guild_id (some channel_id) command = voice guild_id channel_id command

pub send_command-Delivered :
    (guild_id : ℕ) (command : Str) (inner before : Inner)
    → SameShards inner before
    → ((send_command guild_id command before).shards ≡ inner.shards)
      ⊎ Delivered inner guild_id command (send_command guild_id command before)
unfolding send_command shard_for_guild
send_command-Delivered guild_id command inner before (same, count) =
    option-branches (λ (i : Inner). (i.shards ≡ inner.shards) ⊎ Delivered inner guild_id command i)
      (shard_for_guild before guild_id) (λ e. inl same)
      (λ shard e. inr (shard, rw (← same, ← count) e, rw same))

pub allow_client_command-SameShards :
    (now limit window : ℕ) (client_id : Str) (inner : Inner)
    → SameShards inner (allow_client_command now limit window client_id inner).1
unfolding allow_client_command
allow_client_command-SameShards now limit window client_id inner = (ground arith, ground arith)

pub claim_voice-SameShards :
    (voice_states : Bool) (guild_id : ℕ) (client_id : Str) (joining : Bool) (inner : Inner)
    → SameShards inner (claim_voice voice_states guild_id client_id joining inner).1
unfolding claim_voice
claim_voice-SameShards voice_states guild_id client_id joining inner = (ground arith, ground arith)

pub SameShards-trans : (a b c : Inner) → SameShards a b → SameShards b c → SameShards a c
SameShards-trans a b c h k = (k.0 ∙ h.0, k.1 ∙ h.1)

pub decided-Delivered :
    (guild_id : ℕ) (command : Str) (inner claimed : Inner) (decision : VoiceDecision)
    → SameShards inner claimed
    → let after : Inner = elim decision [
      | deny ↦ claimed
      | allow ↦ send_command guild_id command claimed
    ] in
      (after.shards ≡ inner.shards) ⊎ ((decision ≡ allow) × Delivered inner guild_id command after)
decided-Delivered guild_id command inner claimed deny same = inl same.0
decided-Delivered guild_id command inner claimed allow same =
    elim (send_command-Delivered guild_id command inner claimed same) [
      | inl unsent ↦ inl unsent
      | inr sent ↦ inr (refl, sent)
    ]

get_session-shards :
    (now : ℕ) (id : Str) (inner : Inner) → (get_session now id inner).1.shards ≡ inner.shards
unfolding get_session
get_session-shards now id inner =
    elim (Option-cases (Map.get (prune_expired_sessions now inner.sessions) id)) [
      | inl e ↦ rw (e, get_session)
      | inr (session, e) ↦ rw (e, get_session)
    ]

activate-shards :
    (active client : Option Str) (inner : Inner)
    → (activate active client inner).shards ≡ inner.shards
unfolding activate mark_client_connected
activate-shards none none inner = refl
activate-shards none (some client_id) inner = refl
activate-shards (some active) client inner = refl

module _ (messages : Messages) (config : Config) (moment : Moment) where
  -- RESUME sends nothing to Discord.
  pub find_session-unsent :
      (resume : ResumeInfo) (context : AuthContext) (connection : Connection) (inner : Inner)
      → (find_session messages config moment resume context connection inner).inner.shards
        ≡ inner.shards
  unfolding find_session reject close_with resume_session
  find_session-unsent resume context connection inner =
      let looked = get_session moment.now resume.session_id inner in
      let unsent = get_session-shards moment.now resume.session_id inner in
      let P = λ (result : Turned). result.inner.shards ≡ inner.shards in
      option-branches P looked.0 (λ lost. unsent)
        (λ session found.
          if-branches P (not (principal_beq session.principal context.principal)) (λ other. unsent)
            (λ own.
              option-branches P (get_elem? looked.1.shards session.shard_id) (λ out. unsent)
                (λ shard there.
                  if-branches P connection.compress_tx
                    (λ there.
                      activate-shards connection.active_client_id (client_of session.principal)
                        looked.1
                      ∙ unsent)
                    (λ taken.
                      activate-shards connection.active_client_id (client_of session.principal)
                        looked.1
                      ∙ unsent))))
