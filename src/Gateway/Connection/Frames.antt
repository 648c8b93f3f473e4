-- ===== src/Gateway/Connection/Frames.antt =====
-- src/server.rs: what the calls of `handle_client` leave alone of the shared state.
use discord_gateway_proxy.Gateway.Connection.Turns.{claim_and_send, limit_command, filtered_command}
use discord_gateway_proxy.Prelude.{
  ◌≡◌, ℕ, Bool, List, Option, Str, ◌∷◌, some, Option-cases, arith, [], none, refl, inl, inr, ◌∙◌,
  is_some, Bool-cases,
}
use discord_gateway_proxy.Config.{Config}
use discord_gateway_proxy.State.Voice.{
  claim_voice, send_voice_leave, leave_voice_for_client, shard_for_guild,
}
use discord_gateway_proxy.State.Limits.{allow_client_command}
use discord_gateway_proxy.State.Sessions.{
  create_session, get_session, first_unused, prune_expired_sessions,
}
use discord_gateway_proxy.Gateway.Connection.{
  send_voice_leaves, leave_calls, send_command, send_voice_leave, leave_voice_for_client, Moment,
  shard_for_guild, Messages, client_command_limit, client_command_window, channel_fits,
}
use discord_gateway_proxy.State.{Inner, Session}
use discord_gateway_proxy.State.{allow, deny, VoiceDecision}
use discord_gateway_proxy.Gateway.{forward, voice, drop_command, ClientCommand}
use discord_gateway_proxy.Map
use discord_gateway_proxy.Prelude.{str_eq, nat_eq}

-- The counts of live connections are as they were.
abbrev pub SameCounts : Inner → Inner → Type 0
SameCounts inner inner' = inner'.active_client_connections ≡ inner.active_client_connections

pub send_voice_leaves-SameCounts :
    (guilds : List ℕ) (inner : Inner) → SameCounts inner (send_voice_leaves guilds inner)
unfolding send_voice_leaves send_voice_leave
send_voice_leaves-SameCounts [] inner = refl
send_voice_leaves-SameCounts (guild_id ∷ guilds) inner =
    send_voice_leaves-SameCounts guilds (send_voice_leave guild_id inner)

pub leave_calls-SameCounts :
    (client : Option Str) (shard_id : ℕ) (inner : Inner)
    → SameCounts inner (leave_calls client shard_id inner)
unfolding leave_calls leave_voice_for_client
leave_calls-SameCounts none shard_id inner = refl
leave_calls-SameCounts (some client_id) shard_id inner =
    send_voice_leaves-SameCounts (leave_voice_for_client client_id shard_id inner).1
      (leave_voice_for_client client_id shard_id inner).0

pub create_session-SameCounts :
    (now : ℕ) (draws : List Str) (session : Session) (inner inner' : Inner) (id : Str)
    → create_session now draws session inner ≡ some (id, inner')
    → SameCounts inner inner'
unfolding create_session
create_session-SameCounts now draws session inner inner' id h =
    elim (Option-cases (first_unused (prune_expired_sessions now inner.sessions) draws)) [
      | inl e ↦ cc (rw (e, create_session) at h)
      | inr (found, e) ↦ let h' = rw (e, create_session) at h in ground (arith, e, h')
    ]

pub get_session-SameCounts :
    (now : ℕ) (id : Str) (inner : Inner) → SameCounts inner (get_session now id inner).1
unfolding get_session
get_session-SameCounts now id inner =
    elim (Option-cases (Map.get (prune_expired_sessions now inner.sessions) id)) [
      | inl e ↦ rw (e, get_session)
      | inr (session, e) ↦ rw (e, get_session)
    ]

pub send_command-SameCounts :
    (guild_id : ℕ) (command : Str) (inner : Inner)
    → SameCounts inner (send_command guild_id command inner)
unfolding send_command
send_command-SameCounts guild_id command inner =
    elim (Option-cases (shard_for_guild inner guild_id)) [
      | inl e ↦ rw (e, send_command)
      | inr (shard, e) ↦ rw (e, send_command)
    ]

pub allow_client_command-SameCounts :
    (now limit window : ℕ) (client_id : Str) (inner : Inner)
    → SameCounts inner (allow_client_command now limit window client_id inner).1
unfolding allow_client_command
allow_client_command-SameCounts now limit window client_id inner = ground arith

pub claim_voice-SameCounts :
    (voice_states : Bool) (guild_id : ℕ) (client_id : Str) (joining : Bool) (inner : Inner)
    → SameCounts inner (claim_voice voice_states guild_id client_id joining inner).1
unfolding claim_voice
claim_voice-SameCounts voice_states guild_id client_id joining inner = ground arith

sent_if_allowed :
    (guild_id : ℕ) (command : Str) (inner claimed : Inner) (decision : VoiceDecision)
    → SameCounts inner claimed
    → SameCounts inner
        (elim decision [ deny ↦ claimed | allow ↦ send_command guild_id command claimed ])
sent_if_allowed guild_id command inner claimed deny h = h
sent_if_allowed guild_id command inner claimed allow h =
    send_command-SameCounts guild_id command claimed ∙ h

module _ (messages : Messages) (config : Config) (moment : Moment) where
  claim_and_send-SameCounts :
      (client_id : Str) (guild_id : ℕ) (voice_channel : Option (Option ℕ)) (command : Str)
      (inner : Inner)
      → SameCounts inner
          (claim_and_send messages config moment client_id guild_id voice_channel command inner)
  unfolding claim_and_send
  claim_and_send-SameCounts client_id guild_id none command inner =
      send_command-SameCounts guild_id command inner
  claim_and_send-SameCounts client_id guild_id (some channel) command inner =
      let claim =
        claim_voice config.cache.voice_states guild_id client_id (is_some channel) inner in
      sent_if_allowed guild_id command inner claim.1 claim.0 (
        claim_voice-SameCounts config.cache.voice_states guild_id client_id (is_some channel) inner)

  limit_command-SameCounts :
      (client_id : Str) (guild_id : ℕ) (voice_channel : Option (Option ℕ)) (command : Str)
      (inner : Inner)
      → SameCounts inner
          (limit_command messages config moment client_id guild_id voice_channel command inner)
  unfolding limit_command
  limit_command-SameCounts client_id guild_id voice_channel command inner =
      let attempt =
        allow_client_command moment.now client_command_limit client_command_window client_id
          inner in
      let counted =
        allow_client_command-SameCounts moment.now client_command_limit client_command_window
          client_id inner in
      elim (Bool-cases (channel_fits inner guild_id voice_channel)) [
        | inr misfit ↦ rw (misfit, limit_command)
        | inl fits ↦ elim (Bool-cases attempt.0) [
          | inr over ↦ rw (fits, limit_command, over) counted
          | inl within ↦
              rw (fits, limit_command, within)
                (claim_and_send-SameCounts client_id guild_id voice_channel command attempt.1
                  ∙ counted)
        ]
      ]

  pub filtered_command-SameCounts :
      (client_id : Str) (command : ClientCommand) (inner : Inner)
      → SameCounts inner (filtered_command messages config moment client_id command inner)
  unfolding filtered_command
  filtered_command-SameCounts client_id (forward guild_id command) inner =
      limit_command-SameCounts client_id guild_id none command inner
  filtered_command-SameCounts client_id (voice guild_id channel_id command) inner =
      limit_command-SameCounts client_id guild_id (some channel_id) command inner
  filtered_command-SameCounts client_id (drop_command reason) inner = refl
