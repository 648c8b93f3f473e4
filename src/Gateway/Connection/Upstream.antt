-- ===== src/Gateway/Connection/Upstream.antt =====
-- src/server.rs: what a connection of a multi-tenant client sends on the shared session of the bot.
use discord_gateway_proxy.Gateway.Connection.Delivery.{
  Delivered, command_of, send_command-Delivered, allow_client_command-SameShards,
  claim_voice-SameShards, SameShards-trans, decided-Delivered, find_session-unsent,
}
use mathlib.Core.Option.{some-injective}
use discord_gateway_proxy.Gateway.Connection.Phases.{Stands, serving}
use discord_gateway_proxy.Gateway.Connection.Cases.{turn-cases, not-not}
use discord_gateway_proxy.Clients.{client_guilds}
use discord_gateway_proxy.Gateway.Connection.Turns.{
  claim_and_send, turn, limit_command, filtered_command, on_heartbeat,
}
use discord_gateway_proxy.Gateway.Filter.{MayPass, filter_client_command-MayPass}
use discord_gateway_proxy.Gateway.{
  ClientCommand, forward, voice, drop_command, filter_client_command,
}
use discord_gateway_proxy.Config.{Config}
use discord_gateway_proxy.State.Voice.{claim_voice}
use discord_gateway_proxy.State.Limits.{allow_client_command}
use discord_gateway_proxy.Gateway.Connection.{
  Messages, Moment, client_command_limit, channel_fits, client_command_window, close_with, Wakeup,
  Connection, ForwardTask,
}
use discord_gateway_proxy.Prelude.{
  ℕ, ◌≡◌, Str, Option, Bool, ◌⊎◌, some, inl, is_some, true, unwrap_or, none, inr, [], ◌∙◌,
  if-branches, not, refl, str_eq, nat_eq, subst, sym,
}
use discord_gateway_proxy.State.{Inner, allow}

module _ (messages : Messages) (config : Config) (moment : Moment) (client_id : Str) where
  -- The attempt on the rate limit of the client.
  abbrev pub attempt : Inner → Bool × Inner
  attempt inner =
      allow_client_command moment.now client_command_limit client_command_window client_id inner

  -- A command that is about voice needs the guild's voice connection.
  abbrev pub MayClaim : ℕ → Option (Option ℕ) → Inner → Type 0
  MayClaim guild_id none inner = Unit
  MayClaim guild_id (some channel_id) inner =
      (claim_voice config.cache.voice_states guild_id client_id (is_some channel_id) inner).0
      ≡ allow

  -- The checks of `handle_client` on a command, besides the filter.
  abbrev pub Admitted : Inner → ℕ → Option (Option ℕ) → Type 0
  Admitted inner guild_id voice_channel =
      (channel_fits inner guild_id voice_channel ≡ true)
      × ((attempt inner).0 ≡ true)
      × MayClaim guild_id voice_channel (attempt inner).1

  -- Nothing was sent, or the one command that the filter made of a message.
  abbrev pub SendsOnly : Inner → Inner → Type 0
  SendsOnly inner inner' =
      (inner'.shards ≡ inner.shards)
      ⊎ ((op : ℕ) × (payload : Str) × (guild_id : ℕ) × (voice_channel : Option (Option ℕ))
          × (command : Str) × MayPass messages.commands op payload
              (unwrap_or [] (client_guilds moment.registry client_id))
              (command_of guild_id voice_channel command)
          × Admitted inner guild_id voice_channel
          × Delivered inner guild_id command inner')

  abbrev Outcome : Inner → ℕ → Option (Option ℕ) → Str → Inner → Type 0
  Outcome inner guild_id voice_channel command inner' =
      (inner'.shards ≡ inner.shards)
      ⊎ (MayClaim guild_id voice_channel (attempt inner).1
          × Delivered inner guild_id command inner')

  claim_and_send-Outcome :
      (inner : Inner) (guild_id : ℕ) (voice_channel : Option (Option ℕ)) (command : Str)
      → Outcome inner guild_id voice_channel command (
          claim_and_send messages config moment client_id guild_id voice_channel command
            (attempt inner).1)
  unfolding claim_and_send
  claim_and_send-Outcome inner guild_id none command =
      elim (send_command-Delivered guild_id command inner (attempt inner).1 (
        allow_client_command-SameShards moment.now client_command_limit client_command_window
          client_id inner)) [ inl same ↦ inl same | inr sent ↦ inr (tt, sent) ]
  claim_and_send-Outcome inner guild_id (some channel_id) command =
      let counted = (attempt inner).1 in
      let claim =
        claim_voice config.cache.voice_states guild_id client_id (is_some channel_id) counted in
      decided-Delivered guild_id command inner claim.1 claim.0 (
        SameShards-trans inner counted claim.1
          (allow_client_command-SameShards moment.now client_command_limit client_command_window
            client_id inner)
          (claim_voice-SameShards config.cache.voice_states guild_id client_id (is_some channel_id)
            counted))

  limit_command-Sends :
      (inner : Inner) (op : ℕ) (payload : Str) (guild_id : ℕ) (voice_channel : Option (Option ℕ))
      (command : Str)
      → MayPass messages.commands op payload
          (unwrap_or [] (client_guilds moment.registry client_id))
          (command_of guild_id voice_channel command)
      → SendsOnly inner
          (limit_command messages config moment client_id guild_id voice_channel command inner)
  unfolding limit_command
  limit_command-Sends inner op payload guild_id voice_channel command may =
      if-branches (SendsOnly inner) (not (channel_fits inner guild_id voice_channel))
        (λ misfit. inl refl)
        (λ fits.
          if-branches (SendsOnly inner) (not (attempt inner).0)
            (λ over.
              inl
                (allow_client_command-SameShards moment.now client_command_limit
                  client_command_window client_id inner).0)
            (λ within. elim (claim_and_send-Outcome inner guild_id voice_channel command) [
              | inl unsent ↦ inl unsent
              | inr (claimed, sent) ↦ inr (
                op,
                payload,
                guild_id,
                voice_channel,
                command,
                may,
                (
                  not-not (channel_fits inner guild_id voice_channel) fits,
                  not-not (attempt inner).0 within,
                  claimed,
                ),
                sent,
              )
            ]))

  filtered_command-Sends :
      (inner : Inner) (op : ℕ) (payload : Str) (command : ClientCommand)
      → MayPass messages.commands op payload
          (unwrap_or [] (client_guilds moment.registry client_id))
          command
      → SendsOnly inner (filtered_command messages config moment client_id command inner)
  unfolding filtered_command
  filtered_command-Sends inner op payload (forward guild_id command) may =
      limit_command-Sends inner op payload guild_id none command may
  filtered_command-Sends inner op payload (voice guild_id channel_id command) may =
      limit_command-Sends inner op payload guild_id (some channel_id) command may
  filtered_command-Sends inner op payload (drop_command reason) may = inl refl

  -- Whatever an authenticated client sends in whatever turn, at most one command goes to Discord: one
  -- that the filter made of a message for a guild that the client has now, whose channel is known to
  -- be in that guild, within the rate limit of the client, and for a command about voice only if the
  -- client may claim the guild's voice. It goes to the shard of that guild and to no other.
  pub turn-SendsOnly :
      (wakeup : Wakeup) (connection : Connection) (inner : Inner) (task : ForwardTask)
      → Stands (serving task) connection
      → task.subscriber.client_id ≡ some client_id
      → SendsOnly inner (turn messages config moment wakeup connection inner).inner
  unfolding close_with on_heartbeat
  turn-SendsOnly wakeup connection inner task h own =
      turn-cases messages config moment (λ result. SendsOnly inner result.inner) connection inner
        (record {
          unchanged = λ flow. inl refl;
          sink_gone = inl refl;
          closes = λ sent. inl refl;
          heartbeat = inl refl;
          starts = λ identify context there within e. cc (h.0, there);
          finds = λ resume context e.
              inl (find_session-unsent messages config moment resume context connection inner);
          passes = λ index payload s o. cc (h.3, own, o);
          filters = λ index op payload client s o.
              subst
                (λ c. SendsOnly inner (
                  filtered_command messages config moment c
                    (filter_client_command messages.commands op payload
                      (unwrap_or [] (client_guilds moment.registry c)))
                    inner))
                (some-injective client_id client (sym own ∙ sym h.3 ∙ o))
                (filtered_command-Sends inner op payload _ (
                  filter_client_command-MayPass messages.commands op payload
                    (unwrap_or [] (client_guilds moment.registry client_id))));
        })
        wakeup
