-- ===== src/Gateway/Forwarding.antt =====
-- src/server.rs: which events a connection is sent, and how they are numbered.
use discord_gateway_proxy.Text.Number.{to_string}
use discord_gateway_proxy.Text.Search.{replace_range}
use mathlib.Core.Option.{some-injective}
use discord_gateway_proxy.Deserializer.{SequenceInfo}
use discord_gateway_proxy.Config.{ClientConfig}
use discord_gateway_proxy.State.{BroadcastMessage, Audience, BufferedClientEvent}
use discord_gateway_proxy.Clients.{Registry, client_has_guild, registered}
use discord_gateway_proxy.Gateway.{
  Subscriber, forward_events, audience_passes, Registry, forward_event, guild_passes,
  BroadcastMessage, is_live_guild, renumber, audience_allows, Audience, BufferedClientEvent, replay,
  replace_range, replay_event, to_string,
}
use discord_gateway_proxy.Prelude.{
  nat_eq, str_eq, arith, none, some, [], ◌∷◌, true, ℕ, List, Bool, Str, ◌≡◌, ◌&&◌, Bool-cases, inl,
  inr, refl, contains, Option-cases, Option, str_beq_iff, ◌+◌, subst, sym, ◌≢◌,
}

-- A guild that the client has in the registry.
abbrev pub HasGuild : Registry → Str → ℕ → Type 0
HasGuild registry client_id guild_id =
    (client : ClientConfig) × (registered registry client_id ≡ some client)
    × (contains client.guilds guild_id ≡ true)

pub client_has_guild-HasGuild :
    (registry : Registry) (client_id : Str) (guild_id : ℕ)
    → client_has_guild registry client_id guild_id ≡ true
    → HasGuild registry client_id guild_id
unfolding client_has_guild
client_has_guild-HasGuild registry client_id guild_id h =
    elim (Option-cases (registered registry client_id)) [
      | inl e ↦ cc (rw (client_has_guild, e) at h)
      | inr (client, e) ↦ (client, e, rw (client_has_guild, e) at h)
    ]

HasGuild-client_has_guild :
    (registry : Registry) (client_id : Str) (guild_id : ℕ)
    → HasGuild registry client_id guild_id
    → client_has_guild registry client_id guild_id ≡ true
unfolding client_has_guild
HasGuild-client_has_guild registry client_id guild_id (client, known, held) =
    rw (client_has_guild, known) held

live-HasGuild :
    (registry : Registry) (client_id : Str) (guilds : List ℕ) (guild_id : Option ℕ)
    → guild_passes registry
        (record { client_id = some client_id; authorized_guilds = some guilds })
        guild_id
      ≡ true
    → (id : ℕ) × (guild_id ≡ some id) × HasGuild registry client_id id
unfolding guild_passes is_live_guild
live-HasGuild registry client_id guilds none h = cc h
live-HasGuild registry client_id guilds (some id) h =
    (id, refl, client_has_guild-HasGuild registry client_id id h)

-- Whom an audience admits.
abbrev pub Admits : Audience → Str → Type 0
Admits Audience.guild client_id = Unit
Admits Audience.bot_only client_id = ⊥
Admits (Audience.client owner) client_id = client_id ≡ owner

Admits-passes :
    (client_id : Str) (guilds : List ℕ) (audience : Audience)
    → Admits audience client_id
    → audience_passes
        (record { client_id = some client_id; authorized_guilds = some guilds })
        audience
      ≡ true
unfolding audience_passes audience_allows
Admits-passes client_id guilds Audience.guild h = refl
Admits-passes client_id guilds Audience.bot_only h = absurd h
Admits-passes client_id guilds (Audience.client owner) h = (str_beq_iff client_id owner).1 h

passes-Admits :
    (client_id : Str) (guilds : List ℕ) (audience : Audience)
    → audience_passes
        (record { client_id = some client_id; authorized_guilds = some guilds })
        audience
      ≡ true
    → Admits audience client_id
unfolding audience_passes audience_allows
passes-Admits client_id guilds Audience.guild h = tt
passes-Admits client_id guilds Audience.bot_only h = cc h
passes-Admits client_id guilds (Audience.client owner) h = (str_beq_iff client_id owner).0 h

-- What a stream of events shows of those that meet `May`: all of them in order and nothing else, each
-- that has a sequence number with the number after that of the one before.
pub data Shows {A : Type 0} (payload : A → Str) (sequence : A → Option SequenceInfo)
    (May : A → Type 0) : ℕ → List A → List Str → Type 0 where
  over : (seq : ℕ) → Shows payload sequence May seq [] []
  hidden :
      (seq : ℕ) (event : A) (events : List A) (sent : List Str)
      → ¬ May event
      → Shows payload sequence May seq events sent
      → Shows payload sequence May seq (event ∷ events) sent
  unnumbered :
      (seq : ℕ) (event : A) (events : List A) (sent : List Str)
      → May event
      → sequence event ≡ none
      → Shows payload sequence May seq events sent
      → Shows payload sequence May seq (event ∷ events) (payload event ∷ sent)
  numbered :
      (seq : ℕ) (event : A) (events : List A) (sent : List Str) (info : SequenceInfo)
      → May event
      → sequence event ≡ some info
      → Shows payload sequence May (seq + 1) events sent
      → Shows payload sequence May seq (event ∷ events) (
          replace_range info.range.start info.range.stop (to_string (seq + 1)) (payload event)
          ∷ sent)

module _ {A : Type 0} (payload : A → Str) (sequence : A → Option SequenceInfo)
    (May : A → Type 0) where
  shown_next :
      (seq : ℕ) (event : A) (events : List A) (sent : List Str) (number : Option SequenceInfo)
      → sequence event ≡ number
      → May event
      → Shows payload sequence May (renumber seq (payload event) number).0 events sent
      → Shows payload sequence May seq
          (event ∷ events)
          ((renumber seq (payload event) number).1 ∷ sent)
  unfolding renumber
  shown_next seq event events sent none e may rest = unnumbered seq event events sent may e rest
  shown_next seq event events sent (some info) e may rest =
      numbered seq event events sent info may e rest

abbrev pub client_subscriber : Str → List ℕ → Subscriber
client_subscriber client_id guilds = record {
  client_id = some client_id;
  authorized_guilds = some guilds;
}

-- An event of a guild that the client has at this moment.
abbrev pub InGuild : Str → Registry → Option ℕ → Type 0
InGuild client_id registry guild_id =
    (id : ℕ) × (guild_id ≡ some id) × HasGuild registry client_id id

InGuild-passes :
    (client_id : Str) (guilds : List ℕ) (registry : Registry) (guild_id : Option ℕ)
    → InGuild client_id registry guild_id
    → guild_passes registry (client_subscriber client_id guilds) guild_id ≡ true
unfolding guild_passes is_live_guild
InGuild-passes client_id guilds registry none (id, e, held) = cc e
InGuild-passes client_id guilds registry (some gid) (id, e, held) =
    HasGuild-client_has_guild registry client_id gid
      (subst (λ g. HasGuild registry client_id g) (sym (some-injective gid id e)) held)

-- What a client may be sent of the events of a shard, each next to the registry of its moment.
abbrev pub MaySee : Str → Registry × BroadcastMessage → Type 0
MaySee client_id (registry, event) =
    InGuild client_id registry event.guild_id × Admits event.audience client_id

abbrev pub MayReplay : Str → Registry × BufferedClientEvent → Type 0
MayReplay client_id (registry, event) = InGuild client_id registry event.guild_id

and_true : (a b : Bool) → (a && b) ≡ true → (a ≡ true) × (b ≡ true)
and_true a b h = (ground arith, ground arith)

module _ (client_id : Str) (guilds : List ℕ) where
  -- A client is sent, of the events of a shard, exactly those of a guild that the registry gives it
  -- when the event is sent and whose audience is all clients or this client; in order, each that
  -- has a number with the next number, whatever was left out.
  pub forward_events-Shows :
      (seq : ℕ) (events : List (Registry × BroadcastMessage))
      → Shows
          (λ e. e.1.payload)
          (λ e. e.1.sequence)
          (MaySee client_id)
          seq
          events
          (forward_events (client_subscriber client_id guilds) seq events).1
  unfolding forward_events forward_event
  forward_events-Shows seq [] = over seq
  forward_events-Shows seq ((registry, event) ∷ events) =
      let subscriber = client_subscriber client_id guilds in
      let allowed = audience_passes subscriber event.audience in
      let within = guild_passes registry subscriber event.guild_id in
      elim (Bool-cases (allowed && within)) [
        | inl shown ↦
            let (a, g) = and_true allowed within shown in
            rw (shown, forward_event)
              (shown_next _ _ _ seq (registry, event) events _ event.sequence refl
                (
                  live-HasGuild registry client_id guilds event.guild_id g,
                  passes-Admits client_id guilds event.audience a,
                )
                (forward_events-Shows (renumber seq event.payload event.sequence).0 events))
        | inr unseen ↦
            rw (unseen, forward_event)
              (hidden seq (registry, event) events _
                (λ may.
                  let a = Admits-passes client_id guilds event.audience may.1 in
                  let g = InGuild-passes client_id guilds registry event.guild_id may.0 in
                  ground (arith, a, g, unseen))
                (forward_events-Shows seq events))
      ]

  -- Of the events that were kept while it had no connection, a client is sent exactly those of a
  -- guild that the registry gives it when they are replayed; in order, numbered in the same way.
  pub replay-Shows :
      (seq : ℕ) (events : List (Registry × BufferedClientEvent))
      → Shows
          (λ e. e.1.payload)
          (λ e. e.1.sequence)
          (MayReplay client_id)
          seq
          events
          (replay (client_subscriber client_id guilds) seq events).1
  unfolding replay replay_event
  replay-Shows seq [] = over seq
  replay-Shows seq ((registry, event) ∷ events) =
      elim (Bool-cases
        (guild_passes registry (client_subscriber client_id guilds) event.guild_id)) [
          | inl shown ↦
              rw (shown, replay_event)
                (shown_next _ _ _ seq (registry, event) events _ event.sequence refl
                  (live-HasGuild registry client_id guilds event.guild_id shown)
                  (replay-Shows (renumber seq event.payload event.sequence).0 events))
          | inr unseen ↦
              rw (unseen, replay_event)
                (hidden seq (registry, event) events _
                  (λ may. cc (unseen, InGuild-passes client_id guilds registry event.guild_id may))
                  (replay-Shows seq events))
        ]

  -- What is sent of one event.
  pub sent-MaySee :
      (registry : Registry) (seq : ℕ) (event : BroadcastMessage)
      → (forward_event registry (client_subscriber client_id guilds) seq event).1 ≢ []
      → MaySee client_id (registry, event)
  unfolding forward_event
  sent-MaySee registry seq event some_sent =
      let subscriber = client_subscriber client_id guilds in
      let allowed = audience_passes subscriber event.audience in
      let within = guild_passes registry subscriber event.guild_id in
      elim (Bool-cases (allowed && within)) [
        | inl shown ↦
            let (a, g) = and_true allowed within shown in
            (
              live-HasGuild registry client_id guilds event.guild_id g,
              passes-Admits client_id guilds event.audience a,
            )
        | inr unseen ↦ absurd (some_sent (rw (unseen, forward_event)))
      ]
