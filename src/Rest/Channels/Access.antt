-- ===== src/Rest/Channels/Access.antt =====
-- src/rest_proxy.rs: which channels a client may use, and what it is told of the others.
use discord_gateway_proxy.Rest.{Response, json_error, json_response, unknown_channel_error}
use discord_gateway_proxy.State.{Shard}
use discord_gateway_proxy.Json.{Value}
use discord_gateway_proxy.Rest.Channels.{
  ChannelGuildLookup, response_for_channel_scope, classify_channel_lookup_response,
  channel_scope_decision, response_of_decision, Value, Shard, resolve_guild_id_for_channel,
  resolve_channel_guild_id, parse_guild_id_from_channel_payload, lookup_channel_guild_id, Response,
}
use discord_gateway_proxy.Prelude.{
  nat_eq, str_eq, arith, List, Str, Option, ℕ, some, Bool, none, false, is_some, if◌then◌else◌, ◌≡◌,
  contains, not, leb, Option-cases, Bool-cases, ◌&&◌, ◌∙◌, inl, ltb, ap, inr, ◌↔◌, refl, or_else,
}

-- The guild that a lookup found.
abbrev lookup_guild : ChannelGuildLookup → Option ℕ
lookup_guild (ChannelGuildLookup.found guild_id) = some guild_id
lookup_guild _ = none

abbrev pub may_use : List ℕ → Option ℕ → Bool
may_use authorized_guilds none = false
may_use authorized_guilds (some guild_id) = contains authorized_guilds guild_id

refused :
    (lookup : ChannelGuildLookup) (authorized_guilds : List ℕ)
    → is_some (response_for_channel_scope lookup authorized_guilds)
      ≡ not (may_use authorized_guilds (lookup_guild lookup))
unfolding response_for_channel_scope channel_scope_decision response_of_decision
refused (ChannelGuildLookup.found guild_id) authorized_guilds =
    elim (Bool-cases (contains authorized_guilds guild_id)) [
      | inl held ↦ rw held
      | inr foreign ↦ rw foreign
    ]
refused ChannelGuildLookup.unknown_channel authorized_guilds = refl
refused ChannelGuildLookup.missing_guild authorized_guilds = refl
refused ChannelGuildLookup.lookup_failed authorized_guilds = refl

abbrev pub read_guild : (Str → Option Value) → Option (ℕ × Str) → Option ℕ
read_guild parse none = none
read_guild parse (some (status, body)) =
    if leb 200 status && ltb status 300
    then parse_guild_id_from_channel_payload parse body
    else none

classified :
    (parse : Str → Option Value) (status : ℕ) (body : Str)
    → lookup_guild (classify_channel_lookup_response parse status body)
      ≡ read_guild parse (some (status, body))
unfolding classify_channel_lookup_response
classified parse status body =
    elim (Option-cases (parse_guild_id_from_channel_payload parse body)) [
      | inl e ↦ rw (lookup_guild, classify_channel_lookup_response, e) ground arith
      | inr (guild_id, e) ↦ rw (lookup_guild, classify_channel_lookup_response, e) ground arith
    ]

not_found :
    (lookup : ChannelGuildLookup) (authorized_guilds : List ℕ) (response : Response)
    → response_for_channel_scope lookup authorized_guilds ≡ some response
    → (response.status ≡ 404) ↔ (lookup ≡ ChannelGuildLookup.unknown_channel)
unfolding response_for_channel_scope channel_scope_decision response_of_decision json_error
    json_response unknown_channel_error
not_found (ChannelGuildLookup.found guild_id) authorized_guilds response h = ground arith
not_found ChannelGuildLookup.unknown_channel authorized_guilds response h = ground arith
not_found ChannelGuildLookup.missing_guild authorized_guilds response h = ground arith
not_found ChannelGuildLookup.lookup_failed authorized_guilds response h = ground arith

classified_unknown :
    (parse : Str → Option Value) (status : ℕ) (body : Str)
    → (classify_channel_lookup_response parse status body ≡ ChannelGuildLookup.unknown_channel)
      ↔ (status ≡ 404)
unfolding classify_channel_lookup_response
classified_unknown parse status body = ground arith

module _ (parse : Str → Option Value) (fetch_channel : ℕ → Option (ℕ × Str))
    (shards : List Shard) where
  -- The guild of a channel: from the cache, or else from an answer of Discord's that is a success.
  abbrev pub guild_of_channel : ℕ → Option ℕ
  guild_of_channel channel_id =
      or_else (resolve_guild_id_for_channel shards channel_id)
        (read_guild parse (fetch_channel channel_id))

  resolved :
      (channel_id : ℕ)
      → lookup_guild (resolve_channel_guild_id parse fetch_channel shards channel_id)
        ≡ guild_of_channel channel_id
  unfolding resolve_channel_guild_id lookup_channel_guild_id
  resolved channel_id = elim (Option-cases (resolve_guild_id_for_channel shards channel_id)) [
    | inl e ↦ elim (Option-cases (fetch_channel channel_id)) [
      | inl f ↦ rw (resolve_channel_guild_id, e, lookup_channel_guild_id, f, guild_of_channel)
      | inr ((status, body), f) ↦
          rw (resolve_channel_guild_id, e, lookup_channel_guild_id, f, guild_of_channel)
            (classified parse status body)
    ]
    | inr (guild_id, e) ↦ rw (resolve_channel_guild_id, e, guild_of_channel)
  ]

  -- A client gets past the guard of a channel exactly if the channel is known to be in one of the
  -- client's guilds.
  pub response_for_channel_scope_lem :
      (channel_id : ℕ) (authorized_guilds : List ℕ)
      → is_some (
          response_for_channel_scope
            (resolve_channel_guild_id parse fetch_channel shards channel_id)
            authorized_guilds)
        ≡ not (may_use authorized_guilds (guild_of_channel channel_id))
  response_for_channel_scope_lem channel_id authorized_guilds =
      refused (resolve_channel_guild_id parse fetch_channel shards channel_id) authorized_guilds
      ∙ ap (λ g. not (may_use authorized_guilds g)) (resolved channel_id)

  unknown_inv :
      {channel_id : ℕ}
      → resolve_channel_guild_id parse fetch_channel shards channel_id
        ≡ ChannelGuildLookup.unknown_channel
      → (resolve_guild_id_for_channel shards channel_id ≡ none)
        × (body : Str) × (fetch_channel channel_id ≡ some (404, body))
  unfolding resolve_channel_guild_id lookup_channel_guild_id
  unknown_inv {channel_id} h =
      elim (Option-cases (resolve_guild_id_for_channel shards channel_id)) [
        | inl e ↦ elim (Option-cases (fetch_channel channel_id)) [
          | inl f ↦ cc (rw (resolve_channel_guild_id, e, lookup_channel_guild_id, f) at h)
          | inr ((status, body), f) ↦
              let same =
                (classified_unknown parse status body).0
                  (rw (resolve_channel_guild_id, e, lookup_channel_guild_id, f) at h) in
              (e, body, f ∙ ap (λ k. some (k, body)) same)
        ]
        | inr (guild_id, e) ↦ cc (rw (resolve_channel_guild_id, e) at h)
      ]

  -- A channel that Discord does not know is answered with 404, whatever guilds the client has, and
  -- no other channel is.
  pub unknown_channel_lem :
      (channel_id : ℕ) (authorized_guilds : List ℕ) (response : Response)
      → response_for_channel_scope
          (resolve_channel_guild_id parse fetch_channel shards channel_id)
          authorized_guilds
        ≡ some response
      → (response.status ≡ 404) ↔ (
          (resolve_guild_id_for_channel shards channel_id ≡ none)
          × (body : Str) × (fetch_channel channel_id ≡ some (404, body)))
  unfolding response_for_channel_scope resolve_channel_guild_id lookup_channel_guild_id
  unknown_channel_lem channel_id authorized_guilds response h =
      let (to, from) =
        not_found (resolve_channel_guild_id parse fetch_channel shards channel_id) authorized_guilds
          response h in
      (
        λ s. unknown_inv (to s),
        λ (cached, body, f). from (
            rw (resolve_channel_guild_id, cached, lookup_channel_guild_id, f)
              ((classified_unknown parse 404 body).1 refl)),
      )
