-- ===== src/Rest/Channels.antt =====
-- src/rest_proxy.rs: the guild of a channel, and whether a client may use the channel.
pub mod Access
use discord_gateway_proxy.State.{InMemoryCache, Shard, CachedGuild}
use discord_gateway_proxy.Rest.{unknown_channel_error, json_error, Response, parse_snowflake}
use discord_gateway_proxy.Json.{as_str, as_u64, Value, as_object, get_field}
use discord_gateway_proxy.Prelude.{
  nat_eq, str_eq, arith, ℕ, Option, Str, List, contains, if◌then◌else◌, codes, nat_beq, some, none,
  find_map, ◌>>=◌, not, ◌∷◌, leb, unwrap_or, ◌&&◌, [], ltb,
}

pub data ChannelGuildLookup : Type 0 where
  found : ℕ → ChannelGuildLookup
  unknown_channel missing_guild lookup_failed : ChannelGuildLookup

pub data ChannelScopeDecision : Type 0 where
  allow unknown_channel lookup_failed : ChannelScopeDecision
  forbidden : Option ℕ → ChannelScopeDecision

unfoldable pub parse_guild_id_value : Value → Option ℕ
unfolding as_str as_u64 parse_snowflake
parse_guild_id_value guild_value = elim (as_str guild_value) [
  | some guild_id ↦ parse_snowflake guild_id
  | none ↦ as_u64 guild_value
]

-- `parse` reads JSON, as `serde_json` does.
module _ (parse : Str → Option Value) where
  unfoldable pub parse_guild_id_from_channel_payload : Str → Option ℕ
  unfolding as_object parse_guild_id_value
  parse_guild_id_from_channel_payload raw_payload =
      parse raw_payload
      >>= as_object
      >>= (λ object. get_field object (codes "guild_id"))
      >>= parse_guild_id_value

  unfoldable pub classify_channel_lookup_response : ℕ → Str → ChannelGuildLookup
  unfolding parse_guild_id_from_channel_payload
  classify_channel_lookup_response status raw_payload =
      if nat_beq status 404
      then ChannelGuildLookup.unknown_channel
      else if not (leb 200 status && ltb status 300)
      then ChannelGuildLookup.lookup_failed
      else elim (parse_guild_id_from_channel_payload raw_payload) [
        | some guild_id ↦ ChannelGuildLookup.found guild_id
        | none ↦ ChannelGuildLookup.missing_guild
      ]

unfoldable pub channel_scope_decision : ChannelGuildLookup → List ℕ → ChannelScopeDecision
channel_scope_decision (ChannelGuildLookup.found guild_id) authorized_guilds =
    if contains authorized_guilds guild_id
    then ChannelScopeDecision.allow
    else ChannelScopeDecision.forbidden (some guild_id)
channel_scope_decision ChannelGuildLookup.unknown_channel authorized_guilds =
    ChannelScopeDecision.unknown_channel
channel_scope_decision ChannelGuildLookup.missing_guild authorized_guilds =
    ChannelScopeDecision.forbidden none
channel_scope_decision ChannelGuildLookup.lookup_failed authorized_guilds =
    ChannelScopeDecision.lookup_failed

abbrev outside_scope : Str
outside_scope = codes "REST route is outside the authorized guild scope"

unfoldable pub response_of_decision : ChannelScopeDecision → Option Response
unfolding unknown_channel_error json_error
response_of_decision ChannelScopeDecision.allow = none
response_of_decision ChannelScopeDecision.unknown_channel = some unknown_channel_error
response_of_decision ChannelScopeDecision.lookup_failed =
    some (json_error 502 (codes "Failed to resolve channel guild scope"))
response_of_decision (ChannelScopeDecision.forbidden guild_id) = some (json_error 403 outside_scope)

unfoldable pub response_for_channel_scope : ChannelGuildLookup → List ℕ → Option Response
unfolding channel_scope_decision response_of_decision
response_for_channel_scope lookup authorized_guilds =
    response_of_decision (channel_scope_decision lookup authorized_guilds)

-- src/cache.rs: `resolve_guild_id_for_channel` of one shard.
unfoldable pub guild_with_channel : InMemoryCache → ℕ → List CachedGuild → Option ℕ
unfolding contains
guild_with_channel cache channel_id [] = none
guild_with_channel cache channel_id (g ∷ guilds) =
    let rest = guild_with_channel cache channel_id guilds in
    if contains (unwrap_or [] (cache.guild_channels g.id)) channel_id then some g.id else rest

-- src/state.rs: the same over all shards.
unfoldable pub resolve_guild_id_for_channel : List Shard → ℕ → Option ℕ
unfolding guild_with_channel
resolve_guild_id_for_channel shards channel_id =
    find_map (λ (shard : Shard). guild_with_channel shard.guilds channel_id shard.guilds.guilds)
      shards

-- What Discord answers to `GET /channels/{id}`: `none` where the request or the reading of its body
-- fails.
unfoldable pub lookup_channel_guild_id :
    (Str → Option Value) → (ℕ → Option (ℕ × Str)) → ℕ → ChannelGuildLookup
unfolding classify_channel_lookup_response
lookup_channel_guild_id parse fetch_channel channel_id = elim (fetch_channel channel_id) [
  | none ↦ ChannelGuildLookup.lookup_failed
  | some (status, body) ↦ classify_channel_lookup_response parse status body
]

unfoldable pub resolve_channel_guild_id :
    (Str → Option Value) → (ℕ → Option (ℕ × Str)) → List Shard → ℕ → ChannelGuildLookup
unfolding resolve_guild_id_for_channel lookup_channel_guild_id
resolve_channel_guild_id parse fetch_channel shards channel_id =
    elim (resolve_guild_id_for_channel shards channel_id) [
      | some guild_id ↦ ChannelGuildLookup.found guild_id
      | none ↦ lookup_channel_guild_id parse fetch_channel channel_id
    ]
