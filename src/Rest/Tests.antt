-- ===== src/Rest/Tests.antt =====
-- Runs of src/rest_proxy.rs, and its theorems at concrete requests.
use discord_gateway_proxy.Rest.Channels.Access.{response_for_channel_scope_lem}
use discord_gateway_proxy.Rest.Requests.Isolation.{InScope, admit-InScope}
use discord_gateway_proxy.Rest.Channels.{
  response_for_channel_scope, resolve_channel_guild_id, resolve_guild_id_for_channel,
}
use discord_gateway_proxy.Rest.Paths.Canonical.{path_of, is_canonical_path_lem}
use discord_gateway_proxy.Rest.Requests.Voice.{NamesBot, admit-voice_owner}
use discord_gateway_proxy.Rest.Paths.Scopes.{Meaning, resolve_route_scope-Meaning}
use discord_gateway_proxy.Rest.Requests.SentHeaders.{named, named-forwarded_headers}
use discord_gateway_proxy.State.Voice.{voice_owner, bot_user_id}
use discord_gateway_proxy.Rest.Voice.{bot_voice_change_guild, skip_prefix}
use discord_gateway_proxy.Rest.{
  is_allowed_without_auth, patch, RouteScope, unknown_channel_error, parse_snowflake,
}
use discord_gateway_proxy.Rest.Paths.{
  is_canonical_path, normalize_path, resolve_route_scope, segments_of, is_canonical_segment,
}
use discord_gateway_proxy.Auth.{authenticate_gateway_token, GatewayAuthResult}
use discord_gateway_proxy.Config.{Config, default_cache}
use discord_gateway_proxy.Rest.Requests.{
  Services, Shared, Request, UpstreamRequest, admit, proceed, presented_token, forwarded_headers,
}
use discord_gateway_proxy.Json.{field, str, Value, num, end, obj}
use discord_gateway_proxy.Map
use mathlib.Core.Option.{some-injective}
use discord_gateway_proxy.Json.{null, bool, num, other_num, str, arr, obj, end, field}
use discord_gateway_proxy.State.{SessionPrincipal, InMemoryCache, Shard}
use discord_gateway_proxy.Prelude.{
  nat_eq, str_eq, arith, none, some, [], ◌∷◌, true, false, refl, Str, List, codes, is_some, ◌≡◌,
  Option, if◌then◌else◌, ◌↔◌, nat_beq, str_beq, all, Bool-cases, inl, ◌>>=◌, subst, ap, sym,
  str_beq_iff, inr, contains,
}

-- A JSON library that knows one object, and a Discord that knows no channel but 9, of guild 7.
abbrev external_url : Str
external_url = codes "wss://proxy"

-- It reads `A` as an object without fields, and `B` and an address as one with the `url` only, which
-- is all that it writes.
abbrev toy_parse : Str → Option Value
toy_parse [] = none
toy_parse (c ∷ url) =
    if nat_beq c b'A'
    then some (obj end)
    else if nat_beq c b'B'
    then some (obj (field (codes "url") (str url) end))
    else none

abbrev toy_serialize : Value → Option Str
toy_serialize (obj (field key (str url) end)) =
    if str_beq key (codes "url") then some (b'B' ∷ url) else none
toy_serialize _ = none

toy_roundtrip :
    (value : Value) (text : Str) → toy_serialize value ≡ some text → toy_parse text ≡ some value
toy_roundtrip null text h = cc h
toy_roundtrip (bool b) text h = cc h
toy_roundtrip (num n) text h = cc h
toy_roundtrip (other_num n) text h = cc h
toy_roundtrip (str s) text h = cc h
toy_roundtrip (arr items) text h = cc h
toy_roundtrip (obj end) text h = cc h
toy_roundtrip (obj (field key null fields)) text h = cc h
toy_roundtrip (obj (field key (bool b) fields)) text h = cc h
toy_roundtrip (obj (field key (num n) fields)) text h = cc h
toy_roundtrip (obj (field key (other_num n) fields)) text h = cc h
toy_roundtrip (obj (field key (arr items) fields)) text h = cc h
toy_roundtrip (obj (field key (obj fs) fields)) text h = cc h
toy_roundtrip (obj (field key (str url) (field k v fields))) text h = cc h
toy_roundtrip (obj (field key (str url) end)) text h =
    elim (Bool-cases (str_beq key (codes "url"))) [
      | inl same ↦
          let written = some-injective (b'B' ∷ url) text (rw same at h) in
          subst (λ t. toy_parse t ≡ some (obj (field key (str url) end))) written
            (ap (λ k. some (obj (field k (str url) end)))
              (sym ((str_beq_iff key (codes "url")).0 same)))
      | inr other ↦ cc (rw other at h)
    ]

abbrev toy_services : Services
toy_services = record {
  parse = toy_parse;
  parse_keys = λ body. some (codes "mute" ∷ []);
  serialize = toy_serialize;
  is_utf8 = λ text. true;
  supports_method = λ method. true;
  is_status = λ status. true;
  fetch_channel = λ channel_id. if nat_beq channel_id 9 then none else some (404, []);
  send = λ request. none;
}

abbrev config : Config
config = record {
  token = codes "bot";
  port = 7878;
  shards = none;
  shard_start = none;
  shard_end = none;
  backpressure = 100;
  validate_token = true;
  twilight_http_proxy = none;
  gateway_url = none;
  externally_accessible_url = external_url;
  cache = default_cache;
  clients = [];
}

abbrev cache_with_channel : InMemoryCache
cache_with_channel = record {
  guilds = record { id = 7; unavailable = none } ∷ [];
  unavailable_guilds = [];
  guild_channels = λ g. some (9 ∷ []);
  voice_state = λ u g. true;
}

abbrev shards : List Shard
shards = record { id = 0; sender = []; events = []; ready = none; guilds = cache_with_channel } ∷ []

abbrev shared : Shared
shared = record {
  config = config;
  registry = record {
    clients = some (
        (
          codes "a",
          record { secret = codes "s"; guilds = 7 ∷ []; reachable_url = none; next_wake_at = none },
        )
        ∷ []);
    database_configured = false;
    last_successful_sync = 0;
    now = none;
  };
  inner = record {
    shards = shards;
    shard_count = 1;
    sessions = [];
    active_client_connections = [];
    offline_event_buffers = [];
    last_wake_attempts = [];
    client_command_windows = [];
    voice_owners =
        (7, record { client_id = codes "a"; disconnected_at = none; wants_voice = true }) ∷ [];
    bot_user_id = 42;
  };
}

-- Client `a` mutes the bot in its guild.
abbrev request : Request
request = record {
  method = patch;
  path = codes "/api/v10/guilds/7/members/42";
  query = none;
  headers = (codes "authorization", codes "Bot a:s") ∷ (codes "x", codes "y") ∷ [];
  authorization = some (codes "Bot a:s");
  body = some (codes "{}");
}

abbrev sent : UpstreamRequest
sent = record {
  method = patch;
  url = codes "https://discord.com/api/v10/guilds/7/members/42";
  headers = (codes "x", codes "y") ∷ (codes "authorization", codes "Bot bot") ∷ [];
  body = some (codes "{}");
}

request_admitted : admit toy_services shared request ≡ proceed sent
unfolding admit str_beq discord_gateway_proxy.Text.Number.from_str authenticate_gateway_token
    discord_gateway_proxy.Clients.authenticate_client_with_id Map.get
    discord_gateway_proxy.Rest.is_client_authorized_for_route bot_voice_change_guild bot_user_id
    voice_owner
request_admitted = refl

request_authenticated :
    authenticate_gateway_token shared.config shared.registry
      (presented_token toy_services shared request)
    ≡ GatewayAuthResult.ok (record {
      principal = SessionPrincipal.client (codes "a");
      authorized_guilds = some (7 ∷ []);
    })
unfolding authenticate_gateway_token discord_gateway_proxy.Clients.authenticate_client_with_id
    presented_token Map.get str_beq
request_authenticated = refl

admit-InScope_example :
    (is_canonical_path toy_services.is_utf8 (normalize_path request.path) ≡ true)
    × InScope toy_services shared
        (7 ∷ [])
        patch
        sent.headers
        (resolve_route_scope (normalize_path request.path))
admit-InScope_example =
    admit-InScope toy_services shared request sent (codes "a") (7 ∷ []) request_authenticated
      request_admitted

scope_guarded : is_allowed_without_auth (resolve_route_scope (normalize_path request.path)) ≡ false
unfolding resolve_route_scope normalize_path str_beq discord_gateway_proxy.Text.Number.from_str
scope_guarded = refl

route_of_request :
    skip_prefix (segments_of (normalize_path request.path))
    ≡ codes "guilds" ∷ codes "7" ∷ codes "members" ∷ codes "42" ∷ []
unfolding skip_prefix segments_of normalize_path str_beq
route_of_request = refl

guild_of_request : parse_snowflake (codes "7") ≡ some 7
unfolding parse_snowflake discord_gateway_proxy.Text.Number.from_str
guild_of_request = refl

names_bot : NamesBot (codes "42") (bot_user_id shared.inner)
unfolding bot_user_id parse_snowflake discord_gateway_proxy.Text.Number.from_str
names_bot = inr (inr refl)

has_mute : contains (codes "mute" ∷ []) (codes "mute") ≡ true
unfolding contains str_beq
has_mute = refl

admit-voice_owner_example : voice_owner shared.inner 7 ≡ some (codes "a")
admit-voice_owner_example =
    admit-voice_owner toy_services shared request sent (codes "a") (codes "{}") (codes "7")
      (codes "members") (codes "42") (7 ∷ []) 7 request_authenticated scope_guarded refl refl
      route_of_request guild_of_request names_bot
      (inr (refl, inr (codes "mute" ∷ [], codes "mute", refl, has_mute, inr (inl refl))))
      request_admitted

named-forwarded_headers_example :
    named
      (codes "authorization")
      (forwarded_headers toy_services shared (RouteScope.guild 7) true request.headers)
    ≡ (codes "authorization", codes "Bot bot") ∷ []
unfolding discord_gateway_proxy.Rest.should_attach_bot_authorization
named-forwarded_headers_example =
    named-forwarded_headers toy_services shared (RouteScope.guild 7) true request.headers

resolve_route_scope-Meaning_example :
    Meaning (codes "guilds" ∷ codes "7" ∷ codes "members" ∷ codes "42" ∷ []) (RouteScope.guild 7)
unfolding resolve_route_scope str_beq discord_gateway_proxy.Text.Number.from_str
resolve_route_scope-Meaning_example =
    resolve_route_scope-Meaning (codes "/api/v10/guilds/7/members/42")

canonical : is_canonical_path toy_services.is_utf8 (codes "/v10/users/%40me") ≡ true
unfolding is_canonical_path str_beq
canonical = refl

is_canonical_path_lem_example :
    (codes "/v10/users/%40me" ≡ path_of (segments_of (codes "/v10/users/%40me")))
    × (all (is_canonical_segment toy_services.is_utf8) (segments_of (codes "/v10/users/%40me"))
        ≡ true)
is_canonical_path_lem_example =
    is_canonical_path_lem toy_services.is_utf8 (codes "/v10/users/%40me") canonical

response_for_channel_scope_lem_example :
    is_some (
      response_for_channel_scope
        (resolve_channel_guild_id toy_services.parse toy_services.fetch_channel shards 9)
        (7 ∷ []))
    ≡ false
unfolding resolve_guild_id_for_channel discord_gateway_proxy.Prelude.find_map
response_for_channel_scope_lem_example =
    response_for_channel_scope_lem toy_services.parse toy_services.fetch_channel shards 9 (7 ∷ [])
