-- ===== src/Rest/Requests.antt =====
-- src/rest_proxy.rs: `handle_rest_request`, from the request to what is sent to Discord and to what
-- is answered.
pub mod Guards
pub mod SentHeaders
pub mod Isolation
pub mod Voice
pub mod Answers
use discord_gateway_proxy.Rest.Voice.{bot_voice_change_guild}
use discord_gateway_proxy.State.Voice.{voice_owner, bot_user_id}
use discord_gateway_proxy.Rest.Channels.{response_for_channel_scope, resolve_channel_guild_id}
use discord_gateway_proxy.Clients.{Registry}
use discord_gateway_proxy.Json.{as_object, Value, set_field, obj, str}
use discord_gateway_proxy.Rest.Paths.{normalize_path, is_canonical_path, resolve_route_scope}
use discord_gateway_proxy.State.{SessionPrincipal, Inner, VoiceOwner}
use discord_gateway_proxy.Auth.{
  normalize_gateway_token, GatewayAuthResult, AuthContext, authenticate_gateway_token,
}
use discord_gateway_proxy.Config.{Config}
use discord_gateway_proxy.Rest.{
  Method, Response, RouteScope, discord_rest_base_url, build_response, Headers, json_error,
  should_skip_request_header, is_allowed_without_auth, should_attach_bot_authorization,
  is_client_authorized_for_route,
}
use discord_gateway_proxy.Map
use discord_gateway_proxy.Prelude.{
  nat_eq, str_eq, arith, ℕ, Str, Bool, List, Option, filter, none, false, some, leb, if◌then◌else◌,
  [], codes, str_beq, ◌++◌, ◌>>=◌, ◌&&◌, not, ◌∷◌, is_some, ltb, is_empty, true,
}

pub record Request : Type 0 where
  pub method : Method
  pub path : Str
  pub query : Option Str
  pub headers : Headers
  -- The AUTHORIZATION header, if it is readable text.
  pub authorization : Option Str
  -- `none`: longer than MAX_REST_BODY_BYTES, or unreadable.
  pub body : Option Str

pub record UpstreamRequest : Type 0 where
  pub method : Method
  pub url : Str
  pub headers : Headers
  pub body : Option Str

-- `none` for a body that cannot be read.
pub record UpstreamResponse : Type 0 where
  pub status : ℕ
  pub headers : Headers
  pub body : Option Str

-- The code that the handler calls: the JSON library, the check for UTF-8, the parser of methods, and
-- Discord.
pub record Services : Type 0 where
  pub parse : Str → Option Value
  pub parse_keys : Str → Option (List Str)
  pub serialize : Value → Option Str
  pub is_utf8 : Str → Bool
  -- `reqwest::Method::from_bytes(..).is_ok()`.
  pub supports_method : Method → Bool
  -- `StatusCode::from_u16(..).is_ok()`.
  pub is_status : ℕ → Bool
  pub fetch_channel : ℕ → Option (ℕ × Str)
  pub send : UpstreamRequest → Option UpstreamResponse

-- An early `return`, or the value to go on with.
pub data Checked (A : Type 0) : Type 0 where
  respond : Response → Checked A
  proceed : A → Checked A

infixl 5 ◌>=>◌
abbrev pub ◌>=>◌ : {A B : Type 0} → Checked A → (A → Checked B) → Checked B
respond r >=> f = respond r
proceed a >=> f = f a

-- `if !b { return response }`.
abbrev pub require : Bool → Response → Checked Unit
require true response = proceed tt
require false response = respond response

abbrev pub owns : Str → Option Str → Bool
owns client_id none = false
owns client_id (some owner) = str_beq owner client_id

-- The shared state that a request meets.
pub record Shared : Type 0 where
  pub config : Config
  pub registry : Registry
  pub inner : Inner

module _ (services : Services) (shared : Shared) where
  unfoldable pub presented_token : Request → Str
  unfolding normalize_gateway_token
  presented_token request = elim request.authorization [
    | none ↦ []
    | some header ↦ normalize_gateway_token header
  ]

  abbrev pub context_of : GatewayAuthResult → Checked (Option AuthContext)
  context_of (GatewayAuthResult.ok context) = proceed (some context)
  context_of GatewayAuthResult.stale =
      respond (json_error 503 (codes "Auth backend temporarily unavailable"))
  context_of GatewayAuthResult.invalid =
      respond (json_error 401 (codes "Invalid or missing credentials"))

  unfoldable pub auth_context : RouteScope → Request → Checked (Option AuthContext)
  unfolding presented_token
  auth_context scope request =
      if is_allowed_without_auth scope
      then proceed none
      else context_of
          (authenticate_gateway_token shared.config shared.registry (presented_token request))

  -- The guard on the guilds of a client.
  unfoldable pub check_scope : List ℕ → RouteScope → Method → Checked Unit
  check_scope authorized_guilds (RouteScope.channel channel_id) method =
      elim (response_for_channel_scope
        (resolve_channel_guild_id services.parse services.fetch_channel shared.inner.shards
          channel_id)
        authorized_guilds) [ none ↦ proceed tt | some error ↦ respond error ]
  check_scope authorized_guilds scope method =
      require (is_client_authorized_for_route authorized_guilds scope method)
        (json_error 403 (codes "REST route is outside the authorized guild scope"))

  unfoldable pub check_principal :
      SessionPrincipal → Option (List ℕ) → RouteScope → Method → Checked Unit
  unfolding check_scope
  check_principal (SessionPrincipal.client client_id) none scope method =
      respond (json_error 403 (codes "Missing guild authorization"))
  check_principal (SessionPrincipal.client client_id) (some authorized_guilds) scope method =
      check_scope authorized_guilds scope method
  check_principal _ guilds scope method = proceed tt

  unfoldable pub check_context : Option AuthContext → RouteScope → Method → Checked Unit
  unfolding check_principal
  check_context none scope method = proceed tt
  check_context (some context) scope method =
      check_principal context.principal context.authorized_guilds scope method

  unfoldable pub read_body : Request → Checked Str
  read_body request = elim request.body [
    | none ↦ respond (json_error 413 (codes "Request body too large or unreadable"))
    | some body ↦ proceed body
  ]

  abbrev pub check_owner : Str → Option ℕ → Checked Unit
  check_owner client_id none = proceed tt
  check_owner client_id (some guild_id) =
      require (owns client_id (voice_owner shared.inner guild_id)) (
        json_error 403
          (codes "Only the voice owner of this guild can change the bot's voice state"))

  unfoldable pub check_voice : Option AuthContext → Method → Str → Str → Checked Unit
  check_voice none method path body = proceed tt
  check_voice (some context) method path body = elim context.principal [
    | SessionPrincipal.client client_id ↦
        check_owner client_id
          (bot_voice_change_guild services.parse_keys method path body (bot_user_id shared.inner))
    | _ ↦ proceed tt
  ]

  -- The headers that are sent on.
  unfoldable pub forwarded_headers : RouteScope → Bool → Headers → Headers
  unfolding filter should_skip_request_header should_attach_bot_authorization
  forwarded_headers scope authenticated headers =
      filter (λ header. not (should_skip_request_header header.0)) headers
      ++ (if should_attach_bot_authorization scope authenticated
          then (codes "authorization", codes "Bot " ++ shared.config.token) ∷ []
          else [])

  unfoldable pub normalized_uri : Str → Option Str → Str
  normalized_uri path none = path
  normalized_uri path (some query) = path ++ b'?' ∷ query

  unfoldable pub upstream_request :
      Str → RouteScope → Option AuthContext → Str → Request → UpstreamRequest
  unfolding forwarded_headers normalized_uri discord_rest_base_url
  upstream_request path scope context body request = record {
    method = request.method;
    url = discord_rest_base_url shared.config ++ normalized_uri path request.query;
    headers = forwarded_headers scope (is_some context) request.headers;
    body = if is_empty body then none else some body;
  }

  -- All guards, in their order: what is sent to Discord, if anything is.
  unfoldable pub admit : Request → Checked UpstreamRequest
  unfolding normalize_path is_canonical_path resolve_route_scope auth_context check_context
      read_body check_voice upstream_request
  admit request =
      let path = normalize_path request.path in
      let scope = resolve_route_scope path in
      require (is_canonical_path services.is_utf8 path)
        (json_error 400 (codes "Non-canonical request path"))
      >=> λ _. auth_context scope request >=> λ context.
          check_context context scope request.method >=> λ _. read_body request >=> λ body.
          check_voice context request.method path body >=> λ _.
          require (services.supports_method request.method)
            (json_error 405 (codes "Unsupported HTTP method"))
          >=> λ _. proceed (upstream_request path scope context body request)

  unfoldable pub rewrite_gateway_bot_payload : Str → Option Str
  unfolding as_object set_field
  rewrite_gateway_bot_payload raw_payload = services.parse raw_payload >>= as_object >>= λ object.
      services.serialize
        (obj (set_field object (codes "url") (str shared.config.externally_accessible_url)))

  abbrev pub is_success : ℕ → Bool
  is_success status = leb 200 status && ltb status 300

  unfoldable pub answer : Str → ℕ → Headers → Str → Response
  unfolding rewrite_gateway_bot_payload build_response
  answer path status headers body =
      if str_beq path (codes "/api/v10/gateway/bot") && is_success status
      then (elim (rewrite_gateway_bot_payload body) [
        | none ↦ json_error 502 (codes "Invalid gateway response payload")
        | some rewritten ↦ build_response status headers rewritten
      ])
      else build_response status headers body

  abbrev pub status_of : ℕ → ℕ
  status_of status = if services.is_status status then status else 502

  abbrev pub answer_upstream : Str → Option UpstreamResponse → Response
  answer_upstream path none = json_error 502 (codes "Failed to reach Discord API")
  answer_upstream path (some upstream) = elim upstream.body [
    | none ↦ json_error 502 (codes "Failed to read Discord API response")
    | some body ↦ answer path (status_of upstream.status) upstream.headers body
  ]

  abbrev pub answer_checked : Str → Checked UpstreamRequest → Response
  answer_checked path (respond response) = response
  answer_checked path (proceed upstream) = answer_upstream path (services.send upstream)

  unfoldable pub handle_rest_request : Request → Response
  unfolding admit answer
  handle_rest_request request = answer_checked (normalize_path request.path) (admit request)
