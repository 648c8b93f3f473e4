-- ===== src/Rest/Requests/Isolation.antt =====
-- src/rest_proxy.rs: what a request of a client can reach.
use discord_gateway_proxy.Rest.Paths.{is_canonical_path, normalize_path, resolve_route_scope}
use discord_gateway_proxy.State.{SessionPrincipal}
use discord_gateway_proxy.Auth.{authenticate_gateway_token, GatewayAuthResult}
use discord_gateway_proxy.Rest.Requests.Guards.{require-inv, admit-Admitted, proceed-injective}
use discord_gateway_proxy.Rest.Channels.Access.{
  may_use, guild_of_channel, response_for_channel_scope_lem,
}
use discord_gateway_proxy.Rest.Requests.SentHeaders.{named, named-forwarded_headers}
use discord_gateway_proxy.Rest.Channels.{
  ChannelGuildLookup, resolve_channel_guild_id, response_for_channel_scope,
}
use discord_gateway_proxy.Rest.{
  should_attach_bot_authorization, Method, is_client_authorized_for_route, RouteScope, Headers,
  is_allowed_without_auth, is_get,
}
use discord_gateway_proxy.Rest.Requests.{
  Services, Shared, check_scope, Request, should_attach_bot_authorization, auth_context,
  UpstreamRequest, check_context, check_principal, proceed, upstream_request,
  authenticate_gateway_token, presented_token, SessionPrincipal, admit, is_canonical_path,
}
use discord_gateway_proxy.Prelude.{
  true, false, [], some, nat_eq, str_eq, arith, Bool, not, ◌≡◌, List, ℕ, refl, contains, codes, Str,
  Option-cases, inl, sym, ◌∙◌, inr, Bool-cases, ap, is_some, subst,
}

not-false : (b : Bool) → not b ≡ false → b ≡ true
not-false true h = refl
not-false false h = cc h

module _ (services : Services) (shared : Shared) where
  -- What a request of a client may reach.
  abbrev pub InScope : List ℕ → Method → Headers → RouteScope → Type 0
  InScope guilds method sent (RouteScope.guild guild_id) = contains guilds guild_id ≡ true
  InScope guilds method sent (RouteScope.channel channel_id) =
      may_use guilds
        (guild_of_channel services.parse services.fetch_channel shared.inner.shards channel_id)
      ≡ true
  InScope guilds method sent RouteScope.allowed_without_guild = is_get method ≡ true
  InScope guilds method sent RouteScope.allowed_without_auth =
      named (codes "authorization") sent ≡ []
  InScope guilds method sent RouteScope.denied_without_guild = ⊥

  abbrev lookup_of : ℕ → ChannelGuildLookup
  lookup_of channel_id =
      resolve_channel_guild_id services.parse services.fetch_channel shared.inner.shards channel_id

  check_scope-InScope :
      (guilds : List ℕ) (method : Method) (scope : RouteScope) (sent : Headers)
      → is_allowed_without_auth scope ≡ false
      → check_scope services shared guilds scope method ≡ proceed tt
      → InScope guilds method sent scope
  unfolding check_scope is_client_authorized_for_route
  check_scope-InScope guilds method (RouteScope.guild guild_id) sent a h = require-inv _ _ tt h
  check_scope-InScope guilds method (RouteScope.channel channel_id) sent a h =
      elim (Option-cases (response_for_channel_scope (lookup_of channel_id) guilds)) [
        | inl e ↦ not-false _ (
            sym (
              response_for_channel_scope_lem services.parse services.fetch_channel
                shared.inner.shards channel_id guilds)
            ∙ rw e)
        | inr (error, e) ↦ cc (rw (e, check_scope) at h)
      ]
  check_scope-InScope guilds method RouteScope.allowed_without_guild sent a h = require-inv _ _ tt h
  check_scope-InScope guilds method RouteScope.allowed_without_auth sent a h = cc a
  check_scope-InScope guilds method RouteScope.denied_without_guild sent a h = cc h

module _ (services : Services) (shared : Shared) where
  tokenized-InScope :
      (request : Request) (upstream : UpstreamRequest) (guilds : List ℕ) (scope : RouteScope)
      → is_allowed_without_auth scope ≡ true
      → named (codes "authorization") upstream.headers ≡ []
      → InScope services shared guilds request.method upstream.headers scope
  tokenized-InScope request upstream guilds RouteScope.allowed_without_auth a h = h
  tokenized-InScope request upstream guilds (RouteScope.guild g) a h = cc a
  tokenized-InScope request upstream guilds (RouteScope.channel c) a h = cc a
  tokenized-InScope request upstream guilds RouteScope.allowed_without_guild a h = cc a
  tokenized-InScope request upstream guilds RouteScope.denied_without_guild a h = cc a

  attach-tokenized :
      (scope : RouteScope) (authenticated : Bool)
      → is_allowed_without_auth scope ≡ true
      → should_attach_bot_authorization scope authenticated ≡ false
  unfolding should_attach_bot_authorization
  attach-tokenized scope authenticated h = ground arith

  -- A request that reaches Discord for a client is for one of its guilds, for a channel known to be in
  -- one of them, reads a route without a guild, or carries its own token and not the bot's; and its
  -- path is canonical.
  pub admit-InScope :
      (request : Request) (upstream : UpstreamRequest) (client_id : Str) (guilds : List ℕ)
      → authenticate_gateway_token shared.config shared.registry
          (presented_token services shared request)
        ≡ GatewayAuthResult.ok (record {
          principal = SessionPrincipal.client client_id;
          authorized_guilds = some guilds;
        })
      → admit services shared request ≡ proceed upstream
      → (is_canonical_path services.is_utf8 (normalize_path request.path) ≡ true)
        × InScope services shared guilds request.method upstream.headers
            (resolve_route_scope (normalize_path request.path))
  unfolding auth_context check_context check_principal upstream_request
  admit-InScope request upstream client_id guilds auth h =
      let admitted = admit-Admitted services shared request upstream h in
      let scope = resolve_route_scope (normalize_path request.path) in
      (
        admitted.canonical,
        elim (Bool-cases (is_allowed_without_auth scope)) [
          | inl tokenized ↦ tokenized-InScope request upstream guilds scope tokenized (
              ap (λ (u : UpstreamRequest). named (codes "authorization") u.headers) admitted.sent
              ∙ named-forwarded_headers services shared scope (is_some admitted.context)
                  request.headers
              ∙ rw (attach-tokenized scope (is_some admitted.context) tokenized))
          | inr guarded ↦
              let known =
                proceed-injective _ admitted.context
                  (rw (auth_context, guarded, auth) at admitted.authenticated) in
              check_scope-InScope services shared guilds request.method scope upstream.headers
                guarded
                (subst (λ c. check_context services shared c scope request.method ≡ proceed tt)
                  (sym known) admitted.in_scope)
        ],
      )
