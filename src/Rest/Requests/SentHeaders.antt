-- ===== src/Rest/Requests/SentHeaders.antt =====
-- src/rest_proxy.rs: the headers that are sent on to Discord.
use discord_gateway_proxy.Rest.Requests.{forwarded_headers, Services, Shared}
use discord_gateway_proxy.Rest.{
  should_skip_request_header, Headers, RouteScope, should_attach_bot_authorization,
}
use discord_gateway_proxy.Prelude.{
  true, false, [], ◌∷◌, nat_eq, str_eq, arith, Str, filter, contains, str_beq, ◌≡◌, ◌++◌, codes,
  not, refl, Bool-cases, inl, Bool, inr, if◌then◌else◌, ap, str_beq_iff, ◌∙◌, sym, ◌&&◌,
}

-- The headers of a name.
abbrev pub named : Str → Headers → Headers
named name headers = filter (λ header. str_beq header.0 name) headers

named-skipped :
    (name : Str) (headers : Headers)
    → should_skip_request_header name ≡ true
    → named name (filter (λ header. not (should_skip_request_header header.0)) headers) ≡ []
unfolding filter
named-skipped name [] h = refl
named-skipped name ((n, value) ∷ headers) h = elim (Bool-cases (should_skip_request_header n)) [
  | inl skip ↦ rw skip (named-skipped name headers h)
  | inr keep ↦ elim (Bool-cases (str_beq n name)) [
    | inl same ↦
        let e = ap should_skip_request_header ((str_beq_iff n name).0 same) in cc (sym keep ∙ e ∙ h)
    | inr other ↦ rw (keep, other) (named-skipped name headers h)
  ]
]

named-append :
    (name : Str) (xs ys : Headers) → named name (xs ++ ys) ≡ named name xs ++ named name ys
unfolding filter
named-append name [] ys = refl
named-append name ((n, value) ∷ xs) ys = ground (arith, named-append name xs ys)

authorization_skipped : should_skip_request_header (codes "authorization") ≡ true
unfolding should_skip_request_header contains str_beq
authorization_skipped = refl

-- The routes with a token in the path, and only these.
abbrev pub carries_token : RouteScope → Bool
carries_token RouteScope.allowed_without_auth = true
carries_token RouteScope.allowed_without_guild = false
carries_token RouteScope.denied_without_guild = false
carries_token (RouteScope.guild guild_id) = false
carries_token (RouteScope.channel channel_id) = false

attach_cases :
    (scope : RouteScope) (authenticated : Bool)
    → should_attach_bot_authorization scope authenticated
      ≡ (authenticated && not (carries_token scope))
unfolding should_attach_bot_authorization
attach_cases RouteScope.allowed_without_auth authenticated = ground arith
attach_cases RouteScope.allowed_without_guild authenticated = ground arith
attach_cases RouteScope.denied_without_guild authenticated = ground arith
attach_cases (RouteScope.guild guild_id) authenticated = ground arith
attach_cases (RouteScope.channel channel_id) authenticated = ground arith

-- The AUTHORIZATION header of the client is never sent on; the bot's is, exactly for requests that
-- are authenticated and do not carry their own token in the path.
pub named-forwarded_headers :
    (services : Services) (shared : Shared) (scope : RouteScope) (authenticated : Bool)
    (headers : Headers)
    → named (codes "authorization") (forwarded_headers services shared scope authenticated headers)
      ≡ (if authenticated && not (carries_token scope)
          then (codes "authorization", codes "Bot " ++ shared.config.token) ∷ []
          else [])
unfolding forwarded_headers filter str_beq
named-forwarded_headers services shared scope authenticated headers =
    named-append (codes "authorization")
      (filter (λ header. not (should_skip_request_header header.0)) headers) _
    ∙ rw (named-skipped (codes "authorization") headers authorization_skipped)
        (rw (attach_cases) (bot_only (authenticated && not (carries_token scope))))
  where
    bot_only :
        (attach : Bool)
        → named (codes "authorization") (
            if attach
            then (codes "authorization", codes "Bot " ++ shared.config.token) ∷ []
            else [])
          ≡ (if attach
              then (codes "authorization", codes "Bot " ++ shared.config.token) ∷ []
              else [])
    bot_only true = refl
    bot_only false = refl
