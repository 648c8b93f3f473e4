-- ===== src/Rest/Paths/Scopes.antt =====
-- src/rest_proxy.rs: what a path must look like for each scope.
use discord_gateway_proxy.Rest.{
  RouteScope, guild, parse_snowflake, channel, denied_without_guild, allowed_without_guild,
  allowed_without_auth,
}
use discord_gateway_proxy.Rest.Paths.{
  scope_of_route, RouteScope, is_segment, segment, guild_scope, channel_scope, tokenized_scope,
  resolve_route_scope, scope_after, base_index, segments_of,
}
use discord_gateway_proxy.Prelude.{
  true, false, none, some, nat_eq, str_eq, arith, List, Bool, Str, ◌&&◌, Option, ◌≡◌, if◌then◌else◌,
  ℕ, refl, codes, ◌⊎◌, ◌||◌, inl, inr, length, is_empty, is_some, nat_beq, drop, unwrap_or, leb,
  ltb,
}

-- The route that a scope stands for, the version taken off.
abbrev pub Meaning : List Str → RouteScope → Type 0
Meaning route (guild guild_id) =
    ((is_segment route 0 (codes "guilds") ≡ true)
      × (parse_snowflake (segment route 1) ≡ some guild_id))
    ⊎ ((is_segment route 0 (codes "applications") ≡ true)
        × (is_segment route 2 (codes "guilds") ≡ true)
        × (parse_snowflake (segment route 3) ≡ some guild_id))
Meaning route (channel channel_id) =
    (is_segment route 0 (codes "channels") ≡ true)
    × (parse_snowflake (segment route 1) ≡ some channel_id)
Meaning route allowed_without_guild =
    (length route ≡ 2)
    × ((is_segment route 0 (codes "gateway") && is_segment route 1 (codes "bot"))
          || (is_segment route 0 (codes "users") && is_segment route 1 (codes "@me"))
        ≡ true)
Meaning route allowed_without_auth =
    (is_segment route 0 (codes "interactions") || is_segment route 0 (codes "webhooks") ≡ true)
    × (is_some (parse_snowflake (segment route 1)) ≡ true)
    × (is_empty (segment route 2) ≡ false)
Meaning route denied_without_guild = Unit

record Means (route : List Str) (scope : RouteScope) : Type 0 where
  fits : Meaning route scope

if-Means :
    (route : List Str) (b : Bool) (x y : RouteScope)
    → (b ≡ true → Means route x)
    → (b ≡ false → Means route y)
    → Means route (if b then x else y)
if-Means route true x y hx hy = hx refl
if-Means route false x y hx hy = hy refl

denied : (route : List Str) → Means route denied_without_guild
denied route = record { fits = tt }

tokenized-Means :
    (route : List Str) (id : Option ℕ)
    → parse_snowflake (segment route 1) ≡ id
    → is_segment route 0 (codes "interactions") || is_segment route 0 (codes "webhooks") ≡ true
    → Means route (tokenized_scope id (segment route 2))
tokenized-Means route none e h = denied route
tokenized-Means route (some id) e h =
    if-Means route (is_empty (segment route 2)) denied_without_guild allowed_without_auth
      (λ empty. denied route) (λ held. record { fits = (h, rw e, held) })

guilds-Means :
    (route : List Str) (id : Option ℕ)
    → parse_snowflake (segment route 1) ≡ id
    → is_segment route 0 (codes "guilds") ≡ true
    → Means route (guild_scope id)
guilds-Means route none e h = denied route
guilds-Means route (some id) e h = record { fits = inl (h, e) }

applications-Means :
    (route : List Str) (id : Option ℕ)
    → parse_snowflake (segment route 3) ≡ id
    → is_segment route 0 (codes "applications") ≡ true
    → is_segment route 2 (codes "guilds") ≡ true
    → Means route (guild_scope id)
applications-Means route none e h k = denied route
applications-Means route (some id) e h k = record { fits = inr (h, k, e) }

channels-Means :
    (route : List Str) (id : Option ℕ)
    → parse_snowflake (segment route 1) ≡ id
    → is_segment route 0 (codes "channels") ≡ true
    → Means route (channel_scope id)
channels-Means route none e h = denied route
channels-Means route (some id) e h = record { fits = (h, e) }

two_segments : (n : ℕ) (b : Bool) → (nat_beq n 2 && b) ≡ true → (n ≡ 2) × (b ≡ true)
two_segments n b h = (ground arith, ground arith)

or-left : (a b : Bool) → a ≡ true → (a || b) ≡ true
or-left a b h = rw h

or-right : (a b : Bool) → b ≡ true → (a || b) ≡ true
or-right a b h = ground arith

and-left : (a b : Bool) → (a && b) ≡ true → a ≡ true
and-left a b h = ground arith

and-right : (a b : Bool) → (a && b) ≡ true → b ≡ true
and-right a b h = ground arith

gateway-Means :
    (route : List Str)
    → (nat_beq (length route) 2
        && (is_segment route 0 (codes "gateway") && is_segment route 1 (codes "bot")))
      ≡ true
    → Means route allowed_without_guild
gateway-Means route h =
    let (two, named) = two_segments (length route) _ h in record { fits = (two, or-left _ _ named) }

users-Means :
    (route : List Str)
    → (nat_beq (length route) 2
        && (is_segment route 0 (codes "users") && is_segment route 1 (codes "@me")))
      ≡ true
    → Means route allowed_without_guild
users-Means route h =
    let (two, named) = two_segments (length route) _ h in
    record { fits = (two, or-right _ _ named) }

interactions-Means :
    (route : List Str)
    → (leb 3 (length route) && is_segment route 0 (codes "interactions")) ≡ true
    → Means route (tokenized_scope (parse_snowflake (segment route 1)) (segment route 2))
interactions-Means route h = tokenized-Means route _ refl (
    or-left _ (is_segment route 0 (codes "webhooks"))
      (and-right (leb 3 (length route)) (is_segment route 0 (codes "interactions")) h))

webhooks-Means :
    (route : List Str)
    → (leb 3 (length route) && is_segment route 0 (codes "webhooks")) ≡ true
    → Means route (tokenized_scope (parse_snowflake (segment route 1)) (segment route 2))
webhooks-Means route h = tokenized-Means route _ refl (
    or-right (is_segment route 0 (codes "interactions")) _
      (and-right (leb 3 (length route)) (is_segment route 0 (codes "webhooks")) h))

guild_route-Means :
    (route : List Str)
    → (leb 2 (length route) && is_segment route 0 (codes "guilds")) ≡ true
    → Means route (guild_scope (parse_snowflake (segment route 1)))
guild_route-Means route h =
    guilds-Means route _ refl
      (and-right (leb 2 (length route)) (is_segment route 0 (codes "guilds")) h)

channel_route-Means :
    (route : List Str)
    → (leb 2 (length route) && is_segment route 0 (codes "channels")) ≡ true
    → Means route (channel_scope (parse_snowflake (segment route 1)))
channel_route-Means route h =
    channels-Means route _ refl
      (and-right (leb 2 (length route)) (is_segment route 0 (codes "channels")) h)

application_route-Means :
    (route : List Str)
    → (leb 4 (length route)
        && (is_segment route 0 (codes "applications") && is_segment route 2 (codes "guilds")))
      ≡ true
    → Means route (guild_scope (parse_snowflake (segment route 3)))
application_route-Means route h =
    let named = and-right (leb 4 (length route)) _ h in
    applications-Means route _ refl (and-left _ (is_segment route 2 (codes "guilds")) named)
      (and-right (is_segment route 0 (codes "applications")) _ named)

scope_of_route-Means : (route : List Str) → Means route (scope_of_route route)
unfolding scope_of_route
scope_of_route-Means route = if-Means route _ _ _ (gateway-Means route) (λ h1.
    if-Means route _ _ _ (users-Means route) (λ h2.
      if-Means route _ _ _ (interactions-Means route) (λ h3.
        if-Means route _ _ _ (webhooks-Means route) (λ h4.
          if-Means route _ _ _ (guild_route-Means route) (λ h5.
            if-Means route _ _ _ (channel_route-Means route)
              (λ h6. if-Means route _ _ _ (application_route-Means route) (λ h7. denied route)))))))

scope_after-Means :
    (segments : List Str) (base : Option ℕ)
    → Means (drop (unwrap_or 0 base) segments) (scope_after segments base)
scope_after-Means segments none = denied (drop 0 segments)
scope_after-Means segments (some base) =
    if-Means (drop base segments) (leb (length segments) base) denied_without_guild
      (scope_of_route (drop base segments)) (λ short. denied (drop base segments))
      (λ long. scope_of_route-Means (drop base segments))

-- Whatever scope a path is given, its route, past `api/v10` or `v10`, is one that the scope stands
-- for: exactly `gateway/bot` or `users/@me` for the scope without a guild, an id and a token for the
-- tokenized one, and the id of the very guild or channel for the others.
pub resolve_route_scope-Meaning :
    (path : Str)
    → Meaning
        (drop (unwrap_or 0 (base_index (segments_of path))) (segments_of path))
        (resolve_route_scope path)
unfolding resolve_route_scope
resolve_route_scope-Meaning path =
    (if-Means (drop (unwrap_or 0 (base_index (segments_of path))) (segments_of path))
      (ltb (length (segments_of path)) 2) denied_without_guild
      (scope_after (segments_of path) (base_index (segments_of path)))
      (λ short. denied (drop (unwrap_or 0 (base_index (segments_of path))) (segments_of path)))
      (λ long. scope_after-Means (segments_of path) (base_index (segments_of path)))).fits
