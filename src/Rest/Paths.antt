-- ===== src/Rest/Paths.antt =====
-- src/rest_proxy.rs: the route that a path names, and the paths that are refused.
pub mod Canonical
pub mod Scopes
use discord_gateway_proxy.Rest.{
  parse_snowflake, RouteScope, starts_with, denied_without_guild, guild, channel,
  allowed_without_auth, allowed_without_guild,
}
use discord_gateway_proxy.Text.Search.{trim_start_matches, replace, split, starts_with}
use discord_gateway_proxy.Prelude.{
  nat_eq, str_eq, arith, List, Option, Str, ℕ, unwrap_or, Bool, if◌then◌else◌, some, filter, [],
  str_beq, nat_beq, codes, ltb, leb, ◌∷◌, ◌>>=◌, contains, none, all, not, get_elem?, is_empty,
  length, ◌&&◌, ◌*◌, false, ◌++◌, drop, ◌-◌, ◌+◌,
}

-- The segments of a path that are not empty.
unfoldable pub segments_of : Str → List Str
unfolding trim_start_matches split filter
segments_of path =
    filter (λ segment. not (is_empty segment)) (split b'/' (trim_start_matches b'/' path))

abbrev pub segment : List Str → ℕ → Str
segment route i = unwrap_or [] (get_elem? route i)

abbrev pub is_segment : List Str → ℕ → Str → Bool
is_segment route i name = str_beq (segment route i) name

-- `map_or(DeniedWithoutGuild, Guild)`.
abbrev pub guild_scope : Option ℕ → RouteScope
guild_scope none = denied_without_guild
guild_scope (some guild_id) = guild guild_id

abbrev pub channel_scope : Option ℕ → RouteScope
channel_scope none = denied_without_guild
channel_scope (some channel_id) = channel channel_id

-- A tokenized route wants an id and a token.
abbrev pub tokenized_scope : Option ℕ → Str → RouteScope
tokenized_scope none token = denied_without_guild
tokenized_scope (some id) token =
    if is_empty token then denied_without_guild else allowed_without_auth

-- The scope of a route, the version taken off.
unfoldable pub scope_of_route : List Str → RouteScope
unfolding parse_snowflake
scope_of_route route =
    if nat_beq (length route) 2
      && (is_segment route 0 (codes "gateway") && is_segment route 1 (codes "bot"))
    then allowed_without_guild
    else if nat_beq (length route) 2
        && (is_segment route 0 (codes "users") && is_segment route 1 (codes "@me"))
    then allowed_without_guild
    else if leb 3 (length route) && is_segment route 0 (codes "interactions")
    then tokenized_scope (parse_snowflake (segment route 1)) (segment route 2)
    else if leb 3 (length route) && is_segment route 0 (codes "webhooks")
    then tokenized_scope (parse_snowflake (segment route 1)) (segment route 2)
    else if leb 2 (length route) && is_segment route 0 (codes "guilds")
    then guild_scope (parse_snowflake (segment route 1))
    else if leb 2 (length route) && is_segment route 0 (codes "channels")
    then channel_scope (parse_snowflake (segment route 1))
    else if leb 4 (length route)
        && (is_segment route 0 (codes "applications") && is_segment route 2 (codes "guilds"))
    then guild_scope (parse_snowflake (segment route 3))
    else denied_without_guild

-- `base_index`: how many segments name the version.
unfoldable pub base_index : List Str → Option ℕ
base_index segments =
    if is_segment segments 0 (codes "api") && is_segment segments 1 (codes "v10")
    then some 2
    else if is_segment segments 0 (codes "v10")
    then some 1
    else none

abbrev pub scope_after : List Str → Option ℕ → RouteScope
scope_after segments none = denied_without_guild
scope_after segments (some base) =
    if leb (length segments) base then denied_without_guild else scope_of_route (drop base segments)

unfoldable pub resolve_route_scope : Str → RouteScope
unfolding segments_of base_index scope_of_route
resolve_route_scope path =
    let segments = segments_of path in
    if ltb (length segments) 2
    then denied_without_guild
    else scope_after segments (base_index segments)

unfoldable pub hex_digit : ℕ → Option ℕ
hex_digit c =
    if leb b'0' c && leb c b'9'
    then some (c - 48)
    else if leb b'a' c && leb c b'f'
    then some (c - 87)
    else if leb b'A' c && leb c b'F'
    then some (c - 55)
    else none

-- `u8::from_str_radix(hex, 16)` on two bytes: a leading `+` is taken.
unfoldable pub hex_byte : ℕ → ℕ → Option ℕ
unfolding hex_digit
hex_byte a b =
    if nat_beq a b'+'
    then hex_digit b
    else hex_digit a >>= λ high. hex_digit b >>= λ low. some (high * 16 + low)

-- The bytes; that they are UTF-8 is checked by the standard library's `from_utf8`, `is_utf8`.
unfoldable pub decode_bytes : Str → Option Str
unfolding hex_byte
decode_bytes [] = some []
decode_bytes (c ∷ []) = if nat_beq c b'%' then none else some (c ∷ [])
decode_bytes (c ∷ a ∷ []) =
    if nat_beq c b'%' then none else decode_bytes (a ∷ []) >>= λ rest. some (c ∷ rest)
decode_bytes (c ∷ a ∷ b ∷ s) =
    let encoded = hex_byte a b >>= λ byte. decode_bytes s >>= λ rest. some (byte ∷ rest) in
    let plain = decode_bytes (a ∷ b ∷ s) >>= λ rest. some (c ∷ rest) in
    if nat_beq c b'%' then encoded else plain

module _ (is_utf8 : Str → Bool) where
  unfoldable pub percent_decode : Str → Option Str
  unfolding decode_bytes
  percent_decode part =
      decode_bytes part >>= λ decoded. if is_utf8 decoded then some decoded else none

  -- What a segment may be once decoded.
  unfoldable pub is_plain : Str → Bool
  unfolding contains
  is_plain decoded =
      not (is_empty decoded)
      && (not (str_beq decoded (codes "."))
          && (not (str_beq decoded (codes ".."))
              && (not (contains decoded b'/') && not (contains decoded b'\\'))))

  unfoldable pub is_canonical_segment : Str → Bool
  unfolding percent_decode is_plain
  is_canonical_segment part = elim (percent_decode part) [
    | none ↦ false
    | some decoded ↦ is_plain decoded
  ]

  unfoldable pub is_canonical_path : Str → Bool
  unfolding split all is_canonical_segment
  is_canonical_path [] = false
  is_canonical_path (c ∷ rest) =
      if nat_beq c b'/' then all is_canonical_segment (split b'/' rest) else false

-- The path as it is checked and sent.
unfoldable pub normalize_path : Str → Str
unfolding replace starts_with
normalize_path request_path =
    replace
      (replace
        (if starts_with request_path (codes "/v10/")
          then codes "/api" ++ request_path
          else request_path)
        (codes "/users/%40me") (codes "/users/@me"))
      (codes "/users/%40ME") (codes "/users/@me")
