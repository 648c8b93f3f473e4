-- ===== src/Rest.antt =====
-- src/rest_proxy.rs: the proxy of Discord's REST interface. Requests, answers and the guards.
pub mod Paths
pub mod Channels
pub mod Voice
pub mod Requests
mod Tests
use discord_gateway_proxy.Map
use discord_gateway_proxy.Text.Number.{from_str}
use discord_gateway_proxy.Config.{Config, u64_values}
use discord_gateway_proxy.Text.Search.{replace, starts_with}
use discord_gateway_proxy.Prelude.{
  nat_eq, str_eq, arith, List, ℕ, codes, Str, Bool, contains, ◌∷◌, ◌++◌, true, Option, false, ◌&&◌,
  [], not, none, if◌then◌else◌, some, ◌||◌,
}

-- Header names are in lower case, as `hyper` keeps them.
abbrev pub Headers : Type 0
Headers = List (Str × Str)

pub record Response : Type 0 where
  pub status : ℕ
  pub headers : Headers
  pub body : Str

unfoldable pub json_response : ℕ → Str → Response
json_response status payload = record {
  status = status;
  headers = (codes "content-type", codes "application/json") ∷ [];
  body = payload;
}

unfoldable pub json_error : ℕ → Str → Response
unfolding json_response replace
json_error status message =
    json_response status
      (codes "{\"error\":\"" ++ (replace message (codes "\"") (codes "\\\"") ++ codes "\"}"))

unfoldable pub unknown_channel_error : Response
unfolding json_response
unknown_channel_error = json_response 404 (codes "{\"message\":\"Unknown Channel\",\"code\":10003}")

pub data RouteScope : Type 0 where
  guild : ℕ → RouteScope
  channel : ℕ → RouteScope
  allowed_without_guild allowed_without_auth denied_without_guild : RouteScope

-- HTTP methods that the program names.
pub data Method : Type 0 where
  get patch : Method
  other_method : Str → Method

abbrev pub is_get : Method → Bool
is_get get = true
is_get _ = false

abbrev pub is_patch : Method → Bool
is_patch patch = true
is_patch _ = false

unfoldable pub parse_snowflake : Str → Option ℕ
parse_snowflake value = from_str u64_values value

unfoldable pub is_client_authorized_for_route : List ℕ → RouteScope → Method → Bool
is_client_authorized_for_route authorized_guilds (guild guild_id) method =
    contains authorized_guilds guild_id
is_client_authorized_for_route authorized_guilds (channel channel_id) method = false
is_client_authorized_for_route authorized_guilds allowed_without_guild method = is_get method
is_client_authorized_for_route authorized_guilds allowed_without_auth method = true
is_client_authorized_for_route authorized_guilds denied_without_guild method = false

abbrev pub is_allowed_without_auth : RouteScope → Bool
is_allowed_without_auth allowed_without_auth = true
is_allowed_without_auth _ = false

unfoldable pub should_attach_bot_authorization : RouteScope → Bool → Bool
should_attach_bot_authorization scope has_auth_context =
    has_auth_context && not (is_allowed_without_auth scope)

unfoldable pub should_skip_request_header : Str → Bool
unfolding contains
should_skip_request_header name =
    contains
      (codes "authorization"
        ∷ codes "host"
        ∷ codes "connection"
        ∷ codes "transfer-encoding"
        ∷ codes "content-length"
        ∷ codes "accept-encoding"
        ∷ [])
      name

unfoldable pub should_skip_response_header : Str → Bool
unfolding contains
should_skip_response_header name =
    contains (codes "transfer-encoding" ∷ codes "content-length" ∷ []) name

unfoldable pub discord_rest_base_url : Config → Str
unfolding starts_with
discord_rest_base_url config = elim config.twilight_http_proxy [
  | none ↦ codes "https://discord.com"
  | some proxy ↦
      if starts_with proxy (codes "http://") || starts_with proxy (codes "https://")
      then proxy
      else codes "http://" ++ proxy
]

-- The headers that are copied to the answer: a later one of a name replaces an earlier one.
unfoldable pub copy_headers : Headers → Headers → Headers
unfolding should_skip_response_header
copy_headers kept [] = kept
copy_headers kept ((name, value) ∷ headers) =
    if should_skip_response_header name
    then copy_headers kept headers
    else copy_headers (Map.insert kept name value) headers

unfoldable pub build_response : ℕ → Headers → Str → Response
unfolding copy_headers
build_response status headers body = record {
  status = status;
  headers = copy_headers [] headers;
  body = body;
}
