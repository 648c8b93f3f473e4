-- ===== src/Gateway/Upgrade.antt =====
-- src/upgrade.rs and `handler` of src/server.rs: which requests become WebSocket connections of
-- clients, and what answers the others.
mod Tests
use discord_gateway_proxy.Text.Number.{to_string}
use discord_gateway_proxy.Text.Search.{starts_with, contains_text}
use discord_gateway_proxy.Rest.{Response}
use discord_gateway_proxy.Prelude.{
  none, some, [], false, true, Str, List, Bool, if◌then◌else◌, Option, codes, map_or, not, str_beq,
  ℕ, ◌∷◌, ◌++◌, ◌||◌, ◌&&◌, String, is_some,
}

-- What is read of a request. Header names are in lower case; a value is `none` where it is no text.
pub record Request : Type 0 where
  pub method : Str
  pub path : Str
  pub query : Option Str
  pub headers : List (Str × Option Str)

abbrev pub guid : Str
guid = codes "258EAFA5-E914-47DA-95CA-C5AB0DC85B11"

-- The first value of a header; the outer `none` is a header that is not there.
unfoldable pub header : List (Str × Option Str) → Str → Option (Option Str)
header [] name = none
header ((key, value) ∷ headers) name = if str_beq key name then some value else header headers name

-- Hashing, and the texts of the landing page and of the metrics.
pub record Libraries : Type 0 where
  -- `STANDARD.encode` of the SHA-1 digest.
  pub encoded_digest : Str → Str
  -- The bytes of SEC_WEBSOCKET_KEY, if it is there.
  pub key_bytes : List (Str × Option Str) → Option Str
  pub landing_html : Str
  pub metrics : Str

-- An answer, and `some use_zlib` if a task waits to run `handle_client` on the connection.
pub record Answer : Type 0 where
  pub response : Response
  pub connection : Option Bool

abbrev pub bad_request : Answer
bad_request = record {
  response = record { status = 400; headers = []; body = [] };
  connection = none;
}

module _ (libraries : Libraries) where
  abbrev pub switching_protocols : Str → Response
  switching_protocols accept_key = record {
    status = 101;
    headers =
        (codes "connection", codes "Upgrade")
        ∷ (codes "upgrade", codes "websocket")
        ∷ (codes "sec-websocket-accept", accept_key)
        ∷ (codes "sec-websocket-version", codes "13")
        ∷ [];
    body = [];
  }

  -- `query.is_some_and(|q| q.contains("compress=zlib-stream"))`.
  unfoldable pub use_zlib : Request → Bool
  use_zlib request =
      map_or false (λ q. contains_text q (codes "compress=zlib-stream")) request.query

  abbrev pub asks_for_websocket : Request → Bool
  asks_for_websocket request =
      map_or false (λ value. map_or false (λ v. str_beq v (codes "websocket")) value)
        (header request.headers (codes "upgrade"))

  unfoldable pub server : Request → Answer
  unfolding use_zlib header
  server request =
      if not (asks_for_websocket request)
      then bad_request
      else elim (libraries.key_bytes request.headers) [
        | none ↦ bad_request
        | some websocket_key ↦ record {
          response = switching_protocols (libraries.encoded_digest (websocket_key ++ guid));
          connection = some (use_zlib request);
        }
      ]

  abbrev pub is_rest : Request → Bool
  is_rest request =
      starts_with request.path (codes "/api/v10/") || starts_with request.path (codes "/v10/")

  abbrev pub is_get : Request → Str → Bool
  is_get request path = str_beq request.method (codes "GET") && str_beq request.path path

  abbrev pub plain_answer : List (Str × Str) → Str → Answer
  plain_answer headers body = record {
    response = record { status = 200; headers = headers; body = body };
    connection = none;
  }

  -- `rest` is the answer of the REST proxy.
  unfoldable pub handler : ℕ → (Request → Response) → Request → Answer
  unfolding server starts_with header
  handler shard_count rest request =
      if is_rest request
      then record { response = rest request; connection = none }
      else if is_get request (codes "/metrics")
      then plain_answer [] libraries.metrics
      else if is_get request (codes "/shard-count")
      then plain_answer [] (to_string shard_count)
      else if is_get request (codes "/")
      then (if is_some (header request.headers (codes "upgrade"))
          then server request
          else plain_answer ((codes "content-type", codes "text/html; charset=utf-8") ∷ [])
              libraries.landing_html)
      else server request
