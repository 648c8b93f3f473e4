-- ===== src/Gateway/Upgrade/Tests.antt =====
-- The routes of src/server.rs at concrete requests.
use discord_gateway_proxy.Rest.{Response}
use discord_gateway_proxy.Gateway.Upgrade.{Libraries, Request, Response, handler}
use discord_gateway_proxy.Prelude.{none, some, [], true, false, ◌∷◌, codes, ◌≡◌, refl}

abbrev libraries : Libraries
libraries = record {
  encoded_digest = λ input. input;
  key_bytes = λ headers. some (codes "k");
  landing_html = codes "html";
  metrics = codes "m";
}

abbrev request : Request
request = record {
  method = codes "GET";
  path = codes "/";
  query = some (codes "v=10&compress=zlib-stream");
  headers = (codes "upgrade", some (codes "websocket")) ∷ [];
}

abbrev rest : Request → Response
rest r = record { status = 404; headers = []; body = [] }

test_handler : (handler libraries 1 rest request).connection ≡ some true
unfolding handler discord_gateway_proxy.Prelude.str_beq
    discord_gateway_proxy.Text.Search.contains_text
test_handler = refl
