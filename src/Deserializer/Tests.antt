-- ===== src/Deserializer/Tests.antt =====
-- Runs of the scan of src/deserializer.rs, and its theorems at concrete payloads.
use discord_gateway_proxy.Deserializer.Sequence.{find_sequence-replace_range}
use discord_gateway_proxy.Deserializer.Spaces.{from_json-space}
use discord_gateway_proxy.Text.Number.{to_string}
use discord_gateway_proxy.Deserializer.Bounds.{Located, from_json-Located}
use discord_gateway_proxy.Text.Search.{replace_range}
use discord_gateway_proxy.Prelude.{◌≡◌, refl, some, Str, codes, none, arith}
use discord_gateway_proxy.Deserializer.{
  from_json, find_opcode, find_event_type, find_sequence, find_guild_id, find_channel_id,
  find_data_field_u64, GatewayEvent,
}

abbrev payload : Str
payload =
    codes
      "{\"t\":\"MESSAGE_CREATE\",\"s\":17,\"op\":0,\"d\":{\"id\":\"9\",\"channel_id\":\"1545800148565758123\",\"guild_id\":\"1422625037164351591\"}}"

abbrev read_event : GatewayEvent
read_event = record {
  event_type =
      some (record { name = codes "MESSAGE_CREATE"; range = record { start = 6; stop = 20 } });
  op = record { op = 0; range = record { start = 34; stop = 35 } };
  sequence = some (record { seq = 17; range = record { start = 26; stop = 28 } });
  guild_id = some 1422625037164351591;
  channel_id = some 1545800148565758123;
}

test_from_json : from_json payload ≡ some read_event
unfolding from_json find_opcode find_event_type find_sequence find_guild_id find_channel_id
    find_data_field_u64
test_from_json = refl

find_sequence-replace_range_example :
    find_sequence (replace_range 26 28 (to_string 123) payload)
    ≡ some (record { seq = 123; range = record { start = 26; stop = 29 } })
unfolding find_sequence to_string
find_sequence-replace_range_example =
    find_sequence-replace_range payload
      (record { seq = 17; range = record { start = 26; stop = 28 } }) 123 (omega arith) refl

from_json-Located_example : Located payload read_event
from_json-Located_example = from_json-Located payload read_event test_from_json

from_json-space_example : from_json (codes "{\"op\": 1}") ≡ none
unfolding discord_gateway_proxy.Text.Search.ascii_whitespace discord_gateway_proxy.Text.Search.find
from_json-space_example = from_json-space 32 (codes "{") (codes "1}") refl refl
