-- ===== src/Deserializer.antt =====
-- src/deserializer.rs: the scan of a gateway payload for its opcode, event name, sequence number,
-- guild and channel. A payload is the list of its UTF-8 bytes, and a range counts bytes.
pub mod Scan
pub mod Sequence
pub mod Bounds
pub mod Spaces
pub mod Tests
use discord_gateway_proxy.Prelude.{
  ℕ, ◌+◌, ◌-◌, ◌^◌, ◌≡◌, refl, Bool, not, ◌||◌, Option, none, some, List, [], ◌∷◌, ◌++◌, Str, codes,
  nat_beq, str_beq, if◌then◌else◌, length, contains, ◌>>=◌, ◌==◌, str_eq, map_or, unwrap_or,
  get_elem?,
}
use discord_gateway_proxy.Text.{from_str}
use discord_gateway_proxy.Text.Search.{
  find, find_by, get_from, get_range, byte_at, find_non_whitespace, find_by_or_whitespace,
}

abbrev pub u8_bound : ℕ
u8_bound = 2 ^ 8

abbrev pub u64_bound : ℕ
u64_bound = 2 ^ 64

-- `Range<usize>`.
pub record Range : Type 0 where
  pub start : ℕ
  pub stop : ℕ

pub record OpInfo : Type 0 where
  pub op : ℕ
  pub range : Range

pub record EventTypeInfo : Type 0 where
  pub name : Str
  pub range : Range

pub record SequenceInfo : Type 0 where
  pub seq : ℕ
  pub range : Range

pub record GatewayEvent : Type 0 where
  pub event_type : Option EventTypeInfo
  pub op : OpInfo
  pub sequence : Option SequenceInfo
  pub guild_id : Option ℕ
  pub channel_id : Option ℕ

abbrev pub key_t : Str
key_t = codes "\"t\":"

abbrev pub key_op : Str
key_op = codes "\"op\":"

abbrev pub key_s : Str
key_s = codes "\"s\":"

abbrev pub key_d : Str
key_d = codes "\"d\":"

abbrev pub quote : ℕ
quote = 34

unfoldable pub find_event_type : Str → Option EventTypeInfo
unfolding find get_from find_non_whitespace byte_at find_by get_range
find_event_type input = do
  pos ← find input key_t
  let from = pos + 4
  rest ← get_from from input
  offset ← find_non_whitespace rest
  let start = offset + from + 1
  before ← byte_at (start - 1) input
  if not (nat_beq before quote) then none else do
    tail ← get_from start input
    to ← find_by (λ c. nat_beq c quote) tail
    name ← get_range start (start + to) input
    some (record { name = name; range = record { start = start; stop = start + to } })

-- The end of a number in the scan.
unfoldable pub ends_integer : ℕ → Bool
ends_integer c = nat_beq c b',' || nat_beq c b'}'

unfoldable pub find_integer : ℕ → Str → Str → Option (ℕ × Range)
unfolding find get_from find_by ends_integer get_range from_str
find_integer bound input key = do
  pos ← find input key
  let from = pos + length key
  rest ← get_from from input
  to ← find_by ends_integer rest
  clean ← get_range from (from + to) input
  int ← from_str bound clean
  some (int, record { start = from; stop = from + to })

unfoldable pub find_opcode : Str → Option OpInfo
unfolding find_integer
find_opcode input = do
  (op, pos) ← find_integer u8_bound input key_op
  some (record { op = op; range = pos })

unfoldable pub find_sequence : Str → Option SequenceInfo
unfolding find_integer
find_sequence input = do
  (seq, pos) ← find_integer u64_bound input key_s
  some (record { seq = seq; range = pos })

-- The value of a field: a quoted number, `null` or a bare number.
unfoldable pub field_value : Str → Option ℕ
unfolding byte_at get_from find_by get_range from_str find_by_or_whitespace
field_value value = do
  first ← byte_at 0 value
  if nat_beq first quote
      then (do
        quoted ← get_from 1 value
        to ← find_by (λ c. nat_beq c quote) quoted
        digits ← get_range 1 (to + 1) value
        from_str u64_bound digits)
      else if nat_beq first b'n'
      then none
      else (do
        digits ←
            get_range 0
              (unwrap_or (length value)
                (find_by_or_whitespace (λ c. nat_beq c b',' || nat_beq c b'}') value))
              value
        from_str u64_bound digits)

unfoldable pub find_data_field_u64 : Str → Str → Option ℕ
unfolding find get_from find_by find_non_whitespace field_value
find_data_field_u64 input field = do
  data_start ← find input key_d
  data_slice ← get_from data_start input
  let key : Str = quote ∷ (field ++ quote ∷ [])
  key_start ← find data_slice key
  after_key ← get_from (key_start + length key) data_slice
  colon_pos ← find_by (λ c. nat_beq c b':') after_key
  after_colon ← get_from (colon_pos + 1) after_key
  ws_offset ← find_non_whitespace after_colon
  value ← get_from ws_offset after_colon
  field_value value

abbrev pub guild_lifecycle : List Str
guild_lifecycle = codes "GUILD_CREATE" ∷ codes "GUILD_DELETE" ∷ codes "GUILD_UPDATE" ∷ []

abbrev pub channel_lifecycle : List Str
channel_lifecycle =
    codes "CHANNEL_CREATE"
    ∷ codes "CHANNEL_UPDATE"
    ∷ codes "CHANNEL_DELETE"
    ∷ codes "THREAD_CREATE"
    ∷ codes "THREAD_UPDATE"
    ∷ codes "THREAD_DELETE"
    ∷ []

-- `d.id`, for the events that are about the object itself.
unfoldable pub own_id : List Str → Str → Option EventTypeInfo → Option ℕ
unfolding contains
own_id names input none = none
own_id names input (some info) =
    if contains names info.name then find_data_field_u64 input (codes "id") else none

unfoldable pub find_guild_id : Str → Option EventTypeInfo → Option ℕ
unfolding own_id
find_guild_id input event_type = elim (find_data_field_u64 input (codes "guild_id")) [
  | some guild_id ↦ some guild_id
  | none ↦ own_id guild_lifecycle input event_type
]

unfoldable pub find_channel_id : Str → Option EventTypeInfo → Option ℕ
unfolding own_id
find_channel_id input event_type = elim (find_data_field_u64 input (codes "channel_id")) [
  | some channel_id ↦ some channel_id
  | none ↦ own_id channel_lifecycle input event_type
]

unfoldable pub from_json : Str → Option GatewayEvent
from_json input = do
  op ← find_opcode input
  let event_type = find_event_type input
  some (record {
    event_type = event_type;
    op = op;
    sequence = find_sequence input;
    guild_id = find_guild_id input event_type;
    channel_id = find_channel_id input event_type;
  })
