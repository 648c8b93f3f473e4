-- ===== src/Deserializer/Bounds.antt =====
-- Where what src/deserializer.rs reports of a payload stands in it, and the bounds of its numbers.
use mathlib.Core.List.{append_assoc}
use discord_gateway_proxy.Text.Positions.{get_from-append, get_range-append, find_by-split}
use discord_gateway_proxy.Prelude.{
  ℕ, ◌<◌, ◌≡◌, ap, ◌∙◌, Option, none, some, List, ◌++◌, arith, Str, length, Every, Every-none,
  Every-or, every_rules, subst, Option-cases, inl, inr, length-append, ◌+◌, suc, Every-bind, ◌∷◌,
  Bool, sym, nat_beq, All, [], true, false, zero, Bool-cases, refl, ◌-◌, Every-test, not,
  Every-some,
}
use mathlib.Core.Option.{some-injective}
use discord_gateway_proxy.Text.Search.{
  get_range, byte_at, find_by, get_from, find, find_non_whitespace,
}
use discord_gateway_proxy.Text.Number.{from_str, from_str-lt}
use discord_gateway_proxy.Deserializer.{
  OpInfo, SequenceInfo, GatewayEvent, find_integer, find_opcode, find_guild_id, find_channel_id,
  EventTypeInfo, find_event_type, own_id, field_value, find_data_field_u64, from_json,
  guild_lifecycle, channel_lifecycle, u8_bound, u64_bound, key_op, key_s, quote, byte_at, find_by,
  get_from, find, key_t, find_non_whitespace,
}
use discord_gateway_proxy.Deserializer.Scan.{Found, find_integer-Found}
use discord_gateway_proxy.Deserializer.Sequence.{find_sequence-find_integer}

-- The text has the name between two quotes, the first and the last of these, in the range.
pub record Quoted (payload : Str) (info : EventTypeInfo) : Type 0 where
  pub before : Str
  pub after : Str
  pub split : payload ≡ before ++ (quote ∷ (info.name ++ (quote ∷ after)))
  pub start : info.range.start ≡ suc (length before)
  pub stop : info.range.stop ≡ suc (length before) + length info.name
  pub no_quote : All (λ c. nat_beq c quote ≡ false) info.name

byte_at-split :
    (i c : ℕ) (s : Str)
    → byte_at i s ≡ some c
    → (before after : Str) × (s ≡ before ++ (c ∷ after)) × (length before ≡ i)
unfolding byte_at
byte_at-split i c [] h = cc h
byte_at-split zero c (d ∷ s) h = ([], s, ap (λ x. x ∷ s) (some-injective _ _ h), refl)
byte_at-split (suc i) c (d ∷ s) h =
    let (before, after, split, len) = byte_at-split i c s h in
    (d ∷ before, after, ap (λ l. d ∷ l) split, omega arith)

find_by-zero :
    (p : ℕ → Bool) (s : Str)
    → find_by p s ≡ some 0
    → (c : ℕ) × (rest : Str) × (s ≡ c ∷ rest) × (p c ≡ true)
unfolding find_by
find_by-zero p [] h = cc h
find_by-zero p (c ∷ s) h = elim (Bool-cases (p c)) [
  | inl e ↦ (c, s, refl, e)
  | inr e ↦ elim (Option-cases (find_by p s)) [
    | inl n ↦ cc (rw (e, n) at h)
    | inr (j, at_j) ↦ absurd (ground (arith, (rw (e, at_j) at h)))
  ]
]

get_from-some :
    (before tail s : Str) (start : ℕ)
    → length before ≡ start
    → get_from start (before ++ s) ≡ some tail
    → tail ≡ s
get_from-some before tail s start len h =
    some-injective _ _ (sym h ∙ rw (← len) (get_from-append before s))

get_range-some :
    (before d t name : Str) (start to : ℕ)
    → length before ≡ start
    → length d ≡ to
    → get_range start (start + to) (before ++ (d ++ t)) ≡ some name
    → name ≡ d
get_range-some before d t name start to len len' h =
    some-injective _ _ (sym h ∙ rw (← len, ← len') (get_range-append before d t))

name-Quoted :
    (i start to : ℕ) (input tail name : Str)
    → start ≡ suc i
    → byte_at i input ≡ some quote
    → get_from start input ≡ some tail
    → find_by (λ c. nat_beq c quote) tail ≡ some to
    → get_range start (start + to) input ≡ some name
    → Quoted input (record { name = name; range = record { start = start; stop = start + to } })
name-Quoted i start to input tail name at_start opened from ends range =
    let (before, s, split, len) = byte_at-split i quote input opened in
    let split' : input ≡ (before ++ (quote ∷ [])) ++ s =
      split ∙ sym (append_assoc before (quote ∷ []) s) in
    let len' : length (before ++ (quote ∷ [])) ≡ start =
      omega (arith, length-append before (quote ∷ [])) in
    let is_tail =
      get_from-some (before ++ (quote ∷ [])) tail s start len'
        (ap (get_from start) (sym split') ∙ from) in
    let (d, t, cut, len_d, none_before, closes) =
      find_by-split (λ c. nat_beq c quote) tail to ends in
    let (c, after, is_t, is_quote) = find_by-zero (λ c. nat_beq c quote) t closes in
    let cut' : s ≡ d ++ t = sym is_tail ∙ cut in
    let is_name = get_range-some (before ++ (quote ∷ [])) d t name start to len' len_d (
      ap (get_range start (start + to))
        (sym (split' ∙ ap (λ l. (before ++ (quote ∷ [])) ++ l) cut'))
      ∙ range) in
    let closed : t ≡ quote ∷ after = is_t ∙ ap (λ x. x ∷ after) (ground (arith, is_quote)) in
    record {
      before = before;
      after = after;
      split =
          split
          ∙ ap (λ l. before ++ (quote ∷ l))
              (cut' ∙ ap (λ l. l ++ t) (sym is_name) ∙ ap (λ l. name ++ l) closed);
      start = omega arith;
      stop = omega (arith, ap (λ (l : Str). length l) is_name);
      no_quote = subst (All (λ c. nat_beq c quote ≡ false)) (sym is_name) none_before;
    }

abbrev pub Fits : ℕ → ℕ → Type 0
Fits bound n = n < bound

from_str-Fits : (s : Str) → Every (Fits u64_bound) (from_str u64_bound s)
from_str-Fits s = record { at = λ n e. from_str-lt u64_bound s n (omega arith) e }

field_value-Fits : (value : Str) → Every (Fits u64_bound) (field_value value)
unfolding field_value
field_value-Fits value = search (every_rules, from_str-Fits) depth 12

find_data_field_u64-Fits :
    (input field : Str) → Every (Fits u64_bound) (find_data_field_u64 input field)
unfolding find_data_field_u64
find_data_field_u64-Fits input field = search (every_rules, field_value-Fits) depth 12

own_id-Fits :
    (names : List Str) (input : Str) (event_type : Option EventTypeInfo)
    → Every (Fits u64_bound) (own_id names input event_type)
unfolding own_id
own_id-Fits names input none = Every-none
own_id-Fits names input (some info) = search (every_rules, find_data_field_u64-Fits)

find_guild_id-Fits :
    (input : Str) (event_type : Option EventTypeInfo)
    → Every (Fits u64_bound) (find_guild_id input event_type)
unfolding find_guild_id
find_guild_id-Fits input event_type =
    Every-or _ _ (find_data_field_u64-Fits input _) (own_id-Fits guild_lifecycle input event_type)

find_channel_id-Fits :
    (input : Str) (event_type : Option EventTypeInfo)
    → Every (Fits u64_bound) (find_channel_id input event_type)
unfolding find_channel_id
find_channel_id-Fits input event_type =
    Every-or _ _ (find_data_field_u64-Fits input _) (own_id-Fits channel_lifecycle input event_type)

-- A name that is found stands between quotes.
find_event_type-Quoted : (input : Str) → Every (Quoted input) (find_event_type input)
unfolding find_event_type
find_event_type-Quoted input = Every-bind (find input key_t) _ (λ pos at_key.
    Every-bind (get_from (pos + 4) input) _ (λ rest after_key.
      Every-bind (find_non_whitespace rest) _ (λ offset begins.
        Every-bind (byte_at (offset + (pos + 4) + 1 - 1) input) _ (λ before at_before.
          Every-test (not (nat_beq before quote)) _ _ (λ other. Every-none)
            (λ is_quote. Every-bind (get_from (offset + (pos + 4) + 1) input) _ (λ tail from.
              Every-bind (find_by (λ c. nat_beq c quote) tail) _ (λ to ends.
                Every-bind (get_range (offset + (pos + 4) + 1) (offset + (pos + 4) + 1 + to) input)
                  _
                  (λ name range. Every-some _ (
                    name-Quoted (offset + (pos + 4)) (offset + (pos + 4) + 1) to input tail name
                      (omega arith)
                      (ap (λ i. byte_at i input) {x = offset + (pos + 4)} (omega arith)
                        ∙ at_before
                        ∙ ap some (ground (arith, is_quote)))
                      from ends range)))))))))

find_opcode-find_integer :
    (input : Str) (i : OpInfo)
    → find_opcode input ≡ some i
    → find_integer u8_bound input key_op ≡ some (i.op, i.range)
unfolding find_opcode
find_opcode-find_integer input i h = elim (Option-cases (find_integer u8_bound input key_op)) [
  | inl e ↦ cc (rw e at h)
  | inr (p, e) ↦ e ∙ ap some (ground (arith, (rw e at h)))
]

-- What a scan reports stands in the payload, in the range that is reported with it: a number after
-- its key and before a comma or a brace, as text that `from_str` reads as that number, and a name
-- between quotes. Ids are of 64 bits.
pub record Located (payload : Str) (e : GatewayEvent) : Type 0 where
  pub op : Found u8_bound payload key_op e.op.op e.op.range
  pub sequence :
      Every (λ (i : SequenceInfo). Found u64_bound payload key_s i.seq i.range) e.sequence
  pub event_type : Every (Quoted payload) e.event_type
  pub guild_id : Every (λ (n : ℕ). n < u64_bound) e.guild_id
  pub channel_id : Every (λ (n : ℕ). n < u64_bound) e.channel_id

-- Of every event read from a payload the range of the opcode, after the first such key, has its
-- digits and no others, so has that of the sequence number, and that of the event name is what stands
-- between its quotes; the opcode is of one byte, the other numbers and the ids of 64 bits.
pub from_json-Located :
    (payload : Str) (e : GatewayEvent) → from_json payload ≡ some e → Located payload e
unfolding from_json
from_json-Located payload e h = elim (Option-cases (find_opcode payload)) [
  | inl n ↦ cc (rw n at h)
  | inr (op, at_op) ↦ subst (Located payload) (some-injective _ e (rw at_op at h)) (record {
    op =
        find_integer-Found u8_bound key_op op.op op.range payload
          (find_opcode-find_integer payload op at_op);
    sequence = record {
      at = λ i found.
          find_integer-Found u64_bound key_s i.seq i.range payload
            (find_sequence-find_integer payload i found);
    };
    event_type = find_event_type-Quoted payload;
    guild_id = find_guild_id-Fits payload (find_event_type payload);
    channel_id = find_channel_id-Fits payload (find_event_type payload);
  })
]
