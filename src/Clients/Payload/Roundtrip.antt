-- ===== src/Clients/Payload/Roundtrip.antt =====
-- src/db_config.rs: what the proxy reads of a notification that the trigger wrote.
use discord_gateway_proxy.Text.Search.{
  find_non_whitespace, find_non_whitespace_from, whitespace_width, ascii_whitespace,
}
use discord_gateway_proxy.Text.Split.{split_once-append, split_once-absent}
use discord_gateway_proxy.Text.Trim.{
  EndsVisible, Visible, Ascii, trim, splitn, trim-Visible, trim_end_from, is_blank,
}
use discord_gateway_proxy.Clients.Payload.{
  parse_gateway_clients_change_payload, listener_payload, notify_gateway_clients_change, trim,
  splitn, read_parts, GatewayClientsChangeOperation, from_tg_op,
}
use discord_gateway_proxy.Prelude.{
  nat_eq, str_eq, arith, Str, contains, All, ◌∷◌, ◌++◌, is_empty, [], ◌≡◌, false, refl, All-append,
  if◌then◌else◌, none, some, ap, ◌∙◌, sym,
}

-- A field of the payload: printable ASCII without white space, not empty.
abbrev pub IsField : Str → Type 0
IsField s = All Visible s × (is_empty s ≡ false)

All-Visible-Ascii : (s : Str) → All Visible s → All Ascii s
All-Visible-Ascii [] v = tt
All-Visible-Ascii (c ∷ s) v = (omega arith, All-Visible-Ascii s v.1)

no_tab : (s : Str) → All Visible s → contains s 9 ≡ false
unfolding contains
no_tab [] v = refl
no_tab (c ∷ s) v = ground (arith, no_tab s v.1)

EndsVisible-field : (s : Str) → IsField s → EndsVisible s
EndsVisible-field [] v = cc v.1
EndsVisible-field (c ∷ []) v = v.0.0
EndsVisible-field (c ∷ d ∷ s) v = EndsVisible-field (d ∷ s) (v.0.1, refl)

EndsVisible-append : (s t : Str) → EndsVisible t → EndsVisible (s ++ t)
EndsVisible-append [] t v = v
EndsVisible-append (c ∷ []) [] v = absurd v
EndsVisible-append (c ∷ []) (d ∷ t) v = v
EndsVisible-append (c ∷ d ∷ s) t v = EndsVisible-append (d ∷ s) t v

-- Two fields, and whatever blank follows them.
trim-fields :
    (s t blank : Str)
    → IsField s
    → All Ascii t
    → EndsVisible t
    → trim_end_from 0 blank ≡ []
    → trim ((s ++ t) ++ blank) ≡ s ++ t
trim-fields [] t blank v a e b = cc v.1
trim-fields (c ∷ s) t blank v a e b =
    trim-Visible c (s ++ t) blank v.0.0 (All-append Ascii s t (All-Visible-Ascii s v.0.1) a)
      (EndsVisible-append (c ∷ s) t e) b

trim_end-tab : trim_end_from 0 (9 ∷ []) ≡ []
unfolding trim_end_from is_blank find_non_whitespace find_non_whitespace_from whitespace_width
    ascii_whitespace
trim_end-tab = refl

trim_end-nil : trim_end_from 0 [] ≡ []
unfolding trim_end_from
trim_end-nil = refl

append_assoc : (s t u : Str) → s ++ (t ++ u) ≡ (s ++ t) ++ u
append_assoc [] t u = refl
append_assoc (c ∷ s) t u = ap (λ r. c ∷ r) (append_assoc s t u)

append-nil : (s : Str) → s ++ [] ≡ s
append-nil [] = refl
append-nil (c ∷ s) = ap (λ r. c ∷ r) (append-nil s)

EndsVisible-tab : (t : Str) → EndsVisible t → EndsVisible (9 ∷ t)
EndsVisible-tab [] v = absurd v
EndsVisible-tab (d ∷ t) v = v

-- The payload of a change without a guild loses its last separator.
trim-no_guild : (s t : Str) → IsField s → IsField t → trim (s ++ 9 ∷ (t ++ 9 ∷ [])) ≡ s ++ 9 ∷ t
trim-no_guild s t o c =
    ap trim (append_assoc s (9 ∷ t) (9 ∷ []))
    ∙ trim-fields s (9 ∷ t) (9 ∷ []) o (omega arith, All-Visible-Ascii t c.0)
        (EndsVisible-tab t (EndsVisible-field t c)) trim_end-tab

trim-guild :
    (s t u : Str)
    → IsField s
    → IsField t
    → IsField u
    → trim (s ++ 9 ∷ (t ++ 9 ∷ u)) ≡ s ++ 9 ∷ (t ++ 9 ∷ u)
trim-guild s t u o c g =
    ap trim (sym (append-nil (s ++ 9 ∷ (t ++ 9 ∷ u))))
    ∙ trim-fields s (9 ∷ (t ++ 9 ∷ u)) [] o
        (
          omega arith,
          All-append Ascii t (9 ∷ u) (All-Visible-Ascii t c.0)
              (omega arith, All-Visible-Ascii u g.0),
        )
        (EndsVisible-tab (t ++ 9 ∷ u)
          (EndsVisible-append t (9 ∷ u) (EndsVisible-tab u (EndsVisible-field u g))))
        trim_end-nil

-- What the trigger writes of an operation, a client and a guild is read back. Where the guild is
-- empty, the white space that is cut off takes the separator with it: the text before it is read as
-- the client.
pub notify_gateway_clients_change-parse :
    (tg_op client_id guild_id : Str)
    → IsField tg_op
    → IsField client_id
    → All Visible guild_id
    → parse_gateway_clients_change_payload
        (listener_payload (notify_gateway_clients_change tg_op client_id guild_id))
      ≡ (if is_empty guild_id
          then record {
            operation = GatewayClientsChangeOperation.unknown;
            client_id = tg_op ++ b'\t' ∷ client_id;
            guild_id = none;
          }
          else record {
            operation = from_tg_op tg_op;
            client_id = client_id;
            guild_id = some guild_id;
          })
unfolding parse_gateway_clients_change_payload listener_payload notify_gateway_clients_change splitn
    read_parts
notify_gateway_clients_change-parse tg_op client_id [] o c g = rw (
  trim-no_guild tg_op client_id o c,
  splitn,
  split_once-append 9 tg_op client_id (no_tab tg_op o.0),
  split_once-absent 9 client_id (no_tab client_id c.0),
)
notify_gateway_clients_change-parse tg_op client_id (d ∷ guild) o c g = rw (
  trim-guild tg_op client_id (d ∷ guild) o c (g, refl),
  splitn,
  split_once-append 9 tg_op (client_id ++ 9 ∷ d ∷ guild) (no_tab tg_op o.0),
  split_once-append 9 client_id (d ∷ guild) (no_tab client_id c.0),
)
