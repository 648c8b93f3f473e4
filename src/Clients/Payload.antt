-- ===== src/Clients/Payload.antt =====
-- src/db_config.rs: the payload of a notification, as the trigger of the table writes it and as the
-- proxy reads it, and the database URL.
pub mod Roundtrip
use discord_gateway_proxy.Text.Search.{replace}
use discord_gateway_proxy.Text.Trim.{splitn, trim}
use discord_gateway_proxy.Prelude.{
  [], nat_eq, str_eq, arith, Str, if◌then◌else◌, Option, List, ◌++◌, codes, str_beq, ◌∷◌, is_empty,
  none, some,
}

pub data GatewayClientsChangeOperation : Type 0 where
  insert update delete unknown : GatewayClientsChangeOperation

unfoldable pub from_tg_op : Str → GatewayClientsChangeOperation
from_tg_op raw =
    if str_beq raw (codes "INSERT")
    then GatewayClientsChangeOperation.insert
    else if str_beq raw (codes "UPDATE")
    then GatewayClientsChangeOperation.update
    else if str_beq raw (codes "DELETE")
    then GatewayClientsChangeOperation.delete
    else GatewayClientsChangeOperation.unknown

pub record GatewayClientsChangeEvent : Type 0 where
  pub operation : GatewayClientsChangeOperation
  pub client_id : Str
  pub guild_id : Option Str

unfoldable pub read_parts : Str → List Str → GatewayClientsChangeEvent
unfolding from_tg_op
read_parts payload (a ∷ b ∷ c ∷ []) = record {
  operation = from_tg_op a;
  client_id = b;
  guild_id = if is_empty c then none else some c;
}
read_parts payload _ = record {
  operation = GatewayClientsChangeOperation.unknown;
  client_id = payload;
  guild_id = none;
}

unfoldable pub parse_gateway_clients_change_payload : Str → GatewayClientsChangeEvent
unfolding splitn read_parts
parse_gateway_clients_change_payload payload = read_parts payload (splitn 3 b'\t' payload)

-- `notify_gateway_clients_change()`: `format('%s\t%s\t%s', ...)`, a null as the empty text.
unfoldable pub notify_gateway_clients_change : Str → Str → Str → Str
notify_gateway_clients_change tg_op changed_client_id changed_guild_id =
    tg_op ++ b'\t' ∷ (changed_client_id ++ b'\t' ∷ changed_guild_id)

-- What the listener task passes on: `notification.payload().trim()`.
unfoldable pub listener_payload : Str → Str
unfolding trim
listener_payload payload = trim payload

unfoldable pub normalize_database_url : Str → Str
unfolding replace
normalize_database_url url =
    replace (replace url (codes "sslmode=verify-full") (codes "sslmode=require"))
      (codes "sslmode=verify-ca") (codes "sslmode=require")
