-- ===== src/Cache.antt =====
-- src/cache.rs: the payloads that a client which identifies is sent of a shard's cache.
pub mod Guilds
pub mod Entities
pub mod Resources
use discord_gateway_proxy.Text.Number.{to_string}
use discord_gateway_proxy.State.{CachedGuild, InMemoryCache}
use discord_gateway_proxy.Map
use discord_gateway_proxy.Prelude.{
  str_eq, nat_eq, ℕ, Option, List, Str, Bool, ◌∷◌, ◌++◌, true, codes, unwrap_or, if◌then◌else◌,
  filter, ◌+◌, some, String, false, not, [], map, contains, none,
}
use discord_gateway_proxy.Json.{
  null, bool, num, str, arr, obj, nil, cons, end, field, Value, JsonObject, Items,
}

-- `Payload`; its opcode is always DISPATCH.
pub record Payload {ℓ} (T : Type ℓ) : Type ℓ where
  pub d : T
  pub op : ℕ
  pub t : Str
  pub s : ℕ

-- `GuildDelete`.
pub record GuildDelete : Type 0 where
  pub id : ℕ
  pub unavailable : Option Bool

-- A filter of `none` lets every guild pass.
unfoldable pub is_authorized : Option (List ℕ) → ℕ → Bool
is_authorized none guild_id = true
is_authorized (some guilds) guild_id = contains guilds guild_id

unfoldable pub guild_id_to_json : ℕ → Value
guild_id_to_json guild_id =
    obj
      (field (codes "id") (str (to_string guild_id)) (field (codes "unavailable") (bool true) end))

-- `unavailable() == Some(true)`.
abbrev pub is_unavailable : CachedGuild → Bool
is_unavailable guild = unwrap_or false guild.unavailable

-- The first iterator of `get_ready_payload`: cached guilds that are not in an outage.
unfoldable pub available_guild_ids : Option (List ℕ) → List CachedGuild → List ℕ
unfolding is_authorized
available_guild_ids authorized_guilds [] = []
available_guild_ids authorized_guilds (guild ∷ guilds) =
    let rest = available_guild_ids authorized_guilds guilds in
    if not (is_authorized authorized_guilds guild.id)
    then rest
    else if is_unavailable guild
    then rest
    else guild.id ∷ rest

-- The guilds of READY: the two iterators, one after the other.
unfoldable pub ready_guild_ids : InMemoryCache → Option (List ℕ) → List ℕ
unfolding available_guild_ids is_authorized
ready_guild_ids cache authorized_guilds =
    available_guild_ids authorized_guilds cache.guilds
    ++ filter (is_authorized authorized_guilds) cache.unavailable_guilds

abbrev pub items : List Value → Items
items [] = nil
items (value ∷ values) = cons value (items values)

unfoldable pub get_ready_payload :
    InMemoryCache → JsonObject → ℕ → Option (List ℕ) → ℕ × Payload JsonObject
unfolding ready_guild_ids guild_id_to_json
get_ready_payload cache ready sequence authorized_guilds = (
  sequence + 1,
  record {
    d =
        Map.insert ready (codes "guilds")
          (arr (items (map guild_id_to_json (ready_guild_ids cache authorized_guilds))));
    op = 0;
    t = codes "READY";
    s = sequence + 1;
  },
)
