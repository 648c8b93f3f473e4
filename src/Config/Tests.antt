-- ===== src/Config/Tests.antt =====
-- The theorems on src/config.rs at concrete settings.
use discord_gateway_proxy.Config.Flags.{event_eq, resource_eq}
use discord_gateway_proxy.Config.{GuildId, deserialize_guild_ids}
use discord_gateway_proxy.Prelude.{nat_eq, str_eq, [], ◌∷◌, List, codes}

abbrev listed : List GuildId
listed = GuildId.string (codes "12") ∷ GuildId.number 7 ∷ []
