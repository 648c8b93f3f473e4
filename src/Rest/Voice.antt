-- ===== src/Rest/Voice.antt =====
-- src/rest_proxy.rs: the requests that change the voice state of the shared bot.
use discord_gateway_proxy.Rest.Paths.{segments_of}
use discord_gateway_proxy.Rest.{parse_snowflake, Method, is_patch}
use discord_gateway_proxy.Prelude.{
  nat_eq, str_eq, [], ◌∷◌, true, false, List, ℕ, Str, if◌then◌else◌, Bool, Option, str_beq, leb,
  some, contains, ◌>>=◌, codes, ◌&&◌, map, none, not, ◌||◌, ◌+◌, map_or, nat_beq,
}

-- `skip_while`.
unfoldable pub skip_prefix : List Str → List Str
skip_prefix [] = []
skip_prefix (s ∷ segments) =
    let rest = skip_prefix segments in
    if str_beq s (codes "api") || str_beq s (codes "v10") then rest else s ∷ segments

unfoldable pub to_lower : ℕ → ℕ
to_lower c = if leb b'A' c && leb c b'Z' then c + 32 else c

unfoldable pub eq_ignore_ascii_case : Str → Str → Bool
unfolding to_lower
eq_ignore_ascii_case s t = str_beq (map to_lower s) (map to_lower t)

-- Whether the segment names the bot; with no id of the bot, any segment does.
unfoldable pub is_bot_target : Str → Option ℕ → Bool
unfolding eq_ignore_ascii_case parse_snowflake
is_bot_target target none = true
is_bot_target target (some bot_user_id) =
    str_beq target (codes "@me")
    || (eq_ignore_ascii_case target (codes "%40me")
        || map_or false (λ id. nat_beq id bot_user_id) (parse_snowflake target))

-- `parse_keys` reads a JSON object and gives its keys; it is `none` for a body that is no UTF-8 or
-- no object.
module _ (parse_keys : Str → Option (List Str)) where
  unfoldable pub changes_voice : Str → Bool
  unfolding contains
  changes_voice body = elim (parse_keys body) [
    | none ↦ true
    | some keys ↦
        contains keys (codes "channel_id")
        || (contains keys (codes "mute") || contains keys (codes "deaf"))
  ]

  unfoldable pub voice_guild_of_resource : Str → ℕ → Str → Option ℕ
  unfolding changes_voice
  voice_guild_of_resource resource guild_id body =
      if str_beq resource (codes "voice-states")
      then some guild_id
      else if str_beq resource (codes "members")
      then (if changes_voice body then some guild_id else none)
      else none

  unfoldable pub voice_guild_of_route : List Str → Str → Option ℕ → Option ℕ
  unfolding parse_snowflake is_bot_target voice_guild_of_resource
  voice_guild_of_route (first ∷ guild_id ∷ resource ∷ target ∷ []) body bot_user_id =
      parse_snowflake guild_id >>= λ guild.
      if not (str_beq first (codes "guilds")) || not (is_bot_target target bot_user_id)
      then none
      else voice_guild_of_resource resource guild body
  voice_guild_of_route _ body bot_user_id = none

  unfoldable pub bot_voice_change_guild : Method → Str → Str → Option ℕ → Option ℕ
  unfolding segments_of skip_prefix voice_guild_of_route
  bot_voice_change_guild method path body bot_user_id =
      if not (is_patch method)
      then none
      else voice_guild_of_route (skip_prefix (segments_of path)) body bot_user_id
