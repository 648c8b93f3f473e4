-- ===== src/Rest/Requests/Voice.antt =====
-- src/rest_proxy.rs: who can change the voice state of the shared bot.
use discord_gateway_proxy.State.Voice.{bot_user_id, voice_owner}
use discord_gateway_proxy.Rest.Voice.{
  bot_voice_change_guild, skip_prefix, is_bot_target, changes_voice, voice_guild_of_resource,
  voice_guild_of_route,
}
use discord_gateway_proxy.Rest.Requests.Guards.{proceed-injective, admit-Admitted, require-inv}
use discord_gateway_proxy.Rest.Paths.{resolve_route_scope, normalize_path, segments_of}
use discord_gateway_proxy.State.{SessionPrincipal}
use discord_gateway_proxy.Auth.{AuthContext, authenticate_gateway_token, GatewayAuthResult}
use discord_gateway_proxy.Rest.{
  RouteScope, is_allowed_without_auth, parse_snowflake, Method, is_patch,
}
use discord_gateway_proxy.Rest.Requests.{
  Services, Shared, owns, auth_context, check_voice, RouteScope, Request, AuthContext,
  UpstreamRequest, presented_token, proceed, SessionPrincipal, resolve_route_scope,
  bot_voice_change_guild, bot_user_id, admit, voice_owner,
}
use mathlib.Core.Option.{some-injective}
use discord_gateway_proxy.Prelude.{
  true, false, none, some, nat_eq, str_eq, Str, Option, ◌≡◌, ap, str_beq_iff, List, ℕ, sym, ◌∙◌,
  subst, codes, str_beq, contains, ◌⊎◌, inl, ◌∷◌, inr, arith, [], nat_beq_iff, refl,
}

owns-inv :
    (client_id : Str) (owner : Option Str) → owns client_id owner ≡ true → owner ≡ some client_id
owns-inv client_id none h = cc h
owns-inv client_id (some owner) h = ap some ((str_beq_iff owner client_id).0 h)

-- Whom the last segment of a path names: the bot, by `@me` or by its id. Before the bot's id is known,
-- anybody may be the bot.
abbrev pub NamesBot : Str → Option ℕ → Type 0
NamesBot target none = Unit
NamesBot target (some bot) =
    (target ≡ codes "@me") ⊎ ((target ≡ codes "%40me") ⊎ (parse_snowflake target ≡ some bot))

-- What changes a voice state: anything done to the state itself, or a member with one of three keys in
-- the body, or with a body whose keys cannot be read.
abbrev pub ChangesVoice : (Str → Option (List Str)) → Str → Str → Type 0
ChangesVoice parse_keys resource body =
    (resource ≡ codes "voice-states")
    ⊎ ((resource ≡ codes "members")
        × ((parse_keys body ≡ none)
            ⊎ ((keys : List Str) × (key : Str) × (parse_keys body ≡ some keys)
                × (contains keys key ≡ true)
                × ((key ≡ codes "channel_id") ⊎ ((key ≡ codes "mute") ⊎ (key ≡ codes "deaf"))))))

NamesBot-is_bot_target :
    (target : Str) (bot : Option ℕ) → NamesBot target bot → is_bot_target target bot ≡ true
unfolding is_bot_target str_beq
NamesBot-is_bot_target target none h = refl
NamesBot-is_bot_target target (some bot) (inl e) =
    subst (λ t. is_bot_target t (some bot) ≡ true) (sym e) refl
NamesBot-is_bot_target target (some bot) (inr (inl e)) =
    subst (λ t. is_bot_target t (some bot) ≡ true) (sym e) refl
NamesBot-is_bot_target target (some bot) (inr (inr e)) = ground (arith, e, nat_beq_iff bot bot)

changes_some :
    (parse_keys : Str → Option (List Str)) (body : Str) (keys : List Str) (key : Str)
    → parse_keys body ≡ some keys
    → contains keys key ≡ true
    → (key ≡ codes "channel_id") ⊎ ((key ≡ codes "mute") ⊎ (key ≡ codes "deaf"))
    → changes_voice parse_keys body ≡ true
unfolding changes_voice
changes_some parse_keys body keys key e has (inl k) =
    rw (e, changes_voice) (ground (arith, ap (contains keys) k, has))
changes_some parse_keys body keys key e has (inr (inl k)) =
    rw (e, changes_voice) (ground (arith, ap (contains keys) k, has))
changes_some parse_keys body keys key e has (inr (inr k)) =
    rw (e, changes_voice) (ground (arith, ap (contains keys) k, has))

unread_changes :
    (parse_keys : Str → Option (List Str)) (body : Str)
    → parse_keys body ≡ none
    → changes_voice parse_keys body ≡ true
unfolding changes_voice
unread_changes parse_keys body unread = rw (unread, changes_voice)

voice_of_members :
    (parse_keys : Str → Option (List Str)) (body : Str) (guild_id : ℕ)
    → changes_voice parse_keys body ≡ true
    → voice_guild_of_resource parse_keys (codes "members") guild_id body ≡ some guild_id
unfolding voice_guild_of_resource str_beq
voice_of_members parse_keys body guild_id changes = rw (changes, voice_guild_of_resource)

ChangesVoice-voice_guild :
    (parse_keys : Str → Option (List Str)) (resource body : Str) (guild_id : ℕ)
    → ChangesVoice parse_keys resource body
    → voice_guild_of_resource parse_keys resource guild_id body ≡ some guild_id
unfolding voice_guild_of_resource str_beq
ChangesVoice-voice_guild parse_keys resource body guild_id (inl e) =
    subst (λ r. voice_guild_of_resource parse_keys r guild_id body ≡ some guild_id) (sym e) refl
ChangesVoice-voice_guild parse_keys resource body guild_id (inr (e, inl unread)) =
    subst (λ r. voice_guild_of_resource parse_keys r guild_id body ≡ some guild_id) (sym e)
      (voice_of_members parse_keys body guild_id (unread_changes parse_keys body unread))
ChangesVoice-voice_guild parse_keys resource body guild_id
      (inr (e, inr (keys, key, read, has, which))) =
    subst (λ r. voice_guild_of_resource parse_keys r guild_id body ≡ some guild_id) (sym e)
      (voice_of_members parse_keys body guild_id
        (changes_some parse_keys body keys key read has which))

-- The segments of a path that changes the voice state of the bot, written out as they are.
bot_voice_change_guild_lem :
    (parse_keys : Str → Option (List Str)) (method : Method) (path guild resource target body : Str)
    (bot : Option ℕ) (guild_id : ℕ)
    → is_patch method ≡ true
    → skip_prefix (segments_of path) ≡ codes "guilds" ∷ guild ∷ resource ∷ target ∷ []
    → parse_snowflake guild ≡ some guild_id
    → NamesBot target bot
    → ChangesVoice parse_keys resource body
    → bot_voice_change_guild parse_keys method path body bot ≡ some guild_id
unfolding bot_voice_change_guild voice_guild_of_route str_beq
bot_voice_change_guild_lem parse_keys method path guild resource target body bot guild_id patched
      route parsed names changes =
    rw (patched, route, parsed, NamesBot-is_bot_target target bot names)
      (ChangesVoice-voice_guild parse_keys resource body guild_id changes)

module _ (services : Services) (shared : Shared) where
  client_context :
      (scope : RouteScope) (request : Request) (context : Option AuthContext) (client : AuthContext)
      → is_allowed_without_auth scope ≡ false
      → authenticate_gateway_token shared.config shared.registry
          (presented_token services shared request)
        ≡ GatewayAuthResult.ok client
      → auth_context services shared scope request ≡ proceed context
      → context ≡ some client
  unfolding auth_context
  client_context scope request context client guarded auth h =
      sym (proceed-injective (some client) context (rw (auth_context, guarded, auth) at h))

  -- The guard of the handler.
  admit-guarded :
      (request : Request) (upstream : UpstreamRequest) (client_id body : Str) (guilds : List ℕ)
      (guild_id : ℕ)
      → authenticate_gateway_token shared.config shared.registry
          (presented_token services shared request)
        ≡ GatewayAuthResult.ok (record {
          principal = SessionPrincipal.client client_id;
          authorized_guilds = some guilds;
        })
      → is_allowed_without_auth (resolve_route_scope (normalize_path request.path)) ≡ false
      → request.body ≡ some body
      → bot_voice_change_guild services.parse_keys request.method
          (normalize_path request.path)
          body
          (bot_user_id shared.inner)
        ≡ some guild_id
      → admit services shared request ≡ proceed upstream
      → voice_owner shared.inner guild_id ≡ some client_id
  unfolding check_voice
  admit-guarded request upstream client_id body guilds guild_id auth guarded read change h =
      let admitted = admit-Admitted services shared request upstream h in
      let known =
        client_context (resolve_route_scope (normalize_path request.path)) request admitted.context
          _ guarded auth admitted.authenticated in
      let same = some-injective body admitted.body (sym read ∙ admitted.readable) in
      let checked =
        subst
          (λ c.
            check_voice services shared c request.method (normalize_path request.path) body
            ≡ proceed tt)
          known
          (subst
            (λ b.
              check_voice services shared admitted.context request.method
                (normalize_path request.path) b
              ≡ proceed tt)
            (sym same) admitted.voice) in
      owns-inv client_id (voice_owner shared.inner guild_id)
        (require-inv _ _ tt (rw change at checked))

  -- A PATCH by a client of `guilds/{guild}/voice-states/{bot}`, or of `guilds/{guild}/members/{bot}`
  -- with `channel_id`, `mute` or `deaf` in the body, reaches Discord only if the client owns the voice
  -- connection of the guild. The segments are the ones of the path as it is written: with the names of
  -- resources percent-encoded it is another path.
  pub admit-voice_owner :
      (request : Request) (upstream : UpstreamRequest) (client_id body guild resource target : Str)
      (guilds : List ℕ) (guild_id : ℕ)
      → authenticate_gateway_token shared.config shared.registry
          (presented_token services shared request)
        ≡ GatewayAuthResult.ok (record {
          principal = SessionPrincipal.client client_id;
          authorized_guilds = some guilds;
        })
      → is_allowed_without_auth (resolve_route_scope (normalize_path request.path)) ≡ false
      → request.body ≡ some body
      → is_patch request.method ≡ true
      → skip_prefix (segments_of (normalize_path request.path))
        ≡ codes "guilds" ∷ guild ∷ resource ∷ target ∷ []
      → parse_snowflake guild ≡ some guild_id
      → NamesBot target (bot_user_id shared.inner)
      → ChangesVoice services.parse_keys resource body
      → admit services shared request ≡ proceed upstream
      → voice_owner shared.inner guild_id ≡ some client_id
  admit-voice_owner request upstream client_id body guild resource target guilds guild_id auth
        guarded read patched route parsed names changes h =
      admit-guarded request upstream client_id body guilds guild_id auth guarded read
        (bot_voice_change_guild_lem services.parse_keys request.method (normalize_path request.path)
          guild resource target body (bot_user_id shared.inner) guild_id patched route parsed names
          changes)
        h
