-- ===== src/Auth.antt =====
-- src/auth.rs: who a token of the gateway or of the REST proxy stands for.
use discord_gateway_proxy.Clients.Authentication.{authenticate_client_with_id-ok}
use discord_gateway_proxy.Clients.{
  Registry, authenticate_client_with_id, ClientAuthResult, registered, client_data_state,
  ClientDataState,
}
use discord_gateway_proxy.Config.{Config, ClientConfig}
use discord_gateway_proxy.Text.Search.{split_whitespace, last_or}
use discord_gateway_proxy.State.{SessionPrincipal}
use discord_gateway_proxy.Prelude.{
  nat_eq, str_eq, Option, Str, List, [], if◌then◌else◌, ℕ, str_beq, none, ◌≡◌, some, false,
  Bool-cases, subst, refl, inl, str_beq_iff, inr, ap, sym, ◌++◌, ◌∷◌, ◌≢◌,
}

pub record AuthContext : Type 0 where
  pub principal : SessionPrincipal
  pub authorized_guilds : Option (List ℕ)

unfoldable pub normalize_gateway_token : Str → Str
unfolding split_whitespace last_or
normalize_gateway_token token = last_or [] (split_whitespace token)

pub data GatewayAuthResult : Type 0 where
  ok : AuthContext → GatewayAuthResult
  stale : GatewayAuthResult
  invalid : GatewayAuthResult

-- A token that is no client's: the bot's, or any at all where tokens are not validated.
unfoldable pub authenticate_other : Config → Str → GatewayAuthResult
authenticate_other config token =
    if str_beq token config.token
    then GatewayAuthResult.ok
        (record { principal = SessionPrincipal.bot_token; authorized_guilds = none })
    else if config.validate_token
    then GatewayAuthResult.invalid
    else GatewayAuthResult.ok
        (record { principal = SessionPrincipal.unvalidated token; authorized_guilds = none })

unfoldable pub gateway_result : Config → Str → ClientAuthResult → GatewayAuthResult
unfolding authenticate_other
gateway_result config token (ClientAuthResult.ok client_id guilds) =
    GatewayAuthResult.ok
      (record { principal = SessionPrincipal.client client_id; authorized_guilds = some guilds })
gateway_result config token ClientAuthResult.stale = GatewayAuthResult.stale
gateway_result config token ClientAuthResult.invalid = authenticate_other config token

unfoldable pub authenticate_gateway_token : Config → Registry → Str → GatewayAuthResult
unfolding gateway_result
authenticate_gateway_token config registry token =
    gateway_result config token (authenticate_client_with_id registry token)

-- What must hold of a token for the context that it is given.
abbrev pub Justified : Config → Registry → Str → SessionPrincipal → Option (List ℕ) → Type 0
Justified config registry token (SessionPrincipal.client client_id) guilds =
    (client : ClientConfig) × (registered registry client_id ≡ some client)
    × (guilds ≡ some client.guilds)
    × (token ≡ client_id ++ b':' ∷ client.secret)
    × (client_data_state registry ≢ ClientDataState.stale)
Justified config registry token SessionPrincipal.bot_token guilds =
    (guilds ≡ none) × (token ≡ config.token)
Justified config registry token (SessionPrincipal.unvalidated given) guilds =
    (guilds ≡ none) × (given ≡ token) × (config.validate_token ≡ false)

ok-injective : (a b : AuthContext) → GatewayAuthResult.ok a ≡ GatewayAuthResult.ok b → a ≡ b
ok-injective a b h = cc h

authenticate_other-Justified :
    (config : Config) (registry : Registry) (token : Str) (context : AuthContext)
    → authenticate_other config token ≡ GatewayAuthResult.ok context
    → Justified config registry token context.principal context.authorized_guilds
unfolding authenticate_other
authenticate_other-Justified config registry token context h =
    elim (Bool-cases (str_beq token config.token)) [
      | inl same ↦
          subst
            (λ (c : AuthContext). Justified config registry token c.principal c.authorized_guilds)
            (ok-injective _ context (rw (same, authenticate_other) at h))
            (refl, (str_beq_iff token config.token).0 same)
      | inr other ↦ elim (Bool-cases config.validate_token) [
        | inl validate ↦ cc (rw (other, validate, authenticate_other) at h)
        | inr open_to_all ↦
            subst
              (λ (c : AuthContext). Justified config registry token c.principal c.authorized_guilds)
              (ok-injective _ context (rw (other, open_to_all, authenticate_other) at h))
              (refl, refl, open_to_all)
      ]
    ]

result-Justified :
    (config : Config) (registry : Registry) (token : Str) (context : AuthContext)
    (result : ClientAuthResult)
    → authenticate_client_with_id registry token ≡ result
    → gateway_result config token result ≡ GatewayAuthResult.ok context
    → Justified config registry token context.principal context.authorized_guilds
unfolding gateway_result
result-Justified config registry token context (ClientAuthResult.ok client_id guilds) e h =
    let (fresh, (client, known, same_token, no_colon, same)) =
      (authenticate_client_with_id-ok registry token client_id guilds).0 e in
    subst (λ (c : AuthContext). Justified config registry token c.principal c.authorized_guilds)
      (ok-injective _ context h) (client, known, ap some (sym same), same_token, fresh)
result-Justified config registry token context ClientAuthResult.stale e h = cc h
result-Justified config registry token context ClientAuthResult.invalid e h =
    authenticate_other-Justified config registry token context h

-- A token that is accepted stands for a client of the registry only if it is the client's id and
-- secret and the registry is not stale, and then with exactly the guilds that the registry has for
-- the client; for the bot only if it is the bot's own; for anybody else only where tokens are not
-- validated.
pub authenticate_gateway_token-Justified :
    (config : Config) (registry : Registry) (token : Str) (context : AuthContext)
    → authenticate_gateway_token config registry token ≡ GatewayAuthResult.ok context
    → Justified config registry token context.principal context.authorized_guilds
unfolding authenticate_gateway_token
authenticate_gateway_token-Justified config registry token context h =
    result-Justified config registry token context (authenticate_client_with_id registry token) refl
      h
