-- ===== src/Clients/Authentication.antt =====
-- src/db_config.rs: which tokens are authenticated, and when a refusal is final.
use discord_gateway_proxy.Text.Split.{split_once_inv, split_once-append}
use discord_gateway_proxy.Config.{ClientConfig}
use discord_gateway_proxy.Text.Search.{split_once}
use discord_gateway_proxy.Clients.{
  unverified, check_secret, Registry, ClientDataState, ClientAuthResult, client_data_state,
  registered, check_client, authenticate_client_with_id,
}
use discord_gateway_proxy.Prelude.{
  nat_eq, str_eq, arith, Str, contains, List, Option, ◌≡◌, ℕ, ◌≢◌, false, some, Bool-cases,
  str_beq_iff, ◌⊎◌, ◌++◌, str_beq, ◌∷◌, inl, inr, none, refl, str_beq_refl, ◌↔◌, true, ◌<◌, ◌≤◌,
  ◌+◌, Option-cases, subst, ◌∙◌, ap, sym,
}

unverified_refuses :
    (s : ClientDataState) (id : Str) (guilds : List ℕ)
    → unverified s ≢ ClientAuthResult.ok id guilds
unfolding unverified
unverified_refuses s id guilds h = ground arith

check_secret-ok :
    (state : ClientDataState) (client_id secret : Str) (found : Option ClientConfig) (id : Str)
    (guilds : List ℕ)
    → check_secret state client_id secret found ≡ ClientAuthResult.ok id guilds
    → (client : ClientConfig) × (found ≡ some client)
      × (client.secret ≡ secret)
      × (client.guilds ≡ guilds)
      × (client_id ≡ id)
unfolding check_secret
check_secret-ok state client_id secret none id guilds h =
    absurd (unverified_refuses state id guilds h)
check_secret-ok state client_id secret (some client) id guilds h =
    elim (Bool-cases (str_beq client.secret secret)) [
      | inl same ↦
          let h' = rw same at h in
          (
            client,
            refl,
            (str_beq_iff client.secret secret).0 same,
            ground (arith, h'),
            ground (arith, h'),
          )
      | inr other ↦ absurd (unverified_refuses state id guilds (rw other at h))
    ]

-- The registry has the client with this secret and these guilds.
abbrev pub HasClient : Registry → Str → Str → List ℕ → Type 0
HasClient registry client_id secret guilds =
    (client : ClientConfig) × (registered registry client_id ≡ some client)
    × (client.secret ≡ secret)
    × (client.guilds ≡ guilds)

check_client-ok :
    (state : ClientDataState) (client_id secret : Str) (found : Option ClientConfig) (id : Str)
    (guilds : List ℕ)
    → check_client state client_id secret found ≡ ClientAuthResult.ok id guilds
    → (state ≢ ClientDataState.stale)
      × ((client : ClientConfig) × (found ≡ some client)
          × (client.secret ≡ secret)
          × (client.guilds ≡ guilds)
          × (client_id ≡ id))
unfolding check_client
check_client-ok ClientDataState.stale client_id secret found id guilds h = cc
check_client-ok ClientDataState.no_database client_id secret found id guilds h =
    (λ e. cc, check_secret-ok ClientDataState.no_database client_id secret found id guilds h)
check_client-ok ClientDataState.never_synced client_id secret found id guilds h =
    (λ e. cc, check_secret-ok ClientDataState.never_synced client_id secret found id guilds h)
check_client-ok ClientDataState.fresh client_id secret found id guilds h =
    (λ e. cc, check_secret-ok ClientDataState.fresh client_id secret found id guilds h)

check_client-accepts :
    (state : ClientDataState) (client_id : Str) (client : ClientConfig)
    → state ≢ ClientDataState.stale
    → check_client state client_id client.secret (some client)
      ≡ ClientAuthResult.ok client_id client.guilds
unfolding check_client check_secret
check_client-accepts ClientDataState.stale client_id client h = absurd (h refl)
check_client-accepts ClientDataState.no_database client_id client h = rw str_beq_refl
check_client-accepts ClientDataState.never_synced client_id client h = rw str_beq_refl
check_client-accepts ClientDataState.fresh client_id client h = rw str_beq_refl

check_client-invalid :
    (state : ClientDataState) (client_id secret : Str) (found : Option ClientConfig)
    → check_client state client_id secret found ≡ ClientAuthResult.invalid
    → (state ≡ ClientDataState.no_database) ⊎ (state ≡ ClientDataState.fresh)
unfolding check_client check_secret unverified
check_client-invalid ClientDataState.stale client_id secret found h = cc
check_client-invalid ClientDataState.no_database client_id secret found h = inl refl
check_client-invalid ClientDataState.never_synced client_id secret none h = cc
check_client-invalid ClientDataState.never_synced client_id secret (some client) h = ground arith
check_client-invalid ClientDataState.fresh client_id secret found h = inr refl

-- A token is authenticated exactly if it is `client_id:secret` for a client of the registry with
-- that secret, and the registry is not stale; the client then has the guilds of the registry.
pub authenticate_client_with_id-ok :
    (registry : Registry) (token client_id : Str) (guilds : List ℕ)
    → (authenticate_client_with_id registry token ≡ ClientAuthResult.ok client_id guilds) ↔ (
        (client_data_state registry ≢ ClientDataState.stale)
        × ((client : ClientConfig) × (registered registry client_id ≡ some client)
            × (token ≡ client_id ++ b':' ∷ client.secret)
            × (contains client_id b':' ≡ false)
            × (client.guilds ≡ guilds)))
unfolding authenticate_client_with_id
authenticate_client_with_id-ok registry token client_id guilds = (
  λ h. elim (Option-cases (split_once b':' token)) [
    | inl e ↦ cc (rw (e, authenticate_client_with_id) at h)
    | inr ((id, secret), e) ↦
        let (current, (client, found, same, theirs, this)) =
          check_client-ok (client_data_state registry) id secret (registered registry id) client_id
            guilds (rw (e, authenticate_client_with_id) at h) in
        let (shape, absent) = split_once_inv b':' token (id, secret) e in
        (
          current,
          (
            client,
            subst (λ k. registered registry k ≡ some client) this found,
            shape ∙ ap (λ k. k ++ b':' ∷ secret) this ∙ ap (λ k. client_id ++ b':' ∷ k) (sym same),
            subst (λ k. contains k b':' ≡ false) this absent,
            theirs,
          ),
        )
  ],
  λ (current, (client, found, shape, absent, theirs)).
      rw
        (
          shape,
          authenticate_client_with_id,
          split_once-append b':' client_id client.secret absent,
          found,
        )
        (check_client-accepts (client_data_state registry) client_id client current
          ∙ ap (ClientAuthResult.ok client_id) theirs),
)

known_good :
    (registry : Registry)
    → (client_data_state registry ≡ ClientDataState.no_database)
      ⊎ (client_data_state registry ≡ ClientDataState.fresh)
    → registry.database_configured ≡ true
    → (0 < registry.last_successful_sync)
      × ((now : ℕ) → registry.now ≡ some now → now ≤ registry.last_successful_sync + 120)
unfolding client_data_state
known_good registry h configured = (ground arith, λ now e. ground arith)

-- Credentials are refused for good only where the registry is known to be good: no database is
-- configured, or a sync succeeded and at most 120 s have passed since, as far as the clock tells.
pub authenticate_client_with_id-invalid :
    (registry : Registry) (client_id secret : Str)
    → contains client_id b':' ≡ false
    → authenticate_client_with_id registry (client_id ++ b':' ∷ secret) ≡ ClientAuthResult.invalid
    → registry.database_configured ≡ true
    → (0 < registry.last_successful_sync)
      × ((now : ℕ) → registry.now ≡ some now → now ≤ registry.last_successful_sync + 120)
unfolding authenticate_client_with_id
authenticate_client_with_id-invalid registry client_id secret absent h configured =
    let h' =
      rw (authenticate_client_with_id, split_once-append b':' client_id secret absent) at h in
    known_good registry
      (check_client-invalid (client_data_state registry) client_id secret
        (registered registry client_id) h')
      configured
