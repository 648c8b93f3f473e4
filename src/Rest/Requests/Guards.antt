-- ===== src/Rest/Requests/Guards.antt =====
-- src/rest_proxy.rs: what the guards of `handle_rest_request` let through.
use discord_gateway_proxy.Rest.Paths.{is_canonical_path, normalize_path, resolve_route_scope}
use discord_gateway_proxy.Auth.{AuthContext}
use discord_gateway_proxy.Rest.{Response, json_error}
use discord_gateway_proxy.Rest.Requests.{
  Checked, Services, ◌>=>◌, Response, Shared, require, Request, admit, proceed, UpstreamRequest,
  respond, AuthContext, is_canonical_path, auth_context, check_context, check_voice,
  upstream_request, read_body,
}
use discord_gateway_proxy.Prelude.{
  true, false, nat_eq, str_eq, Bool, ◌≡◌, true, Option, refl, Str, some, subst, codes, Option-cases,
  inl, inr, ◌∙◌, ap,
}

-- What holds of all that a chain of checks goes on with.
record Passes {A : Type 0} (P : A → Type 0) (m : Checked A) : Type 0 where
  at : (a : A) → m ≡ proceed a → P a

pub proceed-injective : {A : Type 0} (a b : A) → proceed a ≡ proceed b → a ≡ b
proceed-injective a b h = cc h

Passes-proceed : {A : Type 0} {P : A → Type 0} (a : A) → P a → Passes P (proceed a)
Passes-proceed {P = P} a h = record { at = λ b e. subst P (proceed-injective a b e) h }

Passes-then :
    {A B : Type 0} {P : B → Type 0} (m : Checked A) (f : A → Checked B)
    → ((a : A) → m ≡ proceed a → Passes P (f a))
    → Passes P (m >=> f)
Passes-then (respond r) f h = record { at = λ b e. cc e }
Passes-then (proceed a) f h = h a refl

pub require-inv : (b : Bool) (r : Response) (u : Unit) → require b r ≡ proceed u → b ≡ true
require-inv true r u h = refl
require-inv false r u h = cc h

module _ (services : Services) (shared : Shared) where
  -- All that the guards have checked of a request that is sent on.
  pub record Admitted (request : Request) (upstream : UpstreamRequest) : Type 0 where
    pub context : Option AuthContext
    pub body : Str
    pub canonical : is_canonical_path services.is_utf8 (normalize_path request.path) ≡ true
    pub authenticated :
        auth_context services shared (resolve_route_scope (normalize_path request.path)) request
        ≡ proceed context
    pub in_scope :
        check_context services shared context
          (resolve_route_scope (normalize_path request.path))
          request.method
        ≡ proceed tt
    pub readable : request.body ≡ some body
    pub voice :
        check_voice services shared context request.method (normalize_path request.path) body
        ≡ proceed tt
    pub sent :
        upstream
        ≡ upstream_request services shared
            (normalize_path request.path)
            (resolve_route_scope (normalize_path request.path))
            context
            body
            request

  read_body-inv :
      (request : Request) (body : Str)
      → read_body services shared request ≡ proceed body
      → request.body ≡ some body
  unfolding read_body
  read_body-inv request body h = elim (Option-cases request.body) [
    | inl e ↦ cc (rw (e, read_body) at h)
    | inr (found, e) ↦ e ∙ ap some (proceed-injective found body (rw (e, read_body) at h))
  ]

  pub admit-Admitted :
      (request : Request) (upstream : UpstreamRequest)
      → admit services shared request ≡ proceed upstream
      → Admitted request upstream
  unfolding admit
  admit-Admitted request upstream h =
      let path = normalize_path request.path in
      let scope = resolve_route_scope path in
      (Passes-then {P = Admitted request}
          (require (is_canonical_path services.is_utf8 path)
            (json_error 400 (codes "Non-canonical request path")))
          _
          (λ u canonical.
            Passes-then (auth_context services shared scope request) _ (λ context authenticated.
              Passes-then (check_context services shared context scope request.method) _
                (λ v in_scope. Passes-then (read_body services shared request) _ (λ body readable.
                  Passes-then (check_voice services shared context request.method path body) _
                    (λ w voice.
                      Passes-then
                        (require (services.supports_method request.method)
                          (json_error 405 (codes "Unsupported HTTP method")))
                        _
                        (λ x supported. Passes-proceed _ (record {
                          context = context;
                          body = body;
                          canonical = require-inv _ _ u canonical;
                          authenticated = authenticated;
                          in_scope = in_scope;
                          readable = read_body-inv request body readable;
                          voice = voice;
                          sent = refl;
                        })))))))).at
        upstream h
