-- ===== src/Rest/Requests/Answers.antt =====
-- src/rest_proxy.rs: the answer of `/gateway/bot`, by which clients find the proxy.
use discord_gateway_proxy.Json.{
  as_object, Fields, Value, obj, set_field, str, get_field, get_field-set_field,
}
use discord_gateway_proxy.Rest.{build_response, Headers, Response}
use discord_gateway_proxy.Rest.Requests.{
  Services, Shared, answer, rewrite_gateway_bot_payload, build_response, as_object, is_success,
}
use discord_gateway_proxy.Prelude.{
  true, some, nat_eq, str_eq, ℕ, Str, ◌≡◌, codes, ◌>>=◌, if◌then◌else◌, str_beq, str_beq_refl, ap,
  ◌∙◌,
}

module _ (services : Services) (shared : Shared) where
  rewritten_lem :
      (body rewritten : Str) (object : Fields)
      → services.parse body ≡ some (obj object)
      → services.serialize
          (obj (set_field object (codes "url") (str shared.config.externally_accessible_url)))
        ≡ some rewritten
      → rewrite_gateway_bot_payload services shared body ≡ some rewritten
  unfolding rewrite_gateway_bot_payload as_object
  rewritten_lem body rewritten object read written = rw (rewrite_gateway_bot_payload, read) written

  rewritten_answer :
      (status : ℕ) (headers : Headers) (body rewritten : Str)
      → is_success services shared status ≡ true
      → rewrite_gateway_bot_payload services shared body ≡ some rewritten
      → answer services shared (codes "/api/v10/gateway/bot") status headers body
        ≡ build_response status headers rewritten
  unfolding answer
  rewritten_answer status headers body rewritten success changed =
      rw (answer, str_beq_refl (codes "/api/v10/gateway/bot"), success, changed)

  -- Discord's answer to `/gateway/bot` reaches the client with the proxy's own address as its `url`
  -- and every other field as it was, where the JSON library reads back what it writes.
  pub answer_lem :
      (status : ℕ) (headers : Headers) (body rewritten : Str) (object : Fields) (key : Str)
      → ((value : Value) (text : Str)
          → services.serialize value ≡ some text
          → services.parse text ≡ some value)
      → is_success services shared status ≡ true
      → services.parse body ≡ some (obj object)
      → services.serialize
          (obj (set_field object (codes "url") (str shared.config.externally_accessible_url)))
        ≡ some rewritten
      → ((services.parse
              (answer services shared (codes "/api/v10/gateway/bot") status headers body).body
            >>= as_object)
          >>= λ fields. get_field fields key)
        ≡ (if str_beq (codes "url") key
            then some (str shared.config.externally_accessible_url)
            else get_field object key)
  unfolding build_response as_object
  answer_lem status headers body rewritten object key roundtrip success read written =
      let url = str shared.config.externally_accessible_url in
      let changed = rewritten_lem body rewritten object read written in
      ap
        (λ (r : Response). (services.parse r.body >>= as_object) >>= λ fields. get_field fields key)
        (rewritten_answer status headers body rewritten success changed)
      ∙ ap (λ o. (o >>= as_object) >>= λ fields. get_field fields key)
          (roundtrip (obj (set_field object (codes "url") url)) rewritten written)
      ∙ get_field-set_field object (codes "url") key url
