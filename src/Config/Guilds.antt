-- ===== src/Config/Guilds.antt =====
-- src/config.rs: which guild ids `deserialize_guild_ids` takes from a list.
use discord_gateway_proxy.Config.{
  visit_seq, deserialize_guild_ids, List, ℕ, GuildId, some, parse_guild_id, ◌∷◌, [], set_insert,
}
use discord_gateway_proxy.Prelude.{
  nat_eq, str_eq, arith, filter_map, all, contains, List, ℕ, ◌≡◌, is_some, some, ◌||◌, ◌∷◌, [],
  Option-cases, inl, inr, set_insert, contains-set_insert, refl, ◌∙◌,
}

visit_seq_lem :
    (set : List ℕ) (ids : List GuildId) (result : List ℕ)
    → visit_seq set ids ≡ some result
    → (guild : ℕ)
    → contains result guild ≡ (contains set guild || contains (filter_map parse_guild_id ids) guild)
unfolding visit_seq filter_map contains
visit_seq_lem set [] result h guild = ground (arith)
visit_seq_lem set (id ∷ ids) result h guild = elim (Option-cases (parse_guild_id id)) [
  | inl e ↦ cc (rw e at h)
  | inr (n, e) ↦
      rw (e, filter_map)
        (visit_seq_lem (set_insert n set) ids result (rw e at h) guild
          ∙ ground (arith, contains-set_insert n guild set))
]

visit_seq_total :
    (set : List ℕ) (ids : List GuildId)
    → is_some (visit_seq set ids) ≡ all (λ id. is_some (parse_guild_id id)) ids
unfolding visit_seq all
visit_seq_total set [] = refl
visit_seq_total set (id ∷ ids) = elim (Option-cases (parse_guild_id id)) [
  | inl e ↦ rw e
  | inr (n, e) ↦ rw e (visit_seq_total (set_insert n set) ids)
]

-- The list is accepted exactly if each of its ids, as a text or as a number, is one of 64 bits, and
-- then the client has exactly the guilds that are listed.
pub deserialize_guild_ids_lem :
    (ids : List GuildId)
    → (is_some (deserialize_guild_ids ids) ≡ all (λ id. is_some (parse_guild_id id)) ids)
      × ((result : List ℕ) (guild : ℕ)
          → deserialize_guild_ids ids ≡ some result
          → contains result guild ≡ contains (filter_map parse_guild_id ids) guild)
unfolding deserialize_guild_ids contains
deserialize_guild_ids_lem ids =
    (visit_seq_total [] ids, λ result guild h. visit_seq_lem [] ids result h guild)
