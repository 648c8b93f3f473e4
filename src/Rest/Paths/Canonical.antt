-- ===== src/Rest/Paths/Canonical.antt =====
-- src/rest_proxy.rs: a canonical path is read by the scope check as it is written.
use discord_gateway_proxy.Rest.Paths.{
  is_canonical_segment, is_canonical_path, percent_decode, trim_start_matches, segments_of,
  decode_bytes, is_plain,
}
use discord_gateway_proxy.Text.Search.{split, add_to_head, trim_start_matches}
use discord_gateway_proxy.Prelude.{
  true, false, [], ◌∷◌, nat_eq, str_eq, arith, List, ℕ, Str, ◌++◌, ◌≡◌, Bool, Bool-cases, all,
  nat_beq, filter, inl, not, inr, is_empty, refl, ap, ◌∙◌, nat_beq_iff, subst, sym,
}

-- The path of some segments.
unfoldable pub path_of : List Str → Str
path_of [] = []
path_of (part ∷ parts) = b'/' ∷ (part ++ path_of parts)

path_of-add_to_head :
    (c : ℕ) (parts : List Str) (s : Str)
    → path_of parts ≡ b'/' ∷ s
    → path_of (add_to_head c parts) ≡ b'/' ∷ c ∷ s
unfolding path_of
path_of-add_to_head c [] s h = cc h
path_of-add_to_head c (part ∷ parts) s h = ground (arith, h)

path_of-split : (s : Str) → path_of (split b'/' s) ≡ b'/' ∷ s
unfolding path_of split
path_of-split [] = refl
path_of-split (c ∷ s) = elim (Bool-cases (nat_beq c b'/')) [
  | inl slash ↦ rw (slash, path_of, path_of-split s) ground (arith, slash)
  | inr other ↦ rw other (path_of-add_to_head c (split b'/' s) s (path_of-split s))
]

module _ (is_utf8 : Str → Bool) where
  empty_refused : is_canonical_segment is_utf8 [] ≡ false
  unfolding is_canonical_segment percent_decode decode_bytes is_plain
  empty_refused = elim (Bool-cases (is_utf8 [])) [
    | inl valid ↦ rw (is_canonical_segment, percent_decode, valid)
    | inr invalid ↦ rw (is_canonical_segment, percent_decode, invalid)
  ]

  kept :
      (parts : List Str)
      → all (is_canonical_segment is_utf8) parts ≡ true
      → filter (λ part. not (is_empty part)) parts ≡ parts
  unfolding all filter
  kept [] h = refl
  kept ([] ∷ parts) h = absurd (cc (rw (all, empty_refused) at h))
  kept ((c ∷ part) ∷ parts) h = ap (λ rest. (c ∷ part) ∷ rest) (kept parts (ground (arith, h)))

  not_trimmed :
      (rest : Str)
      → all (is_canonical_segment is_utf8) (split b'/' rest) ≡ true
      → trim_start_matches b'/' rest ≡ rest
  unfolding all split trim_start_matches
  not_trimmed [] h = refl
  not_trimmed (c ∷ rest) h = elim (Bool-cases (nat_beq c b'/')) [
    | inl slash ↦ absurd (cc (rw (slash, all, empty_refused) at h))
    | inr other ↦ rw other
  ]

  segments_of-canonical :
      (rest : Str)
      → all (is_canonical_segment is_utf8) (split b'/' rest) ≡ true
      → segments_of (b'/' ∷ rest) ≡ split b'/' rest
  unfolding segments_of trim_start_matches
  segments_of-canonical rest h =
      ap (λ r. filter (λ part. not (is_empty part)) (split b'/' r)) (not_trimmed rest h)
      ∙ kept (split b'/' rest) h

  slash_first :
      (c : ℕ) (rest : Str)
      → is_canonical_path is_utf8 (c ∷ rest) ≡ true
      → (c ≡ b'/') × (all (is_canonical_segment is_utf8) (split b'/' rest) ≡ true)
  unfolding is_canonical_path
  slash_first c rest h = elim (Bool-cases (nat_beq c b'/')) [
    | inl slash ↦ ((nat_beq_iff c b'/').0 slash, rw (is_canonical_path, slash) at h)
    | inr other ↦ cc (rw (is_canonical_path, other) at h)
  ]

  -- A canonical path is exactly a slash before each of the segments that the scope is read from, and
  -- each of them is canonical: not empty, no dot segment and no slash in it, also once decoded.
  pub is_canonical_path_lem :
      (path : Str)
      → is_canonical_path is_utf8 path ≡ true
      → (path ≡ path_of (segments_of path))
        × (all (is_canonical_segment is_utf8) (segments_of path) ≡ true)
  unfolding is_canonical_path
  is_canonical_path_lem [] h = cc h
  is_canonical_path_lem (c ∷ rest) h =
      let (slash, canonical) = slash_first c rest h in
      let segments = segments_of-canonical rest canonical in
      subst
        (λ k.
          (k ∷ rest ≡ path_of (segments_of (k ∷ rest)))
          × (all (is_canonical_segment is_utf8) (segments_of (k ∷ rest)) ≡ true))
        (sym slash) (sym (ap path_of segments ∙ path_of-split rest), rw (segments, canonical))
