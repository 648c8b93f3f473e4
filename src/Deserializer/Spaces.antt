-- ===== src/Deserializer/Spaces.antt =====
-- White space between a key and its number, in the scan of src/deserializer.rs.
use discord_gateway_proxy.Prelude.{
  ℕ, suc, ◌≡◌, ap, ◌∙◌, true, false, none, some, [], ◌∷◌, ◌++◌, arith, Str, length, All,
  Option-cases, Bool-cases, inl, inr,
}
use discord_gateway_proxy.Text.{from_str}
use discord_gateway_proxy.Text.Search.{find, find_by, ascii_whitespace}
use discord_gateway_proxy.Text.Positions.{find_by-split}
use discord_gateway_proxy.Deserializer.{find_opcode, from_json, ends_integer, u8_bound, key_op}
use discord_gateway_proxy.Deserializer.Scan.{
  scanned, scanned-split, get_from-key, find_integer-scanned,
}

from_str-space : (bound w : ℕ) (s : Str) → ascii_whitespace w ≡ true → from_str bound (w ∷ s) ≡ none
unfolding from_str ascii_whitespace
from_str-space bound w s h = ground arith

space_no_end : (w : ℕ) → ascii_whitespace w ≡ true → ends_integer w ≡ false
unfolding ascii_whitespace ends_integer
space_no_end w h = ground arith

find_by_head : (c : ℕ) (t : Str) → find_by ends_integer (c ∷ t) ≡ some 0 → ends_integer c ≡ true
unfolding find_by
find_by_head c t h = elim (Bool-cases (ends_integer c)) [
  | inl e ↦ e
  | inr e ↦ elim (Option-cases (find_by ends_integer t)) [
    | inl n ↦ cc (rw (e, n) at h)
    | inr (i, n) ↦ absurd (omega (arith, suc_at i (rw (e, n) at h)))
  ]
]
  where
    suc_at : (i : ℕ) → some (suc i) ≡ some 0 → suc i ≡ 0
    suc_at i e = ground arith

module _ (bound w : ℕ) (p key : Str) (space : ascii_whitespace w ≡ true) where
  scanned_space_at :
      (r d t : Str)
      → w ∷ r ≡ d ++ t
      → All (λ c. ends_integer c ≡ false) d
      → find_by ends_integer t ≡ some 0
      → scanned bound (p ++ (key ++ (d ++ t))) key (length p) ≡ none
  scanned_space_at r [] [] e no_end ended = cc
  scanned_space_at r [] (c ∷ t) e no_end ended =
      cc (find_by_head c t ended, space_no_end w space, e)
  scanned_space_at r (c ∷ d) t e no_end ended =
      scanned-split bound p key (c ∷ d) t no_end ended
      ∙ rw (from_str-space bound c d (ground (arith)))

  scanned-space : (r : Str) → scanned bound (p ++ (key ++ w ∷ r)) key (length p) ≡ none
  scanned-space r = elim (Option-cases (find_by ends_integer (w ∷ r))) [
    | inl e ↦ rw (get_from-key p key (w ∷ r), e)
    | inr (to, e) ↦
        let (d, t, cut, len, no_end, ended) = find_by-split ends_integer (w ∷ r) to e in
        ap (λ s. scanned bound (p ++ (key ++ s)) key (length p)) cut
        ∙ scanned_space_at r d t cut no_end ended
  ]

-- A payload whose first "op": is followed by ASCII white space is not read at all, whatever number
-- comes after the space.
pub from_json-space :
    (w : ℕ) (p r : Str)
    → ascii_whitespace w ≡ true
    → find (p ++ (key_op ++ w ∷ r)) key_op ≡ some (length p)
    → from_json (p ++ (key_op ++ w ∷ r)) ≡ none
unfolding from_json find_opcode
from_json-space w p r space at_p = rw (
    find_integer-scanned u8_bound (p ++ (key_op ++ w ∷ r)) key_op (length p) at_p
    ∙ scanned-space u8_bound w p key_op space r)
