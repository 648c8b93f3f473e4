-- ===== src/Text/Split.antt =====
-- Splitting a text at the first separator.
use mathlib.Core.Option.{some-injective}
use discord_gateway_proxy.Text.Search.{split_once}
use discord_gateway_proxy.Prelude.{
  nat_eq, str_eq, arith, contains, ℕ, Str, ◌≡◌, false, some, ◌++◌, ◌∷◌, [], Bool-cases, nat_beq,
  inl, inr, Option-cases, subst, ap, nat_beq_iff, refl, none,
}

-- A text without the separator, the separator and the rest.
pub split_once-append :
    (sep : ℕ) (front back : Str)
    → contains front sep ≡ false
    → split_once sep (front ++ sep ∷ back) ≡ some (front, back)
unfolding split_once contains
split_once-append sep [] back h = ground arith
split_once-append sep (c ∷ front) back h =
    rw (split_once-append sep front back (ground arith)) ground arith

abbrev pub IsSplit : ℕ → Str → Str × Str → Type 0
IsSplit sep s (front, back) = (s ≡ front ++ sep ∷ back) × (contains front sep ≡ false)

pub split_once_inv :
    (sep : ℕ) (s : Str) (parts : Str × Str) → split_once sep s ≡ some parts → IsSplit sep s parts
unfolding split_once contains
split_once_inv sep [] parts h = cc
split_once_inv sep (c ∷ s) parts h = elim (Bool-cases (nat_beq c sep)) [
  | inl same ↦
      subst (IsSplit sep (c ∷ s)) (some-injective ([], s) parts (rw same at h))
        (ap (λ k. k ∷ s) ((nat_beq_iff c sep).0 same), refl)
  | inr other ↦ elim (Option-cases (split_once sep s)) [
    | inl e ↦ cc (rw (other, e) at h)
    | inr ((a, b), e) ↦
        let (ih, absent) = split_once_inv sep s (a, b) e in
        subst (IsSplit sep (c ∷ s)) (some-injective (c ∷ a, b) parts (rw (other, e) at h))
          (ap (λ k. c ∷ k) ih, rw (other, absent))
  ]
]

pub split_once-absent : (sep : ℕ) (s : Str) → contains s sep ≡ false → split_once sep s ≡ none
unfolding split_once contains
split_once-absent sep [] h = refl
split_once-absent sep (c ∷ s) h = rw (split_once-absent sep s (ground arith)) ground arith
