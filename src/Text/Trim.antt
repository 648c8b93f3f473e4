-- ===== src/Text/Trim.antt =====
-- `str::trim` and `str::splitn`, and what they do to printable ASCII.
use discord_gateway_proxy.Text.Search.{
  find_non_whitespace, whitespace_width, split_once, find_non_whitespace_from, two_byte_whitespace,
  ascii_whitespace, three_byte_whitespace, next_index,
}
use discord_gateway_proxy.Prelude.{
  nat_eq, str_eq, arith, Str, ℕ, none, Bool, suc, List, ◌≤◌, ◌<◌, All, [], not, ◌∷◌, is_some, some,
  if◌then◌else◌, ◌++◌, drop, ◌-◌, zero, ◌≡◌, true, Option, Bool-cases, inl, refl, ◌∙◌, inr,
}

-- `trim_start`.
unfoldable pub trim_start : Str → Str
unfolding find_non_whitespace
trim_start s = elim (find_non_whitespace s) [ none ↦ [] | some i ↦ drop i s ]

-- Nothing but white space.
unfoldable pub is_blank : Str → Bool
unfolding find_non_whitespace
is_blank s = not (is_some (find_non_whitespace s))

-- `trim_end`; `skip` bytes of a character are kept.
unfoldable pub trim_end_from : ℕ → Str → Str
unfolding is_blank whitespace_width
trim_end_from skip [] = []
trim_end_from (suc skip) (c ∷ s) = c ∷ trim_end_from skip s
trim_end_from zero (c ∷ s) =
    if is_blank (c ∷ s) then [] else c ∷ trim_end_from (whitespace_width (c ∷ s) - 1) s

unfoldable pub trim : Str → Str
unfolding trim_start trim_end_from
trim s = trim_end_from 0 (trim_start s)

-- `splitn(n, sep)`.
unfoldable pub splitn : ℕ → ℕ → Str → List Str
unfolding split_once
splitn zero sep s = []
splitn (suc zero) sep s = s ∷ []
splitn (suc (suc n)) sep s = elim (split_once sep s) [
  | none ↦ s ∷ []
  | some (front, back) ↦ front ∷ splitn (suc n) sep back
]

-- Printable ASCII without the space.
abbrev pub Visible : ℕ → Type 0
Visible c = (33 ≤ c) × (c < 127)

abbrev pub Ascii : ℕ → Type 0
Ascii c = c < 128

whitespace_width-Ascii :
    (c : ℕ) (s : Str) → Ascii c → whitespace_width (c ∷ s) ≡ (if ascii_whitespace c then 1 else 0)
unfolding whitespace_width two_byte_whitespace three_byte_whitespace
whitespace_width-Ascii c [] h = refl
whitespace_width-Ascii c (b ∷ []) h = ground arith
whitespace_width-Ascii c (b ∷ d ∷ s) h = ground arith

abbrev pub EndsVisible : Str → Type 0
EndsVisible [] = ⊥
EndsVisible (c ∷ []) = Visible c
EndsVisible (c ∷ d ∷ s) = EndsVisible (d ∷ s)

is_some-next_index : (o : Option ℕ) → is_some (next_index o) ≡ is_some o
is_some-next_index none = refl
is_some-next_index (some i) = refl

find_non_whitespace-visible :
    (s t : Str) → All Ascii s → EndsVisible s → is_some (find_non_whitespace_from 0 (s ++ t)) ≡ true
unfolding find_non_whitespace_from ascii_whitespace
find_non_whitespace-visible [] t a v = absurd v
find_non_whitespace-visible (c ∷ []) t a v =
    rw (is_some, find_non_whitespace_from, whitespace_width-Ascii c t a.0) ground arith
find_non_whitespace-visible (c ∷ d ∷ s) t a v =
    let ih = find_non_whitespace-visible (d ∷ s) t a.1 v in
    rw (is_some, find_non_whitespace_from, whitespace_width-Ascii c (d ∷ (s ++ t)) a.0)
      (elim (Bool-cases (ascii_whitespace c)) [
        | inl white ↦ rw white (is_some-next_index (find_non_whitespace_from 0 (d ∷ (s ++ t))) ∙ ih)
        | inr other ↦ rw other
      ])

-- What follows the last visible character is cut off if it is blank.
pub trim_end-visible :
    (s t : Str)
    → All Ascii s
    → EndsVisible s
    → trim_end_from 0 t ≡ []
    → trim_end_from 0 (s ++ t) ≡ s
unfolding trim_end_from is_blank find_non_whitespace
trim_end-visible [] t a v e = absurd v
trim_end-visible (c ∷ []) t a v e =
    rw (find_non_whitespace-visible (c ∷ []) t a v, whitespace_width-Ascii c t a.0)
      (elim (Bool-cases (ascii_whitespace c)) [
        | inl white ↦ rw (white, e)
        | inr other ↦ rw (other, e)
      ])
trim_end-visible (c ∷ d ∷ s) t a v e =
    rw (find_non_whitespace-visible (c ∷ d ∷ s) t a v, whitespace_width-Ascii c (d ∷ (s ++ t)) a.0)
      (elim (Bool-cases (ascii_whitespace c)) [
        | inl white ↦ rw (white, trim_end-visible (d ∷ s) t a.1 v e)
        | inr other ↦ rw (other, trim_end-visible (d ∷ s) t a.1 v e)
      ])

trim_start-Visible : (c : ℕ) (s : Str) → Visible c → trim_start (c ∷ s) ≡ c ∷ s
unfolding trim_start find_non_whitespace find_non_whitespace_from ascii_whitespace
trim_start-Visible c s v = rw (trim_start, whitespace_width-Ascii c s (omega arith)) ground arith

-- A text that begins and ends with visible characters loses what is blank after it.
pub trim-Visible :
    (c : ℕ) (s t : Str)
    → Visible c
    → All Ascii s
    → EndsVisible (c ∷ s)
    → trim_end_from 0 t ≡ []
    → trim (c ∷ (s ++ t)) ≡ c ∷ s
unfolding trim
trim-Visible c s t v a e blank =
    rw (trim_start-Visible c (s ++ t) v) (trim_end-visible (c ∷ s) t (omega arith, a) e blank)
