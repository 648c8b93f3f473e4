-- ===== src/Deserializer/Scan.antt =====
-- What `find_integer` of src/deserializer.rs finds, and where.
use mathlib.Core.List.{append_assoc}
use discord_gateway_proxy.Prelude.{
  ℕ, ◌+◌, ◌≡◌, sym, ap, ◌∙◌, false, Option, some, ◌++◌, arith, Str, length, All, >>=-eq-some, ◌>>=◌,
  length-append, Option-cases, inl, inr,
}
use discord_gateway_proxy.Text.{from_str}
use discord_gateway_proxy.Text.Search.{find, find_by, get_from, get_range}
use discord_gateway_proxy.Text.Positions.{
  find-split, find_by-split, find_by-append, get_from-append, get_range-append,
}
use discord_gateway_proxy.Deserializer.{Range, find_integer, ends_integer}

-- The text splits at the first occurrence of the key; the number is what stands between the key
-- and the next `,` or `}`.
pub record Found (bound : ℕ) (input key : Str) (n : ℕ) (r : Range) : Type 0 where
  pub before : Str
  pub digits : Str
  pub after : Str
  pub split : input ≡ before ++ (key ++ (digits ++ after))
  pub first : find input key ≡ some (length before)
  pub start : r.start ≡ length before + length key
  pub stop : r.stop ≡ length before + length key + length digits
  pub no_end : All (λ c. ends_integer c ≡ false) digits
  pub ended : find_by ends_integer after ≡ some 0
  pub value : from_str bound digits ≡ some n

abbrev pub scanned : ℕ → Str → Str → ℕ → Option (ℕ × Range)
scanned bound input key pos = do
  let from = pos + length key
  rest ← get_from from input
  to ← find_by ends_integer rest
  clean ← get_range from (from + to) input
  int ← from_str bound clean
  some (int, record { start = from; stop = from + to })

pub get_from-key : (p key t : Str) → get_from (length p + length key) (p ++ (key ++ t)) ≡ some t
get_from-key p key t =
    rw (← append_assoc p key t, ← length-append p key) (get_from-append (p ++ key) t)

get_range-key :
    (p key d t : Str)
    → get_range (length p + length key) (length p + length key + length d) (p ++ (key ++ (d ++ t)))
      ≡ some d
get_range-key p key d t =
    rw (← append_assoc p key (d ++ t), ← length-append p key) (get_range-append (p ++ key) d t)

pub find_integer-scanned :
    (bound : ℕ) (input key : Str) (pos : ℕ)
    → find input key ≡ some pos
    → find_integer bound input key ≡ scanned bound input key pos
unfolding find_integer
find_integer-scanned bound input key pos e = rw e

module _ (bound : ℕ) (p key d t : Str) where
  pub scanned-split :
      All (λ c. ends_integer c ≡ false) d
      → find_by ends_integer t ≡ some 0
      → scanned bound (p ++ (key ++ (d ++ t))) key (length p) ≡ (
          from_str bound d >>= λ n.
          some
            (n, record { start = length p + length key; stop = length p + length key + length d }))
  scanned-split no_end ended = rw (
    get_from-key p key (d ++ t),
    find_by-append ends_integer d t no_end ended,
    get_range-key p key d t,
  )

module _ (bound : ℕ) (key : Str) (n : ℕ) (r : Range) where
  -- A number that stands so is found.
  pub Found-find_integer :
      (input : Str) → Found bound input key n r → find_integer bound input key ≡ some (n, r)
  Found-find_integer input f =
      find_integer-scanned bound input key (length f.before) f.first
      ∙ ap (λ s. scanned bound s key (length f.before)) f.split
      ∙ scanned-split bound f.before key f.digits f.after f.no_end f.ended
      ∙ rw f.value (ground (arith, f.start, f.stop))

  scanned-Found :
      (input p d t : Str)
      → input ≡ p ++ (key ++ (d ++ t))
      → find input key ≡ some (length p)
      → All (λ c. ends_integer c ≡ false) d
      → find_by ends_integer t ≡ some 0
      → scanned bound (p ++ (key ++ (d ++ t))) key (length p) ≡ some (n, r)
      → Found bound input key n r
  scanned-Found input p d t split first no_end ended h =
      let (m, value, e) =
        >>=-eq-some (from_str bound d) _ (sym (scanned-split bound p key d t no_end ended) ∙ h) in
      record {
        before = p;
        digits = d;
        after = t;
        split = split;
        first = first;
        start = ground arith;
        stop = ground arith;
        no_end = no_end;
        ended = ended;
        value = ground arith;
      }

  scanned_ends :
      (p rest : Str)
      → scanned bound (p ++ (key ++ rest)) key (length p) ≡ some (n, r)
      → (to : ℕ) × (find_by ends_integer rest ≡ some to)
  scanned_ends p rest h = elim (Option-cases (find_by ends_integer rest)) [
    | inl e ↦ cc (rw (get_from-key p key rest, e) at h)
    | inr found ↦ found
  ]

  scanned_rest-Found :
      (input p rest : Str)
      → input ≡ p ++ (key ++ rest)
      → find input key ≡ some (length p)
      → scanned bound (p ++ (key ++ rest)) key (length p) ≡ some (n, r)
      → Found bound input key n r
  scanned_rest-Found input p rest split first h =
      let (to, e) = scanned_ends p rest h in
      let (d, t, cut, len, no_end, ended) = find_by-split ends_integer rest to e in
      scanned-Found input p d t (split ∙ ap (λ s. p ++ (key ++ s)) cut) first no_end ended
        (ap (λ s. scanned bound (p ++ (key ++ s)) key (length p)) (sym cut) ∙ h)

  find_integer_at :
      (input : Str)
      → find_integer bound input key ≡ some (n, r)
      → (pos : ℕ) × (find input key ≡ some pos)
  unfolding find_integer
  find_integer_at input h = elim (Option-cases (find input key)) [
    | inl e ↦ cc (rw e at h)
    | inr found ↦ found
  ]

  -- Whatever is found stands so.
  pub find_integer-Found :
      (input : Str) → find_integer bound input key ≡ some (n, r) → Found bound input key n r
  find_integer-Found input h =
      let (pos, at_pos) = find_integer_at input h in
      let (p, rest, split, len) = find-split input key pos at_pos in
      scanned_rest-Found input p rest split (at_pos ∙ ap some (sym len)) (
        ap (λ i. scanned bound (p ++ (key ++ rest)) key i) len
        ∙ ap (λ s. scanned bound s key pos) (sym split)
        ∙ sym (find_integer-scanned bound input key pos at_pos)
        ∙ h)
