-- ===== src/Text/Number.antt =====
-- `FromStr` and `Display` of the unsigned machine integers: Rust's parser takes one `+`, wants a
-- digit, and refuses a value that does not fit. `bound` is 2 ^ w.
use discord_gateway_proxy.Prelude.{
  ℕ, zero, suc, ◌+◌, ◌-◌, ◌*◌, ◌/◌, ◌%◌, ◌≤◌, ◌<◌, ◌≡◌, refl, Bool, ◌&&◌, Option, none, some, [],
  ◌∷◌, ◌++◌, arith, Str, ltb, leb, nat_beq, if◌then◌else◌, is_empty, ◌>>=◌, All, All-append,
  Option-cases, Bool-cases, inl, inr, ◌∙◌, ap, ltb→lt, true, false,
}

unfoldable pub is_digit : ℕ → Bool
is_digit c = leb b'0' c && leb c b'9'

-- One step of the parser: `acc * 10 + digit`, checked.
unfoldable pub digit_of : ℕ → ℕ → ℕ → Option ℕ
unfolding is_digit
digit_of bound acc c =
    if is_digit c
    then (let n = acc * 10 + (c - 48) in if ltb n bound then some n else none)
    else none

unfoldable pub parse_digits : ℕ → ℕ → Str → Option ℕ
parse_digits bound acc [] = some acc
parse_digits bound acc (c ∷ s) = digit_of bound acc c >>= λ n. parse_digits bound n s

unfoldable pub from_str : ℕ → Str → Option ℕ
unfolding parse_digits digit_of
from_str bound [] = none
from_str bound (c ∷ s) =
    if nat_beq c b'+'
    then (if is_empty s then none else parse_digits bound 0 s)
    else parse_digits bound 0 (c ∷ s)

-- `fuel` counts digits; a number has at most as many digits as its successor counts.
unfoldable pub print_digits : ℕ → ℕ → Str
print_digits zero n = []
print_digits (suc fuel) n =
    let front = print_digits fuel (n / 10) in
    if ltb n 10 then (n + 48) ∷ [] else front ++ (n % 10 + 48) ∷ []

-- `format!("{n}")`, and `itoa::Buffer::format`.
unfoldable pub to_string : ℕ → Str
unfolding print_digits
to_string n = print_digits (suc n) n

pub parse_digits-append :
    (bound acc : ℕ) (s t : Str)
    → parse_digits bound acc (s ++ t) ≡ (parse_digits bound acc s >>= λ n. parse_digits bound n t)
unfolding parse_digits
parse_digits-append bound acc [] t = refl
parse_digits-append bound acc (c ∷ s) t = elim (Option-cases (digit_of bound acc c)) [
  | inl e ↦ rw e
  | inr (n, e) ↦ rw e (parse_digits-append bound n s t)
]

digit_of-digit :
    (bound acc d : ℕ)
    → d < 10
    → acc * 10 + d < bound
    → digit_of bound acc (d + 48) ≡ some (acc * 10 + d)
unfolding digit_of
digit_of-digit bound acc d h b = ground arith

digits-zero : (bound acc c : ℕ) → parse_digits bound acc (c ∷ []) ≡ digit_of bound acc c
unfolding parse_digits
digits-zero bound acc c = elim (Option-cases (digit_of bound acc c)) [
  | inl e ↦ rw e
  | inr (n, e) ↦ rw e
]

parse_digits-print_digits :
    (bound fuel n : ℕ) → n < fuel → n < bound → parse_digits bound 0 (print_digits fuel n) ≡ some n
unfolding print_digits
parse_digits-print_digits bound zero n h b = absurd (omega arith)
parse_digits-print_digits bound (suc fuel) n h b = elim (Bool-cases (ltb n 10)) [
  | inl small ↦ rw small (
      digits-zero bound 0 (n + 48)
      ∙ digit_of-digit bound 0 n (ltb→lt n 10 small) (omega arith)
      ∙ ap some (omega arith))
  | inr large ↦ rw large (
      parse_digits-append bound 0 (print_digits fuel (n / 10)) ((n % 10 + 48) ∷ [])
      ∙ rw (parse_digits-print_digits bound fuel (n / 10) (ground arith) (omega arith)) (
          digits-zero bound (n / 10) (n % 10 + 48)
          ∙ digit_of-digit bound (n / 10) (n % 10) (omega arith) (omega arith)
          ∙ ap some (omega arith)))
]

abbrev pub IsDigit : ℕ → Type 0
IsDigit c = (48 ≤ c) × (c ≤ 57)

pub print_digits-IsDigit : (fuel n : ℕ) → All IsDigit (print_digits fuel n)
unfolding print_digits
print_digits-IsDigit zero n = tt
print_digits-IsDigit (suc fuel) n = elim (Bool-cases (ltb n 10)) [
  | inl small ↦ rw small ((omega arith, ltb_bound n small), tt)
  | inr large ↦ rw large (
      All-append IsDigit (print_digits fuel (n / 10)) ((n % 10 + 48) ∷ [])
        (print_digits-IsDigit fuel (n / 10)) ((omega arith, omega arith), tt))
]
  where
    ltb_bound : (k : ℕ) → ltb k 10 ≡ true → k + 48 ≤ 57
    ltb_bound k h = ground arith

pub to_string-IsDigit : (n : ℕ) → All IsDigit (to_string n)
unfolding to_string
to_string-IsDigit n = print_digits-IsDigit (suc n) n

append-nonempty : (s : Str) (c : ℕ) → is_empty (s ++ c ∷ []) ≡ false
append-nonempty [] c = refl
append-nonempty (x ∷ s) c = refl

to_string-nonempty : (n : ℕ) → is_empty (to_string n) ≡ false
unfolding to_string print_digits
to_string-nonempty n = elim (Bool-cases (ltb n 10)) [
  | inl small ↦ rw small
  | inr large ↦ rw large (append-nonempty (print_digits n (n / 10)) (n % 10 + 48))
]

from_str-digits :
    (bound : ℕ) (s : Str)
    → All IsDigit s
    → is_empty s ≡ false
    → from_str bound s ≡ parse_digits bound 0 s
unfolding from_str
from_str-digits bound [] h e = cc
from_str-digits bound (c ∷ s) h e = ground arith

-- What is printed is read back, while it fits the type.
pub from_str-to_string : (bound n : ℕ) → n < bound → from_str bound (to_string n) ≡ some n
unfolding to_string
from_str-to_string bound n b =
    from_str-digits bound (to_string n) (to_string-IsDigit n) (to_string-nonempty n)
    ∙ parse_digits-print_digits bound (suc n) n (omega arith) b

digit_of-lt : (bound acc c n : ℕ) → digit_of bound acc c ≡ some n → n < bound
unfolding digit_of
digit_of-lt bound acc c n h = ground arith

parse_digits-lt :
    (bound acc : ℕ) (s : Str) (n : ℕ) → acc < bound → parse_digits bound acc s ≡ some n → n < bound
unfolding parse_digits
parse_digits-lt bound acc [] n b h = ground arith
parse_digits-lt bound acc (c ∷ s) n b h = elim (Option-cases (digit_of bound acc c)) [
  | inl e ↦ cc (rw e at h)
  | inr (m, e) ↦ parse_digits-lt bound m s n (digit_of-lt bound acc c m e) (rw e at h)
]

-- Whatever is read fits the type.
pub from_str-lt : (bound : ℕ) (s : Str) (n : ℕ) → 0 < bound → from_str bound s ≡ some n → n < bound
unfolding from_str
from_str-lt bound [] n b h = cc
from_str-lt bound (c ∷ s) n b h =
    ground (arith, parse_digits-lt bound 0 s n b, parse_digits-lt bound 0 (c ∷ s) n b)
