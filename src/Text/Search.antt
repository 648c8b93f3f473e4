-- ===== src/Text/Search.antt =====
-- Searching in a text: `find`, `get`, `split`, `trim_*_matches`, `replace`.
use discord_gateway_proxy.Prelude.{
  ℕ, zero, suc, ◌-◌, Bool, true, false, not, ◌&&◌, ◌||◌, Option, none, some, List, [], ◌∷◌, ◌++◌,
  Str, leb, nat_beq, if◌then◌else◌, length, take, drop, is_empty, filter,
}

-- `str::starts_with`.
unfoldable pub starts_with : Str → Str → Bool
starts_with s [] = true
starts_with [] (k ∷ key) = false
starts_with (c ∷ s) (k ∷ key) = nat_beq c k && starts_with s key

abbrev pub next_index : Option ℕ → Option ℕ
next_index none = none
next_index (some i) = some (suc i)

-- `str::find` with a text: the first position where `key` stands.
unfoldable pub find : Str → Str → Option ℕ
unfolding starts_with
find [] key = if starts_with [] key then some 0 else none
find (c ∷ s) key =
    let rest = next_index (find s key) in if starts_with (c ∷ s) key then some 0 else rest

-- `str::find` with a test on ASCII characters: no byte of a longer character passes it.
unfoldable pub find_by : (ℕ → Bool) → Str → Option ℕ
find_by p [] = none
find_by p (c ∷ s) = let rest = next_index (find_by p s) in if p c then some 0 else rest

-- `str::contains`.
unfoldable pub contains_text : Str → Str → Bool
unfolding find
contains_text s key = elim (find s key) [ none ↦ false | some i ↦ true ]

-- `s.get(from..)`, at a position between characters.
unfoldable pub get_from : ℕ → Str → Option Str
get_from i s = if leb i (length s) then some (drop i s) else none

-- `s.get(from..to)`, at positions between characters.
unfoldable pub get_range : ℕ → ℕ → Str → Option Str
get_range i j s = if leb i j && leb j (length s) then some (take (j - i) (drop i s)) else none

-- `String::replace_range(from..to, with)`. The program calls it with a range of the text.
unfoldable pub replace_range : ℕ → ℕ → Str → Str → Str
replace_range i j new s = take i s ++ (new ++ drop j s)

-- `bytes.get(i)`.
unfoldable pub byte_at : ℕ → Str → Option ℕ
byte_at i [] = none
byte_at zero (c ∷ s) = some c
byte_at (suc i) (c ∷ s) = byte_at i s

-- `char::is_whitespace`: the width in bytes of the white space that the text begins with, or 0.
-- White space is U+0009 to U+000D, U+0020, U+0085, U+00A0, U+1680, U+2000 to U+200A, U+2028,
-- U+2029, U+202F, U+205F and U+3000.
unfoldable pub ascii_whitespace : ℕ → Bool
ascii_whitespace c = (leb 9 c && leb c 13) || nat_beq c 32

unfoldable pub two_byte_whitespace : ℕ → ℕ → Bool
two_byte_whitespace a b = nat_beq a 0xC2 && (nat_beq b 0x85 || nat_beq b 0xA0)

unfoldable pub three_byte_whitespace : ℕ → ℕ → ℕ → Bool
three_byte_whitespace a b c =
    (nat_beq a 0xE1 && (nat_beq b 0x9A && nat_beq c 0x80))
    || (nat_beq a 0xE2
        && ((nat_beq b 0x80
              && ((leb 0x80 c && leb c 0x8A)
                  || (nat_beq c 0xA8 || (nat_beq c 0xA9 || nat_beq c 0xAF))))
            || (nat_beq b 0x81 && nat_beq c 0x9F)))
    || (nat_beq a 0xE3 && (nat_beq b 0x80 && nat_beq c 0x80))

unfoldable pub whitespace_width : Str → ℕ
unfolding ascii_whitespace two_byte_whitespace three_byte_whitespace
whitespace_width [] = 0
whitespace_width (a ∷ []) = if ascii_whitespace a then 1 else 0
whitespace_width (a ∷ b ∷ []) =
    if ascii_whitespace a then 1 else if two_byte_whitespace a b then 2 else 0
whitespace_width (a ∷ b ∷ c ∷ s) =
    if ascii_whitespace a
    then 1
    else if two_byte_whitespace a b
    then 2
    else if three_byte_whitespace a b c
    then 3
    else 0

-- `s.find(|c| !c.is_whitespace())`; `skip` bytes of the character read last are left.
unfoldable pub find_non_whitespace_from : ℕ → Str → Option ℕ
unfolding whitespace_width
find_non_whitespace_from skip [] = none
find_non_whitespace_from (suc skip) (c ∷ s) = next_index (find_non_whitespace_from skip s)
find_non_whitespace_from zero (c ∷ s) = elim (whitespace_width (c ∷ s)) [
  | zero ↦ some 0
  | suc skip ↦ next_index (find_non_whitespace_from skip s)
]

unfoldable pub find_non_whitespace : Str → Option ℕ
unfolding find_non_whitespace_from
find_non_whitespace s = find_non_whitespace_from 0 s

-- `s.find(|c| p(c) || c.is_whitespace())`, `p` a test on ASCII characters.
unfoldable pub find_by_or_whitespace : (ℕ → Bool) → Str → Option ℕ
unfolding whitespace_width
find_by_or_whitespace p [] = none
find_by_or_whitespace p (c ∷ s) =
    let rest = next_index (find_by_or_whitespace p s) in
    if p c || not (nat_beq (whitespace_width (c ∷ s)) 0) then some 0 else rest

-- `s.split(sep)` for an ASCII character: always at least one part.
abbrev pub add_to_head : ℕ → List Str → List Str
add_to_head c [] = (c ∷ []) ∷ []
add_to_head c (p ∷ ps) = (c ∷ p) ∷ ps

unfoldable pub split : ℕ → Str → List Str
split sep [] = [] ∷ []
split sep (c ∷ s) =
    let rest = split sep s in if nat_beq c sep then [] ∷ rest else add_to_head c rest

-- `s.split_once(sep)`.
abbrev pub add_to_front : ℕ → Option (Str × Str) → Option (Str × Str)
add_to_front c none = none
add_to_front c (some (a, b)) = some (c ∷ a, b)

unfoldable pub split_once : ℕ → Str → Option (Str × Str)
split_once sep [] = none
split_once sep (c ∷ s) =
    let rest = add_to_front c (split_once sep s) in if nat_beq c sep then some ([], s) else rest

-- `s.trim_start_matches(c)` and `s.trim_end_matches(c)`.
unfoldable pub trim_start_matches : ℕ → Str → Str
trim_start_matches t [] = []
trim_start_matches t (c ∷ s) =
    let rest = trim_start_matches t s in if nat_beq c t then rest else c ∷ s

unfoldable pub trim_end_matches : ℕ → Str → Str
trim_end_matches t [] = []
trim_end_matches t (c ∷ s) =
    let rest = trim_end_matches t s in if nat_beq c t && is_empty rest then [] else c ∷ rest

-- `s.replace(key, new)`, `key` not empty: left to right, with no overlap. `skip` bytes of a match
-- are left.
unfoldable pub replace_from : ℕ → Str → Str → Str → Str
unfolding starts_with
replace_from skip [] key new = []
replace_from (suc skip) (c ∷ s) key new = replace_from skip s key new
replace_from zero (c ∷ s) key new =
    let other = c ∷ replace_from 0 s key new in
    let same = new ++ replace_from (length key - 1) s key new in
    if starts_with (c ∷ s) key then same else other

unfoldable pub replace : Str → Str → Str → Str
unfolding replace_from
replace s key new = replace_from 0 s key new

-- `s.split_whitespace()`: the runs between white space that are not empty.
unfoldable pub split_whitespace_from : ℕ → Str → List Str
unfolding whitespace_width
split_whitespace_from skip [] = [] ∷ []
split_whitespace_from (suc skip) (c ∷ s) = split_whitespace_from skip s
split_whitespace_from zero (c ∷ s) = elim (whitespace_width (c ∷ s)) [
  | zero ↦ add_to_head c (split_whitespace_from 0 s)
  | suc skip ↦ [] ∷ split_whitespace_from skip s
]

unfoldable pub split_whitespace : Str → List Str
unfolding split_whitespace_from filter
split_whitespace s = filter (λ w. not (is_empty w)) (split_whitespace_from 0 s)

-- `iter.last().unwrap_or(d)`.
unfoldable pub last_or {ℓ} : {A : Type ℓ} → A → List A → A
last_or d [] = d
last_or d (x ∷ xs) = last_or x xs
