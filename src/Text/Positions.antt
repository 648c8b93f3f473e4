-- ===== src/Text/Positions.antt =====
-- Where a search stops: the text before, the key, and the text after.
use mathlib.Core.List.{append_assoc}
use discord_gateway_proxy.Prelude.{
  ℕ, zero, suc, ◌+◌, ◌-◌, ◌≤◌, ◌≡◌, refl, sym, ap, ◌∙◌, Bool, true, false, ◌&&◌, some, List, [],
  ◌∷◌, ◌++◌, arith, Str, nat_beq, length, take, drop, All, Bool-cases, Option-cases, inl, inr,
  length-append, leb, drop-drop,
}
use discord_gateway_proxy.Text.Search.{
  starts_with, find, find_by, get_from, get_range, next_index, replace_range,
}

module _ {ℓ} {A : Type ℓ} where
  pub take-length : (xs ys : List A) → take (length xs) (xs ++ ys) ≡ xs
  take-length [] ys = refl
  take-length (x ∷ xs) ys = rw (take-length xs ys)

  pub drop-length : (xs ys : List A) → drop (length xs) (xs ++ ys) ≡ ys
  drop-length [] ys = refl
  drop-length (x ∷ xs) ys = drop-length xs ys

  pub take-append-drop : (n : ℕ) (xs : List A) → take n xs ++ drop n xs ≡ xs
  take-append-drop zero xs = refl
  take-append-drop (suc n) [] = refl
  take-append-drop (suc n) (x ∷ xs) = rw (take-append-drop n xs)

  pub length-take_le : (n : ℕ) (xs : List A) → n ≤ length xs → length (take n xs) ≡ n
  length-take_le zero xs h = refl
  length-take_le (suc n) [] h = absurd (omega arith)
  length-take_le (suc n) (x ∷ xs) h = omega (arith, length-take_le n xs)

starts_with-append_key : (key rest : Str) → starts_with (key ++ rest) key ≡ true
unfolding starts_with
starts_with-append_key [] rest = refl
starts_with-append_key (k ∷ key) rest = ground (arith, starts_with-append_key key rest)

-- Whether a text begins with the key depends on as many bytes as the key has.
starts_with-append :
    (s key rest : Str) → length key ≤ length s → starts_with (s ++ rest) key ≡ starts_with s key
unfolding starts_with
starts_with-append s [] rest h = refl
starts_with-append [] (k ∷ key) rest h = absurd (omega arith)
starts_with-append (c ∷ s) (k ∷ key) rest h =
    ap (λ b. nat_beq c k && b) (starts_with-append s key rest (omega arith))

find-starts_with : (s key : Str) → starts_with s key ≡ true → find s key ≡ some 0
unfolding find
find-starts_with [] key h = rw h
find-starts_with (c ∷ s) key h = rw h

find-cons :
    (c : ℕ) (s key : Str)
    → starts_with (c ∷ s) key ≡ false
    → find (c ∷ s) key ≡ next_index (find s key)
unfolding find
find-cons c s key h = rw h

find-cons_suc :
    (c i : ℕ) (s key : Str)
    → find (c ∷ s) key ≡ some (suc i)
    → (starts_with (c ∷ s) key ≡ false) × (find s key ≡ some i)
unfolding find
find-cons_suc c i s key h = ground arith

-- The first occurrence of a key does not move when the text after it changes.
pub find_stable :
    (p key r r' : Str)
    → find (p ++ (key ++ r)) key ≡ some (length p)
    → find (p ++ (key ++ r')) key ≡ some (length p)
find_stable [] key r r' h = find-starts_with (key ++ r') key (starts_with-append_key key r')
find_stable (c ∷ p) key r r' h =
    let (miss, found) = find-cons_suc c (length p) (p ++ (key ++ r)) key h in
    find-cons c (p ++ (key ++ r')) key (same miss) ∙ ap next_index (find_stable p key r r' found)
  where
    room : length key ≤ suc (length (p ++ key))
    room = omega (arith, length-append p key)

    same :
        starts_with (c ∷ (p ++ (key ++ r))) key ≡ false
        → starts_with (c ∷ (p ++ (key ++ r'))) key ≡ false
    same miss = rw (← append_assoc p key r') (
        starts_with-append (c ∷ (p ++ key)) key r' room
        ∙ sym (starts_with-append (c ∷ (p ++ key)) key r room)
        ∙ rw (append_assoc p key r) miss)

starts_with-split : (s key : Str) → starts_with s key ≡ true → (r : Str) × (s ≡ key ++ r)
unfolding starts_with
starts_with-split s [] h = (s, refl)
starts_with-split [] (k ∷ key) h = cc
starts_with-split (c ∷ s) (k ∷ key) h =
    let (r, e) = starts_with-split s key (ground arith) in (r, ground arith)

-- Where a search finds the key, the key stands.
pub find-split :
    (s key : Str) (i : ℕ)
    → find s key ≡ some i
    → (p r : Str) × (s ≡ p ++ (key ++ r)) × (length p ≡ i)
unfolding find
find-split [] key i h = elim (Bool-cases (starts_with [] key)) [
  | inl e ↦ let (r, split) = starts_with-split [] key e in ([], r, split, ground arith)
  | inr e ↦ cc (rw e at h)
]
find-split (c ∷ s) key i h = elim (Bool-cases (starts_with (c ∷ s) key)) [
  | inl e ↦ let (r, split) = starts_with-split (c ∷ s) key e in ([], r, split, ground arith)
  | inr e ↦ elim (Option-cases (find s key)) [
    | inl n ↦ cc (rw (e, n) at h)
    | inr (j, at_j) ↦
        let (p, r, split, len) = find-split s key j at_j in
        (c ∷ p, r, ap (◌∷◌ c) split, ground arith)
  ]
]

pub find_by-split :
    (p : ℕ → Bool) (s : Str) (i : ℕ)
    → find_by p s ≡ some i
    → (d t : Str) × (s ≡ d ++ t)
      × (length d ≡ i)
      × All (λ c. p c ≡ false) d
      × (find_by p t ≡ some 0)
unfolding find_by
find_by-split p [] i h = cc
find_by-split p (c ∷ s) i h = elim (Bool-cases (p c)) [
  | inl e ↦ ([], c ∷ s, refl, ground arith, tt, rw e)
  | inr e ↦ elim (Option-cases (find_by p s)) [
    | inl n ↦ cc (rw (e, n) at h)
    | inr (j, at_j) ↦
        let (d, t, split, len, none_before, ends) = find_by-split p s j at_j in
        (c ∷ d, t, ap (◌∷◌ c) split, ground arith, (e, none_before), ends)
  ]
]

pub find_by-append :
    (p : ℕ → Bool) (d t : Str)
    → All (λ c. p c ≡ false) d
    → find_by p t ≡ some 0
    → find_by p (d ++ t) ≡ some (length d)
unfolding find_by
find_by-append p [] t h e = e
find_by-append p (c ∷ d) t h e = rw (h.0, find_by-append p d t h.1 e)

pub get_from-append : (p t : Str) → get_from (length p) (p ++ t) ≡ some t
unfolding get_from
get_from-append p t = rw (fits, drop-length p t)
  where
    fits : leb (length p) (length (p ++ t)) ≡ true
    fits = ground (arith, length-append p t)

pub get_range-append :
    (p d t : Str) → get_range (length p) (length p + length d) (p ++ (d ++ t)) ≡ some d
unfolding get_range
get_range-append p d t = rw (ordered, fits, drop-length p (d ++ t)) (ap some middle)
  where
    ordered : leb (length p) (length p + length d) ≡ true
    ordered = ground arith

    fits : leb (length p + length d) (length (p ++ (d ++ t))) ≡ true
    fits = ground (arith, length-append p (d ++ t), length-append d t)

    middle : take (length p + length d - length p) (d ++ t) ≡ d
    middle = ap (λ k. take k (d ++ t)) (omega arith) ∙ take-length d t

pub replace_range-append :
    (p d t new : Str)
    → replace_range (length p) (length p + length d) new (p ++ (d ++ t)) ≡ p ++ (new ++ t)
unfolding replace_range
replace_range-append p d t new = rw (
  take-length p (d ++ t),
  ← drop-drop (length d) (length p) (p ++ (d ++ t)),
  drop-length p (d ++ t),
  drop-length d t,
)
