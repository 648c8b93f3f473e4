-- ===== src/Map.antt =====
-- `std::collections::HashMap` as an association list, with the operations the program uses.
-- The order of iteration is that of the list; no theorem depends on it.
use discord_gateway_proxy.Prelude.{
  ◌≡◌, refl, Bool, true, false, Option, none, some, List, [], ◌∷◌, arith, PartialEq, ◌==◌,
  if◌then◌else◌, Bool-cases, inl, inr, ap,
}

abbrev pub Map {ℓ κ} : Type ℓ → Type κ → Type (ℓ ⊔ κ)
Map K V = List (K × V)

module _ {ℓ κ} {K : Type ℓ} {V : Type κ} ⦃e : PartialEq K⦄ where
  unfoldable pub get : Map K V → K → Option V
  get [] k = none
  get ((j, v) ∷ m) k = if j == k then some v else get m k

  unfoldable pub remove : Map K V → K → Map K V
  remove [] k = []
  remove ((j, v) ∷ m) k = let rest = remove m k in if j == k then rest else (j, v) ∷ rest

  unfoldable pub insert : Map K V → K → V → Map K V
  unfolding remove
  insert m k v = (k, v) ∷ remove m k

  -- `retain`: the entries that pass the test.
  unfoldable pub retain : (K → V → Bool) → Map K V → Map K V
  retain p [] = []
  retain p ((j, v) ∷ m) = let rest = retain p m in if p j v then (j, v) ∷ rest else rest

  -- A loop over `iter_mut` that rewrites each value.
  unfoldable pub map_values : (K → V → V) → Map K V → Map K V
  map_values f [] = []
  map_values f ((j, v) ∷ m) = (j, f j v) ∷ map_values f m

  unfoldable pub contains_key : Map K V → K → Bool
  contains_key [] k = false
  contains_key ((j, v) ∷ m) k = if j == k then true else contains_key m k

  -- No key stands twice.
  abbrev pub Distinct : Map K V → Type κ
  Distinct [] = Unit
  Distinct ((j, v) ∷ m) = (get m j ≡ none) × Distinct m

  pub get-remove : (m : Map K V) (k j : K) → get (remove m k) j ≡ (if k == j then none else get m j)
  unfolding get remove
  get-remove [] k j = ground arith
  get-remove ((i, v) ∷ m) k j =
      ground (arith, get-remove m k j, e.is_eq_iff i k, e.is_eq_iff i j, e.is_eq_iff k j)

  pub get-insert :
      (m : Map K V) (k j : K) (v : V) → get (insert m k v) j ≡ (if k == j then some v else get m j)
  unfolding get insert
  get-insert m k j v = ground (arith, get-remove m k j, e.is_eq_iff k j)

  pub get-map_values :
      (f : K → V → V) (m : Map K V) (k : K)
      → get (map_values f m) k ≡ elim (get m k) [ none ↦ none | some v ↦ some (f k v) ]
  unfolding get map_values
  get-map_values f [] k = refl
  get-map_values f ((j, v) ∷ m) k = elim (Bool-cases (j == k)) [
    | inl same ↦ rw same (ap (λ i. some (f i v)) ((e.is_eq_iff j k).0 same))
    | inr other ↦ rw other (get-map_values f m k)
  ]

  pub get-retain :
      (p : K → V → Bool) (m : Map K V) (k : K)
      → Distinct m
      → get (retain p m) k
        ≡ elim (get m k) [ none ↦ none | some v ↦ if p k v then some v else none ]
  unfolding get retain
  get-retain p [] k d = refl
  get-retain p ((j, v) ∷ m) k d = ground (arith, get-retain p m k d.1, e.is_eq_iff j k)

  -- What survives a `retain` was there and passes the test.
  pub contains_key-get :
      (m : Map K V) (k : K) → contains_key m k ≡ elim (get m k) [ none ↦ false | some v ↦ true ]
  unfolding get contains_key
  contains_key-get [] k = refl
  contains_key-get ((j, v) ∷ m) k = ground (arith, contains_key-get m k)

  pub remove-Distinct : (m : Map K V) (k : K) → Distinct m → Distinct (remove m k)
  unfolding remove
  remove-Distinct [] k d = d
  remove-Distinct ((j, v) ∷ m) k d = ground (arith, remove-Distinct m k d.1, get-remove m k j)

  pub insert-Distinct : (m : Map K V) (k : K) (v : V) → Distinct m → Distinct (insert m k v)
  unfolding insert
  insert-Distinct m k v d = ground (arith, remove-Distinct m k d, get-remove m k k, e.is_eq_iff k k)

  pub get-retain-none :
      (p : K → V → Bool) (m : Map K V) (k : K) → get m k ≡ none → get (retain p m) k ≡ none
  unfolding get retain
  get-retain-none p [] k h = refl
  get-retain-none p ((j, v) ∷ m) k h = ground (arith, get-retain-none p m k, e.is_eq_iff j k)

  pub retain-Distinct : (p : K → V → Bool) (m : Map K V) → Distinct m → Distinct (retain p m)
  unfolding retain
  retain-Distinct p [] d = d
  retain-Distinct p ((j, v) ∷ m) d =
      ground (arith, retain-Distinct p m d.1, get-retain-none p m j d.0)

  pub map_values-Distinct : (f : K → V → V) (m : Map K V) → Distinct m → Distinct (map_values f m)
  unfolding map_values
  map_values-Distinct f [] d = d
  map_values-Distinct f ((j, v) ∷ m) d =
      ground (arith, map_values-Distinct f m d.1, get-map_values f m j)
