-- ===== src/GoMap.antt =====
-- Go's maps, as association lists with one entry for a key. A nil map is the empty one, from which
-- it differs only for a write, and the source makes each map before it writes.
pub mod Laws
use minke.Base.{Option, none, some, List, [], ◌∷◌, Eq, ◌==◌, if◌then◌else◌, Bool, ◌≡◌}

abbrev pub GoMap {ℓ κ} : Type ℓ → Type κ → Type (ℓ ⊔ κ)
GoMap K V = List (K × V)

module _ {ℓ κ} {K : Type ℓ} {V : Type κ} ⦃e : Eq K⦄ where
  -- `v, ok := m[k]`
  unfoldable pub lookup : K → GoMap K V → Option V
  lookup key [] = none
  lookup key ((k, value) ∷ rest) = if k == key then some value else lookup key rest

  -- `m[k] = v`
  unfoldable pub insert : K → V → GoMap K V → GoMap K V
  insert key value [] = (key, value) ∷ []
  insert key value ((k, old) ∷ rest) =
      if k == key then (key, value) ∷ rest else (k, old) ∷ insert key value rest

  -- `for k := range m { m[k] = f(m[k]) }`
  unfoldable pub map_values : (V → V) → GoMap K V → GoMap K V
  map_values f [] = []
  map_values f ((j, v) ∷ m) = (j, f v) ∷ map_values f m

  -- `for k := range m { if p(k) { delete(m, k) } }`
  unfoldable pub delete_if : (K → Bool) → GoMap K V → GoMap K V
  delete_if p [] = []
  delete_if p ((j, v) ∷ m) = if p j then delete_if p m else (j, v) ∷ delete_if p m

  -- `delete(m, k)`
  unfoldable pub delete : K → GoMap K V → GoMap K V
  unfolding delete_if
  delete k m = delete_if (λ j. j == k) m

  -- `for k, v := range m { n[k] = v }`
  unfoldable pub copy : GoMap K V → GoMap K V → GoMap K V
  unfolding insert
  copy [] n = n
  copy ((k, v) ∷ m) n = copy m (insert k v n)

  -- No key has two entries.
  abbrev pub IsMap : GoMap K V → Type (ℓ ⊔ κ)
  IsMap [] = Unit
  IsMap ((k, v) ∷ m) = (lookup k m ≡ none) × IsMap m
