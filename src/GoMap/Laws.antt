-- ===== src/GoMap/Laws.antt =====
-- The map operations seen through `lookup`.
use minke.Base.{
  Option, none, some, [], ◌∷◌, Eq, ◌==◌, if◌then◌else◌, Bool, ◌≡◌, refl, arith, ◌∙◌, ap,
  Option-cases, Bool-cases, inl, inr,
}
use mathlib.Core.Path.{subst}
use minke.GoMap.{GoMap, lookup, insert, map_values, delete_if, delete, copy, IsMap}

-- `o`, or else `d`.
abbrev pub or_else {ℓ} : {A : Type ℓ} → Option A → Option A → Option A
or_else (some a) d = some a
or_else none d = d

-- A value of a map that may be missing.
abbrev pub map_option {ℓ κ} : {A : Type ℓ} {B : Type κ} → (A → B) → Option A → Option B
map_option f (some a) = some (f a)
map_option f none = none

module _ {ℓ κ} {K : Type ℓ} {V : Type κ} ⦃e : Eq K⦄ where
  pub lookup-insert :
      (key other : K) (value : V) (entries : GoMap K V)
      → lookup other (insert key value entries)
        ≡ (if key == other then some value else lookup other entries)
  unfolding lookup insert
  lookup-insert key other value [] = refl
  lookup-insert key other value ((k, old) ∷ rest) =
      ground (arith, lookup-insert key other value rest)

  pub lookup-map_values :
      (f : V → V) (j : K) (m : GoMap K V) → lookup j (map_values f m) ≡ map_option f (lookup j m)
  unfolding lookup map_values
  lookup-map_values f j [] = refl
  lookup-map_values f j ((i, w) ∷ m) = ground (arith, lookup-map_values f j m)

  pub lookup-delete_if :
      (p : K → Bool) (j : K) (m : GoMap K V)
      → lookup j (delete_if p m) ≡ (if p j then none else lookup j m)
  unfolding lookup delete_if
  lookup-delete_if p j [] = ground arith
  lookup-delete_if p j ((i, w) ∷ m) = ground (arith, lookup-delete_if p j m, ap p)

  pub lookup-delete :
      (k j : K) (m : GoMap K V) → lookup j (delete k m) ≡ (if j == k then none else lookup j m)
  unfolding delete
  lookup-delete k j m = lookup-delete_if (λ i. i == k) j m

  pub lookup-copy :
      (j : K) (m n : GoMap K V) → IsMap m → lookup j (copy m n) ≡ or_else (lookup j m) (lookup j n)
  unfolding lookup copy
  lookup-copy j [] n h = refl
  lookup-copy j ((k, v) ∷ m) n h =
      ground (arith, lookup-copy j m (insert k v n) h.1, lookup-insert k j v n)

  pub insert-IsMap : (k : K) (v : V) (m : GoMap K V) → IsMap m → IsMap (insert k v m)
  unfolding insert lookup
  insert-IsMap k v [] h = (refl, tt)
  insert-IsMap k v ((i, w) ∷ m) h = ground (arith, insert-IsMap k v m h.1, lookup-insert k i v m)

  pub map_values-IsMap : (f : V → V) (m : GoMap K V) → IsMap m → IsMap (map_values f m)
  unfolding map_values
  map_values-IsMap f [] h = tt
  map_values-IsMap f ((i, w) ∷ m) h =
      (lookup-map_values f i m ∙ ap (map_option f) h.0, map_values-IsMap f m h.1)

  pub delete_if-IsMap : (p : K → Bool) (m : GoMap K V) → IsMap m → IsMap (delete_if p m)
  unfolding delete_if
  delete_if-IsMap p [] h = tt
  delete_if-IsMap p ((i, w) ∷ m) h = ground (arith, delete_if-IsMap p m h.1, lookup-delete_if p i m)

  pub delete-IsMap : (k : K) (m : GoMap K V) → IsMap m → IsMap (delete k m)
  unfolding delete
  delete-IsMap k m h = delete_if-IsMap (λ i. i == k) m h

  pub copy-IsMap : (m n : GoMap K V) → IsMap n → IsMap (copy m n)
  unfolding copy
  copy-IsMap [] n h = h
  copy-IsMap ((k, v) ∷ m) n h = copy-IsMap m (insert k v n) (insert-IsMap k v n h)

  -- A property of every value.
  abbrev pub AllValues {μ} : (V → Type μ) → GoMap K V → Type (ℓ ⊔ κ ⊔ μ)
  AllValues P m = (k : K) (v : V) → lookup k m ≡ some v → P v

  pub insert-AllValues {μ} :
      (P : V → Type μ) (k : K) (v : V) (m : GoMap K V)
      → P v
      → AllValues P m
      → AllValues P (insert k v m)
  insert-AllValues P k v m p h j w e = elim (Bool-cases (k == j)) [
    | inl same ↦ subst P (ground (arith, lookup-insert k j v m)) p
    | inr other ↦ h j w (ground (arith, lookup-insert k j v m))
  ]

  pub delete_if-AllValues {μ} :
      (P : V → Type μ) (p : K → Bool) (m : GoMap K V) → AllValues P m → AllValues P (delete_if p m)
  delete_if-AllValues P p m h j w e = h j w (ground (arith, lookup-delete_if p j m))

  pub copy-AllValues {μ} :
      (P : V → Type μ) (m n : GoMap K V)
      → IsMap m
      → AllValues P m
      → AllValues P n
      → AllValues P (copy m n)
  copy-AllValues P m n u h k j w e = elim (Option-cases (lookup j m)) [
    | inl missing ↦ k j w (ground (arith, lookup-copy j m n u))
    | inr (w', found) ↦ h j w (ground (arith, lookup-copy j m n u))
  ]
