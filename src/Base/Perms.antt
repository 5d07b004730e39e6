-- ===== src/Base/Perms.antt =====
-- Permutations of lists, with a filter or a property of every element.
use mathlib.Core.Path.{subst, subst₂, ◌≡◌, refl}
use mathlib.Core.Bool.{Bool}
use mathlib.Core.Logic.{inl, inr}
use mathlib.Core.List.{List, [], ◌∷◌, ◌++◌, Permᴰ}
use mathlib.Core.List.Permᴰ
use native.Mathlib.Omega.{arith}
use minke.Base.Tests.{Bool-cases}
use minke.Base.Lists.{All, filter}

-- A permutation keeps what holds of every element.
pub All-perm {ℓ κ} :
    {A : Type ℓ} (P : A → Type κ) {xs ys : List A} → Permᴰ xs ys → All P xs → All P ys
All-perm P Permᴰ.nil h = h
All-perm P (Permᴰ.cons e p) h = (subst P e h.0, All-perm P p h.1)
All-perm P (Permᴰ.swap e f) h = (subst P f h.1.0, (subst P e h.0, h.1.1))
All-perm P (Permᴰ.trans p q) h = All-perm P q (All-perm P p h)

filter_swap {ℓ} :
    {A : Type ℓ} (p : A → Bool) (a b : A) (l : List A)
    → Permᴰ (filter p (a ∷ b ∷ l)) (filter p (b ∷ a ∷ l))
filter_swap p a b l = elim (Bool-cases (p a)) [
  | inl t ↦ elim (Bool-cases (p b)) [
    | inl u ↦ rw (t, u) (Permᴰ.swap refl refl)
    | inr u ↦ rw (t, u) (Permᴰ.refl _)
  ]
  | inr t ↦ rw t (Permᴰ.refl _)
]

filter_cons {ℓ} :
    {A : Type ℓ} (p : A → Bool) (a : A) (xs ys : List A)
    → Permᴰ (filter p xs) (filter p ys)
    → Permᴰ (filter p (a ∷ xs)) (filter p (a ∷ ys))
filter_cons p a xs ys h = elim (Bool-cases (p a)) [
  | inl t ↦ rw t (Permᴰ.cons refl h)
  | inr t ↦ rw t h
]

pub filter-perm {ℓ} :
    {A : Type ℓ} (p : A → Bool) {xs ys : List A} → Permᴰ xs ys → Permᴰ (filter p xs) (filter p ys)
filter-perm p Permᴰ.nil = Permᴰ.nil
filter-perm p (Permᴰ.cons {a} {l₁} {l₂} e q) =
    subst (λ x. Permᴰ (filter p (a ∷ l₁)) (filter p (x ∷ l₂))) e
      (filter_cons p a l₁ l₂ (filter-perm p q))
filter-perm p (Permᴰ.swap {a} {b} {l} e f) =
    subst₂ (λ x y. Permᴰ (filter p (a ∷ b ∷ l)) (filter p (x ∷ y ∷ l))) f e (filter_swap p a b l)
filter-perm p (Permᴰ.trans q r) = Permᴰ.trans (filter-perm p q) (filter-perm p r)

pub filter-append {ℓ} :
    {A : Type ℓ} (p : A → Bool) (xs ys : List A) → filter p (xs ++ ys) ≡ filter p xs ++ filter p ys
filter-append p [] ys = refl
filter-append p (x ∷ xs) ys = ground (arith, filter-append p xs ys)

pub filter-filter {ℓ} :
    {A : Type ℓ} (p : A → Bool) (xs : List A) → filter p (filter p xs) ≡ filter p xs
filter-filter p [] = refl
filter-filter p (x ∷ xs) = ground (arith, filter-filter p xs)
