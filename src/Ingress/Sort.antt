-- ===== src/Ingress/Sort.antt =====
-- What sort.Sort promises, and a sort that keeps the promise.
use mathlib.Core.List.{Permᴰ}
use mathlib.Core.List.Permᴰ
use minke.Base.{
  Bool, false, List, [], ◌∷◌, if◌then◌else◌, ◌≡◌, refl, arith, Bool-cases, inl, inr, All,
  All-filter, filter,
}
use minke.Ingress.{Ingress, IngressHostGroup, less}
use minke.Ingress.Order.{IsStrictWeak, less-IsStrictWeak}

module _ {ℓ} {A : Type ℓ} (lt : A → A → Bool) where
  -- No element is less than one before it.
  abbrev pub Ordered : List A → Type ℓ
  Ordered [] = Unit
  Ordered (x ∷ xs) = All (λ y. lt y x ≡ false) xs × Ordered xs

pub filter-Ordered {ℓ} :
    {A : Type ℓ} (lt : A → A → Bool) (p : A → Bool) (xs : List A)
    → Ordered lt xs
    → Ordered lt (filter p xs)
filter-Ordered lt p [] o = tt
filter-Ordered lt p (x ∷ xs) o =
    ground (arith, filter-Ordered lt p xs o.1, All-filter (λ y. lt y x ≡ false) p xs o.0)

-- The documentation of package sort: the result has the same elements, and is in order. Elements
-- that tie may stand in any order.
pub record SortLaws (sort : (Ingress → Ingress → Bool) → IngressHostGroup → IngressHostGroup)
    : Type 0 where
  pub permutes : (ings : IngressHostGroup) → Permᴰ (sort less ings) ings
  pub orders : (ings : IngressHostGroup) → Ordered less (sort less ings)

module _ {ℓ} {A : Type ℓ} (lt : A → A → Bool) where
  unfoldable pub put : A → List A → List A
  put a [] = a ∷ []
  put a (x ∷ xs) = if lt x a then x ∷ put a xs else a ∷ x ∷ xs

  unfoldable pub insertion_sort : List A → List A
  unfolding put
  insertion_sort [] = []
  insertion_sort (x ∷ xs) = put x (insertion_sort xs)

  put-perm : (a : A) (xs : List A) → Permᴰ (put a xs) (a ∷ xs)
  unfolding put
  put-perm a [] = Permᴰ.refl (a ∷ [])
  put-perm a (x ∷ xs) = elim (Bool-cases (lt x a)) [
    | inl t ↦ rw t (Permᴰ.trans (Permᴰ.cons refl (put-perm a xs)) (Permᴰ.swap refl refl))
    | inr t ↦ rw t (Permᴰ.refl (a ∷ x ∷ xs))
  ]

  insertion_sort-perm : (xs : List A) → Permᴰ (insertion_sort xs) xs
  unfolding insertion_sort
  insertion_sort-perm [] = Permᴰ.refl []
  insertion_sort-perm (x ∷ xs) =
      Permᴰ.trans (put-perm x (insertion_sort xs)) (Permᴰ.cons refl (insertion_sort-perm xs))

  module _ (w : IsStrictWeak lt) where
    All-not-lt :
        (a b : A) (xs : List A)
        → lt b a ≡ false
        → All (λ y. lt y b ≡ false) xs
        → All (λ y. lt y a ≡ false) xs
    All-not-lt a b [] h k = tt
    All-not-lt a b (x ∷ xs) h k = (w.neg_trans a b x h k.0, All-not-lt a b xs h k.1)

    put-All :
        (a b : A) (xs : List A)
        → lt a b ≡ false
        → All (λ y. lt y b ≡ false) xs
        → All (λ y. lt y b ≡ false) (put a xs)
    unfolding put
    put-All a b [] h k = (h, tt)
    put-All a b (x ∷ xs) h k = ground (arith, put-All a b xs h k.1)

    put-Ordered : (a : A) (xs : List A) → Ordered lt xs → Ordered lt (put a xs)
    unfolding put
    put-Ordered a [] o = (tt, tt)
    put-Ordered a (x ∷ xs) o = elim (Bool-cases (lt x a)) [
      | inl t ↦ rw t (put-All a x xs (w.asym x a t) o.0, put-Ordered a xs o.1)
      | inr t ↦ rw t ((t, All-not-lt a x xs t o.0), o)
    ]

    insertion_sort-Ordered : (xs : List A) → Ordered lt (insertion_sort xs)
    unfolding insertion_sort
    insertion_sort-Ordered [] = tt
    insertion_sort-Ordered (x ∷ xs) = put-Ordered x (insertion_sort xs) (insertion_sort-Ordered xs)

-- The promise can be kept.
pub insertion_sort-SortLaws : SortLaws (λ lt. insertion_sort lt)
insertion_sort-SortLaws = record {
  permutes = insertion_sort-perm less;
  orders = insertion_sort-Ordered less less-IsStrictWeak;
}
