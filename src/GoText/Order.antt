-- ===== src/GoText/Order.antt =====
-- The order of strings.
use minke.Base.{◌≡◌, refl, true, false, [], ◌∷◌, arith}
use minke.GoText.{GoString, str_lt}

pub str_lt_asym : (s t : GoString) → str_lt s t ≡ true → str_lt t s ≡ false
unfolding str_lt
str_lt_asym [] [] h = refl
str_lt_asym [] (d ∷ t) h = refl
str_lt_asym (c ∷ s) [] h = cc
str_lt_asym (c ∷ s) (d ∷ t) h = ground (arith, str_lt_asym s t)

-- The negation is transitive.
pub str_lt_neg_trans :
    (s t u : GoString) → str_lt t s ≡ false → str_lt u t ≡ false → str_lt u s ≡ false
unfolding str_lt
str_lt_neg_trans [] [] u h k = k
str_lt_neg_trans [] (d ∷ t) [] h k = refl
str_lt_neg_trans [] (d ∷ t) (e ∷ u) h k = refl
str_lt_neg_trans (c ∷ s) [] u h k = cc
str_lt_neg_trans (c ∷ s) (d ∷ t) [] h k = cc
str_lt_neg_trans (c ∷ s) (d ∷ t) (e ∷ u) h k = ground (arith, str_lt_neg_trans s t u)

-- Strings that are not ordered are equal.
pub str_lt_total : (s t : GoString) → str_lt s t ≡ false → str_lt t s ≡ false → s ≡ t
unfolding str_lt
str_lt_total [] [] h k = refl
str_lt_total [] (d ∷ t) h k = cc
str_lt_total (c ∷ s) [] h k = cc
str_lt_total (c ∷ s) (d ∷ t) h k = ground (arith, str_lt_total s t)
