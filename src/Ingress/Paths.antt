-- ===== src/Ingress/Paths.antt =====
-- Paths by their elements, the parts between slashes.
use minke.Base.{ℕ, List, [], ◌∷◌, ◌++◌, ◌≡◌, ◌≢◌, ◌⊎◌, inl, inr, refl, arith, ap, sym, ◌∙◌, ℕ_eq}
use mathlib.Core.List.{append-nil, append_assoc}
use minke.GoText.{GoString, bytes, split, join}
use minke.GoText.Laws.{join-split, split_cons}

-- The elements of a path.
abbrev pub elements : GoString → List GoString
elements path = split path b'/'

-- The elements of the one path begin those of the other.
abbrev pub ElementPrefix : GoString → GoString → Type 0
ElementPrefix sub path = (rest : List GoString) × (elements path ≡ elements sub ++ rest)

split-append_any :
    (s t : GoString) (sep : ℕ) → split (s ++ sep ∷ t) sep ≡ split s sep ++ split t sep
unfolding split
split-append_any [] t sep = ground arith
split-append_any (c ∷ s) t sep =
    let (p, ps, e) = split_cons s sep in ground (arith, split-append_any s t sep, e)

join-append :
    (xs : List GoString) (y : GoString) (ys : List GoString) (sep : GoString)
    → xs ≢ []
    → join (xs ++ y ∷ ys) sep ≡ join xs sep ++ (sep ++ join (y ∷ ys) sep)
unfolding join
join-append [] y ys sep h = absurd (h refl)
join-append (x ∷ []) y ys sep h = refl
join-append (x ∷ x' ∷ xs) y ys sep h =
    ap (λ t. x ++ (sep ++ t)) (join-append (x' ∷ xs) y ys sep (cc)) ∙ simp append_assoc

-- A path whose elements begin with those of `sub` is `sub`, or goes on from it with a slash.
pub ElementPrefix-cases :
    (sub path : GoString)
    → ElementPrefix sub path
    → (path ≡ sub) ⊎ ((t : GoString) × (path ≡ sub ++ b'/' ∷ t))
ElementPrefix-cases sub path ([], e) = inl (
    sym (join-split path b'/')
    ∙ (ap (λ s. join s (bytes "/")) (e ∙ append-nil (elements sub)) ∙ join-split sub b'/'))
ElementPrefix-cases sub path (y ∷ ys, e) =
    let (p, ps, q) = split_cons sub b'/' in
    inr (
      join (y ∷ ys) (bytes "/"),
      sym (join-split path b'/')
          ∙ (ap (λ s. join s (bytes "/")) e
              ∙ (join-append (elements sub) y ys (bytes "/") (λ z. cc)
                  ∙ ap (λ s. s ++ b'/' ∷ join (y ∷ ys) (bytes "/")) (join-split sub b'/'))),
    )

pub ElementPrefix-self : (sub : GoString) → ElementPrefix sub sub
ElementPrefix-self sub = ([], sym (append-nil (elements sub)))

pub ElementPrefix-append : (sub t : GoString) → ElementPrefix sub (sub ++ b'/' ∷ t)
ElementPrefix-append sub t = (elements t, split-append_any sub t b'/')
