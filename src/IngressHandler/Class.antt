-- ===== src/IngressHandler/Class.antt =====
-- Which ingresses are ours, and whether they redirect to https.
use minke.Base.{
  Bool, true, false, ◌&&◌, not, [], ◌∷◌, Option, none, some, if◌then◌else◌, ◌==◌, List_ℕ-eq, ◌≡◌,
  ◌↔◌, refl, arith, sym, ◌∙◌, ==_iff, eq_refl, ◌⊎◌, inl, inr,
}
use minke.GoText.{GoString}
use minke.GoMap.{GoMap, lookup, IsMap}
use minke.Kube.{KubeIngress}
use minke.IngressHandler.{Settings, class_of, our_class, redir_ann, parsed_redir, redirect_of}

-- The test, on the controller's class and the ingress's.
abbrev same_class : GoString → GoString → Bool
same_class own class =
    if not (own == []) && not (class == own)
    then false
    else if own == [] && not (class == [])
    then false
    else true

same_class_cases :
    (empty same unset : Bool)
    → (if not empty && not same then false else if empty && not unset then false else true) ≡ true
    → (same ≡ true) ⊎ ((empty ≡ true) × (unset ≡ true))
same_class_cases empty same unset h = ground arith

same_class_self :
    (empty same : Bool)
    → same ≡ true
    → (if not empty && not same then false else if empty && not empty then false else true) ≡ true
same_class_self empty same h = ground arith

same_class_iff : (own class : GoString) → (same_class own class ≡ true) ↔ (class ≡ own)
same_class_iff own class = (to, λ e. rw e (same_class_self (own == []) (own == own) (eq_refl own)))
  where
    to : same_class own class ≡ true → class ≡ own
    to h = elim (same_class_cases (own == []) (class == own) (class == []) h) [
      | inl t ↦ (==_iff class own).0 t
      | inr (a, b) ↦ (==_iff class []).0 b ∙ sym ((==_iff own []).0 a)
    ]

-- An ingress is ours exactly when its class is the controller's, an empty class included.
pub our_class_iff :
    (c : Settings) (ing : KubeIngress) → (our_class c ing ≡ true) ↔ (class_of ing ≡ c.class)
unfolding our_class
our_class_iff c ing = same_class_iff c.class (class_of ing)

-- The value of the annotation, or else the default.
abbrev pub redirect_setting : Bool → Option GoString → Bool
redirect_setting d none = d
redirect_setting d (some v) = parsed_redir v

-- If each annotation has one value, then in whatever order the loop takes them its result is the
-- value of the annotation that it looks for, false where that value does not parse, and the
-- default where there is none.
pub redirect_of_lem :
    (d : Bool) (anns : GoMap GoString GoString)
    → IsMap anns
    → redirect_of d anns ≡ redirect_setting d (lookup redir_ann anns)
unfolding redirect_of lookup
redirect_of_lem d [] m = refl
redirect_of_lem d ((k, v) ∷ anns) m =
    ground (arith, redirect_of_lem (if k == redir_ann then parsed_redir v else d) anns m.1)
