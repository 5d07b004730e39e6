-- ===== src/Ingress/Prefix.antt =====
-- Which paths the Prefix rules and the glob rules match, by the elements of the paths.
use mathlib.Core.List.{append-nil}
use minke.Base.{
  ◌-◌, ◌<◌, true, false, [], ◌∷◌, ◌++◌, ℕ_eq, List_ℕ-eq, length, take, ◌≡◌, ◌≢◌, ◌⊎◌, inl, inr,
  refl, arith, ap, sym, ◌∙◌, length-append, ◌↔◌, ==_iff, eq_refl,
}
use minke.GoText.{GoString, bytes, has_suffix}
use minke.Http.{Request}
use minke.Panic.{ret}
use minke.Ingress.{
  glob, prefix, IngressRule, match_under, glob_sub_path, match_glob, match_path, match_rule,
}
use minke.Ingress.Paths.{
  ElementPrefix, ElementPrefix-cases, ElementPrefix-self, ElementPrefix-append,
}
use minke.Ingress.Rule.{measure, match_under-append, rest_match, under_cases, result_or}

-- The host of a rule allows a request.
abbrev pub AllowsHost : IngressRule → Request → Type 0
AllowsHost rule r = (rule.host ≡ []) ⊎ (rule.host ≡ r.host)

measure_of_host :
    (rule : IngressRule) (r : Request)
    → AllowsHost rule r
    → measure rule r ≡ result_or (0, false) (match_path rule.path_type rule r.url.path)
unfolding measure match_rule
measure_of_host rule r h = ground arith

-- Below a path that is neither empty nor "/", `match_under` matches what goes on by whole elements.
match_under_iff :
    (sub path : GoString)
    → sub ≢ []
    → sub ≢ bytes "/"
    → (0 < (result_or (0, false) (match_under sub path)).0) ↔ ElementPrefix sub path
match_under_iff sub path ne root = (to, from)
  where
    go : (t : GoString) → path ≡ sub ++ t → 0 < (rest_match sub t).0 → ElementPrefix sub path
    go [] e h = rw (e, append-nil) (ElementPrefix-self sub)
    go (c ∷ t) e h =
        let slash : c ≡ b'/' = ground (arith, ==_iff sub (bytes "/")) in
        rw (e, slash) (ElementPrefix-append sub t)

    to : 0 < (result_or (0, false) (match_under sub path)).0 → ElementPrefix sub path
    to h = elim (under_cases sub path) [
      | inl e ↦ absurd (ground arith)
      | inr (t, e, q) ↦ go t e (ground arith)
    ]

    pos : (s : GoString) → s ≢ [] → 0 < length s
    pos [] k = absurd (k refl)
    pos (c ∷ s) k = omega arith

    from : ElementPrefix sub path → 0 < (result_or (0, false) (match_under sub path)).0
    from p = elim (ElementPrefix-cases sub path p) [
      | inl e ↦
          let q : match_under sub sub ≡ ret (rest_match sub []) =
            ap (match_under sub) (sym (append-nil sub)) ∙ match_under-append sub [] in
          rw (e, q) (pos sub ne)
      | inr (t, e) ↦ rw (e, match_under-append sub (b'/' ∷ t)) (ground (arith, pos sub ne))
    ]

-- A Prefix rule whose path is neither empty nor "/" matches the requests for its host whose path
-- begins with the elements of the rule's path, and no other request for its host.
pub prefix_iff :
    (rule : IngressRule) (r : Request)
    → rule.path_type ≡ prefix
    → AllowsHost rule r
    → rule.path ≢ []
    → rule.path ≢ bytes "/"
    → (0 < (measure rule r).0) ↔ ElementPrefix rule.path r.url.path
unfolding match_path
prefix_iff rule r pt h ne root =
    rw (measure_of_host rule r h, pt, match_path) (match_under_iff rule.path r.url.path ne root)

has_suffix-append : (p s : GoString) → has_suffix (p ++ s) s ≡ true
unfolding has_suffix
has_suffix-append [] [] = ground arith
has_suffix-append [] (c ∷ s) = ground (arith, eq_refl (c ∷ s))
has_suffix-append (c ∷ p) s = ground (arith, has_suffix-append p s)

take-append : (p s : GoString) → take (length p) (p ++ s) ≡ p
take-append [] [] = refl
take-append [] (c ∷ s) = refl
take-append (c ∷ p) s = ap (◌∷◌ c) (take-append p s)

glob_sub_path-append : (p : GoString) → p ≢ [] → glob_sub_path (p ++ bytes "/*") ≡ p
unfolding glob_sub_path
glob_sub_path-append p ne =
    let e : length (p ++ bytes "/*") - 2 ≡ length p = omega (arith, length-append p (bytes "/*")) in
    rw (e, take-append p (bytes "/*")) (ground arith)

-- A glob rule with the path p/*, where p is neither empty nor "/", matches the requests for its
-- host whose path begins with the elements of p, and no other request for its host.
pub glob_iff :
    (rule : IngressRule) (r : Request) (p : GoString)
    → rule.path_type ≡ glob
    → AllowsHost rule r
    → rule.path ≡ p ++ bytes "/*"
    → p ≢ []
    → p ≢ bytes "/"
    → (0 < (measure rule r).0) ↔ ElementPrefix p r.url.path
unfolding match_path match_glob
glob_iff rule r p pt h e ne root =
    rw
      (
        measure_of_host rule r h,
        pt,
        match_path,
        e,
        has_suffix-append p (bytes "/*"),
        glob_sub_path-append p ne,
      )
      (match_under_iff p r.url.path ne root)
