-- ===== src/IngressHandler/Rules.antt =====
-- What the paths of a spec are turned into.
use minke.Base.{
  ℕ, ◌-◌, ◌<◌, List, [], ◌∷◌, ◌++◌, Option, none, some, ◌==◌, ℕ_eq, List_ℕ-eq, length, take, ◌≡◌,
  ◌≢◌, arith, sym, ◌∙◌, Option-cases, Bool-cases, inl, inr, ==_iff,
}
use mathlib.Core.List.{append-nil, append_assoc}
use mathlib.Core.Path.{subst}
use minke.GoText.{GoString, bytes}
use minke.Kube.{HttpIngressPath}
use minke.Ingress.{PathType, glob, prefix, exact, re2, Regexp, IngressRule}
use minke.IngressHandler.{
  Compiled, plain, or_text, trim_slash, anchored, compile_re, compile_path, rule_of, add_paths,
}

-- A rule that is well made: it has a path, and its expression if it is of type re2.
pub record IsSound (c : Compiled) : Type 0 where
  pub has_path : c.path ≢ []
  pub has_re : c.path_type ≡ re2 → c.re ≢ none

or_text-ne-nil : (path d : GoString) → d ≢ [] → or_text path d ≢ []
or_text-ne-nil path d h = ground arith

take-ne-nil : (n : ℕ) (s : GoString) → 1 < length s → take (length s - 1) s ≢ []
take-ne-nil n [] h = absurd (omega arith)
take-ne-nil n (c ∷ []) h = absurd (omega arith)
take-ne-nil n (c ∷ d ∷ s) h = ground arith

trim_slash-ne-nil : (path : GoString) → path ≢ [] → trim_slash path ≢ []
unfolding trim_slash
trim_slash-ne-nil path h = ground (arith, take-ne-nil 0 path)

anchored-ne-nil : (path : GoString) → path ≢ [] → anchored path ≢ []
unfolding anchored
anchored-ne-nil path h = ground arith

module _ (compile : GoString → Option Regexp) where
  compile_re-IsSound :
      (path : GoString) (c : Compiled) → path ≢ [] → compile_re compile path ≡ some c → IsSound c
  unfolding compile_re
  compile_re-IsSound path c h e = record { has_path = ground arith; has_re = λ q. ground arith }

  plain-IsSound :
      (pt : PathType) (path : GoString) (c : Compiled)
      → pt ≢ re2
      → path ≢ []
      → plain pt path ≡ some c
      → IsSound c
  plain-IsSound pt path c h k e =
      let made : Compiled = record { path_type = pt; path = path; re = none } in
      let same : made ≡ c = cc in
      subst IsSound same (record { has_path = k; has_re = λ q. absurd (h q) })

  re-IsSound :
      (path : GoString) (c : Compiled)
      → compile_re compile (anchored (or_text path (bytes "/"))) ≡ some c
      → IsSound c
  re-IsSound path c e =
      compile_re-IsSound _ c (anchored-ne-nil _ (or_text-ne-nil path (bytes "/") (λ q. cc))) e

  typed-IsSound :
      (pt path : GoString) (c : Compiled) → compile_path compile (some pt) path ≡ some c → IsSound c
  unfolding compile_path
  typed-IsSound pt path c e = elim (Bool-cases (pt == bytes "Prefix")) [
    | inl t ↦
        plain-IsSound prefix _ c (λ q. cc)
          (trim_slash-ne-nil _ (or_text-ne-nil path (bytes "/") (λ q. cc))) (rw t at e)
    | inr t ↦ elim (Bool-cases (pt == bytes "Exact")) [
      | inl u ↦
          plain-IsSound exact _ c (λ q. cc) (or_text-ne-nil path (bytes "/") (λ q. cc))
            (rw (t, u) at e)
      | inr u ↦ elim (Bool-cases (pt == bytes "ImplementationSpecific")) [
        | inl v ↦ re-IsSound path c (rw (t, u, v) at e)
        | inr v ↦ elim (Bool-cases (pt == bytes "re")) [
          | inl w ↦ re-IsSound path c (rw (t, u, v, w) at e)
          | inr w ↦ elim (Bool-cases (pt == [])) [
            | inl x ↦
                plain-IsSound glob _ c (λ q. cc) (or_text-ne-nil path (bytes "/*") (λ q. cc))
                  (rw (t, u, v, w, x) at e)
            | inr x ↦ let none_is : none ≡ some c = rw (t, u, v, w, x) at e in cc
          ]
        ]
      ]
    ]
  ]

  -- If a path of a spec makes a rule, the rule has a path that is not empty, and its expression if it
  -- is of type re2.
  pub compile_path-IsSound :
      (pt : Option GoString) (path : GoString) (c : Compiled)
      → compile_path compile pt path ≡ some c
      → IsSound c
  unfolding compile_path
  compile_path-IsSound none path c e = elim (Bool-cases (path == [])) [
    | inl t ↦ plain-IsSound prefix _ c (λ q. cc) (λ q. cc) (rw t at e)
    | inr t ↦ plain-IsSound glob path c (λ q. cc) (λ q. ground (arith, ==_iff path [])) (rw t at e)
  ]
  compile_path-IsSound (some pt) path c e = typed-IsSound pt path c e

  -- The rules that the paths of a host make, in their order, without those that are skipped.
  abbrev pub rules_of : GoString → GoString → List HttpIngressPath → List IngressRule
  rules_of namespace host [] = []
  rules_of namespace host (ingp ∷ paths) = elim (compile_path compile ingp.path_type ingp.path) [
    | none ↦ rules_of namespace host paths
    | some c ↦ rule_of compile namespace host ingp c ∷ rules_of namespace host paths
  ]

  pub add_paths-eq-append :
      (namespace host : GoString) (paths : List HttpIngressPath) (rules : List IngressRule)
      → add_paths compile namespace host paths rules ≡ rules ++ rules_of namespace host paths
  unfolding add_paths
  add_paths-eq-append namespace host [] rules = sym (append-nil rules)
  add_paths-eq-append namespace host (ingp ∷ paths) rules =
      elim (Option-cases (compile_path compile ingp.path_type ingp.path)) [
        | inl e ↦ rw (e, rules_of, add_paths) (add_paths-eq-append namespace host paths rules)
        | inr (c, e) ↦
            let rule : IngressRule = rule_of compile namespace host ingp c in
            rw (e, rules_of, add_paths)
              (add_paths-eq-append namespace host paths (rules ++ rule ∷ [])
                ∙ append_assoc rules (rule ∷ []) (rules_of namespace host paths))
      ]
