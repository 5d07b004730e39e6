-- ===== src/IngressHandler/Groups.antt =====
-- What the loop over the rules of a spec collects for each host.
use mathlib.Core.List.{append-nil, append_assoc}
use minke.Base.{
  Bool, List, [], ◌∷◌, ◌++◌, Option, none, some, if◌then◌else◌, ◌==◌, List_ℕ-eq, ◌≡◌, ◌≢◌, refl, ap,
  sym, ◌∙◌, All, Bool-cases, Option-cases, inl, inr, ==_iff,
}
use minke.GoText.{GoString}
use minke.GoMap.{insert, IsMap}
use minke.GoMap.Laws.{insert-IsMap}
use minke.Panic.{ret, throw, runtime}
use minke.Kube.{HttpIngressPath, SpecRule, KubeIngress}
use minke.Ingress.{Regexp, Ingress, IngressHostGroup, IngressSet, group_at}
use minke.Ingress.Update.{group_at-insert}
use minke.Ingress.Rule.{IsCompiled}
use minke.Ingress.Group.{AllCompiled}
use minke.Ingress.Hosts.{HasHost}
use minke.IngressHandler.{compile_path, add_paths, ingress_of, add_rules}
use minke.IngressHandler.Rules.{IsSound, compile_path-IsSound, rules_of, add_paths-eq-append}

-- The rule's pointer to its paths is not nil.
abbrev pub HasPaths : SpecRule → Type 0
HasPaths rule = rule.http ≢ none

module _ (compile : GoString → Option Regexp) (ing : KubeIngress) (redir : Bool) where
  -- What one rule of the spec makes.
  abbrev pub entry : SpecRule → List HttpIngressPath → Ingress
  entry rule paths =
      ingress_of compile ing redir (rules_of compile ing.meta.namespace rule.host paths)

  -- The entries that a spec makes for one host: one for each of its rules for the host.
  abbrev pub entries : GoString → List SpecRule → IngressHostGroup
  entries n [] = []
  entries n (rule ∷ rules) = elim rule.http [
    | none ↦ entries n rules
    | some paths ↦ if rule.host == n then entry rule paths ∷ entries n rules else entries n rules
  ]

  -- What the loop returns: a map with the entries put in after those that it had.
  pub record Collects (rules : List SpecRule) (newset : IngressSet) (hosts : List GoString)
      : Type 0 where
    pub set : IngressSet
    pub names : List GoString
    pub returns : add_rules compile ing redir rules newset hosts ≡ ret (set, names)
    pub distinct : IsMap set
    pub groups : (n : GoString) → group_at n set ≡ group_at n newset ++ entries n rules

  add_paths-eq-rules_of :
      (rule : SpecRule) (paths : List HttpIngressPath)
      → add_paths compile ing.meta.namespace rule.host paths []
        ≡ rules_of compile ing.meta.namespace rule.host paths
  add_paths-eq-rules_of rule paths =
      add_paths-eq-append compile ing.meta.namespace rule.host paths []

  group_at-put :
      (n k : GoString) (e : Ingress) (rest : IngressHostGroup) (set : IngressSet)
      → group_at n (insert k (group_at k set ++ e ∷ []) set) ++ rest
        ≡ group_at n set ++ (if k == n then e ∷ rest else rest)
  group_at-put n k e rest set = elim (Bool-cases (k == n)) [
    | inl same ↦
        let here : group_at k set ≡ group_at n set =
          ap (λ j. group_at j set) ((==_iff k n).0 same) in
        rw (group_at-insert n k (group_at k set ++ e ∷ []) set, same)
          (ap (λ g. (g ++ e ∷ []) ++ rest) here ∙ append_assoc (group_at n set) (e ∷ []) rest)
    | inr other ↦ rw (group_at-insert n k (group_at k set ++ e ∷ []) set, other) refl
  ]

  pub add_rules-Collects :
      (rules : List SpecRule) (newset : IngressSet) (hosts : List GoString)
      → All HasPaths rules
      → IsMap newset
      → Collects rules newset hosts
  unfolding add_rules
  add_rules-Collects [] newset hosts h m = record {
    set = newset;
    names = hosts;
    returns = refl;
    distinct = m;
    groups = λ n. sym (append-nil (group_at n newset));
  }
  add_rules-Collects (rule ∷ rules) newset hosts h m = elim (Option-cases rule.http) [
    | inl missing ↦ absurd (h.0 missing)
    | inr (paths, e) ↦
        let made : Ingress = entry rule paths in
        let next : IngressSet = insert rule.host (group_at rule.host newset ++ made ∷ []) newset in
        let ih =
          add_rules-Collects rules next (if rule.host == [] then hosts else hosts ++ rule.host ∷ [])
            h.1 (insert-IsMap rule.host _ newset m) in
        record {
          set = ih.set;
          names = ih.names;
          returns = rw (e, add_paths-eq-rules_of rule paths) (ih.returns);
          distinct = ih.distinct;
          groups = λ n. rw e (ih.groups n ∙ group_at-put n rule.host made (entries n rules) newset);
        }
  ]

  -- A rule with a nil pointer makes the loop panic.
  pub add_rules-throw :
      (before : List SpecRule) (rule : SpecRule) (after : List SpecRule) (newset : IngressSet)
      (hosts : List GoString)
      → rule.http ≡ none
      → add_rules compile ing redir (before ++ rule ∷ after) newset hosts ≡ throw runtime
  unfolding add_rules
  add_rules-throw [] rule after newset hosts e = rw e refl
  add_rules-throw (b ∷ before) rule after newset hosts e = elim (Option-cases b.http) [
    | inl missing ↦ rw missing refl
    | inr (paths, q) ↦ rw q (add_rules-throw before rule after _ _ e)
  ]

  -- If the loop returns, no rule has a nil pointer.
  pub HasPaths-of_add_rules :
      (rules : List SpecRule) (newset : IngressSet) (hosts : List GoString)
      (out : IngressSet × List GoString)
      → add_rules compile ing redir rules newset hosts ≡ ret out
      → All HasPaths rules
  unfolding add_rules
  HasPaths-of_add_rules [] newset hosts out e = tt
  HasPaths-of_add_rules (rule ∷ rules) newset hosts out e = elim (Option-cases rule.http) [
    | inl missing ↦ let panics : throw runtime ≡ ret out = rw missing at e in cc
    | inr (paths, q) ↦ (λ missing. cc, HasPaths-of_add_rules rules _ _ out (rw q at e))
  ]

  pub rules_of-All :
      (n : GoString) (rule : SpecRule) (paths : List HttpIngressPath)
      → rule.host ≡ n
      → All (λ u. u.host ≡ n) (rules_of compile ing.meta.namespace rule.host paths)
        × All IsCompiled (rules_of compile ing.meta.namespace rule.host paths)
  rules_of-All n rule [] h = (tt, tt)
  rules_of-All n rule (p ∷ paths) h =
      elim (Option-cases (compile_path compile p.path_type p.path)) [
        | inl e ↦ rw (e, rules_of, All) (rules_of-All n rule paths h)
        | inr (c, e) ↦
            let (a, b) = rules_of-All n rule paths h in
            rw (e, rules_of, All)
              ((h, a), (IsSound.has_re (compile_path-IsSound compile p.path_type p.path c e), b))
      ]

  -- The entries are ready: they stand under the host of their rules, and these are compiled.
  pub entries-ready :
      (n : GoString) (rules : List SpecRule)
      → HasHost n (entries n rules) × AllCompiled (entries n rules)
  entries-ready n [] = (tt, tt)
  entries-ready n (rule ∷ rules) =
      let (a, b) = entries-ready n rules in
      elim (Option-cases rule.http) [
        | inl missing ↦ rw missing (a, b)
        | inr (paths, e) ↦ elim (Bool-cases (rule.host == n)) [
          | inl same ↦
              let (c, d) = rules_of-All n rule paths ((==_iff rule.host n).0 same) in
              rw (e, same) ((c, a), (d, b))
          | inr other ↦ rw (e, other) (a, b)
        ]
      ]
