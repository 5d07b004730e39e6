-- ===== src/IngressHandler/Routing.antt =====
-- What a request is given by the set that the handler has built, in terms of the ingresses that are
-- wanted.
use mathlib.Core.Path.{subst}
use mathlib.Core.List.Permᴰ
use minke.Base.{
  Bool, true, List, [], ◌∷◌, Option, none, some, ◌≡◌, List_ℕ-eq, refl, arith, sym, All, inl, inr,
}
use minke.Base.Perms.{All-perm}
use minke.GoText.{GoString}
use minke.Panic.{ret}
use minke.Http.{Request}
use minke.Kube.{HttpIngressPath, SpecRule, KubeIngress}
use minke.Ingress.{
  Regexp, IngressRule, Ingress, IngressHostGroup, IngressSet, Found, group_at, match_set,
}
use minke.Ingress.Group.{NoMatch, IsBest, Chosen, none_matches, skip, take}
use minke.Ingress.Hosts.{All-NoMatch, Chosen-cases, Selected, named, unnamed, match_set-Selected}
use minke.Ingress.Serving.{Chosen-rule}
use minke.Ingress.Sort.{SortLaws}
use minke.Secrets.{Platform, Certs}
use minke.IngressHandler.{Settings, State}
use minke.IngressHandler.Groups.{rules_of-All}
use minke.IngressHandler.Rules.{rules_of}
use minke.IngressHandler.Wanted.{Wanted, Change, wants, changes_by, IsComplete, Implements}
use minke.IngressHandler.Refinement.{changes_by_refines}
use minke.IngressHandler.Stems.{Stems, Unasked, NoneWants, view-Stem, view-NoneWants}

module _ (compile : GoString → Option Regexp)
    (sort : (Ingress → Ingress → Bool) → IngressHostGroup → IngressHostGroup) (p : Platform)
    (c : Settings) where
  Chosen-All :
      (r : Request) (P : Ingress → Type 0) (is : IngressHostGroup) (i : Ingress)
      (rule : IngressRule) {found : Found}
      → found ≡ (some i, some rule)
      → All P is
      → Chosen r is found
      → P i
  Chosen-All r P [] i rule e h none_matches = absurd (ground arith)
  Chosen-All r P (j ∷ is) i rule e h (skip k ch) = Chosen-All r P is i rule e h.1 ch
  Chosen-All r P (j ∷ is) i rule e h (take rule' b) =
      let same : j ≡ i = ground arith in subst P same h.0

  Chosen-none :
      (r : Request) (is : IngressHostGroup) {found : Found}
      → found ≡ (none, none)
      → Chosen r is found
      → All (λ i. All (NoMatch r) i.rules) is
  Chosen-none r [] e none_matches = tt
  Chosen-none r (j ∷ is) e (skip k ch) = (k, Chosen-none r is e ch)
  Chosen-none r (j ∷ is) e (take rule b) = absurd (ground arith)

  -- What a request is to be given: nothing, if no rule of a wanted ingress matches it; else a rule
  -- that a wanted ingress has for the host of the request, the best of its entry; or one for the
  -- empty host, if none of those matches.
  pub data Routed (wanted : Wanted) (r : Request) : Found → Type 0 where
    unserved : NoneWants compile sort p c r (λ host. Unit) wanted → Routed wanted r (none, none)
    by_name :
        (i : Ingress) (rule : IngressRule)
        → Stems compile sort p c wanted i
        → rule.host ≡ r.host
        → IsBest r i.rules rule
        → Routed wanted r (some i, some rule)
    by_any :
        (i : Ingress) (rule : IngressRule)
        → NoneWants compile sort p c r (λ host. host ≡ r.host) wanted
        → Stems compile sort p c wanted i
        → rule.host ≡ []
        → IsBest r i.rules rule
        → Routed wanted r (some i, some rule)

  specs-Unasked :
      (r : Request) (ing : KubeIngress)
      → Unasked compile sort p c r (λ host. host ≡ r.host) ing
      → Unasked compile sort p c r (λ host. host ≡ []) ing
      → Unasked compile sort p c r (λ host. Unit) ing
  specs-Unasked r ing own any = go ing.rules own any
    where
      none_at : Type 0 → SpecRule → Type 0
      none_at P s =
          (paths : List HttpIngressPath)
          → s.http ≡ some paths
          → P
          → All (NoMatch r) (rules_of compile ing.meta.namespace s.host paths)

      at_spec :
          (s : SpecRule) → none_at (s.host ≡ r.host) s → none_at (s.host ≡ []) s → none_at Unit s
      at_spec s own any paths e u = elim (List_ℕ-eq.discrete s.host r.host) [
        | yes same ↦ own paths e same
        | no other ↦ elim (List_ℕ-eq.discrete s.host []) [
          | yes empty ↦ any paths e empty
          | no n ↦
              All-NoMatch r s.host _ n other (rules_of-All compile ing true s.host s paths refl).0
        ]
      ]

      go :
          (rules : List SpecRule)
          → All (λ s. none_at (s.host ≡ r.host) s) rules
          → All (λ s. none_at (s.host ≡ []) s) rules
          → All (λ s. none_at Unit s) rules
      go [] own any = tt
      go (s ∷ rules) own any = (at_spec s own.0 any.0, go rules own.1 any.1)

  wanted-NoneWants :
      (r : Request) (wanted : Wanted)
      → NoneWants compile sort p c r (λ host. host ≡ r.host) wanted
      → NoneWants compile sort p c r (λ host. host ≡ []) wanted
      → NoneWants compile sort p c r (λ host. Unit) wanted
  wanted-NoneWants r [] own any = tt
  wanted-NoneWants r ((k, ing) ∷ wanted) own any =
      (specs-Unasked r ing own.0 any.0, wanted-NoneWants r wanted own.1 any.1)

  module _ (wanted : Wanted) (set : IngressSet) (i : Implements compile sort p c wanted set)
      (r : Request) where
    group-Stem : (n : GoString) → All (Stems compile sort p c wanted) (group_at n set)
    group-Stem n =
        All-perm (Stems compile sort p c wanted) (Permᴰ.symm (i.holds n))
          (view-Stem compile sort p c wanted n)

    group-NoneWants :
        (n : GoString)
        → Chosen r (group_at n set) (none, none)
        → NoneWants compile sort p c r (λ host. host ≡ n) wanted
    group-NoneWants n ch =
        view-NoneWants compile sort p c r n wanted
          (All-perm (λ e. All (NoMatch r) e.rules) (i.holds n) (Chosen-none r _ refl ch))

    Selected-Routed : (found : Found) → Selected r set found → Routed wanted r found
    Selected-Routed _ (named {ing} {rule} ch) =
        let (h, b) = Chosen-rule r r.host _ ing rule refl (i.valid.ready.hosts r.host) ch in
        by_name ing rule
          (Chosen-All r (Stems compile sort p c wanted) _ ing rule refl (group-Stem r.host) ch) h b
    Selected-Routed found (unnamed ch ch') = elim (Chosen-cases r set _ found ch') [
      | inl e ↦ subst (Routed wanted r) (sym e) (
          unserved (
            wanted-NoneWants r wanted (group-NoneWants r.host ch)
              (group-NoneWants [] (subst (Chosen r (group_at [] set)) e ch'))))
      | inr (ing, rule, e) ↦
          let (h, b) = Chosen-rule r [] _ ing rule e (i.valid.ready.hosts []) ch' in
          subst (Routed wanted r) (sym e) (
            by_any ing rule (group-NoneWants r.host ch)
              (Chosen-All r (Stems compile sort p c wanted) _ ing rule e (group-Stem []) ch') h b)
    ]

    Implements-Routed : (found : Found) × (match_set set r ≡ ret found) × Routed wanted r found
    Implements-Routed =
        let (found, e, s) = match_set-Selected r set i.valid.ready in
        (found, e, Selected-Routed found s)

  -- After any sequence of ingresses that the handler takes and removes, from the empty set, a request
  -- is matched without a panic, against the wanted ingresses, the last versions of those of ours that
  -- were taken and not removed since. If no rule of theirs matches it, nothing is served. Else it is
  -- given the entry of a rule of a wanted ingress for the request's host, and the best of that
  -- entry's rules; only if no such rule matches, it is given one for the empty host. All rules are
  -- taken to have paths, and the sort to keep the promise of package sort.
  pub changes_by-Routed :
      (changes : List Change) (certs : Certs) (r : Request)
      → SortLaws sort
      → All (IsComplete compile sort p c) changes
      → (st : State) × (found : Found) × (changes_by compile sort p c changes
            (record { ings = []; certs = certs })
          ≡ ret st)
        × (match_set st.ings r ≡ ret found)
        × Routed (wants compile sort p c changes []) r found
  changes_by-Routed changes certs r laws h =
      let (st, e, i) = changes_by_refines compile sort p c changes certs laws h in
      let (found, e', routed) = Implements-Routed (wants compile sort p c changes []) st.ings i r in
      (st, found, e, e', routed)
