-- ===== src/IngressHandler/Stems.antt =====
-- The entries of a host's group, and the rules in them, by the ingresses that are wanted.
use mathlib.Core.Path.{subst}
use mathlib.Core.List.{Memᴰ}
use minke.Base.{
  Bool, List, [], ◌∷◌, Option, some, ◌≡◌, ◌==◌, List_ℕ-eq, refl, arith, All, All-append, All-left,
  All-right, Bool-cases, Option-cases, inl, inr, ==_iff,
}
use minke.GoText.{GoString}
use minke.Http.{Request}
use minke.Kube.{HttpIngressPath, SpecRule, KubeIngress}
use minke.Ingress.{Regexp, Ingress, IngressHostGroup}
use minke.Ingress.Group.{NoMatch}
use minke.Secrets.{IngressKey, Platform}
use minke.IngressHandler.{Settings, redirect_of}
use minke.IngressHandler.Groups.{entry, entries}
use minke.IngressHandler.Rules.{rules_of}
use minke.IngressHandler.Wanted.{Wanted, view}

module _ (compile : GoString → Option Regexp)
    (sort : (Ingress → Ingress → Bool) → IngressHostGroup → IngressHostGroup) (p : Platform)
    (c : Settings) where
  -- An entry is what one rule of the spec of a wanted ingress makes.
  pub record Stems (wanted : Wanted) (i : Ingress) : Type 0 where
    pub key : IngressKey
    pub ing : KubeIngress
    pub spec : SpecRule
    pub paths : List HttpIngressPath
    pub is_wanted : Memᴰ (key, ing) wanted
    pub has_rule : Memᴰ spec ing.rules
    pub has_paths : spec.http ≡ some paths
    pub made_of :
        i ≡ entry compile ing (redirect_of c.default_http_redir ing.meta.annotations) spec paths

  widen :
      (k : IngressKey) (ing : KubeIngress) (wanted : Wanted) (is : List Ingress)
      → All (Stems wanted) is
      → All (Stems ((k, ing) ∷ wanted)) is
  widen k ing wanted [] h = tt
  widen k ing wanted (i ∷ is) h = (
    record {
      key = h.0.key;
      ing = h.0.ing;
      spec = h.0.spec;
      paths = h.0.paths;
      is_wanted = Memᴰ.tail h.0.is_wanted;
      has_rule = h.0.has_rule;
      has_paths = h.0.has_paths;
      made_of = h.0.made_of;
    },
    widen k ing wanted is h.1,
  )

  entries-Stem :
      (k : IngressKey) (ing : KubeIngress) (wanted : Wanted) (n : GoString) (rules : List SpecRule)
      → ((s : SpecRule) → Memᴰ s rules → Memᴰ s ing.rules)
      → All
          (Stems ((k, ing) ∷ wanted))
          (entries compile ing (redirect_of c.default_http_redir ing.meta.annotations) n rules)
  entries-Stem k ing wanted n [] h = tt
  entries-Stem k ing wanted n (s ∷ rules) h =
      let rest = entries-Stem k ing wanted n rules (λ s' m. h s' (Memᴰ.tail m)) in
      elim (Option-cases s.http) [
        | inl missing ↦ rw missing rest
        | inr (paths, e) ↦ elim (Bool-cases (s.host == n)) [
          | inl same ↦
              rw (e, same)
                (
                  record {
                    key = k;
                    ing = ing;
                    spec = s;
                    paths = paths;
                    is_wanted = Memᴰ.head refl;
                    has_rule = h s (Memᴰ.head refl);
                    has_paths = e;
                    made_of = refl;
                  },
                  rest,
                )
          | inr other ↦ rw (e, other) rest
        ]
      ]

  pub view-Stem :
      (wanted : Wanted) (n : GoString) → All (Stems wanted) (view compile sort p c wanted n)
  view-Stem [] n = tt
  view-Stem ((k, ing) ∷ wanted) n =
      All-append _ _ _ (entries-Stem k ing wanted n ing.rules (λ s m. m))
        (widen k ing wanted _ (view-Stem wanted n))

  -- No rule that the spec has for these hosts matches.
  abbrev pub Unasked : Request → (GoString → Type 0) → KubeIngress → Type 0
  Unasked r P ing =
      All
        (λ s.
          (paths : List HttpIngressPath)
          → s.http ≡ some paths
          → P s.host
          → All (NoMatch r) (rules_of compile ing.meta.namespace s.host paths))
        ing.rules

  abbrev pub NoneWants : Request → (GoString → Type 0) → Wanted → Type 0
  NoneWants r P wanted = All (λ w. Unasked r P w.1) wanted

  entries-Unasked :
      (r : Request) (ing : KubeIngress) (redir : Bool) (n : GoString) (rules : List SpecRule)
      → All (λ i. All (NoMatch r) i.rules) (entries compile ing redir n rules)
      → All
          (λ s.
            (paths : List HttpIngressPath)
            → s.http ≡ some paths
            → s.host ≡ n
            → All (NoMatch r) (rules_of compile ing.meta.namespace s.host paths))
          rules
  entries-Unasked r ing redir n [] h = tt
  entries-Unasked r ing redir n (s ∷ rules) h = elim (Option-cases s.http) [
    | inl missing ↦ (λ paths e same. cc, entries-Unasked r ing redir n rules (rw missing at h))
    | inr (paths, q) ↦ elim (Bool-cases (s.host == n)) [
      | inl t ↦
          let h' : All (NoMatch r) (rules_of compile ing.meta.namespace s.host paths)
              × All (λ i. All (NoMatch r) i.rules) (entries compile ing redir n rules) =
            rw (q, t) at h in
          (
            λ paths' e same.
                let eq : paths ≡ paths' = ground (arith, q, e) in
                subst (λ x. All (NoMatch r) (rules_of compile ing.meta.namespace s.host x)) eq h'.0,
            entries-Unasked r ing redir n rules h'.1,
          )
      | inr f ↦ (
        λ paths' e same. absurd (ground (arith, f, ==_iff s.host n)),
        entries-Unasked r ing redir n rules (rw (q, f) at h),
      )
    ]
  ]

  pub view-NoneWants :
      (r : Request) (n : GoString) (wanted : Wanted)
      → All (λ i. All (NoMatch r) i.rules) (view compile sort p c wanted n)
      → NoneWants r (λ host. host ≡ n) wanted
  view-NoneWants r n [] h = tt
  view-NoneWants r n ((k, ing) ∷ wanted) h = (
    entries-Unasked r ing _ n ing.rules (All-left _ _ (view compile sort p c wanted n) h),
    view-NoneWants r n wanted (All-right _ (entries compile ing _ n ing.rules) _ h),
  )
