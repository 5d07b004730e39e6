-- ===== src/Ingress/Hosts.antt =====
-- The call of `matchRule` on the whole set, over the group of the request's host, that of its wildcard
-- name and that of the empty host.
use minke.Base.{
  List, [], ◌∷◌, ◌++◌, none, some, List_ℕ-eq, ◌≡◌, ◌≢◌, ◌⊎◌, inl, inr, refl, arith, ap, sym, ◌∙◌,
  All,
}
use minke.GoText.{GoString, wildcard_name}
use minke.GoText.Laws.{wildcard_name-ne-nil}
use minke.Panic.{ret}
use minke.Http.{Request}
use minke.Ingress.{
  IngressRule, Ingress, IngressHostGroup, IngressSet, Found, match_rule, match_group, group_at,
  match_fallback, match_set,
}
use minke.Ingress.Rule.{measure}
use minke.Ingress.Group.{
  NoMatch, IsBest, Chosen, none_matches, skip, take, AllCompiled, match_group-Chosen,
}

-- The rules of a group have the group's host.
abbrev pub HasHost : GoString → IngressHostGroup → Type 0
HasHost n = All (λ ing. All (λ rule. rule.host ≡ n) ing.rules)

-- The sets that the handler builds.
pub record IsReady (set : IngressSet) : Type 0 where
  pub hosts : (n : GoString) → HasHost n (group_at n set)
  pub compiled : (n : GoString) → AllCompiled (group_at n set)

module _ (r : Request) where
  -- A rule for another host does not match.
  measure_other : (rule : IngressRule) → rule.host ≢ [] → rule.host ≢ r.host → NoMatch r rule
  unfolding measure match_rule
  measure_other rule a b = ground arith

  pub All-NoMatch :
      (n : GoString) (rules : List IngressRule)
      → n ≢ []
      → n ≢ r.host
      → All (λ rule. rule.host ≡ n) rules
      → All (NoMatch r) rules
  All-NoMatch n [] a b h = tt
  All-NoMatch n (rule ∷ rules) a b h = (
    measure_other rule (λ e. a (sym h.0 ∙ e)) (λ e. b (sym h.0 ∙ e)),
    All-NoMatch n rules a b h.1,
  )

  pub at_middle :
      (P : IngressRule → Type 0) (us : List IngressRule) (u : IngressRule) (vs : List IngressRule)
      → All P (us ++ u ∷ vs)
      → P u
  at_middle P [] u vs h = h.0
  at_middle P (x ∷ us) u vs h = at_middle P us u vs h.1

  IsBest-not-NoMatch :
      (rules : List IngressRule) (rule : IngressRule)
      → IsBest r rules rule
      → ¬ All (NoMatch r) rules
  IsBest-not-NoMatch rules rule b h =
      let none : NoMatch r rule = at_middle (NoMatch r) b.before rule b.after (rw (b.split) at h) in
      elim b.matches [ inl p ↦ absurd (omega arith) | inr q ↦ cc ]

  -- From a group whose rules have another host nothing is chosen.
  Chosen_other :
      (n : GoString) (ings : IngressHostGroup) (found : Found)
      → n ≢ []
      → n ≢ r.host
      → HasHost n ings
      → Chosen r ings found
      → found ≡ (none, none)
  Chosen_other n _ _ a b h none_matches = refl
  Chosen_other n (ing ∷ ings) found a b h (skip k c) = Chosen_other n ings found a b h.1 c
  Chosen_other n (ing ∷ ings) _ a b h (take rule best) =
      absurd (IsBest-not-NoMatch ing.rules rule best (All-NoMatch n ing.rules a b h.0))

  module _ (set : IngressSet) where
    -- The choice: the group of the request's host comes first, and then that of the empty host.
    pub data Selected : Found → Type 0 where
      named :
          {ing : Ingress} {rule : IngressRule}
          → Chosen r (group_at r.host set) (some ing, some rule)
          → Selected (some ing, some rule)
      unnamed :
          {found : Found}
          → Chosen r (group_at r.host set) (none, none)
          → Chosen r (group_at [] set) found
          → Selected found

    pub Chosen-cases :
        (ings : IngressHostGroup) (found : Found)
        → Chosen r ings found
        → (found ≡ (none, none))
          ⊎ ((ing : Ingress) × (rule : IngressRule) × (found ≡ (some ing, some rule)))
    Chosen-cases [] _ none_matches = inl refl
    Chosen-cases (ing ∷ ings) found (skip k c) = Chosen-cases ings found c
    Chosen-cases (ing ∷ ings) _ (take rule b) = inr (ing, rule, refl)

    -- What is selected is an ingress with its rule, or nothing.
    pub Selected-cases :
        (found : Found)
        → Selected found
        → (found ≡ (none, none))
          ⊎ ((ing : Ingress) × (rule : IngressRule) × (found ≡ (some ing, some rule)))
    Selected-cases _ (named {ing} {rule} c) = inr (ing, rule, refl)
    Selected-cases found (unnamed c c') = Chosen-cases (group_at [] set) found c'

    -- The wildcard group gives nothing that the host's own group did not give.
    wildcard_nothing :
        (found : Found)
        → IsReady set
        → match_group (group_at r.host set) r ≡ ret (none, none)
        → Chosen r (group_at (wildcard_name r.host) set) found
        → match_group (group_at (wildcard_name r.host) set) r ≡ ret found
        → found ≡ (none, none)
    wildcard_nothing found w own c e = elim (List_ℕ-eq.discrete (wildcard_name r.host) r.host) [
      | yes same ↦
          let q : ret found ≡ ret (none, none) =
            sym e ∙ (ap (λ n. match_group (group_at n set) r) same ∙ own) in
          ground arith
      | no other ↦
          Chosen_other (wildcard_name r.host) _ found (wildcard_name-ne-nil r.host) other
            (w.hosts (wildcard_name r.host)) c
    ]

    match_fallback_lem :
        (found : Found)
        → IsReady set
        → match_group (group_at r.host set) r ≡ ret (none, none)
        → match_group (group_at [] set) r ≡ ret found
        → match_fallback set r ≡ ret found
    unfolding match_fallback
    match_fallback_lem found w own e =
        let (wild, q, c) = match_group-Chosen r _ (w.compiled (wildcard_name r.host)) in
        let nothing : wild ≡ (none, none) = wildcard_nothing wild w own c q in
        let q' : match_group (group_at (wildcard_name r.host) set) r ≡ ret (none, none) =
          q ∙ ap ret nothing in
        rw (q', e) (ground arith)

    -- On a set whose rules have the host of their group and are compiled, the call on the set never
    -- panics. It chooses from the group of the request's host, and, if nothing is chosen there, from
    -- the group of the empty host; the group of the wildcard name adds nothing.
    pub match_set-Selected :
        IsReady set → (found : Found) × (match_set set r ≡ ret found) × Selected found
    unfolding match_set
    match_set-Selected w =
        let (own, e, c) = match_group-Chosen r _ (w.compiled r.host) in
        let (any, e', c') = match_group-Chosen r _ (w.compiled []) in
        elim (Chosen-cases _ own c) [
          | inl q ↦
              (any, rw (e, q) (match_fallback_lem any w (e ∙ ap ret q) e'), unnamed (rw q at c) c')
          | inr (ing, rule, q) ↦ ((some ing, some rule), rw (e, q), named (rw q at c))
        ]
