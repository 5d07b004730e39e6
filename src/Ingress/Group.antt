-- ===== src/Ingress/Group.antt =====
-- The call of `matchRule` on a host's group, against a description of the rule to be chosen.
use mathlib.Core.List.{append-nil, append_assoc}
use minke.Base.{
  ℕ, ◌≤◌, ◌<◌, Bool, true, false, ◌&&◌, List, [], ◌∷◌, ◌++◌, none, some, ltb, ◌==◌, ℕ_eq, ◌≡◌, ◌⊎◌,
  inl, inr, refl, arith, ◌∙◌, Bool-cases, All, All-append,
}
use minke.Panic.{ret}
use minke.Http.{Request}
use minke.Ingress.{
  IngressRule, Ingress, IngressHostGroup, Match, take_rule, match_rules, Found, match_group_from,
  match_group,
}
use minke.Ingress.Rule.{IsCompiled, measure, match_rule-measure}

abbrev pub AllCompiled : IngressHostGroup → Type 0
AllCompiled = All (λ ing. All IsCompiled ing.rules)

module _ (r : Request) where
  abbrev pub len : IngressRule → ℕ
  len rule = (measure rule r).0

  abbrev pub is_exact : IngressRule → Bool
  is_exact rule = (measure rule r).1

  -- A rule that matches, if only with the empty path.
  abbrev pub IsMatch : IngressRule → Type 0
  IsMatch rule = (0 < len rule) ⊎ (is_exact rule ≡ true)

  abbrev pub NoMatch : IngressRule → Type 0
  NoMatch rule = (len rule ≡ 0) × (is_exact rule ≡ false)

  -- The rule that is chosen of a list: no rule matches more, none after it that matches as much is
  -- exact, and one before it matches as much only if the chosen one is exact.
  pub record IsBest (rules : List IngressRule) (rule : IngressRule) : Type 0 where
    pub before : List IngressRule
    pub after : List IngressRule
    pub split : rules ≡ before ++ rule ∷ after
    pub matches : IsMatch rule
    pub earlier :
        All (λ u. (len u < len rule) ⊎ ((len u ≡ len rule) × (is_exact rule ≡ true))) before
    pub later : All (λ u. (len u < len rule) ⊎ ((len u ≡ len rule) × (is_exact u ≡ false))) after

  module _ (ing : Ingress) where
    -- The loop's variables after the rules `seen`.
    data Scan (seen : List IngressRule) (m : Match) : Type 0 where
      nothing : m.ing ≡ none → m.matched ≡ none → m.match_len ≡ 0 → All NoMatch seen → Scan seen m
      best :
          (rule : IngressRule)
          → m.ing ≡ some ing
          → m.matched ≡ some rule
          → m.match_len ≡ len rule
          → IsBest seen rule
          → Scan seen m

  All-imp :
      (P Q : IngressRule → Type 0) (us : List IngressRule)
      → ((u : IngressRule) → P u → Q u)
      → All P us
      → All Q us
  All-imp P Q [] f h = tt
  All-imp P Q (u ∷ us) f h = (f u h.0, All-imp P Q us f h.1)

  -- Every rule of a list matches no more than the best.
  IsBest-le :
      (us : List IngressRule) (rule : IngressRule) → IsBest us rule → All (λ u. len u ≤ len rule) us
  IsBest-le us rule b = rw (b.split) (
      All-append (λ u. len u ≤ len rule) b.before (rule ∷ b.after)
        (All-imp _ _ b.before (λ u h. ground arith) b.earlier)
        (omega arith, All-imp _ _ b.after (λ u h. ground arith) b.later))

  -- A rule that matches more than all before it is the best so far.
  new-IsBest :
      (us : List IngressRule) (u : IngressRule)
      → IsMatch u
      → All (λ v. (len v < len u) ⊎ ((len v ≡ len u) × (is_exact u ≡ true))) us
      → IsBest (us ++ u ∷ []) u
  new-IsBest us u h k = record {
    before = us;
    after = [];
    split = refl;
    matches = h;
    earlier = k;
    later = tt;
  }

  keep-IsBest :
      (us : List IngressRule) (rule u : IngressRule)
      → IsBest us rule
      → (len u < len rule) ⊎ ((len u ≡ len rule) × (is_exact u ≡ false))
      → IsBest (us ++ u ∷ []) rule
  keep-IsBest us rule u b h = record {
    before = b.before;
    after = b.after ++ u ∷ [];
    split = rw (b.split) (append_assoc b.before (rule ∷ b.after) (u ∷ []));
    matches = b.matches;
    earlier = b.earlier;
    later = All-append _ b.after (u ∷ []) b.later (h, tt);
  }

  module _ (ing : Ingress) where
    nothing-Scan :
        (us : List IngressRule) (u : IngressRule) (m : Match)
        → m.ing ≡ none
        → m.matched ≡ none
        → m.match_len ≡ 0
        → All NoMatch us
        → Scan ing (us ++ u ∷ []) (take_rule ing u (measure u r) m)
    unfolding take_rule
    nothing-Scan us u m i j k h = elim (Bool-cases (ltb 0 (len u))) [
      | inl longer ↦
          best u (ground arith) (ground arith) (ground arith)
            (new-IsBest us u (ground arith) (All-imp _ _ us (λ v p. ground arith) h))
      | inr short ↦ elim (Bool-cases (is_exact u)) [
        | inl e ↦
            best u (ground arith) (ground arith) (ground arith)
              (new-IsBest us u (ground arith) (All-imp _ _ us (λ v p. ground arith) h))
        | inr e ↦
            nothing (ground arith) (ground arith) (ground arith)
              (All-append NoMatch us (u ∷ []) h (ground arith, tt))
      ]
    ]

    best-Scan :
        (us : List IngressRule) (rule u : IngressRule) (m : Match)
        → m.ing ≡ some ing
        → m.matched ≡ some rule
        → m.match_len ≡ len rule
        → IsBest us rule
        → Scan ing (us ++ u ∷ []) (take_rule ing u (measure u r) m)
    unfolding take_rule
    best-Scan us rule u m i j k b = elim (Bool-cases (ltb (len rule) (len u))) [
      | inl longer ↦ best u (ground arith) (ground arith) (ground arith) (
          new-IsBest us u (ground arith)
            (All-imp _ _ us (λ v p. ground arith) (IsBest-le us rule b)))
      | inr short ↦ elim (Bool-cases (len u == len rule && is_exact u)) [
        | inl e ↦ best u (ground arith) (ground arith) (ground arith) (
            new-IsBest us u (ground arith)
              (All-imp _ _ us (λ v p. ground arith) (IsBest-le us rule b)))
        | inr e ↦
            best rule (ground arith) (ground arith) (ground arith)
              (keep-IsBest us rule u b (ground arith))
      ]
    ]

    take_rule-Scan :
        (us : List IngressRule) (u : IngressRule) (m : Match)
        → Scan ing us m
        → Scan ing (us ++ u ∷ []) (take_rule ing u (measure u r) m)
    take_rule-Scan us u m (nothing i j k h) = nothing-Scan us u m i j k h
    take_rule-Scan us u m (best rule i j k b) = best-Scan us rule u m i j k b

    match_rules-Scan :
        (seen us : List IngressRule) (m : Match)
        → All IsCompiled us
        → Scan ing seen m
        → (m' : Match) × (match_rules ing us r m ≡ ret m') × Scan ing (seen ++ us) m'
    unfolding match_rules
    match_rules-Scan seen [] m c s = (m, refl, rw append-nil s)
    match_rules-Scan seen (u ∷ us) m c s =
        let (m', e, t) =
          match_rules-Scan (seen ++ u ∷ []) us (take_rule ing u (measure u r) m) c.1
            (take_rule-Scan seen u m s) in
        (m', rw (match_rule-measure u r c.0) e, rw (append_assoc seen (u ∷ []) us) at t)

  -- What is chosen of a group: nothing, if no rule matches, and otherwise the best rule of the
  -- first ingress that has a rule that matches.
  pub data Chosen : IngressHostGroup → Found → Type 0 where
    none_matches : Chosen [] (none, none)
    skip :
        {ing : Ingress} {ings : IngressHostGroup} {found : Found}
        → All NoMatch ing.rules
        → Chosen ings found
        → Chosen (ing ∷ ings) found
    take :
        {ing : Ingress} {ings : IngressHostGroup} (rule : IngressRule)
        → IsBest ing.rules rule
        → Chosen (ing ∷ ings) (some ing, some rule)

  match_group_from_next :
      (ing : Ingress) (ings : IngressHostGroup) (m m' : Match)
      → match_rules ing ing.rules r (record m { match_len = 0 }) ≡ ret m'
      → m'.ing ≡ none
      → match_group_from (ing ∷ ings) r m ≡ match_group_from ings r m'
  unfolding match_group_from
  match_group_from_next ing ings m m' e i = rw e (ground arith)

  match_group_from_found :
      (ing i' : Ingress) (ings : IngressHostGroup) (m m' : Match)
      → match_rules ing ing.rules r (record m { match_len = 0 }) ≡ ret m'
      → m'.ing ≡ some i'
      → match_group_from (ing ∷ ings) r m ≡ ret (m'.ing, m'.matched)
  unfolding match_group_from
  match_group_from_found ing i' ings m m' e i = rw e (ground arith)

  match_group_from-Chosen :
      (ings : IngressHostGroup) (m : Match)
      → AllCompiled ings
      → m.ing ≡ none
      → m.matched ≡ none
      → (found : Found) × (match_group_from ings r m ≡ ret found) × Chosen ings found
  match_group_from-Chosen [] m c i j =
      ((none, none), unfold match_group_from in (ground arith), none_matches)
  match_group_from-Chosen (ing ∷ ings) m c i j =
      let (m', e, s) =
        match_rules-Scan ing [] ing.rules (record m { match_len = 0 }) c.0 (nothing i j refl tt) in
      elim s [
        | nothing i' j' k h ↦
            let (found, q, ch) = match_group_from-Chosen ings m' c.1 i' j' in
            (found, match_group_from_next ing ings m m' e i' ∙ q, skip h ch)
        | best rule i' j' k b ↦ (
          (some ing, some rule),
          match_group_from_found ing ing ings m m' e i' ∙ ground arith,
          take rule b,
        )
      ]

  -- On a group whose rules are compiled, the call on the group returns what is to be chosen of it:
  -- nothing, if no rule matches; else the first ingress that has a rule that matches, with the best
  -- of its rules, than which no other matches more, and which of those that match as much is the
  -- last exact one, or the first if none is exact.
  pub match_group-Chosen :
      (ings : IngressHostGroup)
      → AllCompiled ings
      → (found : Found) × (match_group ings r ≡ ret found) × Chosen ings found
  unfolding match_group
  match_group-Chosen ings c = match_group_from-Chosen ings _ c refl refl
