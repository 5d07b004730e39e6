-- ===== src/Ingress/Serving.antt =====
-- The rules that the whole set serves to a host.
use minke.Base.{[], ◌∷◌, none, some, List_ℕ-eq, ◌≡◌, ◌⊎◌, inl, inr, refl, arith, ap, ◌∙◌, All}
use mathlib.Core.Path.{subst, subst₂}
use minke.GoText.{GoString}
use minke.GoMap.{lookup}
use minke.Panic.{ret}
use minke.Http.{Request}
use minke.Ingress.{IngressRule, Ingress, IngressHostGroup, IngressSet, Found, group_at, match_set}
use minke.Ingress.Group.{IsBest, Chosen, none_matches, skip, take}
use minke.Ingress.Hosts.{HasHost, IsReady, at_middle, Selected, named, unnamed, match_set-Selected}

-- A rule that is served allows the host of the request.
pub data Serves (r : Request) (set : IngressSet) (ing : Ingress) (rule : IngressRule) : Type 0 where
  serves : (rule.host ≡ r.host) ⊎ (rule.host ≡ []) → IsBest r ing.rules rule → Serves r set ing rule

pub Chosen-rule :
    (r : Request) (n : GoString) (ings : IngressHostGroup) (ing : Ingress) (rule : IngressRule)
    {found : Found}
    → found ≡ (some ing, some rule)
    → HasHost n ings
    → Chosen r ings found
    → (rule.host ≡ n) × IsBest r ing.rules rule
Chosen-rule r n [] ing rule e h none_matches = absurd (ground arith)
Chosen-rule r n (i ∷ ings) ing rule e h (skip k c) = Chosen-rule r n ings ing rule e h.1 c
Chosen-rule r n (i ∷ ings) ing rule e h (take rule' b) =
    let same_ing : i ≡ ing = ground arith in
    let same_rule : rule' ≡ rule = ground arith in
    let best : IsBest r ing.rules rule = subst₂ (λ x y. IsBest r x.rules y) same_ing same_rule b in
    let hosts : All (λ u. u.host ≡ n) ing.rules =
      subst (λ x. All (λ u. u.host ≡ n) x.rules) same_ing h.0 in
    (at_middle r (λ u. u.host ≡ n) best.before rule best.after (rw (best.split) at hosts), best)

-- On a set whose rules have the host of their group and are compiled, a rule that is served is the
-- best rule of its ingress, and its host is the request's host or empty.
pub match_set-Serves :
    (r : Request) (set : IngressSet) (ing : Ingress) (rule : IngressRule)
    → IsReady set
    → match_set set r ≡ ret (some ing, some rule)
    → Serves r set ing rule
match_set-Serves r set ing rule w e =
    let (found, q, s) = match_set-Selected r set w in
    let same : found ≡ (some ing, some rule) = ground arith in go found same s
  where
    go :
        (found : Found)
        → found ≡ (some ing, some rule)
        → Selected r set found
        → Serves r set ing rule
    go _ same (named c) =
        let (h, b) = Chosen-rule r r.host _ ing rule same (w.hosts r.host) c in serves (inl h) b
    go _ same (unnamed c c') =
        let (h, b) = Chosen-rule r [] _ ing rule same (w.hosts []) c' in serves (inr h) b

-- On a set whose rules have the host of their group and are compiled, if there is no group for the
-- request's host and none for the empty host, nothing is served to the request, whatever rules
-- stand under its wildcard name.
pub match_set_wildcard :
    (r : Request) (set : IngressSet)
    → IsReady set
    → lookup r.host set ≡ none
    → lookup [] set ≡ none
    → match_set set r ≡ ret (none, none)
match_set_wildcard r set w own any =
    let (found, q, s) = match_set-Selected r set w in q ∙ ap ret (go found s)
  where
    empty :
        (n : GoString) (found : Found)
        → lookup n set ≡ none
        → Chosen r (group_at n set) found
        → found ≡ (none, none)
    empty n found e c = nothing found (subst (λ ings. Chosen r ings found) (gone n e) c)
      where
        gone : (n : GoString) → lookup n set ≡ none → group_at n set ≡ []
        gone n e = rw (e, group_at)

        nothing : (found : Found) → Chosen r [] found → found ≡ (none, none)
        nothing _ none_matches = refl

    go : (found : Found) → Selected r set found → found ≡ (none, none)
    go _ (named c) = empty r.host _ own c
    go found (unnamed c c') = empty [] found any c'
