-- ===== src/IngressHandler/Effects.antt =====
-- What the handler does to the ingress set, on each of its branches.
use mathlib.Core.Path.{subst}
use mathlib.Core.List.{Permᴰ}
use minke.Base.{
  Bool, true, false, List, [], ◌∷◌, ◌++◌, Option, none, ◌≡◌, refl, arith, ap, ◌∙◌, All, Bool-cases,
  inl, inr, List_ℕ-eq,
}
use minke.GoText.{GoString}
use minke.GoMap.{lookup}
use minke.Panic.{ret, throw, runtime, >>=-eq-ret}
use minke.Kube.{SpecRule, KubeIngress, Object, nil, ingress, service, secret, endpoints, GoError}
use minke.Ingress.{Regexp, Ingress, IngressHostGroup, group_at, without, update}
use minke.Ingress.Hosts.{IsReady}
use minke.Ingress.Sort.{SortLaws}
use minke.Ingress.Update.{update-perm}
use minke.Ingress.Validity.{IsValid, update-IsValid, clear-IsValid}
use minke.Secrets.{Platform}
use minke.IngressHandler.{
  Settings, State, our_class, redirect_of, add_rules, add_tls, add_ours, add_item, del_item,
}
use minke.IngressHandler.Groups.{
  HasPaths, entries, Collects, add_rules-Collects, add_rules-throw, entries-ready,
  HasPaths-of_add_rules,
}

module _ (compile : GoString → Option Regexp)
    (sort : (Ingress → Ingress → Bool) → IngressHostGroup → IngressHostGroup) (p : Platform)
    (c : Settings) where
  -- The entries that the handler makes of an ingress for one host.
  abbrev pub made : KubeIngress → GoString → IngressHostGroup
  made ing n =
      entries compile ing (redirect_of c.default_http_redir ing.meta.annotations) n ing.rules

  -- What the handler leaves of the set when it takes an ingress.
  pub record Replaces (st : State) (ing : KubeIngress) : Type 0 where
    pub next : State
    pub returns : add_item compile sort p c st (ingress ing) ≡ ret (next, none)
    pub holds :
        (n : GoString)
        → Permᴰ
            (group_at n next.ings)
            (without ing.meta.name ing.meta.namespace (group_at n st.ings) ++ made ing n)
    pub valid : IsValid next.ings

  -- The groups that the loop makes satisfy what `update` asks of them.
  collected-IsReady :
      (ing : KubeIngress) (redir : Bool) (k : Collects compile ing redir ing.rules [] [])
      → IsReady k.set
  unfolding lookup
  collected-IsReady ing redir k = record {
    hosts = λ n. rw (k.groups n) ((entries-ready compile ing redir n ing.rules).0);
    compiled = λ n. rw (k.groups n) ((entries-ready compile ing redir n ing.rules).1);
  }

  -- An ingress of ours, whose rules all have paths, is taken into a valid set without a panic or
  -- an error, with a sort that keeps the promise of package sort. Each host's group then holds, in
  -- some order, the entries of the other ingresses that it held before and one entry for each rule
  -- that the ingress has for the host, and the set is valid.
  pub add_item-Replaces :
      (st : State) (ing : KubeIngress)
      → SortLaws sort
      → our_class c ing ≡ true
      → All HasPaths ing.rules
      → IsValid st.ings
      → Replaces st ing
  unfolding add_item add_ours lookup
  add_item-Replaces st ing laws ours h v =
      let redir : Bool = redirect_of c.default_http_redir ing.meta.annotations in
      let k : Collects compile ing redir ing.rules [] [] =
        add_rules-Collects compile ing redir ing.rules [] [] h tt in
      record {
        next = record {
          ings = update sort ing.meta.name ing.meta.namespace k.set st.ings;
          certs = add_tls compile p ing k.names ing.tls st.certs;
        };
        returns = rw (ours, k.returns) refl;
        holds = λ n.
            subst
              (λ g.
                Permᴰ (group_at n (update sort ing.meta.name ing.meta.namespace k.set st.ings))
                  (without ing.meta.name ing.meta.namespace (group_at n st.ings) ++ g))
              (k.groups n)
              (update-perm sort laws n ing.meta.name ing.meta.namespace k.set st.ings k.distinct);
        valid =
            update-IsValid sort ing.meta.name ing.meta.namespace k.set st.ings laws k.distinct
              (collected-IsReady ing redir k) v;
      }

  -- If an ingress is ours and one of its rules has no HTTP part, adding it panics.
  pub add_item_panics :
      (st : State) (ing : KubeIngress) (before : List SpecRule) (rule : SpecRule)
      (after : List SpecRule)
      → our_class c ing ≡ true
      → ing.rules ≡ before ++ rule ∷ after
      → rule.http ≡ none
      → add_item compile sort p c st (ingress ing) ≡ throw runtime
  unfolding add_item add_ours
  add_item_panics st ing before rule after ours e missing =
      let redir : Bool = redirect_of c.default_http_redir ing.meta.annotations in
      let q : add_rules compile ing redir ing.rules [] [] ≡ throw runtime =
        ap (λ rules. add_rules compile ing redir rules [] []) e
        ∙ add_rules-throw compile ing redir before rule after [] [] missing in
      rw (ours, q) refl

  -- An ingress of another class, and an object that is not an ingress, change nothing; the latter is
  -- an error.
  pub add_item_ignores :
      (st : State) (obj : Object)
      → ((ing : KubeIngress) → obj ≡ ingress ing → our_class c ing ≡ false)
      → (err : Option GoError) × (add_item compile sort p c st obj ≡ ret (st, err))
  unfolding add_item
  add_item_ignores st (ingress ing) h = (none, rw (h ing refl) refl)
  add_item_ignores st nil h = (_, refl)
  add_item_ignores st (service s) h = (_, refl)
  add_item_ignores st (secret s) h = (_, refl)
  add_item_ignores st (endpoints s) h = (_, refl)

  HasPaths-of_add_item :
      (st next : State) (ing : KubeIngress) (err : Option GoError)
      → our_class c ing ≡ true
      → add_item compile sort p c st (ingress ing) ≡ ret (next, err)
      → All HasPaths ing.rules
  unfolding add_item add_ours
  HasPaths-of_add_item st next ing err ours e =
      let redir : Bool = redirect_of c.default_http_redir ing.meta.annotations in
      let (st', taken, _) = >>=-eq-ret (add_ours compile sort p c st ing) _ (rw ours at e) in
      let (out, collected, _) = >>=-eq-ret (add_rules compile ing redir ing.rules [] []) _ taken in
      HasPaths-of_add_rules compile ing redir ing.rules [] [] out collected

  -- Whatever object the handler is given to add, the set that it leaves is valid if it was before.
  pub add_item-IsValid :
      (st next : State) (obj : Object) (err : Option GoError)
      → SortLaws sort
      → IsValid st.ings
      → add_item compile sort p c st obj ≡ ret (next, err)
      → IsValid next.ings
  unfolding add_item
  add_item-IsValid st next (ingress ing) err laws v e = elim (Bool-cases (our_class c ing)) [
    | inl ours ↦
        let k =
          add_item-Replaces st ing laws ours (HasPaths-of_add_item st next ing err ours e) v in
        let same : k.next ≡ next = ground (arith, k.returns) in
        subst (λ (s : State). IsValid s.ings) same k.valid
    | inr other ↦
        let q : ret (st, none) ≡ ret (next, err) = rw other at e in
        let same : st ≡ next = ground arith in subst (λ (s : State). IsValid s.ings) same v
  ]
  add_item-IsValid st next nil err laws v e =
      let same : st ≡ next = ground arith in subst (λ (s : State). IsValid s.ings) same v
  add_item-IsValid st next (service s) err laws v e =
      let same : st ≡ next = ground arith in subst (λ (s : State). IsValid s.ings) same v
  add_item-IsValid st next (secret s) err laws v e =
      let same : st ≡ next = ground arith in subst (λ (s : State). IsValid s.ings) same v
  add_item-IsValid st next (endpoints s) err laws v e =
      let same : st ≡ next = ground arith in subst (λ (s : State). IsValid s.ings) same v

-- What the handler makes of an object that it is told to delete.
pub del_item-IsValid :
    (st : State) (obj : Object) → IsValid st.ings → IsValid ((del_item st obj).0).ings
unfolding del_item
del_item-IsValid st (ingress ing) v = clear-IsValid ing.meta.name ing.meta.namespace st.ings v
del_item-IsValid st nil v = v
del_item-IsValid st (service s) v = v
del_item-IsValid st (secret s) v = v
del_item-IsValid st (endpoints s) v = v
