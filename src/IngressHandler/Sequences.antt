-- ===== src/IngressHandler/Sequences.antt =====
-- The handler's calls one after another.
use mathlib.Core.Path.{subst}
use mathlib.Core.List.{Permᴰ}
use mathlib.Core.List.Permᴰ
use minke.Base.{
  Bool, true, List, [], ◌∷◌, ◌++◌, Option, none, ◌≡◌, refl, arith, All, Bool-cases, inl, inr, ◌==◌,
  List_ℕ-eq, eq_refl, Option-cases,
}
use minke.GoText.{GoString}
use minke.Panic.{ret}
use minke.Kube.{SpecRule, KubeIngress, ingress}
use minke.Ingress.{Regexp, Ingress, IngressHostGroup, group_at, without}
use minke.Ingress.Sort.{SortLaws}
use minke.Ingress.Update.{group_at-clear, without-put}
use minke.Ingress.Validity.{IsValid}
use minke.Secrets.{Platform}
use minke.IngressHandler.{Settings, State, our_class, add_item, del_item}
use minke.IngressHandler.Groups.{HasPaths, entries}
use minke.IngressHandler.Effects.{made, add_item-Replaces}

-- All entries that are made of an ingress bear its name.
pub without-entries :
    (compile : GoString → Option Regexp) (ing : KubeIngress) (redir : Bool) (n : GoString)
    (rules : List SpecRule)
    → without ing.meta.name ing.meta.namespace (entries compile ing redir n rules) ≡ []
unfolding without
without-entries compile ing redir n [] = refl
without-entries compile ing redir n (rule ∷ rules) = elim (Option-cases rule.http) [
  | inl missing ↦ rw missing (without-entries compile ing redir n rules)
  | inr (paths, e) ↦ elim (Bool-cases (rule.host == n)) [
    | inl same ↦
        rw (e, same, eq_refl ing.meta.name, eq_refl ing.meta.namespace)
          (without-entries compile ing redir n rules)
    | inr other ↦ rw (e, other) (without-entries compile ing redir n rules)
  ]
]

module _ (compile : GoString → Option Regexp)
    (sort : (Ingress → Ingress → Bool) → IngressHostGroup → IngressHostGroup) (p : Platform)
    (c : Settings) (laws : SortLaws sort) where
  holds_after :
      (st next : State) (ing : KubeIngress)
      → our_class c ing ≡ true
      → All HasPaths ing.rules
      → IsValid st.ings
      → add_item compile sort p c st (ingress ing) ≡ ret (next, none)
      → (IsValid next.ings)
        × ((n : GoString)
            → Permᴰ (group_at n next.ings) (
                without ing.meta.name ing.meta.namespace (group_at n st.ings)
                ++ made compile sort p c ing n))
  holds_after st next ing ours h v e =
      let k = add_item-Replaces compile sort p c st ing laws ours h v in
      let same : k.next ≡ next = ground (arith, k.returns) in
      (
        subst (λ s. IsValid s.ings) same k.valid,
        subst
            (λ s.
              (n : GoString)
              → Permᴰ (group_at n s.ings) (
                  without ing.meta.name ing.meta.namespace (group_at n st.ings)
                  ++ made compile sort p c ing n))
            same k.holds,
      )

  module _ (st next : State) (ing : KubeIngress) where
    -- If an ingress of ours, whose rules all have paths, is added to a valid set and then deleted,
    -- each host's group holds, in some order, the entries of the other ingresses that it held
    -- before. The sort is taken to keep the promise of package sort.
    pub del_item-add_item :
        our_class c ing ≡ true
        → All HasPaths ing.rules
        → IsValid st.ings
        → add_item compile sort p c st (ingress ing) ≡ ret (next, none)
        → (n : GoString)
        → Permᴰ
            (group_at n ((del_item next (ingress ing)).0).ings)
            (without ing.meta.name ing.meta.namespace (group_at n st.ings))
    unfolding del_item
    del_item-add_item ours h v e n =
        rw (group_at-clear n ing.meta.name ing.meta.namespace next.ings) (
          without-put ing.meta.name ing.meta.namespace (group_at n st.ings) _
            (without-entries compile ing _ n ing.rules) ((holds_after st next ing ours h v e).1 n))

    -- If the handler adds an ingress of ours, whose rules all have paths, to a valid set, and then
    -- adds it again, as at a refresh, each host's group holds what it held after the first time,
    -- in some order. The sort is taken to keep the promise of package sort.
    pub add_item_twice :
        our_class c ing ≡ true
        → All HasPaths ing.rules
        → IsValid st.ings
        → add_item compile sort p c st (ingress ing) ≡ ret (next, none)
        → (again : State) → add_item compile sort p c next (ingress ing) ≡ ret (again, none)
        → (n : GoString) → Permᴰ (group_at n again.ings) (group_at n next.ings)
    add_item_twice ours h v e again e' n =
        let (v', first) = holds_after st next ing ours h v e in
        let (_, second) = holds_after next again ing ours h v' e' in
        let kept =
          without-put ing.meta.name ing.meta.namespace (group_at n st.ings) _
            (without-entries compile ing _ n ing.rules) (first n) in
        Permᴰ.trans (second n) (Permᴰ.trans (Permᴰ.append_right _ kept) (Permᴰ.symm (first n)))
