-- ===== src/Ingress/Update.antt =====
-- What `update` and `clear` make of the groups, with sort.Sort free in the order of ties.
use mathlib.Core.Path.{subst}
use mathlib.Core.List.{Permᴰ, append-nil}
use mathlib.Core.List.Permᴰ
use minke.Base.{
  Bool, [], ◌∷◌, ◌++◌, Option, none, some, if◌then◌else◌, ◌==◌, List_ℕ-eq, ◌≡◌, refl, arith, ap,
  sym, ◌∙◌,
}
use minke.Base.Perms.{filter-perm, filter-append, filter-filter}
use minke.GoText.{GoString}
use minke.GoMap.{lookup, insert, map_values, IsMap}
use minke.GoMap.Laws.{lookup-insert, lookup-map_values}
use minke.Ingress.{
  Ingress, IngressHostGroup, IngressSet, less, group_at, without, clear, add_groups, update,
}
use minke.Ingress.Sort.{SortLaws, Ordered, filter-Ordered}

module _ (name namespace : GoString) where
  pub without-perm :
      {xs ys : IngressHostGroup}
      → Permᴰ xs ys
      → Permᴰ (without name namespace xs) (without name namespace ys)
  unfolding without
  without-perm p = filter-perm _ p

  pub without-append :
      (xs ys : IngressHostGroup)
      → without name namespace (xs ++ ys) ≡ without name namespace xs ++ without name namespace ys
  unfolding without
  without-append xs ys = filter-append _ xs ys

  without-without :
      (xs : IngressHostGroup)
      → without name namespace (without name namespace xs) ≡ without name namespace xs
  unfolding without
  without-without xs = filter-filter _ xs

  pub without-Ordered :
      (xs : IngressHostGroup) → Ordered less xs → Ordered less (without name namespace xs)
  unfolding without
  without-Ordered xs o = filter-Ordered less _ xs o

-- Leaving out an ingress from a group made by putting it in gives the group less the ingress.
pub without-put :
    (name namespace : GoString) (old new : IngressHostGroup) {g : IngressHostGroup}
    → without name namespace new ≡ []
    → Permᴰ g (without name namespace old ++ new)
    → Permᴰ (without name namespace g) (without name namespace old)
without-put name namespace old new own p =
    Permᴰ.trans (without-perm name namespace p)
      (subst (λ g. Permᴰ g (without name namespace old)) (sym both) (Permᴰ.refl _))
  where
    both : without name namespace (without name namespace old ++ new) ≡ without name namespace old
    both =
        without-append name namespace (without name namespace old) new
        ∙ (ap (◌++◌ (without name namespace (without name namespace old))) own
            ∙ (append-nil _ ∙ without-without name namespace old))

-- The group with the new entries put in, if there are any.
abbrev pub regroup :
    ((Ingress → Ingress → Bool) → IngressHostGroup → IngressHostGroup)
    → IngressHostGroup
    → Option IngressHostGroup
    → IngressHostGroup
regroup sort rest none = rest
regroup sort rest (some ings) = sort less (rest ++ ings)

pub group_at-clear :
    (n name namespace : GoString) (set : IngressSet)
    → group_at n (clear name namespace set) ≡ without name namespace (group_at n set)
unfolding clear without
group_at-clear n name namespace set =
    ground (arith, lookup-map_values (without name namespace) n set)

pub group_at-insert :
    (n k : GoString) (ings : IngressHostGroup) (set : IngressSet)
    → group_at n (insert k ings set) ≡ (if k == n then ings else group_at n set)
group_at-insert n k ings set = ground (arith, lookup-insert k n ings set)

module _ (sort : (Ingress → Ingress → Bool) → IngressHostGroup → IngressHostGroup) where
  group_at-add_groups :
      (n : GoString) (newset set : IngressSet)
      → IsMap newset
      → group_at n (add_groups sort newset set) ≡ regroup sort (group_at n set) (lookup n newset)
  unfolding add_groups lookup
  group_at-add_groups n [] set h = refl
  group_at-add_groups n ((k, ings) ∷ newset) set h =
      let ih =
        group_at-add_groups n newset (insert k (sort less (group_at k set ++ ings)) set) h.1 in
      let at = group_at-insert n k (sort less (group_at k set ++ ings)) set in
      elim (List_ℕ-eq.discrete k n) [
        | yes same ↦
            let gone : lookup n newset ≡ none = ap (λ j. lookup j newset) (sym same) ∙ h.0 in
            let here : group_at k set ≡ group_at n set = ap (λ j. group_at j set) same in
            ih ∙ (ap (regroup sort _) gone ∙ (at ∙ ground arith))
        | no other ↦
            let kept : group_at n (insert k (sort less (group_at k set ++ ings)) set)
                ≡ group_at n set =
              at ∙ ground arith in
            ih ∙ (ap (λ g. regroup sort g (lookup n newset)) kept ∙ ground arith)
      ]

  pub group_at-update :
      (n name namespace : GoString) (newset set : IngressSet)
      → IsMap newset
      → group_at n (update sort name namespace newset set)
        ≡ regroup sort (without name namespace (group_at n set)) (lookup n newset)
  unfolding update
  group_at-update n name namespace newset set h =
      group_at-add_groups n newset (map_values (without name namespace) set) h
      ∙ ap (λ g. regroup sort g (lookup n newset))
          (unfold clear in (group_at-clear n name namespace set))

  module _ (laws : SortLaws sort) where
    regroup-perm :
        (rest : IngressHostGroup) (o : Option IngressHostGroup) (ings : IngressHostGroup)
        → (elim o [ none ↦ [] | some new ↦ new ]) ≡ ings
        → Permᴰ (regroup sort rest o) (rest ++ ings)
    regroup-perm rest none ings e =
        subst (λ x. Permᴰ rest (rest ++ x)) e (Permᴰ.symm (Permᴰ.append-nil rest))
    regroup-perm rest (some new) ings e =
        subst (λ x. Permᴰ (sort less (rest ++ new)) (rest ++ x)) e (laws.permutes (rest ++ new))

    -- With a sort that keeps the promise of package sort, and new groups with one entry for a
    -- host, an update replaces the entries of one ingress: each host's group then holds, in some
    -- order, the entries of the other ingresses that it held, and the new ones for the host.
    pub update-perm :
        (n name namespace : GoString) (newset set : IngressSet)
        → IsMap newset
        → Permᴰ
            (group_at n (update sort name namespace newset set))
            (without name namespace (group_at n set) ++ group_at n newset)
    update-perm n name namespace newset set h =
        rw (group_at-update n name namespace newset set h)
          (regroup-perm (without name namespace (group_at n set)) (lookup n newset) _ refl)

    -- Removing an ingress undoes an update of it, up to order: what is left in each host's group are
    -- the entries of the other ingresses that were there before.
    pub clear-update-perm :
        (n name namespace : GoString) (newset set : IngressSet)
        → IsMap newset
        → without name namespace (group_at n newset) ≡ []
        → Permᴰ
            (group_at n (clear name namespace (update sort name namespace newset set)))
            (without name namespace (group_at n set))
    clear-update-perm n name namespace newset set h own =
        rw (group_at-clear n name namespace (update sort name namespace newset set)) (
          without-put name namespace (group_at n set) (group_at n newset) own
            (update-perm n name namespace newset set h))
