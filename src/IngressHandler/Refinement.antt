-- ===== src/IngressHandler/Refinement.antt =====
-- The handler against the abstract map of the ingresses that are wanted.
use mathlib.Core.Path.{subst}
use mathlib.Core.List.{Permᴰ}
use mathlib.Core.List.Permᴰ
use minke.Base.{
  Bool, false, List, [], ◌∷◌, Option, ◌≡◌, refl, arith, All, Bool-cases, inl, inr, List_ℕ-eq,
}
use minke.GoText.{GoString}
use minke.GoMap.{lookup, delete}
use minke.GoMap.Laws.{insert-IsMap, delete-IsMap}
use minke.Panic.{ret}
use minke.Kube.{ingress}
use minke.Ingress.{Regexp, Ingress, IngressHostGroup, IngressSet, group_at, without}
use minke.Ingress.Sort.{SortLaws}
use minke.Ingress.Update.{group_at-clear, without-perm}
use minke.Ingress.Validity.{empty-IsValid}
use minke.Secrets.{IngressKey, IngressKey-eq, Platform, Certs}
use minke.IngressHandler.{Settings, State, our_class, del_item}
use minke.IngressHandler.Effects.{
  made, Replaces, add_item-Replaces, add_item_ignores, del_item-IsValid,
}
use minke.IngressHandler.Wanted.{
  Wanted, key_of, Change, taken, removed, view, want, wants, change_by, changes_by, IsComplete,
  Implements, without-view, view-insert, insert-IsKeyed, delete-IsKeyed,
}

module _ (compile : GoString → Option Regexp)
    (sort : (Ingress → Ingress → Bool) → IngressHostGroup → IngressHostGroup) (p : Platform)
    (c : Settings) where
  -- What is left of a group without an ingress.
  without-Implements :
      (k : IngressKey) (wanted : Wanted) (set : IngressSet) (n : GoString)
      → Implements compile sort p c wanted set
      → Permᴰ
          (without k.name k.namespace (group_at n set))
          (view compile sort p c (delete k wanted) n)
  without-Implements k wanted set n i =
      subst (Permᴰ (without k.name k.namespace (group_at n set)))
        (without-view compile sort p c k wanted n i.keyed)
        (without-perm k.name k.namespace (i.holds n))

  change_by-Implements :
      (change : Change) (wanted : Wanted) (st : State)
      → SortLaws sort
      → IsComplete compile sort p c change
      → Implements compile sort p c wanted st.ings
      → (st' : State) × (change_by compile sort p c change st ≡ ret st')
        × Implements compile sort p c (want compile sort p c change wanted) st'.ings
  unfolding del_item
  change_by-Implements (taken ing) wanted st laws h i = elim (Bool-cases (our_class c ing)) [
    | inl ours ↦
        let k : Replaces compile sort p c st ing =
          add_item-Replaces compile sort p c st ing laws ours h i.valid in
        (
          k.next,
          rw (k.returns) refl,
          rw ours (record {
            valid = k.valid;
            distinct = insert-IsMap (key_of ing) ing wanted i.distinct;
            keyed = insert-IsKeyed ing wanted i.keyed;
            holds = λ n. Permᴰ.trans (k.holds n) (
                Permᴰ.trans
                  (Permᴰ.append_right (made compile sort p c ing n)
                    (without-Implements (key_of ing) wanted st.ings n i))
                  (Permᴰ.symm (view-insert compile sort p c ing wanted n i.distinct)));
          }),
        )
    | inr other ↦
        let (err, ignored) = add_item_ignores compile sort p c st (ingress ing) (λ ing' e.
          let same : ing ≡ ing' = ground arith in subst (λ x. our_class c x ≡ false) same other) in
        (st, rw ignored refl, rw other i)
  ]
  change_by-Implements (removed ing) wanted st laws h i = (
    (del_item st (ingress ing)).0,
    refl,
    record {
      valid = del_item-IsValid st (ingress ing) i.valid;
      distinct = delete-IsMap (key_of ing) wanted i.distinct;
      keyed = delete-IsKeyed (key_of ing) wanted i.keyed;
      holds = λ n.
          rw (del_item, group_at-clear n ing.meta.name ing.meta.namespace st.ings)
            (without-Implements (key_of ing) wanted st.ings n i);
    },
  )

  changes_by-Implements :
      (changes : List Change) (wanted : Wanted) (st : State)
      → SortLaws sort
      → All (IsComplete compile sort p c) changes
      → Implements compile sort p c wanted st.ings
      → (st' : State) × (changes_by compile sort p c changes st ≡ ret st')
        × Implements compile sort p c (wants compile sort p c changes wanted) st'.ings
  changes_by-Implements [] wanted st laws h i = (st, refl, i)
  changes_by-Implements (change ∷ changes) wanted st laws h i =
      let (next, e, j) = change_by-Implements change wanted st laws h.0 i in
      let (last, e', k) =
        changes_by-Implements changes (want compile sort p c change wanted) next laws h.1 j in
      (last, rw e e', k)

  -- After any sequence of ingresses that the handler takes and removes, from the empty set, the set
  -- implements the abstract map of the ingresses of ours by their names: no call panics, and each
  -- host's group holds, in some order, the entries for the host of the last version of each ingress
  -- of ours that was taken and not removed since. An ingress that is taken with another class is no
  -- change. All rules are taken to have paths, and the sort to keep the promise of package sort.
  pub changes_by_refines :
      (changes : List Change) (certs : Certs)
      → SortLaws sort
      → All (IsComplete compile sort p c) changes
      → (st : State) × (changes_by compile sort p c changes (record { ings = []; certs = certs })
          ≡ ret st)
        × Implements compile sort p c (wants compile sort p c changes []) st.ings
  unfolding lookup
  changes_by_refines changes certs laws h =
      changes_by-Implements changes [] (record { ings = []; certs = certs }) laws h
        (record { valid = empty-IsValid; distinct = tt; keyed = tt; holds = λ n. Permᴰ.refl [] })
