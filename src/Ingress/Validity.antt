-- ===== src/Ingress/Validity.antt =====
-- The invariant of the ingress set under `update` and `clear`.
use mathlib.Core.List.Permᴰ
use mathlib.Core.Path.{subst}
use minke.Base.{
  Bool, ◌==◌, List_ℕ-eq, ==_iff, Bool-cases, inl, inr, ◌≡◌, refl, sym, arith, [], ◌∷◌, ◌++◌, Option,
  none, some, All, All-append, All-filter,
}
use minke.Base.Perms.{All-perm}
use minke.GoText.{GoString}
use minke.GoMap.{lookup, IsMap}
use minke.GoMap.Laws.{insert-IsMap, map_values-IsMap}
use minke.Ingress.{
  Ingress, IngressHostGroup, IngressSet, less, group_at, without, clear, add_groups, update,
}
use minke.Ingress.Hosts.{IsReady, HasHost}
use minke.Ingress.Group.{AllCompiled}
use minke.Ingress.Sort.{SortLaws, Ordered}
use minke.Ingress.Update.{regroup, group_at-clear, group_at-update, without-Ordered}

-- The sets that the handler keeps: one entry for a host, each rule under its host and compiled, and
-- each group in order.
pub record IsValid (set : IngressSet) : Type 0 where
  pub distinct : IsMap set
  pub ready : IsReady set
  pub ordered : (n : GoString) → Ordered less (group_at n set)

-- What holds of the entries of both lists holds of the group made of them.
regroup-All {ℓ} :
    (P : Ingress → Type ℓ) (sort : (Ingress → Ingress → Bool) → IngressHostGroup → IngressHostGroup)
    (laws : SortLaws sort) (rest : IngressHostGroup) (o : Option IngressHostGroup)
    → All P rest
    → All P (elim o [ none ↦ [] | some new ↦ new ])
    → All P (regroup sort rest o)
regroup-All P sort laws rest none h k = h
regroup-All P sort laws rest (some new) h k =
    All-perm P (Permᴰ.symm (laws.permutes (rest ++ new))) (All-append P rest new h k)

regroup-Ordered :
    (sort : (Ingress → Ingress → Bool) → IngressHostGroup → IngressHostGroup) (laws : SortLaws sort)
    (rest : IngressHostGroup) (o : Option IngressHostGroup)
    → Ordered less rest
    → Ordered less (regroup sort rest o)
regroup-Ordered sort laws rest none h = h
regroup-Ordered sort laws rest (some new) h = laws.orders (rest ++ new)

add_groups-IsMap :
    (sort : (Ingress → Ingress → Bool) → IngressHostGroup → IngressHostGroup)
    (newset set : IngressSet)
    → IsMap set
    → IsMap (add_groups sort newset set)
unfolding add_groups
add_groups-IsMap sort [] set h = h
add_groups-IsMap sort ((k, ings) ∷ newset) set h =
    add_groups-IsMap sort newset _ (insert-IsMap k _ set h)

without-All {ℓ} :
    (P : Ingress → Type ℓ) (name namespace : GoString) (ings : IngressHostGroup)
    → All P ings
    → All P (without name namespace ings)
unfolding without
without-All P name namespace ings h = All-filter P _ ings h

-- Putting new groups in a valid set leaves it valid, if there is one new group for a host and each
-- new rule stands under its host and is compiled. The sort is taken to keep the promise of package
-- sort.
pub update-IsValid :
    (sort : (Ingress → Ingress → Bool) → IngressHostGroup → IngressHostGroup)
    (name namespace : GoString) (newset set : IngressSet)
    → SortLaws sort
    → IsMap newset
    → IsReady newset
    → IsValid set
    → IsValid (update sort name namespace newset set)
update-IsValid sort name namespace newset set laws m w v = record {
  distinct = unfold update in (add_groups-IsMap sort newset _ (map_values-IsMap _ set v.distinct));
  ready = record {
    hosts = λ n. every n _ (v.ready.hosts n) (w.hosts n);
    compiled = λ n. every n _ (v.ready.compiled n) (w.compiled n);
  };
  ordered = λ n. rw (group_at-update sort n name namespace newset set m) (
      regroup-Ordered sort laws _ (lookup n newset)
        (without-Ordered name namespace (group_at n set) (v.ordered n)));
}
  where
    every :
        (n : GoString) (P : Ingress → Type 0)
        → All P (group_at n set)
        → All P (group_at n newset)
        → All P (group_at n (update sort name namespace newset set))
    every n P h k = rw (group_at-update sort n name namespace newset set m) (
        regroup-All P sort laws _ (lookup n newset)
          (without-All P name namespace (group_at n set) h) k)

pub clear-IsValid :
    (name namespace : GoString) (set : IngressSet)
    → IsValid set
    → IsValid (clear name namespace set)
clear-IsValid name namespace set v = record {
  distinct = unfold clear in (map_values-IsMap _ set v.distinct);
  ready = record {
    hosts = λ n.
        rw (group_at-clear n name namespace set)
          (without-All _ name namespace (group_at n set) (v.ready.hosts n));
    compiled = λ n.
        rw (group_at-clear n name namespace set)
          (without-All _ name namespace (group_at n set) (v.ready.compiled n));
  };
  ordered = λ n.
      rw (group_at-clear n name namespace set)
        (without-Ordered name namespace (group_at n set) (v.ordered n));
}

pub empty-IsValid : IsValid []
unfolding lookup
empty-IsValid = record {
  distinct = tt;
  ready = record { hosts = λ n. tt; compiled = λ n. tt };
  ordered = λ n. tt;
}

-- A property of the empty group and of the group under a host holds of each group of the set with
-- that group alone.
singleton-every :
    (P : IngressHostGroup → Type 0) (host n : GoString) (ings : IngressHostGroup)
    → P []
    → (host ≡ n → P ings)
    → P (group_at n ((host, ings) ∷ []))
unfolding lookup
singleton-every P host n ings h k = elim (Bool-cases (host == n)) [
  | inl t ↦
      let here : group_at n ((host, ings) ∷ []) ≡ ings = ground arith in
      subst P (sym here) (k ((==_iff host n).0 t))
  | inr t ↦ let gone : group_at n ((host, ings) ∷ []) ≡ [] = ground arith in subst P (sym gone) h
]

-- A set with one group is valid when its group is.
pub singleton-IsValid :
    (host : GoString) (ings : IngressHostGroup)
    → HasHost host ings
    → AllCompiled ings
    → Ordered less ings
    → IsValid ((host, ings) ∷ [])
singleton-IsValid host ings h c o = record {
  distinct = (unfold lookup in refl, tt);
  ready = record {
    hosts = λ n. singleton-every (HasHost n) host n ings tt (λ e. subst (λ m. HasHost m ings) e h);
    compiled = λ n. singleton-every AllCompiled host n ings tt (λ e. c);
  };
  ordered = λ n. singleton-every (Ordered less) host n ings tt (λ e. o);
}
