-- ===== src/IngressHandler/Wanted.antt =====
-- The abstract map that the handler is compared with: the ingresses that are wanted, by their names.
-- What a host's group is to hold is the entries of the wanted ingresses; the map forgets in which
-- order they came.
use mathlib.Core.Path.{subst}
use mathlib.Core.List.{Permᴰ, append_assoc}
use mathlib.Core.List.Permᴰ
use minke.Base.{
  Bool, false, List, [], ◌∷◌, ◌++◌, Option, none, if◌then◌else◌, ◌≡◌, refl, arith, ap, sym, ◌∙◌,
  All, Bool-cases, inl, inr, ◌==◌, ◌&&◌, List_ℕ-eq, ==_iff, Option-cases,
}
use mathlib.Core.Path.{ap₂}
use minke.GoText.{GoString}
use minke.GoMap.{GoMap, lookup, insert, delete, delete_if, IsMap}
use minke.Panic.{Run, ret, ◌>>=◌}
use minke.Kube.{SpecRule, KubeIngress, ingress}
use minke.Ingress.{Regexp, Ingress, IngressHostGroup, IngressSet, group_at, without}
use minke.Ingress.Update.{without-append}
use minke.Ingress.Validity.{IsValid}
use minke.Secrets.{IngressKey, IngressKey-eq, Platform}
use minke.IngressHandler.{Settings, State, our_class, add_item, del_item}
use minke.IngressHandler.Groups.{HasPaths, entry, entries}
use minke.IngressHandler.Effects.{made}
use minke.IngressHandler.Sequences.{without-entries}

-- The ingresses that are wanted.
abbrev pub Wanted : Type 0
Wanted = GoMap IngressKey KubeIngress

abbrev pub key_of : KubeIngress → IngressKey
key_of ing = record { namespace = ing.meta.namespace; name = ing.meta.name }

-- Each ingress stands under its own name.
abbrev pub IsKeyed : Wanted → Type 0
IsKeyed [] = Unit
IsKeyed ((k, ing) ∷ wanted) = (k ≡ key_of ing) × IsKeyed wanted

pub data Change : Type 0 where
  taken removed : KubeIngress → Change

-- An entry of another ingress is left alone.
without-entries_other :
    (compile : GoString → Option Regexp) (ing : KubeIngress) (redir : Bool) (n : GoString)
    (k : IngressKey) (rules : List SpecRule)
    → (ing.meta.name == k.name && ing.meta.namespace == k.namespace) ≡ false
    → without k.name k.namespace (entries compile ing redir n rules)
      ≡ entries compile ing redir n rules
unfolding without
without-entries_other compile ing redir n k [] h = refl
without-entries_other compile ing redir n k (rule ∷ rules) h = elim (Option-cases rule.http) [
  | inl missing ↦ rw missing (without-entries_other compile ing redir n k rules h)
  | inr (paths, e) ↦ elim (Bool-cases (rule.host == n)) [
    | inl same ↦
        rw (e, same, h)
          (ap (◌∷◌ (entry compile ing redir rule paths))
            (without-entries_other compile ing redir n k rules h))
    | inr other ↦ rw (e, other) (without-entries_other compile ing redir n k rules h)
  ]
]

key_test :
    (ing : KubeIngress) (k : IngressKey)
    → (ing.meta.name == k.name && ing.meta.namespace == k.namespace) ≡ (key_of ing == k)
key_test ing k = ground arith

delete_missing :
    (k : IngressKey) (wanted : Wanted) → lookup k wanted ≡ none → delete k wanted ≡ wanted
unfolding delete delete_if lookup
delete_missing k [] h = refl
delete_missing k ((j, ing) ∷ wanted) h = ground (arith, delete_missing k wanted)

pub insert-IsKeyed :
    (ing : KubeIngress) (wanted : Wanted)
    → IsKeyed wanted
    → IsKeyed (insert (key_of ing) ing wanted)
unfolding insert
insert-IsKeyed ing [] h = (refl, tt)
insert-IsKeyed ing ((j, old) ∷ wanted) h = elim (Bool-cases (j == key_of ing)) [
  | inl t ↦ rw t (refl, h.1)
  | inr t ↦ rw t (h.0, insert-IsKeyed ing wanted h.1)
]

pub delete-IsKeyed : (k : IngressKey) (wanted : Wanted) → IsKeyed wanted → IsKeyed (delete k wanted)
unfolding delete delete_if
delete-IsKeyed k [] h = tt
delete-IsKeyed k ((j, old) ∷ wanted) h = elim (Bool-cases (j == k)) [
  | inl t ↦ rw t (delete-IsKeyed k wanted h.1)
  | inr t ↦ rw t (h.0, delete-IsKeyed k wanted h.1)
]

module _ (compile : GoString → Option Regexp)
    (sort : (Ingress → Ingress → Bool) → IngressHostGroup → IngressHostGroup) (p : Platform)
    (c : Settings) where
  -- The entries that the wanted ingresses have for a host.
  abbrev pub view : Wanted → GoString → IngressHostGroup
  view [] n = []
  view ((k, ing) ∷ wanted) n = made compile sort p c ing n ++ view wanted n

  -- A change, as the abstract map takes it.
  abbrev pub want : Change → Wanted → Wanted
  want (taken ing) wanted = if our_class c ing then insert (key_of ing) ing wanted else wanted
  want (removed ing) wanted = delete (key_of ing) wanted

  abbrev pub wants : List Change → Wanted → Wanted
  wants [] wanted = wanted
  wants (change ∷ changes) wanted = wants changes (want change wanted)

  -- The same change, as the handler takes it.
  abbrev pub change_by : Change → State → Run State
  change_by (taken ing) st = add_item compile sort p c st (ingress ing) >>= λ out. ret out.0
  change_by (removed ing) st = ret (del_item st (ingress ing)).0

  abbrev pub changes_by : List Change → State → Run State
  changes_by [] st = ret st
  changes_by (change ∷ changes) st = change_by change st >>= λ st'. changes_by changes st'

  -- All rules of an ingress that is taken have paths.
  abbrev pub IsComplete : Change → Type 0
  IsComplete (taken ing) = All HasPaths ing.rules
  IsComplete (removed ing) = Unit

  -- The set holds what is wanted.
  pub record Implements (wanted : Wanted) (set : IngressSet) : Type 0 where
    pub valid : IsValid set
    pub distinct : IsMap wanted
    pub keyed : IsKeyed wanted
    pub holds : (n : GoString) → Permᴰ (group_at n set) (view wanted n)

  pub without-view :
      (k : IngressKey) (wanted : Wanted) (n : GoString)
      → IsKeyed wanted
      → without k.name k.namespace (view wanted n) ≡ view (delete k wanted) n
  unfolding delete delete_if
  without-view k [] n h = unfold without in refl
  without-view k ((j, ing) ∷ wanted) n h = elim (Bool-cases (j == k)) [
    | inl t ↦
        let same : key_of ing ≡ k = sym h.0 ∙ (==_iff j k).0 t in
        let gone : without k.name k.namespace (made compile sort p c ing n) ≡ [] =
          subst (λ i. without i.name i.namespace (made compile sort p c ing n) ≡ []) same
            (without-entries compile ing _ n ing.rules) in
        rw t (
          without-append k.name k.namespace (made compile sort p c ing n) (view wanted n)
          ∙ (ap (λ g. g ++ without k.name k.namespace (view wanted n)) gone
              ∙ without-view k wanted n h.1))
    | inr t ↦
        let other : (key_of ing == k) ≡ false = ap (λ i. i == k) (sym h.0) ∙ t in
        rw t (
          without-append k.name k.namespace (made compile sort p c ing n) (view wanted n)
          ∙ ap₂ ◌++◌ (without-entries_other compile ing _ n k ing.rules (key_test ing k ∙ other))
              (without-view k wanted n h.1))
  ]

  pub view-insert :
      (ing : KubeIngress) (wanted : Wanted) (n : GoString)
      → IsMap wanted
      → Permᴰ
          (view (insert (key_of ing) ing wanted) n)
          (view (delete (key_of ing) wanted) n ++ made compile sort p c ing n)
  unfolding insert delete delete_if
  view-insert ing [] n m = Permᴰ.append-nil _
  view-insert ing ((j, old) ∷ wanted) n m = elim (Bool-cases (j == key_of ing)) [
    | inl t ↦
        let gone : lookup (key_of ing) wanted ≡ none =
          ap (λ i. lookup i wanted) (sym ((==_iff j (key_of ing)).0 t)) ∙ m.0 in
        rw t (
          subst
            (λ w.
              Permᴰ (made compile sort p c ing n ++ view wanted n)
                (view w n ++ made compile sort p c ing n))
            (sym (delete_missing (key_of ing) wanted gone))
            (Permᴰ.append_comm (made compile sort p c ing n) (view wanted n)))
    | inr t ↦ rw t (
        subst (Permᴰ (made compile sort p c old n ++ view (insert (key_of ing) ing wanted) n))
          (sym (
            append_assoc (made compile sort p c old n) (view (delete (key_of ing) wanted) n)
              (made compile sort p c ing n)))
          (Permᴰ.append_left (made compile sort p c old n) (view-insert ing wanted n m.1)))
  ]
