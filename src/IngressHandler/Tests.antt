-- ===== src/IngressHandler/Tests.antt =====
-- Tests of the ingress handler, on an ingress with one rule.
use mathlib.Core.Path.{◌≡◌}
use minke.Base.{
  List, [], ◌∷◌, ◌++◌, none, some, true, refl, ◌&&◌, ◌==◌, ℕ_eq, length, if◌then◌else◌,
  List_ℕ-discrete, List_ℕ-eq, All, Option,
}
use minke.GoText.{bytes, has_prefix, elem}
use minke.GoMap.{lookup, GoMap}
use minke.GoText.{GoString}
use minke.Panic.{ret, throw, runtime}
use minke.Kube.{KubeIngress, IngressTls, SpecRule, ingress, service, GoError}
use minke.Ingress.{Found, match_set, prefix}
use minke.Ingress.Sort.{insertion_sort-SortLaws}
use minke.Ingress.Validity.{empty-IsValid}
use minke.IngressHandler.{
  State, Compiled, class_of, our_class, redir_ann, compile_path, add_tls, add_item,
}
use minke.Certificates.{entries_at}
use minke.Certificates.Entries.{entry, own}
use minke.IngressHandler.Sections.{rule_hosts, secret_of, own-add_item}
use minke.IngressHandler.Class.{our_class_iff}
use minke.IngressHandler.Groups.{HasPaths}
use minke.IngressHandler.Effects.{Replaces, add_item-Replaces, add_item_panics, add_item_ignores}
use minke.IngressHandler.Wanted.{key_of, Change, taken, wants, changes_by, Implements}
use minke.IngressHandler.Refinement.{changes_by_refines}
use minke.IngressHandler.Routing.{Routed, changes_by-Routed}
use minke.Samples.{
  platform, settings, empty_state, no_certs, web_ingress, web_service, compile, sort, ask,
}

handling : Unit {0}
unfolding add_item our_class lookup List_ℕ-discrete has_prefix compile_path
handling = tt

web_is_ours : our_class settings web_ingress ≡ true
web_is_ours = (our_class_iff settings web_ingress).1 (unfold class_of in refl)

abbrev annotations : GoMap GoString GoString
annotations = (bytes "a", bytes "b") ∷ (redir_ann, bytes "false") ∷ []

abbrev api : Compiled
api = record { path_type = prefix; path = bytes "/api"; re = none }

web-HasPaths : All HasPaths web_ingress.rules
web-HasPaths = ((λ e. cc), tt)

add_item-Replaces_example : Replaces compile sort platform settings empty_state web_ingress
add_item-Replaces_example =
    add_item-Replaces compile sort platform settings empty_state web_ingress insertion_sort-SortLaws
      web_is_ours web-HasPaths empty-IsValid

abbrev bare : SpecRule
bare = record { host = bytes "b.test"; http = none }

abbrev bare_ingress : KubeIngress
bare_ingress = record web_ingress { rules = web_ingress.rules ++ bare ∷ [] }

add_item_panics_example :
    add_item compile sort platform settings empty_state (ingress bare_ingress) ≡ throw runtime
add_item_panics_example =
    add_item_panics compile sort platform settings empty_state bare_ingress web_ingress.rules bare
      [] ((our_class_iff settings bare_ingress).1 (unfold class_of in refl)) refl refl

add_item_ignores_test :
    (err : Option GoError) × (add_item compile sort platform settings empty_state
        (service web_service)
      ≡ ret (empty_state, err))
add_item_ignores_test =
    add_item_ignores compile sort platform settings empty_state (service web_service) (λ ing e. cc)

-- The state after the ingress is added, and after it is added again.
once : Replaces compile sort platform settings empty_state web_ingress
once =
    add_item-Replaces compile sort platform settings empty_state web_ingress insertion_sort-SortLaws
      web_is_ours web-HasPaths empty-IsValid

unfoldable added : State
added = once.next

twice : Replaces compile sort platform settings added web_ingress
unfolding added
twice =
    add_item-Replaces compile sort platform settings added web_ingress insertion_sort-SortLaws
      web_is_ours web-HasPaths once.valid

unfoldable again : State
again = twice.next

-- The ingress is taken, and taken again with another class.
abbrev changes : List Change
changes =
    taken web_ingress
    ∷ taken (record web_ingress { ingress_class_name = some (bytes "other") })
    ∷ []

changes_by_refines_example :
    (st : State) × (changes_by compile sort platform settings changes empty_state ≡ ret st)
    × Implements compile sort platform settings
        (wants compile sort platform settings changes [])
        st.ings
changes_by_refines_example =
    changes_by_refines compile sort platform settings changes no_certs insertion_sort-SortLaws
      ((λ e. cc, tt), ((λ e. cc, tt), tt))

changes_by-Routed_example :
    (st : State) × (found : Found) × (changes_by compile sort platform settings changes empty_state
      ≡ ret st)
    × (match_set st.ings (ask (bytes "/api")) ≡ ret found)
    × Routed compile sort platform settings
        (wants compile sort platform settings changes [])
        (ask (bytes "/api"))
        found
changes_by-Routed_example =
    changes_by-Routed compile sort platform settings changes no_certs (ask (bytes "/api"))
      insertion_sort-SortLaws ((λ e. cc, tt), ((λ e. cc, tt), tt))

-- An ingress whose one section names a host, and one that has a second section, which names none.
abbrev with_host : IngressTls
with_host = record { hosts = bytes "a.test" ∷ []; secret_name = bytes "web-tls" }

abbrev without_hosts : IngressTls
without_hosts = record { hosts = []; secret_name = bytes "web-tls" }

abbrev secured : KubeIngress
secured = record web_ingress { tls = with_host ∷ without_hosts ∷ [] }

secured_is_ours : our_class settings secured ≡ true
secured_is_ours = (our_class_iff settings secured).1 (unfold class_of in refl)

taken_in : Replaces compile sort platform settings empty_state secured
taken_in =
    add_item-Replaces compile sort platform settings empty_state secured insertion_sort-SortLaws
      secured_is_ours web-HasPaths empty-IsValid

own-add_item_example :
    own (key_of secured) (entries_at (bytes "a.test") taken_in.next.certs.cert_map.set) ≡ (
      if length without_hosts.hosts == 0 && elem (bytes "a.test") (rule_hosts secured.rules)
      then entry platform
          (add_tls compile platform secured
            (rule_hosts secured.rules)
            (with_host ∷ [])
            empty_state.certs)
          (key_of secured)
          (secret_of secured without_hosts)
        ∷ []
      else [])
own-add_item_example =
    own-add_item compile platform sort settings empty_state taken_in.next secured (with_host ∷ [])
      without_hosts none (bytes "a.test") secured_is_ours refl taken_in.returns
