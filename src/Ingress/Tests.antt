-- ===== src/Ingress/Tests.antt =====
-- Tests of the ingresses, on one host with three rules.
use mathlib.Core.Path.{◌≡◌}
use minke.Base.{ℕ, ◌<◌, Bool, true, false, [], ◌∷◌, none, some, ◌↔◌, inr, refl, List_ℕ-discrete}
use minke.GoText.{bytes, has_prefix, has_suffix, wildcard_name}
use minke.GoMap.{lookup}
use minke.Panic.{ret}
use minke.Ingress.{IngressSet, prefix, exact, glob, Ingress, Found, less, match_group, match_set}
use minke.Ingress.Paths.{ElementPrefix}
use minke.Ingress.Rule.{measure, Sound, match_rule-Sound}
use minke.Ingress.Prefix.{prefix_iff, glob_iff}
use minke.Ingress.Group.{Chosen, match_group-Chosen}
use minke.Ingress.Hosts.{Selected, match_set-Selected}
use minke.Ingress.Serving.{match_set_wildcard}
use minke.Ingress.Order.{Precedes, less_iff}
use minke.Ingress.Validity.{IsValid, singleton-IsValid}
use minke.Samples.{rule, web, web_set, ask}

matching : Unit {0}
unfolding match_set lookup has_prefix has_suffix List_ℕ-discrete wildcard_name measure
matching = tt

match_set_tests :
    (match_set web_set (ask (bytes "/api")) ≡ ret (some web, some (rule exact (bytes "/api"))))
    × (match_set web_set (ask (bytes "/api/x")) ≡ ret (some web, some (rule prefix (bytes "/api"))))
    × (match_set web_set (ask (bytes "/apix")) ≡ ret (none, none))
    × (match_set web_set (ask (bytes "/files/x"))
        ≡ ret (some web, some (rule glob (bytes "/files/*"))))
unfolding matching
match_set_tests = (refl, refl, refl, refl)

web_set-IsValid : IsValid web_set
web_set-IsValid =
    singleton-IsValid (bytes "a.test") (web ∷ []) ((refl, (refl, (refl, tt))), tt)
      (((λ e. cc), ((λ e. cc), ((λ e. cc), tt))), tt) (tt, tt)

match_set-Selected_example :
    (found : Found) × (match_set web_set (ask (bytes "/api")) ≡ ret found)
    × Selected (ask (bytes "/api")) web_set found
match_set-Selected_example = match_set-Selected (ask (bytes "/api")) web_set web_set-IsValid.ready

match_group-Chosen_example :
    (found : Found) × (match_group (web ∷ []) (ask (bytes "/api")) ≡ ret found)
    × Chosen (ask (bytes "/api")) (web ∷ []) found
match_group-Chosen_example =
    match_group-Chosen (ask (bytes "/api")) (web ∷ [])
      (((λ e. cc), ((λ e. cc), ((λ e. cc), tt))), tt)

abbrev wild : Ingress
wild = record web { rules = record (rule prefix (bytes "/")) { host = bytes "*.test" } ∷ [] }

abbrev wild_set : IngressSet
wild_set = (bytes "*.test", wild ∷ []) ∷ []

wild_set-IsValid : IsValid wild_set
wild_set-IsValid =
    singleton-IsValid (bytes "*.test") (wild ∷ []) ((refl, tt), tt) (((λ e. cc), tt), tt) (tt, tt)

match_set_wildcard_example : match_set wild_set (ask (bytes "/api")) ≡ ret (none, none)
unfolding matching
match_set_wildcard_example =
    match_set_wildcard (ask (bytes "/api")) wild_set wild_set-IsValid.ready refl refl

prefix_iff_example :
    (0 < (measure (rule prefix (bytes "/api")) (ask (bytes "/api/x"))).0)
    ↔ ElementPrefix (bytes "/api") (bytes "/api/x")
prefix_iff_example =
    prefix_iff (rule prefix (bytes "/api")) (ask (bytes "/api/x")) refl (inr refl) (λ e. cc)
      (λ e. cc)

glob_iff_example :
    (0 < (measure (rule glob (bytes "/files/*")) (ask (bytes "/files/x"))).0)
    ↔ ElementPrefix (bytes "/files") (bytes "/files/x")
glob_iff_example =
    glob_iff (rule glob (bytes "/files/*")) (ask (bytes "/files/x")) (bytes "/files") refl
      (inr refl) refl (λ e. cc) (λ e. cc)

match_rule-Sound_example :
    (l : ℕ) × (e : Bool) × Sound (rule exact (bytes "/api")) (ask (bytes "/api")) l e
match_rule-Sound_example =
    match_rule-Sound (rule exact (bytes "/api")) (ask (bytes "/api")) (λ e. cc) (λ re e. cc)

abbrev other : Ingress
other = record web { name = bytes "other"; rules = [] }

less_iff_example :
    ((less other web ≡ true) ↔ Precedes other web)
    × (((less other web ≡ false) × (less web other ≡ false)) ↔ (
        (other.priority ≡ web.priority)
        × (other.name ≡ web.name)
        × (other.namespace ≡ web.namespace)))
less_iff_example = less_iff other web
