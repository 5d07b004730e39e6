-- ===== src/Endpoints/Tests.antt =====
-- Tests of the endpoints, on one service with two addresses.
use mathlib.Core.Path.{◌≡◌}
use minke.Base.{
  ℕ, ◌<◌, List, [], ◌∷◌, none, ◌&&◌, ◌==◌, if◌then◌else◌, refl, arith, map, length, List_ℕ-eq,
}
use minke.Base.Int.{pos}
use minke.GoText.{bytes}
use minke.GoMap.{lookup, copy}
use minke.GoMap.Laws.{or_else}
use minke.Panic.{ret}
use minke.Kube.{endpoints}
use minke.Endpoints.{
  ServiceKey-discrete, ServiceKey-eq, ServiceAddr, service_key_string, service_addr_string, report,
  get_next_addr, add_item, del_item,
}
use minke.Endpoints.Invariant.{Call, adds, asks, run, Gives, run-get_next_addr}
use minke.Endpoints.RoundRobin.{asked, asked_fair}
use minke.Endpoints.Update.{published, fresh_set, lookup-add_item, lookup-del_item}
use minke.Endpoints.Report.{IsPlain, listed, addrs_at, listed-report}
use minke.Samples.{web_key, web_addrs, web_eps, web_endpoints}

asking : Unit {0}
unfolding run copy lookup ServiceKey-discrete get_next_addr
asking = tt

abbrev second : ServiceAddr
second = record { addr = bytes "10.0.0.2"; port = pos 80 }

abbrev history : List Call
history = adds (endpoints web_endpoints) ∷ asks web_key ∷ []

run_test : (get_next_addr (run [] (adds (endpoints web_endpoints) ∷ [])) web_key).1 ≡ ret second
unfolding asking
run_test = refl

run-get_next_addr_example :
    (a : ServiceAddr) × ((get_next_addr (run [] history) web_key).1 ≡ ret a)
    × Gives (run [] history) web_key a
run-get_next_addr_example = run-get_next_addr history web_key

asked_fair_example :
    (n : ℕ) × (n < length (web_addrs.addrs))
    × ((get_next_addr (asked n web_eps web_key) web_key).1 ≡ ret second)
unfolding asking
asked_fair_example = asked_fair web_eps web_key web_addrs 1 second refl (omega arith) refl

lookup-add_item_example :
    (lookup web_key (add_item [] (endpoints web_endpoints)).0
      ≡ or_else
          (fresh_set (published (bytes "default") (bytes "web") web_endpoints.subsets web_key))
          (lookup web_key []))
    × ((add_item [] (endpoints web_endpoints)).1 ≡ none)
lookup-add_item_example = lookup-add_item [] web_endpoints web_key

lookup-del_item_example : lookup web_key (del_item web_eps (endpoints web_endpoints)).0 ≡ (
    if web_key.namespace == bytes "web" && web_key.name == bytes "default"
    then none
    else lookup web_key web_eps)
lookup-del_item_example = lookup-del_item web_eps web_endpoints web_key

web_key-IsPlain : IsPlain web_key
web_key-IsPlain = (
  (λ e. cc, (λ e. cc, (λ e. cc, (λ e. cc, (λ e. cc, (λ e. cc, (λ e. cc, tt))))))),
  (λ e. cc, (λ e. cc, (λ e. cc, tt))),
)

listed-report_example :
    listed (service_key_string web_key) (report web_eps [])
    ≡ map service_addr_string (addrs_at web_key web_eps)
unfolding lookup
listed-report_example =
    listed-report web_key web_eps (refl, tt) web_key-IsPlain (web_key-IsPlain, tt)
