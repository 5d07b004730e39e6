-- ===== src/Proxy/Tests.antt =====
-- Tests of the proxy, on one ingress with two endpoints.
use mathlib.Core.Path.{◌≡◌}
use minke.Base.{[], ◌∷◌, none, List_ℕ-eq, List_ℕ-discrete, refl}
use minke.GoText.{bytes, itoa, has_prefix, has_suffix, wildcard_name}
use minke.GoMap.{lookup, copy}
use minke.Kube.{endpoints}
use minke.Endpoints.{EpsSet, ServiceKey-discrete}
use minke.Endpoints.Invariant.{adds, run, run-IsWellFormed, empty-IsWellFormed}
use minke.Ingress.Validity.{IsValid, singleton-IsValid}
use minke.Proxy.{Routes, proxied, header_only, handler}
use minke.Proxy.Answers.{Answers, handler-Answers}
use minke.Samples.{web, web_set, web_endpoints, ask, url_string, outgoing, transport}

abbrev eps : EpsSet
eps = run [] (adds (endpoints web_endpoints) ∷ [])

abbrev routes : Routes
routes = record { ings = web_set; svc = []; eps = eps; set_quic_headers = none }

handling : Unit {0}
unfolding handler lookup copy run has_prefix has_suffix List_ℕ-discrete ServiceKey-discrete
    wildcard_name itoa
handling = tt

handler_tests :
    ((handler url_string outgoing transport routes (ask (bytes "/api")) []).1.1
      ≡ proxied (record { status = 200; body = bytes "10.0.0.2:80" }))
    × ((handler url_string outgoing transport routes (ask (bytes "/other")) []).1.1
        ≡ header_only 404)
unfolding handling
handler_tests = (refl, refl)

web_set-IsValid : IsValid web_set
web_set-IsValid =
    singleton-IsValid (bytes "a.test") (web ∷ []) ((refl, (refl, (refl, tt))), tt)
      (((λ e. cc), ((λ e. cc), ((λ e. cc), tt))), tt) (tt, tt)

handler-Answers_example : Answers url_string outgoing transport routes (ask (bytes "/api")) (
  (handler url_string outgoing transport routes (ask (bytes "/api")) []).0,
  (handler url_string outgoing transport routes (ask (bytes "/api")) []).1.1,
)
handler-Answers_example =
    handler-Answers url_string outgoing transport routes (ask (bytes "/api")) []
      web_set-IsValid.ready
      (run-IsWellFormed [] (adds (endpoints web_endpoints) ∷ []) empty-IsWellFormed)
