-- ===== src/System/Tests.antt =====
-- Tests of the controller, from its start to a request and a handshake.
use mathlib.Core.Path.{◌≡◌}
use mathlib.Core.List.{Memᴰ}
use minke.Base.{
  ℕ, [], ◌∷◌, none, some, true, refl, List_ℕ-discrete, List_ℕ-eq, List, ◌==◌, arith, Bool-cases,
  inl, inr,
}
use minke.Base.Int.{pos, ltb_ℤ, ℤ-discrete}
use minke.GoText.{GoString, bytes, has_prefix, wildcard_name}
use minke.GoMap.{lookup, copy, insert, map_values}
use minke.Kube.{ingress, endpoints}
use minke.Endpoints
use minke.Endpoints.{EpsSet, ServiceKey-discrete}
use minke.Ingress.Sort.{insertion_sort, insertion_sort-SortLaws}
use minke.Ingress.{IngressSet, prefix, update}
use minke.Secrets.{
  SecretData, CertMapEntry, SecretKey-eq, SecretKey-discrete, load, cert_of, get_cert,
}
use minke.Certificates.{controller_get_certificate, set_defaults}
use minke.Certificates.Coherence.{IsCoherent}
use minke.Certificates.Defaults.{IsNamed}
use minke.Certificates.Serving.{entries_for}
use minke.IngressHandler
use minke.IngressHandler.{State}
use minke.Processor.{Fetched, process_next_item}
use minke.Proxy.{handler}
use minke.Proxy.Answers.{Answers}
use minke.Controller.{Processors}
use minke.System.{
  Env, System, platform_at, start_with, ing_works, eps_works, preloads, Reach, here, later, routes,
}
use minke.System.Invariant.{Reach-Answers}
use minke.System.Coherence.{Reach-IsCoherent, Reach-Serves}
use minke.Samples.{
  platform, web_secrets, settings, compile, sort, keys, url_string, outgoing, transport,
  web_ingress, web_endpoints, cert_key, web_cert, hello, ask, rule,
}

controlling : Unit {0}
unfolding controller_get_certificate set_defaults process_next_item IngressHandler.add_item
    Endpoints.add_item insert copy lookup has_prefix List_ℕ-discrete ServiceKey-discrete
    SecretKey-discrete wildcard_name ltb_ℤ get_cert map_values update insertion_sort
    Endpoints.backend_to_service_key ℤ-discrete
controlling = tt

abbrev env : Env (List GoString)
env = record {
  compile = compile;
  sort = sort;
  platform = platform;
  secrets_at = λ now. web_secrets;
  settings = settings;
  unmarshal = λ text. [];
  url_string = url_string;
  outgoing = outgoing;
  transport = transport;
  set_quic_headers = none;
  queue = keys;
}

abbrev web_name : GoString
web_name = bytes "default/web"

abbrev queues : Processors (List GoString)
queues = record { ing = web_name ∷ []; svc = []; sec = []; eps = web_name ∷ [] }

abbrev started : System (List GoString)
started = start_with queues

-- The defaults are preloaded.
abbrev loaded : System (List GoString)
loaded = record started { certs = set_defaults (platform_at env 0) started.certs (cert_key ∷ []) }

Reach-loaded : Reach env started loaded
Reach-loaded = later here (preloads 0 (cert_key ∷ []))

web_secrets-IsNamed : (now : ℕ) → IsNamed (platform_at env now)
web_secrets-IsNamed now key sec e = elim (Bool-cases (key.namespace == bytes "default")) [
  | inr t ↦ ground arith
  | inl t ↦ elim (Bool-cases (key.name == bytes "cert")) [
    | inr u ↦ ground arith
    | inl u ↦ ground arith
  ]
]

Reach-IsCoherent_example : IsCoherent (load platform) loaded.certs
Reach-IsCoherent_example = Reach-IsCoherent env web_secrets-IsNamed queues loaded Reach-loaded

Reach-Serves_example :
    (e : CertMapEntry) × Memᴰ e (entries_for loaded.certs.cert_map hello)
    × ((vs : SecretData)
        → lookup e.sec loaded.certs.secrets ≡ some vs
        → cert_of (load platform vs) ≡ some web_cert)
unfolding controlling
Reach-Serves_example =
    Reach-Serves env web_secrets-IsNamed queues loaded (pos 5) hello web_cert Reach-loaded given
  where
    given : controller_get_certificate (pos 5) loaded.certs.cert_map hello ≡ some web_cert
    given = refl

-- The workers take the one ingress and its endpoints.
abbrev ingress_at : GoString → Fetched
ingress_at key = record { obj = ingress web_ingress; exists = true; err = none }

abbrev endpoints_at : GoString → Fetched
endpoints_at key = record { obj = endpoints web_endpoints; exists = true; err = none }

-- What the handler makes of the ingress.
abbrev set : IngressSet
set =
    (
      bytes "a.test",
      record {
        name = bytes "web";
        namespace = bytes "default";
        priority = none;
        default_backend = none;
        rules = rule prefix (bytes "/api") ∷ [];
        http_redir = true;
      }
          ∷ [],
    )
    ∷ []

abbrev with_ings : System (List GoString)
with_ings = record started { queues = record queues { ing = [] }; ings = set }

abbrev with_eps : System (List GoString)
with_eps = record with_ings {
  queues = record with_ings.queues { eps = [] };
  eps = (Endpoints.add_item [] (endpoints web_endpoints)).0;
}

Reach-with_ings : Reach env started with_ings
unfolding controlling
Reach-with_ings =
    later here (ing_works 0 ingress_at true [] (record { ings = set; certs = started.certs }) refl)

Reach-with_eps : Reach env with_ings with_eps
unfolding controlling
Reach-with_eps =
    later here
      (eps_works endpoints_at true [] (Endpoints.add_item [] (endpoints web_endpoints)).0 refl)

Reach-Answers_example :
    Answers url_string outgoing transport
      (routes env with_ings with_ings with_eps)
      (ask (bytes "/api"))
      (
        (handler url_string outgoing transport
            (routes env with_ings with_ings with_eps)
            (ask (bytes "/api"))
            []).0,
        (handler url_string outgoing transport
            (routes env with_ings with_ings with_eps)
            (ask (bytes "/api"))
            []).1.1,
      )
Reach-Answers_example =
    Reach-Answers env insertion_sort-SortLaws queues with_ings with_ings with_eps
      (ask (bytes "/api")) [] Reach-with_ings here Reach-with_eps
