-- ===== src/Services/Tests.antt =====
-- Tests of the services, on one service that declares http2.
use mathlib.Core.Path.{◌≡◌}
use minke.Base.{[], ◌&&◌, ◌==◌, if◌then◌else◌, ◌⊎◌, List_ℕ-eq, refl}
use minke.GoText.{GoString, bytes}
use minke.GoMap.{GoMap, lookup, insert}
use minke.GoMap.Laws.{or_else}
use minke.Kube.{service}
use minke.Services.{SvcKey-discrete, ann_app_protos, annotation, add_item, get_service_port_scheme}
use minke.Services.Scheme.{declared, scheme_or_http, scheme-add_item, scheme_cases}
use minke.Samples.{web_key, web_service}

abbrev unmarshal : GoString → GoMap GoString GoString
unmarshal s = []

scheme_test :
    get_service_port_scheme (add_item unmarshal [] (service web_service)).0 web_key ≡ bytes "http2"
unfolding get_service_port_scheme add_item lookup SvcKey-discrete insert
scheme_test = refl

scheme-add_item_example :
    get_service_port_scheme (add_item unmarshal [] (service web_service)).0 web_key ≡ (
      if bytes "default" == bytes "default" && bytes "web" == bytes "web"
      then scheme_or_http (
          or_else
            (declared (bytes "http") web_service.ports)
            (lookup (bytes "http") (unmarshal (annotation ann_app_protos []))))
      else get_service_port_scheme [] web_key)
scheme-add_item_example = scheme-add_item unmarshal [] web_service web_key

scheme_cases_test :
    (get_service_port_scheme [] web_key ≡ bytes "http")
    ⊎ ((get_service_port_scheme [] web_key ≡ bytes "http2")
        ⊎ (get_service_port_scheme [] web_key ≡ bytes "https"))
scheme_cases_test = scheme_cases [] web_key
