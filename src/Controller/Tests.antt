-- ===== src/Controller/Tests.antt =====
-- Tests of the options.
use mathlib.Core.Path.{◌≡◌, subst}
use mathlib.Core.List.{Memᴰ}
use minke.Base.{arith, ◌≢◌, true, List, [], ◌∷◌, inr, some, refl, ℕ_discrete, List_ℕ-discrete}
use minke.GoText.{bytes}
use minke.Kube.{GoError}
use minke.GoText.{split, to_lower}
use minke.Panic.{ret}
use minke.Processor.{queue_name}
use minke.Metrics.{Collector}
use minke.Metrics.Http.{
  tls_latency_vec, client_duration_vec, client_in_flight, server_in_flight, server_requests,
  server_duration_vec, new_http_transport_metrics, new_http_server_metrics,
}
use minke.Metrics.Samples.{list_registry, laws, wraps, Labels-discrete}
use minke.Controller.Construction.{make_queues, build}
use minke.Controller.Watches.{setup_processes}
use minke.Controller.Assembly.{
  Assembled, configured, initial_fields, new_fields, base_transport, assemble, new_assembled,
}
use minke.Controller.Once.{QueueKeeps, new_assembled_once}
use minke.Controller.Samples.{objects, api, plain_queue, packages, provider}
use minke.Transport.{round_trip}
use minke.Samples.{keys, transport}
use minke.Controller.{ing, svc, sec, eps}
use minke.Controller.Running.{
  Action, runs, works, waits, preloads, until_stopped, Progress, at_start, acts, stops, Comes,
  stays, moves,
}
use minke.Controller.Order.{IsGuarded, Comes-IsGuarded}
use minke.Controller.{with_default_backend, with_default_tls_secrets, initial, new}

settling : Unit {0}
unfolding new with_default_backend with_default_tls_secrets ℕ_discrete List_ℕ-discrete
settling = tt

new_test :
    new (with_default_backend (bytes "default/web") ∷ [])
    ≡ inr (record initial {
      default_backend_namespace = bytes "default";
      default_backend_name = bytes "web";
    })
unfolding settling
new_test = refl

abbrev malformed : GoError
malformed = bytes "default backend service should be in the for of NAMESPACE/NAME"

-- Run takes its first four actions, and the channel is closed after the first.
abbrev last : List Action
last =
    runs svc
    ∷ runs eps
    ∷ runs ing
    ∷ waits (ing ∷ svc ∷ sec ∷ eps ∷ [])
    ∷ works ing
    ∷ works svc
    ∷ works eps
    ∷ until_stopped
    ∷ []

abbrev closed : Progress
closed = record at_start {
  done = runs sec ∷ [];
  rest = waits (sec ∷ []) ∷ works sec ∷ preloads ∷ last;
  stopped = true;
}

abbrev loaded : Progress
loaded = record closed {
  done = runs sec ∷ waits (sec ∷ []) ∷ works sec ∷ preloads ∷ [];
  rest = last;
}

Comes-closed : Comes at_start closed
Comes-closed = moves (moves stays (acts (runs sec) closed.rest refl refl)) stops

Comes-loaded : Comes at_start loaded
Comes-loaded =
    moves
      (moves (moves Comes-closed (acts (waits (sec ∷ [])) (works sec ∷ preloads ∷ last) refl refl))
        (acts (works sec) (preloads ∷ last) refl refl))
      (acts preloads last refl refl)

Comes-IsGuarded_example : IsGuarded loaded
Comes-IsGuarded_example = Comes-IsGuarded Comes-loaded

plain_queue-QueueKeeps : QueueKeeps list_registry laws plain_queue
plain_queue-QueueKeeps name r r' q o e m = let same : r ≡ r' = ground arith in subst (Memᴰ o) same m

-- What New makes of no options, with a provider, and then holds in the registry.
abbrev made : Assembled objects
made = record {
  fields = configured objects (initial_fields objects packages (some provider) tt);
  processors =
      setup_processes objects api keys (initial_fields objects packages (some provider) tt)
        (record { ing = []; svc = []; sec = []; eps = [] });
  transport = round_trip transport;
  handler = bytes "handler";
}

abbrev registry : List Collector
registry =
    server_duration_vec ∷ server_requests ∷ server_in_flight ∷ client_in_flight
    ∷ client_duration_vec ∷ tls_latency_vec ∷ []

new_assembled_once_example :
    new_assembled objects packages (some provider) tt [] registry ≢ ret ([], inr made)
unfolding new_assembled new_fields assemble base_transport build make_queues queue_name split
    to_lower new_http_transport_metrics new_http_server_metrics List_ℕ-discrete Labels-discrete
    ℕ_discrete
new_assembled_once_example =
    new_assembled_once objects list_registry laws wraps packages (some provider) (some provider) tt
      tt [] [] [] registry [] made made plain_queue-QueueKeeps refl refl refl
