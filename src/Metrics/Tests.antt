-- ===== src/Metrics/Tests.antt =====
-- Tests of the metrics, with a list of collectors for the registry.
use mathlib.Core.List.{Nodup}
use minke.Base.{List, [], ◌∷◌, List_ℕ-eq, ◌≡◌, ◌↔◌, refl}
use minke.GoText.{bytes}
use minke.Panic.{ret}
use minke.Metrics.{Collector, provider, new_prometheus_metrics}
use minke.Metrics.Names.{of_depth, of_adds}
use minke.Metrics.Calls.{Call, calls}
use minke.Metrics.Setup.{IsFree, new_prometheus_metrics-calls}
use minke.Metrics.Samples.{list_registry, laws}

-- The metrics of the two queues of a test.
abbrev queue_calls : List Call
queue_calls =
    record { metric = of_depth; name = bytes "ingress" }
    ∷ record { metric = of_depth; name = bytes "secret" }
    ∷ record { metric = of_adds; name = bytes "ingress" }
    ∷ []

empty-IsFree : IsFree list_registry laws []
empty-IsFree = record { vectors_free = λ t e. refl; metrics_free = λ m. refl }

new_prometheus_metrics-calls_example :
    (r' : List Collector) × (new_prometheus_metrics list_registry [] ≡ ret (r', provider))
    × (Nodup queue_calls
        ↔ ((r'' : List Collector) × (calls list_registry queue_calls r' ≡ ret r'')))
new_prometheus_metrics-calls_example =
    new_prometheus_metrics-calls list_registry laws [] queue_calls empty-IsFree
      (refl, (refl, (refl, (refl, (refl, (refl, (refl, (refl, tt)))))))) (refl, (refl, (refl, tt)))
