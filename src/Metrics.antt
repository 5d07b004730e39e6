-- ===== src/Metrics.antt =====
-- metrics.go: the provider of metrics and what it registers.
--
-- Package prometheus is taken as given: a registry, the registration of a collector, which panics if
-- it fails, and the choice of a metric of a vector by its label values. A collector is what its
-- constructor was given.
pub mod Queues
pub mod Reflectors
pub mod Http
pub mod Registry
pub mod Names
pub mod Calls
pub mod Setup
pub mod Rounds
pub mod Room
pub mod Once
pub mod Samples
pub mod Tests
use minke.Base.{ℕ, List, [], ◌∷◌}
use minke.GoText.{GoString, bytes}
use minke.GoMap.{GoMap}
use minke.Panic.{Run, ret, ◌>>=◌}

pub data Kind : Type 0 where
  gauge counter histogram summary : Kind

-- The upper bounds of a histogram, in thousandths; those of the package, if none are given.
pub data Buckets : Type 0 where
  default : Buckets
  given : List ℕ → Buckets

pub record Opts : Type 0 where
  pub subsystem : GoString
  pub name : GoString
  pub help : GoString
  pub const_labels : GoMap GoString GoString
  pub buckets : Buckets

-- A metric, or a vector of metrics if there are variable labels.
pub record Collector : Type 0 where
  pub kind : Kind
  pub opts : Opts
  pub variable_labels : List GoString

-- What the program calls of package prometheus. R is the type of registries, and M that of metrics.
pub record Package (R : Type 0) (M : Type 0) : Type 0 where
  pub must_register : Collector → R → Run R
  pub with_label_values : Collector → List GoString → Run M

-- MustRegister of several collectors, which stops at the first that fails.
abbrev pub must_register_all : {R : Type 0} {M : Type 0} → Package R M → List Collector → R → Run R
must_register_all pkg [] r = ret r
must_register_all pkg (c ∷ cs) r = pkg.must_register c r >>= λ r'. must_register_all pkg cs r'

-- The vectors of the reflectors; the registry is passed along.
pub record Provider : Type 0 where
  pub lists_total : Collector
  pub lists_duration : Collector
  pub items_per_list : Collector
  pub watches_total : Collector
  pub short_watches_total : Collector
  pub watch_duration : Collector
  pub items_per_watch : Collector
  pub list_watch_error : Collector

abbrev pub reflector_subsystem : GoString
reflector_subsystem = bytes "reflector"

-- The label of the vectors.
abbrev pub name_label : List GoString
name_label = bytes "name" ∷ []

abbrev pub reflector_vec : Kind → GoString → GoString → Collector
reflector_vec kind name help = record {
  kind = kind;
  opts = record {
    subsystem = reflector_subsystem;
    name = name;
    help = help;
    const_labels = [];
    buckets = default;
  };
  variable_labels = name_label;
}

abbrev pub provider : Provider
provider = record {
  lists_total =
      reflector_vec counter (bytes "lists_total")
        (bytes "Total number of API lists done by the reflectors");
  lists_duration =
      reflector_vec summary (bytes "list_duration_seconds")
        (bytes "How long an API list takes to return and decode for the reflectors");
  items_per_list =
      reflector_vec summary (bytes "items_per_list")
        (bytes "How many items an API list returns to the reflectors");
  watches_total =
      reflector_vec counter (bytes "watches_total")
        (bytes "Total number of API watches done by the reflectors");
  short_watches_total =
      reflector_vec counter (bytes "short_watches_total")
        (bytes "Total number of short API watches done by the reflectors");
  watch_duration =
      reflector_vec summary (bytes "watch_duration_seconds")
        (bytes "How long an API watch takes to return and decode for the reflectors");
  items_per_watch =
      reflector_vec summary (bytes "items_per_watch")
        (bytes "How many items an API watch returns to the reflectors");
  list_watch_error =
      reflector_vec gauge (bytes "list_watch_error")
        (bytes "Whether or not the reflector received an error on its last list or watch attempt");
}

-- The order of the calls of MustRegister.
abbrev pub vectors : Provider → List Collector
vectors p =
    p.lists_total ∷ p.lists_duration ∷ p.items_per_list ∷ p.watches_total ∷ p.short_watches_total
    ∷ p.watch_duration ∷ p.items_per_watch ∷ p.list_watch_error ∷ []

unfoldable pub new_prometheus_metrics :
    {R : Type 0} {M : Type 0} → Package R M → R → Run (R × Provider)
new_prometheus_metrics pkg r =
    must_register_all pkg (vectors provider) r >>= λ r'. ret (r', provider)
