-- ===== src/Main/Scenarios.antt =====
-- Tests of the whole command, from its flags to its exit.
use mathlib.Core.Path.{◌≡◌, ◌∙◌, subst}
use mathlib.Core.Logic.{∥∥₁_elim}
use mathlib.Core.HLevel.{⊥_prop}
use mathlib.Core.List.{Memᴰ, Nodup, Pairwise}
use minke.Base.{
  Bool, true, false, [], ◌∷◌, Option, none, some, inr, refl, ℕ_discrete, List_ℕ-discrete, List,
  ==_iff, Bool-cases, inl, arith, ◌==◌, List_ℕ-eq,
}
use minke.GoText.{GoString, bytes, split, split_two, to_lower, elem}
use minke.Panic.{ret, ◌>>=◌}
use minke.Transport.{round_trip}
use minke.Processor.{queue_name}
use minke.Metrics.{Collector, gauge, default, new_prometheus_metrics}
use minke.Metrics.Http.{unlabelled, new_http_transport_metrics, new_http_server_metrics}
use minke.Metrics.Samples.{list_registry, laws, wraps, Labels-discrete}
use minke.Controller.{initial, new, apply_options, with_default_tls_secrets, with_client_tls_secret}
use minke.Controller.Construction.{make_queues, build}
use minke.Controller.Watches.{setup_processes}
use minke.Controller.Fields.{Fields}
use minke.Controller.Assembly.{
  Assembled, Globals, configured, initial_fields, new_fields, base_transport, assemble,
  new_assembled,
}
use minke.Controller.Samples.{objects, packages, provider, api}
use minke.Main.{Listeners, serves, default_secrets, trim_space, is_done, new_controller, options}
use minke.Main.Startup.{
  Flags, main_transport, Serving, serving, Dependencies, serving_by, start_controller, start,
}
use minke.Main.Started.{Serves, start-Serves}
use minke.Main.Starts.{CanStart, start_total}
use minke.Metrics.Names.{
  Metric, of_depth, of_adds, of_latency, of_work_duration, of_retries, of_last_resource_version,
  of_longest_running_processor, of_unfinished_work_seconds, text_of,
}
use minke.Metrics.Calls.{calls}
use minke.Metrics.Setup.{vector_texts}
use minke.Metrics.Rounds.{round}
use minke.Metrics.Room.{http_texts, IsUnused}
use minke.Main.Shutdown.{ContextError, canceled, Closing, shutdown_https, main_status}
use minke.Samples.{keys, transport, cert_key}

abbrev flags : Flags
flags = record {
  master_url = [];
  kubeconfig = [];
  selector = bytes "tier=web";
  admin_addr = bytes ":8080";
  http_addr = bytes ":80";
  https_addr = bytes ":443";
  options = record {
    namespace = bytes "default";
    class = bytes "minke";
    http_redir = true;
    server_tls_default_secrets = bytes "default/cert";
    client_tls_secret = [];
  };
}

abbrev collector : GoString → Collector
collector name = unlabelled gauge name [] default []

-- All calls of the packages succeed.
abbrev d : Dependencies objects Unit Unit Unit
d = record {
  build_config_from_flags = λ master config. inr tt;
  new_for_config = λ cfg. inr tt;
  parse_selector = λ s. inr s;
  set_quic_headers = λ addr. tt;
  new_registry = [];
  process_collector = collector (bytes "process");
  go_collector = collector (bytes "go");
  registry = list_registry;
  promhttp = wraps;
  packages = λ g. packages;
}

abbrev unset : Globals objects
unset = record { of_workqueue = none; of_reflectors = none; metrics_provider = none }

abbrev fields : Fields objects
fields = record (initial_fields objects packages (some provider) tt) {
  settings = record initial { namespace = bytes "default"; default_tls_secrets = cert_key ∷ [] };
  selector = bytes "tier=web";
  client_transport = some (main_transport objects);
  set_quic_headers = some tt;
}

abbrev controller : Assembled objects
controller = record {
  fields = configured objects fields;
  processors =
      setup_processes objects api keys fields (record { ing = []; svc = []; sec = []; eps = [] });
  transport = round_trip transport;
  handler = bytes "handler";
}

abbrev served : Serving objects
served = serving_by objects d flags controller

starts : start objects d flags unset ≡ ret (serving served)
unfolding start start_controller new_assembled new_fields apply_options assemble base_transport
    build make_queues queue_name split to_lower new_prometheus_metrics new_http_transport_metrics
    new_http_server_metrics with_default_tls_secrets with_client_tls_secret default_secrets
    trim_space split_two ℕ_discrete List_ℕ-discrete Labels-discrete
starts = refl

start-Serves_example : Serves objects d flags unset served
start-Serves_example = start-Serves objects d flags unset served starts

-- The address of the https listener is in use.
abbrev without_https : Listeners
without_https = record {
  admin = serves;
  http = serves;
  https_listen = some (bytes "address already in use");
  https = serves;
  http3 = serves;
}

-- The error of a context that is only ever canceled.
abbrev ctx_err : Bool → Listeners → Option ContextError
ctx_err signal l = some canceled

abbrev waits : Closing → Bool
waits shutdown_https = false
waits c = true

-- A failed listener ends the program with status 0, once the servers have shut down; but the program
-- runs on while the https server waits for a connection.
failed_listener :
    (main_status objects ctx_err (λ c. true) false (ret (serving served)) false without_https
      ≡ some 0)
    × (main_status objects ctx_err waits false (ret (serving served)) false without_https ≡ none)
unfolding main_status is_done
failed_listener = (refl, refl)

-- A queue that registers two metrics under its name.
abbrev two : List Metric
two = of_depth ∷ of_adds ∷ []

two-Nodup : Nodup two
two-Nodup =
    Pairwise.cons
      (λ m k same. ∥∥₁_elim k ⊥_prop (λ k'. elim k' [
        | Memᴰ.head e ↦ let wrong : of_depth ≡ of_adds = same ∙ e in cc
        | Memᴰ.tail k'' ↦ elim k'' [ ]
      ]))
      (Pairwise.cons (λ m k same. ∥∥₁_elim k ⊥_prop (λ k'. elim k' [ ])) Pairwise.nil)

abbrev measured : Dependencies objects Unit Unit Unit
measured = record d {
  packages = λ g. record packages {
    named_queue = λ name r. calls list_registry (round two name) r >>= λ r'. ret (r', []);
  };
}

-- The registry that holds the two collectors of package prometheus.
abbrev second : List Collector
second = collector (bytes "go") ∷ collector (bytes "process") ∷ []

absent :
    (t u : GoString) (ts : List GoString) → elem t ts ≡ true → elem u ts ≡ false → (t == u) ≡ false
absent t u ts h k = elim (Bool-cases (t == u)) [
  | inr other ↦ other
  | inl same ↦
      let h' : elem u ts ≡ true = subst (λ x. elem x ts ≡ true) ((==_iff t u).0 same) h in
      let no : ⊥ = ground arith in elim no [ ]
]

second_absent :
    (t : GoString) (ts : List GoString)
    → elem t ts ≡ true
    → elem (bytes "go") ts ≡ false
    → elem (bytes "process") ts ≡ false
    → elem t (bytes "go" ∷ bytes "process" ∷ []) ≡ false
second_absent t ts h k l =
    ground (arith, absent t (bytes "go") ts h k, absent t (bytes "process") ts h l)

second-metrics : (m : Metric) → elem (text_of m) (bytes "go" ∷ bytes "process" ∷ []) ≡ false
unfolding List_ℕ-discrete
second-metrics of_depth = refl
second-metrics of_adds = refl
second-metrics of_latency = refl
second-metrics of_work_duration = refl
second-metrics of_retries = refl
second-metrics of_last_resource_version = refl
second-metrics of_longest_running_processor = refl
second-metrics of_unfinished_work_seconds = refl

second-IsUnused : IsUnused list_registry laws second
unfolding List_ℕ-discrete
second-IsUnused = record {
  free = record {
    vectors_free = λ t h. second_absent t vector_texts h refl refl;
    metrics_free = second-metrics;
  };
  http_free = λ t h. second_absent t http_texts h refl refl;
}

settled : new_controller flags.options ≡ inr fields.settings
unfolding new_controller options new apply_options with_default_tls_secrets with_client_tls_secret
    default_secrets trim_space split split_two ℕ_discrete List_ℕ-discrete
settled = refl

measured-CanStart : CanStart objects measured flags unset laws
unfolding List_ℕ-discrete Labels-discrete
measured-CanStart = record {
  cfg = tt;
  client = tt;
  selector = bytes "tier=web";
  configures = refl;
  connects = refl;
  selects = refl;
  settings = fields.settings;
  settles = settled;
  first = collector (bytes "process") ∷ [];
  second = second;
  of_process = refl;
  of_go = refl;
  unused = second-IsUnused;
  queues = record { metrics = two; once = two-Nodup; queue = λ name. []; makes = λ name r. refl };
  valid = record {
    of_vectors = (refl, (refl, (refl, (refl, (refl, (refl, (refl, (refl, tt))))))));
    of_queues = (refl, (refl, (refl, (refl, (refl, (refl, (refl, (refl, tt))))))));
    of_client = (refl, (refl, (refl, tt)));
    of_server = (refl, (refl, (refl, tt)));
  };
}

start_total_example :
    (s : Serving objects) × (start objects measured flags unset ≡ ret (serving s))
    × Serves objects measured flags unset s
start_total_example = start_total objects measured flags unset laws measured-CanStart
