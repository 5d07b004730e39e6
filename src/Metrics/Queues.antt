-- ===== src/Metrics/Queues.antt =====
-- metrics.go: the metrics of a work queue, and the resource version of a reflector, each of which is
-- made for a name and registered at once.
use minke.Base.{[], ◌∷◌}
use minke.GoText.{GoString, bytes}
use minke.Panic.{Run, ret, ◌>>=◌}
use minke.Metrics.{
  Kind, gauge, counter, histogram, default, Collector, Package, reflector_subsystem,
}

abbrev pub named : Kind → GoString → GoString → GoString → GoString → Collector
named kind subsystem metric help name = record {
  kind = kind;
  opts = record {
    subsystem = subsystem;
    name = metric;
    help = help;
    const_labels = (bytes "name", name) ∷ [];
    buckets = default;
  };
  variable_labels = [];
}

abbrev pub queue_subsystem : GoString
queue_subsystem = bytes "workqueue"

abbrev pub depth : GoString → Collector
depth = named gauge queue_subsystem (bytes "depth") (bytes "Current depth of workqueue")

abbrev pub adds : GoString → Collector
adds =
    named counter queue_subsystem (bytes "adds") (bytes "Total number of adds handled by workqueue")

abbrev pub latency : GoString → Collector
latency =
    named histogram queue_subsystem (bytes "queue_latency")
      (bytes "How long an item stays in workqueue before being requested.")

abbrev pub work_duration : GoString → Collector
work_duration =
    named histogram queue_subsystem (bytes "work_duration")
      (bytes "How long processing an item from workqueue takes.")

abbrev pub retries : GoString → Collector
retries =
    named counter queue_subsystem (bytes "retries")
      (bytes "Total number of retries handled by workqueue")

abbrev pub last_resource_version : GoString → Collector
last_resource_version =
    named gauge reflector_subsystem (bytes "last_resource_version")
      (bytes "last resource version seen for the reflectors")

abbrev pub longest_running_processor : GoString → Collector
longest_running_processor =
    named gauge queue_subsystem (bytes "longest_running_processor")
      (bytes "How many seconds has the longest running processor for workqueue been running.")

abbrev pub unfinished_work_seconds : GoString → Collector
unfinished_work_seconds = named gauge queue_subsystem (bytes "unfinished_work_seconds") (
    bytes
      "How many seconds of work has done that is in progress and hasn't been observed by work_duration. Large values indicate stuck threads. One can deduce the number of stuck threads by observing the rate at which this increases.")

module _ {R : Type 0} {M : Type 0} (pkg : Package R M) (name : GoString) (r : R) where
  -- What each of the methods does with its collector.
  abbrev pub registered : Collector → Run (R × Collector)
  registered c = pkg.must_register c r >>= λ r'. ret (r', c)

  unfoldable pub new_depth_metric : Run (R × Collector)
  new_depth_metric = registered (depth name)

  unfoldable pub new_adds_metric : Run (R × Collector)
  new_adds_metric = registered (adds name)

  unfoldable pub new_latency_metric : Run (R × Collector)
  new_latency_metric = registered (latency name)

  unfoldable pub new_work_duration_metric : Run (R × Collector)
  new_work_duration_metric = registered (work_duration name)

  unfoldable pub new_retries_metric : Run (R × Collector)
  new_retries_metric = registered (retries name)

  unfoldable pub new_last_resource_version_metric : Run (R × Collector)
  new_last_resource_version_metric = registered (last_resource_version name)

  unfoldable pub new_longest_running_processor_seconds_metric : Run (R × Collector)
  new_longest_running_processor_seconds_metric = registered (longest_running_processor name)

  unfoldable pub new_unfinished_work_seconds_metric : Run (R × Collector)
  new_unfinished_work_seconds_metric = registered (unfinished_work_seconds name)
