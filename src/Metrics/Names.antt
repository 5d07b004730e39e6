-- ===== src/Metrics/Names.antt =====
-- The full names of the metrics that are made for a name.
use minke.Base.{[], ◌∷◌, if◌then◌else◌, ◌==◌, List_ℕ-eq, List_ℕ-discrete, ◌≡◌, refl, ap, sym, ◌∙◌}
use minke.GoText.{GoString, bytes}
use minke.Metrics.{Collector, Package}
use minke.Metrics.Queues.{
  depth, adds, latency, work_duration, retries, last_resource_version, longest_running_processor,
  unfinished_work_seconds,
}
use minke.Metrics.Registry.{RegistryLaws}

-- The methods.
pub data Metric : Type 0 where
  of_depth of_adds of_latency of_work_duration of_retries of_last_resource_version
        of_longest_running_processor of_unfinished_work_seconds :
      Metric

abbrev pub collector_of : Metric → GoString → Collector
collector_of of_depth = depth
collector_of of_adds = adds
collector_of of_latency = latency
collector_of of_work_duration = work_duration
collector_of of_retries = retries
collector_of of_last_resource_version = last_resource_version
collector_of of_longest_running_processor = longest_running_processor
collector_of of_unfinished_work_seconds = unfinished_work_seconds

abbrev pub text_of : Metric → GoString
text_of of_depth = bytes "workqueue_depth"
text_of of_adds = bytes "workqueue_adds"
text_of of_latency = bytes "workqueue_queue_latency"
text_of of_work_duration = bytes "workqueue_work_duration"
text_of of_retries = bytes "workqueue_retries"
text_of of_last_resource_version = bytes "reflector_last_resource_version"
text_of of_longest_running_processor = bytes "workqueue_longest_running_processor"
text_of of_unfinished_work_seconds = bytes "workqueue_unfinished_work_seconds"

-- The metric of a full name.
metric_of : GoString → Metric
metric_of text =
    if text == bytes "workqueue_depth"
    then of_depth
    else if text == bytes "workqueue_adds"
    then of_adds
    else if text == bytes "workqueue_queue_latency"
    then of_latency
    else if text == bytes "workqueue_work_duration"
    then of_work_duration
    else if text == bytes "workqueue_retries"
    then of_retries
    else if text == bytes "reflector_last_resource_version"
    then of_last_resource_version
    else if text == bytes "workqueue_longest_running_processor"
    then of_longest_running_processor
    else of_unfinished_work_seconds

metric_of-text_of : (m : Metric) → metric_of (text_of m) ≡ m
unfolding metric_of List_ℕ-discrete
metric_of-text_of of_depth = refl
metric_of-text_of of_adds = refl
metric_of-text_of of_latency = refl
metric_of-text_of of_work_duration = refl
metric_of-text_of of_retries = refl
metric_of-text_of of_last_resource_version = refl
metric_of-text_of of_longest_running_processor = refl
metric_of-text_of of_unfinished_work_seconds = refl

module _ {R : Type 0} {M : Type 0} {pkg : Package R M} (laws : RegistryLaws pkg) where
  abbrev pub full_name_of : Collector → GoString
  full_name_of c = laws.full_name c.opts.subsystem c.opts.name

  pub full_name_lem :
      (m : Metric) (name : GoString) → full_name_of (collector_of m name) ≡ text_of m
  full_name_lem of_depth name = laws.joins _ _ _ _
  full_name_lem of_adds name = laws.joins _ _ _ _
  full_name_lem of_latency name = laws.joins _ _ _ _
  full_name_lem of_work_duration name = laws.joins _ _ _ _
  full_name_lem of_retries name = laws.joins _ _ _ _
  full_name_lem of_last_resource_version name = laws.joins _ _ _ _
  full_name_lem of_longest_running_processor name = laws.joins _ _ _ _
  full_name_lem of_unfinished_work_seconds name = laws.joins _ _ _ _

  -- The full name tells the method.
  pub full_name_injective :
      (m n : Metric) (a b : GoString)
      → full_name_of (collector_of m a) ≡ full_name_of (collector_of n b)
      → m ≡ n
  full_name_injective m n a b e =
      sym (metric_of-text_of m)
      ∙ ap metric_of (sym (full_name_lem m a) ∙ e ∙ full_name_lem n b)
      ∙ metric_of-text_of n

-- The name stands in the one constant label, beside which the method fixes all of the collector.
pub same_metric :
    (m : Metric) (a b : GoString)
    → ((collector_of m a).opts.help ≡ (collector_of m b).opts.help)
      × ((collector_of m a).variable_labels ≡ (collector_of m b).variable_labels)
      × ((collector_of m a).opts.const_labels ≡ (bytes "name", a) ∷ [])
      × ((collector_of m b).opts.const_labels ≡ (bytes "name", b) ∷ [])
same_metric of_depth a b = (refl, refl, refl, refl)
same_metric of_adds a b = (refl, refl, refl, refl)
same_metric of_latency a b = (refl, refl, refl, refl)
same_metric of_work_duration a b = (refl, refl, refl, refl)
same_metric of_retries a b = (refl, refl, refl, refl)
same_metric of_last_resource_version a b = (refl, refl, refl, refl)
same_metric of_longest_running_processor a b = (refl, refl, refl, refl)
same_metric of_unfinished_work_seconds a b = (refl, refl, refl, refl)
