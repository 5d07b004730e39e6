-- ===== src/Metrics/Setup.antt =====
-- What NewPrometheusMetrics and the two wrappers of metrics.go register.
use mathlib.Core.Path.{ap₂}
use mathlib.Core.List.{Nodup}
use minke.Base.{
  Bool, true, false, not, List, [], ◌∷◌, ◌≡◌, ◌↔◌, refl, ap, ◌∙◌, arith, All, map, ◌&&◌, List_ℕ-eq,
  List_ℕ-discrete,
}
use minke.GoText.{GoString, bytes, elem}
use minke.Panic.{Run, ret, ◌>>=◌}
use minke.Metrics.{Collector, Package, provider, vectors, must_register_all, new_prometheus_metrics}
use minke.Metrics.Registry.{RegistryLaws, IsApart}
use minke.Metrics.Names.{
  Metric, of_depth, of_adds, of_latency, of_work_duration, of_retries, of_last_resource_version,
  of_longest_running_processor, of_unfinished_work_seconds, text_of, full_name_of, full_name_lem,
}
use minke.Metrics.Calls.{Call, made_by, calls, HasRoom, calls_iff}

-- No text stands twice, or among those that were seen.
abbrev pub fresh : List GoString → List GoString → Bool
fresh [] seen = true
fresh (t ∷ ts) seen = not (elem t seen) && fresh ts (t ∷ seen)

-- What a list becomes when others are put before it in turn.
abbrev pub reverse_onto : {A : Type 0} → List A → List A → List A
reverse_onto [] os = os
reverse_onto (c ∷ cs) os = reverse_onto cs (c ∷ os)

pub map-reverse_onto :
    {A : Type 0} {B : Type 0}
    → (f : A → B) (xs ys : List A) → map f (reverse_onto xs ys) ≡ reverse_onto (map f xs) (map f ys)
map-reverse_onto f [] ys = refl
map-reverse_onto f (x ∷ xs) ys = map-reverse_onto f xs (x ∷ ys)

-- The full names of the vectors, and all that a provider registers at once or for a name.
abbrev pub vector_texts : List GoString
vector_texts =
    bytes "reflector_lists_total"
    ∷ bytes "reflector_list_duration_seconds"
    ∷ bytes "reflector_items_per_list"
    ∷ bytes "reflector_watches_total"
    ∷ bytes "reflector_short_watches_total"
    ∷ bytes "reflector_watch_duration_seconds"
    ∷ bytes "reflector_items_per_watch"
    ∷ bytes "reflector_list_watch_error"
    ∷ []

module _ {R : Type 0} {M : Type 0} (pkg : Package R M) (laws : RegistryLaws pkg) where
  abbrev pub full_names : List Collector → List GoString
  full_names cs = map (full_name_of laws) cs

  IsApart-of_elem :
      (c : Collector) (os : List Collector)
      → elem (full_name_of laws c) (full_names os) ≡ false
      → All (IsApart laws.full_name c) os
  IsApart-of_elem c [] h = tt
  IsApart-of_elem c (o ∷ os) h =
      (λ e. let no : ⊥ = ground arith in elim no [ ], IsApart-of_elem c os (ground arith))

  -- New names can be registered after the names that are there.
  pub must_register_all-returns :
      (cs : List Collector) (r : R)
      → All (λ c. laws.is_valid c ≡ true) cs
      → fresh (full_names cs) (full_names (laws.collectors r)) ≡ true
      → (r' : R) × (must_register_all pkg cs r ≡ ret r')
        × (laws.collectors r' ≡ reverse_onto cs (laws.collectors r))
  must_register_all-returns [] r v h = (r, refl, refl)
  must_register_all-returns (c ∷ cs) r v h =
      let (next, e) = laws.accepts c r v.0 (IsApart-of_elem c (laws.collectors r) (ground arith)) in
      let held = laws.grows c r next e in
      let (last, e', q) =
        must_register_all-returns cs next v.1
          (ap (λ os. fresh (full_names cs) (full_names os)) held ∙ ground arith) in
      (last, rw e e', q ∙ ap (reverse_onto cs) held)

  pub vector_names : full_names (vectors provider) ≡ vector_texts
  vector_names = ap₂ ◌∷◌ (laws.joins _ _ _ _) (
      ap₂ ◌∷◌ (laws.joins _ _ _ _) (
        ap₂ ◌∷◌ (laws.joins _ _ _ _) (
          ap₂ ◌∷◌ (laws.joins _ _ _ _) (
            ap₂ ◌∷◌ (laws.joins _ _ _ _) (
              ap₂ ◌∷◌ (laws.joins _ _ _ _)
                (ap₂ ◌∷◌ (laws.joins _ _ _ _) (ap₂ ◌∷◌ (laws.joins _ _ _ _) refl)))))))

  -- The registry holds no collector under one of the names of the vectors, or under the name of a
  -- metric that is made for a name.
  pub record IsFree (r : R) : Type 0 where
    pub vectors_free :
        (t : GoString)
        → elem t vector_texts ≡ true
        → elem t (full_names (laws.collectors r)) ≡ false
    pub metrics_free : (m : Metric) → elem (text_of m) (full_names (laws.collectors r)) ≡ false

  pub fresh_vectors :
      (r : R) → IsFree r → fresh vector_texts (full_names (laws.collectors r)) ≡ true
  unfolding List_ℕ-discrete
  fresh_vectors r free =
      rw
        (
          free.vectors_free (bytes "reflector_lists_total") refl,
          free.vectors_free (bytes "reflector_list_duration_seconds") refl,
          free.vectors_free (bytes "reflector_items_per_list") refl,
          free.vectors_free (bytes "reflector_watches_total") refl,
          free.vectors_free (bytes "reflector_short_watches_total") refl,
          free.vectors_free (bytes "reflector_watch_duration_seconds") refl,
          free.vectors_free (bytes "reflector_items_per_watch") refl,
          free.vectors_free (bytes "reflector_list_watch_error") refl,
        )
        refl

  pub names_after :
      (os : List Collector)
      → full_names (reverse_onto (vectors provider) os) ≡ reverse_onto vector_texts (full_names os)
  names_after os =
      map-reverse_onto (full_name_of laws) (vectors provider) os
      ∙ ap (λ (ts : List GoString). reverse_onto ts (full_names os)) vector_names

  -- No vector has the name of a metric that is made for a name.
  metric_free :
      (m : Metric) (r : R)
      → IsFree r
      → elem (text_of m) (reverse_onto vector_texts (full_names (laws.collectors r))) ≡ false
  unfolding List_ℕ-discrete
  metric_free of_depth r free = free.metrics_free of_depth
  metric_free of_adds r free = free.metrics_free of_adds
  metric_free of_latency r free = free.metrics_free of_latency
  metric_free of_work_duration r free = free.metrics_free of_work_duration
  metric_free of_retries r free = free.metrics_free of_retries
  metric_free of_last_resource_version r free = free.metrics_free of_last_resource_version
  metric_free of_longest_running_processor r free = free.metrics_free of_longest_running_processor
  metric_free of_unfinished_work_seconds r free = free.metrics_free of_unfinished_work_seconds

  pub room_for :
      (cs : List Call) (r r' : R)
      → IsFree r
      → laws.collectors r' ≡ reverse_onto (vectors provider) (laws.collectors r)
      → HasRoom pkg laws cs r'
  room_for [] r r' free e = tt
  room_for (c ∷ cs) r r' free e = (
    IsApart-of_elem (made_by c) (laws.collectors r') (
        ap (λ os. elem (full_name_of laws (made_by c)) (full_names os)) e
        ∙ ap₂ elem (full_name_lem laws c.metric c.name) (names_after (laws.collectors r))
        ∙ metric_free c.metric r free),
    room_for cs r r' free e,
  )

  pub new_prometheus_metrics-returns :
      (r : R)
      → IsFree r
      → All (λ c. laws.is_valid c ≡ true) (vectors provider)
      → (r' : R) × (new_prometheus_metrics pkg r ≡ ret (r', provider))
        × (laws.collectors r' ≡ reverse_onto (vectors provider) (laws.collectors r))
  unfolding new_prometheus_metrics
  new_prometheus_metrics-returns r free v =
      let (next, e, held) = must_register_all-returns (vectors provider) r v (
        ap (λ ts. fresh ts (full_names (laws.collectors r))) vector_names ∙ fresh_vectors r free) in
      (next, ap (λ (m : Run R). m >>= λ r'. ret (r', provider)) e, held)

  -- On a registry that holds nothing under the names of the provider's metrics, and for valid
  -- collectors, NewPrometheusMetrics returns; and then calls of the methods that make a metric for a
  -- name all return exactly when no method is called twice with the same name. Package prometheus is
  -- taken to behave as documented.
  pub new_prometheus_metrics-calls :
      (r : R) (cs : List Call)
      → IsFree r
      → All (λ c. laws.is_valid c ≡ true) (vectors provider)
      → All (λ c. laws.is_valid (made_by c) ≡ true) cs
      → (r' : R) × (new_prometheus_metrics pkg r ≡ ret (r', provider))
        × (Nodup cs ↔ ((r'' : R) × (calls pkg cs r' ≡ ret r'')))
  new_prometheus_metrics-calls r cs free v w =
      let (next, e, held) = new_prometheus_metrics-returns r free v in
      (next, e, calls_iff pkg laws cs next w (room_for cs r next free held))
