-- ===== src/Metrics/Calls.antt =====
-- Which sequences of calls of the methods that register a metric for a name return.
use mathlib.Core.Path.{subst, ap₂}
use mathlib.Core.Logic.{∥∥₁_elim}
use mathlib.Core.HLevel.{⊥_prop}
use mathlib.Core.List.{mem-cons_of_mem, Mem, Memᴰ, Nodup, Pairwise}
use minke.Base.{true, List, [], ◌∷◌, ◌≡◌, ◌≢◌, ◌↔◌, refl, ap, sym, ◌∙◌, All}
use minke.GoText.{GoString}
use minke.GoMap.{GoMap}
use minke.Panic.{Run, ret, throw, ◌>>=◌, >>=-eq-ret}
use minke.Metrics.{Collector, Package}
use minke.Metrics.Queues.{
  registered, new_depth_metric, new_adds_metric, new_latency_metric, new_work_duration_metric,
  new_retries_metric, new_last_resource_version_metric,
  new_longest_running_processor_seconds_metric, new_unfinished_work_seconds_metric,
}
use minke.Metrics.Registry.{RegistryLaws, IsApart, keys_of}
use minke.Metrics.Names.{
  Metric, of_depth, of_adds, of_latency, of_work_duration, of_retries, of_last_resource_version,
  of_longest_running_processor, of_unfinished_work_seconds, collector_of, full_name_of,
  full_name_injective, same_metric,
}

-- A method and the name that it is given.
pub record Call : Type 0 where
  pub metric : Metric
  pub name : GoString

abbrev pub made_by : Call → Collector
made_by c = collector_of c.metric c.name

abbrev call_of : Metric → GoString → Call
call_of metric name = record { metric = metric; name = name }

-- The value of the first label.
abbrev value_of : GoMap GoString GoString → GoString
value_of [] = []
value_of ((k, v) ∷ labels) = v

module _ {R : Type 0} {M : Type 0} (pkg : Package R M) where
  -- The registry after a call, less the metric that it returned.
  abbrev pub kept : Run (R × Collector) → Run R
  kept m = m >>= λ out. ret out.0

  abbrev pub call : Metric → GoString → R → Run R
  call of_depth name r = kept (new_depth_metric pkg name r)
  call of_adds name r = kept (new_adds_metric pkg name r)
  call of_latency name r = kept (new_latency_metric pkg name r)
  call of_work_duration name r = kept (new_work_duration_metric pkg name r)
  call of_retries name r = kept (new_retries_metric pkg name r)
  call of_last_resource_version name r = kept (new_last_resource_version_metric pkg name r)
  call of_longest_running_processor name r =
      kept (new_longest_running_processor_seconds_metric pkg name r)
  call of_unfinished_work_seconds name r = kept (new_unfinished_work_seconds_metric pkg name r)

  abbrev pub calls : List Call → R → Run R
  calls [] r = ret r
  calls (c ∷ cs) r = call c.metric c.name r >>= λ r'. calls cs r'

  kept-registered :
      (name : GoString) (r : R) (c : Collector)
      → kept (registered pkg name r c) ≡ pkg.must_register c r
  kept-registered name r c =
      elim (pkg.must_register c r) as (λ (m : Run R). kept (m >>= λ r'. ret (r', c)) ≡ m) [
        | ret r' ↦ refl
        | throw p ↦ refl
      ]

  pub call_lem :
      (m : Metric) (name : GoString) (r : R)
      → call m name r ≡ pkg.must_register (collector_of m name) r
  unfolding new_depth_metric new_adds_metric new_latency_metric new_work_duration_metric
      new_retries_metric new_last_resource_version_metric
      new_longest_running_processor_seconds_metric new_unfinished_work_seconds_metric
  call_lem of_depth name r = kept-registered name r _
  call_lem of_adds name r = kept-registered name r _
  call_lem of_latency name r = kept-registered name r _
  call_lem of_work_duration name r = kept-registered name r _
  call_lem of_retries name r = kept-registered name r _
  call_lem of_last_resource_version name r = kept-registered name r _
  call_lem of_longest_running_processor name r = kept-registered name r _
  call_lem of_unfinished_work_seconds name r = kept-registered name r _

  module _ (laws : RegistryLaws pkg) where
    -- Different calls make collectors that can be held together.
    -- What the two must differ in, if their full names do not.
    abbrev IsOther : Collector → Collector → Type 0
    IsOther c o =
        (c.opts.help ≡ o.opts.help)
        × (c.variable_labels ≡ o.variable_labels)
        × (keys_of c.opts.const_labels ≡ keys_of o.opts.const_labels)
        × (c.opts.const_labels ≢ o.opts.const_labels)

    made_by-IsApart : (c d : Call) → c ≢ d → IsApart laws.full_name (made_by c) (made_by d)
    made_by-IsApart c d n e =
        let same = full_name_injective laws c.metric d.metric c.name d.name e in
        let (help, labels, left, right) = same_metric c.metric c.name d.name in
        subst (λ (m : Metric). IsOther (made_by c) (collector_of m d.name)) same
          (
            help,
            labels,
            ap keys_of (left ∙ refl) ∙ ap keys_of (sym right),
            λ q. n (ap₂ call_of same (ap value_of (sym left ∙ q ∙ right))),
          )

    -- Nothing that is registered stands in the way of the calls.
    abbrev pub HasRoom : List Call → R → Type 0
    HasRoom cs r = All (λ c. All (IsApart laws.full_name (made_by c)) (laws.collectors r)) cs

    -- After a call there is room for the calls that differ from it.
    room_after :
        (c : Call) (cs : List Call) (r : R)
        → ((d : Call) → Mem d cs → c ≢ d)
        → HasRoom cs r
        → All (λ d. All (IsApart laws.full_name (made_by d)) (made_by c ∷ laws.collectors r)) cs
    room_after c [] r other h = tt
    room_after c (d ∷ cs) r other h = (
      (made_by-IsApart d c (λ e. other d ∣ Memᴰ.head refl ∣₁ (sym e)), h.0),
      room_after c cs r (λ x m. other x (mem-cons_of_mem d m)) h.1,
    )

    calls-return :
        (cs : List Call) (r : R)
        → All (λ c. laws.is_valid (made_by c) ≡ true) cs
        → HasRoom cs r
        → Nodup cs
        → (r' : R) × (calls cs r ≡ ret r')
    calls-return [] r v h n = (r, refl)
    calls-return (c ∷ cs) r v h (Pairwise.cons other n) =
        let (next, e) = laws.accepts (made_by c) r v.0 h.0 in
        let room : HasRoom cs next =
          subst (λ os. All (λ d. All (IsApart laws.full_name (made_by d)) os) cs)
            (sym (laws.grows (made_by c) r next e)) (room_after c cs r other h.1) in
        let (last, e') = calls-return cs next v.1 room n in
        (last, rw (call_lem c.metric c.name r, e) e')

    -- What is registered is not made again.
    calls-avoid :
        (cs : List Call) (c : Call) (r r' : R)
        → calls cs r ≡ ret r'
        → Memᴰ (made_by c) (laws.collectors r)
        → ¬ Memᴰ c cs
    calls-avoid [] c r r' e m k = elim k [ ]
    calls-avoid (d ∷ cs) c r r' e m k =
        let (next, e', rest) = >>=-eq-ret (call d.metric d.name r) _ e in
        let taken : pkg.must_register (made_by d) r ≡ ret next =
          sym (call_lem d.metric d.name r) ∙ e' in
        elim k [
          | Memᴰ.head same ↦
              laws.rejects (made_by d) (made_by c) r next m
                (ap (λ (x : Call). full_name_of laws (made_by x)) (sym same))
                (ap (λ (x : Call). (made_by x).opts.const_labels) (sym same)) taken
          | Memᴰ.tail k' ↦
              calls-avoid cs c next r' rest
                (subst (Memᴰ (made_by c)) (sym (laws.grows (made_by d) r next taken)) (Memᴰ.tail m))
                k'
        ]

    calls-Nodup : (cs : List Call) (r r' : R) → calls cs r ≡ ret r' → Nodup cs
    calls-Nodup [] r r' e = Pairwise.nil
    calls-Nodup (c ∷ cs) r r' e =
        let (next, e', rest) = >>=-eq-ret (call c.metric c.name r) _ e in
        let taken : pkg.must_register (made_by c) r ≡ ret next =
          sym (call_lem c.metric c.name r) ∙ e' in
        let held : Memᴰ (made_by c) (laws.collectors next) =
          subst (Memᴰ (made_by c)) (sym (laws.grows (made_by c) r next taken)) (Memᴰ.head refl) in
        Pairwise.cons
          (λ d m same. ∥∥₁_elim m ⊥_prop (λ k.
            calls-avoid cs c next r' rest held (subst (λ (x : Call). Memᴰ x cs) (sym same) k)))
          (calls-Nodup cs next r' rest)

    -- Of calls of the methods that make a metric for a name, on a registry that holds nothing which
    -- could not stand beside their metrics, and for valid metrics: all return exactly when no method
    -- is called twice with the same name. Package prometheus is taken to behave as documented.
    pub calls_iff :
        (cs : List Call) (r : R)
        → All (λ c. laws.is_valid (made_by c) ≡ true) cs
        → HasRoom cs r
        → Nodup cs ↔ ((r' : R) × (calls cs r ≡ ret r'))
    calls_iff cs r v h = (calls-return cs r v h, λ out. calls-Nodup cs r out.0 out.1)
