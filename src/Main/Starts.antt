-- ===== src/Main/Starts.antt =====
-- The start of the program comes to its listeners, if the packages that it calls do what they
-- document.
use minke.Base.{Option, some, inl, inr, ◌≡◌, refl, arith, ap, sym, ◌∙◌}
use minke.Panic.{ret}
use minke.Transport.{RoundTripper, round_trip}
use minke.Secrets.{is_some}
use minke.Metrics.{provider, vectors, new_prometheus_metrics}
use minke.Metrics.Registry.{RegistryLaws}
use minke.Metrics.Room.{IsUnused}
use minke.Metrics.Setup.{reverse_onto, new_prometheus_metrics-returns}
use minke.Controller.{Controller}
use minke.Controller.Construction.{build, prometheus}
use minke.Controller.Fields.{Objects, Fields, Provider}
use minke.Controller.Assembly.{
  with_certificate, without_tls, transport2, configured, Packages, Assembled, Globals, new_fields,
  base_transport, assemble, new_assembled,
}
use minke.Controller.Choices.{settings_of, new_fields-Applies}
use minke.Controller.Inversion.{⊎-cases, assembled_of}
use minke.Controller.Returns.{QueueLaws, AllValid, build-returns}
use minke.Main.{options, new_controller}
use minke.Main.Startup.{
  Flags, main_transport, Serving, serving, Dependencies, serving_by, globals, start_controller,
  start,
}
use minke.Main.Chosen.{Chosen, choices-Chosen}
use minke.Main.Started.{packages, options_of, Serves, start-Serves}

module _ (o : Objects) {C : Type 0} {F : Type 0} {M : Type 0} (d : Dependencies o C F M)
    (flags : Flags) (g : Globals o) (laws : RegistryLaws d.registry) where
  -- What the start needs: a configuration, a client and a selector; flags that make options without
  -- an error; and a registry that takes the two collectors of package prometheus, which bear none of
  -- the program's names, and the metrics of the program.
  pub record CanStart : Type 0 where
    pub cfg : C
    pub client : o.client
    pub selector : o.selector
    pub configures : d.build_config_from_flags flags.master_url flags.kubeconfig ≡ inr cfg
    pub connects : d.new_for_config cfg ≡ inr client
    pub selects : d.parse_selector flags.selector ≡ inr selector
    pub settings : Controller
    pub settles : new_controller flags.options ≡ inr settings
    pub first : o.registry
    pub second : o.registry
    pub of_process : d.registry.must_register d.process_collector d.new_registry ≡ ret first
    pub of_go : d.registry.must_register d.go_collector first ≡ ret second
    pub unused : IsUnused d.registry laws second
    pub queues : QueueLaws d.registry laws d.promhttp (packages o d flags g).named_queue
    pub valid : AllValid d.registry laws d.promhttp (packages o d flags g).named_queue queues

  module _ (can : CanStart) where
    abbrev p : Packages o
    p = packages o d flags g

    abbrev metrics : Option (Provider o)
    metrics = some (prometheus d.registry d.promhttp)

    fields_exist :
        (f : Fields o) × (new_fields o p metrics can.client (options_of o d flags g can.selector)
          ≡ inr f)
    unfolding new_controller options
    fields_exist =
        let texts =
          (new_fields-Applies o p metrics can.client
            (options_of o d flags g can.selector)).same_settings in
        elim (⊎-cases (new_fields o p metrics can.client (options_of o d flags g can.selector))) [
          | inl (err, q) ↦
              let wrong : inl err ≡ inr can.settings =
                ap (settings_of o) (sym q) ∙ texts ∙ can.settles in
              let no : ⊥ = ground arith in elim no [ ]
          | inr (f, q) ↦ (f, q)
        ]

    -- The transport of the proxy.
    abbrev plain : RoundTripper
    plain = round_trip (record {
      base = p.send (with_certificate o (main_transport o));
      http2 = p.send_http2 (without_tls o (transport2 o));
    })

    base_lem :
        (f : Fields o)
        → Chosen o p metrics can.client flags.options can.selector
            (d.set_quic_headers flags.https_addr)
            f
        → base_transport o p (configured o f) ≡ ret plain
    unfolding base_transport
    base_lem f c = ap (λ (x : Fields o). base_transport o p (configured o x)) c.others

    assemble-returns :
        (f : Fields o) (r : o.registry)
        → Chosen o p metrics can.client flags.options can.selector
            (d.set_quic_headers flags.https_addr)
            f
        → laws.collectors r ≡ reverse_onto (vectors provider) (laws.collectors can.second)
        → (r' : o.registry) × (a : Assembled o) × (assemble o p f r ≡ ret (r', a))
    unfolding assemble
    assemble-returns f r c held =
        let (r', b, e) =
          build-returns d.registry laws d.promhttp p.named_queue can.queues
            (base_transport o p (configured o f)) p.handler can.second r plain (is_some f.tracer)
            can.valid can.unused held (base_lem f c) in
        let e' : build p.named_queue (base_transport o p (configured o f)) p.handler f.metrics
              (is_some f.tracer) r
            ≡ ret (r', b) =
          ap
            (λ m.
              build p.named_queue (base_transport o p (configured o f)) p.handler m
                (is_some f.tracer) r)
            (ap (λ (x : Fields o). x.metrics) c.others)
          ∙ e in
        (r', assembled_of o p f b, rw e' refl)

    new_assembled-returns :
        (r : o.registry)
        → laws.collectors r ≡ reverse_onto (vectors provider) (laws.collectors can.second)
        → (r' : o.registry) × (a : Assembled o) × (new_assembled o p metrics can.client
              (options_of o d flags g can.selector)
              r
            ≡ ret (r', inr a))
    unfolding new_assembled
    new_assembled-returns r held =
        let (f, q) = fields_exist in
        let c =
          choices-Chosen o p metrics can.client flags.options can.selector
            (d.set_quic_headers flags.https_addr) f q in
        let (r', a, e) = assemble-returns f r c held in (r', a, rw (q, new_assembled, e) refl)

    start_controller_lem :
        (r r' : o.registry) (a : Assembled o)
        → new_assembled o p metrics can.client (options_of o d flags g can.selector) r
          ≡ ret (r', inr a)
        → start_controller o d flags can.cfg (globals o d flags g) r
          ≡ ret (serving (serving_by o d flags a))
    unfolding start_controller
    start_controller_lem r r' a e = rw (can.connects, can.selects, start_controller, e) refl

    start_lem :
        (r : o.registry) (s : Serving o)
        → new_prometheus_metrics d.registry can.second ≡ ret (r, provider)
        → start_controller o d flags can.cfg (globals o d flags g) r ≡ ret (serving s)
        → start o d flags g ≡ ret (serving s)
    unfolding start
    start_lem r s e e' = rw (start, can.configures, can.of_process, can.of_go, e) e'

  -- If the configuration, the client and the selector can be made of the flags, if these make options
  -- without an error, and if the registry takes the two collectors of package prometheus, which bear
  -- none of the names of metrics.go, then the start comes to the listeners: NewPrometheusMetrics and
  -- New register all their metrics without a panic, and what is served is as the flags say. A queue
  -- is taken to call some methods of its provider, each once and with its own name, and package
  -- prometheus to behave as documented.
  pub start_total :
      CanStart → (s : Serving o) × (start o d flags g ≡ ret (serving s)) × Serves o d flags g s
  start_total can =
      let (r, e, held) =
        new_prometheus_metrics-returns d.registry laws can.second can.unused.free
          can.valid.of_vectors in
      let (r', a, e') = new_assembled-returns can r held in
      let s : Serving o = serving_by o d flags a in
      let whole = start_lem can r s e (start_controller_lem can r r' a e') in
      (s, whole, start-Serves o d flags g s whole)
