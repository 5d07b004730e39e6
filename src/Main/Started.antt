-- ===== src/Main/Started.antt =====
-- What the program serves with, once its start has come to the listeners.
use mathlib.Core.Path.{subst}
use minke.Base.{
  ℕ, none, List, Option, some, ◌⊎◌, inl, inr, ◌≡◌, refl, arith, ap, sym, ◌∙◌, List_ℕ-eq,
}
use minke.GoMap.Laws.{map_option}
use minke.Panic.{ret, >>=-eq-ret}
use minke.Kube.{GoError}
use minke.Metrics.{new_prometheus_metrics}
use minke.Controller.{Kind, ing, svc, sec, eps}
use minke.Controller.Construction.{prometheus}
use minke.Controller.Fields.{
  Objects, Fields, Provider, Choice, TlsConfig, ClientTransport, of_controller,
}
use minke.Controller.Watches.{
  ListOptions, ListWatch, setup_ing_process, setup_secret_process, setup_service_process,
  setup_endpoints_process, setup_processes,
}
use minke.Controller.Assembly.{with_certificate, Packages, Assembled, Globals, new_assembled}
use minke.Controller.Choices.{settings_of, new_fields-Applies}
use minke.Controller.Inversion.{⊎-cases, Assembles, new_assembled-Assembles}
use minke.Main.{options, new_controller}
use minke.Main.Startup.{
  Flags, main_transport, tls_client_config, tls_config, choices, Serving, fatal_config, panics,
  serving, Dependencies, serving_by, started_by, globals, start_controller, start,
}
use minke.Main.Chosen.{Chosen, choices-Chosen}

module _ (o : Objects) {C : Type 0} {F : Type 0} {M : Type 0} (d : Dependencies o C F M)
    (flags : Flags) (g : Globals o) where
  -- The packages, once the provider of metrics is set.
  abbrev pub packages : Packages o
  packages = d.packages (globals o d flags g)

  -- What a processor asks the API for: the objects of its kind in the namespace of the flags, with
  -- the options of the informer changed like this.
  pub record AsksFor (client : o.client) (kind : Kind) (change : ListOptions o → ListOptions o)
      (lw : ListWatch o) : Type 0 where
    pub lists :
        (q : ListOptions o)
        → lw.list_func q ≡ packages.api.list client kind flags.options.namespace (change q)
    pub watches :
        (q : ListOptions o)
        → lw.watch_func q ≡ packages.api.watch client kind flags.options.namespace (change q)

  -- The number of version 1.2 in the protocol, 0x0303.
  abbrev pub tls_12 : ℕ
  tls_12 = 771

  -- What the listeners serve with.
  pub record Serves (s : Serving o) : Type 0 where
    pub client : o.client
    pub selector : o.selector
    pub selects : d.parse_selector flags.selector ≡ inr selector
    pub settings : new_controller flags.options ≡ inr s.controller.fields.settings
    pub measured : s.controller.fields.metrics ≡ some (prometheus d.registry d.promhttp)
    -- The settings of TLS for the backends.
    pub backend_tls : TlsConfig o
    pub to_backends :
        (t : ClientTransport o) × (s.controller.fields.client_transport ≡ some t)
        × (t.tls_client_config ≡ some backend_tls)
    pub backends_certify : backend_tls.get_client_certificate ≡ some of_controller
    pub backends_version : backend_tls.min_version ≡ tls_12
    pub quic : s.controller.fields.set_quic_headers ≡ some (d.set_quic_headers flags.https_addr)
    pub ingresses :
        AsksFor client ing
          (λ q. record q { label_selector = packages.api.selector_string selector })
          s.controller.processors.ing.informer.lw
    pub secrets : AsksFor client sec (λ q. q) s.controller.processors.sec.informer.lw
    pub services : AsksFor client svc (λ q. q) s.controller.processors.svc.informer.lw
    pub endpoints : AsksFor client eps (λ q. q) s.controller.processors.eps.informer.lw
    -- The settings of TLS for the clients.
    pub client_tls : TlsConfig o
    pub by_tls : (s.https.tls ≡ some client_tls) × (s.http3.server.tls ≡ some client_tls)
    pub without_tls : s.http.tls ≡ none
    pub certifies : client_tls.get_certificate ≡ some of_controller
    pub clients_version : client_tls.min_version ≡ tls_12
    pub same_handler :
        (s.http.handler ≡ s.controller.handler)
        × (s.https.handler ≡ s.controller.handler)
        × (s.http3.server.handler ≡ s.controller.handler)
    pub same_addrs :
        (s.admin_addr ≡ flags.admin_addr)
        × (s.http.addr ≡ flags.http_addr)
        × (s.https.addr ≡ flags.https_addr)
        × (s.http3.server.addr ≡ flags.https_addr)

  abbrev pub options_of : o.selector → List (Choice o)
  options_of selector = choices o flags.options selector (d.set_quic_headers flags.https_addr)

  -- The functions of a processor for the fields that New leaves, with a change of the options.
  made-AsksFor :
      (client : o.client) (selector : o.selector) (f : Fields o) (kind : Kind)
      (change : o.selector → ListOptions o → ListOptions o)
      → Chosen o packages
          (globals o d flags g).metrics_provider
          client
          flags.options
          selector
          (d.set_quic_headers flags.https_addr)
          f
      → AsksFor client kind (change selector) (record {
        list_func = λ q. packages.api.list f.client kind f.settings.namespace (change f.selector q);
        watch_func =
            λ q. packages.api.watch f.client kind f.settings.namespace (change f.selector q);
      })
  made-AsksFor client selector f kind change c = record {
    lists = λ q.
        ap
          (λ (x : Fields o).
            packages.api.list x.client kind f.settings.namespace (change x.selector q))
          c.others
        ∙ ap (λ ns. packages.api.list client kind ns (change selector q)) c.same_namespace;
    watches = λ q.
        ap
          (λ (x : Fields o).
            packages.api.watch x.client kind f.settings.namespace (change x.selector q))
          c.others
        ∙ ap (λ ns. packages.api.watch client kind ns (change selector q)) c.same_namespace;
  }

  assembled-Serves :
      (client : o.client) (selector : o.selector) (r r' : o.registry) (a : Assembled o)
      → d.parse_selector flags.selector ≡ inr selector
      → new_assembled o packages
          (globals o d flags g).metrics_provider
          client
          (options_of selector)
          r
        ≡ ret (r', inr a)
      → Serves (serving_by o d flags a)
  unfolding new_controller options setup_ing_process setup_secret_process setup_service_process
      setup_endpoints_process setup_processes
  assembled-Serves client selector r r' a q e =
      let metrics : Option (Provider o) = (globals o d flags g).metrics_provider in
      let k : Assembles o packages metrics client (options_of selector) r r' a =
        new_assembled-Assembles o packages metrics client (options_of selector) r r' a e in
      let c : Chosen o packages metrics client flags.options selector
          (d.set_quic_headers flags.https_addr) k.f =
        choices-Chosen o packages metrics client flags.options selector
          (d.set_quic_headers flags.https_addr) k.f k.chosen in
      let texts =
        (new_fields-Applies o packages metrics client (options_of selector)).same_settings in
      subst (λ a'. Serves (serving_by o d flags a')) (sym k.whole)
        (record {
          client = client;
          selector = selector;
          selects = q;
          settings = sym texts ∙ ap (settings_of o) k.chosen;
          measured = ap (λ (x : Fields o). x.metrics) c.others;
          backend_tls = record (tls_client_config o) {
            get_client_certificate = some of_controller;
          };
          to_backends = (
            with_certificate o (main_transport o),
            ap (λ (x : Fields o). map_option (with_certificate o) x.client_transport) c.others,
            refl,
          );
          backends_certify = refl;
          backends_version = refl;
          quic = ap (λ (x : Fields o). x.set_quic_headers) c.others;
          ingresses =
              made-AsksFor client selector k.f ing
                (λ x l. record l { label_selector = packages.api.selector_string x }) c;
          secrets = made-AsksFor client selector k.f sec (λ x l. l) c;
          services = made-AsksFor client selector k.f svc (λ x l. l) c;
          endpoints = made-AsksFor client selector k.f eps (λ x l. l) c;
          client_tls = tls_config o;
          by_tls = (refl, refl);
          without_tls = refl;
          certifies = refl;
          clients_version = refl;
          same_handler = (refl, refl, refl);
          same_addrs = (refl, refl, refl, refl);
        })

  start_controller-Serves :
      (cfg : C) (r : o.registry) (s : Serving o)
      → start_controller o d flags cfg (globals o d flags g) r ≡ ret (serving s)
      → Serves s
  unfolding start_controller
  start_controller-Serves cfg r s e = elim (⊎-cases (d.new_for_config cfg)) [
    | inl (err, q) ↦
        let wrong : ret (panics err) ≡ ret (serving s) = rw (q, start_controller) at e in
        let no : ⊥ = ground arith in elim no [ ]
    | inr (client, q) ↦ elim (⊎-cases (d.parse_selector flags.selector)) [
      | inl (err, q') ↦
          let wrong : ret (panics err) ≡ ret (serving s) = rw (q, q', start_controller) at e in
          let no : ⊥ = ground arith in elim no [ ]
      | inr (selector, q') ↦
          let ((r', out), made, rest) =
            >>=-eq-ret
              (new_assembled o packages (globals o d flags g).metrics_provider client
                (options_of selector) r)
              (λ out. ret (started_by o d flags out.1)) (rw (q, q', start_controller) at e) in
          go client selector q' r' out made (ground (arith, rest))
    ]
  ]
    where
      go :
          (client : o.client) (selector : o.selector)
          → d.parse_selector flags.selector ≡ inr selector
          → (r' : o.registry) (out : GoError ⊎ Assembled o)
          → new_assembled o packages
              (globals o d flags g).metrics_provider
              client
              (options_of selector)
              r
            ≡ ret (r', out)
          → started_by o d flags out ≡ serving s
          → Serves s
      go client selector q r' (inl err) made is = let no : ⊥ = ground arith in elim no [ ]
      go client selector q r' (inr a) made is =
          let same : serving_by o d flags a ≡ s = ground arith in
          subst Serves same (assembled-Serves client selector r r' a q made)

  -- If the start comes to the listeners, they serve with a controller whose settings are those that
  -- the flags make, which is measured by the provider that main has set, and which asks the API for
  -- the ingresses of the namespace and the selector of the flags, and for the secrets of that
  -- namespace. The https and the http3 server, at the address of the flag for https, both take their
  -- certificates from the controller's GetCertificate and no version of TLS below 1.2; the transport
  -- to the backends calls its GetClientCertificate, and takes no version below 1.2 either; the http
  -- server, at its own address, has no TLS. All three pass requests to the controller's handler.
  pub start-Serves : (s : Serving o) → start o d flags g ≡ ret (serving s) → Serves s
  unfolding start
  start-Serves s e = elim (⊎-cases (d.build_config_from_flags flags.master_url flags.kubeconfig)) [
    | inl (err, q) ↦
        let wrong : ret (fatal_config err) ≡ ret (serving s) = rw (q, start) at e in
        let no : ⊥ = ground arith in elim no [ ]
    | inr (cfg, q) ↦
        let (r1, e1, t1) =
          >>=-eq-ret (d.registry.must_register d.process_collector d.new_registry) _
            (rw (q, start) at e) in
        let (r2, e2, t2) = >>=-eq-ret (d.registry.must_register d.go_collector r1) _ t1 in
        let ((r3, provider), e3, t3) = >>=-eq-ret (new_prometheus_metrics d.registry r2) _ t2 in
        start_controller-Serves cfg r3 s t3
  ]
