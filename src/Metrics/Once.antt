-- ===== src/Metrics/Once.antt =====
-- The metrics of the transport and of the server can be registered once.
use mathlib.Core.Path.{subst}
use mathlib.Core.List.{Memᴰ}
use minke.Base.{List, [], ◌∷◌, ◌≡◌, ◌≢◌, refl, sym, arith, List_ℕ-eq}
use minke.Panic.{Run, ret, >>=-eq-ret}
use minke.Metrics.{Collector, Package, must_register_all}
use minke.Metrics.Http.{
  PromHttp, tls_latency_vec, client_duration_vec, client_in_flight, trace,
  new_http_transport_metrics, new_http_server_metrics, server_in_flight, server_requests,
  server_duration_vec,
}
use minke.Metrics.Registry.{RegistryLaws}

module _ {R : Type 0} {M : Type 0} (pkg : Package R M) (laws : RegistryLaws pkg) where
  -- What is registered stays.
  must_register_all-Mem :
      (cs : List Collector) (o : Collector) (r r' : R)
      → must_register_all pkg cs r ≡ ret r'
      → Memᴰ o (laws.collectors r)
      → Memᴰ o (laws.collectors r')
  must_register_all-Mem [] o r r' e m =
      let same : r ≡ r' = ground arith in subst (λ s. Memᴰ o (laws.collectors s)) same m
  must_register_all-Mem (c ∷ cs) o r r' e m =
      let (next, e', rest) = >>=-eq-ret (pkg.must_register c r) (must_register_all pkg cs) e in
      must_register_all-Mem cs o next r' rest
        (subst (Memᴰ o) (sym (laws.grows c r next e')) (Memᴰ.tail m))

  module _ {F : Type 0} {T : Type 0} {H : Type 0} (http : PromHttp F M T H) where
    abbrev client_rest : List Collector
    client_rest = client_duration_vec ∷ client_in_flight ∷ []

    abbrev wrapped_transport : T → R → Run (R × T)
    wrapped_transport upstream r = ret (
      r,
      http.round_tripper_in_flight client_in_flight (
          http.round_tripper_trace (trace pkg http)
            (http.round_tripper_duration client_duration_vec upstream)),
    )

    abbrev server_all : List Collector
    server_all = server_in_flight ∷ server_requests ∷ server_duration_vec ∷ []

    abbrev wrapped_handler : H → R → Run (R × H)
    wrapped_handler upstream r = ret (
      r,
      http.handler_in_flight server_in_flight (
          http.handler_counter server_requests
            (http.handler_duration server_duration_vec upstream)),
    )

    -- A call for the transport registers its first collector, and keeps the others.
    pub transport_registers :
        (upstream wrapped : T) (r r' : R)
        → new_http_transport_metrics pkg http upstream r ≡ ret (r', wrapped)
        → Memᴰ tls_latency_vec (laws.collectors r')
    unfolding new_http_transport_metrics
    transport_registers upstream wrapped r r' e =
        let (s, all, out) =
          >>=-eq-ret (must_register_all pkg (tls_latency_vec ∷ client_rest) r)
            (wrapped_transport upstream) e in
        let (next, first, rest) =
          >>=-eq-ret (pkg.must_register tls_latency_vec r) (must_register_all pkg client_rest)
            all in
        let last : s ≡ r' = ground arith in
        subst (λ (x : R). Memᴰ tls_latency_vec (laws.collectors x)) last
          (must_register_all-Mem client_rest tls_latency_vec next s rest (
            subst (Memᴰ tls_latency_vec) (sym (laws.grows tls_latency_vec r next first))
              (Memᴰ.head refl)))

    -- It does not return when the collector is there.
    pub transport_rejects :
        (upstream wrapped : T) (r r' : R)
        → Memᴰ tls_latency_vec (laws.collectors r)
        → new_http_transport_metrics pkg http upstream r ≢ ret (r', wrapped)
    unfolding new_http_transport_metrics
    transport_rejects upstream wrapped r r' m e =
        let (s, all, out) =
          >>=-eq-ret (must_register_all pkg (tls_latency_vec ∷ client_rest) r)
            (wrapped_transport upstream) e in
        let (next, first, rest) =
          >>=-eq-ret (pkg.must_register tls_latency_vec r) (must_register_all pkg client_rest)
            all in
        laws.rejects tls_latency_vec tls_latency_vec r next m refl refl first

    pub server_keeps :
        (upstream wrapped : H) (o : Collector) (r r' : R)
        → new_http_server_metrics pkg http upstream r ≡ ret (r', wrapped)
        → Memᴰ o (laws.collectors r)
        → Memᴰ o (laws.collectors r')
    unfolding new_http_server_metrics
    server_keeps upstream wrapped o r r' e m =
        let (s, all, out) =
          >>=-eq-ret (must_register_all pkg server_all r) (wrapped_handler upstream) e in
        let last : s ≡ r' = ground arith in
        subst (λ (x : R). Memᴰ o (laws.collectors x)) last
          (must_register_all-Mem server_all o r s all m)
