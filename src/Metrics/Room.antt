-- ===== src/Metrics/Room.antt =====
-- The names of the metrics of the transport and of the server beside all others.
use mathlib.Core.Path.{ap₂}
use minke.Base.{
  Bool, true, false, List, [], ◌∷◌, ◌==◌, ◌++◌, ℕ_eq, ℕ_discrete, List_ℕ-eq, List_ℕ-discrete, ◌≡◌,
  refl, arith, ap, ◌∙◌, All, map, Bool-cases, inl, inr, ==_iff,
}
use minke.GoText.{GoString, bytes, elem}
use minke.Panic.{ret}
use minke.Metrics.{Package, provider, vectors, must_register_all}
use minke.Metrics.Http.{PromHttp, client_collectors, server_collectors}
use minke.Metrics.Registry.{RegistryLaws}
use minke.Metrics.Names.{
  Metric, of_depth, of_adds, of_latency, of_work_duration, of_retries, of_last_resource_version,
  of_longest_running_processor, of_unfinished_work_seconds, text_of, full_name_of, full_name_lem,
}
use minke.Metrics.Calls.{Call, made_by, calls}
use minke.Metrics.Setup.{
  fresh, reverse_onto, map-reverse_onto, vector_texts, full_names, must_register_all-returns,
  IsFree, names_after,
}
use minke.Metrics.Rounds.{calls-collectors}

abbrev pub client_texts : List GoString
client_texts =
    bytes "http_client_tls_duration_seconds"
    ∷ bytes "http_client_request_duration_seconds"
    ∷ bytes "http_client_inflight_requests"
    ∷ []

abbrev pub server_texts : List GoString
server_texts =
    bytes "http_server_inflight_requests"
    ∷ bytes "http_server_requests_total"
    ∷ bytes "http_server_request_duration_seconds"
    ∷ []

elem-reverse_onto :
    (t : GoString) (xs ys : List GoString)
    → elem t xs ≡ false
    → elem t ys ≡ false
    → elem t (reverse_onto xs ys) ≡ false
elem-reverse_onto t [] ys h k = k
elem-reverse_onto t (x ∷ xs) ys h k = elem-reverse_onto t xs (x ∷ ys) (ground arith) (ground arith)

-- The metrics of net/http are the ones whose names begin so.
abbrev is_http : GoString → Bool
is_http [] = false
is_http (c ∷ text) = c == b'h'

text_of-not_http : (m : Metric) → is_http (text_of m) ≡ false
unfolding ℕ_discrete
text_of-not_http of_depth = refl
text_of-not_http of_adds = refl
text_of-not_http of_latency = refl
text_of-not_http of_work_duration = refl
text_of-not_http of_retries = refl
text_of-not_http of_last_resource_version = refl
text_of-not_http of_longest_running_processor = refl
text_of-not_http of_unfinished_work_seconds = refl

other_text : (t u : GoString) → is_http t ≡ true → is_http u ≡ false → (t == u) ≡ false
other_text t u h k = ground arith

elem_other :
    (t : GoString) (us : List GoString)
    → is_http t ≡ true
    → All (λ u. is_http u ≡ false) us
    → elem t us ≡ false
elem_other t [] h k = refl
elem_other t (u ∷ us) h k = ground (arith, other_text t u h k.0, elem_other t us h k.1)

is_http-of_elem :
    (t : GoString) (us : List GoString)
    → elem t us ≡ true
    → All (λ u. is_http u ≡ true) us
    → is_http t ≡ true
is_http-of_elem t [] e h = let no : ⊥ = ground arith in elim no [ ]
is_http-of_elem t (u ∷ us) e h = elim (Bool-cases (t == u)) [
  | inl same ↦ ap is_http ((==_iff t u).0 same) ∙ h.0
  | inr other ↦ is_http-of_elem t us (rw other at e) h.1
]

abbrev texts_of : List Call → List GoString
texts_of cs = map (λ (c : Call). text_of c.metric) cs

elem-texts_of : (t : GoString) (cs : List Call) → is_http t ≡ true → elem t (texts_of cs) ≡ false
elem-texts_of t [] h = refl
elem-texts_of t (c ∷ cs) h =
    ground
      (arith, elem-texts_of t cs h, other_text t (text_of c.metric) h (text_of-not_http c.metric))

abbrev pub http_texts : List GoString
http_texts = client_texts ++ server_texts

module _ {R : Type 0} {M : Type 0} (pkg : Package R M) (laws : RegistryLaws pkg) where
  abbrev names : R → List GoString
  names r = full_names pkg laws (laws.collectors r)

  -- Nothing is registered under a name of the metrics of metrics.go.
  pub record IsUnused (r : R) : Type 0 where
    pub free : IsFree pkg laws r
    pub http_free : (t : GoString) → elem t http_texts ≡ true → elem t (names r) ≡ false

  names-made_by : (cs : List Call) → full_names pkg laws (map made_by cs) ≡ texts_of cs
  names-made_by [] = refl
  names-made_by (c ∷ cs) = ap₂ ◌∷◌ (full_name_lem laws c.metric c.name) (names-made_by cs)

  names-calls :
      (cs : List Call) (r r' : R)
      → calls pkg cs r ≡ ret r'
      → names r' ≡ reverse_onto (texts_of cs) (names r)
  names-calls cs r r' e =
      ap (full_names pkg laws) (calls-collectors pkg laws cs r r' e)
      ∙ map-reverse_onto (full_name_of laws) (map made_by cs) (laws.collectors r)
      ∙ ap (λ (ts : List GoString). reverse_onto ts (names r)) (names-made_by cs)

  -- After the vectors and the calls of the queues, the names of net/http are still free.
  http_free-calls :
      (t : GoString) (cs : List Call) (r r' r'' : R)
      → IsUnused r
      → laws.collectors r' ≡ reverse_onto (vectors provider) (laws.collectors r)
      → calls pkg cs r' ≡ ret r''
      → is_http t ≡ true
      → elem t vector_texts ≡ false
      → elem t http_texts ≡ true
      → elem t (names r'') ≡ false
  http_free-calls t cs r r' r'' free held e h v k =
      ap (elem t) (
        names-calls cs r' r'' e
        ∙ ap (reverse_onto (texts_of cs))
            (ap (full_names pkg laws) held ∙ names_after pkg laws (laws.collectors r)))
      ∙ elem-reverse_onto t (texts_of cs) _ (elem-texts_of t cs h)
          (elem-reverse_onto t vector_texts _ v (free.http_free t k))

  module _ {F : Type 0} {T : Type 0} {H : Type 0} (http : PromHttp F M T H) where
    client_names : full_names pkg laws (client_collectors pkg http) ≡ client_texts
    client_names = ap₂ ◌∷◌ (laws.alone _) (ap₂ ◌∷◌ (laws.alone _) (ap₂ ◌∷◌ (laws.alone _) refl))

    server_names : full_names pkg laws (server_collectors pkg http) ≡ server_texts
    server_names = ap₂ ◌∷◌ (laws.alone _) (ap₂ ◌∷◌ (laws.alone _) (ap₂ ◌∷◌ (laws.alone _) refl))

    -- The names of net/http are free.
    abbrev pub HttpFree : R → Type 0
    HttpFree r = (t : GoString) → elem t http_texts ≡ true → elem t (names r) ≡ false

    fresh_client : (r : R) → HttpFree r → fresh client_texts (names r) ≡ true
    unfolding List_ℕ-discrete
    fresh_client r free =
        rw
          (
            free (bytes "http_client_tls_duration_seconds") refl,
            free (bytes "http_client_request_duration_seconds") refl,
            free (bytes "http_client_inflight_requests") refl,
          )
          refl

    fresh_server :
        (r : R) → HttpFree r → fresh server_texts (reverse_onto client_texts (names r)) ≡ true
    unfolding List_ℕ-discrete
    fresh_server r free =
        rw
          (
            free (bytes "http_server_inflight_requests") refl,
            free (bytes "http_server_requests_total") refl,
            free (bytes "http_server_request_duration_seconds") refl,
          )
          refl

    -- The metrics of the transport and then of the server can be registered.
    pub wrappers-return :
        (r : R)
        → HttpFree r
        → All (λ c. laws.is_valid c ≡ true) (client_collectors pkg http)
        → All (λ c. laws.is_valid c ≡ true) (server_collectors pkg http)
        → (r1 : R) × (r2 : R) × (must_register_all pkg (client_collectors pkg http) r ≡ ret r1)
          × (must_register_all pkg (server_collectors pkg http) r1 ≡ ret r2)
    wrappers-return r free v w =
        let (r1, e1, held) =
          must_register_all-returns pkg laws (client_collectors pkg http) r v
            (ap (λ ts. fresh ts (names r)) client_names ∙ fresh_client r free) in
        let names1 : names r1 ≡ reverse_onto client_texts (names r) =
          ap (full_names pkg laws) held
          ∙ map-reverse_onto (full_name_of laws) (client_collectors pkg http) (laws.collectors r)
          ∙ ap (λ (ts : List GoString). reverse_onto ts (names r)) client_names in
        let (r2, e2, held2) =
          must_register_all-returns pkg laws (server_collectors pkg http) r1 w
            (ap₂ fresh server_names names1 ∙ fresh_server r free) in
        (r1, r2, e1, e2)

    -- After the vectors and the calls of the queues, the names of net/http are still free.
    pub HttpFree-calls :
        (cs : List Call) (r r' r'' : R)
        → IsUnused r
        → laws.collectors r' ≡ reverse_onto (vectors provider) (laws.collectors r)
        → calls pkg cs r' ≡ ret r''
        → HttpFree r''
    unfolding ℕ_discrete
    HttpFree-calls cs r r' r'' free held e t k =
        let h : is_http t ≡ true =
          is_http-of_elem t http_texts k (refl, (refl, (refl, (refl, (refl, (refl, tt)))))) in
        let v : elem t vector_texts ≡ false =
          elem_other t vector_texts h
            (refl, (refl, (refl, (refl, (refl, (refl, (refl, (refl, tt)))))))) in
        http_free-calls t cs r r' r'' free held e h v k
