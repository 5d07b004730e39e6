-- ===== src/Controller/Choices.antt =====
-- What the options of New leave in the fields, whatever objects they carry.
use mathlib.Core.Path.{subst}
use minke.Base.{
  List, [], ◌∷◌, Option, none, some, ◌⊎◌, inl, inr, ◌≡◌, refl, arith, ap, ◌∙◌, map, Option-cases,
}
use minke.Kube.{GoError}
use minke.Proxy.{get_client_certificate}
use minke.Controller.{
  Controller, Setting, with_class, with_namespace, with_default_backend, with_default_tls_secrets,
  with_client_tls_secret, with_default_http_redirect, apply_options, new,
}
use minke.Controller.Fields.{
  Objects, Provider, Fields, FieldSetting, on_settings, Choice, of_class, of_namespace,
  of_default_backend, of_client_tls_secret, of_default_tls_secrets, of_default_http_redirect,
  of_selector, of_client_http_transport, of_client_http2_transport, of_log_func, of_access_log_func,
  of_tracer, of_metrics_provider, of_set_quic_headers, option,
}
use minke.Controller.Assembly.{Packages, initial_fields, new_fields}

module _ (o : Objects) where
  -- The option on texts that a call returns, if it returns one.
  abbrev pub text_option : Choice o → Option Setting
  text_option (of_class cls) = some (with_class cls)
  text_option (of_namespace ns) = some (with_namespace ns)
  text_option (of_default_backend str) = some (with_default_backend str)
  text_option (of_client_tls_secret str) = some (with_client_tls_secret str)
  text_option (of_default_tls_secrets strs) = some (with_default_tls_secrets strs)
  text_option (of_default_http_redirect redir) = some (with_default_http_redirect redir)
  text_option (of_selector s) = none
  text_option (of_client_http_transport t) = none
  text_option (of_client_http2_transport t) = none
  text_option (of_log_func g) = none
  text_option (of_access_log_func g) = none
  text_option (of_tracer t) = none
  text_option (of_metrics_provider m) = none
  text_option (of_set_quic_headers g) = none

  abbrev pub text_options : List (Choice o) → List Setting
  text_options [] = []
  text_options (c ∷ choices) = elim (text_option c) [
    | none ↦ text_options choices
    | some opt ↦ opt ∷ text_options choices
  ]

  -- The part of the result that the options on texts make.
  abbrev pub settings_of : GoError ⊎ Fields o → GoError ⊎ Controller
  settings_of (inl err) = inl err
  settings_of (inr f) = inr f.settings

  -- The fields that no option sets.
  pub record Unset (f : Fields o) (client : o.client) : Type 0 where
    pub same_client : f.client ≡ client
    pub no_refresh : f.refresh ≡ 0
    pub no_certificate : get_client_certificate f.client_tls_certificate ≡ none

  -- An option that only stores an object.
  pub record Stores (opt : FieldSetting o) : Type 0 where
    pub fine : (f : Fields o) → (opt f).1 ≡ none
    pub keeps : (f : Fields o) → (opt f).0.settings ≡ f.settings

  -- A choice is an option on texts, or stores an object.
  choice-cases :
      (c : Choice o)
      → ((opt : Setting) × (text_option c ≡ some opt) × (option o c ≡ on_settings o opt))
        ⊎ ((text_option c ≡ none) × Stores (option o c))
  choice-cases (of_class cls) = inl (_, refl, refl)
  choice-cases (of_namespace ns) = inl (_, refl, refl)
  choice-cases (of_default_backend str) = inl (_, refl, refl)
  choice-cases (of_client_tls_secret str) = inl (_, refl, refl)
  choice-cases (of_default_tls_secrets strs) = inl (_, refl, refl)
  choice-cases (of_default_http_redirect redir) = inl (_, refl, refl)
  choice-cases (of_selector s) = inr (refl, record { fine = λ f. refl; keeps = λ f. refl })
  choice-cases (of_client_http_transport t) =
      inr (refl, record { fine = λ f. refl; keeps = λ f. refl })
  choice-cases (of_client_http2_transport t) =
      inr (refl, record { fine = λ f. refl; keeps = λ f. refl })
  choice-cases (of_log_func g) = inr (refl, record { fine = λ f. refl; keeps = λ f. refl })
  choice-cases (of_access_log_func g) = inr (refl, record { fine = λ f. refl; keeps = λ f. refl })
  choice-cases (of_tracer t) = inr (refl, record { fine = λ f. refl; keeps = λ f. refl })
  choice-cases (of_metrics_provider m) = inr (refl, record { fine = λ f. refl; keeps = λ f. refl })
  choice-cases (of_set_quic_headers g) = inr (refl, record { fine = λ f. refl; keeps = λ f. refl })

  Unset-same :
      (f f' : Fields o) (client : o.client)
      → f'.client ≡ f.client
      → f'.refresh ≡ f.refresh
      → f'.client_tls_certificate ≡ f.client_tls_certificate
      → Unset f client
      → Unset f' client
  Unset-same f f' client a b c u = record {
    same_client = a ∙ u.same_client;
    no_refresh = b ∙ u.no_refresh;
    no_certificate = c ∙ u.no_certificate;
  }

  option-Unset :
      (c : Choice o) (f : Fields o) (client : o.client)
      → Unset f client
      → Unset (option o c f).0 client
  option-Unset (of_class cls) f client u = Unset-same f _ client refl refl refl u
  option-Unset (of_namespace ns) f client u = Unset-same f _ client refl refl refl u
  option-Unset (of_default_backend str) f client u = Unset-same f _ client refl refl refl u
  option-Unset (of_client_tls_secret str) f client u = Unset-same f _ client refl refl refl u
  option-Unset (of_default_tls_secrets strs) f client u = Unset-same f _ client refl refl refl u
  option-Unset (of_default_http_redirect redir) f client u = Unset-same f _ client refl refl refl u
  option-Unset (of_selector s) f client u = Unset-same f _ client refl refl refl u
  option-Unset (of_client_http_transport t) f client u = Unset-same f _ client refl refl refl u
  option-Unset (of_client_http2_transport t) f client u = Unset-same f _ client refl refl refl u
  option-Unset (of_log_func g) f client u = Unset-same f _ client refl refl refl u
  option-Unset (of_access_log_func g) f client u = Unset-same f _ client refl refl refl u
  option-Unset (of_tracer t) f client u = Unset-same f _ client refl refl refl u
  option-Unset (of_metrics_provider m) f client u = Unset-same f _ client refl refl refl u
  option-Unset (of_set_quic_headers g) f client u = Unset-same f _ client refl refl refl u

  -- What the loop over the choices comes to.
  pub record Applies (client : o.client) (start : GoError ⊎ Controller) (out : GoError ⊎ Fields o)
      : Type 0 where
    pub same_settings : settings_of out ≡ start
    pub unset : (f : Fields o) → out ≡ inr f → Unset f client

  apply-Applies :
      (client : o.client) (choices : List (Choice o)) (f : Fields o)
      → Unset f client
      → Applies client
          (apply_options (text_options choices) f.settings)
          (apply_options (map (option o) choices) f)
  unfolding apply_options
  apply-Applies client [] f u = record {
    same_settings = refl;
    unset = λ f' e. let same : f ≡ f' = ground arith in subst (λ x. Unset x client) same u;
  }
  apply-Applies client (c ∷ choices) f u = elim (choice-cases c) [
    | inl (opt, t, same) ↦ elim (Option-cases (opt f.settings).1) [
      | inl fine ↦
          let fine' : (option o c f).1 ≡ none = ap (λ (g : FieldSetting o). (g f).1) same ∙ fine in
          let keeps : (option o c f).0.settings ≡ (opt f.settings).0 =
            ap (λ (g : FieldSetting o). (g f).0.settings) same in
          let ih = apply-Applies client choices (option o c f).0 (option-Unset c f client u) in
          rw (t, text_options, map, apply_options, fine, fine')
            (subst
              (λ (s : Controller).
                Applies client (apply_options (text_options choices) s)
                  (apply_options (map (option o) choices) (option o c f).0))
              keeps ih)
      | inr (err, failed) ↦
          let failed' : (option o c f).1 ≡ some err =
            ap (λ (g : FieldSetting o). (g f).1) same ∙ failed in
          rw (t, text_options, map, apply_options, failed, failed')
            (record {
              same_settings = refl;
              unset = λ f' e. let no : ⊥ = ground arith in elim no [ ];
            })
    ]
    | inr (t, stores) ↦
        let ih = apply-Applies client choices (option o c f).0 (option-Unset c f client u) in
        rw (t, text_options, map, apply_options, stores.fine f)
          (subst
            (λ (s : Controller).
              Applies client (apply_options (text_options choices) s)
                (apply_options (map (option o) choices) (option o c f).0))
            (stores.keeps f) ih)
  ]

  -- Whatever options New is given, and in whatever order, the result on the settings, an error
  -- included, is what the options on texts alone make; the options that store an object never fail.
  -- None of them sets the period of the informers or the certificate for the backends.
  pub new_fields-Applies :
      (p : Packages o) (metrics : Option (Provider o)) (client : o.client)
      (choices : List (Choice o))
      → Applies client (new (text_options choices)) (new_fields o p metrics client choices)
  unfolding new new_fields
  new_fields-Applies p metrics client choices =
      apply-Applies client choices (initial_fields o p metrics client)
        (record { same_client = refl; no_refresh = refl; no_certificate = refl })
