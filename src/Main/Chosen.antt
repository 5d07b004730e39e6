-- ===== src/Main/Chosen.antt =====
-- The fields that the options of main leave, which New has made with them.
use mathlib.Core.Path.{subst}
use minke.Base.{
  List, [], ◌∷◌, Option, some, inl, inr, ◌≡◌, refl, arith, ◌∙◌, Option-cases, Bool-cases, ◌==◌,
  List_ℕ-eq, map,
}
use minke.GoText.{GoString, split_two}
use minke.Kube.{GoError}
use minke.Controller.{
  Controller, two_parts, with_default_tls_secrets, with_client_tls_secret, apply_options, initial,
}
use minke.Controller.Fields.{Objects, Fields, Provider}
use minke.Controller.Assembly.{Packages, initial_fields, new_fields}
use minke.Main.{FlagValues, default_secrets}
use minke.Main.Startup.{main_transport, choices}

-- The options of the secrets leave the namespace.
default_tls_secrets_namespace :
    (strs : List GoString) (c : Controller)
    → (with_default_tls_secrets strs c).0.namespace ≡ c.namespace
unfolding with_default_tls_secrets
default_tls_secrets_namespace [] c = refl
default_tls_secrets_namespace (str ∷ strs) c = elim (Bool-cases (str == [])) [
  | inl t ↦ rw t (default_tls_secrets_namespace strs c)
  | inr t ↦ elim (Option-cases (two_parts (split_two str b'/'))) [
    | inl q ↦ rw (t, q) refl
    | inr (parts, q) ↦ rw (t, q) (default_tls_secrets_namespace strs _)
  ]
]

client_tls_secret_namespace :
    (str : GoString) (c : Controller) → (with_client_tls_secret str c).0.namespace ≡ c.namespace
unfolding with_client_tls_secret
client_tls_secret_namespace str c = elim (Bool-cases (str == [])) [
  | inl t ↦ rw t refl
  | inr t ↦ elim (Option-cases (two_parts (split_two str b'/'))) [
    | inl q ↦ rw (t, q) refl
    | inr (parts, q) ↦ rw (t, q) refl
  ]
]

module _ (o : Objects) (p : Packages o) (metrics : Option (Provider o)) (client : o.client)
    (flags : FlagValues) (selector : o.selector) (quic : o.quic_func) where
  -- The fields that the options of main leave.
  pub record Chosen (f : Fields o) : Type 0 where
    pub same_namespace : f.settings.namespace ≡ flags.namespace
    pub others : f ≡ record (initial_fields o p metrics client) {
      settings = f.settings;
      selector = selector;
      client_transport = some (main_transport o);
      set_quic_headers = some quic;
    }

  -- The settings after the options before that of the default secrets.
  abbrev first : Controller
  first = record initial {
    namespace = flags.namespace;
    class = flags.class;
    default_http_redir = flags.http_redir;
  }

  abbrev second : Controller × Option GoError
  second = with_default_tls_secrets (default_secrets flags.server_tls_default_secrets) first

  abbrev third : Controller × Option GoError
  third = with_client_tls_secret flags.client_tls_secret second.0

  pub choices-Chosen :
      (f : Fields o)
      → new_fields o p metrics client (choices o flags selector quic) ≡ inr f
      → Chosen f
  unfolding new_fields apply_options
  choices-Chosen f e = elim (Option-cases second.1) [
    | inr (err, q) ↦
        let wrong : inl err ≡ inr f = rw (new_fields, map, apply_options, q) at e in
        let no : ⊥ = ground arith in elim no [ ]
    | inl fine ↦ elim (Option-cases third.1) [
      | inr (err, q) ↦
          let wrong : inl err ≡ inr f = rw (new_fields, map, apply_options, fine, q) at e in
          let no : ⊥ = ground arith in elim no [ ]
      | inl fine' ↦
          let made : Fields o = record (initial_fields o p metrics client) {
            settings = third.0;
            selector = selector;
            client_transport = some (main_transport o);
            set_quic_headers = some quic;
          } in
          let e' : inr made ≡ inr f = rw (new_fields, map, apply_options, fine, fine') at e in
          let same : made ≡ f = ground arith in
          subst Chosen same (record {
            same_namespace =
                client_tls_secret_namespace flags.client_tls_secret second.0
                ∙ default_tls_secrets_namespace _ first;
            others = refl;
          })
    ]
  ]
