-- ===== src/Controller.antt =====
-- controller.go: the settings of the controller, the options that set them, and how New applies
-- them; the shutdown of the queues and the readiness report.
pub mod Options
pub mod Running
pub mod Construction
pub mod Fields
pub mod Watches
pub mod Assembly
pub mod Choices
pub mod Inversion
pub mod Returns
pub mod Samples
pub mod Once
pub mod Order
pub mod Tests
use minke.Base.{
  ℕ, Bool, true, false, ◌&&◌, List, [], ◌∷◌, ◌++◌, Option, none, some, ◌⊎◌, inl, inr, if◌then◌else◌,
  ◌==◌, List_ℕ-eq,
}
use minke.GoText.{GoString, bytes, split_two}
use minke.Kube.{GoError}
use minke.Secrets.{SecretKey}

-- The fields of the controller that the options below set.
pub record Controller : Type 0 where
  pub class : GoString
  pub namespace : GoString
  pub default_http_redir : Bool
  pub default_backend_namespace : GoString
  pub default_backend_name : GoString
  pub default_tls_secrets : List SecretKey
  pub client_tls_secret_namespace : GoString
  pub client_tls_secret_name : GoString

-- The type `Option`, on the fields that it changes, with its error.
abbrev pub Setting : Type 0
Setting = Controller → Controller × Option GoError

abbrev pub with_class : GoString → Setting
with_class cls c = (record c { class = cls }, none)

abbrev pub with_namespace : GoString → Setting
with_namespace ns c = (record c { namespace = ns }, none)

abbrev pub with_default_http_redirect : Bool → Setting
with_default_http_redirect redir c = (record c { default_http_redir = redir }, none)

-- `parts[0]` and `parts[1]`, if there are two parts.
abbrev pub two_parts : List GoString → Option (GoString × GoString)
two_parts [] = none
two_parts (a ∷ []) = none
two_parts (a ∷ b ∷ []) = some (a, b)
two_parts (a ∷ b ∷ c ∷ parts) = none

unfoldable pub with_default_backend : GoString → Setting
unfolding split_two
with_default_backend str c = elim (two_parts (split_two str b'/')) [
  | none ↦ (c, some (bytes "default backend service should be in the for of NAMESPACE/NAME"))
  | some parts ↦
      (record c { default_backend_namespace = parts.0; default_backend_name = parts.1 }, none)
]

-- The loop over the strings, which skips the empty ones.
unfoldable pub with_default_tls_secrets : List GoString → Setting
unfolding split_two
with_default_tls_secrets [] c = (c, none)
with_default_tls_secrets (str ∷ strs) c =
    if str == [] then with_default_tls_secrets strs c else elim (two_parts (split_two str b'/')) [
      | none ↦ (c, some (bytes "default TLS secret should be in the for of NAMESPACE/NAME"))
      | some parts ↦ with_default_tls_secrets strs (record c {
        default_tls_secrets =
            c.default_tls_secrets ++ record { namespace = parts.0; name = parts.1 } ∷ [];
      })
    ]

unfoldable pub with_client_tls_secret : GoString → Setting
unfolding split_two
with_client_tls_secret str c =
    if str == [] then (c, none) else elim (two_parts (split_two str b'/')) [
      | none ↦ (c, some (bytes "default client TLS secret should be in the for of NAMESPACE/NAME"))
      | some parts ↦ (
        record c { client_tls_secret_namespace = parts.0; client_tls_secret_name = parts.1 },
        none,
      )
    ]

-- The loop of New over its options, for options that change a C.
unfoldable pub apply_options : {C : Type 0} → List (C → C × Option GoError) → C → GoError ⊎ C
apply_options [] c = inr c
apply_options (opt ∷ opts) c =
    let (c', err) = opt c in elim err [ none ↦ apply_options opts c' | some e ↦ inl e ]

-- The fields as New sets them first.
abbrev pub initial : Controller
initial = record {
  class = bytes "minke";
  namespace = [];
  default_http_redir = true;
  default_backend_namespace = [];
  default_backend_name = [];
  default_tls_secrets = [];
  client_tls_secret_namespace = [];
  client_tls_secret_name = [];
}

unfoldable pub new : List Setting → GoError ⊎ Controller
unfolding apply_options
new opts = apply_options opts initial

-- A value for each of the four processors.
pub record Processors (A : Type 0) : Type 0 where
  pub ing : A
  pub svc : A
  pub sec : A
  pub eps : A

pub data Kind : Type 0 where
  ing svc sec eps : Kind

abbrev pub of_kind : {A : Type 0} → Kind → Processors A → A
of_kind ing all = all.ing
of_kind svc all = all.svc
of_kind sec all = all.sec
of_kind eps all = all.eps

-- A change to the value of one kind.
abbrev pub on_kind : {A : Type 0} → Kind → (A → A) → Processors A → Processors A
on_kind ing f all = record all { ing = f all.ing }
on_kind svc f all = record all { svc = f all.svc }
on_kind sec f all = record all { sec = f all.sec }
on_kind eps f all = record all { eps = f all.eps }

-- Stop; `shut_down` is the call of that name on a queue.
abbrev pub stop : {Q : Type 0} → (Q → Q) → Bool → Processors Q → Processors Q
stop shut_down true queues = queues
stop shut_down false queues = record {
  ing = shut_down queues.ing;
  svc = shut_down queues.svc;
  sec = shut_down queues.sec;
  eps = shut_down queues.eps;
}

abbrev pub has_synced : Processors Bool → Bool
has_synced informers = informers.ing && informers.svc && informers.sec && informers.eps

-- The status and the text of the liveness report.
abbrev pub serve_livez_http : ℕ × GoString
serve_livez_http = (200, bytes "OK")

-- The status and the text of the report.
unfoldable pub serve_readyz_http : Processors Bool → ℕ × GoString
serve_readyz_http informers =
    if has_synced informers then (200, bytes "OK") else (507, bytes "Not synced yet")
