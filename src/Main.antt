-- ===== src/Main.antt =====
-- cmd/minke/main.go: the options that the flags make, and how the program comes to its end.
pub mod Flags
pub mod Ending
pub mod Startup
pub mod Shutdown
pub mod Chosen
pub mod Started
pub mod Starts
pub mod Scenarios
pub mod Tests
use minke.Base.{
  ℕ, Bool, true, false, ◌||◌, ◌&&◌, List, [], ◌∷◌, Option, none, some, ltb, if◌then◌else◌, ◌==◌,
  ℕ_eq, List_ℕ-eq, ◌⊎◌, map,
}
use minke.GoText.{GoString, split}
use minke.Kube.{GoError}
use minke.Controller.{
  Controller, Setting, with_namespace, with_class, with_default_http_redirect,
  with_default_tls_secrets, with_client_tls_secret, new,
}

-- The white space of package strings, of the bytes of ASCII.
abbrev pub is_space : ℕ → Bool
is_space c = c == 32 || (ltb 8 c && ltb c 14)

abbrev pub trim_left : GoString → GoString
trim_left [] = []
trim_left (c ∷ s) = if is_space c then trim_left s else c ∷ s

abbrev pub trim_right : GoString → GoString
trim_right [] = []
trim_right (c ∷ s) = let rest = trim_right s in if rest == [] && is_space c then [] else c ∷ rest

-- strings.TrimSpace
unfoldable pub trim_space : GoString → GoString
trim_space s = trim_right (trim_left s)

-- The flags that are turned into options on texts.
pub record FlagValues : Type 0 where
  pub namespace : GoString
  pub class : GoString
  pub http_redir : Bool
  pub server_tls_default_secrets : GoString
  pub client_tls_secret : GoString

unfoldable pub default_secrets : GoString → List GoString
unfolding split trim_space
default_secrets flag = map trim_space (split flag b',')

-- The options that store objects of other packages are left out.
unfoldable pub options : FlagValues → List Setting
unfolding default_secrets
options flags =
    with_namespace flags.namespace
    ∷ with_class flags.class
    ∷ with_default_http_redirect flags.http_redir
    ∷ with_default_tls_secrets (default_secrets flags.server_tls_default_secrets)
    ∷ with_client_tls_secret flags.client_tls_secret
    ∷ []

unfoldable pub new_controller : FlagValues → GoError ⊎ Controller
unfolding options
new_controller flags = new (options flags)

-- The error of a listener: http.ErrServerClosed, or another.
pub data ListenError : Type 0 where
  server_closed : ListenError
  other : GoError → ListenError

-- What a listener has come to: it serves, or it has returned.
pub data Listener : Type 0 where
  serves : Listener
  returned : Option ListenError → Listener

pub record Listeners : Type 0 where
  pub admin : Listener
  pub http : Listener
  -- tls.Listen, whose error is returned at once, and then Serve.
  pub https_listen : Option GoError
  pub https : Listener
  pub http3 : Listener

-- What a function of the group has come to: none while it runs, and then its result.
abbrev pub Outcome : Type 0
Outcome = Option (Option ListenError)

abbrev pub admin_outcome : Listener → Outcome
admin_outcome serves = none
admin_outcome (returned err) = some err

-- Any error is logged at most, and the result is nil.
abbrev pub http_outcome : Listener → Outcome
http_outcome serves = none
http_outcome (returned err) = some none

abbrev pub https_outcome : Option GoError → Listener → Outcome
https_outcome (some err) listener = some (some (other err))
https_outcome none serves = none
https_outcome none (returned none) = some none
https_outcome none (returned (some server_closed)) = some none
https_outcome none (returned (some (other err))) = some (some (other err))

abbrev pub http3_outcome : Listener → Outcome
http3_outcome serves = none
http3_outcome (returned err) = some err

-- Whether some function of the group has returned an error, which cancels the context of the group.
abbrev pub fails : List Outcome → Bool
fails [] = false
fails (none ∷ outcomes) = fails outcomes
fails (some none ∷ outcomes) = fails outcomes
fails (some (some err) ∷ outcomes) = true

-- Whether `<-ctx.Done()` returns: on a signal, or when the group fails.
unfoldable pub is_done : Bool → Listeners → Bool
is_done signal l =
    signal
    || fails (
        admin_outcome l.admin
        ∷ http_outcome l.http
        ∷ https_outcome l.https_listen l.https
        ∷ http3_outcome l.http3
        ∷ [])
