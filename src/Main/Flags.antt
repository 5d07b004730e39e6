-- ===== src/Main/Flags.antt =====
-- From the flag of the default secrets to the keys that the controller preloads.
use mathlib.Core.Path.{ap₂}
use mathlib.Core.List.{append-nil}
use minke.Base.{
  Bool, false, List, [], ◌∷◌, ◌++◌, Option, none, some, ℕ_eq, List_ℕ-eq, List_ℕ-discrete, ◌≡◌, refl,
  arith, ap, sym, ◌∙◌, All, map, inl, inr,
}
use minke.GoText.{GoString, bytes, join}
use minke.GoText.Laws.{Lacks, split-append, split_whole}
use minke.Kube.{GoError}
use minke.Secrets.{SecretKey}
use minke.Controller.{
  Controller, initial, new, apply_options, with_default_tls_secrets, with_client_tls_secret,
}
use minke.Controller.Options.{key_text, with_default_tls_secrets-map}
use minke.Main.{is_space, trim_left, trim_right, trim_space, default_secrets, new_controller}

-- A text without white space and commas.
abbrev pub IsWord : GoString → Type 0
IsWord s = All (λ c. is_space c ≡ false) s × Lacks b',' s

trim_left_word : (s : GoString) → All (λ c. is_space c ≡ false) s → trim_left s ≡ s
trim_left_word [] h = refl
trim_left_word (c ∷ s) h = rw h.0 refl

trim_right_word : (s : GoString) → All (λ c. is_space c ≡ false) s → trim_right s ≡ s
trim_right_word [] h = refl
trim_right_word (c ∷ s) h = ground (arith, trim_right_word s h.1)

trim_space_word : (s : GoString) → All (λ c. is_space c ≡ false) s → trim_space s ≡ s
unfolding trim_space
trim_space_word s h = ap trim_right (trim_left_word s h) ∙ trim_right_word s h

-- Joined words are the secrets of the flag.
default_secrets-join :
    (w : GoString) (ws : List GoString)
    → All IsWord (w ∷ ws)
    → default_secrets (join (w ∷ ws) (bytes ",")) ≡ w ∷ ws
unfolding default_secrets join
default_secrets-join w [] h =
    ap (map trim_space) (split_whole b',' w h.0.1) ∙ ap (λ x. x ∷ []) (trim_space_word w h.0.0)
default_secrets-join w (v ∷ ws) h =
    ap (map trim_space) (split-append b',' w (join (v ∷ ws) (bytes ",")) h.0.1)
    ∙ ap₂ ◌∷◌ (trim_space_word w h.0.0) (default_secrets-join v ws h.1)

-- The text of a flag that lists the keys.
abbrev pub flag_text : List SecretKey → GoString
flag_text keys = join (map key_text keys) (bytes ",")

-- Keys in the form NAMESPACE/NAME.
abbrev pub AllListable : List SecretKey → Type 0
AllListable [] = Unit
AllListable (key ∷ keys) = (IsWord (key_text key) × Lacks b'/' key.namespace) × AllListable keys

words : (keys : List SecretKey) → AllListable keys → All IsWord (map key_text keys)
words [] h = tt
words (key ∷ keys) h = (h.0.0, words keys h.1)

namespaces : (keys : List SecretKey) → AllListable keys → All (λ key. Lacks b'/' key.namespace) keys
namespaces [] h = tt
namespaces (key ∷ keys) h = (h.0.1, namespaces keys h.1)

empty_flag :
    (c : Controller)
    → with_default_tls_secrets (default_secrets (flag_text [])) c
      ≡ (record c { default_tls_secrets = c.default_tls_secrets ++ [] }, none)
unfolding default_secrets with_default_tls_secrets join List_ℕ-discrete
empty_flag c =
    ap (λ keys. (record c { default_tls_secrets = keys }, none))
      (sym (append-nil c.default_tls_secrets))

with_default_tls_secrets-flag_text :
    (keys : List SecretKey) (c : Controller)
    → AllListable keys
    → with_default_tls_secrets (default_secrets (flag_text keys)) c
      ≡ (record c { default_tls_secrets = c.default_tls_secrets ++ keys }, none)
with_default_tls_secrets-flag_text [] c h = empty_flag c
with_default_tls_secrets-flag_text (key ∷ keys) c h =
    ap (λ strs. with_default_tls_secrets strs c)
      (default_secrets-join (key_text key) (map key_text keys) (words (key ∷ keys) h))
    ∙ with_default_tls_secrets-map (key ∷ keys) c (namespaces (key ∷ keys) h)

-- Given a flag that lists keys in the form NAMESPACE/NAME, separated by commas and with no white
-- space, and no client secret, New succeeds, and the controller has exactly these keys to preload, in
-- their order, beside the namespace, the class and the redirection of the other flags. The keys are
-- taken to have no slash in their namespaces. An empty flag lists no keys.
pub new_controller-flag_text :
    (namespace class : GoString) (redir : Bool) (keys : List SecretKey)
    → AllListable keys
    → new_controller (record {
      namespace = namespace;
      class = class;
      http_redir = redir;
      server_tls_default_secrets = flag_text keys;
      client_tls_secret = [];
    })
      ≡ inr (record initial {
        namespace = namespace;
        class = class;
        default_http_redir = redir;
        default_tls_secrets = keys;
      })
unfolding new_controller new with_client_tls_secret List_ℕ-discrete
new_controller-flag_text namespace class redir keys h =
    ap
      (λ (out : Controller × Option GoError). elim out.1 [
        | none ↦ apply_options (with_client_tls_secret [] ∷ []) out.0
        | some err ↦ inl err
      ])
      (with_default_tls_secrets-flag_text keys
        (record initial { namespace = namespace; class = class; default_http_redir = redir }) h)
