-- ===== src/Main/Tests.antt =====
-- Tests of the command.
use minke.Base.{
  [], ◌∷◌, true, false, none, some, ◌⊎◌, inr, ◌↔◌, ◌≡◌, refl, ℕ_discrete, List_ℕ-discrete,
}
use minke.GoText.{bytes}
use minke.Controller.{initial}
use minke.Main.{other, serves, returned, Listeners, is_done, trim_space, new_controller}
use minke.Main.Flags.{flag_text, AllListable, new_controller-flag_text}
use minke.Main.Ending.{HasFailed, HttpsFailed, is_done_iff}
use minke.Samples.{cert_key}

trim_space_test : trim_space (bytes " default/cert ") ≡ bytes "default/cert"
unfolding trim_space ℕ_discrete List_ℕ-discrete
trim_space_test = refl

cert_key-AllListable : AllListable (cert_key ∷ [])
unfolding ℕ_discrete
cert_key-AllListable = (
  (
    (
      (
        refl,
        (refl, (refl, (refl, (refl, (refl, (refl, (refl, (refl, (refl, (refl, (refl, tt))))))))))),
      ),
      (
        λ e. cc,
        (
          λ e. cc,
          (
            λ e. cc,
            (
              λ e. cc,
              (
                λ e. cc,
                (λ e. cc, (λ e. cc, (λ e. cc, (λ e. cc, (λ e. cc, (λ e. cc, (λ e. cc, tt))))))),
              ),
            ),
          ),
        ),
      ),
    ),
    (λ e. cc, (λ e. cc, (λ e. cc, (λ e. cc, (λ e. cc, (λ e. cc, (λ e. cc, tt))))))),
  ),
  tt,
)

new_controller-flag_text_example :
    new_controller (record {
      namespace = [];
      class = bytes "minke";
      http_redir = true;
      server_tls_default_secrets = flag_text (cert_key ∷ []);
      client_tls_secret = [];
    })
    ≡ inr (record initial {
      namespace = [];
      class = bytes "minke";
      default_http_redir = true;
      default_tls_secrets = cert_key ∷ [];
    })
new_controller-flag_text_example =
    new_controller-flag_text [] (bytes "minke") true (cert_key ∷ []) cert_key-AllListable

-- The http listener has failed, and the others serve.
abbrev without_http : Listeners
without_http = record {
  admin = serves;
  http = returned (some (other (bytes "address in use")));
  https_listen = none;
  https = serves;
  http3 = serves;
}

is_done_iff_example : (is_done false without_http ≡ true) ↔ (
    (false ≡ true)
    ⊎ HasFailed without_http.admin
    ⊎ HttpsFailed without_http.https_listen without_http.https
    ⊎ HasFailed without_http.http3)
is_done_iff_example = is_done_iff false without_http
