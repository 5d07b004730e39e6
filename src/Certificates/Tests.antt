-- ===== src/Certificates/Tests.antt =====
-- Tests of the certificate map, on one host with one certificate.
use mathlib.Core.Path.{◌≡◌}
use mathlib.Core.List.{Memᴰ}
use minke.Base.{[], ◌∷◌, some, refl, List_ℕ-discrete, List_ℕ-eq, List, inl, ◌⊎◌, ◌≢◌, arith}
use minke.Base.Int.{pos, ltb_ℤ}
use minke.GoText.{bytes, GoString}
use minke.GoMap.{lookup}
use minke.Secrets.{IngressKey-eq, SecretData, SecretKey-discrete, SecretKey-eq, load, cert_of}
use minke.Certificates.{get_certificate}
use minke.Certificates.Choice.{candidates, best_choice, get_certificate-eq-best_choice}
use minke.Certificates.Coherence.{IsCoherent}
use minke.Certificates.Interleaving.{
  Move, fetches, commits, stores, loads, refreshes, World, acts, of_ingress, of_secret, Interleaves,
  ends, first, second,
}
use minke.Certificates.Race.{stale_order, interleaved-IsCoherent, stale_order-stale}
use minke.Samples.{platform, cert_key, web_cert, web_certs, web_ing_key, hello}

choosing : Unit {0}
unfolding get_certificate lookup List_ℕ-discrete ltb_ℤ
choosing = tt

get_certificate_test : get_certificate (pos 5) web_certs hello ≡ some web_cert
unfolding choosing
get_certificate_test = refl

listed : Memᴰ web_cert (candidates web_certs hello)
unfolding choosing
listed = Memᴰ.head refl

get_certificate-eq-best_choice_example :
    get_certificate (pos 20) web_certs hello ≡ best_choice (pos 20) web_certs hello
get_certificate-eq-best_choice_example = get_certificate-eq-best_choice (pos 20) web_certs hello

-- The data of the secret, before and after it is updated.
abbrev old_data : SecretData
old_data = (bytes "tls.crt", bytes "crt") ∷ (bytes "tls.key", bytes "key") ∷ []

abbrev new_data : SecretData
new_data = (bytes "tls.crt", bytes "renewed") ∷ (bytes "tls.key", bytes "key") ∷ []

-- The old data is stored, and no entry refers to it yet.
abbrev before : World
before = record {
  st = record {
    secrets = (cert_key, old_data) ∷ [];
    cert_map = record { set = []; defaults = [] };
  };
  held = inl [];
  loaded = inl [];
}

before-IsCoherent : IsCoherent (load platform) before.st
unfolding lookup
before-IsCoherent = record { hosts = λ h. tt; defaults = tt }

before_has : lookup cert_key before.st.secrets ≡ some old_data
unfolding lookup SecretKey-discrete
before_has = refl

abbrev hosts : List GoString
hosts = bytes "a.test" ∷ []

abbrev one_after_other : List Move
one_after_other = stores ∷ loads ∷ refreshes ∷ fetches ∷ commits ∷ []

interleaved-IsCoherent_example :
    (one_after_other ≡ stale_order)
    ⊎ IsCoherent
        (load platform)
        (acts platform web_ing_key cert_key hosts new_data one_after_other before).st
interleaved-IsCoherent_example =
    interleaved-IsCoherent platform web_ing_key cert_key hosts new_data one_after_other before
      old_data (second (second (second (first (first ends))))) before-IsCoherent before_has

other_certs : cert_of (load platform old_data) ≢ cert_of (load platform new_data)
unfolding load lookup List_ℕ-discrete
other_certs e = let no : bytes "crt" ≡ bytes "renewed" = ground arith in ground arith

stale_order-stale_example :
    Interleaves of_ingress of_secret stale_order
    × (¬ IsCoherent
        (load platform)
        (acts platform web_ing_key cert_key hosts new_data stale_order before).st)
unfolding List_ℕ-discrete
stale_order-stale_example =
    stale_order-stale platform web_ing_key cert_key hosts new_data before old_data (bytes "a.test")
      before-IsCoherent before_has refl other_certs
