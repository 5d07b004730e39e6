-- ===== src/Secrets/Tests.antt =====
-- Tests of the secrets, with a lister that always finds one.
use mathlib.Core.Path.{◌≡◌}
use minke.Base.{some}
use minke.Secrets.{get_cert_fuel, get_cert}
use minke.Secrets.Loading.{fetched, get_cert_total}
use minke.Samples.{platform, no_certs, cert_key}

get_cert_total_example :
    (get_cert_fuel platform 2 no_certs cert_key ≡ some (fetched platform no_certs cert_key))
    × (get_cert platform no_certs cert_key ≡ fetched platform no_certs cert_key)
get_cert_total_example = get_cert_total platform 0 no_certs cert_key
