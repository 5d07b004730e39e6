-- ===== src/Status/Tests.antt =====
-- Tests of the status.
use minke.Base.{[], none, some, if◌then◌else◌, ◌==◌, List_ℕ-discrete, List_ℕ-eq, ◌≡◌, refl}
use minke.GoText.{bytes}
use minke.GoMap.Laws.{map_option}
use minke.Secrets.{SecretKey-eq, Certificate, CertMapEntry, set_cert}
use minke.Ingress.{exact, path_type_string}
use minke.Endpoints.{service_key_string}
use minke.Status.{number, text, object, no_fields, field, field_at, rule_json, entry_fields}
use minke.Status.Errors.{entry_fields-set_cert}
use minke.Samples.{web_cert, cert_key, web_ing_key, rule}

rule_json_test :
    rule_json (record (rule exact (bytes "/api")) { host = [] })
    ≡ object (
        field (bytes "backend") (text (bytes "default/web:http")) (
          field (bytes "path") (text (bytes "/api")) (
            field
              (bytes "pathType")
              (text (bytes "exact"))
              (field (bytes "host") (text (bytes "*")) no_fields))))
unfolding rule_json List_ℕ-discrete service_key_string path_type_string
rule_json_test = refl

-- An entry whose secret did not load.
abbrev broken : CertMapEntry
broken = record {
  cert = none;
  sec = cert_key;
  ing = web_ing_key;
  err = some (bytes "no tls.key in secret");
}

entry_fields-set_cert_example :
    (field_at (bytes "error") (entry_fields number text (set_cert cert_key (some web_cert) broken))
      ≡ field_at (bytes "error") (entry_fields number text broken))
    × (field_at
          (bytes "notAfter")
          (entry_fields number text (set_cert cert_key (some web_cert) broken))
        ≡ (if broken.sec == cert_key
            then map_option (λ (c : Certificate). number c.leaf.not_after) (some web_cert)
            else field_at (bytes "notAfter") (entry_fields number text broken)))
    × (entry_fields number text (set_cert cert_key (some web_cert) broken) ≡ (
        if broken.sec == cert_key
        then entry_fields number text (record broken { cert = some web_cert })
        else entry_fields number text broken))
entry_fields-set_cert_example = entry_fields-set_cert number text cert_key (some web_cert) broken
