-- ===== src/Certificates/Serving.antt =====
-- Where the certificate of a handshake comes from.
use mathlib.Core.List.{Memᴰ}
use mathlib.Core.List.Memᴰ
use minke.Base.{
  Bool, ◌&&◌, List, [], ◌∷◌, ◌++◌, some, ◌≡◌, inl, inr, refl, arith, ◌∙◌, sym, Option-cases,
  Bool-cases, List_ℕ-eq,
}
use minke.Base.Int.{ℤ}
use minke.GoText.{wildcard_name}
use minke.Secrets.{Certificate, CertMapEntry, CertMap}
use minke.Certificates.{entries_at, ClientHelloInfo, is_current, controller_get_certificate}
use minke.Certificates.Choice.{
  certs_of, candidates, first_of_list, first_of_all, best_choice, get_certificate-eq-best_choice,
}

-- The entries that a handshake looks at: those of the name, those of its wildcard name, and the
-- defaults.
abbrev pub entries_for : CertMap → ClientHelloInfo → List CertMapEntry
entries_for cm info =
    entries_at info.server_name cm.set
    ++ (entries_at (wildcard_name info.server_name) cm.set ++ cm.defaults)

first_of_list-Mem :
    (test : Certificate → Bool) (xs : List Certificate) (y : Certificate)
    → first_of_list test xs ≡ some y
    → Memᴰ y xs
first_of_list-Mem test [] y e = cc
first_of_list-Mem test (x ∷ xs) y e = elim (Bool-cases (test x)) [
  | inl t ↦ Memᴰ.head (ground arith)
  | inr t ↦ Memᴰ.tail (first_of_list-Mem test xs y (ground arith))
]

first_of_all-Mem : (xs : List Certificate) (y : Certificate) → first_of_all xs ≡ some y → Memᴰ y xs
first_of_all-Mem [] y e = cc
first_of_all-Mem (x ∷ xs) y e = Memᴰ.head (ground arith)

best_choice-Mem :
    (now : ℤ) (cm : CertMap) (info : ClientHelloInfo) (cert : Certificate)
    → best_choice now cm info ≡ some cert
    → Memᴰ cert (candidates cm info)
best_choice-Mem now cm info cert e =
    elim (Option-cases (first_of_list current (candidates cm info))) [
      | inr (c, q) ↦ first_of_list-Mem current (candidates cm info) cert (ground arith)
      | inl q ↦ elim (Option-cases (first_of_list info.supports_certificate (candidates cm info))) [
        | inr (c, r) ↦
            first_of_list-Mem info.supports_certificate (candidates cm info) cert (ground arith)
        | inl r ↦ Memᴰ.append_right (certs_of (entries_at info.server_name cm.set)) (
            Memᴰ.append_right (certs_of (entries_at (wildcard_name info.server_name) cm.set))
              (first_of_all-Mem (certs_of cm.defaults) cert (ground arith)))
      ]
    ]
  where
    current : Certificate → Bool
    current c = is_current now c && info.supports_certificate c

-- An entry of the list that has the certificate.
abbrev pub Holder : List CertMapEntry → Certificate → Type 0
Holder es cert = (e : CertMapEntry) × Memᴰ e es × (e.cert ≡ some cert)

Holder-left :
    (xs ys : List CertMapEntry) (cert : Certificate) → Holder xs cert → Holder (xs ++ ys) cert
Holder-left xs ys cert (e, m, q) = (e, Memᴰ.append_left ys m, q)

Holder-right :
    (xs ys : List CertMapEntry) (cert : Certificate) → Holder ys cert → Holder (xs ++ ys) cert
Holder-right xs ys cert (e, m, q) = (e, Memᴰ.append_right xs m, q)

certs_of-Holder :
    (es : List CertMapEntry) (cert : Certificate) → Memᴰ cert (certs_of es) → Holder es cert
certs_of-Holder [] cert m = elim m [ ]
certs_of-Holder (e ∷ es) cert m = elim (Option-cases e.cert) [
  | inl q ↦
      let later : Memᴰ cert (certs_of es) = rw (q, certs_of) at m in
      Holder-right (e ∷ []) es cert (certs_of-Holder es cert later)
  | inr (c, q) ↦
      let either : Memᴰ cert (c ∷ certs_of es) = rw (q, certs_of) at m in
      elim either [
        | Memᴰ.head same ↦ (e, Memᴰ.head refl, ground arith)
        | Memᴰ.tail later ↦ Holder-right (e ∷ []) es cert (certs_of-Holder es cert later)
      ]
]

candidates-Holder :
    (cm : CertMap) (info : ClientHelloInfo) (cert : Certificate)
    → Memᴰ cert (candidates cm info)
    → Holder (entries_for cm info) cert
candidates-Holder cm info cert m =
    let own = entries_at info.server_name cm.set in
    let wildcard = entries_at (wildcard_name info.server_name) cm.set in
    elim (Memᴰ.append_cases (certs_of own) m) [
      | inl m' ↦ Holder-left own (wildcard ++ cm.defaults) cert (certs_of-Holder own cert m')
      | inr m' ↦
          Holder-right own (wildcard ++ cm.defaults) cert
            (elim (Memᴰ.append_cases (certs_of wildcard) m') [
              | inl k ↦ Holder-left wildcard cm.defaults cert (certs_of-Holder wildcard cert k)
              | inr k ↦ Holder-right wildcard cm.defaults cert (certs_of-Holder cm.defaults cert k)
            ])
    ]

-- A certificate that is given in a handshake is that of an entry of the name, of its wildcard name
-- or of the defaults.
pub controller_get_certificate-Holder :
    (now : ℤ) (cm : CertMap) (info : ClientHelloInfo) (cert : Certificate)
    → controller_get_certificate now cm info ≡ some cert
    → Holder (entries_for cm info) cert
unfolding controller_get_certificate
controller_get_certificate-Holder now cm info cert e = candidates-Holder cm info cert (
    best_choice-Mem now cm info cert
      (sym (get_certificate-eq-best_choice now cm info) ∙ ground arith))
