-- ===== src/Certificates/Choice.antt =====
-- The certificate for a handshake, against the plain description: the candidates are the entries of
-- the name, of the wildcard name and the defaults, in this order.
use mathlib.Core.List.{Memᴰ}
use minke.Base.{
  Bool, true, ◌&&◌, List, [], ◌∷◌, ◌++◌, Option, none, some, if◌then◌else◌, ◌≡◌, inl, inr, refl,
  arith, ◌∙◌, Option-cases, Bool-cases,
}
use minke.Base.Int.{ℤ}
use minke.GoText.{wildcard_name}
use minke.Secrets.{Certificate, CertMapEntry, CertMap}
use minke.Certificates.{
  entries_at, ClientHelloInfo, is_current, first_cert, wildcard_loop, last_loop, or_else_cert,
  get_certificate,
}

-- The certificates of the entries that have one.
abbrev pub certs_of : List CertMapEntry → List Certificate
certs_of [] = []
certs_of (c ∷ cs) = elim c.cert [ none ↦ certs_of cs | some cert ↦ cert ∷ certs_of cs ]

abbrev pub candidates : CertMap → ClientHelloInfo → List Certificate
candidates cm info =
    certs_of (entries_at info.server_name cm.set)
    ++ (certs_of (entries_at (wildcard_name info.server_name) cm.set) ++ certs_of cm.defaults)

-- The first of a list that passes a test.
abbrev pub first_of_list : (Certificate → Bool) → List Certificate → Option Certificate
first_of_list test [] = none
first_of_list test (x ∷ xs) = if test x then some x else first_of_list test xs

-- The head of a list.
abbrev pub first_of_all : List Certificate → Option Certificate
first_of_all [] = none
first_of_all (x ∷ xs) = some x

-- The first candidate that is current and supported; else the first that is supported; else the
-- first default.
abbrev pub best_choice : ℤ → CertMap → ClientHelloInfo → Option Certificate
best_choice now cm info =
    or_else_cert
      (first_of_list (λ cert. is_current now cert && info.supports_certificate cert)
        (candidates cm info))
      (or_else_cert (first_of_list info.supports_certificate (candidates cm info))
        (first_of_all (certs_of cm.defaults)))

first_cert_lem :
    (test : Certificate → Bool) (cs : List CertMapEntry)
    → first_cert test cs ≡ first_of_list test (certs_of cs)
unfolding first_cert
first_cert_lem test [] = refl
first_cert_lem test (c ∷ cs) = ground (arith, first_cert_lem test cs)

wildcard_loop_lem :
    (now : ℤ) (info : ClientHelloInfo) (cs : List CertMapEntry)
    → wildcard_loop now info cs
      ≡ first_of_list (λ cert. is_current now cert && info.supports_certificate cert) (certs_of cs)
unfolding wildcard_loop
wildcard_loop_lem now info [] = refl
wildcard_loop_lem now info (c ∷ cs) = elim (Option-cases c.cert) [
  | inl e ↦ rw (e, wildcard_loop) (wildcard_loop_lem now info cs)
  | inr (cert, e) ↦ ground (arith, wildcard_loop_lem now info cs)
]

first_of_list-append :
    (test : Certificate → Bool) (xs ys : List Certificate)
    → first_of_list test (xs ++ ys) ≡ or_else_cert (first_of_list test xs) (first_of_list test ys)
first_of_list-append test [] ys = refl
first_of_list-append test (x ∷ xs) ys = ground (arith, first_of_list-append test xs ys)

or_else_assoc :
    (a b c : Option Certificate)
    → or_else_cert (or_else_cert a b) c ≡ or_else_cert a (or_else_cert b c)
or_else_assoc none b c = refl
or_else_assoc (some x) b c = refl

last_loop_lem :
    (info : ClientHelloInfo) (cs : List CertMapEntry) (last : Option Certificate)
    → last_loop info cs last
      ≡ or_else_cert
          (first_of_list info.supports_certificate (certs_of cs))
          (or_else_cert last (first_of_all (certs_of cs)))
unfolding last_loop
last_loop_lem info [] none = refl
last_loop_lem info [] (some l) = refl
last_loop_lem info (c ∷ cs) none = elim (Option-cases c.cert) [
  | inl e ↦ ground (arith, last_loop_lem info cs none)
  | inr (cert, e) ↦ ground (arith, last_loop_lem info cs (some cert))
]
last_loop_lem info (c ∷ cs) (some l) = ground (arith, last_loop_lem info cs (some l))

-- GetCertificate gives the first candidate that is current and supported, and if there is none the
-- first that is supported, and if there is none the first default, where the candidates are the
-- certificates under the name, those under its wildcard name, and the defaults.
pub get_certificate-eq-best_choice :
    (now : ℤ) (cm : CertMap) (info : ClientHelloInfo)
    → get_certificate now cm info ≡ best_choice now cm info
unfolding get_certificate
get_certificate-eq-best_choice now cm info =
    simp (first_cert_lem, wildcard_loop_lem, last_loop_lem, first_of_list-append, or_else_assoc)

first_of_list-passes :
    (test : Certificate → Bool) (xs : List Certificate) (x : Certificate)
    → Memᴰ x xs
    → test x ≡ true
    → (y : Certificate) × (first_of_list test xs ≡ some y) × (test y ≡ true)
first_of_list-passes test [] x m t = elim m [ ]
first_of_list-passes test (z ∷ xs) x (Memᴰ.head e) t = (z, ground arith, ground arith)
first_of_list-passes test (z ∷ xs) x (Memᴰ.tail m) t = elim (Bool-cases (test z)) [
  | inl u ↦ (z, rw u, u)
  | inr u ↦ let (y, e, v) = first_of_list-passes test xs x m t in (y, rw u e, v)
]

first_of_list_sound :
    (test : Certificate → Bool) (xs : List Certificate) (y : Certificate)
    → first_of_list test xs ≡ some y
    → test y ≡ true
first_of_list_sound test [] y e = cc
first_of_list_sound test (x ∷ xs) y e = elim (Bool-cases (test x)) [
  | inl t ↦ ground arith
  | inr t ↦ first_of_list_sound test xs y (ground arith)
]

-- If some certificate under the name, under its wildcard name or among the defaults is within its
-- time and supported, a certificate is given that is within its time and supported.
pub get_certificate-is_current :
    (now : ℤ) (cm : CertMap) (info : ClientHelloInfo) (cert : Certificate)
    → Memᴰ cert (candidates cm info)
    → is_current now cert ≡ true
    → info.supports_certificate cert ≡ true
    → (given : Certificate) × (get_certificate now cm info ≡ some given)
      × (is_current now given ≡ true)
      × (info.supports_certificate given ≡ true)
get_certificate-is_current now cm info cert m t u =
    let (given, e, v) =
      first_of_list-passes (λ c. is_current now c && info.supports_certificate c)
        (candidates cm info) cert m (ground arith) in
    (given, get_certificate-eq-best_choice now cm info ∙ ground arith, ground arith, ground arith)

-- If some certificate under the name, under its wildcard name or among the defaults is supported,
-- a certificate is given that is supported, whatever their times.
pub get_certificate-supported :
    (now : ℤ) (cm : CertMap) (info : ClientHelloInfo) (cert : Certificate)
    → Memᴰ cert (candidates cm info)
    → info.supports_certificate cert ≡ true
    → (given : Certificate) × (get_certificate now cm info ≡ some given)
      × (info.supports_certificate given ≡ true)
get_certificate-supported now cm info cert m u =
    elim (Option-cases (first_of_list current (candidates cm info))) [
      | inl e ↦
          let (given, q, v) =
            first_of_list-passes info.supports_certificate (candidates cm info) cert m u in
          (given, get_certificate-eq-best_choice now cm info ∙ ground arith, v)
      | inr (given, e) ↦
          let both = first_of_list_sound current (candidates cm info) given e in
          (given, get_certificate-eq-best_choice now cm info ∙ ground arith, ground arith)
    ]
  where
    current : Certificate → Bool
    current c = is_current now c && info.supports_certificate c
