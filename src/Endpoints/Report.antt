-- ===== src/Endpoints/Report.antt =====
-- The report of the endpoints, against the addresses that the set holds.
use mathlib.Core.List.{append-nil, append_assoc}
use minke.Base.{
  ℕ, List, [], ◌∷◌, ◌++◌, none, some, if◌then◌else◌, ◌==◌, ℕ_eq, List_ℕ-eq, ◌≡◌, ◌≢◌, refl, arith,
  ap, sym, ◌∙◌, map, Option-cases, Bool-cases, inl, inr, ==_iff,
}
use minke.GoText.{GoString}
use minke.GoText.Laws.{Lacks}
use minke.GoMap.{GoMap, lookup, insert, IsMap}
use minke.GoMap.Laws.{lookup-insert}
use minke.Endpoints.{
  ServiceKey, ServiceKey-eq, ServiceAddr, EpsSet, service_key_string, service_addr_string,
  report_addrs, report,
}

-- A text is cut at its first separator in one way.
cut :
    (sep : ℕ) (a a' b b' : GoString)
    → Lacks sep a
    → Lacks sep a'
    → a ++ sep ∷ b ≡ a' ++ sep ∷ b'
    → (a ≡ a') × (b ≡ b')
cut sep [] [] b b' h h' e = (refl, ground arith)
cut sep [] (d ∷ a') b b' h h' e = absurd (h'.0 (ground arith))
cut sep (c ∷ a) [] b b' h h' e = absurd (h.0 (ground arith))
cut sep (c ∷ a) (d ∷ a') b b' h h' e =
    let (left, right) = cut sep a a' b b' h.1 h'.1 (ground arith) in (ground arith, right)

uncut : (sep : ℕ) (a a' b' : GoString) → Lacks sep a → a ≢ a' ++ sep ∷ b'
uncut sep [] [] b' h e = cc
uncut sep [] (d ∷ a') b' h e = cc
uncut sep (c ∷ a) [] b' h e = h.0 (ground arith)
uncut sep (c ∷ a) (d ∷ a') b' h e = uncut sep a a' b' h.1 (ground arith)

-- The names of the API: no slash in the namespace, no colon in the name.
abbrev pub IsPlain : ServiceKey → Type 0
IsPlain k = Lacks b'/' k.namespace × Lacks b':' k.name

-- The name and the port, if there is one.
abbrev tail_of : ServiceKey → GoString
tail_of k = if k.port_name == [] then k.name else k.name ++ b':' ∷ k.port_name

service_key_string_lem : (k : ServiceKey) → service_key_string k ≡ k.namespace ++ b'/' ∷ tail_of k
unfolding service_key_string
service_key_string_lem k = ground arith

tail_of_injective :
    (k j : ServiceKey)
    → IsPlain k
    → IsPlain j
    → tail_of k ≡ tail_of j
    → (k.name ≡ j.name) × (k.port_name ≡ j.port_name)
tail_of_injective k j p q e = elim (Bool-cases (k.port_name == [])) [
  | inl t ↦ elim (Bool-cases (j.port_name == [])) [
    | inl u ↦ (ground arith, (==_iff _ _).0 t ∙ sym ((==_iff _ _).0 u))
    | inr u ↦
        let bad : k.name ≡ j.name ++ b':' ∷ j.port_name = ground arith in
        absurd (uncut b':' k.name j.name j.port_name p.1 bad)
  ]
  | inr t ↦ elim (Bool-cases (j.port_name == [])) [
    | inl u ↦
        let bad : j.name ≡ k.name ++ b':' ∷ k.port_name = ground arith in
        absurd (uncut b':' j.name k.name k.port_name q.1 bad)
    | inr u ↦ cut b':' k.name j.name k.port_name j.port_name p.1 q.1 (ground arith)
  ]
]

-- Plain keys have different texts.
service_key_string_injective :
    (k j : ServiceKey) → IsPlain k → IsPlain j → service_key_string k ≡ service_key_string j → k ≡ j
service_key_string_injective k j p q e =
    let (ns, rest) =
      cut b'/' k.namespace j.namespace (tail_of k) (tail_of j) p.0 q.0
        (sym (service_key_string_lem k) ∙ e ∙ service_key_string_lem j) in
    let (name, port) = tail_of_injective k j p q rest in ground arith

-- The texts that a report lists for a key.
abbrev pub listed : GoString → GoMap GoString (List GoString) → List GoString
listed s strmap = elim (lookup s strmap) [ none ↦ [] | some strs ↦ strs ]

listed-report_addrs :
    (s kstr : GoString) (vs : List ServiceAddr) (strmap : GoMap GoString (List GoString))
    → listed s (report_addrs kstr vs strmap)
      ≡ (if kstr == s then listed s strmap ++ map service_addr_string vs else listed s strmap)
unfolding report_addrs
listed-report_addrs s kstr [] strmap = ground (arith, append-nil (listed s strmap))
listed-report_addrs s kstr (v ∷ vs) strmap =
    let x = service_addr_string v in
    elim (Option-cases (lookup kstr strmap)) [
      | inl missing ↦ ground (
        arith,
        listed-report_addrs s kstr vs (insert kstr (x ∷ []) strmap),
        lookup-insert kstr s (x ∷ []) strmap,
      )
      | inr (strs, found) ↦ ground (
        arith,
        listed-report_addrs s kstr vs (insert kstr (strs ++ x ∷ []) strmap),
        lookup-insert kstr s (strs ++ x ∷ []) strmap,
        append_assoc strs (x ∷ []) (map service_addr_string vs),
      )
    ]

-- The addresses of a key, none if it is missing.
abbrev pub addrs_at : ServiceKey → EpsSet → List ServiceAddr
addrs_at k eps = elim (lookup k eps) [ none ↦ [] | some set ↦ set.addrs ]

-- All keys of a set are plain.
abbrev pub AllPlain : EpsSet → Type 0
AllPlain [] = Unit
AllPlain ((k, vs) ∷ eps) = IsPlain k × AllPlain eps

listed-report_lem :
    (k : ServiceKey) (eps : EpsSet) (strmap : GoMap GoString (List GoString))
    → IsMap eps
    → IsPlain k
    → AllPlain eps
    → listed (service_key_string k) (report eps strmap)
      ≡ listed (service_key_string k) strmap ++ map service_addr_string (addrs_at k eps)
unfolding report lookup
listed-report_lem k [] strmap m p h = sym (append-nil _)
listed-report_lem k ((j, set) ∷ eps) strmap m p h =
    let ih =
      listed-report_lem k eps (report_addrs (service_key_string j) set.addrs strmap) m.1 p h.1 in
    let step = listed-report_addrs (service_key_string k) (service_key_string j) set.addrs strmap in
    elim (ServiceKey-eq.discrete j k) [
      | yes same ↦
          let gone : lookup k eps ≡ none = ap (λ i. lookup i eps) (sym same) ∙ m.0 in
          let texts : service_key_string j ≡ service_key_string k = ap service_key_string same in
          ih
          ∙ ground (
            arith,
            append-nil (listed (service_key_string k) strmap ++ map service_addr_string set.addrs),
          )
      | no other ↦
          let texts : service_key_string j ≢ service_key_string k =
            λ e. other (service_key_string_injective j k h.0 p e) in
          ih ∙ ground arith
    ]

-- The report lists for each key the texts of the addresses that the set holds for it, in their order,
-- and nothing for a key that is missing, if no namespace has a slash and no name a colon.
pub listed-report :
    (k : ServiceKey) (eps : EpsSet)
    → IsMap eps
    → IsPlain k
    → AllPlain eps
    → listed (service_key_string k) (report eps []) ≡ map service_addr_string (addrs_at k eps)
unfolding lookup
listed-report k eps m p h = listed-report_lem k eps [] m p h
