-- ===== src/Metrics/Rounds.antt =====
-- The calls that the queues of several names make, each the same methods with its own name.
use mathlib.Core.Logic.{∥∥₁_elim}
use mathlib.Core.HLevel.{⊥_prop}
use mathlib.Core.List.{Memᴰ, Nodup, Pairwise}
use mathlib.Core.List.Memᴰ
use minke.Base.{
  false, List, [], ◌∷◌, ◌++◌, List_ℕ-eq, ◌≡◌, ◌≢◌, refl, arith, ap, sym, ◌∙◌, inl, inr, map,
}
use minke.GoText.{GoString, elem}
use minke.Panic.{ret, >>=-eq-ret}
use minke.Metrics.{Package}
use minke.Metrics.Registry.{RegistryLaws}
use minke.Metrics.Names.{Metric}
use minke.Metrics.Calls.{Call, made_by, call, calls, call_lem}
use minke.Metrics.Setup.{reverse_onto}

-- One round of calls for a name, and the rounds for several names.
abbrev pub round : List Metric → GoString → List Call
round [] name = []
round (m ∷ ms) name = record { metric = m; name = name } ∷ round ms name

abbrev pub rounds : List Metric → List GoString → List Call
rounds ms [] = []
rounds ms (name ∷ names) = round ms name ++ rounds ms names

abbrev pub AllOther : List GoString → Type 0
AllOther [] = Unit
AllOther (name ∷ names) = (elem name names ≡ false) × AllOther names

name-round :
    (ms : List Metric) (name : GoString) (c : Call) → Memᴰ c (round ms name) → c.name ≡ name
name-round [] name c k = elim k [ ]
name-round (m ∷ ms) name c (Memᴰ.head e) = ap (λ (x : Call). x.name) e
name-round (m ∷ ms) name c (Memᴰ.tail k) = name-round ms name c k

metric-round :
    (ms : List Metric) (name : GoString) (c : Call) → Memᴰ c (round ms name) → Memᴰ c.metric ms
metric-round [] name c k = elim k [ ]
metric-round (m ∷ ms) name c (Memᴰ.head e) = Memᴰ.head (ap (λ (x : Call). x.metric) e)
metric-round (m ∷ ms) name c (Memᴰ.tail k) = Memᴰ.tail (metric-round ms name c k)

-- A call of the rounds has one of their names.
name-rounds :
    (ms : List Metric) (names : List GoString) (c : Call) (name : GoString)
    → Memᴰ c (rounds ms names)
    → elem name names ≡ false
    → c.name ≢ name
name-rounds ms [] c name k h e = elim k [ ]
name-rounds ms (n ∷ names) c name k h e = elim (Memᴰ.append_cases (round ms n) k) [
  | inl k' ↦
      let same : c.name ≡ n = name-round ms n c k' in let no : ⊥ = ground arith in elim no [ ]
  | inr k' ↦ name-rounds ms names c name k' (ground arith) e
]

round-Nodup :
    (ms : List Metric) (name : GoString) (rest : List Call)
    → Nodup ms
    → ((c : Call) → Memᴰ c rest → c.name ≢ name)
    → Nodup rest
    → Nodup (round ms name ++ rest)
round-Nodup [] name rest h other n = n
round-Nodup (m ∷ ms) name rest (Pairwise.cons apart h) other n =
    Pairwise.cons {a = record { metric = m; name = name }}
      (λ d k same. ∥∥₁_elim k ⊥_prop (λ k'. elim (Memᴰ.append_cases (round ms name) k') [
        | inl k'' ↦
            apart d.metric ∣ metric-round ms name d k'' ∣₁ (ap (λ (x : Call). x.metric) same)
        | inr k'' ↦ other d k'' (sym (ap (λ (x : Call). x.name) same))
      ]))
      (round-Nodup ms name rest h other n)

pub rounds-Nodup :
    (ms : List Metric) (names : List GoString) → Nodup ms → AllOther names → Nodup (rounds ms names)
rounds-Nodup ms [] h o = Pairwise.nil
rounds-Nodup ms (name ∷ names) h o =
    round-Nodup ms name (rounds ms names) h (λ c k. name-rounds ms names c name k o.0)
      (rounds-Nodup ms names h o.1)

module _ {R : Type 0} {M : Type 0} (pkg : Package R M) where
  pub calls-append :
      (cs ds : List Call) (r r' : R)
      → calls pkg (cs ++ ds) r ≡ ret r'
      → (s : R) × (calls pkg cs r ≡ ret s) × (calls pkg ds s ≡ ret r')
  calls-append [] ds r r' e = (r, refl, e)
  calls-append (c ∷ cs) ds r r' e =
      let (next, e', rest) = >>=-eq-ret (call pkg c.metric c.name r) _ e in
      let (s, first, second) = calls-append cs ds next r' rest in
      let whole : calls pkg (c ∷ cs) r ≡ ret s = rw e' first in (s, whole, second)

  -- What the registry holds after calls that return.
  pub calls-collectors :
      (laws : RegistryLaws pkg) (cs : List Call) (r r' : R)
      → calls pkg cs r ≡ ret r'
      → laws.collectors r' ≡ reverse_onto (map made_by cs) (laws.collectors r)
  calls-collectors laws [] r r' e =
      let same : r ≡ r' = ground arith in ap laws.collectors (sym same)
  calls-collectors laws (c ∷ cs) r r' e =
      let (next, e', rest) = >>=-eq-ret (call pkg c.metric c.name r) _ e in
      let taken : pkg.must_register (made_by c) r ≡ ret next =
        sym (call_lem pkg c.metric c.name r) ∙ e' in
      calls-collectors laws cs next r' rest
      ∙ ap (reverse_onto (map made_by cs)) (laws.grows (made_by c) r next taken)
