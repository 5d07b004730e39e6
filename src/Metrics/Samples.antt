-- ===== src/Metrics/Samples.antt =====
-- A list of collectors for the registry, and wrappers that add nothing, for the tests.
use mathlib.Core.List.{Memᴰ}
use minke.Base.{
  Bool, true, false, ◌&&◌, ◌||◌, List, [], ◌∷◌, ◌++◌, Eq, ◌==◌, List_ℕ-eq, List_ℕ-discrete,
  if◌then◌else◌, ◌≡◌, refl, arith, ap, All, Bool-cases, inl, inr, ==_iff,
}
use minke.GoText.{GoString, bytes}
use minke.GoMap.{GoMap}
use minke.Panic.{ret, throw, runtime}
use minke.Metrics.{Collector, Package}
use minke.Metrics.Http.{PromHttp}
use minke.Metrics.Registry.{RegistryLaws, IsApart}

unfoldable pub Labels-discrete : Discrete (GoMap GoString GoString)
unfolding List_ℕ-discrete
Labels-discrete = hlevel List_ℕ-discrete

instance abbrev pub Labels-eq : Eq (GoMap GoString GoString)
Labels-eq = record { discrete = Labels-discrete }

abbrev pub full_name : GoString → GoString → GoString
full_name [] name = name
full_name (c ∷ subsystem) [] = []
full_name (c ∷ subsystem) (d ∷ name) = (c ∷ subsystem) ++ (bytes "_" ++ (d ∷ name))

abbrev pub name_of : Collector → GoString
name_of c = full_name c.opts.subsystem c.opts.name

-- A collector with the same series is held.
abbrev pub held : Collector → List Collector → Bool
held c [] = false
held c (o ∷ r) = (name_of c == name_of o && c.opts.const_labels == o.opts.const_labels) || held c r

abbrev pub list_registry : Package (List Collector) Unit
list_registry = record {
  must_register = λ c r. if held c r then throw runtime else ret (c ∷ r);
  with_label_values = λ c values. ret tt;
}

pub held-apart :
    (c : Collector) (r : List Collector) → All (IsApart full_name c) r → held c r ≡ false
held-apart c [] h = refl
held-apart c (o ∷ r) h = elim (Bool-cases (name_of c == name_of o)) [
  | inl t ↦
      let (help, labels, keys, other) = h.0 ((==_iff _ _).0 t) in
      elim (Bool-cases (c.opts.const_labels == o.opts.const_labels)) [
        | inl u ↦ elim (other ((==_iff _ _).0 u)) [ ]
        | inr u ↦ rw (t, u) (held-apart c r h.1)
      ]
  | inr t ↦ rw t (held-apart c r h.1)
]

pub held-Mem :
    (c o : Collector) (r : List Collector)
    → Memᴰ o r
    → name_of c ≡ name_of o
    → c.opts.const_labels ≡ o.opts.const_labels
    → held c r ≡ true
held-Mem c o [] m e q = elim m [ ]
held-Mem c o (x ∷ r) (Memᴰ.head same) e q =
    ground (arith, ap name_of same, ap (λ (y : Collector). y.opts.const_labels) same)
held-Mem c o (x ∷ r) (Memᴰ.tail m) e q = ground (arith, held-Mem c o r m e q)

abbrev pub laws : RegistryLaws list_registry
laws = record {
  collectors = λ r. r;
  is_valid = λ c. true;
  full_name = full_name;
  joins = λ c d subsystem name. refl;
  alone = λ name. refl;
  accepts = λ c r v h. (c ∷ r, rw (held-apart c r h) refl);
  grows = λ c r r' e. ground arith;
  rejects = λ c o r r' m e q taken.
      let yes : held c r ≡ true = held-Mem c o r m e q in let no : ⊥ = ground arith in no;
}

-- What wraps nothing.
abbrev pub wraps : {T : Type 0} {H : Type 0} → PromHttp Unit Unit T H
wraps = record {
  round_tripper_in_flight = λ c t. t;
  round_tripper_trace = λ trace t. t;
  round_tripper_duration = λ c t. t;
  handler_in_flight = λ c h. h;
  handler_counter = λ c h. h;
  handler_duration = λ c h. h;
}
