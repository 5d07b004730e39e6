-- ===== src/Metrics/Registry.antt =====
-- What metrics.go relies on of a registry of package prometheus.
use mathlib.Core.List.{Memᴰ}
use minke.Base.{Bool, true, List, [], ◌∷◌, ◌++◌, ◌≡◌, ◌≢◌, All}
use minke.GoText.{GoString, bytes}
use minke.GoMap.{GoMap}
use minke.Panic.{ret}
use minke.Metrics.{Collector, Package}

-- The names of the constant labels.
abbrev pub keys_of : GoMap GoString GoString → List GoString
keys_of [] = []
keys_of ((k, v) ∷ labels) = k ∷ keys_of labels

-- Two collectors that a registry can hold together: they have other full names, or the same help
-- text and labels and another value of a constant label.
abbrev pub IsApart : (GoString → GoString → GoString) → Collector → Collector → Type 0
IsApart full_name c o =
    full_name c.opts.subsystem c.opts.name ≡ full_name o.opts.subsystem o.opts.name
    → (c.opts.help ≡ o.opts.help)
      × (c.variable_labels ≡ o.variable_labels)
      × (keys_of c.opts.const_labels ≡ keys_of o.opts.const_labels)
      × (c.opts.const_labels ≢ o.opts.const_labels)

-- The documented behaviour: a registry holds what was registered. It takes a valid collector that can
-- stand beside all that it holds, and none with the full name and the constant labels of one of them.
pub record RegistryLaws {R : Type 0} {M : Type 0} (pkg : Package R M) : Type 0 where
  pub collectors : R → List Collector
  pub is_valid : Collector → Bool
  -- BuildFQName, for no namespace.
  pub full_name : GoString → GoString → GoString
  pub joins :
      (c d : _) (subsystem name : GoString)
      → full_name (c ∷ subsystem) (d ∷ name) ≡ (c ∷ subsystem) ++ (bytes "_" ++ (d ∷ name))
  pub alone : (name : GoString) → full_name [] name ≡ name
  pub accepts :
      (c : Collector) (r : R)
      → is_valid c ≡ true
      → All (IsApart full_name c) (collectors r)
      → (r' : R) × (pkg.must_register c r ≡ ret r')
  pub grows :
      (c : Collector) (r r' : R) → pkg.must_register c r ≡ ret r' → collectors r' ≡ c ∷ collectors r
  pub rejects :
      (c o : Collector) (r r' : R)
      → Memᴰ o (collectors r)
      → full_name c.opts.subsystem c.opts.name ≡ full_name o.opts.subsystem o.opts.name
      → c.opts.const_labels ≡ o.opts.const_labels
      → pkg.must_register c r ≢ ret r'
