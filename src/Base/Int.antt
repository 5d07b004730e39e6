-- ===== src/Base/Int.antt =====
-- Go's signed integers, as the integers that they stand for, with their order.
use Prim.Native.Nat.{ℕ}
use mathlib.Core.Path.{◌≡◌, refl}
use mathlib.Core.Bool.{Bool, true, false}
use native.Mathlib.Decide.{ℕ_discrete}
use native.Mathlib.Omega.{arith}
use minke.Base.Tests.{ltb, Eq}

-- `negsuc n` is -(n + 1).
pub data ℤ : Type 0 where
  pos : ℕ → ℤ
  negsuc : ℕ → ℤ

unfoldable pub ℤ-discrete : Discrete ℤ
unfolding ℕ_discrete
ℤ-discrete = hlevel ℕ_discrete

instance abbrev pub ℤ-eq : Eq ℤ
ℤ-eq = record { discrete = ℤ-discrete }

unfoldable pub ltb_ℤ : ℤ → ℤ → Bool
ltb_ℤ (pos a) (pos b) = ltb a b
ltb_ℤ (pos a) (negsuc b) = false
ltb_ℤ (negsuc a) (pos b) = true
ltb_ℤ (negsuc a) (negsuc b) = ltb b a

pub ltb_ℤ-asym : (a b : ℤ) → ltb_ℤ a b ≡ true → ltb_ℤ b a ≡ false
unfolding ltb_ℤ
ltb_ℤ-asym (pos a) (pos b) h = ground arith
ltb_ℤ-asym (pos a) (negsuc b) h = cc
ltb_ℤ-asym (negsuc a) (pos b) h = refl
ltb_ℤ-asym (negsuc a) (negsuc b) h = ground arith

pub ltb_ℤ-neg_trans : (a b c : ℤ) → ltb_ℤ b a ≡ false → ltb_ℤ c b ≡ false → ltb_ℤ c a ≡ false
unfolding ltb_ℤ
ltb_ℤ-neg_trans (pos a) (pos b) (pos c) h k = ground arith
ltb_ℤ-neg_trans (pos a) (negsuc b) c h k = cc
ltb_ℤ-neg_trans (negsuc a) b (pos c) h k = refl
ltb_ℤ-neg_trans a (pos b) (negsuc c) h k = cc
ltb_ℤ-neg_trans (negsuc a) (negsuc b) (negsuc c) h k = ground arith

pub ltb_ℤ-total : (a b : ℤ) → ltb_ℤ a b ≡ false → ltb_ℤ b a ≡ false → a ≡ b
unfolding ltb_ℤ
ltb_ℤ-total (pos a) (pos b) h k = ground arith
ltb_ℤ-total (pos a) (negsuc b) h k = cc
ltb_ℤ-total (negsuc a) (pos b) h k = cc
ltb_ℤ-total (negsuc a) (negsuc b) h k = ground arith
