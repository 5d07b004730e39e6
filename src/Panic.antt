-- ===== src/Panic.antt =====
-- A computation that may panic: the values that proxy.go panics with, and the faults of the
-- runtime, a nil dereference, an index out of range or a division by zero.
use minke.Base.{ℕ, ◌≡◌, refl}
use minke.GoText.{GoString}

pub record HttpError : Type 0 where
  pub status : ℕ
  pub log_message : GoString

pub record HttpRedirect : Type 0 where
  pub destination : GoString

pub data Panic : Type 0 where
  redirect : HttpRedirect → Panic
  error : HttpError → Panic
  runtime : Panic

-- What a call does: it returns, or it panics.
pub data Run {ℓ} (A : Type ℓ) : Type ℓ where
  ret : A → Run A
  throw : Panic → Run A

infixl 5 ◌>>=◌
abbrev pub ◌>>=◌ {ℓ κ} : {A : Type ℓ} {B : Type κ} → Run A → (A → Run B) → Run B
ret a >>= f = f a
throw p >>= f = throw p

-- Inversion of a call that returned.
pub >>=-eq-ret {ℓ κ} :
    {A : Type ℓ} {B : Type κ} (m : Run A) (f : A → Run B) {b : B}
    → (m >>= f) ≡ ret b
    → (a : A) × (m ≡ ret a) × (f a ≡ ret b)
>>=-eq-ret (ret a) f h = (a, refl, h)
>>=-eq-ret (throw p) f h = cc
