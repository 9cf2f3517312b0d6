-- ===== src/Base/Results.antt =====
-- What a function of the engine returns: a value, or one of its negative error numbers.
use mathlib.Core.Path.{◌≡◌, refl}
use mathlib.Core.Logic.{◌⊎◌, inl, inr}
use mathlib.Core.Bool.{Bool, true, false}

pub data Errno : Type 0 where
  eio einval erofs enospc efbig e2big enoent enametoolong enomem eexist enotdir eisdir enotempty
        eperm eloop enosys eilseq ebusy :
      Errno

pub data Outcome {ℓ} (A : Type ℓ) : Type ℓ where
  ok : A → Outcome A
  err : Errno → Outcome A

abbrev pub is_ok {ℓ} : {A : Type ℓ} → Outcome A → Bool
is_ok (ok a) = true
is_ok (err e) = false

-- `if (rc) return -EIO`, for a call that only reads
infixl 5 ◌>>=◌
abbrev pub ◌>>=◌ {ℓ κ} : {A : Type ℓ} {B : Type κ} → Outcome A → (A → Outcome B) → Outcome B
ok a >>= f = f a
err e >>= f = err e

-- The same for a call that changes a state `S` on the way.
abbrev pub and_then {ℓ κ μ} :
    {S : Type ℓ} {A : Type κ} {B : Type μ} → Outcome A × S → (A → S → Outcome B × S) → Outcome B × S
and_then (ok a, s) k = k a s
and_then (err e, s) k = (err e, s)

-- The same after a call that leaves the state alone.
abbrev pub look {ℓ κ μ} :
    {S : Type ℓ} {A : Type κ} {B : Type μ} → Outcome A → S → (A → Outcome B × S) → Outcome B × S
look (ok a) s k = k a
look (err e) s k = (err e, s)

pub Outcome-cases {ℓ} :
    {A : Type ℓ} (r : Outcome A) → ((a : A) × (r ≡ ok a)) ⊎ ((e : Errno) × (r ≡ err e))
Outcome-cases (ok a) = inl (a, refl)
Outcome-cases (err e) = inr (e, refl)
