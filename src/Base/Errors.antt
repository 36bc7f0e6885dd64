-- ===== src/Base/Errors.antt =====
-- Results of calls that return 0 or -1 with errno set.
use Prim.Native.Nat.{ℕ}
use mathlib.Core.Logic.{◌⊎◌, inl, inr}
use mathlib.Core.Path.{◌≡◌, refl}
use mathlib.Core.Bool.{Bool, true, false}

-- The values of errno that the program tests or sets; `os` is any other that a system call leaves.
pub data Errno : Type 0 where
  einval ebadf eexist enoent ebusy ealready enospc enomem eagain enotsup : Errno
  eproto eio eoverflow etimedout emsgsize econnreset : Errno
  os : ℕ → Errno

-- The error is the answer, or the value that the call delivers.
pub data Result {ℓ} (T : Type ℓ) : Type ℓ where
  err : Errno → Result T
  ok : T → Result T

infixl 5 ◌>>=◌ ◌>>◌
-- The next call is made only after a success.
abbrev pub ◌>>=◌ {ℓ κ} : {T : Type ℓ} {S : Type κ} → Result T → (T → Result S) → Result S
call >>= next = elim call [ err errno ↦ err errno | ok value ↦ next value ]

abbrev pub ◌>>◌ {κ} : {S : Type κ} → Result (Unit {0}) → Result S → Result S
call >> next = elim call [ err errno ↦ err errno | ok _ ↦ next ]

-- Fails with the error if the condition does not hold.
abbrev pub guard : Bool → Errno → Result (Unit {0})
guard condition errno = elim condition [ true ↦ ok tt | false ↦ err errno ]

abbrev pub is_ok {ℓ} : {A : Type ℓ} → Result A → Bool
is_ok (ok a) = true
is_ok (err e) = false

pub Result-cases {ℓ} :
    {A : Type ℓ} (r : Result A) → ((e : Errno) × (r ≡ err e)) ⊎ ((a : A) × (r ≡ ok a))
Result-cases (ok a) = inr (a, refl)
Result-cases (err e) = inl (e, refl)
