-- ===== src/Base/Monad.antt =====
-- Stateful code that may stop the kernel: a call ends with a value and a new state, or in `panic`.
use mathlib.Core.Bool.{Bool, true, false}

pub data Run (S : Type 0) (A : Type 0) : Type 0 where
  done : A → S → Run S A
  panic : Run S A

abbrev pub M : Type 0 → Type 0 → Type 0
M S A = S → Run S A

module _ {S A : Type 0} where
  abbrev pub pure : A → M S A
  pure a s = done a s

module _ {S A B : Type 0} where
  abbrev pub and_then : Run S A → (A → M S B) → Run S B
  and_then (done a s) k = k a s
  and_then panic k = panic

  infixl 5 ◌>>=◌ ◌>>◌
  abbrev pub ◌>>=◌ : M S A → (A → M S B) → M S B
  m >>= k = λ s. and_then (m s) k

  abbrev pub ◌>>◌ : M S A → M S B → M S B
  m >> n = m >>= λ _. n

module _ {S : Type 0} where
  -- `panic_on(!b)` and `assert(b)`
  abbrev pub require : Bool → M S (Unit {0})
  require true s = done tt s
  require false s = panic

  abbrev pub modify : (S → S) → M S (Unit {0})
  modify f s = done tt (f s)

  abbrev pub get : M S S
  get s = done s s

-- The error codes of include/error.h.
pub data Error : Type 0 where
  no_mem no_free_env bad_env inval ipc_not_recv no_sys max_open : Error

-- What a C function reports that returns 0 or a negative error code.
pub data Result (A : Type 0) : Type 0 where
  ok : A → Result A
  err : Error → Result A
