-- ===== src/Common/Outcome.antt =====
-- How a call ends: `ok` is a value, `err` the `Err` of a `Result`, `panic` a failed assertion, an
-- index out of bounds, a remainder by zero or an `unwrap` of `None`, and `spin` a busy-wait loop that
-- has not seen its condition within the polls that it was given.
use Prim.Native.String.{String}
use Prim.Native.Nat.{ℕ}
use mathlib.Core.Bool.{Bool, true, false}

-- `std::io::ErrorKind`, as far as the program builds one: `NotFound`, and the kind of a system error.
pub data ErrorKind : Type 0 where
  not_found : ErrorKind
  kind_of : ℕ → ErrorKind

-- `std::io::Error`: the last error of the system by its number, one made by `io::Error::new`, or one
-- from the library's own checks (a file that ends early, text that is not UTF-8).
pub data IoError : Type 0 where
  os_error : ℕ → IoError
  new_error : ErrorKind → String → IoError
  library_error : IoError

-- `Error` (src/error.rs); `vroom_error` is `Error::Vroom`.
pub data Error : Type 0 where
  vroom_error : String → Error
  io : IoError → Error
  allocation : String → Error
  mmap : String → IoError → Error
  ioctl : String → IoError → Error
  vfio : String → Error
  mmio : String → Error

pub data Outcome {ℓ} (A : Type ℓ) : Type ℓ where
  ok : A → Outcome A
  err : Error → Outcome A
  panic : Outcome A
  spin : Outcome A

infixl 5 ◌>>=◌ ◌>>◌
abbrev pub ◌>>=◌ {ℓ κ} : {A : Type ℓ} {B : Type κ} → Outcome A → (A → Outcome B) → Outcome B
ok a >>= f = f a
err e >>= f = err e
panic >>= f = panic
spin >>= f = spin

abbrev pub ◌>>◌ {ℓ} : {B : Type ℓ} → Outcome (Unit {0}) → Outcome B → Outcome B
m >> k = m >>= λ _. k

-- `assert!(b)`, and the bounds check of an index.
abbrev pub assert : Bool → Outcome (Unit {0})
assert true = ok tt
assert false = panic
