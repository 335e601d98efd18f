-- ===== src/System/Calls.antt =====
-- The macros of src/macros.rs: each checks the raw result of a call of `libc`.
use Prim.Native.Nat.{bit_or}
use Prim.Native.String.{String, ◌++◌ as ◌<>◌}
use vroom.Common.{ℕ, List, inl, inr, ◌⊎◌, ◌==◌, if◌then◌else◌}
use vroom.Common.Outcome.{
  ok, err, Error, vroom_error, allocation, vfio, mmio, io, mmap, ioctl, IoError, os_error,
  new_error, kind_of,
}
use vroom.System.{Kernel, Sys, minus_one32, minus_one64}
use vroom.System.Structs.{Argument}
use vroom.System.Ioctl.{IoctlOp, op, name}

module _ (k : Kernel) where
  abbrev last_os_error : k.State → IoError
  last_os_error w = os_error (k.errno w)

  -- `Display for Error`
  unfoldable pub display : Error → String
  display (io e) = "IO Error: " <> k.describe e
  display (vroom_error s) = "Custom Error: " <> s
  display (allocation s) = "Allocation Error: " <> s
  display (mmap s e) = "Mmap failed Error: " <> s <> " OS error: " <> k.describe e
  display (ioctl s e) = "Ioctl failed Error: " <> s <> " OS error: " <> k.describe e
  display (vfio s) = "Vfio Error: " <> s
  display (mmio s) = "Mmio Error: " <> s

  -- The result, and the structure that the call has written to.
  unfoldable pub ioctl_unsafe : ℕ → IoctlOp → Argument → Sys k (ℕ × Argument)
  ioctl_unsafe fd o arg p =
      let (result, arg', w) = k.ioctl fd (op o) arg p.kernel in
      let p' = record p { kernel = w } in
      if result == minus_one32
      then (err (ioctl (name o) (last_os_error w)), p')
      else (ok (result, arg'), p')

  unfoldable pub mmap_unsafe : ℕ → ℕ → ℕ → ℕ → ℕ → ℕ → Sys k ℕ
  mmap_unsafe addr len prot flags fd offset p =
      let (ptr, w) = k.mmap addr len prot flags fd offset p.kernel in
      let p' = record p { kernel = w } in
      if ptr == minus_one64
      then (err (mmap ("mmap with len " <> k.decimal len <> " failed") (last_os_error w)), p')
      else (ok ptr, p')

  unfoldable pub munmap_unsafe : ℕ → ℕ → Sys k (Unit {0})
  munmap_unsafe addr len p =
      let (result, w) = k.munmap addr len p.kernel in
      let p' = record p { kernel = w } in
      if result == minus_one32
      then (err (mmap ("munmap with len " <> k.decimal len <> " failed") (last_os_error w)), p')
      else (ok tt, p')

  abbrev pub mmap_anonymous_unsafe : ℕ → ℕ → Sys k ℕ
  mmap_anonymous_unsafe len flags =
      mmap_unsafe 0 len (bit_or k.prot_read k.prot_write)
        (bit_or (bit_or (bit_or flags k.map_shared) k.map_anonymous) k.map_populate) minus_one32 0

  abbrev pub mmap_fd_unsafe : ℕ → ℕ → ℕ → Sys k ℕ
  mmap_fd_unsafe len flags fd =
      mmap_unsafe 0 len (bit_or k.prot_read k.prot_write) (bit_or flags k.map_shared) fd 0

  -- `mlock_unsafe!` and `munlock_unsafe!` give an `io::Error`, which `?` makes an `Error::Io`.
  unfoldable pub mlock_unsafe : ℕ → ℕ → Sys k (Unit {0})
  mlock_unsafe addr len p =
      let (result, w) = k.mlock addr len p.kernel in
      let p' = record p { kernel = w } in
      if result == minus_one32 then (err (io (last_os_error w)), p') else (ok tt, p')

  unfoldable pub munlock_unsafe : ℕ → ℕ → Sys k (Unit {0})
  munlock_unsafe addr len p =
      let (result, w) = k.munlock addr len p.kernel in
      let p' = record p { kernel = w } in
      if result == minus_one32 then (err (io (last_os_error w)), p') else (ok tt, p')

  -- `pread_unsafe!` with the bytes that it has read, and `pwrite_unsafe!`.
  unfoldable pub pread_unsafe : ℕ → ℕ → ℕ → Sys k (List ℕ)
  pread_unsafe fd count offset p =
      let (result, bytes, w) = k.pread fd count offset p.kernel in
      let p' = record p { kernel = w } in
      let e = new_error (kind_of (k.errno w)) ("pread failed " <> k.describe (last_os_error w)) in
      if result == minus_one64 then (err (io e), p') else (ok bytes, p')

  unfoldable pub pwrite_unsafe : ℕ → List ℕ → ℕ → Sys k (Unit {0})
  pwrite_unsafe fd bytes offset p =
      let (result, w) = k.pwrite fd bytes offset p.kernel in
      let p' = record p { kernel = w } in
      let e = new_error (kind_of (k.errno w)) ("pwrite failed " <> k.describe (last_os_error w)) in
      if result == minus_one64 then (err (io e), p') else (ok tt, p')

  -- A call of the standard library, with the error as it is or changed by `map_err`.
  abbrev pub run : {B : Type 0} → (k.State → (IoError ⊎ B) × k.State) → (IoError → Error) → Sys k B
  run call on_error p =
      let (r, w) = call p.kernel in
      elim r [
        | inl e ↦ (err (on_error e), record p { kernel = w })
        | inr b ↦ (ok b, record p { kernel = w })
      ]
