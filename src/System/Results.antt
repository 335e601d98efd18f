-- ===== src/System/Results.antt =====
-- How the checked calls end, by the raw result.
use Prim.Native.String.{◌++◌ as ◌<>◌}
use vroom.Common.{ℕ, ◌≡◌, ◌≢◌, arith}
use vroom.Common.Outcome.{ok, err, Error, mmap, os_error}
use vroom.System.{Kernel, Process, minus_one32, minus_one64}
use vroom.System.Structs.{Argument}
use vroom.System.Ioctl.{IoctlOp, op}
use vroom.System.Calls.{mmap_unsafe, munmap_unsafe, ioctl_unsafe}

module _ (k : Kernel) where
  pub mmap_ok :
      (addr len prot flags fd offset : ℕ) (s : Process k.State)
      → (k.mmap addr len prot flags fd offset s.kernel).0 ≢ minus_one64
      → mmap_unsafe k addr len prot flags fd offset s ≡ (
        ok (k.mmap addr len prot flags fd offset s.kernel).0,
        record s { kernel = (k.mmap addr len prot flags fd offset s.kernel).1 },
      )
  unfolding mmap_unsafe
  mmap_ok addr len prot flags fd offset s ne = ground arith

  pub munmap_ok :
      (addr len : ℕ) (s : Process k.State)
      → (k.munmap addr len s.kernel).0 ≡ 0
      → munmap_unsafe k addr len s ≡ (ok tt, record s { kernel = (k.munmap addr len s.kernel).1 })
  unfolding munmap_unsafe
  munmap_ok addr len s e = ground arith

  pub munmap_err :
      (addr len : ℕ) (s : Process k.State)
      → (k.munmap addr len s.kernel).0 ≡ minus_one32
      → (e : Error) × (munmap_unsafe k addr len s
          ≡ (err e, record s { kernel = (k.munmap addr len s.kernel).1 }))
  unfolding munmap_unsafe
  munmap_err addr len s e = (
    mmap ("munmap with len " <> k.decimal len <> " failed")
        (os_error (k.errno (k.munmap addr len s.kernel).1)),
    ground arith,
  )

  pub ioctl_ok :
      (fd : ℕ) (o : IoctlOp) (arg : Argument) (s : Process k.State)
      → (k.ioctl fd (op o) arg s.kernel).0 ≢ minus_one32
      → ioctl_unsafe k fd o arg s ≡ (
        ok ((k.ioctl fd (op o) arg s.kernel).0, (k.ioctl fd (op o) arg s.kernel).1),
        record s { kernel = (k.ioctl fd (op o) arg s.kernel).2 },
      )
  unfolding ioctl_unsafe
  ioctl_ok fd o arg s ne = ground arith
