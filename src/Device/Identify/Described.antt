-- ===== src/Device/Identify/Described.antt =====
-- What the driver records of a namespace.
use vroom.Common.{ℕ, ◌/◌, ◌%◌, ◌^◌, ◌≤◌, ◌<◌, ◌≡◌, arith}
use vroom.Common.Bits.{bit_and-eq-mod}
use vroom.Common.Outcome.{Outcome}
use vroom.Command
use vroom.Device.Identify.{block_size_of}

-- The block size of a format with the exponent `e`: 2 ^ `e` if that is from 512 bytes to 2 GiB, and 0
-- for every other exponent.
pub block_size_lem :
    (f : ℕ)
    → let e = f / 2 ^ 16 % 256 in
      (9 ≤ e → e < 32 → block_size_of f ≡ 2 ^ e)
      × (e < 9 → block_size_of f ≡ 0)
      × (32 ≤ e → block_size_of f ≡ 0)
unfolding block_size_of
block_size_lem f =
    let m = bit_and-eq-mod 8 (f / 2 ^ 16) in
    rw m (λ l h. ground arith, λ h. ground arith, λ h. ground arith)
