-- ===== src/Physical/Command.antt =====
-- The command register in the configuration file of a device.
use Prim.Native.Nat.{bit_or}
use Prim.Native.String.{String}
use vroom.Common.{
  ℕ, ◌+◌, ◌*◌, ◌/◌, ◌%◌, ◌^◌, ◌<◌, ◌≡◌, ◌≢◌, refl, ◌∙◌, ap, ap₂, length, ◌≤◌, ◌⊎◌, inl, inr, true,
  false, ◌==◌, if◌then◌else◌, arith,
}
use vroom.Common.Words.{◌<<◌}
use vroom.Common.Masks.{set_bit}
use vroom.Common.Outcome.{ok, Error, IoError, io}
use vroom.Common.Stateful.{◌>>=◌, bind-ok, pure}
use vroom.System.{Kernel, Process}
use vroom.System.Files.{ConfigFile, bytes_of, overwritten}
use vroom.System.Calls.{run}
use vroom.Pci.{read_io, write_io, device_path, command_register_offset}
use vroom.Pci.Bytes.{from_bytes, to_bytes}
use vroom.Physical.{Physical, set_command_bit}

run_ok :
    (k : Kernel) {B : Type 0} (call : k.State → (IoError ⊎ B) × k.State) (f : IoError → Error)
    {b : B} (s : Process k.State)
    → (call s.kernel).0 ≡ inr b
    → run k call f s ≡ (ok b, record s { kernel = (call s.kernel).1 })
run_ok k call f s e = rw (e, run) refl

module _ {k : Kernel} {path : String} (c : ConfigFile k path) where
  open c use {size, byte, IsOpen, position, opens, seeks, reads, writes}

  read_lem :
      (fd n offset : ℕ) (s : Process k.State)
      → IsOpen s.kernel fd
      → offset + n ≤ size
      → (s' : Process k.State) × (read_io k n fd offset s
          ≡ (ok (from_bytes (bytes_of (byte s.kernel) offset n)), s'))
        × (byte s'.kernel ≡ byte s.kernel)
        × IsOpen s'.kernel fd
  unfolding read_io
  read_lem fd n offset s opened inside =
      let s1 : Process k.State = record s { kernel = (k.seek fd offset s.kernel).1 } in
      let s2 : Process k.State = record s { kernel = (k.read_exact fd n s1.kernel).1 } in
      let sought = seeks fd offset s.kernel opened in
      let got = reads fd n s1.kernel sought.3 (rw (sought.1) inside) in
      let there = ap₂ (λ f p. bytes_of f p n) sought.2 sought.1 in
      (
        s2,
        bind-ok (run k (k.seek fd offset) io)
              (λ u. run k (k.read_exact fd n) io >>= λ bs. pure (from_bytes bs))
              (run_ok k (k.seek fd offset) io s sought.0)
            ∙ bind-ok (run k (k.read_exact fd n) io) (λ bs. pure (from_bytes bs))
                (run_ok k (k.read_exact fd n) io s1 got.0)
            ∙ ap (λ bs. (ok (from_bytes bs), s2)) there,
        got.1 ∙ sought.2,
        got.2,
      )

  write_lem :
      (fd n v offset : ℕ) (s : Process k.State)
      → IsOpen s.kernel fd
      → offset + length (to_bytes n v) ≤ size
      → (s' : Process k.State) × (write_io k n fd v offset s ≡ (ok tt, s'))
        × (byte s'.kernel ≡ overwritten (to_bytes n v) offset (byte s.kernel))
  unfolding write_io
  write_lem fd n v offset s opened inside =
      let bs = to_bytes n v in
      let s1 : Process k.State = record s { kernel = (k.seek fd offset s.kernel).1 } in
      let sought = seeks fd offset s.kernel opened in
      let put = writes fd bs s1.kernel sought.3 (rw (sought.1) inside) in
      (
        record s { kernel = (k.write_all fd bs s1.kernel).1 },
        bind-ok (run k (k.seek fd offset) io) (λ u. run k (k.write_all fd bs) io)
              (run_ok k (k.seek fd offset) io s sought.0)
            ∙ run_ok k (k.write_all fd bs) io s1 put.0,
        put.1 ∙ ap₂ (overwritten bs) sought.1 sought.2,
      )

-- `v` with a bit set: it is added if it is not there.
abbrev pub with_bit : ℕ → ℕ → ℕ
with_bit bit v = if v / 2 ^ bit % 2 == 1 then v else v + 2 ^ bit

set_bit-eq : (bit v : ℕ) → bit_or v (1 << bit) ≡ with_bit bit v
set_bit-eq bit v = let e : 1 << bit ≡ 2 ^ bit = omega arith in rw e (ground (arith, set_bit bit v))

with_bit_fits : (bit v : ℕ) → (bit ≡ 2) ⊎ (bit ≡ 10) → v < 2 ^ 16 → with_bit bit v < 2 ^ 16
with_bit_fits bit v (inl e) lt = rw e (ground arith)
with_bit_fits bit v (inr e) lt = rw e (ground arith)

register_value :
    (bit : ℕ) (f : ℕ → ℕ)
    → bit_or (from_bytes (bytes_of f 4 2)) (1 << bit) ≡ with_bit bit (f 4 + 256 * f 5)
unfolding from_bytes
register_value bit f =
    let e : f 4 + 256 * (f 5 + 256 * 0) ≡ f 4 + 256 * f 5 = omega arith in
    rw e (set_bit-eq bit (f 4 + 256 * f 5))

register_written :
    (bit v : ℕ) (f g : ℕ → ℕ)
    → (bit ≡ 2) ⊎ (bit ≡ 10)
    → f 4 < 256
    → f 5 < 256
    → v ≡ with_bit bit (f 4 + 256 * f 5)
    → g ≡ overwritten (to_bytes 2 v) 4 f
    → (g 4 + 256 * g 5 ≡ with_bit bit (f 4 + 256 * f 5))
      × ((i : ℕ) → i ≢ 4 → i ≢ 5 → g i ≡ f i)
      × (g 4 < 256)
      × (g 5 < 256)
unfolding to_bytes
register_written bit v f g which low high e written = (
  ap (λ h. h 4 + 256 * h 5) written
      ∙ omega (arith, e, with_bit_fits bit (f 4 + 256 * f 5) which (omega (arith, low, high))),
  λ i n4 n5. ap (λ h. h i) written ∙ ground (arith, n4, n5),
  omega (arith, ap (λ h. h 4) written),
  omega (arith, ap (λ h. h 5) written),
)

module _ {k : Kernel} (m : Physical) (c : ConfigFile k (device_path k m.pci_addr "config")) where
  open c use {size, byte, opens}

  -- The command register.
  abbrev pub command : k.State → ℕ
  command w = byte w 4 + 256 * byte w 5

  -- Enabling DMA (bit 2) or disabling interrupts (bit 10) for a device whose configuration file works
  -- and has at least 6 bytes:
  -- the call succeeds, and in the file the bit is set in the command register, the two bytes at 4,
  -- which are bytes again and no other bit of which changes; nor does any other byte.
  pub set_command_bit_lem :
      (bit : ℕ) (s : Process k.State)
      → 6 ≤ size
      → (bit ≡ 2) ⊎ (bit ≡ 10)
      → byte s.kernel 4 < 256
      → byte s.kernel 5 < 256
      → (s' : Process k.State) × (set_command_bit k bit m s ≡ (ok tt, s'))
        × (command s'.kernel ≡ with_bit bit (command s.kernel))
        × ((i : ℕ) → i ≢ 4 → i ≢ 5 → byte s'.kernel i ≡ byte s.kernel i)
        × (byte s'.kernel 4 < 256)
        × (byte s'.kernel 5 < 256)
  unfolding set_command_bit to_bytes
  set_command_bit_lem bit s long which low_byte high_byte =
      let s1 : Process k.State = record s {
        kernel = (k.open_file (device_path k m.pci_addr "config") true false s.kernel).1;
      } in
      let opened = opens s.kernel in
      let fd = opened.0 in
      let got = read_lem c fd 2 command_register_offset s1 opened.2 (omega (arith, long)) in
      let v = bit_or (from_bytes (bytes_of (byte s1.kernel) 4 2)) (1 << bit) in
      let bits : v ≡ with_bit bit (command s.kernel) =
        ap (λ f. bit_or (from_bytes (bytes_of f 4 2)) (1 << bit)) opened.3
        ∙ register_value bit (byte s.kernel) in
      let put = write_lem c fd 2 v command_register_offset got.0 got.3 (omega (arith, long)) in
      let changed =
        register_written bit v (byte s.kernel) (byte put.0.kernel) which low_byte high_byte bits
          (put.2 ∙ ap (overwritten (to_bytes 2 v) 4) (got.2 ∙ opened.3)) in
      (
        put.0,
        bind-ok (run k (k.open_file (device_path k m.pci_addr "config") true false) io)
              (λ file. read_io k 2 file command_register_offset >>= λ dma.
                write_io k 2 file (bit_or dma (1 << bit)) command_register_offset)
              (run_ok k (k.open_file (device_path k m.pci_addr "config") true false) io s opened.1)
            ∙ bind-ok (read_io k 2 fd command_register_offset)
                (λ dma. write_io k 2 fd (bit_or dma (1 << bit)) command_register_offset) got.1
            ∙ put.1,
        changed.0,
        changed.1,
        changed.2,
        changed.3,
      )
