-- ===== src/Physical/Tests.antt =====
-- Tests and instances for the mapping with physical addresses.
use vroom.Common.{ℕ, ◌+◌, ◌*◌, ◌/◌, ◌%◌, ◌≡◌, ◌≢◌, refl, inr, true, some, [], ◌∷◌, arith}
use vroom.Common.Outcome.{ok}
use vroom.Memory.Pagesize.{page_2m}
use vroom.System.{Process}
use vroom.System.Example.{small, process}
use vroom.System.{Kernel}
use vroom.System.Files.{ConfigFile}
use vroom.Physical.{
  Physical, pagemap_offset, phys_of, init_with_args, is_bound_to_pci_stub, find_link,
}
use vroom.Physical.Setup.{init_with_args_lem}
use vroom.Physical.Address.{phys_of_page}
use vroom.Physical.Command.{with_bit}

abbrev mapping : Physical
mapping = record { pci_addr = "0000:00:04.0"; page_size = page_2m }

-- The page 7 is in the frame 0x12345, and present (bit 63).
phys_of_page_example :
    (phys_of 4096 0x8000_0000_0001_2345 0x7010 / 4096 ≡ 0x12345)
    × (phys_of 4096 0x8000_0000_0001_2345 0x7010 % 4096 ≡ 0x10)
    × (phys_of 4096 0x8000_0000_0001_2345 0x7018 ≡ phys_of 4096 0x8000_0000_0001_2345 0x7010 + 8)
    × (pagemap_offset 4096 0x7018 ≡ pagemap_offset 4096 0x7010)
phys_of_page_example = phys_of_page 0x8000_0000_0001_2345 0x7010 8 (omega arith) (omega arith)

-- A system on which the device is bound to `pci-stub`.
abbrev bound : Kernel
bound = record (small 0) { read_dir = λ path w. (inr (inr (true, some "0000:00:04.0") ∷ []), w) }

abbrev config : ConfigFile bound "/sys/bus/pci/devices/0000:00:04.0/config"
config = record {
  size = 4096;
  byte = λ w. w.byte;
  IsOpen = λ w fd. fd ≡ 3;
  position = λ w fd. w.position;
  opens = λ w. (3, refl, refl, refl);
  seeks = λ fd o w opened. (refl, refl, refl, opened);
  reads = λ fd n w opened inside. (refl, refl, opened);
  writes = λ fd bs w opened inside. (refl, refl);
}

init_with_args_lem_example :
    (s' : Process bound.State) × (init_with_args bound "0000:00:04.0" page_2m process
      ≡ (ok mapping, s'))
    × (s'.kernel.byte 4 + 256 * s'.kernel.byte 5 ≡ with_bit 10 (with_bit 2 0))
    × ((i : ℕ) → i ≢ 4 → i ≢ 5 → s'.kernel.byte i ≡ 0)
unfolding is_bound_to_pci_stub find_link
init_with_args_lem_example =
    init_with_args_lem mapping config process process (omega arith) (ground arith) refl
      (omega arith) (omega arith)
