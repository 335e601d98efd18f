-- ===== src/Physical.antt =====
-- `Physical` of src/physical.rs: memory on huge pages with physical addresses, and the device
-- through sysfs.
pub mod Address
pub mod Command
pub mod Setup
mod Tests
use Prim.Native.Nat.{bit_or, bit_and}
use Prim.Native.String.{String, ◌++◌ as ◌<>◌}
use text.Mathlib.Text.{◌==◌ as str_eq}
use vroom.Common.{
  ℕ, ◌+◌, ◌*◌, ◌/◌, ◌%◌, ◌^◌, Bool, true, false, Option, none, some, List, [], ◌∷◌, ◌⊎◌, inl, inr,
  ◌==◌, if◌then◌else◌,
}
use vroom.Common.Words.{u64, ◌<<◌}
use vroom.Common.Outcome.{
  Outcome, ok, err, Error, IoError, new_error, not_found, io, mmio, vroom_error,
}
use vroom.Common.Stateful.{◌>>=◌, ◌>>◌, get, pure, raise, lift}
use vroom.Memory.Dma.{Dma}
use vroom.Memory.Pagesize.{
  Pagesize, page_4k, page_2m, page_1g, shift_up, mmap_flags, default_page_size,
}
use vroom.Pci.{
  read_io, write_io, device_path, command_register_offset, bus_master_enable_bit, interrupt_disable,
}
use vroom.Pci.Bytes.{from_bytes}
use vroom.System.{Kernel, Sys, Process}
use vroom.System.Calls.{run, mmap_fd_unsafe, munmap_unsafe, mlock_unsafe, munlock_unsafe}

pub record Physical : Type 0 where
  pub pci_addr : String
  pub page_size : Pagesize

-- Where the entry of an address stands in the page map, and the physical address for an entry.
unfoldable pub pagemap_offset : ℕ → ℕ → ℕ
pagemap_offset pagesize addr = u64 (addr / pagesize * 8)

unfoldable pub phys_of : ℕ → ℕ → ℕ → ℕ
phys_of pagesize entry addr =
    u64 (u64 (bit_and entry 0x007F_FFFF_FFFF_FFFF * pagesize) + addr % pagesize)

abbrev is_4k : Pagesize → Bool
is_4k page_4k = true
is_4k _ = false

-- The loop over the directory of the driver.
unfoldable pub find_link : String → List (IoError ⊎ (Bool × Option String)) → Outcome Bool
find_link pci_addr [] = ok false
find_link pci_addr (inl e ∷ entries) = err (io e)
find_link pci_addr (inr (is_symlink, filename) ∷ entries) =
    let rest = find_link pci_addr entries in
    elim is_symlink [
      | false ↦ rest
      | true ↦ elim filename [ none ↦ rest | some s ↦ if str_eq s pci_addr then ok true else rest ]
    ]

module _ (k : Kernel) where
  unfoldable pub is_bound_to_pci_stub : Physical → Sys k Bool
  is_bound_to_pci_stub m = do
    found ← λ p. (ok (k.exists "/sys/bus/pci/drivers/pci-stub" p.kernel), p)
    if found
        then (do
          entries ← run k (k.read_dir "/sys/bus/pci/drivers/pci-stub") io
          lift (find_link m.pci_addr entries))
        else pure false

  -- `enable_dma` and `disable_interrupts`, by the bit that they set in the command register.
  unfoldable pub set_command_bit : ℕ → Physical → Sys k (Unit {0})
  set_command_bit bit m = do
    file ← run k (k.open_file (device_path k m.pci_addr "config") true false) io
    dma ← read_io k 2 file command_register_offset
    write_io k 2 file (bit_or dma (1 << bit)) command_register_offset

  abbrev pub enable_dma : Physical → Sys k (Unit {0})
  enable_dma = set_command_bit bus_master_enable_bit

  abbrev pub disable_interrupts : Physical → Sys k (Unit {0})
  disable_interrupts = set_command_bit interrupt_disable

  unfoldable pub init_with_args : String → Pagesize → Sys k Physical
  init_with_args pci_addr page_size =
      if is_4k page_size then raise (mmio "Pagesize 4K not supported for non-Vfio!") else (do
        let m : Physical = record { pci_addr = pci_addr; page_size = page_size }
        bound ← is_bound_to_pci_stub m
        if bound then pure tt else raise (mmio "The device is not bound to Pci-Stub!")
        enable_dma m
        disable_interrupts m
        pure m)

  -- `Physical::init`
  abbrev pub init : String → Sys k Physical
  init pci_addr = init_with_args pci_addr default_page_size

  unfoldable pub virt_to_phys : ℕ → Sys k ℕ
  virt_to_phys addr = do
    file ← run k (k.open_file "/proc/self/pagemap" false false) io
    run k (k.seek file (pagemap_offset k.page_size addr)) io
    buffer ← run k (k.read_exact file 8) io
    pure (phys_of k.page_size (from_bytes buffer) addr)

  -- `HUGEPAGE_ID.fetch_add(1)`
  abbrev pub next_id : Sys k ℕ
  next_id p = (ok p.hugepage_id, record p { hugepage_id = u64 (p.hugepage_id + 1) })

  -- The file of a huge page.
  unfoldable pub huge_page : ℕ → Sys k ℕ
  huge_page id =
      let path = "/mnt/huge/nvme-" <> k.decimal k.process_id <> "-" <> k.decimal id in
      run k (k.open_file path true true) λ e. io (
        new_error not_found
          ("huge page " <> path <> " could not be created - huge pages enabled?, " <> k.describe e))

  -- Locking the mapped memory, and its physical address.
  unfoldable pub lock_and_find : ℕ → ℕ → Sys k Dma
  lock_and_find len ptr = do
    mlock_unsafe k ptr len
    phys ← virt_to_phys ptr
    pure (record { virt = ptr; phys = phys; size = len })

  unfoldable pub map_file : Pagesize → ℕ → ℕ → Sys k Dma
  map_file page_size len file = do
    ptr ←
        mmap_fd_unsafe k len (mmap_flags k.map_hugetlb k.map_huge_2mb k.map_huge_1gb page_size) file
    lock_and_find len ptr

  unfoldable pub allocate : Physical → ℕ → Sys k Dma
  allocate m size = do
    let len = shift_up m.page_size size
    id ← next_id
    file ← huge_page id
    map_file m.page_size len file

  unfoldable pub map_resource : Physical → Sys k (ℕ × ℕ)
  map_resource m = do
    let path = device_path k m.pci_addr "resource0"
    file ← run k (k.open_file path true false) io
    len ← run k (k.file_len path) io
    if len == 0 then raise (vroom_error "Resource0 len is 0") else pure tt
    ptr ← mmap_fd_unsafe k len 0 file
    pure (ptr, len)

  unfoldable pub deallocate : Physical → Dma → Sys k (Unit {0})
  deallocate m dma = do munlock_unsafe k dma.virt dma.size; munmap_unsafe k dma.virt dma.size
