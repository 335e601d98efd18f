-- ===== src/System/Example.antt =====
-- A small system for the tests: it maps memory below 4 GiB from a given address on, has one file,
-- with the descriptor 3, and answers every `ioctl` with 0.
use Prim.Native.String.{String}
use vroom.Common.{
  ℕ, ◌^◌, ◌<◌, ◌≡◌, refl, Bool, true, false, not, ◌&&◌, ◌||◌, ◌==◌, if◌then◌else◌, none, [], inr,
  arith,
}
use vroom.System.{Kernel, Process, minus_one32}
use vroom.System.Space.{Space, within}
use vroom.System.Files.{ConfigFile, bytes_of, overwritten}

pub record Memory : Type 0 where
  pub mapped : ℕ → Bool
  pub page : ℕ → ℕ
  pub byte : ℕ → ℕ
  pub position : ℕ

-- The page size for the flags 0x5404_0031, those of a huge page at a fixed address, and others.
abbrev page_of : ℕ → ℕ
page_of flags = if flags == 0x5404_0031 then 2 ^ 21 else 4096

abbrev pub small : ℕ → Kernel
small base = record {
  State = Memory;
  errno = λ w. 22;
  mmap = λ addr len prot flags fd offset w.
      let start = if addr == 0 then base else addr in
      (
        start,
        record w {
          mapped = λ a. w.mapped a || within start len a;
          page = λ a. if within start len a then page_of flags else w.page a;
        },
      );
  munmap = λ addr len w.
      if len == 0
      then (minus_one32, w)
      else (0, record w { mapped = λ a. w.mapped a && not (within addr len a) });
  mlock = λ addr len w. (0, w);
  munlock = λ addr len w. (0, w);
  ioctl = λ fd number arg w. (0, arg, w);
  pread = λ fd n offset w. (n, bytes_of w.byte offset n, w);
  pwrite = λ fd bs offset w. (0, w);
  open_file = λ path writable create w. (inr 3, w);
  exists = λ path w. true;
  seek = λ fd offset w. (inr tt, record w { position = offset });
  read_exact = λ fd n w. (inr (bytes_of w.byte w.position n), w);
  write_all = λ fd bs w. (inr tt, record w { byte = overwritten bs w.position w.byte });
  read_to_string = λ fd w. (inr [], w);
  file_len = λ path w. (inr 0, w);
  read_dir = λ path w. (inr [], w);
  link_number = λ path w. (none, w);
  page_size = 4096;
  process_id = 1;
  decimal = λ n. "0";
  describe = λ e. "error";
  prot_read = 1;
  prot_write = 2;
  map_shared = 1;
  map_anonymous = 32;
  map_populate = 0x8000;
  map_hugetlb = 0x40000;
  map_huge_2mb = 0x5400_0000;
  map_huge_1gb = 0x7800_0000;
  map_32bit = 64;
  map_fixed = 16;
}

-- Nothing mapped, and a file of zeros.
abbrev pub empty : Memory
empty = record { mapped = λ a. false; page = λ a. 4096; byte = λ i. 0; position = 0 }

abbrev pub process : Process Memory
process = record { kernel = empty; groups = []; iova_width = 39; hugepage_id = 0 }

pub small_fixed : (base addr : ℕ) → 0 < addr → (if addr == 0 then base else addr) ≡ addr
small_fixed base addr some = ground arith

pub small_unmaps :
    (base addr len : ℕ) (w : Memory)
    → 0 < len
    → (((small base).munmap addr len w).0 ≡ 0)
      × ((a : ℕ)
          → ((small base).munmap addr len w).1.mapped a ≡ (w.mapped a && not (within addr len a)))
      × ((a : ℕ) → within addr len a ≡ false → ((small base).munmap addr len w).1.page a ≡ w.page a)
small_unmaps base addr len w some = (ground arith, λ a. ground arith, λ a out. ground arith)

abbrev pub small_space : (base : ℕ) → Space (small base)
small_space base = record {
  mapped = λ w. w.mapped;
  page_at = λ w. w.page;
  page_of = page_of;
  small_pages = refl;
  huge_pages = refl;
  maps = λ addr len prot flags page w a asked pages ok. (refl, rw asked refl);
  fixed = λ addr len prot flags fd offset w some ok. small_fixed base addr some;
  unmaps = λ addr len w page pages some whole. small_unmaps base addr len w some;
  unmaps_nothing = λ addr w. (refl, λ a. refl);
}

abbrev pub small_file : (base : ℕ) (path : String) → ConfigFile (small base) path
small_file base path = record {
  size = 4096;
  byte = λ w. w.byte;
  IsOpen = λ w fd. fd ≡ 3;
  position = λ w fd. w.position;
  opens = λ w. (3, refl, refl, refl);
  seeks = λ fd o w opened. (refl, refl, refl, opened);
  reads = λ fd n w opened inside. (refl, refl, opened);
  writes = λ fd bs w opened inside. (refl, refl);
}
