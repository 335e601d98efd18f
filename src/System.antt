-- ===== src/System.antt =====
-- The operating system, as the macros of src/macros.rs and the standard library call it.
pub mod Structs
pub mod Ioctl
pub mod Calls
pub mod Space
pub mod Files
pub mod Results
pub mod Example
use Prim.Native.String.{String}
use vroom.System.Structs.{Argument}
use vroom.Common.{ℕ, ◌-◌, ◌^◌, List, Bool, Option, ◌⊎◌}
use vroom.Common.Outcome.{IoError}
use vroom.Common.Stateful.{Stateful}

-- `Argument` are the structures of src/vfio_structs.rs that an `ioctl` passes by reference; the
-- second result is what the system has left in it. A result of a call of `libc` is the raw word, so
-- that -1 and `MAP_FAILED` are the words of all ones. Files are descriptors.
pub record Kernel : Type 1 where
  pub State : Type 0
  pub errno : State → ℕ
  pub mmap : ℕ → ℕ → ℕ → ℕ → ℕ → ℕ → State → ℕ × State
  pub munmap : ℕ → ℕ → State → ℕ × State
  pub mlock : ℕ → ℕ → State → ℕ × State
  pub munlock : ℕ → ℕ → State → ℕ × State
  pub ioctl : ℕ → ℕ → Argument → State → ℕ × Argument × State
  -- The bytes read, and the bytes to write, with the offset.
  pub pread : ℕ → ℕ → ℕ → State → ℕ × List ℕ × State
  pub pwrite : ℕ → List ℕ → ℕ → State → ℕ × State
  -- `OpenOptions`: whether to write, and whether to create.
  pub open_file : String → Bool → Bool → State → (IoError ⊎ ℕ) × State
  pub exists : String → State → Bool
  pub seek : ℕ → ℕ → State → (IoError ⊎ Unit {0}) × State
  pub read_exact : ℕ → ℕ → State → (IoError ⊎ List ℕ) × State
  pub write_all : ℕ → List ℕ → State → (IoError ⊎ Unit {0}) × State
  -- The text of a file, as the code points of its characters.
  pub read_to_string : ℕ → State → (IoError ⊎ List ℕ) × State
  pub file_len : String → State → (IoError ⊎ ℕ) × State
  -- The entries of a directory: whether each is a symbolic link, and its name if that is UTF-8.
  pub read_dir : String → State → (IoError ⊎ List (IoError ⊎ (Bool × Option String))) × State
  -- `fs::read_link`, with the last part of the link parsed as a number.
  pub link_number : String → State → Option ℕ × State
  pub page_size : ℕ
  pub process_id : ℕ
  -- What `format!` makes of a number and of an error.
  pub decimal : ℕ → String
  pub describe : IoError → String
  -- The constants of `libc`.
  pub prot_read : ℕ
  pub prot_write : ℕ
  pub map_shared : ℕ
  pub map_anonymous : ℕ
  pub map_populate : ℕ
  pub map_hugetlb : ℕ
  pub map_huge_2mb : ℕ
  pub map_huge_1gb : ℕ
  pub map_32bit : ℕ
  pub map_fixed : ℕ

-- `X86_VA_WIDTH` of src/vfio.rs.
abbrev pub x86_va_width : ℕ
x86_va_width = 47

-- The process: the system, and the statics of src/vfio.rs and src/physical.rs. `groups` is the map
-- `VFIO_GROUP_FILE_DESCRIPTORS`, the newest entry of a key first.
pub record Process (State : Type 0) : Type 0 where
  pub kernel : State
  pub groups : List (ℕ × ℕ)
  pub iova_width : ℕ
  pub hugepage_id : ℕ

abbrev pub Sys : Kernel → Type 0 → Type 0
Sys k B = Stateful (Process k.State) B

-- -1 as an `i32`, and as an `isize`, `MAP_FAILED` of `libc`.
abbrev pub minus_one32 : ℕ
minus_one32 = 2 ^ 32 - 1

abbrev pub minus_one64 : ℕ
minus_one64 = 2 ^ 64 - 1
