-- ===== src/System/Files.antt =====
-- What the standard library says of a file that can be read and written, as assumptions about the
-- system.
use Prim.Native.String.{String}
use vroom.Common.{
  ℕ, zero, suc, ◌+◌, ◌≤◌, ◌≡◌, length, List, [], ◌∷◌, inr, true, false, ◌==◌, if◌then◌else◌,
}
use vroom.System.{Kernel}

abbrev pub bytes_of : (ℕ → ℕ) → ℕ → ℕ → List ℕ
bytes_of f start zero = []
bytes_of f start (suc n) = f start ∷ bytes_of f (start + 1) n

abbrev pub overwritten : List ℕ → ℕ → (ℕ → ℕ) → ℕ → ℕ
overwritten [] start f i = f i
overwritten (b ∷ bs) start f i = if i == start then b else overwritten bs (start + 1) f i

-- A file of `size` bytes that can be opened to read and write, each time as some descriptor: what
-- the standard library says of `open`, `seek`, `read_exact` and `write_all` on it. `byte w i` is its
-- byte at `i`, `IsOpen w fd` that the descriptor `fd` is open on it, and `position w fd` its
-- position then. Nothing is said of a descriptor that is not open on the file, nor of a read or a
-- write that goes past the end of the file.
pub record ConfigFile (k : Kernel) (path : String) : Type 1 where
  pub size : ℕ
  pub byte : k.State → ℕ → ℕ
  pub IsOpen : k.State → ℕ → Type 0
  pub position : k.State → ℕ → ℕ
  pub opens :
      (w : k.State)
      → (fd : ℕ) × ((k.open_file path true false w).0 ≡ inr fd)
        × IsOpen (k.open_file path true false w).1 fd
        × (byte (k.open_file path true false w).1 ≡ byte w)
  pub seeks :
      (fd o : ℕ) (w : k.State)
      → IsOpen w fd
      → ((k.seek fd o w).0 ≡ inr tt)
        × (position (k.seek fd o w).1 fd ≡ o)
        × (byte (k.seek fd o w).1 ≡ byte w)
        × IsOpen (k.seek fd o w).1 fd
  pub reads :
      (fd n : ℕ) (w : k.State)
      → IsOpen w fd
      → position w fd + n ≤ size
      → ((k.read_exact fd n w).0 ≡ inr (bytes_of (byte w) (position w fd) n))
        × (byte (k.read_exact fd n w).1 ≡ byte w)
        × IsOpen (k.read_exact fd n w).1 fd
  pub writes :
      (fd : ℕ) (bs : List ℕ) (w : k.State)
      → IsOpen w fd
      → position w fd + length bs ≤ size
      → ((k.write_all fd bs w).0 ≡ inr tt)
        × (byte (k.write_all fd bs w).1 ≡ overwritten bs (position w fd) (byte w))
