-- ===== src/Device/Identify.antt =====
-- The commands of `NvmeDevice` that identify the controller and its namespaces, and that format one.
-- The controller answers in the driver's buffer, from where the bytes are read.
pub mod Described
use Prim.Native.Nat.{bit_and}
use vroom.Common.{
  ℕ, zero, suc, ◌+◌, ◌*◌, ◌/◌, ◌%◌, ◌^◌, Bool, true, false, ◌&&◌, Option, none, some, List, [], ◌∷◌,
  leb, ltb, ◌==◌, if◌then◌else◌,
}
use vroom.Common.Words.{u64, ◌<<◌, ◌>>>◌}
use vroom.Common.Outcome
use vroom.Common.Outcome.{Outcome, ok, err, panic, spin, assert}
use vroom.Memory.Dma.{index_range}
use vroom.Command
use vroom.Pci.Bytes.{from_bytes}
use vroom.Pci.Hex.{trim_start, trim_end}
use vroom.Host.{Controller}
use vroom.Device.State.{
  NvmeDevice, NvmeNamespace, Machine, Action, pure, lift, gets, modify, lookup, ◌>>=◌, ◌>>◌,
}
use vroom.Device.Admin.{submit_and_complete_admin}

abbrev trim : List ℕ → List ℕ
trim text = trim_end (trim_start text)

-- `HashMap::contains_key` and `HashMap::insert`: of the entries of a key the newest counts.
abbrev contains_key : ℕ → NvmeDevice → Bool
contains_key id d = elim (lookup id d.namespaces) [ none ↦ false | some ns ↦ true ]

abbrev pub insert : ℕ → NvmeNamespace → NvmeDevice → NvmeDevice
insert id ns d = record d { namespaces = (id, ns) ∷ d.namespaces }

-- `1 << flba_data` for an exponent from 9 to 31, 0 for any other.
unfoldable pub block_size_of : ℕ → ℕ
block_size_of lba_format =
    let flba_data = bit_and (lba_format >>> 16) 0xFF in
    if leb 9 flba_data && ltb flba_data 32 then 1 << flba_data else 0

-- `for &b in data { if b == 0 { break; } push(b as char) }`
unfoldable pub until_zero : List ℕ → List ℕ
until_zero [] = []
until_zero (b ∷ bs) = let rest = until_zero bs in if b == 0 then [] else b ∷ rest

-- A call whose `Result` is thrown away.
abbrev pub ignore : {W A : Type 0} → Action W A → Action W (Unit {0})
ignore m s =
    let (r, s') = m s in
    elim r [ ok a ↦ (ok tt, s') | err e ↦ (ok tt, s') | panic ↦ (panic, s') | spin ↦ (spin, s') ]

module _ (ctl : Controller) (fuel : ℕ) {W : Type 0} where
  -- `n` bytes of the buffer from the offset `start` on, as they are now.
  abbrev pub bytes_at : Machine W → ℕ → ℕ → List ℕ
  bytes_at s start zero = []
  bytes_at s start (suc n) =
      ctl.memory s.host.log s.host.clock (u64 (s.dev.buffer.virt + start))
      ∷ bytes_at s (start + 1) n

  -- `data[start..start + n]`
  abbrev field : ℕ → ℕ → Action W (List ℕ)
  field start n s = (
    Outcome.◌>>=◌ (index_range s.dev.buffer (record { start = start; stop = start + n }))
        (λ v. ok (until_zero (bytes_at s start n))),
    s,
  )

  -- The model, the serial number and the firmware.
  unfoldable pub identify_controller : Action W (List ℕ × List ℕ × List ℕ)
  identify_controller = do
    submit_and_complete_admin ctl fuel Command.identify_controller
    serial ← field 4 20
    model ← field 24 40
    firmware ← field 64 8
    pure (trim model, trim serial, trim firmware)

  -- The next `n` words of 4 bytes from the offset `start` on, up to the first that is 0.
  unfoldable pub ids_at : Machine W → ℕ → ℕ → List ℕ
  ids_at s start zero = []
  ids_at s start (suc n) =
      let rest = ids_at s (start + 4) n in
      let id = from_bytes (bytes_at s start 4) in if id == 0 then [] else id ∷ rest

  unfoldable pub identify_namespace_list : ℕ → Action W (List ℕ)
  identify_namespace_list base = do
    ignore (
        submit_and_complete_admin ctl fuel
          λ c_id addr. Command.identify_namespace_list c_id addr base)
    λ s. (ok (ids_at s 0 1024), s)

  -- The description of a namespace in the buffer: `ncap` at byte 8, `flbas` at byte 26, and the
  -- sixteen formats of 4 bytes from byte 128 on.
  unfoldable pub described : Machine W → ℕ → NvmeNamespace
  described s id =
      let flba_idx = bit_and (from_bytes (bytes_at s 26 1)) 0xF in
      record {
        id = id;
        blocks = from_bytes (bytes_at s 8 8);
        block_size = block_size_of (from_bytes (bytes_at s (128 + 4 * flba_idx) 4));
      }

  unfoldable pub identify_namespace : ℕ → Action W NvmeNamespace
  identify_namespace id = do
    ignore (submit_and_complete_admin ctl fuel λ c_id addr. Command.identify_namespace c_id addr id)
    namespace ← λ s. (ok (described s id), s)
    modify (insert id namespace)
    pure namespace

  abbrev chosen : Option ℕ → Action W ℕ
  chosen none = pure 0xFFFF_FFFF
  chosen (some id) = do known ← gets (contains_key id); lift (assert known); pure id

  unfoldable pub format_namespace : Option ℕ → Action W (Unit {0})
  format_namespace ns_id = do
    id ← chosen ns_id
    ignore (submit_and_complete_admin ctl fuel λ c_id addr. Command.format_nvm c_id id)
