-- ===== src/Driver/Class.antt =====
-- Which devices are brought up.
use mathlib.Core.Path.{◌≡◌}
use Prim.Native.String.{String, ◌++◌ as ◌<>◌}
use vroom.Common.{
  ℕ, ◌/◌, ◌^◌, ◌∙◌, refl, Bool, ap, true, false, List, inl, inr, ◌⊎◌, ◌==◌, if◌then◌else◌, arith,
}
use vroom.Common.Words.{◌>>>◌}
use vroom.Common.Outcome.{Outcome, ok, err, panic, spin, Error, IoError, io, vroom_error}
use vroom.Common.Stateful.{Stateful, ◌>>=◌, ◌>>◌, bind-inv, ok_inj, pure, raise, lift}
use vroom.Memory.Dma.{Dma}
use vroom.Memory.Pagesize.{Pagesize}
use vroom.Command.{NvmeCommand}
use vroom.Pci.{pci_open_resource_ro, read_hex, read_io, device_path}
use vroom.Pci.Hex.{parse_hex}
use vroom.Pci.Bytes.{from_bytes}
use vroom.System.{Kernel, Process, Sys}
use vroom.System.Calls.{run}
use vroom.Vfio.Setup.{expect}
use vroom.Host.{Host, Controller}
use vroom.Device.State.{Machine}
use vroom.Driver.{class_of, bring_up, start, nvme_class}

-- A call that succeeds where `expect` does.
expect-inv :
    {S A : Type 0} (m : Stateful S A) {s s' : S} {a : A}
    → expect m s ≡ (ok a, s')
    → m s ≡ (ok a, s')
expect-inv {S} {A} m {s} {s'} {a} h = goes (m s).0 (m s).1 h
  where
    goes :
        (r : Outcome A) (s1 : S)
        → (elim r as (λ x. Outcome A × S) [
          | ok a ↦ (ok a, s1)
          | err e ↦ (panic, s1)
          | panic ↦ (panic, s1)
          | spin ↦ (spin, s1)
        ])
          ≡ (ok a, s')
        → Path (Outcome A × S) (r, s1) (ok a, s')
    goes (ok a) s1 h = h
    goes (err e) s1 h = absurd (ground (arith, h))
    goes panic s1 h = absurd (ground (arith, h))
    goes spin s1 h = absurd (ground (arith, h))

module _ (k : Kernel) where
  -- A call of the standard library that succeeds.
  run-inv :
      {B : Type 0} (call : k.State → (IoError ⊎ B) × k.State) (f : IoError → Error)
      {p p' : Process k.State} {b : B}
      → run k call f p ≡ (ok b, p')
      → ((call p.kernel).0 ≡ inr b) × (record p { kernel = (call p.kernel).1 } ≡ p')
  run-inv {B} call f {p} {p'} {b} h = goes (call p.kernel).0 (call p.kernel).1 h
    where
      goes :
          (r : IoError ⊎ B) (w : k.State)
          → (elim r as (λ x. Outcome B × Process k.State) [
            | inl e ↦ (err (f e), record p { kernel = w })
            | inr b ↦ (ok b, record p { kernel = w })
          ])
            ≡ (ok b, p')
          → (r ≡ inr b) × (record p { kernel = w } ≡ p')
      goes (inl e) w h = absurd (ground (arith, h))
      goes (inr x) w h = (ap inr (ok_inj h), ap (λ r. r.1) h)

  -- What follows on a call that succeeds, with the state that the call leaves.
  run-step :
      {A B : Type 0} (call : k.State → (IoError ⊎ B) × k.State) (f : IoError → Error)
      (rest : B → Sys k A) {p p' : Process k.State} {a : A}
      → (run k call f >>= rest) p ≡ (ok a, p')
      → (b : B) × ((call p.kernel).0 ≡ inr b)
        × (rest b (record p { kernel = (call p.kernel).1 }) ≡ (ok a, p'))
  run-step call f rest h =
      let i = bind-inv (run k call f) rest h in
      let r = run-inv call f i.2 in (i.0, r.0, ap (rest i.0) r.1 ∙ i.3)

  -- The state behind each call on a file of the device.
  abbrev opened : String → String → k.State → (IoError ⊎ ℕ) × k.State
  opened pci_addr name = k.open_file (device_path k pci_addr name) false false

  open-step :
      {A : Type 0} (pci_addr name : String) (rest : ℕ → Sys k A) {p p' : Process k.State} {a : A}
      → (expect (pci_open_resource_ro k pci_addr name) >>= rest) p ≡ (ok a, p')
      → (file : ℕ) × ((opened pci_addr name p.kernel).0 ≡ inr file)
        × (rest file (record p { kernel = (opened pci_addr name p.kernel).1 }) ≡ (ok a, p'))
  unfolding pci_open_resource_ro
  open-step pci_addr name rest h =
      let i = bind-inv (expect (pci_open_resource_ro k pci_addr name)) rest h in
      let r =
        run-inv (opened pci_addr name) io (expect-inv (pci_open_resource_ro k pci_addr name) i.2) in
      (i.0, r.0, ap (rest i.0) r.1 ∙ i.3)

  hex-step :
      {A : Type 0} (file : ℕ) (rest : Sys k A) {p p' : Process k.State} {a : A}
      → (read_hex k file >> rest) p ≡ (ok a, p')
      → rest (record p { kernel = (k.read_to_string file p.kernel).1 }) ≡ (ok a, p')
  unfolding read_hex
  hex-step file rest h =
      let i = bind-inv (read_hex k file) (λ u. rest) h in
      let r = run-step (k.read_to_string file) io (λ text. lift (parse_hex text)) i.2 in
      ap rest (ap (λ x. x.1) r.2) ∙ i.3

  word-step :
      {A : Type 0} (width file offset : ℕ) (rest : ℕ → Sys k A) {p p' : Process k.State} {a : A}
      → (read_io k width file offset >>= rest) p ≡ (ok a, p')
      → let w = (k.seek file offset p.kernel).1 in
        (word : List ℕ) × ((k.seek file offset p.kernel).0 ≡ inr tt)
        × ((k.read_exact file width w).0 ≡ inr word)
        × (rest (from_bytes word) (record p { kernel = (k.read_exact file width w).1 })
            ≡ (ok a, p'))
  unfolding read_io
  word-step width file offset rest h =
      let value : List ℕ → Sys k ℕ = λ bs. pure (from_bytes bs) in
      let i = bind-inv (read_io k width file offset) rest h in
      let sought =
        run-step (k.seek file offset) io (λ u. run k (k.read_exact file width) io >>= value) i.2 in
      let got = run-step (k.read_exact file width) io value sought.2 in
      (got.0, sought.1, got.1, ap (λ x. rest x.0 x.1) (both got.2) ∙ i.3)
    where
      both :
          {v n : ℕ} {q q' : Process k.State}
          → Path (Outcome ℕ × Process k.State) (ok v, q) (ok n, q')
          → Path (ℕ × Process k.State) (v, q) (n, q')
      both {v} e =
          ap (λ (x : Outcome ℕ × Process k.State). (elim x.0 as (λ o. ℕ) [ ok y ↦ y | _ ↦ v ], x.1))
            e

  -- The states of the system from `w` on: behind the opening of the three files, and behind the
  -- reading of the two identifiers through the descriptors `v` and `d`.
  abbrev pub behind_opening : String → k.State → k.State
  behind_opening pci_addr w = (opened pci_addr "device" (opened pci_addr "vendor" w).1).1

  abbrev pub behind_reading : String → ℕ → ℕ → k.State → k.State
  behind_reading pci_addr v d w =
      let w' = (opened pci_addr "config" (behind_opening pci_addr w)).1 in
      (k.read_to_string d (k.read_to_string v w').1).1

  -- What a class that was read is made of: the descriptors of the three files and the word read.
  abbrev pub IsRead : String → k.State → ℕ → ℕ → ℕ → List ℕ → Type 0
  IsRead pci_addr w vendor device config word =
      let w' = behind_reading pci_addr vendor device w in
      ((opened pci_addr "vendor" w).0 ≡ inr vendor)
      × ((opened pci_addr "device" (opened pci_addr "vendor" w).1).0 ≡ inr device)
      × ((opened pci_addr "config" (behind_opening pci_addr w)).0 ≡ inr config)
      × ((k.seek config 8 w').0 ≡ inr tt)
      × ((k.read_exact config 4 (k.seek config 8 w').1).0 ≡ inr word)

  -- The process behind the reading of the word.
  abbrev pub behind_word : String → ℕ → ℕ → ℕ → Process k.State → Process k.State
  behind_word pci_addr vendor device config p =
      let w' = behind_reading pci_addr vendor device p.kernel in
      record p { kernel = (k.read_exact config 4 (k.seek config 8 w').1).1 }

module _ (ctl : Controller) (k : Kernel) (commands : Dma → ℕ → NvmeCommand)
    (bytes entries : Dma → ℕ → ℕ) (fuel : ℕ) where
  class_of-inv :
      (pci_addr : String) (p p' : Process k.State) (c : ℕ)
      → class_of ctl k commands bytes entries fuel pci_addr p ≡ (ok c, p')
      → (vendor : ℕ) × (device : ℕ) × (config : ℕ) × (word : List ℕ) × IsRead k pci_addr p.kernel
          vendor device config word
        × (from_bytes word >>> 16 ≡ c)
        × (behind_word k pci_addr vendor device config p ≡ p')
  unfolding class_of
  class_of-inv pci_addr p p' c h =
      let last : ℕ → Sys k ℕ = λ word. pure (word >>> 16) in
      let third : ℕ → ℕ → ℕ → Sys k ℕ =
        λ v d f. read_hex k v >> (read_hex k d >> (read_io k 4 f 8 >>= last)) in
      let open_ro : String → Sys k ℕ = λ name. expect (pci_open_resource_ro k pci_addr name) in
      let v =
        open-step k pci_addr "vendor"
          (λ v. open_ro "device" >>= λ d. open_ro "config" >>= λ f. third v d f) h in
      let d = open-step k pci_addr "device" (λ d. open_ro "config" >>= λ f. third v.0 d f) v.2 in
      let f = open-step k pci_addr "config" (λ f. third v.0 d.0 f) d.2 in
      let g = hex-step k v.0 (read_hex k d.0 >> (read_io k 4 f.0 8 >>= last)) f.2 in
      let r = word-step k 4 f.0 8 last (hex-step k d.0 (read_io k 4 f.0 8 >>= last) g) in
      (v.0, d.0, f.0, r.0, (v.1, d.1, f.1, r.1, r.2), ok_inj r.3, ap (λ x. x.1) r.3)

  is_nvme :
      (pci_addr : String) (page_size : Pagesize) (h : Host) (q p' : Process k.State)
      (m : Machine (Process k.State)) (c : ℕ) (b : Bool)
      → (c == nvme_class) ≡ b
      → (if b
            then bring_up ctl k commands bytes entries fuel pci_addr page_size h
            else raise (vroom_error ("device " <> pci_addr <> " is not a block device")))
          q
        ≡ (ok m, p')
      → (c ≡ 0x0108)
        × (bring_up ctl k commands bytes entries fuel pci_addr page_size h q ≡ (ok m, p'))
  is_nvme pci_addr page_size h q p' m c true t e = (ground (arith, t), e)
  is_nvme pci_addr page_size h q p' m c false t e = absurd (ground (arith, e))

  -- If the driver starts for a device at all, it has opened the files `vendor`, `device` and `config`
  -- of the device one after the other to read only, and then read the first two through their
  -- descriptors; from the third it has read four bytes at 8, and the upper half of the word they
  -- make is 0x0108, mass storage and NVMe; and it has brought up the device from the state that this
  -- left.
  pub start-class :
      (pci_addr : String) (page_size : Pagesize) (h : Host) (p p' : Process k.State)
      (m : Machine (Process k.State))
      → start ctl k commands bytes entries fuel pci_addr page_size h p ≡ (ok m, p')
      → (vendor : ℕ) × (device : ℕ) × (config : ℕ) × (word : List ℕ) × IsRead k pci_addr p.kernel
          vendor device config word
        × (from_bytes word / 2 ^ 16 ≡ 0x0108)
        × (bring_up ctl k commands bytes entries fuel pci_addr page_size h
              (behind_word k pci_addr vendor device config p)
            ≡ (ok m, p'))
  unfolding start
  start-class pci_addr page_size h p p' m e =
      let rest : ℕ → Sys k (Machine (Process k.State)) = λ class_id.
        if class_id == nvme_class
        then bring_up ctl k commands bytes entries fuel pci_addr page_size h
        else raise (vroom_error ("device " <> pci_addr <> " is not a block device")) in
      let i = bind-inv (class_of ctl k commands bytes entries fuel pci_addr) rest e in
      let (vendor, device, config, word, found, class_word, left) =
        class_of-inv pci_addr p i.1 i.0 i.2 in
      let (right, up) = is_nvme pci_addr page_size h i.1 p' m i.0 (i.0 == nvme_class) refl i.3 in
      (
        vendor,
        device,
        config,
        word,
        found,
        omega (arith, class_word, right),
        ap (bring_up ctl k commands bytes entries fuel pci_addr page_size h) left ∙ up,
      )
