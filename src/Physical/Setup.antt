-- ===== src/Physical/Setup.antt =====
-- How a device is taken over for physical addresses.
use vroom.Common.{ℕ, ◌≤◌, ◌<◌, ◌≡◌, ◌≢◌, ◌∙◌, refl, ap, inl, inr, true, false, if◌then◌else◌}
use vroom.Common.Outcome.{ok, mmio}
use vroom.Common.Stateful.{◌>>◌, bind-ok, pure, raise}
use vroom.Memory.Pagesize.{Pagesize, page_4k, page_2m, page_1g}
use vroom.Pci.{device_path}
use vroom.System.{Kernel, Process, Sys}
use vroom.System.Files.{ConfigFile}
use vroom.Physical.{
  Physical, is_4k, is_bound_to_pci_stub, enable_dma, disable_interrupts, init_with_args,
}
use vroom.Physical.Command.{command, with_bit, set_command_bit_lem}

not_4k : (p : Pagesize) → p ≢ page_4k → is_4k p ≡ false
not_4k page_4k ne = absurd (ne refl)
not_4k page_2m ne = refl
not_4k page_1g ne = refl

module _ {k : Kernel} (m : Physical) (c : ConfigFile k (device_path k m.pci_addr "config")) where
  open c use {size, byte}

  -- With a page size other than 4 KiB, be it 2 MiB or 1 GiB, for a device that is found among those
  -- bound to `pci-stub` and whose configuration file works, has at least 6 bytes and holds bytes in
  -- the command register, the initialisation succeeds. What it leaves in the file is the
  -- command register with DMA enabled (bit 2) and interrupts disabled (bit 10); no other byte of it has
  -- changed since the search.
  pub init_with_args_lem :
      (s s1 : Process k.State)
      → 6 ≤ size
      → m.page_size ≢ page_4k
      → is_bound_to_pci_stub k m s ≡ (ok true, s1)
      → byte s1.kernel 4 < 256
      → byte s1.kernel 5 < 256
      → (s' : Process k.State) × (init_with_args k m.pci_addr m.page_size s ≡ (ok m, s'))
        × (command m c s'.kernel ≡ with_bit 10 (with_bit 2 (command m c s1.kernel)))
        × ((i : ℕ) → i ≢ 4 → i ≢ 5 → byte s'.kernel i ≡ byte s1.kernel i)
  unfolding init_with_args
  init_with_args_lem s s1 long large bound low_byte high_byte =
      let dma = set_command_bit_lem m c 2 s1 long (inl refl) low_byte high_byte in
      let quiet = set_command_bit_lem m c 10 dma.0 long (inr refl) dma.4 dma.5 in
      let silence : Sys k Physical = disable_interrupts k m >> pure m in
      (
        quiet.0,
        rw (not_4k m.page_size large) (
            bind-ok (is_bound_to_pci_stub k m)
              (λ found.
                (if found then pure tt else raise (mmio "The device is not bound to Pci-Stub!"))
                >> (enable_dma k m >> silence))
              bound
            ∙ bind-ok (enable_dma k m) (λ u. silence) dma.1
            ∙ bind-ok (disable_interrupts k m) (λ u. pure m) quiet.1),
        quiet.2 ∙ ap (with_bit 10) dma.2,
        λ i n4 n5. quiet.3 i n4 n5 ∙ dma.3 i n4 n5,
      )
