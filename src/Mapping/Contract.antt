-- ===== src/Mapping/Contract.antt =====
-- What an allocation promises, for both mappings.
use vroom.Common.{ℕ, ◌+◌, ◌%◌, ◌^◌, ◌≤◌, ◌<◌, ◌≡◌, sym, ap}
use vroom.Common.Outcome.{ok}
use vroom.Common.Stateful.{◌>>=◌, bind-inv, ok_inj, pure}
use vroom.Memory.Dma.{Dma}
use vroom.Memory.Pagesize.{Pagesize, size, shift_up, mmap_flags}
use vroom.Memory.Pagesize.Rounding.{shift_up-least}
use vroom.System.{Kernel, Process}
use vroom.System.Structs.{dma_map, ioas_map}
use vroom.System.Ioctl.{vfio_iommu_map_dma, iommu_ioas_map}
use vroom.System.Calls.{ioctl_unsafe, mmap_fd_unsafe, mlock_unsafe}
use vroom.Physical
use vroom.Vfio.State
use vroom.Vfio.Backend.{map_dma, legacy_map, iommufd_map, iova_of}
use vroom.Vfio.Allocate
use vroom.Vfio.State.{VfioBackend, legacy, iommufd}
use vroom.Mapping.Access.{MemoryAccess, physical, vfio, allocate}

abbrev pub page_size_of : MemoryAccess → Pagesize
page_size_of (physical m) = m.page_size
page_size_of (vfio v) = v.page_size

module _ (k : Kernel) where
  map_dma-size :
      (b : VfioBackend) (ptr len : ℕ) (s s' : Process k.State) (d : Dma)
      → map_dma k b ptr len s ≡ (ok d, s')
      → (d.size ≡ len) × (d.virt ≡ ptr)
  unfolding map_dma
  map_dma-size (legacy fd) ptr len s s' d h =
      let i =
        bind-inv (ioctl_unsafe k fd vfio_iommu_map_dma (dma_map (legacy_map ptr len)))
          (λ r. pure (record { virt = ptr; phys = iova_of r.1; size = len })) h in
      (ap Dma.size (sym (ok_inj i.3)), ap Dma.virt (sym (ok_inj i.3)))
  map_dma-size (iommufd id fd) ptr len s s' d h =
      let i =
        bind-inv (ioctl_unsafe k fd iommu_ioas_map (ioas_map (iommufd_map id ptr len)))
          (λ r. pure (record { virt = ptr; phys = iova_of r.1; size = len })) h in
      (ap Dma.size (sym (ok_inj i.3)), ap Dma.virt (sym (ok_inj i.3)))

  vfio-size :
      (v : State.Vfio) (n : ℕ) (s s' : Process k.State) (d : Dma)
      → Allocate.allocate k v n s ≡ (ok d, s')
      → d.size ≡ shift_up v.page_size n
  unfolding Allocate.allocate
  vfio-size v n s s' d h =
      let len = shift_up v.page_size n in
      let i =
        bind-inv (Allocate.allocate_pages k v.page_size len) (λ ptr. map_dma k v.iommu ptr len) h in
      (map_dma-size v.iommu i.0 len i.1 s' d i.3).0

  lock-size :
      (len ptr : ℕ) (s s' : Process k.State) (d : Dma)
      → Physical.lock_and_find k len ptr s ≡ (ok d, s')
      → d.size ≡ len
  unfolding Physical.lock_and_find
  lock-size len ptr s s' d h =
      let with_phys : ℕ → Dma = λ phys. record { virt = ptr; phys = phys; size = len } in
      let i =
        bind-inv (mlock_unsafe k ptr len)
          (λ u. Physical.virt_to_phys k ptr >>= λ phys. pure (with_phys phys)) h in
      let j = bind-inv (Physical.virt_to_phys k ptr) (λ phys. pure (with_phys phys)) i.3 in
      ap Dma.size (sym (ok_inj j.3))

  physical-size :
      (m : Physical.Physical) (n : ℕ) (s s' : Process k.State) (d : Dma)
      → Physical.allocate k m n s ≡ (ok d, s')
      → d.size ≡ shift_up m.page_size n
  unfolding Physical.allocate Physical.map_file
  physical-size m n s s' d h =
      let len = shift_up m.page_size n in
      let flags = mmap_flags k.map_hugetlb k.map_huge_2mb k.map_huge_1gb m.page_size in
      let i =
        bind-inv (Physical.next_id k)
          (λ id. Physical.huge_page k id >>= λ file. Physical.map_file k m.page_size len file) h in
      let j = bind-inv (Physical.huge_page k i.0) (Physical.map_file k m.page_size len) i.3 in
      let l = bind-inv (mmap_fd_unsafe k len flags j.0) (Physical.lock_and_find k len) j.3 in
      lock-size len l.0 l.1 s' d l.3

  -- An allocation that succeeds, through either mapping, of a size that with one page more fits 64
  -- bits, gives a buffer that holds the requested
  -- size, is a whole number of pages, and is less than a page too large.
  pub allocate-size :
      (a : MemoryAccess) (n : ℕ) (s s' : Process k.State) (d : Dma)
      → n + size (page_size_of a) ≤ 2 ^ 64
      → allocate k a n s ≡ (ok d, s')
      → (n ≤ d.size) × (d.size < n + size (page_size_of a)) × (d.size % size (page_size_of a) ≡ 0)
  unfolding allocate
  allocate-size (physical m) n s s' d fits h =
      let r = shift_up-least m.page_size n 0 fits in rw (physical-size m n s s' d h) (r.1, r.2, r.0)
  allocate-size (vfio v) n s s' d fits h =
      let r = shift_up-least v.page_size n 0 fits in rw (vfio-size v n s s' d h) (r.1, r.2, r.0)
