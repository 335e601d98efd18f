-- ===== src/Vfio/Release.antt =====
-- Giving memory back through VFIO.
use vroom.Common.{ℕ, ◌+◌, ◌%◌, ◌^◌, ◌≤◌, ◌<◌, ◌≡◌, refl, ◌∙◌, ap, ◌≢◌, not, ◌&&◌, arith}
use vroom.Common.Outcome.{ok}
use vroom.Common.Stateful.{bind-ok, pure}
use vroom.Memory.Dma.{Dma}
use vroom.Memory.Pagesize.{Pagesize, page_2m, size, shift_up}
use vroom.Memory.Pagesize.Rounding.{shift_up-least, whole_pages}
use vroom.System.{Kernel, Process, minus_one32}
use vroom.System.Space.{Space, IsWhole, within}
use vroom.System.Structs.{Argument, dma_unmap, ioas_unmap}
use vroom.System.Ioctl.{op, vfio_iommu_unmap_dma, iommu_ioas_unmap}
use vroom.System.Results.{munmap_ok, ioctl_ok}
use vroom.System.Calls.{munmap_unsafe, ioctl_unsafe}
use vroom.Vfio.State.{Vfio, VfioBackend, legacy, iommufd, set_page_size}
use vroom.Vfio.Backend.{unmap_dma, legacy_unmap, iommufd_unmap}
use vroom.Vfio.Allocate.{deallocate}

-- The raw result of the call that takes a buffer back from the IOMMU.
unfoldable pub unmap_call : (k : Kernel) → VfioBackend → Dma → k.State → ℕ × Argument × k.State
unmap_call k (legacy fd) dma w =
    k.ioctl fd (op vfio_iommu_unmap_dma) (dma_unmap (legacy_unmap dma)) w
unmap_call k (iommufd id fd) dma w =
    k.ioctl fd (op iommu_ioas_unmap) (ioas_unmap (iommufd_unmap id dma)) w

module _ {k : Kernel} (space : Space k) where
  open space use {mapped, page_at, unmaps}

  unmap_ok :
      (b : VfioBackend) (dma : Dma) (s : Process k.State)
      → (unmap_call k b dma s.kernel).0 ≢ minus_one32
      → unmap_dma k b dma s ≡ (ok tt, record s { kernel = (unmap_call k b dma s.kernel).2 })
  unfolding unmap_dma unmap_call
  unmap_ok (legacy fd) dma s ne =
      bind-ok (ioctl_unsafe k fd vfio_iommu_unmap_dma (dma_unmap (legacy_unmap dma))) (λ r. pure tt)
        (ioctl_ok k fd vfio_iommu_unmap_dma (dma_unmap (legacy_unmap dma)) s ne)
  unmap_ok (iommufd id fd) dma s ne =
      bind-ok (ioctl_unsafe k fd iommu_ioas_unmap (ioas_unmap (iommufd_unmap id dma)))
        (λ r. pure tt) (ioctl_ok k fd iommu_ioas_unmap (ioas_unmap (iommufd_unmap id dma)) s ne)

  -- A buffer of a whole number of pages of size `p`, at an address of whole small pages, that is
  -- given back after the page size of the mapping has become `q`, where the size rounded up to `q`
  -- begins and ends between pages of whatever is mapped there: if the IOMMU lets it go without an
  -- error and changes no mapping of the process, the call succeeds, and exactly the addresses
  -- of the buffer's size, rounded up to `q`, are mapped no longer. That is the buffer itself if
  -- `q` is still `p`; but a buffer of one small page takes all of 2 MiB with it if `q` is 2 MiB.
  pub deallocate_lem :
      (v : Vfio) (q : Pagesize) (dma : Dma) (n : ℕ) (s : Process k.State)
      → dma.size ≡ shift_up v.page_size n
      → 0 < dma.size
      → n + size v.page_size ≤ 2 ^ 64
      → dma.size + size q ≤ 2 ^ 64
      → dma.virt % 4096 ≡ 0
      → IsWhole mapped page_at (unmap_call k v.iommu dma s.kernel).2 dma.virt (shift_up q dma.size)
      → (unmap_call k v.iommu dma s.kernel).0 ≢ minus_one32
      → ((a : ℕ) → mapped (unmap_call k v.iommu dma s.kernel).2 a ≡ mapped s.kernel a)
      → (s' : Process k.State) × (deallocate k (set_page_size q v) dma s ≡ (ok tt, s'))
        × ((a : ℕ)
            → mapped s'.kernel a
              ≡ (mapped s.kernel a && not (within dma.virt (shift_up q dma.size) a)))
        × (q ≡ v.page_size → shift_up q dma.size ≡ dma.size)
        × (q ≡ page_2m → dma.size ≡ 4096 → shift_up q dma.size ≡ 2 ^ 21)
  unfolding deallocate shift_up size
  deallocate_lem v q dma n s rounded some_size fits fits' page whole ne same =
      let len = shift_up q dma.size in
      let w = (unmap_call k v.iommu dma s.kernel).2 in
      let larger : dma.size ≤ len = (shift_up-least q dma.size 0 fits').1 in
      let gone =
        unmaps dma.virt len w page (whole_pages q dma.size fits') (omega (arith, larger, some_size))
          whole in
      (
        record s { kernel = (k.munmap dma.virt len w).1 },
        bind-ok (unmap_dma k v.iommu dma) (λ u. munmap_unsafe k dma.virt len)
              (unmap_ok v.iommu dma s ne)
            ∙ munmap_ok k dma.virt len (record s { kernel = w }) gone.0,
        λ a. gone.1 a ∙ ap (λ b. b && not (within dma.virt len a)) (same a),
        λ e. rw (e, rounded) ((shift_up-least v.page_size n 0 fits).4),
        λ e e'. rw (e, e') refl,
      )
