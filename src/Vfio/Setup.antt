-- ===== src/Vfio/Setup.antt =====
-- The initialisation of src/vfio.rs.
use Prim.Native.Nat.{bit_or, bit_and}
use Prim.Native.String.{String, ◌++◌ as ◌<>◌}
use vroom.Common.{
  ℕ, ◌+◌, Bool, true, false, Option, none, some, List, [], ◌∷◌, take, ◌==◌, if◌then◌else◌,
}
use vroom.Common.Words.{u8, u64, ◌<<◌, ◌>>>◌}
use vroom.Common.Outcome.{ok, err, panic, spin, Error, io, vfio, vroom_error}
use vroom.Common.Stateful.{Stateful, ◌>>=◌, ◌>>◌, get, pure, raise, unwrap}
use vroom.Memory.Pagesize.{Pagesize, page_2m}
use vroom.Pci.{
  pci_open_resource_ro, read_hex, device_path, command_register_offset, bus_master_enable_bit,
}
use vroom.Pci.Bytes.{to_bytes, from_bytes}
use vroom.System.{Kernel, Sys}
use vroom.System.Structs.{
  Argument, no_argument, number, text, descriptor, group_status, iommu_info, bind_iommufd,
  ioas_alloc, attach_iommufd_pt, size_of_group_status, size_of_iommu_info, size_of_bind_iommufd,
  size_of_ioas_alloc, size_of_attach_iommufd_pt,
}
use vroom.System.Ioctl.{
  vfio_get_api_version, vfio_check_extension, vfio_set_iommu, vfio_group_get_status,
  vfio_group_set_container, vfio_group_get_device_fd, vfio_device_get_region_info,
  vfio_iommu_get_info, vfio_device_bind_iommufd, vfio_device_attach_iommufd_pt, iommu_ioas_alloc,
  vfio_group_flags_viable,
}
use vroom.System.Calls.{ioctl_unsafe, pread_unsafe, pwrite_unsafe, run, display}
use vroom.Vfio.State.{Vfio, legacy, iommufd}
use vroom.Vfio.Allocate.{ask_region, region_offset}

abbrev vfio_api_version : ℕ
vfio_api_version = 0

abbrev vfio_type1_iommu : ℕ
vfio_type1_iommu = 1

-- `VFIO_PCI_CONFIG_REGION_INDEX`
abbrev config_region_index : ℕ
config_region_index = 7

abbrev pub vtd_cap_mgaw_shift : ℕ
vtd_cap_mgaw_shift = 16

abbrev pub vtd_cap_mgaw_mask : ℕ
vtd_cap_mgaw_mask = 0x3F << vtd_cap_mgaw_shift

-- The width in the capabilities.
unfoldable pub gaw_of : ℕ → ℕ
gaw_of iommu_cap = u8 ((bit_and iommu_cap vtd_cap_mgaw_mask >>> vtd_cap_mgaw_shift) + 1)

-- `HashMap::get` of the group descriptors.
abbrev pub find_group : ℕ → List (ℕ × ℕ) → Option ℕ
find_group g [] = none
find_group g ((h, fd) ∷ m) = if h == g then some fd else find_group g m

abbrev flags_of : Argument → ℕ
flags_of (group_status s) = s.flags
flags_of _ = 0

abbrev ioas_id_of : Argument → ℕ
ioas_id_of (ioas_alloc a) = a.out_ioas_id
ioas_id_of _ = 0

-- `Result::expect`
abbrev pub expect : {S A : Type 0} → Stateful S A → Stateful S A
expect m s =
    let (r, s') = m s in
    elim r [ ok a ↦ (ok a, s') | err e ↦ (panic, s') | panic ↦ (panic, s') | spin ↦ (spin, s') ]

-- `Result::map_err`
abbrev map_err : {S A : Type 0} → (Error → Error) → Stateful S A → Stateful S A
map_err f m s =
    let (r, s') = m s in
    elim r [ ok a ↦ (ok a, s') | err e ↦ (err (f e), s') | panic ↦ (panic, s') | spin ↦ (spin, s') ]

module _ (k : Kernel) where
  abbrev look : {A : Type 0} → (k.State → A) → Sys k A
  look f p = (ok (f p.kernel), p)

  -- `is_enabled` and `is_intel_iommu`
  abbrev pub is_enabled : String → k.State → Bool
  is_enabled pci_addr = k.exists (device_path k pci_addr "iommu_group")

  abbrev pub is_intel_iommu : String → k.State → Bool
  is_intel_iommu pci_addr = k.exists (device_path k pci_addr "iommu/intel-iommu")

  unfoldable pub get_intel_iommu_gaw : String → Sys k ℕ
  get_intel_iommu_gaw pci_addr = do
    iommu_cap_file ← expect (pci_open_resource_ro k pci_addr "iommu/intel-iommu/cap")
    iommu_cap ← expect (read_hex k iommu_cap_file)
    pure (gaw_of iommu_cap)

  -- The width is stored whether or not it is smaller; the comparison only decides what is printed.
  unfoldable pub check_intel_iommu : String → Sys k (Unit {0})
  check_intel_iommu pci_addr = do
    intel ← look (is_intel_iommu pci_addr)
    if intel
        then (do mgaw ← get_intel_iommu_gaw pci_addr; λ p. (ok tt, record p { iova_width = mgaw }))
        else pure tt

  -- The bus master bit of the command register is set. A read of fewer than two bytes leaves the
  -- rest of the buffer, which is 0.
  unfoldable pub enable_dma : Vfio → Sys k (Unit {0})
  enable_dma v = do
    r ← ioctl_unsafe k v.device_fd vfio_device_get_region_info (ask_region config_region_index)
    let offset = u64 (region_offset r.1 + command_register_offset)
    bytes ← pread_unsafe k v.device_fd 2 offset
    let dma = bit_or (from_bytes (take 2 bytes)) (1 << bus_master_enable_bit)
    pwrite_unsafe k v.device_fd (to_bytes 2 dma) offset

  -- A group that is not open: it is opened, and put into the container.
  unfoldable pub open_group : ℕ → ℕ → Sys k ℕ
  open_group container_fd group = do
    group_fd ← run k (k.open_file ("/dev/vfio/" <> k.decimal group) true false) (λ e. vfio (
        "Failed to open group at path /dev/vfio"
        <> k.decimal group
        <> ", Err: "
        <> k.describe e
        <> ", is Vfio set up correctly?"))
    r ←
        ioctl_unsafe k group_fd vfio_group_get_status
          (group_status (record { argsz = size_of_group_status; flags = 0 }))
    if bit_and (flags_of r.1) vfio_group_flags_viable == 1
        then pure tt
        else raise (
            vroom_error "group is not viable (ie, not all devices in this group are bound to vfio)")
    ioctl_unsafe k group_fd vfio_group_set_container (descriptor container_fd)
    λ p. (ok tt, record p { groups = (group, group_fd) ∷ p.groups })
    pure group_fd

  unfoldable pub group_descriptor : ℕ → ℕ → Sys k ℕ
  group_descriptor container_fd group = do
    p ← get
    elim (find_group group p.groups) [
      | some group_fd ↦ pure group_fd
      | none ↦ open_group container_fd group
    ]

  unfoldable pub init_legacy : String → Pagesize → Sys k Vfio
  init_legacy pci_addr page_size = do
    check_intel_iommu pci_addr
    container_fd ← run k (k.open_file "/dev/vfio/vfio" true false) io
    version ← ioctl_unsafe k container_fd vfio_get_api_version no_argument
    if version.0 == vfio_api_version then pure tt else raise (vfio "Unknown VFIO API Version")
    map_err (λ e. vfio ("Container doesn't support Type1 IOMMU: " <> display k e))
        (ioctl_unsafe k container_fd vfio_check_extension (number vfio_type1_iommu))
    link ← λ p.
        (let (r, w) = k.link_number (device_path k pci_addr "iommu_group") p.kernel in
          (ok r, record p { kernel = w }))
    group ← unwrap link
    group_fd ← group_descriptor container_fd group
    ioctl_unsafe k container_fd vfio_set_iommu (number vfio_type1_iommu)
    device ← ioctl_unsafe k group_fd vfio_group_get_device_fd (text pci_addr)
    ioctl_unsafe k container_fd vfio_iommu_get_info (
        iommu_info (record {
          argsz = size_of_iommu_info;
          flags = 0;
          iova_pgsizes = 0;
          cap_offset = 0;
          pad = 0;
        }))
    let v : Vfio = record {
      pci_addr = pci_addr;
      device_fd = device.0;
      page_size = page_size;
      iommu = legacy container_fd;
    }
    enable_dma v
    pure v

  unfoldable pub init_iommufd : String → Pagesize → Sys k Vfio
  init_iommufd pci_addr page_size = do
    fd ← run k (k.open_file "/dev/iommu" true false) (λ e.
        vfio
          ("Failed to open /dev/iommu, Err: " <> k.describe e <> ", is IOMMUFD set up correctly?"))
    cdev_fd ← run k (k.open_file "/dev/vfio/devices/vfio0" true false) (λ e. vfio (
        "Failed to open device /dev/vfio/devices/vfio0, Err: "
        <> k.describe e
        <> ", is IOMMUFD set up correctly?"))
    ioctl_unsafe k cdev_fd vfio_device_bind_iommufd (
        bind_iommufd
          (record { argsz = size_of_bind_iommufd; flags = 0; iommufd = fd; out_devid = 0 }))
    alloc ←
        ioctl_unsafe k fd iommu_ioas_alloc
          (ioas_alloc (record { size = size_of_ioas_alloc; flags = 0; out_ioas_id = 0 }))
    ioctl_unsafe k cdev_fd vfio_device_attach_iommufd_pt (
        attach_iommufd_pt
          (record { argsz = size_of_attach_iommufd_pt; flags = 0; pt_id = ioas_id_of alloc.1 }))
    let v : Vfio = record {
      pci_addr = pci_addr;
      device_fd = cdev_fd;
      page_size = page_size;
      iommu = iommufd (ioas_id_of alloc.1) fd;
    }
    enable_dma v
    pure v

  abbrev pub init_with_args : String → Pagesize → Bool → Sys k Vfio
  init_with_args pci_addr page_size use_iommufd =
      if use_iommufd then init_iommufd pci_addr page_size else init_legacy pci_addr page_size

  -- `Vfio::init`
  abbrev pub init : String → Sys k Vfio
  init pci_addr = init_with_args pci_addr page_2m false
