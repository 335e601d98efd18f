-- ===== src/Vfio/Alignment.antt =====
-- The aligned allocation below 4 GiB.
use Prim.Native.Nat.{bit_or}
use vroom.Common.{
  ℕ, ◌+◌, ◌/◌, ◌%◌, refl, if◌then◌else◌, ◌^◌, ◌<◌, ◌≡◌, ◌∙◌, ap, ◌≢◌, true, false, not, ◌&&◌, ◌||◌,
  arith,
}
use vroom.Common.Words.{u64, sub_u64}
use vroom.Common.Outcome.{ok, err, Error}
use vroom.Common.Stateful.{◌>>◌, bind-ok, bind-err}
use vroom.Memory.Pagesize.{pagesize_2mib}
use vroom.System.{Kernel, Process, Sys, minus_one32, minus_one64}
use vroom.System.Space.{Space, IsWhole, within}
use vroom.System.Calls.{mmap_unsafe, munmap_unsafe, mmap_anonymous_unsafe}
use vroom.System.Results.{mmap_ok, munmap_ok, munmap_err}
use vroom.Vfio.Trim.{aligned_lem, pieces, head_inside, tail_inside, multiple}
use vroom.Vfio.Allocate.{aligned_addr, allocate_low}

module _ {k : Kernel} (space : Space k) (len : ℕ) (s : Process k.State) where
  open space use {mapped, page_at, small_pages, huge_pages, maps, fixed, unmaps, unmaps_nothing}

  -- A range of small pages.
  ordinary :
      (w : k.State) (addr n : ℕ)
      → addr % 4096 ≡ 0
      → n % 4096 ≡ 0
      → ((a : ℕ) → within addr n a ≡ true → page_at w a ≡ 4096)
      → IsWhole mapped page_at w addr n
  ordinary w addr n page pages small a inside _ = (
    multiple (page_at w a) addr (small a inside) page,
    multiple (page_at w a) n (small a inside) pages,
  )

  -- The first mapping: its address, and the system behind it.
  abbrev pub reserved : ℕ × k.State
  reserved =
      k.mmap 0 (u64 (len + pagesize_2mib)) (bit_or k.prot_read k.prot_write)
        (bit_or (bit_or (bit_or k.map_32bit k.map_shared) k.map_anonymous) k.map_populate)
        minus_one32 0 s.kernel

  abbrev pub huge_flags : ℕ
  huge_flags = bit_or (bit_or (bit_or k.map_shared k.map_anonymous) k.map_hugetlb) k.map_huge_2mb

  -- The arguments of the later calls, and the system behind each.
  abbrev pub at : ℕ
  at = aligned_addr reserved.0

  abbrev pub head : ℕ
  head = sub_u64 at reserved.0

  abbrev pub tail : ℕ
  tail = sub_u64 pagesize_2mib head

  abbrev pub without_head : k.State
  without_head = (k.munmap reserved.0 head reserved.1).1

  abbrev pub without_tail : k.State
  without_tail = (k.munmap (u64 (at + len)) tail without_head).1

  abbrev pub map_huge : ℕ → k.State → ℕ × k.State
  map_huge start w =
      k.mmap start len (bit_or k.prot_read k.prot_write) (bit_or huge_flags k.map_fixed) minus_one32
        0 w

  -- The reserved range lies below 4 GiB.
  pub record IsLow : Type 0 where
    pub page : reserved.0 % 4096 ≡ 0
    pub huge : len % 2 ^ 21 ≡ 0
    pub low : reserved.0 + len + 2 ^ 21 < 2 ^ 32

  -- What the first mapping has mapped, with pages of which size.
  reserved_lem :
      IsLow
      → (a : ℕ)
      → (mapped reserved.1 a
          ≡ (mapped s.kernel a || within reserved.0 (u64 (len + pagesize_2mib)) a))
        × (page_at reserved.1 a ≡ (
            if within reserved.0 (u64 (len + pagesize_2mib)) a then 4096 else page_at s.kernel a))
  reserved_lem fits a =
      maps 0 (u64 (len + pagesize_2mib)) (bit_or k.prot_read k.prot_write)
        (bit_or (bit_or (bit_or k.map_32bit k.map_shared) k.map_anonymous) k.map_populate) 4096
        s.kernel a small_pages (multiple 4096 _ refl (omega (arith, fits.huge, fits.low)))
        (omega (arith, fits.low))

  reserved_small :
      IsLow
      → (a : ℕ) → within reserved.0 (u64 (len + pagesize_2mib)) a ≡ true
      → page_at reserved.1 a ≡ 4096
  reserved_small fits a inside = (reserved_lem fits a).1 ∙ rw inside refl

  head_lem :
      IsLow
      → 0 < head
      → ((k.munmap reserved.0 head reserved.1).0 ≡ 0)
        × ((a : ℕ)
            → mapped without_head a ≡ (mapped reserved.1 a && not (within reserved.0 head a)))
        × ((a : ℕ)
            → within reserved.0 head a ≡ false
            → page_at without_head a ≡ page_at reserved.1 a)
  head_lem fits some =
      let al = aligned_lem reserved.0 (omega (arith, fits.low)) in
      unmaps reserved.0 head reserved.1 fits.page (omega (arith, al, fits.page)) some (
        ordinary reserved.1 reserved.0 head fits.page (omega (arith, al, fits.page)) (λ a inside.
          reserved_small fits a (head_inside a reserved.0 at len al.2 al.1 fits.low inside)))

  tail_lem :
      IsLow
      → 0 < head
      → ((k.munmap (u64 (at + len)) tail without_head).0 ≡ 0)
        × ((a : ℕ)
            → mapped without_tail a
              ≡ (mapped without_head a && not (within (u64 (at + len)) tail a)))
  tail_lem fits some =
      let al = aligned_lem reserved.0 (omega (arith, fits.low)) in
      let begins : u64 (at + len) % 4096 ≡ 0 = omega (arith, al, fits.low, fits.huge, fits.page) in
      let whole : tail % 4096 ≡ 0 = omega (arith, al, fits.page, fits.low) in
      let gone =
        unmaps (u64 (at + len)) tail without_head begins whole
          (omega (arith, al, fits.low, fits.page))
          (ordinary without_head (u64 (at + len)) tail begins whole (λ a inside.
            let (there, apart) = tail_inside a reserved.0 at len al.2 al.1 fits.low inside in
            (head_lem fits some).2 a apart ∙ reserved_small fits a there)) in
      (gone.0, gone.1)

  -- An allocation of whole huge pages, when the first mapping lies below 4 GiB and at an address
  -- that is not itself a multiple of 2 MiB: if its range was free and the last mapping does not
  -- fail, the allocation succeeds. The address is a multiple of 2 MiB below 4 GiB, and of the
  -- addresses exactly the `len` bytes from there on are mapped more than before.
  pub allocate_low_lem :
      IsLow
      → reserved.0 % 2 ^ 21 ≢ 0
      → ((a : ℕ) → within reserved.0 (len + 2 ^ 21) a ≡ true → mapped s.kernel a ≡ false)
      → (map_huge at without_tail).0 ≢ minus_one64
      → (start : ℕ) × (s' : Process k.State) × (allocate_low k len s ≡ (ok start, s'))
        × (start % 2 ^ 21 ≡ 0)
        × (reserved.0 < start)
        × (start + len < 2 ^ 32)
        × ((a : ℕ) → mapped s'.kernel a ≡ (mapped s.kernel a || within start len a))
  unfolding allocate_low
  allocate_low_lem fits off fresh works =
      let rest3 : ℕ → ℕ → Sys k ℕ = λ a free.
        mmap_unsafe k a len (bit_or k.prot_read k.prot_write) (bit_or huge_flags k.map_fixed)
          minus_one32 0 in
      let rest2 : ℕ → ℕ → Sys k ℕ =
        λ a free. munmap_unsafe k (u64 (a + len)) (sub_u64 pagesize_2mib free) >> rest3 a free in
      let rest1 : ℕ → Sys k ℕ = λ a.
        munmap_unsafe k a (sub_u64 (aligned_addr a) a)
        >> rest2 (aligned_addr a) (sub_u64 (aligned_addr a) a) in
      let al = aligned_lem reserved.0 (omega (arith, fits.low)) in
      let s1 : Process k.State = record s { kernel = reserved.1 } in
      let s2 : Process k.State = record s { kernel = without_head } in
      let s3 : Process k.State = record s { kernel = without_tail } in
      let some : 0 < head = omega (arith, al, off, fits.low) in
      let first = head_lem fits some in
      let second = tail_lem fits some in
      let placed =
        fixed at len (bit_or k.prot_read k.prot_write) huge_flags minus_one32 0 without_tail
          (omega (arith, al, off)) works in
      (
        at,
        record s { kernel = (map_huge at without_tail).1 },
        bind-ok (mmap_anonymous_unsafe k (u64 (len + pagesize_2mib)) k.map_32bit) rest1 (
              mmap_ok k 0 (u64 (len + pagesize_2mib)) (bit_or k.prot_read k.prot_write)
                (bit_or (bit_or (bit_or k.map_32bit k.map_shared) k.map_anonymous) k.map_populate)
                minus_one32 0 s (omega (arith, fits.low)))
            ∙ bind-ok (munmap_unsafe k reserved.0 head) (λ u. rest2 at head)
                (munmap_ok k reserved.0 head s1 first.0)
            ∙ bind-ok (munmap_unsafe k (u64 (at + len)) tail) (λ u. rest3 at head)
                (munmap_ok k (u64 (at + len)) tail s2 second.0)
            ∙ mmap_ok k at len (bit_or k.prot_read k.prot_write) (bit_or huge_flags k.map_fixed)
                minus_one32 0 s3 works
            ∙ ap (λ r. (ok r, record s { kernel = (map_huge at without_tail).1 })) placed,
        al.0,
        omega (arith, al, off),
        omega (arith, al, fits.low),
        λ a.
            (maps at len (bit_or k.prot_read k.prot_write) (bit_or huge_flags k.map_fixed) (2 ^ 21)
              without_tail a huge_pages (len / 2 ^ 21, omega (arith, fits.huge)) works).0
            ∙ ap (λ n. mapped without_tail a || within n len a) placed
            ∙ ap (λ b. b || within at len a)
                (second.1 a
                  ∙ ap (λ b. b && not (within (u64 (at + len)) tail a))
                      (first.1 a
                        ∙ ap (λ b. b && not (within reserved.0 head a)) (reserved_lem fits a).0))
            ∙ pieces (mapped s.kernel a) a reserved.0 at len al.1 al.2 fits.low (fresh a),
      )

  -- An allocation of whole huge pages, when the first mapping lies below 4 GiB: if that happens to be
  -- at a multiple of 2 MiB, nothing is to be given back in front
  -- of it; the call that unmaps 0 bytes there is an error, and so is the allocation. All that was
  -- mapped, the requested size and a huge page more, stays mapped.
  pub allocate_low_fails :
      IsLow
      → reserved.0 % 2 ^ 21 ≡ 0
      → (e : Error) × (s' : Process k.State) × (allocate_low k len s ≡ (err e, s'))
        × ((a : ℕ) → mapped s'.kernel a ≡ (mapped s.kernel a || within reserved.0 (len + 2 ^ 21) a))
  unfolding allocate_low
  allocate_low_fails fits aligned =
      let rest2 : ℕ → ℕ → Sys k ℕ = λ a free.
        munmap_unsafe k (u64 (a + len)) (sub_u64 pagesize_2mib free)
        >> mmap_unsafe k a len (bit_or k.prot_read k.prot_write) (bit_or huge_flags k.map_fixed)
            minus_one32 0 in
      let rest1 : ℕ → Sys k ℕ = λ a.
        munmap_unsafe k a (sub_u64 (aligned_addr a) a)
        >> rest2 (aligned_addr a) (sub_u64 (aligned_addr a) a) in
      let al = aligned_lem reserved.0 (omega (arith, fits.low)) in
      let none : head ≡ 0 = omega (arith, al, aligned, fits.low) in
      let nothing = unmaps_nothing reserved.0 reserved.1 in
      let flags =
        bit_or (bit_or (bit_or k.map_32bit k.map_shared) k.map_anonymous) k.map_populate in
      let failed =
        munmap_err k reserved.0 head (record s { kernel = reserved.1 })
          (ap (λ n. (k.munmap reserved.0 n reserved.1).0) none ∙ nothing.0) in
      (
        failed.0,
        record s { kernel = without_head },
        bind-ok (mmap_anonymous_unsafe k (u64 (len + pagesize_2mib)) k.map_32bit) rest1 (
              mmap_ok k 0 (u64 (len + pagesize_2mib)) (bit_or k.prot_read k.prot_write) flags
                minus_one32 0 s (omega (arith, fits.low)))
            ∙ bind-err (munmap_unsafe k reserved.0 head) (λ u. rest2 at head) failed.1,
        λ a.
            ap (λ n. mapped (k.munmap reserved.0 n reserved.1).1 a) none
            ∙ nothing.1 a
            ∙ (reserved_lem fits a).0
            ∙ ap (λ n. mapped s.kernel a || within reserved.0 n a) (omega (arith, fits.low)),
      )
