-- ===== src/Device/Sound/Start.antt =====
-- The device that `NvmeDevice::init` returns is sound.
use Prim.Native.Nat.{bit_and}
use Prim.Native.String.{String}
use vroom.Common.{ℕ, ◌*◌, ◌+◌, ◌≡◌, refl, List, [], arith}
use vroom.Common.Words.{u64, ◌>>>◌}
use vroom.Common.Outcome.{Outcome, ok, err, panic, spin}
use vroom.Common.Stateful.{bind-inv, bind-ok, ok_inj, get}
use vroom.Common.Outcome
use vroom.Common.Keeps.{Gives, Yields, Yields-bind, Yields-pure, Yields-any}
use vroom.Memory.Dma.{Dma}
use vroom.Mapping.{Mapping}
use vroom.Command.{NvmeCommand}
use vroom.Host.{Host, Controller}
use vroom.Queues.Entry.{queue_length}
use vroom.Queues.Submission
use vroom.Queues.Completion
use vroom.Queues.Submission.{SubmissionQueue}
use vroom.Queues.Completion.{CompletionQueue}
use vroom.Queues.Bounds.{HasTail, HasHead}
use vroom.Device.State.{Machine}
use vroom.Device.Registers.{offset64, cap}
use vroom.Device.Init.{new_device, build, create, init, configure, finish}
use vroom.Device.Sound.{Window, Sound, Inside}
use vroom.Device.Sound.Admin.{configure-Sound}
use vroom.Device.Sound.Histories.{Operation, run_all, run_all-Sound}

-- The doorbell stride exponent that the controller shows for registers at `addr`.
abbrev pub stride_exponent : Controller → Host → ℕ → ℕ
stride_exponent ctl h addr = bit_and (ctl.reg h.log h.clock (u64 (addr + offset64 cap)) >>> 32) 15

module _ (ctl : Controller) (m : Mapping) (commands : Dma → ℕ → NvmeCommand)
    (bytes entries : Dma → ℕ → ℕ) where
  open m use {World, allocate, map_resource}

  new_sq-HasTail : Yields HasTail (Submission.new m commands queue_length 0)
  unfolding Submission.new
  new_sq-HasTail = record { gives = λ w. placed (allocate (64 * queue_length) w).0 }
    where
      placed :
          (r : Outcome Dma)
          → Gives HasTail (Outcome.◌>>=◌ r λ d. ok (Submission.fresh d (commands d) queue_length 0))
      placed (ok d) = record { fits = omega arith; within = omega arith }
      placed (err e) = tt
      placed panic = tt
      placed spin = tt

  new_cq-HasHead : Yields HasHead (Completion.new m queue_length 0)
  unfolding Completion.new
  new_cq-HasHead = record { gives = λ w. placed (allocate (16 * queue_length) w).0 }
    where
      placed :
          (r : Outcome Dma)
          → Gives HasHead (Outcome.◌>>=◌ r λ d. ok (Completion.fresh d queue_length 0))
      placed (ok d) = record { fits = omega arith; within = omega arith }
      placed (err e) = tt
      placed panic = tt
      placed spin = tt

  build-Sound :
      (pci_addr : String) (h : Host) (addr len : ℕ)
      → Inside addr len h.log
      → Yields
          (Sound addr len (stride_exponent ctl h addr))
          (build ctl m commands bytes entries pci_addr h (addr, len))
  unfolding build
  build-Sound pci_addr h addr len inside = Yields-bind _ _ (Yields-any (allocate 4096)) (λ buffer _.
      Yields-bind _ _ (Yields-any (allocate 4096)) (λ prp_list _.
        Yields-bind _ _ new_sq-HasTail (λ admin_sq at.
          Yields-bind _ _ new_cq-HasHead (λ admin_cq ah. Yields-bind _ _ new_sq-HasTail (λ io_sq it.
            Yields-bind _ _ new_cq-HasHead (λ io_cq ih. Yields-bind _ _ (Yields-any get) (λ x _.
              Yields-pure
                (new_device ctl m commands bytes entries pci_addr h (addr, len) buffer prp_list
                  admin_sq admin_cq io_sq io_cq x)
                (record {
                  same_addr = refl;
                  same_len = refl;
                  same_dstrd = refl;
                  admin_tail = at;
                  admin_head = ah;
                  io_tail = it;
                  io_head = ih;
                  inside = inside;
                }))))))))

  create-Sound :
      (pci_addr : String) (h : Host) (w w1 : World) (addr len : ℕ)
      → map_resource w ≡ (ok (addr, len), w1)
      → h.log ≡ []
      → Gives
          (Sound addr len (stride_exponent ctl h addr))
          (create ctl m commands bytes entries pci_addr h w).0
  unfolding create
  create-Sound pci_addr h w w1 addr len mapped empty =
      rw (bind-ok map_resource (build ctl m commands bytes entries pci_addr h) mapped)
        ((build-Sound pci_addr h addr len (rw empty tt)).gives w1)

  finished :
      (r : Outcome (Unit {0})) (s' s : Machine World) (w' : World)
      → finish ctl m commands bytes entries r s' ≡ (ok s, w')
      → s' ≡ s
  finished (ok u) s' s w' e = ok_inj e
  finished (err x) s' s w' e = absurd (ground (arith, e))
  finished panic s' s w' e = absurd (ground (arith, e))
  finished spin s' s w' e = absurd (ground (arith, e))

  -- If the initialisation of a device returns the device `s`, whatever the controller answers and
  -- whatever the memory holds, then after any sequence of the methods in `Operation`, however each of
  -- them ends, the tails of the device's submission rings and the heads of its completion rings are
  -- slots of the rings, which fit their memory, and every write to a register since before the initialisation begins in the mapping that
  -- `map_resource` gave, at least four bytes before its end, as long as that mapping holds the
  -- doorbells of the queues 0 and 1, with a stride exponent of at most 12.
  pub init-run_all :
      (fuel fuel' : ℕ) (pci_addr : String) (h : Host) (w w1 w' : World) (addr len : ℕ)
      (s : Machine World)
      → map_resource w ≡ (ok (addr, len), w1)
      → Window addr len (stride_exponent ctl h addr)
      → h.log ≡ []
      → init ctl m commands bytes entries fuel pci_addr h w ≡ (ok s, w')
      → (ops : List Operation)
      → Sound addr len (stride_exponent ctl h addr) (run_all ctl fuel' m commands ops s)
  unfolding init
  init-run_all fuel fuel' pci_addr h w w1 w' addr len s mapped window empty e ops =
      let i =
        bind-inv (create ctl m commands bytes entries pci_addr h)
          (λ s w.
            finish ctl m commands bytes entries (configure ctl fuel s).0 (configure ctl fuel s).1)
          e in
      let before : Sound addr len (stride_exponent ctl h addr) i.0 =
        rw i.2 at (create-Sound pci_addr h w w1 addr len mapped empty) in
      let after = (configure-Sound window ctl fuel).holds i.0 before in
      run_all-Sound ctl fuel' m commands window ops s (rw (finished _ _ s w' i.3) at after)
