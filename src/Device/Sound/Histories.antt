-- ===== src/Device/Sound/Histories.antt =====
-- Whole uses of a device: any of the methods of `NvmeDevice`, in any order.
use vroom.Common.{ℕ, Bool, Option, List, [], ◌∷◌}
use vroom.Common.Keeps.{Keeps-bind, Keeps-pure}
use vroom.Memory.Dma.{Dma}
use vroom.Mapping.{Mapping}
use vroom.Command.{NvmeCommand}
use vroom.Host.{Controller}
use vroom.Pair.{NvmeQueuePair}
use vroom.Device.State.{Machine, Action, pure, ◌>>◌}
use vroom.Device.Admin
use vroom.Device.Allocator
use vroom.Device.Identify
use vroom.Device.Io
use vroom.Device.Copied
use vroom.Device.Sound.{Window, Sound, KeepsSound}
use vroom.Device.Sound.Admin.{
  identify_controller-Sound, identify_namespace_list-Sound, identify_namespace-Sound,
  format_namespace-Sound,
}
use vroom.Device.Sound.Pairs.{in_world, create_io_queue_pair-Sound, delete_io_queue_pair-Sound}
use vroom.Device.Sound.Io.{transfer-Sound, write_prp-Sound}
use vroom.Device.Sound.Copied.{
  batched_write-Sound, batched_read-Sound, write_copied-Sound, read_copied-Sound,
}

-- The public methods, with their arguments; not `set_page_size`, which changes the allocator only, and
-- `identify_controller_print`, which prints what `identify_controller` returns. `transfer` is `write` or `read`.
pub data Operation : Type 0 where
  allocate : (size : ℕ) → Operation
  deallocate : (dma : Dma) → Operation
  map_resource : Operation
  identify_controller : Operation
  identify_namespace_list : (base : ℕ) → Operation
  identify_namespace : (id : ℕ) → Operation
  format_namespace : (ns_id : Option ℕ) → Operation
  create_io_queue_pair : (len : ℕ) → Operation
  delete_io_queue_pair : (qpair : NvmeQueuePair) → Operation
  transfer : (d : Dma) (lba : ℕ) (write : Bool) → Operation
  write_prp : (d : Dma) (lba : ℕ) (write : Bool) → Operation
  write_copied : (input : ℕ → ℕ) (len lba : ℕ) → Operation
  read_copied : (dest : ℕ → ℕ) (len lba : ℕ) → Operation
  batched_write : (ns_id : ℕ) (input : ℕ → ℕ) (len lba batch_len : ℕ) → Operation
  batched_read : (ns_id : ℕ) (dest : ℕ → ℕ) (len lba batch_len : ℕ) → Operation

module _ (ctl : Controller) (fuel : ℕ) (m : Mapping) (fresh_memory : Dma → ℕ → NvmeCommand) where
  open m use {World}

  -- A method whose result is dropped.
  abbrev done : {A : Type 0} → Action World A → Action World (Unit {0})
  done method = method >> pure tt

  unfoldable pub run : Operation → Action World (Unit {0})
  run (allocate size) = done (Allocator.allocate m size)
  run (deallocate dma) = Allocator.deallocate m dma
  run map_resource = done (Allocator.map_resource m)
  run identify_controller = done (Identify.identify_controller ctl fuel)
  run (identify_namespace_list base) = done (Identify.identify_namespace_list ctl fuel base)
  run (identify_namespace id) = done (Identify.identify_namespace ctl fuel id)
  run (format_namespace ns_id) = Identify.format_namespace ctl fuel ns_id
  run (create_io_queue_pair len) = done (Admin.create_io_queue_pair ctl fuel m fresh_memory len)
  run (delete_io_queue_pair qpair) = Admin.delete_io_queue_pair ctl fuel m fresh_memory qpair
  run (transfer d lba write) = Io.transfer ctl fuel d lba write
  run (write_prp d lba write) = Io.write_prp ctl fuel d lba write
  run (write_copied input len lba) = Copied.write_copied ctl fuel input len lba
  run (read_copied dest len lba) = done (Copied.read_copied ctl fuel dest len lba)
  run (batched_write ns_id input len lba batch_len) =
      Copied.batched_write ctl fuel ns_id input len lba batch_len
  run (batched_read ns_id dest len lba batch_len) =
      done (Copied.batched_read ctl fuel ns_id dest len lba batch_len)

  -- One method after the other, each from what the one before left, however that one ended.
  unfoldable pub run_all : List Operation → Machine World → Machine World
  run_all [] s = s
  run_all (op ∷ ops) s = run_all ops (run op s).1

  module _ {addr len dstrd : ℕ} (w : Window addr len dstrd) where
    done-Sound :
        {A : Type 0} (method : Action World A)
        → KeepsSound World addr len dstrd method
        → KeepsSound World addr len dstrd (done method)
    done-Sound method keeps = Keeps-bind method _ keeps (λ a. Keeps-pure tt)

    run-Sound : (op : Operation) → KeepsSound World addr len dstrd (run op)
    unfolding run
    run-Sound (allocate size) = done-Sound _ (record { holds = λ s p. in_world s _ p })
    run-Sound (deallocate dma) = record { holds = λ s p. in_world s _ p }
    run-Sound map_resource = done-Sound _ (record { holds = λ s p. in_world s _ p })
    run-Sound identify_controller = done-Sound _ (identify_controller-Sound w ctl fuel)
    run-Sound (identify_namespace_list base) =
        done-Sound _ (identify_namespace_list-Sound w ctl fuel base)
    run-Sound (identify_namespace id) = done-Sound _ (identify_namespace-Sound w ctl fuel id)
    run-Sound (format_namespace ns_id) = format_namespace-Sound w ctl fuel ns_id
    run-Sound (create_io_queue_pair len) =
        done-Sound _ (create_io_queue_pair-Sound w ctl fuel m fresh_memory len)
    run-Sound (delete_io_queue_pair qpair) =
        delete_io_queue_pair-Sound w ctl fuel m fresh_memory qpair
    run-Sound (transfer d lba write) = transfer-Sound w ctl fuel d lba write
    run-Sound (write_prp d lba write) = write_prp-Sound w ctl fuel d lba write
    run-Sound (write_copied input len lba) = write_copied-Sound w ctl fuel input len lba
    run-Sound (read_copied dest len lba) = done-Sound _ (read_copied-Sound w ctl fuel dest len lba)
    run-Sound (batched_write ns_id input len lba batch_len) =
        batched_write-Sound w ctl fuel ns_id input len lba batch_len
    run-Sound (batched_read ns_id dest len lba batch_len) =
        done-Sound _ (batched_read-Sound w ctl fuel ns_id dest len lba batch_len)

    -- Whatever the controller answers and however each method ends, any sequence of the methods in
    -- `Operation` leaves a device sound if it was: the tails of its submission rings and the heads of
    -- its completion rings are slots of the rings, which fit their memory; the mapping of its registers is the same; and every write to
    -- a register so far begins in that mapping, at least four bytes before its end. The mapping
    -- holds the doorbells of the queues 0 and 1, with a doorbell stride exponent of at most 12.
    pub run_all-Sound :
        (ops : List Operation) (s : Machine World)
        → Sound addr len dstrd s
        → Sound addr len dstrd (run_all ops s)
    unfolding run_all
    run_all-Sound [] s p = p
    run_all-Sound (op ∷ ops) s p = run_all-Sound ops (run op s).1 ((run-Sound op).holds s p)
