-- ===== src/Device/Sound/Pairs.antt =====
-- The invariant through the creation and the deletion of an I/O queue pair.
use vroom.Common.{ℕ}
use vroom.Common.Keeps.{keeps_rules}
use vroom.Memory.Dma.{Dma}
use vroom.Mapping.{Mapping}
use vroom.Command.{NvmeCommand}
use vroom.Host.{Controller}
use vroom.Pair.{NvmeQueuePair}
use vroom.Device.Admin.{new_cq, new_sq, free, create_io_queue_pair, delete_io_queue_pair}
use vroom.Device.State.{Machine}
use vroom.Device.Sound.{Sound, Window, KeepsSound, gets-Sound}
use vroom.Device.Sound.Admin.{submit_and_complete_admin-Sound, next_queue}

-- The state behind the allocator plays no part.
pub in_world :
    {W : Type 0} {addr len dstrd : ℕ} (s : Machine W) (x : W)
    → Sound addr len dstrd s
    → Sound addr len dstrd (record s { world = x })
in_world s x p = search

module _ {addr len dstrd : ℕ} (w : Window addr len dstrd) (ctl : Controller) (fuel : ℕ)
    (m : Mapping) (fresh_memory : Dma → ℕ → NvmeCommand) where
  open m use {World}

  cq_Sound : (n dbl : ℕ) → KeepsSound World addr len dstrd (new_cq ctl fuel m fresh_memory n dbl)
  cq_Sound n dbl = record { holds = λ s p. in_world s _ p }

  sq_Sound : (n dbl : ℕ) → KeepsSound World addr len dstrd (new_sq ctl fuel m fresh_memory n dbl)
  sq_Sound n dbl = record { holds = λ s p. in_world s _ p }

  free-Sound : (dma : Dma) → KeepsSound World addr len dstrd (free ctl fuel m fresh_memory dma)
  free-Sound dma = record { holds = λ s p. in_world s _ p }

  pub create_io_queue_pair-Sound :
      (n : ℕ) → KeepsSound World addr len dstrd (create_io_queue_pair ctl fuel m fresh_memory n)
  unfolding create_io_queue_pair
  create_io_queue_pair-Sound n =
      search
        (
          keeps_rules,
          gets-Sound w,
          cq_Sound,
          sq_Sound,
          submit_and_complete_admin-Sound w,
          next_queue w,
        )
        depth 30

  pub delete_io_queue_pair-Sound :
      (qpair : NvmeQueuePair)
      → KeepsSound World addr len dstrd (delete_io_queue_pair ctl fuel m fresh_memory qpair)
  unfolding delete_io_queue_pair
  delete_io_queue_pair-Sound qpair =
      search (keeps_rules, free-Sound, submit_and_complete_admin-Sound w) depth 30
