-- ===== src/Examples/Fill.antt =====
-- examples/fill_namespace.rs: writing a namespace from its first block on.
use vroom.Common.{ℕ, zero, suc, ◌+◌, ◌/◌, ltb, true, false}
use vroom.Common.Words.{u64, sub_u64}
use vroom.Common.Stateful.{pure, lift, unwrap, ◌>>=◌, ◌>>◌}
use vroom.Common.Outcome.{spin}
use vroom.Memory.Dma.{Dma}
use vroom.Memory.Pagesize.{pagesize_2mib}
use vroom.Mapping.{Mapping}
use vroom.Host.{Controller}
use vroom.Device.State.{Action, gets, lookup}
use vroom.Device.Allocator.{allocate}
use vroom.Device.Io.{transfer}
use vroom.Examples.{or_panic}

module _ (ctl : Controller) (fuel : ℕ) where
  -- `while lba < max_lba - 512`, for at most `n` turns.
  unfoldable pub fill_from : {W : Type 0} → Dma → (max_lba n lba : ℕ) → Action W (Unit {0})
  fill_from buffer max_lba zero lba = lift spin
  fill_from buffer max_lba (suc n) lba = elim (ltb lba (sub_u64 max_lba 512)) [
    | true ↦ (do
      or_panic (transfer ctl fuel buffer lba true)
      fill_from buffer max_lba n (u64 (lba + buffer.size / 512)))
    | false ↦ pure tt
  ]

  module _ (m : Mapping) where
    open m use {World}

    unfoldable pub fill_ns : ℕ → Action World (Unit {0})
    fill_ns n = do
      buffer ← or_panic (allocate m pagesize_2mib)
      found ← gets (λ d. lookup 1 d.namespaces)
      ns ← unwrap found
      fill_from buffer (sub_u64 (sub_u64 ns.blocks (buffer.size / 512)) 1) n 0
