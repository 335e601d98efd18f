-- ===== src/Device/State.antt =====
-- The state of `NvmeDevice`, and the calls that change it.
use Prim.Native.String.{String}
use vroom.Common.{ℕ, Option, none, some, List, if◌then◌else◌, ◌==◌, [], ◌∷◌}
pub use vroom.Common.Stateful.{pure, raise, lift, ◌>>=◌, ◌>>◌, unwrap, bind-ok}
use vroom.Common.Stateful.{Stateful}
use vroom.Common.Outcome.{ok}
use vroom.Memory.Dma.{Dma}
use vroom.Queues.Submission.{SubmissionQueue}
use vroom.Queues.Completion.{CompletionQueue}
use vroom.Host.{Host}

pub record NvmeNamespace : Type 0 where
  pub id : ℕ
  pub blocks : ℕ
  pub block_size : ℕ

pub record NvmeStats : Type 0 where
  pub completions : ℕ
  pub submissions : ℕ

-- `buffer` and `prp_list` are the mappings; `copied` are the bytes that the driver has copied into
-- the buffer, by their offset, and `prp` are the 512 entries of the list. `namespaces` is the
-- `HashMap`, the newest entry of a key first.
pub record NvmeDevice : Type 0 where
  pub pci_addr : String
  pub addr : ℕ
  pub len : ℕ
  pub dstrd : ℕ
  pub admin_sq : SubmissionQueue
  pub admin_cq : CompletionQueue
  pub io_sq : SubmissionQueue
  pub io_cq : CompletionQueue
  pub buffer : Dma
  pub copied : ℕ → ℕ
  pub prp_list : Dma
  pub prp : ℕ → ℕ
  pub namespaces : List (ℕ × NvmeNamespace)
  pub stats : NvmeStats
  pub q_id : ℕ

-- The device, what it shares with the controller, and the state `W` behind its allocator.
pub record Machine (W : Type 0) : Type 0 where
  pub dev : NvmeDevice
  pub host : Host
  pub world : W

-- `HashMap::get`
abbrev pub lookup : ℕ → List (ℕ × NvmeNamespace) → Option NvmeNamespace
lookup k [] = none
lookup k ((j, ns) ∷ m) = if j == k then some ns else lookup k m

-- A method of the device.
abbrev pub Action : Type 0 → Type 0 → Type 0
Action W A = Stateful (Machine W) A

module _ {W : Type 0} where
  abbrev pub gets : {A : Type 0} → (NvmeDevice → A) → Action W A
  gets f s = (ok (f s.dev), s)

  abbrev pub modify : (NvmeDevice → NvmeDevice) → Action W (Unit {0})
  modify f s = (ok tt, record s { dev = f s.dev })
