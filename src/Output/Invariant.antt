-- ===== src/Output/Invariant.antt =====
-- The invariant of the capture of output.rs, and what it retains of the history.
use misy.Common.{ℕ, ◌+◌, ◌≤◌, ◌<◌, ◌≡◌, ◌⊎◌, List, [], ◌++◌, length, u64_max, slice_max}
use misy.Output.Capture.{
  ActivityOutputStream, stdout, stderr, system, OrderedOutput, half_budget, max_fragments_per_half,
}
use misy.Output.Log.{LoggedByte, bytes_log, flat, costs, Ends}

pub record WellFormed (o : OrderedOutput) : Type 0 where
  pub head_charged : costs o.head ≡ o.head_cost
  pub head_within : o.head_cost ≤ half_budget
  pub head_fragments : length o.head ≤ max_fragments_per_half
  pub head_ends : Ends o.total o.head
  pub tail_charged : costs o.tail ≡ o.tail_cost
  pub tail_within : o.tail_cost ≤ half_budget
  pub tail_fragments : length o.tail ≤ max_fragments_per_half
  pub tail_ends : Ends o.total o.tail
  pub counted : o.total ≤ u64_max

-- The head takes nothing more.
pub record IsFull (o : OrderedOutput) : Type 0 where
  pub bound : ℕ
  pub before : bound < o.total
  pub head_bound : Ends bound o.head
  pub no_room : (max_fragments_per_half ≤ length o.head) ⊎ (half_budget ≤ o.head_cost + 32)

-- The history is what the head holds, then what was dropped, then what the tail holds.
pub record Retains (log : List LoggedByte) (o : OrderedOutput) : Type 0 where
  pub dropped : List LoggedByte
  pub split : log ≡ flat o.head ++ (dropped ++ flat o.tail)
  pub open_or_full : (dropped ++ flat o.tail ≡ []) ⊎ IsFull o

-- The bytes of a chunk that enter the history: all of a process, and none of the system.
abbrev pub written : ActivityOutputStream → ℕ → List ℕ → List LoggedByte
written stdout start bytes = bytes_log stdout start bytes
written stderr start bytes = bytes_log stderr start bytes
written system start bytes = []

-- A chunk that Rust can pass, with room left in the 64-bit counter of all bytes.
pub record Fits (o : OrderedOutput) (bytes : List ℕ) : Type 0 where
  pub slice : length bytes ≤ slice_max
  pub room : o.total + length bytes ≤ u64_max
