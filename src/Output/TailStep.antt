-- ===== src/Output/TailStep.antt =====
-- `append_tail` and `trim_tail` of output.rs: the tail keeps the last bytes.
use misy.Common.{
  sym, ◌∙◌, ℕ, ◌+◌, ◌≤◌, ◌≡◌, refl, false, ◌⊎◌, List, [], ◌∷◌, ◌++◌, append-nil, arith, length,
  u64_max, slice_max,
}
use misy.Output.Capture.{
  trim_loop, ActivityOutputStream, CapturedFragment, OrderedOutput, half_budget,
  max_fragments_per_half, append_tail, trim_tail, over_budget,
}
use misy.Output.Log.{LoggedByte, bytes_log, flat, costs, Ends}
use misy.Output.Grow.{flat-grow, costs-grow, Ends-grow}
use misy.Output.Trim.{Trims, trim_loop-Trims, trim_loop-ends}
use misy.Output.Invariant.{WellFormed}

-- What `append_tail` does to the tail, at the position `start`.
pub record TailStep (o : OrderedOutput) (s : ActivityOutputStream) (start : ℕ) (bytes : List ℕ)
    (r : OrderedOutput) : Type 0 where
  pub dropped : List LoggedByte
  pub split : flat o.tail ++ bytes_log s start bytes ≡ dropped ++ flat r.tail
  pub charged : costs r.tail ≡ r.tail_cost
  pub within : r.tail_cost ≤ half_budget
  pub fragments : length r.tail ≤ max_fragments_per_half
  pub ends : Ends o.total r.tail
  pub same_head : r.head ≡ o.head
  pub same_head_cost : r.head_cost ≡ o.head_cost
  pub same_total : r.total ≡ o.total

budget_kept :
    (t : List CapturedFragment) (c : ℕ)
    → costs t ≡ c
    → (t ≡ []) ⊎ (over_budget t c ≡ false)
    → (c ≤ half_budget) × (length t ≤ max_fragments_per_half)
unfolding over_budget
budget_kept t c h e = ground arith

trim_tail-TailStep :
    (o g : OrderedOutput) (s : ActivityOutputStream) (start : ℕ) (bytes : List ℕ)
    → o.total ≤ u64_max
    → g.tail_cost ≤ u64_max
    → Ends o.total g.tail
    → flat g.tail ≡ flat o.tail ++ bytes_log s start bytes
    → costs g.tail ≡ g.tail_cost
    → g.head ≡ o.head
    → g.head_cost ≡ o.head_cost
    → g.total ≡ o.total
    → TailStep o s start bytes (trim_tail g)
unfolding trim_tail
trim_tail-TailStep o g s start bytes small fits ends holds charged h c t = record {
  dropped = trimmed.dropped;
  split = sym holds ∙ trimmed.split;
  charged = trimmed.charged;
  within = bounds.0;
  fragments = bounds.1;
  ends = trimmed.ends;
  same_head = h;
  same_head_cost = c;
  same_total = t;
}
  where
    trimmed : Trims o.total g.tail (trim_loop (length g.tail + 2) g.tail g.tail_cost)
    trimmed = trim_loop-Trims (length g.tail + 2) o.total g.tail g.tail_cost small fits ends charged

    bounds :
        ((trim_loop (length g.tail + 2) g.tail g.tail_cost).1 ≤ half_budget)
        × (length (trim_loop (length g.tail + 2) g.tail g.tail_cost).0 ≤ max_fragments_per_half)
    bounds =
        budget_kept _ _ trimmed.charged
          (trim_loop-ends (length g.tail + 2) g.tail g.tail_cost (omega arith))

pub append_tail-TailStep :
    (o : OrderedOutput) (s : ActivityOutputStream) (start : ℕ) (bytes : List ℕ)
    → WellFormed o
    → start + length bytes ≤ o.total
    → length bytes ≤ slice_max
    → TailStep o s start bytes (append_tail o s start bytes)
unfolding append_tail
append_tail-TailStep o s start [] w fits chunk = record {
  dropped = [];
  split = simp append-nil;
  charged = w.tail_charged;
  within = w.tail_within;
  fragments = w.tail_fragments;
  ends = w.tail_ends;
  same_head = refl;
  same_head_cost = refl;
  same_total = refl;
}
append_tail-TailStep o s start (b ∷ bs) w fits chunk =
    trim_tail-TailStep o _ s start (b ∷ bs) w.counted (ground arith)
      (Ends-grow s start (b ∷ bs) o.total o.tail w.counted fits w.tail_ends)
      (flat-grow s start (b ∷ bs) o.total o.tail w.counted w.tail_ends)
      (ground (arith, costs-grow s start (b ∷ bs) o.tail)) refl refl refl
