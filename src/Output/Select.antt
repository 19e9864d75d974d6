-- ===== src/Output/Select.antt =====
-- The part of a capture that is shown, output.rs: what lies after a cursor, and the first and the
-- last bytes of it under a byte budget.
use misy.Common.{
  ℕ, ◌+◌, ◌-◌, ◌/◌, min, Option, none, some, List, [], ◌∷◌, ◌++◌, length, take, drop, leb, ◌==◌,
  if◌then◌else◌, saturating_add, saturating_sub, saturate,
}
use mathlib.Core.List.{reverse}
use misy.Output.Capture.{CapturedFragment, OrderedOutput, fragment_end}

-- The part of a fragment from a position on.
unfoldable pub slice_after : CapturedFragment → ℕ → Option CapturedFragment
unfolding fragment_end
slice_after f position =
    let offset = min (saturate (saturating_sub position f.start)) (length f.bytes) in
    if leb (fragment_end f) position
    then none
    else some (record {
      stream = f.stream;
      start = saturating_add f.start (saturate offset);
      bytes = drop offset f.bytes;
    })

unfoldable pub slices_after : List CapturedFragment → ℕ → List CapturedFragment
slices_after [] position = []
slices_after (f ∷ fs) position = elim (slice_after f position) [
  | none ↦ slices_after fs position
  | some g ↦ g ∷ slices_after fs position
]

unfoldable pub fragments_after : OrderedOutput → ℕ → List CapturedFragment
unfolding slices_after
fragments_after o position = slices_after (o.head ++ o.tail) position

unfoldable pub bytes_held : List CapturedFragment → ℕ
bytes_held [] = 0
bytes_held (f ∷ fs) = length f.bytes + bytes_held fs

-- The first bytes of some fragments, up to a budget. The loop stops with the budget.
unfoldable pub take_head : List CapturedFragment → ℕ → List CapturedFragment
take_head [] budget = []
take_head (f ∷ fs) budget =
    let kept = min budget (length f.bytes) in
    let rest = take_head fs (budget - kept) in
    if budget == 0
    then []
    else record { stream = f.stream; start = f.start; bytes = take kept f.bytes } ∷ rest

-- The loop of `take_tail`, over the fragments from the last to the first; `kept` is the deque.
unfoldable pub take_tail_loop :
    List CapturedFragment → ℕ → List CapturedFragment → List CapturedFragment
take_tail_loop [] budget kept = kept
take_tail_loop (f ∷ fs) budget kept =
    let used = min budget (length f.bytes) in
    let offset = length f.bytes - used in
    let rest = take_tail_loop fs (budget - used) (
      record {
        stream = f.stream;
        start = saturating_add f.start (saturate offset);
        bytes = drop offset f.bytes;
      }
      ∷ kept) in
    if budget == 0 then kept else rest

unfoldable pub take_tail : List CapturedFragment → ℕ → List CapturedFragment
unfolding take_tail_loop
take_tail fs budget = take_tail_loop (reverse fs) budget []

unfoldable pub select_head_tail :
    List CapturedFragment → ℕ → List CapturedFragment × List CapturedFragment
unfolding bytes_held take_head take_tail
select_head_tail fs byte_budget =
    let head_budget = byte_budget / 2 in
    if leb (bytes_held fs) byte_budget
    then (fs, [])
    else (take_head fs head_budget, take_tail fs (saturating_sub byte_budget head_budget))
