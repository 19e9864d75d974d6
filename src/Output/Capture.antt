-- ===== src/Output/Capture.antt =====
-- crates/misy-core/src/tools/activity/output.rs: `OrderedOutput`, `append` and the two halves of
-- the store. A deque is a list with its front first, and a byte is a number.
use misy.Common.{
  ℕ, zero, suc, ◌+◌, min, max, Bool, true, false, not, ◌&&◌, ◌||◌, none, some, List, [], ◌∷◌, ◌++◌,
  length, take, drop, back, modify_back, ltb, leb, ◌==◌, if◌then◌else◌, saturating_add,
  saturating_sub, saturate,
}

abbrev pub output_max_bytes : ℕ
output_max_bytes = 1048576

abbrev pub half_budget : ℕ
half_budget = 524288

abbrev pub fragment_overhead : ℕ
fragment_overhead = 32

abbrev pub max_fragments_per_half : ℕ
max_fragments_per_half = 2048

pub data ActivityOutputStream : Type 0 where
  stdout stderr system : ActivityOutputStream

unfoldable pub same_stream : ActivityOutputStream → ActivityOutputStream → Bool
same_stream stdout stdout = true
same_stream stderr stderr = true
same_stream system system = true
same_stream _ _ = false

pub record CapturedFragment : Type 0 where
  pub stream : ActivityOutputStream
  pub start : ℕ
  pub bytes : List ℕ

-- One past the last position of the fragment.
unfoldable pub fragment_end : CapturedFragment → ℕ
fragment_end f = saturating_add f.start (saturate (length f.bytes))

unfoldable pub cost : CapturedFragment → ℕ
cost f = saturating_add (length f.bytes) fragment_overhead

pub record OrderedOutput : Type 0 where
  pub head : List CapturedFragment
  pub tail : List CapturedFragment
  pub head_cost : ℕ
  pub tail_cost : ℕ
  pub total : ℕ
  pub stdout_total : ℕ
  pub stderr_total : ℕ
  pub stdout_incomplete : Bool
  pub stderr_incomplete : Bool

abbrev pub empty_output : OrderedOutput
empty_output = record {
  head = [];
  tail = [];
  head_cost = 0;
  tail_cost = 0;
  total = 0;
  stdout_total = 0;
  stderr_total = 0;
  stdout_incomplete = false;
  stderr_incomplete = false;
}

-- Whether the last fragment of a half can take more bytes of the stream at `start`.
unfoldable pub continues : List CapturedFragment → ActivityOutputStream → ℕ → Bool
unfolding same_stream fragment_end
continues half stream start = elim (back half) [
  | none ↦ false
  | some f ↦ same_stream f.stream stream && fragment_end f == start
]

abbrev pub extend_bytes : List ℕ → CapturedFragment → CapturedFragment
extend_bytes more f = record f { bytes = f.bytes ++ more }

-- The bytes that go into a half: onto its last fragment, or as a new one.
unfoldable pub grow :
    Bool → List CapturedFragment → ActivityOutputStream → ℕ → List ℕ → List CapturedFragment
grow true half stream start bytes = modify_back (extend_bytes bytes) half
grow false half stream start bytes =
    half ++ record { stream = stream; start = start; bytes = bytes } ∷ []

-- How many of `n` bytes the head takes, given whether they continue its last fragment.
unfoldable pub head_room : Bool → ℕ → ℕ → ℕ → ℕ
head_room same fragments spent n =
    if not same && fragments == max_fragments_per_half
    then 0
    else min
        (saturating_sub (saturating_sub half_budget spent) (if same then 0 else fragment_overhead))
        n

-- `append_head`: the new state, and the number of bytes kept.
unfoldable pub append_head : OrderedOutput → ActivityOutputStream → ℕ → List ℕ → OrderedOutput × ℕ
unfolding continues grow head_room
append_head o stream start bytes =
    let same = continues o.head stream start in
    let kept = head_room same (length o.head) o.head_cost (length bytes) in
    if kept == 0 then (o, 0) else (
      record o {
        head = grow same o.head stream start (take kept bytes);
        head_cost =
            saturating_add (saturating_add o.head_cost (if same then 0 else fragment_overhead))
              kept;
      },
      kept,
    )

-- The test of the loop of `trim_tail`.
unfoldable pub over_budget : List CapturedFragment → ℕ → Bool
over_budget tail tail_cost = ltb half_budget tail_cost || ltb max_fragments_per_half (length tail)

-- Bytes off the front of a fragment.
abbrev pub drain_front : ℕ → CapturedFragment → CapturedFragment
drain_front n f = record f { start = saturating_add f.start (saturate n); bytes = drop n f.bytes }

-- One round of the loop of `trim_tail`, on a tail that is over its budget.
unfoldable pub trim_step : List CapturedFragment → ℕ → List CapturedFragment × ℕ
unfolding cost
trim_step [] tail_cost = ([], tail_cost)
trim_step (front ∷ rest) tail_cost =
    let excess = max (saturating_sub tail_cost half_budget) 1 in
    if leb (length (front ∷ rest)) max_fragments_per_half && ltb excess (length front.bytes)
    then (drain_front excess front ∷ rest, saturating_sub tail_cost excess)
    else (rest, saturating_sub tail_cost (cost front))

-- The loop of `trim_tail` on fuel. The loop returns at once on an empty tail.
unfoldable pub trim_loop : ℕ → List CapturedFragment → ℕ → List CapturedFragment × ℕ
unfolding over_budget trim_step
trim_loop zero tail tail_cost = (tail, tail_cost)
trim_loop (suc fuel) [] tail_cost = ([], tail_cost)
trim_loop (suc fuel) (front ∷ rest) tail_cost = elim (over_budget (front ∷ rest) tail_cost) [
  | true ↦
      trim_loop fuel (trim_step (front ∷ rest) tail_cost).0 (trim_step (front ∷ rest) tail_cost).1
  | false ↦ (front ∷ rest, tail_cost)
]

-- Each round but the last drops a fragment.
unfoldable pub trim_tail : OrderedOutput → OrderedOutput
unfolding trim_loop
trim_tail o =
    let trimmed = trim_loop (length o.tail + 2) o.tail o.tail_cost in
    record o { tail = trimmed.0; tail_cost = trimmed.1 }

unfoldable pub append_tail : OrderedOutput → ActivityOutputStream → ℕ → List ℕ → OrderedOutput
unfolding continues grow cost trim_tail
append_tail o stream start [] = o
append_tail o stream start (b ∷ bs) =
    let same = continues o.tail stream start in
    trim_tail (record o {
      tail = grow same o.tail stream start (b ∷ bs);
      tail_cost =
          if same
          then saturating_add o.tail_cost (length (b ∷ bs))
          else saturating_add o.tail_cost
              (cost (record { stream = stream; start = start; bytes = b ∷ bs }));
    })

-- The totals count every byte, kept or not; text of the system has a total only.
unfoldable pub count_bytes : OrderedOutput → ActivityOutputStream → ℕ → OrderedOutput
count_bytes o stdout n = record o {
  total = saturating_add o.total (saturate n);
  stdout_total = saturating_add o.stdout_total (saturate n);
}
count_bytes o stderr n = record o {
  total = saturating_add o.total (saturate n);
  stderr_total = saturating_add o.stderr_total (saturate n);
}
count_bytes o system n = record o { total = saturating_add o.total (saturate n) }

-- What the head does not take goes to the tail.
unfoldable pub store : OrderedOutput → ActivityOutputStream → ℕ → List ℕ → OrderedOutput
store o stream start bytes =
    let (o', head_kept) = append_head o stream start bytes in
    append_tail o' stream (saturating_add start (saturate head_kept)) (drop head_kept bytes)

unfoldable pub append : OrderedOutput → ActivityOutputStream → List ℕ → OrderedOutput
append o stream [] = o
append o system (b ∷ bs) = count_bytes o system (length (b ∷ bs))
append o stream (b ∷ bs) = store (count_bytes o stream (length (b ∷ bs))) stream o.total (b ∷ bs)

unfoldable pub mark_incomplete : OrderedOutput → ActivityOutputStream → OrderedOutput
mark_incomplete o stdout = record o { stdout_incomplete = true }
mark_incomplete o stderr = record o { stderr_incomplete = true }
mark_incomplete o system = o
