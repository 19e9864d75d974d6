-- ===== src/Output/Retention.antt =====
-- What `append` of output.rs keeps: the first bytes and the last bytes of the history, within
-- the budget of each half.
use misy.Common.{
  sym, ◌∙◌, ℕ, ◌+◌, ◌≤◌, ◌≡◌, refl, ◌⊎◌, inl, inr, List, [], ◌∷◌, ◌++◌, append_assoc, append-nil,
  arith, length, u64_max, slice_max,
}
use misy.Output.Capture.{
  ActivityOutputStream, stdout, stderr, system, OrderedOutput, append, count_bytes, empty_output,
}
use misy.Output.Log.{LoggedByte, flat, Ends-mono}
use misy.Output.Invariant.{WellFormed, IsFull, Retains, written, Fits}
use misy.Output.Store.{total-store, FullBefore, store-WellFormed, store-Retains}

total-count_bytes :
    (o : OrderedOutput) (s : ActivityOutputStream) (n : ℕ)
    → o.total + n ≤ u64_max
    → o.total + n ≡ (count_bytes o s n).total
unfolding count_bytes
total-count_bytes o stdout n h = omega arith
total-count_bytes o stderr n h = omega arith
total-count_bytes o system n h = omega arith

WellFormed-total :
    (o : OrderedOutput) (t a b : ℕ)
    → o.total ≤ t
    → t ≤ u64_max
    → WellFormed o
    → WellFormed (record o { total = t; stdout_total = a; stderr_total = b })
WellFormed-total o t a b grows small w = record {
  head_charged = w.head_charged;
  head_within = w.head_within;
  head_fragments = w.head_fragments;
  head_ends = Ends-mono o.head grows w.head_ends;
  tail_charged = w.tail_charged;
  tail_within = w.tail_within;
  tail_fragments = w.tail_fragments;
  tail_ends = Ends-mono o.tail grows w.tail_ends;
  counted = small;
}

count_bytes-WellFormed :
    (o : OrderedOutput) (s : ActivityOutputStream) (n : ℕ)
    → o.total + n ≤ u64_max
    → WellFormed o
    → WellFormed (count_bytes o s n)
unfolding count_bytes
count_bytes-WellFormed o stdout n h w =
    WellFormed-total o _ _ o.stderr_total (omega arith) (omega arith) w
count_bytes-WellFormed o stderr n h w =
    WellFormed-total o _ o.stdout_total _ (omega arith) (omega arith) w
count_bytes-WellFormed o system n h w =
    WellFormed-total o _ o.stdout_total o.stderr_total (omega arith) (omega arith) w

pub append-WellFormed :
    (o : OrderedOutput) (s : ActivityOutputStream) (bytes : List ℕ)
    → Fits o bytes
    → WellFormed o
    → WellFormed (append o s bytes)
unfolding append count_bytes
append-WellFormed o s [] f w = w
append-WellFormed o system (b ∷ bs) f w = count_bytes-WellFormed o system _ f.room w
append-WellFormed o s (b ∷ bs) f w =
    store-WellFormed (count_bytes o s (length (b ∷ bs))) s o.total (b ∷ bs)
      (count_bytes-WellFormed o s _ f.room w) w.head_ends (total-count_bytes o s _ f.room) f.slice

full_before :
    (o : OrderedOutput) (gone : List LoggedByte)
    → (gone ++ flat o.tail ≡ []) ⊎ IsFull o
    → (gone ++ flat o.tail ≡ []) ⊎ FullBefore o.head o.head_cost o.total
full_before o gone (inl e) = inl e
full_before o gone (inr f) =
    inr (record {
      bound = f.bound;
      before = f.before;
      head_bound = f.head_bound;
      no_room = f.no_room;
    })

system-Retains :
    {log : List LoggedByte} (o : OrderedOutput) (t : ℕ)
    → o.total ≤ t
    → Retains log o
    → Retains log (record o { total = t })
system-Retains o t grows r = record {
  dropped = r.dropped;
  split = r.split;
  open_or_full = elim r.open_or_full [
    | inl e ↦ inl e
    | inr f ↦ inr (record {
      bound = f.bound;
      before = omega (arith, f.before);
      head_bound = f.head_bound;
      no_room = f.no_room;
    })
  ];
}

-- Whatever is appended, the store holds the first and the last bytes of the history.
pub append-Retains :
    {log : List LoggedByte} (o : OrderedOutput) (s : ActivityOutputStream) (bytes : List ℕ)
    → Fits o bytes
    → WellFormed o
    → Retains log o
    → Retains (log ++ written s o.total bytes) (append o s bytes)
unfolding append count_bytes
append-Retains o stdout [] f w r = rw append-nil r
append-Retains o stderr [] f w r = rw append-nil r
append-Retains o system [] f w r = rw append-nil r
append-Retains o system (b ∷ bs) f w r =
    rw append-nil (system-Retains o _ (omega (arith, w.counted)) r)
append-Retains o s (b ∷ bs) f w r =
    store-Retains (count_bytes o s (length (b ∷ bs))) s o.total (b ∷ bs)
      (count_bytes-WellFormed o s _ f.room w) w.head_ends (total-count_bytes o s _ f.room) f.slice
      r.dropped r.split (full_before o r.dropped r.open_or_full) (omega arith)

total-append :
    (o : OrderedOutput) (s : ActivityOutputStream) (bytes : List ℕ)
    → Fits o bytes
    → WellFormed o
    → (append o s bytes).total ≡ o.total + length bytes
unfolding append count_bytes
total-append o stdout [] f w = omega arith
total-append o stderr [] f w = omega arith
total-append o system [] f w = omega arith
total-append o system (b ∷ bs) f w = omega (arith, f.room)
total-append o s (b ∷ bs) f w =
    total-store (count_bytes o s (length (b ∷ bs))) s o.total (b ∷ bs)
      (count_bytes-WellFormed o s _ f.room w) w.head_ends (total-count_bytes o s _ f.room) f.slice
    ∙ sym (total-count_bytes o s _ f.room)

abbrev pub Chunk : Type 0
Chunk = ActivityOutputStream × List ℕ

-- The chunks that the readers of a command hand over, in the order of their locks.
unfoldable pub append_all : OrderedOutput → List Chunk → OrderedOutput
append_all o [] = o
append_all o ((s, bytes) ∷ cs) = append_all (append o s bytes) cs

abbrev pub volume : List Chunk → ℕ
volume [] = 0
volume ((s, bytes) ∷ cs) = length bytes + volume cs

abbrev pub history : ℕ → List Chunk → List LoggedByte
history p [] = []
history p ((s, bytes) ∷ cs) = written s p bytes ++ history (p + length bytes) cs

Fits-first :
    (o : OrderedOutput) (bytes : List ℕ) (rest : ℕ)
    → o.total + (length bytes + rest) ≤ slice_max
    → Fits o bytes
Fits-first o bytes rest h = record { slice = omega arith; room = omega arith }

append_all-WellFormed_from :
    (o : OrderedOutput) (cs : List Chunk)
    → o.total + volume cs ≤ slice_max
    → WellFormed o
    → WellFormed (append_all o cs)
unfolding append_all
append_all-WellFormed_from o [] h w = w
append_all-WellFormed_from o ((s, bytes) ∷ cs) h w =
    let fit = Fits-first o bytes (volume cs) h in
    append_all-WellFormed_from (append o s bytes) cs (omega (arith, total-append o s bytes fit w))
      (append-WellFormed o s bytes fit w)

append_all-Retains_from :
    {log : List LoggedByte} (o : OrderedOutput) (cs : List Chunk)
    → o.total + volume cs ≤ slice_max
    → WellFormed o
    → Retains log o
    → Retains (log ++ history o.total cs) (append_all o cs)
unfolding append_all
append_all-Retains_from o [] h w r = rw append-nil r
append_all-Retains_from o ((s, bytes) ∷ cs) h w r =
    let fit = Fits-first o bytes (volume cs) h in
    rw (← append_assoc, ← total-append o s bytes fit w)
      (append_all-Retains_from (append o s bytes) cs (omega (arith, total-append o s bytes fit w))
        (append-WellFormed o s bytes fit w) (append-Retains o s bytes fit w r))

empty_output-WellFormed : WellFormed empty_output
empty_output-WellFormed = record {
  head_charged = refl;
  head_within = omega arith;
  head_fragments = omega arith;
  head_ends = tt;
  tail_charged = refl;
  tail_within = omega arith;
  tail_fragments = omega arith;
  tail_ends = tt;
  counted = omega arith;
}

-- Whatever a command writes, up to the size of a slice in all, each half of the capture stays
-- within its half of the budget, overheads included, and within its number of fragments.
pub append_all-WellFormed :
    (cs : List Chunk) → volume cs ≤ slice_max → WellFormed (append_all empty_output cs)
append_all-WellFormed cs h =
    append_all-WellFormed_from empty_output cs (omega arith) empty_output-WellFormed

-- The capture of a command that writes up to the size of a slice in all holds a first part and a
-- last part of what stdout and stderr wrote, byte for byte, each with its position and stream, in
-- the order of capture. If anything lies past the head, the head has no room left.
pub append_all-Retains :
    (cs : List Chunk) → volume cs ≤ slice_max → Retains (history 0 cs) (append_all empty_output cs)
append_all-Retains cs h =
    append_all-Retains_from empty_output cs (omega arith) empty_output-WellFormed
      (record { dropped = []; split = refl; open_or_full = inl refl })
