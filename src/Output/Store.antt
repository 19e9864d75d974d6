-- ===== src/Output/Store.antt =====
-- `append_head` and then `append_tail`, on a chunk that the counters already count.
use misy.Common.{
  drop_all, ltb, ltb→lt, ltb→le, ap, sym, ◌∙◌, ℕ, ◌+◌, ◌≤◌, ◌<◌, ◌≡◌, ◌⊎◌, inl, inr, List, [], ◌++◌,
  append_assoc, append-nil, arith, length, drop, take, length-drop, length-take, take-append-drop,
  Bool-cases, slice_max, saturate, saturating_add,
}
use misy.Output.Capture.{
  ActivityOutputStream, CapturedFragment, OrderedOutput, half_budget, max_fragments_per_half,
  head_room, append_head, store,
}
use misy.Output.Log.{LoggedByte, bytes_log, flat, Ends, Ends-mono, bytes_log-append}
use misy.Output.Grow.{continues-past}
use misy.Output.Invariant.{WellFormed, IsFull, Retains}
use misy.Output.HeadStep.{HeadStep, append_head-HeadStep}
use misy.Output.TailStep.{TailStep, append_tail-TailStep}

interleave :
    (h g t a b d t' : List LoggedByte)
    → t ++ b ≡ d ++ t'
    → (g ++ t ≡ []) ⊎ (a ≡ [])
    → (h ++ (g ++ t)) ++ (a ++ b) ≡ (h ++ a) ++ ((g ++ d) ++ t')
interleave h g t a b d t' e c = rw (append_assoc g d t', ← e, ← append_assoc g t b) (go c)
  where
    go : (g ++ t ≡ []) ⊎ (a ≡ []) → (h ++ (g ++ t)) ++ (a ++ b) ≡ (h ++ a) ++ ((g ++ t) ++ b)
    go (inl n) = rw n (simp (append-nil, append_assoc))
    go (inr n) = rw n (simp (append-nil, append_assoc))

-- A head that takes nothing more from a position on.
pub record FullBefore (head : List CapturedFragment) (head_cost start : ℕ) : Type 0 where
  pub bound : ℕ
  pub before : bound < start
  pub head_bound : Ends bound head
  pub no_room : (max_fragments_per_half ≤ length head) ⊎ (half_budget ≤ head_cost + 32)

-- `store`, at the position where the bytes begin and below a total that counts them.
module _ (o : OrderedOutput) (s : ActivityOutputStream) (start : ℕ) (bytes : List ℕ)
    (w : WellFormed o) (head_below : Ends start o.head) (total : start + length bytes ≡ o.total)
    (chunk : length bytes ≤ slice_max) where
  in_head : HeadStep o s start bytes (append_head o s start bytes)
  in_head =
      append_head-HeadStep o s start bytes (omega (arith, w.counted)) w.head_charged w.head_within
        w.head_fragments head_below

  abbrev after_head : OrderedOutput
  after_head = (append_head o s start bytes).0

  abbrev kept_count : ℕ
  kept_count = (append_head o s start bytes).1

  after_head-WellFormed : WellFormed after_head
  after_head-WellFormed = record {
    head_charged = in_head.charged;
    head_within = in_head.within;
    head_fragments = in_head.fragments;
    head_ends = rw in_head.same_total (Ends-mono _ (omega (arith, in_head.kept_le)) in_head.ends);
    tail_charged = rw (in_head.same_tail, in_head.same_tail_cost) w.tail_charged;
    tail_within = rw in_head.same_tail_cost w.tail_within;
    tail_fragments = rw in_head.same_tail w.tail_fragments;
    tail_ends = rw (in_head.same_tail, in_head.same_total) w.tail_ends;
    counted = rw in_head.same_total w.counted;
  }

  in_tail :
      TailStep after_head s (start + kept_count) (drop kept_count bytes) (store o s start bytes)
  unfolding store
  in_tail = rw at_start (
      append_tail-TailStep after_head s (start + kept_count) (drop kept_count bytes)
        after_head-WellFormed
        (omega (arith, length-drop kept_count bytes, in_head.kept_le, in_head.same_total))
        (omega (arith, length-drop kept_count bytes)))
    where
      at_start : saturating_add start (saturate kept_count) ≡ start + kept_count
      at_start = omega (arith, in_head.kept_le, w.counted)

  pub total-store : (store o s start bytes).total ≡ o.total
  total-store = in_tail.same_total ∙ in_head.same_total

  pub store-WellFormed : WellFormed (store o s start bytes)
  store-WellFormed = record {
    head_charged =
        rw (in_tail.same_head, in_tail.same_head_cost) after_head-WellFormed.head_charged;
    head_within = rw in_tail.same_head_cost after_head-WellFormed.head_within;
    head_fragments = rw in_tail.same_head after_head-WellFormed.head_fragments;
    head_ends = rw (in_tail.same_head, in_tail.same_total) after_head-WellFormed.head_ends;
    tail_charged = in_tail.charged;
    tail_within = in_tail.within;
    tail_fragments = in_tail.fragments;
    tail_ends = rw in_tail.same_total in_tail.ends;
    counted = rw in_tail.same_total after_head-WellFormed.counted;
  }

  full-kept : FullBefore o.head o.head_cost start → kept_count ≡ 0
  unfolding append_head head_room
  full-kept f = ground (
    arith,
    continues-past s start f.bound o.head f.before (omega (arith, w.counted)) f.head_bound,
  )

  split_bytes :
      bytes_log s start bytes
      ≡ bytes_log s start (take kept_count bytes)
        ++ bytes_log s (start + kept_count) (drop kept_count bytes)
  split_bytes =
      ap (bytes_log s start) (sym (take-append-drop kept_count bytes))
      ∙ bytes_log-append s start (take kept_count bytes) (drop kept_count bytes)
      ∙ ap
          (λ k.
            bytes_log s start (take kept_count bytes)
            ++ bytes_log s (start + k) (drop kept_count bytes))
          (omega (arith, length-take kept_count bytes, in_head.kept_le))

  regroup :
      (log gone : List LoggedByte)
      → log ≡ flat o.head ++ (gone ++ flat o.tail)
      → (gone ++ flat o.tail ≡ []) ⊎ (kept_count ≡ 0)
      → log ++ bytes_log s start bytes
        ≡ flat (store o s start bytes).head
          ++ ((gone ++ in_tail.dropped) ++ flat (store o s start bytes).tail)
  regroup log gone split e =
      rw (split, split_bytes, in_tail.same_head, in_head.holds)
        (interleave (flat o.head) gone (flat o.tail) _ _ in_tail.dropped _
          (rw in_head.same_tail at in_tail.split) (none_between e))
    where
      none_between :
          (gone ++ flat o.tail ≡ []) ⊎ (kept_count ≡ 0)
          → (gone ++ flat o.tail ≡ []) ⊎ (bytes_log s start (take kept_count bytes) ≡ [])
      none_between (inl e) = inl e
      none_between (inr e) = inr (rw e)

  store-IsFull :
      FullBefore o.head o.head_cost start → 0 < length bytes → IsFull (store o s start bytes)
  store-IsFull f some = record {
    bound = f.bound;
    before = omega (arith, f.before, in_tail.same_total, in_head.same_total);
    head_bound = rw (in_tail.same_head, (in_head.idle (full-kept f)).0) f.head_bound;
    no_room =
        rw
          (
            in_tail.same_head,
            in_tail.same_head_cost,
            (in_head.idle (full-kept f)).0,
            (in_head.idle (full-kept f)).1,
          )
          f.no_room;
  }

  store-IsFull_cut : kept_count < length bytes → IsFull (store o s start bytes)
  store-IsFull_cut h = record {
    bound = start + kept_count;
    before = omega (arith, in_tail.same_total, in_head.same_total);
    head_bound = rw in_tail.same_head in_head.ends;
    no_room = rw (in_tail.same_head, in_tail.same_head_cost) (in_head.exhausted h);
  }

  still_open :
      (gone : List LoggedByte)
      → gone ++ flat o.tail ≡ []
      → length bytes ≤ kept_count
      → (gone ++ in_tail.dropped) ++ flat (store o s start bytes).tail ≡ []
  still_open gone e h =
      append_assoc gone in_tail.dropped _
      ∙ ap (◌++◌ gone) (sym in_tail.split)
      ∙ rw (in_head.same_tail, drop_all kept_count bytes h) (rw append-nil e)

  pub store-Retains :
      {log : List LoggedByte} (gone : List LoggedByte)
      → log ≡ flat o.head ++ (gone ++ flat o.tail)
      → (gone ++ flat o.tail ≡ []) ⊎ FullBefore o.head o.head_cost start
      → 0 < length bytes
      → Retains (log ++ bytes_log s start bytes) (store o s start bytes)
  store-Retains gone split (inl e) some = record {
    dropped = gone ++ in_tail.dropped;
    split = regroup _ gone split (inl e);
    open_or_full = elim (Bool-cases (ltb kept_count (length bytes))) [
      | inl h ↦ inr (store-IsFull_cut (ltb→lt _ _ h))
      | inr h ↦ inl (still_open gone e (ltb→le _ _ h))
    ];
  }
  store-Retains gone split (inr f) some = record {
    dropped = gone ++ in_tail.dropped;
    split = regroup _ gone split (inr (full-kept f));
    open_or_full = inr (store-IsFull f some);
  }
