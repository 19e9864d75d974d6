-- ===== src/Output/HeadStep.antt =====
-- `append_head` of output.rs: the head takes the first bytes while it has room.
use misy.Common.{
  ℕ, ◌+◌, ◌≤◌, ◌<◌, ◌≡◌, refl, Bool, true, false, ◌⊎◌, inl, inr, List, ◌++◌, append-nil, arith,
  length, take, length-take, Bool-cases, u64_max, ◌==◌, if◌then◌else◌,
}
use misy.Output.Capture.{
  ActivityOutputStream, OrderedOutput, half_budget, max_fragments_per_half, continues, head_room,
  append_head,
}
use misy.Output.Log.{bytes_log, flat, costs, Ends, Ends-mono}
use misy.Output.Grow.{flat-grow, costs-grow, Ends-grow, length-grow}

-- What `append_head` does, with the number of bytes that it keeps.
pub record HeadStep (o : OrderedOutput) (s : ActivityOutputStream) (start : ℕ) (bytes : List ℕ)
    (r : OrderedOutput × ℕ) : Type 0 where
  pub kept_le : r.1 ≤ length bytes
  pub holds : flat r.0.head ≡ flat o.head ++ bytes_log s start (take r.1 bytes)
  pub charged : costs r.0.head ≡ r.0.head_cost
  pub within : r.0.head_cost ≤ half_budget
  pub fragments : length r.0.head ≤ max_fragments_per_half
  pub ends : Ends (start + r.1) r.0.head
  pub exhausted :
      r.1 < length bytes
      → (max_fragments_per_half ≤ length r.0.head) ⊎ (half_budget ≤ r.0.head_cost + 32)
  pub idle : r.1 ≡ 0 → (r.0.head ≡ o.head) × (r.0.head_cost ≡ o.head_cost)
  pub same_tail : r.0.tail ≡ o.tail
  pub same_tail_cost : r.0.tail_cost ≡ o.tail_cost
  pub same_total : r.0.total ≡ o.total

module _ (same : Bool) (fragments spent n : ℕ) where
  abbrev overhead : ℕ
  overhead = if same then 0 else 32

  head_room-le : head_room same fragments spent n ≤ n
  unfolding head_room
  head_room-le = ground arith

  head_room_fits :
      0 < head_room same fragments spent n
      → fragments ≤ max_fragments_per_half
      → (spent + overhead + head_room same fragments spent n ≤ half_budget)
        × (fragments + (if same then 0 else 1) ≤ max_fragments_per_half)
  unfolding head_room
  head_room_fits h m = ground arith

  head_room_exhausted :
      head_room same fragments spent n < n
      → spent ≤ half_budget
      → ((max_fragments_per_half ≤ fragments) × (head_room same fragments spent n ≡ 0))
        ⊎ (half_budget ≤ spent + overhead + head_room same fragments spent n)
  unfolding head_room
  head_room_exhausted h m = ground arith

module _ (o : OrderedOutput) (s : ActivityOutputStream) (start : ℕ) (bytes : List ℕ) where
  pub append_head-HeadStep :
      start + length bytes ≤ u64_max
      → costs o.head ≡ o.head_cost
      → o.head_cost ≤ half_budget
      → length o.head ≤ max_fragments_per_half
      → Ends start o.head
      → HeadStep o s start bytes (append_head o s start bytes)
  unfolding append_head
  append_head-HeadStep small charged within fragments ends = elim (Bool-cases (kept == 0)) [
    | inl e ↦
        rw (e, append_head)
          (record {
            kept_le = omega arith;
            holds = simp append-nil;
            charged = charged;
            within = within;
            fragments = fragments;
            ends = Ends-mono o.head (omega arith) ends;
            exhausted = λ h. ground (arith, exhausts e h);
            idle = λ _. (refl, refl);
            same_tail = refl;
            same_tail_cost = refl;
            same_total = refl;
          })
    | inr e ↦
        let fit = fits e in
        rw (e, append_head)
          (record {
            kept_le = kept_le;
            holds = flat-grow s start kept_bytes start o.head (omega arith) ends;
            charged = ground (arith, costs-grow s start kept_bytes o.head, length_kept);
            within = ground (arith);
            fragments = omega (arith, length-grow s start kept_bytes same o.head);
            ends =
                Ends-grow s start kept_bytes (start + kept) o.head (omega (arith, kept_le))
                  (omega (arith, length_kept)) (Ends-mono o.head (omega arith) ends);
            idle = λ h. absurd (ground arith);
            exhausted = λ h. ground (
              arith,
              head_room_exhausted same (length o.head) o.head_cost (length bytes) h within,
              length-grow s start kept_bytes same o.head,
            );
            same_tail = refl;
            same_tail_cost = refl;
            same_total = refl;
          })
  ]
    where
      same : Bool
      same = continues o.head s start

      kept : ℕ
      kept = head_room same (length o.head) o.head_cost (length bytes)

      kept_bytes : List ℕ
      kept_bytes = take kept bytes

      kept_le : kept ≤ length bytes
      kept_le = head_room-le same (length o.head) o.head_cost (length bytes)

      length_kept : length kept_bytes ≡ kept
      length_kept = omega (arith, length-take kept bytes, kept_le)

      fits :
          (kept == 0) ≡ false
          → (o.head_cost + overhead same (length o.head) o.head_cost (length bytes) + kept
              ≤ half_budget)
            × (length o.head + (if same then 0 else 1) ≤ max_fragments_per_half)
      fits e =
          head_room_fits same (length o.head) o.head_cost (length bytes) (ground arith) fragments

      exhausts :
          (kept == 0) ≡ true
          → 0 < length bytes
          → (max_fragments_per_half ≤ length o.head) ⊎ (half_budget ≤ o.head_cost + 32)
      exhausts e h = ground (
        arith,
        head_room_exhausted same (length o.head) o.head_cost (length bytes) (ground arith) within,
      )
