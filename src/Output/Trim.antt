-- ===== src/Output/Trim.antt =====
-- The loop of `trim_tail` of output.rs: it ends by its test, and drops the oldest bytes only.
use misy.Common.{
  min, ℕ, zero, suc, ◌+◌, ◌-◌, ◌≤◌, ◌<◌, ◌≡◌, refl, Bool, true, false, ◌⊎◌, inl, inr, List, [], ◌∷◌,
  ◌++◌, append_assoc, arith, length, drop, length-drop, take, take-append-drop, Bool-cases, u64_max,
  max, ◌&&◌, leb, ltb,
}
use misy.Output.Capture.{
  CapturedFragment, half_budget, max_fragments_per_half, over_budget, trim_step, trim_loop,
  drain_front, cost,
}
use misy.Output.Log.{LoggedByte, bytes_log, flat, costs, Ends, bytes_log-drop}

abbrev pub Half : Type 0
Half = List CapturedFragment

trim_loop-stop :
    (fuel : ℕ) (tail : Half) (c : ℕ)
    → over_budget tail c ≡ false
    → trim_loop fuel tail c ≡ (tail, c)
unfolding trim_loop
trim_loop-stop zero tail c h = refl
trim_loop-stop (suc fuel) [] c h = refl
trim_loop-stop (suc fuel) (f ∷ fs) c h = rw (h, trim_loop)

-- A round on a tail over its budget drops its first fragment or is the last.
trim_step-progress :
    (f : CapturedFragment) (fs : Half) (c : ℕ)
    → over_budget (f ∷ fs) c ≡ true
    → ((trim_step (f ∷ fs) c).0 ≡ fs)
      ⊎ (over_budget (trim_step (f ∷ fs) c).0 (trim_step (f ∷ fs) c).1 ≡ false)
unfolding trim_step over_budget
trim_step-progress f fs c h = ground arith

-- The loop ends by its own test, or with nothing left, whatever the costs that it is given.
pub trim_loop-ends :
    (fuel : ℕ) (tail : Half) (c : ℕ)
    → length tail < fuel
    → ((trim_loop fuel tail c).0 ≡ [])
      ⊎ (over_budget (trim_loop fuel tail c).0 (trim_loop fuel tail c).1 ≡ false)
unfolding trim_loop
trim_loop-ends zero tail c h = absurd (omega arith)
trim_loop-ends (suc fuel) [] c h = inl refl
trim_loop-ends (suc fuel) (f ∷ fs) c h = elim (Bool-cases (over_budget (f ∷ fs) c)) [
  | inr stop ↦ rw (trim_loop-stop (suc fuel) (f ∷ fs) c stop) (inr stop)
  | inl over ↦
      rw (over, trim_loop)
        (elim (trim_step-progress f fs c over) [
          | inl popped ↦
              trim_loop-ends fuel (trim_step (f ∷ fs) c).0 (trim_step (f ∷ fs) c).1
                (rw popped (omega arith))
          | inr stop ↦
              rw (trim_loop-stop fuel (trim_step (f ∷ fs) c).0 (trim_step (f ∷ fs) c).1 stop)
                (inr stop)
        ])
]

trim_step-cheaper : (tail : Half) (c : ℕ) → (trim_step tail c).1 ≤ c
unfolding trim_step
trim_step-cheaper [] c = omega arith
trim_step-cheaper (f ∷ fs) c = ground arith

-- What one round of the loop keeps: the charge, the order, and all but a first part.
pub record Trims (n : ℕ) (tail : Half) (r : Half × ℕ) : Type 0 where
  pub dropped : List LoggedByte
  pub split : flat tail ≡ dropped ++ flat r.0
  pub charged : costs r.0 ≡ r.1
  pub ends : Ends n r.0
  pub shorter : length r.0 ≤ length tail

module _ (n : ℕ) (f : CapturedFragment) (fs : Half) (c : ℕ) where
  drained-Trims :
      (excess : ℕ)
      → n ≤ u64_max
      → Ends n (f ∷ fs)
      → costs (f ∷ fs) ≡ c
      → excess < length f.bytes
      → Trims n (f ∷ fs) (drain_front excess f ∷ fs, c - excess)
  drained-Trims excess small ends h room = record {
    dropped = take excess (bytes_log f.stream f.start f.bytes);
    split = split;
    charged = omega (arith, length-drop excess f.bytes);
    ends = (ground (arith, length-drop excess f.bytes), ends.1);
    shorter = omega arith;
  }
    where
      moved : min (f.start + min excess u64_max) u64_max ≡ f.start + excess
      moved = omega arith

      split :
          bytes_log f.stream f.start f.bytes ++ flat fs
          ≡ take excess (bytes_log f.stream f.start f.bytes)
            ++ (bytes_log f.stream
                  (min (f.start + min excess u64_max) u64_max)
                  (drop excess f.bytes)
                ++ flat fs)
      split =
          rw (moved, bytes_log-drop f.stream f.start excess f.bytes (omega arith))
            (rw (← append_assoc)
              (rw (take-append-drop excess (bytes_log f.stream f.start f.bytes))))

  popped-Trims :
      c ≤ u64_max → Ends n (f ∷ fs) → costs (f ∷ fs) ≡ c → Trims n (f ∷ fs) (fs, c - cost f)
  unfolding cost
  popped-Trims fits ends h = record {
    dropped = bytes_log f.stream f.start f.bytes;
    split = refl;
    charged = omega arith;
    ends = ends.1;
    shorter = omega arith;
  }

trim_step-Trims :
    (n : ℕ) (tail : Half) (c : ℕ)
    → n ≤ u64_max
    → c ≤ u64_max
    → Ends n tail
    → costs tail ≡ c
    → Trims n tail (trim_step tail c)
unfolding trim_step
trim_step-Trims n [] c small fits ends h = record {
  dropped = [];
  split = refl;
  charged = h;
  ends = tt;
  shorter = omega arith;
}
trim_step-Trims n (f ∷ fs) c small fits ends h = elim (Bool-cases keep) [
  | inl k ↦
      rw (k, trim_step)
        (drained-Trims n f fs c (max (c - half_budget) 1) small ends h (ground (arith, k)))
  | inr k ↦ rw (k, trim_step) (popped-Trims n f fs c fits ends h)
]
  where
    keep : Bool
    keep =
        leb (length (f ∷ fs)) max_fragments_per_half
        && ltb (max (c - half_budget) 1) (length f.bytes)

Trims-trans :
    {n : ℕ} {tail : Half} {r q : Half × ℕ} → Trims n tail r → Trims n r.0 q → Trims n tail q
Trims-trans a b = record {
  dropped = a.dropped ++ b.dropped;
  split = rw (a.split, b.split) (simp append_assoc);
  charged = b.charged;
  ends = b.ends;
  shorter = omega (arith, a.shorter, b.shorter);
}

pub trim_loop-Trims :
    (fuel n : ℕ) (tail : Half) (c : ℕ)
    → n ≤ u64_max
    → c ≤ u64_max
    → Ends n tail
    → costs tail ≡ c
    → Trims n tail (trim_loop fuel tail c)
unfolding trim_loop
trim_loop-Trims zero n tail c small fits ends h = record {
  dropped = [];
  split = refl;
  charged = h;
  ends = ends;
  shorter = omega arith;
}
trim_loop-Trims (suc fuel) n [] c small fits ends h = record {
  dropped = [];
  split = refl;
  charged = h;
  ends = ends;
  shorter = omega arith;
}
trim_loop-Trims (suc fuel) n (f ∷ fs) c small fits ends h =
    elim (Bool-cases (over_budget (f ∷ fs) c)) [
      | inr stop ↦
          rw (stop, trim_loop)
            (record { dropped = []; split = refl; charged = h; ends = ends; shorter = omega arith })
      | inl over ↦
          let one = trim_step-Trims n (f ∷ fs) c small fits ends h in
          rw (over, trim_loop)
            (Trims-trans one (
              trim_loop-Trims fuel n (trim_step (f ∷ fs) c).0 (trim_step (f ∷ fs) c).1 small
                (omega (arith, trim_step-cheaper (f ∷ fs) c)) one.ends one.charged))
    ]
