-- ===== src/Output/Grow.antt =====
-- A half of the store that takes more bytes: `append_head` and `append_tail` of output.rs.
use misy.Common.{
  ◌<◌, Bool, false, if◌then◌else◌, inl, inr, Bool-cases, ℕ, ◌+◌, ◌≤◌, ◌≡◌, refl, true, List, [],
  ◌∷◌, ◌++◌, append_assoc, append-nil, arith, length, length-append, modify_back, u64_max,
}
use misy.Output.Capture.{
  grow, ActivityOutputStream, stdout, stderr, system, CapturedFragment, continues, same_stream,
  extend_bytes,
}
use misy.Output.Log.{flat-append, costs-append, bytes_log, flat, costs, Ends, bytes_log-append}

pub same_stream-eq : (s t : ActivityOutputStream) → same_stream s t ≡ true → s ≡ t
unfolding same_stream
same_stream-eq stdout stdout h = refl
same_stream-eq stderr stderr h = refl
same_stream-eq system system h = refl
same_stream-eq s t h = cc

module _ (s : ActivityOutputStream) (start : ℕ) (bytes : List ℕ) where
  flat-modify_back :
      (n : ℕ) (half : List CapturedFragment)
      → n ≤ u64_max
      → Ends n half
      → continues half s start ≡ true
      → flat (modify_back (extend_bytes bytes) half) ≡ flat half ++ bytes_log s start bytes
  unfolding continues
  flat-modify_back n [] small ends h = cc
  flat-modify_back n (f ∷ []) small ends h = ground (
    arith,
    same_stream-eq f.stream s,
    bytes_log-append f.stream f.start f.bytes bytes,
    append-nil (bytes_log f.stream f.start (f.bytes ++ bytes)),
    append-nil (bytes_log f.stream f.start f.bytes),
  )
  flat-modify_back n (f ∷ g ∷ r) small ends h =
      rw (flat-modify_back n (g ∷ r) small ends.1 h) (simp append_assoc)

  costs-modify_back :
      (half : List CapturedFragment)
      → continues half s start ≡ true
      → costs (modify_back (extend_bytes bytes) half) ≡ costs half + length bytes
  unfolding continues
  costs-modify_back [] h = cc
  costs-modify_back (f ∷ []) h = omega (arith, length-append f.bytes bytes)
  costs-modify_back (f ∷ g ∷ r) h = omega (arith, costs-modify_back (g ∷ r) h)

  Ends-modify_back :
      (n : ℕ) (half : List CapturedFragment)
      → n ≤ u64_max
      → start + length bytes ≤ n
      → Ends n half
      → continues half s start ≡ true
      → Ends n (modify_back (extend_bytes bytes) half)
  unfolding continues
  Ends-modify_back n [] small fits ends h = tt
  Ends-modify_back n (f ∷ []) small fits ends h = ground (arith, length-append f.bytes bytes)
  Ends-modify_back n (f ∷ g ∷ r) small fits ends h =
      (ends.0, Ends-modify_back n (g ∷ r) small fits ends.1 h)

  Ends-snoc :
      (n : ℕ) (half : List CapturedFragment)
      → start + length bytes ≤ n
      → Ends n half
      → Ends n (grow false half s start bytes)
  unfolding grow
  Ends-snoc n [] fits ends = (fits, tt)
  Ends-snoc n (f ∷ fs) fits ends = (ends.0, Ends-snoc n fs fits ends.1)

  pub length-grow :
      (c : Bool) (half : List CapturedFragment)
      → length (grow c half s start bytes) ≡ length half + (if c then 0 else 1)
  unfolding grow
  length-grow true [] = omega arith
  length-grow true (f ∷ []) = omega arith
  length-grow true (f ∷ g ∷ r) = omega (arith, length-grow true (g ∷ r))
  length-grow false half =
      omega (arith, length-append half (record { stream = s; start = start; bytes = bytes } ∷ []))

  -- New bytes that continue the store follow what it holds.
  pub flat-grow :
      (n : ℕ) (half : List CapturedFragment)
      → n ≤ u64_max
      → Ends n half
      → flat (grow (continues half s start) half s start bytes)
        ≡ flat half ++ bytes_log s start bytes
  flat-grow n half small ends = elim (Bool-cases (continues half s start)) [
    | inl c ↦ rw c (unfold grow in flat-modify_back n half small ends c)
    | inr c ↦ rw c (unfold grow in rw flat-append (simp append-nil))
  ]

  pub costs-grow :
      (half : List CapturedFragment)
      → costs (grow (continues half s start) half s start bytes)
        ≡ costs half + (if continues half s start then 0 else 32) + length bytes
  costs-grow half = elim (Bool-cases (continues half s start)) [
    | inl c ↦ rw c (unfold grow in omega (arith, costs-modify_back half c))
    | inr c ↦ rw c (unfold grow in rw costs-append (omega arith))
  ]

  pub Ends-grow :
      (n : ℕ) (half : List CapturedFragment)
      → n ≤ u64_max
      → start + length bytes ≤ n
      → Ends n half
      → Ends n (grow (continues half s start) half s start bytes)
  Ends-grow n half small fits ends = elim (Bool-cases (continues half s start)) [
    | inl c ↦ rw c (unfold grow in Ends-modify_back n half small fits ends c)
    | inr c ↦ rw c (Ends-snoc n half fits ends)
  ]

-- Nothing continues a half that ends before the position.
pub continues-past :
    (s : ActivityOutputStream) (start n : ℕ) (half : List CapturedFragment)
    → n < start
    → start ≤ u64_max
    → Ends n half
    → continues half s start ≡ false
unfolding continues
continues-past s start n [] lt small ends = refl
continues-past s start n (f ∷ []) lt small ends = ground arith
continues-past s start n (f ∷ g ∷ r) lt small ends =
    continues-past s start n (g ∷ r) lt small ends.1
