-- ===== src/Output/Delivery.antt =====
-- What the selections of output.rs show of the history that a capture holds.
use misy.Common.{
  take-min, ℕ, zero, suc, ◌+◌, ◌-◌, ◌≤◌, ◌≡◌, refl, min, Bool, none, some, List, [], ◌∷◌, arith,
  length, take, drop, leb, if◌then◌else◌, u64_max, retain, length-append, retain-append, drop_all,
  Bool-cases, inl, inr, take-append,
}
use misy.Output.Capture.{ActivityOutputStream, CapturedFragment}
use misy.Output.Log.{LoggedByte, bytes_log, flat, Ends, length-bytes_log}
use misy.Output.Select.{slice_after, slices_after, bytes_held, take_head}

abbrev pub is_after : ℕ → LoggedByte → Bool
is_after p e = leb p e.position

retain-bytes_log_all :
    (s : ActivityOutputStream) (p start : ℕ) (bs : List ℕ)
    → p ≤ start
    → retain (is_after p) (bytes_log s start bs) ≡ bytes_log s start bs
retain-bytes_log_all s p start [] h = refl
retain-bytes_log_all s p start (b ∷ bs) h = ground (arith, retain-bytes_log_all s p (suc start) bs)

-- The offset at which a fragment is cut.
abbrev offset : ℕ → ℕ → List ℕ → ℕ
offset p start bs = min (p - start) (length bs)

retain-bytes_log :
    (s : ActivityOutputStream) (p start : ℕ) (bs : List ℕ)
    → retain (is_after p) (bytes_log s start bs)
      ≡ bytes_log s (start + offset p start bs) (drop (offset p start bs) bs)
retain-bytes_log s p start [] = ground arith
retain-bytes_log s p start (b ∷ bs) = elim (Bool-cases (leb p start)) [
  | inl h ↦ ground (arith, retain-bytes_log_all s p (suc start) bs)
  | inr h ↦
      let e : offset p start (b ∷ bs) ≡ suc (offset p (suc start) bs) = ground arith in
      let e' : start + suc (offset p (suc start) bs) ≡ suc start + offset p (suc start) bs =
        omega arith in
      rw (e, e') (rw h (retain-bytes_log s p (suc start) bs))
]

bytes_log-take :
    (s : ActivityOutputStream) (p n : ℕ) (xs : List ℕ)
    → bytes_log s p (take n xs) ≡ take n (bytes_log s p xs)
bytes_log-take s p zero xs = refl
bytes_log-take s p (suc n) [] = refl
bytes_log-take s p (suc n) (x ∷ xs) = rw (bytes_log-take s (suc p) n xs)

pub length-flat : (fs : List CapturedFragment) → length (flat fs) ≡ bytes_held fs
unfolding bytes_held
length-flat [] = refl
length-flat (f ∷ fs) = omega (
  arith,
  length-append (bytes_log f.stream f.start f.bytes) (flat fs),
  length-bytes_log f.stream f.start f.bytes,
  length-flat fs,
)

-- `take_head` keeps the first bytes, exactly as many as the budget allows.
pub flat-take_head :
    (fs : List CapturedFragment) (budget : ℕ) → flat (take_head fs budget) ≡ take budget (flat fs)
unfolding take_head
flat-take_head [] zero = refl
flat-take_head [] (suc n) = refl
flat-take_head (f ∷ fs) zero = refl
flat-take_head (f ∷ fs) (suc n) =
    rw (take-append (suc n) (bytes_log f.stream f.start f.bytes) (flat fs)) (
      ground (
        arith,
        take-min (suc n) f.bytes,
        bytes_log-take f.stream f.start (suc n) f.bytes,
        length-bytes_log f.stream f.start f.bytes,
        flat-take_head fs (suc n - min (suc n) (length f.bytes)),
      ))

slice_after_lem :
    (n : ℕ) (f : CapturedFragment) (p : ℕ)
    → n ≤ u64_max
    → f.start + length f.bytes ≤ n
    → slice_after f p ≡ (
        if leb (f.start + length f.bytes) p
        then none
        else some (record {
          stream = f.stream;
          start = f.start + offset p f.start f.bytes;
          bytes = drop (offset p f.start f.bytes) f.bytes;
        }))
unfolding slice_after
slice_after_lem n f p small fits = rw (cut, at, end)
  where
    cut : min (min (p - f.start) u64_max) (length f.bytes) ≡ offset p f.start f.bytes
    cut = omega arith

    at :
        min (f.start + min (offset p f.start f.bytes) u64_max) u64_max
        ≡ f.start + offset p f.start f.bytes
    at = omega arith

    end : min (f.start + min (length f.bytes) u64_max) u64_max ≡ f.start + length f.bytes
    end = omega arith

-- What lies after a cursor, of the history that the capture holds: nothing else, and all of it.
pub flat-slices_after :
    (n : ℕ) (fs : List CapturedFragment) (p : ℕ)
    → n ≤ u64_max
    → Ends n fs
    → flat (slices_after fs p) ≡ retain (is_after p) (flat fs)
unfolding slices_after
flat-slices_after n [] p small ends = refl
flat-slices_after n (f ∷ fs) p small ends =
    rw (retain-append (is_after p) (bytes_log f.stream f.start f.bytes) (flat fs)) (
      rw (retain-bytes_log f.stream p f.start f.bytes)
        (elim (Bool-cases (leb (f.start + length f.bytes) p)) [
          | inl h ↦
              rw
                (
                  slice_after_lem n f p small ends.0,
                  h,
                  slices_after,
                  drop_all (offset p f.start f.bytes) f.bytes (ground arith),
                )
                (flat-slices_after n fs p small ends.1)
          | inr h ↦
              rw (slice_after_lem n f p small ends.0, h, slices_after)
                (rw (flat-slices_after n fs p small ends.1))
        ]))
