-- ===== src/Output/Log.antt =====
-- The specification of the capture of output.rs: the history of every byte that a command
-- wrote, each with its position and its stream, and the part of it that fragments hold.
use misy.Common.{
  ℕ, zero, suc, ◌+◌, ◌≤◌, ◌≡◌, refl, List, [], ◌∷◌, ◌++◌, append_assoc, arith, length, drop,
  length-append,
}
use misy.Output.Capture.{ActivityOutputStream, CapturedFragment}

pub record LoggedByte : Type 0 where
  pub position : ℕ
  pub stream : ActivityOutputStream
  pub byte : ℕ

abbrev pub bytes_log : ActivityOutputStream → ℕ → List ℕ → List LoggedByte
bytes_log s p [] = []
bytes_log s p (b ∷ bs) = record { position = p; stream = s; byte = b } ∷ bytes_log s (suc p) bs

-- What a half of the store holds.
abbrev pub flat : List CapturedFragment → List LoggedByte
flat [] = []
flat (f ∷ fs) = bytes_log f.stream f.start f.bytes ++ flat fs

-- The charge of a half: its bytes, and a fixed overhead for each fragment.
abbrev pub costs : List CapturedFragment → ℕ
costs [] = 0
costs (f ∷ fs) = length f.bytes + 32 + costs fs

-- Every fragment lies below a position.
abbrev pub Ends : ℕ → List CapturedFragment → Type 0
Ends n [] = Unit {0}
Ends n (f ∷ fs) = (f.start + length f.bytes ≤ n) × Ends n fs

pub Ends-mono : {m n : ℕ} (fs : List CapturedFragment) → m ≤ n → Ends m fs → Ends n fs
Ends-mono [] h e = tt
Ends-mono (f ∷ fs) h e = (omega arith, Ends-mono fs h e.1)

pub bytes_log-append :
    (s : ActivityOutputStream) (p : ℕ) (xs ys : List ℕ)
    → bytes_log s p (xs ++ ys) ≡ bytes_log s p xs ++ bytes_log s (p + length xs) ys
bytes_log-append s p [] ys = ground arith
bytes_log-append s p (x ∷ xs) ys = ground (arith, bytes_log-append s (suc p) xs ys)

pub bytes_log-drop :
    (s : ActivityOutputStream) (p n : ℕ) (xs : List ℕ)
    → n ≤ length xs
    → bytes_log s (p + n) (drop n xs) ≡ drop n (bytes_log s p xs)
bytes_log-drop s p zero xs h = ground arith
bytes_log-drop s p (suc n) [] h = refl
bytes_log-drop s p (suc n) (x ∷ xs) h = ground (arith, bytes_log-drop s (suc p) n xs (omega arith))

pub length-bytes_log :
    (s : ActivityOutputStream) (p : ℕ) (xs : List ℕ) → length (bytes_log s p xs) ≡ length xs
length-bytes_log s p [] = refl
length-bytes_log s p (x ∷ xs) = omega (arith, length-bytes_log s (suc p) xs)

pub flat-append : (xs ys : List CapturedFragment) → flat (xs ++ ys) ≡ flat xs ++ flat ys
flat-append [] ys = refl
flat-append (f ∷ fs) ys = simp (flat-append fs ys, append_assoc)

pub costs-append : (xs ys : List CapturedFragment) → costs (xs ++ ys) ≡ costs xs + costs ys
costs-append [] ys = omega arith
costs-append (f ∷ fs) ys = omega (arith, costs-append fs ys)

-- The charge covers every byte that is held.
pub length-flat-le-costs : (fs : List CapturedFragment) → length (flat fs) ≤ costs fs
length-flat-le-costs [] = omega arith
length-flat-le-costs (f ∷ fs) = omega (
  arith,
  length-append (bytes_log f.stream f.start f.bytes) (flat fs),
  length-bytes_log f.stream f.start f.bytes,
  length-flat-le-costs fs,
)
