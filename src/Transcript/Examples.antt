-- ===== src/Transcript/Examples.antt =====
-- The theorems on transcripts with encodings that are easy to count.
use misy.Common.{ℕ, ◌≤◌, ◌≡◌, true, false, none, some, [], ◌∷◌, length, slice_max, arith}
use misy.Transcript.{Entry, TranscriptBuffer, Encoding, assistant, entry, encoded_len}
use misy.Transcript.Pushes.{new_transcript}
use misy.Transcript.Bounds.{IsBounded}
use misy.Transcript.Assignment.{first, push_all, new_transcript-keeps, new_transcript-loses}

-- Each entry takes as many bytes as are given.
abbrev fixed : ℕ → Encoding (Unit {0}) (Unit {0})
fixed n = record { to_vec_len = λ e. some n; content_len = length }

abbrev hello : Entry (Unit {0}) (Unit {0})
hello = entry assistant (104 ∷ 105 ∷ []) none none 0

fixed-small :
    (n : ℕ)
    → n ≤ slice_max
    → (e : Entry (Unit {0}) (Unit {0})) → encoded_len (fixed n) e ≤ slice_max
unfolding encoded_len
fixed-small n h e = h

new_transcript-keeps_example : IsBounded (fixed 600000) (first (fixed 600000) (97 ∷ []) 0) (
    push_all
      (fixed 600000)
      (new_transcript {Source = ℕ} (fixed 600000) (97 ∷ []) 0)
      (hello ∷ hello ∷ []))
unfolding encoded_len
new_transcript-keeps_example =
    new_transcript-keeps ℕ (fixed 600000) (97 ∷ []) 0 (hello ∷ hello ∷ []) (omega arith)
      (fixed-small 600000 (omega arith))

new_transcript-loses_example :
    ((new_transcript {Source = ℕ} (fixed 1200000) (97 ∷ []) 0).entries ≡ [])
    × ((new_transcript {Source = ℕ} (fixed 1200000) (97 ∷ []) 0).truncated ≡ true)
unfolding encoded_len
new_transcript-loses_example = new_transcript-loses ℕ (fixed 1200000) (97 ∷ []) 0 (omega arith)

abbrev one_entry : TranscriptBuffer (Unit {0}) (Unit {0}) ℕ
one_entry = record {
  entries = hello ∷ [];
  retained_bytes = 600000;
  truncated = false;
  instruction_sources = [];
}
