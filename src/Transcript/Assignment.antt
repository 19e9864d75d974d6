-- ===== src/Transcript/Assignment.antt =====
-- The assignment that begins a transcript: when it is kept, and when it is lost.
use misy.Common.{
  ℕ, zero, suc, ◌+◌, ◌-◌, ◌≤◌, ◌<◌, ◌≡◌, refl, Bool, true, false, none, List, [], ◌∷◌, ◌++◌, arith,
  ltb, saturating_add, slice_max,
}
use misy.Common.Texts.{Text}
use misy.Transcript.{
  Entry, TranscriptBuffer, Encoding, assignment, entry, max_transcript_bytes,
  truncation_marker_bytes, encoded_len, fit_single_entry, trim_loop, trim, push,
}
use misy.Transcript.Pushes.{new_transcript}
use misy.Transcript.Bounds.{IsBounded, Kept-IsBounded, trim_loop-Kept, push-Kept}

module _ {Json Image : Type 0} (s : Encoding Json Image) where
  -- The assignment as it is stored.
  abbrev pub first : Text → ℕ → Entry Json Image
  first task n = fit_single_entry s (entry assignment task none none n)

module _ {Json Image Source : Type 0} (s : Encoding Json Image) where
  unfoldable pub push_all :
      TranscriptBuffer Json Image Source
      → List (Entry Json Image)
      → TranscriptBuffer Json Image Source
  push_all t [] = t
  push_all t (e ∷ es) = push_all (push s t e) es

  push_all-IsBounded :
      (a : Entry Json Image) (t : TranscriptBuffer Json Image Source) (es : List (Entry Json Image))
      → IsBounded s a t
      → encoded_len s a + truncation_marker_bytes ≤ max_transcript_bytes
      → ((e : Entry Json Image) → encoded_len s e ≤ slice_max)
      → IsBounded s a (push_all t es)
  unfolding push_all
  push_all-IsBounded a t [] v h small = v
  push_all-IsBounded a t (e ∷ es) v h small =
      let k = push-Kept s a e t v h (small (fit_single_entry s e)) in
      push_all-IsBounded a (push s t e) es
        (Kept-IsBounded s a (v.rest ++ fit_single_entry s e ∷ []) t.truncated (push s t e) k) h
        small

  new_transcript-IsBounded :
      (task : Text) (n : ℕ)
      → encoded_len s (first s task n) + truncation_marker_bytes ≤ max_transcript_bytes
      → IsBounded s (first s task n) (new_transcript {Source = Source} s task n)
  unfolding new_transcript push trim
  new_transcript-IsBounded task n h =
      let a = first s task n in
      Kept-IsBounded s a [] false (new_transcript s task n) (
        trim_loop-Kept s 2 a [] (saturating_add 0 (encoded_len s a)) false [] (omega arith)
          (omega (arith, h)) (omega (arith, h)) h)

  trim_loop_empty :
      (fuel n : ℕ) (b : Bool) (sources : List Source)
      → ((trim_loop s fuel (record {
        entries = [];
        retained_bytes = n;
        truncated = b;
        instruction_sources = sources;
      })).entries
          ≡ [])
        × ((trim_loop s fuel (record {
          entries = [];
          retained_bytes = n;
          truncated = b;
          instruction_sources = sources;
        })).truncated
            ≡ b)
  unfolding trim_loop
  trim_loop_empty zero n b sources = (refl, refl)
  trim_loop_empty (suc fuel) n b sources = ground arith

-- A transcript whose assignment fits the budget begins with it after any pushes, is charged exactly and
-- keeps within the budget. An encoding is no longer than a Rust slice.
pub new_transcript-keeps :
    {Json Image : Type 0} (Source : Type 0) (s : Encoding Json Image) (task : Text) (n : ℕ)
    (es : List (Entry Json Image))
    → encoded_len s (first s task n) + truncation_marker_bytes ≤ max_transcript_bytes
    → ((e : Entry Json Image) → encoded_len s e ≤ slice_max)
    → IsBounded s (first s task n) (push_all s (new_transcript {Source = Source} s task n) es)
new_transcript-keeps Source s task n es h small =
    push_all-IsBounded s (first s task n) (new_transcript s task n) es
      (new_transcript-IsBounded s task n h) h small

-- An assignment whose shortened entry does not fit the budget with the mark is not kept: the new
-- transcript is empty.
pub new_transcript-loses :
    {Json Image : Type 0} (Source : Type 0) (s : Encoding Json Image) (task : Text) (n : ℕ)
    → max_transcript_bytes < encoded_len s (first s task n) + truncation_marker_bytes
    → ((new_transcript {Source = Source} s task n).entries ≡ [])
      × ((new_transcript {Source = Source} s task n).truncated ≡ true)
unfolding new_transcript push trim trim_loop
new_transcript-loses Source s task n h =
    let a = first s task n in
    let kept = saturating_add 0 (encoded_len s a) in
    let more : ltb max_transcript_bytes (saturating_add kept truncation_marker_bytes) ≡ true =
      ground (arith, h) in
    rw (more, trim_loop) (trim_loop_empty {Source = Source} s 1 (kept - encoded_len s a) true [])
