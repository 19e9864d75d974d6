-- ===== src/Transcript/Bounds.antt =====
-- The budget of a transcript, and its first entry.
use misy.Common.{
  ℕ, zero, suc, ◌+◌, ◌-◌, ◌≤◌, saturating_add, ◌<◌, ◌≡◌, refl, inl, inr, Bool, true, false, List,
  [], ◌∷◌, ◌++◌, arith, length, drop, if◌then◌else◌, ◌==◌, Bool-cases, u64_max, slice_max, ltb,
}
use misy.Transcript.{
  Entry, TranscriptBuffer, Encoding, max_transcript_bytes, truncation_marker_bytes, encoded_len,
  fit_single_entry, trim_loop, trim, push,
}

module _ {Json Image : Type 0} (s : Encoding Json Image) where
  abbrev pub total : List (Entry Json Image) → ℕ
  total [] = 0
  total (e ∷ es) = encoded_len s e + total es

  total-append : (es fs : List (Entry Json Image)) → total (es ++ fs) ≡ total es + total fs
  total-append [] fs = omega arith
  total-append (e ∷ es) fs = omega (arith, total-append es fs)

module _ {Json Image Source : Type 0} (s : Encoding Json Image) where
  -- What is left of `a ∷ rest`: the first entry, then the last ones, charged exactly and within the
  -- budget; with any fewer dropped they would not fit, and the mark is set if entries were dropped.
  pub record Kept (a : Entry Json Image) (rest : List (Entry Json Image)) (before : Bool)
      (t : TranscriptBuffer Json Image Source) : Type 0 where
    pub dropped : ℕ
    pub shown : t.entries ≡ a ∷ drop dropped rest
    pub charged : t.retained_bytes ≡ total s t.entries
    pub within : t.retained_bytes + truncation_marker_bytes ≤ max_transcript_bytes
    pub needed :
        (j : ℕ)
        → j < dropped
        → max_transcript_bytes < total s (a ∷ drop j rest) + truncation_marker_bytes
    pub marked : t.truncated ≡ (if dropped == 0 then before else true)

  Kept-cons :
      (a e : Entry Json Image) (rest : List (Entry Json Image)) (before : Bool)
      (t : TranscriptBuffer Json Image Source)
      → max_transcript_bytes < total s (a ∷ e ∷ rest) + truncation_marker_bytes
      → Kept a rest true t
      → Kept a (e ∷ rest) before t
  Kept-cons a e rest before t over k = record {
    dropped = suc k.dropped;
    shown = k.shown;
    charged = k.charged;
    within = k.within;
    needed = λ j l.
        elim j
            as (λ i.
              i < suc k.dropped
              → max_transcript_bytes < total s (a ∷ drop i (e ∷ rest)) + truncation_marker_bytes) [
                | zero ↦ λ l. over
                | suc i ↦ λ l. k.needed i (omega (arith, l))
              ]
          l;
    marked = ground (arith, k.marked);
  }

  pub trim_loop-Kept :
      (fuel : ℕ) (a : Entry Json Image) (rest : List (Entry Json Image)) (n : ℕ) (b : Bool)
      (sources : List Source)
      → length rest < fuel
      → n ≡ total s (a ∷ rest)
      → n ≤ u64_max - 64
      → encoded_len s a + truncation_marker_bytes ≤ max_transcript_bytes
      → Kept a rest b (
          trim_loop s fuel (record {
            entries = a ∷ rest;
            retained_bytes = n;
            truncated = b;
            instruction_sources = sources;
          }))
  unfolding trim_loop
  trim_loop-Kept zero a rest n b sources l e fit h = absurd (omega arith)
  trim_loop-Kept (suc fuel) a [] n b sources l e fit h =
      let small : ltb max_transcript_bytes (saturating_add n truncation_marker_bytes) ≡ false =
        ground (arith, e, h) in
      rw (small, trim_loop)
        (record {
          dropped = 0;
          needed = λ j l. absurd (omega (arith, l));
          shown = refl;
          charged = e;
          within = omega (arith, e, h);
          marked = refl;
        })
  trim_loop-Kept (suc fuel) a (f ∷ rest) n b sources l e fit h =
      elim (Bool-cases (ltb max_transcript_bytes (saturating_add n truncation_marker_bytes))) [
        | inr stop ↦
            rw (stop, trim_loop)
              (record {
                dropped = 0;
                needed = λ j l. absurd (omega (arith, l));
                shown = refl;
                charged = e;
                within = ground (arith, stop);
                marked = refl;
              })
        | inl more ↦
            rw (more, trim_loop)
              (Kept-cons a f rest b _ (ground (arith, e, more)) (
                trim_loop-Kept fuel a rest (n - encoded_len s f) true sources (omega arith)
                  (omega (arith, e)) (omega arith) h))
      ]

  -- A transcript that begins with an entry, is charged exactly and keeps within the budget.
  pub record IsBounded (a : Entry Json Image) (t : TranscriptBuffer Json Image Source)
      : Type 0 where
    pub rest : List (Entry Json Image)
    pub begins : t.entries ≡ a ∷ rest
    pub charged : t.retained_bytes ≡ total s t.entries
    pub within : t.retained_bytes + truncation_marker_bytes ≤ max_transcript_bytes

  pub Kept-IsBounded :
      (a : Entry Json Image) (rest : List (Entry Json Image)) (b : Bool)
      (t : TranscriptBuffer Json Image Source)
      → Kept a rest b t
      → IsBounded a t
  Kept-IsBounded a rest b t k = record {
    rest = drop k.dropped rest;
    begins = k.shown;
    charged = k.charged;
    within = k.within;
  }

  pub push-Kept :
      (a e : Entry Json Image) (t : TranscriptBuffer Json Image Source) (v : IsBounded a t)
      → encoded_len s a + truncation_marker_bytes ≤ max_transcript_bytes
      → encoded_len s (fit_single_entry s e) ≤ slice_max
      → Kept a (v.rest ++ fit_single_entry s e ∷ []) t.truncated (push s t e)
  unfolding push trim
  push-Kept a e t v h small =
      let f = fit_single_entry s e in
      let n = saturating_add t.retained_bytes (encoded_len s f) in
      let sum : total s (v.rest ++ f ∷ []) ≡ total s v.rest + (encoded_len s f + 0) =
        total-append s v.rest (f ∷ []) in
      let old : t.retained_bytes ≡ encoded_len s a + total s v.rest = rw v.begins at v.charged in
      rw v.begins (
        trim_loop-Kept (suc (length (a ∷ (v.rest ++ f ∷ [])))) a (v.rest ++ f ∷ []) n t.truncated
          t.instruction_sources (omega arith) (omega (arith, sum, old, v.within, small))
          (omega (arith, v.within, small)) h)
