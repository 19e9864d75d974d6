-- ===== src/Output/Project.antt =====
-- The projections of a capture, output.rs: what a client sees of it, and what is delivered to the
-- model. A text is the list of its bytes. The lossy decoding of bytes is a parameter.
use misy.Common.{
  ℕ, zero, suc, ◌+◌, ◌/◌, ◌%◌, Bool, false, ◌||◌, Option, none, some, List, [], ◌∷◌, ◌++◌, map,
  length, ltb, if◌then◌else◌, saturating_add, saturating_sub, saturating_mul, saturate, u64_max,
  back, modify_back,
}
use misy.Output.Capture.{
  ActivityOutputStream, stdout, stderr, system, CapturedFragment, OrderedOutput, same_stream,
}
use misy.Output.Select.{fragments_after, select_head_tail}

abbrev pub Text : Type 0
Text = List ℕ

pub record DeliveryCursor : Type 0 where
  pub position : ℕ
  pub stdout : ℕ
  pub stderr : ℕ

abbrev pub first_cursor : DeliveryCursor
first_cursor = record { position = 0; stdout = 0; stderr = 0 }

pub record ActivityOutputFragment : Type 0 where
  pub stream : ActivityOutputStream
  pub text : Text

pub record OutputProjection : Type 0 where
  pub fragments : List ActivityOutputFragment
  pub stdout : Text
  pub stderr : Text
  pub stdout_truncated : Bool
  pub stderr_truncated : Bool
  pub cursor : DeliveryCursor

abbrev pub bytes_per_token : ℕ
bytes_per_token = 4

-- The decimal digits of a number, in front of `rest`; a 64-bit number has twenty at most.
decimal_loop : ℕ → ℕ → Text → Text
decimal_loop zero n rest = rest
decimal_loop (suc fuel) n rest =
    let more = decimal_loop fuel (n / 10) ((48 + n % 10) ∷ rest) in
    if ltb n 10 then (48 + n) ∷ rest else more

unfoldable pub decimal : ℕ → Text
unfolding decimal_loop
decimal n = decimal_loop 20 n []

-- "\n[... N bytes omitted ...]\n"
unfoldable pub omission_marker : ℕ → Text
unfolding decimal
omission_marker omitted =
    10
    ∷ 91
    ∷ 46
    ∷ 46
    ∷ 46
    ∷ 32
    ∷ (decimal omitted
        ++ (32 ∷ 98 ∷ 121 ∷ 116 ∷ 101 ∷ 115 ∷ 32 ∷ 111 ∷ 109 ∷ 105 ∷ 116 ∷ 116 ∷ 101 ∷ 100 ∷ 32 ∷ 46
            ∷ 46 ∷ 46 ∷ 93 ∷ 10 ∷ []))

-- The sum of the lengths of the fragments of one stream.
unfoldable pub sum_stream : ℕ → List CapturedFragment → ActivityOutputStream → ℕ
unfolding same_stream
sum_stream acc [] stream = acc
sum_stream acc (f ∷ fs) stream =
    sum_stream
      (if same_stream f.stream stream then saturating_add acc (saturate (length f.bytes)) else acc)
      fs stream

unfoldable pub stream_bytes :
    List CapturedFragment → List CapturedFragment → ActivityOutputStream → ℕ
unfolding sum_stream
stream_bytes head tail stream = sum_stream 0 (head ++ tail) stream

abbrev pub joins : Option ActivityOutputFragment → ActivityOutputFragment → Bool
joins none g = false
joins (some f) g = same_stream f.stream g.stream

-- The loop of `coalesce_public`.
unfoldable pub coalesce_loop :
    List ActivityOutputFragment → List ActivityOutputFragment → List ActivityOutputFragment
unfolding same_stream
coalesce_loop coalesced [] = coalesced
coalesce_loop coalesced (g ∷ gs) =
    coalesce_loop
      (if joins (back coalesced) g
        then modify_back (λ f. record f { text = f.text ++ g.text }) coalesced
        else coalesced ++ g ∷ [])
      gs

unfoldable pub coalesce_public : List ActivityOutputFragment → List ActivityOutputFragment
unfolding coalesce_loop
coalesce_public fragments = coalesce_loop [] fragments

-- The bytes of the fragments of one stream, one after the other.
unfoldable pub join_stream : List CapturedFragment → ActivityOutputStream → List ℕ
unfolding same_stream
join_stream [] stream = []
join_stream (f ∷ fs) stream =
    let rest = join_stream fs stream in
    if same_stream f.stream stream then f.bytes ++ rest else rest

module _ (lossy : List ℕ → Text) where
  unfoldable pub public_fragment : CapturedFragment → ActivityOutputFragment
  public_fragment f = record { stream = f.stream; text = lossy f.bytes }

  unfoldable pub public_fragments :
      List CapturedFragment → List CapturedFragment → ℕ → List ActivityOutputFragment
  unfolding public_fragment coalesce_public omission_marker
  public_fragments head tail omitted = coalesce_public (
      map public_fragment head
      ++ ((if ltb 0 omitted
            then record { stream = system; text = omission_marker omitted } ∷ []
            else [])
          ++ map public_fragment tail))

  unfoldable pub stream_text :
      List CapturedFragment → List CapturedFragment → ActivityOutputStream → ℕ → Text
  unfolding join_stream omission_marker
  stream_text head tail stream omitted = lossy (
      join_stream head stream
      ++ ((if ltb 0 omitted then omission_marker omitted else []) ++ join_stream tail stream))

  unfoldable pub project : OrderedOutput → DeliveryCursor → ℕ → OutputProjection
  project o cursor byte_budget =
      let (head, tail) = select_head_tail (fragments_after o cursor.position) byte_budget in
      let kept_stdout = stream_bytes head tail stdout in
      let kept_stderr = stream_bytes head tail stderr in
      let delta_stdout = saturating_sub o.stdout_total cursor.stdout in
      let delta_stderr = saturating_sub o.stderr_total cursor.stderr in
      let omitted_stdout = saturating_sub delta_stdout kept_stdout in
      let omitted_stderr = saturating_sub delta_stderr kept_stderr in
      let omitted = saturating_add omitted_stdout omitted_stderr in
      record {
        fragments = public_fragments head tail omitted;
        stdout = stream_text head tail stdout omitted_stdout;
        stderr = stream_text head tail stderr omitted_stderr;
        stdout_truncated = ltb 0 omitted_stdout || o.stdout_incomplete;
        stderr_truncated = ltb 0 omitted_stderr || o.stderr_incomplete;
        cursor = record { position = o.total; stdout = o.stdout_total; stderr = o.stderr_total };
      }

  unfoldable pub snapshot : OrderedOutput → OutputProjection
  snapshot o = project o first_cursor u64_max

  unfoldable pub deliver : OrderedOutput → DeliveryCursor → ℕ → OutputProjection
  deliver o cursor max_output_tokens =
      project o cursor (saturating_mul max_output_tokens bytes_per_token)
