-- ===== src/Session/Compaction.antt =====
-- The compaction of a conversation, crates/misy-core/src/core/compaction.rs and the budgets of
-- compaction/metrics.rs. The answer of the provider, the lengths of JSON and texts, the list of live
-- agents and the product of a window with the ratio of the configuration (a floating-point number)
-- are arguments.
use misy.Common.{
  ℕ, suc, ◌-◌, ◌/◌, min, max, Bool, true, false, not, ◌&&◌, Option, none, some, List, [], ◌∷◌, ◌++◌,
  get_elem?, ltb, leb, ◌==◌, if◌then◌else◌, saturating_add,
}
use misy.Common.Texts.{Text, trim, is_empty}
use mathlib.Core.List.{reverse}
use misy.Session.{MessageRole, user, assistant, HistoryEntry, ModelProfile, CompactionCheckpoint}
use misy.Session.Store.{Io, SessionError}
use misy.Session.Live.{Live}

abbrev pub min_reserve_tokens : ℕ
min_reserve_tokens = 8000

abbrev pub max_reserve_tokens : ℕ
max_reserve_tokens = 50000

abbrev pub min_summary_output_tokens : ℕ
min_summary_output_tokens = 2000

abbrev pub max_summary_output_tokens : ℕ
max_summary_output_tokens = 16000

abbrev pub max_focus_bytes : ℕ
max_focus_bytes = 2048

abbrev pub max_summary_bytes : ℕ
max_summary_bytes = 65536

-- `Ord::clamp`.
abbrev pub clamp : ℕ → ℕ → ℕ → ℕ
clamp n low high = min (max n low) high

abbrev pub requested_reserve : Option ℕ → ℕ → ℕ
requested_reserve none window = clamp (window / 5) min_reserve_tokens max_reserve_tokens
requested_reserve (some tokens) window = tokens

unfoldable pub reserve_tokens : Option ℕ → ℕ → ℕ
reserve_tokens configured window =
    if window == 0 then 0 else min (requested_reserve configured window) (window / 2)

-- The first argument is the window times the ratio, rounded down.
unfoldable pub compaction_threshold : ℕ → Option ℕ → ℕ → ℕ
compaction_threshold scaled configured window =
    min scaled (window - reserve_tokens configured window)

unfoldable pub should_compact : ℕ → Option ℕ → ℕ → ℕ → Bool
should_compact scaled configured window projected_tokens =
    ltb 0 window && leb (compaction_threshold scaled configured window) projected_tokens

unfoldable pub summary_output_tokens : ℕ → Option ℕ → ℕ
summary_output_tokens window configured =
    clamp (reserve_tokens configured window / 2) min_summary_output_tokens max_summary_output_tokens

pub data CompactionStatus : Type 0 where
  compacting completed cancelled failed : CompactionStatus

pub record CompactionActivity : Type 0 where
  pub status : CompactionStatus
  pub trigger : Text
  pub cancellable : Bool
  pub tokens_before : ℕ
  pub tokens_after : Option ℕ
  pub checkpoint : Option CompactionCheckpoint

pub data CompactionError : Type 0 where
  nothing_to_compact session_busy no_progress invalid_summary focus_too_long : CompactionError
  not_encoded : CompactionError
  runtime : Text → CompactionError
  session : SessionError → CompactionError

pub data Result (A : Type 0) : Type 0 where
  ok : A → Result A
  err : CompactionError → Result A

abbrev pub is_user : MessageRole → Bool
is_user user = true
is_user _ = false

abbrev pub is_assistant : MessageRole → Bool
is_assistant assistant = true
is_assistant _ = false

-- "\n\nLive state:\n"
abbrev live_state_text : Text
live_state_text = 10 ∷ 10 ∷ 76 ∷ 105 ∷ 118 ∷ 101 ∷ 32 ∷ 115 ∷ 116 ∷ 97 ∷ 116 ∷ 101 ∷ 58 ∷ 10 ∷ []

unfoldable pub with_appendix : Text → Text → Text
with_appendix summary appendix =
    if is_empty appendix then summary else summary ++ (live_state_text ++ appendix)

module _ (Json Image : Type 0) where
  -- The characters of the JSON of entries (none for an error), and the bytes of a text.
  pub record Measures : Type 0 where
    pub json_chars : List (HistoryEntry Json Image) → Option ℕ
    pub text_len : Text → ℕ

  -- What the run of a compaction's turns gives: its history, or the text of an error.
  pub data Answer : Type 0 where
    answered : List (HistoryEntry Json Image) → Answer
    refused : Text → Answer

  -- The core with the compaction in progress and the activities that were emitted.
  pub record Compactor : Type 0 where
    pub live : Live Json Image
    pub compaction : Option CompactionActivity
    pub emitted : List CompactionActivity

  pub record Request : Type 0 where
    pub profile : ModelProfile
    pub focus : Text
    pub trigger : Text
    pub answer : Answer
    pub appendix : Text
    pub now_millis : ℕ
    pub disk : Io Json Image

module _ {Json Image : Type 0} where
  -- The positions of the entries of the user, the first entry at the given one.
  unfoldable pub user_positions : ℕ → List (HistoryEntry Json Image) → List ℕ
  user_positions i [] = []
  user_positions i (e ∷ es) =
      let rest = user_positions (suc i) es in if is_user e.message.role then i ∷ rest else rest

  unfoldable pub preserved_tail_start : List (HistoryEntry Json Image) → Option ℕ
  unfolding user_positions
  preserved_tail_start history = get_elem? (reverse (user_positions 0 history)) 1

  unfoldable pub last_assistant : List (HistoryEntry Json Image) → Option Text
  last_assistant [] = none
  last_assistant (e ∷ es) = elim (last_assistant es) [
    | some t ↦ some t
    | none ↦ if is_assistant e.message.role then some e.message.content else none
  ]

module _ {Json Image : Type 0} (s : Measures Json Image) where
  abbrev chars_to_tokens : Option ℕ → ℕ
  chars_to_tokens none = 0
  chars_to_tokens (some n) = saturating_add n 3 / 4

  unfoldable pub estimate_entries : List (HistoryEntry Json Image) → ℕ
  estimate_entries entries = chars_to_tokens (s.json_chars entries)

  abbrev checked_summary : Option Text → Result Text
  checked_summary none = err invalid_summary
  checked_summary (some t) =
      let u = trim t in
      if not (is_empty u) && leb (s.text_len u) max_summary_bytes then ok u else err invalid_summary

  abbrev summary_of : Answer Json Image → Result Text
  summary_of (answered history) = checked_summary (last_assistant history)
  summary_of (refused message) = err (runtime message)

  abbrev encoded_prefix : Option ℕ → Answer Json Image → Result Text
  encoded_prefix none answer = err not_encoded
  encoded_prefix (some n) answer = summary_of answer

  -- `generate_summary`, with the checks of `compaction_prompt`.
  unfoldable pub generate_summary :
      List (HistoryEntry Json Image) → Text → Answer Json Image → Result Text
  generate_summary kept focus answer =
      if ltb max_focus_bytes (s.text_len focus)
      then err focus_too_long
      else encoded_prefix (s.json_chars kept) answer
