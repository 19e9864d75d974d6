-- ===== src/Transcript.antt =====
-- The transcript of a child agent, crates/misy-core/src/core/agents/transcript.rs. The values of
-- JSON, images and the sources of instructions have types of their own; the length of the JSON of
-- an entry is a parameter, with none for an error of serde_json. A text is counted in bytes by a
-- parameter, and in characters as the list that it is.
pub mod Pushes
pub mod Bounds
pub mod Assignment
pub mod Examples
use misy.Common.{
  ℕ, zero, suc, ◌+◌, ◌-◌, ◌/◌, Bool, true, false, Option, none, some, List, [], ◌∷◌, ◌++◌, length,
  take, ltb, leb, if◌then◌else◌, saturating_add, saturating_sub,
}
use misy.Common.Texts.{Text}

abbrev pub max_transcript_bytes : ℕ
max_transcript_bytes = 1048576

abbrev pub truncation_marker_bytes : ℕ
truncation_marker_bytes = 64

pub record ToolCall (Json : Type 0) : Type 0 where
  pub id : Text
  pub name : Text
  pub arguments : Json

pub record ToolResult (Image : Type 0) : Type 0 where
  pub tool_call_id : Text
  pub content : Text
  pub attachments : List Image
  pub is_error : Bool

pub data EntryKind : Type 0 where
  assignment user_message assistant tool_call tool_result terminal : EntryKind

module _ (Json Image : Type 0) where
  pub record Entry : Type 0 where
    pub kind : EntryKind
    pub content : Text
    pub tool_call : Option (ToolCall Json)
    pub tool_result : Option (ToolResult Image)
    pub attachment_count : ℕ

  pub record TranscriptBuffer (Source : Type 0) : Type 0 where
    pub entries : List Entry
    pub retained_bytes : ℕ
    pub truncated : Bool
    pub instruction_sources : List Source

-- "\n[... transcript entry truncated ...]"
abbrev pub truncation_text : Text
truncation_text =
    10 ∷ 91 ∷ 46 ∷ 46 ∷ 46 ∷ 32 ∷ 116 ∷ 114 ∷ 97 ∷ 110 ∷ 115 ∷ 99 ∷ 114 ∷ 105 ∷ 112 ∷ 116 ∷ 32 ∷ 101
    ∷ 110 ∷ 116 ∷ 114 ∷ 121 ∷ 32 ∷ 116 ∷ 114 ∷ 117 ∷ 110 ∷ 99 ∷ 97 ∷ 116 ∷ 101 ∷ 100 ∷ 32 ∷ 46 ∷ 46
    ∷ 46 ∷ 93 ∷ []

module _ {Json Image : Type 0} where
  unfoldable pub entry :
      EntryKind → Text → Option (ToolCall Json) → Option (ToolResult Image) → ℕ → Entry Json Image
  entry kind content call result attachments = record {
    kind = kind;
    content = content;
    tool_call = call;
    tool_result = result;
    attachment_count = attachments;
  }

-- `serde_json::to_vec` of an entry, and the bytes of its content.
pub record Encoding (Json Image : Type 0) : Type 0 where
  pub to_vec_len : Entry Json Image → Option ℕ
  pub content_len : Text → ℕ

module _ {Json Image : Type 0} (s : Encoding Json Image) where
  abbrev or_content : Option ℕ → Text → ℕ
  or_content none content = s.content_len content
  or_content (some n) content = n

  unfoldable pub encoded_len : Entry Json Image → ℕ
  encoded_len e = or_content (s.to_vec_len e) e.content

  unfoldable pub fit_single_entry : Entry Json Image → Entry Json Image
  unfolding encoded_len
  fit_single_entry e = if leb (encoded_len e) (max_transcript_bytes / 2) then e else record e {
    tool_call = none;
    tool_result = none;
    content = take (max_transcript_bytes / 4) e.content ++ truncation_text;
  }

module _ {Json Image : Type 0} where
  -- The second entry is removed, or the only one: the entry, and the others.
  unfoldable pub remove_next :
      List (Entry Json Image) → Option (Entry Json Image × List (Entry Json Image))
  remove_next [] = none
  remove_next (e ∷ []) = some (e, [])
  remove_next (e ∷ f ∷ fs) = some (f, e ∷ fs)

  abbrev pub over : {Source : Type 0} → TranscriptBuffer Json Image Source → Bool
  over t = ltb max_transcript_bytes (saturating_add t.retained_bytes truncation_marker_bytes)

module _ {Json Image Source : Type 0} (s : Encoding Json Image) where
  abbrev pub removed :
      TranscriptBuffer Json Image Source
      → Entry Json Image
      → List (Entry Json Image)
      → TranscriptBuffer Json Image Source
  removed t e rest = record t {
    entries = rest;
    retained_bytes = saturating_sub t.retained_bytes (encoded_len s e);
    truncated = true;
  }

  -- The loop of `trim` on fuel: each round removes an entry.
  unfoldable pub trim_loop :
      ℕ → TranscriptBuffer Json Image Source → TranscriptBuffer Json Image Source
  unfolding remove_next
  trim_loop zero t = t
  trim_loop (suc fuel) t = elim (over t) [
    | false ↦ t
    | true ↦ elim (remove_next t.entries) [
      | none ↦ t
      | some (e, rest) ↦ trim_loop fuel (removed t e rest)
    ]
  ]

  unfoldable pub trim : TranscriptBuffer Json Image Source → TranscriptBuffer Json Image Source
  trim t = trim_loop (suc (length t.entries)) t

  unfoldable pub push :
      TranscriptBuffer Json Image Source → Entry Json Image → TranscriptBuffer Json Image Source
  push t e =
      let e' = fit_single_entry s e in
      trim (record t {
        entries = t.entries ++ e' ∷ [];
        retained_bytes = saturating_add t.retained_bytes (encoded_len s e');
      })
