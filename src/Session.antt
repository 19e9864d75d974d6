-- ===== src/Session.antt =====
-- Saved conversations, crates/misy-core/src/core/session.rs, with the entries of a conversation from
-- crates/misy-core/src/core/contracts.rs. A file is the lines that it holds, decoded: the JSON of a
-- record is read back as it was written. The directory is a map from numbers that stand for paths.
pub mod Load
pub mod Entries
pub mod Store
pub mod Live
pub mod Compaction
pub mod Compact
pub mod Saved
pub mod Appends
pub mod Effects
pub mod Keeping
pub mod Calls
pub mod Restored
pub mod Torn
pub mod Tails
pub mod Outcomes
pub mod Budgets
pub mod Names
pub mod Examples
use misy.Common.{
  ℕ, ◌+◌, Bool, true, false, Option, none, some, List, [], ◌∷◌, ◌++◌, ◌≡◌, refl, append_assoc, drop,
  saturating_add, max,
}
use misy.Common.Texts.{Text}
use misy.Transcript.{ToolCall, ToolResult}

pub data MessageRole : Type 0 where
  system user assistant tool : MessageRole

pub record Message : Type 0 where
  pub role : MessageRole
  pub content : Text

pub data TodoStatus : Type 0 where
  pending in_progress done : TodoStatus

pub record TodoItem : Type 0 where
  pub title : Text
  pub status : TodoStatus

pub record ModelRef : Type 0 where
  pub provider : Text
  pub model : Text

pub record ModelProfile : Type 0 where
  pub model : ModelRef
  pub thinking : Option Text

pub record CompactionCheckpoint : Type 0 where
  pub summary : Text
  pub first_kept_index : ℕ
  pub profile : ModelProfile
  pub tokens_before : ℕ
  pub tokens_after : ℕ
  pub trigger : Text
  pub timestamp_ms : ℕ
  pub history_len : ℕ

-- `parent_session` is always none, and the directory and the version of the program play no part.
pub record SessionHeader : Type 0 where
  pub version : ℕ
  pub id : Text
  pub created_at : ℕ
  pub model : Option ModelRef
  pub thinking : Option Text

abbrev pub session_version : ℕ
session_version = 1

module _ (Json Image : Type 0) where
  pub record HistoryEntry : Type 0 where
    pub message : Message
    pub attachments : List Image
    pub tool_calls : List (ToolCall Json)
    pub tool_results : List (ToolResult Image)
    pub provider_metadata : Json

  pub data SessionRecord : Type 0 where
    history_entry : HistoryEntry → SessionRecord
    model_change : ModelRef → Option Text → SessionRecord
    thinking_change : Option Text → SessionRecord
    compaction : CompactionCheckpoint → SessionRecord
    todo_list_update : List TodoItem → SessionRecord

  pub record SessionRecordLine : Type 0 where
    pub ordinal : ℕ
    pub timestamp : ℕ
    pub record_ : SessionRecord

  -- A line that was written whole, an envelope with its ordinal whose record is not understood, or
  -- a line that is not an envelope; and a line that is not UTF-8.
  pub data Line : Type 0 where
    whole : SessionRecordLine → Line
    unknown_record : ℕ → Line
    garbled : Line
    unreadable : Line

  -- `ended` says whether a line feed stands at the end.
  pub record SessionFile : Type 0 where
    pub header : Option SessionHeader
    pub lines : List Line
    pub ended : Bool
