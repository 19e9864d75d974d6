-- ===== src/Session/Entries.antt =====
-- The entries that are appended to a session file, crates/misy-core/src/core/session.rs.
use misy.Common.{Option, none, some, List}
use misy.Common.Texts.{Text}
use misy.Session.{
  ModelRef, TodoItem, CompactionCheckpoint, HistoryEntry, SessionRecord, history_entry,
  model_change, thinking_change, compaction, todo_list_update,
}
use misy.Session.Store.{CurrentSession, Io, SessionError, SessionState, append}

module _ {Json Image : Type 0} where
  unfoldable pub append_history :
      SessionState Json Image
      → HistoryEntry Json Image
      → Option ModelRef
      → Io Json Image
      → SessionState Json Image × Option SessionError
  append_history s entry model o = append s (history_entry entry) model o

  -- A change of the model or of the thinking level is recorded in a session that exists.
  abbrev pub append_if :
      SessionState Json Image
      → SessionRecord Json Image
      → Option ModelRef
      → Io Json Image
      → Option CurrentSession
      → SessionState Json Image × Option SessionError
  append_if s r model o none = (s, none)
  append_if s r model o (some c) = append s r model o

  unfoldable pub append_model :
      SessionState Json Image
      → ModelRef
      → Option Text
      → Io Json Image
      → SessionState Json Image × Option SessionError
  append_model s model thinking o =
      append_if s (model_change model thinking) (some model) o s.current

  unfoldable pub append_thinking :
      SessionState Json Image
      → Option Text
      → Option ModelRef
      → Io Json Image
      → SessionState Json Image × Option SessionError
  append_thinking s thinking model o = append_if s (thinking_change thinking) model o s.current

  unfoldable pub append_compaction :
      SessionState Json Image
      → CompactionCheckpoint
      → Option ModelRef
      → Io Json Image
      → SessionState Json Image × Option SessionError
  append_compaction s checkpoint model o = append s (compaction checkpoint) model o

  unfoldable pub append_todos :
      SessionState Json Image
      → List TodoItem
      → Option ModelRef
      → Io Json Image
      → SessionState Json Image × Option SessionError
  append_todos s todos model o = append s (todo_list_update todos) model o
