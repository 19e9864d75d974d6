-- ===== src/Session/Saved.antt =====
-- What a file keeps of a conversation: the invariant of the session state of
-- crates/misy-core/src/core/session.rs, and its preservation by a record that is appended.
use misy.Common.{
  ℕ, ◌≤◌, Bool, true, false, Option, none, some, List, [], ◌++◌, ◌≡◌, length, drop, map,
}
use misy.Common.Assoc.{lookup}
use misy.Session.{TodoItem, HistoryEntry, SessionFile, SessionHeader, session_version}
use misy.Session.Load.{Loaded, opened, load_lines, all_readable}
use misy.Session.Store.{CurrentSession, SessionState}
use misy.Session.Live.{clear_images}

module _ {Json Image : Type 0} where
  -- The active entries are the last ones of the history behind one entry at most.
  pub record Tail (history active : List (HistoryEntry Json Image)) : Type 0 where
    pub head : List (HistoryEntry Json Image)
    pub start : ℕ
    pub tail : active ≡ head ++ drop start history
    pub short : length head ≤ 1
    pub within : start ≤ length history

  -- What was read is the history, the active entries but for their images, and the checklist.
  pub record Matches (h a : List (HistoryEntry Json Image)) (t : List TodoItem)
      (l : Loaded Json Image) : Type 0 where
    pub history : l.history ≡ h
    pub active : map clear_images l.active_history ≡ map clear_images a
    pub todos : l.todos ≡ t
    pub tail : Tail l.history l.active_history

module _ {Json Image : Type 0} (null : Json) where
  -- The file is UTF-8 and ends with a line feed, and reading it gives the conversation.
  pub record Keeps (h a : List (HistoryEntry Json Image)) (t : List TodoItem)
      (f : SessionFile Json Image) : Type 0 where
    pub ended : f.ended ≡ true
    pub header : SessionHeader
    pub is_header : f.header ≡ some header
    pub is_version : header.version ≡ session_version
    pub readable : all_readable f.lines ≡ true
    pub matches : Matches h a t (load_lines null (opened header) f.lines)

  abbrev pub KeptIn :
      List (HistoryEntry Json Image)
      → List (HistoryEntry Json Image)
      → List TodoItem
      → Option (SessionFile Json Image)
      → Type 0
  KeptIn h a t none = ⊥
  KeptIn h a t (some f) = Keeps h a t f

  -- By whether a write has failed, and by the current session.
  abbrev pub SavedBy :
      List (HistoryEntry Json Image)
      → List (HistoryEntry Json Image)
      → List TodoItem
      → SessionState Json Image
      → Bool
      → Option CurrentSession
      → Type 0
  SavedBy h a t s true o = Unit {0}
  SavedBy h a t s false none = (h ≡ []) × (a ≡ []) × (t ≡ [])
  SavedBy h a t s false (some c) = KeptIn h a t (lookup c.path s.files)

  abbrev pub SavedIn :
      List (HistoryEntry Json Image)
      → List (HistoryEntry Json Image)
      → List TodoItem
      → SessionState Json Image
      → Type 0
  SavedIn h a t s = SavedBy h a t s s.poisoned s.current
