-- ===== src/Session/Load.antt =====
-- Reading a saved conversation back, `load_path` of crates/misy-core/src/core/session.rs.
use misy.Common.{
  ℕ, Bool, true, false, Option, none, some, List, [], ◌∷◌, ◌++◌, ◌≡◌, refl, drop, saturating_add,
  max, ◌==◌, if◌then◌else◌,
}
use misy.Common.Texts.{Text}
use misy.Session.{
  user, ModelRef, TodoItem, CompactionCheckpoint, SessionHeader, HistoryEntry, SessionRecord,
  history_entry, model_change, thinking_change, compaction, todo_list_update, Line, whole,
  unknown_record, garbled, unreadable, SessionFile, session_version,
}

pub data LoadError : Type 0 where
  header_missing : LoadError
  unsupported_version : ℕ → LoadError

-- The state of the loop of `load_path`; what it has at the end is a `LoadedSession`.
pub record Loaded (Json Image : Type 0) : Type 0 where
  pub history : List (HistoryEntry Json Image)
  pub active_history : List (HistoryEntry Json Image)
  pub todos : List TodoItem
  pub compactions : List CompactionCheckpoint
  pub model : Option ModelRef
  pub thinking : Option Text
  pub next_ordinal : ℕ

pub data LoadResult (Json Image : Type 0) : Type 0 where
  loaded : SessionHeader → Loaded Json Image → LoadResult Json Image
  failed : LoadError → LoadResult Json Image

-- "Previous context was compacted.\n\n"
abbrev pub compacted_text : Text
compacted_text =
    80 ∷ 114 ∷ 101 ∷ 118 ∷ 105 ∷ 111 ∷ 117 ∷ 115 ∷ 32 ∷ 99 ∷ 111 ∷ 110 ∷ 116 ∷ 101 ∷ 120 ∷ 116 ∷ 32
    ∷ 119 ∷ 97 ∷ 115 ∷ 32 ∷ 99 ∷ 111 ∷ 109 ∷ 112 ∷ 97 ∷ 99 ∷ 116 ∷ 101 ∷ 100 ∷ 46 ∷ 10 ∷ 10 ∷ []

module _ {Json Image : Type 0} where
  abbrev pub seen : Loaded Json Image → ℕ → Loaded Json Image
  seen l ordinal = record l { next_ordinal = max l.next_ordinal (saturating_add ordinal 1) }

  abbrev pub opened : SessionHeader → Loaded Json Image
  opened header = record {
    history = [];
    active_history = [];
    todos = [];
    compactions = [];
    model = header.model;
    thinking = header.thinking;
    next_ordinal = 1;
  }

  -- Whether each line is UTF-8.
  abbrev pub all_readable : List (Line Json Image) → Bool
  all_readable [] = true
  all_readable (unreadable ∷ lines) = false
  all_readable (whole line ∷ lines) = all_readable lines
  all_readable (unknown_record ordinal ∷ lines) = all_readable lines
  all_readable (garbled ∷ lines) = all_readable lines

module _ {Json Image : Type 0} (null : Json) where
  -- The entry that `summary_entry` of compaction.rs and `projected_history` build alike.
  unfoldable pub summary_entry : Text → HistoryEntry Json Image
  summary_entry summary = record {
    message = record { role = user; content = compacted_text ++ summary };
    attachments = [];
    tool_calls = [];
    tool_results = [];
    provider_metadata = null;
  }

  unfoldable pub projected_history :
      List (HistoryEntry Json Image) → CompactionCheckpoint → List (HistoryEntry Json Image)
  projected_history history checkpoint =
      summary_entry checkpoint.summary ∷ drop checkpoint.first_kept_index history

  unfoldable pub load_record : Loaded Json Image → SessionRecord Json Image → Loaded Json Image
  load_record l (history_entry entry) = record l {
    history = l.history ++ entry ∷ [];
    active_history = l.active_history ++ entry ∷ [];
  }
  load_record l (model_change changed thinking) = record l {
    model = some changed;
    thinking = thinking;
  }
  load_record l (thinking_change changed) = record l { thinking = changed }
  load_record l (compaction checkpoint) = record l {
    active_history = projected_history l.history checkpoint;
    compactions = l.compactions ++ checkpoint ∷ [];
  }
  load_record l (todo_list_update updated) = record l { todos = updated }

  unfoldable pub load_line : Loaded Json Image → Line Json Image → Loaded Json Image
  unfolding load_record
  load_line l (whole line) = load_record (seen l line.ordinal) line.record_
  load_line l (unknown_record ordinal) = seen l ordinal
  load_line l garbled = l
  load_line l unreadable = l

  -- The iterator over the lines ends at the first that is not UTF-8, `map_while(Result::ok)`.
  unfoldable pub load_lines : Loaded Json Image → List (Line Json Image) → Loaded Json Image
  unfolding load_line
  load_lines l [] = l
  load_lines l (unreadable ∷ lines) = l
  load_lines l (whole line ∷ lines) = load_lines (load_line l (whole line)) lines
  load_lines l (unknown_record ordinal ∷ lines) =
      load_lines (load_line l (unknown_record ordinal)) lines
  load_lines l (garbled ∷ lines) = load_lines (load_line l garbled) lines

  abbrev pub with_header : Option SessionHeader → List (Line Json Image) → LoadResult Json Image
  with_header none lines = failed header_missing
  with_header (some header) lines =
      if header.version == session_version
      then loaded header (load_lines (opened header) lines)
      else failed (unsupported_version header.version)

  unfoldable pub load_path : SessionFile Json Image → LoadResult Json Image
  load_path file = with_header file.header file.lines

  pub load_lines-append :
      (l : Loaded Json Image) (xs ys : List (Line Json Image))
      → all_readable xs ≡ true
      → load_lines l (xs ++ ys) ≡ load_lines (load_lines l xs) ys
  unfolding load_lines
  load_lines-append l [] ys h = refl
  load_lines-append l (whole x ∷ xs) ys h = load_lines-append (load_line l (whole x)) xs ys h
  load_lines-append l (unknown_record n ∷ xs) ys h =
      load_lines-append (load_line l (unknown_record n)) xs ys h
  load_lines-append l (garbled ∷ xs) ys h = load_lines-append (load_line l garbled) xs ys h
  load_lines-append l (unreadable ∷ xs) ys h = absurd cc
