-- ===== src/Session/Live.antt =====
-- The conversation of a running core and how it is kept: the parts of `CoreState` that
-- crates/misy-core/src/core/session_api.rs and `push_main_history` and `clear_main_history_images` of
-- crates/misy-core/src/core/agent.rs read and write. The events that report a failed write are left
-- out.
use misy.Common.{ℕ, false, Option, none, some, List, [], ◌∷◌, ◌++◌, map}
use misy.Common.Assoc.{Assoc, lookup}
use misy.Common.Texts.{Text}
use misy.Transcript.{ToolResult}
use misy.Session.{ModelRef, TodoItem, HistoryEntry, SessionFile}
use misy.Session.Load.{LoadResult, loaded, failed, load_path}
use misy.Session.Store.{Io, SessionState, detach, attach}
use misy.Session.Entries.{append_history, append_model, append_thinking, append_todos}

pub record Live (Json Image : Type 0) : Type 0 where
  pub session : SessionState Json Image
  pub history : List (HistoryEntry Json Image)
  pub active_history : List (HistoryEntry Json Image)
  pub todos : List TodoItem
  pub selected_model : Option ModelRef
  pub selected_thinking : Option Text

abbrev pub without_images : {Image : Type 0} → ToolResult Image → ToolResult Image
without_images r = record r { attachments = [] }

module _ {Json Image : Type 0} where
  abbrev pub new_live : Assoc (SessionFile Json Image) → Live Json Image
  new_live files = record {
    session = record { files = files; current = none; poisoned = false };
    history = [];
    active_history = [];
    todos = [];
    selected_model = none;
    selected_thinking = none;
  }

  unfoldable pub persist_history :
      Live Json Image → HistoryEntry Json Image → Io Json Image → Live Json Image
  persist_history c entry o = record c {
    session = (append_history c.session entry c.selected_model o).0;
  }

  unfoldable pub push_main_history :
      Live Json Image → HistoryEntry Json Image → Io Json Image → Live Json Image
  unfolding persist_history
  push_main_history c entry o =
      persist_history
        (record c {
          history = c.history ++ entry ∷ [];
          active_history = c.active_history ++ entry ∷ [];
        })
        entry o

  abbrev pub clear_images : HistoryEntry Json Image → HistoryEntry Json Image
  clear_images e = record e { attachments = []; tool_results = map without_images e.tool_results }

  unfoldable pub clear_main_history_images : Live Json Image → Live Json Image
  clear_main_history_images c = record c { active_history = map clear_images c.active_history }

  -- The write of a checklist: `dispatch` of crates/misy-core/src/core/todos.rs, with `persist_todos`.
  unfoldable pub replace_todos : Live Json Image → List TodoItem → Io Json Image → Live Json Image
  replace_todos c todos o = record c {
    todos = todos;
    session = (append_todos c.session todos c.selected_model o).0;
  }

  unfoldable pub persist_model_change : Live Json Image → ModelRef → Io Json Image → Live Json Image
  persist_model_change c model o = record c {
    session = (append_model c.session model c.selected_thinking o).0;
  }

  unfoldable pub persist_thinking_change :
      Live Json Image → Option Text → Io Json Image → Live Json Image
  persist_thinking_change c thinking o = record c {
    session = (append_thinking c.session thinking c.selected_model o).0;
  }

  unfoldable pub new_session : Live Json Image → Live Json Image
  new_session c = record c {
    history = [];
    active_history = [];
    todos = [];
    session = detach c.session;
  }

module _ {Json Image : Type 0} (null : Json) where
  abbrev pub restored : Live Json Image → ℕ → LoadResult Json Image → Live Json Image
  restored c path (failed e) = c
  restored c path (loaded header l) = record c {
    history = l.history;
    active_history = l.active_history;
    todos = l.todos;
    session = attach c.session header.id path l;
  }

  abbrev pub restored_from : Live Json Image → ℕ → Option (SessionFile Json Image) → Live Json Image
  restored_from c path none = c
  restored_from c path (some file) = restored c path (load_path null file)

  -- `resume_session` for a path that `resolve_path` has found, without the choice of the model.
  unfoldable pub resume_session : Live Json Image → ℕ → Live Json Image
  resume_session c path = restored_from c path (lookup path c.session.files)
