-- ===== src/Session/Examples.antt =====
-- The theorems on a conversation of three entries that is compacted and goes on.
use misy.Common.{ℕ, ◌*◌, ◌≤◌, true, false, none, some, List, [], ◌∷◌, ◌≡◌, refl, ◌⊎◌, length}
use misy.Common.Assoc.{lookup, insert}
use misy.Common.Texts.{text_eq, is_empty, trim, trim_start, is_whitespace}
use misy.Session.{
  MessageRole, user, assistant, HistoryEntry, SessionFile, SessionRecordLine, garbled, unreadable,
  whole, history_entry,
}
use misy.Session.Load.{load_path, summary_entry}
use misy.Session.Store.{
  Io, created, written, CurrentSession, create, create_loop, append, new_header,
}
use misy.Session.Entries.{append_todos, append_history, append_compaction}
use misy.Session.Live.{
  Live, replace_todos, new_live, persist_history, push_main_history, resume_session,
}
use misy.Session.Compaction.{
  Measures, Compactor, Request, answered, preserved_tail_start, user_positions, estimate_entries,
  generate_summary, last_assistant, with_appendix,
}
use misy.Session.Compact.{
  compact_history, start_compaction, finish_compaction, generate_and_persist_compaction,
}
use misy.Session.Calls.{Call, pushes, compacts, writes_todos, quiet_run, quiet_step, step, run}
use misy.Session.Restored.{SameConversation, resume_session-run}
use misy.Session.Torn.{write_all, load_path-write_all}
use misy.Session.Tails.{count_users, BeforeLast, preserved_tail_start_lem}
use misy.Session.Names.{
  DirectoryEntry, jsonl, strip_suffix, resolve_path, chosen, exact_of, prefixed_of,
  resolve_path-chosen,
}

abbrev ExampleEntry : Type 0
ExampleEntry = HistoryEntry (Unit {0}) (Unit {0})

abbrev said : MessageRole → ℕ → ExampleEntry
said role c = record {
  message = record { role = role; content = c ∷ [] };
  attachments = [];
  tool_calls = [];
  tool_results = [];
  provider_metadata = tt;
}

abbrev good : Io (Unit {0}) (Unit {0})
good = record {
  attempts = λ i. record { id = 97 ∷ []; path = 7; outcome = created };
  now = 5;
  outcome = written;
  joined = garbled;
  joined_header = none;
}

abbrev a_line : ℕ → ℕ → SessionRecordLine (Unit {0}) (Unit {0})
a_line n c = record { ordinal = n; timestamp = 5; record_ = history_entry (said user c) }

-- A JSON of 100 characters for each entry.
abbrev even_measures : Measures (Unit {0}) (Unit {0})
even_measures = record { json_chars = λ es. some (length es * 100); text_len = length }

abbrev talk : List ExampleEntry
talk = said user 98 ∷ said assistant 99 ∷ said user 100 ∷ said assistant 101 ∷ said user 102 ∷ []

abbrev a_request : Request (Unit {0}) (Unit {0})
a_request = record {
  profile = record { model = record { provider = []; model = [] }; thinking = none };
  focus = [];
  trigger = [];
  answer = answered (said assistant 120 ∷ []);
  appendix = [];
  now_millis = 9;
  disk = good;
}

abbrev new_core : Compactor (Unit {0}) (Unit {0})
new_core = record { live = new_live []; compaction = none; emitted = [] }

abbrev calls : List (Call (Unit {0}) (Unit {0}))
calls =
    pushes (said user 98) good
    ∷ pushes (said assistant 99) good
    ∷ pushes (said user 100) good
    ∷ pushes (said assistant 101) good
    ∷ pushes (said user 102) good
    ∷ compacts a_request (writes_todos [] good ∷ [])
    ∷ pushes (said assistant 103) good
    ∷ []

abbrev a_session : CurrentSession
a_session = record { id = 97 ∷ []; path = 7; next_ordinal = 9 }

resume_session-run_example :
    SameConversation
      (resume_session tt (run tt even_measures new_core calls).live 7)
      (run tt even_measures new_core calls).live
unfolding run step quiet_run quiet_step replace_todos append_todos push_main_history persist_history
    append_history append create create_loop lookup insert compact_history preserved_tail_start
    user_positions estimate_entries start_compaction finish_compaction
    generate_and_persist_compaction generate_summary last_assistant with_appendix append_compaction
    summary_entry is_empty trim trim_start is_whitespace
resume_session-run_example =
    resume_session-run tt even_measures new_core calls a_session (refl, refl, refl) refl refl

abbrev talking : Compactor (Unit {0}) (Unit {0})
talking = record new_core { live = record (new_live []) { history = talk; active_history = talk } }

abbrev a_file : SessionFile (Unit {0}) (Unit {0})
a_file = record {
  header = some (new_header (97 ∷ []) 5 none);
  lines = whole (a_line 1 98) ∷ garbled ∷ [];
  ended = true;
}

-- A record was cut inside a character, and two more are written behind it.
abbrev torn_file : SessionFile (Unit {0}) (Unit {0})
torn_file = record a_file { lines = whole (a_line 1 98) ∷ unreadable ∷ []; ended = false }

load_path-write_all_example :
    load_path tt (write_all torn_file ((a_line 2 99, good) ∷ (a_line 3 100, good) ∷ []))
    ≡ load_path tt torn_file
load_path-write_all_example =
    load_path-write_all tt torn_file ((a_line 2 99, good) ∷ (a_line 3 100, good) ∷ []) refl

preserved_tail_start_lem_example :
    ((preserved_tail_start talk ≡ none) × (count_users talk ≤ 1))
    ⊎ ((m : ℕ) × (preserved_tail_start talk ≡ some m) × BeforeLast talk m)
preserved_tail_start_lem_example = preserved_tail_start_lem talk

-- While the summary is awaited, a submission adds an entry.
abbrev pushed : Live (Unit {0}) (Unit {0}) → Live (Unit {0}) (Unit {0})
pushed c = push_main_history c (said user 110) good

abbrev a_directory : List DirectoryEntry
a_directory =
    record { path = 1; stem = some (97 ∷ 98 ∷ []) }
    ∷ record { path = 2; stem = none }
    ∷ record { path = 3; stem = some (97 ∷ []) }
    ∷ []

resolve_path-chosen_example :
    resolve_path (some a_directory) (97 ∷ jsonl)
    ≡ chosen (97 ∷ []) (exact_of (97 ∷ []) a_directory) (prefixed_of (97 ∷ []) a_directory)
unfolding strip_suffix text_eq
resolve_path-chosen_example = resolve_path-chosen (97 ∷ jsonl) a_directory
