-- ===== src/Lib.antt =====
-- misy: the core of a coding agent (crates/misy-core) with a terminal client (crates/misy-tui).
--
-- The core queues the submissions of a user, runs each as turns of a model with local tools, and
-- keeps child agents beside it. Local commands are processes: an admission limits how many run, and
-- a bounded capture keeps what each writes, from which clients take snapshots and the model takes
-- deliveries. A turn may put questions to the user, which a registry tracks until one reply.
--
-- Which file models which part:
--
-- - Output: crates/misy-core/src/tools/activity/output.rs. `Capture` has the record `OrderedOutput`
--   with `append` and the two halves of the store (`append_head`, `append_tail`, `trim_tail`),
--   `Select` the choice of what is shown (`fragments_after`, `select_head_tail`, `take_head`,
--   `take_tail`), `Project` the projections (`project`, `snapshot`, `deliver`). A deque is a list
--   with its front first, and a byte is a number. `Log` is the specification: the history of all
--   bytes with their positions. `Grow`, `Trim`, `HeadStep`, `TailStep`, `Store`, `Retention`,
--   `Delivery`, `Selection` and `Projected` prove.
-- - Admission: `reserve_slot` and `release_slot` of crates/misy-core/src/tools/activity.rs. A live
--   `ProcessPermit` is an entry of a list; its drop is a step.
-- - Questions: crates/misy-core/src/core/questions.rs. The root has the validation of a payload,
--   `Registry` the operations of `QuestionRegistry`, `Client` the calls of the core that use them
--   and the end of `shutdown_services` in crates/misy-core/src/core.rs. A sender of a one-shot
--   channel is the number of its request, and what is sent stands in the list `sent`.
-- - Agents: crates/misy-core/src/core/agents. The root has a child agent's record (`record.rs`),
--   `Registry` the registry and `register`, `Mailbox` its other operations (`registry.rs`). A
--   permit of a semaphore is a Boolean of the record that holds it, with a count of the free ones
--   in the registry. A record outlives its entry in the map, so `finish` takes the record itself.
--   `Inbox`, `Names`, `Siblings`, `Results` and `Recent` prove.
-- - ListView: crates/misy-tui/src/tui/list.rs. The root has the rows, `View` the operations of
--   `ListView`. `Validity`, `Moves`, `Matches` and `Shown` prove.
-- - Transcript: crates/misy-core/src/core/agents/transcript.rs. The root has `push`, `trim` and
--   what they use, `Pushes` the calls of them. `Bounds` and `Assignment` prove.
-- - Files: crates/misy-core/src/tools/filesystem.rs. The root has the bounded reads, `Paging` the
--   pages, `Replace` the replacement of crates/misy-core/src/tools/string_replace.rs. A text is the
--   list of its bytes. `Length` and `Pages` prove.
-- - Queue: crates/misy-core/src/core/queue.rs, and the start and the outcome of `run_submission`
--   in crates/misy-core/src/core/agent.rs. The root has submission and cancellation, `Steps` the
--   worker as a state machine whose steps interleave with the calls. `Marks`, `Accepting`,
--   `Order` and `Drain` prove.
-- - Session: crates/misy-core/src/core/session.rs, session_api.rs and compaction.rs. The root has
--   the records, `Load` reads a file, `Store` and `Entries` write one, `Live` has the
--   conversation of the core, `Compaction` the budgets and the checks of a summary, `Compact` a
--   compaction from start to end, `Calls` sequences of calls, `Names` the search for a session. A
--   file is its decoded lines and whether a line feed ends it; a write has an outcome, which is
--   an argument. `Saved`, `Appends`, `Effects`, `Keeping`, `Restored`, `Torn`, `Tails`,
--   `Outcomes` and `Budgets` prove.
-- - Checklist: crates/misy-core/src/core/todos.rs, with the arguments of a call decoded. `Valid`
--   proves.
-- - Dialog: crates/misy-tui/src/tui/question_dialog.rs. The root has what a call does to a page,
--   `Calls` the calls, `View` what is shown. `Pages`, `Finishing`, `Safety`, `Confirming`,
--   `Answers`, `Keys`, `Visible` and `Unwritten` prove, and `Accepted` sets the dialog against
--   `validate_answers` of `Questions`.
-- - Fanout: crates/misy-core/src/fanout.rs, over an interface for the channels of tokio. `Calls`
--   has sequences of calls with the receivers between them; `Numbers` and `Delivery` prove.
-- - Composer: crates/misy-tui/src/tui/composer_attachment.rs and composer.rs. The root has the
--   images of a draft, each a token in the text; `Table` and `Commands` the slash commands and
--   their popup, `Edits` the record of the composer and its edits, `Display` what it shows,
--   `History` the entries that can be recalled; offsets count bytes, and a range that is out of
--   the text, a panic, is none. `Calls` has sequences of calls without images; `Boundaries`,
--   `Edited`, `Removals`, `Safety`, `Runs`, `Recall` and `Order` prove.
-- - Common: tests and lists over native numbers, 64-bit words, ordered maps, and texts as lists of
--   Unicode scalar values.
--
-- Numbers: `usize` and `u64` are natural numbers below 2 ^ 64; saturating and wrapping operations
-- are written out where the source has them. The theorems on the capture ask that a command writes
-- no more than a Rust slice can hold (2 ^ 63 - 1 bytes) in all.
--
-- Fuel: the loop of `trim_tail` has the number of fragments plus two; each round but the last drops
-- a fragment, and a theorem below shows that the loop ends by its own test. The loop of
-- `retain_recent` has the length of the list, of which each round takes an element, and that of the
-- `trim` of a transcript the number of entries and one. A number has 20 digits at most. The search
-- for a session id has the 100 rounds of the source.
--
-- Concurrency: each operation but a compaction runs under the lock of its structure, so it is one
-- step, and theorems on sequences of steps hold for each order in which tasks take the lock. The
-- registry of agents takes several locks one after the other (records, mailbox, recent); its
-- operations are modelled one at a time, without what another task does between two locks. A
-- compaction holds no lock while its summary is awaited: what other tasks do to the conversation
-- until then is an argument of it, a function on the conversation; in the sequences of `Calls` it
-- is calls that leave the history and the active entries alone. From the summary on it is one
-- step, although it takes the locks of the history, the session and the active entries one after
-- the other.
--
-- Parameters: the lossy decoding of UTF-8 (`String::from_utf8_lossy`) and the lengths of the
-- encodings of serde_json, with none for its error; `str::to_lowercase`; the display width of a
-- text, which ratatui computes, and the equality of images; what the file system answers, and
-- `String::from_utf8`; what serde_json reads in a line that grew because no line feed stood
-- before a write; the answer of the provider to a compaction, and the product of a window with a
-- ratio; the channels of tokio, as a record of operations and laws.
--
-- Not modelled: JSON itself, processes and pseudo-terminals, the Tokio runtime, the provider
-- plugins, rendering; and, so far, the turns of a submission with the entries that last for one
-- turn only, the profiles and waits of agents, the lists of sessions, the triggers of compaction
-- and the rest of the client: of it there are here the lists, the dialog of a question and the
-- composer. The sequences of calls on the composer have no images.
mod Common
pub mod Output
pub mod Admission
pub mod Questions
pub mod Agents
pub mod ListView
pub mod Transcript
pub mod Files
pub mod Queue
pub mod Session
pub mod Checklist
pub mod Fanout
pub mod Dialog
pub mod Composer
