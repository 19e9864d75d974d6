-- ===== src/Session/Store.antt =====
-- Writing a conversation, `SessionState` of crates/misy-core/src/core/session.rs. What the file
-- system answers to a call is an argument: how the creation of a file and a write end, and the time.
use misy.Common.{
  ℕ, zero, suc, ◌+◌, ◌%◌, ◌^◌, Bool, true, false, Option, none, some, List, [], ◌∷◌, ◌++◌,
  modify_back, if◌then◌else◌,
}
use misy.Common.Assoc.{Assoc, lookup, insert}
use misy.Common.Texts.{Text}
use misy.Session.{
  ModelRef, SessionHeader, SessionRecord, SessionRecordLine, Line, whole, garbled, unreadable,
  SessionFile, session_version,
}
use misy.Session.Load.{Loaded}

-- A write that fails may have written nothing, a part of the line, which may end inside a character,
-- or all but the line feed.
pub data Written : Type 0 where
  written not_written cut cut_inside unended : Written

pub data Created : Type 0 where
  created denied : Created
  header_lost : Written → Created

pub record Attempt : Type 0 where
  pub id : Text
  pub path : ℕ
  pub outcome : Created

-- Besides, what serde_json reads in a line that grew: the bytes of a write behind a line with no
-- line feed become a part of that line.
pub record Io (Json Image : Type 0) : Type 0 where
  pub attempts : ℕ → Attempt
  pub now : ℕ
  pub outcome : Written
  pub joined : Line Json Image
  pub joined_header : Option SessionHeader

pub data SessionError : Type 0 where
  io : SessionError
  not_found ambiguous : Text → SessionError

pub record CurrentSession : Type 0 where
  pub id : Text
  pub path : ℕ
  pub next_ordinal : ℕ

-- The session state with the files of its directory.
pub record SessionState (Json Image : Type 0) : Type 0 where
  pub files : Assoc (SessionFile Json Image)
  pub current : Option CurrentSession
  pub poisoned : Bool

abbrev pub new_header : Text → ℕ → Option ModelRef → SessionHeader
new_header id now model = record {
  version = session_version;
  id = id;
  created_at = now;
  model = model;
  thinking = none;
}

abbrev pub opened_session : Text → ℕ → CurrentSession
opened_session id path = record { id = id; path = path; next_ordinal = 1 }

module _ {Json Image : Type 0} where
  -- A line that is cut inside a character is not UTF-8, whatever JSON is behind it.
  abbrev pub grown : Line Json Image → Line Json Image → Line Json Image
  grown joined unreadable = unreadable
  grown joined _ = joined

  -- What is written behind an unended line becomes a part of it.
  abbrev pub merged :
      SessionFile Json Image → Io Json Image → List (Line Json Image) → SessionFile Json Image
  merged file o [] = record file { header = o.joined_header }
  merged file o (l ∷ ls) = record file { lines = modify_back (grown o.joined) (l ∷ ls) }

  abbrev pub add_to :
      Bool
      → SessionFile Json Image
      → Io Json Image
      → Line Json Image
      → Bool
      → SessionFile Json Image
  add_to true file o line ended = record file { lines = file.lines ++ line ∷ []; ended = ended }
  add_to false file o line ended = record (merged file o file.lines) { ended = ended }

  abbrev pub write_line :
      SessionFile Json Image
      → SessionRecordLine Json Image
      → Io Json Image
      → Written
      → SessionFile Json Image
  write_line file line o written = add_to file.ended file o (whole line) true
  write_line file line o not_written = file
  write_line file line o cut = add_to file.ended file o garbled false
  write_line file line o cut_inside = add_to file.ended file o unreadable false
  write_line file line o unended = add_to file.ended file o (whole line) false

  unfoldable pub append_json_line :
      SessionFile Json Image → SessionRecordLine Json Image → Io Json Image → SessionFile Json Image
  append_json_line file line o = write_line file line o o.outcome

  abbrev pub new_file : Option SessionHeader → Bool → SessionFile Json Image
  new_file header ended = record { header = header; lines = []; ended = ended }

  -- A file whose header could not be written.
  abbrev headless : Written → SessionHeader → SessionFile Json Image
  headless unended header = new_file (some header) false
  headless cut header = new_file none false
  headless cut_inside header = new_file none false
  headless not_written header = new_file none true
  headless written header = new_file (some header) true

  abbrev pub create_file :
      SessionState Json Image
      → Attempt
      → Option ModelRef
      → ℕ
      → Created
      → SessionState Json Image × Option CurrentSession
  create_file s a model now denied = (s, none)
  create_file s a model now (header_lost w) =
      (record s { files = insert a.path (headless w (new_header a.id now model)) s.files }, none)
  create_file s a model now created = (
    record s { files = insert a.path (new_file (some (new_header a.id now model)) true) s.files },
    some (opened_session a.id a.path),
  )

  abbrev pub unless_taken :
      Option (SessionFile Json Image)
      → SessionState Json Image × Option CurrentSession
      → SessionState Json Image × Option CurrentSession
      → SessionState Json Image × Option CurrentSession
  unless_taken (some f) later now = later
  unless_taken none later now = now

  -- The loop of `create` over at most `fuel` ids; a path that is taken is passed over.
  unfoldable pub create_loop :
      ℕ
      → ℕ
      → SessionState Json Image
      → Io Json Image
      → Option ModelRef
      → SessionState Json Image × Option CurrentSession
  create_loop zero i s o model = (s, none)
  create_loop (suc fuel) i s o model =
      let later = create_loop fuel (suc i) s o model in
      unless_taken (lookup (o.attempts i).path s.files) later
        (create_file s (o.attempts i) model o.now (o.attempts i).outcome)

  unfoldable pub create :
      SessionState Json Image
      → Io Json Image
      → Option ModelRef
      → SessionState Json Image × Option CurrentSession
  create s o model = create_loop 100 0 s o model

  abbrev pub append_outcome :
      SessionState Json Image
      → CurrentSession
      → Written
      → SessionState Json Image × Option SessionError
  append_outcome s c written = (
    record s { current = some (record c { next_ordinal = (c.next_ordinal + 1) % 2 ^ 64 }) },
    none,
  )
  append_outcome s c _ = (record s { current = some c; poisoned = true }, some io)

  -- The file of the current session; a file that is gone cannot be opened.
  abbrev pub append_in :
      SessionState Json Image
      → CurrentSession
      → SessionRecord Json Image
      → Io Json Image
      → Option (SessionFile Json Image)
      → SessionState Json Image × Option SessionError
  append_in s c r o none = append_outcome s c not_written
  append_in s c r o (some file) =
      append_outcome
        (record s {
          files =
              insert c.path
                (append_json_line file
                  (record { ordinal = c.next_ordinal; timestamp = o.now; record_ = r }) o)
                s.files;
        })
        c o.outcome

  abbrev pub append_to :
      SessionState Json Image
      → SessionRecord Json Image
      → Io Json Image
      → Option CurrentSession
      → SessionState Json Image × Option SessionError
  append_to s r o none = (record s { poisoned = true }, some io)
  append_to s r o (some c) = append_in s c r o (lookup c.path s.files)

  -- The session in use, which is created when there is none.
  abbrev pub session_of :
      SessionState Json Image
      → Io Json Image
      → Option ModelRef
      → Option CurrentSession
      → SessionState Json Image × Option CurrentSession
  session_of s o model (some c) = (s, some c)
  session_of s o model none = create s o model

  unfoldable pub append :
      SessionState Json Image
      → SessionRecord Json Image
      → Option ModelRef
      → Io Json Image
      → SessionState Json Image × Option SessionError
  append s r model o =
      if s.poisoned
      then (s, none)
      else let p = session_of s o model s.current in append_to p.0 r o p.1

  unfoldable pub detach : SessionState Json Image → SessionState Json Image
  detach s = record s { current = none; poisoned = false }

  unfoldable pub attach :
      SessionState Json Image → Text → ℕ → Loaded Json Image → SessionState Json Image
  attach s id path l = record s {
    current = some (record { id = id; path = path; next_ordinal = l.next_ordinal });
    poisoned = false;
  }
