-- ===== src/Files.antt =====
-- The file tools, crates/misy-core/src/tools/filesystem.rs: the bounded reads of a file. A text is
-- the list of its UTF-8 bytes. What the file system answers is an argument, and so is the check of
-- UTF-8 (`String::from_utf8`). Child modules: `Replace` for string_replace.rs, `Paging` for the pages.
pub mod Replace
pub mod Length
pub mod Paging
pub mod Pages
pub mod Examples
use misy.Common.{
  ℕ, zero, suc, ◌+◌, ◌-◌, Bool, true, false, not, ◌&&◌, Option, none, some, List, [], ◌∷◌, length,
  take, ltb, if◌then◌else◌,
}

abbrev pub max_text_file_bytes : ℕ
max_text_file_bytes = 4194304

pub data FileError : Type 0 where
  unreadable not_regular too_large invalid_utf8 : FileError

pub data FileResult (A : Type 0) : Type 0 where
  ok : A → FileResult A
  err : FileError → FileResult A

pub record Metadata : Type 0 where
  pub is_file : Bool
  pub len : ℕ

-- What the file system answers about a path: its metadata, and the bytes from opening it on.
pub record Disk : Type 0 where
  pub metadata : Option Metadata
  pub bytes : Option (List ℕ)

-- `String::from_utf8`: whether bytes are UTF-8, how many of them are (`valid_up_to`), and whether
-- the rest may be the start of a character (`error_len` is none).
pub record Utf8 : Type 0 where
  pub is_valid : List ℕ → Bool
  pub valid_up_to : List ℕ → ℕ
  pub is_cut : List ℕ → Bool
  pub from_utf8_lossy : List ℕ → List ℕ

pub record BoundedText : Type 0 where
  pub content : List ℕ
  pub read_boundary_reached : Bool
  pub physical_bytes : ℕ

module _ (u : Utf8) where
  abbrev checked : List ℕ → FileResult (List ℕ)
  checked bytes = if u.is_valid bytes then ok bytes else err invalid_utf8

  abbrev complete_bytes : Option (List ℕ) → FileResult (List ℕ)
  complete_bytes none = err unreadable
  complete_bytes (some bytes) =
      let read = take (max_text_file_bytes + 1) bytes in
      if ltb max_text_file_bytes (length read) then err too_large else checked read

  abbrev complete_file : Option Metadata → Option (List ℕ) → FileResult (List ℕ)
  complete_file none bytes = err unreadable
  complete_file (some m) bytes =
      if not m.is_file
      then err not_regular
      else if ltb max_text_file_bytes m.len
      then err too_large
      else complete_bytes bytes

  unfoldable pub read_complete_utf8_file : Disk → FileResult (List ℕ)
  read_complete_utf8_file d = complete_file d.metadata d.bytes

  abbrev bounded : ℕ → Bool → List ℕ → FileResult BoundedText
  bounded physical reached bytes =
      if u.is_valid bytes
      then ok
          (record { content = bytes; read_boundary_reached = reached; physical_bytes = physical })
      else if reached && u.is_cut bytes
      then ok (record {
        content = u.from_utf8_lossy (take (u.valid_up_to bytes) bytes);
        read_boundary_reached = reached;
        physical_bytes = physical;
      })
      else err invalid_utf8

  abbrev bounded_bytes : ℕ → Option (List ℕ) → FileResult BoundedText
  bounded_bytes physical none = err unreadable
  bounded_bytes physical (some bytes) =
      let read = take (max_text_file_bytes + 1) bytes in
      bounded physical (ltb max_text_file_bytes (length read)) (take max_text_file_bytes read)

  abbrev bounded_file : Option Metadata → Option (List ℕ) → FileResult BoundedText
  bounded_file none bytes = err unreadable
  bounded_file (some m) bytes = if not m.is_file then err not_regular else bounded_bytes m.len bytes

  unfoldable pub load_bounded_utf8 : Disk → FileResult BoundedText
  load_bounded_utf8 d = bounded_file d.metadata d.bytes
