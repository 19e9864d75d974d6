-- ===== src/Checklist.antt =====
-- The checklist of a conversation, crates/misy-core/src/core/todos.rs. The arguments of the call are
-- decoded; the bytes of a text and of the JSON of a list are arguments, with none for an error of
-- serde_json.
pub mod Valid
pub mod Examples
use misy.Common.{
  ℕ, Bool, true, false, ◌||◌, Option, none, some, List, [], ◌∷◌, ◌++◌, length, ltb, if◌then◌else◌,
  saturating_add,
}
use misy.Common.Texts.{Text, trim, is_empty}
use misy.Session.{TodoStatus, pending, in_progress, done, TodoItem}

abbrev pub max_todo_items : ℕ
max_todo_items = 64

abbrev pub max_todo_title_chars : ℕ
max_todo_title_chars = 200

abbrev pub max_todo_text_bytes : ℕ
max_todo_text_bytes = 16384

abbrev pub max_todo_serialized_bytes : ℕ
max_todo_serialized_bytes = 32768

pub data TodoError : Type 0 where
  too_many bad_title titles_too_long payload_too_long not_encoded not_decoded : TodoError

pub record TodoSizes : Type 0 where
  pub text_len : Text → ℕ
  pub json_len : List TodoItem → Option ℕ

-- What the argument `todos` of a call is.
pub data Payload : Type 0 where
  absent malformed : Payload
  decoded : List TodoItem → Payload

pub data Reply : Type 0 where
  updated : Reply
  listing : Text → Reply
  refused : TodoError → Reply

-- The list of an agent; the lists that were persisted and told to the clients stand in `published`.
pub record Holder : Type 0 where
  pub todos : List TodoItem
  pub conversation : Bool
  pub published : List (List TodoItem)

abbrev pub bad : Text → Bool
bad title = is_empty (trim title) || ltb max_todo_title_chars (length (trim title))

module _ (s : TodoSizes) where
  -- `try_fold` over the titles: none for a title that is refused.
  unfoldable pub fold_titles : ℕ → List TodoItem → Option ℕ
  fold_titles total [] = some total
  fold_titles total (t ∷ ts) =
      let rest = fold_titles (saturating_add total (s.text_len t.title)) ts in
      if bad t.title then none else rest

  abbrev pub check_json : Option ℕ → Option TodoError
  check_json none = some not_encoded
  check_json (some n) = if ltb max_todo_serialized_bytes n then some payload_too_long else none

  abbrev pub check_bytes : List TodoItem → Option ℕ → Option TodoError
  check_bytes todos none = some bad_title
  check_bytes todos (some bytes) =
      if ltb max_todo_text_bytes bytes then some titles_too_long else check_json (s.json_len todos)

  -- None for `Ok(())`.
  unfoldable pub validate : List TodoItem → Option TodoError
  validate todos =
      if ltb max_todo_items (length todos)
      then some too_many
      else check_bytes todos (fold_titles 0 todos)

-- "pending", "in_progress" and "done"
unfoldable pub label : TodoStatus → Text
label pending = 112 ∷ 101 ∷ 110 ∷ 100 ∷ 105 ∷ 110 ∷ 103 ∷ []
label in_progress = 105 ∷ 110 ∷ 95 ∷ 112 ∷ 114 ∷ 111 ∷ 103 ∷ 114 ∷ 101 ∷ 115 ∷ 115 ∷ []
label done = 100 ∷ 111 ∷ 110 ∷ 101 ∷ []

-- "Todo list is empty."
abbrev empty_text : Text
empty_text =
    84 ∷ 111 ∷ 100 ∷ 111 ∷ 32 ∷ 108 ∷ 105 ∷ 115 ∷ 116 ∷ 32 ∷ 105 ∷ 115 ∷ 32 ∷ 101 ∷ 109 ∷ 112 ∷ 116
    ∷ 121 ∷ 46 ∷ []

-- "Current todo list:"
abbrev current_text : Text
current_text =
    67 ∷ 117 ∷ 114 ∷ 114 ∷ 101 ∷ 110 ∷ 116 ∷ 32 ∷ 116 ∷ 111 ∷ 100 ∷ 111 ∷ 32 ∷ 108 ∷ 105 ∷ 115 ∷ 116
    ∷ 58 ∷ []

-- "\n- [", the label, "] " and the title.
abbrev todo_line : TodoItem → Text
todo_line t = (10 ∷ 45 ∷ 32 ∷ 91 ∷ []) ++ (label t.status ++ ((93 ∷ 32 ∷ []) ++ t.title))

unfoldable pub write_todos : List TodoItem → Text
write_todos [] = []
write_todos (t ∷ ts) = todo_line t ++ write_todos ts

unfoldable pub format_query : List TodoItem → Text
format_query [] = empty_text
format_query (t ∷ ts) = current_text ++ write_todos (t ∷ ts)

abbrev pub publish : Bool → Holder → List TodoItem → Holder
publish true h todos = record h { published = h.published ++ todos ∷ [] }
publish false h todos = h

module _ (s : TodoSizes) where
  abbrev pub replace_with : Holder → List TodoItem → Option TodoError → Holder × Reply
  replace_with h todos (some e) = (h, refused e)
  replace_with h todos none = (publish h.conversation (record h { todos = todos }) todos, updated)

  unfoldable pub dispatch : Holder → Payload → Holder × Reply
  dispatch h absent = (h, listing (format_query h.todos))
  dispatch h malformed = (h, refused not_decoded)
  dispatch h (decoded todos) = replace_with h todos (validate s todos)
