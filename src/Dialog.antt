-- ===== src/Dialog.antt =====
-- The dialog of a question request, crates/misy-tui/src/tui/question_dialog.rs: a page for each
-- question, and the tabs. An index out of range, a panic in the source, is none.
pub mod Calls
pub mod View
pub mod Finishing
pub mod Pages
pub mod Safety
pub mod Confirming
pub mod Answers
pub mod Keys
pub mod Accepted
pub mod Unwritten
pub mod Visible
pub mod Examples
use misy.Common.{
  ℕ, zero, suc, ◌+◌, ◌-◌, ◌%◌, max, Bool, true, false, not, ◌&&◌, Option, none, some, List, [], ◌∷◌,
  ◌++◌, length, get_elem?, ltb, leb, ◌==◌, any, if◌then◌else◌, saturating_sub,
}
use misy.Common.Texts.{Text, trim, is_empty, text_eq}
use misy.Questions.{QuestionOption, QuestionItem, QuestionRequest}

pub record QuestionPage : Type 0 where
  pub cursor : ℕ
  pub selected : List ℕ
  pub other_selected : Bool
  pub other_draft : Text
  pub editing_other : Bool
  pub complete : Bool

pub record QuestionDialog : Type 0 where
  pub request : QuestionRequest
  pub active : ℕ
  pub pages : List QuestionPage

abbrev pub new_page : QuestionPage
new_page = record {
  cursor = 0;
  selected = [];
  other_selected = false;
  other_draft = [];
  editing_other = false;
  complete = false;
}

-- A set of numbers (`BTreeSet<usize>`), by its members.
abbrev pub holds : ℕ → List ℕ → Bool
holds n ns = any (λ m. n == m) ns

abbrev pub without : ℕ → List ℕ → List ℕ
without n [] = []
without n (m ∷ ms) = let rest = without n ms in if n == m then rest else m ∷ rest

-- `text.trim().is_empty()`.
abbrev pub blank : Text → Bool
blank t = is_empty (trim t)

-- `String::pop`.
unfoldable pub pop : Text → Text
pop [] = []
pop (c ∷ []) = []
pop (c ∷ d ∷ ds) = c ∷ pop (d ∷ ds)

-- The options, and the row for an answer of one's own.
abbrev pub row_count : QuestionItem → ℕ
row_count q = length q.options + 1

abbrev pub cursor_is_other : QuestionItem → QuestionPage → Bool
cursor_is_other q p = p.cursor == length q.options

unfoldable pub page_up : QuestionItem → QuestionPage → QuestionPage
page_up q p = record p {
  cursor = if p.cursor == 0 then saturating_sub (row_count q) 1 else p.cursor - 1;
}

unfoldable pub page_down : QuestionItem → QuestionPage → QuestionPage
page_down q p = record p { cursor = (p.cursor + 1) % max (row_count q) 1 }

abbrev pub toggled_other : QuestionPage → QuestionPage
toggled_other p = record p {
  other_selected = not p.other_selected;
  editing_other = if p.other_selected then p.editing_other else true;
  complete = false;
}

abbrev pub toggled_option : QuestionPage → QuestionPage
toggled_option p = record p {
  selected =
      if holds p.cursor p.selected then without p.cursor p.selected else p.cursor ∷ p.selected;
  complete = false;
}

unfoldable pub toggle_current : QuestionItem → QuestionPage → QuestionPage
toggle_current q p = if cursor_is_other q p then toggled_other p else toggled_option p

-- " "
abbrev pub space_text : Text
space_text = 32 ∷ []

unfoldable pub type_text : Text → QuestionItem → QuestionPage → QuestionPage
type_text text q p =
    if p.editing_other
    then record p { other_draft = p.other_draft ++ text }
    else if text_eq text space_text && q.multi_select
    then toggle_current q p
    else p

unfoldable pub erase : QuestionItem → QuestionPage → QuestionPage
erase q p = if p.editing_other then record p { other_draft = pop p.other_draft } else p

-- What `confirm` does to a page: it stays, or it is complete and the dialog goes on.
pub data Confirmed : Type 0 where
  stays finishes : QuestionPage → Confirmed

-- The answer of one's own is taken; a question with one choice forgets the options.
abbrev pub own_answer : QuestionItem → QuestionPage → Bool → QuestionPage
own_answer q p editing = record p {
  selected = if q.multi_select then p.selected else [];
  other_selected = true;
  editing_other = editing;
  complete = true;
}

abbrev pub one_choice : QuestionPage → QuestionPage
one_choice p = record p { selected = p.cursor ∷ []; other_selected = false; complete = true }

abbrev pub none_chosen : QuestionPage → Bool
none_chosen p = length p.selected == 0 && not p.other_selected

unfoldable pub confirm_page : QuestionItem → QuestionPage → Confirmed
confirm_page q p =
    if p.editing_other
    then if blank p.other_draft then stays p else finishes (own_answer q p false)
    else if cursor_is_other q p
    then if blank p.other_draft
      then stays (record p { editing_other = true })
      else finishes (own_answer q p p.editing_other)
    else if q.multi_select
    then if none_chosen p then stays p else finishes (record p { complete = true })
    else finishes (one_choice p)

-- A write through an index.
abbrev pub set_elem {ℓ} : {A : Type ℓ} → List A → ℕ → A → List A
set_elem [] i y = []
set_elem (x ∷ xs) zero y = y ∷ xs
set_elem (x ∷ xs) (suc i) y = x ∷ set_elem xs i y

abbrev pub has_submit_page : QuestionDialog → Bool
has_submit_page d = ltb 1 (length d.pages)

unfoldable pub is_submit_page : QuestionDialog → Bool
is_submit_page d = has_submit_page d && (d.active == length d.pages)

abbrev pub tab_count : QuestionDialog → ℕ
tab_count d = length d.pages + (if has_submit_page d then 1 else 0)

abbrev pub both : Option QuestionItem → Option QuestionPage → Option (QuestionItem × QuestionPage)
both (some q) (some p) = some (q, p)
both (some q) none = none
both none p = none

-- `question()` and `page()`.
unfoldable pub focus : QuestionDialog → Option (QuestionItem × QuestionPage)
focus d = both (get_elem? d.request.questions d.active) (get_elem? d.pages d.active)

abbrev pub put_page : QuestionDialog → QuestionPage → QuestionDialog
put_page d p = record d { pages = set_elem d.pages d.active p }

abbrev pub complete_pages : List QuestionPage → Bool
complete_pages [] = true
complete_pages (p ∷ ps) = p.complete && complete_pages ps
