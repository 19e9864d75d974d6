-- ===== src/Dialog/View.antt =====
-- What the dialog shows, crates/misy-tui/src/tui/question_dialog.rs: `inline_presentation`,
-- `submit_presentation` and `tabs`.
use misy.Common.{
  ℕ, suc, ◌+◌, min, Bool, true, false, Option, none, some, List, [], ◌∷◌, ◌++◌, length, take, drop,
  ◌==◌, if◌then◌else◌, saturating_sub,
}
use misy.Common.Texts.{Text, is_empty}
use misy.Common.Utf8.{digits, decimal}
use misy.ListView.{ListRowDisplay}
use misy.Questions.{QuestionOption, QuestionItem}
use misy.Dialog.{
  QuestionPage, QuestionDialog, holds, has_submit_page, is_submit_page, focus, complete_pages,
}
use misy.Dialog.Calls.{answer_for}

pub record InlineQuestionPresentation : Type 0 where
  pub title : Text
  pub rows : List ListRowDisplay
  pub tabs : List (Text × Bool)
  pub help_hint : Text
  pub submit_page : Bool
  pub submit_ready : Bool

-- "[x] " and "[ ] "
unfoldable pub choice_label : Text → Bool → Bool → Text
choice_label label false selected = label
choice_label label true selected = 91 ∷ (if selected then 120 else 32) ∷ 93 ∷ 32 ∷ label

-- "Other"
abbrev pub other_text : Text
other_text = 79 ∷ 116 ∷ 104 ∷ 101 ∷ 114 ∷ []

-- "Type a custom answer"
abbrev pub custom_text : Text
custom_text =
    84 ∷ 121 ∷ 112 ∷ 101 ∷ 32 ∷ 97 ∷ 32 ∷ 99 ∷ 117 ∷ 115 ∷ 116 ∷ 111 ∷ 109 ∷ 32 ∷ 97 ∷ 110 ∷ 115
    ∷ 119 ∷ 101 ∷ 114 ∷ []

abbrev pub plain_row : ℕ → Text → Option Text → Bool → Bool → ListRowDisplay
plain_row number label description selected current = record {
  number = number;
  label = label;
  context = none;
  pricing = none;
  provider = none;
  description = description;
  selected = selected;
  current = current;
}

abbrev pub if_any : Text → Option Text
if_any t = if is_empty t then none else some t

unfoldable pub option_rows :
    QuestionItem → QuestionPage → ℕ → List QuestionOption → List ListRowDisplay
unfolding choice_label
option_rows q p i [] = []
option_rows q p i (o ∷ os) =
    plain_row (i + 1) (choice_label o.label q.multi_select (holds i p.selected))
      (if_any o.description) (p.cursor == i) (holds i p.selected)
    ∷ option_rows q p (suc i) os

-- "Other: " and the draft, with a mark behind it while it is edited.
abbrev pub other_label : QuestionPage → Text
other_label p =
    if is_empty p.other_draft
    then other_text
    else other_text
      ++ ((58 ∷ 32 ∷ []) ++ (p.other_draft ++ (if p.editing_other then 95 ∷ [] else [])))

abbrev pub other_row : QuestionItem → QuestionPage → ListRowDisplay
other_row q p =
    plain_row (length q.options + 1) (choice_label (other_label p) q.multi_select p.other_selected)
      (some custom_text) (p.cursor == length q.options) p.other_selected

unfoldable pub page_rows : QuestionItem → QuestionPage → List ListRowDisplay
page_rows q p = option_rows q p 0 q.options ++ other_row q p ∷ []

-- The window of rows that has the cursor.
abbrev pub first_row : ℕ → ℕ → ℕ → ℕ
first_row cursor visible rows =
    min (saturating_sub cursor (saturating_sub visible 1)) (saturating_sub rows visible)

unfoldable pub shown_rows : QuestionItem → QuestionPage → ℕ → List ListRowDisplay
shown_rows q p visible =
    let rows = page_rows q p in take visible (drop (first_row p.cursor visible (length rows)) rows)

-- "enter save  esc options"
abbrev pub editing_hint : Text
editing_hint =
    101 ∷ 110 ∷ 116 ∷ 101 ∷ 114 ∷ 32 ∷ 115 ∷ 97 ∷ 118 ∷ 101 ∷ 32 ∷ 32 ∷ 101 ∷ 115 ∷ 99 ∷ 32 ∷ 111
    ∷ 112 ∷ 116 ∷ 105 ∷ 111 ∷ 110 ∷ 115 ∷ []

-- "space toggle  enter continue  esc dismiss"
abbrev pub many_hint : Text
many_hint =
    115 ∷ 112 ∷ 97 ∷ 99 ∷ 101 ∷ 32 ∷ 116 ∷ 111 ∷ 103 ∷ 103 ∷ 108 ∷ 101 ∷ 32 ∷ 32 ∷ 101 ∷ 110 ∷ 116
    ∷ 101 ∷ 114 ∷ 32 ∷ 99 ∷ 111 ∷ 110 ∷ 116 ∷ 105 ∷ 110 ∷ 117 ∷ 101 ∷ 32 ∷ 32 ∷ 101 ∷ 115 ∷ 99 ∷ 32
    ∷ 100 ∷ 105 ∷ 115 ∷ 109 ∷ 105 ∷ 115 ∷ 115 ∷ []

-- "enter choose  esc dismiss"
abbrev pub one_hint : Text
one_hint =
    101 ∷ 110 ∷ 116 ∷ 101 ∷ 114 ∷ 32 ∷ 99 ∷ 104 ∷ 111 ∷ 111 ∷ 115 ∷ 101 ∷ 32 ∷ 32 ∷ 101 ∷ 115 ∷ 99
    ∷ 32 ∷ 100 ∷ 105 ∷ 115 ∷ 109 ∷ 105 ∷ 115 ∷ 115 ∷ []

abbrev pub hint_of : QuestionItem → QuestionPage → Text
hint_of q p =
    if p.editing_other then editing_hint else if q.multi_select then many_hint else one_hint

-- The header, or "Q" and the number.
abbrev pub header_of : ℕ → QuestionItem → Text
header_of i q = if is_empty q.header then 81 ∷ decimal (i + 1) else q.header

-- "✓ "
abbrev pub tab_label : ℕ → QuestionItem → QuestionPage → Text
tab_label i q p = if p.complete then 10003 ∷ 32 ∷ header_of i q else header_of i q

-- The source takes each page by its index; there is one for each question.
unfoldable pub question_tabs : ℕ → ℕ → List QuestionItem → List QuestionPage → List (Text × Bool)
unfolding digits
question_tabs active i (q ∷ qs) (p ∷ ps) =
    (tab_label i q p, i == active) ∷ question_tabs active (suc i) qs ps
question_tabs active i (q ∷ qs) [] = []
question_tabs active i [] ps = []

-- "Submit"
abbrev pub submit_text : Text
submit_text = 83 ∷ 117 ∷ 98 ∷ 109 ∷ 105 ∷ 116 ∷ []

unfoldable pub tabs : QuestionDialog → List (Text × Bool)
tabs d =
    question_tabs d.active 0 d.request.questions d.pages
    ++ (if has_submit_page d then (submit_text, is_submit_page d) ∷ [] else [])

-- "Not answered"
abbrev pub unanswered_text : Text
unanswered_text = 78 ∷ 111 ∷ 116 ∷ 32 ∷ 97 ∷ 110 ∷ 115 ∷ 119 ∷ 101 ∷ 114 ∷ 101 ∷ 100 ∷ []

unfoldable pub answer_rows : ℕ → List QuestionItem → List QuestionPage → List ListRowDisplay
unfolding digits
answer_rows i (q ∷ qs) (p ∷ ps) =
    plain_row (i + 1) (header_of i q)
      (some (if p.complete then answer_for q p else unanswered_text)) false p.complete
    ∷ answer_rows (suc i) qs ps
answer_rows i (q ∷ qs) [] = []
answer_rows i [] ps = []

-- "Review your answers before submit"
abbrev pub review_text : Text
review_text =
    82 ∷ 101 ∷ 118 ∷ 105 ∷ 101 ∷ 119 ∷ 32 ∷ 121 ∷ 111 ∷ 117 ∷ 114 ∷ 32 ∷ 97 ∷ 110 ∷ 115 ∷ 119 ∷ 101
    ∷ 114 ∷ 115 ∷ 32 ∷ 98 ∷ 101 ∷ 102 ∷ 111 ∷ 114 ∷ 101 ∷ 32 ∷ 115 ∷ 117 ∷ 98 ∷ 109 ∷ 105 ∷ 116 ∷ []

-- "enter submit  ←/→ tabs  esc dismiss"
abbrev pub submit_hint : Text
submit_hint =
    101 ∷ 110 ∷ 116 ∷ 101 ∷ 114 ∷ 32 ∷ 115 ∷ 117 ∷ 98 ∷ 109 ∷ 105 ∷ 116 ∷ 32 ∷ 32 ∷ 8592 ∷ 47 ∷ 8594
    ∷ 32 ∷ 116 ∷ 97 ∷ 98 ∷ 115 ∷ 32 ∷ 32 ∷ 101 ∷ 115 ∷ 99 ∷ 32 ∷ 100 ∷ 105 ∷ 115 ∷ 109 ∷ 105 ∷ 115
    ∷ 115 ∷ []

unfoldable pub submit_presentation : QuestionDialog → ℕ → InlineQuestionPresentation
submit_presentation d visible =
    let ready = complete_pages d.pages in
    record {
      title = review_text;
      rows =
          take (saturating_sub visible (1 + (if ready then 0 else 1)))
            (answer_rows 0 d.request.questions d.pages);
      tabs = tabs d;
      help_hint = submit_hint;
      submit_page = true;
      submit_ready = ready;
    }

abbrev pub page_presentation :
    QuestionDialog → ℕ → Option (QuestionItem × QuestionPage) → Option InlineQuestionPresentation
page_presentation d visible none = none
page_presentation d visible (some (q, p)) = some (record {
  title = q.question;
  rows = shown_rows q p visible;
  tabs = tabs d;
  help_hint = hint_of q p;
  submit_page = false;
  submit_ready = false;
})

unfoldable pub inline_presentation : QuestionDialog → ℕ → Option InlineQuestionPresentation
inline_presentation d visible =
    if is_submit_page d
    then some (submit_presentation d visible)
    else page_presentation d visible (focus d)
