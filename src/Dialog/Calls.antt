-- ===== src/Dialog/Calls.antt =====
-- The calls of the dialog, crates/misy-tui/src/tui/question_dialog.rs.
use misy.Common.{
  ℕ, zero, suc, ◌+◌, ◌-◌, ◌%◌, min, max, Bool, true, false, not, ◌&&◌, Option, none, some, List, [],
  ◌∷◌, ◌++◌, length, leb, ◌==◌, if◌then◌else◌, map, saturating_sub,
}
use misy.Common.Texts.{Text, text_eq}
use misy.Questions.{QuestionOption, QuestionItem, QuestionRequest, QuestionResponse}
use misy.Dialog.{
  QuestionPage, QuestionDialog, new_page, holds, row_count, page_up, page_down, toggle_current,
  type_text, erase, Confirmed, stays, finishes, confirm_page, has_submit_page, is_submit_page,
  tab_count, focus, put_page, complete_pages,
}

unfoldable pub new_dialog : QuestionRequest → QuestionDialog
new_dialog request = record {
  request = request;
  active = 0;
  pages = map (λ q. new_page) request.questions;
}

-- A change of the page in front.
abbrev pub on_focus :
    (QuestionItem → QuestionPage → QuestionPage)
    → QuestionDialog
    → Option (QuestionItem × QuestionPage)
    → Option QuestionDialog
on_focus f d none = none
on_focus f d (some (q, p)) = some (put_page d (f q p))

unfoldable pub on_page :
    (QuestionItem → QuestionPage → QuestionPage) → QuestionDialog → Option QuestionDialog
on_page f d = if is_submit_page d then some d else on_focus f d (focus d)

unfoldable pub move_up : QuestionDialog → Option QuestionDialog
move_up d = on_page page_up d

unfoldable pub move_down : QuestionDialog → Option QuestionDialog
move_down d = on_page page_down d

unfoldable pub insert_text : Text → QuestionDialog → Option QuestionDialog
insert_text text d = on_page (type_text text) d

unfoldable pub backspace : QuestionDialog → Option QuestionDialog
backspace d = on_page erase d

unfoldable pub tab_left : QuestionDialog → QuestionDialog
tab_left d = record d {
  active = if d.active == 0 then saturating_sub (tab_count d) 1 else d.active - 1;
}

unfoldable pub tab_right : QuestionDialog → QuestionDialog
tab_right d = record d { active = (d.active + 1) % max (tab_count d) 1 }

abbrev pub select_in :
    ℕ → QuestionDialog → Option (QuestionItem × QuestionPage) → Option (QuestionDialog × Bool)
select_in index d none = none
select_in index d (some (q, p)) =
    if leb (row_count q) index
    then some (d, false)
    else some (put_page d (record p { cursor = index }), true)

abbrev pub select_index : ℕ → QuestionDialog → Option (QuestionDialog × Bool)
select_index zero d = some (d, false)
select_index (suc index) d = select_in index d (focus d)

unfoldable pub select_number : ℕ → QuestionDialog → Option (QuestionDialog × Bool)
select_number n d = if is_submit_page d then some (d, false) else select_index n d

abbrev pub leave_in :
    QuestionDialog → Option (QuestionItem × QuestionPage) → Option (QuestionDialog × Bool)
leave_in d none = none
leave_in d (some (q, p)) =
    if p.editing_other
    then some (put_page d (record p { editing_other = false }), false)
    else some (d, true)

-- Whether the request is to be dismissed.
unfoldable pub escape : QuestionDialog → Option (QuestionDialog × Bool)
escape d = if is_submit_page d then some (d, true) else leave_in d (focus d)

-- The labels of the chosen options, the first option at the given index.
unfoldable pub chosen_labels : ℕ → List ℕ → List QuestionOption → List Text
chosen_labels i selected [] = []
chosen_labels i selected (o ∷ os) =
    let rest = chosen_labels (suc i) selected os in
    if holds i selected then o.label ∷ rest else rest

-- ", "
abbrev separator : Text
separator = 44 ∷ 32 ∷ []

unfoldable pub join : List Text → Text
join [] = []
join (t ∷ []) = t
join (t ∷ u ∷ us) = t ++ (separator ++ join (u ∷ us))

abbrev pub answer_values : QuestionItem → QuestionPage → List Text
answer_values q p =
    chosen_labels 0 p.selected q.options ++ (if p.other_selected then p.other_draft ∷ [] else [])

unfoldable pub answer_for : QuestionItem → QuestionPage → Text
answer_for q p = join (answer_values q p)

-- `BTreeMap::insert`.
abbrev pub put_answer : Text → Text → List (Text × Text) → List (Text × Text)
put_answer k v [] = (k, v) ∷ []
put_answer k v ((j, w) ∷ rest) =
    let later = put_answer k v rest in if text_eq j k then (k, v) ∷ rest else (j, w) ∷ later

-- The collection of the answers into a map, from the first question on.
unfoldable pub collect :
    List QuestionItem → List QuestionPage → List (Text × Text) → List (Text × Text)
unfolding answer_for
collect (q ∷ qs) (p ∷ ps) answers = collect qs ps (put_answer q.question (answer_for q p) answers)
collect (q ∷ qs) [] answers = answers
collect [] ps answers = answers

unfoldable pub answers : QuestionDialog → List (Text × Text)
answers d = collect d.request.questions d.pages []

abbrev pub response : QuestionDialog → QuestionResponse
response d = record { request_id = d.request.id; answers = answers d }

unfoldable pub finish_or_advance : QuestionDialog → QuestionDialog × Option QuestionResponse
finish_or_advance d =
    if not (has_submit_page d) && complete_pages d.pages
    then (d, some (response d))
    else (record d { active = min (d.active + 1) (length d.pages) }, none)

abbrev pub confirmed : QuestionDialog → Confirmed → QuestionDialog × Option QuestionResponse
confirmed d (stays p) = (put_page d p, none)
confirmed d (finishes p) = finish_or_advance (put_page d p)

abbrev pub confirm_in :
    QuestionDialog
    → Option (QuestionItem × QuestionPage)
    → Option (QuestionDialog × Option QuestionResponse)
confirm_in d none = none
confirm_in d (some (q, p)) = some (confirmed d (confirm_page q p))

unfoldable pub confirm : QuestionDialog → Option (QuestionDialog × Option QuestionResponse)
confirm d =
    if is_submit_page d
    then some (d, if complete_pages d.pages then some (response d) else none)
    else confirm_in d (focus d)

abbrev pub choose_in :
    QuestionDialog
    → Option (QuestionItem × QuestionPage)
    → Option (QuestionDialog × Option QuestionResponse)
choose_in d none = none
choose_in d (some (q, p)) =
    if q.multi_select then some (put_page d (toggle_current q p), none) else confirm d

abbrev pub chosen_by :
    Option (QuestionDialog × Bool) → Option (QuestionDialog × Option QuestionResponse)
chosen_by none = none
chosen_by (some (d, false)) = some (d, none)
chosen_by (some (d, true)) = choose_in d (focus d)

unfoldable pub choose_number :
    ℕ → QuestionDialog → Option (QuestionDialog × Option QuestionResponse)
choose_number n d = chosen_by (select_number n d)
