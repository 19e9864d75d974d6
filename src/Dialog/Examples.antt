-- ===== src/Dialog/Examples.antt =====
-- The theorems on a question with two options, asked with one choice and with several.
use misy.Common.{ℕ, ◌≡◌, refl, Bool, true, false, some, [], ◌∷◌, length, get_elem?, min, arith}
use misy.Common.Texts.{
  trim, trim_start, is_empty, text_eq, to_ascii_lowercase, eq_ignore_ascii_case, is_whitespace,
}
use misy.ListView.{ListRowDisplay}
use misy.Questions.{
  QuestionItem, QuestionRequest, submission, ok, err, answer_bound, parse_questions,
  validate_questions, validate_question, validate_options, option_out_of_bounds, contains,
}
use misy.Questions.Registry.{validate_answers}
use misy.Dialog.{QuestionDialog, new_page, focus, is_submit_page, page_down, confirm_page}
use misy.Dialog.Calls.{
  new_dialog, on_page, move_down, confirm, finish_or_advance, answers, answer_for, collect,
  chosen_labels, join,
}
use misy.Dialog.View.{shown_rows}
use misy.Dialog.Safety.{WellFormed, Returns}
use misy.Dialog.Confirming.{moves_down, chooses, tabs_left, confirms, run, step, run-WellFormed}
use misy.Dialog.Accepted.{only_lengths, confirm-accepted}
use misy.Dialog.Unwritten.{
  blank_calls, request, left, left_blank, dialog_of, blank_response, confirm-unwritten,
}
use misy.Dialog.Visible.{shown_rows-cursor}

abbrev asks : Bool → QuestionItem
asks many = record {
  question = 119 ∷ 63 ∷ [];
  header = [];
  options =
      record { label = 65 ∷ []; description = [] }
      ∷ record { label = 66 ∷ []; description = [] }
      ∷ [];
  multi_select = many;
}

abbrev a_request : QuestionRequest
a_request = request 1 [] (submission 1) (asks false)

run-WellFormed_example :
    Returns
      (WellFormed a_request)
      (run (moves_down ∷ confirms ∷ tabs_left ∷ chooses 3 ∷ []) (some (new_dialog a_request)))
run-WellFormed_example =
    run-WellFormed a_request (moves_down ∷ confirms ∷ tabs_left ∷ chooses 3 ∷ []) (omega arith)

abbrev moved : QuestionDialog
moved = dialog_of a_request (record new_page { cursor = 1 })

abbrev chosen : QuestionDialog
chosen = dialog_of a_request (record new_page { cursor = 1; selected = 1 ∷ []; complete = true })

confirm-accepted_example :
    ◌≡◌ {A = ℕ} 1 1
    × (validate_answers
          (λ r. some 9)
          (λ r. some 9)
          a_request
          (record { request_id = 1; answers = (119 ∷ 63 ∷ [], 66 ∷ []) ∷ [] })
        ≡ only_lengths
            (λ r. some 9)
            (λ r. some 9)
            (record { request_id = 1; answers = (119 ∷ 63 ∷ [], 66 ∷ []) ∷ [] }))
unfolding parse_questions validate_questions validate_question validate_options option_out_of_bounds
    contains run step move_down on_page focus is_submit_page page_down new_dialog confirm
    confirm_page finish_or_advance answers collect answer_for chosen_labels join trim trim_start
    is_empty text_eq to_ascii_lowercase eq_ignore_ascii_case is_whitespace
confirm-accepted_example =
    confirm-accepted (λ r. some 9) (λ r. some 9) (ok (asks false ∷ [])) (some 9) a_request
      (moves_down ∷ []) moved chosen
      (record { request_id = 1; answers = (119 ∷ 63 ∷ [], 66 ∷ []) ∷ [] }) refl (omega arith) refl
      refl refl

confirm-unwritten_example :
    (run blank_calls (some (new_dialog (request 1 [] (submission 1) (asks true))))
      ≡ some (left 1 [] (submission 1) (asks true)))
    × (confirm (left 1 [] (submission 1) (asks true))
        ≡ some (
          dialog_of
              (request 1 [] (submission 1) (asks true))
              (record (left_blank 1) { complete = true }),
          some (blank_response 1 [] (submission 1) (asks true)),
        ))
    × (validate_answers
          (λ r. some 9)
          (λ r. some 9)
          (request 1 [] (submission 1) (asks true))
          (blank_response 1 [] (submission 1) (asks true))
        ≡ err answer_bound)
confirm-unwritten_example =
    confirm-unwritten 1 [] (submission 1) (asks true) (λ r. some 9) (λ r. some 9) refl (omega arith)

shown_rows-cursor_example :
    (length (shown_rows (asks false) new_page 2) ≡ min 2 3)
    × ((at : ℕ) × (row : ListRowDisplay) × (get_elem? (shown_rows (asks false) new_page 2) at
          ≡ some row)
        × (row.number ≡ 1)
        × (row.selected ≡ true))
shown_rows-cursor_example = shown_rows-cursor (asks false) new_page 2 (omega arith) (omega arith)
