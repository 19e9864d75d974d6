-- ===== src/Dialog/Unwritten.antt =====
-- An answer of one's own that was left blank, crates/misy-tui/src/tui/question_dialog.rs.
use misy.Common.{
  ℕ, suc, ◌+◌, ◌-◌, ◌<◌, true, false, Option, some, List, [], ◌∷◌, ◌++◌, ◌≡◌, refl, ap, ◌∙◌, length,
  arith, ◌==◌, ==_iff,
}
use misy.Common.Texts.{Text, text_eq, text_eq_iff, trim, trim_start, is_empty}
use misy.Questions.{
  QuestionSource, QuestionOption, QuestionItem, QuestionRequest, QuestionResponse, err,
  answer_bound, contains,
}
use misy.Questions.Registry.{
  validate_answers, same_texts, question_texts, answered_texts, answer_out_of_bounds,
}
use misy.Dialog.{
  QuestionPage, QuestionDialog, focus, is_submit_page, page_up, type_text, toggle_current,
  confirm_page, new_page, finishes,
}
use misy.Dialog.Calls.{
  new_dialog, on_page, move_up, insert_text, escape, confirm, finish_or_advance, answers,
  answer_for, collect, join, chosen_labels, confirmed,
}
use misy.Dialog.Confirming.{Call, moves_up, types, escapes, run, step}

abbrev pub blank_calls : List Call
blank_calls = moves_up ∷ types (32 ∷ []) ∷ escapes ∷ moves_up ∷ []

abbrev pub asked : ℕ → Text → QuestionSource → QuestionItem → QuestionRequest
asked id tool_call_id source q = record {
  id = id;
  tool_call_id = tool_call_id;
  source = source;
  questions = q ∷ [];
}

abbrev pub left_blank : ℕ → QuestionPage
left_blank cursor = record {
  cursor = cursor;
  selected = [];
  other_selected = true;
  other_draft = [];
  editing_other = false;
  complete = false;
}

abbrev pub dialog_of : QuestionRequest → QuestionPage → QuestionDialog
dialog_of request p = record { request = request; active = 0; pages = p ∷ [] }

abbrev at_other : QuestionItem → QuestionPage
at_other q = record (left_blank (length q.options)) { other_selected = false }

module _ (id : ℕ) (tool_call_id : Text) (source : QuestionSource) (q : QuestionItem) where
  abbrev pub request : QuestionRequest
  request = asked id tool_call_id source q

  abbrev dialog : QuestionPage → QuestionDialog
  dialog = dialog_of request

  on_only :
      (f : QuestionItem → QuestionPage → QuestionPage) (p : QuestionPage)
      → on_page f (dialog p) ≡ some (dialog (f q p))
  unfolding on_page focus is_submit_page
  on_only f p = refl

  to_other : page_up q new_page ≡ at_other q
  unfolding page_up
  to_other = let last : length q.options + 1 - 1 ≡ length q.options = omega arith in rw last refl

  abbrev editing : QuestionPage
  editing = record (left_blank (length q.options)) { editing_other = true }

  typed : q.multi_select ≡ true → type_text (32 ∷ []) q (at_other q) ≡ editing
  unfolding type_text toggle_current text_eq
  typed m =
      let same : (length q.options == length q.options) ≡ true = (==_iff _ _).1 refl in
      rw m (rw same refl)

  back_up :
      0 < length q.options
      → page_up q (left_blank (length q.options)) ≡ left_blank (length q.options - 1)
  unfolding page_up
  back_up n = let more : (length q.options == 0) ≡ false = ground arith in rw more refl

  ran :
      q.multi_select ≡ true
      → 0 < length q.options
      → run blank_calls (some (new_dialog request))
        ≡ some (dialog (left_blank (length q.options - 1)))
  unfolding run step move_up insert_text escape new_dialog focus is_submit_page
  ran m n =
      ap (run (types (32 ∷ []) ∷ escapes ∷ moves_up ∷ []))
        (on_only page_up new_page ∙ ap (λ p. some (dialog p)) to_other)
      ∙ ap (run (escapes ∷ moves_up ∷ []))
          (on_only (type_text (32 ∷ [])) (at_other q) ∙ ap (λ p. some (dialog p)) (typed m))
      ∙ on_only page_up (left_blank (length q.options))
      ∙ ap (λ p. some (dialog p)) (back_up n)

  confirmed_page :
      q.multi_select ≡ true
      → 0 < length q.options
      → confirm_page q (left_blank (length q.options - 1))
        ≡ finishes (record (left_blank (length q.options - 1)) { complete = true })
  unfolding confirm_page
  confirmed_page m n =
      let elsewhere : (length q.options - 1 == length q.options) ≡ false = ground arith in
      rw elsewhere (rw m refl)

  nothing_chosen : (i : ℕ) (os : List QuestionOption) → chosen_labels i [] os ≡ []
  unfolding chosen_labels
  nothing_chosen i [] = refl
  nothing_chosen i (o ∷ os) = nothing_chosen (suc i) os

  abbrev pub blank_response : QuestionResponse
  blank_response = record { request_id = id; answers = (q.question, []) ∷ [] }

  abbrev pub left : QuestionDialog
  left = dialog_of request (left_blank (length q.options - 1))

  said :
      q.multi_select ≡ true
      → 0 < length q.options
      → confirm left
        ≡ some (
          dialog (record (left_blank (length q.options - 1)) { complete = true }),
          some blank_response,
        )
  unfolding confirm focus is_submit_page finish_or_advance answers collect answer_for join
  said m n =
      ap (λ c. some (confirmed left c)) (confirmed_page m n)
      ∙ ap
          (λ ls. some (
            dialog (record (left_blank (length q.options - 1)) { complete = true }),
            some (record { request_id = id; answers = (q.question, join (ls ++ [] ∷ [])) ∷ [] }),
          ))
          (nothing_chosen 0 q.options)

  -- The user opens the editor of the answer of one's own with a space, leaves it with escape, and
  -- confirms on an option: for any question with several choices and an option, the dialog
  -- responds with an empty answer, which the core refuses.
  pub confirm-unwritten :
      (encoded_request : QuestionRequest → Option ℕ)
      (encoded_response : QuestionResponse → Option ℕ)
      → q.multi_select ≡ true
      → 0 < length q.options
      → (run blank_calls (some (new_dialog request)) ≡ some left)
        × (confirm left
            ≡ some (
              dialog_of request (record (left_blank (length q.options - 1)) { complete = true }),
              some blank_response,
            ))
        × (validate_answers encoded_request encoded_response request blank_response
            ≡ err answer_bound)
  unfolding validate_answers same_texts question_texts answered_texts answer_out_of_bounds trim
      trim_start is_empty contains
  confirm-unwritten encoded_request encoded_response m n = (
    ran m n,
    said m n,
    let same : text_eq q.question q.question ≡ true = (text_eq_iff q.question q.question).1 refl in
        rw same refl,
  )
