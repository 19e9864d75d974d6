-- ===== src/Dialog/Accepted.antt =====
-- The core takes the answers of the dialog: `confirm` of crates/misy-tui/src/tui/question_dialog.rs
-- against `validate_answers` of crates/misy-core/src/core/questions.rs.
use misy.Common.{
  if_cases, ℕ, ◌<◌, true, false, not, ◌&&◌, Option, none, some, List, [], ◌≡◌, refl, sym, ap, subst,
  ◌∙◌, length, ltb, any, map, if◌then◌else◌, arith,
}
use misy.Common.Texts.{Text}
use misy.Questions.{
  QuestionItem, QuestionRequest, QuestionResponse, Checked, ok, ◌>>◌, refuse_if, check_size,
  contains, answer_bound, wrong_questions, parse_questions, max_question_answer_chars,
}
use misy.Questions.Validation.{AllQuestions, parse_questions_lem}
use misy.Questions.Registry.{
  question_texts, answered_texts, same_texts, answer_out_of_bounds, validate_answers,
}
use misy.Dialog.{
  QuestionPage, QuestionDialog, blank, complete_pages, is_submit_page, focus, Confirmed, stays,
  finishes, put_page, confirm_page, has_submit_page,
}
use misy.Dialog.Calls.{
  new_dialog, collect, answers, response, finish_or_advance, confirmed, confirm_in, confirm,
}
use misy.Dialog.Pages.{PagesOk}
use misy.Dialog.Safety.{WellFormed, Returns}
use misy.Dialog.Confirming.{Call, run, run-WellFormed, confirm-Ok}
use misy.Dialog.Keys.{any_unwritten, collect-blank, collect-keys, only_long, same_keys}

-- A response is that of the dialog that is left, with all its pages complete.
abbrev Answered : QuestionDialog × Option QuestionResponse → Type 0
Answered (d, none) = Unit {0}
Answered (d, some r) = (r ≡ response d) × (complete_pages d.pages ≡ true)

finish_or_advance-Answered : (d : QuestionDialog) → Answered (finish_or_advance d)
unfolding finish_or_advance
finish_or_advance-Answered d =
    if_cases Answered (not (has_submit_page d) && complete_pages d.pages) _ _
      (λ e. (refl, ground arith)) (λ e. tt)

confirmed-Answered : (d : QuestionDialog) (c : Confirmed) → Answered (confirmed d c)
confirmed-Answered d (stays p) = tt
confirmed-Answered d (finishes p) = finish_or_advance-Answered (put_page d p)

in_focus-Answered :
    (d : QuestionDialog) (o : Option (QuestionItem × QuestionPage))
    (r : QuestionDialog × Option QuestionResponse)
    → confirm_in d o ≡ some r
    → Answered r
in_focus-Answered d none r e = cc
in_focus-Answered d (some (q, p)) r e =
    let same : confirmed d (confirm_page q p) ≡ r = cc in
    subst Answered same (confirmed-Answered d (confirm_page q p))

confirm-Answered :
    (d : QuestionDialog) (r : QuestionDialog × Option QuestionResponse)
    → confirm d ≡ some r
    → Answered r
unfolding confirm
confirm-Answered d r =
    if_cases (λ o. o ≡ some r → Answered r) (is_submit_page d) _ _
      (λ e s.
        let same : (d, if complete_pages d.pages then some (response d) else none) ≡ r = cc in
        subst Answered same (
          if_cases (λ o. Answered (d, o)) (complete_pages d.pages) (some (response d)) none
            (λ c. (refl, c)) (λ c. tt)))
      (λ e s. in_focus-Answered d (focus d) r s)

answered_keys :
    (t : Text) (qs : List QuestionItem) (ps : List QuestionPage)
    → PagesOk qs ps
    → contains (map (λ a. a.0) (collect qs ps [])) t
      ≡ contains (map (λ (q : QuestionItem). q.question) qs) t
unfolding contains
answered_keys t qs ps v = ground (arith, collect-keys t qs ps [] v)

module _ (encoded_request : QuestionRequest → Option ℕ)
    (encoded_response : QuestionResponse → Option ℕ) where
  -- What the core still checks of an answer: its length, and that of the encoding.
  abbrev pub only_lengths : QuestionResponse → Checked (Unit {0})
  only_lengths r =
      refuse_if (any (λ a. ltb max_question_answer_chars (length a.1)) r.answers) answer_bound
      >> check_size (encoded_response r)

  checked_lengths :
      (request : QuestionRequest) (r : QuestionResponse)
      → same_texts (question_texts request.questions) (answered_texts r.answers) ≡ true
      → any answer_out_of_bounds r.answers
        ≡ any (λ a. ltb max_question_answer_chars (length a.1)) r.answers
      → validate_answers encoded_request encoded_response request r ≡ only_lengths r
  unfolding validate_answers
  checked_lengths request r same long =
      ap
        (λ b.
          refuse_if (not b) wrong_questions
          >> (refuse_if (any answer_out_of_bounds r.answers) answer_bound
              >> check_size (encoded_response r)))
        same
      ∙ ap (λ b. refuse_if b answer_bound >> check_size (encoded_response r)) long

  response-accepted :
      (request : QuestionRequest) (d : QuestionDialog)
      → AllQuestions request.questions
      → WellFormed request d
      → complete_pages d.pages ≡ true
      → any_unwritten request.questions d.pages ≡ false
      → validate_answers encoded_request encoded_response request (response d)
        ≡ only_lengths (response d)
  unfolding answers question_texts answered_texts
  response-accepted request d a v c u =
      let asked : d.request.questions ≡ request.questions = ap (λ r. r.questions) v.same in
      let keys : same_texts (question_texts request.questions) (answered_texts (answers d)) ≡ true =
        subst
          (λ qs.
            same_texts (question_texts request.questions) (answered_texts (collect qs d.pages []))
            ≡ true)
          (sym asked)
          (same_keys (question_texts request.questions)
            (answered_texts (collect request.questions d.pages []))
            (λ t. answered_keys t request.questions d.pages v.fits)) in
      let written : any (λ a. blank a.1) (answers d) ≡ false =
        subst (λ qs. any (λ a. blank a.1) (collect qs d.pages []) ≡ false) (sym asked)
          (collect-blank request.questions d.pages [] v.fits a c u refl) in
      checked_lengths request (response d) keys (only_long (answers d) written)

  response_of :
      (request : QuestionRequest) (e : QuestionDialog) (r : QuestionResponse)
      → AllQuestions request.questions
      → WellFormed request e
      → Answered (e, some r)
      → any_unwritten request.questions e.pages ≡ false
      → (r.request_id ≡ request.id)
        × (validate_answers encoded_request encoded_response request r ≡ only_lengths r)
  response_of request e r a v w u =
      subst
        (λ x.
          (x.request_id ≡ request.id)
          × (validate_answers encoded_request encoded_response request x ≡ only_lengths x))
        (sym w.0) (ap (λ q. q.id) v.same, response-accepted request e a v w.1 u)

  -- The response of a dialog on a request that the core has accepted, after any calls, has the id of
  -- the request and passes the checks of the core, on the questions answered and on blank
  -- answers, unless the answer of one's own to a question with several choices was left blank:
  -- what the core can still refuse is the length of an answer and that of the encoding.
  pub confirm-accepted :
      (decoded : Checked (List QuestionItem)) (size : Option ℕ) (request : QuestionRequest)
      (cs : List Call) (d e : QuestionDialog) (r : QuestionResponse)
      → parse_questions decoded size ≡ ok request.questions
      → 0 < length request.questions
      → run cs (some (new_dialog request)) ≡ some d
      → confirm d ≡ some (e, some r)
      → any_unwritten request.questions e.pages ≡ false
      → (r.request_id ≡ request.id)
        × (validate_answers encoded_request encoded_response request r ≡ only_lengths r)
  confirm-accepted decoded size request cs d e r p n ran said u =
      let v : WellFormed request d =
        subst (Returns (WellFormed request)) ran (run-WellFormed request cs n) in
      let w : WellFormed request e =
        subst (Returns (λ (x : QuestionDialog × Option QuestionResponse). WellFormed request x.0))
          said (confirm-Ok request d v) in
      response_of request e r (parse_questions_lem decoded size request.questions p).1 w
        (confirm-Answered d (e, some r) said) u
