-- ===== src/Questions/Examples.antt =====
-- The theorems of the questions at concrete questions and calls.
use misy.Common.{ℕ, ◌≤◌, ◌≡◌, refl, false, Option, some, List, [], ◌∷◌, arith}
use misy.Common.Texts.{Text, trim, is_empty, text_eq, eq_ignore_ascii_case}
use misy.Questions.{
  QuestionOption, QuestionItem, submission, ok, err, label_reserved, contains, option_out_of_bounds,
  validate_options, validate_question, validate_questions, parse_questions,
}
use misy.Questions.Validation.{AllQuestions, Distinct, texts, parse_questions_lem}
use misy.Questions.Client.{drain_questions}
use misy.Questions.Lifecycle.{requests, replies}
use misy.Questions.Histories.{
  Call, asks, answers, dismisses, cancels, closes, new_core, run, run_drained,
}

abbrev option_of : Text → QuestionOption
option_of t = record { label = t; description = [] }

-- "Go?" with the options "a" and " b".
abbrev go : QuestionItem
go = record {
  question = 71 ∷ 111 ∷ 63 ∷ [];
  header = [];
  options = option_of (97 ∷ []) ∷ option_of (32 ∷ 98 ∷ []) ∷ [];
  multi_select = false;
}

-- The same with an option " Other".
abbrev with_other : QuestionItem
with_other = record go {
  options = option_of (97 ∷ []) ∷ option_of (32 ∷ 79 ∷ 116 ∷ 104 ∷ 101 ∷ 114 ∷ []) ∷ [];
}

go_accepted : validate_questions (go ∷ []) [] ≡ ok (go.question ∷ [])
unfolding validate_questions validate_question validate_options option_out_of_bounds contains trim
    is_empty text_eq eq_ignore_ascii_case
go_accepted = refl

other_refused : validate_questions (with_other ∷ []) [] ≡ err label_reserved
unfolding validate_questions validate_question validate_options option_out_of_bounds contains trim
    is_empty text_eq eq_ignore_ascii_case
other_refused = refl

go_parsed : parse_questions (ok (go ∷ [])) (some 200) ≡ ok (go ∷ [])
unfolding parse_questions validate_question validate_options option_out_of_bounds contains trim
    is_empty text_eq eq_ignore_ascii_case
go_parsed = refl

parse_questions_lem_example :
    (ok (go ∷ []) ≡ ok (go ∷ [])) × AllQuestions (go ∷ []) × Distinct (texts (go ∷ []))
parse_questions_lem_example = parse_questions_lem (ok (go ∷ [])) (some 200) (go ∷ []) go_parsed

abbrev size : {A : Type 0} → A → Option ℕ
size a = some 100

abbrev calls : List Call
calls =
    asks (submission 1) [] (go ∷ [])
    ∷ asks (submission 1) [] (go ∷ [])
    ∷ dismisses 1
    ∷ answers (record { request_id = 2; answers = (go.question, 97 ∷ []) ∷ [] })
    ∷ cancels 2
    ∷ closes
    ∷ []

run_drained_example :
    let c = drain_questions (run size size new_core calls) in
    (replies 2 c.sent ≡ requests 2 c.events)
    × (requests 2 c.events ≤ 1)
    × (c.questions.pending ≡ [])
run_drained_example = run_drained size size calls 2 (omega arith)
