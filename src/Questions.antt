-- ===== src/Questions.antt =====
-- The questions that a model turn puts to the user, crates/misy-core/src/core/questions.rs. The
-- length of an encoding by serde_json is a parameter, and none stands for its error.
pub mod Validation
pub mod Registry
pub mod Client
pub mod Lifecycle
pub mod Settling
pub mod Asking
pub mod Histories
pub mod Examples
use misy.Common.{
  ℕ, ◌+◌, ◌%◌, ◌^◌, min, Bool, true, false, not, ◌&&◌, ◌||◌, Option, none, some, List, [], ◌∷◌,
  ◌++◌, length, ltb, leb, ◌==◌, any, if◌then◌else◌,
}
use misy.Common.Assoc.{Assoc, lookup, insert, remove}
use misy.Common.Texts.{Text, trim, is_empty, text_eq, eq_ignore_ascii_case}

abbrev pub max_question_chars : ℕ
max_question_chars = 500

abbrev pub max_option_label_chars : ℕ
max_option_label_chars = 80

abbrev pub max_option_description_chars : ℕ
max_option_description_chars = 500

abbrev pub max_question_answer_chars : ℕ
max_question_answer_chars = 2000

abbrev pub max_question_serialized_bytes : ℕ
max_question_serialized_bytes = 65536

abbrev pub max_dismisses : ℕ
max_dismisses = 3

pub record QuestionOption : Type 0 where
  pub label : Text
  pub description : Text

pub record QuestionItem : Type 0 where
  pub question : Text
  pub header : Text
  pub options : List QuestionOption
  pub multi_select : Bool

-- A submission or an agent is its number.
pub data QuestionSource : Type 0 where
  submission agent : ℕ → QuestionSource

pub record QuestionRequest : Type 0 where
  pub id : ℕ
  pub tool_call_id : Text
  pub source : QuestionSource
  pub questions : List QuestionItem

-- The answers by question, a map with texts as its keys.
pub record QuestionResponse : Type 0 where
  pub request_id : ℕ
  pub answers : List (Text × Text)

pub data QuestionError : Type 0 where
  question_bound : QuestionError
  question_repeated : QuestionError
  option_bound : QuestionError
  label_reserved : QuestionError
  label_repeated : QuestionError
  too_large : QuestionError
  encoding : QuestionError
  dismissed_too_often : QuestionError
  unknown_question : ℕ → QuestionError
  wrong_questions : QuestionError
  answer_bound : QuestionError
  shutdown : QuestionError

pub data Checked {ℓ} (A : Type ℓ) : Type ℓ where
  ok : A → Checked A
  err : QuestionError → Checked A

infixl 10 ◌>>=◌ ◌>>◌
abbrev pub ◌>>=◌ {ℓ κ} : {A : Type ℓ} {B : Type κ} → Checked A → (A → Checked B) → Checked B
err refusal >>= next = err refusal
ok value >>= next = next value

abbrev pub ◌>>◌ {ℓ} : {B : Type ℓ} → Checked (Unit {0}) → Checked B → Checked B
check >> next = check >>= λ passed. next

abbrev pub refuse_if : Bool → QuestionError → Checked (Unit {0})
refuse_if true e = err e
refuse_if false e = ok tt

-- A set of texts, in any order.
unfoldable pub contains : List Text → Text → Bool
contains seen t = any (text_eq t) seen

-- The text `other`.
abbrev pub reserved_label : Text
reserved_label = 111 ∷ 116 ∷ 104 ∷ 101 ∷ 114 ∷ []

unfoldable pub option_out_of_bounds : QuestionOption → Bool
option_out_of_bounds option =
    is_empty (trim option.label)
    || ltb max_option_label_chars (length option.label)
    || ltb max_option_description_chars (length option.description)

-- The loop of `validate_question` over the options.
unfoldable pub validate_options : List QuestionOption → List Text → Checked (Unit {0})
validate_options [] labels = ok tt
validate_options (option ∷ options) labels =
    let rest = validate_options options (trim option.label ∷ labels) in
    do
      refuse_if (option_out_of_bounds option) option_bound
      refuse_if (eq_ignore_ascii_case (trim option.label) reserved_label) label_reserved
      refuse_if (contains labels (trim option.label)) label_repeated
      rest

-- The texts seen come back with the new one.
unfoldable pub validate_question : QuestionItem → List Text → Checked (List Text)
validate_question q seen = do
  refuse_if (is_empty (trim q.question) || ltb max_question_chars (length (trim q.question)))
      question_bound
  refuse_if (contains seen q.question) question_repeated
  validate_options q.options []
  ok (q.question ∷ seen)

-- The loop of `parse_questions`, on the questions that the payload decodes to.
unfoldable pub validate_questions : List QuestionItem → List Text → Checked (List Text)
validate_questions [] seen = ok seen
validate_questions (q ∷ qs) seen = do seen' ← validate_question q seen; validate_questions qs seen'

abbrev pub check_size : Option ℕ → Checked (Unit {0})
check_size none = err encoding
check_size (some n) = refuse_if (ltb max_question_serialized_bytes n) too_large

-- The payload as it decodes, or the error of decoding it, and the length of its encoding.
unfoldable pub parse_questions :
    Checked (List QuestionItem) → Option ℕ → Checked (List QuestionItem)
unfolding validate_questions
parse_questions decoded size = do
  questions ← decoded
  seen ← validate_questions questions []
  check_size size
  ok questions
