-- ===== src/Questions/Validation.antt =====
-- What the validation of questions.rs accepts.
use misy.Common.{
  Option, ◌||◌, sym, ℕ, ◌≤◌, ◌≡◌, ◌≢◌, refl, ◌↔◌, Bool, true, false, List, [], ◌∷◌, arith, length,
  map, ltb,
}
use misy.Common.Texts.{Text, trim, is_empty, text_eq_iff, eq_ignore_ascii_case}
use misy.Questions.{
  parse_questions, check_size, QuestionError, option_bound, label_reserved, label_repeated,
  question_bound, question_repeated, ◌>>◌, QuestionOption, QuestionItem, Checked, ok, err, contains,
  reserved_label, option_out_of_bounds, validate_options, validate_question, validate_questions,
  max_question_chars, max_option_label_chars, max_option_description_chars, refuse_if, ◌>>=◌,
}

-- A text differs from every text of a list.
abbrev pub Absent : Text → List Text → Type 0
Absent t [] = Unit {0}
Absent t (u ∷ us) = (u ≢ t) × Absent t us

abbrev pub Distinct : List Text → Type 0
Distinct [] = Unit {0}
Distinct (t ∷ ts) = Absent t ts × Distinct ts

abbrev pub normalized : List QuestionOption → List Text
normalized = map (λ o. trim o.label)

abbrev pub texts : List QuestionItem → List Text
texts = map (λ q. q.question)

-- A label that is not blank, not reserved and, with its description, within its bound.
pub record IsValidOption (o : QuestionOption) : Type 0 where
  pub not_blank : trim o.label ≢ []
  pub not_reserved : eq_ignore_ascii_case (trim o.label) reserved_label ≡ false
  pub label_bound : length o.label ≤ max_option_label_chars
  pub description_bound : length o.description ≤ max_option_description_chars

abbrev pub AllValid : List QuestionOption → Type 0
AllValid [] = Unit {0}
AllValid (o ∷ os) = IsValidOption o × AllValid os

pub record IsValidQuestion (q : QuestionItem) : Type 0 where
  pub not_blank : trim q.question ≢ []
  pub text_bound : length (trim q.question) ≤ max_question_chars
  pub options_valid : AllValid q.options
  pub labels_distinct : Distinct (normalized q.options)

abbrev pub AllQuestions : List QuestionItem → Type 0
AllQuestions [] = Unit {0}
AllQuestions (q ∷ qs) = IsValidQuestion q × AllQuestions qs

is_empty_iff : (t : Text) → (is_empty t ≡ true) ↔ (t ≡ [])
unfolding is_empty
is_empty_iff [] = ground arith
is_empty_iff (c ∷ cs) = ground arith

contains-Absent : (seen : List Text) (t : Text) → contains seen t ≡ false → Absent t seen
unfolding contains
contains-Absent [] t h = tt
contains-Absent (u ∷ us) t h =
    (λ e. ground (arith, text_eq_iff t u), contains-Absent us t (ground arith))

-- No text of the first list is in the second.
abbrev Apart : List Text → List Text → Type 0
Apart [] seen = Unit {0}
Apart (t ∷ ts) seen = Absent t seen × Apart ts seen

Apart-cons :
    (ts : List Text) (t : Text) (seen : List Text)
    → Apart ts (t ∷ seen)
    → Apart ts seen × Absent t ts
Apart-cons [] t seen h = (tt, tt)
Apart-cons (u ∷ us) t seen h =
    let rest = Apart-cons us t seen h.1 in ((h.0.1, rest.0), ((λ e. h.0.0 (sym e)), rest.1))

refuse_if-ok {ℓ} :
    {A : Type ℓ} (b : Bool) (e : QuestionError) (k : Checked A) {a : A}
    → (refuse_if b e >> k) ≡ ok a
    → (b ≡ false) × (k ≡ ok a)
refuse_if-ok true e k h = cc
refuse_if-ok false e k h = (refl, h)

then-ok {ℓ} :
    {A : Type ℓ} (m : Checked Unit) (k : Checked A) {a : A}
    → (m >> k) ≡ ok a
    → (m ≡ ok tt) × (k ≡ ok a)
then-ok (ok u) k h = (refl, h)
then-ok (err e) k h = cc

in_bounds :
    (o : QuestionOption)
    → option_out_of_bounds o ≡ false
    → (trim o.label ≢ [])
      × (length o.label ≤ max_option_label_chars)
      × (length o.description ≤ max_option_description_chars)
unfolding option_out_of_bounds
in_bounds o h = ground (arith, is_empty_iff (trim o.label))

bind-ok :
    {A B : Type 0} (check : Checked A) (next : A → Checked B) {result : B}
    → (check >>= next) ≡ ok result
    → (value : A) × (check ≡ ok value) × (next value ≡ ok result)
bind-ok (err refusal) next h = cc
bind-ok (ok value) next h = (value, refl, h)

validate_options_lem :
    (os : List QuestionOption) (labels : List Text)
    → validate_options os labels ≡ ok tt
    → AllValid os × Distinct (normalized os) × Apart (normalized os) labels
unfolding validate_options
validate_options_lem [] labels h = (tt, tt, tt)
validate_options_lem (o ∷ os) labels h =
    let (bound, h1) = refuse_if-ok (option_out_of_bounds o) option_bound _ h in
    let (free, h2) =
      refuse_if-ok (eq_ignore_ascii_case (trim o.label) reserved_label) label_reserved _ h1 in
    let (new, h3) = refuse_if-ok (contains labels (trim o.label)) label_repeated _ h2 in
    let (valid, distinct, apart) = validate_options_lem os (trim o.label ∷ labels) h3 in
    let (blank, label, description) = in_bounds o bound in
    let (apart', absent) = Apart-cons (normalized os) (trim o.label) labels apart in
    (
      (
        record {
          not_blank = blank;
          not_reserved = free;
          label_bound = label;
          description_bound = description;
        },
        valid,
      ),
      (absent, distinct),
      (contains-Absent labels (trim o.label) new, apart'),
    )

validate_question_lem :
    (q : QuestionItem) (seen : List Text) {seen' : List Text}
    → validate_question q seen ≡ ok seen'
    → IsValidQuestion q × Absent q.question seen × (q.question ∷ seen ≡ seen')
unfolding validate_question
validate_question_lem q seen h =
    let (bound, h1) =
      refuse_if-ok (is_empty (trim q.question) || ltb max_question_chars (length (trim q.question)))
        question_bound _ h in
    let (new, h2) = refuse_if-ok (contains seen q.question) question_repeated _ h1 in
    let (options, h3) = then-ok (validate_options q.options []) _ h2 in
    let (valid, distinct, _) = validate_options_lem q.options [] options in
    (
      record {
        not_blank = ground (arith, is_empty_iff (trim q.question));
        text_bound = ground arith;
        options_valid = valid;
        labels_distinct = distinct;
      },
      contains-Absent seen q.question new,
      ground arith,
    )

validate_questions_from :
    (qs : List QuestionItem) (seen : List Text) {seen' : List Text}
    → validate_questions qs seen ≡ ok seen'
    → AllQuestions qs × Distinct (texts qs) × Apart (texts qs) seen
unfolding validate_questions
validate_questions_from [] seen h = (tt, tt, tt)
validate_questions_from (q ∷ qs) seen h =
    let (first, e, h1) = bind-ok (validate_question q seen) (validate_questions qs) h in
    let (valid, absent, same) = validate_question_lem q seen e in
    let (rest, distinct, apart) = validate_questions_from qs first h1 in
    let (apart', new) = Apart-cons (texts qs) q.question seen (rw (← same) at apart) in
    ((valid, rest), (new, distinct), (absent, apart'))

-- Every payload of questions that is accepted has distinct texts, each of them not blank and within
-- its bound, with options within theirs, whose labels are distinct after trimming and never `other`
-- in any case.
pub parse_questions_lem :
    (decoded : Checked (List QuestionItem)) (size : Option ℕ) (qs : List QuestionItem)
    → parse_questions decoded size ≡ ok qs
    → (decoded ≡ ok qs) × AllQuestions qs × Distinct (texts qs)
unfolding parse_questions
parse_questions_lem decoded size qs h =
    let (qs', e, h1) = bind-ok decoded _ h in
    let (seen, v, h2) = bind-ok (validate_questions qs' []) _ h1 in
    let (_, same) = then-ok (check_size size) _ h2 in
    let eq : qs' ≡ qs = ground arith in
    let (valid, distinct, _) = validate_questions_from qs' [] v in rw (← eq) (e, valid, distinct)
