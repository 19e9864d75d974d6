-- ===== src/Dialog/Keys.antt =====
-- The answers of the dialog by their keys, crates/misy-tui/src/tui/question_dialog.rs.
use misy.Common.{
  if_cases, Bool, true, false, not, ◌||◌, List, [], ◌∷◌, ◌≡◌, ◌≢◌, refl, sym, ap, ◌∙◌, Bool-cases,
  inl, inr, length, ltb, any, map, arith,
}
use misy.Common.Texts.{Text, text_eq, text_eq_iff, trim, is_empty}
use misy.Common.Blank.{has_ink, is_empty-trim}
use misy.Questions.{QuestionOption, QuestionItem, contains, max_question_answer_chars}
use misy.Questions.Validation.{AllValid, AllQuestions}
use misy.Questions.Registry.{all, same_texts, answer_out_of_bounds}
use misy.Dialog.{QuestionPage, blank, complete_pages}
use misy.Dialog.Calls.{put_answer, collect, answer_for}
use misy.Dialog.Pages.{PagesOk}
use misy.Dialog.Answers.{AllInk, unwritten, answer_for-ink}

abbrev pub any_unwritten : List QuestionItem → List QuestionPage → Bool
any_unwritten (q ∷ qs) (p ∷ ps) = unwritten q p || any_unwritten qs ps
any_unwritten (q ∷ qs) [] = false
any_unwritten [] ps = false

-- The keys of a map.
put_answer-keys :
    (t k v : Text) (rest : List (Text × Text))
    → contains (map (λ a. a.0) (put_answer k v rest)) t
      ≡ (text_eq t k || contains (map (λ a. a.0) rest) t)
unfolding contains
put_answer-keys t k v [] = ground arith
put_answer-keys t k v ((j, w) ∷ rest) =
    if_cases
      (λ m.
        contains (map (λ a. a.0) m) t
        ≡ (text_eq t k || contains (map (λ a. a.0) ((j, w) ∷ rest)) t))
      (text_eq j k) ((k, v) ∷ rest) ((j, w) ∷ put_answer k v rest)
      (λ e. let same : j ≡ k = (text_eq_iff j k).0 e in rw same (ground arith))
      (λ e. ground (arith, put_answer-keys t k v rest))

pub collect-keys :
    (t : Text) (qs : List QuestionItem) (ps : List QuestionPage) (rest : List (Text × Text))
    → PagesOk qs ps
    → contains (map (λ a. a.0) (collect qs ps rest)) t
      ≡ (contains (map (λ (q : QuestionItem). q.question) qs) t || contains (map (λ a. a.0) rest) t)
unfolding contains collect
collect-keys t [] [] rest v = refl
collect-keys t [] (p ∷ ps) rest v = absurd v
collect-keys t (q ∷ qs) [] rest v = absurd v
collect-keys t (q ∷ qs) (p ∷ ps) rest v = ground (
  arith,
  collect-keys t qs ps (put_answer q.question (answer_for q p) rest) v.1,
  put_answer-keys t q.question (answer_for q p) rest,
)

empty_of : (t : Text) → is_empty t ≡ true → t ≡ []
unfolding is_empty
empty_of [] e = refl
empty_of (c ∷ cs) e = cc

label-ink : (t : Text) → trim t ≢ [] → has_ink t ≡ true
label-ink t n = elim (Bool-cases (has_ink t)) [
  | inl e ↦ e
  | inr e ↦ absurd (n (empty_of (trim t) (is_empty-trim t ∙ ap not e)))
]

valid-ink : (os : List QuestionOption) → AllValid os → AllInk os
valid-ink [] v = tt
valid-ink (o ∷ os) v = (label-ink o.label v.0.not_blank, valid-ink os v.1)

put_answer-blank :
    (k v : Text) (rest : List (Text × Text))
    → blank v ≡ false
    → any (λ a. blank a.1) rest ≡ false
    → any (λ a. blank a.1) (put_answer k v rest) ≡ false
put_answer-blank k v [] b r = rw b refl
put_answer-blank k v ((j, w) ∷ rest) b r =
    if_cases (λ m. any (λ a. blank a.1) m ≡ false) (text_eq j k) ((k, v) ∷ rest)
      ((j, w) ∷ put_answer k v rest) (λ e. ground (arith, b, r))
      (λ e. ground (arith, r, put_answer-blank k v rest b (ground (arith, r))))

pub collect-blank :
    (qs : List QuestionItem) (ps : List QuestionPage) (rest : List (Text × Text))
    → PagesOk qs ps
    → AllQuestions qs
    → complete_pages ps ≡ true
    → any_unwritten qs ps ≡ false
    → any (λ a. blank a.1) rest ≡ false
    → any (λ a. blank a.1) (collect qs ps rest) ≡ false
unfolding collect
collect-blank [] [] rest v a c u r = r
collect-blank [] (p ∷ ps) rest v a c u r = absurd v
collect-blank (q ∷ qs) [] rest v a c u r = absurd v
collect-blank (q ∷ qs) (p ∷ ps) rest v a c u r =
    collect-blank qs ps _ v.1 a.1 (ground (arith, c)) (ground (arith, u)) (
      put_answer-blank q.question (answer_for q p) rest
        (answer_for-ink q p (valid-ink q.options a.0.options_valid) v.0 (ground (arith, c))
          (ground (arith, u)))
        r)

-- The members of a list satisfy a test.
all_members :
    (p : Text → Bool) (xs : List Text)
    → ((t : Text) → contains xs t ≡ true → p t ≡ true)
    → all p xs ≡ true
unfolding contains
all_members p [] h = refl
all_members p (x ∷ xs) h = ground (
  arith,
  h x (ground (arith, text_eq_iff x x)),
  all_members p xs (λ t e. h t (ground (arith, e))),
)

pub same_keys :
    (xs ys : List Text) → ((t : Text) → contains ys t ≡ contains xs t) → same_texts xs ys ≡ true
unfolding same_texts
same_keys xs ys h = ground (
  arith,
  all_members (contains ys) xs (λ t e. h t ∙ e),
  all_members (contains xs) ys (λ t e. sym (h t) ∙ e),
)

pub only_long :
    (xs : List (Text × Text))
    → any (λ a. blank a.1) xs ≡ false
    → any answer_out_of_bounds xs ≡ any (λ a. ltb max_question_answer_chars (length a.1)) xs
unfolding answer_out_of_bounds
only_long [] h = refl
only_long (x ∷ xs) h = ground (arith, only_long xs (ground (arith, h)))
