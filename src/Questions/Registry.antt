-- ===== src/Questions/Registry.antt =====
-- `QuestionRegistry` of questions.rs, with the calls of `MisyCore`, `dispatch` and the shutdown of
-- core.rs that use it. The sender of a reply is the number of its request.
use misy.Common.{
  ℕ, ◌+◌, ◌%◌, ◌^◌, min, Bool, false, not, ◌&&◌, ◌||◌, Option, none, some, List, [], ◌∷◌, ◌++◌, map,
  length, ltb, leb, ◌==◌, any, if◌then◌else◌,
}
use misy.Common.Assoc.{Assoc, lookup, insert, remove}
use misy.Common.Texts.{Text, trim, is_empty}
use misy.Questions.{
  QuestionItem, QuestionSource, submission, agent, QuestionRequest, QuestionResponse,
  dismissed_too_often, unknown_question, wrong_questions, answer_bound, shutdown, Checked, ok, err,
  ◌>>◌, refuse_if, contains, check_size, max_dismisses, max_question_answer_chars,
}

pub data QuestionResolution : Type 0 where
  answered : List (Text × Text) → QuestionResolution
  dismissed : QuestionResolution
  cancelled : QuestionResolution

abbrev pub Dismisses : Type 0
Dismisses = List (QuestionSource × ℕ)

pub record QuestionRegistry : Type 0 where
  pub next_id : ℕ
  pub pending : Assoc QuestionRequest
  pub dismisses : Dismisses

unfoldable pub same_source : QuestionSource → QuestionSource → Bool
same_source (submission i) (submission j) = i == j
same_source (agent i) (agent j) = i == j
same_source _ _ = false

unfoldable pub dismissed_by : QuestionSource → Dismisses → ℕ
unfolding same_source
dismissed_by s [] = 0
dismissed_by s ((t, n) ∷ ds) = if same_source t s then n else dismissed_by s ds

unfoldable pub forgive : QuestionSource → Dismisses → Dismisses
unfolding same_source
forgive s [] = []
forgive s ((t, n) ∷ ds) = let rest = forgive s ds in if same_source t s then rest else (t, n) ∷ rest

-- A counter of eight bits, which stops at its largest value.
unfoldable pub count_dismiss : QuestionSource → Dismisses → Dismisses
unfolding dismissed_by forgive
count_dismiss s ds = (s, min (dismissed_by s ds + 1) 255) ∷ forgive s ds

abbrev pub all {ℓ} : {A : Type ℓ} → (A → Bool) → List A → Bool
all p xs = not (any (λ x. not (p x)) xs)

unfoldable pub question_texts : List QuestionItem → List Text
question_texts = map (λ q. q.question)

unfoldable pub answered_texts : List (Text × Text) → List Text
answered_texts = map (λ a. a.0)

unfoldable pub same_texts : List Text → List Text → Bool
unfolding contains
same_texts xs ys = all (contains ys) xs && all (contains xs) ys

unfoldable pub answer_out_of_bounds : Text × Text → Bool
answer_out_of_bounds a = is_empty (trim a.1) || ltb max_question_answer_chars (length a.1)

pub data Event : Type 0 where
  requested : QuestionRequest → Event
  resolved : ℕ → Event

-- What the core keeps of questions, with what it has emitted and sent, oldest first.
pub record Core : Type 0 where
  pub is_shutdown : Bool
  pub questions : QuestionRegistry
  pub events : List Event
  pub sent : List (ℕ × QuestionResolution)

unfoldable pub emit : Event → Core → Core
emit e c = record c { events = c.events ++ e ∷ [] }

unfoldable pub send : ℕ → QuestionResolution → Core → Core
send id r c = record c { sent = c.sent ++ (id, r) ∷ [] }

unfoldable pub ensure_running : Core → Checked (Unit {0})
ensure_running c = refuse_if c.is_shutdown shutdown

unfoldable pub take_cancel : QuestionRegistry → ℕ → Option ℕ × QuestionRegistry
take_cancel r id = elim (lookup id r.pending) [
  | none ↦ (none, r)
  | some q ↦ (some id, record r { pending = remove id r.pending })
]

unfoldable pub take_all : QuestionRegistry → List ℕ × QuestionRegistry
take_all r = (map (λ p. p.0) r.pending, record r { pending = [] })

unfoldable pub dismiss : QuestionRegistry → ℕ → Checked ℕ × QuestionRegistry
dismiss r id = elim (lookup id r.pending) [
  | none ↦ (err (unknown_question id), r)
  | some q ↦ (
    ok id,
    record r { pending = remove id r.pending; dismisses = count_dismiss q.source r.dismisses },
  )
]

module _ (encoded_request : QuestionRequest → Option ℕ)
    (encoded_response : QuestionResponse → Option ℕ) where
  unfoldable pub validate_answers : QuestionRequest → QuestionResponse → Checked (Unit {0})
  validate_answers request response = do
    refuse_if
        (not (same_texts (question_texts request.questions) (answered_texts response.answers)))
        wrong_questions
    refuse_if (any answer_out_of_bounds response.answers) answer_bound
    check_size (encoded_response response)

  abbrev pub new_request :
      QuestionRegistry → QuestionSource → Text → List QuestionItem → QuestionRequest
  new_request r source tool_call_id questions = record {
    id = r.next_id;
    tool_call_id = tool_call_id;
    source = source;
    questions = questions;
  }

  abbrev pub store_request :
      Checked (Unit {0})
      → QuestionRequest
      → QuestionRegistry
      → Checked QuestionRequest × QuestionRegistry
  store_request (ok u) q r = (ok q, record r { pending = insert q.id q r.pending })
  store_request (err e) q r = (err e, r)

  -- The counter of requests moves on before the size is checked.
  unfoldable pub register :
      QuestionRegistry
      → QuestionSource
      → Text
      → List QuestionItem
      → Checked QuestionRequest × QuestionRegistry
  register r source tool_call_id questions =
      let request = new_request r source tool_call_id questions in
      if leb max_dismisses (dismissed_by source r.dismisses)
      then (err dismissed_too_often, r)
      else store_request (check_size (encoded_request request)) request
          (record r { next_id = (r.next_id + 1) % 2 ^ 64 })

  abbrev pub accept_answer :
      Checked (Unit {0}) → ℕ → QuestionSource → QuestionRegistry → Checked ℕ × QuestionRegistry
  accept_answer (ok u) id source r =
      (ok id, record r { pending = remove id r.pending; dismisses = forgive source r.dismisses })
  accept_answer (err e) id source r = (err e, r)

  unfoldable pub answer : QuestionRegistry → QuestionResponse → Checked ℕ × QuestionRegistry
  answer r response = elim (lookup response.request_id r.pending) [
    | none ↦ (err (unknown_question response.request_id), r)
    | some q ↦ accept_answer (validate_answers q response) response.request_id q.source r
  ]
