-- ===== src/Questions/Asking.antt =====
-- The calls of questions.rs that ask a question and that answer it.
use misy.Common.{
  ◌%◌, ◌^◌, ℕ, ◌+◌, ◌<◌, ◌≡◌, refl, true, false, Option, none, some, List, [], ◌∷◌, ◌++◌, arith,
  leb, ◌⊎◌, inl, inr, Option-cases, Bool-cases, u64_max,
}
use misy.Common.Assoc.{lookup, remove, insert, count_key-insert}
use misy.Common.Texts.{Text}
use misy.Questions.{
  QuestionError, QuestionItem, QuestionSource, QuestionRequest, QuestionResponse, Checked, ok, err,
  check_size, max_dismisses,
}
use misy.Questions.Registry.{
  answered, requested, resolved, Core, register, dismissed_by, validate_answers, forgive,
}
use misy.Questions.Client.{answer_question, ask}
use misy.Questions.Lifecycle.{
  IsConsistent, requests-append, resolutions-append, settle-IsConsistent,
}

Checked-cases : (m : Checked (Unit {0})) → (m ≡ ok tt) ⊎ ((e : QuestionError) × (m ≡ err e))
Checked-cases (ok u) = inl refl
Checked-cases (err e) = inr (e, refl)

ask_new :
    (c : Core) (q : QuestionRequest)
    → q.id ≡ c.questions.next_id
    → c.questions.next_id < u64_max
    → IsConsistent c
    → IsConsistent (record c {
      questions = record (c.questions) {
        next_id = (c.questions.next_id + 1) % 2 ^ 64;
        pending = insert q.id q c.questions.pending;
      };
      events = c.events ++ requested q ∷ [];
    })
ask_new c q e room v = record {
  balanced = λ j. ground (
    arith,
    v.balanced j,
    v.balanced q.id,
    v.fresh q.id (omega arith),
    requests-append j c.events (requested q ∷ []),
    resolutions-append j c.events (requested q ∷ []),
    count_key-insert q.id j q c.questions.pending,
  );
  once = λ j. ground (arith, v.once j, v.fresh j, requests-append j c.events (requested q ∷ []));
  fresh = λ j below. ground (arith, v.fresh j, requests-append j c.events (requested q ∷ []));
  replied = λ j. omega (arith, v.replied j, resolutions-append j c.events (requested q ∷ []));
}

module _ (encoded_request : QuestionRequest → Option ℕ)
    (encoded_response : QuestionResponse → Option ℕ) where
  validated : QuestionRequest → QuestionResponse → Checked (Unit {0})
  validated = validate_answers encoded_request encoded_response

  answer_question-idle :
      (c : Core) (response : QuestionResponse)
      → (c.is_shutdown ≡ true) ⊎ (lookup response.request_id c.questions.pending ≡ none)
      → (answer_question encoded_request encoded_response c response).1 ≡ c
  unfolding answer_question
  answer_question-idle c response h = ground arith

  answer_question-refused :
      (c : Core) (response : QuestionResponse) (q : QuestionRequest) (e : QuestionError)
      → lookup response.request_id c.questions.pending ≡ some q
      → validated q response ≡ err e
      → (answer_question encoded_request encoded_response c response).1 ≡ c
  unfolding answer_question validated
  answer_question-refused c response q e m h = ground (arith, m, h)

  answer_question-accepted :
      (c : Core) (response : QuestionResponse) (q : QuestionRequest)
      → c.is_shutdown ≡ false
      → lookup response.request_id c.questions.pending ≡ some q
      → validated q response ≡ ok tt
      → (answer_question encoded_request encoded_response c response).1 ≡ record c {
        questions = record (c.questions) {
          pending = remove response.request_id c.questions.pending;
          dismisses = forgive q.source c.questions.dismisses;
        };
        events = c.events ++ resolved response.request_id ∷ [];
        sent = c.sent ++ (response.request_id, answered response.answers) ∷ [];
      }
  unfolding answer_question validated
  answer_question-accepted c response q running m h = ground (arith, m, h)

  pub answer_question-IsConsistent :
      (c : Core) (response : QuestionResponse)
      → IsConsistent c
      → IsConsistent (answer_question encoded_request encoded_response c response).1
  answer_question-IsConsistent c response v = elim (Bool-cases c.is_shutdown) [
    | inl e ↦ rw (answer_question-idle c response (inl e)) v
    | inr e ↦ elim (Option-cases (lookup response.request_id c.questions.pending)) [
      | inl m ↦ rw (answer_question-idle c response (inr m)) v
      | inr (q, m) ↦ elim (Checked-cases (validated q response)) [
        | inr (x, h) ↦ rw (answer_question-refused c response q x m h) v
        | inl h ↦ rw (answer_question-accepted c response q e m h) (
            settle-IsConsistent c response.request_id (answered response.answers)
              (forgive q.source c.questions.dismisses) q m v)
      ]
    ]
  ]

  module _ (c : Core) (source : QuestionSource) (tool_call_id : Text)
      (questions : List QuestionItem) where
    abbrev request : QuestionRequest
    request = record {
      id = c.questions.next_id;
      tool_call_id = tool_call_id;
      source = source;
      questions = questions;
    }

    abbrev after_ask : Core
    after_ask = ask encoded_request encoded_response c source tool_call_id questions

    ask-tired : leb max_dismisses (dismissed_by source c.questions.dismisses) ≡ true → after_ask ≡ c
    unfolding ask
    ask-tired h = ground (arith, h)

    ask-refused :
        (e : QuestionError)
        → leb max_dismisses (dismissed_by source c.questions.dismisses) ≡ false
        → check_size (encoded_request request) ≡ err e
        → after_ask ≡ record c {
          questions = record (c.questions) { next_id = (c.questions.next_id + 1) % 2 ^ 64 };
        }
    unfolding ask
    ask-refused e h m = rw (h, register) (rw m)

    ask-accepted :
        leb max_dismisses (dismissed_by source c.questions.dismisses) ≡ false
        → check_size (encoded_request request) ≡ ok tt
        → after_ask ≡ record c {
          questions = record (c.questions) {
            next_id = (c.questions.next_id + 1) % 2 ^ 64;
            pending = insert request.id request c.questions.pending;
          };
          events = c.events ++ requested request ∷ [];
        }
    unfolding ask
    ask-accepted h m = rw (h, register) (rw m)

    pub ask-IsConsistent : c.questions.next_id < u64_max → IsConsistent c → IsConsistent after_ask
    ask-IsConsistent room v =
        elim (Bool-cases (leb max_dismisses (dismissed_by source c.questions.dismisses))) [
          | inl h ↦ rw (ask-tired h) v
          | inr h ↦ elim (Checked-cases (check_size (encoded_request request))) [
            | inl m ↦ rw (ask-accepted h m) (ask_new c request refl room v)
            | inr (e, m) ↦ rw (ask-refused e h m) (record {
              balanced = v.balanced;
              once = v.once;
              fresh = λ j below. v.fresh j (omega arith);
              replied = v.replied;
            })
          ]
        ]
