-- ===== src/Questions/Histories.antt =====
-- Whole histories of the calls of questions.rs.
use misy.Common.{
  ℕ, ◌+◌, ◌≤◌, ◌<◌, ◌≡◌, refl, false, true, Option, List, [], ◌∷◌, arith, length, u64_max, ap,
}
use misy.Common.Assoc.{count_key}
use misy.Common.Texts.{Text}
use misy.Questions.{QuestionItem, QuestionSource, QuestionRequest, QuestionResponse}
use misy.Questions.Registry.{Core}
use misy.Questions.Client.{dismiss_question, cancel_question, drain_questions, answer_question, ask}
use misy.Questions.Lifecycle.{IsConsistent, requests, replies}
use misy.Questions.Settling.{
  dismiss_question-IsConsistent, cancel_question-IsConsistent, drain_questions-IsConsistent,
  drain_questions-pending,
}
use misy.Questions.Asking.{answer_question-IsConsistent, ask-IsConsistent}

-- One call by a client, by a model turn, or by the shutdown, which first closes the core.
pub data Call : Type 0 where
  asks : QuestionSource → Text → List QuestionItem → Call
  answers : QuestionResponse → Call
  dismisses : ℕ → Call
  cancels : ℕ → Call
  closes : Call

abbrev pub new_core : Core
new_core = record {
  is_shutdown = false;
  questions = record { next_id = 1; pending = []; dismisses = [] };
  events = [];
  sent = [];
}

new_core-IsConsistent : IsConsistent new_core
new_core-IsConsistent = record {
  balanced = λ id. omega arith;
  once = λ id. omega arith;
  fresh = λ id below. refl;
  replied = λ id. refl;
}

module _ (encoded_request : QuestionRequest → Option ℕ)
    (encoded_response : QuestionResponse → Option ℕ) where
  unfoldable pub step : Core → Call → Core
  step c (asks source id questions) = ask encoded_request encoded_response c source id questions
  step c (answers response) = (answer_question encoded_request encoded_response c response).1
  step c (dismisses id) = (dismiss_question c id).1
  step c (cancels id) = cancel_question c id
  step c closes = record c { is_shutdown = true }

  unfoldable pub run : Core → List Call → Core
  unfolding step
  run c [] = c
  run c (x ∷ xs) = run (step c x) xs

  next_id-step : (c : Core) (x : Call) → (step c x).questions.next_id ≤ c.questions.next_id + 1
  unfolding step dismiss_question cancel_question answer_question ask
  next_id-step c (asks source id questions) = ground arith
  next_id-step c (answers response) = ground arith
  next_id-step c (dismisses id) = ground arith
  next_id-step c (cancels id) = ground arith
  next_id-step c closes = omega arith

  step-IsConsistent :
      (c : Core) (x : Call)
      → c.questions.next_id < u64_max
      → IsConsistent c
      → IsConsistent (step c x)
  unfolding step
  step-IsConsistent c (asks source id questions) h v =
      ask-IsConsistent encoded_request encoded_response c source id questions h v
  step-IsConsistent c (answers response) h v =
      answer_question-IsConsistent encoded_request encoded_response c response v
  step-IsConsistent c (dismisses id) h v = dismiss_question-IsConsistent c id v
  step-IsConsistent c (cancels id) h v = cancel_question-IsConsistent c id v
  step-IsConsistent c closes h v = record {
    balanced = v.balanced;
    once = v.once;
    fresh = v.fresh;
    replied = v.replied;
  }

  run-IsConsistent :
      (c : Core) (xs : List Call)
      → c.questions.next_id + length xs ≤ u64_max
      → IsConsistent c
      → IsConsistent (run c xs)
  unfolding run
  run-IsConsistent c [] h v = v
  run-IsConsistent c (x ∷ xs) h v =
      run-IsConsistent (step c x) xs (omega (arith, next_id-step c x))
        (step-IsConsistent c x (omega arith) v)

  -- Whatever the calls, up to the range of the counter, and whatever their order: once the shutdown
  -- has drained the registry, each announced request has had exactly one reply, each other number
  -- none, no request was announced twice, and nothing is pending.
  pub run_drained :
      (xs : List Call) (id : ℕ)
      → 1 + length xs ≤ u64_max
      → let c = drain_questions (run new_core xs) in
        (replies id c.sent ≡ requests id c.events)
        × (requests id c.events ≤ 1)
        × (c.questions.pending ≡ [])
  run_drained xs id h =
      let v =
        drain_questions-IsConsistent (run new_core xs)
          (run-IsConsistent new_core xs h new_core-IsConsistent) in
      let none_left = drain_questions-pending (run new_core xs) in
      (
        omega (arith, v.balanced id, v.replied id, ap (λ m. count_key id m) none_left),
        v.once id,
        none_left,
      )
