-- ===== src/Questions/Client.antt =====
-- The calls that use the registry of questions: `answer_question`, `dismiss_question` and
-- `dispatch` of questions.rs, and the end of `shutdown_services` of core.rs.
use misy.Common.{ℕ, Option, none, some, List, [], ◌∷◌}
use misy.Common.Texts.{Text}
use misy.Questions.{
  QuestionItem, QuestionSource, QuestionRequest, QuestionResponse, Checked, ok, err,
}
use misy.Questions.Registry.{
  QuestionResolution, answered, dismissed, cancelled, QuestionRegistry, requested, resolved, Core,
  emit, send, ensure_running, take_cancel, take_all, dismiss, register, answer,
}

-- The event and the reply of a request whose sender was claimed.
unfoldable pub deliver :
    Checked ℕ × QuestionRegistry → ℕ → QuestionResolution → Core → Checked (Unit {0}) × Core
unfolding emit send
deliver (ok sender, r) id resolution c =
    (ok tt, send sender resolution (emit (resolved id) (record c { questions = r })))
deliver (err e, r) id resolution c = (err e, record c { questions = r })

unfoldable pub dismiss_question : Core → ℕ → Checked (Unit {0}) × Core
unfolding ensure_running dismiss deliver
dismiss_question c id = elim (ensure_running c) [
  | err e ↦ (err e, c)
  | ok u ↦ deliver (dismiss c.questions id) id dismissed c
]

-- A turn that is cancelled takes its request back, unless the reply is already claimed.
unfoldable pub cancel_question : Core → ℕ → Core
unfolding take_cancel emit send
cancel_question c id =
    let (sender, r) = take_cancel c.questions id in
    elim sender [
      | none ↦ record c { questions = r }
      | some s ↦ send s cancelled (emit (resolved id) (record c { questions = r }))
    ]

unfoldable pub cancel_each : List ℕ → Core → Core
unfolding emit send
cancel_each [] c = c
cancel_each (id ∷ ids) c = cancel_each ids (send id cancelled (emit (resolved id) c))

-- The shutdown cancels what is left.
unfoldable pub drain_questions : Core → Core
unfolding take_all
drain_questions c =
    let (ids, r) = take_all c.questions in cancel_each ids (record c { questions = r })

module _ (encoded_request : QuestionRequest → Option ℕ)
    (encoded_response : QuestionResponse → Option ℕ) where
  unfoldable pub answer_question : Core → QuestionResponse → Checked (Unit {0}) × Core
  unfolding ensure_running answer deliver
  answer_question c response = elim (ensure_running c) [
    | err e ↦ (err e, c)
    | ok u ↦
        deliver (answer encoded_request encoded_response c.questions response) response.request_id
          (answered response.answers) c
  ]

  abbrev publish : Checked QuestionRequest × QuestionRegistry → Core → Core
  publish (ok q, r) c = emit (requested q) (record c { questions = r })
  publish (err e, r) c = record c { questions = r }

  -- What `dispatch` does before it waits.
  unfoldable pub ask : Core → QuestionSource → Text → List QuestionItem → Core
  unfolding emit register
  ask c source tool_call_id questions =
      publish (register encoded_request encoded_response c.questions source tool_call_id questions)
        c
