-- ===== src/Questions/Settling.antt =====
-- The calls of questions.rs that settle a request with no answer, and the end of the shutdown.
use misy.Common.{
  ap, ℕ, ◌+◌, ◌≡◌, refl, true, false, none, some, List, [], ◌∷◌, ◌++◌, map, arith, ◌⊎◌, inl, inr,
  Option-cases, Bool-cases,
}
use misy.Common.Assoc.{Assoc, lookup, remove, count_key}
use misy.Questions.{QuestionRequest}
use misy.Questions.Registry.{dismissed, cancelled, resolved, Core, emit, send, count_dismiss}
use misy.Questions.Client.{dismiss_question, cancel_question, cancel_each, drain_questions}
use misy.Questions.Lifecycle.{
  IsConsistent, requests, resolutions, replies, requests-append, resolutions-append, replies-append,
  settle-IsConsistent,
}

dismiss_question-idle :
    (c : Core) (id : ℕ)
    → (c.is_shutdown ≡ true) ⊎ (lookup id c.questions.pending ≡ none)
    → (dismiss_question c id).1 ≡ c
unfolding dismiss_question
dismiss_question-idle c id h = ground arith

dismiss_question-some :
    (c : Core) (id : ℕ) (q : QuestionRequest)
    → c.is_shutdown ≡ false
    → lookup id c.questions.pending ≡ some q
    → (dismiss_question c id).1 ≡ record c {
      questions = record (c.questions) {
        pending = remove id c.questions.pending;
        dismisses = count_dismiss q.source c.questions.dismisses;
      };
      events = c.events ++ resolved id ∷ [];
      sent = c.sent ++ (id, dismissed) ∷ [];
    }
unfolding dismiss_question
dismiss_question-some c id q running e = ground (arith, e)

pub dismiss_question-IsConsistent :
    (c : Core) (id : ℕ) → IsConsistent c → IsConsistent (dismiss_question c id).1
dismiss_question-IsConsistent c id v = elim (Bool-cases c.is_shutdown) [
  | inl e ↦ rw (dismiss_question-idle c id (inl e)) v
  | inr e ↦ elim (Option-cases (lookup id c.questions.pending)) [
    | inl m ↦ rw (dismiss_question-idle c id (inr m)) v
    | inr (q, m) ↦
        rw (dismiss_question-some c id q e m)
          (settle-IsConsistent c id dismissed (count_dismiss q.source c.questions.dismisses) q m v)
  ]
]

cancel_question-none :
    (c : Core) (id : ℕ) → lookup id c.questions.pending ≡ none → cancel_question c id ≡ c
unfolding cancel_question
cancel_question-none c id e = ground (arith, e)

cancel_question-some :
    (c : Core) (id : ℕ) (q : QuestionRequest)
    → lookup id c.questions.pending ≡ some q
    → cancel_question c id ≡ record c {
      questions = record (c.questions) { pending = remove id c.questions.pending };
      events = c.events ++ resolved id ∷ [];
      sent = c.sent ++ (id, cancelled) ∷ [];
    }
unfolding cancel_question
cancel_question-some c id q e = ground (arith, e)

pub cancel_question-IsConsistent :
    (c : Core) (id : ℕ) → IsConsistent c → IsConsistent (cancel_question c id)
cancel_question-IsConsistent c id v = elim (Option-cases (lookup id c.questions.pending)) [
  | inl e ↦ rw (cancel_question-none c id e) v
  | inr (q, e) ↦
      rw (cancel_question-some c id q e)
        (settle-IsConsistent c id cancelled c.questions.dismisses q e v)
]

cancel_each-keeps :
    (ids : List ℕ) (c : Core) (id : ℕ)
    → (requests id (cancel_each ids c).events ≡ requests id c.events)
      × (resolutions id (cancel_each ids c).events
          ≡ resolutions id c.events + (resolutions id (map resolved ids)))
      × (replies id (cancel_each ids c).sent
          ≡ replies id c.sent + resolutions id (map resolved ids))
      × ((cancel_each ids c).questions ≡ c.questions)
unfolding cancel_each
cancel_each-keeps [] c id = (refl, omega arith, omega arith, refl)
cancel_each-keeps (j ∷ ids) c id =
    let (a, b, d, e) = cancel_each-keeps ids (send j cancelled (emit (resolved j) c)) id in
    (
      omega (arith, a, requests-append id c.events (resolved j ∷ [])),
      omega (arith, b, resolutions-append id c.events (resolved j ∷ [])),
      omega (arith, d, replies-append id c.sent ((j, cancelled) ∷ [])),
      e,
    )

resolutions-keys :
    {V : Type 0} (id : ℕ) (m : Assoc V)
    → resolutions id (map resolved (map (λ p. p.0) m)) ≡ count_key id m
resolutions-keys id [] = refl
resolutions-keys id ((j, v) ∷ m) = omega (arith, resolutions-keys id m)

pub drain_questions-pending : (c : Core) → (drain_questions c).questions.pending ≡ []
unfolding drain_questions
drain_questions-pending c =
    ap (λ r. r.pending)
      (cancel_each-keeps (map (λ p. p.0) c.questions.pending)
        (record c { questions = record (c.questions) { pending = [] } }) 0).3

-- The shutdown settles every request that is pending, and leaves none.
pub drain_questions-IsConsistent : (c : Core) → IsConsistent c → IsConsistent (drain_questions c)
unfolding drain_questions
drain_questions-IsConsistent c v = record {
  balanced = λ j. omega (
    arith,
    (kept j).0,
    (kept j).1,
    v.balanced j,
    ap (λ r. count_key j r.pending) (kept j).3,
    resolutions-keys j c.questions.pending,
  );
  once = λ j. omega (arith, (kept j).0, v.once j);
  fresh = λ j below. omega (arith, (kept j).0, v.fresh j (rw (kept j).3 at below));
  replied = λ j. omega (arith, (kept j).1, (kept j).2, v.replied j);
}
  where
    ids : List ℕ
    ids = map (λ p. p.0) c.questions.pending

    bare : Core
    bare = record c { questions = record (c.questions) { pending = [] } }

    kept :
        (id : ℕ)
        → (requests id (cancel_each ids bare).events ≡ requests id c.events)
          × (resolutions id (cancel_each ids bare).events
              ≡ resolutions id c.events + resolutions id (map resolved ids))
          × (replies id (cancel_each ids bare).sent
              ≡ replies id c.sent + resolutions id (map resolved ids))
          × ((cancel_each ids bare).questions ≡ bare.questions)
    kept id = cancel_each-keeps ids bare id
