-- ===== src/Queue/Steps.antt =====
-- The worker of crates/misy-core/src/core/queue.rs, `drain_submission_queue`, and sequences of calls.
use misy.Common.{ℕ, Bool, true, false, Option, none, some, List, [], ◌∷◌, if◌then◌else◌, ◌==◌}
use misy.Common.Assoc.{Assoc, lookup, remove}
use misy.Queue.{
  ActiveSubmission, Outcome, cancelled, started, ended, QueuedSubmission, Worker, idle, looping,
  taken, running, returned, emitting, aborted, Core, modify, emit, submit, cancel_submission,
  cancel_all_submissions, cancel_current_submission,
}

abbrev pub is_id : Option ℕ → ℕ → Bool
is_id none id = false
is_id (some j) id = j == id

abbrev pub is_cancelled : Option ActiveSubmission → Bool
is_cancelled none = false
is_cancelled (some a) = a.cancelled

module _ {Work : Type 0} where
  -- `SubmissionQueue::snapshot`.
  abbrev live_id : Core Work → Option ℕ → Option ℕ
  live_id c none = none
  live_id c (some id) = if is_cancelled (lookup id c.active) then none else some id

  abbrev live_ids : Core Work → List (QueuedSubmission Work) → List ℕ
  live_ids c [] = []
  live_ids c (q ∷ qs) =
      let rest = live_ids c qs in if is_cancelled (lookup q.id c.active) then rest else q.id ∷ rest

  unfoldable pub snapshot : Core Work → Option ℕ × List ℕ
  snapshot c = (live_id c c.current, live_ids c c.pending)

  -- The start of the loop of `drain_submission_queue`.
  abbrev pub take_next : Core Work → List (QueuedSubmission Work) → Core Work
  take_next c [] = record c { current = none; worker_running = false; worker = idle }
  take_next c (q ∷ qs) = record c { pending = qs; current = some q.id; worker = taken q }

  -- `run_submission` up to its turns: a cancelled one returns at once.
  abbrev pub start : Core Work → QueuedSubmission Work → Core Work
  start c q =
      if is_cancelled (lookup q.id c.active)
      then record c { worker = returned cancelled q.id }
      else record (emit c (started q.id)) { worker = running q }

  unfoldable pub finish_submission : Core Work → ℕ → Core Work
  finish_submission c id = record c {
    current = if is_id c.current id then none else c.current;
    active = remove id c.active;
  }

  abbrev pub work_at : Core Work → Outcome → Worker Work → Core Work
  work_at c outcome idle = c
  work_at c outcome looping = take_next c c.pending
  work_at c outcome (taken q) = start c q
  work_at c outcome (running q) = record c { worker = returned outcome q.id }
  work_at c outcome (returned o id) = record (finish_submission c id) { worker = emitting o id }
  work_at c outcome (emitting o id) = record (emit c (ended o id)) { worker = looping }
  work_at c outcome (aborted ids) = c

  -- The next step of the worker; the outcome is that of the turns, if it is inside them.
  unfoldable pub work : Core Work → Outcome → Core Work
  unfolding finish_submission emit
  work c outcome = work_at c outcome c.worker

  -- The submission that the worker holds.
  abbrev pub in_hand : Worker Work → List ℕ
  in_hand idle = []
  in_hand looping = []
  in_hand (taken q) = q.id ∷ []
  in_hand (running q) = q.id ∷ []
  in_hand (returned o id) = id ∷ []
  in_hand (emitting o id) = id ∷ []
  in_hand (aborted ids) = ids

  -- `finish_submission_worker`, when the worker does not end in time.
  unfoldable pub abort_worker : Core Work → Core Work
  abort_worker c = if c.is_shutdown then record c { worker = aborted (in_hand c.worker) } else c

  abbrev pub request_of : Worker Work → ℕ → Assoc ActiveSubmission → Assoc ActiveSubmission
  request_of (running q) r active = modify q.id (λ a. record a { request = some r }) active
  request_of _ r active = active

-- A call, or a step of the worker. A request is one that the running turn sends to its provider.
pub data Call (Work : Type 0) : Type 0 where
  submits : Bool → Work → Call Work
  cancels : ℕ → Call Work
  cancels_all : Call Work
  cancels_current : Call Work
  works : Outcome → Call Work
  requests : ℕ → Call Work
  closes : Call Work
  aborts : Call Work

module _ {Work : Type 0} where
  unfoldable pub step : Core Work → Call Work → Core Work
  step c (submits checked w) = (submit c checked w).1
  step c (cancels id) = (cancel_submission c id).1
  step c cancels_all = cancel_all_submissions c
  step c cancels_current = (cancel_current_submission c).1
  step c (works outcome) = work c outcome
  step c (requests r) = record c { active = request_of c.worker r c.active }
  step c closes = record c { is_shutdown = true }
  step c aborts = abort_worker c

  unfoldable pub run : Core Work → List (Call Work) → Core Work
  run c [] = c
  run c (x ∷ xs) = run (step c x) xs
