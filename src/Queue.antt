-- ===== src/Queue.antt =====
-- The queue of submissions, crates/misy-core/src/core/queue.rs, with `run_submission` of
-- crates/misy-core/src/core/agent.rs from outside. What is submitted (model, message, attachments)
-- has a type of its own. The objects that tasks share (`Arc<ActiveSubmission>`) stand in the map
-- `active`. The worker task is a state of its own, and a call is one step of a task between two locks
-- or waits.
pub mod Steps
pub mod Events
pub mod Marks
pub mod Accepting
pub mod Order
pub mod Drain
pub mod Examples
use misy.Common.{
  ℕ, ◌+◌, ◌%◌, ◌^◌, Bool, true, false, not, Option, none, some, List, [], ◌∷◌, ◌++◌, map,
  if◌then◌else◌, ◌==◌, retain,
}
use misy.Common.Assoc.{Assoc, lookup, insert, remove}

-- `request` is the number of the provider's request.
pub record ActiveSubmission : Type 0 where
  pub cancelled : Bool
  pub request : Option ℕ

abbrev pub new_active : ActiveSubmission
new_active = record { cancelled = false; request = none }

pub data Outcome : Type 0 where
  completed cancelled failed : Outcome

pub data Event : Type 0 where
  accepted : ℕ → Event
  started : ℕ → Event
  ended : Outcome → ℕ → Event

pub data QueueError : Type 0 where
  shutdown : QueueError
  rejected : QueueError
  unknown_submission : ℕ → QueueError

pub record QueuedSubmission (Work : Type 0) : Type 0 where
  pub id : ℕ
  pub work : Work

-- Where the worker task is: there is none; before the lock of its loop; with a submission that it
-- took; inside its turns; back with the outcome; before the event; aborted, with the submission that
-- it held.
pub data Worker (Work : Type 0) : Type 0 where
  idle : Worker Work
  looping : Worker Work
  taken : QueuedSubmission Work → Worker Work
  running : QueuedSubmission Work → Worker Work
  returned : Outcome → ℕ → Worker Work
  emitting : Outcome → ℕ → Worker Work
  aborted : List ℕ → Worker Work

pub record Core (Work : Type 0) : Type 0 where
  pub is_shutdown : Bool
  pub next_submission : ℕ
  pub pending : List (QueuedSubmission Work)
  pub current : Option ℕ
  pub worker_running : Bool
  pub active : Assoc ActiveSubmission
  pub worker : Worker Work
  pub events : List Event
  pub remote_cancels : List ℕ

abbrev pub new_core : {Work : Type 0} → Core Work
new_core = record {
  is_shutdown = false;
  next_submission = 1;
  pending = [];
  current = none;
  worker_running = false;
  active = [];
  worker = idle;
  events = [];
  remote_cancels = [];
}

pub data Submitted (A : Type 0) : Type 0 where
  ok : A → Submitted A
  err : QueueError → Submitted A

-- A write to a shared object of the map.
abbrev pub modify : {V : Type 0} → ℕ → (V → V) → Assoc V → Assoc V
modify id f [] = []
modify id f ((i, v) ∷ rest) = (i, if i == id then f v else v) ∷ modify id f rest

module _ {Work : Type 0} where
  unfoldable pub emit : Core Work → Event → Core Work
  emit c e = record c { events = c.events ++ e ∷ [] }

  unfoldable pub enqueue_submission : Core Work → Work → Submitted (ℕ × Bool) × Core Work
  enqueue_submission c work = if c.is_shutdown then (err shutdown, c) else (
    ok (c.next_submission, not c.worker_running),
    record c {
      next_submission = (c.next_submission + 1) % 2 ^ 64;
      active = insert c.next_submission new_active c.active;
      events = c.events ++ accepted c.next_submission ∷ [];
      pending = c.pending ++ record { id = c.next_submission; work = work } ∷ [];
      worker_running = true;
    },
  )

  abbrev pub spawn : Submitted (ℕ × Bool) × Core Work → Submitted ℕ × Core Work
  spawn (err e, c) = (err e, c)
  spawn (ok (id, start), c) = (ok id, record c { worker = if start then looping else c.worker })

  -- `submit_with_attachments`; the flag is what the checks of instructions, model and images answer.
  unfoldable pub submit : Core Work → Bool → Work → Submitted ℕ × Core Work
  unfolding enqueue_submission
  submit c checked work =
      if c.is_shutdown
      then (err shutdown, c)
      else if checked
      then spawn (enqueue_submission c work)
      else (err rejected, c)

  abbrev pub with_request : Option ℕ → Core Work → Core Work
  with_request none c = c
  with_request (some r) c = record c { remote_cancels = c.remote_cancels ++ r ∷ [] }

  abbrev pub cancel_found : Core Work → ℕ → Option ActiveSubmission → Core Work
  cancel_found c id none = c
  cancel_found c id (some a) =
      if a.cancelled
      then c
      else with_request a.request
          (record c { active = modify id (λ b. record b { cancelled = true }) c.active })

  -- `cancel_active_submission` on the object of a number, with `ActiveSubmission::cancel`.
  unfoldable pub cancel_active_submission : Core Work → ℕ → Core Work
  cancel_active_submission c id = cancel_found c id (lookup id c.active)

  abbrev pub cancel_known :
      Core Work → ℕ → Option ActiveSubmission → Submitted (Unit {0}) × Core Work
  cancel_known c id none = (err (unknown_submission id), c)
  cancel_known c id (some a) = (ok tt, cancel_active_submission c id)

  unfoldable pub cancel_submission : Core Work → ℕ → Submitted (Unit {0}) × Core Work
  unfolding cancel_active_submission
  cancel_submission c id = cancel_known c id (lookup id c.active)

  unfoldable pub cancel_each : List ℕ → Core Work → Core Work
  unfolding cancel_active_submission
  cancel_each [] c = c
  cancel_each (id ∷ ids) c = cancel_each ids (cancel_active_submission c id)

  unfoldable pub cancel_all_submissions : Core Work → Core Work
  unfolding cancel_each
  cancel_all_submissions c = cancel_each (map (λ p. p.0) c.active) c

  abbrev pub cancel_of : Core Work → Option ℕ → Bool × Core Work
  cancel_of c none = (false, c)
  cancel_of c (some id) = (true, cancel_active_submission c id)

  unfoldable pub cancel_current_submission : Core Work → Bool × Core Work
  unfolding cancel_active_submission
  cancel_current_submission c = cancel_of c c.current
