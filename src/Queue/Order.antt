-- ===== src/Queue/Order.antt =====
-- The order of submissions in crates/misy-core/src/core/queue.rs.
use misy.Common.{
  ℕ, ◌≡◌, refl, inl, inr, subst, Option, none, some, List, [], ◌∷◌, ◌++◌, map, append-nil,
  append_assoc, arith, if◌then◌else◌, Bool-cases,
}
use misy.Common.Assoc.{lookup}
use misy.Queue.{
  Outcome, Event, started, ended, QueuedSubmission, Worker, idle, looping, taken, running, returned,
  emitting, aborted, Core, new_core, emit, cancel_submission, cancel_all_submissions,
  cancel_current_submission,
}
use misy.Queue.Steps.{
  is_cancelled, finish_submission, work, abort_worker, Call, submits, cancels, cancels_all,
  cancels_current, works, requests, closes, aborts, step, run, work_at, take_next, start, is_id,
}
use misy.Queue.Events.{accepted_ids-append, ended_ids-append}
use misy.Queue.Marks.{cancel_each-OnlyMarks, cancel_known-OnlyMarks, cancel_of-OnlyMarks}
use misy.Queue.Accepting.{
  Agrees, InOrder, OnlyMarks-InOrder, Ordered, closed-Agrees, submit-InOrder,
}

cleared : (id : ℕ) → ◌≡◌ {A = Option ℕ} (if is_id (some id) id then none else some id) none
cleared id = ground arith

module _ {Work : Type 0} where
  -- An event that accepts and ends nothing.
  started-Ordered :
      (events : List Event) (id : ℕ) (w : Worker Work) (pending : List (QueuedSubmission Work))
      → Ordered events w pending
      → Ordered (events ++ started id ∷ []) w pending
  started-Ordered events id w pending h =
      rw (accepted_ids-append events (started id ∷ []), ended_ids-append events (started id ∷ []))
        (simp append-nil h)

  take_next-InOrder :
      (c : Core Work) (p : List (QueuedSubmission Work))
      → c.pending ≡ p
      → Ordered c.events looping c.pending
      → Agrees looping c.worker_running c.current c.pending c.is_shutdown
      → InOrder (take_next c p)
  take_next-InOrder c [] e order agrees = record { order = order; agrees = (refl, refl, e) }
  take_next-InOrder c (q ∷ qs) e order agrees = record {
    order = subst (λ p. Ordered c.events looping p) e order;
    agrees = (agrees.0, refl);
  }

  start-InOrder :
      (c : Core Work) (q : QueuedSubmission Work)
      → Ordered c.events (taken q) c.pending
      → Agrees (taken q) c.worker_running c.current c.pending c.is_shutdown
      → InOrder (start c q)
  unfolding emit
  start-InOrder c q order agrees = elim (Bool-cases (is_cancelled (lookup q.id c.active))) [
    | inl t ↦ rw t (record { order = order; agrees = agrees })
    | inr f ↦ rw f (record {
      order = started-Ordered c.events q.id (taken q) c.pending order;
      agrees = agrees;
    })
  ]

  -- A step of the worker, by its place.
  work-InOrder :
      (c : Core Work) (o : Outcome) (w : Worker Work)
      → c.worker ≡ w
      → Ordered c.events w c.pending
      → Agrees w c.worker_running c.current c.pending c.is_shutdown
      → InOrder c
      → InOrder (work_at c o w)
  unfolding finish_submission emit
  work-InOrder c o idle e order agrees v = v
  work-InOrder c o looping e order agrees v = take_next-InOrder c c.pending refl order agrees
  work-InOrder c o (taken q) e order agrees v = start-InOrder c q order agrees
  work-InOrder c o (running q) e order agrees v = record { order = order; agrees = agrees }
  work-InOrder c o (returned p id) e order agrees v = record {
    order = order;
    agrees = (agrees.0, rw agrees.1 (cleared id));
  }
  work-InOrder c o (emitting p id) e order agrees v = record {
    order =
        rw
          (
            accepted_ids-append c.events (ended p id ∷ []),
            ended_ids-append c.events (ended p id ∷ []),
            order,
          )
          (simp (append_assoc, append-nil));
    agrees = agrees;
  }
  work-InOrder c o (aborted held) e order agrees v = v

  abort_worker-InOrder : (c : Core Work) → InOrder c → InOrder (abort_worker c)
  unfolding abort_worker
  abort_worker-InOrder c v = elim (Bool-cases c.is_shutdown) [
    | inl s ↦ rw s (record { order = v.order; agrees = refl })
    | inr s ↦ simp s v
  ]

  pub step-InOrder : (c : Core Work) (x : Call Work) → InOrder c → InOrder (step c x)
  unfolding step cancel_submission cancel_all_submissions cancel_current_submission work
  step-InOrder c (submits checked w) v = submit-InOrder c checked w v
  step-InOrder c (cancels id) v =
      OnlyMarks-InOrder c _ (cancel_known-OnlyMarks c id (lookup id c.active)) v
  step-InOrder c cancels_all v =
      OnlyMarks-InOrder c _ (cancel_each-OnlyMarks (map (λ p. p.0) c.active) c) v
  step-InOrder c cancels_current v = OnlyMarks-InOrder c _ (cancel_of-OnlyMarks c c.current) v
  step-InOrder c (works o) v = work-InOrder c o c.worker refl v.order v.agrees v
  step-InOrder c (requests r) v = record { order = v.order; agrees = v.agrees }
  step-InOrder c closes v = record {
    order = v.order;
    agrees = closed-Agrees c.worker c.worker_running c.is_shutdown c.current c.pending v.agrees;
  }
  step-InOrder c aborts v = abort_worker-InOrder c v

  run_from : (c : Core Work) (xs : List (Call Work)) → InOrder c → InOrder (run c xs)
  unfolding run
  run_from c [] v = v
  run_from c (x ∷ xs) v = run_from (step c x) xs (step-InOrder c x v)

-- Whatever calls and steps of the worker follow one another, the submissions end in the order in which
-- they were accepted, each acceptance with one end at most; those that have not ended are the one
-- that the worker holds and, behind it, those that wait. The current submission is the one that the
-- worker holds until it has finished it, and `worker_running` says whether a worker is alive.
pub run-InOrder : {Work : Type 0} (xs : List (Call Work)) → InOrder (run new_core xs)
run-InOrder xs = run_from new_core xs (record { order = refl; agrees = (refl, refl, refl) })
