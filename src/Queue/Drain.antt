-- ===== src/Queue/Drain.antt =====
-- The worker of crates/misy-core/src/core/queue.rs comes to its end.
use misy.Common.{
  ℕ, ◌+◌, ◌*◌, ◌-◌, ◌≤◌, ◌≡◌, refl, sym, ap, ◌∙◌, inl, inr, Bool, true, false, List, [], ◌∷◌,
  append-nil, arith, length, Bool-cases,
}
use misy.Common.Assoc.{lookup}
use misy.Queue.{
  Outcome, started, ended, QueuedSubmission, Worker, idle, looping, taken, running, returned,
  emitting, aborted, Core, new_core, emit,
}
use misy.Queue.Steps.{
  is_cancelled, finish_submission, take_next, start, work_at, work, Call, works, step, run,
}
use misy.Queue.Events.{accepted_ids, ended_ids, accepted_ids-append}
use misy.Queue.Order.{step-InOrder, run-InOrder}
use misy.Queue.Accepting.{Agrees, InOrder}

module _ {Work : Type 0} where
  abbrev pub is_live : Worker Work → Bool
  is_live (aborted held) = false
  is_live _ = true

  -- How many steps the worker still makes with the submission that it holds.
  abbrev pub steps_left : Worker Work → ℕ
  steps_left idle = 0
  steps_left looping = 1
  steps_left (taken q) = 5
  steps_left (running q) = 4
  steps_left (returned o id) = 3
  steps_left (emitting o id) = 2
  steps_left (aborted held) = 0

  abbrev pub fuel_of : Core Work → ℕ
  fuel_of c = steps_left c.worker + 5 * length c.pending

  -- A step shortens the way, keeps the worker alive and accepts nothing.
  record Advances (c d : Core Work) : Type 0 where
    shorter : fuel_of d ≤ fuel_of c - 1
    live : is_live d.worker ≡ true
    same : accepted_ids d.events ≡ accepted_ids c.events

  take_next-Advances :
      (c : Core Work) (p : List (QueuedSubmission Work))
      → c.worker ≡ looping
      → c.pending ≡ p
      → Advances c (take_next c p)
  take_next-Advances c [] e f = record { shorter = ground (arith, e, f); live = refl; same = refl }
  take_next-Advances c (q ∷ qs) e f = record {
    shorter = ground (arith, e, ap (λ (l : List (QueuedSubmission Work)). length l) f);
    live = refl;
    same = refl;
  }

  start-Advances :
      (c : Core Work) (q : QueuedSubmission Work) → c.worker ≡ taken q → Advances c (start c q)
  unfolding emit
  start-Advances c q e = elim (Bool-cases (is_cancelled (lookup q.id c.active))) [
    | inl t ↦ rw t (record { shorter = ground (arith, e); live = refl; same = refl })
    | inr f ↦ rw f (record {
      shorter = ground (arith, e);
      live = refl;
      same = accepted_ids-append c.events (started q.id ∷ []) ∙ append-nil (accepted_ids c.events);
    })
  ]

  work-Advances :
      (c : Core Work) (o : Outcome) (w : Worker Work)
      → c.worker ≡ w
      → is_live w ≡ true
      → Agrees w c.worker_running c.current c.pending c.is_shutdown
      → Advances c (work_at c o w)
  unfolding finish_submission emit
  work-Advances c o idle e l a = record {
    shorter = ground (arith, e, a.2);
    live = rw e refl;
    same = refl;
  }
  work-Advances c o looping e l a = take_next-Advances c c.pending e refl
  work-Advances c o (taken q) e l a = start-Advances c q e
  work-Advances c o (running q) e l a = record {
    shorter = ground (arith, e);
    live = refl;
    same = refl;
  }
  work-Advances c o (returned p id) e l a = record {
    shorter = ground (arith, e);
    live = refl;
    same = refl;
  }
  work-Advances c o (emitting p id) e l a = record {
    shorter = ground (arith, e);
    live = refl;
    same = accepted_ids-append c.events (ended p id ∷ []) ∙ append-nil (accepted_ids c.events);
  }
  work-Advances c o (aborted held) e l a = absurd (cc)

  -- Steps of the worker alone.
  unfoldable pub works_all : List Outcome → List (Call Work)
  works_all [] = []
  works_all (o ∷ os) = works o ∷ works_all os

  -- With no step left the worker has ended, and all that was accepted has ended.
  ended-Core :
      (c : Core Work) (w : Worker Work) (p : List (QueuedSubmission Work))
      → c.worker ≡ w
      → c.pending ≡ p
      → is_live w ≡ true
      → steps_left w + 5 * length p ≤ 0
      → InOrder c
      → (c.worker ≡ idle) × (c.pending ≡ []) × (ended_ids c.events ≡ accepted_ids c.events)
  ended-Core c idle [] e f l h v =
      (e, f, sym ((rw (e, f) at v.order) ∙ append-nil (ended_ids c.events)))
  ended-Core c idle (q ∷ qs) e f l h v = absurd (omega arith)
  ended-Core c looping p e f l h v = absurd (omega arith)
  ended-Core c (taken q) p e f l h v = absurd (omega arith)
  ended-Core c (running q) p e f l h v = absurd (omega arith)
  ended-Core c (returned o id) p e f l h v = absurd (omega arith)
  ended-Core c (emitting o id) p e f l h v = absurd (omega arith)
  ended-Core c (aborted held) p e f l h v = absurd (cc)

  run-works :
      (c : Core Work) (os : List Outcome)
      → InOrder c
      → is_live c.worker ≡ true
      → fuel_of c ≤ length os
      → let d = run c (works_all os) in
        (d.worker ≡ idle) × (d.pending ≡ []) × (ended_ids d.events ≡ accepted_ids c.events)
  unfolding run works_all step work
  run-works c [] v l h = ended-Core c c.worker c.pending refl refl l h v
  run-works c (o ∷ os) v l h =
      let one = work-Advances c o c.worker refl l v.agrees in
      let (e, p, all) =
        run-works (work c o) os (step-InOrder c (works o) v) one.live
          (omega (arith, one.shorter)) in
      (e, p, all ∙ one.same)

-- In any state that calls lead to, a worker that is not aborted comes to its end by itself, in at most
-- five steps for each submission and whatever the outcomes: then nothing waits, and each submission
-- that was accepted has ended, in the order of acceptance.
pub run_drains :
    {Work : Type 0} (xs : List (Call Work)) (os : List Outcome)
    → is_live (run new_core xs).worker ≡ true
    → fuel_of (run new_core xs) ≤ length os
    → let c = run new_core xs in
      let d = run c (works_all os) in
      (d.worker ≡ idle) × (d.pending ≡ []) × (ended_ids d.events ≡ accepted_ids c.events)
run_drains xs os l h = run-works (run new_core xs) os (run-InOrder xs) l h
