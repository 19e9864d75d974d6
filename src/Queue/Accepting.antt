-- ===== src/Queue/Accepting.antt =====
-- A submission is accepted behind the others, crates/misy-core/src/core/queue.rs.
use misy.Common.{
  ℕ, ◌+◌, ◌%◌, ◌^◌, ◌≡◌, refl, sym, inl, inr, subst, Bool, true, false, not, Option, none, some,
  List, [], ◌∷◌, ◌++◌, append-nil, append_assoc, arith, if◌then◌else◌, Bool-cases,
}
use misy.Common.Assoc.{insert}
use misy.Queue.{
  new_active, Event, accepted, QueuedSubmission, Worker, idle, looping, taken, running, returned,
  emitting, aborted, Core, enqueue_submission, submit,
}
use misy.Queue.Steps.{in_hand}
use misy.Queue.Events.{
  accepted_ids, ended_ids, accepted_ids-append, ended_ids-append, ids, ids-append,
}
use misy.Queue.Marks.{OnlyMarks}

module _ {Work : Type 0} where
  -- What the flags, the current submission and the queue are in each place of the worker.
  abbrev pub Agrees : Worker Work → Bool → Option ℕ → List (QueuedSubmission Work) → Bool → Type 0
  Agrees idle alive current pending shut = (alive ≡ false) × (current ≡ none) × (pending ≡ [])
  Agrees looping alive current pending shut = (alive ≡ true) × (current ≡ none)
  Agrees (taken q) alive current pending shut = (alive ≡ true) × (current ≡ some q.id)
  Agrees (running q) alive current pending shut = (alive ≡ true) × (current ≡ some q.id)
  Agrees (returned o id) alive current pending shut = (alive ≡ true) × (current ≡ some id)
  Agrees (emitting o id) alive current pending shut = (alive ≡ true) × (current ≡ none)
  Agrees (aborted held) alive current pending shut = shut ≡ true

  abbrev pub Ordered : List Event → Worker Work → List (QueuedSubmission Work) → Type 0
  Ordered events w pending = accepted_ids events ≡ ended_ids events ++ (in_hand w ++ ids pending)

  -- The submissions in the order of acceptance: those that have ended, in the order in which they
  -- did, then the one that the worker holds, then those that wait.
  pub record InOrder (c : Core Work) : Type 0 where
    pub order : Ordered c.events c.worker c.pending
    pub agrees : Agrees c.worker c.worker_running c.current c.pending c.is_shutdown

  pub OnlyMarks-InOrder : (c d : Core Work) → OnlyMarks c d → InOrder c → InOrder d
  OnlyMarks-InOrder c d (active, remote, e) v =
      subst InOrder (sym e) (record { order = v.order; agrees = v.agrees })

  pub closed-Agrees :
      (w : Worker Work) (alive shut : Bool) (current : Option ℕ)
      (pending : List (QueuedSubmission Work))
      → Agrees w alive current pending shut
      → Agrees w alive current pending true
  closed-Agrees idle alive shut current pending h = h
  closed-Agrees looping alive shut current pending h = h
  closed-Agrees (taken q) alive shut current pending h = h
  closed-Agrees (running q) alive shut current pending h = h
  closed-Agrees (returned o id) alive shut current pending h = h
  closed-Agrees (emitting o id) alive shut current pending h = h
  closed-Agrees (aborted held) alive shut current pending h = refl

  -- An acceptance starts the worker exactly if there is none.
  queued-Agrees :
      (w : Worker Work) (alive : Bool) (current : Option ℕ)
      (pending more : List (QueuedSubmission Work))
      → Agrees w alive current pending false
      → Agrees (if not alive then looping else w) true current more false
  queued-Agrees idle alive current pending more h = rw h.0 (refl, h.1)
  queued-Agrees looping alive current pending more h = rw h.0 (refl, h.1)
  queued-Agrees (taken q) alive current pending more h = rw h.0 (refl, h.1)
  queued-Agrees (running q) alive current pending more h = rw h.0 (refl, h.1)
  queued-Agrees (returned o id) alive current pending more h = rw h.0 (refl, h.1)
  queued-Agrees (emitting o id) alive current pending more h = rw h.0 (refl, h.1)
  queued-Agrees (aborted held) alive current pending more h = absurd (cc)

  spawned-in_hand :
      (w : Worker Work) (alive : Bool) (current : Option ℕ) (pending : List (QueuedSubmission Work))
      → Agrees w alive current pending false
      → in_hand (if not alive then looping else w) ≡ in_hand w
  spawned-in_hand idle alive current pending h = rw h.0
  spawned-in_hand looping alive current pending h = rw h.0
  spawned-in_hand (taken q) alive current pending h = rw h.0
  spawned-in_hand (running q) alive current pending h = rw h.0
  spawned-in_hand (returned o id) alive current pending h = rw h.0
  spawned-in_hand (emitting o id) alive current pending h = rw h.0
  spawned-in_hand (aborted held) alive current pending h = absurd (cc)

  -- The state after an acceptance.
  abbrev accepting : Core Work → Work → Core Work
  accepting c w = record c {
    next_submission = (c.next_submission + 1) % 2 ^ 64;
    active = insert c.next_submission new_active c.active;
    events = c.events ++ accepted c.next_submission ∷ [];
    pending = c.pending ++ record { id = c.next_submission; work = w } ∷ [];
    worker_running = true;
    worker = if not c.worker_running then looping else c.worker;
  }

  accepting-InOrder :
      (c : Core Work) (w : Work) → c.is_shutdown ≡ false → InOrder c → InOrder (accepting c w)
  accepting-InOrder c w s v =
      let open_agrees : Agrees c.worker c.worker_running c.current c.pending false =
        subst (Agrees c.worker c.worker_running c.current c.pending) s v.agrees in
      let more : List (QueuedSubmission Work) =
        c.pending ++ record { id = c.next_submission; work = w } ∷ [] in
      record {
        order =
            rw
              (
                accepted_ids-append c.events (accepted c.next_submission ∷ []),
                ended_ids-append c.events (accepted c.next_submission ∷ []),
                ids-append c.pending (record { id = c.next_submission; work = w } ∷ []),
                spawned-in_hand c.worker c.worker_running c.current c.pending open_agrees,
                v.order,
              )
              (simp (append_assoc, append-nil));
        agrees =
            subst (Agrees (if not c.worker_running then looping else c.worker) true c.current more)
              (sym s)
              (queued-Agrees c.worker c.worker_running c.current c.pending more open_agrees);
      }

  accepting_lem :
      (c : Core Work) (w : Work) → c.is_shutdown ≡ false → (submit c true w).1 ≡ accepting c w
  unfolding submit enqueue_submission
  accepting_lem c w s = ground arith

  refused_lem :
      (c : Core Work) (checked : Bool) (w : Work)
      → c.is_shutdown ≡ true
      → (submit c checked w).1 ≡ c
  unfolding submit
  refused_lem c checked w s = rw s

  unchecked_lem : (c : Core Work) (w : Work) → (submit c false w).1 ≡ c
  unfolding submit
  unchecked_lem c w = ground arith

  pub submit-InOrder :
      (c : Core Work) (checked : Bool) (w : Work) → InOrder c → InOrder (submit c checked w).1
  submit-InOrder c false w v = rw (unchecked_lem c w) v
  submit-InOrder c true w v = elim (Bool-cases c.is_shutdown) [
    | inl s ↦ rw (refused_lem c true w s) v
    | inr s ↦ rw (accepting_lem c w s) (accepting-InOrder c w s v)
  ]
