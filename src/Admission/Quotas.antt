-- ===== src/Admission/Quotas.antt =====
-- The counters of crates/misy-core/src/tools/activity.rs against the permits that are alive.
use misy.Common.{
  ◌↔◌, ℕ, suc, ◌+◌, ◌-◌, ◌≤◌, ◌<◌, ◌≡◌, refl, ◌⊎◌, Bool, true, false, List, [], ◌∷◌, arith, length,
  ◌==◌, if◌then◌else◌, any,
}
use misy.Common.Assoc.{lookup, lookup-insert, lookup-remove}
use misy.Admission.{
  max_active_tasks, max_active_child_tasks, max_active_tasks_per_child, ActivityOwner, main, agent,
  ActivityAdmission, no_activity, ok, err, too_many_processes, child_quota, child_active,
  reserve_slot, release_slot,
}

-- How many of the permits belong to an agent, and to any agent.
abbrev pub held_by : ℕ → List ActivityOwner → ℕ
held_by id [] = 0
held_by id (main ∷ ps) = held_by id ps
held_by id (agent j ∷ ps) = (if j == id then 1 else 0) + held_by id ps

abbrev pub children : List ActivityOwner → ℕ
children [] = 0
children (main ∷ ps) = children ps
children (agent j ∷ ps) = suc (children ps)

-- The counters are those of the permits that are alive, and each quota is kept.
pub record Accounts (permits : List ActivityOwner) (a : ActivityAdmission) : Type 0 where
  pub active : a.active ≡ length permits
  pub active_children : a.active_children ≡ children permits
  pub per_child : (id : ℕ) → child_active a id ≡ held_by id permits
  pub task_quota : length permits ≤ max_active_tasks
  pub child_task_quota : children permits ≤ max_active_child_tasks
  pub each_quota : (id : ℕ) → held_by id permits ≤ max_active_tasks_per_child

abbrev pub same_owner : ActivityOwner → ActivityOwner → Bool
same_owner main main = true
same_owner main (agent j) = false
same_owner (agent i) main = false
same_owner (agent i) (agent j) = j == i

-- The permits without one of an owner.
abbrev pub dropped : ActivityOwner → List ActivityOwner → List ActivityOwner
dropped o [] = []
dropped o (p ∷ ps) = let rest = p ∷ dropped o ps in if same_owner o p then ps else rest

module _ (o : ActivityOwner) where
  length-dropped :
      (ps : List ActivityOwner)
      → any (same_owner o) ps ≡ true
      → length (dropped o ps) + 1 ≡ length ps
  length-dropped [] h = cc
  length-dropped (p ∷ ps) h = ground (arith, length-dropped ps)

children-dropped :
    (o : ActivityOwner) (ps : List ActivityOwner)
    → any (same_owner o) ps ≡ true
    → children (dropped o ps) + children (o ∷ []) ≡ children ps
children-dropped o [] h = cc
children-dropped main (main ∷ ps) h = omega arith
children-dropped main (agent j ∷ ps) h = omega (arith, children-dropped main ps h)
children-dropped (agent i) (main ∷ ps) h = children-dropped (agent i) ps h
children-dropped (agent i) (agent j ∷ ps) h = ground (arith, children-dropped (agent i) ps)

held_by-dropped :
    (id : ℕ) (o : ActivityOwner) (ps : List ActivityOwner)
    → any (same_owner o) ps ≡ true
    → held_by id (dropped o ps) + held_by id (o ∷ []) ≡ held_by id ps
held_by-dropped id o [] h = cc
held_by-dropped id main (main ∷ ps) h = omega arith
held_by-dropped id main (agent j ∷ ps) h = omega (arith, held_by-dropped id main ps h)
held_by-dropped id (agent i) (main ∷ ps) h = held_by-dropped id (agent i) ps h
held_by-dropped id (agent i) (agent j ∷ ps) h = ground (arith, held_by-dropped id (agent i) ps)

-- A granted reservation adds one permit to the account, and no quota is passed.
pub reserve_slot-Accounts :
    (ps : List ActivityOwner) (a b : ActivityAdmission) (o : ActivityOwner)
    → Accounts ps a
    → reserve_slot a o ≡ ok b
    → Accounts (o ∷ ps) b
unfolding reserve_slot
reserve_slot-Accounts ps a b main v h = record {
  active = ground (arith, v.active);
  active_children = ground (arith, v.active_children);
  per_child = λ id. ground (arith, v.per_child id);
  task_quota = ground (arith, v.active);
  child_task_quota = ground (arith, v.child_task_quota);
  each_quota = λ id. ground (arith, v.each_quota id);
}
reserve_slot-Accounts ps a b (agent i) v h = record {
  active = ground (arith, v.active);
  active_children = ground (arith, v.active_children);
  per_child = λ id.
      ground (
        arith,
        v.per_child id,
        v.per_child i,
        lookup-insert i id (child_active a i + 1) a.per_child,
      );
  task_quota = ground (arith, v.active);
  child_task_quota = ground (arith, v.active_children);
  each_quota = λ id. ground (arith, v.each_quota id, v.per_child i);
}

-- Dropping a permit that is alive takes exactly it out of the account.
pub release_slot-Accounts :
    (ps : List ActivityOwner) (a : ActivityAdmission) (o : ActivityOwner)
    → Accounts ps a
    → any (same_owner o) ps ≡ true
    → Accounts (dropped o ps) (release_slot a o)
unfolding release_slot
release_slot-Accounts ps a main v h = record {
  active = omega (arith, v.active, length-dropped main ps h);
  active_children = omega (arith, v.active_children, children-dropped main ps h);
  per_child = λ id. ground (arith, v.per_child id, held_by-dropped id main ps h);
  task_quota = omega (arith, v.task_quota, length-dropped main ps h);
  child_task_quota = omega (arith, v.child_task_quota, children-dropped main ps h);
  each_quota = λ id. omega (arith, v.each_quota id, held_by-dropped id main ps h);
}
release_slot-Accounts ps a (agent i) v h = record {
  active = omega (arith, v.active, length-dropped (agent i) ps h);
  active_children = omega (arith, v.active_children, children-dropped (agent i) ps h);
  per_child = λ id. ground (
    arith,
    v.per_child id,
    v.per_child i,
    held_by-dropped id (agent i) ps h,
    lookup-remove i id a.per_child,
    lookup-insert i id (child_active a i - 1) a.per_child,
  );
  task_quota = omega (arith, v.task_quota, length-dropped (agent i) ps h);
  child_task_quota = omega (arith, v.child_task_quota, children-dropped (agent i) ps h);
  each_quota = λ id. ground (arith, v.each_quota id, held_by-dropped id (agent i) ps h);
}

-- The processes of a manager: each step asks for a slot, or drops a permit that is alive.
pub record Slots : Type 0 where
  pub permits : List ActivityOwner
  pub admission : ActivityAdmission

pub data Step (s : Slots) : Slots → Type 0 where
  reserve :
      (o : ActivityOwner) (b : ActivityAdmission)
      → reserve_slot s.admission o ≡ ok b
      → Step s (record { permits = o ∷ s.permits; admission = b })
  release :
      (o : ActivityOwner)
      → any (same_owner o) s.permits ≡ true
      → Step s (record { permits = dropped o s.permits; admission = release_slot s.admission o })

pub data Reach (s : Slots) : Slots → Type 0 where
  here : Reach s s
  next : {t u : Slots} → Reach s t → Step t u → Reach s u

Step-Accounts :
    {s t : Slots} → Step s t → Accounts s.permits s.admission → Accounts t.permits t.admission
Step-Accounts {s} (reserve o b h) v = reserve_slot-Accounts s.permits s.admission b o v h
Step-Accounts {s} (release o h) v = release_slot-Accounts s.permits s.admission o v h

abbrev pub no_slots : Slots
no_slots = record { permits = []; admission = no_activity }

no_activity-Accounts : Accounts [] no_activity
unfolding child_active lookup
no_activity-Accounts = record {
  active = refl;
  active_children = refl;
  per_child = λ id. refl;
  task_quota = omega arith;
  child_task_quota = omega arith;
  each_quota = λ id. omega arith;
}

-- Whatever the order in which processes are admitted and their permits are dropped, the counters
-- are those of the permits alive, and no quota is passed.
pub Reach-Accounts : {t : Slots} → Reach no_slots t → Accounts t.permits t.admission
Reach-Accounts here = no_activity-Accounts
Reach-Accounts (next r st) = Step-Accounts st (Reach-Accounts r)

-- A process is refused exactly when a quota that concerns its owner is used up: first that of all
-- processes, then, for a child agent, that of all children or its own.
pub reserve_slot_refuses :
    (ps : List ActivityOwner) (a : ActivityAdmission) (id : ℕ)
    → Accounts ps a
    → ((reserve_slot a main ≡ err too_many_processes) ↔ (length ps ≡ max_active_tasks))
      × ((reserve_slot a (agent id) ≡ err too_many_processes) ↔ (length ps ≡ max_active_tasks))
      × ((reserve_slot a (agent id) ≡ err child_quota) ↔ (
          (length ps < max_active_tasks)
          × ((children ps ≡ max_active_child_tasks)
              ⊎ (held_by id ps ≡ max_active_tasks_per_child))))
unfolding reserve_slot
reserve_slot_refuses ps a id v = ground (
  arith,
  v.active,
  v.active_children,
  v.per_child id,
  v.task_quota,
  v.child_task_quota,
  v.each_quota id,
)
