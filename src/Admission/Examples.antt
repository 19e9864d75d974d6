-- ===== src/Admission/Examples.antt =====
-- The theorems of the admission of processes at a short history.
use misy.Common.{◌≡◌, ◌<◌, refl, ◌⊎◌, ◌↔◌, [], ◌∷◌, length}
use misy.Common.Assoc.{insert, lookup}
use misy.Admission.{
  main, agent, ActivityAdmission, err, too_many_processes, child_quota, max_active_tasks,
  max_active_child_tasks, max_active_tasks_per_child, reserve_slot, release_slot,
}
use misy.Admission.Quotas.{
  Reach, here, next, reserve, release, Accounts, children, held_by, no_slots, Reach-Accounts,
  reserve_slot_refuses,
}

abbrev one_child : ActivityAdmission
one_child = record { active = 1; active_children = 1; per_child = (7, 1) ∷ [] }

one_child-Reach : Reach no_slots (record { permits = agent 7 ∷ []; admission = one_child })
unfolding reserve_slot insert lookup
one_child-Reach = next here (reserve (agent 7) one_child refl)

abbrev both : ActivityAdmission
both = record { active = 2; active_children = 1; per_child = (7, 1) ∷ [] }

both-Reach : Reach no_slots (record { permits = main ∷ agent 7 ∷ []; admission = both })
unfolding reserve_slot
both-Reach = next one_child-Reach (reserve main both refl)

released-Reach :
    Reach no_slots (record { permits = main ∷ []; admission = release_slot both (agent 7) })
released-Reach = next both-Reach (release (agent 7) refl)

Reach-Accounts_example : Accounts (main ∷ []) (release_slot both (agent 7))
Reach-Accounts_example = Reach-Accounts released-Reach

reserve_slot_refuses_example :
    ((reserve_slot both main ≡ err too_many_processes)
      ↔ (length (main ∷ agent 7 ∷ []) ≡ max_active_tasks))
    × ((reserve_slot both (agent 7) ≡ err too_many_processes)
        ↔ (length (main ∷ agent 7 ∷ []) ≡ max_active_tasks))
    × ((reserve_slot both (agent 7) ≡ err child_quota) ↔ (
        (length (main ∷ agent 7 ∷ []) < max_active_tasks)
        × ((children (main ∷ agent 7 ∷ []) ≡ max_active_child_tasks)
            ⊎ (held_by 7 (main ∷ agent 7 ∷ []) ≡ max_active_tasks_per_child))))
reserve_slot_refuses_example =
    reserve_slot_refuses (main ∷ agent 7 ∷ []) both 7 (Reach-Accounts both-Reach)
