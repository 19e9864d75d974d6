-- ===== src/Admission.antt =====
-- The admission of local processes, crates/misy-core/src/tools/activity.rs: `reserve_slot` and
-- `release_slot` of `ActivityManagerInner`. A `ProcessPermit` releases its slot when it is dropped.
pub mod Quotas
pub mod Examples
use misy.Common.{
  ℕ, ◌+◌, ◌-◌, Bool, true, false, ◌||◌, Option, none, some, List, [], leb, ◌==◌, if◌then◌else◌,
  saturating_sub,
}
use misy.Common.Assoc.{Assoc, lookup, insert, remove}

abbrev pub max_active_tasks : ℕ
max_active_tasks = 64

abbrev pub max_active_child_tasks : ℕ
max_active_child_tasks = 48

abbrev pub max_active_tasks_per_child : ℕ
max_active_tasks_per_child = 16

-- An agent is its number.
pub data ActivityOwner : Type 0 where
  main : ActivityOwner
  agent : ℕ → ActivityOwner

pub record ActivityAdmission : Type 0 where
  pub active : ℕ
  pub active_children : ℕ
  pub per_child : Assoc ℕ

abbrev pub no_activity : ActivityAdmission
no_activity = record { active = 0; active_children = 0; per_child = [] }

pub data AdmissionError : Type 0 where
  too_many_processes child_quota : AdmissionError

pub data Reserved : Type 0 where
  ok : ActivityAdmission → Reserved
  err : AdmissionError → Reserved

abbrev pub unwrap_or_zero : Option ℕ → ℕ
unwrap_or_zero none = 0
unwrap_or_zero (some n) = n

-- The number of processes that an agent runs.
unfoldable pub child_active : ActivityAdmission → ℕ → ℕ
child_active a id = unwrap_or_zero (lookup id a.per_child)

unfoldable pub reserve_slot : ActivityAdmission → ActivityOwner → Reserved
unfolding child_active
reserve_slot a main =
    if leb max_active_tasks a.active
    then err too_many_processes
    else ok (record a { active = a.active + 1 })
reserve_slot a (agent id) =
    if leb max_active_tasks a.active
    then err too_many_processes
    else if leb max_active_child_tasks a.active_children
        || leb max_active_tasks_per_child (child_active a id)
    then err child_quota
    else ok (record {
      active = a.active + 1;
      active_children = a.active_children + 1;
      per_child = insert id (child_active a id + 1) a.per_child;
    })

unfoldable pub release_slot : ActivityAdmission → ActivityOwner → ActivityAdmission
unfolding child_active
release_slot a main = record a { active = saturating_sub a.active 1 }
release_slot a (agent id) =
    let remaining = saturating_sub (child_active a id) 1 in
    record {
      active = saturating_sub a.active 1;
      active_children = saturating_sub a.active_children 1;
      per_child = if remaining == 0 then remove id a.per_child else insert id remaining a.per_child;
    }
