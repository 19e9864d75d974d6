-- ===== src/Agents/Examples.antt =====
-- The theorems on child agents at short runs.
use misy.Common.{ℕ, ◌≡◌, refl, inl, true, not, Option, none, some, List, [], ◌∷◌, retain}
use misy.Common.Assoc.{insert, lookup}
use misy.Common.Texts.{is_empty}
use misy.Agents.{completed, is_terminal, finish_record, mark_mailbox_pending}
use misy.Agents.Registry.{
  AgentRegistry, AgentRegistration, new_registry, new_record, registered, register, ok,
  is_task_char, is_task_name, has_sibling,
}
use misy.Agents.Mailbox.{
  consume_mailbox, finish, write_record, retain_recent, expire_loop, is_chosen,
}
use misy.Agents.Inbox.{Call, tell, next_turn, end, Talk, call_all, Delivers, call_all-Delivers}
use misy.Agents.Siblings.{Registers, register-Distinct, new_registry-Distinct}
use misy.Agents.Recent.{EndsLoop, retain_recent-EndsLoop}
use misy.Agents.Results.{results, consume_mailbox_lem}

abbrev scout : AgentRegistration
scout = record {
  activity_id = 1;
  title = [];
  profiles = 1;
  parent = none;
  task_name = 115 ∷ 99 ∷ [];
  role = [];
  run_in_background = true;
}

scout_registers :
    register (new_registry 4) scout 5
    ≡ ok (new_record (new_registry 4) scout 5, registered (new_registry 4) scout 5)
unfolding register new_registry is_task_name is_task_char is_empty has_sibling
scout_registers = refl

abbrev talk : Talk
talk = record { agent = new_record (new_registry 4) scout 5; accepted = []; delivered = [] }

abbrev calls : List Call
calls = tell (97 ∷ []) ∷ next_turn true ∷ tell (98 ∷ []) ∷ end completed [] 9 ∷ tell (99 ∷ []) ∷ []

talk-Delivers : Delivers talk
talk-Delivers = inl refl

call_all-Delivers_example : Delivers (call_all talk calls)
call_all-Delivers_example = call_all-Delivers talk calls talk-Delivers

register-Distinct_example :
    Registers
      (new_registry 4)
      scout
      scout
      6
      (new_record (new_registry 4) scout 5, new_registry 4)
      (register (new_registry 4) scout 5)
register-Distinct_example =
    register-Distinct (new_registry 4) scout scout 5 6
      (new_record (new_registry 4) scout 5, new_registry 4) refl refl (new_registry-Distinct 4)

-- A registry whose agent has ended, and its result waits.
abbrev ended_registry : AgentRegistry
ended_registry =
    (finish (registered (new_registry 4) scout 5) (new_record (new_registry 4) scout 5) completed []
      9).0

abbrev only_scout : Option (List ℕ)
only_scout = some (1 ∷ [])

consume_mailbox_lem_example :
    ((consume_mailbox ended_registry only_scout).0
      ≡ results ended_registry only_scout ended_registry.mailbox)
    × ((consume_mailbox ended_registry only_scout).1.mailbox
        ≡ retain (λ id. not (is_chosen only_scout id)) ended_registry.mailbox)
consume_mailbox_lem_example = consume_mailbox_lem ended_registry only_scout

scout_waits : ended_registry.mailbox ≡ 1 ∷ []
unfolding finish finish_record mark_mailbox_pending write_record retain_recent expire_loop
    is_terminal new_registry insert lookup
scout_waits = refl

retain_recent-EndsLoop_example : EndsLoop (retain_recent ended_registry 1)
retain_recent-EndsLoop_example = retain_recent-EndsLoop ended_registry 1
