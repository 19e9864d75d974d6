-- ===== src/Agents.antt =====
-- The child agents of crates/misy-core/src/core/agents: `registry.rs` and `record.rs`. An agent, an
-- activity and a generation are numbers. The transcript, the attempts on model profiles and the
-- notifications of waiting tasks are left out.
pub mod Registry
pub mod Mailbox
pub mod Inbox
pub mod Names
pub mod Siblings
pub mod Results
pub mod Recent
pub mod Examples
use misy.Common.{
  ℕ, ◌+◌, ◌-◌, Bool, true, false, not, ◌&&◌, ◌||◌, Option, none, some, List, [], ◌∷◌, ◌++◌,
  if◌then◌else◌,
}
use misy.Common.Texts.{Text}

pub data ActivityStatus : Type 0 where
  queued running waiting completed failed stopped : ActivityStatus

unfoldable pub is_terminal : ActivityStatus → Bool
is_terminal completed = true
is_terminal failed = true
is_terminal stopped = true
is_terminal _ = false

pub record AgentSummary : Type 0 where
  pub id : ℕ
  pub parent : Option ℕ
  pub path : Text
  pub task_name : Text
  pub role : Text
  pub activity_id : ℕ
  pub title : Text
  pub status : ActivityStatus
  pub run_in_background : Bool
  pub started_at_ms : ℕ
  pub finished_at_ms : Option ℕ
  pub terminal_message : Option Text

-- A permit that is held is true. `active` is whether the running turn was cancelled.
pub record AgentRecord : Type 0 where
  pub generation : ℕ
  pub summary : AgentSummary
  pub inbox : List Text
  pub inbox_open : Bool
  pub final_result : Option Text
  pub live_permit : Bool
  pub mailbox_permit : Bool
  pub mailbox_pending : Bool
  pub active : Option Bool

pub data InboxDecision : Type 0 where
  continue : List Text → InboxDecision
  close : InboxDecision

unfoldable pub cancel : AgentRecord → AgentRecord
cancel r = elim r.active [ none ↦ r | some cancelled ↦ record r { active = some true } ]

unfoldable pub attach_active : AgentRecord → Bool → AgentRecord
attach_active r cancelled = record r { active = some cancelled }

-- None stands for `AgentAlreadyFinished`.
unfoldable pub message : AgentRecord → Text → Option AgentRecord
unfolding is_terminal
message r text =
    if is_terminal r.summary.status || not r.inbox_open
    then none
    else some (record r { inbox = r.inbox ++ text ∷ [] })

abbrev decide : Bool → List Text → AgentRecord → InboxDecision × AgentRecord
decide true (m ∷ ms) r = (continue (m ∷ ms), record r { inbox = [] })
decide _ _ r = (close, record r { inbox_open = false })

unfoldable pub decide_inbox : AgentRecord → Bool → InboxDecision × AgentRecord
decide_inbox r can_continue = decide can_continue r.inbox r

abbrev pub finished : AgentRecord → ActivityStatus → Text → ℕ → AgentRecord × Bool
finished r status result now = (
  record r {
    inbox_open = false;
    inbox = [];
    summary = record (r.summary) {
      status = status;
      finished_at_ms = some now;
      terminal_message = some result;
    };
    final_result = some result;
    live_permit = false;
    active = none;
  },
  true,
)

-- The record and whether this call finished it; `now` is the time in milliseconds.
unfoldable pub finish_record : AgentRecord → ActivityStatus → Text → ℕ → AgentRecord × Bool
unfolding is_terminal
finish_record r status result now =
    if is_terminal r.summary.status then (r, false) else finished r status result now

unfoldable pub mark_mailbox_pending : AgentRecord → AgentRecord × Bool
mark_mailbox_pending r =
    if not r.mailbox_permit then (r, false) else (record r { mailbox_pending = true }, true)

unfoldable pub consume_record : AgentRecord → AgentRecord
consume_record r = record r { mailbox_pending = false; mailbox_permit = false }
