-- ===== src/Agents/Registry.antt =====
-- `AgentRegistry` of crates/misy-core/src/core/agents/registry.rs. The registry holds the records;
-- a slot is free when no record holds its permit.
use misy.Common.{
  ℕ, ◌+◌, ◌-◌, ◌%◌, ◌^◌, Bool, true, false, not, ◌&&◌, ◌||◌, Option, none, some, List, [], ◌∷◌,
  ◌++◌, leb, ◌==◌, any, if◌then◌else◌,
}
use misy.Common.Assoc.{Assoc, lookup, insert}
use misy.Common.Texts.{Text, is_empty, text_eq}
use misy.Agents.{running, AgentRecord}

abbrev pub max_mailbox_results : ℕ
max_mailbox_results = 8

abbrev pub max_recent_agents : ℕ
max_recent_agents = 20

pub data AgentError : Type 0 where
  empty_profiles : AgentError
  shutdown : AgentError
  agent_limit_reached : AgentError
  mailbox_full : AgentError
  invalid_task_name : AgentError
  task_name_taken : AgentError
  unknown_agent : ℕ → AgentError
  already_finished : ℕ → AgentError

pub data AgentResult (A : Type 0) : Type 0 where
  ok : A → AgentResult A
  err : AgentError → AgentResult A

pub record AgentRegistry : Type 0 where
  pub records : Assoc AgentRecord
  pub recent : List ℕ
  pub mailbox : List ℕ
  pub live_slots : ℕ
  pub mailbox_slots : ℕ
  pub next_id : ℕ
  pub generation : ℕ
  pub accepting : Bool

unfoldable pub new_registry : ℕ → AgentRegistry
new_registry max_threads = record {
  records = [];
  recent = [];
  mailbox = [];
  live_slots = max_threads - 1;
  mailbox_slots = max_mailbox_results;
  next_id = 1;
  generation = 1;
  accepting = true;
}

-- The profiles of a registration are their number.
pub record AgentRegistration : Type 0 where
  pub activity_id : ℕ
  pub title : Text
  pub profiles : ℕ
  pub parent : Option ℕ
  pub task_name : Text
  pub role : Text
  pub run_in_background : Bool

unfoldable pub is_task_char : ℕ → Bool
is_task_char c = (leb 97 c && leb c 122) || (leb 48 c && leb c 57) || (c == 95)

unfoldable pub is_task_name : Text → Bool
unfolding is_task_char is_empty
is_task_name t = not (is_empty t) && not (any (λ c. not (is_task_char c)) t)

abbrev pub same_parent : Option ℕ → Option ℕ → Bool
same_parent none none = true
same_parent (some a) (some b) = a == b
same_parent none (some b) = false
same_parent (some a) none = false

-- Whether a record of the generation has the parent and the name.
unfoldable pub is_sibling : ℕ → Option ℕ → Text → AgentRecord → Bool
unfolding text_eq
is_sibling generation parent name r =
    (r.generation == generation)
    && (same_parent r.summary.parent parent && text_eq r.summary.task_name name)

unfoldable pub has_sibling : AgentRegistry → Option ℕ → Text → Bool
unfolding is_sibling
has_sibling g parent name = any (λ p. is_sibling g.generation parent name p.1) g.records

-- "/root"
abbrev pub root_path : Text
root_path = 47 ∷ 114 ∷ 111 ∷ 111 ∷ 116 ∷ []

abbrev path_of : Option AgentRecord → Text
path_of none = root_path
path_of (some r) = r.summary.path

unfoldable pub parent_path : AgentRegistry → Option ℕ → Text
parent_path g none = root_path
parent_path g (some id) = path_of (lookup id g.records)

abbrev pub new_record : AgentRegistry → AgentRegistration → ℕ → AgentRecord
new_record g a now = record {
  generation = g.generation;
  summary = record {
    id = g.next_id;
    parent = a.parent;
    path = parent_path g a.parent ++ (47 ∷ a.task_name);
    task_name = a.task_name;
    role = a.role;
    activity_id = a.activity_id;
    title = a.title;
    status = running;
    run_in_background = a.run_in_background;
    started_at_ms = now;
    finished_at_ms = none;
    terminal_message = none;
  };
  inbox = [];
  inbox_open = true;
  final_result = none;
  live_permit = true;
  mailbox_permit = a.run_in_background;
  mailbox_pending = false;
  active = none;
}

-- The registry after an acceptance.
abbrev pub registered : AgentRegistry → AgentRegistration → ℕ → AgentRegistry
registered g a now = record g {
  records = insert g.next_id (new_record g a now) g.records;
  live_slots = g.live_slots - 1;
  mailbox_slots = if a.run_in_background then g.mailbox_slots - 1 else g.mailbox_slots;
  next_id = (g.next_id + 1) % 2 ^ 64;
}

-- A refusal gives back the permits that were taken for it.
unfoldable pub register :
    AgentRegistry → AgentRegistration → ℕ → AgentResult (AgentRecord × AgentRegistry)
register g a now =
    if a.profiles == 0
    then err empty_profiles
    else if not g.accepting
    then err shutdown
    else if g.live_slots == 0
    then err agent_limit_reached
    else if a.run_in_background && g.mailbox_slots == 0
    then err mailbox_full
    else if not (is_task_name a.task_name)
    then err invalid_task_name
    else if has_sibling g a.parent a.task_name
    then err task_name_taken
    else ok (new_record g a now, registered g a now)
