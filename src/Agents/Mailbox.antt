-- ===== src/Agents/Mailbox.antt =====
-- `AgentRegistry` of crates/misy-core/src/core/agents/registry.rs after registration: messages,
-- ends, results and the clearing of a conversation. A record outlives its entry in the map: `finish`
-- is given the record itself.
use misy.Common.{
  ℕ, zero, suc, ◌+◌, ◌%◌, ◌^◌, Bool, true, false, not, ◌&&◌, Option, none, some, List, [], ◌∷◌,
  ◌++◌, length, ltb, ◌==◌, any, retain, if◌then◌else◌,
}
use misy.Common.Assoc.{Assoc, lookup, insert, remove}
use misy.Common.Texts.{Text}
use misy.Agents.{
  ActivityStatus, is_terminal, AgentSummary, AgentRecord, cancel, message, finish_record,
  mark_mailbox_pending, consume_record,
}
use misy.Agents.Registry.{
  max_recent_agents, unknown_agent, already_finished, AgentResult, ok, err, AgentRegistry,
}

abbrev pub current : ℕ → ℕ → Option AgentRecord → AgentResult AgentRecord
current generation id none = err (unknown_agent id)
current generation id (some r) = if r.generation == generation then ok r else err (unknown_agent id)

unfoldable pub find_record : AgentRegistry → ℕ → AgentResult AgentRecord
find_record g id = current g.generation id (lookup id g.records)

-- A write to a record that the map may have lost.
abbrev pub write : Option AgentRecord → ℕ → AgentRecord → AgentRegistry → AgentRegistry
write none id r g = g
write (some old) id r g = record g { records = insert id r g.records }

unfoldable pub write_record : ℕ → AgentRecord → AgentRegistry → AgentRegistry
write_record id r g = write (lookup id g.records) id r g

abbrev sent : AgentRegistry → ℕ → Option AgentRecord → AgentResult AgentRegistry
sent g id none = err (already_finished id)
sent g id (some r) = ok (write_record id r g)

abbrev send_to : AgentRegistry → ℕ → Text → AgentResult AgentRecord → AgentResult AgentRegistry
send_to g id text (err e) = err e
send_to g id text (ok r) = sent g id (message r text)

unfoldable pub send_message : AgentRegistry → ℕ → Text → AgentResult AgentRegistry
send_message g id text = send_to g id text (find_record g id)

abbrev stop_one : AgentRegistry → ℕ → AgentResult AgentRecord → AgentResult AgentRegistry
stop_one g id (err e) = err e
stop_one g id (ok r) =
    if is_terminal r.summary.status
    then err (already_finished id)
    else ok (write_record id (cancel r) g)

unfoldable pub stop : AgentRegistry → ℕ → AgentResult AgentRegistry
unfolding is_terminal
stop g id = stop_one g id (find_record g id)

abbrev pub removable : Option AgentRecord → Bool
removable none = false
removable (some r) = not r.mailbox_pending

-- `VecDeque::pop_back`: the last element and the others.
abbrev pub pop_back : List ℕ → Option (List ℕ × ℕ)
pop_back [] = none
pop_back (x ∷ xs) = elim (pop_back xs) [ none ↦ some ([], x) | some p ↦ some (x ∷ p.0, p.1) ]

abbrev pub expire : AgentRegistry → Option (List ℕ × ℕ) → Bool × AgentRegistry
expire g none = (false, g)
expire g (some (rest, expired)) =
    if removable (lookup expired g.records)
    then (true, record g { recent = rest; records = remove expired g.records })
    else (false, record g { recent = expired ∷ rest })

-- The loop of `retain_recent`: each round takes one element away, so the length is fuel enough.
unfoldable pub expire_loop : ℕ → AgentRegistry → AgentRegistry
expire_loop zero g = g
expire_loop (suc fuel) g =
    let e = expire g (pop_back g.recent) in
    let later = expire_loop fuel e.1 in
    if ltb max_recent_agents (length g.recent) then (if e.0 then later else e.1) else g

unfoldable pub retain_recent : AgentRegistry → ℕ → AgentRegistry
retain_recent g id =
    let recent = id ∷ retain (λ c. not (c == id)) g.recent in
    expire_loop (length recent) (record g { recent = recent })

abbrev push_mailbox : Bool → ℕ → AgentRegistry → AgentRegistry
push_mailbox true id g = record g { mailbox = g.mailbox ++ id ∷ [] }
push_mailbox false id g = g

abbrev release_live : AgentRecord → AgentRegistry → AgentRegistry
release_live r g = record g { live_slots = (if r.live_permit then 1 else 0) + g.live_slots }

abbrev conclude : AgentRegistry → ℕ → AgentRecord × Bool → AgentRegistry
conclude g id (r, pending) = retain_recent (push_mailbox pending id (write_record id r g)) id

abbrev finish_with : AgentRegistry → AgentRecord → AgentRecord × Bool → AgentRegistry × Bool
finish_with g r (done, false) = (g, false)
finish_with g r (done, true) =
    (conclude (release_live r g) r.summary.id (mark_mailbox_pending done), true)

-- The live slot that the record held is free again.
unfoldable pub finish :
    AgentRegistry → AgentRecord → ActivityStatus → Text → ℕ → AgentRegistry × Bool
finish g r status result now = finish_with g r (finish_record r status result now)

abbrev pub release_mailbox : AgentRecord → AgentRegistry → AgentRegistry
release_mailbox r g = record g {
  mailbox_slots = (if r.mailbox_permit then 1 else 0) + g.mailbox_slots;
}

abbrev pub take_result :
    ℕ
    → AgentResult AgentRecord
    → List AgentSummary × AgentRegistry
    → List AgentSummary × AgentRegistry
take_result id (err e) (ready, g) = (ready, g)
take_result id (ok r) (ready, g) =
    (ready ++ r.summary ∷ [], write_record id (consume_record r) (release_mailbox r g))

abbrev pub is_chosen : Option (List ℕ) → ℕ → Bool
is_chosen none id = true
is_chosen (some ids) id = any (λ i. i == id) ids

unfoldable pub consume_loop :
    Option (List ℕ)
    → List ℕ
    → List ℕ
    → List AgentSummary × AgentRegistry
    → List AgentSummary × AgentRegistry
consume_loop filter [] retained (ready, g) = (ready, record g { mailbox = retained })
consume_loop filter (id ∷ mailbox) retained (ready, g) =
    let taken =
      consume_loop filter mailbox retained (take_result id (find_record g id) (ready, g)) in
    let left = consume_loop filter mailbox (retained ++ id ∷ []) (ready, g) in
    if is_chosen filter id then taken else left

unfoldable pub consume_mailbox : AgentRegistry → Option (List ℕ) → List AgentSummary × AgentRegistry
consume_mailbox g filter = consume_loop filter g.mailbox [] ([], g)

unfoldable pub close_admission : AgentRegistry → AgentRegistry
close_admission g = record g { accepting = false }

unfoldable pub reopen_admission : AgentRegistry → AgentRegistry
reopen_admission g = record g { accepting = true }

abbrev is_current : AgentRegistry → Option AgentRecord → Bool
is_current g none = false
is_current g (some r) = r.generation == g.generation

-- Whether the record of a number belongs to the conversation that is cleared.
abbrev pub discarded : AgentRegistry → ℕ → Bool
discarded g id = is_current g (lookup id g.records)

-- The permits of a record whose last owner drops it.
unfoldable pub drop_record : AgentRecord → AgentRegistry → AgentRegistry
drop_record r g = release_mailbox r (release_live r g)

-- A record that has ended is owned by the map alone; the turn of another one still owns it.
unfoldable pub drop_ended : ℕ → Assoc AgentRecord → AgentRegistry → AgentRegistry
unfolding is_terminal
drop_ended generation [] g = g
drop_ended generation ((id, r) ∷ rest) g =
    let later = drop_ended generation rest in
    if r.generation == generation && is_terminal r.summary.status
    then later (drop_record r g)
    else later g

unfoldable pub discard_current : AgentRegistry → AgentRegistry
discard_current g = record (drop_ended g.generation g.records g) {
  records = retain (λ p. not (discarded g p.0)) g.records;
  mailbox = retain (λ id. not (discarded g id)) g.mailbox;
  recent = retain (λ id. not (discarded g id)) g.recent;
  generation = (g.generation + 1) % 2 ^ 64;
}
