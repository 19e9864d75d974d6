-- ===== src/Agents/Inbox.antt =====
-- The inbox of one child agent, crates/misy-core/src/core/agents/record.rs: `message`,
-- `decide_inbox` and `finish` in any order.
use misy.Common.{
  ◌≡◌, refl, ℕ, ◌⊎◌, inl, inr, Bool, true, false, Option, none, some, List, [], ◌∷◌, ◌++◌, arith,
  Bool-cases, append_assoc, append-nil,
}
use misy.Common.Texts.{Text}
use misy.Agents.{
  ActivityStatus, is_terminal, AgentRecord, InboxDecision, continue, close, decide, message,
  decide_inbox, finished, finish_record,
}

pub data Call : Type 0 where
  tell : Text → Call
  next_turn : Bool → Call
  end : ActivityStatus → Text → ℕ → Call

-- A record with the messages it accepted and those that its turns were given.
pub record Talk : Type 0 where
  pub agent : AgentRecord
  pub accepted : List Text
  pub delivered : List Text

abbrev pub given : InboxDecision → List Text
given (continue ms) = ms
given close = []

abbrev told : Talk → Text → Option AgentRecord → Talk
told t text none = t
told t text (some r) = record t { agent = r; accepted = t.accepted ++ text ∷ [] }

unfoldable pub call : Talk → Call → Talk
call t (tell text) = told t text (message t.agent text)
call t (next_turn can_continue) =
    let d = decide_inbox t.agent can_continue in
    record t { agent = d.1; delivered = t.delivered ++ given d.0 }
call t (end status result now) = record t { agent = (finish_record t.agent status result now).0 }

unfoldable pub call_all : Talk → List Call → Talk
call_all t [] = t
call_all t (c ∷ cs) = call_all (call t c) cs

-- What was accepted was given to a turn or waits; or the agent is closed and has dropped the rest.
abbrev pub Delivers : Talk → Type 0
Delivers t =
    (t.accepted ≡ t.delivered ++ t.agent.inbox)
    ⊎ ((t.agent.inbox_open ≡ false)
        × (t.agent.inbox ≡ [])
        × ((rest : List Text) × (t.accepted ≡ t.delivered ++ rest)))

message-inbox :
    (r s : AgentRecord) (text : Text)
    → message r text ≡ some s
    → (r.inbox_open ≡ true) × (s.inbox ≡ r.inbox ++ text ∷ [])
unfolding message
message-inbox r s text h = ground arith

told-Delivers :
    (t : Talk) (text : Text) (o : Option AgentRecord)
    → message t.agent text ≡ o
    → Delivers t
    → Delivers (told t text o)
told-Delivers t text none h v = v
told-Delivers t text (some s) h (inl e) =
    let m = message-inbox t.agent s text h in inl (rw (m.1, e, append_assoc))
told-Delivers t text (some s) h (inr (shut, _, _)) =
    let m = message-inbox t.agent s text h in absurd (ground (arith, m.0, shut))

-- `decide_inbox` closes the inbox and keeps what is in it.
closed-Delivers :
    (t : Talk)
    → Delivers t
    → Delivers (record t {
      agent = record (t.agent) { inbox_open = false };
      delivered = t.delivered ++ [];
    })
closed-Delivers t (inl e) = inl (rw (append-nil, e))
closed-Delivers t (inr (_, empty, (rest, w))) = inr (refl, empty, (rest, rw (append-nil, w)))

decided-Delivers :
    (t : Talk) (b : Bool) (inbox : List Text)
    → t.agent.inbox ≡ inbox
    → Delivers t
    → Delivers (record t {
      agent = (decide b inbox t.agent).1;
      delivered = t.delivered ++ given (decide b inbox t.agent).0;
    })
decided-Delivers t true (m ∷ ms) h (inl e) = inl (rw (append-nil, e, h))
decided-Delivers t true (m ∷ ms) h (inr (_, empty, _)) = absurd (cc)
decided-Delivers t true [] h v = closed-Delivers t v
decided-Delivers t false inbox h v = closed-Delivers t v

ended :
    (t : Talk) (s : ActivityStatus) (result : Text) (now : ℕ)
    → Delivers t
    → Delivers (record t { agent = (finished t.agent s result now).0 })
ended t s result now (inl w) = inr (refl, refl, (t.agent.inbox, w))
ended t s result now (inr (_, _, (rest, w))) = inr (refl, refl, (rest, w))

end-Delivers :
    (t : Talk) (s : ActivityStatus) (result : Text) (now : ℕ)
    → Delivers t
    → Delivers (call t (end s result now))
unfolding call finish_record is_terminal
end-Delivers t s result now v = elim (Bool-cases (is_terminal t.agent.summary.status)) [
  | inl e ↦ rw e v
  | inr e ↦ rw e (ended t s result now v)
]

call-Delivers : (t : Talk) (c : Call) → Delivers t → Delivers (call t c)
unfolding call decide_inbox
call-Delivers t (tell text) v = told-Delivers t text (message t.agent text) refl v
call-Delivers t (next_turn b) v = decided-Delivers t b t.agent.inbox refl v
call-Delivers t (end s result now) v = end-Delivers t s result now v

-- In any order of messages, turns and ends: each accepted message reaches a turn at most once and in
-- the order of acceptance; while the agent is open, what has not reached a turn waits in the inbox.
pub call_all-Delivers : (t : Talk) (cs : List Call) → Delivers t → Delivers (call_all t cs)
unfolding call_all
call_all-Delivers t [] v = v
call_all-Delivers t (c ∷ cs) v = call_all-Delivers (call t c) cs (call-Delivers t c v)
