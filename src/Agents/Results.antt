-- ===== src/Agents/Results.antt =====
-- The results that wait in the mailbox of crates/misy-core/src/core/agents/registry.rs.
use misy.Common.{
  ◌≡◌, refl, ℕ, inl, inr, not, Option, none, some, List, [], ◌∷◌, ◌++◌, arith, append_assoc,
  append-nil, retain, Option-cases, ◌==◌, if◌then◌else◌, Bool-cases,
}
use misy.Common.Assoc.{lookup, lookup-insert}
use misy.Agents.{AgentSummary, AgentRecord, consume_record}
use misy.Agents.Registry.{AgentResult, ok, err, AgentRegistry}
use misy.Agents.Mailbox.{
  current, find_record, write_record, release_mailbox, take_result, is_chosen, consume_loop,
  consume_mailbox,
}

abbrev summary_of : AgentResult AgentRecord → List AgentSummary
summary_of (err e) = []
summary_of (ok r) = r.summary ∷ []

-- The results of the chosen numbers, in the order of the mailbox.
abbrev pub results : AgentRegistry → Option (List ℕ) → List ℕ → List AgentSummary
results g filter [] = []
results g filter (id ∷ ids) =
    (if is_chosen filter id then summary_of (find_record g id) else []) ++ results g filter ids

-- Taking a result changes no summary.
consumed-summary :
    (g : AgentRegistry) (i j : ℕ) (r : AgentRecord) (o : Option AgentRecord)
    → lookup i g.records ≡ some r
    → lookup j g.records ≡ o
    → summary_of (current g.generation j (if i == j then some (consume_record r) else o))
      ≡ summary_of (current g.generation j o)
unfolding consume_record
consumed-summary g i j r none h e = ground (arith, h, e)
consumed-summary g i j r (some s) h e = ground (arith, h, e)

write_record-summary :
    (g : AgentRegistry) (i j : ℕ) (r : AgentRecord)
    → lookup i g.records ≡ some r
    → summary_of (find_record (write_record i (consume_record r) (release_mailbox r g)) j)
      ≡ summary_of (find_record g j)
unfolding find_record write_record
write_record-summary g i j r h = rw h (
    rw (lookup-insert i j (consume_record r) g.records)
      (consumed-summary g i j r (lookup j g.records) h refl))

find_record-lookup :
    (g : AgentRegistry) (id : ℕ) (r : AgentRecord)
    → find_record g id ≡ ok r
    → lookup id g.records ≡ some r
unfolding find_record
find_record-lookup g id r h = elim (Option-cases (lookup id g.records)) [
  | inl e ↦ absurd (ground (arith, e, h))
  | inr (s, e) ↦ ground (arith, e, h)
]

take_result-summary :
    (g : AgentRegistry) (i j : ℕ) (q : AgentResult AgentRecord) (ready : List AgentSummary)
    → find_record g i ≡ q
    → summary_of (find_record (take_result i q (ready, g)).1 j) ≡ summary_of (find_record g j)
take_result-summary g i j (err e) ready h = refl
take_result-summary g i j (ok r) ready h = write_record-summary g i j r (find_record-lookup g i r h)

results-agree :
    (f g : AgentRegistry) (filter : Option (List ℕ)) (ids : List ℕ)
    → ((j : ℕ) → summary_of (find_record f j) ≡ summary_of (find_record g j))
    → results f filter ids ≡ results g filter ids
results-agree f g filter [] h = refl
results-agree f g filter (id ∷ ids) h = rw (h id, results-agree f g filter ids h)

take_result-ready :
    (g : AgentRegistry) (i : ℕ) (q : AgentResult AgentRecord) (ready : List AgentSummary)
    → (take_result i q (ready, g)).0 ≡ ready ++ summary_of q
take_result-ready g i (err e) ready = rw append-nil
take_result-ready g i (ok r) ready = refl

-- The round that takes a result, once the rest of the loop is known.
taken-results :
    (filter : Option (List ℕ)) (id : ℕ) (ids retained : List ℕ) (g : AgentRegistry)
    (ready : List AgentSummary)
    → (consume_loop filter ids retained (take_result id (find_record g id) (ready, g))).0
      ≡ (take_result id (find_record g id) (ready, g)).0
        ++ results (take_result id (find_record g id) (ready, g)).1 filter ids
    → (consume_loop filter ids retained (take_result id (find_record g id) (ready, g))).0
      ≡ ready ++ (summary_of (find_record g id) ++ results g filter ids)
taken-results filter id ids retained g ready h =
    let t = take_result id (find_record g id) (ready, g) in
    let agree =
      results-agree t.1 g filter ids
        (λ j. take_result-summary g id j (find_record g id) ready refl) in
    rw (h, take_result-ready g id (find_record g id) ready, agree, append_assoc)

consume_loop-results :
    (filter : Option (List ℕ)) (ids retained : List ℕ) (s : List AgentSummary × AgentRegistry)
    → (consume_loop filter ids retained s).0 ≡ s.0 ++ results s.1 filter ids
unfolding consume_loop
consume_loop-results filter [] retained (ready, g) = rw append-nil
consume_loop-results filter (id ∷ ids) retained (ready, g) =
    elim (Bool-cases (is_chosen filter id)) [
      | inl e ↦ rw e (
          taken-results filter id ids retained g ready (
            consume_loop-results filter ids retained
              (take_result id (find_record g id) (ready, g))))
      | inr e ↦ rw e (consume_loop-results filter ids (retained ++ id ∷ []) (ready, g))
    ]

consume_loop-mailbox :
    (filter : Option (List ℕ)) (ids retained : List ℕ) (s : List AgentSummary × AgentRegistry)
    → (consume_loop filter ids retained s).1.mailbox
      ≡ retained ++ retain (λ id. not (is_chosen filter id)) ids
unfolding consume_loop
consume_loop-mailbox filter [] retained (ready, g) = rw append-nil
consume_loop-mailbox filter (id ∷ ids) retained (ready, g) =
    elim (Bool-cases (is_chosen filter id)) [
      | inl e ↦
          rw e (
            consume_loop-mailbox filter ids retained (take_result id (find_record g id) (ready, g)))
      | inr e ↦
          rw (e, consume_loop-mailbox filter ids (retained ++ id ∷ []) (ready, g), append_assoc)
    ]

-- A wait returns the summaries of the chosen agents of the conversation in the order of the mailbox;
-- the entries that were not chosen stay in it, in their order, and all others leave it.
pub consume_mailbox_lem :
    (g : AgentRegistry) (filter : Option (List ℕ))
    → ((consume_mailbox g filter).0 ≡ results g filter g.mailbox)
      × ((consume_mailbox g filter).1.mailbox ≡ retain (λ id. not (is_chosen filter id)) g.mailbox)
unfolding consume_mailbox
consume_mailbox_lem g filter = (
  consume_loop-results filter g.mailbox [] ([], g),
  consume_loop-mailbox filter g.mailbox [] ([], g),
)
