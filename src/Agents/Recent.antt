-- ===== src/Agents/Recent.antt =====
-- The loop of `retain_recent` in crates/misy-core/src/core/agents/registry.rs.
use misy.Common.{
  ◌≡◌, refl, ◌≤◌, ℕ, zero, suc, ◌⊎◌, inl, inr, false, Option, none, some, List, [], ◌∷◌, arith,
  length, ltb, retain, not, ◌==◌, if◌then◌else◌, Bool-cases, Option-cases,
}
use misy.Common.Assoc.{lookup, remove}
use misy.Agents.Registry.{AgentRegistry, max_recent_agents}
use misy.Agents.Mailbox.{removable, pop_back, expire, expire_loop, retain_recent}

pop_back-none : (xs : List ℕ) → pop_back xs ≡ none → length xs ≡ 0
pop_back-none [] h = refl
pop_back-none (x ∷ xs) h = elim (Option-cases (pop_back xs)) [
  | inl e ↦ absurd (ground (arith, h, e))
  | inr (q, e) ↦ absurd (ground (arith, h, e))
]

length-pop_back :
    (xs : List ℕ) (p : List ℕ × ℕ) → pop_back xs ≡ some p → length xs ≡ suc (length p.0)
length-pop_back [] p h = cc
length-pop_back (x ∷ xs) p h = elim (Option-cases (pop_back xs)) [
  | inl e ↦ ground (arith, h, e, pop_back-none xs e)
  | inr (q, e) ↦ ground (arith, h, e, length-pop_back xs q e)
]

-- The loop ended by its own test, or because the oldest agent cannot be removed.
abbrev pub EndsLoop : AgentRegistry → Type 0
EndsLoop g =
    (length g.recent ≤ max_recent_agents)
    ⊎ ((id : ℕ) × (rest : List ℕ) × (g.recent ≡ id ∷ rest)
        × (removable (lookup id g.records) ≡ false))

expired-EndsLoop :
    (fuel : ℕ) (g : AgentRegistry) (o : Option (List ℕ × ℕ))
    → pop_back g.recent ≡ o
    → length g.recent ≤ suc fuel
    → ((h : AgentRegistry) → length h.recent ≤ fuel → EndsLoop (expire_loop fuel h))
    → EndsLoop (let e = expire g o in if e.0 then expire_loop fuel e.1 else e.1)
expired-EndsLoop fuel g none h l ih = inl (omega (arith, pop_back-none g.recent h))
expired-EndsLoop fuel g (some (rest, id)) h l ih =
    let n = length-pop_back g.recent (rest, id) h in
    elim (Bool-cases (removable (lookup id g.records))) [
      | inl e ↦
          rw e
            (ih (record g { recent = rest; records = remove id g.records }) (omega (arith, n, l)))
      | inr e ↦ rw e (inr (id, rest, refl, e))
    ]

expire_loop-EndsLoop :
    (fuel : ℕ) (g : AgentRegistry) → length g.recent ≤ fuel → EndsLoop (expire_loop fuel g)
unfolding expire_loop
expire_loop-EndsLoop zero g h = inl (omega arith)
expire_loop-EndsLoop (suc fuel) g h = elim (Bool-cases (ltb max_recent_agents (length g.recent))) [
  | inl e ↦ rw e (expired-EndsLoop fuel g (pop_back g.recent) refl h (expire_loop-EndsLoop fuel))
  | inr e ↦ rw e (inl (ground arith))
]

-- `retain_recent` leaves at most 20 recent agents, or stops with an agent in front that the map has
-- lost or whose result still waits.
pub retain_recent-EndsLoop : (g : AgentRegistry) (id : ℕ) → EndsLoop (retain_recent g id)
unfolding retain_recent
retain_recent-EndsLoop g id =
    let recent = id ∷ retain (λ c. not (c == id)) g.recent in
    expire_loop-EndsLoop (length recent) (record g { recent = recent }) (omega arith)
