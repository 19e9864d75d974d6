-- ===== src/Agents/Siblings.antt =====
-- No two siblings have one name, crates/misy-core/src/core/agents/registry.rs.
use misy.Common.{
  ◌≡◌, refl, sym, ap, subst, ◌∙◌, ◌↔◌, ◌⊎◌, inl, inr, ℕ, Bool, true, false, ◌&&◌, Option, none,
  some, [], ◌∷◌, arith, any, Bool-cases, ◌==◌, ==_iff, if◌then◌else◌,
}
use misy.Common.Assoc.{Assoc, lookup, lookup-insert}
use misy.Common.Texts.{Text, text_eq_iff}
use misy.Agents.{AgentRecord}
use misy.Agents.Registry.{
  ok, err, AgentResult, AgentRegistry, AgentRegistration, new_registry, same_parent, is_sibling,
  has_sibling, new_record, registered, register, task_name_taken, empty_profiles, shutdown,
  agent_limit_reached, mailbox_full, invalid_task_name, unknown_agent, already_finished,
}
use misy.Agents.Names.{register-ok, taken-register, registered-HasSibling}

-- A record of the generation with the parent and the name.
abbrev pub Sibling : ℕ → Option ℕ → Text → AgentRecord → Type 0
Sibling generation parent name r =
    (r.generation ≡ generation) × (r.summary.parent ≡ parent) × (r.summary.task_name ≡ name)

-- No two records of the conversation have the same parent and the same name.
abbrev pub Distinct : AgentRegistry → Type 0
Distinct g =
    (i j : ℕ) (r s : AgentRecord)
    → lookup i g.records ≡ some r
    → lookup j g.records ≡ some s
    → Sibling g.generation s.summary.parent s.summary.task_name r
    → s.generation ≡ g.generation
    → i ≡ j

-- An entry of the map is a sibling.
abbrev pub Somewhere : ℕ → Option ℕ → Text → Assoc AgentRecord → Type 0
Somewhere generation parent name [] = ⊥
Somewhere generation parent name ((i, r) ∷ rest) =
    Sibling generation parent name r ⊎ Somewhere generation parent name rest

same_parent_iff : (a b : Option ℕ) → (same_parent a b ≡ true) ↔ (a ≡ b)
same_parent_iff none none = (λ e. refl, λ e. refl)
same_parent_iff none (some b) = (λ e. absurd cc, λ e. absurd cc)
same_parent_iff (some a) none = (λ e. absurd cc, λ e. absurd cc)
same_parent_iff (some a) (some b) =
    (λ e. ap some ((==_iff a b).0 e), λ e. (==_iff a b).1 (let same : a ≡ b = cc in same))

and_iff : (a b : Bool) → ((a && b) ≡ true) ↔ ((a ≡ true) × (b ≡ true))
and_iff true b = (λ e. (refl, e), λ p. p.1)
and_iff false b = (λ e. absurd cc, λ p. absurd (no p.0))
  where
    no : false ≡ true → ⊥
    no e = cc

is_sibling_iff :
    (generation : ℕ) (parent : Option ℕ) (name : Text) (r : AgentRecord)
    → (is_sibling generation parent name r ≡ true) ↔ Sibling generation parent name r
unfolding is_sibling
is_sibling_iff generation parent name r = (
  λ e.
      let (a, more) = (and_iff (r.generation == generation) _).0 e in
      let (b, c) = (and_iff (same_parent r.summary.parent parent) _).0 more in
      (
        (==_iff r.generation generation).0 a,
        (same_parent_iff r.summary.parent parent).0 b,
        (text_eq_iff r.summary.task_name name).0 c,
      ),
  λ (a, b, c). (and_iff (r.generation == generation) _).1 (
    (==_iff r.generation generation).1 a,
    (and_iff (same_parent r.summary.parent parent) _).1
        ((same_parent_iff r.summary.parent parent).1 b, (text_eq_iff r.summary.task_name name).1 c),
  ),
)

any-Somewhere :
    (generation : ℕ) (parent : Option ℕ) (name : Text) (m : Assoc AgentRecord)
    → any (λ p. is_sibling generation parent name p.1) m ≡ true
    → Somewhere generation parent name m
any-Somewhere generation parent name [] h = absurd cc
any-Somewhere generation parent name ((i, r) ∷ m) h =
    elim (Bool-cases (is_sibling generation parent name r)) [
      | inl e ↦ inl ((is_sibling_iff generation parent name r).0 e)
      | inr e ↦ inr (any-Somewhere generation parent name m (ground (arith, e, h)))
    ]

any-lookup :
    (generation : ℕ) (parent : Option ℕ) (name : Text) (m : Assoc AgentRecord) (j : ℕ)
    (r : AgentRecord)
    → lookup j m ≡ some r
    → is_sibling generation parent name r ≡ true
    → any (λ p. is_sibling generation parent name p.1) m ≡ true
unfolding lookup
any-lookup generation parent name [] j r e h = absurd cc
any-lookup generation parent name ((i, old) ∷ m) j r e h = elim (Bool-cases (i == j)) [
  | inl t ↦
      let same : old ≡ r = found t in
      let first : is_sibling generation parent name old ≡ true =
        ap (is_sibling generation parent name) same ∙ h in
      rw first refl
  | inr f ↦
      let rest : any (λ p. is_sibling generation parent name p.1) m ≡ true =
        any-lookup generation parent name m j r (later f) h in
      ground (arith, rest)
]
  where
    found : (i == j) ≡ true → old ≡ r
    found t = let e' : some old ≡ some r = rw t at e in cc

    later : (i == j) ≡ false → lookup j m ≡ some r
    later f = rw f at e

-- The new record would have a sibling in the registry before.
clash :
    (g : AgentRegistry) (a : AgentRegistration) (j : ℕ) (r : AgentRecord)
    → has_sibling g a.parent a.task_name ≡ false
    → lookup j g.records ≡ some r
    → Sibling g.generation a.parent a.task_name r
    → ⊥
unfolding has_sibling
clash g a j r free e s =
    let taken : any (λ p. is_sibling g.generation a.parent a.task_name p.1) g.records ≡ true =
      any-lookup g.generation a.parent a.task_name g.records j r e
        ((is_sibling_iff g.generation a.parent a.task_name r).1 s) in
    let no : true ≡ false = sym taken ∙ free in absurd (let nope : true ≡ false = no in cc)

module _ (g : AgentRegistry) (a : AgentRegistration) (now : ℕ) where
  -- An entry of the registry after an acceptance is the new one or one of before.
  entry-cases :
      (i : ℕ) (r : AgentRecord)
      → lookup i (registered g a now).records ≡ some r
      → ((g.next_id ≡ i) × (r ≡ new_record g a now)) ⊎ (lookup i g.records ≡ some r)
  entry-cases i r e =
      let e' : (if g.next_id == i then some (new_record g a now) else lookup i g.records) ≡ some r =
        sym (lookup-insert g.next_id i (new_record g a now) g.records) ∙ e in
      elim (Bool-cases (g.next_id == i)) [
        | inl t ↦
            let here : some (new_record g a now) ≡ some r = rw t at e' in
            inl ((==_iff g.next_id i).0 t, cc)
        | inr f ↦ inr (rw f at e')
      ]

  registered-Distinct :
      Distinct g → has_sibling g a.parent a.task_name ≡ false → Distinct (registered g a now)
  registered-Distinct d free i j r s e f (gr, pr, nr) gs = elim (entry-cases i r e) [
    | inl (x, x') ↦ elim (entry-cases j s f) [
      | inl (y, y') ↦ sym x ∙ y
      | inr y ↦ absurd (
          clash g a j s free y
            (gs, sym pr ∙ ap (λ t. t.summary.parent) x', sym nr ∙ ap (λ t. t.summary.task_name) x'))
    ]
    | inr x ↦ elim (entry-cases j s f) [
      | inl (y, y') ↦ absurd (
          clash g a i r free x
            (gr, pr ∙ ap (λ t. t.summary.parent) y', nr ∙ ap (λ t. t.summary.task_name) y'))
      | inr y ↦ d i j r s x y (gr, pr, nr) gs
    ]
  ]

taken_lem :
    (g : AgentRegistry) (a : AgentRegistration) (now : ℕ)
    → register g a now ≡ err task_name_taken
    → Somewhere g.generation a.parent a.task_name g.records
unfolding register has_sibling
taken_lem g a now e = any-Somewhere g.generation a.parent a.task_name g.records (ground (arith, e))

module _ (g : AgentRegistry) (a b : AgentRegistration) (later : ℕ)
    (x : AgentRecord × AgentRegistry) where
  -- By the result of a registration: an accepted agent stands in the registry, where siblings have
  -- names of their own again, and another of the same parent and name is refused there; a name is
  -- refused as taken only if a record of the conversation has it under the same parent.
  abbrev pub Registers : AgentResult (AgentRecord × AgentRegistry) → Type 0
  Registers (ok (r, h)) =
      Distinct h
      × (lookup g.next_id h.records ≡ some r)
      × Sibling h.generation a.parent a.task_name r
      × (¬ (register h b later ≡ ok x))
  Registers (err task_name_taken) = Somewhere g.generation a.parent a.task_name g.records
  Registers (err empty_profiles) = Unit {0}
  Registers (err shutdown) = Unit {0}
  Registers (err agent_limit_reached) = Unit {0}
  Registers (err mailbox_full) = Unit {0}
  Registers (err invalid_task_name) = Unit {0}
  Registers (err (unknown_agent i)) = Unit {0}
  Registers (err (already_finished i)) = Unit {0}

  module _ (now : ℕ) (p : b.parent ≡ a.parent) (n : b.task_name ≡ a.task_name) where
    accepted :
        Distinct g
        → has_sibling g a.parent a.task_name ≡ false
        → Registers (ok (new_record g a now, registered g a now))
    accepted d free = (
      registered-Distinct g a now d free,
      lookup-insert g.next_id g.next_id (new_record g a now) g.records
          ∙ ap (λ c. if c then some (new_record g a now) else lookup g.next_id g.records)
              ((==_iff g.next_id g.next_id).1 refl),
      (refl, refl, refl),
      (let taken : has_sibling (registered g a now) b.parent b.task_name ≡ true =
            rw (p, n) (registered-HasSibling g a now) in
          taken-register (registered g a now) b later x taken),
    )

    by_result :
        (o : AgentResult (AgentRecord × AgentRegistry))
        → Distinct g
        → register g a now ≡ o
        → Registers o
    by_result (ok (r, h)) d e =
        let (_, free, _, _, same, after) = register-ok g h a now r e in
        subst (λ q. Registers (ok (q, h))) (sym same)
          (subst (λ k. Registers (ok (new_record g a now, k))) (sym after) (accepted d free))
    by_result (err task_name_taken) d e = taken_lem g a now e
    by_result (err empty_profiles) d e = tt
    by_result (err shutdown) d e = tt
    by_result (err agent_limit_reached) d e = tt
    by_result (err mailbox_full) d e = tt
    by_result (err invalid_task_name) d e = tt
    by_result (err (unknown_agent i)) d e = tt
    by_result (err (already_finished i)) d e = tt

-- In a registry where siblings have names of their own, a registration that is accepted puts the
-- agent, with its parent and name, among the records, where siblings have names of their own again,
-- and refuses another of the same parent and name right after it; a name is refused as taken only if
-- a record of the conversation has that name under the same parent.
pub register-Distinct :
    (g : AgentRegistry) (a b : AgentRegistration) (now later : ℕ) (x : AgentRecord × AgentRegistry)
    → b.parent ≡ a.parent
    → b.task_name ≡ a.task_name
    → Distinct g
    → Registers g a b later x (register g a now)
register-Distinct g a b now later x p n d =
    by_result g a b later x now p n (register g a now) d refl

pub new_registry-Distinct : (n : ℕ) → Distinct (new_registry n)
unfolding new_registry lookup
new_registry-Distinct n i j r s e f t h = absurd cc
