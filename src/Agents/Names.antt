-- ===== src/Agents/Names.antt =====
-- The names of siblings in crates/misy-core/src/core/agents/registry.rs.
use misy.Common.{◌<◌, ◌≡◌, refl, ℕ, Bool, true, false, Option, none, some, [], ◌∷◌, arith, any}
use misy.Common.Assoc.{Assoc, insert}
use misy.Common.Texts.{Text, text_eq}
use misy.Agents.{AgentRecord}
use misy.Agents.Registry.{
  ok, AgentRegistry, AgentRegistration, same_parent, is_sibling, has_sibling, is_task_name,
  new_record, registered, register,
}

any-insert :
    (p : ℕ × AgentRecord → Bool) (k : ℕ) (r : AgentRecord) (m : Assoc AgentRecord)
    → p (k, r) ≡ true
    → any p (insert k r m) ≡ true
unfolding insert
any-insert p k r [] h = ground arith
any-insert p k r ((i, old) ∷ m) h = ground (arith, any-insert p k r m h)

same_parent_refl : (o : Option ℕ) → same_parent o o ≡ true
same_parent_refl none = refl
same_parent_refl (some a) = ground arith

text_eq_refl : (t : Text) → text_eq t t ≡ true
unfolding text_eq
text_eq_refl [] = refl
text_eq_refl (c ∷ t) = ground (arith, text_eq_refl t)

new_record-IsSibling :
    (g : AgentRegistry) (a : AgentRegistration) (now : ℕ)
    → is_sibling g.generation a.parent a.task_name (new_record g a now) ≡ true
unfolding is_sibling
new_record-IsSibling g a now = ground (arith, same_parent_refl a.parent, text_eq_refl a.task_name)

pub registered-HasSibling :
    (g : AgentRegistry) (a : AgentRegistration) (now : ℕ)
    → has_sibling (registered g a now) a.parent a.task_name ≡ true
unfolding has_sibling
registered-HasSibling g a now =
    any-insert (λ p. is_sibling g.generation a.parent a.task_name p.1) g.next_id
      (new_record g a now) g.records (new_record-IsSibling g a now)

-- What an acceptance says of the registration, and what comes out of it.
pub register-ok :
    (g h : AgentRegistry) (a : AgentRegistration) (now : ℕ) (r : AgentRecord)
    → register g a now ≡ ok (r, h)
    → (is_task_name a.task_name ≡ true)
      × (has_sibling g a.parent a.task_name ≡ false)
      × (g.accepting ≡ true)
      × (0 < g.live_slots)
      × (r ≡ new_record g a now)
      × (h ≡ registered g a now)
unfolding register
register-ok g h a now r e = ground arith

pub taken-register :
    (g : AgentRegistry) (a : AgentRegistration) (now : ℕ) (x : AgentRecord × AgentRegistry)
    → has_sibling g a.parent a.task_name ≡ true
    → ¬ (register g a now ≡ ok x)
unfolding register
taken-register g a now x h e = ground arith
