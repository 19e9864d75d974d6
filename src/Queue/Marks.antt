-- ===== src/Queue/Marks.antt =====
-- What the cancellations of crates/misy-core/src/core/queue.rs write.
use misy.Common.{
  ℕ, ◌≡◌, refl, Bool, true, false, Option, none, some, List, [], ◌∷◌, ◌++◌, if◌then◌else◌,
}
use misy.Common.Assoc.{Assoc, lookup}
use misy.Queue.{
  ActiveSubmission, Core, modify, with_request, cancel_found, cancel_known, cancel_of,
  cancel_active_submission, cancel_each,
}

module _ {Work : Type 0} where
  -- A cancellation writes to the shared objects and asks the provider, and no more.
  abbrev pub OnlyMarks : Core Work → Core Work → Type 0
  OnlyMarks c d =
      (active : Assoc ActiveSubmission) × (remote : List ℕ) × (d
        ≡ record c { active = active; remote_cancels = remote })

  with_request-OnlyMarks :
      (c : Core Work) (active : Assoc ActiveSubmission) (o : Option ℕ)
      → OnlyMarks c (with_request o (record c { active = active }))
  with_request-OnlyMarks c active none = (active, c.remote_cancels, refl)
  with_request-OnlyMarks c active (some r) = (active, c.remote_cancels ++ r ∷ [], refl)

  cancel_found-OnlyMarks :
      (c : Core Work) (id : ℕ) (o : Option ActiveSubmission) → OnlyMarks c (cancel_found c id o)
  cancel_found-OnlyMarks c id none = (c.active, c.remote_cancels, refl)
  cancel_found-OnlyMarks c id (some a) = cancel_flag-OnlyMarks c id a.cancelled a.request
    where
      cancel_flag-OnlyMarks :
          (d : Core Work) (i : ℕ) (flag : Bool) (o : Option ℕ)
          → OnlyMarks d (
              if flag
              then d
              else with_request o
                  (record d { active = modify i (λ b. record b { cancelled = true }) d.active }))
      cancel_flag-OnlyMarks d i true o = (d.active, d.remote_cancels, refl)
      cancel_flag-OnlyMarks d i false o = with_request-OnlyMarks d _ o

  pub cancel_active_submission-OnlyMarks :
      (c : Core Work) (id : ℕ) → OnlyMarks c (cancel_active_submission c id)
  unfolding cancel_active_submission
  cancel_active_submission-OnlyMarks c id = cancel_found-OnlyMarks c id (lookup id c.active)

  OnlyMarks-trans : (c d e : Core Work) → OnlyMarks c d → OnlyMarks d e → OnlyMarks c e
  OnlyMarks-trans c d e (a, r, p) (b, t, q) = (b, t, rw (q, p))

  pub cancel_each-OnlyMarks : (is : List ℕ) (c : Core Work) → OnlyMarks c (cancel_each is c)
  unfolding cancel_each
  cancel_each-OnlyMarks [] c = (c.active, c.remote_cancels, refl)
  cancel_each-OnlyMarks (id ∷ is) c =
      OnlyMarks-trans c (cancel_active_submission c id) _ (cancel_active_submission-OnlyMarks c id)
        (cancel_each-OnlyMarks is (cancel_active_submission c id))

  pub cancel_known-OnlyMarks :
      (c : Core Work) (id : ℕ) (o : Option ActiveSubmission) → OnlyMarks c (cancel_known c id o).1
  cancel_known-OnlyMarks c id none = (c.active, c.remote_cancels, refl)
  cancel_known-OnlyMarks c id (some a) = cancel_active_submission-OnlyMarks c id

  pub cancel_of-OnlyMarks : (c : Core Work) (o : Option ℕ) → OnlyMarks c (cancel_of c o).1
  cancel_of-OnlyMarks c none = (c.active, c.remote_cancels, refl)
  cancel_of-OnlyMarks c (some id) = cancel_active_submission-OnlyMarks c id
