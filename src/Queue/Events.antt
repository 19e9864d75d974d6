-- ===== src/Queue/Events.antt =====
-- The submissions that events name, and those of a queue.
use misy.Common.{ℕ, ◌≡◌, refl, List, [], ◌∷◌, ◌++◌}
use misy.Queue.{Event, accepted, started, ended, QueuedSubmission}

abbrev pub accepted_ids : List Event → List ℕ
accepted_ids [] = []
accepted_ids (accepted id ∷ es) = id ∷ accepted_ids es
accepted_ids (started id ∷ es) = accepted_ids es
accepted_ids (ended o id ∷ es) = accepted_ids es

abbrev pub ended_ids : List Event → List ℕ
ended_ids [] = []
ended_ids (accepted id ∷ es) = ended_ids es
ended_ids (started id ∷ es) = ended_ids es
ended_ids (ended o id ∷ es) = id ∷ ended_ids es

pub accepted_ids-append :
    (es fs : List Event) → accepted_ids (es ++ fs) ≡ accepted_ids es ++ accepted_ids fs
accepted_ids-append [] fs = refl
accepted_ids-append (accepted id ∷ es) fs = rw (accepted_ids-append es fs)
accepted_ids-append (started id ∷ es) fs = accepted_ids-append es fs
accepted_ids-append (ended o id ∷ es) fs = accepted_ids-append es fs

pub ended_ids-append : (es fs : List Event) → ended_ids (es ++ fs) ≡ ended_ids es ++ ended_ids fs
ended_ids-append [] fs = refl
ended_ids-append (accepted id ∷ es) fs = ended_ids-append es fs
ended_ids-append (started id ∷ es) fs = ended_ids-append es fs
ended_ids-append (ended o id ∷ es) fs = rw (ended_ids-append es fs)

module _ {Work : Type 0} where
  abbrev pub ids : List (QueuedSubmission Work) → List ℕ
  ids [] = []
  ids (q ∷ qs) = q.id ∷ ids qs

  pub ids-append : (qs rs : List (QueuedSubmission Work)) → ids (qs ++ rs) ≡ ids qs ++ ids rs
  ids-append [] rs = refl
  ids-append (q ∷ qs) rs = rw (ids-append qs rs)
