-- ===== src/Checklist/Examples.antt =====
-- The theorem on a checklist of one item and a list that is refused.
use misy.Common.{true, some, [], ◌∷◌, length}
use misy.Session.{pending}
use misy.Checklist.{TodoSizes, Holder, absent, decoded}
use misy.Checklist.Valid.{Bounded, run, run-Bounded}

abbrev sizes : TodoSizes
sizes = record { text_len = length; json_len = λ ts. some 40 }

abbrev empty_holder : Holder
empty_holder = record { todos = []; conversation = true; published = [] }

run-Bounded_example : Bounded sizes (
    run sizes empty_holder (
      decoded (record { title = 97 ∷ []; status = pending } ∷ [])
      ∷ decoded (record { title = []; status = pending } ∷ [])
      ∷ absent
      ∷ []))
run-Bounded_example = run-Bounded sizes true (
    decoded (record { title = 97 ∷ []; status = pending } ∷ [])
    ∷ decoded (record { title = []; status = pending } ∷ [])
    ∷ absent
    ∷ [])
