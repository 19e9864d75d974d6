-- ===== src/Queue/Examples.antt =====
-- The theorems on the queue at a short run.
use misy.Common.{ℕ, ◌≡◌, ◌≤◌, refl, true, List, [], ◌∷◌, length, arith}
use misy.Common.Assoc.{insert, lookup}
use misy.Queue.{Outcome, completed, failed, idle, new_core, submit, cancel_submission, emit}
use misy.Queue.Steps.{Call, submits, cancels, works, requests, step, run, work}
use misy.Queue.Events.{accepted_ids, ended_ids}
use misy.Queue.Order.{run-InOrder}
use misy.Queue.Accepting.{InOrder}
use misy.Queue.Drain.{is_live, fuel_of, works_all, run_drains}

-- Two submissions; the second is cancelled while the first one runs.
abbrev two_calls : List (Call ℕ)
two_calls =
    submits true 7
    ∷ works completed
    ∷ works completed
    ∷ submits true 8
    ∷ requests 3
    ∷ cancels 2
    ∷ cancels 1
    ∷ []

run-InOrder_example : InOrder (run new_core two_calls)
run-InOrder_example = run-InOrder two_calls

abbrev ten_outcomes : List Outcome
ten_outcomes =
    failed ∷ completed ∷ completed ∷ completed ∷ completed ∷ completed ∷ completed ∷ completed
    ∷ completed ∷ completed ∷ []

two_calls-is_live : is_live (run new_core two_calls).worker ≡ true
unfolding run step submit work cancel_submission emit insert lookup
two_calls-is_live = refl

two_calls-fuel_of : fuel_of (run new_core two_calls) ≤ length ten_outcomes
unfolding run step submit work cancel_submission emit insert lookup
two_calls-fuel_of = omega arith

run_drains_example :
    ((run (run new_core two_calls) (works_all ten_outcomes)).worker ≡ idle)
    × ((run (run new_core two_calls) (works_all ten_outcomes)).pending ≡ [])
    × (ended_ids (run (run new_core two_calls) (works_all ten_outcomes)).events
        ≡ accepted_ids (run new_core two_calls).events)
run_drains_example = run_drains two_calls ten_outcomes two_calls-is_live two_calls-fuel_of
