-- ===== src/Output/Examples.antt =====
-- Runs of the capture of output.rs, and its theorems at concrete captures.
use misy.Common.{ℕ, ◌≡◌, refl, false, ◌⊎◌, List, [], ◌∷◌, arith, retain}
use misy.Output.Capture.{
  ActivityOutputStream, stdout, stderr, system, CapturedFragment, OrderedOutput, empty_output,
  append, count_bytes, store, append_head, append_tail, trim_loop, over_budget, mark_incomplete,
}
use misy.Output.Log.{flat}
use misy.Output.Invariant.{WellFormed, Retains}
use misy.Output.Retention.{Chunk, append_all, history, append_all-WellFormed, append_all-Retains}
use misy.Output.Trim.{trim_loop-ends}
use misy.Output.Select.{slices_after, select_head_tail}
use misy.Output.Delivery.{is_after, flat-slices_after}
use misy.Output.Selection.{Shows, select_head_tail-Shows}
use misy.Output.Project.{ActivityOutputFragment, coalesce_public, omission_marker}
use misy.Output.Projected.{Alternates, contents, coalesce_public_lem}

-- "on" to stdout, "e" to stderr, a note of the system, and "x" to stdout.
abbrev chunks : List Chunk
chunks = (stdout, 111 ∷ 110 ∷ []) ∷ (stderr, 101 ∷ []) ∷ (system, 33 ∷ []) ∷ (stdout, 120 ∷ []) ∷ []

abbrev capture : OrderedOutput
capture = append_all empty_output chunks

abbrev fragment : ActivityOutputStream → ℕ → List ℕ → CapturedFragment
fragment s p bs = record { stream = s; start = p; bytes = bs }

capture_head :
    capture.head
    ≡ fragment stdout 0 (111 ∷ 110 ∷ [])
      ∷ fragment stderr 2 (101 ∷ [])
      ∷ fragment stdout 4 (120 ∷ [])
      ∷ []
unfolding append_all append count_bytes store append_head append_tail
capture_head = refl

marker :
    omission_marker 40
    ≡ 10 ∷ 91 ∷ 46 ∷ 46 ∷ 46 ∷ 32 ∷ 52 ∷ 48 ∷ 32 ∷ 98 ∷ 121 ∷ 116 ∷ 101 ∷ 115 ∷ 32 ∷ 111 ∷ 109 ∷ 105
      ∷ 116 ∷ 116 ∷ 101 ∷ 100 ∷ 32 ∷ 46 ∷ 46 ∷ 46 ∷ 93 ∷ 10 ∷ []
unfolding omission_marker
marker = refl

incomplete :
    (mark_incomplete (mark_incomplete empty_output system) stderr).stdout_incomplete ≡ false
unfolding mark_incomplete
incomplete = refl

append_all-Retains_example : Retains (history 0 chunks) (append_all empty_output chunks)
append_all-Retains_example = append_all-Retains chunks (omega arith)

append_all-WellFormed_example : WellFormed (append_all empty_output chunks)
append_all-WellFormed_example = append_all-WellFormed chunks (omega arith)

abbrev fragments : List CapturedFragment
fragments = fragment stdout 0 (1 ∷ 2 ∷ []) ∷ fragment stderr 2 (3 ∷ 4 ∷ 5 ∷ []) ∷ []

select_head_tail-Shows_example : Shows fragments 3 (select_head_tail fragments 3)
select_head_tail-Shows_example = select_head_tail-Shows 5 fragments 3 (omega arith) (omega arith)

flat-slices_after_example : flat (slices_after fragments 3) ≡ retain (is_after 3) (flat fragments)
flat-slices_after_example = flat-slices_after 5 fragments 3 (omega arith) (omega arith)

trim_loop-ends_example :
    ((trim_loop 3 fragments 600000).0 ≡ [])
    ⊎ (over_budget (trim_loop 3 fragments 600000).0 (trim_loop 3 fragments 600000).1 ≡ false)
trim_loop-ends_example = trim_loop-ends 3 fragments 600000 (omega arith)

abbrev public : List ActivityOutputFragment
public =
    record { stream = stdout; text = 1 ∷ [] }
    ∷ record { stream = stdout; text = 2 ∷ [] }
    ∷ record { stream = stderr; text = 3 ∷ [] }
    ∷ []

coalesce_public_lem_example :
    Alternates (coalesce_public public) × (contents (coalesce_public public) ≡ contents public)
coalesce_public_lem_example = coalesce_public_lem public
