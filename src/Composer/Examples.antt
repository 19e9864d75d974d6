-- ===== src/Composer/Examples.antt =====
-- The composer's theorems at concrete texts.
use misy.Common.{ℕ, Bool, List, [], ◌∷◌, some, none, ◌≡◌, refl, inl, arith, length, get_elem?, ◌==◌}
use misy.Common.Texts.{Text}
use misy.Common.Utf8.{byte_len, len_utf8}
use misy.Composer.{Draft, placed, insert_image, draft}
use misy.Composer.Commands.{new_popup}
use misy.Composer.Edits.{Composer, new_composer}
use misy.Composer.Order.{typed, one, home, both, draft_panics}
use misy.Composer.Recall.{EndsAll, previous, next, at_entry, returned, next-previous}
use misy.Composer.Edited.{IsSound, Returns}
use misy.Composer.Calls.{
  Call, inserts, completes, records, goes_back, goes_on, breaks_line, goes_left, erases, deletes,
  points, run,
}
use misy.Composer.Runs.{run-IsSound}

-- The text "hi", an image behind it and another in front.
abbrev hi : List ℕ
hi = 104 ∷ 105 ∷ []

abbrev first_image : ℕ
first_image = 7

abbrev second_image : ℕ
second_image = 8

draft_panics_example :
    (insert_image (typed hi) first_image ≡ some (placed (one hi first_image)))
    × (insert_image (home (one hi first_image)) second_image
        ≡ some (placed (both hi first_image second_image)))
    × (draft (both hi first_image second_image).images (both hi first_image second_image).text
        ≡ none)
draft_panics_example = draft_panics hi first_image second_image

abbrev same_number : ℕ → ℕ → Bool
same_number a b = a == b

abbrev one_wide : Text → ℕ
one_wide t = length t

abbrev old_entry : Draft ℕ
old_entry = record { text = 97 ∷ []; cursor = 1; images = [] }

abbrev last_entry : Draft ℕ
last_entry = record { text = 98 ∷ 98 ∷ []; cursor = 2; images = [] }

abbrev two_entries : Composer ℕ
two_entries = record {
  now = record { text = hi; cursor = 0; images = [] };
  history = old_entry ∷ last_entry ∷ [];
  history_index = none;
  history_draft = none;
  popup = new_popup;
}

next-previous_example :
    (entry : Draft ℕ) × (get_elem? two_entries.history 0 ≡ some entry)
    × (previous 2 two_entries ≡ some (at_entry two_entries 0 entry))
    × (next 2 (at_entry two_entries 0 entry) ≡ some (returned two_entries))
unfolding EndsAll byte_len len_utf8
next-previous_example = next-previous two_entries 1 (inl refl) (refl, (refl, tt)) refl (omega arith)

-- A command is typed, completed and recorded; then the history is used, a line broken, a character
-- of two bytes typed in front of it and erased, and a cell pointed at.
abbrev many_calls : List Call
many_calls =
    inserts (47 ∷ 110 ∷ [])
    ∷ completes
    ∷ records (47 ∷ 110 ∷ 101 ∷ 119 ∷ [])
    ∷ goes_back
    ∷ goes_on
    ∷ breaks_line
    ∷ goes_left
    ∷ inserts (233 ∷ [])
    ∷ erases
    ∷ deletes
    ∷ points 1 2
    ∷ []

run-IsSound_example : Returns IsSound (run same_number one_wide many_calls (some new_composer))
run-IsSound_example = run-IsSound one_wide same_number many_calls
