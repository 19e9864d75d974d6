-- ===== src/Composer/Runs.antt =====
-- No sequence of calls on the composer panics in drafts without images,
-- crates/misy-tui/src/tui/composer.rs.
use misy.Common.{
  if_cases, ℕ, ◌+◌, ◌-◌, ◌<◌, Bool, true, false, not, ◌&&◌, ◌||◌, Option, none, some, List, [], ◌∷◌,
  length, take, get_elem?, ◌≡◌, refl, sym, ap, subst, arith, ltb, ◌==◌, saturating_sub, ltb→lt,
}
use misy.Common.Texts.{Text}
use misy.Common.Utf8.{byte_len}
use misy.Composer.{Draft}
use misy.Composer.Commands.{selected_command}
use misy.Composer.Edits.{
  Composer, new_composer, detach_history, sync_popup_after_edit, snap_cursor, move_home, move_end,
  insert_newline,
}
use misy.Composer.Display.{
  move_popup_up, move_popup_down, dismiss_popup, complete_selected_command, lines, total_bytes,
  byte_at_display_column, positioned, position_cursor,
}
use misy.Composer.History.{
  recall, recall_earlier, recall_later, earlier, left_history, restore_history_draft,
  dismiss_recalled_command, history_previous, history_next,
}
use misy.Composer.Boundaries.{
  IsBoundary, front-IsBoundary, back-IsBoundary, lines-Placed, byte_at_display_column-IsBoundary,
}
use misy.Composer.Edited.{
  AllSound, SoundIfKept, Within, IsSound, Returns, at_cursor-IsSound, insert_str-IsSound,
  move_left-IsSound, move_right-IsSound,
}
use misy.Composer.Removals.{backspace-IsSound, delete-IsSound}
use misy.Composer.Safety.{
  popup-IsSound, detached-IsSound, completed-IsSound, clear-IsSound, record_submitted-IsSound,
  recall-IsSound,
}
use misy.Composer.Calls.{
  Call, inserts, breaks_line, goes_left, goes_right, goes_home, goes_end, erases, deletes,
  popup_goes_up, popup_goes_down, dismisses, completes, records, clears, goes_back, goes_on, points,
  step, run,
}

second_of_or : (a b : Bool) → (a || b) ≡ false → b ≡ false
second_of_or true b e = absurd cc
second_of_or false b e = e

module _ {Image : Type 0} where
  recall_earlier-IsSound :
      (c : Composer Image) (o : Option ℕ)
      → IsSound c
      → 0 < length c.history
      → Within o (length c.history)
      → Returns IsSound (recall_earlier c (earlier c o))
  recall_earlier-IsSound c none h n w =
      recall-IsSound c (length c.history - 1) (some c.now) h (omega (arith, n)) h.draft_sound
  recall_earlier-IsSound c (some i) h n w =
      recall-IsSound c (saturating_sub i 1) c.history_draft h (omega (arith, w)) h.kept_sound

  history_previous-IsSound : (c : Composer Image) → IsSound c → Returns IsSound (history_previous c)
  unfolding history_previous
  history_previous-IsSound c h =
      if_cases (Returns IsSound)
        ((not (c.now.cursor == 0) && not (c.now.cursor == byte_len c.now.text))
          || length c.history == 0)
        (some c) (recall_earlier c (earlier c c.history_index)) (λ e. h)
        (λ e.
          recall_earlier-IsSound c c.history_index h
            (let more : (length c.history == 0) ≡ false =
                second_of_or (not (c.now.cursor == 0) && not (c.now.cursor == byte_len c.now.text))
                  (length c.history == 0) e in
              ground (arith, more))
            h.index_within)

  restored-IsSound :
      (c : Composer Image) (o : Option (Draft Image))
      → IsSound c
      → SoundIfKept o
      → IsSound (record (restore_history_draft c o) { history_index = none })
  restored-IsSound c none h k = record {
    draft_sound = (refl, front-IsBoundary []);
    entries_sound = h.entries_sound;
    kept_sound = h.kept_sound;
    index_within = tt;
    entries_bounded = h.entries_bounded;
  }
  restored-IsSound c (some d) h k = record {
    draft_sound = k;
    entries_sound = h.entries_sound;
    kept_sound = tt;
    index_within = tt;
    entries_bounded = h.entries_bounded;
  }

  left_history-IsSound : (c : Composer Image) → IsSound c → IsSound (left_history c)
  unfolding dismiss_recalled_command
  left_history-IsSound c h =
      popup-IsSound (record (restore_history_draft c c.history_draft) { history_index = none })
        (left_history c).popup (restored-IsSound c c.history_draft h h.kept_sound)

  recall_later-IsSound :
      (c : Composer Image) (o : Option ℕ) → IsSound c → Returns IsSound (recall_later c o)
  recall_later-IsSound c none h = h
  recall_later-IsSound c (some i) h =
      if_cases (Returns IsSound) (ltb (i + 1) (length c.history)) (recall c (i + 1) c.history_draft)
        (some (left_history c))
        (λ e. recall-IsSound c (i + 1) c.history_draft h (ltb→lt _ _ e) h.kept_sound)
        (λ e. left_history-IsSound c h)

  history_next-IsSound : (c : Composer Image) → IsSound c → Returns IsSound (history_next c)
  unfolding history_next
  history_next-IsSound c h =
      if_cases (Returns IsSound) (not (c.now.cursor == byte_len c.now.text)) (some c)
        (recall_later c c.history_index) (λ e. h) (λ e. recall_later-IsSound c c.history_index h)

  module _ (width : Text → ℕ) where
    positioned-IsSound :
        (c : Composer Image) (row column : ℕ) (o : Option Text)
        → get_elem? (lines c.now.text) row ≡ o
        → IsSound c
        → IsSound (positioned width row column c o)
    unfolding sync_popup_after_edit snap_cursor detach_history
    positioned-IsSound c row column none e h =
        at_cursor-IsSound c (byte_len c.now.text) h (back-IsBoundary c.now.text)
    positioned-IsSound c row column (some line) e h =
        let there : ℕ =
          total_bytes (take row (lines c.now.text)) + byte_at_display_column width 0 column line in
        let snapped : snap_cursor c.now.images there ≡ there =
          ap (λ is. snap_cursor is there) h.draft_sound.0 in
        detached-IsSound c (record c.now { cursor = snap_cursor c.now.images there })
          (positioned width row column c (some line)).popup h
          (
            h.draft_sound.0,
            subst (IsBoundary c.now.text) (sym snapped) (
                lines-Placed c.now.text row line (byte_at_display_column width 0 column line) e
                  (byte_at_display_column-IsBoundary width 0 column line)),
          )

    module _ (same_image : Image → Image → Bool) where
      step-IsSound :
          (call : Call) (c : Composer Image)
          → IsSound c
          → Returns IsSound (step same_image width call c)
      unfolding step insert_newline move_home move_end move_popup_up move_popup_down dismiss_popup
          complete_selected_command position_cursor
      step-IsSound (inserts text) c h = insert_str-IsSound text c h
      step-IsSound breaks_line c h = insert_str-IsSound (10 ∷ []) c h
      step-IsSound goes_left c h = move_left-IsSound c h
      step-IsSound goes_right c h = move_right-IsSound c h
      step-IsSound goes_home c h = at_cursor-IsSound c 0 h (front-IsBoundary c.now.text)
      step-IsSound goes_end c h =
          at_cursor-IsSound c (byte_len c.now.text) h (back-IsBoundary c.now.text)
      step-IsSound erases c h = backspace-IsSound c h
      step-IsSound deletes c h = delete-IsSound c h
      step-IsSound popup_goes_up c h = popup-IsSound c (move_popup_up c).popup h
      step-IsSound popup_goes_down c h = popup-IsSound c (move_popup_down c).popup h
      step-IsSound dismisses c h = popup-IsSound c (dismiss_popup c).popup h
      step-IsSound completes c h = completed-IsSound c (selected_command c.now.text c.popup) h
      step-IsSound (records text) c h = record_submitted-IsSound same_image text c h
      step-IsSound clears c h = clear-IsSound c h
      step-IsSound goes_back c h = history_previous-IsSound c h
      step-IsSound goes_on c h = history_next-IsSound c h
      step-IsSound (points row column) c h =
          positioned-IsSound c row column (get_elem? (lines c.now.text) row) refl h

      run_from-IsSound :
          (calls : List Call) (o : Option (Composer Image))
          → Returns IsSound o
          → Returns IsSound (run same_image width calls o)
      unfolding run
      run_from-IsSound [] o h = h
      run_from-IsSound (call ∷ more) none h = elim h [ ]
      run_from-IsSound (call ∷ more) (some c) h =
          run_from-IsSound more (step same_image width call c) (step-IsSound call c h)

      new_composer-IsSound : IsSound {Image = Image} new_composer
      unfolding new_composer AllSound
      new_composer-IsSound = record {
        draft_sound = (refl, front-IsBoundary []);
        entries_sound = tt;
        kept_sound = tt;
        index_within = tt;
        entries_bounded = omega arith;
      }

      -- Whatever calls follow one another on a new composer without images, none panics: the
      -- cursor stays between two characters of the text, as it does in each entry of
      -- the history and in the draft that is kept beside it, the entry that is shown is there,
      -- and the history has at most 100 entries.
      pub run-IsSound :
          (calls : List Call) → Returns IsSound (run same_image width calls (some new_composer))
      run-IsSound calls = run_from-IsSound calls (some new_composer) new_composer-IsSound
