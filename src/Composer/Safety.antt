-- ===== src/Composer/Safety.antt =====
-- The history and the popup keep a composer sound, crates/misy-tui/src/tui/composer.rs.
use misy.Common.{
  if_cases, ℕ, zero, suc, ◌+◌, ◌-◌, ◌≤◌, ◌<◌, Bool, true, false, ◌&&◌, ◌||◌, Option, none, some,
  List, [], ◌∷◌, ◌++◌, length, drop, get_elem?, ◌≡◌, refl, ap, ◌∙◌, arith, length-append,
  length-drop, ltb, ◌==◌, ltb→le, back,
}
use misy.Common.Texts.{Text, is_empty, trim}
use misy.Common.Utf8.{byte_len, ◌>>=◌, replace_range}
use misy.Composer.{Draft}
use misy.Composer.Commands.{CommandPopup, new_popup, first_line}
use misy.Composer.Edits.{Composer, detach_history}
use misy.Composer.Display.{complete_with}
use misy.Composer.History.{
  record_submitted, record_submitted_snapshot, matches_last, push_entry, with_entry, recorded,
  clear, recall, dismiss_recalled_command,
}
use misy.Composer.Boundaries.{front-IsBoundary, back-IsBoundary, replace_range_lem, first_line_lem}
use misy.Composer.Edited.{Sound, AllSound, SoundIfKept, IsSound, Returns, at_value}
use misy.Composer.Calls.{outcome}

module _ {Image : Type 0} where
  pub popup-IsSound :
      (c : Composer Image) (p : CommandPopup) → IsSound c → IsSound (record c { popup = p })
  popup-IsSound c p h = record {
    draft_sound = h.draft_sound;
    entries_sound = h.entries_sound;
    kept_sound = h.kept_sound;
    index_within = h.index_within;
    entries_bounded = h.entries_bounded;
  }

  -- A draft of one's own, out of the history.
  pub detached-IsSound :
      (c : Composer Image) (d : Draft Image) (p : CommandPopup)
      → IsSound c
      → Sound d
      → IsSound (record (detach_history c) { now = d; popup = p })
  unfolding detach_history
  detached-IsSound c d p h s = record {
    draft_sound = s;
    entries_sound = h.entries_sound;
    kept_sound = tt;
    index_within = tt;
    entries_bounded = h.entries_bounded;
  }

  pub completed-IsSound :
      (c : Composer Image) (name : Option Text)
      → IsSound c
      → Returns IsSound (outcome (complete_with c name))
  unfolding byte_len
  completed-IsSound c none h = h
  completed-IsSound c (some name) h =
      let new : Text = name ++ 32 ∷ [] in
      let (rest, e) = first_line_lem c.now.text in
      let done : replace_range 0 (byte_len (first_line c.now.text)) new c.now.text
          ≡ some (new ++ rest) =
        ap (replace_range 0 (byte_len (first_line c.now.text)) new) e
        ∙ ap (λ n. replace_range 0 n new (first_line c.now.text ++ rest)) (omega arith)
        ∙ replace_range_lem [] (first_line c.now.text) rest new in
      at_value (outcome (complete_with c (some name)))
        (record (detach_history c) {
          now = record c.now { text = new ++ rest; cursor = byte_len new };
          popup = new_popup;
        })
        (ap
          (λ r. outcome (
            r >>= λ t. some (
              true,
              record (detach_history c) {
                now = record c.now { text = t; cursor = byte_len new };
                popup = new_popup;
              },
            )))
          done)
        (detached-IsSound c (record c.now { text = new ++ rest; cursor = byte_len new }) new_popup h
          (h.draft_sound.0, (new, rest, refl, refl)))

  pub clear-IsSound : (c : Composer Image) → IsSound c → IsSound (clear c)
  unfolding clear
  clear-IsSound c h = record {
    draft_sound = (refl, front-IsBoundary []);
    entries_sound = h.entries_sound;
    kept_sound = tt;
    index_within = tt;
    entries_bounded = h.entries_bounded;
  }

  entry-Sound :
      (ds : List (Draft Image)) (i : ℕ)
      → AllSound ds
      → i < length ds
      → (d : Draft Image) × (get_elem? ds i ≡ some d) × Sound d
  unfolding AllSound
  entry-Sound [] i h l = absurd (omega arith)
  entry-Sound (d ∷ ds) zero h l = (d, refl, h.0)
  entry-Sound (d ∷ ds) (suc i) h l = entry-Sound ds i h.1 (omega arith)

  append-AllSound :
      (ds : List (Draft Image)) (d : Draft Image) → AllSound ds → Sound d → AllSound (ds ++ d ∷ [])
  unfolding AllSound
  append-AllSound [] d h s = (s, tt)
  append-AllSound (x ∷ xs) d h s = (h.0, append-AllSound xs d h.1 s)

  drop-AllSound : (ds : List (Draft Image)) → AllSound ds → AllSound (drop 1 ds)
  unfolding AllSound
  drop-AllSound [] h = h
  drop-AllSound (x ∷ xs) h = h.1

  abbrev Kept : List (Draft Image) → Type 0
  Kept ds = AllSound ds × (length ds ≤ 100)

  with_entry-Kept :
      (ds : List (Draft Image)) (d : Draft Image) → Kept ds → Sound d → Kept (with_entry ds d)
  with_entry-Kept ds d h s =
      let longer : AllSound (ds ++ d ∷ []) = append-AllSound ds d h.0 s in
      let one_more : length (ds ++ d ∷ []) ≡ length ds + 1 = length-append ds (d ∷ []) in
      if_cases Kept (ltb 100 (length (ds ++ d ∷ []))) (drop 1 (ds ++ d ∷ [])) (ds ++ d ∷ [])
        (λ more. (
          drop-AllSound (ds ++ d ∷ []) longer,
          let fewer : length (drop 1 (ds ++ d ∷ [])) ≡ length (ds ++ d ∷ []) - 1 =
                length-drop 1 (ds ++ d ∷ []) in
              omega (arith, fewer, one_more, h.1),
        ))
        (λ few. (longer, ltb→le 100 (length (ds ++ d ∷ [])) few))

  recorded-IsSound :
      (c : Composer Image) (d : Draft Image)
      → IsSound c
      → Sound d
      → IsSound (recorded c d c.history)
  recorded-IsSound c d h s =
      let kept : Kept (with_entry c.history d) =
        with_entry-Kept c.history d (h.entries_sound, h.entries_bounded) s in
      record {
        draft_sound = h.draft_sound;
        entries_sound = kept.0;
        kept_sound = tt;
        index_within = tt;
        entries_bounded = kept.1;
      }

  pub record_submitted-IsSound :
      (same_image : Image → Image → Bool) (text : Text) (c : Composer Image)
      → IsSound c
      → Returns IsSound (outcome (record_submitted same_image text c))
  unfolding record_submitted record_submitted_snapshot
  record_submitted-IsSound same_image text c h =
      let entry : Draft Image = record { text = text; cursor = byte_len text; images = [] } in
      if_cases (λ r. Returns IsSound (outcome r))
        ((is_empty (trim text) && length entry.images == 0)
          || matches_last same_image (back c.history) entry)
        (some (false, c)) (push_entry c entry) (λ e. h)
        (λ e. recorded-IsSound c entry h (refl, back-IsBoundary text))

  pub recall-IsSound :
      (c : Composer Image) (i : ℕ) (kept : Option (Draft Image))
      → IsSound c
      → i < length c.history
      → SoundIfKept kept
      → Returns IsSound (recall c i kept)
  unfolding dismiss_recalled_command
  recall-IsSound c i kept h l k =
      let (entry, e, s) = entry-Sound c.history i h.entries_sound l in
      let shown : Composer Image =
        dismiss_recalled_command
          (record c { now = entry; history_index = some i; history_draft = kept }) in
      at_value (recall c i kept) shown
        (ap
          (λ r. r >>= λ d. some (
            dismiss_recalled_command
              (record c { now = d; history_index = some i; history_draft = kept })))
          e)
        (record {
          draft_sound = s;
          entries_sound = h.entries_sound;
          kept_sound = k;
          index_within = l;
          entries_bounded = h.entries_bounded;
        })
