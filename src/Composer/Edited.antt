-- ===== src/Composer/Edited.antt =====
-- Edits and moves keep the cursor on a boundary, crates/misy-tui/src/tui/composer.rs, in a draft
-- without images.
use misy.Common.{
  ℕ, ◌+◌, ◌≤◌, ◌<◌, Bool, Option, none, some, List, [], ◌∷◌, ◌++◌, length, ◌≡◌, sym, ap, ◌∙◌, subst,
  append_assoc, ◌==◌,
}
use misy.Common.Texts.{Text}
use misy.Common.Utf8.{byte_len, ◌>>=◌, insert_at}
use misy.Common.Offsets.{byte_len-append}
use misy.Composer.{AttachedImage, Draft, shift_for_insert, position}
use misy.Composer.Edits.{
  Composer, last_start, previous_boundary, next_boundary, end_of_first, previous_cursor,
  next_cursor, sync_popup_after_edit, detach_history, edited, insert_str, at_cursor, move_left,
  move_right, start_or, stop_or, with_text,
}
use misy.Composer.Boundaries.{
  IsBoundary, insert_at_lem, last_start_lem, previous_lem, next_lem, end_of_first_lem,
}

abbrev pub Within : Option ℕ → ℕ → Type 0
Within none n = Unit {0}
Within (some i) n = i < n

module _ {Image : Type 0} where
  -- A draft without images whose cursor is between two characters.
  abbrev pub Sound : Draft Image → Type 0
  Sound d = (d.images ≡ []) × IsBoundary d.text d.cursor

  unfoldable pub AllSound : List (Draft Image) → Type 0
  AllSound [] = Unit {0}
  AllSound (d ∷ ds) = Sound d × AllSound ds

  abbrev pub SoundIfKept : Option (Draft Image) → Type 0
  SoundIfKept none = Unit {0}
  SoundIfKept (some d) = Sound d

  pub record IsSound (c : Composer Image) : Type 0 where
    pub draft_sound : Sound c.now
    pub entries_sound : AllSound c.history
    pub kept_sound : SoundIfKept c.history_draft
    pub index_within : Within c.history_index (length c.history)
    pub entries_bounded : length c.history ≤ 100

  abbrev pub Returns : (Composer Image → Type 0) → Option (Composer Image) → Type 0
  Returns P none = ⊥
  Returns P (some c) = P c

  pub at_value :
      (o : Option (Composer Image)) (c : Composer Image)
      → o ≡ some c
      → IsSound c
      → Returns IsSound o
  at_value o c e h = subst (Returns IsSound) (sym e) h

  pub edited-IsSound :
      (c : Composer Image) (d : Draft Image) → IsSound c → Sound d → IsSound (edited c d)
  unfolding sync_popup_after_edit detach_history
  edited-IsSound c d h s = record {
    draft_sound = s;
    entries_sound = h.entries_sound;
    kept_sound = tt;
    index_within = tt;
    entries_bounded = h.entries_bounded;
  }

  pub at_cursor-IsSound :
      (c : Composer Image) (n : ℕ) → IsSound c → IsBoundary c.now.text n → IsSound (at_cursor n c)
  at_cursor-IsSound c n h b = record {
    draft_sound = (h.draft_sound.0, b);
    entries_sound = h.entries_sound;
    kept_sound = h.kept_sound;
    index_within = h.index_within;
    entries_bounded = h.entries_bounded;
  }

  pub insert_str-IsSound :
      (new : Text) (c : Composer Image) → IsSound c → Returns IsSound (insert_str new c)
  unfolding insert_str shift_for_insert
  insert_str-IsSound new c h =
      let (before, after, e, k) = h.draft_sound.1 in
      let text : Text = before ++ (new ++ after) in
      let done : insert_at c.now.cursor new c.now.text ≡ some text =
        ap (λ n. insert_at n new c.now.text) k
        ∙ ap (insert_at (byte_len before) new) e
        ∙ insert_at_lem before after new in
      at_value (insert_str new c) (edited c (with_text c.now new text))
        (ap (λ r. r >>= λ t. some (edited c (with_text c.now new t))) done)
        (edited-IsSound c (with_text c.now new text) h (
          ap (shift_for_insert c.now.cursor (byte_len new)) h.draft_sound.0,
          (
            before ++ new,
            after,
            sym (append_assoc before new after),
            ap (λ n. n + byte_len new) k ∙ sym (byte_len-append before new),
          ),
        ))

  -- Without images the cursor moves by characters.
  pub no_token :
      (p : AttachedImage Image → Bool) (images : List (AttachedImage Image))
      → images ≡ []
      → position p images ≡ none
  unfolding position
  no_token p images e = ap (position p) e

  pub move_left-IsSound : (c : Composer Image) → IsSound c → Returns IsSound (move_left c)
  unfolding move_left previous_cursor
  move_left-IsSound c h =
      let (before, after, e, k) = h.draft_sound.1 in
      let (kept, cut, e', k') = last_start_lem before in
      let found : previous_cursor c.now.images c.now.text c.now.cursor ≡ some (last_start before) =
        ap (start_or (previous_boundary c.now.text c.now.cursor))
          (no_token (λ a. a.stop == c.now.cursor) c.now.images h.draft_sound.0)
        ∙ ap (previous_boundary c.now.text) k
        ∙ previous_lem c.now.text before after e in
      at_value (move_left c) (at_cursor (last_start before) c)
        (ap (λ r. r >>= λ n. some (at_cursor n c)) found)
        (at_cursor-IsSound c (last_start before) h
          (kept, cut ++ after, e ∙ ap (λ u. u ++ after) e' ∙ append_assoc kept cut after, k'))

  pub move_right-IsSound : (c : Composer Image) → IsSound c → Returns IsSound (move_right c)
  unfolding move_right next_cursor
  move_right-IsSound c h =
      let (before, after, e, k) = h.draft_sound.1 in
      let (x, y, e', k') = end_of_first_lem c.now.text before after e in
      let found : next_cursor c.now.images c.now.text c.now.cursor
          ≡ some (end_of_first c.now.text (byte_len before) after) =
        ap (stop_or (next_boundary c.now.text c.now.cursor))
          (no_token (λ a. a.start == c.now.cursor) c.now.images h.draft_sound.0)
        ∙ ap (next_boundary c.now.text) k
        ∙ next_lem c.now.text before after e in
      at_value (move_right c) (at_cursor (end_of_first c.now.text (byte_len before) after) c)
        (ap (λ r. r >>= λ n. some (at_cursor n c)) found)
        (at_cursor-IsSound c (end_of_first c.now.text (byte_len before) after) h (
          before ++ x,
          y,
          e ∙ ap (λ u. before ++ u) e' ∙ sym (append_assoc before x y),
          k' ∙ sym (byte_len-append before x),
        ))
