-- ===== src/Composer/Removals.antt =====
-- Removals keep the cursor on a boundary, crates/misy-tui/src/tui/composer.rs, in a draft without
-- images.
use misy.Common.{
  if_cases, ℕ, ◌+◌, ◌&&◌, none, some, [], ◌++◌, ◌≡◌, refl, sym, ap, ◌∙◌, subst, append_assoc, ltb,
  leb, ◌==◌,
}
use misy.Common.Texts.{Text}
use misy.Common.Utf8.{byte_len, ◌>>=◌, replace_range}
use misy.Common.Offsets.{byte_len-append}
use misy.Composer.{shift_for_remove, remove_before, remove_at, removed_found}
use misy.Composer.Edits.{
  Composer, last_start, previous_boundary, next_boundary, end_of_first, edited, remove_range,
  backspace, backspace_at, delete, delete_at, without_range, after_token,
}
use misy.Composer.Boundaries.{
  replace_range_lem, last_start_lem, previous_lem, next_lem, end_of_first_lem,
}
use misy.Composer.Edited.{IsSound, Returns, at_value, edited-IsSound, no_token}

module _ {Image : Type 0} where
  -- What lies between two boundaries is removed, and the cursor is where it began.
  remove_range-IsSound :
      (before cut after : Text) (start stop : ℕ) (c : Composer Image)
      → IsSound c
      → c.now.text ≡ before ++ (cut ++ after)
      → start ≡ byte_len before
      → stop ≡ byte_len before + byte_len cut
      → Returns IsSound (remove_range start stop c)
  unfolding remove_range shift_for_remove
  remove_range-IsSound before cut after start stop c h e k l =
      let done : replace_range start stop [] c.now.text ≡ some (before ++ after) =
        ap (λ n. replace_range n stop [] c.now.text) k
        ∙ ap (λ n. replace_range (byte_len before) n [] c.now.text) l
        ∙ ap (replace_range (byte_len before) (byte_len before + byte_len cut) []) e
        ∙ replace_range_lem before cut after [] in
      at_value (remove_range start stop c)
        (edited c (without_range c.now start stop (before ++ after)))
        (ap (λ r. r >>= λ t. some (edited c (without_range c.now start stop t))) done)
        (edited-IsSound c (without_range c.now start stop (before ++ after)) h
          (ap (shift_for_remove start stop) h.draft_sound.0, (before, after, refl, k)))

  backspace_at-IsSound : (c : Composer Image) → IsSound c → Returns IsSound (backspace_at c)
  unfolding backspace_at remove_before
  backspace_at-IsSound c h =
      let (before, after, e, k) = h.draft_sound.1 in
      let (kept, cut, e', k') = last_start_lem before in
      let no_image : remove_before c.now ≡ some none = ap (removed_found c.now) (
        no_token (λ a. ltb a.start c.now.cursor && leb c.now.cursor a.stop) c.now.images
          h.draft_sound.0) in
      let start : previous_boundary c.now.text c.now.cursor ≡ some (last_start before) =
        ap (previous_boundary c.now.text) k ∙ previous_lem c.now.text before after e in
      let same : backspace_at c ≡ remove_range (last_start before) c.now.cursor c =
        ap
          (λ r.
            r
            >>= after_token c
                (previous_boundary c.now.text c.now.cursor >>= λ n. remove_range n c.now.cursor c))
          no_image
        ∙ ap (λ r. r >>= λ n. remove_range n c.now.cursor c) start in
      subst (Returns IsSound) (sym same) (
        remove_range-IsSound kept cut after (last_start before) c.now.cursor c h
          (e ∙ ap (λ u. u ++ after) e' ∙ append_assoc kept cut after) k'
          (k ∙ ap byte_len e' ∙ byte_len-append kept cut))

  pub backspace-IsSound : (c : Composer Image) → IsSound c → Returns IsSound (backspace c)
  unfolding backspace
  backspace-IsSound c h =
      if_cases (Returns IsSound) (c.now.cursor == 0) (some c) (backspace_at c) (λ e. h)
        (λ e. backspace_at-IsSound c h)

  delete_at-IsSound : (c : Composer Image) → IsSound c → Returns IsSound (delete_at c)
  unfolding delete_at remove_at
  delete_at-IsSound c h =
      let (before, after, e, k) = h.draft_sound.1 in
      let (x, y, e', k') = end_of_first_lem c.now.text before after e in
      let stop : ℕ = end_of_first c.now.text (byte_len before) after in
      let no_image : remove_at c.now ≡ some none = ap (removed_found c.now) (
        no_token (λ a. leb a.start c.now.cursor && ltb c.now.cursor a.stop) c.now.images
          h.draft_sound.0) in
      let found : next_boundary c.now.text c.now.cursor ≡ some stop =
        ap (next_boundary c.now.text) k ∙ next_lem c.now.text before after e in
      let same : delete_at c ≡ remove_range c.now.cursor stop c =
        ap
          (λ r.
            r
            >>= after_token c
                (next_boundary c.now.text c.now.cursor >>= λ n. remove_range c.now.cursor n c))
          no_image
        ∙ ap (λ r. r >>= λ n. remove_range c.now.cursor n c) found in
      subst (Returns IsSound) (sym same)
        (remove_range-IsSound before x y c.now.cursor stop c h (e ∙ ap (λ u. before ++ u) e') k k')

  pub delete-IsSound : (c : Composer Image) → IsSound c → Returns IsSound (delete c)
  unfolding delete
  delete-IsSound c h =
      if_cases (Returns IsSound) (c.now.cursor == byte_len c.now.text) (some c) (delete_at c)
        (λ e. h) (λ e. delete_at-IsSound c h)
