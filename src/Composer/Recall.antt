-- ===== src/Composer/Recall.antt =====
-- The way through the history and back, crates/misy-tui/src/tui/composer.rs.
use misy.Common.{
  ℕ, zero, suc, ◌+◌, ◌-◌, ◌≤◌, ◌<◌, Bool, true, false, not, ◌&&◌, Option, none, some, List, [], ◌∷◌,
  length, get_elem?, ◌≡◌, refl, sym, ap, ◌∙◌, subst, ◌⊎◌, inl, inr, arith, ltb, ◌==◌, ==_iff,
}
use misy.Common.Utf8.{byte_len, ◌>>=◌}
use misy.Composer.{Draft}
use misy.Composer.Commands.{dismissed_popup}
use misy.Composer.Edits.{Composer}
use misy.Composer.History.{
  history_previous, history_next, dismiss_recalled_command, recall, recall_earlier, recall_later,
  earlier,
}

second_false : (b : Bool) → (b && false) ≡ false
second_false true = refl
second_false false = refl

present {ℓ} :
    {A : Type ℓ} (xs : List A) (i : ℕ) → i < length xs → (x : A) × (get_elem? xs i ≡ some x)
present [] i h = absurd (omega arith)
present (x ∷ xs) zero h = (x, refl)
present (x ∷ xs) (suc i) h = present xs i (omega arith)

module _ {Image : Type 0} where
  abbrev pub IsAtEnd : Draft Image → Type 0
  IsAtEnd d = d.cursor ≡ byte_len d.text

  -- Every entry of a history leaves the cursor at its end.
  unfoldable pub EndsAll : List (Draft Image) → Type 0
  EndsAll [] = Unit {0}
  EndsAll (d ∷ ds) = IsAtEnd d × EndsAll ds

  entry-IsAtEnd :
      (ds : List (Draft Image)) (i : ℕ) (d : Draft Image)
      → EndsAll ds
      → get_elem? ds i ≡ some d
      → IsAtEnd d
  unfolding EndsAll
  entry-IsAtEnd [] i d h e = absurd cc
  entry-IsAtEnd (x ∷ xs) zero d (h, more) e = let same : x ≡ d = cc in subst IsAtEnd same h
  entry-IsAtEnd (x ∷ xs) (suc i) d (h, more) e = entry-IsAtEnd xs i d more e

  abbrev pub previous : ℕ → Composer Image → Option (Composer Image)
  previous zero c = some c
  previous (suc n) c = previous n c >>= history_previous

  abbrev pub next : ℕ → Composer Image → Option (Composer Image)
  next zero c = some c
  next (suc n) c = history_next c >>= next n

  abbrev pub at_entry : Composer Image → ℕ → Draft Image → Composer Image
  at_entry c i entry = record {
    now = entry;
    history = c.history;
    history_index = some i;
    history_draft = some c.now;
    popup = dismissed_popup entry.text entry.cursor;
  }

  abbrev pub returned : Composer Image → Composer Image
  returned c = record c {
    history_index = none;
    history_draft = none;
    popup = dismissed_popup c.now.text c.now.cursor;
  }

  abbrev recalled : Composer Image → ℕ → Option (Draft Image) → Draft Image → Composer Image
  recalled c i kept entry = record {
    now = entry;
    history = c.history;
    history_index = some i;
    history_draft = kept;
    popup = dismissed_popup entry.text entry.cursor;
  }

  recall_lem :
      (c : Composer Image) (i : ℕ) (kept : Option (Draft Image)) (entry : Draft Image)
      → get_elem? c.history i ≡ some entry
      → recall c i kept ≡ some (recalled c i kept entry)
  unfolding dismiss_recalled_command
  recall_lem c i kept entry e = rw e refl

  -- A call that is not refused.
  previous_runs :
      (c : Composer Image)
      → (c.now.cursor ≡ 0) ⊎ IsAtEnd c.now
      → 0 < length c.history
      → history_previous c ≡ recall_earlier c (earlier c c.history_index)
  unfolding history_previous
  previous_runs c (inl h) n =
      let first : (c.now.cursor == 0) ≡ true = (==_iff _ _).1 h in
      let more : (length c.history == 0) ≡ false = ground arith in rw first (rw more refl)
  previous_runs c (inr h) n =
      let last : (c.now.cursor == byte_len c.now.text) ≡ true = (==_iff _ _).1 h in
      let more : (length c.history == 0) ≡ false = ground arith in
      rw (ap (λ b. not (c.now.cursor == 0) && not b) last ∙ second_false _) (rw more refl)

  next_runs : (c : Composer Image) → IsAtEnd c.now → history_next c ≡ recall_later c c.history_index
  unfolding history_next
  next_runs c h =
      let last : (c.now.cursor == byte_len c.now.text) ≡ true = (==_iff _ _).1 h in rw last refl

  module _ (c : Composer Image) where
    first_recall :
        (entry : Draft Image)
        → (c.now.cursor ≡ 0) ⊎ IsAtEnd c.now
        → 0 < length c.history
        → c.history_index ≡ none
        → get_elem? c.history (length c.history - 1) ≡ some entry
        → history_previous c ≡ some (at_entry c (length c.history - 1) entry)
    first_recall entry h n i e =
        previous_runs c h n
        ∙ ap (λ o. recall_earlier c (earlier c o)) i
        ∙ recall_lem c (length c.history - 1) (some c.now) entry e

    further_back :
        (i : ℕ) (entry entry' : Draft Image)
        → IsAtEnd entry'
        → 0 < length c.history
        → get_elem? c.history i ≡ some entry
        → history_previous (at_entry c (suc i) entry') ≡ some (at_entry c i entry)
    further_back i entry entry' h n e =
        previous_runs (at_entry c (suc i) entry') (inr h) n
        ∙ ap (λ j. recall (at_entry c (suc i) entry') j (some c.now)) (omega arith)
        ∙ recall_lem (at_entry c (suc i) entry') i (some c.now) entry e

    further_on :
        (i : ℕ) (entry entry' : Draft Image)
        → IsAtEnd entry
        → i + 1 < length c.history
        → get_elem? c.history (i + 1) ≡ some entry'
        → history_next (at_entry c i entry) ≡ some (at_entry c (i + 1) entry')
    further_on i entry entry' h n e =
        let more : ltb (i + 1) (length c.history) ≡ true = ground arith in
        next_runs (at_entry c i entry) h
        ∙ rw more (recall_lem (at_entry c i entry) (i + 1) (some c.now) entry' e)

    last_next :
        (i : ℕ) (entry : Draft Image)
        → IsAtEnd entry
        → length c.history ≤ i + 1
        → history_next (at_entry c i entry) ≡ some (returned c)
    unfolding dismiss_recalled_command
    last_next i entry h n =
        let end : ltb (i + 1) (length c.history) ≡ false = ground arith in
        next_runs (at_entry c i entry) h ∙ rw end refl

    module _ (edge : (c.now.cursor ≡ 0) ⊎ IsAtEnd c.now) (ends : EndsAll c.history)
        (index : c.history_index ≡ none) where
      abbrev nth_back : ℕ → ℕ
      nth_back k = length c.history - 1 - k

      abbrev RoundTrip : ℕ → Draft Image → Type 0
      RoundTrip k entry =
          (previous (suc k) c ≡ some (at_entry c (nth_back k) entry))
          × (next (suc k) (at_entry c (nth_back k) entry) ≡ some (returned c))

      one_further :
          (k i : ℕ) (entry entry' : Draft Image)
          → i + 1 < length c.history
          → nth_back k ≡ i + 1
          → get_elem? c.history i ≡ some entry
          → get_elem? c.history (nth_back k) ≡ some entry'
          → RoundTrip k entry'
          → (previous (suc (suc k)) c ≡ some (at_entry c i entry))
            × (next (suc (suc k)) (at_entry c i entry) ≡ some (returned c))
      one_further k i entry entry' h place e e' (there, back) =
          let ends' : IsAtEnd entry' = entry-IsAtEnd c.history (nth_back k) entry' ends e' in
          let ends'' : IsAtEnd entry = entry-IsAtEnd c.history i entry ends e in
          let from : nth_back k ≡ suc i = omega (arith, place) in
          (
            ap (λ r. r >>= history_previous) there
                ∙ ap (λ j. history_previous (at_entry c j entry')) from
                ∙ further_back i entry entry' ends' (omega (arith, h)) e,
            ap (λ r. r >>= next (suc k))
                  (further_on i entry entry' ends'' h (ap (get_elem? c.history) (sym place) ∙ e'))
                ∙ ap (λ j. next (suc k) (at_entry c j entry')) (sym place)
                ∙ back,
          )

      round_trip :
          (k : ℕ) (entry : Draft Image)
          → k < length c.history
          → get_elem? c.history (nth_back k) ≡ some entry
          → RoundTrip k entry
      round_trip zero entry h e =
          let place : nth_back 0 ≡ length c.history - 1 = omega arith in
          (
            subst (λ j. history_previous c ≡ some (at_entry c j entry)) (sym place)
                (first_recall entry edge h index (ap (get_elem? c.history) (sym place) ∙ e)),
            ap (λ r. r >>= next 0)
                (last_next (nth_back 0) entry (entry-IsAtEnd c.history (nth_back 0) entry ends e)
                  (omega arith)),
          )
      round_trip (suc k) entry h e =
          let (entry', e') = present c.history (nth_back k) (omega (arith, h)) in
          one_further k (nth_back (suc k)) entry entry' (omega (arith, h)) (omega (arith, h)) e e'
            (round_trip k entry' (omega (arith, h)) e')

  -- From a composer that is not in its history, with the cursor at an edge of the text, and a
  -- history whose entries leave the cursor at their end: for any k below the length of the history,
  -- k + 1 steps back show the entry that is the k-th from the end, counted from 0, and k + 1 steps
  -- on give back the text, the cursor, the images and the history; only the popup is
  -- reset, dismissed for the command that is typed.
  pub next-previous :
      (c : Composer Image) (k : ℕ)
      → (c.now.cursor ≡ 0) ⊎ IsAtEnd c.now
      → EndsAll c.history
      → c.history_index ≡ none
      → k < length c.history
      → (entry : Draft Image) × (get_elem? c.history (length c.history - 1 - k) ≡ some entry)
        × (previous (suc k) c ≡ some (at_entry c (length c.history - 1 - k) entry))
        × (next (suc k) (at_entry c (length c.history - 1 - k) entry) ≡ some (returned c))
  next-previous c k edge ends index h =
      let (entry, e) = present c.history (length c.history - 1 - k) (omega (arith, h)) in
      let (there, back) = round_trip c edge ends index k entry h e in (entry, e, there, back)
