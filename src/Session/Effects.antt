-- ===== src/Session/Effects.antt =====
-- What each record of crates/misy-core/src/core/session.rs does to the conversation that is read back,
-- beside what crates/misy-core/src/core/compaction.rs does to the live one.
use misy.Common.{
  ℕ, zero, suc, ◌+◌, ◌-◌, ◌≤◌, ◌<◌, Option, List, [], ◌∷◌, ◌++◌, ◌≡◌, refl, sym, ap, ◌∙◌, inl, inr,
  Bool-cases, subst, length, drop, leb, map, map-append, append_assoc, arith, drop-append, drop_all,
  drop-drop, length-append, length-drop, leb→le, leb→lt,
}
use misy.Common.Texts.{Text}
use misy.Session.{
  ModelRef, TodoItem, CompactionCheckpoint, HistoryEntry, history_entry, model_change,
  thinking_change, compaction, todo_list_update,
}
use misy.Session.Load.{Loaded, load_record, summary_entry, projected_history}
use misy.Session.Live.{clear_images, without_images}
use misy.Session.Compact.{projected, kept_index}
use misy.Session.Saved.{Tail, Matches}
use misy.Transcript.{ToolResult}

module _ {A B : Type 0} where
  drop-map : (f : A → B) (n : ℕ) (xs : List A) → map f (drop n xs) ≡ drop n (map f xs)
  drop-map f zero xs = refl
  drop-map f (suc n) [] = refl
  drop-map f (suc n) (x ∷ xs) = drop-map f n xs

  length-map : (f : A → B) (xs : List A) → length (map f xs) ≡ length xs
  length-map f [] = refl
  length-map f (x ∷ xs) = ap suc (length-map f xs)

module _ {A : Type 0} where
  -- Entries behind the first ones, which are one at most: what is left of a list stands at its end.
  drop_suffix :
      (n k : ℕ) (head xs : List A)
      → length head ≤ 1
      → k ≤ length xs
      → 1 ≤ n
      → drop n (head ++ drop k xs) ≡ drop (length xs - (length (head ++ drop k xs) - n)) xs
  drop_suffix n k head xs one w p =
      let total : length (head ++ drop k xs) ≡ length head + (length xs - k) =
        length-append head (drop k xs) ∙ ap (λ v. length head + v) (length-drop k xs) in
      elim (Bool-cases (leb n (length (head ++ drop k xs)))) [
        | inl e ↦
            let le : n ≤ length (head ++ drop k xs) = leb→le n (length (head ++ drop k xs)) e in
            let place : k + (n - length head) ≡ length xs - (length (head ++ drop k xs) - n) =
              omega arith in
            drop-append n head (drop k xs)
            ∙ ap (λ v. v ++ drop (n - length head) (drop k xs)) (drop_all n head (omega arith))
            ∙ drop-drop (n - length head) k xs
            ∙ ap (λ i. drop i xs) place
        | inr e ↦
            let lt : length (head ++ drop k xs) < n = leb→lt n (length (head ++ drop k xs)) e in
            drop_all n (head ++ drop k xs) (omega arith)
            ∙ sym (drop_all (length xs - (length (head ++ drop k xs) - n)) xs (omega arith))
      ]

without_images_twice :
    {Image : Type 0} (rs : List (ToolResult Image))
    → map without_images (map without_images rs) ≡ map without_images rs
without_images_twice [] = refl
without_images_twice (r ∷ rs) = ap (λ v. without_images r ∷ v) (without_images_twice rs)

module _ {Json Image : Type 0} where
  pub Tail-append :
      (h a : List (HistoryEntry Json Image)) (e : HistoryEntry Json Image)
      → Tail h a
      → Tail (h ++ e ∷ []) (a ++ e ∷ [])
  Tail-append h a e v = record {
    head = v.head;
    start = v.start;
    tail =
        let past : v.start - length h ≡ 0 = omega (arith, v.within) in
        ap (λ w. w ++ e ∷ []) v.tail
        ∙ append_assoc v.head (drop v.start h) (e ∷ [])
        ∙ ap (λ w. v.head ++ w)
            (sym
              (drop-append v.start h (e ∷ []) ∙ ap (λ i. drop v.start h ++ drop i (e ∷ [])) past));
    short = v.short;
    within = omega (arith, v.within, length-append h (e ∷ []));
  }

  -- What compaction keeps is as long in what was read as in the live entries.
  pub kept_entries :
      (h a : List (HistoryEntry Json Image)) (n : ℕ)
      → Tail h a
      → drop (kept_index (length h) (length a) (suc n)) h ≡ drop (suc n) a
  kept_entries h a n v =
      subst (λ b. drop (kept_index (length h) (length b) (suc n)) h ≡ drop (suc n) b) (sym v.tail)
        (sym (drop_suffix (suc n) v.start v.head h v.short v.within (omega arith)))

  pub same_length :
      (a b : List (HistoryEntry Json Image))
      → map clear_images a ≡ map clear_images b
      → length a ≡ length b
  same_length a b e = sym (length-map clear_images a) ∙ ap length e ∙ length-map clear_images b

  pub clear_images_twice :
      (es : List (HistoryEntry Json Image))
      → map clear_images (map clear_images es) ≡ map clear_images es
  clear_images_twice [] = refl
  clear_images_twice (e ∷ es) = rw (clear_images_twice es, without_images_twice e.tool_results)

module _ {Json Image : Type 0} (null : Json) (h a : List (HistoryEntry Json Image))
    (t : List TodoItem) (l : Loaded Json Image) (m : Matches h a t l) where
  pub history_entry-Matches :
      (e : HistoryEntry Json Image)
      → Matches (h ++ e ∷ []) (a ++ e ∷ []) t (load_record null l (history_entry e))
  unfolding load_record
  history_entry-Matches e = record {
    history = ap (λ v. v ++ e ∷ []) m.history;
    active = rw (
      map-append clear_images l.active_history (e ∷ []),
      map-append clear_images a (e ∷ []),
      m.active,
    );
    todos = m.todos;
    tail = Tail-append l.history l.active_history e m.tail;
  }

  pub model_change-Matches :
      (model : ModelRef) (thinking : Option Text)
      → Matches h a t (load_record null l (model_change model thinking))
  unfolding load_record
  model_change-Matches model thinking = record {
    history = m.history;
    active = m.active;
    todos = m.todos;
    tail = m.tail;
  }

  pub thinking_change-Matches :
      (thinking : Option Text) → Matches h a t (load_record null l (thinking_change thinking))
  unfolding load_record
  thinking_change-Matches thinking = record {
    history = m.history;
    active = m.active;
    todos = m.todos;
    tail = m.tail;
  }

  pub todo_list_update-Matches :
      (todos : List TodoItem) → Matches h a todos (load_record null l (todo_list_update todos))
  unfolding load_record
  todo_list_update-Matches todos = record {
    history = m.history;
    active = m.active;
    todos = refl;
    tail = m.tail;
  }

  pub compaction-Matches :
      (n : ℕ) (c : CompactionCheckpoint)
      → c.first_kept_index ≡ kept_index (length h) (length a) (suc n)
      → Matches h (projected null a (suc n) c.summary) t (load_record null l (compaction c))
  unfolding load_record projected_history summary_entry
  compaction-Matches n c e =
      let index : c.first_kept_index
          ≡ kept_index (length l.history) (length l.active_history) (suc n) =
        e
        ∙ ap (λ v. kept_index (length v) (length a) (suc n)) (sym m.history)
        ∙ ap (λ v. kept_index (length l.history) v (suc n))
            (sym (same_length l.active_history a m.active)) in
      record {
        history = m.history;
        active =
            ap (λ v. summary_entry null c.summary ∷ v)
              (ap (λ i. map clear_images (drop i l.history)) index
                ∙ ap (map clear_images) (kept_entries l.history l.active_history n m.tail)
                ∙ drop-map clear_images (suc n) l.active_history
                ∙ ap (drop (suc n)) m.active
                ∙ sym (drop-map clear_images (suc n) a));
        todos = m.todos;
        tail = record {
          head = summary_entry null c.summary ∷ [];
          start = c.first_kept_index;
          tail = refl;
          short = omega arith;
          within = omega (arith, index);
        };
      }
