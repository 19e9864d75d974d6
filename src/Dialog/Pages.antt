-- ===== src/Dialog/Pages.antt =====
-- The pages of a dialog beside their questions, crates/misy-tui/src/tui/question_dialog.rs.
use misy.Common.{
  if_cases, ◌++◌, ℕ, zero, suc, ◌+◌, ◌≤◌, ◌<◌, max, true, false, ◌&&◌, some, List, [], ◌∷◌, ◌≡◌,
  refl, sym, ap, ◌∙◌, inl, inr, Bool-cases, length, get_elem?, ◌==◌, if◌then◌else◌, arith, map,
}
use native.Mathlib.Nat.{mod-lt}
use misy.Common.Texts.{Text, text_eq}
use misy.Questions.{QuestionItem}
use misy.Dialog.{
  QuestionPage, new_page, holds, without, blank, row_count, cursor_is_other, page_up, page_down,
  toggled_option, toggle_current, space_text, type_text, erase, pop, none_chosen, set_elem, both,
}

abbrev pub AllBelow : ℕ → List ℕ → Type 0
AllBelow n [] = Unit {0}
AllBelow n (m ∷ ms) = (m < n) × AllBelow n ms

-- The cursor is on a row and the choices are options; a complete page has an answer. Where one
-- choice is asked for, an answer of one's own that counts is not blank and not being edited.
pub record PageOk (q : QuestionItem) (p : QuestionPage) : Type 0 where
  pub cursor : p.cursor ≤ length q.options
  pub selected : AllBelow (length q.options) p.selected
  pub filled : p.complete ≡ true → none_chosen p ≡ false
  pub written :
      q.multi_select ≡ false
      → p.other_selected ≡ true
      → (p.editing_other ≡ false) × (blank p.other_draft ≡ false)

abbrev pub PagesOk : List QuestionItem → List QuestionPage → Type 0
PagesOk [] [] = Unit {0}
PagesOk [] (p ∷ ps) = ⊥
PagesOk (q ∷ qs) [] = ⊥
PagesOk (q ∷ qs) (p ∷ ps) = PageOk q p × PagesOk qs ps

without-AllBelow : (n k : ℕ) (ms : List ℕ) → AllBelow n ms → AllBelow n (without k ms)
without-AllBelow n k [] h = tt
without-AllBelow n k (m ∷ ms) h = elim (Bool-cases (k == m)) [
  | inl e ↦ rw e (without-AllBelow n k ms h.1)
  | inr e ↦ rw e (h.0, without-AllBelow n k ms h.1)
]

new_page-Ok : (q : QuestionItem) → PageOk q new_page
new_page-Ok q = record {
  cursor = omega arith;
  selected = tt;
  filled = λ e. cc;
  written = λ m e. cc;
}

pub new_pages-Ok : (qs : List QuestionItem) → PagesOk qs (map (λ q. new_page) qs)
new_pages-Ok [] = tt
new_pages-Ok (q ∷ qs) = (new_page-Ok q, new_pages-Ok qs)

pub page_up-Ok : (q : QuestionItem) (p : QuestionPage) → PageOk q p → PageOk q (page_up q p)
unfolding page_up
page_up-Ok q p v = record {
  cursor = ground (arith, v.cursor);
  selected = v.selected;
  filled = v.filled;
  written = v.written;
}

pub page_down-Ok : (q : QuestionItem) (p : QuestionPage) → PageOk q p → PageOk q (page_down q p)
unfolding page_down
page_down-Ok q p v = record {
  cursor =
      let rows : 0 < max (row_count q) 1 = omega arith in
      let low = mod-lt (p.cursor + 1) rows in omega (arith, low);
  selected = v.selected;
  filled = v.filled;
  written = v.written;
}

toggled_option-Ok :
    (q : QuestionItem) (p : QuestionPage)
    → q.multi_select ≡ true
    → cursor_is_other q p ≡ false
    → PageOk q p
    → PageOk q (toggled_option p)
toggled_option-Ok q p m e v = record {
  cursor = v.cursor;
  selected =
      let inside : p.cursor < length q.options = ground (arith, v.cursor, e) in
      elim (Bool-cases (holds p.cursor p.selected)) [
        | inl x ↦ rw x (without-AllBelow (length q.options) p.cursor p.selected v.selected)
        | inr x ↦ rw x (inside, v.selected)
      ];
  filled = λ c. cc;
  written = λ one o. let clash : true ≡ false = sym m ∙ one in cc;
}

pub toggle_current-Ok :
    (q : QuestionItem) (p : QuestionPage)
    → q.multi_select ≡ true
    → PageOk q p
    → PageOk q (toggle_current q p)
unfolding toggle_current
toggle_current-Ok q p m v = elim (Bool-cases (cursor_is_other q p)) [
  | inl e ↦ rw e (record {
    cursor = v.cursor;
    selected = v.selected;
    filled = λ c. cc;
    written = λ one o. let clash : true ≡ false = sym m ∙ one in cc;
  })
  | inr e ↦ rw e (toggled_option-Ok q p m e v)
]

-- The draft of a page that is being edited.
drafted-Ok :
    (q : QuestionItem) (p : QuestionPage) (t : Text)
    → p.editing_other ≡ true
    → PageOk q p
    → PageOk q (record p { other_draft = t })
drafted-Ok q p t e v = record {
  cursor = v.cursor;
  selected = v.selected;
  filled = v.filled;
  written = λ one o. let w = v.written one o in let clash : true ≡ false = sym e ∙ w.0 in cc;
}

pub erase-Ok : (q : QuestionItem) (p : QuestionPage) → PageOk q p → PageOk q (erase q p)
unfolding erase
erase-Ok q p v =
    if_cases (PageOk q) p.editing_other (record p { other_draft = pop p.other_draft }) p
      (λ e. drafted-Ok q p (pop p.other_draft) e v) (λ e. v)

pub type_text-Ok :
    (text : Text) (q : QuestionItem) (p : QuestionPage) → PageOk q p → PageOk q (type_text text q p)
unfolding type_text
type_text-Ok text q p v =
    if_cases (PageOk q) p.editing_other (record p { other_draft = p.other_draft ++ text })
      (if text_eq text space_text && q.multi_select then toggle_current q p else p)
      (λ e. drafted-Ok q p (p.other_draft ++ text) e v)
      (λ e.
        if_cases (PageOk q) (text_eq text space_text && q.multi_select) (toggle_current q p) p
          (λ m. toggle_current-Ok q p (ground arith) v) (λ m. v))

pub record Focus (qs : List QuestionItem) (ps : List QuestionPage) (i : ℕ) : Type 0 where
  pub question : QuestionItem
  pub page : QuestionPage
  pub found : both (get_elem? qs i) (get_elem? ps i) ≡ some (question, page)
  pub ok : PageOk question page
  pub put : (p : QuestionPage) → PageOk question p → PagesOk qs (set_elem ps i p)

pub Focus-at :
    (qs : List QuestionItem) (ps : List QuestionPage) (i : ℕ)
    → PagesOk qs ps
    → i < length ps
    → Focus qs ps i
Focus-at qs [] i v h = absurd (omega arith)
Focus-at [] (p ∷ ps) i v h = absurd v
Focus-at (q ∷ qs) (p ∷ ps) zero v h = record {
  question = q;
  page = p;
  found = refl;
  ok = v.0;
  put = λ r o. (o, v.1);
}
Focus-at (q ∷ qs) (p ∷ ps) (suc i) v h =
    let f = Focus-at qs ps i v.1 (omega arith) in
    record {
      question = f.question;
      page = f.page;
      found = f.found;
      ok = f.ok;
      put = λ r o. (v.0, f.put r o);
    }

pub length-set_elem :
    {A : Type 0} (xs : List A) (i : ℕ) (y : A) → length (set_elem xs i y) ≡ length xs
length-set_elem [] i y = refl
length-set_elem (x ∷ xs) zero y = refl
length-set_elem (x ∷ xs) (suc i) y = ap suc (length-set_elem xs i y)
