-- ===== src/Dialog/Finishing.antt =====
-- A page that is finished is in order, crates/misy-tui/src/tui/question_dialog.rs.
use misy.Common.{if_cases, Bool, true, false, [], ◌≡◌, refl, sym, ◌∙◌, length, arith}
use misy.Questions.{QuestionItem}
use misy.Dialog.{
  QuestionPage, blank, cursor_is_other, Confirmed, stays, finishes, own_answer, one_choice,
  none_chosen, confirm_page,
}
use misy.Dialog.Pages.{AllBelow, PageOk}

-- A page that stays is in order, and one that is finished is complete as well.
abbrev pub ConfirmedOk : QuestionItem → Confirmed → Type 0
ConfirmedOk q (stays p) = PageOk q p
ConfirmedOk q (finishes p) = PageOk q p × (p.complete ≡ true)

own_answer-Ok :
    (q : QuestionItem) (p : QuestionPage) (editing : Bool)
    → editing ≡ false
    → blank p.other_draft ≡ false
    → PageOk q p
    → PageOk q (own_answer q p editing)
own_answer-Ok q p editing e b v = record {
  cursor = v.cursor;
  selected =
      if_cases (AllBelow (length q.options)) q.multi_select p.selected [] (λ m. v.selected)
        (λ m. tt);
  filled = λ c. ground arith;
  written = λ one o. (e, b);
}

edited-Ok :
    (q : QuestionItem) (p : QuestionPage)
    → blank p.other_draft ≡ true
    → PageOk q p
    → PageOk q (record p { editing_other = true })
edited-Ok q p b v = record {
  cursor = v.cursor;
  selected = v.selected;
  filled = v.filled;
  written = λ one o. let w = v.written one o in let clash : true ≡ false = sym b ∙ w.1 in cc;
}

one_choice-Ok :
    (q : QuestionItem) (p : QuestionPage)
    → cursor_is_other q p ≡ false
    → PageOk q p
    → PageOk q (one_choice p)
one_choice-Ok q p e v = record {
  cursor = v.cursor;
  selected = (ground (arith, v.cursor, e), tt);
  filled = λ c. refl;
  written = λ one o. cc;
}

completed-Ok :
    (q : QuestionItem) (p : QuestionPage)
    → none_chosen p ≡ false
    → PageOk q p
    → PageOk q (record p { complete = true })
completed-Ok q p n v = record {
  cursor = v.cursor;
  selected = v.selected;
  filled = λ c. n;
  written = v.written;
}

pub confirm_page-Ok :
    (q : QuestionItem) (p : QuestionPage) → PageOk q p → ConfirmedOk q (confirm_page q p)
unfolding confirm_page
confirm_page-Ok q p v =
    if_cases (ConfirmedOk q) p.editing_other _ _
      (λ e.
        if_cases (ConfirmedOk q) (blank p.other_draft) _ _ (λ b. v)
          (λ b. (own_answer-Ok q p false refl b v, refl)))
      (λ e.
        if_cases (ConfirmedOk q) (cursor_is_other q p) _ _
          (λ o.
            if_cases (ConfirmedOk q) (blank p.other_draft) _ _ (λ b. edited-Ok q p b v)
              (λ b. (own_answer-Ok q p p.editing_other e b v, refl)))
          (λ o.
            if_cases (ConfirmedOk q) q.multi_select _ _
              (λ m.
                if_cases (ConfirmedOk q) (none_chosen p) _ _ (λ n. v)
                  (λ n. (completed-Ok q p n v, refl)))
              (λ m. (one_choice-Ok q p o v, refl))))

-- The page of an index, and the pages when it is changed.
