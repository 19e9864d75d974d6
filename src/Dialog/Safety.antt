-- ===== src/Dialog/Safety.antt =====
-- No call of the dialog leaves its indices out of range, crates/misy-tui/src/tui/question_dialog.rs.
use misy.Common.{
  if_cases, ℕ, zero, suc, ◌+◌, ◌<◌, max, Bool, true, false, ◌&&◌, Option, none, some, List, ◌≡◌,
  refl, sym, ap, subst, ◌∙◌, length, get_elem?, leb, ◌==◌, ltb, if◌then◌else◌, arith,
}
use native.Mathlib.Nat.{mod-lt}
use misy.Questions.{QuestionItem, QuestionRequest}
use misy.Dialog.{
  QuestionPage, QuestionDialog, row_count, set_elem, is_submit_page, tab_count, both, focus,
  put_page,
}
use misy.Dialog.Calls.{
  on_focus, on_page, tab_left, tab_right, select_in, select_index, select_number, leave_in, escape,
}
use misy.Dialog.Pages.{PageOk, PagesOk, Focus, Focus-at, length-set_elem}

-- A page for each question, one at least, and a tab in front that is there.
pub record WellFormed (request : QuestionRequest) (d : QuestionDialog) : Type 0 where
  pub same : d.request ≡ request
  pub fits : PagesOk request.questions d.pages
  pub some_page : 0 < length d.pages
  pub within : d.active < tab_count d

-- A call that panics has no value.
abbrev pub Returns : {A : Type 0} → (A → Type 0) → Option A → Type 0
Returns P none = ⊥
Returns P (some a) = P a

module _ (request : QuestionRequest) where
  abbrev pub Ok : QuestionDialog → Type 0
  Ok = WellFormed request

  -- The page in front, when it is not the one to submit on.
  pub in_front :
      (d : QuestionDialog)
      → Ok d
      → is_submit_page d ≡ false
      → Focus request.questions d.pages d.active
  unfolding is_submit_page
  in_front d v e = Focus-at request.questions d.pages d.active v.fits (ground (arith, v.within, e))

  put_page-Ok :
      (d : QuestionDialog) (ps : List QuestionPage)
      → Ok d
      → length ps ≡ length d.pages
      → PagesOk request.questions ps
      → Ok (record d { pages = ps })
  put_page-Ok d ps v l f = record {
    same = v.same;
    fits = f;
    some_page = omega (arith, l, v.some_page);
    within = subst (λ n. d.active < n + (if ltb 1 n then 1 else 0)) (sym l) v.within;
  }

  pub focused :
      (d : QuestionDialog) (v : Ok d) (f : Focus request.questions d.pages d.active)
      → focus d ≡ some (f.question, f.page)
  unfolding focus
  focused d v f =
      ap (λ r. both (get_elem? r.questions d.active) (get_elem? d.pages d.active)) v.same ∙ f.found

  -- The dialog with the page in front replaced by one in order.
  pub put-Ok :
      (d : QuestionDialog) (f : Focus request.questions d.pages d.active) (p : QuestionPage)
      → Ok d
      → PageOk f.question p
      → Ok (put_page d p)
  put-Ok d f p v o =
      put_page-Ok d (set_elem d.pages d.active p) v (length-set_elem d.pages d.active p) (f.put p o)

  pub on_page-Ok :
      (change : QuestionItem → QuestionPage → QuestionPage)
      → ((q : QuestionItem) (p : QuestionPage) → PageOk q p → PageOk q (change q p))
      → (d : QuestionDialog) → Ok d
      → Returns Ok (on_page change d)
  unfolding on_page
  on_page-Ok change keeps d v =
      if_cases (Returns Ok) (is_submit_page d) (some d) _ (λ e. v)
        (λ e.
          let f = in_front d v e in
          subst (λ o. Returns Ok (on_focus change d o)) (sym (focused d v f))
            (put-Ok d f (change f.question f.page) v (keeps f.question f.page f.ok)))

  pub tab_left-Ok : (d : QuestionDialog) → Ok d → Ok (tab_left d)
  unfolding tab_left
  tab_left-Ok d v = record {
    same = v.same;
    fits = v.fits;
    some_page = v.some_page;
    within = ground (arith, v.within, v.some_page);
  }

  pub tab_right-Ok : (d : QuestionDialog) → Ok d → Ok (tab_right d)
  unfolding tab_right
  tab_right-Ok d v = record {
    same = v.same;
    fits = v.fits;
    some_page = v.some_page;
    within =
        let tabs : 0 < max (tab_count d) 1 = omega arith in
        let low = mod-lt (d.active + 1) tabs in omega (arith, low, v.within);
  }

  -- A row that was selected is on a page.
  abbrev pub Selects : QuestionDialog × Bool → Type 0
  Selects r = Ok r.0 × (r.1 ≡ true → is_submit_page r.0 ≡ false)

  same_place :
      (d : QuestionDialog) (p : QuestionPage)
      → is_submit_page d ≡ false
      → is_submit_page (put_page d p) ≡ false
  unfolding is_submit_page
  same_place d p e =
      subst (λ n. (ltb 1 n && (d.active == n)) ≡ false) (sym (length-set_elem d.pages d.active p)) e

  select_index-Ok :
      (n : ℕ) (d : QuestionDialog)
      → Ok d
      → is_submit_page d ≡ false
      → Returns Selects (select_index n d)
  select_index-Ok zero d v e = (v, λ t. e)
  select_index-Ok (suc index) d v e =
      let f = in_front d v e in
      subst (λ o. Returns Selects (select_in index d o)) (sym (focused d v f))
        (if_cases (Returns Selects) (leb (row_count f.question) index) _ _ (λ out. (v, λ t. e))
          (λ in_range. (
            put-Ok d f (record f.page { cursor = index }) v
                (record {
                  cursor = ground (arith, in_range);
                  selected = f.ok.selected;
                  filled = f.ok.filled;
                  written = f.ok.written;
                }),
            λ t. same_place d (record f.page { cursor = index }) e,
          )))

  pub select_number-Ok : (n : ℕ) (d : QuestionDialog) → Ok d → Returns Selects (select_number n d)
  unfolding select_number
  select_number-Ok n d v =
      if_cases (Returns Selects) (is_submit_page d) _ _ (λ e. (v, λ t. cc))
        (λ e. select_index-Ok n d v e)

  pub escape-Ok : (d : QuestionDialog) → Ok d → Returns (λ r. Ok r.0) (escape d)
  unfolding escape
  escape-Ok d v =
      if_cases (Returns (λ r. Ok r.0)) (is_submit_page d) _ _ (λ e. v)
        (λ e.
          let f = in_front d v e in
          subst (λ o. Returns (λ r. Ok r.0) (leave_in d o)) (sym (focused d v f))
            (if_cases (Returns (λ r. Ok r.0)) f.page.editing_other _ _
              (λ editing.
                put-Ok d f (record f.page { editing_other = false }) v
                  (record {
                    cursor = f.ok.cursor;
                    selected = f.ok.selected;
                    filled = f.ok.filled;
                    written = λ one o. (refl, (f.ok.written one o).1);
                  }))
              (λ editing. v)))
