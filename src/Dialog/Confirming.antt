-- ===== src/Dialog/Confirming.antt =====
-- What `confirm` and `choose_number` leave of a dialog, and sequences of its calls,
-- crates/misy-tui/src/tui/question_dialog.rs.
use misy.Common.{
  if_cases, ℕ, zero, suc, ◌≤◌, ◌<◌, Bool, true, false, not, ◌&&◌, Option, none, some, List, [], ◌∷◌,
  ◌≡◌, refl, sym, subst, Bool-cases, inl, inr, length, ltb→le, arith, map,
}
use misy.Common.Texts.{Text}
use misy.Questions.{QuestionItem, QuestionRequest, QuestionResponse}
use misy.Dialog.{
  QuestionPage, QuestionDialog, toggle_current, Confirmed, stays, finishes, confirm_page, set_elem,
  has_submit_page, is_submit_page, focus, put_page, complete_pages, new_page, page_up, page_down,
  type_text, erase,
}
use misy.Dialog.Calls.{
  new_dialog, move_up, move_down, insert_text, backspace, tab_left, tab_right, select_number,
  escape, finish_or_advance, confirmed, confirm_in, confirm, choose_in, chosen_by, choose_number,
}
use misy.Dialog.Pages.{
  Focus, new_pages-Ok, page_up-Ok, page_down-Ok, toggle_current-Ok, type_text-Ok, erase-Ok,
  length-set_elem,
}
use misy.Dialog.Finishing.{ConfirmedOk, confirm_page-Ok}
use misy.Dialog.Safety.{
  WellFormed, Returns, in_front, focused, put-Ok, Selects, on_page-Ok, tab_left-Ok, tab_right-Ok,
  select_number-Ok, escape-Ok,
}

-- The only page, when it is complete.
complete_only :
    (ps : List QuestionPage) (i : ℕ) (p : QuestionPage)
    → length ps ≤ 1
    → i < length ps
    → p.complete ≡ true
    → complete_pages (set_elem ps i p) ≡ true
complete_only [] i p one h c = refl
complete_only (r ∷ []) zero p one h c = rw c refl
complete_only (r ∷ []) (suc i) p one h c = absurd (omega arith)
complete_only (r ∷ s ∷ rs) i p one h c = absurd (omega arith)

module _ (request : QuestionRequest) where
  abbrev pub AndOk : QuestionDialog × Option QuestionResponse → Type 0
  AndOk r = WellFormed request r.0

  finish_or_advance-Ok :
      (d : QuestionDialog)
      → WellFormed request d
      → (has_submit_page d ≡ false → complete_pages d.pages ≡ true)
      → AndOk (finish_or_advance d)
  unfolding finish_or_advance
  finish_or_advance-Ok d v c =
      if_cases AndOk (not (has_submit_page d) && complete_pages d.pages) _ _ (λ e. v)
        (λ e. elim (Bool-cases (has_submit_page d)) [
          | inl h ↦ record {
            same = v.same;
            fits = v.fits;
            some_page = v.some_page;
            within = ground (arith, h);
          }
          | inr h ↦ let all = c h in absurd (ground (arith, h, all, e))
        ])

  confirmed-Ok :
      (d : QuestionDialog) (f : Focus request.questions d.pages d.active) (c : Confirmed)
      → WellFormed request d
      → d.active < length d.pages
      → ConfirmedOk f.question c
      → AndOk (confirmed d c)
  confirmed-Ok d f (stays p) v i o = put-Ok request d f p v o
  confirmed-Ok d f (finishes p) v i o =
      finish_or_advance-Ok (put_page d p) (put-Ok request d f p v o.0) (λ h.
        complete_only d.pages d.active p
          (let few = ltb→le 1 (length (set_elem d.pages d.active p)) h in
            omega (arith, few, length-set_elem d.pages d.active p))
          i o.1)

  inside :
      (d : QuestionDialog)
      → WellFormed request d
      → is_submit_page d ≡ false
      → d.active < length d.pages
  unfolding is_submit_page
  inside d v e = ground (arith, v.within, e)

  pub confirm-Ok : (d : QuestionDialog) → WellFormed request d → Returns AndOk (confirm d)
  unfolding confirm
  confirm-Ok d v =
      if_cases (Returns AndOk) (is_submit_page d) _ _ (λ e. v)
        (λ e.
          let f = in_front request d v e in
          subst (λ o. Returns AndOk (confirm_in d o)) (sym (focused request d v f))
            (confirmed-Ok d f (confirm_page f.question f.page) v (inside d v e)
              (confirm_page-Ok f.question f.page f.ok)))

  choose_in-Ok :
      (d : QuestionDialog)
      → WellFormed request d
      → is_submit_page d ≡ false
      → Returns AndOk (choose_in d (focus d))
  choose_in-Ok d v e =
      let f = in_front request d v e in
      subst (λ o. Returns AndOk (choose_in d o)) (sym (focused request d v f))
        (if_cases (Returns AndOk) f.question.multi_select _ _
          (λ m.
            put-Ok request d f (toggle_current f.question f.page) v
              (toggle_current-Ok f.question f.page m f.ok))
          (λ m. confirm-Ok d v))

  chosen_by-Ok :
      (o : Option (QuestionDialog × Bool))
      → Returns (Selects request) o
      → Returns AndOk (chosen_by o)
  chosen_by-Ok none v = v
  chosen_by-Ok (some (d, false)) v = v.0
  chosen_by-Ok (some (d, true)) v = choose_in-Ok d v.0 (v.1 refl)

  choose_number-Ok :
      (n : ℕ) (d : QuestionDialog) → WellFormed request d → Returns AndOk (choose_number n d)
  unfolding choose_number
  choose_number-Ok n d v = chosen_by-Ok (select_number n d) (select_number-Ok request n d v)

-- A call of the client.
pub data Call : Type 0 where
  moves_up moves_down tabs_left tabs_right backspaces escapes confirms : Call
  types : Text → Call
  selects chooses : ℕ → Call

abbrev pub first_of : {A : Type 0} → Option (QuestionDialog × A) → Option QuestionDialog
first_of none = none
first_of (some r) = some r.0

unfoldable pub step : Call → QuestionDialog → Option QuestionDialog
step moves_up d = move_up d
step moves_down d = move_down d
step tabs_left d = some (tab_left d)
step tabs_right d = some (tab_right d)
step backspaces d = backspace d
step escapes d = first_of (escape d)
step confirms d = first_of (confirm d)
step (types text) d = insert_text text d
step (selects n) d = first_of (select_number n d)
step (chooses n) d = first_of (choose_number n d)

unfoldable pub run : List Call → Option QuestionDialog → Option QuestionDialog
unfolding step
run [] o = o
run (c ∷ cs) none = none
run (c ∷ cs) (some d) = run cs (step c d)

length_new : (qs : List QuestionItem) → 0 < length qs → 0 < length (map (λ q. new_page) qs)
length_new [] h = h
length_new (q ∷ qs) h = omega arith

module _ (request : QuestionRequest) where
  first_of-Ok :
      {A : Type 0} (P : QuestionDialog × A → Type 0) (o : Option (QuestionDialog × A))
      → ((r : QuestionDialog × A) → P r → WellFormed request r.0)
      → Returns P o
      → Returns (WellFormed request) (first_of o)
  first_of-Ok P none w v = v
  first_of-Ok P (some r) w v = w r v

  step-Ok :
      (c : Call) (d : QuestionDialog)
      → WellFormed request d
      → Returns (WellFormed request) (step c d)
  unfolding step move_up move_down backspace insert_text
  step-Ok moves_up d v = on_page-Ok request page_up page_up-Ok d v
  step-Ok moves_down d v = on_page-Ok request page_down page_down-Ok d v
  step-Ok tabs_left d v = tab_left-Ok request d v
  step-Ok tabs_right d v = tab_right-Ok request d v
  step-Ok backspaces d v = on_page-Ok request erase erase-Ok d v
  step-Ok escapes d v =
      first_of-Ok (λ r. WellFormed request r.0) (escape d) (λ r o. o) (escape-Ok request d v)
  step-Ok confirms d v = first_of-Ok (AndOk request) (confirm d) (λ r o. o) (confirm-Ok request d v)
  step-Ok (types text) d v = on_page-Ok request (type_text text) (type_text-Ok text) d v
  step-Ok (selects n) d v =
      first_of-Ok (Selects request) (select_number n d) (λ r o. o.0)
        (select_number-Ok request n d v)
  step-Ok (chooses n) d v =
      first_of-Ok (AndOk request) (choose_number n d) (λ r o. o) (choose_number-Ok request n d v)

  run-Ok :
      (cs : List Call) (o : Option QuestionDialog)
      → Returns (WellFormed request) o
      → Returns (WellFormed request) (run cs o)
  unfolding run
  run-Ok [] o v = v
  run-Ok (c ∷ cs) none v = v
  run-Ok (c ∷ cs) (some d) v = run-Ok cs (step c d) (step-Ok c d v)

  new_dialog-Ok : 0 < length request.questions → WellFormed request (new_dialog request)
  unfolding new_dialog
  new_dialog-Ok h = record {
    same = refl;
    fits = new_pages-Ok request.questions;
    some_page = length_new request.questions h;
    within = let some_page = length_new request.questions h in omega (arith, some_page);
  }

  -- A request with a question opens a dialog in which no sequence of calls panics: there is a page for
  -- each question, the tab in front is there, and each cursor and choice is within its options. Each
  -- complete page has a choice, and where one choice is asked for, an answer of one's own that
  -- counts is not blank.
  pub run-WellFormed :
      (cs : List Call)
      → 0 < length request.questions
      → Returns (WellFormed request) (run cs (some (new_dialog request)))
  run-WellFormed cs h = run-Ok cs (some (new_dialog request)) (new_dialog-Ok h)
