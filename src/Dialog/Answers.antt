-- ===== src/Dialog/Answers.antt =====
-- The answer of a complete page, crates/misy-tui/src/tui/question_dialog.rs.
use misy.Common.{
  if_cases, ℕ, suc, ◌+◌, ◌≤◌, ◌<◌, Bool, true, false, not, ◌&&◌, ◌||◌, List, [], ◌∷◌, ◌++◌, ◌≡◌,
  refl, sym, ap, subst, ◌∙◌, Bool-cases, inl, inr, length, ◌==◌, ==_iff, if◌then◌else◌, arith,
}
use misy.Common.Texts.{Text}
use misy.Common.Blank.{has_ink, has_ink-append, is_empty-trim}
use misy.Questions.{QuestionOption, QuestionItem}
use misy.Dialog.{QuestionPage, holds, blank, none_chosen}
use misy.Dialog.Calls.{chosen_labels, join, answer_values, answer_for}
use misy.Dialog.Pages.{PageOk, AllBelow}

abbrev pub AllInk : List QuestionOption → Type 0
AllInk [] = Unit {0}
AllInk (o ∷ os) = (has_ink o.label ≡ true) × AllInk os

any_ink : List Text → Bool
any_ink [] = false
any_ink (t ∷ ts) = has_ink t || any_ink ts

any_ink-append : (xs ys : List Text) → any_ink (xs ++ ys) ≡ (any_ink xs || any_ink ys)
unfolding any_ink
any_ink-append [] ys = refl
any_ink-append (x ∷ xs) ys = ground (arith, any_ink-append xs ys)

join-ink : (ts : List Text) → any_ink ts ≡ true → has_ink (join ts) ≡ true
unfolding join any_ink
join-ink [] h = h
join-ink (t ∷ []) h = ground arith
join-ink (t ∷ u ∷ us) h =
    let later : Text = join (u ∷ us) in
    ground (arith, has_ink-append t (44 ∷ 32 ∷ later), join-ink (u ∷ us))

-- A choice that is an option shows up with its label.
chosen_labels-ink :
    (i m : ℕ) (selected : List ℕ) (os : List QuestionOption)
    → AllInk os
    → holds m selected ≡ true
    → i ≤ m
    → m < i + length os
    → any_ink (chosen_labels i selected os) ≡ true
unfolding chosen_labels any_ink
chosen_labels-ink i m selected [] a h low high = absurd (omega arith)
chosen_labels-ink i m selected (o ∷ os) a h low high = elim (Bool-cases (m == i)) [
  | inl e ↦
      let here : holds i selected ≡ true =
        subst (λ n. holds n selected ≡ true) (ground (arith, e)) h in
      rw here (rw a.0 refl)
  | inr e ↦
      let rest =
        chosen_labels-ink (suc i) m selected os a.1 h (ground (arith, e, low))
          (omega (arith, high)) in
      if_cases (λ ts. any_ink ts ≡ true) (holds i selected)
        (o.label ∷ chosen_labels (suc i) selected os) (chosen_labels (suc i) selected os)
        (λ x. ground (arith, rest)) (λ x. rest)
]

-- Where several can be chosen, an answer of one's own that counts may have been left blank.
abbrev pub unwritten : QuestionItem → QuestionPage → Bool
unwritten q p = q.multi_select && (p.other_selected && blank p.other_draft)

values-ink :
    (q : QuestionItem) (p : QuestionPage) (ms : List ℕ)
    → p.selected ≡ ms
    → AllInk q.options
    → PageOk q p
    → none_chosen p ≡ false
    → unwritten q p ≡ false
    → any_ink (answer_values q p) ≡ true
unfolding any_ink
values-ink q p [] e a v n u =
    let own : p.other_selected ≡ true = ground (arith, ap length e) in
    let drafted : blank p.other_draft ≡ false = elim (Bool-cases q.multi_select) [
      | inl m ↦ ground (arith, m, own)
      | inr m ↦ (v.written m own).1
    ] in
    ground (
      arith,
      any_ink-append (chosen_labels 0 p.selected q.options)
          (if p.other_selected then p.other_draft ∷ [] else []),
      is_empty-trim p.other_draft,
    )
values-ink q p (m ∷ ms) e a v n u =
    let below : AllBelow (length q.options) (m ∷ ms) =
      subst (AllBelow (length q.options)) e v.selected in
    let held : holds m p.selected ≡ true =
      subst (λ ns. holds m ns ≡ true) (sym e) (ground (arith, ==_iff m m)) in
    let chosen =
      chosen_labels-ink 0 m p.selected q.options a held (omega arith) (omega (arith, below.0)) in
    any_ink-append (chosen_labels 0 p.selected q.options)
      (if p.other_selected then p.other_draft ∷ [] else [])
    ∙ ap (λ b. b || any_ink (if p.other_selected then p.other_draft ∷ [] else [])) chosen

pub answer_for-ink :
    (q : QuestionItem) (p : QuestionPage)
    → AllInk q.options
    → PageOk q p
    → p.complete ≡ true
    → unwritten q p ≡ false
    → blank (answer_for q p) ≡ false
unfolding answer_for
answer_for-ink q p a v c u =
    let written =
      join-ink (answer_values q p) (values-ink q p p.selected refl a v (v.filled c) u) in
    is_empty-trim (join (answer_values q p)) ∙ ap not written
