-- ===== src/Checklist/Valid.antt =====
-- What a checklist holds after any calls of `dispatch` of crates/misy-core/src/core/todos.rs.
use misy.Common.{
  ℕ, ◌+◌, ◌≤◌, Bool, true, false, Option, none, some, List, [], ◌∷◌, ◌++◌, ◌≡◌, refl, subst, length,
  ltb, ltb→le, if◌then◌else◌, saturating_add, Bool-cases, inl, inr, arith,
}
use misy.Session.{TodoItem}
use misy.Checklist.{
  TodoSizes, Payload, absent, malformed, decoded, Holder, TodoError, too_many, titles_too_long, bad,
  fold_titles, check_json, check_bytes, validate, publish, replace_with, dispatch,
}

module _ (s : TodoSizes) where
  abbrev pub title_bytes : List TodoItem → ℕ
  title_bytes [] = 0
  title_bytes (t ∷ ts) = s.text_len t.title + title_bytes ts

  abbrev pub NoneBad : List TodoItem → Type 0
  NoneBad [] = Unit {0}
  NoneBad (t ∷ ts) = (bad t.title ≡ false) × NoneBad ts

  pub record IsBounded (todos : List TodoItem) : Type 0 where
    pub items : length todos ≤ 64
    pub titles : NoneBad todos
    pub bytes : title_bytes todos ≤ 16384

  folded :
      (total n : ℕ) (ts : List TodoItem)
      → fold_titles s total ts ≡ some n
      → n ≤ 16384
      → NoneBad ts × (total + title_bytes ts ≤ 16384)
  unfolding fold_titles
  folded total n [] e b = let same : total ≡ n = cc in (tt, omega arith)
  folded total n (t ∷ ts) e b = elim (Bool-cases (bad t.title)) [
    | inl x ↦
        let clash : none ≡ some n =
          subst
            (λ v.
              (if v then none else fold_titles s (saturating_add total (s.text_len t.title)) ts)
              ≡ some n)
            x e in
        cc
    | inr x ↦
        let rest =
          folded (saturating_add total (s.text_len t.title)) n ts
            (subst
              (λ v.
                (if v then none else fold_titles s (saturating_add total (s.text_len t.title)) ts)
                ≡ some n)
              x e)
            b in
        ((x, rest.0), omega (arith, rest.1))
  ]

  checked_bytes :
      (todos : List TodoItem) (o : Option ℕ)
      → fold_titles s 0 todos ≡ o
      → length todos ≤ 64
      → check_bytes s todos o ≡ none
      → IsBounded todos
  checked_bytes todos none f l e = cc
  checked_bytes todos (some n) f l e = elim (Bool-cases (ltb 16384 n)) [
    | inl x ↦
        let clash : some titles_too_long ≡ none =
          subst (λ v. (if v then some titles_too_long else check_json s (s.json_len todos)) ≡ none)
            x e in
        cc
    | inr x ↦
        let both = folded 0 n todos f (ltb→le 16384 n x) in
        record { items = l; titles = both.0; bytes = omega (arith, both.1) }
  ]

  validated : (todos : List TodoItem) → validate s todos ≡ none → IsBounded todos
  unfolding validate
  validated todos e = elim (Bool-cases (ltb 64 (length todos))) [
    | inl x ↦
        let clash : some too_many ≡ none =
          subst
            (λ v. (if v then some too_many else check_bytes s todos (fold_titles s 0 todos)) ≡ none)
            x e in
        cc
    | inr x ↦ checked_bytes todos (fold_titles s 0 todos) refl (ltb→le 64 (length todos) x) (
        subst
          (λ v. (if v then some too_many else check_bytes s todos (fold_titles s 0 todos)) ≡ none) x
          e)
  ]

  -- A list that is bounded, and the lists that were published with it.
  abbrev pub AllBounded : List (List TodoItem) → Type 0
  AllBounded [] = Unit {0}
  AllBounded (t ∷ ts) = IsBounded t × AllBounded ts

  AllBounded-append :
      (ts : List (List TodoItem)) (t : List TodoItem)
      → AllBounded ts
      → IsBounded t
      → AllBounded (ts ++ t ∷ [])
  AllBounded-append [] t a b = (b, tt)
  AllBounded-append (x ∷ xs) t a b = (a.0, AllBounded-append xs t a.1 b)

  abbrev pub Bounded : Holder → Type 0
  Bounded h = IsBounded h.todos × AllBounded h.published

  published-Bounded :
      (c : Bool) (h : Holder) (t : List TodoItem)
      → IsBounded t
      → AllBounded h.published
      → Bounded (publish c (record h { todos = t }) t)
  published-Bounded true h t b a = (b, AllBounded-append h.published t a b)
  published-Bounded false h t b a = (b, a)

  replaced-Bounded :
      (h : Holder) (todos : List TodoItem) (o : Option TodoError)
      → validate s todos ≡ o
      → Bounded h
      → Bounded (replace_with s h todos o).0
  replaced-Bounded h todos (some e) v b = b
  replaced-Bounded h todos none v b =
      published-Bounded h.conversation h todos (validated todos v) b.1

  step-Bounded : (h : Holder) (p : Payload) → Bounded h → Bounded (dispatch s h p).0
  unfolding dispatch
  step-Bounded h absent b = b
  step-Bounded h malformed b = b
  step-Bounded h (decoded todos) b = replaced-Bounded h todos (validate s todos) refl b

  abbrev pub run : Holder → List Payload → Holder
  run h [] = h
  run h (p ∷ ps) = run (dispatch s h p).0 ps

  run_from : (h : Holder) (ps : List Payload) → Bounded h → Bounded (run h ps)
  run_from h [] b = b
  run_from h (p ∷ ps) b = run_from (dispatch s h p).0 ps (step-Bounded h p b)

  -- Whatever calls follow one another, the checklist of an agent, which begins empty, and each list
  -- that was published have at most 64 items, no title that is blank or longer than 200 characters
  -- when it is trimmed, and at most 16,384 bytes of titles.
  pub run-Bounded :
      (conversation : Bool) (ps : List Payload)
      → Bounded (run (record { todos = []; conversation = conversation; published = [] }) ps)
  run-Bounded conversation ps =
      run_from (record { todos = []; conversation = conversation; published = [] }) ps
        (record { items = omega arith; titles = tt; bytes = omega arith }, tt)
