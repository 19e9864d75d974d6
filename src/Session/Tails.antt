-- ===== src/Session/Tails.antt =====
-- Where the tail that compaction keeps begins: `preserved_tail_start` of
-- crates/misy-core/src/core/compaction.rs.
use misy.Common.{
  ℕ, suc, ◌+◌, ◌≤◌, true, Option, none, some, List, [], ◌∷◌, ◌≡◌, refl, sym, ap, ◌∙◌, length, drop,
  get_elem?, Bool-cases, ◌⊎◌, inl, inr, arith, if◌then◌else◌,
}
use mathlib.Core.List.{reverse_aux}
use misy.Session.{HistoryEntry}
use misy.Session.Compaction.{is_user, user_positions, preserved_tail_start}

-- The second of a list that is turned round is not among the last of what it is put before.
second_of :
    (ps : List ℕ) (x y : ℕ) (r s : List ℕ)
    → get_elem? (reverse_aux ps (x ∷ y ∷ r)) 1 ≡ get_elem? (reverse_aux ps (x ∷ y ∷ s)) 1
second_of [] x y r s = refl
second_of (p ∷ ps) x y r s = second_of ps p x (y ∷ r) (y ∷ s)

module _ {Json Image : Type 0} where
  abbrev pub count_users : List (HistoryEntry Json Image) → ℕ
  count_users [] = 0
  count_users (e ∷ es) =
      let rest = count_users es in if is_user e.message.role then suc rest else rest

  -- An entry of the user with one entry of the user behind it.
  pub record BeforeLast (es : List (HistoryEntry Json Image)) (m : ℕ) : Type 0 where
    pub entry : HistoryEntry Json Image
    pub found : get_elem? es m ≡ some entry
    pub user : is_user entry.message.role ≡ true
    pub behind : count_users (drop (suc m) es) ≡ 1

  length-user_positions :
      (i : ℕ) (es : List (HistoryEntry Json Image)) → length (user_positions i es) ≡ count_users es
  unfolding user_positions
  length-user_positions i [] = refl
  length-user_positions i (e ∷ es) = elim (Bool-cases (is_user e.message.role)) [
    | inl u ↦ rw u (ap suc (length-user_positions (suc i) es))
    | inr u ↦ rw u (length-user_positions (suc i) es)
  ]

  abbrev tail_at : ℕ → List (HistoryEntry Json Image) → Option ℕ
  tail_at i es = get_elem? (reverse_aux (user_positions i es) []) 1

  abbrev Found : ℕ → List (HistoryEntry Json Image) → Type 0
  Found i es =
      ((tail_at i es ≡ none) × (count_users es ≤ 1))
      ⊎ ((m : ℕ) × (tail_at i es ≡ some (i + m)) × BeforeLast es m)

  -- From an entry on, when those behind it decide.
  later :
      (i : ℕ) (e : HistoryEntry Json Image) (es : List (HistoryEntry Json Image))
      → tail_at i (e ∷ es) ≡ tail_at (suc i) es
      → ((m : ℕ) × (tail_at (suc i) es ≡ some (suc i + m)) × BeforeLast es m)
      → Found i (e ∷ es)
  later i e es same (m, at, b) = inr (
    suc m,
    same ∙ at ∙ ap some (omega arith),
    record { entry = b.entry; found = b.found; user = b.user; behind = b.behind },
  )

  user_next :
      (i : ℕ) (e : HistoryEntry Json Image) (es : List (HistoryEntry Json Image)) (ps : List ℕ)
      → is_user e.message.role ≡ true
      → user_positions (suc i) es ≡ ps
      → count_users es ≡ length ps
      → Found (suc i) es
      → Found i (e ∷ es)
  unfolding user_positions
  user_next i e es [] u p c f = inl (rw (u, p) refl, rw u (omega (arith, c)))
  user_next i e es (q ∷ []) u p c f = inr (
    0,
    rw (u, p) (ap some (omega arith)),
    record { entry = e; found = refl; user = u; behind = c },
  )
  user_next i e es (q ∷ r ∷ ps) u p c (inl (n, few)) = absurd (omega (arith, c, few))
  user_next i e es (q ∷ r ∷ ps) u p c (inr f) =
      later i e es (rw (u, p) (second_of ps r q (i ∷ []) [])) f

  positions_scanned : (i : ℕ) (es : List (HistoryEntry Json Image)) → Found i es
  unfolding user_positions
  positions_scanned i [] = inl (refl, omega arith)
  positions_scanned i (e ∷ es) = elim (Bool-cases (is_user e.message.role)) [
    | inl u ↦
        user_next i e es (user_positions (suc i) es) u refl (sym (length-user_positions (suc i) es))
          (positions_scanned (suc i) es)
    | inr u ↦ elim (positions_scanned (suc i) es) [
      | inl (n, few) ↦ inl (rw u n, rw u few)
      | inr f ↦ later i e es (rw u refl) f
    ]
  ]

  -- The tail that is kept begins with the last entry of the user but one, so that the entries of the
  -- user in it are two; there is no such tail when the user has at most one entry.
  pub preserved_tail_start_lem :
      (h : List (HistoryEntry Json Image))
      → ((preserved_tail_start h ≡ none) × (count_users h ≤ 1))
        ⊎ ((m : ℕ) × (preserved_tail_start h ≡ some m) × BeforeLast h m)
  unfolding preserved_tail_start
  preserved_tail_start_lem h = elim (positions_scanned 0 h) [
    | inl n ↦ inl n
    | inr (m, at, b) ↦ inr (m, at ∙ ap some (omega arith), b)
  ]
