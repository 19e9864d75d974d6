-- ===== src/ListView/Moves.antt =====
-- Where the selection of a list view moves.
use misy.Common.{
  ℕ, zero, suc, ◌+◌, ◌<◌, ◌≡◌, refl, sym, subst, ◌⊎◌, inl, inr, true, false, some, length, arith,
  ==_iff, ap, ltb, ltb→lt, ltb→le, ◌-◌, ◌%◌, ◌≤◌, ◌∙◌, Bool-cases, ◌==◌,
}
use misy.ListView.{ListView, Direction, up, down}
use native.Mathlib.Nat.{mod_self, mod-eq_of_lt, mod-eq-sub-mod}
use misy.ListView.View.{step_index, entry_has_value, move_loop, move_selection, unwrap_or_zero}

module _ {A : Type 0} (v : ListView A) (d : Direction) (start : ℕ) where
  abbrev target : ℕ → ℕ
  target step = step_index d start (length v.filtered) step

  -- The entries at `count` steps, from `step` on, cannot be selected.
  abbrev pub Skips : ℕ → ℕ → Type 0
  Skips zero step = Unit
  Skips (suc count) step = (entry_has_value v (target step) ≡ false) × Skips count (step + 1)

  -- The selection goes to the first entry, counted in steps, that can be selected; if there is none,
  -- nothing changes.
  abbrev pub GoesToFirst : ℕ → ℕ → ListView A → Type 0
  GoesToFirst left step after =
      ((k : ℕ) × (k < left)
        × Skips k step
        × (entry_has_value v (target (step + k)) ≡ true)
        × (after ≡ record v { selected = some (target (step + k)) }))
      ⊎ (Skips left step × (after ≡ v))

  later-GoesToFirst :
      (left step : ℕ) (after : ListView A)
      → entry_has_value v (target step) ≡ false
      → GoesToFirst left (step + 1) after
      → GoesToFirst (suc left) step after
  later-GoesToFirst left step after f (inl (k, lt, skips, t, e)) =
      let same : step + 1 + k ≡ step + suc k = omega arith in
      inl (suc k, omega arith, (f, skips), rw (← same) t, rw (← same) e)
  later-GoesToFirst left step after f (inr (skips, e)) = inr ((f, skips), e)

  move_loop-GoesToFirst : (left step : ℕ) → GoesToFirst left step (move_loop v d start left step)
  unfolding move_loop
  move_loop-GoesToFirst zero step = inr (tt, refl)
  move_loop-GoesToFirst (suc left) step = elim (Bool-cases (entry_has_value v (target step))) [
    | inl t ↦ rw t (let e : step + 0 ≡ step = omega arith in inl (0, omega arith, tt, rw e t, rw e))
    | inr f ↦
        let same : move_loop v d start (suc left) step ≡ move_loop v d start left (step + 1) =
          rw f in
        subst (GoesToFirst (suc left) step) (sym same) (
          later-GoesToFirst left step (move_loop v d start left (step + 1)) f
            (move_loop-GoesToFirst left (step + 1)))
  ]

-- Where an entry lies from the start in steps of the direction, round the ends, the start itself last
-- of all.
abbrev Steps : Direction → ℕ → ℕ → ℕ → ℕ → Type 0
Steps down n start i s = ((start < i) × (start + s ≡ i)) ⊎ ((i ≤ start) × (start + s ≡ i + n))
Steps up n start i s = ((i < start) × (i + s ≡ start)) ⊎ ((start ≤ i) × (i + s ≡ start + n))

-- The entries that are passed on the way from the start to an entry, in the direction and round the
-- ends.
abbrev pub Passed : Direction → ℕ → ℕ → ℕ → Type 0
Passed down start i j =
    ((start < i) × (start < j) × (j < i)) ⊎ ((i ≤ start) × ((start < j) ⊎ (j < i)))
Passed up start i j =
    ((i < start) × (i < j) × (j < start)) ⊎ ((start ≤ i) × ((j < start) ⊎ (i < j)))

wrap : (x n : ℕ) → n ≤ x → x < n + n → x % n ≡ x - n
wrap x n l h = mod-eq-sub-mod l ∙ mod-eq_of_lt (omega (arith, l, h))

-- The sum of two numbers, one at most a length and one below it, taken modulo the length.
rest_of : (x n : ℕ) → x < n + n → ((x < n) × (x % n ≡ x)) ⊎ ((n ≤ x) × (x % n ≡ x - n))
rest_of x n h = elim (Bool-cases (ltb x n)) [
  | inl e ↦ let l = ltb→lt x n e in inl (l, mod-eq_of_lt l)
  | inr e ↦ let l = ltb→le x n e in inr (l, wrap x n l h)
]

up_rest : (start n s : ℕ) → 0 < s → s ≤ n → (start + n - s % n) % n ≡ (start + n - s) % n
up_rest start n s p l = elim (Bool-cases (ltb s n)) [
  | inl e ↦ ap (λ x. (start + n - x) % n) (mod-eq_of_lt (ltb→lt s n e))
  | inr e ↦
      let same : s ≡ n = let m = ltb→le s n e in omega (arith, m, l) in
      ap (λ x. (start + n - x % n) % n) same
      ∙ ap (λ x. (start + n - x) % n) (mod_self n)
      ∙ mod-eq-sub-mod (omega arith)
      ∙ ap (λ x. x % n) (omega (arith, same))
]

-- The entry that a step tries lies that many steps away.
step_index-Steps :
    (d : Direction) (n start s : ℕ)
    → start < n
    → 0 < s
    → s ≤ n
    → (step_index d start n s < n) × Steps d n start (step_index d start n s) s
unfolding step_index
step_index-Steps down n start s h p l = elim (rest_of (start + s) n (omega (arith, h, l))) [
  | inl (small, e) ↦
      subst (λ x. (x < n) × Steps down n start x s) (sym e) (small, inl (omega (arith, p), refl))
  | inr (large, e) ↦
      subst (λ x. (x < n) × Steps down n start x s) (sym e)
        (omega (arith, h, l, large), inr (omega (arith, l, large), omega (arith, large)))
]
step_index-Steps up n start s h p l = elim (rest_of (start + n - s) n (omega (arith, h, p))) [
  | inl (small, e) ↦
      subst (λ x. (x < n) × Steps up n start x s) (sym (up_rest start n s p l ∙ e))
        (small, inr (omega (arith, l), omega (arith, l)))
  | inr (large, e) ↦
      subst (λ x. (x < n) × Steps up n start x s) (sym (up_rest start n s p l ∙ e))
        (omega (arith, h, p), inl (omega (arith, p, large, h), omega (arith, large)))
]

-- An entry lies at one number of steps.
Steps-unique :
    (d : Direction) (n start i j s : ℕ)
    → i < n
    → j < n
    → Steps d n start i s
    → Steps d n start j s
    → i ≡ j
Steps-unique down n start i j s l m (inl (a, e)) (inl (b, f)) = omega (arith, e, f)
Steps-unique down n start i j s l m (inl (a, e)) (inr (b, f)) = absurd (omega (arith, e, f, l))
Steps-unique down n start i j s l m (inr (a, e)) (inl (b, f)) = absurd (omega (arith, e, f, m))
Steps-unique down n start i j s l m (inr (a, e)) (inr (b, f)) = omega (arith, e, f)
Steps-unique up n start i j s l m (inl (a, e)) (inl (b, f)) = omega (arith, e, f)
Steps-unique up n start i j s l m (inl (a, e)) (inr (b, f)) = absurd (omega (arith, e, f, m))
Steps-unique up n start i j s l m (inr (a, e)) (inl (b, f)) = absurd (omega (arith, e, f, l))
Steps-unique up n start i j s l m (inr (a, e)) (inr (b, f)) = omega (arith, e, f)

Steps-range :
    (d : Direction) (n start i s : ℕ) → start < n → i < n → Steps d n start i s → (0 < s) × (s ≤ n)
Steps-range down n start i s h l (inl (a, e)) = (omega (arith, a, e), omega (arith, l, e))
Steps-range down n start i s h l (inr (a, e)) = (omega (arith, h, e), omega (arith, a, e))
Steps-range up n start i s h l (inl (a, e)) = (omega (arith, a, e), omega (arith, h, e))
Steps-range up n start i s h l (inr (a, e)) = (omega (arith, l, e), omega (arith, a, e))

-- It is tried there.
Steps-step_index :
    (d : Direction) (n start i s : ℕ)
    → start < n
    → i < n
    → Steps d n start i s
    → (0 < s) × (s ≤ n) × (step_index d start n s ≡ i)
Steps-step_index d n start i s h l e =
    let (pos, most) = Steps-range d n start i s h l e in
    let (inside, there) = step_index-Steps d n start s h pos most in
    (pos, most, Steps-unique d n start (step_index d start n s) i s inside l there e)

-- Each entry lies at some number of steps.
some-Steps : (d : Direction) (n start i : ℕ) → start < n → i < n → (s : ℕ) × Steps d n start i s
some-Steps down n start i h m = elim (Bool-cases (ltb start i)) [
  | inl e ↦ let l = ltb→lt start i e in (i - start, inl (l, omega (arith, l)))
  | inr e ↦ let l = ltb→le start i e in (i + n - start, inr (l, omega (arith, h)))
]
some-Steps up n start i h m = elim (Bool-cases (ltb i start)) [
  | inl e ↦ let l = ltb→lt i start e in (start - i, inl (l, omega (arith, l)))
  | inr e ↦ let l = ltb→le i start e in (start + n - i, inr (l, omega (arith, m)))
]

-- What is passed on the way lies fewer steps away.
Passed-Steps :
    (d : Direction) (n start i j s : ℕ)
    → start < n
    → i < n
    → j < n
    → Steps d n start i s
    → Passed d start i j
    → (t : ℕ) × (t < s) × Steps d n start j t
Passed-Steps down n start i j s h l m (inl (a, e)) (inl (b, c, f)) =
    (j - start, omega (arith, e, c, f), inl (c, omega (arith, c)))
Passed-Steps down n start i j s h l m (inl (a, e)) (inr (b, c)) = absurd (omega (arith, a, b))
Passed-Steps down n start i j s h l m (inr (a, e)) (inl (b, c, f)) = absurd (omega (arith, a, b))
Passed-Steps down n start i j s h l m (inr (a, e)) (inr (b, inl c)) =
    (j - start, omega (arith, e, c, m), inl (c, omega (arith, c)))
Passed-Steps down n start i j s h l m (inr (a, e)) (inr (b, inr c)) =
    (j + n - start, omega (arith, e, c, h), inr (omega (arith, c, a), omega (arith, h)))
Passed-Steps up n start i j s h l m (inl (a, e)) (inl (b, c, f)) =
    (start - j, omega (arith, e, c, f), inl (f, omega (arith, f)))
Passed-Steps up n start i j s h l m (inl (a, e)) (inr (b, c)) = absurd (omega (arith, a, b))
Passed-Steps up n start i j s h l m (inr (a, e)) (inl (b, c, f)) = absurd (omega (arith, a, b))
Passed-Steps up n start i j s h l m (inr (a, e)) (inr (b, inl c)) =
    (start - j, omega (arith, e, c, h, l), inl (c, omega (arith, c)))
Passed-Steps up n start i j s h l m (inr (a, e)) (inr (b, inr c)) =
    (start + n - j, omega (arith, e, c, m), inr (omega (arith, c, a), omega (arith, m)))

module _ {A : Type 0} (v : ListView A) (d : Direction) (start : ℕ) where
  -- The entry that is selected has a value, and none that is passed on the way to it has one; or no
  -- entry has one, and nothing changes.
  abbrev pub SelectsNext : ListView A → Type 0
  SelectsNext after =
      ((i : ℕ) × (i < length v.filtered)
        × (entry_has_value v i ≡ true)
        × (after ≡ record v { selected = some i })
        × ((j : ℕ) → j < length v.filtered → Passed d start i j → entry_has_value v j ≡ false))
      ⊎ (((j : ℕ) → j < length v.filtered → entry_has_value v j ≡ false) × (after ≡ v))

  skipped :
      (count step s : ℕ)
      → Skips v d start count step
      → step ≤ s
      → s < step + count
      → entry_has_value v (target v d start s) ≡ false
  skipped zero step s k l h = absurd (omega (arith, l, h))
  skipped (suc count) step s (f, k) l h = elim (Bool-cases (step == s)) [
    | inl e ↦ subst (λ x. entry_has_value v (target v d start x) ≡ false) ((==_iff step s).0 e) f
    | inr e ↦ skipped count (step + 1) s k (ground (arith, e, l)) (omega (arith, h))
  ]

  GoesToFirst-SelectsNext :
      (after : ListView A)
      → start < length v.filtered
      → GoesToFirst v d start (length v.filtered) 1 after
      → SelectsNext after
  GoesToFirst-SelectsNext after h (inl (k, lt, skips, t, e)) =
      let (inside, there) =
        step_index-Steps d (length v.filtered) start (1 + k) h (omega arith) (omega (arith, lt)) in
      inl (
        target v d start (1 + k),
        inside,
        t,
        e,
        λ j m p.
            let (s, fewer, at) =
              Passed-Steps d (length v.filtered) start (target v d start (1 + k)) j (1 + k) h inside
                m there p in
            let (pos, _, same) = Steps-step_index d (length v.filtered) start j s h m at in
            subst (λ x. entry_has_value v x ≡ false) same
              (skipped k 1 s skips pos (omega (arith, fewer))),
      )
  GoesToFirst-SelectsNext after h (inr (skips, e)) = inr (
    λ j m.
        let (s, at) = some-Steps d (length v.filtered) start j h m in
        let (pos, most, same) = Steps-step_index d (length v.filtered) start j s h m at in
        subst (λ x. entry_has_value v x ≡ false) same
          (skipped (length v.filtered) 1 s skips pos (omega (arith, most))),
    e,
  )

-- A move selects an entry whose row has a value, and none that is passed on the way from the selected
-- entry, or from the first with none selected, has one: down the entries behind it and then those from
-- the first on, up those before it and then those from the last on, the selected one last of all; if
-- no row that is shown has a value, nothing changes.
pub move_selection_lem :
    {A : Type 0} (v : ListView A) (d : Direction)
    → unwrap_or_zero v.selected < length v.filtered
    → SelectsNext v d (unwrap_or_zero v.selected) (move_selection v d)
unfolding move_selection
move_selection_lem v d h = elim (Bool-cases (length v.filtered == 0)) [
  | inl e ↦ absurd (ground (arith, h))
  | inr e ↦ rw e (
      GoesToFirst-SelectsNext v d (unwrap_or_zero v.selected)
        (move_loop v d (unwrap_or_zero v.selected) (length v.filtered) 1) h
        (move_loop-GoesToFirst v d (unwrap_or_zero v.selected) (length v.filtered) 1))
]
