-- ===== src/Composer/Boundaries.antt =====
-- The boundaries of the characters of a text, on which the composer keeps its cursor,
-- crates/misy-tui/src/tui/composer.rs.
use misy.Common.{
  if_cases, ℕ, zero, suc, ◌+◌, ◌-◌, none, some, List, [], ◌∷◌, ◌++◌, get_elem?, take, ◌≡◌, refl,
  sym, ap, ◌⊎◌, inl, inr, ◌∙◌, subst, arith, append-nil, ltb, ltb→lt, ◌==◌, ==_iff,
}
use misy.Common.Texts.{Text}
use misy.Common.Utf8.{len_utf8, byte_len, split_at, ◌>>=◌, insert_at, replace_range}
use misy.Common.Offsets.{byte_len-append, split_at-append}
use misy.Composer.Commands.{first_line}
use misy.Composer.Edits.{last_start, previous_boundary, next_boundary, end_of_first}
use misy.Composer.Display.{lines, onto_first, total_bytes, byte_at_display_column}

-- An offset between two characters of a text.
abbrev pub IsBoundary : Text → ℕ → Type 0
IsBoundary t n = (before : Text) × (after : Text) × (t ≡ before ++ after) × (n ≡ byte_len before)

pub front-IsBoundary : (t : Text) → IsBoundary t 0
unfolding byte_len
front-IsBoundary t = ([], t, refl, refl)

pub back-IsBoundary : (t : Text) → IsBoundary t (byte_len t)
back-IsBoundary t = (t, [], sym (append-nil t), refl)

-- One character more in front.
pub further-IsBoundary :
    (c : ℕ) (t : Text) (n : ℕ) → IsBoundary t n → IsBoundary (c ∷ t) (len_utf8 c + n)
unfolding byte_len
further-IsBoundary c t n (before, after, e, k) =
    (c ∷ before, after, ap (λ u. c ∷ u) e, ap (λ m. len_utf8 c + m) k)

pub insert_at_lem :
    (before after new : Text)
    → insert_at (byte_len before) new (before ++ after) ≡ some (before ++ (new ++ after))
unfolding insert_at
insert_at_lem before after new =
    ap (λ r. r >>= (λ x. some (x.0 ++ (new ++ x.1)))) (split_at-append before after)

-- What lies between two boundaries is replaced.
pub replace_range_lem :
    (before cut after new : Text)
    → replace_range
        (byte_len before)
        (byte_len before + byte_len cut)
        new
        (before ++ (cut ++ after))
      ≡ some (before ++ (new ++ after))
unfolding replace_range
replace_range_lem before cut after new =
    if_cases (λ r. r ≡ some (before ++ (new ++ after)))
      (ltb (byte_len before + byte_len cut) (byte_len before)) none
      (split_at (byte_len before) (before ++ (cut ++ after)) >>= (λ x.
        split_at (byte_len before + byte_len cut - byte_len before) x.1
        >>= (λ y. some (x.0 ++ (new ++ y.1)))))
      (λ less. absurd (let l = ltb→lt _ _ less in omega (arith, l)))
      (λ more.
        ap
          (λ r. r >>= (λ x.
            split_at (byte_len before + byte_len cut - byte_len before) x.1
            >>= (λ y. some (x.0 ++ (new ++ y.1)))))
          (split_at-append before (cut ++ after))
        ∙ ap (λ n. split_at n (cut ++ after) >>= (λ y. some (before ++ (new ++ y.1)))) (omega arith)
        ∙ ap (λ r. r >>= (λ y. some (before ++ (new ++ y.1)))) (split_at-append cut after))

-- The last character of a text, cut off.
pub last_start_lem :
    (t : Text)
    → (before : Text) × (cut : Text) × (t ≡ before ++ cut) × (last_start t ≡ byte_len before)
unfolding last_start byte_len
last_start_lem [] = ([], [], refl, refl)
last_start_lem (c ∷ []) = ([], c ∷ [], refl, refl)
last_start_lem (c ∷ d ∷ ds) =
    let (before, cut, e, k) = last_start_lem (d ∷ ds) in
    (c ∷ before, cut, ap (λ u. c ∷ u) e, ap (λ m. len_utf8 c + m) k)

pub first_line_lem : (t : Text) → (rest : Text) × (t ≡ first_line t ++ rest)
unfolding first_line
first_line_lem [] = ([], refl)
first_line_lem (c ∷ cs) =
    if_cases (λ l. (rest : Text) × (c ∷ cs ≡ l ++ rest)) (c == 10) [] (c ∷ first_line cs)
      (λ e. (c ∷ cs, refl)) (λ e. let (rest, h) = first_line_lem cs in (rest, ap (λ u. c ∷ u) h))

pub byte_at_display_column-IsBoundary :
    (width : Text → ℕ) (shown column : ℕ) (t : Text)
    → IsBoundary t (byte_at_display_column width shown column t)
unfolding byte_at_display_column byte_len
byte_at_display_column-IsBoundary width shown column [] = front-IsBoundary []
byte_at_display_column-IsBoundary width shown column (c ∷ cs) =
    let rest = byte_at_display_column width (shown + width (c ∷ [])) column cs in
    if_cases (IsBoundary (c ∷ cs)) (ltb column (shown + width (c ∷ []))) 0 (len_utf8 c + 0 + rest)
      (λ e. front-IsBoundary (c ∷ cs))
      (λ e. subst (IsBoundary (c ∷ cs)) (omega arith) (
        further-IsBoundary c cs rest
          (byte_at_display_column-IsBoundary width (shown + width (c ∷ [])) column cs)))

no_further : (m : ℕ) → IsBoundary [] m → m ≡ 0
unfolding byte_len
no_further m ([], after, e, k) = k
no_further m (c ∷ cs, after, e, k) = absurd cc

-- A boundary of a text is in front of its first character or comes from one behind it.
first_step :
    (c : ℕ) (l : Text) (m : ℕ)
    → IsBoundary (c ∷ l) m
    → (m ≡ 0) ⊎ ((n : ℕ) × (m ≡ len_utf8 c + n) × IsBoundary l n)
unfolding byte_len
first_step c l m ([], after, e, k) = inl k
first_step c l m (d ∷ ds, after, e, k) =
    let head : c ≡ d = cc in
    let tail : l ≡ ds ++ after = cc in
    inr (byte_len ds, k ∙ ap (λ x. len_utf8 x + byte_len ds) (sym head), (ds, after, tail, refl))

-- A boundary of a line is one of the text, behind the lines before it and their line feeds.
abbrev pub Placed : Text → List Text → Type 0
Placed t ls =
    (row : ℕ) (line : Text) (m : ℕ)
    → get_elem? ls row ≡ some line
    → IsBoundary line m
    → IsBoundary t (total_bytes (take row ls) + m)

first_placed :
    (c : ℕ) (cs l : Text) (m : ℕ)
    → ((n : ℕ) → IsBoundary l n → IsBoundary cs n)
    → (m ≡ 0) ⊎ ((n : ℕ) × (m ≡ len_utf8 c + n) × IsBoundary l n)
    → IsBoundary (c ∷ cs) (0 + m)
first_placed c cs l m h (inl e) =
    subst (IsBoundary (c ∷ cs)) (omega (arith, e)) (front-IsBoundary (c ∷ cs))
first_placed c cs l m h (inr (n, e, b)) =
    subst (IsBoundary (c ∷ cs)) (omega (arith, e)) (further-IsBoundary c cs n (h n b))

onto_first-Placed :
    (c : ℕ) (cs : Text) (ls : List Text) → Placed cs ls → Placed (c ∷ cs) (onto_first c ls)
unfolding byte_len
onto_first-Placed c cs [] h zero line m e b =
    first_placed c cs [] m
      (λ n b'. subst (IsBoundary cs) (sym (no_further n b')) (front-IsBoundary cs))
      (first_step c [] m (let same : line ≡ c ∷ [] = cc in subst (λ l. IsBoundary l m) same b))
onto_first-Placed c cs [] h (suc row) line m e b = absurd cc
onto_first-Placed c cs (l ∷ ls) h zero line m e b =
    first_placed c cs l m (λ n b'. subst (IsBoundary cs) (omega arith) (h 0 l n refl b'))
      (first_step c l m (let same : line ≡ c ∷ l = cc in subst (λ l'. IsBoundary l' m) same b))
onto_first-Placed c cs (l ∷ ls) h (suc row) line m e b =
    subst (IsBoundary (c ∷ cs)) (omega arith)
      (further-IsBoundary c cs (total_bytes (take (suc row) (l ∷ ls)) + m) (h (suc row) line m e b))

line_feed-Placed :
    (c : ℕ) (cs : Text) (ls : List Text) → c ≡ 10 → Placed cs ls → Placed (c ∷ cs) ([] ∷ ls)
unfolding byte_len len_utf8
line_feed-Placed c cs ls f h zero line m e b =
    let same : line ≡ [] = cc in
    let none_more : m ≡ 0 = no_further m (subst (λ l. IsBoundary l m) same b) in
    subst (IsBoundary (c ∷ cs)) (omega (arith, none_more)) (front-IsBoundary (c ∷ cs))
line_feed-Placed c cs ls f h (suc row) line m e b =
    let one : len_utf8 c ≡ 1 = ap len_utf8 f in
    subst (IsBoundary (c ∷ cs)) (omega (arith, one))
      (further-IsBoundary c cs (total_bytes (take row ls) + m) (h row line m e b))

no_text-Placed : Placed [] ([] ∷ [])
no_text-Placed zero line m e b =
    let same : line ≡ [] = cc in
    subst (IsBoundary []) (omega arith) (subst (λ l. IsBoundary l m) same b)
no_text-Placed (suc row) line m e b = absurd cc

pub lines-Placed : (t : Text) → Placed t (lines t)
unfolding lines
lines-Placed [] = no_text-Placed
lines-Placed (c ∷ cs) =
    if_cases (Placed (c ∷ cs)) (c == 10) ([] ∷ lines cs) (onto_first c (lines cs))
      (λ e. line_feed-Placed c cs (lines cs) ((==_iff c 10).0 e) (lines-Placed cs))
      (λ e. onto_first-Placed c cs (lines cs) (lines-Placed cs))

pub previous_lem :
    (t before after : Text)
    → t ≡ before ++ after
    → previous_boundary t (byte_len before) ≡ some (last_start before)
unfolding previous_boundary
previous_lem t before after e =
    ap (λ r. r >>= λ x. some (last_start x.0))
      (ap (split_at (byte_len before)) e ∙ split_at-append before after)

pub next_lem :
    (t before after : Text)
    → t ≡ before ++ after
    → next_boundary t (byte_len before) ≡ some (end_of_first t (byte_len before) after)
unfolding next_boundary
next_lem t before after e =
    ap (λ r. r >>= λ x. some (end_of_first t (byte_len before) x.1))
      (ap (split_at (byte_len before)) e ∙ split_at-append before after)

-- Where the first character behind a boundary ends, or the text.
pub end_of_first_lem :
    (t before after : Text)
    → t ≡ before ++ after
    → (x : Text) × (y : Text) × (after ≡ x ++ y)
      × (end_of_first t (byte_len before) after ≡ byte_len before + byte_len x)
unfolding byte_len
end_of_first_lem t before [] e = ([], [], refl, ap byte_len e ∙ byte_len-append before [])
end_of_first_lem t before (c ∷ cs) e = (c ∷ [], cs, refl, omega arith)
