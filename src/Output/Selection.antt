-- ===== src/Output/Selection.antt =====
-- The first and the last part that `select_head_tail` of output.rs shows.
use mathlib.Core.List.{reverse, reverse-cons, reverse-reverse}
use misy.Common.{
  ℕ, zero, suc, ◌+◌, ◌-◌, ◌/◌, ◌≤◌, ◌≡◌, sym, ap, ◌∙◌, min, List, [], ◌∷◌, ◌++◌, append-nil,
  append_assoc, arith, length, take, drop, leb, saturating_add, saturate, u64_max, length-append,
  length-take, length-drop, take-append-drop, drop_all, Bool-cases, inl, inr, drop-append,
  drop-drop,
}
use misy.Output.Capture.{CapturedFragment}
use misy.Output.Log.{
  LoggedByte, bytes_log, flat, Ends, bytes_log-drop, length-bytes_log, flat-append,
}
use misy.Output.Select.{bytes_held, take_tail_loop, take_tail, select_head_tail}
use misy.Output.Delivery.{length-flat, flat-take_head}

-- A cut near the end of two parts, the first of which is cut by what the second leaves over.
drop-parts :
    (budget : ℕ) (xs ys : List LoggedByte)
    → drop (length (xs ++ ys) - budget) (xs ++ ys)
      ≡ drop (length xs - (budget - min budget (length ys))) xs
        ++ drop (length ys - min budget (length ys)) ys
drop-parts budget xs ys =
    drop-append (length (xs ++ ys) - budget) xs ys
    ∙ ap (λ k. drop (length (xs ++ ys) - budget) xs ++ drop k ys)
        (omega (arith, length-append xs ys))
    ∙ ap (λ t. t ++ drop (length ys - min budget (length ys)) ys) front
  where
    front :
        drop (length (xs ++ ys) - budget) xs
        ≡ drop (length xs - (budget - min budget (length ys))) xs
    front = elim (Bool-cases (leb (length ys) budget)) [
      | inl h ↦ ap (λ k. drop k xs) (ground (arith, length-append xs ys))
      | inr h ↦
          drop_all _ xs (ground (arith, length-append xs ys)) ∙ sym (drop_all _ xs (ground arith))
    ]

-- The loop over the fragments from the last: it keeps the last bytes of those still to come.
flat-take_tail_loop :
    (n : ℕ) (rs : List CapturedFragment) (budget : ℕ) (kept : List CapturedFragment)
    → n ≤ u64_max
    → Ends n rs
    → flat (take_tail_loop rs budget kept)
      ≡ drop (length (flat (reverse rs)) - budget) (flat (reverse rs)) ++ flat kept
unfolding take_tail_loop
flat-take_tail_loop n [] budget kept small ends = ground arith
flat-take_tail_loop n (f ∷ rs) zero kept small ends =
    rw (drop_all (length (flat (reverse (f ∷ rs))) - 0) (flat (reverse (f ∷ rs))) (omega arith))
flat-take_tail_loop n (f ∷ rs) (suc b) kept small ends =
    ap flat step
    ∙ flat-take_tail_loop n rs (suc b - used) (cut ∷ kept) small ends.1
    ∙ ap
        (λ t.
          drop (length (flat (reverse rs)) - (suc b - used)) (flat (reverse rs))
          ++ (t ++ flat kept))
        shown
    ∙ sym (append_assoc _ _ (flat kept))
    ∙ ap (λ t. t ++ flat kept) (sym parts)
  where
    y : List LoggedByte
    y = bytes_log f.stream f.start f.bytes

    used : ℕ
    used = min (suc b) (length f.bytes)

    cut : CapturedFragment
    cut = record {
      stream = f.stream;
      start = saturating_add f.start (saturate (length f.bytes - used));
      bytes = drop (length f.bytes - used) f.bytes;
    }

    step : take_tail_loop (f ∷ rs) (suc b) kept ≡ take_tail_loop rs (suc b - used) (cut ∷ kept)
    step = ground arith

    shown : bytes_log f.stream cut.start cut.bytes ≡ drop (length f.bytes - used) y
    shown =
        ap (λ k. bytes_log f.stream k cut.bytes) (omega (arith, ends.0))
        ∙ bytes_log-drop f.stream f.start (length f.bytes - used) f.bytes (omega arith)

    parts :
        drop (length (flat (reverse (f ∷ rs))) - suc b) (flat (reverse (f ∷ rs)))
        ≡ drop (length (flat (reverse rs)) - (suc b - used)) (flat (reverse rs))
          ++ drop (length f.bytes - used) y
    parts =
        rw (reverse-cons f rs, flat-append (reverse rs) (f ∷ []), append-nil y)
          (rw (drop-parts (suc b) (flat (reverse rs)) y, length-bytes_log f.stream f.start f.bytes))

pub Ends-append :
    (n : ℕ) (xs ys : List CapturedFragment) → Ends n xs → Ends n ys → Ends n (xs ++ ys)
Ends-append n [] ys a b = b
Ends-append n (x ∷ xs) ys a b = (a.0, Ends-append n xs ys a.1 b)

Ends-reverse : (n : ℕ) (xs : List CapturedFragment) → Ends n xs → Ends n (reverse xs)
Ends-reverse n [] a = tt
Ends-reverse n (x ∷ xs) a =
    rw (reverse-cons x xs) (Ends-append n (reverse xs) (x ∷ []) (Ends-reverse n xs a.1) (a.0, tt))

-- `take_tail` keeps the last bytes, exactly as many as the budget allows.
pub flat-take_tail :
    (n : ℕ) (fs : List CapturedFragment) (budget : ℕ)
    → n ≤ u64_max
    → Ends n fs
    → flat (take_tail fs budget) ≡ drop (length (flat fs) - budget) (flat fs)
unfolding take_tail
flat-take_tail n fs budget small ends =
    flat-take_tail_loop n (reverse fs) budget [] small (Ends-reverse n fs ends)
    ∙ rw (reverse-reverse fs) (append-nil _)

-- The first and the last part that a selection shows, and what lies between them.
pub record Shows (fs : List CapturedFragment) (budget : ℕ)
    (r : List CapturedFragment × List CapturedFragment) : Type 0 where
  pub omitted : List LoggedByte
  pub split : flat fs ≡ flat r.0 ++ (omitted ++ flat r.1)
  pub exactly : length omitted ≡ bytes_held fs - budget

middle-split :
    (a b : ℕ) (xs : List LoggedByte)
    → a + b ≤ length xs
    → xs ≡ take a xs ++ (take (length xs - (a + b)) (drop a xs) ++ drop (length xs - b) xs)
middle-split a b xs h =
    sym (take-append-drop a xs)
    ∙ ap (λ t. take a xs ++ t)
        (sym (take-append-drop (length xs - (a + b)) (drop a xs))
          ∙ ap (λ t. take (length xs - (a + b)) (drop a xs) ++ t)
              (drop-drop (length xs - (a + b)) a xs ∙ ap (λ k. drop k xs) (omega arith)))

shown_split :
    (a b k : ℕ) (xs : List LoggedByte)
    → a + b ≡ k
    → k ≤ length xs
    → xs ≡ take a xs ++ (take (length xs - k) (drop a xs) ++ drop (length xs - b) xs)
shown_split a b k xs e h = rw (← e) (middle-split a b xs (omega arith))

-- Under any byte budget the selection shows a first and a last part of the fragments, and leaves
-- out of the middle exactly the bytes that are over the budget.
pub select_head_tail-Shows :
    (n : ℕ) (fs : List CapturedFragment) (budget : ℕ)
    → n ≤ u64_max
    → Ends n fs
    → Shows fs budget (select_head_tail fs budget)
unfolding select_head_tail
select_head_tail-Shows n fs budget small ends = elim (Bool-cases (leb (bytes_held fs) budget)) [
  | inl h ↦
      rw (h, select_head_tail)
        (record { omitted = []; split = sym (append-nil (flat fs)); exactly = ground arith })
  | inr h ↦
      rw (h, select_head_tail)
        (record {
          omitted = take (length (flat fs) - budget) (drop (budget / 2) (flat fs));
          split =
              rw
                (
                  flat-take_head fs (budget / 2),
                  flat-take_tail n fs (budget - budget / 2) small ends,
                )
                (shown_split (budget / 2) (budget - budget / 2) budget (flat fs) (omega arith)
                  (ground (arith, length-flat fs)));
          exactly = ground (
            arith,
            length-take (length (flat fs) - budget) (drop (budget / 2) (flat fs)),
            length-drop (budget / 2) (flat fs),
            length-flat fs,
          );
        })
]
