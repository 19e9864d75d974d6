-- ===== src/Common/Offsets.antt =====
-- Where a text is split by the offset of its bytes.
use misy.Common.Tests.{ltb, ltb→lt, ltb→le, if_cases}
use Prim.Native.Nat.{ℕ, zero, suc, ◌+◌, ◌-◌, ◌<◌}
use mathlib.Core.Path.{◌≡◌, refl, ap, ◌∙◌}
use mathlib.Core.Option.{none, some}
use mathlib.Core.List.{[], ◌∷◌, ◌++◌}
use native.Mathlib.Omega.{arith}
use misy.Common.Texts.{Text}
use misy.Common.Utf8.{len_utf8, byte_len, put_first, split_at}

len_utf8-pos : (c : ℕ) → 0 < len_utf8 c
unfolding len_utf8
len_utf8-pos c = ground arith

pub byte_len-append : (xs ys : Text) → byte_len (xs ++ ys) ≡ byte_len xs + byte_len ys
unfolding byte_len
byte_len-append [] ys = omega arith
byte_len-append (c ∷ cs) ys = omega (arith, byte_len-append cs ys)

-- A step over a character.
split_at-cons :
    (n k : ℕ) (c : ℕ) (cs : Text)
    → n ≡ len_utf8 c + k
    → split_at n (c ∷ cs) ≡ put_first c (split_at k cs)
unfolding split_at
split_at-cons zero k c cs e = absurd (omega (arith, e, len_utf8-pos c))
split_at-cons (suc n) k c cs e =
    if_cases (λ r. r ≡ put_first c (split_at k cs)) (ltb (suc n) (len_utf8 c)) none
      (put_first c (split_at (suc n - len_utf8 c) cs))
      (λ less. absurd (let l = ltb→lt (suc n) (len_utf8 c) less in omega (arith, l, e)))
      (λ more. ap (λ i. put_first c (split_at i cs)) (omega (arith, e)))

pub split_at-append : (xs ys : Text) → split_at (byte_len xs) (xs ++ ys) ≡ some (xs, ys)
unfolding byte_len
split_at-append [] ys = unfold split_at in refl
split_at-append (c ∷ cs) ys =
    split_at-cons (len_utf8 c + byte_len cs) (byte_len cs) c (cs ++ ys) refl
    ∙ ap (put_first c) (split_at-append cs ys)

pub split_at_beyond : (n : ℕ) (t : Text) → byte_len t < n → split_at n t ≡ none
unfolding byte_len split_at
split_at_beyond zero t h = absurd (omega arith)
split_at_beyond (suc n) [] h = refl
split_at_beyond (suc n) (c ∷ cs) h =
    if_cases (λ r. r ≡ none) (ltb (suc n) (len_utf8 c)) none
      (put_first c (split_at (suc n - len_utf8 c) cs)) (λ less. refl)
      (λ more.
        let m = ltb→le (suc n) (len_utf8 c) more in
        ap (put_first c) (split_at_beyond (suc n - len_utf8 c) cs (omega (arith, m, h))))
