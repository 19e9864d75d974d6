-- ===== src/Common/Utf8.antt =====
-- Texts by the offsets of their UTF-8 bytes, as Rust's `str` takes them, and numbers in digits.
use Prim.Native.Nat.{ℕ, zero, suc, ◌+◌, ◌-◌, ◌/◌, ◌%◌}
use mathlib.Core.Option.{Option, none, some}
use mathlib.Core.List.{[], ◌∷◌, ◌++◌}
use misy.Common.Tests.{ltb, if◌then◌else◌}
use misy.Common.Texts.{Text}

-- `char::len_utf8`.
unfoldable pub len_utf8 : ℕ → ℕ
len_utf8 c = if ltb c 128 then 1 else if ltb c 2048 then 2 else if ltb c 65536 then 3 else 4

-- `str::len`.
unfoldable pub byte_len : Text → ℕ
unfolding len_utf8
byte_len [] = 0
byte_len (c ∷ cs) = len_utf8 c + byte_len cs

abbrev pub put_first : ℕ → Option (Text × Text) → Option (Text × Text)
put_first c none = none
put_first c (some (a, b)) = some (c ∷ a, b)

-- `str::split_at`: none, a panic, out of range or inside a character.
unfoldable pub split_at : ℕ → Text → Option (Text × Text)
unfolding len_utf8
split_at zero t = some ([], t)
split_at (suc n) [] = none
split_at (suc n) (c ∷ cs) =
    let later = put_first c (split_at (suc n - len_utf8 c) cs) in
    if ltb (suc n) (len_utf8 c) then none else later

infixl 5 ◌>>=◌
abbrev pub ◌>>=◌ : {A B : Type 0} → Option A → (A → Option B) → Option B
none >>= next = none
some a >>= next = next a

-- `String::insert_str`.
unfoldable pub insert_at : ℕ → Text → Text → Option Text
insert_at n new t = do (before, after) ← split_at n t; some (before ++ (new ++ after))

-- `String::replace_range`, and `drain` with nothing in the place.
unfoldable pub replace_range : ℕ → ℕ → Text → Text → Option Text
replace_range start stop new t = if ltb stop start then none else do
  (before, rest) ← split_at start t
  (removed, after) ← split_at (stop - start) rest
  some (before ++ (new ++ after))

-- The digits of a number below 10 ^ 20.
unfoldable pub digits : ℕ → ℕ → Text
digits zero n = []
digits (suc fuel) n =
    let rest = digits fuel (n / 10) in
    if ltb n 10 then (48 + n) ∷ [] else rest ++ (48 + n % 10) ∷ []

abbrev pub decimal : ℕ → Text
decimal n = digits 20 n
