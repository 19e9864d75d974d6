-- ===== src/Common/Assoc.antt =====
-- Ordered maps with number keys (`BTreeMap`): association lists in rising order of the keys.
use Prim.Native.Nat.{ℕ, ◌+◌, ◌<◌}
use mathlib.Core.Path.{◌≡◌, refl}
use mathlib.Core.Option.{Option, none, some}
use mathlib.Core.List.{List, [], ◌∷◌}
use native.Mathlib.Omega.{arith}
use misy.Common.Tests.{ltb, ◌==◌, if◌then◌else◌}

abbrev pub Assoc {ℓ} : Type ℓ → Type ℓ
Assoc V = List (ℕ × V)

module _ {ℓ} {V : Type ℓ} where
  -- `BTreeMap::insert`.
  unfoldable pub insert : ℕ → V → Assoc V → Assoc V
  insert k value [] = (k, value) ∷ []
  insert k value ((i, old) ∷ rest) =
      let later = (i, old) ∷ insert k value rest in
      if i == k then (k, value) ∷ rest else if ltb k i then (k, value) ∷ (i, old) ∷ rest else later

  -- `BTreeMap::remove`.
  unfoldable pub remove : ℕ → Assoc V → Assoc V
  remove k [] = []
  remove k ((i, old) ∷ rest) = let kept = remove k rest in if i == k then kept else (i, old) ∷ kept

  -- `BTreeMap::get`.
  unfoldable pub lookup : ℕ → Assoc V → Option V
  lookup k [] = none
  lookup k ((i, value) ∷ rest) = if i == k then some value else lookup k rest

  pub lookup-remove :
      (k i : ℕ) (m : Assoc V) → lookup i (remove k m) ≡ (if k == i then none else lookup i m)
  unfolding remove lookup
  lookup-remove k i [] = ground arith
  lookup-remove k i ((x, value) ∷ rest) = ground (arith, lookup-remove k i rest)

  pub lookup-insert :
      (k i : ℕ) (value : V) (m : Assoc V)
      → lookup i (insert k value m) ≡ (if k == i then some value else lookup i m)
  unfolding insert lookup
  lookup-insert k i value [] = refl
  lookup-insert k i value ((x, old) ∷ rest) = ground (arith, lookup-insert k i value rest)

  -- How often a key stands in a map: at most once, unless the map was built by hand.
  abbrev pub count_key : ℕ → Assoc V → ℕ
  count_key k [] = 0
  count_key k ((j, v) ∷ m) = (if j == k then 1 else 0) + count_key k m

  pub count_key-eq_zero : (k : ℕ) (m : Assoc V) → lookup k m ≡ none → count_key k m ≡ 0
  unfolding lookup
  count_key-eq_zero k [] h = refl
  count_key-eq_zero k ((i, w) ∷ m) h = ground (arith, count_key-eq_zero k m)

  pub count_key-pos : (k : ℕ) (m : Assoc V) (v : V) → lookup k m ≡ some v → 0 < count_key k m
  unfolding lookup
  count_key-pos k [] v h = cc
  count_key-pos k ((i, w) ∷ m) v h = ground (arith, count_key-pos k m v)

  pub count_key-insert :
      (k j : ℕ) (v : V) (m : Assoc V)
      → count_key k m ≡ 0
      → count_key j (insert k v m) ≡ (if k == j then 1 else 0) + count_key j m
  unfolding insert
  count_key-insert k j v [] h = refl
  count_key-insert k j v ((i, w) ∷ m) h = ground (arith, count_key-insert k j v m)

  pub count_key-remove :
      (k j : ℕ) (m : Assoc V) → count_key j (remove k m) ≡ (if k == j then 0 else count_key j m)
  unfolding remove
  count_key-remove k j [] = ground arith
  count_key-remove k j ((i, w) ∷ m) = ground (arith, count_key-remove k j m)
