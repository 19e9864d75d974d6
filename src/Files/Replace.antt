-- ===== src/Files/Replace.antt =====
-- Exact replacement, crates/misy-core/src/tools/string_replace.rs: `replace` and its checks. The
-- arguments of the call are decoded, and the write to the disk is an argument.
use misy.Common.{
  ℕ, zero, suc, ◌+◌, ◌-◌, ◌*◌, Bool, not, ◌&&◌, [], ◌∷◌, ◌++◌, length, ltb, leb, ◌==◌,
  if◌then◌else◌, u64_max,
}
use misy.Common.Texts.{Text, is_empty, text_eq, starts_with}
use misy.Files.{FileError, FileResult, Disk, Utf8, max_text_file_bytes, read_complete_utf8_file}

pub data ReplaceError : Type 0 where
  old_empty old_is_new not_found ambiguous overflow exceeds_limit not_written : ReplaceError
  file : FileError → ReplaceError

pub data Replaced (A : Type 0) : Type 0 where
  ok : A → Replaced A
  err : ReplaceError → Replaced A

infixl 5 ◌>>=◌ ◌>>◌
abbrev pub ◌>>=◌ : {A B : Type 0} → Replaced A → (A → Replaced B) → Replaced B
◌>>=◌ (ok a) next = next a
◌>>=◌ (err e) next = err e

abbrev pub ◌>>◌ : {A : Type 0} → Replaced (Unit {0}) → Replaced A → Replaced A
first >> second = first >>= λ _. second

-- The occurrences of a text that is not empty, from the left and apart (`str::match_indices`); the
-- number says how many bytes of the last occurrence are still ahead.
unfoldable pub count_matches : Text → ℕ → Text → ℕ
unfolding starts_with
count_matches old skip [] = 0
count_matches old (suc skip) (c ∷ cs) = count_matches old skip cs
count_matches old zero (c ∷ cs) =
    let at_match = count_matches old (length old - 1) cs in
    let onward = count_matches old 0 cs in if starts_with old (c ∷ cs) then suc at_match else onward

-- `str::replacen`: at most `n` occurrences are replaced.
unfoldable pub replacen : Text → Text → ℕ → ℕ → Text → Text
unfolding starts_with
replacen old new n skip [] = []
replacen old new n (suc skip) (c ∷ cs) = replacen old new n skip cs
replacen old new zero zero (c ∷ cs) = c ∷ cs
replacen old new (suc n) zero (c ∷ cs) =
    let at_match = replacen old new n (length old - 1) cs in
    let onward = replacen old new (suc n) 0 cs in
    if starts_with old (c ∷ cs) then new ++ at_match else c ∷ onward

-- `str::replace`.
unfoldable pub replace_all_matches : Text → Text → ℕ → Text → Text
unfolding starts_with
replace_all_matches old new skip [] = []
replace_all_matches old new (suc skip) (c ∷ cs) = replace_all_matches old new skip cs
replace_all_matches old new zero (c ∷ cs) =
    let at_match = replace_all_matches old new (length old - 1) cs in
    let onward = replace_all_matches old new 0 cs in
    if starts_with old (c ∷ cs) then new ++ at_match else c ∷ onward

unfoldable pub validate_fragments : Text → Text → Replaced (Unit {0})
validate_fragments old new =
    if is_empty old then err old_empty else if text_eq old new then err old_is_new else ok tt

unfoldable pub validate_match_count : ℕ → Bool → Replaced (Unit {0})
validate_match_count count replace_all =
    if count == 0
    then err not_found
    else if ltb 1 count && not replace_all
    then err ambiguous
    else ok tt

-- The checked operations of `usize`.
abbrev pub checked_mul : ℕ → ℕ → Replaced ℕ
checked_mul a b = if leb (a * b) u64_max then ok (a * b) else err overflow

abbrev pub checked_sub : ℕ → ℕ → Replaced ℕ
checked_sub a b = if leb b a then ok (a - b) else err overflow

abbrev pub checked_add : ℕ → ℕ → Replaced ℕ
checked_add a b = if leb (a + b) u64_max then ok (a + b) else err overflow

unfoldable pub projected_length : ℕ → ℕ → ℕ → ℕ → Replaced ℕ
projected_length input_len matches old_len new_len = do
  removed ← checked_mul matches old_len
  remaining ← checked_sub input_len removed
  added ← checked_mul matches new_len
  checked_add remaining added

abbrev pub from_file : {A : Type 0} → FileResult A → Replaced A
from_file (FileResult.ok a) = ok a
from_file (FileResult.err e) = err (file e)

abbrev pub within_limit : ℕ → Replaced (Unit {0})
within_limit n = if ltb max_text_file_bytes n then err exceeds_limit else ok tt

-- `fs::write`: whether the file system took the text.
abbrev pub write : (Text → Bool) → Text → Replaced (Unit {0})
write disk text = if disk text then ok tt else err not_written

-- The part of `replace` that follows the read.
unfoldable pub replace_in : (Text → Bool) → Text → Text → Bool → Text → Replaced (ℕ × Text)
replace_in disk old new replace_all content = do
  let count = count_matches old 0 content
  validate_match_count count replace_all
  projected ← projected_length (length content) count (length old) (length new)
  within_limit projected
  let replacement =
      if replace_all then replace_all_matches old new 0 content else replacen old new 1 0 content
  write disk replacement
  ok (count, replacement)

-- The number of matches, and the text that was written.
unfoldable pub replace : Utf8 → (Text → Bool) → Disk → Text → Text → Bool → Replaced (ℕ × Text)
replace u disk d old new replace_all = do
  validate_fragments old new
  content ← from_file (read_complete_utf8_file u d)
  replace_in disk old new replace_all content
