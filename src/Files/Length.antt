-- ===== src/Files/Length.antt =====
-- What the replacement of crates/misy-core/src/tools/string_replace.rs writes, and how long it is.
use misy.Common.{
  ℕ, zero, suc, ◌+◌, ◌-◌, ◌*◌, ◌≤◌, ◌<◌, ◌≡◌, refl, subst, ◌⊎◌, inl, inr, Bool, true, false, [],
  ◌∷◌, length, length-append, arith, Bool-cases, if◌then◌else◌,
}
use misy.Common.Texts.{Text, starts_with, is_empty}
use misy.Files.{Disk, Utf8, FileResult, max_text_file_bytes, read_complete_utf8_file}
use misy.Files.Replace.{
  Replaced, ok, err, ◌>>=◌, count_matches, replacen, replace_all_matches, validate_fragments,
  validate_match_count, projected_length, from_file, within_limit, write, replace_in, replace,
}

starts_with-le : (p t : Text) → starts_with p t ≡ true → length p ≤ length t
unfolding starts_with
starts_with-le [] t h = omega arith
starts_with-le (c ∷ cs) [] h = cc
starts_with-le (c ∷ cs) (d ∷ ds) h = ground (arith, starts_with-le cs ds)

module _ (old new : Text) (some_old : 0 < length old) where
  -- The length of the result, where `skip` bytes still belong to the last match.
  length-replace_all :
      (skip : ℕ) (xs : Text)
      → skip ≤ length xs
      → length (replace_all_matches old new skip xs) + skip + count_matches old skip xs * length old
        ≡ length xs + count_matches old skip xs * length new
  unfolding replace_all_matches count_matches
  length-replace_all skip [] h = omega arith
  length-replace_all (suc skip) (c ∷ cs) h = omega (arith, length-replace_all skip cs)
  length-replace_all zero (c ∷ cs) h = elim (Bool-cases (starts_with old (c ∷ cs))) [
    | inl t ↦
        let fits : length old ≤ suc (length cs) = starts_with-le old (c ∷ cs) t in
        rw t (
          omega (
            arith,
            length-append new (replace_all_matches old new (length old - 1) cs),
            length-replace_all (length old - 1) cs (omega (arith, fits)),
          ))
    | inr f ↦ rw f (omega (arith, length-replace_all 0 cs))
  ]

  replacen_none : (xs : Text) → replacen old new 0 0 xs ≡ xs
  unfolding replacen
  replacen_none [] = refl
  replacen_none (c ∷ cs) = refl

  -- With no match ahead both replacements leave the text.
  replace_all-replacen_none :
      (skip : ℕ) (xs : Text)
      → count_matches old skip xs ≡ 0
      → replacen old new 0 skip xs ≡ replace_all_matches old new skip xs
  unfolding replace_all_matches count_matches replacen
  replace_all-replacen_none skip [] h = refl
  replace_all-replacen_none (suc skip) (c ∷ cs) h = replace_all-replacen_none skip cs h
  replace_all-replacen_none zero (c ∷ cs) h =
      ground (arith, replace_all-replacen_none 0 cs, replacen_none cs)

  replace_all-replacen :
      (skip : ℕ) (xs : Text)
      → count_matches old skip xs ≤ 1
      → replacen old new 1 skip xs ≡ replace_all_matches old new skip xs
  unfolding replace_all_matches count_matches replacen
  replace_all-replacen skip [] h = refl
  replace_all-replacen (suc skip) (c ∷ cs) h = replace_all-replacen skip cs h
  replace_all-replacen zero (c ∷ cs) h =
      ground (arith, replace_all-replacen 0 cs, replace_all-replacen_none (length old - 1) cs)

bind-ok :
    {A B : Type 0} (m : Replaced A) (next : A → Replaced B) {b : B}
    → (m >>= next) ≡ ok b
    → (a : A) × (m ≡ ok a) × (next a ≡ ok b)
bind-ok (ok a) next h = (a, refl, h)
bind-ok (err e) next h = absurd (cc)

projected_length_lem :
    (input matches old_len new_len p : ℕ)
    → projected_length input matches old_len new_len ≡ ok p
    → (matches * old_len ≤ input) × (p + matches * old_len ≡ input + matches * new_len)
unfolding projected_length
projected_length_lem input matches old_len new_len p h = ground arith

validate_fragments-ok :
    (old new : Text) (a : Unit {0}) → validate_fragments old new ≡ ok a → 0 < length old
unfolding validate_fragments is_empty
validate_fragments-ok [] new a h = absurd (cc)
validate_fragments-ok (c ∷ old) new a h = omega arith

validate_match_count-ok :
    (count : ℕ) (all : Bool) (a : Unit {0})
    → validate_match_count count all ≡ ok a
    → (0 < count) × ((all ≡ true) ⊎ (count ≤ 1))
unfolding validate_match_count
validate_match_count-ok count true a h = ground arith
validate_match_count-ok count false a h = ground arith

from_file-ok : {A : Type 0} (r : FileResult A) (a : A) → from_file r ≡ ok a → r ≡ FileResult.ok a
from_file-ok (FileResult.ok b) a h = ground arith
from_file-ok (FileResult.err e) a h = absurd (cc)

within_limit-ok : (n : ℕ) (a : Unit {0}) → within_limit n ≡ ok a → n ≤ max_text_file_bytes
within_limit-ok n a h = ground arith

write-ok : (disk : Text → Bool) (t : Text) (a : Unit {0}) → write disk t ≡ ok a → disk t ≡ true
write-ok disk t a h = ground arith

-- What is written replaces every match, whichever of the two calls the flag chooses.
written-replaces :
    (old new content : Text) (all : Bool)
    → 0 < length old
    → (all ≡ true) ⊎ (count_matches old 0 content ≤ 1)
    → (if all then replace_all_matches old new 0 content else replacen old new 1 0 content)
      ≡ replace_all_matches old new 0 content
written-replaces old new content true some_old h = refl
written-replaces old new content false some_old (inl h) = absurd (cc)
written-replaces old new content false some_old (inr h) =
    replace_all-replacen old new some_old 0 content h

-- What holds of a replacement of `content` by which `count` matches were found and `text` written.
pub record Replaces (disk : Text → Bool) (old new : Text) (all : Bool) (content : Text) (count : ℕ)
    (text : Text) : Type 0 where
  pub written : disk text ≡ true
  pub counted : count ≡ count_matches old 0 content
  pub found : 0 < count
  pub one : (all ≡ true) ⊎ (count ≤ 1)
  pub replaced : text ≡ replace_all_matches old new 0 content
  pub long : length text + count * length old ≡ length content + count * length new
  pub within : length text ≤ max_text_file_bytes

written-Replaces :
    (disk : Text → Bool) (old new : Text) (all : Bool) (content result : Text) (p : ℕ)
    → 0 < length old
    → 0 < count_matches old 0 content
    → (all ≡ true) ⊎ (count_matches old 0 content ≤ 1)
    → p + count_matches old 0 content * length old
      ≡ length content + count_matches old 0 content * length new
    → p ≤ max_text_file_bytes
    → disk result ≡ true
    → result ≡ replace_all_matches old new 0 content
    → Replaces disk old new all content (count_matches old 0 content) result
written-Replaces disk old new all content result p some_old found one exact small wrote same =
    let long = length-replace_all old new some_old 0 content (omega arith) in
    record {
      written = wrote;
      counted = refl;
      found = found;
      one = one;
      replaced = same;
      long = rw same (omega (arith, long));
      within = rw same (omega (arith, long, exact, small));
    }

result-Replaces :
    (disk : Text → Bool) (old new : Text) (all : Bool) (content : Text) (n : ℕ) (result : Text)
    (count : ℕ) (text : Text)
    → ◌≡◌ {A = Replaced (ℕ × Text)} (ok (n, result)) (ok (count, text))
    → Replaces disk old new all content n result
    → Replaces disk old new all content count text
result-Replaces disk old new all content n result count text h r =
    let same_count : n ≡ count = ground arith in
    let same_text : result ≡ text = ground arith in
    subst (λ c. Replaces disk old new all content c text) same_count
      (subst (Replaces disk old new all content n) same_text r)

replace_in-Replaces :
    (disk : Text → Bool) (old new : Text) (all : Bool) (content : Text) (count : ℕ) (text : Text)
    → 0 < length old
    → replace_in disk old new all content ≡ ok (count, text)
    → Replaces disk old new all content count text
unfolding replace_in
replace_in-Replaces disk old new all content count text some_old h =
    let n = count_matches old 0 content in
    let (b, some_match, h3) = bind-ok (validate_match_count n all) _ h in
    let (p, projected, h4) =
      bind-ok (projected_length (length content) n (length old) (length new)) _ h3 in
    let (c, fits, h5) = bind-ok (within_limit p) _ h4 in
    let (e, wrote, h6) = bind-ok (write disk _) _ h5 in
    let (found, one) = validate_match_count-ok n all b some_match in
    let (_, exact) =
      projected_length_lem (length content) n (length old) (length new) p projected in
    let done =
      written-Replaces disk old new all content _ p some_old found one exact
        (within_limit-ok p c fits) (write-ok disk _ e wrote)
        (written-replaces old new content all some_old one) in
    result-Replaces disk old new all content n _ count text h6 done

-- A replacement that succeeds has written the file that was read with every match replaced; it found
-- at least one match, and only one unless all were asked for. What is written has the length that
-- was projected, and is within the limit.
pub replace_lem :
    (u : Utf8) (disk : Text → Bool) (d : Disk) (old new : Text) (all : Bool) (count : ℕ)
    (text : Text)
    → replace u disk d old new all ≡ ok (count, text)
    → (content : Text) × (read_complete_utf8_file u d ≡ FileResult.ok content)
      × Replaces disk old new all content count text
unfolding replace
replace_lem u disk d old new all count text h =
    let (a, valid, h1) = bind-ok (validate_fragments old new) _ h in
    let (content, read, h2) = bind-ok (from_file (read_complete_utf8_file u d)) _ h1 in
    (
      content,
      from_file-ok (read_complete_utf8_file u d) content read,
      replace_in-Replaces disk old new all content count text
          (validate_fragments-ok old new a valid) h2,
    )
