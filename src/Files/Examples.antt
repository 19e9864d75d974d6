-- ===== src/Files/Examples.antt =====
-- The theorems on files at a file of three lines.
use misy.Common.{◌≡◌, refl, true, false, some, [], ◌∷◌, length}
use misy.Common.Texts.{Text, is_empty, text_eq}
use misy.Files.{Disk, Utf8, FileResult, BoundedText, read_complete_utf8_file}
use misy.Files.Replace.{
  ok, count_matches, replace_all_matches, validate_fragments, validate_match_count,
  projected_length, replace_in, replace,
}
use misy.Files.Length.{Replaces, replace_lem}

abbrev any_bytes : Utf8
any_bytes = record {
  is_valid = λ t. true;
  valid_up_to = length;
  is_cut = λ t. false;
  from_utf8_lossy = λ t. t;
}

abbrev small_file : Disk
small_file = record {
  metadata = some (record { is_file = true; len = 5 });
  bytes = some (97 ∷ 10 ∷ 97 ∷ 98 ∷ 97 ∷ []);
}

replace_runs :
    replace any_bytes (λ t. true) small_file (97 ∷ []) (99 ∷ 99 ∷ []) true
    ≡ ok (3, 99 ∷ 99 ∷ 10 ∷ 99 ∷ 99 ∷ 98 ∷ 99 ∷ 99 ∷ [])
unfolding replace replace_in validate_fragments validate_match_count projected_length count_matches
    replace_all_matches read_complete_utf8_file is_empty text_eq
replace_runs = refl

replace_lem_example :
    (content : Text) × (read_complete_utf8_file any_bytes small_file ≡ FileResult.ok content)
    × Replaces
        (λ t. true)
        (97 ∷ [])
        (99 ∷ 99 ∷ [])
        true
        content
        3
        (99 ∷ 99 ∷ 10 ∷ 99 ∷ 99 ∷ 98 ∷ 99 ∷ 99 ∷ [])
replace_lem_example =
    replace_lem any_bytes (λ t. true) small_file (97 ∷ []) (99 ∷ 99 ∷ []) true 3
      (99 ∷ 99 ∷ 10 ∷ 99 ∷ 99 ∷ 98 ∷ 99 ∷ 99 ∷ []) replace_runs

abbrev two_lines : BoundedText
two_lines = record {
  content = 97 ∷ 10 ∷ 98 ∷ 99 ∷ [];
  read_boundary_reached = false;
  physical_bytes = 4;
}
