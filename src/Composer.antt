-- ===== src/Composer.antt =====
-- The composer of the terminal client. Here are the images of a draft,
-- crates/misy-tui/src/tui/composer_attachment.rs: each has a token in the text, a range of bytes. An
-- image is a value of a type of its own; a range that is out of the text, a panic, is none.
pub mod Table
pub mod Commands
pub mod Order
pub mod Edits
pub mod Display
pub mod History
pub mod Recall
pub mod Boundaries
pub mod Calls
pub mod Removals
pub mod Edited
pub mod Safety
pub mod Runs
mod Examples
use misy.Common.{
  ℕ, zero, suc, ◌+◌, ◌-◌, Bool, ◌&&◌, Option, none, some, List, [], ◌∷◌, ◌++◌, map, length, ltb,
  leb, if◌then◌else◌, saturating_sub,
}
use misy.Common.Texts.{Text, trim}
use misy.Common.Utf8.{byte_len, ◌>>=◌, insert_at, replace_range, decimal}

abbrev pub max_submission_images : ℕ
max_submission_images = 4

pub record AttachedImage (Image : Type 0) : Type 0 where
  pub image : Image
  pub start : ℕ
  pub stop : ℕ

pub record ComposerDraft (Image : Type 0) : Type 0 where
  pub text : Text
  pub images : List Image

-- The label of an image, "[Image #1]" and so on, and the space behind it.
unfoldable pub image_label : ℕ → Text
image_label n = (91 ∷ 73 ∷ 109 ∷ 97 ∷ 103 ∷ 101 ∷ 32 ∷ 35 ∷ []) ++ (decimal n ++ 93 ∷ [])

abbrev pub insertion : ℕ → Text
insertion n = image_label n ++ 32 ∷ []

module _ (Image : Type 0) where
  -- The text, the cursor and the images of a draft.
  pub record Draft : Type 0 where
    pub text : Text
    pub cursor : ℕ
    pub images : List (AttachedImage Image)

  pub data Inserted : Type 0 where
    placed : Draft → Inserted
    too_many : Inserted

module _ {Image : Type 0} where
  abbrev pub shifted : ℕ → AttachedImage Image → AttachedImage Image
  shifted bytes a = record a { start = a.start + bytes; stop = a.stop + bytes }

  unfoldable pub shift_for_insert : ℕ → ℕ → List (AttachedImage Image) → List (AttachedImage Image)
  shift_for_insert at bytes [] = []
  shift_for_insert at bytes (a ∷ more) =
      (if leb at a.start then shifted bytes a else a) ∷ shift_for_insert at bytes more

  abbrev shifted_back : ℕ → AttachedImage Image → AttachedImage Image
  shifted_back bytes a = record a { start = a.start - bytes; stop = a.stop - bytes }

  -- The source subtracts only from offsets behind what was removed.
  unfoldable pub shift_for_remove : ℕ → ℕ → List (AttachedImage Image) → List (AttachedImage Image)
  shift_for_remove start stop [] = []
  shift_for_remove start stop (a ∷ more) =
      (if leb stop a.start then shifted_back (saturating_sub stop start) a else a)
      ∷ shift_for_remove start stop more

  abbrev pub inserted : Draft Image → Image → ℕ → Text → Draft Image
  inserted d image bytes text = record {
    text = text;
    cursor = d.cursor + bytes;
    images =
        shift_for_insert d.cursor bytes d.images
        ++ record { image = image; start = d.cursor; stop = d.cursor + bytes } ∷ [];
  }

  unfoldable pub insert_image : Draft Image → Image → Option (Inserted Image)
  unfolding shift_for_insert
  insert_image d image = if leb max_submission_images (length d.images) then some too_many else do
    text ← insert_at d.cursor (insertion (length d.images + 1)) d.text
    some (placed (inserted d image (byte_len (insertion (length d.images + 1))) text))

  -- Labels by position in the list, from the given number on.
  unfoldable pub renumber : ℕ → List (AttachedImage Image) → Text → Option Text
  renumber n [] text = some text
  renumber n (a ∷ more) text = do
    text' ← replace_range a.start (saturating_sub a.stop 1) (image_label n) text
    renumber (suc n) more text'

  abbrev remove_at_index : ℕ → List (AttachedImage Image) → List (AttachedImage Image)
  remove_at_index i [] = []
  remove_at_index zero (a ∷ more) = more
  remove_at_index (suc i) (a ∷ more) = a ∷ remove_at_index i more

  unfoldable pub remove_token : Draft Image → ℕ → AttachedImage Image → Option (Draft Image)
  unfolding shift_for_remove renumber
  remove_token d index token = do
    drained ← replace_range token.start token.stop [] d.text
    let images = shift_for_remove token.start token.stop (remove_at_index index d.images)
    text ← renumber 1 images drained
    some (record { text = text; cursor = token.start; images = images })

  -- The first image whose token passes a test, with its index.
  abbrev found_next : Option (ℕ × AttachedImage Image) → Option (ℕ × AttachedImage Image)
  found_next none = none
  found_next (some (i, a)) = some (suc i, a)

  unfoldable pub position :
      (AttachedImage Image → Bool) → List (AttachedImage Image) → Option (ℕ × AttachedImage Image)
  position p [] = none
  position p (a ∷ more) =
      let rest = found_next (position p more) in if p a then some (0, a) else rest

  abbrev removed_found :
      Draft Image → Option (ℕ × AttachedImage Image) → Option (Option (Draft Image))
  removed_found d none = some none
  removed_found d (some (i, a)) = remove_token d i a >>= λ e. some (some e)

  -- None inside: there is no token there.
  unfoldable pub remove_before : Draft Image → Option (Option (Draft Image))
  unfolding position
  remove_before d =
      removed_found d (position (λ a. ltb a.start d.cursor && leb d.cursor a.stop) d.images)

  unfoldable pub remove_at : Draft Image → Option (Option (Draft Image))
  unfolding position
  remove_at d =
      removed_found d (position (λ a. leb a.start d.cursor && ltb d.cursor a.stop) d.images)

  -- The tokens are cut out from the last image to the first.
  unfoldable pub without_tokens : List (AttachedImage Image) → Text → Option Text
  without_tokens [] text = some text
  without_tokens (a ∷ more) text = do
    rest ← without_tokens more text
    replace_range a.start a.stop [] rest

  abbrev pub image_of : AttachedImage Image → Image
  image_of a = a.image

  unfoldable pub draft : List (AttachedImage Image) → Text → Option (ComposerDraft Image)
  unfolding without_tokens
  draft images text = do
    plain ← without_tokens images text
    some (record { text = plain; images = map image_of images })

  unfoldable pub history_text : List (AttachedImage Image) → Text → Option Text
  unfolding without_tokens
  history_text images text = do plain ← without_tokens images text; some (trim plain)
