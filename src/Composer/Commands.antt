-- ===== src/Composer/Commands.antt =====
-- The slash commands of the composer, crates/misy-tui/src/tui/composer.rs: the token of a command in
-- a draft and the list of its completions.
use misy.Common.{
  ℕ, suc, ◌+◌, ◌-◌, ◌%◌, min, Bool, true, false, not, ◌||◌, Option, none, some, List, [], ◌∷◌,
  length, take, drop, get_elem?, ltb, ◌==◌, if◌then◌else◌, saturating_sub,
}
use misy.Common.Texts.{Text, is_whitespace, starts_with, text_eq}
use misy.Common.Utf8.{byte_len, split_at}
use misy.Composer.Table.{CommandDefinition, commands}

abbrev pub max_popup_rows : ℕ
max_popup_rows = 8

pub record CommandPopupRow : Type 0 where
  pub name : Text
  pub description : Text
  pub selected : Bool

pub record CommandPopup : Type 0 where
  pub selected : ℕ
  pub dismissed_token : Option Text

abbrev pub new_popup : CommandPopup
new_popup = record { selected = 0; dismissed_token = none }

-- The text behind a slash in front, `strip_prefix` and `unwrap_or_default`.
abbrev pub command_filter : Text → Text
command_filter [] = []
command_filter (c ∷ cs) = if c == 47 then cs else []

abbrev drop_first : Text → Text
drop_first [] = []
drop_first (c ∷ cs) = cs

abbrev pub name_matches : Text → CommandDefinition → Bool
name_matches filter command = starts_with filter (drop_first command.name)

unfoldable pub matching : Text → List CommandDefinition → List CommandDefinition
matching filter [] = []
matching filter (command ∷ more) =
    let rest = matching filter more in if name_matches filter command then command ∷ rest else rest

unfoldable pub matches : Text → List CommandDefinition
unfolding matching
matches text = matching (command_filter text) commands

-- The first line of a text, without its line feed.
unfoldable pub first_line : Text → Text
first_line [] = []
first_line (c ∷ cs) = let rest = first_line cs in if c == 10 then [] else c ∷ rest

unfoldable pub any_whitespace : Text → Bool
unfolding is_whitespace
any_whitespace [] = false
any_whitespace (c ∷ cs) = is_whitespace c || any_whitespace cs

unfoldable pub token_of : Text → ℕ → Option Text
unfolding first_line any_whitespace starts_with byte_len
token_of text cursor =
    if ltb (byte_len (first_line text)) cursor || not (starts_with (47 ∷ []) text)
    then none
    else if any_whitespace (first_line text)
    then none
    else some (first_line text)

abbrev at_boundary : Text → ℕ → Option (Text × Text) → Option Text
at_boundary text cursor none = none
at_boundary text cursor (some parts) = token_of text cursor

-- The command that is typed; none, too, with a cursor that is no boundary of the text.
unfoldable pub command_token : Text → ℕ → Option Text
unfolding token_of split_at
command_token text cursor = at_boundary text cursor (split_at cursor text)

abbrev pub same_token : Option Text → Option Text → Bool
same_token none none = true
same_token (some a) (some b) = text_eq a b
same_token _ _ = false

abbrev pub visible_for : CommandPopup → Option Text → Bool
visible_for popup none = false
visible_for popup (some token) = not (same_token popup.dismissed_token (some token))

unfoldable pub rows_from : ℕ → ℕ → List CommandDefinition → List CommandPopupRow
rows_from selected index [] = []
rows_from selected index (command ∷ more) =
    record { name = command.name; description = command.description; selected = index == selected }
    ∷ rows_from selected (suc index) more

abbrev pub scroll_top : CommandPopup → ℕ
scroll_top popup = saturating_sub (popup.selected + 1) max_popup_rows

-- The rows of the popup, with the first that is shown in place of those before it.
unfoldable pub popup_rows : CommandPopup → List CommandDefinition → List CommandPopupRow
unfolding rows_from
popup_rows popup found =
    take max_popup_rows (drop (scroll_top popup) (rows_from popup.selected 0 found))

unfoldable pub popup_up : Text → CommandPopup → CommandPopup
unfolding matches
popup_up text popup =
    let count = length (matches text) in
    if count == 0 then popup else record popup { selected = (popup.selected + count - 1) % count }

unfoldable pub popup_down : Text → CommandPopup → CommandPopup
unfolding matches
popup_down text popup =
    let count = length (matches text) in
    if count == 0 then popup else record popup { selected = (popup.selected + 1) % count }

abbrev pub name_of : Option CommandDefinition → Option Text
name_of none = none
name_of (some command) = some command.name

unfoldable pub selected_command : Text → CommandPopup → Option Text
unfolding matches
selected_command text popup = name_of (get_elem? (matches text) popup.selected)

-- A token that was dismissed stays so while it is the same.
unfoldable pub sync_popup : Text → ℕ → CommandPopup → CommandPopup
unfolding command_token matches
sync_popup text cursor popup = record {
  selected = min popup.selected (saturating_sub (length (matches text)) 1);
  dismissed_token =
      if same_token popup.dismissed_token (command_token text cursor)
      then popup.dismissed_token
      else none;
}

unfoldable pub dismissed_popup : Text → ℕ → CommandPopup
unfolding command_token
dismissed_popup text cursor = record { selected = 0; dismissed_token = command_token text cursor }
