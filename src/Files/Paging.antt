-- ===== src/Files/Paging.antt =====
-- Pages of a file, crates/misy-core/src/tools/filesystem.rs: `line_spans` and `format_page`. A page is
-- a record of what its text says; the printing of numbers and of the frame is left out.
use misy.Common.{
  ℕ, zero, suc, ◌+◌, ◌-◌, Bool, Option, none, some, List, [], ◌∷◌, ◌++◌, length, take, drop, back,
  ltb, leb, ◌==◌, if◌then◌else◌,
}
use misy.Common.Texts.{Text}
use misy.Files.{BoundedText}

-- `Range<usize>`: from a position to the one after the end.
abbrev pub Span : Type 0
Span = ℕ × ℕ

-- The loop of `line_spans` at an index, with the start of the line.
unfoldable pub spans_from : ℕ → ℕ → Text → List Span
spans_from index start [] = if ltb start index then (start, index) ∷ [] else []
spans_from index start (c ∷ cs) =
    let same = spans_from (index + 1) start cs in
    let fresh = spans_from (index + 1) (index + 1) cs in
    if c == 10 then (start, index + 1) ∷ fresh else same

unfoldable pub line_spans : Text → List Span
line_spans content = spans_from 0 0 content

-- `&content[span]`.
unfoldable pub slice : Text → Span → Text
slice content (a, b) = take (b - a) (drop a content)

-- The loop that writes the lines of a page.
unfoldable pub write_lines : Text → List Span → Text
write_lines content [] = []
write_lines content (s ∷ ss) = slice content s ++ write_lines content ss

pub data Terminal : Type 0 where
  next_offset : ℕ → Terminal
  read_boundary_reached end_of_file : Terminal

pub record Page : Type 0 where
  pub offset : ℕ
  pub range : Option Span
  pub lines : Text
  pub terminal : Terminal

-- The spans of a page that starts at an index: none if the index is past the end.
unfoldable pub selected_spans : List Span → ℕ → ℕ → List Span
selected_spans spans zero limit = []
selected_spans spans (suc index) limit =
    if leb index (length spans) then take limit (drop index spans) else []

abbrev range_of : ℕ → List Span → Option Span
range_of offset [] = none
range_of offset (s ∷ ss) = some (offset, offset + length (s ∷ ss) - 1)

abbrev pub terminal_of : Bool → ℕ → ℕ → ℕ → Terminal
terminal_of reached zero count total = if reached then read_boundary_reached else end_of_file
terminal_of reached (suc index) count total =
    if ltb (index + count) total
    then next_offset (suc index + count)
    else if reached
    then read_boundary_reached
    else end_of_file

unfoldable pub format_page : BoundedText → ℕ → ℕ → Page
format_page p offset limit =
    let spans = line_spans p.content in
    let selected = selected_spans spans offset limit in
    record {
      offset = offset;
      range = range_of offset selected;
      lines = write_lines p.content selected;
      terminal = terminal_of p.read_boundary_reached offset (length selected) (length spans);
    }

-- The lines as the page ends them: the last one is closed by a line feed.
abbrev closed : Text → Option ℕ → Text
closed lines none = lines
closed lines (some c) = if c == 10 then lines else lines ++ 10 ∷ []

unfoldable pub page_body : Page → Text
page_body p = closed p.lines (back p.lines)
