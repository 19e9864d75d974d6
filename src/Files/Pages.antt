-- ===== src/Files/Pages.antt =====
-- The lines of a file and the pages that follow one another.
use misy.Common.{ℕ, zero, suc, ◌<◌, List, ◌++◌, take, drop, Option, none, some}
use misy.Common.Texts.{Text}
use misy.Files.{BoundedText}
use misy.Files.Paging.{
  Span, line_spans, next_offset, read_boundary_reached, end_of_file, Terminal, format_page,
}

abbrev with_lines : Text → Option Text → Option Text
with_lines lines none = none
with_lines lines (some more) = some (lines ++ more)

abbrev onward : Text → (ℕ → Option Text) → Terminal → Option Text
onward lines later (next_offset next) = with_lines lines (later next)
onward lines later read_boundary_reached = some lines
onward lines later end_of_file = some lines

-- The lines of the pages from an offset on, as long as a page names the next; none, if there are
-- more pages than the fuel.
unfoldable pub read_pages : BoundedText → ℕ → ℕ → ℕ → Option Text
read_pages p zero offset limit = none
read_pages p (suc fuel) offset limit =
    onward (format_page p offset limit).lines (λ next. read_pages p fuel next limit)
      (format_page p offset limit).terminal

module _ (p : BoundedText) (limit : ℕ) (some_limit : 0 < limit) where
  abbrev shown : ℕ → List Span
  shown i = take limit (drop i (line_spans p.content))

  abbrev later : ℕ → ℕ → Option Text
  later fuel next = read_pages p fuel next limit
