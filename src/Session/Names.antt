-- ===== src/Session/Names.antt =====
-- The search for a saved conversation by its id, a file name or a prefix: `resolve_path` of
-- crates/misy-core/src/core/session.rs. The entries of the directory are in the order in which the
-- file system lists them, a name that is not UTF-8 without a stem.
use misy.Common.{
  ℕ, Bool, false, Option, none, some, List, [], ◌∷◌, ◌++◌, ◌≡◌, refl, ap, ◌∙◌, sym, map, retain,
  if◌then◌else◌, append_assoc, append-nil, Bool-cases, inl, inr,
}
use misy.Common.Texts.{Text, text_eq, starts_with}
use misy.Session.Store.{SessionError, not_found, ambiguous}

pub record DirectoryEntry : Type 0 where
  pub path : ℕ
  pub stem : Option Text

pub data Resolved : Type 0 where
  found : ℕ → Resolved
  failed : SessionError → Resolved

-- ".jsonl"
abbrev pub jsonl : Text
jsonl = 46 ∷ 106 ∷ 115 ∷ 111 ∷ 110 ∷ 108 ∷ []

-- `str::strip_suffix`.
unfoldable pub strip_suffix : Text → Text → Option Text
unfolding text_eq
strip_suffix suffix [] = if text_eq suffix [] then some [] else none
strip_suffix suffix (c ∷ cs) =
    let rest = strip_suffix suffix cs in
    if text_eq suffix (c ∷ cs) then some [] else elim rest [ none ↦ none | some t ↦ some (c ∷ t) ]

abbrev pub unwrap_or : Option Text → Text → Text
unwrap_or none t = t
unwrap_or (some s) t = s

abbrev pub one_match : Text → List ℕ → Resolved
one_match requested [] = failed (not_found requested)
one_match requested (path ∷ []) = found path
one_match requested (path ∷ p ∷ ps) = failed (ambiguous requested)

abbrev pub has_stem : (Text → Bool) → Option Text → Bool
has_stem p none = false
has_stem p (some stem) = p stem

-- The loop over the directory, with the matches so far.
unfoldable pub resolve_loop : Text → List DirectoryEntry → List ℕ → Resolved
resolve_loop requested [] matches = one_match requested matches
resolve_loop requested (e ∷ es) matches =
    let later = resolve_loop requested es matches in
    let with_match = resolve_loop requested es (matches ++ e.path ∷ []) in
    if has_stem (λ stem. text_eq stem requested) e.stem
    then found e.path
    else if has_stem (starts_with requested) e.stem
    then with_match
    else later

unfoldable pub resolve_path : Option (List DirectoryEntry) → Text → Resolved
resolve_path none requested = failed (not_found requested)
resolve_path (some es) requested =
    resolve_loop (unwrap_or (strip_suffix jsonl requested) requested) es []

-- The first entry with the very stem, and those whose stems begin with it.
abbrev pub exact_of : Text → List DirectoryEntry → Option ℕ
exact_of requested [] = none
exact_of requested (e ∷ es) =
    let rest = exact_of requested es in
    if has_stem (λ stem. text_eq stem requested) e.stem then some e.path else rest

abbrev pub prefixed_of : Text → List DirectoryEntry → List ℕ
prefixed_of requested es =
    map (λ (e : DirectoryEntry). e.path) (retain (λ e. has_stem (starts_with requested) e.stem) es)

abbrev pub chosen : Text → Option ℕ → List ℕ → Resolved
chosen requested (some path) matches = found path
chosen requested none matches = one_match requested matches

resolve_loop-chosen :
    (requested : Text) (es : List DirectoryEntry) (matches : List ℕ)
    → resolve_loop requested es matches
      ≡ chosen requested (exact_of requested es) (matches ++ prefixed_of requested es)
unfolding resolve_loop
resolve_loop-chosen requested [] matches = ap (one_match requested) (sym (append-nil matches))
resolve_loop-chosen requested (e ∷ es) matches =
    elim (Bool-cases (has_stem (λ stem. text_eq stem requested) e.stem)) [
      | inl x ↦ rw x refl
      | inr x ↦ elim (Bool-cases (has_stem (starts_with requested) e.stem)) [
        | inl p ↦
            rw (x, p)
              (resolve_loop-chosen requested es (matches ++ e.path ∷ [])
                ∙ ap (chosen requested (exact_of requested es))
                    (append_assoc matches (e.path ∷ []) (prefixed_of requested es)))
        | inr p ↦ rw (x, p) (resolve_loop-chosen requested es matches)
      ]
    ]

-- In a directory that exists, the session whose id is the text, or the text without ".jsonl", is
-- found wherever it stands; otherwise the only one whose id begins so, and none or several are
-- errors.
pub resolve_path-chosen :
    (requested : Text) (es : List DirectoryEntry)
    → (let name = unwrap_or (strip_suffix jsonl requested) requested in
        resolve_path (some es) requested ≡ chosen name (exact_of name es) (prefixed_of name es))
unfolding resolve_path
resolve_path-chosen requested es =
    resolve_loop-chosen (unwrap_or (strip_suffix jsonl requested) requested) es []
