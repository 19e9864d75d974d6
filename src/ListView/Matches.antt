-- ===== src/ListView/Matches.antt =====
-- The rows that match a query, `matches_query` of crates/misy-tui/src/tui/list.rs.
use misy.Common.{
  ◌≡◌, refl, sym, ap, ◌↔◌, ◌⊎◌, inl, inr, Bool, true, false, ◌||◌, Option, none, some, List, [],
  ◌∷◌, ◌++◌, any, if◌then◌else◌,
}
use misy.Common.Texts.{Text, is_empty, contains}
use misy.Common.Occurs.{Occurs, contains_iff}
use misy.ListView.{ListRow}
use misy.ListView.View.{is_some_and, matches_query}

module _ (to_lowercase : Text → Text) (q : Text) where
  abbrev InSome : Option Text → Type 0
  InSome none = ⊥
  InSome (some t) = Occurs q (to_lowercase t)

  abbrev pub InOne : List Text → Type 0
  InOne [] = ⊥
  InOne (t ∷ ts) = Occurs q (to_lowercase t) ⊎ InOne ts

module _ {A : Type 0} (to_lowercase : Text → Text) (q : Text) where
  -- The text occurs in the label, in the description or in a search term, all in lower case.
  abbrev pub MatchesRow : ListRow A → Type 0
  MatchesRow row =
      Occurs q (to_lowercase row.label)
      ⊎ (InSome to_lowercase q row.description ⊎ InOne to_lowercase q row.search_terms)

  abbrev pub MatchesAt : Option (ListRow A) → Type 0
  MatchesAt none = ⊥
  MatchesAt (some row) = MatchesRow row

or_iff :
    {P Q : Type 0} (a b : Bool) → ((a ≡ true) ↔ P) → ((b ≡ true) ↔ Q) → ((a || b) ≡ true) ↔ (P ⊎ Q)
or_iff true b f g = (λ e. inl (f.0 refl), λ x. refl)
or_iff false b f g = (λ e. inr (g.0 e), λ x. elim x [ inl p ↦ absurd (no (f.1 p)) | inr q ↦ g.1 q ])
  where
    no : false ≡ true → ⊥
    no e = cc

-- The test of `any`.
if_iff :
    {P Q : Type 0} (a b : Bool)
    → ((a ≡ true) ↔ P)
    → ((b ≡ true) ↔ Q)
    → ((if a then true else b) ≡ true) ↔ (P ⊎ Q)
if_iff true b f g = or_iff true b f g
if_iff false b f g = or_iff false b f g

is_empty_iff : (t : Text) → (is_empty t ≡ true) ↔ (t ≡ [])
unfolding is_empty
is_empty_iff [] = (λ e. refl, λ e. refl)
is_empty_iff (c ∷ cs) = (λ e. absurd cc, λ e. absurd cc)

module _ (to_lowercase : Text → Text) (q : Text) where
  InSome-iff :
      (o : Option Text)
      → (is_some_and (λ d. contains q (to_lowercase d)) o ≡ true) ↔ InSome to_lowercase q o
  InSome-iff none = (λ e. absurd cc, λ x. absurd x)
  InSome-iff (some t) = contains_iff q (to_lowercase t)

  InOne-iff :
      (ts : List Text)
      → (any (λ t. contains q (to_lowercase t)) ts ≡ true) ↔ InOne to_lowercase q ts
  InOne-iff [] = (λ e. absurd cc, λ x. absurd x)
  InOne-iff (t ∷ ts) =
      if_iff (contains q (to_lowercase t)) (any (λ u. contains q (to_lowercase u)) ts)
        (contains_iff q (to_lowercase t)) (InOne-iff ts)

module _ {A : Type 0} (to_lowercase : Text → Text) (q : Text) where
  -- An empty query occurs in the label.
  matches_query_iff :
      (row : ListRow A) → (matches_query to_lowercase q row ≡ true) ↔ MatchesRow to_lowercase q row
  unfolding matches_query
  matches_query_iff row =
      let label : Bool = contains q (to_lowercase row.label) in
      let description : Bool = is_some_and (λ d. contains q (to_lowercase d)) row.description in
      let whole =
        or_iff ((is_empty q || label) || description)
          (any (λ t. contains q (to_lowercase t)) row.search_terms)
          (or_iff (is_empty q || label) description
            (or_iff (is_empty q) label (is_empty_iff q) (contains_iff q (to_lowercase row.label)))
            (InSome-iff to_lowercase q row.description))
          (InOne-iff to_lowercase q row.search_terms) in
      (
        λ e. elim (whole.0 e) [
          | inl (inl (inl e')) ↦
              inl ([], to_lowercase row.label, ap (λ p. p ++ to_lowercase row.label) (sym e'))
          | inl (inl (inr x)) ↦ inl x
          | inl (inr x) ↦ inr (inl x)
          | inr x ↦ inr (inr x)
        ],
        λ x. elim x [
          | inl y ↦ whole.1 (inl (inl (inr y)))
          | inr (inl y) ↦ whole.1 (inl (inr y))
          | inr (inr y) ↦ whole.1 (inr y)
        ],
      )

  pub MatchesAt-iff :
      (o : Option (ListRow A))
      → (is_some_and (matches_query to_lowercase q) o ≡ true) ↔ MatchesAt to_lowercase q o
  MatchesAt-iff none = (λ e. absurd cc, λ x. absurd x)
  MatchesAt-iff (some row) = matches_query_iff row
