-- ===== src/Composer/Order.antt =====
-- The order of the images of a draft, crates/misy-tui/src/tui/composer_attachment.rs.
use misy.Common.{
  if_cases, ℕ, ◌+◌, ◌-◌, ◌≤◌, ◌<◌, true, Option, none, some, [], ◌∷◌, ◌++◌, map, ◌≡◌, refl, sym, ap,
  ◌∙◌, arith, ltb, ltb→lt, leb, append-nil,
}
use misy.Common.Texts.{Text}
use misy.Common.Utf8.{digits, len_utf8, byte_len, split_at, ◌>>=◌, insert_at, replace_range}
use misy.Common.Offsets.{byte_len-append, split_at-append, split_at_beyond}
use misy.Composer.{
  Draft, image_of, image_label, placed, insertion, insert_image, inserted, shift_for_insert,
  without_tokens, draft,
}

split_at-all : (t : Text) → split_at (byte_len t) t ≡ some (t, [])
split_at-all t = ap (split_at (byte_len t)) (sym (append-nil t)) ∙ split_at-append t []

abbrev joined : Text → Text → Text × Text → Option Text
joined before new parts = some (before ++ (new ++ parts.1))

replace_range_after :
    (start stop : ℕ) (new t before rest : Text)
    → start ≤ stop
    → split_at start t ≡ some (before, rest)
    → replace_range start stop new t ≡ (split_at (stop - start) rest >>= joined before new)
unfolding replace_range
replace_range_after start stop new t before rest h e =
    if_cases (λ r. r ≡ (split_at (stop - start) rest >>= joined before new)) (ltb stop start) none
      (split_at start t >>= (λ x. split_at (stop - start) x.1 >>= joined x.0 new))
      (λ less. absurd (let l = ltb→lt stop start less in omega (arith, l)))
      (λ more. ap (λ r. r >>= (λ x. split_at (stop - start) x.1 >>= joined x.0 new)) e)

-- A range that begins at the end of a text and is not empty is out of it.
replace_beyond :
    (t new : Text) (bytes : ℕ)
    → 0 < bytes
    → replace_range (byte_len t) (byte_len t + bytes) new t ≡ none
unfolding byte_len
replace_beyond t new bytes b =
    replace_range_after (byte_len t) (byte_len t + bytes) new t t [] (omega arith) (split_at-all t)
    ∙ ap (λ n. split_at n [] >>= joined t new) (omega arith)
    ∙ ap (λ r. r >>= joined t new) (split_at_beyond bytes [] b)

replace_front : (xs ys : Text) → replace_range 0 (byte_len xs) [] (xs ++ ys) ≡ some ys
replace_front xs ys =
    replace_range_after 0 (byte_len xs) [] (xs ++ ys) [] (xs ++ ys) (omega arith)
      (unfold split_at in refl)
    ∙ ap (λ n. split_at n (xs ++ ys) >>= joined [] []) (omega arith)
    ∙ ap (λ r. r >>= joined [] []) (split_at-append xs ys)

insert_end : (t new : Text) → insert_at (byte_len t) new t ≡ some (t ++ new)
unfolding insert_at
insert_end t new =
    ap (λ r. r >>= (λ x. some (x.0 ++ (new ++ x.1)))) (split_at-all t)
    ∙ ap (λ u. some (t ++ u)) (append-nil new)

insert_front : (t new : Text) → insert_at 0 new t ≡ some (new ++ t)
unfolding insert_at split_at
insert_front t new = refl

abbrev labelled : ℕ → ℕ
labelled n = byte_len (insertion n)

one_length : (t : Text) → byte_len (t ++ insertion 1) ≡ byte_len t + labelled 2
unfolding byte_len len_utf8 image_label digits
one_length t = byte_len-append t (insertion 1)

second_beyond :
    (t : Text)
    → replace_range
        (byte_len t + labelled 2)
        (byte_len t + labelled 1 + labelled 2)
        []
        (t ++ insertion 1)
      ≡ none
unfolding byte_len len_utf8 image_label digits
second_beyond t =
    ap (λ n. replace_range n (n + 11) [] (t ++ insertion 1)) (sym (one_length t))
    ∙ replace_beyond (t ++ insertion 1) [] 11 (omega arith)

module _ {Image : Type 0} where
  -- A draft with the text, its cursor at the end and no image.
  abbrev pub typed : Text → Draft Image
  typed t = record { text = t; cursor = byte_len t; images = [] }

  abbrev pub one : Text → Image → Draft Image
  one t a = record {
    text = t ++ insertion 1;
    cursor = byte_len t + labelled 1;
    images = record { image = a; start = byte_len t; stop = byte_len t + labelled 1 } ∷ [];
  }

  -- The cursor is moved to the front, `Composer::move_home`.
  abbrev pub home : Draft Image → Draft Image
  home d = record d { cursor = 0 }

  abbrev pub both : Text → Image → Image → Draft Image
  both t a b = record {
    text = insertion 2 ++ (t ++ insertion 1);
    cursor = labelled 2;
    images =
        record {
          image = a;
          start = byte_len t + labelled 2;
          stop = byte_len t + labelled 1 + labelled 2;
        }
        ∷ record { image = b; start = 0; stop = labelled 2 }
        ∷ [];
  }

  insert_first : (t : Text) (a : Image) → insert_image (typed t) a ≡ some (placed (one t a))
  unfolding insert_image shift_for_insert
  insert_first t a =
      ap (λ r. r >>= λ text. some (placed (inserted (typed t) a (labelled 1) text)))
        (insert_end t (insertion 1))

  insert_second :
      (t : Text) (a b : Image) → insert_image (home (one t a)) b ≡ some (placed (both t a b))
  unfolding insert_image shift_for_insert byte_len image_label digits
  insert_second t a b =
      let behind : leb 0 (byte_len t) ≡ true = ground arith in
      ap (λ r. r >>= λ text. some (placed (inserted (home (one t a)) b (labelled 2) text)))
        (insert_front (t ++ insertion 1) (insertion 2))
      ∙ rw behind refl

  without_both : (t : Text) (a b : Image) → draft (both t a b).images (both t a b).text ≡ none
  unfolding draft without_tokens
  without_both t a b =
      ap
        (λ r.
          r
          >>= (λ rest.
              replace_range (byte_len t + labelled 2) (byte_len t + labelled 1 + labelled 2) []
                rest)
          >>= λ plain. some (record { text = plain; images = map image_of (both t a b).images }))
        (replace_front (insertion 2) (t ++ insertion 1))
      ∙ ap
          (λ r. r >>= λ plain.
            some (record { text = plain; images = map image_of (both t a b).images }))
          (second_beyond t)

  -- Two images, the second put in front of the first: whatever the text, the draft is not given,
  -- since the range of the first is out of the text that is left without the second.
  pub draft_panics :
      (t : Text) (a b : Image)
      → (insert_image (typed t) a ≡ some (placed (one t a)))
        × (insert_image (home (one t a)) b ≡ some (placed (both t a b)))
        × (draft (both t a b).images (both t a b).text ≡ none)
  draft_panics t a b = (insert_first t a, insert_second t a b, without_both t a b)
