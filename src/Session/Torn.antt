-- ===== src/Session/Torn.antt =====
-- What is written behind a line that is not UTF-8: `append_json_line` and `load_path` of
-- crates/misy-core/src/core/session.rs.
use misy.Common.{
  Bool, true, false, Option, none, some, List, [], ◌∷◌, ◌++◌, ◌≡◌, refl, sym, subst, ap, ◌∙◌,
  modify_back, if◌then◌else◌, ◌==◌,
}
use misy.Session.{
  Line, SessionRecordLine, whole, unknown_record, garbled, unreadable, SessionFile, SessionHeader,
  session_version,
}
use misy.Session.Load.{
  Loaded, loaded, failed, unsupported_version, opened, load_line, load_lines, all_readable,
  load_path, with_header,
}
use misy.Session.Store.{
  Written, written, not_written, cut, cut_inside, unended, Io, append_json_line, write_line, add_to,
  merged, grown,
}

module _ {Json Image : Type 0} where
  -- Records that are written one after the other, each with what the file system answers.
  unfoldable pub write_all :
      SessionFile Json Image
      → List (SessionRecordLine Json Image × Io Json Image)
      → SessionFile Json Image
  write_all f [] = f
  write_all f ((line, o) ∷ more) = write_all (append_json_line f line o) more

module _ {Json Image : Type 0} (null : Json) where
  -- Two lists of lines that are read alike, and neither to its end.
  pub record Alike (xs ys : List (Line Json Image)) : Type 0 where
    pub stops : all_readable ys ≡ false
    pub same : (l : Loaded Json Image) → load_lines null l ys ≡ load_lines null l xs

  cons-Alike :
      (x : Line Json Image) (xs ys : List (Line Json Image))
      → (all_readable xs ≡ false → Alike xs ys)
      → all_readable (x ∷ xs) ≡ false
      → Alike (x ∷ xs) (x ∷ ys)
  unfolding load_lines
  cons-Alike unreadable xs ys h e = record { stops = refl; same = λ l. refl }
  cons-Alike (whole x) xs ys h e = record {
    stops = (h e).stops;
    same = λ l. (h e).same (load_line null l (whole x));
  }
  cons-Alike (unknown_record n) xs ys h e = record {
    stops = (h e).stops;
    same = λ l. (h e).same (load_line null l (unknown_record n));
  }
  cons-Alike garbled xs ys h e = record {
    stops = (h e).stops;
    same = λ l. (h e).same (load_line null l garbled);
  }

  append-Alike : (xs ys : List (Line Json Image)) → all_readable xs ≡ false → Alike xs (xs ++ ys)
  append-Alike [] ys e = absurd cc
  append-Alike (x ∷ xs) ys e = cons-Alike x xs (xs ++ ys) (append-Alike xs ys) e

  last-Alike :
      (j x : Line Json Image) → all_readable (x ∷ []) ≡ false → Alike (x ∷ []) (grown j x ∷ [])
  last-Alike j unreadable e = record { stops = refl; same = λ l. refl }
  last-Alike j (whole x) e = absurd cc
  last-Alike j (unknown_record n) e = absurd cc
  last-Alike j garbled e = absurd cc

  grown-Alike :
      (j : Line Json Image) (xs : List (Line Json Image))
      → all_readable xs ≡ false
      → Alike xs (modify_back (grown j) xs)
  grown-Alike j [] e = absurd cc
  grown-Alike j (x ∷ []) e = last-Alike j x e
  grown-Alike j (x ∷ y ∷ ys) e =
      cons-Alike x (y ∷ ys) (modify_back (grown j) (y ∷ ys)) (grown-Alike j (y ∷ ys)) e

  -- A file that is read as another one.
  pub record ReadAs (f g : SessionFile Json Image) : Type 0 where
    pub header : g.header ≡ f.header
    pub lines : Alike f.lines g.lines

  merged-ReadAs :
      (f : SessionFile Json Image) (o : Io Json Image) (xs : List (Line Json Image)) (ended : Bool)
      → f.lines ≡ xs
      → all_readable xs ≡ false
      → ReadAs f (record (merged f o xs) { ended = ended })
  merged-ReadAs f o [] ended same e = absurd cc
  merged-ReadAs f o (x ∷ xs) ended same e = record {
    header = refl;
    lines =
        subst (λ ls. Alike ls (merged f o (x ∷ xs)).lines) (sym same)
          (grown-Alike o.joined (x ∷ xs) e);
  }

  add_to-ReadAs :
      (b : Bool) (f : SessionFile Json Image) (o : Io Json Image) (line : Line Json Image)
      (ended : Bool)
      → all_readable f.lines ≡ false
      → ReadAs f (add_to b f o line ended)
  add_to-ReadAs true f o line ended e = record {
    header = refl;
    lines = append-Alike f.lines (line ∷ []) e;
  }
  add_to-ReadAs false f o line ended e = merged-ReadAs f o f.lines ended refl e

  write_line-ReadAs :
      (f : SessionFile Json Image) (line : SessionRecordLine Json Image) (o : Io Json Image)
      (w : Written)
      → all_readable f.lines ≡ false
      → ReadAs f (write_line f line o w)
  write_line-ReadAs f line o written e = add_to-ReadAs f.ended f o (whole line) true e
  write_line-ReadAs f line o not_written e = record {
    header = refl;
    lines = record { stops = e; same = λ l. refl };
  }
  write_line-ReadAs f line o cut e = add_to-ReadAs f.ended f o garbled false e
  write_line-ReadAs f line o cut_inside e = add_to-ReadAs f.ended f o unreadable false e
  write_line-ReadAs f line o unended e = add_to-ReadAs f.ended f o (whole line) false e

  write_all-ReadAs :
      (f : SessionFile Json Image) (ws : List (SessionRecordLine Json Image × Io Json Image))
      → all_readable f.lines ≡ false
      → ReadAs f (write_all f ws)
  unfolding write_all append_json_line
  write_all-ReadAs f [] e = record { header = refl; lines = record { stops = e; same = λ l. refl } }
  write_all-ReadAs f ((line, o) ∷ ws) e =
      let first : ReadAs f (write_line f line o o.outcome) =
        write_line-ReadAs f line o o.outcome e in
      let rest : ReadAs (write_line f line o o.outcome) (write_all (append_json_line f line o) ws) =
        write_all-ReadAs (append_json_line f line o) ws first.lines.stops in
      record {
        header = rest.header ∙ first.header;
        lines = record {
          stops = rest.lines.stops;
          same = λ l. rest.lines.same l ∙ first.lines.same l;
        };
      }

  with_header-Alike :
      (h : Option SessionHeader) (xs ys : List (Line Json Image))
      → Alike xs ys
      → with_header null h ys ≡ with_header null h xs
  with_header-Alike none xs ys a = refl
  with_header-Alike (some header) xs ys a =
      ap
        (λ l.
          if header.version == session_version
          then loaded header l
          else failed (unsupported_version header.version))
        (a.same (opened header))

  -- Whatever is written to a file with a line that is not UTF-8, and however the writes end: the file
  -- is read as it was before, so that none of the records is ever read back.
  pub load_path-write_all :
      (f : SessionFile Json Image) (ws : List (SessionRecordLine Json Image × Io Json Image))
      → all_readable f.lines ≡ false
      → load_path null (write_all f ws) ≡ load_path null f
  unfolding load_path
  load_path-write_all f ws e =
      let r : ReadAs f (write_all f ws) = write_all-ReadAs f ws e in
      ap (λ h. with_header null h (write_all f ws).lines) r.header
      ∙ with_header-Alike f.header f.lines (write_all f ws).lines r.lines
