-- ===== src/Session/Restored.antt =====
-- Resuming a conversation: `resume_session` of crates/misy-core/src/core/session_api.rs on what the calls
-- have written.
use misy.Common.{
  ℕ, min, Bool, true, false, Option, none, some, List, [], ◌∷◌, ◌≡◌, refl, sym, ap, subst, ◌∙◌,
  length, drop, map, arith, drop_all, inl, inr, Bool-cases, leb, leb→le, leb→lt, ==_iff,
  if◌then◌else◌,
}
use misy.Common.Assoc.{lookup}
use misy.Session.{
  SessionRecord, history_entry, model_change, thinking_change, compaction, todo_list_update, Line,
  whole, unknown_record, garbled, unreadable, SessionFile, SessionHeader, session_version,
}
use misy.Session.Load.{
  Loaded, loaded, failed, opened, load_record, load_line, load_lines, all_readable, load_path, seen,
  projected_history, summary_entry, unsupported_version, with_header,
}
use misy.Session.Store.{CurrentSession, attach}
use misy.Session.Live.{Live, clear_images, restored, restored_from, resume_session}
use misy.Session.Compaction.{Measures, Compactor}
use misy.Session.Saved.{Tail, KeptIn, SavedBy}
use misy.Session.Effects.{Tail-append}
use misy.Session.Keeping.{SavedLive}
use misy.Session.Calls.{Call, run, run-Saved}

module _ {Json Image : Type 0} where
  -- The same conversation but for the images of the active entries.
  pub record SameConversation (c d : Live Json Image) : Type 0 where
    pub history : c.history ≡ d.history
    pub active : map clear_images c.active_history ≡ map clear_images d.active_history
    pub todos : c.todos ≡ d.todos

drop-min : {A : Type 0} (n : ℕ) (xs : List A) → drop (min n (length xs)) xs ≡ drop n xs
drop-min n xs = elim (Bool-cases (leb n (length xs))) [
  | inl e ↦ ap (λ i. drop i xs) (omega (arith, leb→le n (length xs) e))
  | inr e ↦
      let lt = leb→lt n (length xs) e in
      drop_all (min n (length xs)) xs (omega (arith, lt)) ∙ sym (drop_all n xs (omega (arith, lt)))
]

module _ {Json Image : Type 0} (null : Json) where
  record-Tail :
      (l : Loaded Json Image) (r : SessionRecord Json Image)
      → Tail l.history l.active_history
      → Tail (load_record null l r).history (load_record null l r).active_history
  unfolding load_record projected_history
  record-Tail l (history_entry e) v = Tail-append l.history l.active_history e v
  record-Tail l (model_change model thinking) v = v
  record-Tail l (thinking_change thinking) v = v
  record-Tail l (todo_list_update todos) v = v
  record-Tail l (compaction c) v = record {
    head = summary_entry null c.summary ∷ [];
    start = min c.first_kept_index (length l.history);
    tail = ap (λ w. summary_entry null c.summary ∷ w) (sym (drop-min c.first_kept_index l.history));
    short = omega arith;
    within = omega arith;
  }

  line-Tail :
      (l : Loaded Json Image) (x : Line Json Image)
      → Tail l.history l.active_history
      → Tail (load_line null l x).history (load_line null l x).active_history
  unfolding load_line
  line-Tail l (whole x) v = record-Tail (seen l x.ordinal) x.record_ v
  line-Tail l (unknown_record n) v = v
  line-Tail l garbled v = v
  line-Tail l unreadable v = v

  lines-Tail :
      (l : Loaded Json Image) (xs : List (Line Json Image))
      → Tail l.history l.active_history
      → Tail (load_lines null l xs).history (load_lines null l xs).active_history
  unfolding load_lines
  lines-Tail l [] v = v
  lines-Tail l (unreadable ∷ xs) v = v
  lines-Tail l (whole x ∷ xs) v =
      lines-Tail (load_line null l (whole x)) xs (line-Tail l (whole x) v)
  lines-Tail l (unknown_record n ∷ xs) v =
      lines-Tail (load_line null l (unknown_record n)) xs (line-Tail l (unknown_record n) v)
  lines-Tail l (garbled ∷ xs) v = lines-Tail (load_line null l garbled) xs (line-Tail l garbled v)

  -- What is read from a file that can be read.
  pub load_path-loaded :
      (f : SessionFile Json Image) (header : SessionHeader)
      → f.header ≡ some header
      → header.version ≡ session_version
      → load_path null f ≡ loaded header (load_lines null (opened header) f.lines)
  unfolding load_path
  load_path-loaded f header e v =
      ap (λ h. with_header null h f.lines) e
      ∙ ap
          (λ b.
            if b
            then loaded header (load_lines null (opened header) f.lines)
            else failed (unsupported_version header.version))
          ((==_iff header.version session_version).1 v)

  pub resume_session-loaded :
      (c : Live Json Image) (path : ℕ) (f : SessionFile Json Image) (header : SessionHeader)
      → lookup path c.session.files ≡ some f
      → f.header ≡ some header
      → header.version ≡ session_version
      → resume_session null c path
        ≡ restored null c path (loaded header (load_lines null (opened header) f.lines))
  unfolding resume_session
  resume_session-loaded c path f header found e v =
      ap (restored_from null c path) found
      ∙ ap (restored null c path) (load_path-loaded f header e v)

  -- A file of UTF-8 with a header of this version and a line feed at its end keeps the conversation
  -- that is resumed from it; its active entries are the last ones of the history behind one summary
  -- at most.
  resume_session-Saved :
      (c : Live Json Image) (path : ℕ) (f : SessionFile Json Image) (header : SessionHeader)
      → lookup path c.session.files ≡ some f
      → f.ended ≡ true
      → all_readable f.lines ≡ true
      → f.header ≡ some header
      → header.version ≡ session_version
      → SavedLive null (resume_session null c path)
  unfolding attach load_lines
  resume_session-Saved c path f header found e readable h v =
      subst (SavedLive null) (sym (resume_session-loaded c path f header found h v)) (
        subst (KeptIn null _ _ _) (sym found) (record {
          ended = e;
          header = header;
          is_header = h;
          is_version = v;
          readable = readable;
          matches = record {
            history = refl;
            active = refl;
            todos = refl;
            tail = lines-Tail (opened header) f.lines (record {
              head = [];
              start = 0;
              tail = refl;
              short = omega arith;
              within = omega arith;
            });
          };
        }))

  resumed_kept :
      (c : Live Json Image) (d : CurrentSession) (o : Option (SessionFile Json Image))
      → lookup d.path c.session.files ≡ o
      → KeptIn null c.history c.active_history c.todos o
      → SameConversation (resume_session null c d.path) c
  resumed_kept c d none e k = absurd k
  resumed_kept c d (some f) e k =
      subst (λ x. SameConversation x c)
        (sym (resume_session-loaded c d.path f k.header e k.is_header k.is_version))
        (record { history = k.matches.history; active = k.matches.active; todos = k.matches.todos })

  resumed_by :
      (c : Live Json Image) (d : CurrentSession) (p : Bool) (o : Option CurrentSession)
      → p ≡ false
      → o ≡ some d
      → SavedBy null c.history c.active_history c.todos c.session p o
      → SameConversation (resume_session null c d.path) c
  resumed_by c d p o e i k = resumed_kept c d (lookup d.path c.session.files) refl (
      subst (λ v. SavedBy null c.history c.active_history c.todos c.session false v) i
        (subst (λ b. SavedBy null c.history c.active_history c.todos c.session b o) e k))

  -- In a core whose file keeps its conversation (a new one, or one that has resumed a file), whatever
  -- calls follow, and however the writes end: unless a write has failed, resuming the current session
  -- gives the conversation that is live, its history and checklist whole and its active entries but
  -- for their images; compactions on the way included, with calls of other tasks while a summary is
  -- awaited that leave the history and the active entries alone.
  pub resume_session-run :
      (s : Measures Json Image) (k : Compactor Json Image) (xs : List (Call Json Image))
      (d : CurrentSession)
      → SavedLive null k.live
      → (run null s k xs).live.session.poisoned ≡ false
      → (run null s k xs).live.session.current ≡ some d
      → SameConversation (resume_session null (run null s k xs).live d.path) (run null s k xs).live
  resume_session-run s k xs d v e i =
      let c : Live Json Image = (run null s k xs).live in
      resumed_by c d c.session.poisoned c.session.current e i (run-Saved null s k xs v)
