-- ===== src/Session/Appends.antt =====
-- What a file keeps when a record is appended: `append` of crates/misy-core/src/core/session.rs.
use misy.Common.{
  ℕ, zero, suc, ◌+◌, ◌%◌, ◌^◌, Bool, true, false, Option, none, some, List, [], ◌∷◌, ◌++◌, ◌≡◌,
  refl, sym, subst, inl, inr, Bool-cases, arith, if◌then◌else◌, ◌==◌, ==_iff,
}
use misy.Common.Assoc.{lookup, insert, lookup-insert}
use misy.Common.Texts.{Text}
use misy.Session.{
  ModelRef, TodoItem, HistoryEntry, SessionRecord, Line, whole, garbled, unreadable, unknown_record,
  SessionRecordLine, SessionFile,
}
use misy.Session.Load.{
  Loaded, opened, load_record, load_line, load_lines, load_lines-append, all_readable, seen,
}
use misy.Session.Store.{
  Written, written, not_written, cut, cut_inside, unended, Created, created, denied, header_lost,
  Attempt, Io, CurrentSession, SessionState, SessionError, append_json_line, write_line, add_to,
  create_file, create_loop, create, unless_taken, append_outcome, append_in, append_to, session_of,
  append, new_header, new_file,
}
use misy.Session.Saved.{Matches, Keeps, KeptIn, SavedBy, SavedIn}

-- A value that is stored is found.
found : {V : Type 0} (k : ℕ) (v : V) (m : List (ℕ × V)) → lookup k (insert k v m) ≡ some v
found k v m = let e : (k == k) ≡ true = (==_iff k k).1 refl in rw (lookup-insert k k v m, e)

module _ {Json Image : Type 0} (null : Json) (h a h' a' : List (HistoryEntry Json Image))
    (t t' : List TodoItem) (r : SessionRecord Json Image)
    (effect : (l : Loaded Json Image)
      → Matches h a t l
      → Matches h' a' t' (load_record null l r)) where
  seen-Matches : (l : Loaded Json Image) (n : ℕ) → Matches h a t l → Matches h a t (seen l n)
  seen-Matches l n m = record {
    history = m.history;
    active = m.active;
    todos = m.todos;
    tail = m.tail;
  }

  abbrev line_of : ℕ → ℕ → SessionRecordLine Json Image
  line_of n time = record { ordinal = n; timestamp = time; record_ = r }

  whole-readable :
      (xs : List (Line Json Image)) (x : SessionRecordLine Json Image)
      → all_readable xs ≡ true
      → all_readable (xs ++ whole x ∷ []) ≡ true
  whole-readable [] x e = refl
  whole-readable (whole y ∷ xs) x e = whole-readable xs x e
  whole-readable (unknown_record m ∷ xs) x e = whole-readable xs x e
  whole-readable (garbled ∷ xs) x e = whole-readable xs x e
  whole-readable (unreadable ∷ xs) x e = absurd cc

  -- A file with the record behind the others.
  added-Keeps :
      (f : SessionFile Json Image) (n time : ℕ) (o : Io Json Image)
      → Keeps null h a t f
      → Keeps null h' a' t' (write_line f (line_of n time) o written)
  unfolding load_lines load_line
  added-Keeps f n time o k =
      subst (λ b. Keeps null h' a' t' (add_to b f o (whole (line_of n time)) true)) (sym k.ended)
        (record {
          ended = refl;
          header = k.header;
          is_header = k.is_header;
          is_version = k.is_version;
          readable = whole-readable f.lines (line_of n time) k.readable;
          matches =
              subst (Matches h' a' t')
                (sym (
                  load_lines-append null (opened k.header) f.lines (whole (line_of n time) ∷ [])
                    k.readable))
                (effect _ (seen-Matches _ n k.matches));
        })

  abbrev with_file : SessionState Json Image → ℕ → SessionFile Json Image → SessionState Json Image
  with_file s path f = record s { files = insert path f s.files }

  appended_by :
      (s : SessionState Json Image) (c : CurrentSession) (f : SessionFile Json Image) (time : ℕ)
      (o : Io Json Image) (w : Written)
      → s.poisoned ≡ false
      → Keeps null h a t f
      → SavedIn null h' a' t'
          (append_outcome
            (with_file s c.path (write_line f (line_of c.next_ordinal time) o w))
            c
            w).0
  appended_by s c f time o not_written p k = tt
  appended_by s c f time o cut p k = tt
  appended_by s c f time o cut_inside p k = tt
  appended_by s c f time o unended p k = tt
  appended_by s c f time o written p k =
      subst
        (λ b.
          SavedBy null h' a' t'
            (append_outcome
              (with_file s c.path (write_line f (line_of c.next_ordinal time) o written)) c
              written).0
            b (some (record c { next_ordinal = (c.next_ordinal + 1) % 2 ^ 64 })))
        (sym p)
        (subst (KeptIn null h' a' t')
          (sym (found c.path (write_line f (line_of c.next_ordinal time) o written) s.files))
          (added-Keeps f c.next_ordinal time o k))

  -- To the session in use.
  current-Saved :
      (s : SessionState Json Image) (c : CurrentSession) (o : Io Json Image)
      (f : Option (SessionFile Json Image))
      → s.poisoned ≡ false
      → KeptIn null h a t f
      → SavedIn null h' a' t' (append_in s c r o f).0
  unfolding append_json_line
  current-Saved s c o none p k = tt
  current-Saved s c o (some f) p k = appended_by s c f o.now o o.outcome p k

  found-Saved :
      (s : SessionState Json Image) (c : CurrentSession) (o : Io Json Image)
      → s.poisoned ≡ false
      → KeptIn null h a t (lookup c.path s.files)
      → SavedIn null h' a' t' (append_to s r o (some c)).0
  found-Saved s c o p k = current-Saved s c o (lookup c.path s.files) p k

module _ {Json Image : Type 0} (null : Json) where
  -- A file that was made holds an empty conversation.
  abbrev Made : Bool → SessionState Json Image × Option CurrentSession → Type 0
  Made p (s, none) = Unit {0}
  Made p (s, some c) = (s.poisoned ≡ p) × KeptIn null [] [] [] (lookup c.path s.files)

  new_file-Keeps :
      (id : Text) (now : ℕ) (model : Option ModelRef)
      → Keeps null [] [] []
          (new_file {Json = Json} {Image = Image} (some (new_header id now model)) true)
  unfolding load_lines
  new_file-Keeps id now model = record {
    ended = refl;
    header = new_header id now model;
    is_header = refl;
    is_version = refl;
    readable = refl;
    matches = record {
      history = refl;
      active = refl;
      todos = refl;
      tail = record {
        head = [];
        start = 0;
        tail = refl;
        short = omega arith;
        within = omega arith;
      };
    };
  }

  create_file-Made :
      (s : SessionState Json Image) (a : Attempt) (model : Option ModelRef) (now : ℕ) (w : Created)
      → Made s.poisoned (create_file s a model now w)
  create_file-Made s a model now denied = tt
  create_file-Made s a model now (header_lost w) = tt
  create_file-Made s a model now created = (
    refl,
    subst (KeptIn null [] [] []) (sym (found a.path _ s.files)) (new_file-Keeps a.id now model),
  )

  unless_taken-Made :
      (s : SessionState Json Image) (f : Option (SessionFile Json Image))
      (later now : SessionState Json Image × Option CurrentSession)
      → Made s.poisoned later
      → Made s.poisoned now
      → Made s.poisoned (unless_taken f later now)
  unless_taken-Made s none later now l n = n
  unless_taken-Made s (some f) later now l n = l

  create_loop-Made :
      (fuel i : ℕ) (s : SessionState Json Image) (o : Io Json Image) (model : Option ModelRef)
      → Made s.poisoned (create_loop fuel i s o model)
  unfolding create_loop
  create_loop-Made zero i s o model = tt
  create_loop-Made (suc fuel) i s o model =
      unless_taken-Made s (lookup (o.attempts i).path s.files) (create_loop fuel (suc i) s o model)
        (create_file s (o.attempts i) model o.now (o.attempts i).outcome)
        (create_loop-Made fuel (suc i) s o model)
        (create_file-Made s (o.attempts i) model o.now (o.attempts i).outcome)

module _ {Json Image : Type 0} (null : Json) (h a h' a' : List (HistoryEntry Json Image))
    (t t' : List TodoItem) (r : SessionRecord Json Image)
    (effect : (l : Loaded Json Image)
      → Matches h a t l
      → Matches h' a' t' (load_record null l r)) where
  made-Saved :
      (p : SessionState Json Image × Option CurrentSession) (o : Io Json Image)
      → ((h ≡ []) × (a ≡ []) × (t ≡ []))
      → Made null false p
      → SavedIn null h' a' t' (append_to p.0 r o p.1).0
  made-Saved (s, none) o e m = tt
  made-Saved (s, some c) o (eh, ea, et) m =
      found-Saved null h a h' a' t t' r effect s c o m.0 (rw (eh, ea, et) m.1)

  append_at-Saved :
      (s : SessionState Json Image) (model : Option ModelRef) (o : Io Json Image)
      (c : Option CurrentSession)
      → s.poisoned ≡ false
      → SavedBy null h a t s false c
      → (let p = session_of s o model c in SavedIn null h' a' t' (append_to p.0 r o p.1).0)
  unfolding create
  append_at-Saved s model o (some c) p k = found-Saved null h a h' a' t t' r effect s c o p k
  append_at-Saved s model o none p k = made-Saved (create_loop 100 0 s o model) o k (
      subst (λ b. Made null b (create_loop 100 0 s o model)) p
        (create_loop-Made null 100 0 s o model))

  abbrev appended_when :
      SessionState Json Image
      → Option ModelRef
      → Io Json Image
      → Bool
      → SessionState Json Image × Option SessionError
  appended_when s model o b =
      if b then (s, none) else let p = session_of s o model s.current in append_to p.0 r o p.1

  pub append-Saved :
      (s : SessionState Json Image) (model : Option ModelRef) (o : Io Json Image)
      → SavedIn null h a t s
      → SavedIn null h' a' t' (append s r model o).0
  unfolding append
  append-Saved s model o k = elim (Bool-cases s.poisoned) [
    | inl e ↦
        subst (λ b. SavedIn null h' a' t' (appended_when s model o b).0) (sym e)
          (subst (λ b. SavedBy null h' a' t' s b s.current) (sym e) tt)
    | inr e ↦
        subst (λ b. SavedIn null h' a' t' (appended_when s model o b).0) (sym e)
          (append_at-Saved s model o s.current e
            (subst (λ b. SavedBy null h a t s b s.current) e k))
  ]
