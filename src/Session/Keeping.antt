-- ===== src/Session/Keeping.antt =====
-- What a file keeps through the parts of the calls of crates/misy-core/src/core/session_api.rs and
-- through `compact_history` of crates/misy-core/src/core/compaction.rs.
use misy.Common.{
  ℕ, zero, suc, Bool, true, false, Option, none, some, List, ◌≡◌, refl, sym, ap, subst, ◌∙◌,
  Bool-cases, inl, inr, take, leb, if◌then◌else◌, map,
}
use misy.Common.Assoc.{lookup, insert}
use misy.Common.Texts.{Text}
use misy.Session.{
  ModelRef, TodoItem, CompactionCheckpoint, HistoryEntry, SessionRecord, SessionFile, compaction,
}
use misy.Session.Load.{Loaded, load_record}
use misy.Session.Store.{
  Written, written, not_written, cut, cut_inside, unended, Io, CurrentSession, SessionState,
  SessionError, append, append_outcome, append_in, append_to, session_of, append_json_line,
}
use misy.Session.Entries.{append_compaction, append_if}
use misy.Session.Live.{Live, clear_images}
use misy.Session.Compaction.{
  Measures, Compactor, CompactionActivity, Request, Result, ok, err, with_appendix,
  generate_summary, estimate_entries,
}
use misy.Session.Compact.{
  projected, new_checkpoint, replace_active, unless_larger, persist_compaction, persist_summary,
  generate_and_persist_compaction, start_compaction, start_when, finish_compaction, compact_started,
  compact_from,
}
use misy.Session.Saved.{Matches, KeptIn, SavedBy, SavedIn}
use misy.Session.Appends.{append-Saved}
use misy.Session.Effects.{clear_images_twice, compaction-Matches}

module _ {Json Image : Type 0} where
  -- A write that fails ends the recording.
  abbrev pub Poisons : SessionState Json Image × Option SessionError → Type 0
  Poisons (s, none) = Unit {0}
  Poisons (s, some e) = s.poisoned ≡ true

  append_outcome-Poisons :
      (s : SessionState Json Image) (c : CurrentSession) (w : Written)
      → Poisons (append_outcome s c w)
  append_outcome-Poisons s c written = tt
  append_outcome-Poisons s c not_written = refl
  append_outcome-Poisons s c cut = refl
  append_outcome-Poisons s c cut_inside = refl
  append_outcome-Poisons s c unended = refl

  append_in-Poisons :
      (s : SessionState Json Image) (c : CurrentSession) (r : SessionRecord Json Image)
      (o : Io Json Image) (f : Option (SessionFile Json Image))
      → Poisons (append_in s c r o f)
  append_in-Poisons s c r o none = refl
  append_in-Poisons s c r o (some f) =
      append_outcome-Poisons
        (record s {
          files =
              insert c.path
                (append_json_line f
                  (record { ordinal = c.next_ordinal; timestamp = o.now; record_ = r }) o)
                s.files;
        })
        c o.outcome

  append_to-Poisons :
      (s : SessionState Json Image) (r : SessionRecord Json Image) (o : Io Json Image)
      (c : Option CurrentSession)
      → Poisons (append_to s r o c)
  append_to-Poisons s r o none = refl
  append_to-Poisons s r o (some c) = append_in-Poisons s c r o (lookup c.path s.files)

  append-Poisons :
      (s : SessionState Json Image) (r : SessionRecord Json Image) (model : Option ModelRef)
      (o : Io Json Image)
      → Poisons (append s r model o)
  unfolding append
  append-Poisons s r model o = elim (Bool-cases s.poisoned) [
    | inl e ↦ subst (λ b. Poisons (appended b)) (sym e) tt
    | inr e ↦ subst (λ b. Poisons (appended b)) (sym e) (append_to-Poisons p.0 r o p.1)
  ]
    where
      p : SessionState Json Image × Option CurrentSession
      p = session_of s o model s.current

      appended : Bool → SessionState Json Image × Option SessionError
      appended b = if b then (s, none) else append_to p.0 r o p.1

module _ {Json Image : Type 0} (null : Json) where
  abbrev pub SavedLive : Live Json Image → Type 0
  SavedLive c = SavedIn null c.history c.active_history c.todos c.session

  abbrev pub poisoned-Saved :
      (h a : List (HistoryEntry Json Image)) (t : List TodoItem) (s : SessionState Json Image)
      → s.poisoned ≡ true
      → SavedIn null h a t s
  poisoned-Saved h a t s e = subst (λ b. SavedBy null h a t s b s.current) (sym e) tt

  replaced-Saved :
      (c : Live Json Image) (active : List (HistoryEntry Json Image))
      (checkpoint : CompactionCheckpoint) (p : SessionState Json Image × Option SessionError)
      → Poisons p
      → SavedIn null c.history active c.todos p.0
      → SavedLive (replace_active c active checkpoint p).0
  replaced-Saved c active checkpoint (s, none) e k = k
  replaced-Saved c active checkpoint (s, some x) e k =
      poisoned-Saved c.history c.active_history c.todos s e

  appends_if-Saved :
      (c : Live Json Image) (r : SessionRecord Json Image) (model : Option ModelRef)
      (o : Io Json Image) (d : Option CurrentSession)
      → SavedLive c
      → SavedIn null c.history c.active_history c.todos (append c.session r model o).0
      → SavedIn null c.history c.active_history c.todos (append_if c.session r model o d).0
  appends_if-Saved c r model o none k j = k
  appends_if-Saved c r model o (some d) k j = j

  -- A change of the model or the thinking level leaves the conversation as it is.
  pub unchanged-Saved :
      (c : Live Json Image) (r : SessionRecord Json Image) (model : Option ModelRef)
      (o : Io Json Image)
      → ((l : Loaded Json Image)
          → Matches c.history c.active_history c.todos l
          → Matches c.history c.active_history c.todos (load_record null l r))
      → SavedLive c
      → SavedIn null c.history c.active_history c.todos
          (append_if c.session r model o c.session.current).0
  unchanged-Saved c r model o effect k = appends_if-Saved c r model o c.session.current k (
      append-Saved null c.history c.active_history c.history c.active_history c.todos c.todos r
        effect c.session model o k)

  cleared-Kept :
      (h a : List (HistoryEntry Json Image)) (t : List TodoItem)
      (f : Option (SessionFile Json Image))
      → KeptIn null h a t f
      → KeptIn null h (map clear_images a) t f
  cleared-Kept h a t (some f) k = record {
    ended = k.ended;
    header = k.header;
    is_header = k.is_header;
    is_version = k.is_version;
    readable = k.readable;
    matches = record {
      history = k.matches.history;
      active = k.matches.active ∙ sym (clear_images_twice a);
      todos = k.matches.todos;
      tail = k.matches.tail;
    };
  }
  cleared-Kept h a t none k = absurd k

  pub cleared-Saved :
      (h a : List (HistoryEntry Json Image)) (t : List TodoItem) (s : SessionState Json Image)
      (p : Bool) (d : Option CurrentSession)
      → SavedBy null h a t s p d
      → SavedBy null h (map clear_images a) t s p d
  cleared-Saved h a t s true d k = tt
  cleared-Saved h a t s false none k = (k.0, ap (map clear_images) k.1, k.2)
  cleared-Saved h a t s false (some d) k = cleared-Kept h a t (lookup d.path s.files) k

module _ {Json Image : Type 0} (null : Json) (s : Measures Json Image) where
  unless_larger-Saved :
      (c : Live Json Image) (b : Bool) (p : Live Json Image × Result CompactionCheckpoint)
      → SavedLive null c
      → SavedLive null p.0
      → SavedLive null (unless_larger c b p).0
  unless_larger-Saved c true p k j = k
  unless_larger-Saved c false p k j = j

  persisted-Saved :
      (c : Live Json Image) (r : Request Json Image) (n before : ℕ) (summary : Text)
      → SavedLive null c
      → SavedLive null (persist_compaction null s c c.active_history r (suc n) before summary).0
  unfolding append_compaction
  persisted-Saved c r n before summary k =
      let checkpoint : CompactionCheckpoint =
        new_checkpoint null s c c.active_history r (suc n) before summary in
      let active : List (HistoryEntry Json Image) =
        projected null c.active_history (suc n) summary in
      let p : SessionState Json Image × Option SessionError =
        append c.session (compaction checkpoint) (some r.profile.model) r.disk in
      unless_larger-Saved c (leb before checkpoint.tokens_after)
        (replace_active c active checkpoint p) k
        (replaced-Saved null c active checkpoint p
          (append-Poisons c.session (compaction checkpoint) (some r.profile.model) r.disk)
          (append-Saved null c.history c.active_history c.history active c.todos c.todos
            (compaction checkpoint)
            (λ l m.
              compaction-Matches null c.history c.active_history c.todos l m n checkpoint refl)
            c.session (some r.profile.model) r.disk k))

  summarised-Saved :
      (c : Live Json Image) (r : Request Json Image) (n before : ℕ) (summary : Result Text)
      → SavedLive null c
      → SavedLive null (persist_summary null s c c.active_history r (suc n) before summary).0
  summarised-Saved c r n before (err e) k = k
  summarised-Saved c r n before (ok summary) k =
      persisted-Saved c r n before (with_appendix summary r.appendix) k

  started-Saved :
      (k : Compactor Json Image) (r : Request Json Image)
      (during : Live Json Image → Live Json Image) (n before : ℕ) (v : Option CompactionActivity)
      → (during k.live).active_history ≡ k.live.active_history
      → SavedLive null k.live
      → SavedLive null (during k.live)
      → SavedLive null
          (compact_started null s k r during
            (suc n)
            before
            (start_when k r.trigger before v)).0.live
  unfolding generate_and_persist_compaction finish_compaction
  started-Saved k r during n before none e v w =
      subst
        (λ a.
          SavedLive null
            (persist_summary null s (during k.live) a r (suc n) before
              (generate_summary s (take (suc n) a) r.focus r.answer)).0)
        e
        (summarised-Saved (during k.live) r n before
          (generate_summary s (take (suc n) (during k.live).active_history) r.focus r.answer) w)
  started-Saved k r during n before (some a) e v w = v

  -- What is done while the summary is awaited leaves the active entries as they are.
  pub from-Saved :
      (k : Compactor Json Image) (r : Request Json Image)
      (during : Live Json Image → Live Json Image) (first_kept : Option ℕ)
      → (during k.live).active_history ≡ k.live.active_history
      → SavedLive null k.live
      → SavedLive null (during k.live)
      → SavedLive null (compact_from null s k r during first_kept).0.live
  unfolding start_compaction
  from-Saved k r during none e v w = v
  from-Saved k r during (some zero) e v w = v
  from-Saved k r during (some (suc n)) e v w =
      started-Saved k r during n (estimate_entries s k.live.active_history) k.compaction e v w
