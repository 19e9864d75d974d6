-- ===== src/Session/Outcomes.antt =====
-- What a compaction leaves behind, whether it succeeds or fails: `compact_history` of
-- crates/misy-core/src/core/compaction.rs.
use misy.Common.{ℕ, zero, suc, ◌<◌, ◌-◌, length, Option, none, some, [], ◌∷◌, ◌++◌, ◌≡◌, ◌⊎◌, drop}
use misy.Common.Texts.{Text}
use misy.Session.{CompactionCheckpoint}
use misy.Session.Load.{summary_entry}
use misy.Session.Entries.{append_compaction}
use misy.Session.Live.{Live}
use misy.Session.Compaction.{
  Measures, Compactor, Request, Result, ok, err, nothing_to_compact, preserved_tail_start,
  estimate_entries,
}
use misy.Session.Compact.{start_activity, end_activity, new_checkpoint}

module _ {Json Image : Type 0} (null : Json) (s : Measures Json Image) where
  -- A success: `k` is the conversation of the start, `c` that behind the await, `d` the last. The
  -- active entries are a summary and the last ones of the start, with fewer tokens than there; what
  -- else other tasks did to them meanwhile is lost, and the history and the checklist are those
  -- behind the await. The record says how much history there is and where its kept part begins, and
  -- it has been written.
  pub record Shrinks (k c d : Live Json Image) (r : Request Json Image)
      (checkpoint : CompactionCheckpoint) : Type 0 where
    pub history : d.history ≡ c.history
    pub todos : d.todos ≡ c.todos
    pub start : ℕ
    pub at : preserved_tail_start k.active_history ≡ some start
    pub active :
        d.active_history ≡ summary_entry null checkpoint.summary ∷ drop start k.active_history
    pub after : estimate_entries s d.active_history ≡ checkpoint.tokens_after
    pub smaller : checkpoint.tokens_after < estimate_entries s k.active_history
    pub first_kept :
        checkpoint.first_kept_index ≡ length c.history - (length k.active_history - start)
    pub history_len : checkpoint.history_len ≡ length c.history
    pub recorded :
        append_compaction c.session checkpoint (some r.profile.model) r.disk ≡ (d.session, none)

  pub record Unchanged (c d : Live Json Image) : Type 0 where
    pub history : d.history ≡ c.history
    pub active : d.active_history ≡ c.active_history
    pub todos : d.todos ≡ c.todos

  abbrev pub Ends :
      Live Json Image
      → Live Json Image
      → Live Json Image
      → Request Json Image
      → Result CompactionCheckpoint
      → Type 0
  Ends k c d r (ok checkpoint) = Shrinks k c d r checkpoint
  Ends k c d r (err e) = Unchanged c d

  abbrev checkpoint_of :
      Live Json Image → Live Json Image → Request Json Image → ℕ → Text → CompactionCheckpoint
  checkpoint_of k c r m summary =
      new_checkpoint null s c k.active_history r m (estimate_entries s k.active_history) summary

  -- A compaction that was begun: the core is idle again at the end, the clients were told of the start
  -- and of the end with the result, and the conversation is that of a success or of a failure.
  pub record Begun (k : Compactor Json Image) (r : Request Json Image)
      (during : Live Json Image → Live Json Image)
      (p : Compactor Json Image × Result CompactionCheckpoint) : Type 0 where
    pub conversation : Ends k.live (during k.live) p.0.live r p.1
    pub idle : p.0.compaction ≡ none
    pub events :
        p.0.emitted
        ≡ k.emitted
          ++ (start_activity r.trigger (estimate_entries s k.live.active_history)
              ∷ end_activity r.trigger (estimate_entries s k.live.active_history) p.1
              ∷ [])

  -- There is nothing in front of the tail that is kept.
  abbrev pub NoPrefix : Option ℕ → Type 0
  NoPrefix none = Unit {0}
  NoPrefix (some zero) = Unit {0}
  NoPrefix (some (suc n)) = ⊥

  abbrev pub Finishes :
      Compactor Json Image
      → Request Json Image
      → (Live Json Image → Live Json Image)
      → Compactor Json Image × Result CompactionCheckpoint
      → Type 0
  Finishes k r during p =
      (NoPrefix (preserved_tail_start k.live.active_history) × (p ≡ (k, err nothing_to_compact)))
      ⊎ Begun k r during p
