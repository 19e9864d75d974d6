-- ===== src/Session/Compact.antt =====
-- One compaction from its start to its end: `compact_history`, `generate_and_persist_compaction`,
-- `start_compaction` and `finish_compaction` of crates/misy-core/src/core/compaction.rs. The summary is
-- awaited with no lock held: what other tasks do to the conversation until then is an argument,
-- `during`, of which nothing is asked. What follows the await is one step.
use misy.Common.{
  ℕ, zero, suc, ◌-◌, Bool, true, false, Option, none, some, List, [], ◌∷◌, ◌++◌, length, take, drop,
  leb, if◌then◌else◌, saturating_sub,
}
use misy.Common.Texts.{Text, contains}
use misy.Session.{HistoryEntry, CompactionCheckpoint}
use misy.Session.Load.{summary_entry}
use misy.Session.Store.{SessionState, SessionError}
use misy.Session.Entries.{append_compaction}
use misy.Session.Live.{Live}
use misy.Session.Compaction.{
  Measures, Compactor, Request, CompactionActivity, CompactionStatus, compacting, completed,
  cancelled, failed, CompactionError, nothing_to_compact, session_busy, no_progress, runtime,
  session, Result, ok, err, with_appendix, preserved_tail_start, estimate_entries, generate_summary,
}

-- "cancelled"
abbrev cancelled_text : Text
cancelled_text = 99 ∷ 97 ∷ 110 ∷ 99 ∷ 101 ∷ 108 ∷ 108 ∷ 101 ∷ 100 ∷ []

-- The texts of the other errors do not have the word.
abbrev pub error_status : CompactionError → CompactionStatus
error_status (runtime message) = if contains cancelled_text message then cancelled else failed
error_status _ = failed

abbrev pub start_activity : Text → ℕ → CompactionActivity
start_activity trigger before = record {
  status = compacting;
  trigger = trigger;
  cancellable = true;
  tokens_before = before;
  tokens_after = none;
  checkpoint = none;
}

unfoldable pub end_activity : Text → ℕ → Result CompactionCheckpoint → CompactionActivity
end_activity trigger before (ok checkpoint) = record {
  status = completed;
  trigger = trigger;
  cancellable = false;
  tokens_before = before;
  tokens_after = some checkpoint.tokens_after;
  checkpoint = some checkpoint;
}
end_activity trigger before (err e) = record {
  status = error_status e;
  trigger = trigger;
  cancellable = false;
  tokens_before = before;
  tokens_after = none;
  checkpoint = none;
}

-- `canonical_first_kept`.
abbrev pub kept_index : ℕ → ℕ → ℕ → ℕ
kept_index canonical active first_kept = saturating_sub canonical (active - first_kept)

module _ {Json Image : Type 0} where
  -- The active history is replaced when the record has been written.
  abbrev pub replace_active :
      Live Json Image
      → List (HistoryEntry Json Image)
      → CompactionCheckpoint
      → SessionState Json Image × Option SessionError
      → Live Json Image × Result CompactionCheckpoint
  replace_active c active checkpoint (t, some e) = (record c { session = t }, err (session e))
  replace_active c active checkpoint (t, none) =
      (record c { session = t; active_history = active }, ok checkpoint)

  -- Nothing is written when the conversation would not become smaller.
  abbrev pub unless_larger :
      Live Json Image
      → Bool
      → Live Json Image × Result CompactionCheckpoint
      → Live Json Image × Result CompactionCheckpoint
  unless_larger c true next = (c, err no_progress)
  unless_larger c false next = next

  -- One compaction runs at a time.
  abbrev pub start_when :
      Compactor Json Image → Text → ℕ → Option CompactionActivity → Option (Compactor Json Image)
  start_when k trigger before (some _) = none
  start_when k trigger before none = some (record k {
    compaction = some (start_activity trigger before);
    emitted = k.emitted ++ start_activity trigger before ∷ [];
  })

  unfoldable pub start_compaction : Compactor Json Image → Text → ℕ → Option (Compactor Json Image)
  start_compaction k trigger before = start_when k trigger before k.compaction

  unfoldable pub finish_compaction :
      Compactor Json Image → Text → ℕ → Result CompactionCheckpoint → Compactor Json Image
  finish_compaction k trigger before result = record k {
    compaction = none;
    emitted = k.emitted ++ end_activity trigger before result ∷ [];
  }

  abbrev pub finish_with :
      Compactor Json Image
      → Text
      → ℕ
      → Live Json Image × Result CompactionCheckpoint
      → Compactor Json Image × Result CompactionCheckpoint
  finish_with k trigger before (c, result) =
      (finish_compaction (record k { live = c }) trigger before result, result)

module _ {Json Image : Type 0} (null : Json) where
  abbrev pub projected : List (HistoryEntry Json Image) → ℕ → Text → List (HistoryEntry Json Image)
  projected active first_kept summary = summary_entry null summary ∷ drop first_kept active

-- The conversation is that behind the await; the active entries are those of the start.
module _ {Json Image : Type 0} (null : Json) (s : Measures Json Image) where
  abbrev pub new_checkpoint :
      Live Json Image
      → List (HistoryEntry Json Image)
      → Request Json Image
      → ℕ
      → ℕ
      → Text
      → CompactionCheckpoint
  new_checkpoint c active r first_kept before summary = record {
    summary = summary;
    first_kept_index = kept_index (length c.history) (length active) first_kept;
    profile = r.profile;
    tokens_before = before;
    tokens_after = estimate_entries s (projected null active first_kept summary);
    trigger = r.trigger;
    timestamp_ms = r.now_millis;
    history_len = length c.history;
  }

  abbrev pub persist_compaction :
      Live Json Image
      → List (HistoryEntry Json Image)
      → Request Json Image
      → ℕ
      → ℕ
      → Text
      → Live Json Image × Result CompactionCheckpoint
  persist_compaction c active r first_kept before summary =
      let checkpoint = new_checkpoint c active r first_kept before summary in
      unless_larger c (leb before checkpoint.tokens_after) (
        replace_active c (projected null active first_kept summary) checkpoint
          (append_compaction c.session checkpoint (some r.profile.model) r.disk))

  abbrev pub persist_summary :
      Live Json Image
      → List (HistoryEntry Json Image)
      → Request Json Image
      → ℕ
      → ℕ
      → Result Text
      → Live Json Image × Result CompactionCheckpoint
  persist_summary c active r first_kept before (err e) = (c, err e)
  persist_summary c active r first_kept before (ok summary) =
      persist_compaction c active r first_kept before (with_appendix summary r.appendix)

  unfoldable pub generate_and_persist_compaction :
      Live Json Image
      → Request Json Image
      → (Live Json Image → Live Json Image)
      → List (HistoryEntry Json Image)
      → ℕ
      → ℕ
      → Live Json Image × Result CompactionCheckpoint
  generate_and_persist_compaction c r during active first_kept before =
      persist_summary (during c) active r first_kept before
        (generate_summary s (take first_kept active) r.focus r.answer)

  abbrev pub compact_started :
      Compactor Json Image
      → Request Json Image
      → (Live Json Image → Live Json Image)
      → ℕ
      → ℕ
      → Option (Compactor Json Image)
      → Compactor Json Image × Result CompactionCheckpoint
  compact_started k r during first_kept before none = (k, err session_busy)
  compact_started k r during first_kept before (some j) =
      finish_with j r.trigger before
        (generate_and_persist_compaction j.live r during k.live.active_history first_kept before)

  abbrev pub compact_from :
      Compactor Json Image
      → Request Json Image
      → (Live Json Image → Live Json Image)
      → Option ℕ
      → Compactor Json Image × Result CompactionCheckpoint
  compact_from k r during none = (k, err nothing_to_compact)
  compact_from k r during (some zero) = (k, err nothing_to_compact)
  compact_from k r during (some (suc n)) =
      let before = estimate_entries s k.live.active_history in
      compact_started k r during (suc n) before (start_compaction k r.trigger before)

  unfoldable pub compact_history :
      Compactor Json Image
      → Request Json Image
      → (Live Json Image → Live Json Image)
      → Compactor Json Image × Result CompactionCheckpoint
  compact_history k r during = compact_from k r during (preserved_tail_start k.live.active_history)
