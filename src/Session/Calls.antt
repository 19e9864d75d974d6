-- ===== src/Session/Calls.antt =====
-- Sequences of the calls that change a conversation: `push_main_history` and the others of
-- crates/misy-core/src/core/agent.rs and crates/misy-core/src/core/session_api.rs, and `compact_history`.
use misy.Common.{◌≡◌, ◌∙◌, Option, some, List, [], ◌∷◌, ◌++◌, refl}
use misy.Common.Texts.{Text}
use misy.Session.{
  ModelRef, TodoItem, HistoryEntry, history_entry, model_change, thinking_change, todo_list_update,
}
use misy.Session.Store.{Io, detach}
use misy.Session.Entries.{append_history, append_model, append_thinking, append_todos}
use misy.Session.Live.{
  Live, persist_history, push_main_history, clear_main_history_images, replace_todos,
  persist_model_change, persist_thinking_change, new_session,
}
use misy.Session.Compaction.{Measures, Compactor, Request, preserved_tail_start}
use misy.Session.Compact.{compact_history}
use misy.Session.Appends.{append-Saved}
use misy.Session.Effects.{
  history_entry-Matches, model_change-Matches, thinking_change-Matches, todo_list_update-Matches,
}
use misy.Session.Keeping.{SavedLive, unchanged-Saved, cleared-Saved, from-Saved}

-- A call that leaves the history and the active entries alone, with what the file system answers to
-- its write.
pub data Quiet (Json Image : Type 0) : Type 0 where
  writes_todos : List TodoItem → Io Json Image → Quiet Json Image
  selects : Option ModelRef → Option Text → Quiet Json Image
  changes_model : ModelRef → Io Json Image → Quiet Json Image
  changes_thinking : Option Text → Io Json Image → Quiet Json Image

-- A compaction comes with the quiet calls of other tasks until its summary is there; the failure of
-- a compaction that finds another in progress does not wait for one.
pub data Call (Json Image : Type 0) : Type 0 where
  pushes : HistoryEntry Json Image → Io Json Image → Call Json Image
  clears_images renews : Call Json Image
  quietly : Quiet Json Image → Call Json Image
  compacts : Request Json Image → List (Quiet Json Image) → Call Json Image

module _ {Json Image : Type 0} where
  unfoldable pub quiet_step : Live Json Image → Quiet Json Image → Live Json Image
  quiet_step c (writes_todos todos o) = replace_todos c todos o
  quiet_step c (selects model thinking) = record c {
    selected_model = model;
    selected_thinking = thinking;
  }
  quiet_step c (changes_model model o) = persist_model_change c model o
  quiet_step c (changes_thinking thinking o) = persist_thinking_change c thinking o

  unfoldable pub quiet_run : List (Quiet Json Image) → Live Json Image → Live Json Image
  unfolding quiet_step
  quiet_run [] c = c
  quiet_run (x ∷ xs) c = quiet_run xs (quiet_step c x)

  quiet_step-active :
      (c : Live Json Image) (x : Quiet Json Image)
      → (quiet_step c x).active_history ≡ c.active_history
  unfolding quiet_step replace_todos persist_model_change persist_thinking_change
  quiet_step-active c (writes_todos todos o) = refl
  quiet_step-active c (selects model thinking) = refl
  quiet_step-active c (changes_model model o) = refl
  quiet_step-active c (changes_thinking thinking o) = refl

  quiet_run-active :
      (xs : List (Quiet Json Image)) (c : Live Json Image)
      → (quiet_run xs c).active_history ≡ c.active_history
  unfolding quiet_run
  quiet_run-active [] c = refl
  quiet_run-active (x ∷ xs) c = quiet_run-active xs (quiet_step c x) ∙ quiet_step-active c x

module _ {Json Image : Type 0} (null : Json) where
  quiet_step-Saved :
      (c : Live Json Image) (x : Quiet Json Image)
      → SavedLive null c
      → SavedLive null (quiet_step c x)
  unfolding quiet_step replace_todos append_todos persist_model_change append_model
      persist_thinking_change append_thinking
  quiet_step-Saved c (writes_todos todos o) v =
      append-Saved null c.history c.active_history c.history c.active_history c.todos todos
        (todo_list_update todos)
        (λ l m. todo_list_update-Matches null c.history c.active_history c.todos l m todos)
        c.session c.selected_model o v
  quiet_step-Saved c (selects model thinking) v = v
  quiet_step-Saved c (changes_model model o) v =
      unchanged-Saved null c (model_change model c.selected_thinking) (some model) o
        (λ l m.
          model_change-Matches null c.history c.active_history c.todos l m model
            c.selected_thinking)
        v
  quiet_step-Saved c (changes_thinking thinking o) v =
      unchanged-Saved null c (thinking_change thinking) c.selected_model o
        (λ l m. thinking_change-Matches null c.history c.active_history c.todos l m thinking) v

  quiet_run-Saved :
      (xs : List (Quiet Json Image)) (c : Live Json Image)
      → SavedLive null c
      → SavedLive null (quiet_run xs c)
  unfolding quiet_run
  quiet_run-Saved [] c v = v
  quiet_run-Saved (x ∷ xs) c v = quiet_run-Saved xs (quiet_step c x) (quiet_step-Saved c x v)

module _ {Json Image : Type 0} (null : Json) (s : Measures Json Image) where
  unfoldable pub step : Compactor Json Image → Call Json Image → Compactor Json Image
  step k (pushes e o) = record k { live = push_main_history k.live e o }
  step k clears_images = record k { live = clear_main_history_images k.live }
  step k renews = record k { live = new_session k.live }
  step k (quietly x) = record k { live = quiet_step k.live x }
  step k (compacts r xs) = (compact_history null s k r (quiet_run xs)).0

  unfoldable pub run : Compactor Json Image → List (Call Json Image) → Compactor Json Image
  unfolding step
  run k [] = k
  run k (x ∷ xs) = run (step k x) xs

  step-Saved :
      (k : Compactor Json Image) (x : Call Json Image)
      → SavedLive null k.live
      → SavedLive null (step k x).live
  unfolding step push_main_history persist_history append_history clear_main_history_images
      new_session detach compact_history
  step-Saved k (pushes e o) v =
      append-Saved null k.live.history k.live.active_history (k.live.history ++ e ∷ [])
        (k.live.active_history ++ e ∷ []) k.live.todos k.live.todos (history_entry e)
        (λ l m. history_entry-Matches null k.live.history k.live.active_history k.live.todos l m e)
        k.live.session k.live.selected_model o v
  step-Saved k clears_images v =
      cleared-Saved null k.live.history k.live.active_history k.live.todos k.live.session
        k.live.session.poisoned k.live.session.current v
  step-Saved k renews v = (refl, refl, refl)
  step-Saved k (quietly x) v = quiet_step-Saved null k.live x v
  step-Saved k (compacts r xs) v =
      from-Saved null s k r (quiet_run xs) (preserved_tail_start k.live.active_history)
        (quiet_run-active xs k.live) v (quiet_run-Saved null xs k.live v)

  pub run-Saved :
      (k : Compactor Json Image) (xs : List (Call Json Image))
      → SavedLive null k.live
      → SavedLive null (run k xs).live
  unfolding run
  run-Saved k [] v = v
  run-Saved k (x ∷ xs) v = run-Saved (step k x) xs (step-Saved k x v)
