-- ===== src/Fanout/Calls.antt =====
-- Sequences of the calls of crates/misy-core/src/fanout.rs and of what the receivers do.
use misy.Common.{ℕ, List, [], ◌∷◌, ◌==◌, if◌then◌else◌}
use misy.Common.Assoc.{Assoc}
use misy.Fanout.{Channels, Fanout, subscribe, subscribe_lossless, emit}

pub data Call (T : Type 0) : Type 0 where
  subscribes : ℕ → List T → Call T
  subscribes_lossless : List T → Call T
  emits : T → Call T
  receives drops : ℕ → Call T

-- The events of the calls.
abbrev pub emitted : {T : Type 0} → List (Call T) → List T
emitted [] = []
emitted (emits x ∷ cs) = x ∷ emitted cs
emitted (subscribes n s ∷ cs) = emitted cs
emitted (subscribes_lossless s ∷ cs) = emitted cs
emitted (receives i ∷ cs) = emitted cs
emitted (drops i ∷ cs) = emitted cs

module _ {T : Type 0} (m : Channels T) where
  open m use {Channel, recv, close}

  -- A change of the channels of a number.
  unfoldable pub change_at : ℕ → (Channel → Channel) → Assoc Channel → Assoc Channel
  change_at k f [] = []
  change_at k f ((i, c) ∷ cs) = (i, if i == k then f c else c) ∷ change_at k f cs

  abbrev pub at_receiver : ℕ → (Channel → Channel) → Fanout m → Fanout m
  at_receiver i g f = record f {
    lossy = change_at i g f.lossy;
    lossless = change_at i g f.lossless;
  }

  unfoldable pub step : Call T → Fanout m → Fanout m
  step (subscribes n s) f = subscribe m n s f
  step (subscribes_lossless s) f = subscribe_lossless m s f
  step (emits x) f = emit m x f
  step (receives i) f = at_receiver i recv f
  step (drops i) f = at_receiver i close f

  unfoldable pub run : List (Call T) → Fanout m → Fanout m
  unfolding step
  run [] f = f
  run (c ∷ cs) f = run cs (step c f)
