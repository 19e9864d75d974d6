-- ===== src/Fanout/Numbers.antt =====
-- The numbers of the subscribers, crates/misy-core/src/fanout.rs: a new one is not taken.
use misy.Common.{if_cases, ℕ, ◌+◌, ◌<◌, Bool, some, List, [], ◌∷◌, ◌++◌, ◌≡◌, arith}
use misy.Common.Assoc.{Assoc, lookup}
use misy.Fanout.{
  Sent, Channels, Fanout, replay, subscribe, subscribe_lossless, kept_lossless, send_all, emit,
}
use misy.Fanout.Calls.{
  Call, subscribes, subscribes_lossless, emits, receives, drops, change_at, step, run,
}

-- The numbers of a map are below a bound.
abbrev pub KeysBelow : {V : Type 0} → ℕ → Assoc V → Type 0
KeysBelow n [] = Unit {0}
KeysBelow n ((i, v) ∷ rest) = (i < n) × KeysBelow n rest

module _ {V : Type 0} where
  KeysBelow-suc : (n : ℕ) (l : Assoc V) → KeysBelow n l → KeysBelow (n + 1) l
  KeysBelow-suc n [] b = tt
  KeysBelow-suc n ((i, v) ∷ rest) b = (omega (arith, b.0), KeysBelow-suc n rest b.1)

  KeysBelow-new :
      (n : ℕ) (l : Assoc V) (v : V) → KeysBelow n l → KeysBelow (n + 1) (l ++ (n, v) ∷ [])
  KeysBelow-new n [] v b = (omega arith, tt)
  KeysBelow-new n ((i, w) ∷ rest) v b = (omega (arith, b.0), KeysBelow-new n rest v b.1)

  pub lookup-old :
      (k : ℕ) (l more : Assoc V) (v : V) → lookup k l ≡ some v → lookup k (l ++ more) ≡ some v
  unfolding lookup
  lookup-old k [] more v e = cc
  lookup-old k ((i, w) ∷ rest) more v e = ground (arith, e, lookup-old k rest more v)

  pub lookup-new :
      (n : ℕ) (l : Assoc V) (v : V) → KeysBelow n l → lookup n (l ++ (n, v) ∷ []) ≡ some v
  unfolding lookup
  lookup-new n [] v b = ground arith
  lookup-new n ((i, w) ∷ rest) v b = ground (arith, b.0, lookup-new n rest v b.1)

module _ {T : Type 0} (m : Channels T) where
  open m use {
    Channel, unbounded, try_send, recv, close, received, is_open, is_unbounded, new_unbounded,
    takes_in_order, never_full, sending_keeps, reading_keeps,
  }

  KeysBelow-send_all :
      (n : ℕ) (keeps : Sent → Bool) (x : T) (l : Assoc Channel)
      → KeysBelow n l
      → KeysBelow n (send_all m keeps x l)
  unfolding send_all
  KeysBelow-send_all n keeps x [] b = tt
  KeysBelow-send_all n keeps x ((i, c) ∷ cs) b =
      if_cases (KeysBelow n) (keeps (try_send x c).0) _ _
        (λ e. (b.0, KeysBelow-send_all n keeps x cs b.1)) (λ e. KeysBelow-send_all n keeps x cs b.1)

  KeysBelow-change_at :
      (n k : ℕ) (f : Channel → Channel) (l : Assoc Channel)
      → KeysBelow n l
      → KeysBelow n (change_at m k f l)
  unfolding change_at
  KeysBelow-change_at n k f [] b = tt
  KeysBelow-change_at n k f ((i, c) ∷ cs) b = (b.0, KeysBelow-change_at n k f cs b.1)

  unfoldable pub Below : Fanout m → Type 0
  Below f = KeysBelow f.next f.lossless

  step-Below : (c : Call T) (f : Fanout m) → Below f → Below (step m c f)
  unfolding Below step subscribe subscribe_lossless emit
  step-Below (subscribes n s) f b = KeysBelow-suc f.next f.lossless b
  step-Below (subscribes_lossless s) f b = KeysBelow-new f.next f.lossless (replay m s unbounded) b
  step-Below (emits x) f b = KeysBelow-send_all f.next kept_lossless x f.lossless b
  step-Below (receives i) f b = KeysBelow-change_at f.next i recv f.lossless b
  step-Below (drops i) f b = KeysBelow-change_at f.next i close f.lossless b

  pub run-Below : (cs : List (Call T)) (f : Fanout m) → Below f → Below (run m cs f)
  unfolding run
  run-Below [] f b = b
  run-Below (c ∷ cs) f b = run-Below cs (step m c f) (step-Below c f b)
