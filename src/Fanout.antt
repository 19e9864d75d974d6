-- ===== src/Fanout.antt =====
-- The delivery of events to subscribers, crates/misy-core/src/fanout.rs. The channels of
-- `tokio::sync::mpsc` are an interface: what the source calls of them, with what their
-- documentation says of these calls.
pub mod Calls
pub mod Numbers
pub mod Delivery
pub mod Examples
use misy.Common.{
  ℕ, ◌+◌, Bool, true, false, List, [], ◌∷◌, ◌++◌, ◌≡◌, map, retain, ◌==◌, if◌then◌else◌,
}
use misy.Common.Assoc.{Assoc}

pub data Sent : Type 0 where
  accepted full shut : Sent

-- `received` lists what a channel has taken, also what its receiver has read since.
pub record Channels (T : Type 0) : Type 1 where
  pub Channel : Type 0
  pub bounded : ℕ → Channel
  pub unbounded : Channel
  pub try_send : T → Channel → Sent × Channel
  pub recv : Channel → Channel
  pub close : Channel → Channel
  pub received : Channel → List T
  pub is_open : Channel → Bool
  pub is_unbounded : Channel → Bool
  pub new_bounded : (n : ℕ) → (received (bounded n) ≡ []) × (is_open (bounded n) ≡ true)
  pub new_unbounded :
      (received unbounded ≡ []) × (is_open unbounded ≡ true) × (is_unbounded unbounded ≡ true)
  pub takes_in_order :
      (x : T) (c : Channel)
      → (try_send x c).0 ≡ accepted
      → received (try_send x c).1 ≡ received c ++ x ∷ []
  pub full_takes_nothing :
      (x : T) (c : Channel) → (try_send x c).0 ≡ full → received (try_send x c).1 ≡ received c
  pub never_full :
      (x : T) (c : Channel) → is_unbounded c ≡ true → is_open c ≡ true → (try_send x c).0 ≡ accepted
  pub shut_when_closed : (x : T) (c : Channel) → (try_send x c).0 ≡ shut → is_open c ≡ false
  pub sending_keeps :
      (x : T) (c : Channel)
      → (is_open (try_send x c).1 ≡ is_open c) × (is_unbounded (try_send x c).1 ≡ is_unbounded c)
  pub reading_keeps :
      (c : Channel)
      → (received (recv c) ≡ received c)
        × (is_open (recv c) ≡ is_open c)
        × (is_unbounded (recv c) ≡ is_unbounded c)
  pub closing_keeps : (c : Channel) → received (close c) ≡ received c

-- `retain` with what it keeps: a lossy sender goes when its channel is closed, a lossless one
-- when the event was not taken.
abbrev pub kept_lossy : Sent → Bool
kept_lossy shut = false
kept_lossy _ = true

abbrev pub kept_lossless : Sent → Bool
kept_lossless accepted = true
kept_lossless _ = false

module _ {T : Type 0} (m : Channels T) where
  open m use {Channel, bounded, unbounded, try_send}

  -- The senders, each with a number of its own.
  pub record Fanout : Type 0 where
    pub lossy : Assoc Channel
    pub lossless : Assoc Channel
    pub next : ℕ

  abbrev pub new_fanout : Fanout
  new_fanout = record { lossy = []; lossless = []; next = 0 }

  -- The replay of a snapshot, whose results are dropped.
  unfoldable pub replay : List T → Channel → Channel
  replay [] c = c
  replay (x ∷ xs) c = replay xs (try_send x c).1

  unfoldable pub subscribe : ℕ → List T → Fanout → Fanout
  unfolding replay
  subscribe capacity snapshot f = record f {
    lossy = f.lossy ++ (f.next, replay snapshot (bounded capacity)) ∷ [];
    next = f.next + 1;
  }

  unfoldable pub subscribe_lossless : List T → Fanout → Fanout
  unfolding replay
  subscribe_lossless snapshot f = record f {
    lossless = f.lossless ++ (f.next, replay snapshot unbounded) ∷ [];
    next = f.next + 1;
  }

  unfoldable pub send_all : (Sent → Bool) → T → Assoc Channel → Assoc Channel
  send_all keeps x [] = []
  send_all keeps x ((i, c) ∷ cs) =
      let rest = send_all keeps x cs in
      if keeps (try_send x c).0 then (i, (try_send x c).1) ∷ rest else rest

  unfoldable pub emit : T → Fanout → Fanout
  emit x f = record f {
    lossy = send_all kept_lossy x f.lossy;
    lossless = send_all kept_lossless x f.lossless;
  }
