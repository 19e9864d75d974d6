-- ===== src/Fanout/Examples.antt =====
-- Channels that hold what is said of them, and the theorem on them.
use misy.Common.{
  if_cases, ℕ, ◌+◌, ◌-◌, Bool, true, false, Option, none, some, List, [], ◌∷◌, ◌++◌, ◌≡◌, refl, sym,
  ◌∙◌, ltb, if◌then◌else◌,
}
use misy.Fanout.{Sent, accepted, full, shut, Channels, new_fanout, subscribe_lossless}
use misy.Fanout.Calls.{Call, subscribes_lossless, subscribes, emits, receives, drops, step, run}
use misy.Fanout.Delivery.{Present, subscribe_lossless-Present}

record Buffer : Type 0 where
  log : List ℕ
  capacity : Option ℕ
  waiting : ℕ
  alive : Bool

abbrev take_in : ℕ → Buffer → Sent × Buffer
take_in x b = (accepted, record b { log = b.log ++ x ∷ []; waiting = b.waiting + 1 })

abbrev room : ℕ → Buffer → Option ℕ → Sent × Buffer
room x b none = take_in x b
room x b (some n) = if ltb b.waiting n then take_in x b else (full, b)

abbrev send_to : ℕ → Buffer → Sent × Buffer
send_to x b = if b.alive then room x b b.capacity else (shut, b)

abbrev unlimited : Option ℕ → Bool
unlimited none = true
unlimited (some n) = false

module _ (x : ℕ) where
  abbrev Fits : Buffer → Sent × Buffer → Type 0
  Fits b r =
      (r.0 ≡ accepted → r.1.log ≡ b.log ++ x ∷ [])
      × (r.0 ≡ full → r.1.log ≡ b.log)
      × (r.0 ≡ shut → b.alive ≡ false)
      × (r.1.alive ≡ b.alive)
      × (unlimited r.1.capacity ≡ unlimited b.capacity)

  room-Fits : (b : Buffer) (c : Option ℕ) → Fits b (room x b c)
  room-Fits b none = (λ e. refl, λ e. cc, λ e. cc, refl, refl)
  room-Fits b (some n) =
      if_cases (Fits b) (ltb b.waiting n) (take_in x b) (full, b)
        (λ fits. (λ e. refl, λ e. cc, λ e. cc, refl, refl))
        (λ over. (λ e. cc, λ e. refl, λ e. cc, refl, refl))

  send_to-Fits : (b : Buffer) → Fits b (send_to x b)
  send_to-Fits b =
      if_cases (Fits b) b.alive (room x b b.capacity) (shut, b) (λ e. room-Fits b b.capacity)
        (λ e. (λ s. cc, λ s. cc, λ s. e, refl, refl))

  unlimited_room : (b : Buffer) (c : Option ℕ) → unlimited c ≡ true → (room x b c).0 ≡ accepted
  unlimited_room b none u = refl
  unlimited_room b (some n) u = cc

  never_full_lem :
      (b : Buffer) → unlimited b.capacity ≡ true → b.alive ≡ true → (send_to x b).0 ≡ accepted
  never_full_lem b u o =
      if_cases (λ r. r.0 ≡ accepted) b.alive (room x b b.capacity) (shut, b)
        (λ e. unlimited_room b b.capacity u) (λ e. let clash : true ≡ false = sym o ∙ e in cc)

abbrev buffers : Channels ℕ
buffers = record {
  Channel = Buffer;
  bounded = λ n. record { log = []; capacity = some n; waiting = 0; alive = true };
  unbounded = record { log = []; capacity = none; waiting = 0; alive = true };
  try_send = send_to;
  recv = λ b. record b { waiting = b.waiting - 1 };
  close = λ b. record b { alive = false };
  received = λ b. b.log;
  is_open = λ b. b.alive;
  is_unbounded = λ b. unlimited b.capacity;
  new_bounded = λ n. (refl, refl);
  new_unbounded = (refl, refl, refl);
  takes_in_order = λ x b. (send_to-Fits x b).0;
  full_takes_nothing = λ x b. (send_to-Fits x b).1;
  never_full = never_full_lem;
  shut_when_closed = λ x b. (send_to-Fits x b).2;
  sending_keeps = λ x b. ((send_to-Fits x b).3, (send_to-Fits x b).4);
  reading_keeps = λ b. (refl, refl, refl);
  closing_keeps = λ b. refl;
}

abbrev later_calls : List (Call ℕ)
later_calls = emits 5 ∷ subscribes 1 [] ∷ receives 1 ∷ emits 6 ∷ drops 0 ∷ emits 7 ∷ []

subscribe_lossless-Present_example :
    Present buffers 1
      (3 ∷ 4 ∷ 5 ∷ 6 ∷ 7 ∷ [])
      (run buffers later_calls (
        subscribe_lossless buffers
          (3 ∷ 4 ∷ [])
          (run buffers (subscribes_lossless [] ∷ []) (new_fanout buffers)))).lossless
unfolding run step subscribe_lossless
subscribe_lossless-Present_example =
    subscribe_lossless-Present buffers (subscribes_lossless [] ∷ []) later_calls (3 ∷ 4 ∷ [])
      (refl, tt)
