-- ===== src/Fanout/Delivery.antt =====
-- What a lossless subscriber receives, crates/misy-core/src/fanout.rs.
use misy.Common.{
  if_cases, ℕ, true, false, some, List, [], ◌∷◌, ◌++◌, ◌≡◌, ◌⊎◌, refl, sym, ap, subst, ◌∙◌,
  Bool-cases, inl, inr, append-nil, append_assoc, ◌==◌, if◌then◌else◌, arith,
}
use misy.Common.Assoc.{Assoc, lookup}
use misy.Fanout.{
  accepted, Channels, Fanout, new_fanout, replay, subscribe, subscribe_lossless, kept_lossless,
  send_all, emit,
}
use misy.Fanout.Calls.{
  Call, subscribes, subscribes_lossless, emits, receives, drops, emitted, change_at, step, run,
}
use misy.Fanout.Numbers.{lookup-old, lookup-new, Below, run-Below}

module _ {T : Type 0} (m : Channels T) where
  open m use {
    Channel, unbounded, try_send, recv, close, received, is_open, is_unbounded, new_unbounded,
    takes_in_order, never_full, sending_keeps, reading_keeps,
  }

  -- An open lossless channel that has taken just these events.
  pub record Has (want : List T) (c : Channel) : Type 0 where
    pub open_still : is_open c ≡ true
    pub unlimited : is_unbounded c ≡ true
    pub has : received c ≡ want

  sent-Has :
      (x : T) (want : List T) (c : Channel) → Has want c → Has (want ++ x ∷ []) (try_send x c).1
  sent-Has x want c h = record {
    open_still = (sending_keeps x c).0 ∙ h.open_still;
    unlimited = (sending_keeps x c).1 ∙ h.unlimited;
    has =
        takes_in_order x c (never_full x c h.unlimited h.open_still) ∙ ap (λ v. v ++ x ∷ []) h.has;
  }

  read-Has : (want : List T) (c : Channel) → Has want c → Has want (recv c)
  read-Has want c h = record {
    open_still = (reading_keeps c).1 ∙ h.open_still;
    unlimited = (reading_keeps c).2 ∙ h.unlimited;
    has = (reading_keeps c).0 ∙ h.has;
  }

  replay-Has : (xs want : List T) (c : Channel) → Has want c → Has (want ++ xs) (replay m xs c)
  unfolding replay
  replay-Has [] want c h = subst (λ v. Has v c) (sym (append-nil want)) h
  replay-Has (x ∷ xs) want c h =
      subst (λ v. Has v (replay m xs (try_send x c).1)) (append_assoc want (x ∷ []) xs)
        (replay-Has xs (want ++ x ∷ []) (try_send x c).1 (sent-Has x want c h))

  -- A subscriber of a number, with the events that its channel has taken.
  abbrev pub Present : ℕ → List T → Assoc Channel → Type 0
  Present k want l = (c : Channel) × (lookup k l ≡ some c) × Has want c

  send_all-Present :
      (k : ℕ) (x : T) (want : List T) (l : Assoc Channel)
      → Present k want l
      → Present k (want ++ x ∷ []) (send_all m kept_lossless x l)
  unfolding send_all lookup
  send_all-Present k x want [] (c, e, h) = cc
  send_all-Present k x want ((i, d) ∷ cs) (c, e, h) = elim (Bool-cases (i == k)) [
    | inl here ↦
        let same : d ≡ c = ground (arith, e, here) in
        let taken : (try_send x d).0 ≡ accepted =
          subst (λ v. (try_send x v).0 ≡ accepted) (sym same)
            (never_full x c h.unlimited h.open_still) in
        (
          (try_send x d).1,
          rw taken (rw here refl),
          subst (λ v. Has (want ++ x ∷ []) (try_send x v).1) (sym same) (sent-Has x want c h),
        )
    | inr elsewhere ↦
        let later = send_all-Present k x want cs (c, ground (arith, e, elsewhere), h) in
        if_cases (Present k (want ++ x ∷ [])) (kept_lossless (try_send x d).0)
          ((i, (try_send x d).1) ∷ send_all m kept_lossless x cs) (send_all m kept_lossless x cs)
          (λ kept. (later.0, rw elsewhere later.1, later.2)) (λ gone. later)
  ]

  change_at-Present :
      (k i : ℕ) (g : Channel → Channel) (want : List T) (l : Assoc Channel)
      → ((i == k) ≡ false ⊎ ((c : Channel) → Has want c → Has want (g c)))
      → Present k want l
      → Present k want (change_at m i g l)
  unfolding change_at lookup
  change_at-Present k i g want [] keeps (c, e, h) = cc
  change_at-Present k i g want ((j, d) ∷ cs) keeps (c, e, h) = elim (Bool-cases (j == k)) [
    | inl here ↦
        let same : c ≡ d = ground (arith, e, here) in
        let mine : Has want d = subst (Has want) same h in
        (
          if j == i then g d else d,
          rw here refl,
          if_cases (Has want) (j == i) (g d) d
              (λ at. elim keeps [
                | inl other ↦ absurd (ground (arith, here, at, other))
                | inr keep ↦ keep d mine
              ])
              (λ at. mine),
        )
    | inr elsewhere ↦
        let later = change_at-Present k i g want cs keeps (c, ground (arith, e, elsewhere), h) in
        (later.0, rw elsewhere later.1, later.2)
  ]

  new-Below : Below m (new_fanout m)
  unfolding Below
  new-Below = tt

  subscribed :
      (f : Fanout m) (snapshot : List T)
      → Below m f
      → Present f.next snapshot (subscribe_lossless m snapshot f).lossless
  unfolding Below subscribe_lossless
  subscribed f snapshot b = (
    replay m snapshot unbounded,
    lookup-new f.next f.lossless (replay m snapshot unbounded) b,
    replay-Has snapshot [] unbounded (record {
      open_still = new_unbounded.1;
      unlimited = new_unbounded.2;
      has = new_unbounded.0;
    }),
  )

  -- The receiver of a number is not dropped.
  abbrev pub NotDropped : ℕ → List (Call T) → Type 0
  NotDropped k [] = Unit {0}
  NotDropped k (drops i ∷ cs) = ((i == k) ≡ false) × NotDropped k cs
  NotDropped k (subscribes n s ∷ cs) = NotDropped k cs
  NotDropped k (subscribes_lossless s ∷ cs) = NotDropped k cs
  NotDropped k (emits x ∷ cs) = NotDropped k cs
  NotDropped k (receives i ∷ cs) = NotDropped k cs

  old-Present :
      (k : ℕ) (want : List T) (l more : Assoc Channel)
      → Present k want l
      → Present k want (l ++ more)
  old-Present k want l more (c, e, h) = (c, lookup-old k l more c e, h)

  run-Present :
      (k : ℕ) (want : List T) (cs : List (Call T)) (f : Fanout m)
      → NotDropped k cs
      → Present k want f.lossless
      → Present k (want ++ emitted cs) (run m cs f).lossless
  unfolding run step subscribe subscribe_lossless emit
  run-Present k want [] f n p = subst (λ v. Present k v f.lossless) (sym (append-nil want)) p
  run-Present k want (subscribes i s ∷ cs) f n p =
      run-Present k want cs (step m (subscribes i s) f) n p
  run-Present k want (subscribes_lossless s ∷ cs) f n p =
      run-Present k want cs (step m (subscribes_lossless s) f) n
        (old-Present k want f.lossless ((f.next, replay m s unbounded) ∷ []) p)
  run-Present k want (emits x ∷ cs) f n p =
      subst (λ v. Present k v (run m cs (step m (emits x) f)).lossless)
        (append_assoc want (x ∷ []) (emitted cs))
        (run-Present k (want ++ x ∷ []) cs (step m (emits x) f) n
          (send_all-Present k x want f.lossless p))
  run-Present k want (receives i ∷ cs) f n p =
      run-Present k want cs (step m (receives i) f) n
        (change_at-Present k i recv want f.lossless (inr (read-Has want)) p)
  run-Present k want (drops i ∷ cs) f n p =
      run-Present k want cs (step m (drops i) f) n.1
        (change_at-Present k i close want f.lossless (inl n.0) p)

  -- Whoever subscribes without loss after any calls stays subscribed until the receiver is dropped,
  -- and receives the snapshot and then every event that is emitted from there on, each once and in
  -- order, whatever other subscribers and receivers do.
  pub subscribe_lossless-Present :
      (before after : List (Call T)) (snapshot : List T)
      → NotDropped (run m before (new_fanout m)).next after
      → Present
          (run m before (new_fanout m)).next
          (snapshot ++ emitted after)
          (run m after (subscribe_lossless m snapshot (run m before (new_fanout m)))).lossless
  subscribe_lossless-Present before after snapshot n =
      let f : Fanout m = run m before (new_fanout m) in
      run-Present f.next snapshot after (subscribe_lossless m snapshot f) n
        (subscribed f snapshot (run-Below m before (new_fanout m) new-Below))
