-- ===== src/AsyncBridge/Calls/Effects.antt =====
-- What the operations of `AsyncBridge` in `src/esp32_utils/async_bridge.rs` do to its queue and to the
-- signals of its calls, on the documented behaviour of `embassy_sync`.
use beet_esp.Base.{
  ℕ, zero, suc, ◌>>=◌, ◌<◌, ◌≡◌, ◌≢◌, refl, sym, ◌∙◌, ap, arith, ◌⊎◌, inl, inr, Bool-cases,
}
use beet_esp.Base.{Option, none, some, List, [], ◌∷◌, ◌++◌, length, get_elem?, set, length-set, ltb}
use beet_esp.Base.{Result, ok, err}
use beet_esp.AsyncBridge.{Signal, Channel, send, try_recv}
use beet_esp.AsyncBridge.Pipes.{SignalLaws, ChannelLaws, first_of, tail_of, send-room, send-full}
use beet_esp.AsyncBridge.Calls.{
  Exchange, Bridge, enqueued, call, taken, wait, next_call, signalled, reply_send,
}

module _ {In Out : Type 0} (c : Channel (Exchange In)) (s : Signal Out) (n : ℕ)
    (laws : ChannelLaws c n) (signal_laws : SignalLaws s) where
  abbrev pub queued : Bridge c s → List (Exchange In)
  queued b = laws.contents b.queue

  -- A call that is accepted: its signal is new, and its exchange is the last of the queue.
  pub record Accepted (b after : Bridge c s) (input : In) (i : ℕ) : Type 0 where
    pub number : i ≡ length b.signals
    pub signals : after.signals ≡ b.signals ++ (s.new ∷ [])
    pub contents : queued after ≡ queued b ++ (record { input = input; reply = i } ∷ [])

  sent_or_full :
      (st : c.State) (ex : Exchange In)
      → (((send c st ex).1 ≡ none)
          × (laws.contents (send c st ex).0 ≡ laws.contents st ++ (ex ∷ [])))
        ⊎ (((send c st ex).1 ≡ some ex) × (laws.contents (send c st ex).0 ≡ laws.contents st))
  sent_or_full st ex = elim (Bool-cases (ltb (length (laws.contents st)) n)) [
    | inl e ↦ inl (send-room c n laws st ex (ground arith))
    | inr e ↦ inr (send-full c n laws st ex (ground arith))
  ]

  enqueued-ok :
      (b after : Bridge c s) (input : In) (i : ℕ) (r : c.State × Option (Exchange In))
      → enqueued c s b r ≡ (after, ok i)
      → (r.1 ≡ none)
        × (i ≡ length b.signals)
        × (after.queue ≡ r.0)
        × (after.signals ≡ b.signals ++ (s.new ∷ []))
  enqueued-ok b after input i (queue, none) h = (
    refl,
    cc (ap (λ (t : Bridge c s × Result In ℕ). t.1) h),
    sym (ap (λ (t : Bridge c s × Result In ℕ). t.0.queue) h),
    sym (ap (λ (t : Bridge c s × Result In ℕ). t.0.signals) h),
  )
  enqueued-ok b after input i (queue, some ex) h =
      absurd (cc (ap (λ (t : Bridge c s × Result In ℕ). t.1) h))

  pub call-ok :
      (b after : Bridge c s) (input : In) (i : ℕ)
      → call c s b input ≡ (after, ok i)
      → Accepted b after input i
  unfolding call
  call-ok b after input i h =
      let ex : Exchange In = record { input = input; reply = length b.signals } in
      let (sent, number, queue, signals) = enqueued-ok b after input i (send c b.queue ex) h in
      elim (sent_or_full b.queue ex) [
        | inl e ↦ record {
          number = number;
          signals = signals;
          contents =
              ap laws.contents queue
              ∙ e.1
              ∙ ap (λ k. queued b ++ (record { input = input; reply = k } ∷ [])) (sym number);
        }
        | inr e ↦ absurd (cc (e.0, sent))
      ]

  enqueued-err :
      (b after : Bridge c s) (back : In) (r : c.State × Option (Exchange In))
      → enqueued c s b r ≡ (after, err back)
      → (r.1 ≢ none) × (after.queue ≡ r.0) × (after.signals ≡ b.signals)
  enqueued-err b after back (queue, none) h =
      absurd (cc (ap (λ (t : Bridge c s × Result In ℕ). t.1) h))
  enqueued-err b after back (queue, some ex) h = (
    λ e. cc,
    sym (ap (λ (t : Bridge c s × Result In ℕ). t.0.queue) h),
    sym (ap (λ (t : Bridge c s × Result In ℕ). t.0.signals) h),
  )

  -- A call that is refused changes nothing.
  pub call-err :
      (b after : Bridge c s) (input back : In)
      → call c s b input ≡ (after, err back)
      → (queued after ≡ queued b) × (after.signals ≡ b.signals)
  unfolding call
  call-err b after input back h =
      let ex : Exchange In = record { input = input; reply = length b.signals } in
      let (unsent, queue, signals) = enqueued-err b after back (send c b.queue ex) h in
      elim (sent_or_full b.queue ex) [
        | inl e ↦ absurd (unsent e.0)
        | inr e ↦ (ap laws.contents queue ∙ e.1, signals)
      ]

  first_and_tail :
      (xs : List (Exchange In)) {ex : Exchange In} → first_of xs ≡ some ex → xs ≡ ex ∷ tail_of xs
  first_and_tail [] h = cc
  first_and_tail (x ∷ xs) h = ap (λ y. y ∷ xs) cc

  -- What is received is the first of the queue.
  pub next_call-some :
      (b after : Bridge c s) (ex : Exchange In)
      → next_call c s b ≡ (after, some ex)
      → (queued b ≡ ex ∷ queued after) × (after.signals ≡ b.signals)
  unfolding next_call try_recv
  next_call-some b after ex h =
      let got : (c.try_receive b.queue).1 ≡ some ex =
        ap (λ (t : Bridge c s × Option (Exchange In)). t.1) h in
      let queue = ap (λ (t : Bridge c s × Option (Exchange In)). laws.contents t.0.queue) h in
      (
        first_and_tail (queued b) (sym (laws.try_receive-first b.queue) ∙ got)
            ∙ ap (◌∷◌ ex) (sym (laws.contents-try_receive b.queue) ∙ queue),
        sym (ap (λ (t : Bridge c s × Option (Exchange In)). t.0.signals) h),
      )

  -- An empty queue gives nothing and stays empty.
  pub next_call-none :
      (b : Bridge c s)
      → queued b ≡ []
      → (next_call c s b ≡ ((next_call c s b).0, none)) × (queued (next_call c s b).0 ≡ [])
  unfolding next_call try_recv
  next_call-none b h = (
    ap (λ o. (record b { queue = (c.try_receive b.queue).0 }, o))
        (laws.try_receive-first b.queue ∙ ap first_of h),
    laws.contents-try_receive b.queue ∙ ap tail_of h,
  )

  signalled-queue :
      (b : Bridge c s) (i : ℕ) (out : Out) (o : Option s.State)
      → (signalled c s b i out o).queue ≡ b.queue
  signalled-queue b i out none = refl
  signalled-queue b i out (some st) = refl

  pub reply_send-queue :
      (b : Bridge c s) (i : ℕ) (out : Out) → queued (reply_send c s b i out) ≡ queued b
  unfolding reply_send
  reply_send-queue b i out = ap laws.contents (signalled-queue b i out (get_elem? b.signals i))

  length-signalled :
      (b : Bridge c s) (i : ℕ) (out : Out) (o : Option s.State)
      → length (signalled c s b i out o).signals ≡ length b.signals
  length-signalled b i out none = refl
  length-signalled b i out (some st) = length-set b.signals i (s.signal st out)

  pub length-reply_send :
      (b : Bridge c s) (i : ℕ) (out : Out)
      → length (reply_send c s b i out).signals ≡ length b.signals
  unfolding reply_send
  length-reply_send b i out = length-signalled b i out (get_elem? b.signals i)

  unfoldable pub pend : List s.State → ℕ → Option Out
  pend sts i = get_elem? sts i >>= signal_laws.pending

  pend-snoc :
      (sts : List s.State) (i : ℕ) {out : Out}
      → pend (sts ++ (s.new ∷ [])) i ≡ some out
      → pend sts i ≡ some out
  unfolding pend
  pend-snoc [] zero h = cc (signal_laws.pending-new, h)
  pend-snoc [] (suc i) h = cc
  pend-snoc (st ∷ sts) zero h = h
  pend-snoc (st ∷ sts) (suc i) h = pend-snoc sts i h

  pend-set :
      (sts : List s.State) (i j : ℕ) (v : s.State) {out : Out}
      → pend (set sts i v) j ≡ some out
      → (pend sts j ≡ some out) ⊎ ((j ≡ i) × (signal_laws.pending v ≡ some out))
  unfolding pend
  pend-set [] i j v h = inl h
  pend-set (st ∷ sts) zero zero v h = inr (refl, h)
  pend-set (st ∷ sts) zero (suc j) v h = inl h
  pend-set (st ∷ sts) (suc i) zero v h = inl h
  pend-set (st ∷ sts) (suc i) (suc j) v h = elim (pend-set sts i j v h) [
    | inl e ↦ inl e
    | inr e ↦ inr (ap suc e.0, e.1)
  ]

  -- The reply that waits for the caller, if there is one.
  unfoldable pub pending_at : Bridge c s → ℕ → Option Out
  pending_at b i = pend b.signals i

  pub pending_at-none : (b : Bridge c s) (i : ℕ) → b.signals ≡ [] → pending_at b i ≡ none
  unfolding pending_at pend
  pending_at-none b i h = rw h refl

  pend-lt : (sts : List s.State) (i : ℕ) {out : Out} → pend sts i ≡ some out → i < length sts
  unfolding pend
  pend-lt [] i h = cc
  pend-lt (st ∷ sts) zero h = omega arith
  pend-lt (st ∷ sts) (suc i) h = omega (arith, pend-lt sts i h)

  pub pending_at-lt :
      (b : Bridge c s) (i : ℕ) {out : Out} → pending_at b i ≡ some out → i < length b.signals
  unfolding pending_at
  pending_at-lt b i h = pend-lt b.signals i h

  -- A queue that is not empty gives its first.
  pub next_call-first :
      (b : Bridge c s) (ex : Exchange In) (rest : List (Exchange In))
      → queued b ≡ ex ∷ rest
      → next_call c s b ≡ ((next_call c s b).0, some ex)
  unfolding next_call try_recv
  next_call-first b ex rest h =
      ap (λ o. (record b { queue = (c.try_receive b.queue).0 }, o))
        (laws.try_receive-first b.queue ∙ ap first_of h)

  pub pending_at-same :
      (b after : Bridge c s) (i : ℕ)
      → after.signals ≡ b.signals
      → pending_at after i ≡ pending_at b i
  unfolding pending_at
  pending_at-same b after i h = ap (λ sts. pend sts i) h

  pub pending_at-Accepted :
      (b after : Bridge c s) {input : In} {k : ℕ} (i : ℕ) {out : Out}
      → Accepted b after input k
      → pending_at after i ≡ some out
      → pending_at b i ≡ some out
  unfolding pending_at
  pending_at-Accepted b after i a h =
      pend-snoc b.signals i (ap (λ sts. pend sts i) (sym a.signals) ∙ h)

  pending_at-signalled :
      (b : Bridge c s) (i j : ℕ) (sent : Out) (o : Option s.State) {out : Out}
      → pending_at (signalled c s b i sent o) j ≡ some out
      → (pending_at b j ≡ some out) ⊎ ((j ≡ i) × (sent ≡ out))
  unfolding pending_at
  pending_at-signalled b i j sent none h = inl h
  pending_at-signalled b i j sent (some st) h = elim (pend-set b.signals i j (s.signal st sent) h) [
    | inl e ↦ inl e
    | inr e ↦ inr (e.0, cc (signal_laws.pending-signal st sent, e.1))
  ]

  -- What is pending after a reply was pending before, or is that reply.
  pub pending_at-reply_send :
      (b : Bridge c s) (i j : ℕ) (sent : Out) {out : Out}
      → pending_at (reply_send c s b i sent) j ≡ some out
      → (pending_at b j ≡ some out) ⊎ ((j ≡ i) × (sent ≡ out))
  unfolding reply_send
  pending_at-reply_send b i j sent h = pending_at-signalled b i j sent (get_elem? b.signals i) h

  -- A caller that wakes takes the reply that is pending; nothing else changes.
  pub record Woken (b after : Bridge c s) (i : ℕ) (out : Out) : Type 0 where
    pub pending : pending_at b i ≡ some out
    pub queue : queued after ≡ queued b
    pub signals : length after.signals ≡ length b.signals
    pub others : (j : ℕ) (o : Out) → pending_at after j ≡ some o → pending_at b j ≡ some o

  taken-some :
      (b after : Bridge c s) (i : ℕ) (out : Out) (o : Option s.State)
      → get_elem? b.signals i ≡ o
      → taken c s b i o ≡ (after, some out)
      → Woken b after i out
  unfolding pending_at pend
  taken-some b after i out none eq h = absurd (cc (ap (λ (t : Bridge c s × Option Out). t.1) h))
  taken-some b after i out (some st) eq h =
      let took : (s.try_take st).1 ≡ some out = ap (λ (t : Bridge c s × Option Out). t.1) h in
      let signals : set b.signals i (s.try_take st).0 ≡ after.signals =
        ap (λ (t : Bridge c s × Option Out). t.0.signals) h in
      record {
        pending = rw eq (sym (signal_laws.try_take-pending st) ∙ took);
        queue = sym (ap (λ (t : Bridge c s × Option Out). laws.contents t.0.queue) h);
        signals = ap length (sym signals) ∙ length-set b.signals i (s.try_take st).0;
        others = λ j o here.
            elim (pend-set b.signals i j (s.try_take st).0
              (ap (λ sts. pend sts j) signals ∙ here)) [
                | inl e ↦ e
                | inr e ↦ absurd (cc (e.1, signal_laws.pending-try_take st))
              ];
      }

  pub wait-some :
      (b after : Bridge c s) (i : ℕ) (out : Out)
      → wait c s b i ≡ (after, some out)
      → Woken b after i out
  unfolding wait
  wait-some b after i out h = taken-some b after i out (get_elem? b.signals i) refl h
