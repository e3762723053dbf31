-- ===== src/AsyncBridge/Calls/Delivered.antt =====
-- `Reply::send` of `src/esp32_utils/async_bridge.rs`: the reply of a call that is answered waits for its
-- caller, as long as only responders run.
use beet_esp.Base.{ℕ, zero, suc, ◌<◌, ◌≡◌, ◌>>=◌, refl, sym, ◌∙◌, arith, inl, inr, Bool-cases}
use beet_esp.Base.{
  Option, none, some, List, [], ◌∷◌, ◌++◌, length, get_elem?, set, tally, ◌==◌, ==_iff,
}
use beet_esp.Base.{All-middle, All}
use mathlib.Core.Path.{subst}
use beet_esp.AsyncBridge.{Signal, Channel}
use beet_esp.AsyncBridge.Pipes.{SignalLaws, ChannelLaws}
use beet_esp.AsyncBridge.Calls.{
  Exchange, Bridge, wait, taken, signalled, reply_send, System, Step, accept, refuse, receive,
  reply, wake, Reach, here, next, start,
}
use beet_esp.AsyncBridge.Calls.Effects.{pend, pending_at, next_call-some, pending_at-same}
use beet_esp.AsyncBridge.Calls.Once.{itself, IsOwn, Invariant, Reach-Invariant}

pub inside : {A : Type 0} (xs : List A) (i : ℕ) {a : A} → get_elem? xs i ≡ some a → i < length xs
inside [] i h = cc
inside (x ∷ xs) zero h = omega arith
inside (x ∷ xs) (suc i) h = omega (arith, inside xs i h)

module _ {In Out : Type 0} (c : Channel (Exchange In)) (s : Signal Out) (n : ℕ)
    (laws : ChannelLaws c n) (signal_laws : SignalLaws s) where
  abbrev pub HasReply : Bridge c s → ℕ → Type 0
  HasReply b i = (out : Out) × (pending_at c s n laws signal_laws b i ≡ some out)

  set-kept :
      (sts : List s.State) (i j : ℕ) (v : s.State) {a out : Out}
      → signal_laws.pending v ≡ some a
      → pend c s n laws signal_laws sts j ≡ some out
      → (o : Out) × (pend c s n laws signal_laws (set sts i v) j ≡ some o)
  unfolding pend
  set-kept [] i j v {a} {out} hv h = (out, h)
  set-kept (st ∷ sts) zero zero v {a} {out} hv h = (a, hv)
  set-kept (st ∷ sts) zero (suc j) v {a} {out} hv h = (out, h)
  set-kept (st ∷ sts) (suc i) zero v {a} {out} hv h = (out, h)
  set-kept (st ∷ sts) (suc i) (suc j) v hv h = set-kept sts i j v hv h

  set-there :
      (sts : List s.State) (i : ℕ) (v : s.State)
      → i < length sts
      → pend c s n laws signal_laws (set sts i v) i ≡ signal_laws.pending v
  unfolding pend
  set-there [] i v h = absurd (omega arith)
  set-there (st ∷ sts) zero v h = refl
  set-there (st ∷ sts) (suc i) v h = set-there sts i v (omega arith)

  signalled-kept :
      (b : Bridge c s) (i j : ℕ) (sent : Out) (o : Option s.State)
      → HasReply b j
      → HasReply (signalled c s b i sent o) j
  unfolding pending_at
  signalled-kept b i j sent none h = h
  signalled-kept b i j sent (some st) h =
      set-kept b.signals i j (s.signal st sent) (signal_laws.pending-signal st sent) h.1

  signalled-there :
      (b : Bridge c s) (i : ℕ) (sent : Out) (o : Option s.State)
      → get_elem? b.signals i ≡ o
      → i < length b.signals
      → HasReply (signalled c s b i sent o) i
  unfolding pending_at
  signalled-there b i sent none h less = absurd (missing b.signals i less h)
    where
      missing : (sts : List s.State) (k : ℕ) → k < length sts → get_elem? sts k ≡ none → ⊥
      missing [] k less h = omega arith
      missing (st ∷ sts) zero less h = cc
      missing (st ∷ sts) (suc k) less h = missing sts k (omega arith) h
  signalled-there b i sent (some st) h less =
      (sent, set-there b.signals i (s.signal st sent) less ∙ signal_laws.pending-signal st sent)

  taken-pending :
      (b : Bridge c s) (i : ℕ) (o : Option s.State)
      → (taken c s b i o).1 ≡ (o >>= signal_laws.pending)
  taken-pending b i none = refl
  taken-pending b i (some st) = signal_laws.try_take-pending st

  -- A poll of `wait` gives the reply that is pending.
  pub wait-pending :
      (b : Bridge c s) (i : ℕ) → (wait c s b i).1 ≡ pending_at c s n laws signal_laws b i
  unfolding wait pending_at pend
  wait-pending b i = taken-pending b i (get_elem? b.signals i)

  module _ (Works : In → Out → Type 0) where
    -- Whether a step is one of a responder.
    abbrev pub IsResponse : {v w : System c s} → Step c s Works v w → Type 0
    IsResponse (accept input h) = ⊥
    IsResponse (refuse input h) = ⊥
    IsResponse (receive h) = Unit {0}
    IsResponse (reply before ex after out split works) = Unit {0}
    IsResponse (wake before i input after split h) = ⊥

    -- A run of the responders alone.
    pub data Responded (v : System c s) : System c s → Type 0 where
      idle : Responded v v
      respond :
          {w u : System c s}
          → Responded v w
          → (step : Step c s Works w u) → IsResponse step
          → Responded v u

    pub Responded-Reach : {v w : System c s} → Responded v w → Reach c s Works v w
    Responded-Reach idle = here
    Responded-Reach (respond r step own) = next (Responded-Reach r) step

    pub Responded-trans : {u v w : System c s} → Responded u v → Responded v w → Responded u w
    Responded-trans r idle = r
    Responded-trans r (respond q step own) = respond (Responded-trans r q) step own

    pub Reach-trans :
        {u v w : System c s} → Reach c s Works u v → Reach c s Works v w → Reach c s Works u w
    Reach-trans r here = r
    Reach-trans r (next q step) = next (Reach-trans r q) step

    replied_now :
        {w : System c s} (before : List (Exchange In)) (ex : Exchange In)
        (after : List (Exchange In)) (out : Out) (i : ℕ)
        → w.tasks ≡ before ++ (ex ∷ after)
        → Invariant c s n laws signal_laws Works w
        → (0 < tally itself i w.answered → HasReply w.bridge i)
        → 0 < tally itself i (ex.reply ∷ w.answered)
        → HasReply (reply_send c s w.bridge ex.reply out) i
    unfolding reply_send
    replied_now {w} before ex after out i split inv had some_now =
        elim (Bool-cases (i == ex.reply)) [
          | inl same ↦
              let (own, _) =
                All-middle (IsOwn c s n laws signal_laws Works w.accepted) before ex after (
                  subst (λ t. All (IsOwn c s n laws signal_laws Works w.accepted) t) split
                    inv.in_tasks) in
              subst
                (HasReply
                  (signalled c s w.bridge ex.reply out (get_elem? w.bridge.signals ex.reply)))
                (sym ((==_iff i ex.reply).0 same))
                (signalled-there w.bridge ex.reply out (get_elem? w.bridge.signals ex.reply) refl
                  (omega (arith, inside w.accepted ex.reply own, inv.numbers)))
          | inr other ↦
              let earlier : 0 < tally itself i w.answered = ground arith in
              signalled-kept w.bridge ex.reply i out (get_elem? w.bridge.signals ex.reply)
                (had earlier)
        ]

    -- What the responders have answered on the way is pending at the end.
    pub Responded-pending :
        {v w : System c s} (i : ℕ)
        → Reach c s Works (start c s) v
        → tally itself i v.answered ≡ 0
        → Responded v w
        → 0 < tally itself i w.answered
        → HasReply w.bridge i
    Responded-pending i from none_yet idle some_now = absurd (omega arith)
    Responded-pending i from none_yet (respond r (receive {w} {b} {ex} h) own) some_now =
        let (_, signals) = next_call-some c s n laws signal_laws w.bridge b ex h in
        let (out, pending) = Responded-pending i from none_yet r some_now in
        (out, pending_at-same c s n laws signal_laws w.bridge b i signals ∙ pending)
    Responded-pending i from none_yet (respond r (reply before ex after out split works) own)
          some_now =
        replied_now before ex after out i split
          (Reach-Invariant c s n laws signal_laws Works (Reach-trans from (Responded-Reach r)))
          (Responded-pending i from none_yet r) some_now
    Responded-pending i from none_yet (respond r (accept input h) own) some_now = absurd own
    Responded-pending i from none_yet (respond r (refuse input h) own) some_now = absurd own
    Responded-pending i from none_yet (respond r (wake before j input after split h) own) some_now =
        absurd own
