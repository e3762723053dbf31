-- ===== src/AsyncBridge/Pipes.antt =====
-- What the pipes promise on the documented behaviour of `embassy_sync`.
use beet_esp.Base.{
  ℕ, zero, suc, ◌≤◌, ◌<◌, ◌≡◌, refl, ◌∙◌, ap, arith, Option, none, some, List, [], ◌∷◌, ◌++◌,
}
use beet_esp.Base.{length}
use beet_esp.AsyncBridge.{
  Signal, Channel, full, publish, take_latest, send, try_recv, triggered, drain_to_observers,
}

-- A signal keeps one value; a later one overwrites it.
pub record SignalLaws {A : Type 0} (s : Signal A) : Type 0 where
  pub pending : s.State → Option A
  pub pending-new : pending s.new ≡ none
  pub pending-signal : (st : s.State) (a : A) → pending (s.signal st a) ≡ some a
  pub try_take-pending : (st : s.State) → (s.try_take st).1 ≡ pending st
  pub pending-try_take : (st : s.State) → pending (s.try_take st).0 ≡ none

abbrev pub first_of : {A : Type 0} → List A → Option A
first_of [] = none
first_of (a ∷ as') = some a

abbrev pub tail_of : {A : Type 0} → List A → List A
tail_of [] = []
tail_of (a ∷ as') = as'

-- A channel of capacity `n` is first in, first out; a full one hands the value back.
pub record ChannelLaws {A : Type 0} (c : Channel A) (n : ℕ) : Type 0 where
  pub contents : c.State → List A
  pub contents-new : contents c.new ≡ []
  pub accepts :
      (st : c.State) (a : A)
      → length (contents st) < n
      → ((c.try_send st a).1 ≡ none) × (contents (c.try_send st a).0 ≡ contents st ++ (a ∷ []))
  pub refuses :
      (st : c.State) (a : A)
      → n ≤ length (contents st)
      → ((c.try_send st a).1 ≡ some (full a)) × (contents (c.try_send st a).0 ≡ contents st)
  pub try_receive-first : (st : c.State) → (c.try_receive st).1 ≡ first_of (contents st)
  pub contents-try_receive : (st : c.State) → contents (c.try_receive st).0 ≡ tail_of (contents st)

module _ {A : Type 0} (s : Signal A) (laws : SignalLaws s) where
  -- The value that was published is pending.
  pub pending-publish : (st : s.State) (a : A) → laws.pending (publish s st a) ≡ some a
  unfolding publish
  pending-publish st a = laws.pending-signal st a

  -- `Latest` is latest-wins: of two values published one after the other, the second is taken, and
  -- nothing is pending afterwards.
  pub take_latest-publish :
      (st : s.State) (a b : A)
      → let (after, got) = take_latest s (publish s (publish s st a) b) in
        (got ≡ some b) × ((take_latest s after).1 ≡ none)
  unfolding take_latest publish
  take_latest-publish st a b =
      let last = s.signal (s.signal st a) b in
      (
        laws.try_take-pending last ∙ laws.pending-signal (s.signal st a) b,
        laws.try_take-pending (s.try_take last).0 ∙ laws.pending-try_take last,
      )

module _ {A : Type 0} (c : Channel A) (n : ℕ) (laws : ChannelLaws c n) where
  pub send-room :
      (st : c.State) (a : A)
      → length (laws.contents st) < n
      → ((send c st a).1 ≡ none) × (laws.contents (send c st a).0 ≡ laws.contents st ++ (a ∷ []))
  unfolding send
  send-room st a h = let (sent, kept) = laws.accepts st a h in (rw sent, kept)

  pub send-full :
      (st : c.State) (a : A)
      → n ≤ length (laws.contents st)
      → ((send c st a).1 ≡ some a) × (laws.contents (send c st a).0 ≡ laws.contents st)
  unfolding send
  send-full st a h = let (refused, kept) = laws.refuses st a h in (rw refused, kept)

  triggered-none :
      (rest : c.State → List A × c.State) (r : c.State × Option A)
      → r.1 ≡ none
      → triggered c rest r ≡ ([], r.0)
  triggered-none rest (st, none) h = refl
  triggered-none rest (st, some a) h = cc

  triggered-some :
      (rest : c.State → List A × c.State) (r : c.State × Option A) (a : A)
      → r.1 ≡ some a
      → triggered c rest r ≡ (a ∷ (rest r.0).0, (rest r.0).1)
  triggered-some rest (st, none) a h = cc
  triggered-some rest (st, some b) a h = cc

  drain_step :
      (fuel : ℕ) (st : c.State) (items : List A)
      → laws.contents st ≡ items
      → length items < fuel
      → ((drain_to_observers c fuel st).0 ≡ items)
        × (laws.contents (drain_to_observers c fuel st).1 ≡ [])
  unfolding drain_to_observers try_recv
  drain_step zero st items h less = absurd (omega arith)
  drain_step (suc fuel) st [] h less =
      let done =
        triggered-none (drain_to_observers c fuel) (c.try_receive st)
          (laws.try_receive-first st ∙ ap first_of h) in
      (
        ap (λ (t : List A × c.State). t.0) done,
        ap (λ (t : List A × c.State). laws.contents t.1) done
            ∙ laws.contents-try_receive st
            ∙ ap tail_of h,
      )
  drain_step (suc fuel) st (a ∷ as') h less =
      let more =
        triggered-some (drain_to_observers c fuel) (c.try_receive st) a
          (laws.try_receive-first st ∙ ap first_of h) in
      let (rest, left) =
        drain_step fuel (c.try_receive st).0 as' (laws.contents-try_receive st ∙ ap tail_of h)
          (omega arith) in
      (
        ap (λ (t : List A × c.State). t.0) more ∙ ap (λ (t : List A). a ∷ t) rest,
        ap (λ (t : List A × c.State). laws.contents t.1) more ∙ left,
      )

  -- A drain ends, with fuel above the number of items queued, triggers all of them, the first that
  -- was sent first, and leaves the queue empty.
  pub drain_to_observers_lem :
      (fuel : ℕ) (st : c.State)
      → length (laws.contents st) < fuel
      → ((drain_to_observers c fuel st).0 ≡ laws.contents st)
        × (laws.contents (drain_to_observers c fuel st).1 ≡ [])
  drain_to_observers_lem fuel st h = drain_step fuel st (laws.contents st) refl h
