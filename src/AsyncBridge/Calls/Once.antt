-- ===== src/AsyncBridge/Calls/Once.antt =====
-- `AsyncBridge` of `src/esp32_utils/async_bridge.rs` under any interleaving of its callers and its
-- responders: whose reply a caller gets, and how often a call is answered.
use beet_esp.Base.{ℕ, ◌+◌, ◌≡◌, refl, sym, ◌∙◌, ap, arith, inl, inr}
use beet_esp.Base.{some, List, [], ◌∷◌, ◌++◌, length, length-append, get_elem?, ltb}
use beet_esp.Base.{if◌then◌else◌, All, All-append, All-map, All-middle, tally, tally-append, occurs}
use beet_esp.Base.{get_elem?-append_some, get_elem?-last, get_elem?-snoc, ok, err}
use mathlib.Core.Path.{subst}
use beet_esp.AsyncBridge.{Signal, Channel}
use beet_esp.AsyncBridge.Pipes.{SignalLaws, ChannelLaws}
use beet_esp.AsyncBridge.Calls.{
  Exchange, Bridge, call, wait, next_call, reply_send, System, Step, accept, refuse, receive, reply,
  wake, Reach, here, next, start,
}
use beet_esp.AsyncBridge.Calls.Effects.{
  queued, call-ok, call-err, next_call-some, reply_send-queue, length-reply_send, pending_at,
  pending_at-same, pending_at-lt, pending_at-Accepted, pending_at-reply_send, wait-some,
}

abbrev pub number_of : {In : Type 0} → Exchange In → ℕ
number_of ex = ex.reply

abbrev pub itself : ℕ → ℕ
itself i = i

module _ {In Out : Type 0} (c : Channel (Exchange In)) (s : Signal Out) (n : ℕ)
    (laws : ChannelLaws c n) (signal_laws : SignalLaws s) (Works : In → Out → Type 0) where
  -- The exchange of a call carries the input of that call.
  abbrev pub IsOwn : List In → Exchange In → Type 0
  IsOwn accepted ex = get_elem? accepted ex.reply ≡ some ex.input

  abbrev IsOwnWait : List In → ℕ × In → Type 0
  IsOwnWait accepted p = get_elem? accepted p.0 ≡ some p.1

  pub record Invariant (w : System c s) : Type 0 where
    pub numbers : length w.accepted ≡ length w.bridge.signals
    in_queue : All (IsOwn w.accepted) (queued c s n laws signal_laws w.bridge)
    pub in_tasks : All (IsOwn w.accepted) w.tasks
    in_wait : All (IsOwnWait w.accepted) w.waiting
    pub replies :
        (i : ℕ) (x : In) (out : Out)
        → pending_at c s n laws signal_laws w.bridge i ≡ some out
        → get_elem? w.accepted i ≡ some x
        → Works x out
    outcomes : All (λ (p : In × Out). Works p.0 p.1) w.over

  -- Where the calls are: in the queue, with a task, or answered.
  unfoldable pub places : System c s → ℕ → ℕ
  places w i =
      tally number_of i (queued c s n laws signal_laws w.bridge)
      + tally number_of i w.tasks
      + tally itself i w.answered

  start-Invariant : Invariant (start c s)
  start-Invariant = record {
    numbers = refl;
    in_queue = rw (laws.contents-new) tt;
    in_tasks = tt;
    in_wait = tt;
    replies = λ i x out h g. cc;
    outcomes = tt;
  }

  accept-Invariant :
      {w : System c s} {b : Bridge c s} {i : ℕ} (input : In)
      → call c s w.bridge input ≡ (b, ok i)
      → Invariant w
      → Invariant (record w {
        bridge = b;
        waiting = (i, input) ∷ w.waiting;
        accepted = w.accepted ++ (input ∷ []);
      })
  accept-Invariant {w} {b} {i} input h inv =
      let a = call-ok c s n laws signal_laws w.bridge b input i h in
      let new : get_elem? (w.accepted ++ (input ∷ [])) i ≡ some input =
        ap (get_elem? (w.accepted ++ (input ∷ []))) (a.number ∙ sym inv.numbers)
        ∙ get_elem?-last w.accepted input in
      record {
        numbers =
            length-append w.accepted (input ∷ [])
            ∙ ap (λ k. k + 1) inv.numbers
            ∙ sym (length-append w.bridge.signals (s.new ∷ []))
            ∙ ap length (sym a.signals);
        in_queue = rw (a.contents) (
            All-append (IsOwn (w.accepted ++ (input ∷ []))) (queued c s n laws signal_laws w.bridge)
              (record { input = input; reply = i } ∷ [])
              (All-map (queued c s n laws signal_laws w.bridge)
                (λ ex g. get_elem?-append_some w.accepted (input ∷ []) ex.reply g) inv.in_queue)
              (new, tt));
        in_tasks =
            All-map w.tasks (λ ex g. get_elem?-append_some w.accepted (input ∷ []) ex.reply g)
              inv.in_tasks;
        in_wait = (
          new,
          All-map w.waiting (λ p g. get_elem?-append_some w.accepted (input ∷ []) p.0 g)
              inv.in_wait,
        );
        replies = λ j x out g at.
            let before = pending_at-Accepted c s n laws signal_laws w.bridge b j a g in
            elim (get_elem?-snoc w.accepted input j at) [
              | inl e ↦ inv.replies j x out before e
              | inr e ↦ absurd (
                  omega (
                    arith,
                    pending_at-lt c s n laws signal_laws w.bridge j before,
                    e.0,
                    inv.numbers,
                  ))
            ];
        outcomes = inv.outcomes;
      }

  refuse-Invariant :
      {w : System c s} {b : Bridge c s} {back : In} (input : In)
      → call c s w.bridge input ≡ (b, err back)
      → Invariant w
      → Invariant (record w { bridge = b })
  refuse-Invariant {w} {b} {back} input h inv =
      let (queue, signals) = call-err c s n laws signal_laws w.bridge b input back h in
      record {
        numbers = inv.numbers ∙ ap length (sym signals);
        in_queue = rw queue inv.in_queue;
        in_tasks = inv.in_tasks;
        in_wait = inv.in_wait;
        replies = λ i x out g at.
            inv.replies i x out
              (sym (pending_at-same c s n laws signal_laws w.bridge b i signals) ∙ g) at;
        outcomes = inv.outcomes;
      }

  receive-Invariant :
      {w : System c s} {b : Bridge c s} {ex : Exchange In}
      → next_call c s w.bridge ≡ (b, some ex)
      → Invariant w
      → Invariant (record w { bridge = b; tasks = ex ∷ w.tasks })
  receive-Invariant {w} {b} {ex} h inv =
      let (queue, signals) = next_call-some c s n laws signal_laws w.bridge b ex h in
      let (first, others) = subst (λ q. All (IsOwn w.accepted) q) queue inv.in_queue in
      record {
        numbers = inv.numbers ∙ ap length (sym signals);
        in_queue = others;
        in_tasks = (first, inv.in_tasks);
        in_wait = inv.in_wait;
        replies = λ i x out g at.
            inv.replies i x out
              (sym (pending_at-same c s n laws signal_laws w.bridge b i signals) ∙ g) at;
        outcomes = inv.outcomes;
      }

  reply-Invariant :
      {w : System c s} (before : List (Exchange In)) (ex : Exchange In) (after : List (Exchange In))
      (out : Out)
      → w.tasks ≡ before ++ (ex ∷ after)
      → Works ex.input out
      → Invariant w
      → Invariant (record w {
        bridge = reply_send c s w.bridge ex.reply out;
        tasks = before ++ after;
        answered = ex.reply ∷ w.answered;
      })
  reply-Invariant {w} before ex after out split works inv =
      let (own, others) =
        All-middle (IsOwn w.accepted) before ex after
          (subst (λ t. All (IsOwn w.accepted) t) split inv.in_tasks) in
      record {
        numbers =
            inv.numbers ∙ sym (length-reply_send c s n laws signal_laws w.bridge ex.reply out);
        in_queue = rw (reply_send-queue c s n laws signal_laws w.bridge ex.reply out) inv.in_queue;
        in_tasks = others;
        in_wait = inv.in_wait;
        replies = λ i x o g at.
            elim (pending_at-reply_send c s n laws signal_laws w.bridge ex.reply i out g) [
              | inl e ↦ inv.replies i x o e at
              | inr e ↦
                  let same : ex.input ≡ x = cc (own, at, e.0) in
                  subst (λ y. Works y o) same (subst (λ y. Works ex.input y) e.1 works)
            ];
        outcomes = inv.outcomes;
      }

  wake-Invariant :
      {w : System c s} {b : Bridge c s} {out : Out} (before : List (ℕ × In)) (i : ℕ) (input : In)
      (after : List (ℕ × In))
      → w.waiting ≡ before ++ ((i, input) ∷ after)
      → wait c s w.bridge i ≡ (b, some out)
      → Invariant w
      → Invariant (record w { bridge = b; waiting = before ++ after; over = (input, out) ∷ w.over })
  wake-Invariant {w} {b} {out} before i input after split h inv =
      let woken = wait-some c s n laws signal_laws w.bridge b i out h in
      let (own, others) =
        All-middle (IsOwnWait w.accepted) before (i, input) after
          (subst (λ t. All (IsOwnWait w.accepted) t) split inv.in_wait) in
      record {
        numbers = inv.numbers ∙ sym woken.signals;
        in_queue = rw (woken.queue) inv.in_queue;
        in_tasks = inv.in_tasks;
        in_wait = others;
        replies = λ j x o g at. inv.replies j x o (woken.others j o g) at;
        outcomes = (inv.replies i input out woken.pending own, inv.outcomes);
      }

  step-Invariant : {v w : System c s} → Step c s Works v w → Invariant v → Invariant w
  step-Invariant (accept input h) inv = accept-Invariant input h inv
  step-Invariant (refuse input h) inv = refuse-Invariant input h inv
  step-Invariant (receive h) inv = receive-Invariant h inv
  step-Invariant (reply before ex after out split works) inv =
      reply-Invariant before ex after out split works inv
  step-Invariant (wake before i input after split h) inv =
      wake-Invariant before i input after split h inv

  pub Reach-Invariant : {w : System c s} → Reach c s Works (start c s) w → Invariant w
  Reach-Invariant here = start-Invariant
  Reach-Invariant (next r step) = step-Invariant step (Reach-Invariant r)

  accept-places :
      {w : System c s} {b : Bridge c s} {k : ℕ} (input : In) (i : ℕ)
      → call c s w.bridge input ≡ (b, ok k)
      → Invariant w
      → tally number_of i (queued c s n laws signal_laws b)
        ≡ tally number_of i (queued c s n laws signal_laws w.bridge) + occurs i (length w.accepted)
  accept-places {w} {b} {k} input i h inv =
      let a = call-ok c s n laws signal_laws w.bridge b input k h in
      ap (tally number_of i) a.contents
      ∙ tally-append number_of i (queued c s n laws signal_laws w.bridge)
          (record { input = input; reply = k } ∷ [])
      ∙ ap (λ j. tally number_of i (queued c s n laws signal_laws w.bridge) + (occurs i j + 0))
          (a.number ∙ sym inv.numbers)
      ∙ omega arith

  tally-middle :
      {A : Type 0} (f : A → ℕ) (i : ℕ) (xs : List A) (y : A) (ys : List A)
      → tally f i (xs ++ (y ∷ ys)) ≡ occurs i (f y) + tally f i (xs ++ ys)
  tally-middle f i xs y ys = omega (arith, tally-append f i xs (y ∷ ys), tally-append f i xs ys)

  abbrev one_place : ℕ → ℕ → ℕ
  one_place i k = if ltb i k then 1 else 0

  one_place-suc : (i k : ℕ) → one_place i (k + 1) ≡ one_place i k + occurs i k
  one_place-suc i k = ground arith

  step-places :
      {v w : System c s} (i : ℕ)
      → Step c s Works v w
      → Invariant v
      → places v i ≡ one_place i (length v.accepted)
      → places w i ≡ one_place i (length w.accepted)
  unfolding places
  step-places i (accept {w} {b} {i = k} input h) inv eq = omega (
    arith,
    accept-places input i h inv,
    one_place-suc i (length w.accepted),
    eq,
    ap (one_place i) (length-append w.accepted (input ∷ [])),
  )
  step-places i (refuse {w} {b} {back} input h) inv eq =
      let (queue, signals) = call-err c s n laws signal_laws w.bridge b input back h in rw queue eq
  step-places i (receive {w} {b} {ex} h) inv eq =
      let (queue, signals) = next_call-some c s n laws signal_laws w.bridge b ex h in
      omega (arith, ap (tally number_of i) queue, eq)
  step-places i (reply {w} before ex after out split works) inv eq = omega (
    arith,
    ap (tally number_of i) split,
    tally-middle number_of i before ex after,
    eq,
    ap (tally number_of i) (reply_send-queue c s n laws signal_laws w.bridge ex.reply out),
  )
  step-places i (wake {w} {b} {out} before j input after split h) inv eq =
      rw ((wait-some c s n laws signal_laws w.bridge b j out h).queue) eq

  -- Under any interleaving of callers and responders, every accepted call is in exactly one place: it
  -- waits in the queue, is with a task, or has been answered, once; a number that is no call is in none.
  pub places_lem :
      {w : System c s} (i : ℕ)
      → Reach c s Works (start c s) w
      → places w i ≡ (if ltb i (length w.accepted) then 1 else 0)
  unfolding places
  places_lem i here =
      let nothing : one_place i 0 ≡ 0 = ground arith in
      ap (λ q. tally number_of i q + 0 + 0) laws.contents-new ∙ sym nothing
  places_lem i (next r step) = step-places i step (Reach-Invariant r) (places_lem i r)

  -- Under any interleaving of callers and responders, what a caller gets is what the worker made of the
  -- input of that very call.
  pub over-Works :
      {w : System c s}
      → Reach c s Works (start c s) w
      → All (λ (p : In × Out). Works p.0 p.1) w.over
  over-Works r = (Reach-Invariant r).outcomes
