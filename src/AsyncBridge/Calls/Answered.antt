-- ===== src/AsyncBridge/Calls/Answered.antt =====
-- `AsyncBridge` of `src/esp32_utils/async_bridge.rs`: the responders can always bring every call to an
-- answer, and `drain_to_async` and `run_worker` are such runs.
use beet_esp.Base.{ℕ, zero, suc, ◌<◌, ◌≡◌, refl, sym, ◌∙◌, ap, arith}
use beet_esp.Base.{some, get_elem?, List, [], ◌∷◌, length, ltb, if◌then◌else◌, tally}
use beet_esp.AsyncBridge.{Signal, Channel}
use beet_esp.AsyncBridge.Pipes.{SignalLaws, ChannelLaws, tail_of}
use beet_esp.AsyncBridge.Calls.{
  Exchange, Bridge, next_call, reply_send, drain_to_async, spawned, run_worker, worked, System,
  Step, receive, reply, Reach, here, next, start, wait,
}
use beet_esp.AsyncBridge.Calls.Delivered.{
  inside, IsResponse, Responded, idle, respond, Responded-Reach, Responded-trans, Reach-trans,
  Responded-pending, wait-pending,
}
use beet_esp.AsyncBridge.Calls.Effects.{
  queued, next_call-first, next_call-none, next_call-some, reply_send-queue,
}
use beet_esp.AsyncBridge.Calls.Once.{places, places_lem, itself, number_of, Reach-Invariant}

module _ {In Out : Type 0} (c : Channel (Exchange In)) (s : Signal Out) (n : ℕ)
    (laws : ChannelLaws c n) (signal_laws : SignalLaws s) (worker : In → Out) where
  abbrev pub IsWork : In → Out → Type 0
  IsWork x out = out ≡ worker x

  -- A run that goes on from a system to one with no exchange in the queue or with a task.
  record Emptied (v : System c s) : Type 0 where
    end : System c s
    run : Responded c s n laws signal_laws IsWork v end
    queue : queued c s n laws signal_laws end.bridge ≡ []
    tasks : end.tasks ≡ []
    accepted : end.accepted ≡ v.accepted

  Emptied-step :
      {v w : System c s} (step : Step c s IsWork v w)
      → IsResponse c s n laws signal_laws IsWork step
      → w.accepted ≡ v.accepted
      → Emptied w
      → Emptied v
  Emptied-step step own same e = record {
    end = e.end;
    run = Responded-trans c s n laws signal_laws IsWork (respond idle step own) e.run;
    queue = e.queue;
    tasks = e.tasks;
    accepted = e.accepted ∙ same;
  }

  -- Every task replies.
  finish_tasks :
      (ts : List (Exchange In)) (v : System c s)
      → v.tasks ≡ ts
      → queued c s n laws signal_laws v.bridge ≡ []
      → Emptied v
  finish_tasks [] v eq queue = record {
    end = v;
    run = idle;
    queue = queue;
    tasks = eq;
    accepted = refl;
  }
  finish_tasks (t ∷ ts) v eq queue = Emptied-step (reply [] t ts (worker t.input) eq refl) tt refl (
      finish_tasks ts
        (record v {
          bridge = reply_send c s v.bridge t.reply (worker t.input);
          tasks = ts;
          answered = t.reply ∷ v.answered;
        })
        refl (reply_send-queue c s n laws signal_laws v.bridge t.reply (worker t.input) ∙ queue))

  -- Every queued exchange is received first.
  finish :
      (q : List (Exchange In)) (v : System c s)
      → queued c s n laws signal_laws v.bridge ≡ q
      → Emptied v
  finish [] v eq = finish_tasks v.tasks v refl eq
  finish (ex ∷ q) v eq =
      let got = next_call-first c s n laws signal_laws v.bridge ex q eq in
      let (split, signals) =
        next_call-some c s n laws signal_laws v.bridge (next_call c s v.bridge).0 ex got in
      Emptied-step (receive got) tt refl (
        finish q (record v { bridge = (next_call c s v.bridge).0; tasks = ex ∷ v.tasks })
          (ap tail_of (sym split ∙ eq)))

  -- From a system, a run of responders to one in which each of its calls has been answered once, and the
  -- reply of each that was not answered before waits for its caller.
  pub record Answered (v : System c s) : Type 0 where
    pub end : System c s
    pub run : Responded c s n laws signal_laws IsWork v end
    pub accepted : end.accepted ≡ v.accepted
    pub once : (i : ℕ) → i < length v.accepted → tally itself i end.answered ≡ 1
    pub polled :
        (i : ℕ) (x : In)
        → get_elem? v.accepted i ≡ some x
        → tally itself i v.answered ≡ 0
        → (wait c s end.bridge i).1 ≡ some (worker x)

  emptied-once :
      (w : System c s) (i : ℕ)
      → Reach c s IsWork (start c s) w
      → queued c s n laws signal_laws w.bridge ≡ []
      → w.tasks ≡ []
      → i < length w.accepted
      → tally itself i w.answered ≡ 1
  unfolding places
  emptied-once w i r queue tasks inside =
      let one : ◌≡◌ {A = ℕ} (if ltb i (length w.accepted) then 1 else 0) 1 = ground arith in
      omega (
        arith,
        places_lem c s n laws signal_laws IsWork i r,
        one,
        ap (tally number_of i) queue,
        ap (tally number_of i) tasks,
      )

  emptied-delivered :
      (v w : System c s) (i : ℕ) (x : In)
      → Reach c s IsWork (start c s) v
      → Responded c s n laws signal_laws IsWork v w
      → w.accepted ≡ v.accepted
      → tally itself i w.answered ≡ 1
      → get_elem? v.accepted i ≡ some x
      → tally itself i v.answered ≡ 0
      → (wait c s w.bridge i).1 ≡ some (worker x)
  emptied-delivered v w i x from run same once there none_yet =
      let (out, pending) =
        Responded-pending c s n laws signal_laws IsWork i from none_yet run (omega (arith, once)) in
      let all =
        Reach-trans c s n laws signal_laws IsWork from
          (Responded-Reach c s n laws signal_laws IsWork run) in
      let made : out ≡ worker x =
        (Reach-Invariant c s n laws signal_laws IsWork all).replies i x out pending
          (ap (λ l. get_elem? l i) same ∙ there) in
      wait-pending c s n laws signal_laws w.bridge i ∙ pending ∙ ap some made

  -- Whatever has happened so far, the responders alone can go on to where every call that was accepted
  -- has been answered, each exactly once; and by then a poll of each call that was not answered before
  -- gives what the worker makes of its input.
  pub Reach-Answered : (v : System c s) → Reach c s IsWork (start c s) v → Answered v
  Reach-Answered v r =
      let e = finish (queued c s n laws signal_laws v.bridge) v refl in
      let all =
        Reach-trans c s n laws signal_laws IsWork r
          (Responded-Reach c s n laws signal_laws IsWork e.run) in
      let once : (i : ℕ) → i < length v.accepted → tally itself i e.end.answered ≡ 1 = λ i inside.
        emptied-once e.end i all e.queue e.tasks (omega (arith, ap length e.accepted)) in
      record {
        end = e.end;
        run = e.run;
        accepted = e.accepted;
        once = once;
        polled = λ i x there none_yet.
            emptied-delivered v e.end i x r e.run e.accepted (once i (inside v.accepted i there))
              there none_yet;
      }

  drain_step :
      (fuel : ℕ) (q : List (Exchange In)) (b : Bridge c s)
      → queued c s n laws signal_laws b ≡ q
      → length q < fuel
      → ((drain_to_async c s fuel b).0 ≡ q)
        × (queued c s n laws signal_laws (drain_to_async c s fuel b).1 ≡ [])
  unfolding drain_to_async
  drain_step zero q b eq less = absurd (omega arith)
  drain_step (suc fuel) [] b eq less =
      let (got, empty) = next_call-none c s n laws signal_laws b eq in
      let turn = ap (spawned c s (drain_to_async c s fuel)) got in
      (
        ap (λ (t : List (Exchange In) × Bridge c s). t.0) turn,
        ap (λ (t : List (Exchange In) × Bridge c s). queued c s n laws signal_laws t.1) turn
            ∙ empty,
      )
  drain_step (suc fuel) (ex ∷ q) b eq less =
      let got = next_call-first c s n laws signal_laws b ex q eq in
      let (split, signals) = next_call-some c s n laws signal_laws b (next_call c s b).0 ex got in
      let turn = ap (spawned c s (drain_to_async c s fuel)) got in
      let (rest, left) =
        drain_step fuel q (next_call c s b).0 (ap tail_of (sym split ∙ eq)) (omega arith) in
      (
        ap (λ (t : List (Exchange In) × Bridge c s). t.0) turn ∙ ap (◌∷◌ ex) rest,
        ap (λ (t : List (Exchange In) × Bridge c s). queued c s n laws signal_laws t.1) turn ∙ left,
      )

  -- A drain ends, with fuel above the number of queued calls, spawns a task for each of them, the
  -- first that was sent first, and leaves the queue empty.
  pub drain_to_async_lem :
      (fuel : ℕ) (b : Bridge c s)
      → length (queued c s n laws signal_laws b) < fuel
      → ((drain_to_async c s fuel b).0 ≡ queued c s n laws signal_laws b)
        × (queued c s n laws signal_laws (drain_to_async c s fuel b).1 ≡ [])
  drain_to_async_lem fuel b less = drain_step fuel (queued c s n laws signal_laws b) b refl less

  abbrev numbers_onto : List (Exchange In) → List ℕ → List ℕ
  numbers_onto [] done = done
  numbers_onto (ex ∷ q) done = numbers_onto q (ex.reply ∷ done)

  -- What a worker's turns do: they answer the calls that are queued, in their order.
  pub record Worked (v : System c s) (turns : ℕ) : Type 0 where
    pub end : System c s
    pub run : Reach c s IsWork v end
    pub bridge : end.bridge ≡ run_worker c s worker turns v.bridge
    pub queue : queued c s n laws signal_laws end.bridge ≡ []
    pub answered : end.answered ≡ numbers_onto (queued c s n laws signal_laws v.bridge) v.answered

  run_worker_step :
      (q : List (Exchange In)) (v : System c s)
      → queued c s n laws signal_laws v.bridge ≡ q
      → Worked v (length q)
  unfolding run_worker
  run_worker_step [] v eq = record {
    end = v;
    run = here;
    bridge = refl;
    queue = eq;
    answered = rw eq refl;
  }
  run_worker_step (ex ∷ q) v eq =
      let got = next_call-first c s n laws signal_laws v.bridge ex q eq in
      let (split, signals) =
        next_call-some c s n laws signal_laws v.bridge (next_call c s v.bridge).0 ex got in
      let received : System c s = record v {
        bridge = (next_call c s v.bridge).0;
        tasks = ex ∷ v.tasks;
      } in
      let replied : System c s = record v {
        bridge = reply_send c s (next_call c s v.bridge).0 ex.reply (worker ex.input);
        answered = ex.reply ∷ v.answered;
      } in
      let steps : Reach c s IsWork v replied =
        next (next here (receive got))
          (reply {w = received} [] ex v.tasks (worker ex.input) refl refl) in
      let left : queued c s n laws signal_laws replied.bridge ≡ q =
        reply_send-queue c s n laws signal_laws (next_call c s v.bridge).0 ex.reply
          (worker ex.input)
        ∙ ap tail_of (sym split ∙ eq) in
      let rest = run_worker_step q replied left in
      record {
        end = rest.end;
        run = Reach-trans c s n laws signal_laws IsWork steps rest.run;
        bridge =
            rest.bridge
            ∙ ap (λ t. run_worker c s worker (length q) (worked c s worker t)) (sym got);
        queue = rest.queue;
        answered =
            rest.answered
            ∙ ap (λ l. numbers_onto l (ex.reply ∷ v.answered)) left
            ∙ ap (λ l. numbers_onto l v.answered) (sym eq);
      }

  -- As many turns of `run_worker` as calls are queued are a run of the system: they answer these
  -- calls, the first that was sent first, and leave the queue empty.
  pub run_worker-Worked :
      (v : System c s) → Worked v (length (queued c s n laws signal_laws v.bridge))
  run_worker-Worked v = run_worker_step (queued c s n laws signal_laws v.bridge) v refl
