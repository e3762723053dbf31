-- ===== src/AsyncBridge/Calls.antt =====
-- `AsyncBridge`, `Exchange` and `Reply` of `src/esp32_utils/async_bridge.rs`, with `run_worker` and
-- `drain_to_async`. The `Arc`s of the replies' signals are numbers in a store: a call's number is the
-- place of its signal.
use beet_esp.Base.{
  ℕ, zero, suc, ◌≡◌, Option, none, some, List, [], ◌∷◌, ◌++◌, length, get_elem?, set,
}
use beet_esp.Base.{Result, ok, err}
use beet_esp.AsyncBridge.{Signal, Channel, send, try_recv}
pub mod Effects
pub mod Once
pub mod Delivered
pub mod Answered

-- `Exchange`, after `split`: `reply` names the signal of its `Reply`.
pub record Exchange (In : Type 0) : Type 0 where
  pub input : In
  pub reply : ℕ

module _ {In Out : Type 0} (c : Channel (Exchange In)) (s : Signal Out) where
  -- An `AsyncBridge` and the signals of its calls.
  pub record Bridge : Type 0 where
    pub queue : c.State
    pub signals : List s.State

  abbrev pub enqueued : Bridge → c.State × Option (Exchange In) → Bridge × Result In ℕ
  enqueued b (queue, none) =
      (record { queue = queue; signals = b.signals ++ (s.new ∷ []) }, ok (length b.signals))
  enqueued b (queue, some ex) = (record b { queue = queue }, err ex.input)

  -- `call` up to its `await`: the call's number, or the input handed back.
  unfoldable pub call : Bridge → In → Bridge × Result In ℕ
  call b input = enqueued b (send c b.queue (record { input = input; reply = length b.signals }))

  abbrev pub taken : Bridge → ℕ → Option s.State → Bridge × Option Out
  taken b i none = (b, none)
  taken b i (some st) = let r = s.try_take st in (record b { signals = set b.signals i r.0 }, r.1)

  -- A poll of `signal.wait()` in `call`.
  unfoldable pub wait : Bridge → ℕ → Bridge × Option Out
  wait b i = taken b i (get_elem? b.signals i)

  -- `recv` if it is ready, and `try_recv`.
  unfoldable pub next_call : Bridge → Bridge × Option (Exchange In)
  next_call b = let r = try_recv c b.queue in (record b { queue = r.0 }, r.1)

  abbrev pub signalled : Bridge → ℕ → Out → Option s.State → Bridge
  signalled b i out none = b
  signalled b i out (some st) = record b { signals = set b.signals i (s.signal st out) }

  -- `Reply::send`.
  unfoldable pub reply_send : Bridge → ℕ → Out → Bridge
  reply_send b i out = signalled b i out (get_elem? b.signals i)

  abbrev pub worked : (In → Out) → Bridge × Option (Exchange In) → Bridge
  worked worker (b, none) = b
  worked worker (b, some ex) = reply_send b ex.reply (worker ex.input)

  -- Turns of `run_worker`, as many as the fuel; a turn with nothing to receive leaves the bridge.
  unfoldable pub run_worker : (In → Out) → ℕ → Bridge → Bridge
  run_worker worker zero b = b
  run_worker worker (suc turns) b = run_worker worker turns (worked worker (next_call b))

  abbrev pub spawned :
      (Bridge → List (Exchange In) × Bridge)
      → Bridge × Option (Exchange In)
      → List (Exchange In) × Bridge
  spawned rest (b, none) = ([], b)
  spawned rest (b, some ex) = let later = rest b in (ex ∷ later.0, later.1)

  -- `drain_to_async`, on fuel: the exchanges for which a task is spawned, and the bridge.
  unfoldable pub drain_to_async : ℕ → Bridge → List (Exchange In) × Bridge
  drain_to_async zero b = ([], b)
  drain_to_async (suc fuel) b = let rest = drain_to_async fuel in spawned rest (next_call b)

  -- The bridge with all that uses it: the exchanges held by tasks or by a worker, the calls that
  -- wait, with their inputs, and the inputs and outputs of those that are over. `accepted` are the
  -- inputs of the calls by their numbers, and `answered` the calls that got a reply.
  pub record System : Type 0 where
    pub bridge : Bridge
    pub tasks : List (Exchange In)
    pub waiting : List (ℕ × In)
    pub over : List (In × Out)
    pub accepted : List In
    pub answered : List ℕ

  -- A step of a caller or of a responder. `Works` relates an input to what the worker can make of it.
  pub data Step (Works : In → Out → Type 0) : System → System → Type 0 where
    accept :
        {w : System} {b : Bridge} {i : ℕ} (input : In)
        → call w.bridge input ≡ (b, ok i)
        → Step Works w (record w {
          bridge = b;
          waiting = (i, input) ∷ w.waiting;
          accepted = w.accepted ++ (input ∷ []);
        })
    refuse :
        {w : System} {b : Bridge} {back : In} (input : In)
        → call w.bridge input ≡ (b, err back)
        → Step Works w (record w { bridge = b })
    receive :
        {w : System} {b : Bridge} {ex : Exchange In}
        → next_call w.bridge ≡ (b, some ex)
        → Step Works w (record w { bridge = b; tasks = ex ∷ w.tasks })
    reply :
        {w : System} (before : List (Exchange In)) (ex : Exchange In) (after : List (Exchange In))
        (out : Out)
        → w.tasks ≡ before ++ (ex ∷ after)
        → Works ex.input out
        → Step Works w (record w {
          bridge = reply_send w.bridge ex.reply out;
          tasks = before ++ after;
          answered = ex.reply ∷ w.answered;
        })
    wake :
        {w : System} {b : Bridge} {out : Out} (before : List (ℕ × In)) (i : ℕ) (input : In)
        (after : List (ℕ × In))
        → w.waiting ≡ before ++ ((i, input) ∷ after)
        → wait w.bridge i ≡ (b, some out)
        → Step Works w
            (record w { bridge = b; waiting = before ++ after; over = (input, out) ∷ w.over })

  pub data Reach (Works : In → Out → Type 0) (w : System) : System → Type 0 where
    here : Reach Works w w
    next : {v u : System} → Reach Works w v → Step Works v u → Reach Works w u

  -- Before the first call.
  abbrev pub start : System
  start = record {
    bridge = record { queue = c.new; signals = [] };
    tasks = [];
    waiting = [];
    over = [];
    accepted = [];
    answered = [];
  }
