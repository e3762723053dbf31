-- ===== src/AsyncBridge.antt =====
-- `Latest` and `Queue` of `src/esp32_utils/async_bridge.rs`, and the loop that drains a queue.
-- `Signal` and `Channel` of the `embassy_sync` crate, on which they stand, are parameters; what their
-- documentation says of them are `SignalLaws` and `ChannelLaws`.
use beet_esp.Base.{ℕ, zero, suc, ◌+◌, ◌≤◌, ◌<◌, ◌≡◌, Option, none, some, List, [], ◌∷◌, ◌++◌}
pub mod Pipes
pub mod Calls

-- `embassy_sync::signal::Signal`: its state, `new`, `signal` and `try_take`.
pub record Signal (A : Type 0) : Type 1 where
  pub State : Type 0
  pub new : State
  pub signal : State → A → State
  pub try_take : State → State × Option A

-- `embassy_sync::channel::TrySendError`.
pub data TrySendError (A : Type 0) : Type 0 where
  full : A → TrySendError A

-- `embassy_sync::channel::Channel`: its state, `new`, `try_send`, whose error is `none` if it sent,
-- and `try_receive`.
pub record Channel (A : Type 0) : Type 1 where
  pub State : Type 0
  pub new : State
  pub try_send : State → A → State × Option (TrySendError A)
  pub try_receive : State → State × Option A

-- `Latest`.
module _ {A : Type 0} (s : Signal A) where
  unfoldable pub publish : s.State → A → s.State
  publish st value = s.signal st value

  unfoldable pub take_latest : s.State → s.State × Option A
  take_latest st = s.try_take st

abbrev rejected : {A : Type 0} → Option (TrySendError A) → Option A
rejected none = none
rejected (some (full v)) = some v

-- `Queue`.
module _ {A : Type 0} (c : Channel A) where
  -- The value that is handed back, if the queue was full.
  unfoldable pub send : c.State → A → c.State × Option A
  send st value = let r = c.try_send st value in (r.0, rejected r.1)

  unfoldable pub try_recv : c.State → c.State × Option A
  try_recv st = c.try_receive st

  -- `while let Some(item) = queue.try_recv()`, on fuel: the items, in the order in which `trigger` is
  -- called for them. `rest` is the turns that follow.
  abbrev pub triggered : (c.State → List A × c.State) → c.State × Option A → List A × c.State
  triggered rest (st, none) = ([], st)
  triggered rest (st, some item) = let later = rest st in (item ∷ later.0, later.1)

  unfoldable pub drain_to_observers : ℕ → c.State → List A × c.State
  drain_to_observers zero st = ([], st)
  drain_to_observers (suc fuel) st =
      let rest = drain_to_observers fuel in triggered rest (try_recv st)
