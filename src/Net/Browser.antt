-- ===== src/Net/Browser.antt =====
-- `src/net/mdns_browser.rs`: the start of the browser's tasks. The world is the list
-- of its `MdnsBrowser` entities; an `Entity` is a number.
use beet_esp.Base.{
  ℕ, ◌+◌, ◌-◌, ◌==◌, Bool, true, Option, none, some, false, Option, none, some, List, [], ◌∷◌, ◌++◌,
  Bytes,
}
use beet_esp.Base.{if◌then◌else◌}
pub mod Started
pub mod Once

-- An entity with `MdnsBrowser`, and whether it has `BrowserStarted`.
pub record Browser : Type 0 where
  pub entity : ℕ
  pub service_type : Bytes
  pub started : Bool

-- The tasks are those spawned, with their arguments; the slots are those left in the task pool of `spawn_driver`,
-- which its other users share.
pub record World : Type 0 where
  pub slots : ℕ
  pub browsers : List Browser
  pub stack : Bool
  pub tasks : List (ℕ × Bytes)

abbrev pub pending_of : List Browser → List (ℕ × Bytes)
pending_of [] = []
pending_of (b ∷ bs) =
    let rest = pending_of bs in if b.started then rest else (b.entity, b.service_type) ∷ rest

-- `insert(BrowserStarted)` on an entity.
abbrev pub insert_started : ℕ → List Browser → List Browser
insert_started entity [] = []
insert_started entity (b ∷ bs) =
    (if b.entity == entity then record b { started = true } else b) ∷ insert_started entity bs

-- `spawn_driver` takes a slot, and panics without one.
abbrev pub start_each : List (ℕ × Bytes) → World → Option World
start_each [] w = some w
start_each ((entity, service_type) ∷ pending) w =
    let later = start_each pending (record w {
      slots = w.slots - 1;
      browsers = insert_started entity w.browsers;
      tasks = w.tasks ++ ((entity, service_type) ∷ []);
    }) in
    if w.slots == 0 then none else later

abbrev pub with_stack : List (ℕ × Bytes) → World → Option World
with_stack pending w = if w.stack then start_each pending w else some w

-- Its early return, with nothing pending, is the loop over nothing; `none` is a panic.
unfoldable pub start_pending_browsers : World → Option World
start_pending_browsers w = with_stack (pending_of w.browsers) w
