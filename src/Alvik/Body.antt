-- ===== src/Alvik/Body.antt =====
-- `DriveForDurationAction` and `expire_drive_step` of `src/extra/perceive_act_body.rs`. `Timer` of `bevy` is
-- a parameter, with its documented behaviour as a hypothesis; durations are numbers, an `Entity` too. A
-- drive is whatever the type of drives has.
use beet_esp.Base.{ℕ, ◌+◌, ◌≡◌, Bool, Option, none, some, List, [], ◌∷◌}
use beet_esp.Base.{leb, ◌==◌, if◌then◌else◌}
pub mod Step

-- `Timer`, in its mode `Once`.
pub record TimerExt : Type 1 where
  pub Timer : Type 0
  pub new : ℕ → Timer
  pub tick : Timer → ℕ → Timer
  pub is_finished : Timer → Bool

-- `tick` again and again.
abbrev pub ticked : (ext : TimerExt) → ext.Timer → List ℕ → ext.Timer
ticked ext timer [] = timer
ticked ext timer (delta ∷ deltas) = ticked ext (ext.tick timer delta) deltas

abbrev pub total : List ℕ → ℕ
total [] = 0
total (n ∷ ns) = n + total ns

-- After a tick, a timer is finished if its duration has passed.
pub record TimerLaws (ext : TimerExt) : Type 0 where
  pub finished-ticked :
      (duration delta : ℕ) (deltas : List ℕ)
      → ext.is_finished (ticked ext (ext.new duration) (delta ∷ deltas))
        ≡ leb duration (total (delta ∷ deltas))

-- A robot with its `DifferentialDrive` and, if it is mid-step, its `DriveStep`.
pub record Body (Timer Drive : Type 0) : Type 0 where
  pub entity : ℕ
  pub drive : Drive
  pub step : Option Timer

-- The first access to the world: the first robot takes the drive, and its `Entity` is returned.
unfoldable pub write_drive :
    {Timer Drive : Type 0} → Drive → List (Body Timer Drive) → List (Body Timer Drive) × Option ℕ
write_drive drive [] = ([], none)
write_drive drive (robot ∷ robots) = (record robot { drive = drive } ∷ robots, some robot.entity)

-- `insert(DriveStep { .. })` on an entity; a step that is there is replaced.
unfoldable pub insert_step :
    {Timer Drive : Type 0} → ℕ → Timer → List (Body Timer Drive) → List (Body Timer Drive)
insert_step entity timer [] = []
insert_step entity timer (robot ∷ robots) =
    let rest = insert_step entity timer robots in
    if robot.entity == entity then record robot { step = some timer } ∷ robots else robot ∷ rest

-- The second access, and the settle time of the reply, `none` for `SettleTime::NONE`.
abbrev pub on_robot :
    (ext : TimerExt) {Drive : Type 0}
    → ℕ
    → List (Body ext.Timer Drive)
    → Option ℕ
    → List (Body ext.Timer Drive) × Option ℕ
on_robot ext duration robots none = (robots, none)
on_robot ext duration robots (some entity) =
    (insert_step entity (ext.new duration) robots, some duration)

-- The handler awaits between its accesses to the world: `meanwhile` is what happens to the robots there.
unfoldable pub drive_for_duration :
    (ext : TimerExt) {Drive : Type 0}
    → Drive
    → ℕ
    → (List (Body ext.Timer Drive) → List (Body ext.Timer Drive))
    → List (Body ext.Timer Drive)
    → List (Body ext.Timer Drive) × Option ℕ
drive_for_duration ext drive duration meanwhile robots =
    let written = write_drive drive robots in on_robot ext duration (meanwhile written.0) written.1

-- The end of a turn of the loop; `still` is the drive at rest.
abbrev pub after_tick :
    (ext : TimerExt) {Drive : Type 0}
    → Drive
    → Body ext.Timer Drive
    → ext.Timer
    → Body ext.Timer Drive
after_tick ext still robot timer =
    if ext.is_finished timer
    then record { entity = robot.entity; drive = still; step = none }
    else record robot { step = some timer }

abbrev pub expire_one :
    (ext : TimerExt) {Drive : Type 0}
    → Drive
    → ℕ
    → Body ext.Timer Drive
    → Option ext.Timer
    → Body ext.Timer Drive
expire_one ext still delta robot none = robot
expire_one ext still delta robot (some timer) = after_tick ext still robot (ext.tick timer delta)

unfoldable pub expire_drive_step :
    (ext : TimerExt) {Drive : Type 0}
    → Drive
    → ℕ
    → List (Body ext.Timer Drive)
    → List (Body ext.Timer Drive)
expire_drive_step ext still delta [] = []
expire_drive_step ext still delta (robot ∷ robots) =
    expire_one ext still delta robot robot.step ∷ expire_drive_step ext still delta robots
