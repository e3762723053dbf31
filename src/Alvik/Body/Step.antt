-- ===== src/Alvik/Body/Step.antt =====
-- `src/extra/perceive_act_body.rs`: a drive command is a step of its own duration.
use mathlib.Core.List.{append_assoc}
use beet_esp.Base.{
  ℕ, ◌+◌, ◌≤◌, ◌≡◌, refl, sym, ◌∙◌, ap, ap₂, arith, ==_iff, ◌==◌, ◌||◌, inl, inr, Bool-cases,
  Option,
}
use beet_esp.Base.{Bool, true, false, none, some, List, [], ◌∷◌, ◌++◌, leb, leb_iff, if◌then◌else◌}
use beet_esp.Alvik.Body.{
  TimerExt, ticked, total, TimerLaws, Body, drive_for_duration, write_drive, insert_step,
  after_tick, expire_one, expire_drive_step,
}

ticked-snoc :
    (ext : TimerExt) (timer : ext.Timer) (deltas : List ℕ) (delta : ℕ)
    → ticked ext timer (deltas ++ (delta ∷ [])) ≡ ext.tick (ticked ext timer deltas) delta
ticked-snoc ext timer [] delta = refl
ticked-snoc ext timer (d ∷ deltas) delta = ticked-snoc ext (ext.tick timer d) deltas delta

total-append : (ms ns : List ℕ) → total (ms ++ ns) ≡ total ms + total ns
total-append [] ns = omega arith
total-append (m ∷ ms) ns = ap (λ n. m + n) (total-append ms ns) ∙ omega arith

module _ (ext : TimerExt) (Drive : Type 0) (still : Drive) where
  -- The frames of the schedule, each with its time.
  abbrev pub frames : List ℕ → List (Body ext.Timer Drive) → List (Body ext.Timer Drive)
  frames [] robots = robots
  frames (delta ∷ deltas) robots = frames deltas (expire_drive_step ext still delta robots)

  -- The frames of one robot.
  abbrev pub frames_one : List ℕ → Body ext.Timer Drive → Body ext.Timer Drive
  frames_one [] robot = robot
  frames_one (delta ∷ deltas) robot =
      frames_one deltas (expire_one ext still delta robot robot.step)

  -- Each robot has frames of its own.
  frames-cons :
      (deltas : List ℕ) (robot : Body ext.Timer Drive) (robots : List (Body ext.Timer Drive))
      → frames deltas (robot ∷ robots) ≡ frames_one deltas robot ∷ frames deltas robots
  unfolding expire_drive_step
  frames-cons [] robot robots = refl
  frames-cons (delta ∷ deltas) robot robots =
      frames-cons deltas (expire_one ext still delta robot robot.step)
        (expire_drive_step ext still delta robots)

  abbrev pub rested : ℕ → Body ext.Timer Drive
  rested entity = record { entity = entity; drive = still; step = none }

  abbrev pub driving : Drive → ℕ → ext.Timer → Body ext.Timer Drive
  driving drive entity timer = record { entity = entity; drive = drive; step = some timer }

  -- A robot at rest stays so.
  frames_one-rested :
      (deltas : List ℕ) (entity : ℕ) → frames_one deltas (rested entity) ≡ rested entity
  frames_one-rested [] entity = refl
  frames_one-rested (delta ∷ deltas) entity = frames_one-rested deltas entity

  -- How a robot stands after a command: it drives until the duration has passed, then it is at rest.
  abbrev pub stands : Drive → ℕ → ℕ → List ℕ → Body ext.Timer Drive
  stands drive entity duration deltas =
      if leb duration (total deltas)
      then rested entity
      else driving drive entity (ticked ext (ext.new duration) deltas)

  -- What has run out stays so.
  total_longer :
      (duration : ℕ) (past deltas : List ℕ)
      → leb duration (total past) ≡ true
      → leb duration (total (past ++ deltas)) ≡ true
  total_longer duration past deltas h =
      (leb_iff duration (total (past ++ deltas))).1
        (longer ((leb_iff duration (total past)).0 h) (total-append past deltas))
    where
      longer :
          duration ≤ total past
          → total (past ++ deltas) ≡ total past + total deltas
          → duration ≤ total (past ++ deltas)
      longer below e = omega arith

  -- Whether an older step runs out in some frames.
  abbrev pub expires : Option ext.Timer → List ℕ → Bool
  expires none deltas = false
  expires (some timer) [] = false
  expires (some timer) (delta ∷ deltas) =
      ext.is_finished (ext.tick timer delta) || expires (some (ext.tick timer delta)) deltas

  -- The robot that was told to drive, after some frames with its older step.
  Waited : Drive → ℕ → Option ext.Timer → List ℕ → Type 0
  Waited drive entity step deltas =
      let robot = frames_one deltas (record { entity = entity; drive = drive; step = step }) in
      (robot.entity ≡ entity) × (robot.drive ≡ (if expires step deltas then still else drive))

  tick-Waited :
      (drive : Drive) (entity : ℕ) (timer : ext.Timer) (deltas : List ℕ) (over : Bool)
      → Waited drive entity (some timer) deltas
      → let robot =
          frames_one deltas (if over then rested entity else driving drive entity timer) in
        (robot.entity ≡ entity)
        × (robot.drive ≡ (if over || expires (some timer) deltas then still else drive))
  unfolding Waited
  tick-Waited drive entity timer deltas true h =
      let rest = frames_one-rested deltas entity in
      (ap (λ r. r.entity) rest, ap (λ r. r.drive) rest)
  tick-Waited drive entity timer deltas false h = h

  frames_one-Waited :
      (drive : Drive) (entity : ℕ) (step : Option ext.Timer) (deltas : List ℕ)
      → Waited drive entity step deltas
  unfolding Waited
  frames_one-Waited drive entity none [] = (refl, refl)
  frames_one-Waited drive entity (some timer) [] = (refl, refl)
  frames_one-Waited drive entity none (delta ∷ deltas) = frames_one-Waited drive entity none deltas
  frames_one-Waited drive entity (some timer) (delta ∷ deltas) =
      tick-Waited drive entity (ext.tick timer delta) deltas
        (ext.is_finished (ext.tick timer delta))
        (frames_one-Waited drive entity (some (ext.tick timer delta)) deltas)

  insert_step-first :
      (timer : ext.Timer) (entity : ℕ) (robot : Body ext.Timer Drive)
      (robots : List (Body ext.Timer Drive))
      → robot.entity ≡ entity
      → insert_step entity timer (robot ∷ robots) ≡ record robot { step = some timer } ∷ robots
  unfolding insert_step
  insert_step-first timer entity robot robots h =
      let same : (robot.entity == entity) ≡ true = (==_iff robot.entity entity).1 h in rw same

  module _ (laws : TimerLaws ext) where
    finished-snoc :
        (duration : ℕ) (past : List ℕ) (delta : ℕ)
        → ext.is_finished (ext.tick (ticked ext (ext.new duration) past) delta)
          ≡ leb duration (total (past ++ (delta ∷ [])))
    finished-snoc duration [] delta = laws.finished-ticked duration delta []
    finished-snoc duration (d ∷ past) delta =
        sym (ap ext.is_finished (ticked-snoc ext (ext.new duration) (d ∷ past) delta))
        ∙ laws.finished-ticked duration d (past ++ (delta ∷ []))

    -- One frame.
    expire_one-stands :
        (drive : Drive) (entity duration : ℕ) (past : List ℕ) (delta : ℕ)
        → after_tick ext still
            (driving drive entity (ticked ext (ext.new duration) past))
            (ext.tick (ticked ext (ext.new duration) past) delta)
          ≡ stands drive entity duration (past ++ (delta ∷ []))
    expire_one-stands drive entity duration past delta =
        ap
          (λ b.
            if b
            then rested entity
            else driving drive entity (ext.tick (ticked ext (ext.new duration) past) delta))
          (finished-snoc duration past delta)
        ∙ ap
            (λ t.
              if leb duration (total (past ++ (delta ∷ [])))
              then rested entity
              else driving drive entity t)
            (sym (ticked-snoc ext (ext.new duration) past delta))

    -- From one frame on, whatever came before.
    frames_one-stands :
        (drive : Drive) (entity duration : ℕ) (past : List ℕ) (delta : ℕ) (deltas : List ℕ)
        → frames_one (delta ∷ deltas) (driving drive entity (ticked ext (ext.new duration) past))
          ≡ stands drive entity duration (past ++ (delta ∷ deltas))
    frames_one-stands drive entity duration past delta [] =
        expire_one-stands drive entity duration past delta
    frames_one-stands drive entity duration past delta (next ∷ deltas) =
        ap (frames_one (next ∷ deltas)) (expire_one-stands drive entity duration past delta)
        ∙ elim (Bool-cases (leb duration (total (past ++ (delta ∷ []))))) [
          | inl over ↦
              ap
                (λ b. frames_one (next ∷ deltas) (
                  if b
                  then rested entity
                  else driving drive entity (ticked ext (ext.new duration) (past ++ (delta ∷ [])))))
                over
              ∙ frames_one-rested (next ∷ deltas) entity
              ∙ sym (
                  ap
                    (λ b.
                      if b
                      then rested entity
                      else driving drive entity (
                          ticked ext (ext.new duration)
                            ((past ++ (delta ∷ [])) ++ (next ∷ deltas))))
                    (total_longer duration (past ++ (delta ∷ [])) (next ∷ deltas) over))
          | inr running ↦
              ap
                (λ b. frames_one (next ∷ deltas) (
                  if b
                  then rested entity
                  else driving drive entity (ticked ext (ext.new duration) (past ++ (delta ∷ [])))))
                running
              ∙ frames_one-stands drive entity duration (past ++ (delta ∷ [])) next deltas
        ]
        ∙ ap (stands drive entity duration) (append_assoc past (delta ∷ []) (next ∷ deltas))

    -- A drive command, with some frames between its accesses to the world and one frame or more after them:
    -- the first robot has the drive it was told, or is at rest if its older step, if it had one, ran out
    -- between the accesses; it keeps that until the later frames have taken the command's duration, and is
    -- at rest and free of its step from there on. The other robots have the frames they have without the
    -- command, and the reply asks for the command's duration.
    pub drive_for_duration_lem :
        (drive : Drive) (duration : ℕ) (robot : Body ext.Timer Drive)
        (robots : List (Body ext.Timer Drive)) (between : List ℕ) (delta : ℕ) (deltas : List ℕ)
        → let told = drive_for_duration ext drive duration (frames between) (robot ∷ robots) in
          (frames (delta ∷ deltas) told.0
            ≡ stands
                (if expires robot.step between then still else drive)
                robot.entity
                duration
                (delta ∷ deltas)
              ∷ frames (delta ∷ deltas) (frames between robots))
          × (told.1 ≡ some duration)
    unfolding drive_for_duration write_drive Waited
    drive_for_duration_lem drive duration robot robots between delta deltas =
        let waited = frames_one between (record robot { drive = drive }) in
        let (same, kept) = frames_one-Waited drive robot.entity robot.step between in
        (
          ap (λ rs. frames (delta ∷ deltas) (insert_step robot.entity (ext.new duration) rs))
                (frames-cons between (record robot { drive = drive }) robots)
              ∙ ap (frames (delta ∷ deltas)) (
                  insert_step-first (ext.new duration) robot.entity waited (frames between robots)
                    same)
              ∙ frames-cons (delta ∷ deltas) (record waited { step = some (ext.new duration) })
                  (frames between robots)
              ∙ ap₂
                  (λ e d.
                    frames_one (delta ∷ deltas) (driving d e (ext.new duration))
                    ∷ frames (delta ∷ deltas) (frames between robots))
                  same kept
              ∙ ap (λ r. r ∷ frames (delta ∷ deltas) (frames between robots))
                  (frames_one-stands (if expires robot.step between then still else drive)
                    robot.entity duration [] delta deltas),
          refl,
        )
