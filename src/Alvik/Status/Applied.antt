-- ===== src/Alvik/Status/Applied.antt =====
-- What a frame of `apply_status` leaves in the pipes and the components.
use beet_esp.Base.{
  ℕ, zero, suc, ◌<◌, ◌≡◌, refl, ◌∙◌, ap, ap₂, arith, map, Bool, true, Option, none, some, List, [],
  ◌∷◌,
}
use beet_esp.Base.{length}
use mathlib.Core.Option
use beet_esp.Alvik.Types.{Side, left, right}
use beet_esp.AsyncBridge.{Signal, Channel, take_latest, try_recv}
use beet_esp.AsyncBridge.Pipes.{SignalLaws, ChannelLaws, first_of, tail_of}
use beet_esp.Alvik.Units.{Units}
use beet_esp.Alvik.Protocol.{Status}
use beet_esp.Alvik.Driver.{StatusSnapshot}
use beet_esp.Alvik.Status.{Spatial, Wheel, wheel_state, Robot, write, apply_snapshot, apply_event}
use beet_esp.Alvik.Status.{event_turn, apply_events, on_snapshot, apply_status}

-- A component that is there takes the new value, if there is one.
abbrev pub overwrite : {A : Type 0} → Option A → Option A → Option A
overwrite c none = c
overwrite c (some a) = write c a

-- A component after some messages, of which `k` reads the ones that are about it.
abbrev pub latest_of : {A B : Type 0} → (A → Option B) → Option B → List A → Option B
latest_of k c [] = c
latest_of k c (x ∷ xs) = latest_of k (overwrite c (k x)) xs

module _ (u : Units) where
  abbrev pub touch_of : Status u → Option ℕ
  touch_of (Status.touch bits) = some bits
  touch_of _ = none

  abbrev pub motion_of : Status u → Option ℕ
  motion_of (Status.motion bits) = some bits
  motion_of _ = none

  abbrev pub behavior_of : Status u → Option ℕ
  behavior_of (Status.behavior code) = some code
  behavior_of _ = none

  abbrev pub version_of : Status u → Option (ℕ × ℕ × ℕ)
  version_of (Status.fw_version major minor patch) = some (major, minor, patch)
  version_of _ = none

  abbrev pub link_of : Status u → Option Bool
  link_of (Status.fw_version major minor patch) = some true
  link_of _ = none

  -- A wheel after the snapshot, if there is one: what was read on its side.
  abbrev side_after : StatusSnapshot u → Side → Wheel u
  side_after snap left = record {
    side = left;
    speed = snap.wheel_left_speed;
    position = snap.wheel_left_position;
  }
  side_after snap right = record {
    side = right;
    speed = snap.wheel_right_speed;
    position = snap.wheel_right_position;
  }

  abbrev pub wheel_after : Option (StatusSnapshot u) → Wheel u → Wheel u
  wheel_after none w = w
  wheel_after (some snap) w = side_after snap w.side

  module _ (s : Spatial u) where
    abbrev applied : Robot u s → List (Status u) → Robot u s
    applied robot [] = robot
    applied robot (x ∷ xs) = applied (apply_event u s robot x) xs

    -- A field of the robot follows the messages, if it does so on each.
    follows :
        {B : Type 0} (field : Robot u s → Option B) (k : Status u → Option B)
        → ((robot : Robot u s) (x : Status u)
            → field (apply_event u s robot x) ≡ overwrite (field robot) (k x))
        → (robot : Robot u s) (xs : List (Status u))
        → field (applied robot xs) ≡ latest_of k (field robot) xs
    follows field k step robot [] = refl
    follows field k step robot (x ∷ xs) =
        follows field k step (apply_event u s robot x) xs
        ∙ ap (λ c. latest_of k c xs) (step robot x)

    untouched :
        {B : Type 0} (field : Robot u s → B)
        → ((robot : Robot u s) (x : Status u) → field (apply_event u s robot x) ≡ field robot)
        → (robot : Robot u s) (xs : List (Status u)) → field (applied robot xs) ≡ field robot
    untouched field step robot [] = refl
    untouched field step robot (x ∷ xs) =
        untouched field step (apply_event u s robot x) xs ∙ step robot x

    event_keeps :
        (r : Robot u s) (x : Status u)
        → ((apply_event u s r x).line ≡ r.line) × ((apply_event u s r x).battery ≡ r.battery)
    unfolding apply_event
    event_keeps r (Status.touch b) = (refl, refl)
    event_keeps r (Status.motion b) = (refl, refl)
    event_keeps r (Status.behavior b) = (refl, refl)
    event_keeps r (Status.fw_version a b c) = (refl, refl)
    event_keeps r _ = (refl, refl)

    event_steps :
        (r : Robot u s) (x : Status u)
        → ((apply_event u s r x).touch ≡ overwrite r.touch (touch_of x))
          × ((apply_event u s r x).motion ≡ overwrite r.motion (motion_of x))
          × ((apply_event u s r x).behavior ≡ overwrite r.behavior (behavior_of x))
          × ((apply_event u s r x).firmware ≡ overwrite r.firmware (version_of x))
          × ((apply_event u s r x).connected ≡ overwrite r.connected (link_of x))
    unfolding apply_event
    event_steps r (Status.touch b) = (refl, refl, refl, refl, refl)
    event_steps r (Status.motion b) = (refl, refl, refl, refl, refl)
    event_steps r (Status.behavior b) = (refl, refl, refl, refl, refl)
    event_steps r (Status.fw_version a b c) = (refl, refl, refl, refl, refl)
    event_steps r _ = (refl, refl, refl, refl, refl)

    module _ (sig : Signal (StatusSnapshot u)) (chan : Channel (Status u)) where
      event_turn-none :
          (rest : Robot u s → chan.State → Robot u s × chan.State) (robot : Robot u s)
          (r : chan.State × Option (Status u))
          → r.1 ≡ none
          → event_turn u s sig chan rest robot r ≡ (robot, r.0)
      event_turn-none rest robot (st, none) h = refl
      event_turn-none rest robot (st, some x) h = cc

      event_turn-some :
          (rest : Robot u s → chan.State → Robot u s × chan.State) (robot : Robot u s)
          (r : chan.State × Option (Status u)) (x : Status u)
          → r.1 ≡ some x
          → event_turn u s sig chan rest robot r ≡ rest (apply_event u s robot x) r.0
      event_turn-some rest robot (st, none) x h = cc
      event_turn-some rest robot (st, some y) x h = cc

      module _ (n : ℕ) (sl : SignalLaws sig) (cl : ChannelLaws chan n) where
        apply_events_lem :
            (fuel : ℕ) (robot : Robot u s) (st : chan.State) (xs : List (Status u))
            → cl.contents st ≡ xs
            → length xs < fuel
            → ((apply_events u s sig chan fuel robot st).0 ≡ applied robot xs)
              × (cl.contents (apply_events u s sig chan fuel robot st).1 ≡ [])
        unfolding apply_events try_recv
        apply_events_lem zero robot st xs h less = absurd (omega arith)
        apply_events_lem (suc fuel) robot st [] h less =
            let done =
              event_turn-none (apply_events u s sig chan fuel) robot (chan.try_receive st)
                (cl.try_receive-first st ∙ ap first_of h) in
            (
              ap (λ (t : Robot u s × chan.State). t.0) done,
              ap (λ (t : Robot u s × chan.State). cl.contents t.1) done
                  ∙ cl.contents-try_receive st
                  ∙ ap tail_of h,
            )
        apply_events_lem (suc fuel) robot st (x ∷ xs) h less =
            let more =
              event_turn-some (apply_events u s sig chan fuel) robot (chan.try_receive st) x
                (cl.try_receive-first st ∙ ap first_of h) in
            let (rest, gone) =
              apply_events_lem fuel (apply_event u s robot x) (chan.try_receive st).0 xs
                (cl.contents-try_receive st ∙ ap tail_of h) (omega arith) in
            (
              ap (λ (t : Robot u s × chan.State). t.0) more ∙ rest,
              ap (λ (t : Robot u s × chan.State). cl.contents t.1) more ∙ gone,
            )

        -- The robot, and the wheels, of a frame that starts with `pending` on the signal and `xs` in the
        -- queue.
        pub record Updated (pending : Option (StatusSnapshot u)) (xs : List (Status u))
            (robot : Robot u s) (wheels : List (Wheel u))
            (result : (Robot u s × List (Wheel u)) × sig.State × chan.State) : Type 0 where
          pub drained : cl.contents result.2 ≡ []
          pub taken : sl.pending result.1 ≡ none
          pub touched : result.0.0.touch ≡ latest_of touch_of robot.touch xs
          pub moved : result.0.0.motion ≡ latest_of motion_of robot.motion xs
          pub behaved : result.0.0.behavior ≡ latest_of behavior_of robot.behavior xs
          pub versioned : result.0.0.firmware ≡ latest_of version_of robot.firmware xs
          pub linked :
              result.0.0.connected
              ≡ latest_of link_of (overwrite robot.connected (Option.map (λ snap. true) pending)) xs
          pub lined :
              result.0.0.line ≡ overwrite robot.line (Option.map (λ snap. snap.line) pending)
          pub charged :
              result.0.0.battery
              ≡ overwrite robot.battery (Option.map (λ snap. snap.battery) pending)
          pub turned : result.0.1 ≡ map (wheel_after pending) wheels

        snapshot_keeps :
            (pending : Option (StatusSnapshot u)) (robot : Robot u s) (wheels : List (Wheel u))
            → let r = (on_snapshot u s sig chan pending robot wheels).0 in
              (r.touch ≡ robot.touch)
              × (r.motion ≡ robot.motion)
              × (r.behavior ≡ robot.behavior)
              × (r.firmware ≡ robot.firmware)
        unfolding apply_snapshot
        snapshot_keeps none robot wheels = (refl, refl, refl, refl)
        snapshot_keeps (some snap) robot wheels = (refl, refl, refl, refl)

        snapshot_gives :
            (pending : Option (StatusSnapshot u)) (robot : Robot u s) (wheels : List (Wheel u))
            → let r = (on_snapshot u s sig chan pending robot wheels).0 in
              (r.connected ≡ overwrite robot.connected (Option.map (λ snap. true) pending))
              × (r.line ≡ overwrite robot.line (Option.map (λ snap. snap.line) pending))
              × (r.battery ≡ overwrite robot.battery (Option.map (λ snap. snap.battery) pending))
        unfolding apply_snapshot
        snapshot_gives none robot wheels = (refl, refl, refl)
        snapshot_gives (some snap) robot wheels = (refl, refl, refl)

        wheel_state-after :
            (snap : StatusSnapshot u) (side : Side) (speed : u.AngularVelocity) (position : u.Angle)
            → let w : Wheel u = record { side = side; speed = speed; position = position } in
              wheel_state u s snap w ≡ wheel_after (some snap) w
        wheel_state-after snap left speed position = refl
        wheel_state-after snap right speed position = refl

        wheels_after :
            (pending : Option (StatusSnapshot u)) (robot : Robot u s) (wheels : List (Wheel u))
            → (on_snapshot u s sig chan pending robot wheels).1 ≡ map (wheel_after pending) wheels
        wheels_after none robot [] = refl
        wheels_after none robot (w ∷ ws) = ap (λ l. w ∷ l) (wheels_after none robot ws)
        wheels_after (some snap) robot [] = refl
        wheels_after (some snap) robot (w ∷ ws) =
            ap₂ (λ v l. v ∷ l) (wheel_state-after snap w.side w.speed w.position)
              (wheels_after (some snap) robot ws)

        -- A frame of `apply_status` takes the pending snapshot and every queued message: the touch, motion and
        -- behaviour masks and the firmware version that are there become those of the last message about
        -- them, in the order of sending, and stay as they are if there is none; the link counts as connected
        -- once a snapshot or a version came; the line sensor and the battery become those of the snapshot, and
        -- each wheel gets the speed and the position of its side, if there is a snapshot. The fuel is more than
        -- the messages.
        pub apply_status-Updated :
            (fuel : ℕ) (robot : Robot u s) (wheels : List (Wheel u)) (state : sig.State)
            (events : chan.State)
            → length (cl.contents events) < fuel
            → Updated
                (sl.pending state)
                (cl.contents events)
                robot
                wheels
                (apply_status u s sig chan fuel robot wheels state events)
        unfolding apply_status take_latest
        apply_status-Updated fuel robot wheels state events less =
            let got = sl.try_take-pending state in
            let xs = cl.contents events in
            let placed = on_snapshot u s sig chan (sl.pending state) robot wheels in
            let (kept₁, kept₂, kept₃, kept₄) = snapshot_keeps (sl.pending state) robot wheels in
            let (given₁, given₂, given₃) = snapshot_gives (sl.pending state) robot wheels in
            let (final, empty) = apply_events_lem fuel placed.0 events xs refl less in
            rw got (record {
              drained = empty;
              taken = sl.pending-try_take state;
              touched =
                  ap (λ r. r.touch) final
                  ∙ follows (λ r. r.touch) touch_of (λ r x. (event_steps r x).0) placed.0 xs
                  ∙ ap (λ c. latest_of touch_of c xs) kept₁;
              moved =
                  ap (λ r. r.motion) final
                  ∙ follows (λ r. r.motion) motion_of (λ r x. (event_steps r x).1) placed.0 xs
                  ∙ ap (λ c. latest_of motion_of c xs) kept₂;
              behaved =
                  ap (λ r. r.behavior) final
                  ∙ follows (λ r. r.behavior) behavior_of (λ r x. (event_steps r x).2) placed.0 xs
                  ∙ ap (λ c. latest_of behavior_of c xs) kept₃;
              versioned =
                  ap (λ r. r.firmware) final
                  ∙ follows (λ r. r.firmware) version_of (λ r x. (event_steps r x).3) placed.0 xs
                  ∙ ap (λ c. latest_of version_of c xs) kept₄;
              linked =
                  ap (λ r. r.connected) final
                  ∙ follows (λ r. r.connected) link_of (λ r x. (event_steps r x).4) placed.0 xs
                  ∙ ap (λ c. latest_of link_of c xs) given₁;
              lined =
                  ap (λ r. r.line) final
                  ∙ untouched (λ r. r.line) (λ r x. (event_keeps r x).0) placed.0 xs
                  ∙ given₂;
              charged =
                  ap (λ r. r.battery) final
                  ∙ untouched (λ r. r.battery) (λ r x. (event_keeps r x).1) placed.0 xs
                  ∙ given₃;
              turned = wheels_after (sl.pending state) robot wheels;
            })
