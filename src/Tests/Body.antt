-- ===== src/Tests/Body.antt =====
-- A drive command on a robot, with a timer that is its duration and the time that has passed.
use beet_esp.Base.{ℕ, ◌+◌, ◌≡◌, refl, ◌∙◌, ap, arith, some, none, Option, List, [], ◌∷◌, leb}
use beet_esp.Alvik.Body.{TimerExt, ticked, total, TimerLaws, Body, drive_for_duration}
use beet_esp.Alvik.Body.Step.{frames, stands, drive_for_duration_lem}

abbrev timer : TimerExt
timer = record {
  Timer = ℕ × ℕ;
  new = λ duration. (duration, 0);
  tick = λ t delta. (t.0, t.1 + delta);
  is_finished = λ t. leb t.0 t.1;
}

ticked_lem :
    (duration elapsed : ℕ) (deltas : List ℕ)
    → ticked timer (duration, elapsed) deltas ≡ (duration, elapsed + total deltas)
ticked_lem duration elapsed [] = ap (λ e. (duration, e)) (omega arith)
ticked_lem duration elapsed (delta ∷ deltas) =
    ticked_lem duration (elapsed + delta) deltas ∙ ap (λ e. (duration, e)) (omega arith)

timer-TimerLaws : TimerLaws timer
timer-TimerLaws = record {
  finished-ticked = λ duration delta deltas.
      ap timer.is_finished (ticked_lem duration 0 (delta ∷ deltas))
      ∙ ap (leb duration) (omega arith);
}

-- Two robots, the second one in the middle of a step.
abbrev robot : Body (ℕ × ℕ) ℕ
robot = record { entity = 4; drive = 0; step = none }

abbrev others : List (Body (ℕ × ℕ) ℕ)
others = record { entity = 9; drive = 7; step = some (100, 90) } ∷ []

still_driving :
    stands timer ℕ 0 60 4 50 (20 ∷ 20 ∷ [])
    ≡ record { entity = 4; drive = 60; step = some (50, 40) }
still_driving = refl

-- A frame of 15 between the accesses, in which the second robot's step runs out.
abbrev told : List (Body (ℕ × ℕ) ℕ) × Option ℕ
told = drive_for_duration timer 60 50 (frames timer ℕ 0 (15 ∷ [])) (robot ∷ others)

drive_for_duration_lem_example :
    (frames timer ℕ 0 (20 ∷ 20 ∷ 20 ∷ []) told.0
      ≡ stands timer ℕ 0 60 4 50 (20 ∷ 20 ∷ 20 ∷ [])
        ∷ frames timer ℕ 0 (20 ∷ 20 ∷ 20 ∷ []) (frames timer ℕ 0 (15 ∷ []) others))
    × (told.1 ≡ some 50)
drive_for_duration_lem_example =
    drive_for_duration_lem timer ℕ 0 timer-TimerLaws 60 50 robot others (15 ∷ []) 20 (20 ∷ 20 ∷ [])
