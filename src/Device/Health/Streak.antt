-- ===== src/Device/Health/Streak.antt =====
-- `report` of `src/esp32_utils/health.rs`: the warning of a leak.
use beet_esp.Base.{ℕ, suc, ◌+◌, ◌%◌, ◌^◌, ◌≤◌, ◌<◌, ◌≡◌, refl, ◌∙◌, ap, ap₂, arith}
use beet_esp.Base.{true, inl, inr, Bool-cases, Option, none, some, List, [], ◌∷◌}
use beet_esp.Base.{length, ltb, leb, if◌then◌else◌}
use beet_esp.Device.Health.{
  MemSnapshot, HealthState, heap_growth_noise, leak_streak, report_micros, is_due,
  stack_headroom_warn, next_streak, leak_warning, capture_baseline, report, default,
}

-- How many of the latest snapshots, the newest first, grew one after the other.
abbrev pub grown : List MemSnapshot → ℕ
grown [] = 0
grown (s ∷ []) = 0
grown (s ∷ t ∷ ss) =
    let before = grown (t ∷ ss) in
    if ltb (t.heap_used + heap_growth_noise) s.heap_used then suc before else 0

-- The state after reports at the given times of the snapshots, the newest first, on the baseline.
abbrev pub reported : MemSnapshot → List (ℕ × MemSnapshot) → HealthState
reported base [] = capture_baseline default base
reported base ((now, s) ∷ ss) = (report (reported base ss) now s).0

-- The snapshots, down to the baseline.
abbrev pub history : MemSnapshot → List (ℕ × MemSnapshot) → List MemSnapshot
history base [] = base ∷ []
history base ((now, s) ∷ ss) = s ∷ history base ss

-- Each report comes two seconds after the one before.
abbrev pub IsSpaced : List (ℕ × MemSnapshot) → Type 0
IsSpaced [] = Unit
IsSpaced ((now, s) ∷ []) = Unit
IsSpaced ((now, s) ∷ (before, t) ∷ ss) =
    (before + report_micros ≤ now) × IsSpaced ((before, t) ∷ ss)

abbrev tick_of : List (ℕ × MemSnapshot) → Option ℕ
tick_of [] = none
tick_of ((now, s) ∷ ss) = some now

grown-le : (ss : List MemSnapshot) → grown ss ≤ length ss
grown-le [] = omega arith
grown-le (s ∷ []) = omega arith
grown-le (s ∷ t ∷ ss) = elim (Bool-cases (ltb (t.heap_used + heap_growth_noise) s.heap_used)) [
  | inl e ↦ rw e (omega (arith, grown-le (t ∷ ss)))
  | inr e ↦ rw e (omega arith)
]

abbrev newest : List MemSnapshot → Option MemSnapshot
newest [] = none
newest (s ∷ ss) = some s

length-history :
    (base : MemSnapshot) (ss : List (ℕ × MemSnapshot)) → length (history base ss) ≡ suc (length ss)
length-history base [] = refl
length-history base ((now, s) ∷ ss) = ap suc (length-history base ss)

next_streak-grown :
    (h : List MemSnapshot) (s : MemSnapshot)
    → length h < 2 ^ 31 + 2
    → next_streak (newest h) s (grown h) ≡ grown (s ∷ h)
next_streak-grown [] s few = refl
next_streak-grown (t ∷ ss) s few =
    let bound = grown-le (t ∷ ss) in
    let wrapped : (grown (t ∷ ss) + 1) % 2 ^ 32 ≡ suc (grown (t ∷ ss)) = omega arith in
    ap (λ n. if ltb (t.heap_used + heap_growth_noise) s.heap_used then n else 0) wrapped

is_due-spaced :
    (now : ℕ) (s : MemSnapshot) (ss : List (ℕ × MemSnapshot))
    → IsSpaced ((now, s) ∷ ss)
    → is_due (tick_of ss) now ≡ true
is_due-spaced now s [] spaced = refl
is_due-spaced now s ((before, t) ∷ ss) (apart, spaced) = ground arith

IsSpaced-tail :
    (now : ℕ) (s : MemSnapshot) (ss : List (ℕ × MemSnapshot))
    → IsSpaced ((now, s) ∷ ss)
    → IsSpaced ss
IsSpaced-tail now s [] spaced = tt
IsSpaced-tail now s ((before, t) ∷ ss) (apart, spaced) = spaced

-- What the state remembers of the snapshots reported so far.
record Remembers (base : MemSnapshot) (ss : List (ℕ × MemSnapshot)) : Type 0 where
  last : (reported base ss).last ≡ newest (history base ss)
  streak : (reported base ss).growth_streak ≡ grown (history base ss)
  tick : (reported base ss).last_tick ≡ tick_of ss

streak_after :
    (base : MemSnapshot) (s : MemSnapshot) (ss : List (ℕ × MemSnapshot))
    → Remembers base ss
    → length ss < 2 ^ 31
    → next_streak (reported base ss).last s (reported base ss).growth_streak
      ≡ grown (s ∷ history base ss)
streak_after base s ss r few =
    ap₂ (λ o n. next_streak o s n) r.last r.streak
    ∙ next_streak-grown (history base ss) s (omega (arith, length-history base ss))

reported-Remembers :
    (base : MemSnapshot) (ss : List (ℕ × MemSnapshot))
    → IsSpaced ss
    → length ss < 2 ^ 31
    → Remembers base ss
unfolding report capture_baseline
reported-Remembers base [] spaced few = record { last = refl; streak = refl; tick = refl }
reported-Remembers base ((now, s) ∷ ss) spaced few =
    let r = reported-Remembers base ss (IsSpaced-tail now s ss spaced) (omega arith) in
    let due : is_due (reported base ss).last_tick now ≡ true =
      ap (λ t. is_due t now) r.tick ∙ is_due-spaced now s ss spaced in
    record {
      last = rw (due, reported) refl;
      streak = rw (due, reported) (streak_after base s ss r (omega arith));
      tick = rw (due, reported) refl;
    }

leak-history :
    (streak : ℕ) (base : MemSnapshot) (ss : List (ℕ × MemSnapshot))
    → Remembers base ss
    → leak_warning (reported base ss).last streak ≡ leb leak_streak streak
leak-history streak base [] r = ap (λ o. leak_warning o streak) r.last
leak-history streak base ((now, s) ∷ ss) r = ap (λ o. leak_warning o streak) r.last

-- On fewer than 2^31 reports, two seconds apart or more, each report warns of a leak exactly if at least the latest
-- three snapshots in a row grew, by more than the noise of 256 bytes, over the one before (the first over the
-- baseline), and of low headroom exactly if the stack has less than its limit.
pub report-warnings :
    (base : MemSnapshot) (now : ℕ) (s : MemSnapshot) (ss : List (ℕ × MemSnapshot))
    → IsSpaced ((now, s) ∷ ss)
    → length ss < 2 ^ 31
    → (report (reported base ss) now s).1
      ≡ some (record {
        leak = leb leak_streak (grown (s ∷ history base ss));
        headroom = ltb s.stack_headroom stack_headroom_warn;
      })
unfolding report
report-warnings base now s ss spaced few =
    let r = reported-Remembers base ss (IsSpaced-tail now s ss spaced) few in
    let due : is_due (reported base ss).last_tick now ≡ true =
      ap (λ t. is_due t now) r.tick ∙ is_due-spaced now s ss spaced in
    rw due (
      ap (λ b. some (record { leak = b; headroom = ltb s.stack_headroom stack_headroom_warn }))
        (leak-history _ base ss r ∙ ap (leb leak_streak) (streak_after base s ss r few)))
